-- ===== src/WebDav/Dump/Params.antt =====
-- `DumpParams::from_query` of dsvn-webdav/src/dump_handlers.rs: the revisions that a dump covers.
pub mod Range
use dsvn.Prelude.{
  ℕ, ◌^◌, Bool, true, false, ◌||◌, Option, none, some, List, [], ◌∷◌, if◌then◌else◌, ltb,
}
use dsvn.Bytes.{Bytes, ascii, eqb, is_empty}
use dsvn.Text.{split_on, split_once, to_lowercase}
use dsvn.Decimal.{parse_u64}

pub record DumpParams : Type 0 where
  pub start_rev : ℕ
  pub end_rev : ℕ
  pub incremental : Bool
  pub format_version : ℕ

abbrev pub parsed_or : ℕ → Option ℕ → ℕ
parsed_or d none = d
parsed_or d (some n) = n

unfoldable pub parse_u32 : Bytes → Option ℕ
parse_u32 s = elim (parse_u64 s) [ none ↦ none | some n ↦ if ltb n (2 ^ 32) then some n else none ]

-- The end of a range: `head`, in any case, or a number, and the head for what is no number.
unfoldable pub parse_end : ℕ → Bytes → ℕ
parse_end head_rev e =
    if eqb (to_lowercase e) (ascii "head") then head_rev else parsed_or head_rev (parse_u64 e)

unfoldable pub read_param : ℕ → DumpParams → (key val : Bytes) → DumpParams
unfolding parse_end parse_u32
read_param head_rev p key val =
    if eqb key (ascii "r") || eqb key (ascii "revision") || eqb key (ascii "rev")
    then elim (split_once b':' val) [
      | some (s, e) ↦ record p {
        start_rev = parsed_or 0 (parse_u64 s);
        end_rev = parse_end head_rev e;
      }
      | none ↦ record p { start_rev = parsed_or 0 (parse_u64 val) }
    ]
    else if eqb key (ascii "incremental")
    then record p { incremental = eqb val (ascii "true") || eqb val (ascii "1") || is_empty val }
    else if eqb key (ascii "format") || eqb key (ascii "dump-format")
    then record p { format_version = parsed_or 3 (parse_u32 val) }
    else if eqb key (ascii "start")
    then record p { start_rev = parsed_or 0 (parse_u64 val) }
    else if eqb key (ascii "end")
    then record p { end_rev = parse_end head_rev val }
    else p

unfoldable pub read_params : ℕ → DumpParams → List Bytes → DumpParams
unfolding read_param
read_params head_rev p [] = p
read_params head_rev p (pair ∷ pairs) =
    read_params head_rev
      (elim (split_once b'=' pair) [
        | none ↦ read_param head_rev p pair []
        | some (key, val) ↦ read_param head_rev p key val
      ])
      pairs

-- The end is at most the head, and then the two ends are swapped if they are in descending order.
unfoldable pub clamp : ℕ → DumpParams → DumpParams
clamp head_rev p =
    let end_rev = if ltb p.end_rev head_rev then p.end_rev else head_rev in
    if ltb end_rev p.start_rev
    then record p { start_rev = end_rev; end_rev = p.start_rev }
    else record p { end_rev = end_rev }

unfoldable pub from_query : Bytes → ℕ → DumpParams
unfolding read_params clamp
from_query query head_rev = clamp head_rev (
    read_params head_rev
      (record { start_rev = 0; end_rev = head_rev; incremental = false; format_version = 3 })
      (split_on b'&' query))
