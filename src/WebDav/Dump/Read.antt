-- ===== src/WebDav/Dump/Read.antt =====
-- Reading a dump (dsvn-webdav/src/dump_handlers.rs). A reader is the bytes that are left. Texts are
-- bytes, so that a line is read whatever it holds, while the source fails at one that is not UTF-8.
-- A length beyond the memory counts as one beyond the end of the input, and so does the sum of two
-- lengths that passes 2 ^ 64, which wraps or panics in the source. The loops have one step for each byte that is left, and each consumes one.
use dsvn.Prelude.{
  ℕ, zero, suc, ◌+◌, ℤ, Bool, true, false, ◌||◌, ◌&&◌, ◌⊎◌, inl, inr, Option, none, some, List, [],
  ◌∷◌, if◌then◌else◌, length, take, drop, ltb, leb, ◌==◌,
}
use dsvn.Bytes.{Bytes, ascii, eqb, is_empty, starts_with, trim}
use dsvn.SortedMap.{SortedMap}
use dsvn.Sqlite.Files.{Failure}
use dsvn.WebDav.Dump.Props.{hdr_val, number_or_0, parse_props_block}

pub data NodeAction : Type 0 where
  add delete change replace : NodeAction

pub data NodeKind : Type 0 where
  file dir : NodeKind

pub record ParsedNode : Type 0 where
  pub path : Bytes
  pub kind : Option NodeKind
  pub action : Option NodeAction
  pub content : Bytes

pub record ParsedRevision : Type 0 where
  pub revision_number : ℕ
  pub author : Bytes
  pub message : Bytes
  pub timestamp : ℤ
  pub nodes : List ParsedNode

-- Why a load ends early: the input is too short, a slice panics, or the repository fails.
pub data LoadError : Type 0 where
  unexpected_eof panicked : LoadError
  repository : Failure → LoadError

-- A line with its line feed, and what follows it; no line at the end of the input.
unfoldable pub read_line : Bytes → Bytes × Bytes
read_line [] = ([], [])
read_line (c ∷ r) = let rest = read_line r in if c == 10 then (c ∷ [], r) else (c ∷ rest.0, rest.1)

unfoldable pub read_exact : ℕ → Bytes → LoadError ⊎ (Bytes × Bytes)
read_exact n r = if ltb (length r) n then inl unexpected_eof else inr (take n r, drop n r)

-- A header line of the lengths of the properties and of the content.
unfoldable pub read_hdr : (t : Bytes) → ℕ × ℕ → ℕ × ℕ
read_hdr t (pl, cl) =
    if starts_with t (ascii "Prop-content-length:")
    then (number_or_0 (hdr_val t), cl)
    else if starts_with t (ascii "Content-length:")
    then (pl, number_or_0 (hdr_val t))
    else (pl, cl)

-- The loop ends at an empty line and at the end of the input.
unfoldable pub read_hdr_buf : ℕ → Bytes → ℕ × ℕ → (ℕ × ℕ) × Bytes
unfolding read_line read_hdr
read_hdr_buf zero r ls = (ls, r)
read_hdr_buf (suc fuel) r ls =
    let (line, r') = read_line r in
    elim (is_empty (trim line)) [
      | true ↦ (ls, r')
      | false ↦ read_hdr_buf fuel r' (read_hdr (trim line) ls)
    ]

-- The properties of a revision; a length of them beyond the content's panics.
unfoldable pub read_props : (pl cl : ℕ) → Bytes → LoadError ⊎ (SortedMap Bytes × Bytes)
unfolding read_exact
read_props pl cl r =
    let total = if ltb 0 cl then cl else pl in
    if ltb 0 total
    then elim (read_exact total r) [
      | inl e ↦ inl e
      | inr (buf, r') ↦
          if ltb 0 pl
          then if leb pl (length buf)
            then inr (parse_props_block (take pl buf), r')
            else inl panicked
          else inr ([], r')
    ]
    else inr ([], r)

abbrev pub or_text : Option Bytes → Bytes → Bytes
or_text none text = text
or_text (some found) text = found

unfoldable pub kind_of : Bytes → Option NodeKind
kind_of v =
    if eqb v (ascii "file") then some file else if eqb v (ascii "dir") then some dir else none

unfoldable pub action_of : Bytes → Option NodeAction
action_of v =
    if eqb v (ascii "add")
    then some add
    else if eqb v (ascii "delete")
    then some delete
    else if eqb v (ascii "change")
    then some change
    else if eqb v (ascii "replace")
    then some replace
    else none

-- The lengths of the properties, of the text and of the content.
unfoldable pub content_header : (t : Bytes) → ℕ × ℕ × ℕ → ℕ × ℕ × ℕ
content_header t (pl, tl, tcl) =
    if starts_with t (ascii "Prop-content-length:")
    then (number_or_0 (hdr_val t), tl, tcl)
    else if starts_with t (ascii "Text-content-length:")
    then (pl, number_or_0 (hdr_val t), tcl)
    else if starts_with t (ascii "Content-length:")
    then (pl, tl, number_or_0 (hdr_val t))
    else (pl, tl, tcl)

unfoldable pub read_content_headers : ℕ → Bytes → ℕ × ℕ × ℕ → (ℕ × ℕ × ℕ) × Bytes
unfolding read_line content_header
read_content_headers zero r ls = (ls, r)
read_content_headers (suc fuel) r ls =
    let (line, r') = read_line r in
    elim (is_empty (trim line)) [
      | true ↦ (ls, r')
      | false ↦ read_content_headers fuel r' (content_header (trim line) ls)
    ]

unfoldable pub text_of : (buf : Bytes) (pl tl : ℕ) → Bytes
text_of buf pl tl =
    if ltb 0 tl && leb (pl + tl) (length buf) then take tl (drop pl buf) else take tl buf

-- The content of a node, and the line feed behind it.
unfoldable pub read_content : ParsedNode → (ℕ × ℕ × ℕ) × Bytes → LoadError ⊎ (ParsedNode × Bytes)
unfolding read_exact text_of read_line
read_content nd ((pl, tl, tcl), r) =
    let rl = if ltb 0 tcl then tcl else pl + tl in
    if ltb 0 rl
    then elim (read_exact rl r) [
      | inl e ↦ inl e
      | inr (buf, r') ↦ inr (record nd { content = text_of buf pl tl }, (read_line r').1)
    ]
    else inr (nd, (read_line r).1)

unfoldable pub is_content_header : Bytes → Bool
is_content_header t =
    starts_with t (ascii "Prop-content-length:")
    || starts_with t (ascii "Text-content-length:")
    || starts_with t (ascii "Content-length:")

unfoldable pub node_header : (t : Bytes) → ParsedNode → ParsedNode
unfolding kind_of action_of
node_header t nd =
    if starts_with t (ascii "Node-kind:")
    then record nd { kind = kind_of (hdr_val t) }
    else if starts_with t (ascii "Node-action:")
    then record nd { action = action_of (hdr_val t) }
    else nd

unfoldable pub parse_node_headers : ℕ → Bytes → ParsedNode → LoadError ⊎ (ParsedNode × Bytes)
unfolding read_line read_content_headers read_content node_header is_content_header
parse_node_headers zero r nd = inr (nd, r)
parse_node_headers (suc fuel) r nd =
    let (line, r') = read_line r in
    elim (is_empty (trim line)) [
      | true ↦ inr (nd, r')
      | false ↦ elim (is_content_header (trim line)) [
        | false ↦ parse_node_headers fuel r' (node_header (trim line) nd)
        | true ↦
            read_content nd (read_content_headers fuel r' (content_header (trim line) (0, 0, 0)))
      ]
    ]
