-- ===== src/WebDav/Xml.antt =====
-- How the handlers read and write XML (dsvn-webdav/src/handlers.rs): by searching for tags in the
-- text. A position in a text is modelled by what stands before and after it.
pub mod Escape
use dsvn.Prelude.{
  ℕ, zero, suc, ◌<◌, Bool, true, false, Option, none, some, List, [], ◌∷◌, ◌++◌, if◌then◌else◌,
  length, ltb, ◌==◌, ◌>>=◌,
}
use dsvn.Bytes.{Bytes, ascii, strip_prefix, eqb, is_empty}
use dsvn.Decimal.{parse_u64}
use dsvn.Text.{split_once}

-- `replace` of one character by a text.
unfoldable pub replace_char : ℕ → Bytes → Bytes → Bytes
replace_char c text [] = []
replace_char c text (d ∷ s) =
    let rest = replace_char c text s in if c == d then text ++ rest else d ∷ rest

unfoldable pub escape_xml : Bytes → Bytes
unfolding replace_char
escape_xml s = replace_char b'\'' (ascii "&apos;") (
    replace_char b'"' (ascii "&quot;") (
      replace_char b'>' (ascii "&gt;")
        (replace_char b'<' (ascii "&lt;") (replace_char b'&' (ascii "&amp;") s))))

-- What stands before and after the first occurrence of a text, as `find` locates it.
unfoldable pub cut : Bytes → Bytes → Option (Bytes × Bytes)
cut text [] = elim (strip_prefix [] text) [ none ↦ none | some after ↦ some ([], after) ]
cut text (c ∷ s) =
    let rest = cut text s in
    elim (strip_prefix (c ∷ s) text) [
      | some after ↦ some ([], after)
      | none ↦ elim rest [ none ↦ none | some (before, after) ↦ some (c ∷ before, after) ]
    ]

unfoldable pub contains : Bytes → Bytes → Bool
unfolding cut
contains s text = elim (cut text s) [ none ↦ false | some found ↦ true ]

unfoldable pub extract_text_between : (s start_tag end_tag : Bytes) → Option Bytes
unfolding cut
extract_text_between s start_tag end_tag = do
  (before, after) ← cut start_tag s
  (between, rest) ← cut end_tag after
  some between

-- The number between two tags, if one stands there.
unfoldable pub extract_number : (s start_tag end_tag : Bytes) → Option ℕ
unfolding extract_text_between
extract_number s start_tag end_tag = do
  text ← extract_text_between s start_tag end_tag
  parse_u64 text

abbrev or_default : Option ℕ → ℕ → ℕ
or_default none d = d
or_default (some n) d = n

-- The two ends of the range in ascending order, and whether they were asked for the other way.
unfoldable pub parse_log_range : Bytes → ℕ → ℕ × ℕ × Bool
unfolding extract_number
parse_log_range body current_rev =
    let start =
      or_default (extract_number body (ascii "<S:start-revision>") (ascii "</S:start-revision>"))
        1 in
    let end =
      or_default (extract_number body (ascii "<S:end-revision>") (ascii "</S:end-revision>"))
        current_rev in
    if ltb end start then (end, start, true) else (start, end, false)

-- Every occurrence with its tags, and what stands after it is searched next.
unfoldable pub find_all_from : ℕ → (s start_tag end_tag : Bytes) → List Bytes
unfolding cut
find_all_from zero s start_tag end_tag = []
find_all_from (suc fuel) s start_tag end_tag = elim (cut start_tag s) [
  | none ↦ []
  | some (before, after) ↦ elim (cut end_tag after) [
    | none ↦ []
    | some (between, rest) ↦
        (start_tag ++ (between ++ end_tag)) ∷ find_all_from fuel rest start_tag end_tag
  ]
]

unfoldable pub find_all_between : (s start_tag end_tag : Bytes) → List Bytes
unfolding find_all_from
find_all_between s start_tag end_tag = find_all_from (length s) s start_tag end_tag

unfoldable pub convert_ns_tag_to_prop_name : Bytes → Bytes
convert_ns_tag_to_prop_name ns_tag = elim (split_once b':' ns_tag) [
  | none ↦ ns_tag
  | some (prefix, local) ↦
      if eqb prefix (ascii "S")
      then ascii "svn:" ++ local
      else if eqb prefix (ascii "ns1")
      then ascii "svn:" ++ local
      else local
]
