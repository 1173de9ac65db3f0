-- ===== src/WebDav/Dump/Props.antt =====
-- The blocks of properties in a dump (dsvn-webdav/src/dump_handlers.rs), and the values of headers.
-- A hash map is sorted by its keys. Texts are bytes; a slice that ends within a character is not
-- told from others.
pub mod RoundTrip
pub mod Truncated
use dsvn.Prelude.{
  ℕ, ◌+◌, Bool, Option, none, some, List, [], ◌∷◌, ◌++◌, if◌then◌else◌, length, take, drop,
}
use dsvn.Bytes.{Bytes, ascii, eqb, is_empty, starts_with, trim}
use dsvn.Text.{lines}
use dsvn.Decimal.{decimal, parse_u64}
use dsvn.SortedMap
use dsvn.SortedMap.{SortedMap}
use dsvn.WebDav.Xml.{cut}

-- A property with the lengths of its name and its value.
unfoldable pub prop_text : (name value : Bytes) → Bytes
prop_text name value =
    ascii "K "
    ++ (decimal (length name)
        ++ (10
            ∷ (name
                ++ (10 ∷ (ascii "V " ++ (decimal (length value) ++ (10 ∷ (value ++ (10 ∷ [])))))))))

abbrev pub props_end : Bytes
props_end = ascii "PROPS-END" ++ (10 ∷ [])

unfoldable pub prop_unless_empty : (name value : Bytes) → Bytes
prop_unless_empty name value = if is_empty value then [] else prop_text name value

unfoldable pub build_rev_props : (author message date : Bytes) → Bytes
unfolding prop_unless_empty
build_rev_props author message date =
    prop_unless_empty (ascii "svn:author") author
    ++ (prop_unless_empty (ascii "svn:log") message
        ++ (prop_unless_empty (ascii "svn:date") date ++ props_end))

abbrev pub build_empty_props : Bytes
build_empty_props = props_end

unfoldable pub build_node_props : Bool → Bytes
build_node_props executable =
    (if executable then prop_text (ascii "svn:executable") (ascii "*") else []) ++ props_end

-- What stands behind the first `: `, trimmed.
unfoldable pub hdr_val : Bytes → Bytes
hdr_val line = elim (cut (ascii ": ") line) [ none ↦ [] | some (name, value) ↦ trim value ]

-- `parse().unwrap_or(0)`, at `u64` and at `usize`.
unfoldable pub number_or_0 : Bytes → ℕ
number_or_0 text = elim (parse_u64 text) [ none ↦ 0 | some n ↦ n ]

-- What the loop of `parse_props_block` takes the next line for.
pub data Expected : Type 0 where
  key_length : Expected
  key_text : ℕ → Expected
  value_length : Bytes → Expected
  value_text : Bytes → ℕ → Expected

-- One turn of the loop of `parse_props_block`; `none` leaves it.
unfoldable pub after_line :
    Expected → SortedMap Bytes → (line : Bytes) → Option (Expected × SortedMap Bytes)
unfolding number_or_0
after_line key_length props line =
    if eqb line (ascii "PROPS-END")
    then none
    else if starts_with line (ascii "K ")
    then some (key_text (number_or_0 (drop 2 line)), props)
    else some (key_length, props)
after_line (key_text n) props line = some (value_length (take n line), props)
after_line (value_length name) props line =
    if starts_with line (ascii "V ")
    then some (value_text name (number_or_0 (drop 2 line)), props)
    else some (key_length, props)
after_line (value_text name n) props line =
    some (key_length, SortedMap.insert name (take n line) props)

unfoldable pub parse_props_lines : Expected → SortedMap Bytes → List Bytes → SortedMap Bytes
unfolding after_line
parse_props_lines e props [] = props
parse_props_lines e props (line ∷ ls) = elim (after_line e props line) [
  | none ↦ props
  | some (e', props') ↦ parse_props_lines e' props' ls
]

unfoldable pub parse_props_block : Bytes → SortedMap Bytes
unfolding parse_props_lines
parse_props_block text = parse_props_lines key_length [] (lines text)
