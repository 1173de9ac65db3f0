-- ===== src/WebDav/Dump/Props/RoundTrip.antt =====
-- What `parse_props_block` reads of what `build_rev_props` writes (dsvn-webdav/src/dump_handlers.rs).
use dsvn.Prelude.{
  ℕ, ◌^◌, ◌<◌, ◌≡◌, refl, sym, ap, ◌∙◌, false, Option, none, some, List, [], ◌∷◌, ◌++◌, arith,
  length, take, take-append, append_assoc, append-nil, if◌then◌else◌, Bool-cases, inl, inr, ◌==◌,
}
use dsvn.Bytes.{Bytes, ascii, eqb, is_empty, starts_with}
use dsvn.Text.{lines, split_on, join_lines, strip_cr}
use dsvn.Text.Lines.{IsLine, lines-line, is_line, is_line-IsLine}
use dsvn.Decimal.{decimal}
use dsvn.Decimal.RoundTrip.{decimal-All, parse_u64-decimal}
use dsvn.SortedMap
use dsvn.SortedMap.{SortedMap, get-insert}
use dsvn.WebDav.Dump.Props.{
  key_length, prop_text, props_end, prop_unless_empty, build_rev_props, number_or_0, after_line,
  parse_props_lines, parse_props_block,
}

decimal-IsLine : (n : ℕ) → IsLine (decimal n)
decimal-IsLine n = (
  decimal-All (λ d. (d == 10) ≡ false) (λ d h. ground arith) n,
  decimal-All (λ d. (d == 13) ≡ false) (λ d h. ground arith) n,
)

prop_text-append :
    (name value rest : Bytes)
    → prop_text name value ++ rest
      ≡ ascii "K "
        ++ (decimal (length name)
            ++ (10
                ∷ (name
                    ++ (10
                        ∷ (ascii "V "
                            ++ (decimal (length value) ++ (10 ∷ (value ++ (10 ∷ rest)))))))))
unfolding prop_text
prop_text-append name value rest =
    ap (λ t. ascii "K " ++ t)
      (append_assoc (decimal (length name)) _ rest
        ∙ ap (λ t. decimal (length name) ++ (10 ∷ t))
            (append_assoc name _ rest
              ∙ ap (λ t. name ++ (10 ∷ (ascii "V " ++ t)))
                  (append_assoc (decimal (length value)) _ rest
                    ∙ ap (λ t. decimal (length value) ++ (10 ∷ t)) (append_assoc value _ rest))))

-- The three lines of a property before its value.
pub lines-prop_text :
    (name value rest : Bytes)
    → IsLine name
    → lines (prop_text name value ++ rest)
      ≡ (ascii "K " ++ decimal (length name))
        ∷ name
        ∷ (ascii "V " ++ decimal (length value))
        ∷ lines (value ++ (10 ∷ rest))
lines-prop_text name value rest n =
    let k = decimal-IsLine (length name) in
    let m = decimal-IsLine (length value) in
    ap lines (prop_text-append name value rest)
    ∙ lines-line (ascii "K " ++ decimal (length name)) _ ((refl, (refl, k.0)), (refl, (refl, k.1)))
    ∙ ap (λ ls. (ascii "K " ++ decimal (length name)) ∷ ls) (lines-line name _ n)
    ∙ ap (λ ls. (ascii "K " ++ decimal (length name)) ∷ name ∷ ls)
        (lines-line (ascii "V " ++ decimal (length value)) _
          ((refl, (refl, m.0)), (refl, (refl, m.1))))

pub take-all : (s : Bytes) → take (length s) s ≡ s
take-all s = ap (take (length s)) (sym (append-nil s)) ∙ take-append s []

pub number_or_0-decimal : (n : ℕ) → n < 2 ^ 64 → number_or_0 (decimal n) ≡ n
unfolding number_or_0
number_or_0-decimal n b = rw (parse_u64-decimal n b, number_or_0) refl

-- The first line of a value is cut off at its length.
pub parse_props_lines-four :
    (props : SortedMap Bytes) (name line : Bytes) (n : ℕ) (ls : List Bytes)
    → length name < 2 ^ 64
    → n < 2 ^ 64
    → parse_props_lines key_length props
        ((ascii "K " ++ decimal (length name)) ∷ name ∷ (ascii "V " ++ decimal n) ∷ line ∷ ls)
      ≡ parse_props_lines key_length (SortedMap.insert name (take n line) props) ls
unfolding parse_props_lines after_line eqb starts_with
parse_props_lines-four props name line n ls bn b =
    rw (number_or_0-decimal (length name) bn)
      (rw (take-all name) (rw (number_or_0-decimal n b) refl))

-- A property of a non-empty value of one line is read back.
unfoldable pub put_unless_empty : (name value : Bytes) → SortedMap Bytes → SortedMap Bytes
put_unless_empty name value props =
    if is_empty value then props else SortedMap.insert name value props

pub parse_prop :
    (props : SortedMap Bytes) (name value rest : Bytes)
    → IsLine name
    → IsLine value
    → length name < 2 ^ 64
    → length value < 2 ^ 64
    → parse_props_lines key_length props (lines (prop_unless_empty name value ++ rest))
      ≡ parse_props_lines key_length (put_unless_empty name value props) (lines rest)
unfolding prop_unless_empty put_unless_empty
parse_prop props name [] rest n v bn bv = refl
parse_prop props name (c ∷ value) rest n v bn bv =
    ap (parse_props_lines key_length props) (lines-prop_text name (c ∷ value) rest n)
    ∙ ap
        (λ ls. parse_props_lines key_length props (
          (ascii "K " ++ decimal (length name))
          ∷ name
          ∷ (ascii "V " ++ decimal (length (c ∷ value)))
          ∷ ls))
        (lines-line (c ∷ value) rest v)
    ∙ parse_props_lines-four props name (c ∷ value) (length (c ∷ value)) (lines rest) bn bv
    ∙ ap (λ t. parse_props_lines key_length (SortedMap.insert name t props) (lines rest))
        (take-all (c ∷ value))

pub parse_end :
    (props : SortedMap Bytes) → parse_props_lines key_length props (lines props_end) ≡ props
unfolding parse_props_lines after_line lines eqb split_on join_lines strip_cr
parse_end props = refl

parse_props_block_lem :
    (author message date : Bytes)
    → IsLine author
    → IsLine message
    → IsLine date
    → length author < 2 ^ 64
    → length message < 2 ^ 64
    → length date < 2 ^ 64
    → parse_props_block (build_rev_props author message date)
      ≡ put_unless_empty (ascii "svn:date") date (
          put_unless_empty
            (ascii "svn:log")
            message
            (put_unless_empty (ascii "svn:author") author []))
unfolding parse_props_block build_rev_props is_line
parse_props_block_lem author message date a m d ba bm bd =
    parse_prop [] (ascii "svn:author") author _ (is_line-IsLine (ascii "svn:author") refl) a
      (omega arith) ba
    ∙ parse_prop _ (ascii "svn:log") message _ (is_line-IsLine (ascii "svn:log") refl) m
        (omega arith) bm
    ∙ parse_prop _ (ascii "svn:date") date props_end (is_line-IsLine (ascii "svn:date") refl) d
        (omega arith) bd
    ∙ parse_end _

-- What a map holds for a value that is written unless it is empty.
abbrev pub unless_empty : Bytes → Option Bytes → Option Bytes
unless_empty [] other = other
unless_empty (c ∷ value) other = some (c ∷ value)

get-put_unless_empty :
    (k name value : Bytes) (props : SortedMap Bytes)
    → SortedMap.get k (put_unless_empty name value props)
      ≡ (if eqb name k then unless_empty value (SortedMap.get k props) else SortedMap.get k props)
unfolding put_unless_empty
get-put_unless_empty k name [] props = elim (Bool-cases (eqb name k)) [
  | inl e ↦ rw e refl
  | inr ne ↦ rw ne refl
]
get-put_unless_empty k name (c ∷ value) props = get-insert k name (c ∷ value) props

-- The author, the log message and the date of a revision, each one line of less than 2^64 bytes,
-- read back from the block that a dump writes for them; an empty one is no property.
pub parse_props_block-build_rev_props :
    (author message date : Bytes)
    → IsLine author
    → IsLine message
    → IsLine date
    → length author < 2 ^ 64
    → length message < 2 ^ 64
    → length date < 2 ^ 64
    → (SortedMap.get (ascii "svn:author") (parse_props_block (build_rev_props author message date))
        ≡ unless_empty author none)
      × (SortedMap.get (ascii "svn:log") (parse_props_block (build_rev_props author message date))
          ≡ unless_empty message none)
      × (SortedMap.get (ascii "svn:date") (parse_props_block (build_rev_props author message date))
          ≡ unless_empty date none)
unfolding eqb SortedMap.get
parse_props_block-build_rev_props author message date a m d ba bm bd =
    let whole = parse_props_block_lem author message date a m d ba bm bd in
    (
      rw whole (
          get-put_unless_empty (ascii "svn:author") (ascii "svn:date") date _
          ∙ get-put_unless_empty (ascii "svn:author") (ascii "svn:log") message _
          ∙ get-put_unless_empty (ascii "svn:author") (ascii "svn:author") author []),
      rw whole (
          get-put_unless_empty (ascii "svn:log") (ascii "svn:date") date _
          ∙ get-put_unless_empty (ascii "svn:log") (ascii "svn:log") message _
          ∙ ap (unless_empty message)
              (get-put_unless_empty (ascii "svn:log") (ascii "svn:author") author [])),
      rw whole (
          get-put_unless_empty (ascii "svn:date") (ascii "svn:date") date _
          ∙ ap (unless_empty date) (
              get-put_unless_empty (ascii "svn:date") (ascii "svn:log") message _
              ∙ get-put_unless_empty (ascii "svn:date") (ascii "svn:author") author [])),
    )
