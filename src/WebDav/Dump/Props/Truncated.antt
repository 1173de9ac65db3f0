-- ===== src/WebDav/Dump/Props/Truncated.antt =====
-- A log message of two lines in a dump (dsvn-webdav/src/dump_handlers.rs).
use dsvn.Prelude.{
  ℕ, zero, suc, ◌^◌, ◌<◌, ◌≤◌, ◌≡◌, refl, ap, ◌∙◌, false, some, List, [], ◌∷◌, ◌++◌, arith, length,
  take, append_assoc, length-append,
}
use dsvn.Bytes.{Bytes, ascii, eqb, starts_with}
use dsvn.Text.{lines}
use dsvn.Text.Lines.{IsLine, lines-line, is_line, is_line-IsLine}
use dsvn.Decimal.{decimal}
use dsvn.SortedMap
use dsvn.SortedMap.{SortedMap, get-insert}
use dsvn.WebDav.Dump.Props.{
  key_length, prop_text, props_end, prop_unless_empty, build_rev_props, after_line,
  parse_props_lines, parse_props_block,
}
use dsvn.WebDav.Dump.Props.RoundTrip.{
  lines-prop_text, parse_props_lines-four, parse_prop, parse_end, put_unless_empty,
}

take_long : (s : Bytes) (n : ℕ) → length s ≤ n → take n s ≡ s
take_long [] zero h = refl
take_long [] (suc n) h = refl
take_long (c ∷ s) zero h = absurd (omega arith)
take_long (c ∷ s) (suc n) h = ap (λ r. c ∷ r) (take_long s n (omega arith))

skip_line :
    (props : SortedMap Bytes) (line : Bytes) (ls : List Bytes)
    → eqb line (ascii "PROPS-END") ≡ false
    → starts_with line (ascii "K ") ≡ false
    → parse_props_lines key_length props (line ∷ ls) ≡ parse_props_lines key_length props ls
unfolding parse_props_lines after_line
skip_line props line ls no_end no_name =
    let skipped : after_line key_length props line ≡ some (key_length, props) =
      rw (no_end, after_line) (rw no_name refl) in
    rw (skipped, parse_props_lines) refl

written :
    (name first second : Bytes)
    → prop_unless_empty name (first ++ (10 ∷ second)) ≡ prop_text name (first ++ (10 ∷ second))
unfolding prop_unless_empty
written name [] second = refl
written name (c ∷ first) second = refl

two_lines :
    (props : SortedMap Bytes) (first second : Bytes)
    → IsLine first
    → IsLine second
    → eqb second (ascii "PROPS-END") ≡ false
    → starts_with second (ascii "K ") ≡ false
    → length (first ++ (10 ∷ second)) < 2 ^ 64
    → parse_props_lines key_length props
        (lines (prop_unless_empty (ascii "svn:log") (first ++ (10 ∷ second)) ++ props_end))
      ≡ SortedMap.insert (ascii "svn:log") first props
unfolding is_line
two_lines props first second f g no_end no_name b =
    let n = length (first ++ (10 ∷ second)) in
    ap (λ t. parse_props_lines key_length props (lines (t ++ props_end)))
      (written (ascii "svn:log") first second)
    ∙ ap (parse_props_lines key_length props) (
        lines-prop_text (ascii "svn:log") (first ++ (10 ∷ second)) props_end
          (is_line-IsLine (ascii "svn:log") refl)
        ∙ ap (λ ls. (ascii "K " ++ decimal 7) ∷ ascii "svn:log" ∷ (ascii "V " ++ decimal n) ∷ ls)
            (ap lines (append_assoc first (10 ∷ second) (10 ∷ props_end))
              ∙ lines-line first _ f
              ∙ ap (λ ls. first ∷ ls) (lines-line second props_end g)))
    ∙ parse_props_lines-four props (ascii "svn:log") first n (second ∷ lines props_end)
        (omega arith) b
    ∙ skip_line _ second (lines props_end) no_end no_name
    ∙ parse_end _
    ∙ ap (λ t. SortedMap.insert (ascii "svn:log") t props)
        (take_long first n (omega (arith, length-append first (10 ∷ second))))

-- A log message of two lines, of which the second does not look like the start of a property or the
-- end of the block, reads back as its first line, although the block gives the length of both. The
-- author is one line, and there is no date.
pub parse_props_block_two_lines :
    (author first second : Bytes)
    → IsLine author
    → IsLine first
    → IsLine second
    → eqb second (ascii "PROPS-END") ≡ false
    → starts_with second (ascii "K ") ≡ false
    → length author < 2 ^ 64
    → length (first ++ (10 ∷ second)) < 2 ^ 64
    → SortedMap.get
        (ascii "svn:log")
        (parse_props_block (build_rev_props author (first ++ (10 ∷ second)) []))
      ≡ some first
unfolding parse_props_block build_rev_props is_line prop_unless_empty eqb
parse_props_block_two_lines author first second a f g no_end no_name ba b =
    ap (SortedMap.get (ascii "svn:log")) (
      parse_prop [] (ascii "svn:author") author _ (is_line-IsLine (ascii "svn:author") refl) a
        (omega arith) ba
      ∙ two_lines (put_unless_empty (ascii "svn:author") author []) first second f g no_end no_name
          b)
    ∙ get-insert (ascii "svn:log") (ascii "svn:log") first _
