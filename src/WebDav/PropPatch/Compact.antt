-- ===== src/WebDav/PropPatch/Compact.antt =====
-- `parse_property_element` (dsvn-webdav/src/proppatch.rs) on a block with no white space after the
-- start tag, as the comment in its body shows it.
use dsvn.Prelude.{
  ℕ, ◌≡◌, refl, sym, ap, ◌∙◌, Option, none, some, [], ◌∷◌, ◌++◌, arith, false, length, ltb, ==_iff,
  Option-cases, inl, inr, All-append, ge→ltb, append-nil,
}
use dsvn.Bytes.{Bytes, ascii, strip_prefix}
use dsvn.Text.{split_on}
use dsvn.Text.Search.{Free, split_on-Free}
use dsvn.WebDav.Xml.{cut}
use dsvn.WebDav.PropPatch.{parse_property_element, parse_content, after_last_colon, last_piece}

abbrev prepend : Bytes → Option (Bytes × Bytes) → Option (Bytes × Bytes)
prepend p none = none
prepend p (some (before, after)) = some (p ++ before, after)

-- The text starts nowhere in `s`, with `rest` after it.
abbrev Skips : (text s rest : Bytes) → Type 0
Skips text [] rest = Unit
Skips text (c ∷ s) rest = (strip_prefix (c ∷ (s ++ rest)) text ≡ none) × Skips text s rest

prepend_again :
    (c : ℕ) (s : Bytes) (o : Option (Bytes × Bytes))
    → prepend (c ∷ []) (prepend s o) ≡ prepend (c ∷ s) o
prepend_again c s none = refl
prepend_again c s (some (before, after)) = refl

cut-step :
    (text : Bytes) (c : ℕ) (s : Bytes)
    → strip_prefix (c ∷ s) text ≡ none
    → cut text (c ∷ s) ≡ prepend (c ∷ []) (cut text s)
unfolding cut
cut-step text c s h =
    rw (h, cut)
      (elim (Option-cases (cut text s)) [
        | inl e ↦ rw (e, cut) refl
        | inr (p, e) ↦ rw (e, cut) refl
      ])

prepend-nil : (o : Option (Bytes × Bytes)) → prepend [] o ≡ o
prepend-nil none = refl
prepend-nil (some p) = refl

pub cut-Skips :
    (text s rest : Bytes) → Skips text s rest → cut text (s ++ rest) ≡ prepend s (cut text rest)
cut-Skips text [] rest h = sym (prepend-nil (cut text rest))
cut-Skips text (c ∷ s) rest h =
    cut-step text c (s ++ rest) h.0
    ∙ ap (prepend (c ∷ [])) (cut-Skips text s rest h.1)
    ∙ prepend_again c s (cut text rest)

Free-Skips : (c : ℕ) (text s rest : Bytes) → Free c s → Skips (c ∷ text) s rest
unfolding strip_prefix
Free-Skips c text [] rest f = tt
Free-Skips c text (d ∷ s) rest f = (rw f.0 refl, Free-Skips c text s rest f.1)

strip_prefix-append : (text rest : Bytes) → strip_prefix (text ++ rest) text ≡ some rest
unfolding strip_prefix
strip_prefix-append [] [] = refl
strip_prefix-append [] (c ∷ rest) = refl
strip_prefix-append (c ∷ text) rest = rw ((==_iff c c).1 refl) (strip_prefix-append text rest)

pub cut-here : (c : ℕ) (text rest : Bytes) → cut (c ∷ text) ((c ∷ text) ++ rest) ≡ some ([], rest)
unfolding cut
cut-here c text rest = rw (strip_prefix-append (c ∷ text) rest, cut) refl

-- The search finds what follows bytes that do not hold its first.
pub cut-Free :
    (c : ℕ) (text s rest : Bytes)
    → Free c s
    → cut (c ∷ text) (s ++ ((c ∷ text) ++ rest)) ≡ some (s, rest)
cut-Free c text s rest f =
    cut-Skips (c ∷ text) s ((c ∷ text) ++ rest) (Free-Skips c text s ((c ∷ text) ++ rest) f)
    ∙ ap (prepend s) (cut-here c text rest)
    ∙ ap (λ (t : Bytes). some (t, rest)) (append-nil s)

-- The element of a property of Subversion's name space, but for the `<` of its two tags.
opening : (name value : Bytes) → Bytes
opening name value = ascii "svn:" ++ (name ++ (ascii ">" ++ value))

closing : Bytes → Bytes
closing name = (ascii "/svn:" ++ name) ++ ascii ">"

-- `<D:prop><svn:name>value</svn:name></D:prop>`
pub compact_block : (name value : Bytes) → Bytes
unfolding opening closing
compact_block name value =
    ascii "<D:prop>"
    ++ (ascii "<" ++ (opening name value ++ (ascii "<" ++ (closing name ++ ascii "</D:prop>"))))

-- What stands before the end tag.
before_end : (name value : Bytes) → Bytes
before_end name value =
    ascii "<D:prop>" ++ (ascii "<" ++ (opening name value ++ (ascii "<" ++ closing name)))

after_last_colon-name :
    (name : Bytes) → Free b':' name → after_last_colon (ascii "/svn:" ++ name) ≡ name
unfolding after_last_colon last_piece split_on
after_last_colon-name name f = rw (split_on-Free b':' name f, split_on) refl

module _ (name value : Bytes) (n1 : Free b'<' name) (v1 : Free b'<' value) where
  opening-Free : Free b'<' (opening name value)
  unfolding opening
  opening-Free =
      (refl, (refl, (refl, (refl, All-append _ name (ascii ">" ++ value) n1 (refl, v1)))))

  closing-Free : Free b'<' (closing name)
  unfolding closing
  closing-Free = (refl, (refl, (refl, (refl, (refl, All-append _ name (ascii ">") n1 (refl, tt))))))

  cut-compact_block :
      cut (ascii "</D:prop>") (compact_block name value) ≡ some (before_end name value, [])
  unfolding compact_block before_end strip_prefix opening closing
  cut-compact_block =
      let pat = ascii "</D:prop>" in
      let last = ascii "<" ++ (closing name ++ pat) in
      let element = ascii "<" ++ (opening name value ++ last) in
      cut-step pat b'<' (ascii "D:prop>" ++ element) refl
      ∙ ap (prepend (ascii "<")) (
          cut-Skips pat (ascii "D:prop>") element (
            Free-Skips b'<' (ascii "/D:prop>") (ascii "D:prop>") element
              (refl, (refl, (refl, (refl, (refl, (refl, (refl, tt))))))))
          ∙ ap (prepend (ascii "D:prop>")) (
              cut-step pat b'<' (opening name value ++ last) refl
              ∙ ap (prepend (ascii "<")) (
                  cut-Skips pat (opening name value) last
                    (Free-Skips b'<' (ascii "/D:prop>") (opening name value) last opening-Free)
                  ∙ ap (prepend (opening name value)) (
                      cut-step pat b'<' (closing name ++ pat) refl
                      ∙ ap (prepend (ascii "<"))
                          (cut-Free b'<' (ascii "/D:prop>") (closing name) [] closing-Free)))))

  parse_content-element :
      Free b'>' name
      → Free b':' name
      → parse_content (opening name value ++ (ascii "<" ++ closing name)) ≡ some (name, [])
  unfolding parse_content closing cut strip_prefix
  parse_content-element n2 n3 =
      rw (cut-Free b'<' [] (opening name value) (closing name) opening-Free, parse_content)
        (rw (cut-Free b'>' [] (ascii "/svn:" ++ name) [] (refl, (refl, (refl, (refl, (refl, n2))))))
          (rw (after_last_colon-name name n3) refl))

  -- A block in the form that the comment of the function shows, with no white space before the
  -- element, loses its value: for every name without `<`, `>` and `:` and every value without `<`,
  -- the name is found, and the empty text.
  pub parse_property_element-compact_block :
      Free b'>' name
      → Free b':' name
      → parse_property_element (compact_block name value) ≡ some (some (name, []))
  unfolding parse_property_element compact_block before_end
  parse_property_element-compact_block n2 n3 =
      rw
        (
          cut-here b'<' (ascii "D:prop>") (
              ascii "<"
              ++ (opening name value ++ (ascii "<" ++ (closing name ++ ascii "</D:prop>")))),
          parse_property_element,
        )
        (rw (cut-compact_block, parse_property_element)
          (rw enough (ap (λ (o : Option (Bytes × Bytes)). some o) (parse_content-element n2 n3))))
    where
      enough : ltb (length (before_end name value)) 9 ≡ false
      enough = ge→ltb (length (before_end name value)) 9 (omega arith)
