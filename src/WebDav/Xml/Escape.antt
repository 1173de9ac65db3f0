-- ===== src/WebDav/Xml/Escape.antt =====
-- `escape_xml` (dsvn-webdav/src/handlers.rs and proppatch.rs) against a replacement in one pass.
use dsvn.Prelude.{
  ℕ, zero, suc, ◌≡◌, ◌≢◌, refl, sym, ap, ◌∙◌, true, false, none, some, [], ◌∷◌, ◌++◌, arith,
  if◌then◌else◌, length, ◌==◌, ==_iff, All, All-append, append_assoc, Bool-cases, inl, inr,
}
use dsvn.Bytes.{Bytes, ascii, strip_prefix}
use dsvn.WebDav.Xml.{replace_char, escape_xml}

-- The entity of a character that XML reserves, and the character itself otherwise.
escape_char : ℕ → Bytes
escape_char c =
    if b'&' == c
    then ascii "&amp;"
    else if b'<' == c
    then ascii "&lt;"
    else if b'>' == c
    then ascii "&gt;"
    else if b'"' == c
    then ascii "&quot;"
    else if b'\'' == c
    then ascii "&apos;"
    else c ∷ []

-- Which of the five tests a character meets.
data Tested (c : ℕ) : Type 0 where
  amp : (b'&' == c) ≡ true → Tested c
  lt : (b'&' == c) ≡ false → (b'<' == c) ≡ true → Tested c
  gt : (b'&' == c) ≡ false → (b'<' == c) ≡ false → (b'>' == c) ≡ true → Tested c
  quot :
      (b'&' == c) ≡ false
      → (b'<' == c) ≡ false
      → (b'>' == c) ≡ false
      → (b'"' == c) ≡ true
      → Tested c
  apos :
      (b'&' == c) ≡ false
      → (b'<' == c) ≡ false
      → (b'>' == c) ≡ false
      → (b'"' == c) ≡ false
      → (b'\'' == c) ≡ true
      → Tested c
  plain :
      (b'&' == c) ≡ false
      → (b'<' == c) ≡ false
      → (b'>' == c) ≡ false
      → (b'"' == c) ≡ false
      → (b'\'' == c) ≡ false
      → Tested c

tested : (c : ℕ) → Tested c
tested c = elim (Bool-cases (b'&' == c)) [
  | inl e ↦ amp e
  | inr n1 ↦ elim (Bool-cases (b'<' == c)) [
    | inl e ↦ lt n1 e
    | inr n2 ↦ elim (Bool-cases (b'>' == c)) [
      | inl e ↦ gt n1 n2 e
      | inr n3 ↦ elim (Bool-cases (b'"' == c)) [
        | inl e ↦ quot n1 n2 n3 e
        | inr n4 ↦ elim (Bool-cases (b'\'' == c)) [
          | inl e ↦ apos n1 n2 n3 n4 e
          | inr n5 ↦ plain n1 n2 n3 n4 n5
        ]
      ]
    ]
  ]
]

replace_char-append :
    (c : ℕ) (text a b : Bytes)
    → replace_char c text (a ++ b) ≡ replace_char c text a ++ replace_char c text b
unfolding replace_char
replace_char-append c text [] b = refl
replace_char-append c text (d ∷ a) b = elim (Bool-cases (c == d)) [
  | inl e ↦ rw e (rw (replace_char-append c text a b) (sym (append_assoc text _ _)))
  | inr ne ↦ rw ne (rw (replace_char-append c text a b) refl)
]

-- The four replacements after that of `&`.
later : Bytes → Bytes
later s = replace_char b'\'' (ascii "&apos;") (
    replace_char b'"' (ascii "&quot;")
      (replace_char b'>' (ascii "&gt;") (replace_char b'<' (ascii "&lt;") s)))

later-append : (a b : Bytes) → later (a ++ b) ≡ later a ++ later b
unfolding later
later-append a b = simp replace_char-append

later-char : (c : ℕ) → later (if b'&' == c then ascii "&amp;" else c ∷ []) ≡ escape_char c
unfolding later escape_char replace_char
later-char c = elim (tested c) [
  | amp e ↦ rw e refl
  | lt n1 e ↦ rw n1 (rw e refl)
  | gt n1 n2 e ↦ rw n1 (rw n2 (rw e refl))
  | quot n1 n2 n3 e ↦ rw n1 (rw n2 (rw n3 (rw e refl)))
  | apos n1 n2 n3 n4 e ↦ rw n1 (rw n2 (rw n3 (rw n4 (rw e refl))))
  | plain n1 n2 n3 n4 n5 ↦ rw n1 (rw n2 (rw n3 (rw n4 (rw n5 refl))))
]

first :
    (c : ℕ) (s : Bytes)
    → replace_char b'&' (ascii "&amp;") (c ∷ s)
      ≡ (if b'&' == c then ascii "&amp;" else c ∷ []) ++ replace_char b'&' (ascii "&amp;") s
unfolding replace_char
first c s = elim (Bool-cases (b'&' == c)) [ inl e ↦ rw e refl | inr ne ↦ rw ne refl ]

escape_xml-cons : (c : ℕ) (s : Bytes) → escape_xml (c ∷ s) ≡ escape_char c ++ escape_xml s
unfolding escape_xml later
escape_xml-cons c s =
    ap later (first c s)
    ∙ later-append (if b'&' == c then ascii "&amp;" else c ∷ [])
        (replace_char b'&' (ascii "&amp;") s)
    ∙ ap (λ (p : Bytes). p ++ escape_xml s) (later-char c)

-- What an XML reader makes of a reference: one of the five predefined entities, or `&` itself.
entity : Bytes → ℕ × Bytes
entity s = elim (strip_prefix s (ascii "amp;")) [
  | some r ↦ (b'&', r)
  | none ↦ elim (strip_prefix s (ascii "lt;")) [
    | some r ↦ (b'<', r)
    | none ↦ elim (strip_prefix s (ascii "gt;")) [
      | some r ↦ (b'>', r)
      | none ↦ elim (strip_prefix s (ascii "quot;")) [
        | some r ↦ (b'"', r)
        | none ↦ elim (strip_prefix s (ascii "apos;")) [ some r ↦ (b'\'', r) | none ↦ (b'&', s) ]
      ]
    ]
  ]
]

-- Character data as an XML reader decodes it, a step for each character.
pub unescape : ℕ → Bytes → Bytes
unfolding entity
unescape zero s = []
unescape (suc fuel) [] = []
unescape (suc fuel) (c ∷ s) =
    let (d, rest) = entity s in
    let decoded = d ∷ unescape fuel rest in
    let plain = c ∷ unescape fuel s in if b'&' == c then decoded else plain

unescape-escape_char :
    (fuel c : ℕ) (t : Bytes) → unescape (suc fuel) (escape_char c ++ t) ≡ c ∷ unescape fuel t
unfolding unescape escape_char strip_prefix
unescape-escape_char fuel c t = elim (tested c) [
  | amp e ↦ rw e (front ((==_iff b'&' c).0 e))
  | lt n1 e ↦ rw n1 (rw e (front ((==_iff b'<' c).0 e)))
  | gt n1 n2 e ↦ rw n1 (rw n2 (rw e (front ((==_iff b'>' c).0 e))))
  | quot n1 n2 n3 e ↦ rw n1 (rw n2 (rw n3 (rw e (front ((==_iff b'"' c).0 e)))))
  | apos n1 n2 n3 n4 e ↦ rw n1 (rw n2 (rw n3 (rw n4 (rw e (front ((==_iff b'\'' c).0 e))))))
  | plain n1 n2 n3 n4 n5 ↦ rw n1 (rw n2 (rw n3 (rw n4 (rw n5 (rw n1 refl)))))
]
  where
    front : {d : ℕ} → d ≡ c → ◌≡◌ {A = Bytes} (d ∷ unescape fuel t) (c ∷ unescape fuel t)
    front e = ap (λ (d : ℕ). d ∷ unescape fuel t) e

-- No byte of the text opens or closes markup.
abbrev pub IsPlain : ℕ → Type 0
IsPlain c = (c ≢ b'<') × (c ≢ b'>') × (c ≢ b'"') × (c ≢ b'\'')

escape_char-IsPlain : (c : ℕ) → All IsPlain (escape_char c)
unfolding escape_char
escape_char-IsPlain c = elim (tested c) [
  | amp e ↦ rw e (omega arith)
  | lt n1 e ↦ rw n1 (rw e (omega arith))
  | gt n1 n2 e ↦ rw n1 (rw n2 (rw e (omega arith)))
  | quot n1 n2 n3 e ↦ rw n1 (rw n2 (rw n3 (rw e (omega arith))))
  | apos n1 n2 n3 n4 e ↦ rw n1 (rw n2 (rw n3 (rw n4 (rw e (omega arith)))))
  | plain n1 n2 n3 n4 n5 ↦ rw n1 (rw n2 (rw n3 (rw n4 (rw n5 ((ne n2, ne n3, ne n4, ne n5), tt)))))
]
  where
    ne : {d : ℕ} → (d == c) ≡ false → c ≢ d
    ne {d} h e = ground arith

-- The text that `escape_xml` returns has no markup and no quote, and an XML reader decodes it to
-- the text that was escaped.
pub unescape-escape_xml :
    (s : Bytes) → All IsPlain (escape_xml s) × (unescape (length s) (escape_xml s) ≡ s)
unfolding escape_xml unescape
unescape-escape_xml [] = (tt, refl)
unescape-escape_xml (c ∷ s) = (
  rw (escape_xml-cons c s) (
      All-append IsPlain (escape_char c) (escape_xml s) (escape_char-IsPlain c)
        (unescape-escape_xml s).0),
  ap (unescape (suc (length s))) (escape_xml-cons c s)
      ∙ unescape-escape_char (length s) c (escape_xml s)
      ∙ ap (λ (t : Bytes). c ∷ t) (unescape-escape_xml s).1,
)
