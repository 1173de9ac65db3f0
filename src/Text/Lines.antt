-- ===== src/Text/Lines.antt =====
-- What `lines()` makes of a line in front of a text.
use dsvn.Prelude.{
  ℕ, ◌≡◌, refl, ap, List, [], ◌∷◌, ◌++◌, ◌==◌, ==_iff, Bool-cases, inl, inr, Bool, true, not, ◌&&◌,
}
use mathlib.Core.Bool.{false≢true}
use dsvn.Bytes.{Bytes}
use dsvn.Text.{split_on, strip_cr, join_lines, lines}
use dsvn.Text.Search.{Free}

-- `split_on` gives at least one piece.
split_on-some : (c : ℕ) (s : Bytes) → (p : Bytes) × (ps : List Bytes) × (split_on c s ≡ p ∷ ps)
unfolding split_on
split_on-some c [] = ([], [], refl)
split_on-some c (d ∷ s) = elim (Bool-cases (d == c)) [
  | inl here ↦ ([], split_on c s, rw here refl)
  | inr on ↦ let (p, ps, e) = split_on-some c s in (d ∷ p, ps, rw on (rw e refl))
]

split_on-line :
    (c : ℕ) (line rest : Bytes)
    → Free c line
    → split_on c (line ++ (c ∷ rest)) ≡ line ∷ split_on c rest
unfolding split_on
split_on-line c [] rest f = rw ((==_iff c c).1 refl) refl
split_on-line c (d ∷ line) rest f = rw f.0 (rw (split_on-line c line rest f.1) refl)

strip_cr-Free : (line : Bytes) → Free 13 line → strip_cr line ≡ line
unfolding strip_cr
strip_cr-Free [] f = refl
strip_cr-Free (c ∷ []) f = rw f.0 refl
strip_cr-Free (c ∷ d ∷ line) f = ap (λ l. c ∷ l) (strip_cr-Free (d ∷ line) f.1)

-- A text of one line, without line feeds and carriage returns.
abbrev pub IsLine : Bytes → Type 0
IsLine line = Free 10 line × Free 13 line

pub lines-line : (line rest : Bytes) → IsLine line → lines (line ++ (10 ∷ rest)) ≡ line ∷ lines rest
unfolding lines join_lines
lines-line line rest (lf, cr) =
    let (p, ps, e) = split_on-some 10 rest in
    rw (split_on-line 10 line rest lf) (rw e (rw (strip_cr-Free line cr) refl))

-- The tests of `Free` and `IsLine`.
unfoldable pub is_free : ℕ → Bytes → Bool
is_free c [] = true
is_free c (d ∷ s) = not (d == c) && is_free c s

unfoldable pub is_line : Bytes → Bool
unfolding is_free
is_line line = is_free 10 line && is_free 13 line

pub is_free-Free : (c : ℕ) (s : Bytes) → is_free c s ≡ true → Free c s
unfolding is_free
is_free-Free c [] h = tt
is_free-Free c (d ∷ s) h = elim (Bool-cases (d == c)) [
  | inl same ↦ absurd (false≢true (rw same at h))
  | inr other ↦ (other, is_free-Free c s (rw other at h))
]

pub is_line-IsLine : (line : Bytes) → is_line line ≡ true → IsLine line
unfolding is_line
is_line-IsLine line h = elim (Bool-cases (is_free 10 line)) [
  | inl lf ↦ (is_free-Free 10 line lf, is_free-Free 13 line (rw lf at h))
  | inr other ↦ absurd (false≢true (rw other at h))
]
