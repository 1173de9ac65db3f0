-- ===== src/Text/Search.antt =====
-- What a search for a byte finds behind bytes that do not hold it.
use dsvn.Prelude.{ℕ, ◌≡◌, refl, some, [], ◌∷◌, ◌++◌, false, ◌==◌, ==_iff, All}
use dsvn.Bytes.{Bytes}
use dsvn.Text.{split_on, split_once}

-- `c` does not occur.
abbrev pub Free : ℕ → Bytes → Type 0
Free c s = All (λ d. (d == c) ≡ false) s

pub split_on-Free : (c : ℕ) (s : Bytes) → Free c s → split_on c s ≡ s ∷ []
unfolding split_on
split_on-Free c [] f = refl
split_on-Free c (d ∷ s) f = rw f.0 (rw (split_on-Free c s f.1) refl)

pub split_once-Free :
    (c : ℕ) (before after : Bytes)
    → Free c before
    → split_once c (before ++ (c ∷ after)) ≡ some (before, after)
unfolding split_once
split_once-Free c [] after f = rw ((==_iff c c).1 refl) refl
split_once-Free c (d ∷ before) after f = rw f.0 (rw (split_once-Free c before after f.1) refl)
