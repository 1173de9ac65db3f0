-- ===== src/Bytes.antt =====
-- Texts and paths as lists of bytes, with Rust's byte-wise `Ord` and `Eq` of `str`, the prefix
-- tests and the trims that the program uses.
use Prim.Native.Nat.{compare, Ordering}
use Prim.Native.Char.{code}
use dsvn.Prelude.{
  ℕ, String, ◌≡◌, refl, ◌↔◌, Bool, true, false, Option, none, some, ◌&&◌, ◌||◌, List, [], ◌∷◌, ◌++◌,
  arith, ◌==◌, leb, if◌then◌else◌,
}

abbrev pub Bytes : Type 0
Bytes = List ℕ

-- The bytes of an ASCII literal.
abbrev pub ascii : String → Bytes
ascii String.[] = []
ascii (String.◌∷◌ c s) = code c ∷ ascii s

unfoldable pub eqb : Bytes → Bytes → Bool
eqb [] [] = true
eqb [] (y ∷ ys) = false
eqb (x ∷ xs) [] = false
eqb (x ∷ xs) (y ∷ ys) = x == y && eqb xs ys

-- The lexicographic order of bytes.
unfoldable pub cmp : Bytes → Bytes → Ordering
cmp [] [] = Ordering.eq
cmp [] (y ∷ ys) = Ordering.lt
cmp (x ∷ xs) [] = Ordering.gt
cmp (x ∷ xs) (y ∷ ys) = elim (compare x y) [
  | Ordering.lt ↦ Ordering.lt
  | Ordering.gt ↦ Ordering.gt
  | Ordering.eq ↦ cmp xs ys
]

unfoldable pub starts_with : Bytes → Bytes → Bool
starts_with xs [] = true
starts_with [] (p ∷ ps) = false
starts_with (x ∷ xs) (p ∷ ps) = x == p && starts_with xs ps

pub eqb_iff : (a b : Bytes) → (eqb a b ≡ true) ↔ (a ≡ b)
unfolding eqb
eqb_iff [] [] = (λ h. refl, λ h. refl)
eqb_iff [] (y ∷ ys) = (λ h. cc, λ h. cc)
eqb_iff (x ∷ xs) [] = (λ h. cc, λ h. cc)
eqb_iff (x ∷ xs) (y ∷ ys) = (λ h. ground (arith, eqb_iff xs ys), λ h. ground (arith, eqb_iff xs ys))

pub eqb_refl : (a : Bytes) → eqb a a ≡ true
eqb_refl a = (eqb_iff a a).1 refl

pub cmp-eq_iff : (a b : Bytes) → (cmp a b ≡ Ordering.eq) ↔ (a ≡ b)
unfolding cmp
cmp-eq_iff [] [] = (λ h. refl, λ h. refl)
cmp-eq_iff [] (y ∷ ys) = (λ h. cc, λ h. cc)
cmp-eq_iff (x ∷ xs) [] = (λ h. cc, λ h. cc)
cmp-eq_iff (x ∷ xs) (y ∷ ys) =
    (λ h. ground (arith, cmp-eq_iff xs ys), λ h. ground (arith, cmp-eq_iff xs ys))

pub cmp_trans :
    (a b c : Bytes) → cmp a b ≡ Ordering.lt → cmp b c ≡ Ordering.lt → cmp a c ≡ Ordering.lt
unfolding cmp
cmp_trans [] [] c h k = cc
cmp_trans [] (y ∷ ys) [] h k = cc
cmp_trans [] (y ∷ ys) (z ∷ zs) h k = refl
cmp_trans (x ∷ xs) [] c h k = cc
cmp_trans (x ∷ xs) (y ∷ ys) [] h k = cc
cmp_trans (x ∷ xs) (y ∷ ys) (z ∷ zs) h k = ground (arith, cmp_trans xs ys zs)

pub cmp-gt : (a b : Bytes) → cmp a b ≡ Ordering.gt → cmp b a ≡ Ordering.lt
unfolding cmp
cmp-gt [] [] h = cc
cmp-gt [] (y ∷ ys) h = cc
cmp-gt (x ∷ xs) [] h = refl
cmp-gt (x ∷ xs) (y ∷ ys) h = ground (arith, cmp-gt xs ys)

pub cmp_irrefl : (a : Bytes) → cmp a a ≡ Ordering.eq
cmp_irrefl a = (cmp-eq_iff a a).1 refl

-- What a text with the prefix p ++ "/" is compared with p.
pub starts_with-lt :
    (k p : Bytes) (c : ℕ) → starts_with k (p ++ c ∷ []) ≡ true → cmp p k ≡ Ordering.lt
unfolding starts_with cmp
starts_with-lt [] [] c h = cc
starts_with-lt (x ∷ k) [] c h = refl
starts_with-lt [] (y ∷ p) c h = cc
starts_with-lt (x ∷ k) (y ∷ p) c h = ground (arith, starts_with-lt k p c)

-- The ASCII white space of `char::is_whitespace`.
abbrev pub is_space : ℕ → Bool
is_space c = c == 32 || (leb 9 c && leb c 13)

unfoldable pub trim_start : (ℕ → Bool) → Bytes → Bytes
trim_start p [] = []
trim_start p (c ∷ s) = let rest = trim_start p s in if p c then rest else c ∷ s

unfoldable pub trim_end : (ℕ → Bool) → Bytes → Bytes
trim_end p [] = []
trim_end p (c ∷ s) = elim (trim_end p s) [ [] ↦ if p c then [] else c ∷ [] | (d ∷ r) ↦ c ∷ d ∷ r ]

-- `str::trim`, for texts whose ends are ASCII.
unfoldable pub trim : Bytes → Bytes
unfolding trim_start trim_end
trim s = trim_end is_space (trim_start is_space s)

-- `path.trim_start_matches('/')`
unfoldable pub trim_slashes : Bytes → Bytes
unfolding trim_start
trim_slashes path = trim_start (λ c. c == b'/') path

-- `trim_end_matches('/')`
unfoldable pub trim_end_slashes : Bytes → Bytes
unfolding trim_end
trim_end_slashes path = trim_end (λ c. c == b'/') path

abbrev pub is_empty {ℓ} : {A : Type ℓ} → List A → Bool
is_empty [] = true
is_empty (x ∷ xs) = false

unfoldable pub strip_prefix : Bytes → Bytes → Option Bytes
strip_prefix xs [] = some xs
strip_prefix [] (p ∷ ps) = none
strip_prefix (x ∷ xs) (p ∷ ps) = let rest = strip_prefix xs ps in if x == p then rest else none

-- `split('/').next()`
unfoldable pub first_part : Bytes → Bytes
first_part [] = []
first_part (c ∷ s) = let rest = first_part s in if c == b'/' then [] else c ∷ rest
