-- ===== src/Decimal/RoundTrip.antt =====
-- Lemmas on printing and parsing a `u64`.
use dsvn.Prelude.{
  ℕ, zero, suc, ◌+◌, ◌-◌, ◌*◌, ◌/◌, ◌%◌, ◌^◌, ◌<◌, ◌≡◌, refl, ap, ◌∙◌, some, [], ◌∷◌, arith,
  Bool-cases, inl, inr, ltb, All, false,
}
use dsvn.Bytes.{Bytes, trim, trim_start, trim_end, is_space, is_empty}
use dsvn.Decimal.{digits_onto, decimal, parse_digits, parse_u64}

parse_digits-step :
    (m d : ℕ) (acc : Bytes)
    → d < 10
    → m * 10 + d < 2 ^ 64
    → parse_digits m ((48 + d) ∷ acc) ≡ parse_digits (m * 10 + d) acc
unfolding parse_digits
parse_digits-step m d acc h b =
    let e : m * 10 + (48 + d - 48) ≡ m * 10 + d = omega arith in rw e (ground arith)

parse_digits-digits_onto :
    (fuel n : ℕ) (acc : Bytes)
    → n < fuel
    → n < 2 ^ 64
    → parse_digits 0 (digits_onto fuel n acc) ≡ parse_digits n acc
unfolding digits_onto
parse_digits-digits_onto zero n acc h b = absurd (omega arith)
parse_digits-digits_onto (suc fuel) n acc h b = elim (Bool-cases (ltb n 10)) [
  | inl one ↦ rw one (
      parse_digits-step 0 n acc (ground arith) (omega arith)
      ∙ ap (λ m. parse_digits m acc) (omega arith))
  | inr more ↦ rw more (
      parse_digits-digits_onto fuel (n / 10) ((48 + n % 10) ∷ acc) (ground arith) (omega arith)
      ∙ parse_digits-step (n / 10) (n % 10) acc (omega arith) (omega arith)
      ∙ ap (λ m. parse_digits m acc) (omega arith))
]

parse_u64-digit :
    (d : ℕ) (acc : Bytes) → parse_u64 ((48 + d) ∷ acc) ≡ parse_digits 0 ((48 + d) ∷ acc)
unfolding parse_u64
parse_u64-digit d [] = ground arith
parse_u64-digit d (c ∷ acc) = ground arith

parse_u64-digits_onto :
    (fuel n : ℕ) (acc : Bytes)
    → n < fuel
    → parse_u64 (digits_onto fuel n acc) ≡ parse_digits 0 (digits_onto fuel n acc)
unfolding digits_onto
parse_u64-digits_onto zero n acc h = absurd (omega arith)
parse_u64-digits_onto (suc fuel) n acc h = elim (Bool-cases (ltb n 10)) [
  | inl one ↦ rw one (parse_u64-digit n acc)
  | inr more ↦ rw more (parse_u64-digits_onto fuel (n / 10) ((48 + n % 10) ∷ acc) (ground arith))
]

-- Every 64-bit number reads back from its decimal text.
pub parse_u64-decimal : (n : ℕ) → n < 2 ^ 64 → parse_u64 (decimal n) ≡ some n
unfolding decimal parse_digits
parse_u64-decimal n b =
    parse_u64-digits_onto (suc n) n [] (omega arith)
    ∙ parse_digits-digits_onto (suc n) n [] (omega arith) b

abbrev pub Plain : ℕ → Type 0
Plain c = is_space c ≡ false

digits_onto-All {κ} :
    (P : ℕ → Type κ)
    → ((d : ℕ) → d < 10 → P (48 + d))
    → (fuel n : ℕ) (acc : Bytes) → n < fuel
    → All P acc
    → All P (digits_onto fuel n acc)
unfolding digits_onto
digits_onto-All P digit zero n acc h a = absurd (omega arith)
digits_onto-All P digit (suc fuel) n acc h a = elim (Bool-cases (ltb n 10)) [
  | inl one ↦ rw one (digit n (ground arith), a)
  | inr more ↦ rw more (
      digits_onto-All P digit fuel (n / 10) ((48 + n % 10) ∷ acc) (ground arith)
        (digit (n % 10) (omega arith), a))
]

-- Every byte of a decimal text is a digit.
pub decimal-All {κ} :
    (P : ℕ → Type κ) → ((d : ℕ) → d < 10 → P (48 + d)) → (n : ℕ) → All P (decimal n)
unfolding decimal
decimal-All P digit n = digits_onto-All P digit (suc n) n [] (omega arith) tt

pub digit-Plain : (d : ℕ) → d < 10 → Plain (48 + d)
digit-Plain d h = ground arith

is_empty-digits_onto :
    (fuel n : ℕ) (acc : Bytes) → n < fuel → is_empty (digits_onto fuel n acc) ≡ false
unfolding digits_onto
is_empty-digits_onto zero n acc h = absurd (omega arith)
is_empty-digits_onto (suc fuel) n acc h = elim (Bool-cases (ltb n 10)) [
  | inl one ↦ rw one refl
  | inr more ↦ rw more (is_empty-digits_onto fuel (n / 10) ((48 + n % 10) ∷ acc) (ground arith))
]

pub is_empty-decimal : (n : ℕ) → is_empty (decimal n) ≡ false
unfolding decimal
is_empty-decimal n = is_empty-digits_onto (suc n) n [] (omega arith)

pub trim_start-Plain : (s : Bytes) → All Plain s → trim_start is_space s ≡ s
unfolding trim_start
trim_start-Plain [] a = refl
trim_start-Plain (c ∷ s) a = rw a.0

pub trim_end-Plain : (s : Bytes) → All Plain s → trim_end is_space s ≡ s
unfolding trim_end
trim_end-Plain [] a = refl
trim_end-Plain (c ∷ []) a = rw a.0
trim_end-Plain (c ∷ d ∷ s) a = rw (trim_end-Plain (d ∷ s) a.1, trim_end)

pub trim-decimal : (n : ℕ) → trim (decimal n) ≡ decimal n
unfolding trim
trim-decimal n =
    let plain : All Plain (decimal n) = decimal-All Plain digit-Plain n in
    rw (trim_start-Plain (decimal n) plain) (trim_end-Plain (decimal n) plain)
