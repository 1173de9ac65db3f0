-- ===== src/Decimal.antt =====
-- `to_string` of unsigned and signed numbers, and `str::trim` with `str::parse::<u64>`, as the
-- program uses them for `refs/head`, revision properties and the input of hooks.
pub mod RoundTrip
use dsvn.Prelude.{
  ℕ, zero, suc, ◌+◌, ◌-◌, ◌*◌, ◌/◌, ◌%◌, ◌^◌, ◌≤◌, ◌<◌, ℤ, pos, negsuc, ◌≡◌, refl, ◌∙◌, Bool, true,
  false, not, ◌&&◌, ◌||◌, Option, none, some, List, [], ◌∷◌, ◌++◌, arith, if◌then◌else◌, length,
  ltb, leb, ◌==◌, ◌>>=◌, append_assoc, Bool-cases, inl, inr,
}
use dsvn.Bytes.{Bytes}

-- The digits of `n` in front of `acc`; a step for each digit, and one for each unit is enough.
unfoldable pub digits_onto : ℕ → ℕ → Bytes → Bytes
digits_onto zero n acc = acc
digits_onto (suc fuel) n acc =
    let rest = digits_onto fuel (n / 10) ((48 + n % 10) ∷ acc) in
    if ltb n 10 then (48 + n) ∷ acc else rest

unfoldable pub decimal : ℕ → Bytes
unfolding digits_onto
decimal n = digits_onto (suc n) n []

unfoldable pub decimal_signed : ℤ → Bytes
unfolding decimal
decimal_signed (pos n) = decimal n
decimal_signed (negsuc n) = b'-' ∷ decimal (n + 1)

-- The loop of `u64::from_str_radix`: a byte that is no digit, or an overflow, is an error.
unfoldable pub parse_digits : ℕ → Bytes → Option ℕ
parse_digits n [] = some n
parse_digits n (c ∷ cs) =
    let n' = n * 10 + (c - 48) in
    let rest = parse_digits n' cs in if leb 48 c && leb c 57 && ltb n' (2 ^ 64) then rest else none

-- A leading `+` is allowed, an empty text is not, and no digit may be missing.
unfoldable pub parse_u64 : Bytes → Option ℕ
unfolding parse_digits
parse_u64 [] = none
parse_u64 (c ∷ []) = if c == b'+' then none else parse_digits 0 (c ∷ [])
parse_u64 (c ∷ d ∷ cs) = if c == b'+' then parse_digits 0 (d ∷ cs) else parse_digits 0 (c ∷ d ∷ cs)
