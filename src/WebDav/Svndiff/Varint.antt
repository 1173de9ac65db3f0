-- ===== src/WebDav/Svndiff/Varint.antt =====
-- `read_varint` (dsvn-webdav/src/handlers.rs) against the numbers of an svndiff document.
use dsvn.Prelude.{
  ℕ, zero, suc, ◌+◌, ◌*◌, ◌/◌, ◌%◌, ◌^◌, ◌≤◌, ◌<◌, ◌≡◌, refl, ap, ◌∙◌, [], ◌∷◌, ◌++◌, arith,
  if◌then◌else◌, length, ltb, Bool-cases, false, inl, inr,
}
use dsvn.Bytes.{Bytes, is_empty}
use dsvn.WebDav.Svndiff.{read_varint, read_varint_from}

abbrev pair : ℕ → Bytes → ℕ × Bytes
pair n bytes = (n, bytes)

-- A number in groups of seven bits, the highest first, each but the last with the high bit set; the
-- groups of `n` stand in front of `acc`.
unfoldable pub groups : ℕ → ℕ → Bytes → Bytes
groups zero n acc = acc
groups (suc fuel) n acc =
    let more = groups fuel (n / 128) ((128 + n % 128) ∷ acc) in
    if ltb n 128 then (128 + n) ∷ acc else more

unfoldable pub encode_varint : ℕ → Bytes
unfolding groups
encode_varint n = if ltb n 128 then n ∷ [] else groups n (n / 128) (n % 128 ∷ [])

groups-append :
    (fuel n : ℕ) (acc rest : Bytes) → groups fuel n acc ++ rest ≡ groups fuel n (acc ++ rest)
unfolding groups
groups-append zero n acc rest = refl
groups-append (suc fuel) n acc rest = elim (Bool-cases (ltb n 128)) [
  | inl one ↦ rw one refl
  | inr more ↦ rw more (groups-append fuel (n / 128) ((128 + n % 128) ∷ acc) rest)
]

read_varint_from-step :
    (m d : ℕ) (acc : Bytes)
    → d < 128
    → m * 128 + d < 2 ^ 64
    → read_varint_from m ((128 + d) ∷ acc) ≡ read_varint_from (m * 128 + d) acc
unfolding read_varint_from
read_varint_from-step m d acc h b =
    let high : (128 + d) / 128 % 2 ≡ 1 = omega arith in
    let low : m * 128 % 2 ^ 64 + (128 + d) % 128 ≡ m * 128 + d = omega arith in
    rw high (rw low refl)

read_varint_from-groups :
    (fuel n : ℕ) (acc : Bytes)
    → n < fuel
    → n < 2 ^ 64
    → read_varint_from 0 (groups fuel n acc) ≡ read_varint_from n acc
unfolding groups
read_varint_from-groups zero n acc h b = absurd (omega arith)
read_varint_from-groups (suc fuel) n acc h b = elim (Bool-cases (ltb n 128)) [
  | inl one ↦ rw one (
      read_varint_from-step 0 n acc (ground arith) (omega arith)
      ∙ ap (λ m. read_varint_from m acc) (omega arith))
  | inr more ↦ rw more (
      read_varint_from-groups fuel (n / 128) ((128 + n % 128) ∷ acc) (ground arith) (omega arith)
      ∙ read_varint_from-step (n / 128) (n % 128) acc (omega arith) (omega arith)
      ∙ ap (λ m. read_varint_from m acc) (omega arith))
]

read_varint_from-last :
    (m d : ℕ) (rest : Bytes)
    → d < 128
    → m * 128 + d < 2 ^ 64
    → read_varint_from m (d ∷ rest) ≡ (m * 128 + d, rest)
unfolding read_varint_from
read_varint_from-last m d rest h b =
    let high : d / 128 % 2 ≡ 0 = omega arith in
    let low : m * 128 % 2 ^ 64 + d % 128 ≡ m * 128 + d = omega arith in rw high (rw low refl)

pub read_varint-encode_varint :
    (n : ℕ) (rest : Bytes) → n < 2 ^ 64 → read_varint (encode_varint n ++ rest) ≡ (n, rest)
unfolding encode_varint read_varint
read_varint-encode_varint n rest b = elim (Bool-cases (ltb n 128)) [
  | inl one ↦ rw one (
      read_varint_from-last 0 n rest (ground arith) (omega arith)
      ∙ ap (λ (m : ℕ). pair m rest) (omega arith))
  | inr more ↦ rw more (
      ap (read_varint_from 0) (groups-append n (n / 128) (n % 128 ∷ []) rest)
      ∙ read_varint_from-groups n (n / 128) (n % 128 ∷ rest) (ground arith) (omega arith)
      ∙ read_varint_from-last (n / 128) (n % 128) rest (omega arith) (omega arith)
      ∙ ap (λ (m : ℕ). pair m rest) (omega arith))
]

is_empty-groups :
    (fuel n c : ℕ) (acc rest : Bytes) → is_empty (groups fuel n (c ∷ acc) ++ rest) ≡ false
unfolding groups
is_empty-groups zero n c acc rest = refl
is_empty-groups (suc fuel) n c acc rest = elim (Bool-cases (ltb n 128)) [
  | inl one ↦ rw one refl
  | inr more ↦ rw more (is_empty-groups fuel (n / 128) (128 + n % 128) (c ∷ acc) rest)
]

pub is_empty-encode_varint : (n : ℕ) (rest : Bytes) → is_empty (encode_varint n ++ rest) ≡ false
unfolding encode_varint
is_empty-encode_varint n rest = elim (Bool-cases (ltb n 128)) [
  | inl one ↦ rw one refl
  | inr more ↦ rw more (is_empty-groups n (n / 128) (n % 128) [] rest)
]

pub length-groups : (fuel n : ℕ) (acc : Bytes) → length (groups fuel n acc) ≤ fuel + length acc
unfolding groups
length-groups zero n acc = omega arith
length-groups (suc fuel) n acc = elim (Bool-cases (ltb n 128)) [
  | inl one ↦ rw one (omega arith)
  | inr more ↦ rw more (omega (arith, length-groups fuel (n / 128) ((128 + n % 128) ∷ acc)))
]
