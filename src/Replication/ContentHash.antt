-- ===== src/Replication/ContentHash.antt =====
-- The bytes that `compute_content_hash` hashes (dsvn-core/src/replication.rs).
use dsvn.Prelude.{
  ℕ, ◌/◌, ◌%◌, ◌^◌, ◌<◌, ◌≡◌, ◌≢◌, refl, sym, ap, ◌∙◌, List, [], ◌∷◌, ◌++◌, arith, length, take,
  drop, length-append, take-append, drop-append, append_assoc, All,
}
use dsvn.Bytes.{Bytes}
use dsvn.LittleEndian.{to_le_bytes, from_le_bytes, from_le_bytes-to_le_bytes}
use dsvn.Object.{ObjectId}
use dsvn.Replication.{to_le_bytes64, hashed_bytes}

-- An object with an id of 32 bytes, and a content of less than 2^64.
abbrev pub IsHashable : ObjectId × Bytes → Type 0
IsHashable (id, content) = (length id ≡ 32) × (length content < 2 ^ 64)

append_injective : (a b x y : Bytes) → length a ≡ length b → a ++ x ≡ b ++ y → (a ≡ b) × (x ≡ y)
append_injective a b x y h e = (
  sym (take-append a x) ∙ ap (take (length a)) e ∙ ap (λ n. take n (b ++ y)) h ∙ take-append b y,
  sym (drop-append a x) ∙ ap (drop (length a)) e ∙ ap (λ n. drop n (b ++ y)) h ∙ drop-append b y,
)

length-to_le_bytes : (n : ℕ) → length (to_le_bytes n) ≡ 4
unfolding to_le_bytes
length-to_le_bytes n = refl

to_le_bytes_injective : (m n : ℕ) → m < 2 ^ 32 → n < 2 ^ 32 → to_le_bytes m ≡ to_le_bytes n → m ≡ n
to_le_bytes_injective m n h k e =
    sym (from_le_bytes-to_le_bytes m h) ∙ ap from_le_bytes e ∙ from_le_bytes-to_le_bytes n k

length-to_le_bytes64 : (n : ℕ) → length (to_le_bytes64 n) ≡ 8
unfolding to_le_bytes64 to_le_bytes
length-to_le_bytes64 n = refl

to_le_bytes64_injective :
    (m n : ℕ) → m < 2 ^ 64 → n < 2 ^ 64 → to_le_bytes64 m ≡ to_le_bytes64 n → m ≡ n
unfolding to_le_bytes64
to_le_bytes64_injective m n h k e =
    let (low, high) =
      append_injective (to_le_bytes (m % 2 ^ 32)) (to_le_bytes (n % 2 ^ 32)) _ _
        (length-to_le_bytes _ ∙ sym (length-to_le_bytes _)) e in
    let low_eq = to_le_bytes_injective (m % 2 ^ 32) (n % 2 ^ 32) (omega arith) (omega arith) low in
    let high_eq =
      to_le_bytes_injective (m / 2 ^ 32 % 2 ^ 32) (n / 2 ^ 32 % 2 ^ 32) (omega arith) (omega arith)
        high in
    omega (arith, low_eq, high_eq)

hashed_bytes-cons :
    (id : ObjectId) (content : Bytes) (objects : List (ObjectId × Bytes))
    → hashed_bytes ((id, content) ∷ objects)
      ≡ id ++ (to_le_bytes64 (length content) ++ (content ++ hashed_bytes objects))
unfolding hashed_bytes
hashed_bytes-cons id content objects = simp append_assoc

empty_ne :
    (id : ObjectId) (content : Bytes) (objects : List (ObjectId × Bytes))
    → length id ≡ 32
    → hashed_bytes ((id, content) ∷ objects) ≢ hashed_bytes []
unfolding hashed_bytes
empty_ne id content objects h e = absurd (
    omega (
      arith,
      h,
      ap length (sym (hashed_bytes-cons id content objects) ∙ e),
      length-append id (to_le_bytes64 (length content) ++ (content ++ hashed_bytes objects)),
    ))

-- Two lists of objects, with ids of 32 bytes and contents below 2^64 bytes, that give the content
-- hash the same bytes are the same list.
pub hashed_bytes_injective :
    (xs ys : List (ObjectId × Bytes))
    → All IsHashable xs
    → All IsHashable ys
    → hashed_bytes xs ≡ hashed_bytes ys
    → xs ≡ ys
hashed_bytes_injective [] [] h k e = refl
hashed_bytes_injective [] ((j, d) ∷ ys) h ((jl, dl), k) e = absurd (empty_ne j d ys jl (sym e))
hashed_bytes_injective ((i, c) ∷ xs) [] ((il, cl), h) k e = absurd (empty_ne i c xs il e)
hashed_bytes_injective ((i, c) ∷ xs) ((j, d) ∷ ys) ((il, cl), h) ((jl, dl), k) e =
    let (same_id, e1) =
      append_injective i j _ _ (il ∙ sym jl)
        (sym (hashed_bytes-cons i c xs) ∙ e ∙ hashed_bytes-cons j d ys) in
    let (same_size, e2) =
      append_injective (to_le_bytes64 (length c)) (to_le_bytes64 (length d)) _ _
        (length-to_le_bytes64 _ ∙ sym (length-to_le_bytes64 _)) e1 in
    let (same_content, e3) =
      append_injective c d _ _ (to_le_bytes64_injective (length c) (length d) cl dl same_size) e2 in
    let rest = hashed_bytes_injective xs ys h k e3 in cc
