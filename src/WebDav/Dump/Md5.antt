-- ===== src/WebDav/Dump/Md5.antt =====
-- `md5_compute` and `md5_hex` of dsvn-webdav/src/dump_handlers.rs, on 32-bit words.
pub mod Hex
use dsvn.Prelude.{
  ℕ, zero, suc, ◌+◌, ◌-◌, ◌*◌, ◌/◌, ◌%◌, ◌^◌, List, [], ◌∷◌, ◌++◌, none, some, if◌then◌else◌,
  length, take, drop, get_elem?, ltb, ◌==◌,
}
use dsvn.Bytes.{Bytes}
use dsvn.LittleEndian.{to_le_bytes, from_le_bytes}

-- A function of bits at the `n` lowest places.
unfoldable bitwise : (ℕ → ℕ → ℕ) → (n a b : ℕ) → ℕ
bitwise f zero a b = 0
bitwise f (suc n) a b = f (a % 2) (b % 2) + 2 * bitwise f n (a / 2) (b / 2)

unfoldable and_u32 : (a b : ℕ) → ℕ
unfolding bitwise
and_u32 a b = bitwise (λ x y. x * y) 32 a b

unfoldable or_u32 : (a b : ℕ) → ℕ
unfolding bitwise
or_u32 a b = bitwise (λ x y. (x + y + 1) / 2) 32 a b

unfoldable xor_u32 : (a b : ℕ) → ℕ
unfolding bitwise
xor_u32 a b = bitwise (λ x y. (x + y) % 2) 32 a b

abbrev not_u32 : ℕ → ℕ
not_u32 a = 2 ^ 32 - 1 - a

abbrev wrapping_add : (a b : ℕ) → ℕ
wrapping_add a b = (a + b) % 2 ^ 32

abbrev rotate_left : (a s : ℕ) → ℕ
rotate_left a s = (a * 2 ^ s) % 2 ^ 32 + a / 2 ^ (32 - s)

abbrev shifts : List ℕ
shifts =
    7 ∷ 12 ∷ 17 ∷ 22 ∷ 7 ∷ 12 ∷ 17 ∷ 22 ∷ 7 ∷ 12 ∷ 17 ∷ 22 ∷ 7 ∷ 12 ∷ 17 ∷ 22 ∷ 5 ∷ 9 ∷ 14 ∷ 20 ∷ 5
    ∷ 9 ∷ 14 ∷ 20 ∷ 5 ∷ 9 ∷ 14 ∷ 20 ∷ 5 ∷ 9 ∷ 14 ∷ 20 ∷ 4 ∷ 11 ∷ 16 ∷ 23 ∷ 4 ∷ 11 ∷ 16 ∷ 23 ∷ 4 ∷ 11
    ∷ 16 ∷ 23 ∷ 4 ∷ 11 ∷ 16 ∷ 23 ∷ 6 ∷ 10 ∷ 15 ∷ 21 ∷ 6 ∷ 10 ∷ 15 ∷ 21 ∷ 6 ∷ 10 ∷ 15 ∷ 21 ∷ 6 ∷ 10
    ∷ 15 ∷ 21 ∷ []

abbrev sines : List ℕ
sines =
    0xd76aa478 ∷ 0xe8c7b756 ∷ 0x242070db ∷ 0xc1bdceee ∷ 0xf57c0faf ∷ 0x4787c62a ∷ 0xa8304613
    ∷ 0xfd469501 ∷ 0x698098d8 ∷ 0x8b44f7af ∷ 0xffff5bb1 ∷ 0x895cd7be ∷ 0x6b901122 ∷ 0xfd987193
    ∷ 0xa679438e ∷ 0x49b40821 ∷ 0xf61e2562 ∷ 0xc040b340 ∷ 0x265e5a51 ∷ 0xe9b6c7aa ∷ 0xd62f105d
    ∷ 0x02441453 ∷ 0xd8a1e681 ∷ 0xe7d3fbc8 ∷ 0x21e1cde6 ∷ 0xc33707d6 ∷ 0xf4d50d87 ∷ 0x455a14ed
    ∷ 0xa9e3e905 ∷ 0xfcefa3f8 ∷ 0x676f02d9 ∷ 0x8d2a4c8a ∷ 0xfffa3942 ∷ 0x8771f681 ∷ 0x6d9d6122
    ∷ 0xfde5380c ∷ 0xa4beea44 ∷ 0x4bdecfa9 ∷ 0xf6bb4b60 ∷ 0xbebfbc70 ∷ 0x289b7ec6 ∷ 0xeaa127fa
    ∷ 0xd4ef3085 ∷ 0x04881d05 ∷ 0xd9d4d039 ∷ 0xe6db99e5 ∷ 0x1fa27cf8 ∷ 0xc4ac5665 ∷ 0xf4292244
    ∷ 0x432aff97 ∷ 0xab9423a7 ∷ 0xfc93a039 ∷ 0x655b59c3 ∷ 0x8f0ccc92 ∷ 0xffeff47d ∷ 0x85845dd1
    ∷ 0x6fa87e4f ∷ 0xfe2ce6e0 ∷ 0xa3014314 ∷ 0x4e0811a1 ∷ 0xf7537e82 ∷ 0xbd3af235 ∷ 0x2ad7d2bb
    ∷ 0xeb86d391 ∷ []

record Words : Type 0 where
  a : ℕ
  b : ℕ
  c : ℕ
  d : ℕ

-- The function of round `i`, and the index of the word that it adds.
unfoldable mix : ℕ → Words → ℕ × ℕ
unfolding and_u32 or_u32 xor_u32
mix i w =
    if ltb i 16
    then (or_u32 (and_u32 w.b w.c) (and_u32 (not_u32 w.b) w.d), i)
    else if ltb i 32
    then (or_u32 (and_u32 w.d w.b) (and_u32 (not_u32 w.d) w.c), (5 * i + 1) % 16)
    else if ltb i 48
    then (xor_u32 (xor_u32 w.b w.c) w.d, (3 * i + 5) % 16)
    else (xor_u32 w.c (or_u32 w.b (not_u32 w.d)), (7 * i) % 16)

abbrev word_at : List ℕ → ℕ → ℕ
word_at m g = elim (get_elem? m g) [ none ↦ 0 | some word ↦ word ]

-- One step for each pair of a shift and a sine, from round `i` on.
unfoldable rounds : ℕ → (m ss ks : List ℕ) → Words → Words
unfolding mix
rounds i m [] ks w = w
rounds i m (s ∷ ss) [] w = w
rounds i m (s ∷ ss) (k ∷ ks) w =
    let (f, g) = mix i w in
    let f' = wrapping_add (wrapping_add (wrapping_add f w.a) k) (word_at m g) in
    rounds (i + 1) m ss ks
      (record { a = w.d; b = wrapping_add w.b (rotate_left f' s); c = w.b; d = w.c })

unfoldable words_of : ℕ → Bytes → List ℕ
words_of zero chunk = []
words_of (suc n) chunk = from_le_bytes (take 4 chunk) ∷ words_of n (drop 4 chunk)

unfoldable add_chunk : Bytes → Words → Words
unfolding rounds words_of from_le_bytes
add_chunk chunk w =
    let w' = rounds 0 (words_of 16 chunk) shifts sines w in
    record {
      a = wrapping_add w.a w'.a;
      b = wrapping_add w.b w'.b;
      c = wrapping_add w.c w'.c;
      d = wrapping_add w.d w'.d;
    }

-- A step for each chunk of 64 bytes.
unfoldable add_chunks : ℕ → Bytes → Words → Words
unfolding add_chunk
add_chunks zero msg w = w
add_chunks (suc n) msg w = add_chunks n (drop 64 msg) (add_chunk (take 64 msg) w)

-- Zeros up to a length of 56 modulo 64; at most 63 are missing.
unfoldable pad : ℕ → Bytes → Bytes
pad zero msg = msg
pad (suc n) msg = let rest = pad n (msg ++ (0 ∷ [])) in if length msg % 64 == 56 then msg else rest

unfoldable pub md5_compute : Bytes → Bytes
unfolding add_chunks pad to_le_bytes
md5_compute bytes =
    let bits = length bytes * 8 in
    let msg = pad 63 (bytes ++ (0x80 ∷ [])) ++ (to_le_bytes bits ++ to_le_bytes (bits / 2 ^ 32)) in
    let w =
      add_chunks (length msg / 64) msg
        (record { a = 0x67452301; b = 0xefcdab89; c = 0x98badcfe; d = 0x10325476 }) in
    to_le_bytes w.a ++ (to_le_bytes w.b ++ (to_le_bytes w.c ++ to_le_bytes w.d))

unfoldable pub hex_digit : ℕ → ℕ
hex_digit n = if ltb n 10 then 48 + n else 87 + n

unfoldable pub hex_text : Bytes → Bytes
unfolding hex_digit
hex_text [] = []
hex_text (b ∷ bs) = hex_digit (b / 16) ∷ hex_digit (b % 16) ∷ hex_text bs

unfoldable pub md5_hex : Bytes → Bytes
unfolding md5_compute hex_text
md5_hex bytes = hex_text (md5_compute bytes)
