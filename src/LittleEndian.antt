-- ===== src/LittleEndian.antt =====
-- The four bytes of a `u32`, the lowest first.
use dsvn.Prelude.{ℕ, ◌+◌, ◌*◌, ◌/◌, ◌%◌, ◌^◌, ◌<◌, ◌≡◌, [], ◌∷◌, arith}
use dsvn.Bytes.{Bytes}

-- `u32::to_le_bytes` and `u32::from_le_bytes`.
unfoldable pub to_le_bytes : ℕ → Bytes
to_le_bytes n = n % 256 ∷ n / 256 % 256 ∷ n / 65536 % 256 ∷ n / 16777216 % 256 ∷ []

unfoldable pub from_le_bytes : Bytes → ℕ
from_le_bytes [] = 0
from_le_bytes (b ∷ bs) = b + 256 * from_le_bytes bs

pub from_le_bytes-to_le_bytes : (n : ℕ) → n < 2 ^ 32 → from_le_bytes (to_le_bytes n) ≡ n
unfolding from_le_bytes to_le_bytes
from_le_bytes-to_le_bytes n b = omega arith
