-- ===== src/WebDav/Dump/Md5/Hex.antt =====
-- What `md5_hex` (dsvn-webdav/src/dump_handlers.rs) prints.
use dsvn.Prelude.{
  ℕ, ◌*◌, ◌/◌, ◌%◌, ◌<◌, ◌≡◌, refl, true, ◌&&◌, ◌||◌, [], ◌∷◌, ◌++◌, arith, leb, length, All,
}
use dsvn.Bytes.{Bytes}
use dsvn.LittleEndian.{to_le_bytes}
use dsvn.WebDav.Dump.Md5.{hex_digit, hex_text, md5_compute, md5_hex}

-- A digit of a hexadecimal text in lower case.
abbrev pub IsHexDigit : ℕ → Type 0
IsHexDigit c = (leb 48 c && leb c 57 || leb 97 c && leb c 102) ≡ true

hex_digit-IsHexDigit : (n : ℕ) → n < 16 → IsHexDigit (hex_digit n)
unfolding hex_digit
hex_digit-IsHexDigit n h = ground arith

hex_text_lem :
    (bs : Bytes)
    → All (λ b. b < 256) bs
    → (length (hex_text bs) ≡ 2 * length bs) × All IsHexDigit (hex_text bs)
unfolding hex_text
hex_text_lem [] a = (refl, tt)
hex_text_lem (b ∷ bs) (h, a) =
    let (long, digits) = hex_text_lem bs a in
    (
      omega (arith, long),
      (
        hex_digit-IsHexDigit (b / 16) (omega (arith, h)),
        (hex_digit-IsHexDigit (b % 16) (omega arith), digits),
      ),
    )

four_words :
    (a b c d : ℕ)
    → All (λ b. b < 256) (to_le_bytes a ++ (to_le_bytes b ++ (to_le_bytes c ++ to_le_bytes d)))
unfolding to_le_bytes
four_words a b c d =
    let byte : (n : ℕ) → n % 256 < 256 = λ n. omega arith in
    (
      byte _,
      (
        byte _,
        (
          byte _,
          (
            byte _,
            (
              byte _,
              (
                byte _,
                (
                  byte _,
                  (
                    byte _,
                    (
                      byte _,
                      (byte _, (byte _, (byte _, (byte _, (byte _, (byte _, (byte _, tt))))))),
                    ),
                  ),
                ),
              ),
            ),
          ),
        ),
      ),
    )

md5_compute_lem :
    (bytes : Bytes) → (length (md5_compute bytes) ≡ 16) × All (λ b. b < 256) (md5_compute bytes)
unfolding md5_compute to_le_bytes
md5_compute_lem bytes = (refl, four_words _ _ _ _)

-- The MD5 text of any content is of 32 hexadecimal digits in lower case.
pub md5_hex-IsHexDigit :
    (bytes : Bytes) → (length (md5_hex bytes) ≡ 32) × All IsHexDigit (md5_hex bytes)
unfolding md5_hex
md5_hex-IsHexDigit bytes =
    let (long, small) = md5_compute_lem bytes in
    let (twice, digits) = hex_text_lem (md5_compute bytes) small in
    (omega (arith, long, twice), digits)
