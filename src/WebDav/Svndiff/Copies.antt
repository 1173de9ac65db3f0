-- ===== src/WebDav/Svndiff/Copies.antt =====
-- `decode_svndiff` (dsvn-webdav/src/handlers.rs) on a window that copies from the source.
use dsvn.Prelude.{
  ℕ, suc, ◌/◌, ◌%◌, ◌^◌, ◌<◌, ◌≡◌, refl, ◌∙◌, [], ◌∷◌, ◌++◌, arith, length, ltb, ◌==◌, false,
  ge→ltb,
}
use dsvn.Bytes.{Bytes, ascii, eqb}
use dsvn.WebDav.Svndiff.{
  read_varint, read_varint_from, run_instructions, run_window, decode_svndiff,
}
use dsvn.WebDav.Svndiff.Varint.{encode_varint}
use dsvn.WebDav.Svndiff.RoundTrip.{decode_windows-step, nothing_left}

-- A document whose one window copies `n` bytes of the source from its start on.
copy_window : (src_len n : ℕ) → Bytes
copy_window src_len n =
    encode_varint 0
    ++ (encode_varint src_len
        ++ (encode_varint n ++ (encode_varint 2 ++ (encode_varint 0 ++ (n ∷ 0 ∷ [])))))

pub svndiff_copy : (src_len n : ℕ) → Bytes
unfolding copy_window
svndiff_copy src_len n = ascii "SVN" ++ (0 ∷ copy_window src_len n)

run_window-copy : (n : ℕ) → 0 < n → n < 64 → run_window 2 0 (n ∷ 0 ∷ []) [] ≡ []
unfolding run_window run_instructions read_varint read_varint_from
run_window-copy n h h' =
    let op : n / 64 % 4 ≡ 0 = omega arith in
    let len : (n % 64 == 0) ≡ false = ground arith in rw op (rw len refl)

-- A document whose one window copies the first 1 to 63 bytes of the source decodes to nothing,
-- although it stands for these bytes of the file that it changes.
pub decode_svndiff-svndiff_copy :
    (src_len n : ℕ)
    → src_len < 2 ^ 64
    → 0 < n
    → n < 64
    → decode_svndiff (svndiff_copy src_len n) ≡ []
unfolding decode_svndiff svndiff_copy eqb
decode_svndiff-svndiff_copy src_len n b h h' =
    let long : ltb (length (svndiff_copy src_len n)) 4 ≡ false =
      ge→ltb (length (svndiff_copy src_len n)) 4 (ground arith) in
    rw long (
      decode_windows-step (suc (suc (suc (length (copy_window src_len n))))) 0 src_len n 2 0
        (n ∷ 0 ∷ []) [] (omega arith) b (omega arith) (omega arith) (omega arith) (omega arith)
      ∙ nothing_left (suc (suc (suc (length (copy_window src_len n)))))
          (run_window 2 0 (n ∷ 0 ∷ []) [])
      ∙ run_window-copy n h h')
