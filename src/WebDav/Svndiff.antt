-- ===== src/WebDav/Svndiff.antt =====
-- `decode_svndiff` and `read_varint` (dsvn-webdav/src/handlers.rs). A position in the data is
-- modelled by the bytes from there on. A loop has a step for each byte that is left, since a window
-- and an instruction take one at least. A length is a number of any size below 2 ^ 64; a sum of
-- lengths that passes 2 ^ 64, where the sum of the source wraps or panics, is taken as it is, and so
-- counts as one beyond the end of the data.
pub mod Varint
pub mod RoundTrip
pub mod Copies
use dsvn.Prelude.{
  ℕ, zero, suc, ◌+◌, ◌*◌, ◌/◌, ◌%◌, ◌^◌, List, [], ◌∷◌, ◌++◌, if◌then◌else◌, length, take, drop,
  ltb, leb, ◌==◌, not, ◌||◌,
}
use dsvn.Bytes.{Bytes, ascii, is_empty, eqb}

-- The number so far shifts by seven bits, and drops what leaves its 64 bits.
unfoldable pub read_varint_from : ℕ → Bytes → ℕ × Bytes
read_varint_from result [] = (result, [])
read_varint_from result (byte ∷ bytes) =
    let result' = result * 128 % 2 ^ 64 + byte % 128 in
    let more = read_varint_from result' bytes in
    if byte / 128 % 2 == 0 then (result', bytes) else more

unfoldable pub read_varint : Bytes → ℕ × Bytes
unfolding read_varint_from
read_varint bytes = read_varint_from 0 bytes

-- The instructions of a window. Those that copy from the source (0) and from the target (1) are
-- read and do nothing; new data (2) is taken from `nd_off` on, if there is enough.
unfoldable pub run_instructions : ℕ → (instructions new_data : Bytes) → ℕ → Bytes → Bytes
unfolding read_varint
run_instructions zero instructions new_data nd_off result = result
run_instructions (suc fuel) [] new_data nd_off result = result
run_instructions (suc fuel) (byte ∷ bytes) new_data nd_off result =
    let opcode = byte / 64 % 4 in
    let (length', rest) = if byte % 64 == 0 then read_varint bytes else (byte % 64, bytes) in
    let skip = run_instructions fuel (read_varint rest).1 new_data nd_off result in
    let copy = run_instructions fuel rest new_data (nd_off + length') (
      if leb (nd_off + length') (length new_data)
      then result ++ take length' (drop nd_off new_data)
      else result) in
    let unknown = run_instructions fuel rest new_data nd_off result in
    if leb opcode 1 then skip else if opcode == 2 then copy else unknown

-- The instructions and the new data of a window, once its five lengths are read.
unfoldable pub run_window : (instr_len new_data_len : ℕ) → (body result : Bytes) → Bytes
unfolding run_instructions
run_window instr_len new_data_len body result =
    run_instructions instr_len (take instr_len body) (take new_data_len (drop instr_len body)) 0
      result

-- The windows. Data that ends within the lengths ends the loop, and a window that is cut short gives
-- what there is of its new data.
unfoldable pub decode_windows : ℕ → (bytes result : Bytes) → Bytes
unfolding run_window read_varint
decode_windows zero bytes result = result
decode_windows (suc fuel) bytes result =
    let (src_off, p1) = read_varint bytes in
    let (src_len, p2) = read_varint p1 in
    let (tgt_len, p3) = read_varint p2 in
    let (instr_len, p4) = read_varint p3 in
    let (new_data_len, body) = read_varint p4 in
    let next =
      decode_windows fuel (drop (instr_len + new_data_len) body)
        (run_window instr_len new_data_len body result) in
    if is_empty bytes || is_empty p1 || is_empty p2 || is_empty p3 || is_empty p4
    then result
    else if ltb (length body) (instr_len + new_data_len)
    then result ++ drop instr_len body
    else next

unfoldable pub decode_svndiff : Bytes → Bytes
unfolding decode_windows
decode_svndiff bytes =
    if ltb (length bytes) 4 || not (eqb (take 3 bytes) (ascii "SVN"))
    then bytes
    else decode_windows (length bytes) (drop 4 bytes) []
