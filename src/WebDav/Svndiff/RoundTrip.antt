-- ===== src/WebDav/Svndiff/RoundTrip.antt =====
-- `decode_svndiff` (dsvn-webdav/src/handlers.rs) against the format: windows that bring all of their
-- content as new data.
use dsvn.Prelude.{
  ℕ, zero, suc, ◌+◌, ◌/◌, ◌%◌, ◌^◌, ◌≤◌, ◌<◌, ◌≡◌, refl, sym, ap, ◌∙◌, List, [], ◌∷◌, ◌++◌, arith,
  if◌then◌else◌, length, take, drop, ltb, leb, ◌==◌, Bool-cases, false, All, inl, inr, append_assoc,
  take-append, drop-append, drop-drop, length-append, ge→ltb, append-nil,
}
use dsvn.Bytes.{Bytes, ascii, eqb}
use dsvn.WebDav.Svndiff.{read_varint, run_instructions, run_window, decode_windows, decode_svndiff}
use dsvn.WebDav.Svndiff.Varint.{
  encode_varint, read_varint-encode_varint, is_empty-encode_varint, length-groups,
}

-- One instruction that takes `n` bytes of new data.
pub new_data_op : ℕ → Bytes
new_data_op n = if ltb n 64 then (128 + n) ∷ [] else 128 ∷ encode_varint n

-- A window with no source view that brings its content as new data.
pub full_window : Bytes → Bytes
full_window content =
    encode_varint 0
    ++ (encode_varint 0
        ++ (encode_varint (length content)
            ++ (encode_varint (length (new_data_op (length content)))
                ++ (encode_varint (length content) ++ (new_data_op (length content) ++ content)))))

pub full_windows : List Bytes → Bytes
full_windows [] = []
full_windows (c ∷ cs) = full_window c ++ full_windows cs

unfoldable pub concat : List Bytes → Bytes
concat [] = []
concat (c ∷ cs) = c ++ concat cs

-- A document of version 0 with a window for each chunk.
pub svndiff_of : List Bytes → Bytes
svndiff_of chunks = ascii "SVN" ++ (0 ∷ full_windows chunks)

run_instructions-nil :
    (fuel : ℕ) (new_data : Bytes) (nd_off : ℕ) (result : Bytes)
    → run_instructions fuel [] new_data nd_off result ≡ result
unfolding run_instructions
run_instructions-nil zero new_data nd_off result = refl
run_instructions-nil (suc fuel) new_data nd_off result = refl

take-all : (content : Bytes) → take (length content) content ≡ content
take-all [] = refl
take-all (c ∷ content) = ap (λ (s : Bytes). c ∷ s) (take-all content)

-- The one instruction of a full window appends the new data.
run_instructions-new_data_op :
    (fuel : ℕ) (content result : Bytes)
    → 0 < length content
    → length content < 2 ^ 64
    → run_instructions (suc fuel) (new_data_op (length content)) content 0 result
      ≡ result ++ content
unfolding run_instructions new_data_op
run_instructions-new_data_op fuel content result h b = elim (Bool-cases (ltb (length content) 64)) [
  | inl short ↦
      let op : (128 + length content) / 64 % 4 ≡ 2 = ground arith in
      let len : (128 + length content) % 64 ≡ length content = ground arith in
      let some_data : (length content == 0) ≡ false = ground arith in
      rw short (rw op (rw len (rw some_data copied)))
  | inr long ↦
      let read : read_varint (encode_varint (length content)) ≡ (length content, []) =
        ap read_varint (sym (append-nil (encode_varint (length content))))
        ∙ read_varint-encode_varint (length content) [] b in
      rw long (rw read copied)
]
  where
    copied :
        run_instructions fuel [] content (0 + length content) (
          if leb (0 + length content) (length content)
          then result ++ take (length content) content
          else result)
        ≡ result ++ content
    copied =
        run_instructions-nil fuel content (0 + length content) _ ∙ ground (arith, take-all content)

length-new_data_op : (n : ℕ) → (k : ℕ) × (length (new_data_op n) ≡ suc k)
unfolding new_data_op
length-new_data_op n = elim (Bool-cases (ltb n 64)) [
  | inl short ↦ (0, rw short refl)
  | inr long ↦ (length (encode_varint n), rw long refl)
]

run_window-full :
    (content rest result : Bytes)
    → 0 < length content
    → length content < 2 ^ 64
    → run_window
        (length (new_data_op (length content)))
        (length content)
        (new_data_op (length content) ++ (content ++ rest))
        result
      ≡ result ++ content
unfolding run_window
run_window-full content rest result h b =
    rw (take-append (new_data_op (length content)) (content ++ rest)) (
      rw (drop-append (new_data_op (length content)) (content ++ rest)) (
        rw (take-append content rest) (
          let (k, e) = length-new_data_op (length content) in
          rw e (run_instructions-new_data_op k content result h b))))

-- A round of the loop, once the five lengths of a window are read.
pub decode_windows-step :
    (fuel src_off src_len tgt_len i n : ℕ) (body result : Bytes)
    → src_off < 2 ^ 64
    → src_len < 2 ^ 64
    → tgt_len < 2 ^ 64
    → i < 2 ^ 64
    → n < 2 ^ 64
    → i + n ≤ length body
    → decode_windows
        (suc fuel)
        (encode_varint src_off
          ++ (encode_varint src_len
              ++ (encode_varint tgt_len ++ (encode_varint i ++ (encode_varint n ++ body)))))
        result
      ≡ decode_windows fuel (drop (i + n) body) (run_window i n body result)
unfolding decode_windows
decode_windows-step fuel src_off src_len tgt_len i n body result b1 b2 b3 b4 b5 h =
    let e5 = encode_varint n ++ body in
    let e4 = encode_varint i ++ e5 in
    let e3 = encode_varint tgt_len ++ e4 in
    let e2 = encode_varint src_len ++ e3 in
    rw (read_varint-encode_varint src_off e2 b1) (
      rw (read_varint-encode_varint src_len e3 b2) (
        rw (read_varint-encode_varint tgt_len e4 b3) (
          rw (read_varint-encode_varint i e5 b4) (
            rw (read_varint-encode_varint n body b5) (
              rw (is_empty-encode_varint src_off e2) (
                rw (is_empty-encode_varint src_len e3) (
                  rw (is_empty-encode_varint tgt_len e4) (
                    rw (is_empty-encode_varint i e5) (
                      rw (is_empty-encode_varint n body)
                        (rw (ge→ltb (length body) (i + n) h) refl))))))))))

-- A chunk has content, and less than 2 ^ 63 bytes of it.
abbrev pub IsChunk : Bytes → Type 0
IsChunk content = (0 < length content) × (length content < 2 ^ 63)

length-new_data_op_bound : (n : ℕ) → n < 2 ^ 63 → length (new_data_op n) < 2 ^ 64
unfolding new_data_op encode_varint
length-new_data_op_bound n b = elim (Bool-cases (ltb n 64)) [
  | inl short ↦ rw short (omega arith)
  | inr long ↦ rw long (elim (Bool-cases (ltb n 128)) [
    | inl one ↦ rw one (omega arith)
    | inr more ↦ rw more (omega (arith, length-groups n (n / 128) (n % 128 ∷ [])))
  ])
]

length-full_window : (content rest : Bytes) → length rest < length (full_window content ++ rest)
unfolding full_window encode_varint
length-full_window content rest = omega (arith, length-append (full_window content) rest)

decode_windows-full :
    (fuel : ℕ) (content rest result : Bytes)
    → IsChunk content
    → decode_windows (suc fuel) (full_window content ++ rest) result
      ≡ decode_windows fuel rest (result ++ content)
unfolding full_window
decode_windows-full fuel content rest result (h, b) =
    let n = length content in
    let op = new_data_op n in
    let body = op ++ (content ++ rest) in
    let i = length op in
    simp append_assoc (
      decode_windows-step fuel 0 0 n i n body result (omega arith) (omega arith) (omega arith)
        (length-new_data_op_bound n b) (omega arith)
        (omega (arith, length-append op (content ++ rest), length-append content rest))
      ∙ ap (λ (s : Bytes). decode_windows fuel s (run_window i n body result))
          (sym (drop-drop n i body)
            ∙ ap (drop n) (drop-append op (content ++ rest))
            ∙ drop-append content rest)
      ∙ ap (decode_windows fuel rest) (run_window-full content rest result h (omega arith)))

pub nothing_left : (fuel : ℕ) (result : Bytes) → decode_windows fuel [] result ≡ result
unfolding decode_windows
nothing_left zero result = refl
nothing_left (suc fuel) result = refl

decode_windows-full_windows :
    (fuel : ℕ) (chunks : List Bytes) (result : Bytes)
    → All IsChunk chunks
    → length (full_windows chunks) ≤ fuel
    → decode_windows fuel (full_windows chunks) result ≡ result ++ concat chunks
unfolding full_windows concat
decode_windows-full_windows fuel [] result a h = nothing_left fuel result ∙ sym (append-nil result)
decode_windows-full_windows zero (c ∷ cs) result a h =
    absurd (omega (arith, length-full_window c (full_windows cs)))
decode_windows-full_windows (suc fuel) (c ∷ cs) result a h =
    decode_windows-full fuel c (full_windows cs) result a.0
    ∙ decode_windows-full_windows fuel cs (result ++ c) a.1
        (omega (arith, length-full_window c (full_windows cs)))
    ∙ append_assoc result c (concat cs)

-- A document with a window of new data for each chunk decodes to the chunks in their order, if none
-- is empty or has 2 ^ 63 bytes.
pub decode_svndiff-svndiff_of :
    (chunks : List Bytes) → All IsChunk chunks → decode_svndiff (svndiff_of chunks) ≡ concat chunks
unfolding decode_svndiff svndiff_of eqb
decode_svndiff-svndiff_of chunks a =
    let long : ltb (length (svndiff_of chunks)) 4 ≡ false =
      ge→ltb (length (svndiff_of chunks)) 4 (ground arith) in
    rw long (decode_windows-full_windows (length (svndiff_of chunks)) chunks [] a (ground arith))
