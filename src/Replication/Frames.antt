-- ===== src/Replication/Frames.antt =====
-- Encoding against decoding of frames, whole and cut short (dsvn-core/src/replication.rs).
use dsvn.Prelude.{
  ℕ, suc, ◌+◌, ◌-◌, ◌%◌, ◌^◌, ◌≤◌, ◌<◌, ◌≡◌, ◌⊎◌, refl, sym, ◌∙◌, none, some, ◌∷◌, ◌++◌, arith,
  if◌then◌else◌, length, take, drop, ltb, ltb→lt, lt→ltb, ge→ltb, Bool-cases, inl, inr,
  length-append, take-append, length-take,
}
use dsvn.Bytes.{Bytes, eqb}
use dsvn.LittleEndian.{to_le_bytes, from_le_bytes, from_le_bytes-to_le_bytes}
use dsvn.Object.{Codec}
use dsvn.Packfile.{Zstd}
use dsvn.Packfile.RoundTrip.{IsZstd}
use dsvn.Replication.{
  SyncMessage, ok, err, too_short, truncated, undecompressable, protocol_magic, max_message_size,
  encode, decode, encode_compressed, decode_compressed,
}

-- The documented behaviour of the serializer at a message: decoding gives it back.
abbrev pub IsRead : Codec SyncMessage → SyncMessage → Type 0
IsRead codec m = codec.deserialize (codec.serialize m) ≡ some m

length_field : (n : ℕ) → n < 2 ^ 32 → from_le_bytes (to_le_bytes (n % 2 ^ 32)) ≡ n
length_field n b =
    let same : n % 2 ^ 32 ≡ n = omega arith in
    from_le_bytes-to_le_bytes (n % 2 ^ 32) (omega arith) ∙ same

abbrev past_header : ℕ → ℕ
past_header k = suc (suc (suc (suc (suc (suc (suc (suc (suc (suc (suc (suc (suc k))))))))))))

cut : (n : ℕ) → (n < 13) ⊎ ((k : ℕ) × (n ≡ past_header k))
cut n = elim (Bool-cases (ltb n 13)) [
  | inl few ↦ inl (ltb→lt n 13 few)
  | inr enough ↦ inr (n - 13, ground arith)
]

module _ (codec : Codec SyncMessage) (m : SyncMessage) (lawful : IsRead codec m) where
  decode_lem : decode codec (codec.serialize m) ≡ ok m
  unfolding decode
  decode_lem = rw (lawful, decode) refl

  -- A message of at most `max_message_size` bytes, which the serializer gives back, is framed, its
  -- frame starts with its length, and decoding that many bytes after it, whatever follows, gives
  -- the message.
  pub decode-encode :
      (rest : Bytes)
      → length (codec.serialize m) ≤ max_message_size
      → (frame : Bytes) × (encode codec m ≡ ok frame)
        × (from_le_bytes (take 4 (frame ++ rest)) ≡ length (codec.serialize m))
        × (decode codec (take (length (codec.serialize m)) (drop 4 (frame ++ rest))) ≡ ok m)
  unfolding encode to_le_bytes
  decode-encode rest b =
      let payload = codec.serialize m in
      (
        to_le_bytes (length payload % 2 ^ 32) ++ payload,
        rw (ge→ltb max_message_size (length payload) b, encode) refl,
        length_field (length payload) (omega arith),
        rw (take-append payload rest) decode_lem,
      )

  module _ (z : Zstd) (sound : IsZstd z) where
    -- A frame with these length fields.
    abbrev frame : (uncompressed compressed : ℕ) → Bytes → Bytes
    frame u c body = protocol_magic ++ (1 ∷ (to_le_bytes u ++ (to_le_bytes c ++ body)))

    decode_body :
        (u c n : ℕ) (body : Bytes)
        → from_le_bytes (to_le_bytes c) ≡ n
        → decode_compressed codec z (frame u c body) ≡ (
            if ltb (length (frame u c body)) (13 + n)
            then err truncated
            else elim (z.decode (take n body)) [
              | none ↦ err undecompressable
              | some payload ↦ decode codec payload
            ])
    unfolding decode_compressed eqb to_le_bytes from_le_bytes
    decode_body u c n body e =
        rw (ge→ltb (length (frame u c body)) 13 (omega arith), decode_compressed) (rw (sym e) refl)

    -- A compressed frame, whatever follows it, decodes to its message, if the serializer and the
    -- compressor give it back and the compressed payload is below 2^32 bytes.
    pub decode_compressed-encode_compressed :
        (rest : Bytes)
        → length (z.encode (codec.serialize m)) < 2 ^ 32
        → decode_compressed codec z (encode_compressed codec z m ++ rest) ≡ ok m
    unfolding decode_compressed encode_compressed to_le_bytes
    decode_compressed-encode_compressed rest b =
        let c = z.encode (codec.serialize m) in
        let u = length (codec.serialize m) % 2 ^ 32 in
        let k = length c % 2 ^ 32 in
        decode_body u k (length c) (c ++ rest) (length_field (length c) b)
        ∙ rw
            (ge→ltb (length (frame u k (c ++ rest))) (13 + length c)
              (omega (arith, length-append c rest)))
            (rw (take-append c rest) (rw (sound.decode-encode (codec.serialize m)) decode_lem))

    short_lem :
        (bytes : Bytes) → length bytes < 13 → decode_compressed codec z bytes ≡ err too_short
    unfolding decode_compressed
    short_lem bytes h = rw (lt→ltb (length bytes) 13 h, decode_compressed) refl

    -- Every proper prefix of a compressed frame, of a payload that compresses to less than 2^32
    -- bytes, is refused as too short or as truncated.
    pub decode_compressed-take :
        (n : ℕ)
        → length (z.encode (codec.serialize m)) < 2 ^ 32
        → n < length (encode_compressed codec z m)
        → (decode_compressed codec z (take n (encode_compressed codec z m)) ≡ err too_short)
          ⊎ (decode_compressed codec z (take n (encode_compressed codec z m)) ≡ err truncated)
    unfolding decode_compressed encode_compressed to_le_bytes
    decode_compressed-take n b short = elim (cut n) [
      | inl few ↦
          inl (short_lem _ (omega (arith, few, length-take n (encode_compressed codec z m))))
      | inr (k, e) ↦
          let c = z.encode (codec.serialize m) in
          let u = length (codec.serialize m) % 2 ^ 32 in
          let j = length c % 2 ^ 32 in
          inr (
            rw e (
              decode_body u j (length c) (take k c) (length_field (length c) b)
              ∙ rw
                  (lt→ltb (length (frame u j (take k c))) (13 + length c)
                    (omega (arith, length-take k c, e, short)))
                  refl))
    ]
