-- ===== src/Replication.antt =====
-- The frames of the replication protocol (dsvn-core/src/replication.rs). `bincode` at the type of
-- the messages, `zstd` and SHA-256 are parameters.
pub mod Frames
pub mod ContentHash
use dsvn.Prelude.{
  ℕ, ◌+◌, ◌*◌, ◌/◌, ◌%◌, ◌^◌, ◌≤◌, ◌<◌, ◌≡◌, ◌≢◌, refl, sym, ap, ◌∙◌, Bool, true, false, not,
  Option, none, some, List, [], ◌∷◌, ◌++◌, arith, if◌then◌else◌, length, take, drop, ltb, ◌==◌, ℤ,
  Bool-cases, inl, inr, length-append, take-append, append-nil,
}
use dsvn.Bytes.{Bytes, ascii, eqb, eqb_refl}
use dsvn.LittleEndian.{to_le_bytes, from_le_bytes, from_le_bytes-to_le_bytes}
use dsvn.Object.{ObjectId, DeltaTree, Codec}
use dsvn.Packfile.{Zstd}

abbrev pub protocol_version : ℕ
protocol_version = 1

abbrev pub protocol_magic : Bytes
protocol_magic = ascii "DSVN"

abbrev pub max_message_size : ℕ
max_message_size = 256 * 1024 * 1024

pub data Compression : Type 0 where
  uncompressed zstd : Compression

pub record HandshakeRequest : Type 0 where
  pub magic : Bytes
  pub version : ℕ
  pub compression : Compression
  pub capabilities : List Bytes

abbrev pub new_handshake : HandshakeRequest
new_handshake = record {
  magic = protocol_magic;
  version = protocol_version;
  compression = zstd;
  capabilities =
      ascii "incremental-sync"
      ∷ ascii "delta-transfer"
      ∷ ascii "checkpoint-resume"
      ∷ ascii "hash-verify"
      ∷ [];
}

pub record HandshakeResponse : Type 0 where
  pub version : ℕ
  pub uuid : Bytes
  pub head_rev : ℕ
  pub compression : Compression
  pub capabilities : List Bytes
  pub accepted : Bool
  pub error : Option Bytes

pub record SyncRequest : Type 0 where
  pub from_rev : ℕ
  pub to_rev : ℕ
  pub include_objects : Bool
  pub include_properties : Bool

pub record RevisionData : Type 0 where
  pub revision : ℕ
  pub author : Bytes
  pub message : Bytes
  pub timestamp : ℤ
  pub delta_tree : DeltaTree
  pub objects : List (ObjectId × Bytes)
  pub properties : List (Bytes × Bytes)
  pub content_hash : ObjectId
  pub empty_commit : Bool

pub record SyncAck : Type 0 where
  pub revision : ℕ
  pub success : Bool
  pub error : Option Bytes
  pub received_hash : ObjectId

pub record SyncComplete : Type 0 where
  pub from_rev : ℕ
  pub to_rev : ℕ
  pub revisions_synced : ℕ
  pub objects_transferred : ℕ
  pub bytes_transferred : ℕ
  pub duration_ms : ℕ
  pub success : Bool

pub data SyncMessage : Type 0 where
  handshake_request : HandshakeRequest → SyncMessage
  handshake_response : HandshakeResponse → SyncMessage
  sync_request : SyncRequest → SyncMessage
  revision_data : RevisionData → SyncMessage
  sync_ack : SyncAck → SyncMessage
  sync_complete : SyncComplete → SyncMessage
  ping pong : SyncMessage
  error_message : Bytes → SyncMessage

-- Why a frame is refused.
pub data FrameError : Type 0 where
  too_large too_short invalid_magic truncated undecodable undecompressable : FrameError

pub data Framed {ℓ} (A : Type ℓ) : Type ℓ where
  ok : A → Framed A
  err : FrameError → Framed A

-- `u64::to_le_bytes`
unfoldable pub to_le_bytes64 : ℕ → Bytes
to_le_bytes64 n = to_le_bytes (n % 2 ^ 32) ++ to_le_bytes (n / 2 ^ 32 % 2 ^ 32)

-- What the hasher of `compute_content_hash` is given.
unfoldable pub hashed_bytes : List (ObjectId × Bytes) → Bytes
unfolding to_le_bytes64
hashed_bytes [] = []
hashed_bytes ((id, content) ∷ objects) =
    id ++ to_le_bytes64 (length content) ++ content ++ hashed_bytes objects

module _ (sha256 : Bytes → Bytes) where
  unfoldable pub compute_content_hash : List (ObjectId × Bytes) → ObjectId
  unfolding hashed_bytes
  compute_content_hash objects = sha256 (hashed_bytes objects)

  unfoldable pub verify_content_hash : RevisionData → Bool
  unfolding compute_content_hash
  verify_content_hash d = eqb (compute_content_hash d.objects) d.content_hash

module _ (codec : Codec SyncMessage) where
  unfoldable pub encode : SyncMessage → Framed Bytes
  encode m =
      let payload = codec.serialize m in
      if ltb max_message_size (length payload)
      then err too_large
      else ok (to_le_bytes (length payload % 2 ^ 32) ++ payload)

  unfoldable pub decode : Bytes → Framed SyncMessage
  decode bytes = elim (codec.deserialize bytes) [ none ↦ err undecodable | some m ↦ ok m ]

  module _ (z : Zstd) where
    -- The header of a compressed frame is its magic, its flags and both lengths.
    unfoldable pub encode_compressed : SyncMessage → Bytes
    encode_compressed m =
        let payload = codec.serialize m in
        let compressed = z.encode payload in
        protocol_magic
        ++ (1
            ∷ (to_le_bytes (length payload % 2 ^ 32)
                ++ (to_le_bytes (length compressed % 2 ^ 32) ++ compressed)))

    unfoldable pub decode_compressed : Bytes → Framed SyncMessage
    unfolding decode
    decode_compressed bytes =
        if ltb (length bytes) 13
        then err too_short
        else if not (eqb (take 4 bytes) protocol_magic)
        then err invalid_magic
        else (let flags = from_le_bytes (take 1 (drop 4 bytes)) in
            let compressed_len = from_le_bytes (take 4 (drop 9 bytes)) in
            let body = take compressed_len (drop 13 bytes) in
            if ltb (length bytes) (13 + compressed_len)
            then err truncated
            else if flags % 2 == 0
            then decode body
            else elim (z.decode body) [
              | none ↦ err undecompressable
              | some payload ↦ decode payload
            ])
