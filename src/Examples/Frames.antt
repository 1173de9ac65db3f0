-- ===== src/Examples/Frames.antt =====
-- Frames of an error message, and the objects of a revision.
use dsvn.Prelude.{◌≡◌, refl, Option, none, some, List, [], ◌∷◌, ◌++◌, arith, length, All}
use dsvn.Bytes.{Bytes, ascii}
use dsvn.LittleEndian.{to_le_bytes}
use dsvn.Object.{ObjectId, Codec}
use dsvn.Replication.{
  SyncMessage, handshake_request, handshake_response, sync_request, revision_data, sync_ack,
  sync_complete, ping, pong, error_message, ok, encode_compressed, decode_compressed,
}
use dsvn.Replication.Frames.{decode_compressed-encode_compressed}
use dsvn.Replication.ContentHash.{IsHashable}
use dsvn.Examples.Packs.{marking, marking-IsZstd, hello_id, world_id}

-- A codec of the messages that have no record.
abbrev written : SyncMessage → Bytes
written (handshake_request r) = 0 ∷ []
written (handshake_response r) = 1 ∷ []
written (sync_request r) = 2 ∷ []
written (revision_data r) = 3 ∷ []
written (sync_ack r) = 4 ∷ []
written (sync_complete r) = 5 ∷ []
written ping = 6 ∷ []
written pong = 7 ∷ []
written (error_message text) = 8 ∷ text

abbrev read_back : Bytes → Option SyncMessage
read_back [] = none
read_back (tag ∷ text) = some (error_message text)

abbrev messages : Codec SyncMessage
messages = record { serialize = written; deserialize = read_back }

abbrev trouble : SyncMessage
trouble = error_message (ascii "disk full")

decode_compressed-encode_compressed_example :
    decode_compressed messages marking (encode_compressed messages marking trouble ++ (1 ∷ 2 ∷ []))
    ≡ ok trouble
decode_compressed-encode_compressed_example =
    decode_compressed-encode_compressed messages trouble refl marking marking-IsZstd (1 ∷ 2 ∷ [])
      (omega arith)

encoded_length : length (encode_compressed messages marking trouble) ≡ 24
unfolding encode_compressed to_le_bytes
encoded_length = refl

abbrev sent : List (ObjectId × Bytes)
sent = (hello_id, ascii "hello") ∷ (world_id, ascii "world!") ∷ []

sent-IsHashable : All IsHashable sent
sent-IsHashable = ((refl, omega arith), ((refl, omega arith), tt))
