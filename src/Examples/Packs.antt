-- ===== src/Examples/Packs.antt =====
-- A packfile with two objects.
use dsvn.Prelude.{◌≡◌, refl, Option, none, some, [], ◌∷◌, arith, All}
use dsvn.Bytes.{Bytes, ascii}
use dsvn.Object.{ObjectId}
use dsvn.Packfile.{Zstd, PackWriter, PackReader, ok, write, open_pack, get_object}
use dsvn.Packfile.RoundTrip.{IsZstd, IsStorable, lookup_object, get_object-write}
use dsvn.Examples.Settings.{digest}

-- A compressor that only puts a mark in front.
abbrev marked : Bytes → Option Bytes
marked [] = none
marked (c ∷ s) = some s

abbrev pub marking : Zstd
marking = record { encode = λ b. 40 ∷ b; decode = marked }

pub marking-IsZstd : IsZstd marking
marking-IsZstd = record { decode-encode = λ b. refl }

abbrev pub hello_id : ObjectId
hello_id = digest (ascii "hello")

abbrev pub world_id : ObjectId
world_id = digest (ascii "world!")

abbrev writer : PackWriter
writer = record { objects = (hello_id, ascii "hello") ∷ (world_id, ascii "world!") ∷ [] }

writer-IsStorable : All (IsStorable marking) writer.objects
writer-IsStorable = ((refl, omega arith, omega arith), ((refl, omega arith, omega arith), tt))

get_object-write_example :
    (r : PackReader) × (open_pack (write marking writer).0 ≡ ok r)
    × (r.index ≡ (write marking writer).1)
    × ((id : ObjectId) → get_object marking r id ≡ ok (lookup_object id writer.objects))
get_object-write_example = get_object-write marking-IsZstd writer writer-IsStorable (omega arith)
