-- ===== src/Packfile.antt =====
-- Packfiles (dsvn-core/src/packfile.rs): the writer, the format, and the reader. `zstd` is a
-- parameter. A file is its bytes; failures of the disk are not modelled.
pub mod RoundTrip
use dsvn.Prelude.{
  ℕ, zero, suc, ◌+◌, ◌*◌, ◌/◌, ◌%◌, ◌^◌, Bool, true, false, Option, none, some, List, [], ◌∷◌, ◌++◌,
  if◌then◌else◌, length, take, drop, leb, ◌==◌,
}
use dsvn.Bytes.{Bytes, eqb}
use dsvn.LittleEndian.{to_le_bytes, from_le_bytes}
use dsvn.Object.{ObjectId}

-- `Zstd.encode` and `Zstd.decode`: `encode_all` and `decode_all` of the crate.
pub record Zstd : Type 0 where
  pub encode : Bytes → Bytes
  pub decode : Bytes → Option Bytes

abbrev pub pack_version : ℕ
pack_version = 2

pub record PackEntry : Type 0 where
  pub object_id : ObjectId
  pub offset : ℕ
  pub size : ℕ

pub record PackIndex : Type 0 where
  pub entries : List PackEntry

-- The objects of a writer, in the order in which its hash map iterates.
pub record PackWriter : Type 0 where
  pub objects : List (ObjectId × Bytes)

pub record PackReader : Type 0 where
  pub index : PackIndex
  pub raw : Bytes

-- What reading returns; `panicked` is a slice out of range.
pub data Read {ℓ} (A : Type ℓ) : Type ℓ where
  ok : A → Read A
  unknown_version : ℕ → Read A
  undecodable panicked : Read A

infixl 10 ◌>>=◌
abbrev pub ◌>>=◌ {ℓ κ} : {A : Type ℓ} {B : Type κ} → Read A → (A → Read B) → Read B
ok a >>= f = f a
unknown_version v >>= f = unknown_version v
undecodable >>= f = undecodable
panicked >>= f = panicked

abbrev pub create : PackWriter
create = record { objects = [] }

unfoldable pub insert_object : ObjectId → Bytes → List (ObjectId × Bytes) → List (ObjectId × Bytes)
insert_object id raw [] = (id, raw) ∷ []
insert_object id raw ((j, d) ∷ objects) =
    let rest = insert_object id raw objects in
    if eqb id j then (j, raw) ∷ objects else (j, d) ∷ rest

unfoldable pub add_object : PackWriter → ObjectId → Bytes → PackWriter
add_object w id raw = record { objects = insert_object id raw w.objects }

module _ (z : Zstd) where
  -- One object: its type, its size, its id, and its compressed data after their size.
  unfoldable pub object_bytes : ObjectId → Bytes → Bytes
  object_bytes id raw =
      let compressed = z.encode raw in
      1 ∷ to_le_bytes (length raw % 2 ^ 32)
      ++ id
      ++ to_le_bytes (length compressed % 2 ^ 32)
      ++ compressed

  -- The loop of `write`: the bytes after the header, and the entries of the index.
  unfoldable pub write_objects : ℕ → List (ObjectId × Bytes) → Bytes × List PackEntry
  write_objects current_offset [] = ([], [])
  write_objects current_offset ((id, raw) ∷ objects) =
      let written = object_bytes id raw in
      let (bytes, entries) = write_objects (current_offset + length written) objects in
      let entry : PackEntry = record {
        object_id = id;
        offset = current_offset;
        size = length raw;
      } in
      (written ++ bytes, entry ∷ entries)

  unfoldable pub write : PackWriter → Bytes × PackIndex
  unfolding write_objects
  write w =
      let (bytes, entries) = write_objects 8 w.objects in
      (
        to_le_bytes pack_version ++ to_le_bytes (length w.objects % 2 ^ 32) ++ bytes,
        record { entries = entries },
      )

-- `data[pos..pos + n]`
unfoldable pub slice : Bytes → ℕ → ℕ → Read Bytes
slice raw pos n = if leb (pos + n) (length raw) then ok (take n (drop pos raw)) else panicked

unfoldable pub read_u32 : Bytes → ℕ → Read ℕ
read_u32 raw pos = do bytes ← slice raw pos 4; ok (from_le_bytes bytes)

-- The loop of `open` over the entries.
unfoldable pub scan : Bytes → ℕ → ℕ → Read (List PackEntry)
scan raw zero pos = ok []
scan raw (suc count) pos = do
  obj_size ← read_u32 raw (pos + 1)
  object_id ← slice raw (pos + 1 + 4) 32
  compressed_size ← read_u32 raw (pos + 1 + 4 + 32)
  entries ← scan raw count (pos + 1 + 4 + 32 + 4 + compressed_size)
  ok (record { object_id = object_id; offset = pos; size = obj_size } ∷ entries)

unfoldable pub open_pack : Bytes → Read PackReader
unfolding scan
open_pack raw = do
  version ← read_u32 raw 0
  if version == pack_version
      then (do
        object_count ← read_u32 raw 4
        entries ← scan raw object_count 8
        ok (record { index = record { entries = entries }; raw = raw }))
      else unknown_version version

unfoldable pub find_entry : ObjectId → List PackEntry → Option PackEntry
find_entry id [] = none
find_entry id (e ∷ entries) =
    let rest = find_entry id entries in if eqb e.object_id id then some e else rest

module _ (z : Zstd) where
  unfoldable pub read_object : Bytes → Option PackEntry → Read (Option Bytes)
  read_object raw none = ok none
  read_object raw (some entry) = do
    compressed_size ← read_u32 raw (entry.offset + 1 + 4 + 32)
    compressed ← slice raw (entry.offset + 1 + 4 + 32 + 4) compressed_size
    elim (z.decode compressed) [ none ↦ undecodable | some content ↦ ok (some content) ]

  unfoldable pub get_object : PackReader → ObjectId → Read (Option Bytes)
  unfolding read_object
  get_object r id = read_object r.raw (find_entry id r.index.entries)

unfoldable pub entry_ids : List PackEntry → List ObjectId
entry_ids [] = []
entry_ids (e ∷ entries) = e.object_id ∷ entry_ids entries

unfoldable pub object_ids : PackReader → List ObjectId
object_ids r = entry_ids r.index.entries
