-- ===== src/Storage.antt =====
-- Tiered object storage (dsvn-core/src/storage.rs): the hot store, the warm store of packs, and the
-- store that routes between them. `fjall` is the map that its keyspace holds, indexed by the id
-- whose hexadecimal text is the key; SHA-256, `hex` and `zstd` are parameters. Failures of the disk
-- are not modelled.
pub mod Tiers
use dsvn.Prelude.{
  ℕ, ◌-◌, Bool, true, false, ◌||◌, Option, none, some, List, [], ◌∷◌, ◌++◌, if◌then◌else◌, length,
  take, ltb, ◌==◌,
}
use dsvn.Bytes.{Bytes, eqb}
use dsvn.SortedMap
use dsvn.SortedMap.{SortedMap}
use dsvn.Object.{ObjectId}

pub data StorageError : Type 0 where
  not_found : ObjectId → StorageError
  not_implemented cannot_delete : StorageError

pub data Stored {ℓ} (A : Type ℓ) : Type ℓ where
  ok : A → Stored A
  err : StorageError → Stored A

-- The library code that the stores call; `compress` is `zstd::encode_all`.
pub record Library : Type 0 where
  pub sha256 : Bytes → Bytes
  pub hex_encode : Bytes → Bytes
  pub hex_decode : Bytes → Option Bytes
  pub compress : Bytes → Bytes

-- The entry of a pack's index; the id is in hexadecimal.
pub record PackEntry : Type 0 where
  pub object_id : Bytes
  pub offset : ℕ
  pub size : ℕ
  pub compressed_size : Option ℕ

pub record HotStore : Type 0 where
  pub objects : SortedMap Bytes

-- `pack_files` holds the packs that were written, with their index files.
pub record WarmStore : Type 0 where
  pub packs : List PackEntry
  pub pack_files : List (Bytes × List PackEntry)

pub record TieredStore : Type 0 where
  pub hot : HotStore
  pub warm : WarmStore

abbrev pub ok_or : Option Bytes → StorageError → Stored Bytes
ok_or none e = err e
ok_or (some content) e = ok content

abbrev pub to_option : Stored Bytes → Option Bytes
to_option (ok content) = some content
to_option (err e) = none

unfoldable pub hot_get : HotStore → ObjectId → Stored Bytes
hot_get h id = ok_or (SortedMap.get id h.objects) (not_found id)

unfoldable pub hot_exists : HotStore → ObjectId → Bool
hot_exists h id = elim (SortedMap.get id h.objects) [ none ↦ false | some content ↦ true ]

unfoldable pub hot_delete : HotStore → ObjectId → HotStore
hot_delete h id = record { objects = SortedMap.remove id h.objects }

unfoldable pub hot_get_batch : HotStore → List ObjectId → List (Option Bytes)
hot_get_batch h [] = []
hot_get_batch h (id ∷ ids) = SortedMap.get id h.objects ∷ hot_get_batch h ids

-- It returns no object yet.
unfoldable pub hot_list : HotStore → (offset limit : ℕ) → List ObjectId
hot_list h offset limit = []

module _ (x : Library) where
  unfoldable pub hot_put : HotStore → Bytes → ObjectId × HotStore
  hot_put h content =
      (x.sha256 content, record { objects = SortedMap.insert (x.sha256 content) content h.objects })

  unfoldable pub hot_put_batch : HotStore → List Bytes → List ObjectId × HotStore
  unfolding hot_put
  hot_put_batch h [] = ([], h)
  hot_put_batch h (content ∷ contents) =
      let h' : HotStore = record {
        objects = SortedMap.insert (x.sha256 content) content h.objects;
      } in
      let (ids, last) = hot_put_batch h' contents in (x.sha256 content ∷ ids, last)

  -- The loop of `write_pack`, over the pack written so far.
  unfoldable pub pack_objects : Bytes → List (ObjectId × Bytes) → Bytes × List PackEntry
  pack_objects pack [] = (pack, [])
  pack_objects pack ((id, content) ∷ objects) =
      let compressed = x.compress content in
      let (whole, entries) = pack_objects (pack ++ compressed) objects in
      let entry : PackEntry = record {
        object_id = x.hex_encode id;
        offset = length pack;
        size = length content;
        compressed_size = some (length compressed);
      } in
      (whole, entry ∷ entries)

  unfoldable pub write_pack : WarmStore → List (ObjectId × Bytes) → WarmStore
  unfolding pack_objects
  write_pack w objects =
      let (pack, entries) = pack_objects [] objects in
      record { packs = w.packs ++ entries; pack_files = (pack, entries) ∷ w.pack_files }

  unfoldable pub has_entry : Bytes → List PackEntry → Bool
  has_entry key [] = false
  has_entry key (e ∷ entries) = eqb e.object_id key || has_entry key entries

  -- Reading an object from its pack is not implemented.
  unfoldable pub warm_get : WarmStore → ObjectId → Stored Bytes
  unfolding has_entry
  warm_get w id =
      if has_entry (x.hex_encode id) w.packs then err not_implemented else err (not_found id)

  unfoldable pub warm_exists : WarmStore → ObjectId → Bool
  unfolding has_entry
  warm_exists w id = has_entry (x.hex_encode id) w.packs

  -- It stores nothing.
  unfoldable pub warm_put : WarmStore → Bytes → ObjectId × WarmStore
  warm_put w content = (x.sha256 content, w)

  unfoldable pub warm_delete : WarmStore → ObjectId → Stored (Unit {0})
  warm_delete w id = err cannot_delete

  unfoldable pub warm_get_batch : WarmStore → List ObjectId → List (Option Bytes)
  unfolding warm_get
  warm_get_batch w [] = []
  warm_get_batch w (id ∷ ids) = to_option (warm_get w id) ∷ warm_get_batch w ids

  unfoldable pub with_ids : List Bytes → List (ObjectId × Bytes)
  with_ids [] = []
  with_ids (content ∷ contents) = (x.sha256 content, content) ∷ with_ids contents

  unfoldable pub ids_of : List Bytes → List ObjectId
  ids_of [] = []
  ids_of (content ∷ contents) = x.sha256 content ∷ ids_of contents

  unfoldable pub warm_put_batch : WarmStore → List Bytes → List ObjectId × WarmStore
  unfolding write_pack with_ids ids_of
  warm_put_batch w contents = (ids_of contents, write_pack w (with_ids contents))

  -- `from_hex`: an id has 32 bytes.
  unfoldable pub from_hex : Bytes → Option ObjectId
  from_hex text = elim (x.hex_decode text) [
    | none ↦ none
    | some bytes ↦ if length bytes == 32 then some bytes else none
  ]

  unfoldable pub listed : List PackEntry → List ObjectId
  unfolding from_hex
  listed [] = []
  listed (e ∷ entries) =
      let rest = listed entries in elim (from_hex e.object_id) [ none ↦ rest | some id ↦ id ∷ rest ]

  unfoldable pub warm_list : WarmStore → (offset limit : ℕ) → List ObjectId
  unfolding listed
  warm_list w offset limit = listed (take limit w.packs)

  -- Objects that the warm store returns are put into the hot store.
  unfoldable pub promote : TieredStore → List ObjectId → TieredStore
  unfolding warm_get hot_put
  promote t [] = t
  promote t (id ∷ ids) =
      promote
        (elim (warm_get t.warm id) [
          | err e ↦ t
          | ok content ↦ record t { hot = (hot_put t.hot content).1 }
        ])
        ids

  -- Objects of the hot store are put into the warm store and deleted.
  unfoldable pub demote_one : TieredStore → ObjectId → TieredStore
  unfolding hot_get warm_put hot_delete
  demote_one t id = elim (hot_get t.hot id) [
    | err e ↦ t
    | ok content ↦ record { hot = hot_delete t.hot id; warm = (warm_put t.warm content).1 }
  ]

  unfoldable pub demote : TieredStore → List ObjectId → TieredStore
  unfolding demote_one
  demote t [] = t
  demote t (id ∷ ids) = demote (demote_one t id) ids

  unfoldable pub tiered_get : TieredStore → ObjectId → Stored Bytes
  unfolding hot_get warm_get
  tiered_get t id = elim (hot_get t.hot id) [
    | ok content ↦ ok content
    | err _ ↦ elim (warm_get t.warm id) [ ok content ↦ ok content | err _ ↦ err (not_found id) ]
  ]

  unfoldable pub tiered_exists : TieredStore → ObjectId → Bool
  unfolding hot_exists warm_exists
  tiered_exists t id = hot_exists t.hot id || warm_exists t.warm id

  unfoldable pub tiered_put : TieredStore → Bytes → ObjectId × TieredStore
  unfolding hot_put
  tiered_put t content = let (id, h) = hot_put t.hot content in (id, record t { hot = h })

  unfoldable pub tiered_delete : TieredStore → ObjectId → TieredStore
  unfolding hot_delete
  tiered_delete t id = record t { hot = hot_delete t.hot id }

  -- The loop of `get_batch` over the ids and what the hot store returned for them.
  unfoldable pub fill_misses :
      TieredStore → List ObjectId → List (Option Bytes) → List (Option Bytes)
  unfolding warm_get
  fill_misses t [] results = []
  fill_misses t (id ∷ ids) [] = to_option (warm_get t.warm id) ∷ fill_misses t ids []
  fill_misses t (id ∷ ids) (some content ∷ results) = some content ∷ fill_misses t ids results
  fill_misses t (id ∷ ids) (none ∷ results) =
      to_option (warm_get t.warm id) ∷ fill_misses t ids results

  unfoldable pub tiered_get_batch : TieredStore → List ObjectId → List (Option Bytes)
  unfolding fill_misses hot_get_batch
  tiered_get_batch t ids = fill_misses t ids (hot_get_batch t.hot ids)

  unfoldable pub tiered_put_batch : TieredStore → List Bytes → List ObjectId × TieredStore
  unfolding hot_put_batch
  tiered_put_batch t contents =
      let (ids, h) = hot_put_batch t.hot contents in (ids, record t { hot = h })

  unfoldable pub tiered_list : TieredStore → (offset limit : ℕ) → List ObjectId
  unfolding hot_list warm_list
  tiered_list t offset limit =
      let hot_ids = hot_list t.hot offset limit in
      if ltb (length hot_ids) limit
      then hot_ids ++ warm_list t.warm 0 (limit - length hot_ids)
      else hot_ids
