-- ===== src/Storage/Tiers.antt =====
-- The tiered store as one map, its batches, and demotion (dsvn-core/src/storage.rs).
use dsvn.Prelude.{
  ◌≡◌, refl, ap, ◌∙◌, Bool, true, false, none, some, List, [], ◌∷◌, arith, if◌then◌else◌,
  Option-cases, inl, inr, map,
}
use dsvn.Bytes.{Bytes, eqb, eqb_iff}
use dsvn.SortedMap
use dsvn.SortedMap.{SortedMap, get-insert, get-remove}
use dsvn.Object.{ObjectId}
use dsvn.Storage.{
  Library, TieredStore, to_option, hot_get, hot_get_batch, hot_put, hot_put_batch, hot_delete,
  warm_get, demote, demote_one, tiered_get, tiered_put, tiered_delete, tiered_get_batch,
  tiered_put_batch, fill_misses,
}

module _ (x : Library) where
  -- A get of the tiered store is one of its hot store.
  tiered_get_lem :
      (t : TieredStore) (id : ObjectId)
      → to_option (tiered_get x t id) ≡ SortedMap.get id t.hot.objects
  unfolding tiered_get warm_get hot_get
  tiered_get_lem t id = ground arith

  warm_none : (t : TieredStore) (id : ObjectId) → to_option (warm_get x t.warm id) ≡ none
  unfolding warm_get
  warm_none t id = ground arith

  -- In the tiered store, an object that was put is found under its digest, one that was deleted is
  -- not found, and both leave what is found under any other id.
  pub tiered_get-put_delete :
      (t : TieredStore) (content : Bytes) (id j : ObjectId)
      → (to_option (tiered_get x (tiered_put x t content).1 j)
          ≡ (if eqb (x.sha256 content) j then some content else to_option (tiered_get x t j)))
        × (to_option (tiered_get x (tiered_delete x t id) j)
            ≡ (if eqb id j then none else to_option (tiered_get x t j)))
  unfolding tiered_put tiered_delete hot_put hot_delete
  tiered_get-put_delete t content id j = (
    tiered_get_lem _ j
        ∙ get-insert j (x.sha256 content) content t.hot.objects
        ∙ rw (tiered_get_lem t j) refl,
    tiered_get_lem _ j ∙ get-remove j id t.hot.objects ∙ rw (tiered_get_lem t j) refl,
  )

  -- A batch of gets of the tiered store returns what each single get does.
  pub tiered_get_batch-tiered_get :
      (t : TieredStore) (ids : List ObjectId)
      → tiered_get_batch x t ids ≡ map (λ id. to_option (tiered_get x t id)) ids
  unfolding tiered_get_batch fill_misses hot_get_batch
  tiered_get_batch-tiered_get t [] = refl
  tiered_get_batch-tiered_get t (id ∷ ids) =
      ground (arith, tiered_get_batch-tiered_get t ids, tiered_get_lem t id, warm_none t id)

  -- Single puts, one after the other.
  abbrev pub put_all : TieredStore → List Bytes → TieredStore
  put_all t [] = t
  put_all t (content ∷ contents) = put_all (tiered_put x t content).1 contents

  -- A batch of puts into the tiered store returns the digests, in order, and leaves what the
  -- single puts leave.
  pub tiered_put_batch-tiered_put :
      (t : TieredStore) (contents : List Bytes)
      → tiered_put_batch x t contents ≡ (map x.sha256 contents, put_all t contents)
  unfolding tiered_put_batch tiered_put hot_put_batch hot_put
  tiered_put_batch-tiered_put t [] = refl
  tiered_put_batch-tiered_put t (content ∷ contents) =
      ap (λ p. (x.sha256 content ∷ p.0, p.1))
        (tiered_put_batch-tiered_put (tiered_put x t content).1 contents)

  abbrev pub is_in : ObjectId → List ObjectId → Bool
  is_in j [] = false
  is_in j (id ∷ ids) = if eqb id j then true else is_in j ids

  get-demote_one :
      (t : TieredStore) (id j : ObjectId)
      → SortedMap.get j (demote_one x t id).hot.objects
        ≡ (if eqb id j then none else SortedMap.get j t.hot.objects)
  unfolding demote_one hot_get hot_delete
  get-demote_one t id j = elim (Option-cases (SortedMap.get id t.hot.objects)) [
    | inl gone ↦ rw (gone, demote_one) (ground (arith, gone, eqb_iff id j))
    | inr (content, e) ↦ rw (e, demote_one) (get-remove j id t.hot.objects)
  ]

  -- An object that was demoted is found in neither tier of the store, and the others are found as
  -- before.
  pub tiered_get-demote :
      (t : TieredStore) (ids : List ObjectId) (j : ObjectId)
      → to_option (tiered_get x (demote x t ids) j)
        ≡ (if is_in j ids then none else to_option (tiered_get x t j))
  unfolding demote
  tiered_get-demote t [] j = refl
  tiered_get-demote t (id ∷ ids) j = ground (
    arith,
    tiered_get-demote (demote_one x t id) ids j,
    tiered_get_lem (demote_one x t id) j,
    tiered_get_lem t j,
    get-demote_one t id j,
  )
