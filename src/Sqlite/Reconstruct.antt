-- ===== src/Sqlite/Reconstruct.antt =====
-- `get_tree_at_rev`: the tree of a revision from the cache, a snapshot, or the chain of delta trees
-- down to a cached tree, a snapshot or revision 0.
use dsvn.Prelude.{ℕ, zero, suc, true, false, none, some, List, [], ◌∷◌}
use dsvn.SortedMap.{SortedMap}
use dsvn.Object.{TreeEntry, Tree, DeltaTree, Externals, new_tree, tree_insert}
use dsvn.Sqlite.Delta.{apply_changes}
use dsvn.Sqlite.Files.{
  Files, Failure, Result, ok, err, no_base, endless, exists, load_tree, load_commit,
  load_tree_snapshot, load_delta_tree, ◌>>=◌,
}
use dsvn.Sqlite.Cache.{LruCache}

-- The map from paths to entries, a `HashMap` in the source.
abbrev pub TreeMap : Type 0
TreeMap = SortedMap TreeEntry

unfoldable pub tree_to_map : Tree → TreeMap
tree_to_map t = t.entries

unfoldable pub insert_all : Tree → TreeMap → Tree
insert_all t [] = t
insert_all t ((_, e) ∷ es) = insert_all (tree_insert t e) es

unfoldable pub map_to_tree : TreeMap → Tree
unfolding insert_all
map_to_tree m = insert_all new_tree m

-- How the walk down the delta chain ends: at revision `cur` with the deltas collected, the last
-- pushed first; at a revision without a delta; or with an error.
pub data Walk : Type 0 where
  base : ℕ → List (ℕ × DeltaTree) → Walk
  legacy : Walk
  failed : Failure → Walk

module _ (x : Externals) (l : LruCache TreeMap) (f : Files) where
  -- One turn of the loop for each unit of fuel. A chain whose `parent_rev`s do not fall would make
  -- the source's loop run for ever; here it is `endless`.
  unfoldable pub walk : ℕ → ℕ → List (ℕ × DeltaTree) → l.State → Walk × l.State
  walk zero cur chain c = (failed endless, c)
  walk (suc fuel) zero chain c = (base zero chain, c)
  walk (suc fuel) (suc r) chain c = elim (l.get (suc r) c) [
    | some _ ↦ (base (suc r) chain, l.touch (suc r) c)
    | none ↦ elim (exists (f.snapshots (suc r))) [
      | true ↦ (base (suc r) chain, c)
      | false ↦ elim (exists (f.delta_files (suc r))) [
        | false ↦ (legacy, c)
        | true ↦ elim (load_delta_tree x f (suc r)) [
          | err e ↦ (failed e, c)
          | ok d ↦ walk fuel d.parent_rev ((suc r, d) ∷ chain) c
        ]
      ]
    ]
  ]

  -- The tree on which the chain is replayed.
  unfoldable pub base_tree : ℕ → l.State → Result TreeMap × l.State
  base_tree zero c = (ok [], c)
  base_tree (suc r) c = elim (l.get (suc r) c) [
    | some t ↦ (ok t, l.touch (suc r) c)
    | none ↦ elim (exists (f.snapshots (suc r))) [
      | false ↦ (err no_base, c)
      | true ↦ elim (load_tree_snapshot x f (suc r)) [
        | err e ↦ (err e, c)
        | ok t ↦ (ok (tree_to_map t), l.put (suc r) (tree_to_map t) c)
      ]
    ]
  ]

  -- The deltas, oldest first, each result put into the cache.
  unfoldable pub replay : List (ℕ × DeltaTree) → TreeMap → l.State → TreeMap × l.State
  replay [] tree c = (tree, c)
  replay ((rev, d) ∷ chain) tree c =
      let tree' = apply_changes tree d.changes in replay chain tree' (l.put rev tree' c)

  unfoldable pub get_tree_at_rev_legacy : ℕ → l.State → Result TreeMap × l.State
  get_tree_at_rev_legacy rev c = elim (do co ← load_commit x f rev; load_tree x f co.tree_id) [
    | err e ↦ (err e, c)
    | ok t ↦ (ok (tree_to_map t), l.put rev (tree_to_map t) c)
  ]

  unfoldable pub replay_on :
      List (ℕ × DeltaTree) → Result TreeMap × l.State → Result TreeMap × l.State
  replay_on chain (err e, c) = (err e, c)
  replay_on chain (ok tree, c) = let (tree', c') = replay chain tree c in (ok tree', c')

  unfoldable pub finish_walk : ℕ → Walk × l.State → Result TreeMap × l.State
  finish_walk rev (failed e, c) = (err e, c)
  finish_walk rev (legacy, c) = get_tree_at_rev_legacy rev c
  finish_walk rev (base cur chain, c) = replay_on chain (base_tree cur c)

  unfoldable pub get_tree_at_rev : ℕ → l.State → Result TreeMap × l.State
  get_tree_at_rev zero c = (ok [], c)
  get_tree_at_rev (suc r) c = elim (l.get (suc r) c) [
    | some t ↦ (ok t, l.touch (suc r) c)
    | none ↦ elim (exists (f.snapshots (suc r))) [
      | true ↦ elim (load_tree_snapshot x f (suc r)) [
        | err e ↦ (err e, c)
        | ok t ↦ (ok (tree_to_map t), l.put (suc r) (tree_to_map t) c)
      ]
      | false ↦ finish_walk (suc r) (walk (suc (suc r)) (suc r) [] c)
    ]
  ]
