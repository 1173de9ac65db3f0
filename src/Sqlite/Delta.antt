-- ===== src/Sqlite/Delta.antt =====
-- The replay of a delta tree on a tree: the inner loop of `get_tree_at_rev`
-- (dsvn-core/src/sqlite_repository.rs).
use dsvn.Prelude.{
  ◌≡◌, refl, Bool, not, ◌||◌, Option, none, some, List, [], ◌∷◌, ◌++◌, arith, if◌then◌else◌,
}
use dsvn.Bytes.{Bytes, ascii, eqb, starts_with}
use dsvn.SortedMap
use dsvn.SortedMap.{SortedMap}
use dsvn.Object.{TreeEntry, TreeChange, upsert, delete}

-- `k` lies in the directory `p`.
unfoldable pub is_below : Bytes → Bytes → Bool
is_below p k = starts_with k (p ++ ascii "/")

unfoldable pub apply_change : SortedMap TreeEntry → TreeChange → SortedMap TreeEntry
apply_change tree (upsert path entry) = SortedMap.insert path entry tree
apply_change tree (delete path) =
    SortedMap.retain (λ k. not (is_below path k)) (SortedMap.remove path tree)

unfoldable pub apply_changes : SortedMap TreeEntry → List TreeChange → SortedMap TreeEntry
apply_changes tree [] = tree
apply_changes tree (ch ∷ changes) = apply_changes (apply_change tree ch) changes

-- What one change does to the entry at `k`.
unfoldable pub change_at : Bytes → Option TreeEntry → TreeChange → Option TreeEntry
change_at k now (upsert path entry) = if eqb path k then some entry else now
change_at k now (delete path) = if eqb path k || is_below path k then none else now

unfoldable pub changes_at : Bytes → Option TreeEntry → List TreeChange → Option TreeEntry
changes_at k now [] = now
changes_at k now (ch ∷ changes) = changes_at k (change_at k now ch) changes

pub get-apply_change :
    (k : Bytes) (tree : SortedMap TreeEntry) (ch : TreeChange)
    → SortedMap.get k (apply_change tree ch) ≡ change_at k (SortedMap.get k tree) ch
unfolding apply_change change_at
get-apply_change k tree (upsert path entry) = SortedMap.get-insert k path entry tree
get-apply_change k tree (delete path) = ground (
  arith,
  SortedMap.get-retain k (λ j. not (is_below path j)) (SortedMap.remove path tree),
  SortedMap.get-remove k path tree,
)

-- The replay, entry by entry.
pub get-apply_changes :
    (k : Bytes) (tree : SortedMap TreeEntry) (changes : List TreeChange)
    → SortedMap.get k (apply_changes tree changes) ≡ changes_at k (SortedMap.get k tree) changes
unfolding apply_changes changes_at
get-apply_changes k tree [] = refl
get-apply_changes k tree (ch ∷ changes) =
    rw (get-apply_changes k (apply_change tree ch) changes, get-apply_change k tree ch)
