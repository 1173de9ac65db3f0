-- ===== src/Sqlite/Staging.antt =====
-- The working tree against its pending changes: the invariant of the two tables of
-- dsvn-core/src/sqlite_repository.rs.
use dsvn.Prelude.{
  ℕ, suc, ◌≡◌, refl, sym, ap, ◌∙◌, true, false, ◌≢◌, Option, none, some, List, [], ◌∷◌, ◌++◌, arith,
  length,
}
use dsvn.Bytes.{Bytes, ascii, eqb_iff}
use dsvn.SortedMap
use dsvn.SortedMap.{SortedMap, get-insert, get-retain, get-remove}
use dsvn.SortedMap.Order.{
  IsAbove, IsSorted, AllRows, get-IsAbove, insert-IsSorted, retain-IsSorted, remove-IsSorted,
  insert-AllRows, SortedMap_ext,
}
use dsvn.Object.{
  ObjectId, ObjectKind, TreeEntry, Tree, new_tree, tree_insert, TreeChange, upsert, delete,
}
use dsvn.Sqlite.Table.{
  EntryRow, TreeDb, upsert_row, delete_row, row_to_entry, row_to_change, build_tree_from,
  conn_build_tree, conn_tree_insert, conn_tree_remove, conn_collect_pending, conn_count, Like,
}
use dsvn.Sqlite.Delta.{is_below, apply_change, apply_changes, get-apply_changes}
use dsvn.Sqlite.Pending.{
  IsWhole, rows_at, changes_of, rows_to_changes_lem, changes_at-changes_of, deletes, upserts,
  rows_at-insert_upsert, rows_at-insert_delete,
}

-- The rows of the table as the entries of a tree.
unfoldable pub entries_of : SortedMap EntryRow → SortedMap TreeEntry
entries_of [] = []
entries_of ((path, r) ∷ rows) = (path, row_to_entry path r) ∷ entries_of rows

abbrev pub entry_at : Bytes → Option EntryRow → Option TreeEntry
entry_at k none = none
entry_at k (some r) = some (row_to_entry k r)

pub get-entries_of :
    (k : Bytes) (rows : SortedMap EntryRow)
    → SortedMap.get k (entries_of rows) ≡ entry_at k (SortedMap.get k rows)
unfolding SortedMap.get entries_of
get-entries_of k [] = refl
get-entries_of k ((path, r) ∷ rows) = ground (arith, eqb_iff path k, get-entries_of k rows)

entries_of-IsAbove :
    (k : Bytes) (rows : SortedMap EntryRow) → IsAbove k rows → IsAbove k (entries_of rows)
unfolding entries_of
entries_of-IsAbove k [] a = tt
entries_of-IsAbove k ((path, r) ∷ rows) a = (a.0, entries_of-IsAbove k rows a.1)

pub entries_of-IsSorted : (rows : SortedMap EntryRow) → IsSorted rows → IsSorted (entries_of rows)
unfolding entries_of
entries_of-IsSorted [] s = tt
entries_of-IsSorted ((path, r) ∷ rows) s =
    (entries_of-IsAbove path rows s.0, entries_of-IsSorted rows s.1)

length-entries_of : (rows : SortedMap EntryRow) → length (entries_of rows) ≡ length rows
unfolding entries_of
length-entries_of [] = refl
length-entries_of ((path, r) ∷ rows) = ap suc (length-entries_of rows)

abbrev pub or_else {ℓ} : {A : Type ℓ} → Option A → Option A → Option A
or_else none o = o
or_else (some a) o = some a

get-build_tree_from :
    (k : Bytes) (t : Tree) (rows : SortedMap EntryRow)
    → IsSorted rows
    → SortedMap.get k (build_tree_from t rows).entries
      ≡ or_else (SortedMap.get k (entries_of rows)) (SortedMap.get k t.entries)
unfolding build_tree_from entries_of tree_insert row_to_entry SortedMap.get
get-build_tree_from k t [] s = refl
get-build_tree_from k t ((path, r) ∷ rows) s = ground (
  arith,
  get-build_tree_from k (tree_insert t (row_to_entry path r)) rows s.1,
  get-insert k path (row_to_entry path r) t.entries,
  eqb_iff path k,
  get-IsAbove k (entries_of rows),
  entries_of-IsAbove path rows s.0,
)

build_tree_from-IsSorted :
    (t : Tree) (rows : SortedMap EntryRow)
    → IsSorted t.entries
    → IsSorted (build_tree_from t rows).entries
unfolding build_tree_from tree_insert
build_tree_from-IsSorted t [] s = s
build_tree_from-IsSorted t ((path, r) ∷ rows) s =
    build_tree_from-IsSorted (tree_insert t (row_to_entry path r)) rows
      (insert-IsSorted _ (row_to_entry path r) t.entries s)

-- The tree that `conn_build_tree` builds holds the table's rows.
pub entries-conn_build_tree :
    (c : TreeDb) → IsSorted c.tree_entries → (conn_build_tree c).entries ≡ entries_of c.tree_entries
unfolding conn_build_tree SortedMap.get
entries-conn_build_tree c s =
    SortedMap_ext _ _ (build_tree_from-IsSorted new_tree c.tree_entries tt)
      (entries_of-IsSorted c.tree_entries s)
      λ k. ground (arith, get-build_tree_from k new_tree c.tree_entries s)

-- The entry of the working tree at `k` is the table's row.
pub get-conn_build_tree :
    (k : Bytes) (c : TreeDb)
    → IsSorted c.tree_entries
    → SortedMap.get k (conn_build_tree c).entries ≡ entry_at k (SortedMap.get k c.tree_entries)
get-conn_build_tree k c s =
    ap (SortedMap.get k) (entries-conn_build_tree c s) ∙ get-entries_of k c.tree_entries

-- The pending rows lead from the tree `base` to the table.
pub record IsStaged (base : SortedMap TreeEntry) (c : TreeDb) : Type 0 where
  pub rows_sorted : IsSorted c.tree_entries
  pub pending_sorted : IsSorted c.pending_changes
  pub whole : AllRows IsWhole c.pending_changes
  pub replays :
      (k : Bytes)
      → rows_at k (SortedMap.get k base) c.pending_changes
        ≡ SortedMap.get k (entries_of c.tree_entries)

pub upsert_row-IsWhole :
    (p : Bytes) (oid : ObjectId) (kind : ObjectKind) (mode : ℕ)
    → IsWhole p (upsert_row oid kind mode)
unfolding row_to_change
upsert_row-IsWhole p oid kind mode = refl

pub delete_row-IsWhole : (p : Bytes) → IsWhole p delete_row
unfolding row_to_change
delete_row-IsWhole p = refl

module _ {base : SortedMap TreeEntry} {c : TreeDb} (st : IsStaged base c) (p : Bytes) where
  -- Adding an entry keeps the pending rows a delta to the table, provided that a pending deletion
  -- of the same path, which the row replaces, hid nothing that was committed below the path.
  pub conn_tree_insert-IsStaged :
      (oid : ObjectId) (kind : ObjectKind) (mode : ℕ)
      → (deletes (SortedMap.get p c.pending_changes) ≡ true
          → (k : Bytes) → is_below p k ≡ true
          → SortedMap.get k base ≡ none)
      → IsStaged base (conn_tree_insert c p oid kind mode)
  unfolding conn_tree_insert
  conn_tree_insert-IsStaged oid kind mode fresh = record {
    rows_sorted = insert-IsSorted p _ c.tree_entries st.rows_sorted;
    pending_sorted = insert-IsSorted p _ c.pending_changes st.pending_sorted;
    whole =
        insert-AllRows IsWhole p _ c.pending_changes (upsert_row-IsWhole p oid kind mode) st.whole;
    replays = λ k.
        rw
          (rows_at-insert_upsert k p oid kind mode (SortedMap.get k base) c.pending_changes
            st.pending_sorted (λ d b. fresh d k b))
          (rw get-entries_of (
            rw get-insert
              (ground (arith, eqb_iff p k, st.replays k, get-entries_of k c.tree_entries))));
  }

  -- Removing a path keeps the pending rows a delta to the table, provided that SQLite's LIKE picks
  -- among the rows those below the path, and that no change below the path waits as an upsert.
  pub conn_tree_remove-IsStaged :
      (like : Like)
      → ((k : Bytes)
          → SortedMap.get k c.tree_entries ≢ none
          → like (p ++ ascii "/%") k ≡ is_below p k)
      → ((k : Bytes) → is_below p k ≡ true → upserts (SortedMap.get k c.pending_changes) ≡ false)
      → IsStaged base (conn_tree_remove like c p)
  unfolding conn_tree_remove
  conn_tree_remove-IsStaged like exact quiet = record {
    rows_sorted = retain-IsSorted _ _ (remove-IsSorted p c.tree_entries st.rows_sorted);
    pending_sorted = insert-IsSorted p _ c.pending_changes st.pending_sorted;
    whole = insert-AllRows IsWhole p _ c.pending_changes (delete_row-IsWhole p) st.whole;
    replays = λ k.
        rw
          (rows_at-insert_delete k p (SortedMap.get k base) c.pending_changes st.pending_sorted
            (quiet k))
          (rw get-entries_of (
            rw (get-retain, get-remove)
              (ground (arith, st.replays k, exact k, get-entries_of k c.tree_entries))));
  }

pub apply_changes-IsSorted :
    (t : SortedMap TreeEntry) (changes : List TreeChange)
    → IsSorted t
    → IsSorted (apply_changes t changes)
unfolding apply_changes apply_change
apply_changes-IsSorted t [] s = s
apply_changes-IsSorted t (upsert p e ∷ changes) s =
    apply_changes-IsSorted (apply_change t (upsert p e)) changes (insert-IsSorted p e t s)
apply_changes-IsSorted t (delete p ∷ changes) s =
    apply_changes-IsSorted (apply_change t (delete p)) changes
      (retain-IsSorted _ _ (remove-IsSorted p t s))

module _ {base : SortedMap TreeEntry} {c : TreeDb} (st : IsStaged base c) where
  pub collect_total :
      conn_collect_pending c
      ≡ some (changes_of c.pending_changes, conn_count c, record c { pending_changes = [] })
  unfolding conn_collect_pending
  collect_total = rw (rows_to_changes_lem c.pending_changes st.whole)

  pub collected_replays :
      IsSorted base
      → apply_changes base (changes_of c.pending_changes) ≡ (conn_build_tree c).entries
  collected_replays s =
      SortedMap_ext _ _ (apply_changes-IsSorted base (changes_of c.pending_changes) s)
        (entries_of-IsSorted c.tree_entries st.rows_sorted)
        (λ k.
          get-apply_changes k base (changes_of c.pending_changes)
          ∙ changes_at-changes_of k (SortedMap.get k base) c.pending_changes
          ∙ st.replays k)
      ∙ sym (entries-conn_build_tree c st.rows_sorted)

  pub conn_build_tree-IsSorted : IsSorted (conn_build_tree c).entries
  conn_build_tree-IsSorted =
      rw (entries-conn_build_tree c st.rows_sorted)
        (entries_of-IsSorted c.tree_entries st.rows_sorted)

  pub collected-IsStaged : IsStaged (conn_build_tree c).entries (record c { pending_changes = [] })
  unfolding rows_at
  collected-IsStaged = record {
    rows_sorted = st.rows_sorted;
    pending_sorted = tt;
    whole = tt;
    replays = λ k. ap (SortedMap.get k) (entries-conn_build_tree c st.rows_sorted);
  }

  -- Collecting the pending changes succeeds. The changes, replayed on the last committed tree, give
  -- the tree of the table; the count is the number of its entries; and what is left is a clean
  -- table over that tree.
  pub conn_collect_pending_lem :
      IsSorted base
      → (changes : List TreeChange) × (total : ℕ) × (c' : TreeDb) × (conn_collect_pending c
          ≡ some (changes, total, c'))
        × (apply_changes base changes ≡ (conn_build_tree c).entries)
        × (total ≡ length (conn_build_tree c).entries)
        × (conn_build_tree c' ≡ conn_build_tree c)
        × IsStaged (conn_build_tree c).entries c'
  unfolding conn_count conn_build_tree
  conn_collect_pending_lem s = (
    changes_of c.pending_changes,
    conn_count c,
    record c { pending_changes = [] },
    collect_total,
    collected_replays s,
    sym (length-entries_of c.tree_entries)
        ∙ ap length (sym (entries-conn_build_tree c st.rows_sorted)),
    refl,
    collected-IsStaged,
  )
