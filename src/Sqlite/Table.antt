-- ===== src/Sqlite/Table.antt =====
-- The tables `tree_entries` and `pending_changes`, and the `conn_*` functions over them
-- (dsvn-core/src/sqlite_repository.rs). Failures of SQLite itself are not modelled.
use dsvn.Prelude.{
  ℕ, zero, suc, ◌%◌, ◌^◌, Bool, not, Option, none, some, List, [], ◌∷◌, ◌++◌, if◌then◌else◌, length,
  ◌==◌, ◌>>=◌,
}
use dsvn.Bytes.{Bytes, ascii}
use dsvn.SortedMap
use dsvn.SortedMap.{SortedMap}
use dsvn.Object.{
  ObjectId, ObjectKind, blob, tree, commit, TreeEntry, Tree, new_tree, tree_insert, TreeChange,
  upsert, delete,
}

unfoldable pub kind_to_i64 : ObjectKind → ℕ
kind_to_i64 blob = 0
kind_to_i64 tree = 1
kind_to_i64 commit = 0

unfoldable pub i64_to_kind : ℕ → ObjectKind
i64_to_kind i = if i == 0 then blob else tree

zero_bytes : ℕ → Bytes
zero_bytes zero = []
zero_bytes (suc n) = 0 ∷ zero_bytes n

unfoldable pub bytes_to_oid : Bytes → ObjectId
unfolding zero_bytes
bytes_to_oid b = if length b == 32 then b else zero_bytes 32

-- A row of `tree_entries`, by its path.
pub record EntryRow : Type 0 where
  pub object_id : Bytes
  pub kind : ℕ
  pub mode : ℕ

-- A row of `pending_changes`, by its path; the last three columns may be NULL.
pub record PendingRow : Type 0 where
  pub change_type : ℕ
  pub object_id : Option Bytes
  pub kind : Option ℕ
  pub mode : Option ℕ

pub record TreeDb : Type 0 where
  pub tree_entries : SortedMap EntryRow
  pub pending_changes : SortedMap PendingRow

abbrev entry_row : ObjectId → ObjectKind → ℕ → EntryRow
entry_row oid kind mode = record { object_id = oid; kind = kind_to_i64 kind; mode = mode }

abbrev pub upsert_row : ObjectId → ObjectKind → ℕ → PendingRow
upsert_row oid kind mode = record {
  change_type = 0;
  object_id = some oid;
  kind = some (kind_to_i64 kind);
  mode = some mode;
}

abbrev pub delete_row : PendingRow
delete_row = record { change_type = 1; object_id = none; kind = none; mode = none }

unfoldable pub conn_tree_insert : TreeDb → Bytes → ObjectId → ObjectKind → ℕ → TreeDb
conn_tree_insert c path oid kind mode = record {
  tree_entries = SortedMap.insert path (entry_row oid kind mode) c.tree_entries;
  pending_changes = SortedMap.insert path (upsert_row oid kind mode) c.pending_changes;
}

-- `like pattern text` is SQLite's operator `text LIKE pattern`.
abbrev pub Like : Type 0
Like = Bytes → Bytes → Bool

unfoldable pub conn_tree_remove : Like → TreeDb → Bytes → TreeDb
conn_tree_remove like c path = record {
  tree_entries =
      SortedMap.retain (λ k. not (like (path ++ ascii "/%") k))
        (SortedMap.remove path c.tree_entries);
  pending_changes = SortedMap.insert path delete_row c.pending_changes;
}

unfoldable pub row_to_entry : Bytes → EntryRow → TreeEntry
row_to_entry path r = record {
  name = path;
  id = bytes_to_oid r.object_id;
  kind = i64_to_kind r.kind;
  mode = r.mode % 2 ^ 32;
}

unfoldable pub build_tree_from : Tree → SortedMap EntryRow → Tree
build_tree_from t [] = t
build_tree_from t ((path, r) ∷ rows) = build_tree_from (tree_insert t (row_to_entry path r)) rows

unfoldable pub conn_build_tree : TreeDb → Tree
conn_build_tree c = build_tree_from new_tree c.tree_entries

-- A column that is read as a value and holds NULL is an error.
unfoldable pub row_to_change : Bytes → PendingRow → Option TreeChange
row_to_change path r = if r.change_type == 1 then some (delete path) else do
  oid ← r.object_id
  kind ← r.kind
  mode ← r.mode
  some (upsert path (row_to_entry path (record { object_id = oid; kind = kind; mode = mode })))

unfoldable pub rows_to_changes : SortedMap PendingRow → Option (List TreeChange)
rows_to_changes [] = some []
rows_to_changes ((path, r) ∷ rows) = do
  change ← row_to_change path r
  changes ← rows_to_changes rows
  some (change ∷ changes)

unfoldable pub conn_count : TreeDb → ℕ
conn_count c = length c.tree_entries

-- The changes in the order of their paths, the number of entries, and the table emptied.
unfoldable pub conn_collect_pending : TreeDb → Option (List TreeChange × ℕ × TreeDb)
conn_collect_pending c = do
  changes ← rows_to_changes c.pending_changes
  some (changes, conn_count c, record c { pending_changes = [] })

unfoldable pub populate_rows : SortedMap EntryRow → SortedMap TreeEntry → SortedMap EntryRow
populate_rows rows [] = rows
populate_rows rows ((_, e) ∷ es) =
    populate_rows (SortedMap.insert e.name (entry_row e.id e.kind e.mode) rows) es

-- `conn_populate`; two entries of one name, which the `INSERT` would refuse, cannot be in a tree.
unfoldable pub conn_populate : TreeDb → Tree → TreeDb
conn_populate c t = record c { tree_entries = populate_rows [] t.entries }
