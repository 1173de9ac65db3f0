-- ===== src/Sqlite/Divergence.antt =====
-- Sequences of staging operations and commits that part the table from the pending changes
-- (dsvn-core/src/sqlite_repository.rs).
use dsvn.Prelude.{
  ℕ, ◌+◌, ◌%◌, ℤ, ◌≡◌, refl, sym, ap, ◌∙◌, subst, Bool, true, false, Option, none, some, [], ◌++◌,
  arith, ◌==◌,
}
use dsvn.Bytes.{Bytes, ascii, eqb, eqb_iff, cmp_irrefl, trim_slashes}
use dsvn.SortedMap
use dsvn.SortedMap.{SortedMap, get-insert, get-retain, get-remove}
use dsvn.SortedMap.Order.{
  IsSorted, AllRows, insert-AllRows, insert-IsSorted, retain-IsSorted, remove-IsSorted,
}
use dsvn.Hooks.{accepted, rejected}
use dsvn.Object.{ObjectId, ObjectKind, blob, TreeEntry, blob_id, new_blob}
use dsvn.Sqlite.Table.{
  PendingRow, TreeDb, Like, upsert_row, delete_row, conn_build_tree, conn_tree_insert,
  conn_tree_remove,
}
use dsvn.Sqlite.Delta.{is_below, change_at, apply_changes, get-apply_changes}
use dsvn.Sqlite.Pending.{IsWhole, rows_at, changes_of, changes_at-changes_of, staged, is_below-lt}
use dsvn.Sqlite.Staging.{entry_at, get-conn_build_tree, upsert_row-IsWhole, delete_row-IsWhole}
use dsvn.Sqlite.Files.{Files, ok}
use dsvn.Sqlite.History.{IsHistory}
use dsvn.Sqlite.Reconstruct.{TreeMap}
use dsvn.Sqlite.Operations.{store_object-IsHistory}
use dsvn.Sqlite.Commit.{IsSound, IsRepo, Says}
use dsvn.Sqlite.Kept.{IsKept, tree_at-commit_kept}
use dsvn.Sqlite.Revisions.{commit_rejected}
use dsvn.Sqlite.Repo.{Setting, Repo, commit, file_mode, add_file, delete_file, tree_at}

-- The entry at `k` of the tree that the next revision will hold.
entry_of_next :
    {s : Setting} (sound : IsSound s) {r : Repo s} {hist : ℕ → TreeMap} (v : IsKept s r hist)
    (author message : Bytes) (timestamp : ℤ) (k : Bytes)
    → (r.current_rev + 1) % 1000 == 0 ≡ false
    → Says s r author message timestamp accepted
    → (tm : TreeMap) × ((tree_at s (commit s r author message timestamp).1 (r.current_rev + 1)).0
        ≡ ok tm)
      × (SortedMap.get k tm ≡ rows_at k (SortedMap.get k (hist r.current_rev)) r.db.pending_changes)
entry_of_next {s} sound {r} {hist} v author message timestamp k plain accepts = (
  apply_changes (hist r.current_rev) (changes_of r.db.pending_changes),
  tree_at-commit_kept sound v author message timestamp plain accepts,
  get-apply_changes k (hist r.current_rev) (changes_of r.db.pending_changes)
      ∙ changes_at-changes_of k (SortedMap.get k (hist r.current_rev)) r.db.pending_changes,
)

-- In a repository that satisfies the invariant, with no snapshot due, after a rejected commit the
-- table keeps the changes that were rejected, and the next commit, if it is accepted, makes a
-- revision with the tree of the one before: none of them is in it.
pub tree_at-commit_rejected :
    {s : Setting} (sound : IsSound s) {r : Repo s} {hist : ℕ → TreeMap} (v : IsRepo s r hist)
    (author message : Bytes) (timestamp : ℤ) (reason author' message' : Bytes) (timestamp' : ℤ)
    → (r.current_rev + 1) % 1000 == 0 ≡ false
    → Says s r author message timestamp (rejected reason)
    → Says s (commit s r author message timestamp).1 author' message' timestamp' accepted
    → (conn_build_tree (commit s r author message timestamp).1.db ≡ conn_build_tree r.db)
      × ((tree_at s
            (commit s (commit s r author message timestamp).1 author' message' timestamp').1
            (r.current_rev + 1)).0
          ≡ ok (hist r.current_rev))
unfolding conn_build_tree apply_changes changes_of
tree_at-commit_rejected {s} sound {r} {hist} v author message timestamp reason author' message'
      timestamp' plain rejects accepts =
    subst After
      (sym (ap (λ p. p.1) (commit_rejected sound v author message timestamp reason rejects).0))
      (λ says. (refl, tree_at-commit_kept sound kept author' message' timestamp' plain says))
      accepts
  where
    r0 : Repo s
    r0 = record r { db = record r.db { pending_changes = [] } }

    kept : IsKept s r0 hist
    kept = record { history = v.history; coherent = v.coherent; whole = tt }

    After : Repo s → Type 0
    After r' =
        Says s r' author' message' timestamp' accepted
        → (conn_build_tree r'.db ≡ conn_build_tree r.db)
          × ((tree_at s (commit s r' author' message' timestamp').1 (r.current_rev + 1)).0
              ≡ ok (hist r.current_rev))

-- What LIKE selects is gone from the table.
row_gone :
    (like : Like) (c : TreeDb) (p k : Bytes)
    → like (p ++ ascii "/%") k ≡ true
    → SortedMap.get k (conn_tree_remove like c p).tree_entries ≡ none
unfolding conn_tree_remove
row_gone like c p k h = rw get-retain (rw h)

tree_remove-IsSorted :
    (like : Like) (c : TreeDb) (p : Bytes)
    → IsSorted c.tree_entries
    → IsSorted (conn_tree_remove like c p).tree_entries
unfolding conn_tree_remove
tree_remove-IsSorted like c p s = retain-IsSorted _ _ (remove-IsSorted p c.tree_entries s)

removal-IsWhole :
    (like : Like) (c : TreeDb) (p : Bytes)
    → AllRows IsWhole c.pending_changes
    → AllRows IsWhole (conn_tree_remove like c p).pending_changes
unfolding conn_tree_remove
removal-IsWhole like c p w = insert-AllRows IsWhole p _ c.pending_changes (delete_row-IsWhole p) w

not_self : (p k : Bytes) → is_below p k ≡ true → eqb p k ≡ false
not_self p k b = ground (arith, eqb_iff p k, is_below-lt p k b, cmp_irrefl p)

replaced_deletion :
    (k p : Bytes) (oid : ObjectId) (kind : ObjectKind) (mode : ℕ) (now : Option TreeEntry)
    (rows : SortedMap PendingRow)
    → rows ≡ []
    → is_below p k ≡ true
    → rows_at k now
        (SortedMap.insert p (upsert_row oid kind mode) (SortedMap.insert p delete_row rows))
      ≡ now
unfolding rows_at change_at SortedMap.insert
replaced_deletion k p oid kind mode now rows clean b =
    subst
      (λ rows.
        rows_at k now
          (SortedMap.insert p (upsert_row oid kind mode) (SortedMap.insert p delete_row rows))
        ≡ now)
      (sym clean) (ground (arith, cmp_irrefl p, is_below-lt p k b, eqb_iff p k))

shadowed_upsert :
    (k p : Bytes) (oid : ObjectId) (kind : ObjectKind) (mode : ℕ) (now : Option TreeEntry)
    (rows : SortedMap PendingRow)
    → rows ≡ []
    → is_below p k ≡ true
    → rows_at k now
        (SortedMap.insert p delete_row (SortedMap.insert k (upsert_row oid kind mode) rows))
      ≡ some (staged k oid kind mode)
unfolding rows_at change_at SortedMap.insert
shadowed_upsert k p oid kind mode now rows clean b =
    subst
      (λ rows.
        rows_at k now
          (SortedMap.insert p delete_row (SortedMap.insert k (upsert_row oid kind mode) rows))
        ≡ some (staged k oid kind mode))
      (sym clean) (ground (arith, is_below-lt p k b, eqb_iff k k))

unrelated_deletion :
    (k p : Bytes) (now : Option TreeEntry) (rows : SortedMap PendingRow)
    → rows ≡ []
    → is_below p k ≡ false
    → eqb p k ≡ false
    → rows_at k now (SortedMap.insert p delete_row rows) ≡ now
unfolding rows_at change_at SortedMap.insert
unrelated_deletion k p now rows clean b ne =
    subst (λ rows. rows_at k now (SortedMap.insert p delete_row rows) ≡ now) (sym clean)
      (ground arith)

-- A path deleted and added again as a file.
abbrev pub readded : (s : Setting) → Repo s → (path content : Bytes) → Bool → Repo s
readded s r path content executable = (add_file s (delete_file s r path) path content executable).1

-- A file added, and a path above it deleted.
abbrev pub orphaned : (s : Setting) → Repo s → (path file content : Bytes) → Bool → Repo s
orphaned s r path file content executable =
    delete_file s (add_file s r file content executable).1 path

module _ {s : Setting} (sound : IsSound s) {r : Repo s} {hist : ℕ → TreeMap} (v : IsRepo s r hist)
    (clean : r.db.pending_changes ≡ []) (plain : (r.current_rev + 1) % 1000 == 0 ≡ false)
    (author message : Bytes) (timestamp : ℤ) where
  -- The tree of the revision that `r'` commits next, and the tree of its table, at the path `k`.
  abbrev pub Differ : Repo s → Bytes → Option TreeEntry → Option TreeEntry → Type 0
  Differ r' k next working =
      (tm : TreeMap) × ((tree_at s (commit s r' author message timestamp).1 (r.current_rev + 1)).0
        ≡ ok tm)
      × (SortedMap.get k tm ≡ next)
      × (SortedMap.get k (conn_build_tree r'.db).entries ≡ working)

  differs :
      (f : Files) (db : TreeDb) (k : Bytes) (next : Option TreeEntry)
      → IsHistory s.externals f r.current_rev hist
      → AllRows IsWhole db.pending_changes
      → IsSorted db.tree_entries
      → rows_at k (SortedMap.get k (hist r.current_rev)) db.pending_changes ≡ next
      → SortedMap.get k db.tree_entries ≡ none
      → Says s (record r { db = db; files = f }) author message timestamp accepted
      → Differ (record r { db = db; files = f }) k next none
  differs f db k next hs whole sorted pend gone accepts =
      let kept : IsKept s (record r { db = db; files = f }) hist = record {
        history = hs;
        coherent = v.coherent;
        whole = whole;
      } in
      let (tm, at, entry) = entry_of_next sound kept author message timestamp k plain accepts in
      (tm, at, entry ∙ pend, get-conn_build_tree k db sorted ∙ ap (entry_at k) gone)

  -- In a repository that satisfies the invariant, with nothing pending and no snapshot due, if a
  -- directory is deleted and a file of its name added before one accepted commit, a committed
  -- entry below it that LIKE selects is gone from the table and stays in the new revision.
  pub commit-readded_path :
      (path content : Bytes) (executable : Bool) (k : Bytes) (e : TreeEntry)
      → is_below (trim_slashes path) k ≡ true
      → s.like (trim_slashes path ++ ascii "/%") k ≡ true
      → SortedMap.get k (hist r.current_rev) ≡ some e
      → Says s (readded s r path content executable) author message timestamp accepted
      → Differ (readded s r path content executable) k (some e) none
  unfolding add_file delete_file conn_tree_insert
  commit-readded_path path content executable k e b h there accepts =
      let p = trim_slashes path in
      let c : TreeDb = conn_tree_remove s.like r.db p in
      differs _ _ k (some e) (store_object-IsHistory _ _ v.history)
        (insert-AllRows IsWhole p _ _ (upsert_row-IsWhole p _ blob _)
          (removal-IsWhole s.like r.db p v.staged.whole))
        (insert-IsSorted p _ c.tree_entries
          (tree_remove-IsSorted s.like r.db p v.staged.rows_sorted))
        (unfold conn_tree_remove in
          (replaced_deletion k p _ blob _ _ r.db.pending_changes clean b ∙ there))
        (get-insert k p _ c.tree_entries ∙ rw (not_self p k b) (row_gone s.like r.db p k h)) accepts

  -- In a repository that satisfies the invariant, with nothing pending and no snapshot due, if a
  -- file is added below a path and the path deleted before one accepted commit, the file, if LIKE
  -- selects it, is gone from the table and the new revision has it.
  pub commit-deleted_parent :
      (path file content : Bytes) (executable : Bool)
      → is_below (trim_slashes path) (trim_slashes file) ≡ true
      → s.like (trim_slashes path ++ ascii "/%") (trim_slashes file) ≡ true
      → Says s (orphaned s r path file content executable) author message timestamp accepted
      → Differ
          (orphaned s r path file content executable)
          (trim_slashes file)
          (some (
            staged
              (trim_slashes file)
              (add_file s r file content executable).0
              blob
              (file_mode executable)))
          none
  unfolding add_file delete_file conn_tree_insert
  commit-deleted_parent path file content executable b h accepts =
      let p = trim_slashes path in
      let k = trim_slashes file in
      let c : TreeDb =
        conn_tree_insert r.db k (blob_id s.externals (new_blob content executable)) blob
          (file_mode executable) in
      differs _ _ k _ (store_object-IsHistory _ _ v.history)
        (removal-IsWhole s.like c p
          (insert-AllRows IsWhole k _ _ (upsert_row-IsWhole k _ blob _) v.staged.whole))
        (tree_remove-IsSorted s.like c p
          (insert-IsSorted k _ r.db.tree_entries v.staged.rows_sorted))
        (unfold conn_tree_remove in (shadowed_upsert k p _ blob _ _ r.db.pending_changes clean b))
        (row_gone s.like c p k h) accepts

  -- In a repository that satisfies the invariant, with nothing pending and no snapshot due, if
  -- LIKE selects a committed entry that is neither the deleted path nor below it, the entry is
  -- gone from the table after the deletion and stays in the revision of the next accepted commit.
  pub commit-like_mismatch :
      (path k : Bytes) (e : TreeEntry)
      → is_below (trim_slashes path) k ≡ false
      → eqb (trim_slashes path) k ≡ false
      → s.like (trim_slashes path ++ ascii "/%") k ≡ true
      → SortedMap.get k (hist r.current_rev) ≡ some e
      → Says s (delete_file s r path) author message timestamp accepted
      → Differ (delete_file s r path) k (some e) none
  unfolding delete_file
  commit-like_mismatch path k e b ne h there accepts =
      let p = trim_slashes path in
      differs _ _ k (some e) v.history (removal-IsWhole s.like r.db p v.staged.whole)
        (tree_remove-IsSorted s.like r.db p v.staged.rows_sorted)
        (unfold conn_tree_remove in
          (unrelated_deletion k p _ r.db.pending_changes clean b ne ∙ there))
        (row_gone s.like r.db p k h) accepts
