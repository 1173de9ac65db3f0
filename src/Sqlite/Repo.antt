-- ===== src/Sqlite/Repo.antt =====
-- `SqliteRepository`: its state, and the operations that stage changes and commit them. The locks
-- make each operation atomic, so that an operation is a function of the state.
use dsvn.Prelude.{
  ℕ, ◌+◌, ◌-◌, ◌%◌, ℤ, pos, Bool, true, false, ◌||◌, Option, none, some, List, [], ◌∷◌,
  if◌then◌else◌, ltb, ◌==◌,
}
use dsvn.Bytes.{Bytes, ascii, trim_slashes}
use dsvn.Decimal.{decimal, decimal_signed}
use dsvn.Hooks.{Scripts, accepted, rejected, run_pre_commit, run_post_commit}
use dsvn.Object.{
  ObjectId, blob, tree, Commit, DeltaTree, TreeChange, upsert, delete, Externals, blob_id, tree_id,
  commit_id, delta_id, new_blob, new_tree,
}
use dsvn.Sqlite.Table.{
  TreeDb, Like, conn_tree_insert, conn_tree_remove, conn_build_tree, conn_collect_pending,
}
use dsvn.Sqlite.Files.{
  Files, Result, ok, err, null_column, hook_rejected, exists, store_object, load_commit,
  store_commit, store_tree_snapshot, store_delta_tree,
}
use dsvn.Sqlite.Cache.{LruCache}
use dsvn.Sqlite.Reconstruct.{TreeMap, get_tree_at_rev}

pub record Repository (C : Type 0) : Type 0 where
  pub db : TreeDb
  pub files : Files
  -- `refs/head`
  pub head : Option Bytes
  pub current_rev : ℕ
  pub batch_mode : Bool
  pub tree_cache : C

-- What the repository is built on: `bincode` and SHA-256, the cache, SQLite's LIKE, the hook
-- scripts, and the RFC 3339 text of a timestamp that `chrono` can represent.
pub record Setting : Type 1 where
  pub externals : Externals
  pub lru : LruCache TreeMap
  pub like : Like
  pub scripts : Scripts
  pub rfc3339 : ℤ → Option Bytes

abbrev pub snapshot_interval : ℕ
snapshot_interval = 1000

unfoldable pub hook_files : List TreeChange → List (Bytes × Bytes)
hook_files [] = []
hook_files (upsert path e ∷ changes) = (ascii "A", path) ∷ hook_files changes
hook_files (delete path ∷ changes) = (ascii "D", path) ∷ hook_files changes

date_text : Option Bytes → ℤ → Bytes
date_text (some text) timestamp = text
date_text none timestamp = decimal_signed timestamp

unfoldable pub file_mode : Bool → ℕ
file_mode executable = if executable then 0o755 else 0o644

module _ (s : Setting) where
  abbrev pub Repo : Type 0
  Repo = Repository s.lru.State

  -- The text of a commit's date for the hooks.
  unfoldable pub commit_date : ℤ → Bytes
  unfolding date_text
  commit_date timestamp = date_text (s.rfc3339 timestamp) timestamp

  unfoldable pub add_file : Repo → (path content : Bytes) → Bool → ObjectId × Repo
  unfolding file_mode
  add_file r path content executable =
      let b = new_blob content executable in
      let bid = blob_id s.externals b in
      (
        bid,
        record r {
          files = store_object r.files bid (s.externals.blobs.serialize b);
          db = conn_tree_insert r.db (trim_slashes path) bid blob (file_mode executable);
        },
      )

  unfoldable pub mkdir : Repo → Bytes → ObjectId × Repo
  mkdir r path =
      let tid = tree_id s.externals new_tree in
      (
        tid,
        record r {
          files = store_object r.files tid (s.externals.trees.serialize new_tree);
          db = conn_tree_insert r.db (trim_slashes path) tid tree 0o755;
        },
      )

  unfoldable pub delete_file : Repo → Bytes → Repo
  delete_file r path = record r { db = conn_tree_remove s.like r.db (trim_slashes path) }

  -- The flag of the batch mode. BEGIN and COMMIT on the connection, whose failure the source
  -- ignores, change no row and are left out.
  unfoldable pub begin_batch : Repo → Repo
  begin_batch r = record r { batch_mode = true }

  unfoldable pub end_batch : Repo → Repo
  end_batch r = record r { batch_mode = false }

  -- The id of the commit at `rev`, if there is one to read.
  unfoldable pub parents_at : Files → ℕ → List ObjectId
  parents_at f rev =
      if ltb 0 rev || exists (f.commits rev)
      then elim (load_commit s.externals f rev) [ err e ↦ [] | ok c ↦ commit_id s.externals c ∷ [] ]
      else []

  -- The writes of a commit after its tree is stored: the commit, its object and the delta tree.
  unfoldable pub store_revision : Files → ℕ → Commit → DeltaTree → Files
  store_revision f rev c d =
      store_delta_tree s.externals
        (store_commit s.externals
          (store_object f (commit_id s.externals c) (s.externals.commits.serialize c)) rev c)
        rev d

  unfoldable pub new_commit : Files → ℕ → ObjectId → (author message : Bytes) → ℤ → Commit
  new_commit f current tid author message timestamp = record {
    tree_id = tid;
    parents = parents_at f current;
    author = author;
    message = message;
    timestamp = timestamp;
    tz_offset = pos 0;
  }

  -- `commit` past its hook: the full tree is stored as an object, and each thousandth revision also
  -- as a snapshot.
  unfoldable pub write_commit : Repo → TreeDb → DeltaTree → (author message : Bytes) → ℤ → Repo
  write_commit r db delta author message timestamp =
      let rev = r.current_rev + 1 in
      let root_tree = conn_build_tree db in
      let tid = tree_id s.externals root_tree in
      let stored = store_object r.files tid (s.externals.trees.serialize root_tree) in
      let c = new_commit stored r.current_rev tid author message timestamp in
      let written = store_revision stored rev c delta in
      record r {
        db = db;
        files =
            if rev % snapshot_interval == 0
            then store_tree_snapshot s.externals written rev root_tree
            else written;
        head = some (decimal rev);
        current_rev = rev;
      }

  -- `commit_sync` past its hook: the full tree is built only for a snapshot, and otherwise the id of
  -- the delta stands in for the tree's.
  unfoldable pub write_commit_sync : Repo → TreeDb → DeltaTree → (author message : Bytes) → ℤ → Repo
  write_commit_sync r db delta author message timestamp =
      let rev = r.current_rev + 1 in
      let need_snapshot = rev % snapshot_interval == 0 in
      let root_tree = conn_build_tree db in
      let tid =
        if need_snapshot then tree_id s.externals root_tree else delta_id s.externals delta in
      let stored =
        if need_snapshot
        then store_tree_snapshot s.externals
            (store_object r.files tid (s.externals.trees.serialize root_tree)) rev root_tree
        else r.files in
      let c = new_commit stored r.current_rev tid author message timestamp in
      record r {
        db = db;
        files = store_revision stored rev c delta;
        head = some (decimal rev);
        current_rev = rev;
      }

  -- What both kinds of commit do before they write. The pending changes are collected, and their
  -- table emptied, before the hook may reject them.
  unfoldable pub commit_with :
      (Repo → TreeDb → DeltaTree → (author message : Bytes) → ℤ → Repo)
      → Repo
      → (author message : Bytes) → ℤ
      → Result ℕ × Repo
  commit_with write r author message timestamp =
      let rev = r.current_rev + 1 in
      let parent_rev = if ltb 1 rev then rev - 1 else 0 in
      elim (conn_collect_pending r.db) [
        | none ↦ (err null_column, r)
        | some (changes, total, db) ↦
            elim (run_pre_commit s.scripts rev author message (commit_date timestamp)
              (hook_files changes)) [
                | rejected message ↦ (err (hook_rejected message), record r { db = db })
                | accepted ↦
                    let delta : DeltaTree = record {
                      parent_rev = parent_rev;
                      changes = changes;
                      total_entries = total;
                    } in
                    let r' = write r db delta author message timestamp in
                    elim (run_post_commit s.scripts rev author message (commit_date timestamp)) [
                      | rejected message ↦ (err (hook_rejected message), r')
                      | accepted ↦ (ok rev, r')
                    ]
              ]
      ]

  unfoldable pub commit : Repo → (author message : Bytes) → ℤ → Result ℕ × Repo
  unfolding commit_with
  commit = commit_with write_commit

  unfoldable pub commit_sync : Repo → (author message : Bytes) → ℤ → Result ℕ × Repo
  unfolding commit_with
  commit_sync = commit_with write_commit_sync

  -- `get_tree_at_rev` as a method: on the files of the repository and with its cache.
  unfoldable pub tree_at : Repo → ℕ → Result TreeMap × Repo
  tree_at r rev =
      let (t, c) = get_tree_at_rev s.externals s.lru r.files rev r.tree_cache in
      (t, record r { tree_cache = c })
