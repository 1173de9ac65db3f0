-- ===== src/Sqlite/Operations.antt =====
-- The staging operations (`add_file`, `mkdir` and `delete_file` of
-- dsvn-core/src/sqlite_repository.rs) against the invariant, and the conditions for it.
use dsvn.Prelude.{ℕ, ◌≡◌, ◌≢◌, Bool, true, false, none, ◌++◌, Bool-cases, inl, inr}
use dsvn.Bytes.{Bytes, ascii, trim_slashes}
use dsvn.SortedMap
use dsvn.Object.{ObjectId, Externals}
use dsvn.Sqlite.Delta.{is_below}
use dsvn.Sqlite.Pending.{deletes, upserts}
use dsvn.Sqlite.Staging.{conn_tree_insert-IsStaged, conn_tree_remove-IsStaged}
use dsvn.Sqlite.Files.{Files, exists, store_object, load_tree_snapshot, load_delta_tree}
use dsvn.Sqlite.Reconstruct.{TreeMap}
use dsvn.Sqlite.History.{IsHistory}
use dsvn.Sqlite.Commit.{IsRepo}
use dsvn.Sqlite.Repo.{Setting, Repo, add_file, mkdir, delete_file}

-- Objects are no part of the history.
pub store_object-IsHistory :
    {x : Externals} {f : Files} {n : ℕ} {hist : ℕ → TreeMap} (id : ObjectId) (b : Bytes)
    → IsHistory x f n hist
    → IsHistory x (store_object f id b) n hist
unfolding store_object load_tree_snapshot load_delta_tree
store_object-IsHistory {f = f} id b hs = elim (Bool-cases (exists (f.objects id))) [
  | inl there ↦ rw there hs
  | inr fresh ↦ rw fresh (record {
    at_zero = hs.at_zero;
    sorted = hs.sorted;
    deltas = hs.deltas;
    snapshots = hs.snapshots;
  })
]

-- No pending deletion of the path hides a committed entry below it.
abbrev pub IsFresh : (s : Setting) → Repo s → (ℕ → TreeMap) → Bytes → Type 0
IsFresh s r hist path =
    deletes (SortedMap.get path r.db.pending_changes) ≡ true
    → (k : Bytes) → is_below path k ≡ true
    → SortedMap.get k (hist r.current_rev) ≡ none

-- SQLite's LIKE selects among the rows those below the path.
abbrev pub IsExact : (s : Setting) → Repo s → Bytes → Type 0
IsExact s r path =
    (k : Bytes)
    → SortedMap.get k r.db.tree_entries ≢ none
    → s.like (path ++ ascii "/%") k ≡ is_below path k

-- Nothing below the path was added since the last commit.
abbrev pub IsQuiet : (s : Setting) → Repo s → Bytes → Type 0
IsQuiet s r path =
    (k : Bytes) → is_below path k ≡ true → upserts (SortedMap.get k r.db.pending_changes) ≡ false

module _ {s : Setting} {r : Repo s} {hist : ℕ → TreeMap} (v : IsRepo s r hist) (path : Bytes) where
  -- `add_file` keeps the invariant of a repository if no pending deletion of the path hides a
  -- committed entry below it.
  pub add_file-IsRepo :
      (content : Bytes) (executable : Bool)
      → IsFresh s r hist (trim_slashes path)
      → IsRepo s (add_file s r path content executable).1 hist
  unfolding add_file
  add_file-IsRepo content executable fresh = record {
    history = store_object-IsHistory _ _ v.history;
    coherent = v.coherent;
    staged = conn_tree_insert-IsStaged v.staged (trim_slashes path) _ _ _ fresh;
    head_text = v.head_text;
  }

  -- `mkdir` keeps the invariant of a repository if no pending deletion of the path hides a
  -- committed entry below it.
  pub mkdir-IsRepo : IsFresh s r hist (trim_slashes path) → IsRepo s (mkdir s r path).1 hist
  unfolding mkdir
  mkdir-IsRepo fresh = record {
    history = store_object-IsHistory _ _ v.history;
    coherent = v.coherent;
    staged = conn_tree_insert-IsStaged v.staged (trim_slashes path) _ _ _ fresh;
    head_text = v.head_text;
  }

  -- `delete_file` keeps the invariant of a repository if LIKE selects among the rows just those
  -- below the path, and nothing below the path was added since the last commit.
  pub delete_file-IsRepo :
      IsExact s r (trim_slashes path)
      → IsQuiet s r (trim_slashes path)
      → IsRepo s (delete_file s r path) hist
  unfolding delete_file
  delete_file-IsRepo exact quiet = record {
    history = v.history;
    coherent = v.coherent;
    staged = conn_tree_remove-IsStaged v.staged (trim_slashes path) s.like exact quiet;
    head_text = v.head_text;
  }
