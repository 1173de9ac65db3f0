-- ===== src/Sqlite/Commit.antt =====
-- A commit of either kind against the history (`commit` and `commit_sync` of
-- dsvn-core/src/sqlite_repository.rs): the invariant of a repository, and what the writes leave.
use dsvn.Prelude.{
  ℕ, ◌+◌, ◌-◌, ◌%◌, ℤ, ◌≡◌, refl, sym, subst, false, some, List, [], arith, if◌then◌else◌, ltb,
  ◌==◌, Bool-cases, inl, inr,
}
use dsvn.Bytes.{Bytes}
use dsvn.Decimal.{decimal}
use dsvn.Hooks.{Verdict, accepted, rejected, run_pre_commit, run_post_commit}
use dsvn.Object.{ObjectId, Commit, DeltaTree, TreeChange, IsLawful}
use dsvn.Sqlite.Table.{TreeDb, conn_build_tree, conn_collect_pending}
use dsvn.Sqlite.Staging.{
  IsStaged, collect_total, conn_collect_pending_lem, conn_build_tree-IsSorted,
}
use dsvn.Sqlite.Delta.{apply_changes}
use dsvn.Sqlite.Files.{
  Files, ok, err, hook_rejected, store_object, store_commit, store_delta_tree, store_tree_snapshot,
  write_at,
}
use dsvn.Sqlite.Cache.{IsCache}
use dsvn.Sqlite.Reconstruct.{TreeMap}
use dsvn.Sqlite.History.{IsHistory, IsCoherent}
use dsvn.Sqlite.Extend.{
  extend, extend_self, Snapshots, unchanged, added, extend-IsHistory, extend-IsCoherent,
}
use dsvn.Sqlite.Repo.{
  Setting, Repo, commit_with, write_commit, write_commit_sync, store_revision, hook_files,
  commit_date,
}

-- The documented behaviour of what the repository is built on.
pub record IsSound (s : Setting) : Type 0 where
  pub lawful : IsLawful s.externals
  pub cache : IsCache s.lru

-- The files hold the history of committed trees, the cache agrees with it, `refs/head` names the
-- last revision, and the pending changes lead from its tree to the working tree.
pub record IsRepo (s : Setting) (r : Repo s) (hist : ℕ → TreeMap) : Type 0 where
  pub history : IsHistory s.externals r.files r.current_rev hist
  pub coherent : IsCoherent s.lru r.current_rev hist r.tree_cache
  pub staged : IsStaged (hist r.current_rev) r.db
  pub head_text : r.head ≡ some (decimal r.current_rev)

-- What the writes of a commit leave in the state.
pub record Writes (s : Setting) (r : Repo s) (db : TreeDb) (d : DeltaTree) (r' : Repo s)
    : Type 0 where
  pub db_lem : r'.db ≡ db
  pub rev_lem : r'.current_rev ≡ r.current_rev + 1
  pub cache_lem : r'.tree_cache ≡ r.tree_cache
  pub head_lem : r'.head ≡ some (decimal (r.current_rev + 1))
  pub deltas_lem :
      r'.files.delta_files
      ≡ write_at (r.current_rev + 1) (s.externals.deltas.serialize d) r.files.delta_files
  pub snapshots_lem :
      Snapshots s.externals r.files r'.files (r.current_rev + 1) (conn_build_tree db).entries

delta_files-store_object :
    (f : Files) (id : ObjectId) (b : Bytes) → (store_object f id b).delta_files ≡ f.delta_files
unfolding store_object
delta_files-store_object f id b = ground arith

pub snapshots-store_object :
    (f : Files) (id : ObjectId) (b : Bytes) → (store_object f id b).snapshots ≡ f.snapshots
unfolding store_object
snapshots-store_object f id b = ground arith

module _ (s : Setting) where
  delta_files-store_revision :
      (f : Files) (rev : ℕ) (c : Commit) (d : DeltaTree)
      → (store_revision s f rev c d).delta_files
        ≡ write_at rev (s.externals.deltas.serialize d) f.delta_files
  unfolding store_revision store_delta_tree store_commit
  delta_files-store_revision f rev c d = rw delta_files-store_object

  snapshots-store_revision :
      (f : Files) (rev : ℕ) (c : Commit) (d : DeltaTree)
      → (store_revision s f rev c d).snapshots ≡ f.snapshots
  unfolding store_revision store_delta_tree store_commit
  snapshots-store_revision f rev c d = rw snapshots-store_object

  module _ (r : Repo s) (db : TreeDb) (delta : DeltaTree) (author message : Bytes)
      (timestamp : ℤ) where
    pub write_commit-Writes :
        Writes s r db delta (write_commit s r db delta author message timestamp)
    unfolding write_commit store_tree_snapshot
    write_commit-Writes = elim (Bool-cases ((r.current_rev + 1) % 1000 == 0)) [
      | inl snap ↦ record {
        db_lem = refl;
        rev_lem = refl;
        cache_lem = refl;
        head_lem = refl;
        deltas_lem = rw snap (rw delta_files-store_revision (rw delta_files-store_object));
        snapshots_lem = added (rw snap (rw snapshots-store_revision (rw snapshots-store_object)));
      }
      | inr plain ↦ record {
        db_lem = refl;
        rev_lem = refl;
        cache_lem = refl;
        head_lem = refl;
        deltas_lem = rw plain (rw delta_files-store_revision (rw delta_files-store_object));
        snapshots_lem =
            unchanged (rw plain (rw snapshots-store_revision (rw snapshots-store_object)));
      }
    ]

    pub write_commit_sync-Writes :
        Writes s r db delta (write_commit_sync s r db delta author message timestamp)
    unfolding write_commit_sync store_tree_snapshot
    write_commit_sync-Writes = elim (Bool-cases ((r.current_rev + 1) % 1000 == 0)) [
      | inl snap ↦ record {
        db_lem = refl;
        rev_lem = refl;
        cache_lem = refl;
        head_lem = refl;
        deltas_lem = rw delta_files-store_revision (rw snap (rw delta_files-store_object));
        snapshots_lem = added (rw snapshots-store_revision (rw snap (rw snapshots-store_object)));
      }
      | inr plain ↦ record {
        db_lem = refl;
        rev_lem = refl;
        cache_lem = refl;
        head_lem = refl;
        deltas_lem = rw delta_files-store_revision (rw plain);
        snapshots_lem = unchanged (rw snapshots-store_revision (rw plain));
      }
    ]

module _ (s : Setting) (r : Repo s) (db : TreeDb) (delta : DeltaTree) (author message : Bytes)
    (timestamp : ℤ) (plain : (r.current_rev + 1) % 1000 == 0 ≡ false) where
  pub snapshots-write_commit :
      (write_commit s r db delta author message timestamp).files.snapshots ≡ r.files.snapshots
  unfolding write_commit
  snapshots-write_commit = rw plain (rw snapshots-store_revision (rw snapshots-store_object))

  pub snapshots-write_commit_sync :
      (write_commit_sync s r db delta author message timestamp).files.snapshots ≡ r.files.snapshots
  unfolding write_commit_sync
  snapshots-write_commit_sync = rw snapshots-store_revision (rw plain)

-- What the pre-commit hook says of the changes that the state `r` would commit.
abbrev pub Says : (s : Setting) → Repo s → (author message : Bytes) → ℤ → Verdict → Type 0
Says s r author message timestamp v =
    (changes : List TreeChange) (total : ℕ) (db : TreeDb)
    → conn_collect_pending r.db ≡ some (changes, total, db)
    → run_pre_commit s.scripts (r.current_rev + 1) author message (commit_date s timestamp)
        (hook_files changes)
      ≡ v

-- The history after a commit of the working tree.
abbrev pub committed : (s : Setting) → Repo s → (ℕ → TreeMap) → ℕ → TreeMap
committed s r hist = extend hist (r.current_rev + 1) (conn_build_tree r.db).entries

pub parent_of_next : (n : ℕ) → (if ltb 1 (n + 1) then n + 1 - 1 else 0) ≡ n
parent_of_next n = ground arith

-- An accepted commit is its writes.
module _ (s : Setting) (write : Repo s → TreeDb → DeltaTree → (author message : Bytes) → ℤ → Repo s)
    (r : Repo s) (author message : Bytes) (timestamp : ℤ) where
  pub commit_with_writes :
      (changes : List TreeChange) (total : ℕ) (db : TreeDb)
      → conn_collect_pending r.db ≡ some (changes, total, db)
      → run_pre_commit s.scripts
          (r.current_rev + 1)
          author
          message
          (commit_date s timestamp)
          (hook_files changes)
        ≡ accepted
      → commit_with s write r author message timestamp ≡ (
        ok (r.current_rev + 1),
        write r db
            (record {
              parent_rev = if ltb 1 (r.current_rev + 1) then r.current_rev + 1 - 1 else 0;
              changes = changes;
              total_entries = total;
            })
            author
            message
            timestamp,
      )
  unfolding commit_with run_post_commit
  commit_with_writes changes total db collected accepts = rw (collected, commit_with, accepts)

module _ {s : Setting} (sound : IsSound s) where
  Writes-IsRepo :
      {r r' : Repo s} {hist : ℕ → TreeMap} (db : TreeDb) (d : DeltaTree)
      → IsRepo s r hist
      → Writes s r db d r'
      → d.parent_rev ≡ r.current_rev
      → apply_changes (hist r.current_rev) d.changes ≡ (conn_build_tree r.db).entries
      → conn_build_tree db ≡ conn_build_tree r.db
      → IsStaged (conn_build_tree r.db).entries db
      → IsRepo s r' (committed s r hist)
  Writes-IsRepo {r} {r'} {hist} db d v w parent applies same st = record {
    history = rw w.rev_lem (
        extend-IsHistory sound.lawful v.history (r.current_rev + 1) (omega arith) tree r'.files d
          w.deltas_lem (rw same at w.snapshots_lem) parent applies
          (conn_build_tree-IsSorted v.staged));
    coherent =
        rw (w.rev_lem, w.cache_lem)
          (extend-IsCoherent sound.lawful v.history (r.current_rev + 1) (omega arith) tree
            v.coherent);
    staged =
        rw (w.rev_lem, w.db_lem)
          (subst (λ t. IsStaged t db) (sym (extend_self hist (r.current_rev + 1) tree)) st);
    head_text = rw w.rev_lem w.head_lem;
  }
    where
      tree : TreeMap
      tree = (conn_build_tree r.db).entries

  module _ (write : Repo s → TreeDb → DeltaTree → (author message : Bytes) → ℤ → Repo s)
      (writes : (r : Repo s) (db : TreeDb) (d : DeltaTree) (author message : Bytes) (timestamp : ℤ)
        → Writes s r db d (write r db d author message timestamp))
      {r : Repo s} {hist : ℕ → TreeMap} (v : IsRepo s r hist) (author message : Bytes)
      (timestamp : ℤ) where
    pub commit_with_accepted :
        Says s r author message timestamp accepted
        → ((commit_with s write r author message timestamp).0 ≡ ok (r.current_rev + 1))
          × ((commit_with s write r author message timestamp).1.current_rev ≡ r.current_rev + 1)
          × IsRepo s (commit_with s write r author message timestamp).1 (committed s r hist)
    commit_with_accepted accepts =
        let (changes, total, db, collected, applies, count, same, st) =
          conn_collect_pending_lem v.staged (v.history.sorted r.current_rev) in
        let delta : DeltaTree = record {
          parent_rev = if ltb 1 (r.current_rev + 1) then r.current_rev + 1 - 1 else 0;
          changes = changes;
          total_entries = total;
        } in
        rw
          (commit_with_writes s write r author message timestamp changes total db collected
            (accepts changes total db collected))
          (
            refl,
            (writes r db delta author message timestamp).rev_lem,
            Writes-IsRepo db delta v (writes r db delta author message timestamp)
                (parent_of_next r.current_rev) applies same st,
          )

    pub commit_with_rejected :
        (reason : Bytes)
        → Says s r author message timestamp (rejected reason)
        → commit_with s write r author message timestamp
          ≡ (err (hook_rejected reason), record r { db = record r.db { pending_changes = [] } })
    unfolding commit_with
    commit_with_rejected reason rejects =
        let collected = collect_total v.staged in
        rw (collected, commit_with, rejects _ _ _ collected)
