-- ===== src/Sqlite/Revisions.antt =====
-- The trees of the revisions after an operation (dsvn-core/src/sqlite_repository.rs).
use dsvn.Prelude.{ℕ, ◌+◌, ◌≤◌, ℤ, ◌≡◌, sym, ap, ◌∙◌, [], arith}
use dsvn.Bytes.{Bytes}
use dsvn.Hooks.{accepted, rejected}
use dsvn.Sqlite.Table.{conn_build_tree}
use dsvn.Sqlite.Files.{ok, err, hook_rejected}
use dsvn.Sqlite.Reconstruct.{TreeMap}
use dsvn.Sqlite.History.{get_tree_at_rev-history}
use dsvn.Sqlite.Extend.{extend_self, extend_ne}
use dsvn.Sqlite.Commit.{
  IsSound, IsRepo, Says, committed, write_commit-Writes, write_commit_sync-Writes,
  commit_with_accepted, commit_with_rejected,
}
use dsvn.Sqlite.Repo.{Setting, Repo, commit, commit_sync, write_commit, write_commit_sync, tree_at}

module _ {s : Setting} (sound : IsSound s) {r : Repo s} {hist : ℕ → TreeMap}
    (v : IsRepo s r hist) where
  -- In a repository that satisfies the invariant for a history, over a lawful serializer and
  -- cache, `tree_at` returns the tree of every revision up to the current one, and keeps the
  -- invariant.
  pub tree_at-history :
      (rev : ℕ)
      → rev ≤ r.current_rev
      → ((tree_at s r rev).0 ≡ ok (hist rev)) × IsRepo s (tree_at s r rev).1 hist
  unfolding tree_at
  tree_at-history rev b =
      let (tree, coherent) =
        get_tree_at_rev-history sound.cache v.history rev r.tree_cache b v.coherent in
      (
        tree,
        record {
          history = v.history;
          coherent = coherent;
          staged = v.staged;
          head_text = v.head_text;
        },
      )

  module _ (author message : Bytes) (timestamp : ℤ) where
    -- In a repository that satisfies the invariant, over a lawful serializer and cache, if the
    -- pre-commit hook accepts, `commit` returns the next revision number, and the repository then
    -- satisfies the invariant for the history extended by the working tree.
    pub commit-IsRepo :
        Says s r author message timestamp accepted
        → ((commit s r author message timestamp).0 ≡ ok (r.current_rev + 1))
          × ((commit s r author message timestamp).1.current_rev ≡ r.current_rev + 1)
          × IsRepo s (commit s r author message timestamp).1 (committed s r hist)
    unfolding commit
    commit-IsRepo =
        commit_with_accepted sound (write_commit s) (write_commit-Writes s) v author message
          timestamp

    -- In a repository that satisfies the invariant, over a lawful serializer and cache, if the
    -- pre-commit hook accepts, `commit_sync` returns the next revision number, and the repository
    -- then satisfies the invariant for the history extended by the working tree, although no full
    -- tree is stored but for a snapshot.
    pub commit_sync-IsRepo :
        Says s r author message timestamp accepted
        → ((commit_sync s r author message timestamp).0 ≡ ok (r.current_rev + 1))
          × ((commit_sync s r author message timestamp).1.current_rev ≡ r.current_rev + 1)
          × IsRepo s (commit_sync s r author message timestamp).1 (committed s r hist)
    unfolding commit_sync
    commit_sync-IsRepo =
        commit_with_accepted sound (write_commit_sync s) (write_commit_sync-Writes s) v author
          message timestamp

    -- In a repository that satisfies the invariant, if the pre-commit hook rejects, both kinds of
    -- commit return its reason and keep files, head, revision, cache and working table, but the
    -- pending changes are gone.
    pub commit_rejected :
        (reason : Bytes)
        → Says s r author message timestamp (rejected reason)
        → (commit s r author message timestamp
            ≡ (err (hook_rejected reason), record r { db = record r.db { pending_changes = [] } }))
          × (commit_sync s r author message timestamp ≡ (
            err (hook_rejected reason),
            record r { db = record r.db { pending_changes = [] } },
          ))
    unfolding commit commit_sync
    commit_rejected reason rejects = (
      commit_with_rejected sound (write_commit s) (write_commit-Writes s) v author message timestamp
          reason rejects,
      commit_with_rejected sound (write_commit_sync s) (write_commit_sync-Writes s) v author message
          timestamp reason rejects,
    )

-- In a repository that satisfies the invariant, over a lawful serializer and cache, after a commit
-- that the pre-commit hook accepts, the new revision holds the working tree as it was committed,
-- and each earlier revision still has the tree that it had.
pub tree_at-commit :
    {s : Setting} (sound : IsSound s) {r : Repo s} {hist : ℕ → TreeMap} (v : IsRepo s r hist)
    (author message : Bytes) (timestamp : ℤ) (rev : ℕ)
    → Says s r author message timestamp accepted
    → rev ≤ r.current_rev
    → ((tree_at s (commit s r author message timestamp).1 (r.current_rev + 1)).0
        ≡ ok (conn_build_tree r.db).entries)
      × ((tree_at s (commit s r author message timestamp).1 rev).0 ≡ (tree_at s r rev).0)
tree_at-commit {s} sound {r} {hist} v author message timestamp rev accepts b =
    let (done, next, v') = commit-IsRepo sound v author message timestamp accepts in
    let tree : TreeMap = (conn_build_tree r.db).entries in
    (
      (tree_at-history sound v' (r.current_rev + 1) (omega (arith, next))).0
          ∙ ap ok (extend_self hist (r.current_rev + 1) tree),
      (tree_at-history sound v' rev (omega (arith, next))).0
          ∙ ap ok (extend_ne hist (r.current_rev + 1) tree rev (omega arith))
          ∙ sym (tree_at-history sound v rev b).0,
    )
