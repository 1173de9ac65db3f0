-- ===== src/Sqlite/Kept.antt =====
-- A commit of whatever is pending (dsvn-core/src/sqlite_repository.rs), without the assumption that
-- the pending changes describe the table.
use dsvn.Prelude.{
  ℕ, ◌+◌, ◌-◌, ◌%◌, ℤ, ◌≡◌, refl, ap, ◌∙◌, false, some, [], arith, if◌then◌else◌, ltb, ◌==◌,
}
use dsvn.Bytes.{Bytes}
use dsvn.Hooks.{accepted}
use dsvn.SortedMap.Order.{AllRows}
use dsvn.Object.{DeltaTree}
use dsvn.Sqlite.Table.{TreeDb, conn_collect_pending, conn_count}
use dsvn.Sqlite.Delta.{apply_changes}
use dsvn.Sqlite.Pending.{IsWhole, changes_of, rows_to_changes_lem}
use dsvn.Sqlite.Staging.{apply_changes-IsSorted}
use dsvn.Sqlite.Files.{ok}
use dsvn.Sqlite.Reconstruct.{TreeMap}
use dsvn.Sqlite.History.{IsHistory, IsCoherent, get_tree_at_rev-history}
use dsvn.Sqlite.Extend.{extend_self, unchanged, extend-IsHistory, extend-IsCoherent}
use dsvn.Sqlite.Commit.{
  IsSound, IsRepo, Says, Writes, commit_with_writes, parent_of_next, write_commit-Writes,
  snapshots-write_commit,
}
use dsvn.Sqlite.Repo.{Setting, Repo, commit, write_commit, tree_at}

-- The files hold the history and the pending rows are whole; the table may hold anything.
pub record IsKept (s : Setting) (r : Repo s) (hist : ℕ → TreeMap) : Type 0 where
  pub history : IsHistory s.externals r.files r.current_rev hist
  pub coherent : IsCoherent s.lru r.current_rev hist r.tree_cache
  pub whole : AllRows IsWhole r.db.pending_changes

pub IsRepo-IsKept :
    {s : Setting} {r : Repo s} {hist : ℕ → TreeMap} → IsRepo s r hist → IsKept s r hist
IsRepo-IsKept v = record { history = v.history; coherent = v.coherent; whole = v.staged.whole }

collects :
    (c : TreeDb)
    → AllRows IsWhole c.pending_changes
    → conn_collect_pending c
      ≡ some (changes_of c.pending_changes, conn_count c, record c { pending_changes = [] })
unfolding conn_collect_pending
collects c w = rw (rows_to_changes_lem c.pending_changes w)

-- If the files and the cache agree with a history, and the pending rows are whole, then, whatever
-- the table holds, the revision that an accepted commit makes with no snapshot due is the replay
-- of the pending changes on the last one.
pub tree_at-commit_kept :
    {s : Setting} (sound : IsSound s) {r : Repo s} {hist : ℕ → TreeMap} (v : IsKept s r hist)
    (author message : Bytes) (timestamp : ℤ)
    → (r.current_rev + 1) % 1000 == 0 ≡ false
    → Says s r author message timestamp accepted
    → (tree_at s (commit s r author message timestamp).1 (r.current_rev + 1)).0
      ≡ ok (apply_changes (hist r.current_rev) (changes_of r.db.pending_changes))
unfolding tree_at commit
tree_at-commit_kept {s} sound {r} {hist} v author message timestamp plain accepts =
    let db : TreeDb = record r.db { pending_changes = [] } in
    let collected = collects r.db v.whole in
    let delta : DeltaTree = record {
      parent_rev = if ltb 1 (r.current_rev + 1) then r.current_rev + 1 - 1 else 0;
      changes = changes_of r.db.pending_changes;
      total_entries = conn_count r.db;
    } in
    let t : TreeMap = apply_changes (hist r.current_rev) (changes_of r.db.pending_changes) in
    let rev : ℕ = r.current_rev + 1 in
    let r' : Repo s = write_commit s r db delta author message timestamp in
    let w : Writes s r db delta r' = write_commit-Writes s r db delta author message timestamp in
    let history =
      extend-IsHistory sound.lawful v.history rev (omega arith) t r'.files delta w.deltas_lem
        (unchanged (snapshots-write_commit s r db delta author message timestamp plain))
        (parent_of_next r.current_rev) refl
        (apply_changes-IsSorted (hist r.current_rev) _ (v.history.sorted r.current_rev)) in
    let coherent = extend-IsCoherent sound.lawful v.history rev (omega arith) t v.coherent in
    rw
      (commit_with_writes s (write_commit s) r author message timestamp _ _ _ collected
        (accepts _ _ _ collected))
      (rw w.cache_lem (
        (get_tree_at_rev-history sound.cache history rev r.tree_cache (omega arith) coherent).0
        ∙ ap ok (extend_self hist rev t)))
