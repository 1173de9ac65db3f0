-- ===== src/Examples/Repositories.antt =====
-- A repository from its creation on, and the theorems about its first revisions.
use dsvn.Prelude.{ℕ, ◌+◌, pos, ◌≡◌, refl, false, none, [], arith}
use mathlib.Core.Option.{none-ne-some}
use dsvn.Bytes.{Bytes, ascii, trim_slashes, eqb, starts_with, trim}
use dsvn.SortedMap
use dsvn.Hooks.{accepted, rejected, run_pre_commit, run_hook, pre_commit_input}
use dsvn.Decimal.{decimal}
use dsvn.Object.{blob, TreeEntry, new_blob, blob_id}
use dsvn.Sqlite.Table.{conn_build_tree}
use dsvn.Sqlite.Files.{Result, ok, err, hook_rejected, store_object}
use dsvn.Sqlite.Reconstruct.{TreeMap}
use dsvn.Sqlite.Commit.{IsRepo, Says, committed}
use dsvn.Sqlite.Operations.{IsFresh, add_file-IsRepo}
use dsvn.Sqlite.Revisions.{commit-IsRepo, commit_sync-IsRepo, commit_rejected, tree_at-commit}
use dsvn.Sqlite.Initialize.{IsBlank, initialize-IsRepo}
use dsvn.Sqlite.RoundTrip.{IsOwn, get_file-commit-add_file}
use dsvn.Sqlite.Divergence.{tree_at-commit_rejected}
use dsvn.Sqlite.Read.{initialize, get_file}
use dsvn.Sqlite.Repo.{Repo, add_file, commit, commit_sync, commit_with, tree_at}
use dsvn.Examples.Settings.{setting, setting-IsSound}

abbrev pub blank : Repo setting
blank = record {
  db = record { tree_entries = []; pending_changes = [] };
  files = record {
    objects = λ id. none;
    commits = λ rev. none;
    snapshots = λ rev. none;
    delta_files = λ rev. none;
  };
  head = none;
  current_rev = 0;
  batch_mode = false;
  tree_cache = λ k. none;
}

abbrev pub opened : Repo setting
opened = initialize setting (pos 0) blank

abbrev pub no_trees : ℕ → TreeMap
no_trees n = []

blank-IsBlank : IsBlank setting blank
blank-IsBlank = record {
  no_head = refl;
  at_zero = refl;
  uncached = λ k. refl;
  no_snapshots = λ k b. refl;
}

initialize-IsRepo_example : IsRepo setting opened no_trees × (opened.current_rev ≡ 0)
initialize-IsRepo_example = initialize-IsRepo {s = setting} {r = blank} (pos 0) blank-IsBlank

pub opened-IsRepo : IsRepo setting opened no_trees
opened-IsRepo = (initialize-IsRepo {s = setting} {r = blank} (pos 0) blank-IsBlank).0

abbrev pub main_rs : Bytes
main_rs = ascii "/src/main.rs"

abbrev pub hello : Bytes
hello = ascii "hello"

pub main_rs-IsFresh : IsFresh setting opened no_trees (trim_slashes main_rs)
unfolding initialize SortedMap.get
main_rs-IsFresh h = λ k b. refl

add_file-IsRepo_example : IsRepo setting (add_file setting opened main_rs hello false).1 no_trees
add_file-IsRepo_example = add_file-IsRepo opened-IsRepo main_rs hello false main_rs-IsFresh

pub added-IsRepo : IsRepo setting (add_file setting opened main_rs hello false).1 no_trees
added-IsRepo = add_file-IsRepo opened-IsRepo main_rs hello false main_rs-IsFresh

abbrev pub added : Repo setting
added = (add_file setting opened main_rs hello false).1

pub alice-Says : Says setting added (ascii "alice") (ascii "first") (pos 7) accepted
unfolding run_pre_commit run_hook starts_with pre_commit_input decimal add_file initialize
alice-Says changes total db e = refl

tree_at-commit_example :
    ((tree_at setting
        (commit setting added (ascii "alice") (ascii "first") (pos 7)).1
        (added.current_rev + 1)).0
      ≡ ok (conn_build_tree added.db).entries)
    × ((tree_at setting (commit setting added (ascii "alice") (ascii "first") (pos 7)).1 0).0
        ≡ (tree_at setting added 0).0)
tree_at-commit_example =
    tree_at-commit setting-IsSound added-IsRepo (ascii "alice") (ascii "first") (pos 7) 0 alice-Says
      (omega arith)

commit-IsRepo_example :
    ((commit setting added (ascii "alice") (ascii "first") (pos 7)).0 ≡ ok (added.current_rev + 1))
    × ((commit setting added (ascii "alice") (ascii "first") (pos 7)).1.current_rev
        ≡ added.current_rev + 1)
    × IsRepo setting
        (commit setting added (ascii "alice") (ascii "first") (pos 7)).1
        (committed setting added no_trees)
commit-IsRepo_example =
    commit-IsRepo setting-IsSound added-IsRepo (ascii "alice") (ascii "first") (pos 7) alice-Says

commit_sync-IsRepo_example :
    ((commit_sync setting added (ascii "alice") (ascii "first") (pos 7)).0
      ≡ ok (added.current_rev + 1))
    × ((commit_sync setting added (ascii "alice") (ascii "first") (pos 7)).1.current_rev
        ≡ added.current_rev + 1)
    × IsRepo setting
        (commit_sync setting added (ascii "alice") (ascii "first") (pos 7)).1
        (committed setting added no_trees)
commit_sync-IsRepo_example =
    commit_sync-IsRepo setting-IsSound added-IsRepo (ascii "alice") (ascii "first") (pos 7)
      alice-Says

pub hello-IsOwn : IsOwn setting opened.files (new_blob hello false)
unfolding initialize blob_id store_object dsvn.Sqlite.Files.store_delta_tree
    dsvn.Sqlite.Files.store_tree_snapshot dsvn.Sqlite.Files.store_commit eqb dsvn.Object.tree_id
    dsvn.Object.commit_id
hello-IsOwn bytes e = absurd (none-ne-some bytes e)

get_file-commit-add_file_example :
    (get_file setting
      (commit setting added (ascii "alice") (ascii "first") (pos 7)).1
      main_rs
      (opened.current_rev + 1)).0
    ≡ ok hello
get_file-commit-add_file_example =
    get_file-commit-add_file setting-IsSound opened-IsRepo main_rs hello false (ascii "alice")
      (ascii "first") (pos 7) main_rs-IsFresh hello-IsOwn alice-Says

abbrev reason : Bytes
reason = ascii "Hook 'pre-commit' rejected the operation: no"

mallory-Says : Says setting added (ascii "mallory") (ascii "first") (pos 7) (rejected reason)
unfolding run_pre_commit run_hook starts_with pre_commit_input decimal add_file initialize trim
mallory-Says changes total db e = refl

commit_rejected_example :
    (commit setting added (ascii "mallory") (ascii "first") (pos 7) ≡ (
      err (hook_rejected reason),
      record added { db = record added.db { pending_changes = [] } },
    ))
    × (commit_sync setting added (ascii "mallory") (ascii "first") (pos 7) ≡ (
      err (hook_rejected reason),
      record added { db = record added.db { pending_changes = [] } },
    ))
commit_rejected_example =
    commit_rejected setting-IsSound added-IsRepo (ascii "mallory") (ascii "first") (pos 7) reason
      mallory-Says

alice-Says_later :
    Says setting
      (commit setting added (ascii "mallory") (ascii "first") (pos 7)).1
      (ascii "alice")
      (ascii "second")
      (pos 8)
      accepted
unfolding run_pre_commit run_hook starts_with pre_commit_input decimal add_file initialize commit
    commit_with dsvn.Sqlite.Table.conn_collect_pending dsvn.Sqlite.Table.rows_to_changes
    dsvn.Sqlite.Table.conn_tree_insert SortedMap.insert dsvn.Sqlite.Table.row_to_change
alice-Says_later changes total db e = refl

tree_at-commit_rejected_example :
    (conn_build_tree (commit setting added (ascii "mallory") (ascii "first") (pos 7)).1.db
      ≡ conn_build_tree added.db)
    × ((tree_at setting
          (commit setting
            (commit setting added (ascii "mallory") (ascii "first") (pos 7)).1
            (ascii "alice")
            (ascii "second")
            (pos 8)).1
          (added.current_rev + 1)).0
        ≡ ok [])
unfolding initialize add_file
tree_at-commit_rejected_example =
    tree_at-commit_rejected setting-IsSound added-IsRepo (ascii "mallory") (ascii "first") (pos 7)
      reason (ascii "alice") (ascii "second") (pos 8) refl mallory-Says alice-Says_later
