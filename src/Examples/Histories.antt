-- ===== src/Examples/Histories.antt =====
-- The theorems about a repository whose first revision has one file.
use dsvn.Prelude.{
  ℕ, ◌+◌, pos, ◌≡◌, refl, sym, ap, ◌∙◌, ◌%◌, subst, false, none, some, [], ◌∷◌, ◌++◌, arith, ◌==◌,
  Bool-cases, inl, inr,
}
use mathlib.Core.Option.{none-ne-some}
use dsvn.Bytes.{Bytes, ascii, trim_slashes, eqb, eqb_iff, starts_with}
use dsvn.SortedMap
use dsvn.SortedMap.Order.{AllRows}
use dsvn.Hooks.{accepted, run_pre_commit, run_hook, pre_commit_input}
use dsvn.Decimal.{decimal}
use dsvn.Object.{blob, TreeEntry, blob_id}
use dsvn.Sqlite.Table.{conn_build_tree, row_to_entry, bytes_to_oid, i64_to_kind, kind_to_i64}
use dsvn.Sqlite.Delta.{is_below}
use dsvn.Sqlite.Pending.{staged}
use dsvn.Sqlite.Files.{ok}
use dsvn.Sqlite.Reconstruct.{TreeMap, get_tree_at_rev}
use dsvn.Sqlite.History.{IsHistory, IsCoherent, get_tree_at_rev-history}
use dsvn.Sqlite.Commit.{IsRepo, Says, committed}
use dsvn.Sqlite.Operations.{IsExact, IsQuiet, delete_file-IsRepo}
use dsvn.Sqlite.Revisions.{commit-IsRepo}
use dsvn.Sqlite.Divergence.{
  Differ, readded, orphaned, commit-readded_path, commit-like_mismatch, commit-deleted_parent,
}
use dsvn.Sqlite.Initialize.{IsEntry, IsLost}
use dsvn.Sqlite.Read.{initialize}
use dsvn.Sqlite.Repo.{Repository, Repo, add_file, delete_file, commit, tree_at, file_mode}
use dsvn.Examples.Settings.{setting, setting-IsSound, externals}
use dsvn.Examples.Repositories.{
  opened, opened-IsRepo, added, added-IsRepo, alice-Says, no_trees, main_rs, hello,
}

-- The repository at revision 1, and its history.
abbrev first : Repo setting
first = (commit setting added (ascii "alice") (ascii "first") (pos 7)).1

abbrev trees : ℕ → TreeMap
trees = committed setting added no_trees

first-current_rev : first.current_rev ≡ 1
unfolding initialize add_file
first-current_rev =
    (commit-IsRepo setting-IsSound added-IsRepo (ascii "alice") (ascii "first") (pos 7)
      alice-Says).1

first-IsRepo : IsRepo setting first trees
first-IsRepo =
    (commit-IsRepo setting-IsSound added-IsRepo (ascii "alice") (ascii "first") (pos 7)
      alice-Says).2

get_tree_at_rev-history_example :
    ((get_tree_at_rev externals setting.lru first.files 1 (λ k. none)).0 ≡ ok (trees 1))
    × IsCoherent setting.lru first.current_rev trees
        (get_tree_at_rev externals setting.lru first.files 1 (λ k. none)).1
get_tree_at_rev-history_example =
    get_tree_at_rev-history setting-IsSound.cache first-IsRepo.history 1 (λ k. none)
      (omega (arith, first-current_rev)) (record { at = λ r t e. absurd (none-ne-some t e) })

abbrev src : Bytes
src = ascii "/src"

abbrev main_entry : TreeEntry
main_entry =
    staged (ascii "src/main.rs") (add_file setting opened main_rs hello false).0 blob
      (file_mode false)

main_entry-trees : SortedMap.get (ascii "src/main.rs") (trees 1) ≡ some main_entry
unfolding SortedMap.get add_file initialize conn_build_tree dsvn.Sqlite.Table.build_tree_from
    dsvn.Sqlite.Table.conn_tree_insert SortedMap.insert dsvn.Object.tree_insert eqb
    dsvn.Sqlite.Table.row_to_entry trim_slashes
main_entry-trees = refl

main_entry_lem : SortedMap.get (ascii "src/main.rs") (trees first.current_rev) ≡ some main_entry
main_entry_lem =
    ap (λ n. SortedMap.get (ascii "src/main.rs") (trees n)) first-current_rev ∙ main_entry-trees

first_clean : first.db.pending_changes ≡ []
unfolding commit dsvn.Sqlite.Table.conn_collect_pending dsvn.Sqlite.Table.rows_to_changes add_file
    dsvn.Sqlite.Table.conn_tree_insert SortedMap.insert initialize dsvn.Sqlite.Table.row_to_change
    run_pre_commit starts_with pre_commit_input decimal dsvn.Hooks.run_post_commit
    dsvn.Sqlite.Repo.write_commit
first_clean = refl

selected :
    setting.like (trim_slashes src ++ ascii "/%") (ascii "src/main.rs")
    ≡ is_below (trim_slashes src) (ascii "src/main.rs")
unfolding is_below trim_slashes starts_with
selected = refl

first_rows :
    first.db.tree_entries
    ≡ (
      ascii "src/main.rs",
      record {
        object_id = (add_file setting opened main_rs hello false).0;
        kind = 0;
        mode = 0o644;
      },
    )
      ∷ []
unfolding commit dsvn.Sqlite.Table.conn_collect_pending dsvn.Sqlite.Table.rows_to_changes add_file
    dsvn.Sqlite.Table.conn_tree_insert SortedMap.insert initialize dsvn.Sqlite.Table.row_to_change
    run_pre_commit starts_with pre_commit_input decimal dsvn.Hooks.run_post_commit
    dsvn.Sqlite.Repo.write_commit trim_slashes dsvn.Sqlite.Table.kind_to_i64
first_rows = refl

one_row :
    (k : Bytes) → eqb (ascii "src/main.rs") k ≡ false → SortedMap.get k first.db.tree_entries ≡ none
unfolding SortedMap.get
one_row k other = ap (SortedMap.get k) first_rows ∙ rw other refl

src-IsQuiet : IsQuiet setting first (trim_slashes src)
unfolding SortedMap.get commit dsvn.Sqlite.Table.conn_collect_pending
    dsvn.Sqlite.Table.rows_to_changes add_file dsvn.Sqlite.Table.conn_tree_insert SortedMap.insert
    initialize dsvn.Sqlite.Table.row_to_change run_pre_commit starts_with pre_commit_input decimal
    dsvn.Hooks.run_post_commit dsvn.Sqlite.Repo.write_commit
src-IsQuiet k b = refl

src-IsExact : IsExact setting first (trim_slashes src)
src-IsExact k there = elim (Bool-cases (eqb (ascii "src/main.rs") k)) [
  | inl same ↦
      subst (λ j. setting.like (trim_slashes src ++ ascii "/%") j ≡ is_below (trim_slashes src) j)
        ((eqb_iff (ascii "src/main.rs") k).0 same) selected
  | inr other ↦ absurd (there (one_row k other))
]

delete_file-IsRepo_example : IsRepo setting (delete_file setting first src) trees
delete_file-IsRepo_example = delete_file-IsRepo first-IsRepo src src-IsExact src-IsQuiet

bob-Says :
    Says setting
      (readded setting first src hello false)
      (ascii "bob")
      (ascii "second")
      (pos 8)
      accepted
unfolding run_pre_commit starts_with pre_commit_input decimal add_file delete_file commit
    dsvn.Sqlite.Table.conn_collect_pending dsvn.Sqlite.Table.rows_to_changes
    dsvn.Sqlite.Table.conn_tree_insert SortedMap.insert initialize dsvn.Sqlite.Table.row_to_change
    dsvn.Hooks.run_post_commit dsvn.Sqlite.Repo.write_commit
bob-Says changes total db e = refl

first_plain : (first.current_rev + 1) % 1000 == 0 ≡ false
first_plain = rw first-current_rev refl

commit-readded_path_example :
    Differ setting-IsSound first-IsRepo first_clean first_plain
      (ascii "bob")
      (ascii "second")
      (pos 8)
      (readded setting first src hello false)
      (ascii "src/main.rs")
      (some main_entry)
      none
unfolding is_below starts_with trim_slashes
commit-readded_path_example =
    commit-readded_path setting-IsSound first-IsRepo first_clean first_plain (ascii "bob")
      (ascii "second") (pos 8) src hello false (ascii "src/main.rs") main_entry refl refl
      main_entry_lem bob-Says

orphan-Says :
    Says setting
      (orphaned setting opened src main_rs hello false)
      (ascii "alice")
      (ascii "first")
      (pos 7)
      accepted
unfolding run_pre_commit starts_with pre_commit_input decimal delete_file add_file initialize
orphan-Says changes total db e = refl

opened_clean : opened.db.pending_changes ≡ []
unfolding initialize
opened_clean = refl

opened_plain : (opened.current_rev + 1) % 1000 == 0 ≡ false
unfolding initialize
opened_plain = refl

commit-deleted_parent_example :
    Differ setting-IsSound opened-IsRepo opened_clean opened_plain
      (ascii "alice")
      (ascii "first")
      (pos 7)
      (orphaned setting opened src main_rs hello false)
      (ascii "src/main.rs")
      (some main_entry)
      none
unfolding is_below starts_with trim_slashes
commit-deleted_parent_example =
    commit-deleted_parent setting-IsSound opened-IsRepo opened_clean opened_plain (ascii "alice")
      (ascii "first") (pos 7) src main_rs hello false refl refl orphan-Says

carol-Says :
    Says setting
      (delete_file setting first (ascii "/SRC"))
      (ascii "carol")
      (ascii "second")
      (pos 9)
      accepted
unfolding run_pre_commit starts_with pre_commit_input decimal delete_file commit
    dsvn.Sqlite.Table.conn_collect_pending dsvn.Sqlite.Table.rows_to_changes add_file
    dsvn.Sqlite.Table.conn_tree_insert SortedMap.insert initialize dsvn.Sqlite.Table.row_to_change
    dsvn.Hooks.run_post_commit dsvn.Sqlite.Repo.write_commit
carol-Says changes total db e = refl

-- LIKE takes `SRC/%` for a pattern of `src/main.rs`.
commit-like_mismatch_example :
    Differ setting-IsSound first-IsRepo first_clean first_plain
      (ascii "carol")
      (ascii "second")
      (pos 9)
      (delete_file setting first (ascii "/SRC"))
      (ascii "src/main.rs")
      (some main_entry)
      none
unfolding is_below starts_with trim_slashes eqb
commit-like_mismatch_example =
    commit-like_mismatch setting-IsSound first-IsRepo first_clean first_plain (ascii "carol")
      (ascii "second") (pos 9) (ascii "/SRC") (ascii "src/main.rs") main_entry refl refl refl
      main_entry_lem carol-Says

-- The repository as a new process finds it when its table is gone.
abbrev lost : Repo setting
lost = record first {
  db = record { tree_entries = []; pending_changes = [] };
  tree_cache = λ k. none;
}

trees_one : trees 1 ≡ (ascii "src/main.rs", main_entry) ∷ []
unfolding add_file initialize conn_build_tree dsvn.Sqlite.Table.build_tree_from
    dsvn.Sqlite.Table.conn_tree_insert SortedMap.insert dsvn.Object.tree_insert row_to_entry
    trim_slashes
trees_one = refl

main_entry-IsEntry : IsEntry (ascii "src/main.rs") main_entry
unfolding row_to_entry bytes_to_oid blob_id add_file i64_to_kind kind_to_i64 file_mode
main_entry-IsEntry = record {
  named = refl;
  id_length = refl;
  stored_kind = λ e. cc;
  mode_bound = omega arith;
}

tree_one-IsEntry : AllRows IsEntry (trees 1)
tree_one-IsEntry = subst (AllRows IsEntry) (sym trees_one) (main_entry-IsEntry, tt)

lost-IsLost : IsLost setting lost 1 trees
lost-IsLost = record {
  history =
      subst (λ n. IsHistory externals first.files n trees) first-current_rev first-IsRepo.history;
  head_text = first-IsRepo.head_text ∙ ap (λ n. some (decimal n)) first-current_rev;
  uncached = λ k. refl;
  emptied = refl;
  entries = tree_one-IsEntry;
  rev_bound = omega arith;
}
