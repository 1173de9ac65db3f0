-- ===== src/Sqlite/Read.antt =====
-- The operations of `SqliteRepository` that read, and `initialize`.
use dsvn.Prelude.{
  ℕ, zero, suc, ℤ, pos, Bool, true, false, not, ◌&&◌, Option, none, some, List, [], ◌∷◌, ◌++◌,
  if◌then◌else◌, length, leb, ◌==◌,
}
use dsvn.Bytes.{
  Bytes, ascii, trim_slashes, trim, strip_prefix, first_part, trim_end_slashes, is_empty,
}
use dsvn.Decimal.{decimal, parse_u64}
use dsvn.SortedMap
use dsvn.SortedMap.{SortedMap}
use dsvn.Object.{ObjectKind, blob, tree, commit, Commit, DeltaTree, tree_id, commit_id, new_tree}
use dsvn.Sqlite.Table.{conn_count, conn_populate}
use dsvn.Sqlite.Files.{
  Files, Result, ok, err, path_not_found, store_object, store_commit, store_tree_snapshot,
  store_delta_tree, load_blob, load_commit, load_tree_snapshot, ◌>>=◌,
}
use dsvn.Sqlite.Reconstruct.{TreeMap, map_to_tree}
use dsvn.Sqlite.Repo.{Setting, Repo, tree_at}

-- The text of `refs/head` as a revision; a text that is no number counts as 0.
unfoldable pub head_rev : Bytes → ℕ
head_rev text = elim (parse_u64 (trim text)) [ none ↦ 0 | some rev ↦ rev ]

abbrev is_blob : ObjectKind → Bool
is_blob blob = true
is_blob tree = false
is_blob commit = false

-- The names that a directory listing shows for one key: its first part below the directory.
unfoldable pub listed_name : Bytes → Bytes → Option Bytes
listed_name [] key = some (first_part key)
listed_name (c ∷ dir) key = elim (strip_prefix key ((c ∷ dir) ++ ascii "/")) [
  | none ↦ none
  | some below ↦ some (first_part below)
]

-- The names as a sorted set.
unfoldable pub listed_names : Bytes → TreeMap → SortedMap (Unit {0})
listed_names dir [] = []
listed_names dir ((key, e) ∷ tm) =
    let rest = listed_names dir tm in
    elim (listed_name dir key) [ none ↦ rest | some name ↦ SortedMap.insert name tt rest ]

module _ (s : Setting) where
  unfoldable pub file_in : Files → TreeMap → Bytes → Result Bytes
  file_in f tm path = elim (SortedMap.get (trim_slashes path) tm) [
    | none ↦ err path_not_found
    | some e ↦
        if is_blob e.kind
        then (do b ← load_blob s.externals f e.id; ok b.content)
        else err path_not_found
  ]

  unfoldable pub get_file : Repo s → Bytes → ℕ → Result Bytes × Repo s
  unfolding file_in
  get_file r path rev = let (t, r') = tree_at s r rev in ((do tm ← t; file_in r.files tm path), r')

  unfoldable pub names_in : TreeMap → Bytes → Result (List Bytes)
  unfolding listed_names listed_name
  names_in tm path =
      let dir = trim_end_slashes (trim_slashes path) in
      let names = SortedMap.keys (listed_names dir tm) in
      if is_empty names && not (is_empty dir) then err path_not_found else ok names

  unfoldable pub list_dir : Repo s → Bytes → ℕ → Result (List Bytes) × Repo s
  unfolding names_in
  list_dir r path rev = let (t, r') = tree_at s r rev in ((do tm ← t; names_in tm path), r')

  unfoldable pub path_exists : Repo s → Bytes → ℕ → Bool × Repo s
  path_exists r path rev =
      let (found, r') = get_file r path rev in (elim found [ ok _ ↦ true | err _ ↦ false ], r')

  -- The loop over the revisions from `rev` down to 0, until `limit` commits are found.
  unfoldable pub log_down : Files → ℕ → ℕ → List Commit → List Commit
  log_down f limit zero result =
      if leb limit (length result)
      then result
      else elim (load_commit s.externals f 0) [ err _ ↦ result | ok c ↦ result ++ c ∷ [] ]
  log_down f limit (suc rev) result =
      let rest =
        log_down f limit rev (elim (load_commit s.externals f (suc rev)) [
          | err _ ↦ result
          | ok c ↦ result ++ c ∷ []
        ]) in
      if leb limit (length result) then result else rest

  unfoldable pub log : Repo s → ℕ → ℕ → List Commit
  unfolding log_down
  log r start_rev limit =
      log_down r.files limit (if leb start_rev r.current_rev then start_rev else r.current_rev) []

  -- The table filled from the tree of the revision, or from its snapshot.
  unfoldable pub refill : Repo s → ℕ → Result TreeMap × Repo s → Repo s
  refill r rev (ok tm, r') = record r' { db = conn_populate r.db (map_to_tree tm) }
  refill r rev (err _, r') = elim (load_tree_snapshot s.externals r.files rev) [
    | err _ ↦ r'
    | ok t ↦ record r' { db = conn_populate r.db t }
  ]

  -- A repository that has a head takes its revision from there, and fills an empty table.
  unfoldable pub reopen : Repo s → Bytes → Repo s
  unfolding refill
  reopen r text =
      let rev = head_rev text in
      let r1 : Repo s = record r { current_rev = rev } in
      if conn_count r.db == 0 then refill r1 rev (tree_at s r1 rev) else r1

  -- Any other directory gets revision 0, with the empty tree.
  unfoldable pub create : ℤ → Repo s → Repo s
  create now r =
      let tid = tree_id s.externals new_tree in
      let c : Commit = record {
        tree_id = tid;
        parents = [];
        author = ascii "system";
        message = ascii "Initial commit";
        timestamp = now;
        tz_offset = pos 0;
      } in
      let f1 = store_object r.files tid (s.externals.trees.serialize new_tree) in
      let f2 = store_object f1 (commit_id s.externals c) (s.externals.commits.serialize c) in
      let f3 = store_tree_snapshot s.externals (store_commit s.externals f2 0 c) 0 new_tree in
      let d : DeltaTree = record { parent_rev = 0; changes = []; total_entries = 0 } in
      record r {
        files = store_delta_tree s.externals f3 0 d;
        head = some (decimal 0);
        db = record { tree_entries = []; pending_changes = [] };
      }

  unfoldable pub initialize : ℤ → Repo s → Repo s
  unfolding reopen create
  initialize now r = elim r.head [ some text ↦ reopen r text | none ↦ create now r ]
