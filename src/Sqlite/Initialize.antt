-- ===== src/Sqlite/Initialize.antt =====
-- `initialize` (dsvn-core/src/sqlite_repository.rs) against the invariant: a blank directory, and a
-- directory whose table is gone.
use dsvn.Prelude.{
  ℕ, ◌^◌, ◌<◌, ℤ, ◌≡◌, ◌≢◌, refl, sym, ap, ◌∙◌, subst, true, Option, none, some, [], ◌∷◌, arith,
  ◌==◌, length,
}
use mathlib.Core.Option.{none-ne-some}
use dsvn.Bytes.{Bytes, eqb_iff}
use dsvn.Decimal.{decimal}
use dsvn.Decimal.RoundTrip.{parse_u64-decimal, trim-decimal}
use dsvn.SortedMap
use dsvn.SortedMap.{SortedMap, get-insert}
use dsvn.SortedMap.Order.{
  IsSorted, AllRows, get-IsAbove, get-AllRows, insert-IsSorted, SortedMap_ext,
}
use dsvn.Object.{commit, TreeEntry, Tree, new_tree, tree_insert}
use dsvn.Sqlite.Table.{
  EntryRow, conn_populate, conn_count, populate_rows, row_to_entry, kind_to_i64, i64_to_kind,
  bytes_to_oid,
}
use dsvn.Sqlite.Pending.{rows_at}
use dsvn.Sqlite.Staging.{IsStaged, entries_of, get-entries_of, entry_at, or_else}
use dsvn.Sqlite.Files.{exists, store_commit, store_tree_snapshot, store_delta_tree, Result, ok, err}
use dsvn.Sqlite.Reconstruct.{TreeMap, map_to_tree, insert_all}
use dsvn.Sqlite.History.{IsHistory, get_tree_at_rev-history}
use dsvn.Sqlite.Commit.{IsSound, IsRepo, snapshots-store_object}
use dsvn.Sqlite.Repo.{Setting, Repo, tree_at}
use dsvn.Sqlite.Read.{initialize, reopen, refill, create, head_rev}

-- An entry that the table's columns hold without loss, under its own name.
pub record IsEntry (k : Bytes) (e : TreeEntry) : Type 0 where
  pub named : e.name ≡ k
  pub id_length : length e.id ≡ 32
  pub stored_kind : e.kind ≢ commit
  pub mode_bound : e.mode < 2 ^ 32

abbrev pub row_of : TreeEntry → EntryRow
row_of e = record { object_id = e.id; kind = kind_to_i64 e.kind; mode = e.mode }

row_to_entry_lem : (k : Bytes) (e : TreeEntry) → IsEntry k e → row_to_entry k (row_of e) ≡ e
unfolding row_to_entry bytes_to_oid kind_to_i64 i64_to_kind
row_to_entry_lem k e w = ground (arith, w.named, w.id_length, w.stored_kind, w.mode_bound)

abbrev row_at : Option TreeEntry → Option EntryRow
row_at none = none
row_at (some e) = some (row_of e)

get-populate_rows :
    (k : Bytes) (rows : SortedMap EntryRow) (es : TreeMap)
    → IsSorted es
    → AllRows IsEntry es
    → SortedMap.get k (populate_rows rows es)
      ≡ or_else (row_at (SortedMap.get k es)) (SortedMap.get k rows)
unfolding populate_rows SortedMap.get
get-populate_rows k rows [] s w = refl
get-populate_rows k rows ((j, e) ∷ es) s w = ground (
  arith,
  w.0.named,
  get-populate_rows k (SortedMap.insert e.name (row_of e) rows) es s.1 w.1,
  get-insert k e.name (row_of e) rows,
  eqb_iff j k,
  eqb_iff e.name k,
  get-IsAbove k es,
)

populate_rows-IsSorted :
    (rows : SortedMap EntryRow) (es : TreeMap) → IsSorted rows → IsSorted (populate_rows rows es)
unfolding populate_rows
populate_rows-IsSorted rows [] s = s
populate_rows-IsSorted rows ((j, e) ∷ es) s =
    populate_rows-IsSorted (SortedMap.insert e.name (row_of e) rows) es
      (insert-IsSorted e.name (row_of e) rows s)

get-insert_all :
    (k : Bytes) (t : Tree) (es : TreeMap)
    → IsSorted es
    → AllRows IsEntry es
    → SortedMap.get k (insert_all t es).entries
      ≡ or_else (SortedMap.get k es) (SortedMap.get k t.entries)
unfolding insert_all tree_insert SortedMap.get
get-insert_all k t [] s w = refl
get-insert_all k t ((j, e) ∷ es) s w = ground (
  arith,
  w.0.named,
  get-insert_all k (tree_insert t e) es s.1 w.1,
  get-insert k e.name e t.entries,
  eqb_iff j k,
  eqb_iff e.name k,
  get-IsAbove k es,
)

insert_all-IsSorted :
    (t : Tree) (es : TreeMap) → IsSorted t.entries → IsSorted (insert_all t es).entries
unfolding insert_all tree_insert
insert_all-IsSorted t [] s = s
insert_all-IsSorted t ((j, e) ∷ es) s =
    insert_all-IsSorted (tree_insert t e) es (insert-IsSorted e.name e t.entries s)

or_else-none : {A : Type 0} (o : Option A) → or_else o none ≡ o
or_else-none none = refl
or_else-none (some a) = refl

-- A tree with its entries under their own names is unchanged by `map_to_tree`.
entries-map_to_tree : (m : TreeMap) → IsSorted m → AllRows IsEntry m → (map_to_tree m).entries ≡ m
unfolding map_to_tree SortedMap.get
entries-map_to_tree m s w =
    SortedMap_ext _ _ (insert_all-IsSorted new_tree m tt) s
      λ k. get-insert_all k new_tree m s w ∙ or_else-none (SortedMap.get k m)

read_back :
    (k : Bytes) (o : Option TreeEntry)
    → ((e : TreeEntry) → o ≡ some e → IsEntry k e)
    → entry_at k (or_else (row_at o) none) ≡ o
read_back k none w = refl
read_back k (some e) w = ap some (row_to_entry_lem k e (w e refl))

-- The table that is filled from a tree describes it.
populated-IsStaged :
    (base : TreeMap)
    → IsSorted base
    → AllRows IsEntry base
    → IsStaged base
        (conn_populate (record { tree_entries = []; pending_changes = [] }) (map_to_tree base))
unfolding conn_populate rows_at SortedMap.get
populated-IsStaged base s w =
    subst
      (λ es. IsStaged base (record { tree_entries = populate_rows [] es; pending_changes = [] }))
      (sym (entries-map_to_tree base s w))
      (record {
        rows_sorted = populate_rows-IsSorted [] base tt;
        pending_sorted = tt;
        whole = tt;
        replays = λ k. sym (
            get-entries_of k (populate_rows [] base)
            ∙ ap (entry_at k) (get-populate_rows k [] base s w)
            ∙ read_back k (SortedMap.get k base) (λ e h. get-AllRows IsEntry k e base w h));
      })

-- The head text that is written for a 64-bit revision reads back as the revision.
pub head_rev-decimal : (n : ℕ) → n < 2 ^ 64 → head_rev (decimal n) ≡ n
unfolding head_rev
head_rev-decimal n b = rw (trim-decimal n, head_rev) (rw (parse_u64-decimal n b, head_rev))

-- `r` is what a process finds when it opens the directory of a repository at revision `n` whose
-- `tree.sqlite` is missing: the files and the head are there, the table is empty.
pub record IsLost (s : Setting) (r : Repo s) (n : ℕ) (hist : ℕ → TreeMap) : Type 0 where
  pub history : IsHistory s.externals r.files n hist
  pub head_text : r.head ≡ some (decimal n)
  pub uncached : (k : ℕ) → s.lru.get k r.tree_cache ≡ none
  pub emptied : r.db ≡ record { tree_entries = []; pending_changes = [] }
  pub entries : AllRows IsEntry (hist n)
  pub rev_bound : n < 2 ^ 64

refill_ok :
    (s : Setting) (r r' : Repo s) (rev : ℕ) (t : Result TreeMap) (tm : TreeMap)
    → t ≡ ok tm
    → refill s r rev (t, r') ≡ record r' { db = conn_populate r.db (map_to_tree tm) }
unfolding refill
refill_ok s r r' rev (ok tm') tm e = cc
refill_ok s r r' rev (err f) tm e = cc

-- If the files hold a history up to the revision in `refs/head`, the tables and the cache are
-- empty, and the columns of the table can hold the entries of the last tree, then `initialize`
-- fills the table from the files so that the repository satisfies the invariant for the history.
pub initialize-IsRepo_lost :
    {s : Setting} (sound : IsSound s) {r : Repo s} {n : ℕ} {hist : ℕ → TreeMap} (now : ℤ)
    → IsLost s r n hist
    → IsRepo s (initialize s now r) hist
unfolding initialize reopen tree_at conn_count
initialize-IsRepo_lost {s} sound {r} {n} {hist} now v =
    let found =
      get_tree_at_rev-history sound.cache v.history n r.tree_cache (omega arith)
        (record { at = λ k t e. absurd (none-ne-some t (sym (v.uncached k) ∙ e)) }) in
    let none_left : conn_count r.db == 0 ≡ true = ap (λ c. conn_count c == 0) v.emptied ∙ refl in
    rw (v.head_text, initialize)
      (rw (head_rev-decimal n v.rev_bound) (
        rw none_left (
          rw (refill_ok s _ _ n _ (hist n) found.0) (record {
            history = v.history;
            coherent = found.1;
            staged =
                subst (λ c. IsStaged (hist n) (conn_populate c (map_to_tree (hist n))))
                  (sym v.emptied) (populated-IsStaged (hist n) (v.history.sorted n) v.entries);
            head_text = v.head_text;
          }))))

-- `r` is a new process's view of a directory without a head: no snapshot past revision 0 is there.
pub record IsBlank (s : Setting) (r : Repo s) : Type 0 where
  pub no_head : r.head ≡ none
  pub at_zero : r.current_rev ≡ 0
  pub uncached : (k : ℕ) → s.lru.get k r.tree_cache ≡ none
  pub no_snapshots : (k : ℕ) → 0 < k → r.files.snapshots k ≡ none

snapshots-create :
    (s : Setting) (now : ℤ) (r : Repo s) (k : ℕ)
    → 0 < k
    → (create s now r).files.snapshots k ≡ r.files.snapshots k
unfolding create store_commit store_tree_snapshot store_delta_tree
snapshots-create s now r k b = rw (snapshots-store_object, snapshots-store_object) (ground arith)

-- `initialize` turns a directory without a head, seen by a new process with an empty cache and
-- with no snapshot past revision 0, into a repository that satisfies the invariant at revision 0
-- with an empty tree.
pub initialize-IsRepo :
    {s : Setting} {r : Repo s} (now : ℤ)
    → IsBlank s r
    → IsRepo s (initialize s now r) (λ n. []) × ((initialize s now r).current_rev ≡ 0)
unfolding initialize create rows_at SortedMap.get entries_of
initialize-IsRepo {s} {r} now v =
    rw (v.no_head, initialize)
      (
        record {
          history = record {
            at_zero = refl;
            sorted = λ k. tt;
            deltas = λ k b. absurd (omega (arith, v.at_zero));
            snapshots = λ k b there.
                let gone = snapshots-create s now r k b ∙ v.no_snapshots k b in
                cc (sym (ap exists gone) ∙ there);
          };
          coherent = record { at = λ k t e. absurd (none-ne-some t (sym (v.uncached k) ∙ e)) };
          staged = record {
            rows_sorted = tt;
            pending_sorted = tt;
            whole = tt;
            replays = λ k. refl;
          };
          head_text = ap (λ n. some (decimal n)) (sym v.at_zero);
        },
        v.at_zero,
      )
