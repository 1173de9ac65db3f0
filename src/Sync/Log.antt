-- ===== src/Sync/Log.antt =====
-- Queries and clean-up of the log (`ReplicationLog` of dsvn-core/src/sync.rs).
use dsvn.Prelude.{
  ℕ, ◌+◌, ◌≤◌, ◌≡◌, refl, sym, ap, ◌∙◌, List, [], ◌∷◌, arith, if◌then◌else◌, length, ltb, All,
  Bool-cases, Option-cases, inl, inr,
}
use dsvn.Bytes.{Bytes}
use dsvn.SortedMap.{SortedMap}
use dsvn.Object.{Codec}
use dsvn.Sync.{
  ReplicationLogEntry, Directory, insert_entry, sort_entries, read_entry, overlapping, query, clean,
  cleanup_before,
}

-- The entries that end at `rev` or later.
abbrev pub recent : ℕ → List ReplicationLogEntry → List ReplicationLogEntry
recent rev [] = []
recent rev (e ∷ es) = let rest = recent rev es in if ltb e.to_rev rev then rest else e ∷ rest

abbrev pub IsOrdered : List ReplicationLogEntry → Type 0
IsOrdered [] = Unit
IsOrdered (e ∷ es) = All (λ f. e.from_rev ≤ f.from_rev) es × IsOrdered es

All-insert_entry :
    (P : ReplicationLogEntry → Type 0) (e : ReplicationLogEntry) (es : List ReplicationLogEntry)
    → P e
    → All P es
    → All P (insert_entry e es)
unfolding insert_entry
All-insert_entry P e [] h k = (h, tt)
All-insert_entry P e (f ∷ fs) h (one, k) = elim (Bool-cases (ltb f.from_rev e.from_rev)) [
  | inl below ↦ rw below (one, All-insert_entry P e fs h k)
  | inr above ↦ rw above (h, (one, k))
]

All-mono :
    (m n : ℕ) (es : List ReplicationLogEntry)
    → m ≤ n
    → All (λ f. n ≤ f.from_rev) es
    → All (λ f. m ≤ f.from_rev) es
All-mono m n [] b h = tt
All-mono m n (e ∷ es) b (one, h) = (omega (arith, b, one), All-mono m n es b h)

insert_entry-IsOrdered :
    (e : ReplicationLogEntry) (es : List ReplicationLogEntry)
    → IsOrdered es
    → IsOrdered (insert_entry e es)
unfolding insert_entry
insert_entry-IsOrdered e [] h = (tt, tt)
insert_entry-IsOrdered e (f ∷ fs) (low, h) = elim (Bool-cases (ltb f.from_rev e.from_rev)) [
  | inl below ↦ rw below (
    All-insert_entry (λ g. f.from_rev ≤ g.from_rev) e fs (ground (arith, below)) low,
    insert_entry-IsOrdered e fs h,
  )
  | inr above ↦
      let b : e.from_rev ≤ f.from_rev = ground (arith, above) in
      rw above ((b, All-mono e.from_rev f.from_rev fs b low), (low, h))
]

sort_entries-IsOrdered : (es : List ReplicationLogEntry) → IsOrdered (sort_entries es)
unfolding sort_entries
sort_entries-IsOrdered [] = tt
sort_entries-IsOrdered (e ∷ es) =
    insert_entry-IsOrdered e (sort_entries es) (sort_entries-IsOrdered es)

insert_entry-first :
    (e : ReplicationLogEntry) (es : List ReplicationLogEntry)
    → All (λ f. e.from_rev ≤ f.from_rev) es
    → insert_entry e es ≡ e ∷ es
unfolding insert_entry
insert_entry-first e [] h = refl
insert_entry-first e (f ∷ fs) (one, h) = ground (arith, one)

All-recent :
    (P : ReplicationLogEntry → Type 0) (rev : ℕ) (es : List ReplicationLogEntry)
    → All P es
    → All P (recent rev es)
All-recent P rev [] h = tt
All-recent P rev (e ∷ es) (one, h) = elim (Bool-cases (ltb e.to_rev rev)) [
  | inl old ↦ rw old (All-recent P rev es h)
  | inr young ↦ rw young (one, All-recent P rev es h)
]

recent-insert_entry :
    (rev : ℕ) (e : ReplicationLogEntry) (es : List ReplicationLogEntry)
    → IsOrdered es
    → recent rev (insert_entry e es)
      ≡ (if ltb e.to_rev rev then recent rev es else insert_entry e (recent rev es))
unfolding insert_entry
recent-insert_entry rev e [] h = ground arith
recent-insert_entry rev e (f ∷ fs) (low, h) = elim (Bool-cases (ltb f.from_rev e.from_rev)) [
  | inl below ↦ ground (arith, below, recent-insert_entry rev e fs h)
  | inr above ↦
      let b : e.from_rev ≤ f.from_rev = ground (arith, above) in
      let first = insert_entry-first e (recent rev (f ∷ fs)) (
        All-recent (λ g. e.from_rev ≤ g.from_rev) rev (f ∷ fs)
          (b, All-mono e.from_rev f.from_rev fs b low)) in
      rw above (ground (arith, first))
]

recent-sort_entries :
    (rev : ℕ) (es : List ReplicationLogEntry)
    → recent rev (sort_entries es) ≡ sort_entries (recent rev es)
unfolding sort_entries
recent-sort_entries rev [] = refl
recent-sort_entries rev (e ∷ es) =
    recent-insert_entry rev e (sort_entries es) (sort_entries-IsOrdered es)
    ∙ ground (arith, recent-sort_entries rev es)

module _ (json : Codec ReplicationLogEntry) where
  overlapping-clean :
      (a b rev : ℕ) (files : SortedMap Bytes)
      → overlapping json a b (clean json rev files).1 ≡ recent rev (overlapping json a b files)
  unfolding overlapping clean
  overlapping-clean a b rev [] = refl
  overlapping-clean a b rev ((name, text) ∷ files) =
      elim (Option-cases (read_entry json name text)) [
        | inl gone ↦ rw (gone, clean) (rw (gone, overlapping) (overlapping-clean a b rev files))
        | inr (e, found) ↦ elim (Bool-cases (ltb e.to_rev rev)) [
          | inl old ↦
              rw (found, clean, old, overlapping)
                (ground (arith, old, overlapping-clean a b rev files))
          | inr young ↦
              rw (found, clean, young, overlapping)
                (ground (arith, young, overlapping-clean a b rev files))
        ]
      ]

  length-clean :
      (rev : ℕ) (files : SortedMap Bytes)
      → (clean json rev files).0 + length (clean json rev files).1 ≡ length files
  unfolding clean
  length-clean rev [] = omega arith
  length-clean rev ((name, text) ∷ files) = ground (arith, length-clean rev files)

  -- The entries that a query of the log returns are in ascending order of their first revision.
  pub query-IsOrdered : (a b : ℕ) (d : Directory) → IsOrdered (query json a b d)
  unfolding query
  query-IsOrdered a b d = sort_entries-IsOrdered (overlapping json a b d.log_files)

  -- After a clean-up of the log, each query returns what it did before, in the same order, less
  -- the entries that end before the revision, and the count is that of the files that are gone.
  pub query-cleanup_before :
      (a b rev : ℕ) (d : Directory)
      → (query json a b (cleanup_before json rev d).1 ≡ recent rev (query json a b d))
        × ((cleanup_before json rev d).0 + length (cleanup_before json rev d).1.log_files
            ≡ length d.log_files)
  unfolding query cleanup_before
  query-cleanup_before a b rev d = (
    ap sort_entries (overlapping-clean a b rev d.log_files)
        ∙ sym (recent-sort_entries rev (overlapping json a b d.log_files)),
    length-clean rev d.log_files,
  )
