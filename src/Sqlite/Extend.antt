-- ===== src/Sqlite/Extend.antt =====
-- A history with one more revision, in the files and in the cache.
use dsvn.Prelude.{
  ℕ, suc, ◌≤◌, ◌<◌, ◌≡◌, sym, ap, ◌∙◌, true, false, inl, inr, Option, some, arith, Bool-cases, ◌==◌,
  ==_iff, if◌then◌else◌, subst, ◌≢◌,
}
use dsvn.Bytes.{Bytes}
use dsvn.SortedMap.Order.{IsSorted}
use dsvn.Object.{DeltaTree, Externals, IsLawful}
use dsvn.Sqlite.Delta.{apply_changes}
use dsvn.Sqlite.Files.{Files, ok, exists, write_at, read_as, load_tree_snapshot, load_delta_tree}
use dsvn.Sqlite.Cache.{LruCache}
use dsvn.Sqlite.Reconstruct.{TreeMap}
use dsvn.Sqlite.History.{IsHistory, IsCoherent}

-- The history with the tree `t` at revision `rev`.
abbrev pub extend : (ℕ → TreeMap) → ℕ → TreeMap → ℕ → TreeMap
extend hist rev t r = if rev == r then t else hist r

pub extend_self : (hist : ℕ → TreeMap) (rev : ℕ) (t : TreeMap) → extend hist rev t rev ≡ t
extend_self hist rev t = ground arith

pub extend_ne :
    (hist : ℕ → TreeMap) (rev : ℕ) (t : TreeMap) (r : ℕ) → rev ≢ r → extend hist rev t r ≡ hist r
extend_ne hist rev t r h = ground arith

write_at_self : (rev : ℕ) (b : Bytes) (f : ℕ → Option Bytes) → write_at rev b f rev ≡ some b
write_at_self rev b f = ground arith

write_at_ne :
    (rev : ℕ) (b : Bytes) (f : ℕ → Option Bytes) (r : ℕ) → rev ≢ r → write_at rev b f r ≡ f r
write_at_ne rev b f r h = ground arith

at_index : {A : Type 0} {f g : ℕ → A} (r : ℕ) → f ≡ g → f r ≡ g r
at_index r e = ap (λ h. h r) e

ne_of_test : (a b : ℕ) → (a == b) ≡ false → a ≢ b
ne_of_test a b h = ground arith

-- The snapshots of `f'` are those of `f`, but perhaps for a new one of `t` at `rev`.
pub data Snapshots (x : Externals) (f f' : Files) (rev : ℕ) (t : TreeMap) : Type 0 where
  unchanged : f'.snapshots ≡ f.snapshots → Snapshots x f f' rev t
  added :
      f'.snapshots ≡ write_at rev (x.trees.serialize (record { entries = t })) f.snapshots
      → Snapshots x f f' rev t

module _ {x : Externals} (law : IsLawful x) {f : Files} {n : ℕ} {hist : ℕ → TreeMap}
    (hs : IsHistory x f n hist) (rev : ℕ) (next : rev ≡ suc n) (t : TreeMap) where
  abbrev IsSnapshot : Files → ℕ → Type 0
  IsSnapshot f' r =
      exists (f'.snapshots r) ≡ true
      → (r ≤ rev) × (load_tree_snapshot x f' r ≡ ok (record { entries = extend hist rev t r }))

  old-IsSnapshot :
      (f' : Files) (r : ℕ) → 0 < r → rev ≢ r → f'.snapshots r ≡ f.snapshots r → IsSnapshot f' r
  unfolding load_tree_snapshot
  old-IsSnapshot f' r p ne same h =
      let (b, load) = hs.snapshots r p (rw same at h) in
      (omega arith, rw (extend_ne hist rev t r ne) (rw same load))

  new-IsSnapshot :
      (f' : Files)
      → f'.snapshots rev ≡ some (x.trees.serialize (record { entries = t }))
      → IsSnapshot f' rev
  unfolding load_tree_snapshot read_as
  new-IsSnapshot f' same h = (
    omega arith,
    rw (extend_self hist rev t) (rw (same, read_as) (rw (law.trees_lem _, read_as))),
  )

  extended_snapshots : (f' : Files) → Snapshots x f f' rev t → (r : ℕ) → 0 < r → IsSnapshot f' r
  extended_snapshots f' (unchanged e) r p h =
      let old = hs.snapshots r p (rw (at_index r e) at h) in
      old-IsSnapshot f' r p (omega (arith, old.0)) (at_index r e) h
  extended_snapshots f' (added e) r p h = elim (Bool-cases (rev == r)) [
    | inl same ↦
        subst (IsSnapshot f') ((==_iff rev r).0 same)
          (new-IsSnapshot f' (at_index rev e ∙ write_at_self rev _ f.snapshots)) h
    | inr other ↦
        old-IsSnapshot f' r p (ne_of_test rev r other)
          (at_index r e ∙ write_at_ne rev _ f.snapshots r (ne_of_test rev r other)) h
  ]

  abbrev IsStep : Files → ℕ → Type 0
  IsStep f' r =
      (d : DeltaTree) × (exists (f'.delta_files (suc r)) ≡ true)
      × (load_delta_tree x f' (suc r) ≡ ok d)
      × (d.parent_rev ≡ r)
      × (apply_changes (extend hist rev t r) d.changes ≡ extend hist rev t (suc r))

  new-IsStep :
      (f' : Files) (d : DeltaTree)
      → f'.delta_files (suc n) ≡ some (x.deltas.serialize d)
      → d.parent_rev ≡ n
      → apply_changes (hist n) d.changes ≡ t
      → IsStep f' n
  unfolding load_delta_tree read_as
  new-IsStep f' d e parent applies = (
    d,
    rw e,
    rw (e, read_as) (rw (law.deltas_lem d, read_as)),
    parent,
    rw (extend_ne hist rev t n (omega arith)) (applies ∙ sym (ground arith)),
  )

  old-IsStep :
      (f' : Files) (r : ℕ) → r < n → f'.delta_files (suc r) ≡ f.delta_files (suc r) → IsStep f' r
  unfolding load_delta_tree
  old-IsStep f' r b e =
      let (d, there, load, parent, applies) = hs.deltas r b in
      (
        d,
        rw e there,
        rw e load,
        parent,
        rw (extend_ne hist rev t r (omega arith), extend_ne hist rev t (suc r) (omega arith))
            applies,
      )

  extended_deltas :
      (f' : Files) (d : DeltaTree)
      → f'.delta_files ≡ write_at rev (x.deltas.serialize d) f.delta_files
      → d.parent_rev ≡ n
      → apply_changes (hist n) d.changes ≡ t
      → (r : ℕ) → r < rev
      → IsStep f' r
  extended_deltas f' d e parent applies r b = elim (Bool-cases (r == n)) [
    | inl same ↦ subst (IsStep f') (sym ((==_iff r n).0 same)) (
        new-IsStep f' d
          (at_index (suc n) e
            ∙ subst
                (λ k.
                  write_at rev (x.deltas.serialize d) f.delta_files k ≡ some (x.deltas.serialize d))
                next (write_at_self rev _ f.delta_files))
          parent applies)
    | inr other ↦
        old-IsStep f' r (ground arith)
          (at_index (suc r) e ∙ write_at_ne rev _ f.delta_files (suc r) (ground arith))
  ]

  pub extend-IsHistory :
      (f' : Files) (d : DeltaTree)
      → f'.delta_files ≡ write_at rev (x.deltas.serialize d) f.delta_files
      → Snapshots x f f' rev t
      → d.parent_rev ≡ n
      → apply_changes (hist n) d.changes ≡ t
      → IsSorted t
      → IsHistory x f' rev (extend hist rev t)
  extend-IsHistory f' d e sn parent applies s = record {
    at_zero = extend_ne hist rev t 0 (omega arith) ∙ hs.at_zero;
    sorted = λ r. elim (Bool-cases (rev == r)) [
      | inl same ↦ rw same s
      | inr other ↦ rw other (hs.sorted r)
    ];
    deltas = extended_deltas f' d e parent applies;
    snapshots = extended_snapshots f' sn;
  }

  pub extend-IsCoherent :
      {l : LruCache TreeMap} {c : l.State}
      → IsCoherent l n hist c
      → IsCoherent l rev (extend hist rev t) c
  extend-IsCoherent co = record {
    at = λ r u e.
        let old = co.at r u e in
        (omega (arith, old.0), old.1 ∙ sym (extend_ne hist rev t r (omega (arith, old.0))));
  }
