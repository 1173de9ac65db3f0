-- ===== src/Sqlite/History.antt =====
-- `get_tree_at_rev` (dsvn-core/src/sqlite_repository.rs) against a history of trees by revision.
use dsvn.Prelude.{
  ℕ, zero, suc, ◌≤◌, ◌<◌, ◌≡◌, refl, sym, ap, ◌∙◌, true, inl, inr, none, some, List, [], ◌∷◌, arith,
  Bool-cases, Option-cases,
}
use dsvn.SortedMap.Order.{IsSorted}
use dsvn.Object.{DeltaTree, Externals}
use dsvn.Sqlite.Delta.{apply_changes}
use dsvn.Sqlite.Files.{Files, Result, ok, err, exists, load_tree_snapshot, load_delta_tree}
use dsvn.Sqlite.Cache.{LruCache, IsCache}
use dsvn.Sqlite.Reconstruct.{
  TreeMap, base, walk, base_tree, replay, replay_on, finish_walk, get_tree_at_rev, tree_to_map,
}

-- `hist r` is the tree of revision `r`, up to revision `n`: each revision's delta leads to it from
-- the one before, and each snapshot holds it.
pub record IsHistory (x : Externals) (f : Files) (n : ℕ) (hist : ℕ → TreeMap) : Type 0 where
  pub at_zero : hist 0 ≡ []
  pub sorted : (r : ℕ) → IsSorted (hist r)
  pub deltas :
      (r : ℕ)
      → r < n
      → (d : DeltaTree) × (exists (f.delta_files (suc r)) ≡ true)
        × (load_delta_tree x f (suc r) ≡ ok d)
        × (d.parent_rev ≡ r)
        × (apply_changes (hist r) d.changes ≡ hist (suc r))
  pub snapshots :
      (r : ℕ)
      → 0 < r
      → exists (f.snapshots r) ≡ true
      → (r ≤ n) × (load_tree_snapshot x f r ≡ ok (record { entries = hist r }))

-- What the cache holds is the history's.
pub record IsCoherent (l : LruCache TreeMap) (n : ℕ) (hist : ℕ → TreeMap) (c : l.State)
    : Type 0 where
  pub at : (r : ℕ) (t : TreeMap) → l.get r c ≡ some t → (r ≤ n) × (t ≡ hist r)

module _ {x : Externals} {l : LruCache TreeMap} (cache : IsCache l) {f : Files} {n : ℕ}
    {hist : ℕ → TreeMap} (hs : IsHistory x f n hist) where
  touch-IsCoherent :
      (k : ℕ) {c : l.State} → IsCoherent l n hist c → IsCoherent l n hist (l.touch k c)
  touch-IsCoherent k {c} co = record { at = λ r t e. co.at r t (sym (cache.get-touch r k c) ∙ e) }

  put-IsCoherent :
      (k : ℕ) {c : l.State}
      → k ≤ n
      → IsCoherent l n hist c
      → IsCoherent l n hist (l.put k (hist k) c)
  put-IsCoherent k {c} b co = record {
    at = λ r t e. elim (cache.get-put r k (hist k) t c e) [
      | inl (same, value) ↦ (rw same b, sym value ∙ ap hist (sym same))
      | inr old ↦ co.at r t old
    ];
  }

  -- The chain leads from the tree of revision `m` to that of `r`.
  abbrev Leads : ℕ → List (ℕ × DeltaTree) → ℕ → Type 0
  Leads m [] r = m ≡ r
  Leads m ((rev, d) ∷ chain) r =
      (rev ≤ n) × (apply_changes (hist m) d.changes ≡ hist rev) × Leads rev chain r

  abbrev Gives : ℕ → Result TreeMap × l.State → Type 0
  Gives r p = (p.0 ≡ ok (hist r)) × IsCoherent l n hist p.1

  base_tree_cached :
      (m : ℕ) (c : l.State) (t : TreeMap)
      → l.get (suc m) c ≡ some t
      → IsCoherent l n hist c
      → Gives (suc m) (base_tree x l f (suc m) (l.touch (suc m) c))
  unfolding base_tree
  base_tree_cached m c t e co =
      rw (cache.get-touch (suc m) (suc m) c, base_tree)
        (rw (e, base_tree)
          (ap ok (co.at (suc m) t e).1, touch-IsCoherent _ (touch-IsCoherent _ co)))

  base_tree_snapshot :
      (m : ℕ) (c : l.State)
      → l.get (suc m) c ≡ none
      → exists (f.snapshots (suc m)) ≡ true
      → IsCoherent l n hist c
      → Gives (suc m) (base_tree x l f (suc m) c)
  unfolding base_tree tree_to_map
  base_tree_snapshot m c e s co =
      let (b, load) = hs.snapshots (suc m) (omega arith) s in
      rw (e, base_tree, s, load) (refl, put-IsCoherent (suc m) b co)

  walk_lem :
      (r fuel cur : ℕ) (chain : List (ℕ × DeltaTree)) (c : l.State)
      → cur < fuel
      → cur ≤ n
      → Leads cur chain r
      → IsCoherent l n hist c
      → (m : ℕ) × (chain' : List (ℕ × DeltaTree)) × (c' : l.State) × (walk x l f fuel cur chain c
          ≡ (base m chain', c'))
        × Leads m chain' r
        × Gives m (base_tree x l f m c')
  unfolding walk
  walk_lem r zero cur chain c h b le co = absurd (omega arith)
  walk_lem r (suc fuel) zero chain c h b le co =
      (0, chain, c, refl, le, unfold base_tree in (ap ok (sym hs.at_zero), co))
  walk_lem r (suc fuel) (suc q) chain c h b le co = elim (Option-cases (l.get (suc q) c)) [
    | inr (t, e) ↦ (suc q, chain, l.touch (suc q) c, rw (e, walk), le, base_tree_cached q c t e co)
    | inl e ↦ elim (Bool-cases (exists (f.snapshots (suc q)))) [
      | inl s ↦ (suc q, chain, c, rw (e, walk, s), le, base_tree_snapshot q c e s co)
      | inr ns ↦
          let (d, there, load, parent, applies) = hs.deltas q b in
          let (m, chain', c', steps, le', gives) =
            walk_lem r fuel d.parent_rev ((suc q, d) ∷ chain) c (rw parent (omega arith))
              (rw parent (omega arith)) (rw parent (b, applies, le)) co in
          (m, chain', c', rw (e, walk, ns, there, load) steps, le', gives)
    ]
  ]

  replay_lem :
      (r m : ℕ) (chain : List (ℕ × DeltaTree)) (c : l.State)
      → Leads m chain r
      → IsCoherent l n hist c
      → ((replay x l f chain (hist m) c).0 ≡ hist r)
        × IsCoherent l n hist (replay x l f chain (hist m) c).1
  unfolding replay
  replay_lem r m [] c le co = (ap hist le, co)
  replay_lem r m ((rev, d) ∷ chain) c (b, applies, le) co =
      rw (applies, replay)
        (replay_lem r rev chain (l.put rev (hist rev) c) le (put-IsCoherent rev b co))

  replay_on_lem :
      (r m : ℕ) (chain : List (ℕ × DeltaTree)) (p : Result TreeMap × l.State)
      → Leads m chain r
      → Gives m p
      → Gives r (replay_on x l f chain p)
  unfolding replay_on
  replay_on_lem r m chain (err e, c) le g = cc (g.0)
  replay_on_lem r m chain (ok tree, c) le g =
      let same : tree ≡ hist m = cc (g.0) in
      let done = replay_lem r m chain c le g.1 in rw same (ap ok done.0, done.1)

  -- If the files hold a history of trees up to a revision, as chains of deltas with any snapshots,
  -- then at every revision up to it, with any cache that agrees with the history,
  -- `get_tree_at_rev` ends and returns the tree of the revision, and leaves a cache that agrees.
  pub get_tree_at_rev-history :
      (r : ℕ) (c : l.State)
      → r ≤ n
      → IsCoherent l n hist c
      → ((get_tree_at_rev x l f r c).0 ≡ ok (hist r))
        × IsCoherent l n hist (get_tree_at_rev x l f r c).1
  unfolding get_tree_at_rev finish_walk
  get_tree_at_rev-history zero c b co = (ap ok (sym hs.at_zero), co)
  get_tree_at_rev-history (suc q) c b co = elim (Option-cases (l.get (suc q) c)) [
    | inr (t, e) ↦
        rw (e, get_tree_at_rev) (ap ok (co.at (suc q) t e).1, touch-IsCoherent (suc q) co)
    | inl e ↦ elim (Bool-cases (exists (f.snapshots (suc q)))) [
      | inl s ↦
          let load = (hs.snapshots (suc q) (omega arith) s).1 in
          rw (e, get_tree_at_rev, s, load)
            (unfold tree_to_map in (refl, put-IsCoherent (suc q) b co))
      | inr ns ↦
          let (m, chain, c', steps, le, gives) =
            walk_lem (suc q) (suc (suc q)) (suc q) [] c (omega arith) b refl co in
          rw (e, get_tree_at_rev, ns, steps)
            (replay_on_lem (suc q) m chain (base_tree x l f m c') le gives)
    ]
  ]
