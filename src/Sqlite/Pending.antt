-- ===== src/Sqlite/Pending.antt =====
-- The pending rows as a delta: what their replay gives at each path, and how staging one more
-- change alters that.
use Prim.Native.Nat.{Ordering}
use dsvn.Prelude.{
  ℕ, ◌≡◌, refl, Bool, true, false, not, ◌||◌, Option, none, some, List, [], ◌∷◌, arith,
  if◌then◌else◌, ◌==◌,
}
use dsvn.Bytes.{Bytes, eqb, cmp, eqb_iff, cmp-eq_iff, cmp_trans, cmp_irrefl, starts_with-lt}
use dsvn.SortedMap
use dsvn.SortedMap.{SortedMap}
use dsvn.SortedMap.Order.{IsAbove, IsSorted, AllRows, IsAbove-trans}
use dsvn.Object.{ObjectId, ObjectKind, TreeEntry, TreeChange, upsert, delete}
use dsvn.Sqlite.Table.{
  PendingRow, upsert_row, delete_row, row_to_entry, row_to_change, rows_to_changes, kind_to_i64,
}
use dsvn.Sqlite.Delta.{is_below, change_at, changes_at}

abbrev or_default {ℓ} : {A : Type ℓ} → A → Option A → A
or_default d none = d
or_default d (some a) = a

-- A row as a change, with a default for NULL.
abbrev pub row_change : Bytes → PendingRow → TreeChange
row_change path r =
    if r.change_type == 1
    then delete path
    else upsert path (
        row_to_entry path (record {
          object_id = or_default [] r.object_id;
          kind = or_default 0 r.kind;
          mode = or_default 0 r.mode;
        }))

-- No column of an upsert is NULL.
abbrev pub IsWhole : Bytes → PendingRow → Type 0
IsWhole path r = row_to_change path r ≡ some (row_change path r)

unfoldable pub rows_at : Bytes → Option TreeEntry → SortedMap PendingRow → Option TreeEntry
rows_at k now [] = now
rows_at k now ((path, r) ∷ rows) = rows_at k (change_at k now (row_change path r)) rows

unfoldable pub changes_of : SortedMap PendingRow → List TreeChange
changes_of [] = []
changes_of ((path, r) ∷ rows) = row_change path r ∷ changes_of rows

pub rows_to_changes_lem :
    (rows : SortedMap PendingRow)
    → AllRows IsWhole rows
    → rows_to_changes rows ≡ some (changes_of rows)
unfolding rows_to_changes changes_of
rows_to_changes_lem [] w = refl
rows_to_changes_lem ((path, r) ∷ rows) w = rw (w.0, rows_to_changes_lem rows w.1)

pub changes_at-changes_of :
    (k : Bytes) (now : Option TreeEntry) (rows : SortedMap PendingRow)
    → changes_at k now (changes_of rows) ≡ rows_at k now rows
unfolding changes_at changes_of rows_at
changes_at-changes_of k now [] = refl
changes_at-changes_of k now ((path, r) ∷ rows) =
    changes_at-changes_of k (change_at k now (row_change path r)) rows

abbrev pub deletes : Option PendingRow → Bool
deletes none = false
deletes (some r) = r.change_type == 1

abbrev pub upserts : Option PendingRow → Bool
upserts none = false
upserts (some r) = not (r.change_type == 1)

pub is_below-lt : (p k : Bytes) → is_below p k ≡ true → cmp p k ≡ Ordering.lt
unfolding is_below
is_below-lt p k h = starts_with-lt k p _ h

-- Changes at greater paths leave the entry alone.
pub rows_at-IsAbove :
    (k : Bytes) (now : Option TreeEntry) (rows : SortedMap PendingRow)
    → IsAbove k rows
    → rows_at k now rows ≡ now
unfolding rows_at change_at
rows_at-IsAbove k now [] a = refl
rows_at-IsAbove k now ((path, r) ∷ rows) a = ground (
  arith,
  rows_at-IsAbove k now rows a.1,
  eqb_iff path k,
  cmp_irrefl k,
  is_below-lt path k,
  cmp_trans k path k,
)

change_at-none :
    (k path : Bytes) (r : PendingRow)
    → (eqb path k ≡ true → (r.change_type == 1) ≡ true)
    → change_at k none (row_change path r) ≡ none
unfolding change_at
change_at-none k path r h = ground arith

-- Without an upsert of its own, an absent entry stays absent.
rows_at-none :
    (k : Bytes) (rows : SortedMap PendingRow)
    → IsSorted rows
    → upserts (SortedMap.get k rows) ≡ false
    → rows_at k none rows ≡ none
unfolding rows_at SortedMap.get
rows_at-none k [] s h = refl
rows_at-none k ((path, r) ∷ rows) s h =
    rw (change_at-none k path r (ground arith))
      (ground (arith, rows_at-none k rows s.1, rows_at-IsAbove k none rows, eqb_iff path k))

get_head :
    (p q : Bytes) (r : PendingRow) (rows : SortedMap PendingRow)
    → cmp p q ≡ Ordering.eq
    → SortedMap.get p ((q, r) ∷ rows) ≡ some r
unfolding SortedMap.get
get_head p q r rows e = ground (arith, cmp-eq_iff p q, eqb_iff q p)

get_skip :
    (k q : Bytes) (r : PendingRow) (rows : SortedMap PendingRow)
    → eqb q k ≡ false
    → SortedMap.get k ((q, r) ∷ rows) ≡ SortedMap.get k rows
unfolding SortedMap.get
get_skip k q r rows e = rw e

ne_of_gt : (p q : Bytes) → cmp p q ≡ Ordering.gt → eqb q p ≡ false
ne_of_gt p q e = ground (arith, eqb_iff q p, cmp_irrefl p)

-- What lies below `p` is none of the paths up to `p`.
ne_of_below : (k p q : Bytes) → (cmp p q ≡ Ordering.lt → ⊥) → is_below p k ≡ true → eqb q k ≡ false
ne_of_below k p q n b = ground (arith, eqb_iff q k, is_below-lt p k b)

IsAbove-of_eq :
    (p q : Bytes) (rows : SortedMap PendingRow)
    → cmp p q ≡ Ordering.eq
    → IsAbove q rows
    → IsAbove p rows
IsAbove-of_eq p q rows e a = rw ((cmp-eq_iff p q).0 e) a

abbrev pub staged : Bytes → ObjectId → ObjectKind → ℕ → TreeEntry
staged p oid kind mode =
    row_to_entry p (record { object_id = oid; kind = kind_to_i64 kind; mode = mode })

module _ (k p : Bytes) (oid : ObjectId) (kind : ObjectKind) (mode : ℕ) where
  upsert_front :
      (now now' : Option TreeEntry) (rows : SortedMap PendingRow)
      → IsAbove p rows
      → (eqb p k ≡ false → now ≡ now')
      → rows_at k now ((p, upsert_row oid kind mode) ∷ rows)
        ≡ (if eqb p k then some (staged p oid kind mode) else rows_at k now' rows)
  unfolding rows_at change_at
  upsert_front now now' rows a f =
      ground (arith, eqb_iff p k, rows_at-IsAbove p (some (staged p oid kind mode)) rows a)

  -- An upsert in place of the row of its path.
  upsert_replaces :
      (now : Option TreeEntry) (q : Bytes) (r : PendingRow)
      → cmp p q ≡ Ordering.eq
      → (r.change_type == 1 ≡ true → is_below p k ≡ true → now ≡ none)
      → eqb p k ≡ false
      → now ≡ change_at k now (row_change q r)
  unfolding change_at
  upsert_replaces now q r e f ne = ground (arith, cmp-eq_iff p q)

  -- Staging an upsert.
  pub rows_at-insert_upsert :
      (now : Option TreeEntry) (rows : SortedMap PendingRow)
      → IsSorted rows
      → (deletes (SortedMap.get p rows) ≡ true → is_below p k ≡ true → now ≡ none)
      → rows_at k now (SortedMap.insert p (upsert_row oid kind mode) rows)
        ≡ (if eqb p k then some (staged p oid kind mode) else rows_at k now rows)
  unfolding SortedMap.insert rows_at
  rows_at-insert_upsert now [] s f = upsert_front now now [] tt (λ _. refl)
  rows_at-insert_upsert now ((q, r) ∷ rows) s f =
      go (cmp p q) refl (rows_at-insert_upsert (change_at k now (row_change q r)) rows s.1)
    where
      now' : Option TreeEntry
      now' = change_at k now (row_change q r)

      keeps :
          cmp p q ≡ Ordering.gt
          → deletes (SortedMap.get p rows) ≡ true
          → is_below p k ≡ true
          → now' ≡ none
      keeps e d b =
          rw (f (rw (get_skip p q r rows (ne_of_gt p q e)) d) b)
            (change_at-none k q r (λ h. cc (h, ne_of_below k p q (λ l. cc (l, e)) b)))

      go :
          (o : Ordering)
          → cmp p q ≡ o
          → ((deletes (SortedMap.get p rows) ≡ true → is_below p k ≡ true → now' ≡ none)
              → rows_at k now' (SortedMap.insert p (upsert_row oid kind mode) rows)
                ≡ (if eqb p k then some (staged p oid kind mode) else rows_at k now' rows))
          → rows_at k now (elim o [
            | Ordering.lt ↦ (p, upsert_row oid kind mode) ∷ (q, r) ∷ rows
            | Ordering.eq ↦ (p, upsert_row oid kind mode) ∷ rows
            | Ordering.gt ↦ (q, r) ∷ SortedMap.insert p (upsert_row oid kind mode) rows
          ])
            ≡ (if eqb p k then some (staged p oid kind mode) else rows_at k now ((q, r) ∷ rows))
      go Ordering.lt e ih =
          upsert_front now now ((q, r) ∷ rows) (e, IsAbove-trans p q rows e s.0) (λ _. refl)
      go Ordering.eq e ih =
          upsert_front now now' rows (IsAbove-of_eq p q rows e s.0)
            (upsert_replaces now q r e (λ d. f (rw (get_head p q r rows e) d)))
      go Ordering.gt e ih = ih (keeps e)

module _ (k p : Bytes) where
  delete_front :
      (now now' : Option TreeEntry) (rows : SortedMap PendingRow)
      → IsAbove p rows
      → IsSorted rows
      → (eqb p k || is_below p k ≡ false → now ≡ now')
      → (is_below p k ≡ true → upserts (SortedMap.get k rows) ≡ false)
      → rows_at k now ((p, delete_row) ∷ rows)
        ≡ (if eqb p k || is_below p k then none else rows_at k now' rows)
  unfolding rows_at change_at
  delete_front now now' rows a s f g =
      ground (arith, eqb_iff p k, rows_at-IsAbove p none rows a, rows_at-none k rows s)

  delete_replaces :
      (now : Option TreeEntry) (q : Bytes) (r : PendingRow)
      → cmp p q ≡ Ordering.eq
      → eqb p k || is_below p k ≡ false
      → now ≡ change_at k now (row_change q r)
  unfolding change_at
  delete_replaces now q r e ne = ground (arith, cmp-eq_iff p q)

  -- Staging a deletion.
  pub rows_at-insert_delete :
      (now : Option TreeEntry) (rows : SortedMap PendingRow)
      → IsSorted rows
      → (is_below p k ≡ true → upserts (SortedMap.get k rows) ≡ false)
      → rows_at k now (SortedMap.insert p delete_row rows)
        ≡ (if eqb p k || is_below p k then none else rows_at k now rows)
  unfolding SortedMap.insert rows_at
  rows_at-insert_delete now [] s f = delete_front now now [] tt tt (λ _. refl) f
  rows_at-insert_delete now ((q, r) ∷ rows) s f =
      go (cmp p q) refl (rows_at-insert_delete (change_at k now (row_change q r)) rows s.1)
    where
      now' : Option TreeEntry
      now' = change_at k now (row_change q r)

      tail :
          (cmp p q ≡ Ordering.lt → ⊥) → is_below p k ≡ true → upserts (SortedMap.get k rows) ≡ false
      tail n b = rw (get_skip k q r rows (ne_of_below k p q n b)) at (f b)

      go :
          (o : Ordering)
          → cmp p q ≡ o
          → ((is_below p k ≡ true → upserts (SortedMap.get k rows) ≡ false)
              → rows_at k now' (SortedMap.insert p delete_row rows)
                ≡ (if eqb p k || is_below p k then none else rows_at k now' rows))
          → rows_at k now (elim o [
            | Ordering.lt ↦ (p, delete_row) ∷ (q, r) ∷ rows
            | Ordering.eq ↦ (p, delete_row) ∷ rows
            | Ordering.gt ↦ (q, r) ∷ SortedMap.insert p delete_row rows
          ])
            ≡ (if eqb p k || is_below p k then none else rows_at k now ((q, r) ∷ rows))
      go Ordering.lt e ih =
          delete_front now now ((q, r) ∷ rows) (e, IsAbove-trans p q rows e s.0) s (λ _. refl) f
      go Ordering.eq e ih =
          delete_front now now' rows (IsAbove-of_eq p q rows e s.0) s.1 (delete_replaces now q r e)
            (tail (λ l. cc (l, e)))
      go Ordering.gt e ih = ih (tail (λ l. cc (l, e)))
