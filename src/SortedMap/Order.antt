-- ===== src/SortedMap/Order.antt =====
-- The order of the keys of a map, and lemmas on the operations that depend on it.
use Prim.Native.Nat.{Ordering}
use dsvn.Prelude.{
  Bool-cases, inl, inr, ◌≡◌, refl, sym, ◌∙◌, subst, Bool, none, some, [], ◌∷◌, arith,
}
use mathlib.Core.Path.{ap₂}
use mathlib.Core.Option.{none-ne-some, some-injective}
use dsvn.Bytes.{Bytes, eqb, cmp, eqb_iff, cmp-eq_iff, cmp_trans, cmp-gt, cmp_irrefl, eqb_refl}
use dsvn.SortedMap.{SortedMap, get, insert, retain, remove}

module _ {ℓ} {V : Type ℓ} where
  -- Every key of the map is greater than `k`.
  abbrev pub IsAbove : Bytes → SortedMap V → Type 0
  IsAbove k [] = Unit
  IsAbove k ((j, v) ∷ m) = (cmp k j ≡ Ordering.lt) × IsAbove k m

  abbrev pub IsSorted : SortedMap V → Type 0
  IsSorted [] = Unit
  IsSorted ((k, v) ∷ m) = IsAbove k m × IsSorted m

  pub IsAbove-trans :
      (i k : Bytes) (m : SortedMap V) → cmp i k ≡ Ordering.lt → IsAbove k m → IsAbove i m
  IsAbove-trans i k [] h a = tt
  IsAbove-trans i k ((j, v) ∷ m) h a = (cmp_trans i k j h a.0, IsAbove-trans i k m h a.1)

  pub get-IsAbove : (k : Bytes) (m : SortedMap V) → IsAbove k m → get k m ≡ none
  unfolding get
  get-IsAbove k [] a = refl
  get-IsAbove k ((j, v) ∷ m) a = ground (arith, get-IsAbove k m a.1, eqb_iff j k, cmp_irrefl k, a.0)

  insert-IsAbove :
      (i k : Bytes) (v : V) (m : SortedMap V)
      → cmp i k ≡ Ordering.lt
      → IsAbove i m
      → IsAbove i (insert k v m)
  unfolding insert
  insert-IsAbove i k v [] h a = (h, tt)
  insert-IsAbove i k v ((j, w) ∷ m) h a = ground (arith, insert-IsAbove i k v m h a.1)

  pub insert-IsSorted : (k : Bytes) (v : V) (m : SortedMap V) → IsSorted m → IsSorted (insert k v m)
  unfolding insert
  insert-IsSorted k v [] s = (tt, tt)
  insert-IsSorted k v ((j, w) ∷ m) s = ground (
    arith,
    insert-IsSorted k v m s.1,
    IsAbove-trans k j m,
    cmp-eq_iff k j,
    cmp-gt k j,
    insert-IsAbove j k v m,
  )

  retain-IsAbove :
      (i : Bytes) (p : Bytes → Bool) (m : SortedMap V) → IsAbove i m → IsAbove i (retain p m)
  unfolding retain
  retain-IsAbove i p [] a = tt
  retain-IsAbove i p ((j, w) ∷ m) a = ground (arith, retain-IsAbove i p m a.1)

  pub retain-IsSorted : (p : Bytes → Bool) (m : SortedMap V) → IsSorted m → IsSorted (retain p m)
  unfolding retain
  retain-IsSorted p [] s = tt
  retain-IsSorted p ((j, w) ∷ m) s =
      ground (arith, retain-IsSorted p m s.1, retain-IsAbove j p m s.0)

  pub remove-IsSorted : (k : Bytes) (m : SortedMap V) → IsSorted m → IsSorted (remove k m)
  unfolding remove
  remove-IsSorted k m s = retain-IsSorted _ m s

  same_head :
      (k j : Bytes) (v w : V) (m n : SortedMap V)
      → IsSorted ((k, v) ∷ m)
      → IsSorted ((j, w) ∷ n)
      → get k ((k, v) ∷ m) ≡ get k ((j, w) ∷ n)
      → get j ((k, v) ∷ m) ≡ get j ((j, w) ∷ n)
      → (k ≡ j) × (v ≡ w)
  unfolding get
  same_head k j v w m n s t hk hj = ground (
    arith,
    cmp-eq_iff k j,
    cmp-gt k j,
    eqb_iff k j,
    eqb_iff j k,
    eqb_refl k,
    eqb_refl j,
    get-IsAbove k n,
    IsAbove-trans k j n,
    get-IsAbove j m,
    IsAbove-trans j k m,
  )

  same_tail :
      (k : Bytes) (v : V) (m n : SortedMap V)
      → IsAbove k m
      → IsAbove k n
      → (i : Bytes) → get i ((k, v) ∷ m) ≡ get i ((k, v) ∷ n)
      → get i m ≡ get i n
  unfolding get
  same_tail k v m n a b i h = ground (arith, get-IsAbove k m a, get-IsAbove k n b, eqb_iff k i)

  -- Two sorted maps with the same lookups are the same map.
  pub SortedMap_ext :
      (m n : SortedMap V) → IsSorted m → IsSorted n → ((k : Bytes) → get k m ≡ get k n) → m ≡ n
  unfolding get
  SortedMap_ext [] [] s t h = refl
  SortedMap_ext [] ((j, w) ∷ n) s t h = cc (h j, eqb_refl j)
  SortedMap_ext ((k, v) ∷ m) [] s t h = cc (h k, eqb_refl k)
  SortedMap_ext ((k, v) ∷ m) ((j, w) ∷ n) s t h =
      let same : (k ≡ j) × (v ≡ w) = same_head k j v w m n s t (h k) (h j) in
      let above : IsAbove k n = subst (λ i. IsAbove i n) (sym same.0) t.0 in
      let tails : m ≡ n = SortedMap_ext m n s.1 t.1 λ i.
        same_tail k v m n s.0 above i
          (h i ∙ ap₂ (λ x y. get i ((x, y) ∷ n)) (sym same.0) (sym same.1)) in
      cc (same.0, same.1, tails)

  -- Every pair of the map satisfies `P`.
  abbrev pub AllRows {κ} : (Bytes → V → Type κ) → SortedMap V → Type κ
  AllRows P [] = Unit
  AllRows P ((k, v) ∷ m) = P k v × AllRows P m

  pub insert-AllRows {κ} :
      (P : Bytes → V → Type κ) (k : Bytes) (v : V) (m : SortedMap V)
      → P k v
      → AllRows P m
      → AllRows P (insert k v m)
  unfolding insert
  insert-AllRows P k v [] h a = (h, tt)
  insert-AllRows P k v ((j, w) ∷ m) h a =
      elim (cmp k j)
        as (λ o. AllRows P (elim o [
          | Ordering.lt ↦ (k, v) ∷ (j, w) ∷ m
          | Ordering.eq ↦ (k, v) ∷ m
          | Ordering.gt ↦ (j, w) ∷ insert k v m
        ])) [
          | Ordering.lt ↦ (h, a)
          | Ordering.eq ↦ (h, a.1)
          | Ordering.gt ↦ (a.0, insert-AllRows P k v m h a.1)
        ]

  pub get-AllRows {κ} :
      (P : Bytes → V → Type κ) (k : Bytes) (v : V) (m : SortedMap V)
      → AllRows P m
      → get k m ≡ some v
      → P k v
  unfolding get
  get-AllRows P k v [] a e = absurd (none-ne-some v e)
  get-AllRows P k v ((j, w) ∷ m) a e = elim (Bool-cases (eqb j k)) [
    | inl same ↦
        let same_value : w ≡ v = some-injective w v (rw same at e) in
        subst (λ i. P i v) ((eqb_iff j k).0 same) (subst (P j) same_value a.0)
    | inr other ↦ get-AllRows P k v m a.1 (rw other at e)
  ]
