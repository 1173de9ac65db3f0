-- ===== src/SortedMap.antt =====
-- Maps from byte strings in ascending key order: Rust's `BTreeMap<String, V>`, and the SQLite
-- tables `... PRIMARY KEY ... WITHOUT ROWID` read with `ORDER BY path`. A `HashMap` is modelled by
-- the same type where the program never depends on its order.
pub mod Order
use Prim.Native.Nat.{Ordering}
use dsvn.Prelude.{
  ℕ, zero, suc, ◌≡◌, refl, Bool, true, false, not, Option, none, some, List, [], ◌∷◌, arith,
  if◌then◌else◌,
}
use dsvn.Bytes.{Bytes, eqb, cmp, eqb_iff, cmp-eq_iff}

abbrev pub SortedMap {ℓ} : Type ℓ → Type ℓ
SortedMap V = List (Bytes × V)

module _ {ℓ} {V : Type ℓ} where
  unfoldable pub get : Bytes → SortedMap V → Option V
  get k [] = none
  get k ((j, v) ∷ m) = if eqb j k then some v else get k m

  -- `insert`: a new key goes to its place, an old one gets the new value.
  unfoldable pub insert : Bytes → V → SortedMap V → SortedMap V
  insert k v [] = (k, v) ∷ []
  insert k v ((j, w) ∷ m) = elim (cmp k j) [
    | Ordering.lt ↦ (k, v) ∷ (j, w) ∷ m
    | Ordering.eq ↦ (k, v) ∷ m
    | Ordering.gt ↦ (j, w) ∷ insert k v m
  ]

  -- `retain(|k, _| p(k))`
  unfoldable pub retain : (Bytes → Bool) → SortedMap V → SortedMap V
  retain p [] = []
  retain p ((j, v) ∷ m) = let rest = retain p m in if p j then (j, v) ∷ rest else rest

  unfoldable pub remove : Bytes → SortedMap V → SortedMap V
  unfolding retain
  remove k m = retain (λ j. not (eqb j k)) m

  unfoldable pub keys : SortedMap V → List Bytes
  keys [] = []
  keys ((k, v) ∷ m) = k ∷ keys m

  pub get-insert :
      (j k : Bytes) (v : V) (m : SortedMap V)
      → get j (insert k v m) ≡ (if eqb k j then some v else get j m)
  unfolding get insert
  get-insert j k v [] = refl
  get-insert j k v ((i, w) ∷ m) =
      ground (arith, eqb_iff k j, eqb_iff i j, cmp-eq_iff k i, get-insert j k v m)

  pub get-retain :
      (j : Bytes) (p : Bytes → Bool) (m : SortedMap V)
      → get j (retain p m) ≡ (if p j then get j m else none)
  unfolding get retain
  get-retain j p [] = ground arith
  get-retain j p ((i, w) ∷ m) = ground (arith, eqb_iff i j, get-retain j p m)

  pub get-remove :
      (j k : Bytes) (m : SortedMap V) → get j (remove k m) ≡ (if eqb k j then none else get j m)
  unfolding remove
  get-remove j k m = ground (arith, get-retain j (λ i. not (eqb i k)) m, eqb_iff j k, eqb_iff k j)
