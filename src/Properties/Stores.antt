-- ===== src/Properties/Stores.antt =====
-- What `get` returns after the other operations of `PropertyStore` (dsvn-core/src/properties.rs).
use dsvn.Prelude.{
  ◌≡◌, refl, sym, ◌∙◌, Option, none, some, if◌then◌else◌, Option-cases, inl, inr, Bool-cases, [],
}
use dsvn.Bytes.{Bytes, eqb, eqb_iff}
use dsvn.SortedMap
use dsvn.SortedMap.{get-insert, get-remove}
use dsvn.Properties.{
  PropertyStore, or_new, set_get, set_set, set_remove, store_get, store_set, store_remove,
}

-- The value of a property of a path.
abbrev pub value_of : PropertyStore → (path name : Bytes) → Option Bytes
value_of s path name = set_get (store_get s path) name

-- A table of values of which one is replaced.
abbrev pub updated :
    (path name : Bytes)
    → Option Bytes
    → (Bytes → Bytes → Option Bytes)
    → (path' name' : Bytes) → Option Bytes
updated path name v f path' name' =
    if eqb path path' then (if eqb name name' then v else f path' name') else f path' name'

get_nil : (name : Bytes) → SortedMap.get {V = Bytes} name [] ≡ none
unfolding SortedMap.get
get_nil name = refl

removed_lem :
    (s : PropertyStore) (path name : Bytes) → (store_remove s path name).0 ≡ value_of s path name
unfolding store_remove store_get set_get
removed_lem s path name = elim (Option-cases (SortedMap.get path s.properties)) [
  | inl gone ↦ rw (gone, store_remove) (sym (get_nil name))
  | inr (ps, e) ↦ rw (e, store_remove) refl
]

value_of-set :
    (s : PropertyStore) (path name value path' name' : Bytes)
    → value_of (store_set s path name value) path' name'
      ≡ updated path name (some value) (value_of s) path' name'
unfolding store_set store_get set_get
value_of-set s path name value path' name' = elim (Bool-cases (eqb path path')) [
  | inl e ↦
      rw
        (get-insert path' path (set_set (or_new (SortedMap.get path s.properties)) name value)
          s.properties)
        (rw e (
          get-insert name' name value (or_new (SortedMap.get path s.properties)).properties
          ∙ rw ((eqb_iff path path').0 e) refl))
  | inr ne ↦
      rw
        (get-insert path' path (set_set (or_new (SortedMap.get path s.properties)) name value)
          s.properties)
        (rw ne refl)
]

value_of-remove :
    (s : PropertyStore) (path name path' name' : Bytes)
    → value_of (store_remove s path name).1 path' name'
      ≡ updated path name none (value_of s) path' name'
unfolding store_remove store_get set_get
value_of-remove s path name path' name' = elim (Option-cases (SortedMap.get path s.properties)) [
  | inl gone ↦
      rw (gone, store_remove)
        (elim (Bool-cases (eqb path path')) [
          | inl e ↦
              let at : SortedMap.get path' s.properties ≡ none =
                rw (sym ((eqb_iff path path').0 e)) gone in
              rw e (
                rw at (elim (Bool-cases (eqb name name')) [
                  | inl n ↦ rw n (get_nil name')
                  | inr n ↦ rw n refl
                ]))
          | inr ne ↦ rw ne refl
        ])
  | inr (ps, e) ↦
      rw (e, store_remove)
        (elim (Bool-cases (eqb path path')) [
          | inl same ↦
              let at : SortedMap.get path' s.properties ≡ some ps =
                rw (sym ((eqb_iff path path').0 same)) e in
              rw (get-insert path' path (set_remove ps name).1 s.properties)
                (rw same (rw at (get-remove name' name ps.properties)))
          | inr ne ↦ rw (get-insert path' path (set_remove ps name).1 s.properties) (rw ne refl)
        ])
]

-- `PropertyStore` implements a table of values by path and name: `set` replaces the one value that
-- it names, `remove` erases it and returns what it was, and every other value stays.
pub store_set-store_remove :
    (s : PropertyStore) (path name value path' name' : Bytes)
    → (value_of (store_set s path name value) path' name'
        ≡ updated path name (some value) (value_of s) path' name')
      × (value_of (store_remove s path name).1 path' name'
          ≡ updated path name none (value_of s) path' name')
      × ((store_remove s path name).0 ≡ value_of s path name)
store_set-store_remove s path name value path' name' = (
  value_of-set s path name value path' name',
  value_of-remove s path name path' name',
  removed_lem s path name,
)
