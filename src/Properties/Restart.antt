-- ===== src/Properties/Restart.antt =====
-- What a restart of the server, which empties the cache of `SqlitePropertyStore`
-- (dsvn-core/src/sqlite_repository.rs), keeps of the properties, and what an operation on a path
-- that is not in the cache then does.
use dsvn.Prelude.{
  ◌≡◌, refl, sym, ap, ◌∙◌, Option, none, some, false, Option-cases, inl, inr, Bool-cases, [],
}
use dsvn.Bytes.{Bytes, eqb, eqb_iff, eqb_refl}
use dsvn.SortedMap
use dsvn.SortedMap.{get-insert, get-remove}
use dsvn.Object.{Codec}
use dsvn.Properties.{
  PropertySet, SqlitePropertyStore, new_set, or_new, set_set, set_get, set_remove, write_file,
  read_file, sqlite_new, sqlite_get, sqlite_set, sqlite_remove,
}

-- JSON loses nothing of a set.
pub record IsLossless (json : Codec PropertySet) : Type 0 where
  pub json_lem : (ps : PropertySet) → json.deserialize (json.serialize ps) ≡ some ps

-- No other cached path has the digest of `path`.
abbrev pub IsApart : (Bytes → Bytes) → SqlitePropertyStore → Bytes → Type 0
IsApart sha256 s path =
    (path' : Bytes) (ps' : PropertySet)
    → SortedMap.get path' s.cache ≡ some ps'
    → sha256 path ≡ sha256 path'
    → path ≡ path'

-- Each cached set is what the file of its path holds.
abbrev pub IsSynced : Codec PropertySet → (Bytes → Bytes) → SqlitePropertyStore → Type 0
IsSynced json sha256 s =
    (path : Bytes) (ps : PropertySet)
    → SortedMap.get path s.cache ≡ some ps
    → read_file json sha256 s.files path ≡ some ps

get_warm :
    (json : Codec PropertySet) (sha256 : Bytes → Bytes) (s : SqlitePropertyStore) (path : Bytes)
    (ps : PropertySet)
    → SortedMap.get path s.cache ≡ some ps
    → sqlite_get json sha256 s path ≡ (ps, s)
unfolding sqlite_get
get_warm json sha256 s path ps h = rw (h, sqlite_get) refl

get_cold :
    (json : Codec PropertySet) (sha256 : Bytes → Bytes) (s : SqlitePropertyStore) (path : Bytes)
    → SortedMap.get path s.cache ≡ none
    → (sqlite_get json sha256 s path).0 ≡ or_new (read_file json sha256 s.files path)
unfolding sqlite_get
get_cold json sha256 s path h =
    rw (h, sqlite_get)
      (elim (Option-cases (read_file json sha256 s.files path)) [
        | inl gone ↦ rw (gone, sqlite_get) refl
        | inr (ps, e) ↦ rw (e, sqlite_get) refl
      ])

empty_cold : (path : Bytes) → SortedMap.get {V = PropertySet} path [] ≡ none
unfolding SortedMap.get
empty_cold path = refl

-- The set that `set` leaves in the cache.
set_warm :
    (json : Codec PropertySet) (sha256 : Bytes → Bytes) (s : SqlitePropertyStore)
    (path name value : Bytes)
    → SortedMap.get path (sqlite_set json sha256 s path name value).cache
      ≡ some (set_set (or_new (SortedMap.get path s.cache)) name value)
unfolding sqlite_set
set_warm json sha256 s path name value =
    get-insert path path (set_set (or_new (SortedMap.get path s.cache)) name value) s.cache
    ∙ rw (eqb_refl path) refl

-- A file of another digest is left.
read_file-write_file_ne :
    (json : Codec PropertySet) (sha256 : Bytes → Bytes) (files : Bytes → Option Bytes)
    (path path' : Bytes) (ps : PropertySet)
    → eqb (sha256 path) (sha256 path') ≡ false
    → read_file json sha256 (write_file json sha256 files path ps) path'
      ≡ read_file json sha256 files path'
unfolding read_file write_file
read_file-write_file_ne json sha256 files path path' ps ne = rw (ne, read_file) refl

digests_differ :
    (sha256 : Bytes → Bytes) (path path' : Bytes)
    → (sha256 path ≡ sha256 path' → path ≡ path')
    → eqb path path' ≡ false
    → eqb (sha256 path) (sha256 path') ≡ false
digests_differ sha256 path path' apart ne = elim (Bool-cases (eqb (sha256 path) (sha256 path'))) [
  | inl e ↦
      let same = (eqb_iff path path').1 (apart ((eqb_iff (sha256 path) (sha256 path')).0 e)) in cc
  | inr ne' ↦ ne'
]

stored : (ps : PropertySet) (name value : Bytes) → set_get (set_set ps name value) name ≡ some value
unfolding set_get set_set
stored ps name value = get-insert name name value ps.properties ∙ rw (eqb_refl name) refl

module _ {json : Codec PropertySet} (sha256 : Bytes → Bytes) (lossless : IsLossless json) where
  read_file-write_file :
      (files : Bytes → Option Bytes) (path : Bytes) (ps : PropertySet)
      → read_file json sha256 (write_file json sha256 files path ps) path ≡ some ps
  unfolding read_file write_file
  read_file-write_file files path ps = rw (eqb_refl (sha256 path), read_file) (lossless.json_lem ps)

  write-IsSynced :
      (s : SqlitePropertyStore) (path : Bytes) (ps : PropertySet)
      → IsApart sha256 s path
      → IsSynced json sha256 s
      → IsSynced json sha256 (record {
        files = write_file json sha256 s.files path ps;
        cache = SortedMap.insert path ps s.cache;
      })
  write-IsSynced s path ps apart v path' ps' h =
      let h' = sym (get-insert path' path ps s.cache) ∙ h in
      elim (Bool-cases (eqb path path')) [
        | inl e ↦
            rw (sym ((eqb_iff path path').0 e)) (read_file-write_file s.files path ps ∙ rw e at h')
        | inr ne ↦
            let cached : SortedMap.get path' s.cache ≡ some ps' = rw ne at h' in
            read_file-write_file_ne json sha256 s.files path path' ps
              (digests_differ sha256 path path' (apart path' ps' cached) ne)
            ∙ v path' ps' cached
      ]

  get-IsSynced :
      (s : SqlitePropertyStore) (path : Bytes)
      → IsSynced json sha256 s
      → IsSynced json sha256 (sqlite_get json sha256 s path).1
  unfolding sqlite_get
  get-IsSynced s path v = elim (Option-cases (SortedMap.get path s.cache)) [
    | inr (ps, e) ↦ rw (e, sqlite_get) v
    | inl gone ↦
        rw (gone, sqlite_get)
          (elim (Option-cases (read_file json sha256 s.files path)) [
            | inl unread ↦ rw (unread, sqlite_get) v
            | inr (ps, e) ↦
                rw (e, sqlite_get)
                  (λ path' ps' h.
                    let h' = sym (get-insert path' path ps s.cache) ∙ h in
                    elim (Bool-cases (eqb path path')) [
                      | inl same ↦ rw (sym ((eqb_iff path path').0 same)) (e ∙ rw same at h')
                      | inr ne ↦ v path' ps' (rw ne at h')
                    ])
          ])
  ]

  -- If serializing a set to JSON loses nothing of it, and no other cached path has the digest of
  -- the path at hand, then setting, removing and reading a property of this path keep each cached
  -- set equal to what the file of its path holds; and a restart, which empties the cache, does not
  -- change the set that `get` returns for the path.
  pub restart-IsSynced :
      (s : SqlitePropertyStore) (path name value : Bytes)
      → IsApart sha256 s path
      → IsSynced json sha256 s
      → IsSynced json sha256 (sqlite_set json sha256 s path name value)
        × IsSynced json sha256 (sqlite_remove json sha256 s path name).1
        × IsSynced json sha256 (sqlite_get json sha256 s path).1
        × ((sqlite_get json sha256 (sqlite_new json sha256 s.files) path).0
            ≡ (sqlite_get json sha256 s path).0)
  unfolding sqlite_set sqlite_remove
  restart-IsSynced s path name value apart v = (
    write-IsSynced s path (set_set (or_new (SortedMap.get path s.cache)) name value) apart v,
    elim (Option-cases (SortedMap.get path s.cache)) [
      | inl gone ↦ rw (gone, sqlite_remove) v
      | inr (ps, e) ↦ rw (e, sqlite_remove) (write-IsSynced s path (set_remove ps name).1 apart v)
    ],
    get-IsSynced s path v,
    elim (Option-cases (SortedMap.get path s.cache)) [
      | inl gone ↦
          get_cold json sha256 (sqlite_new json sha256 s.files) path (empty_cold path)
          ∙ sym (get_cold json sha256 s path gone)
      | inr (ps, e) ↦
          get_cold json sha256 (sqlite_new json sha256 s.files) path (empty_cold path)
          ∙ ap or_new (v path ps e)
          ∙ ap (λ (p : PropertySet × SqlitePropertyStore). p.0)
              (sym (get_warm json sha256 s path ps e))
    ],
  )

  kept :
      (s : SqlitePropertyStore) (path name value : Bytes)
      → read_file json sha256 (sqlite_set json sha256 s path name value).files path
        ≡ some (set_set (or_new (SortedMap.get path s.cache)) name value)
  unfolding sqlite_set
  kept s path name value =
      read_file-write_file s.files path (set_set (or_new (SortedMap.get path s.cache)) name value)

  -- If serializing a set to JSON loses nothing of it, the value that `set` stores is read back, before and after a restart.
  pub sqlite_get-sqlite_set :
      (s : SqlitePropertyStore) (path name value : Bytes)
      → (set_get (sqlite_get json sha256 (sqlite_set json sha256 s path name value) path).0 name
          ≡ some value)
        × (set_get
              (sqlite_get json sha256
                (sqlite_new json sha256 (sqlite_set json sha256 s path name value).files)
                path).0
              name
            ≡ some value)
  unfolding set_get
  sqlite_get-sqlite_set s path name value = (
    ap (λ (p : PropertySet × SqlitePropertyStore). set_get p.0 name)
          (get_warm json sha256 (sqlite_set json sha256 s path name value) path _
            (set_warm json sha256 s path name value))
        ∙ stored (or_new (SortedMap.get path s.cache)) name value,
    ap (λ (ps : PropertySet). set_get ps name)
          (get_cold json sha256
              (sqlite_new json sha256 (sqlite_set json sha256 s path name value).files) path
              (empty_cold path)
            ∙ ap or_new (kept s path name value))
        ∙ stored (or_new (SortedMap.get path s.cache)) name value,
  )

  -- If serializing a set to JSON loses nothing of it, then for a path that is not in the cache, as
  -- every path after a restart, `set` leaves the path with the one property that it sets, in the
  -- cache and in the file, whatever the file held before, and `remove` finds nothing and changes
  -- neither the cache nor the files.
  pub sqlite_set_cold :
      (s : SqlitePropertyStore) (path name value : Bytes)
      → SortedMap.get path s.cache ≡ none
      → ((sqlite_get json sha256 (sqlite_set json sha256 s path name value) path).0
          ≡ set_set new_set name value)
        × (read_file json sha256 (sqlite_set json sha256 s path name value).files path
            ≡ some (set_set new_set name value))
        × (sqlite_remove json sha256 s path name ≡ (none, s))
  unfolding sqlite_remove
  sqlite_set_cold s path name value cold = (
    ap (λ (p : PropertySet × SqlitePropertyStore). p.0)
          (get_warm json sha256 (sqlite_set json sha256 s path name value) path _
            (set_warm json sha256 s path name value))
        ∙ ap (λ (o : Option PropertySet). set_set (or_new o) name value) cold,
    kept s path name value
        ∙ ap (λ (o : Option PropertySet). some (set_set (or_new o) name value)) cold,
    rw (cold, sqlite_remove) refl,
  )
