-- ===== src/Properties.antt =====
-- Versioned properties: `PropertySet` and `PropertyStore` (dsvn-core/src/properties.rs), and the
-- store with a file for each path, `SqlitePropertyStore` (dsvn-core/src/sqlite_repository.rs),
-- whose methods have the prefix sqlite. The name of a path's file is the SHA-256 of the path, and
-- the files are indexed by that digest; the order of a hash map's keys is not modelled.
pub mod Stores
pub mod Restart
use dsvn.Prelude.{Bool, true, false, Option, none, some, List, [], if◌then◌else◌}
use dsvn.Bytes.{Bytes, ascii, eqb, starts_with}
use dsvn.SortedMap
use dsvn.SortedMap.{SortedMap}
use dsvn.Object.{Codec}

pub record PropertySet : Type 0 where
  pub properties : SortedMap Bytes

abbrev pub new_set : PropertySet
new_set = record { properties = [] }

unfoldable pub set_get : PropertySet → Bytes → Option Bytes
set_get s name = SortedMap.get name s.properties

unfoldable pub set_set : PropertySet → (name value : Bytes) → PropertySet
set_set s name value = record { properties = SortedMap.insert name value s.properties }

unfoldable pub set_remove : PropertySet → Bytes → Option Bytes × PropertySet
set_remove s name =
    (SortedMap.get name s.properties, record { properties = SortedMap.remove name s.properties })

unfoldable pub set_list : PropertySet → List Bytes
set_list s = SortedMap.keys s.properties

unfoldable pub set_contains : PropertySet → Bytes → Bool
set_contains s name = elim (SortedMap.get name s.properties) [ none ↦ false | some v ↦ true ]

-- `unwrap_or_default`, and `or_insert_with(PropertySet::new)`.
abbrev pub or_new : Option PropertySet → PropertySet
or_new none = new_set
or_new (some s) = s

pub record PropertyStore : Type 0 where
  pub properties : SortedMap PropertySet

abbrev pub new_store : PropertyStore
new_store = record { properties = [] }

unfoldable pub store_get : PropertyStore → Bytes → PropertySet
store_get s path = or_new (SortedMap.get path s.properties)

unfoldable pub store_set : PropertyStore → (path name value : Bytes) → PropertyStore
unfolding set_set
store_set s path name value = record {
  properties =
      SortedMap.insert path (set_set (or_new (SortedMap.get path s.properties)) name value)
        s.properties;
}

unfoldable pub store_remove : PropertyStore → (path name : Bytes) → Option Bytes × PropertyStore
unfolding set_remove
store_remove s path name = elim (SortedMap.get path s.properties) [
  | none ↦ (none, s)
  | some ps ↦
      let (removed, ps') = set_remove ps name in
      (removed, record { properties = SortedMap.insert path ps' s.properties })
]

unfoldable pub store_list : PropertyStore → Bytes → List Bytes
unfolding set_list
store_list s path = elim (SortedMap.get path s.properties) [ none ↦ [] | some ps ↦ set_list ps ]

unfoldable pub store_contains : PropertyStore → (path name : Bytes) → Bool
unfolding set_contains
store_contains s path name = elim (SortedMap.get path s.properties) [
  | none ↦ false
  | some ps ↦ set_contains ps name
]

unfoldable pub is_svn_property : Bytes → Bool
is_svn_property name = starts_with name (ascii "svn:")

-- The files by the digest of the path, and the property sets that were read or written since the
-- store was opened.
pub record SqlitePropertyStore : Type 0 where
  pub files : Bytes → Option Bytes
  pub cache : SortedMap PropertySet

module _ (json : Codec PropertySet) (sha256 : Bytes → Bytes) where
  -- What `SqlitePropertyStore::new` finds in a directory.
  abbrev pub sqlite_new : (Bytes → Option Bytes) → SqlitePropertyStore
  sqlite_new files = record { files = files; cache = [] }

  unfoldable pub write_file : (Bytes → Option Bytes) → Bytes → PropertySet → Bytes → Option Bytes
  write_file files path ps digest =
      if eqb (sha256 path) digest then some (json.serialize ps) else files digest

  unfoldable pub read_file : (Bytes → Option Bytes) → Bytes → Option PropertySet
  read_file files path = elim (files (sha256 path)) [
    | none ↦ none
    | some text ↦ json.deserialize text
  ]

  unfoldable pub sqlite_get : SqlitePropertyStore → Bytes → PropertySet × SqlitePropertyStore
  unfolding read_file
  sqlite_get s path = elim (SortedMap.get path s.cache) [
    | some ps ↦ (ps, s)
    | none ↦ elim (read_file s.files path) [
      | some ps ↦ (ps, record s { cache = SortedMap.insert path ps s.cache })
      | none ↦ (new_set, s)
    ]
  ]

  -- A path that is not in the cache starts from an empty set; its file is not read.
  unfoldable pub sqlite_set : SqlitePropertyStore → (path name value : Bytes) → SqlitePropertyStore
  unfolding set_set write_file
  sqlite_set s path name value =
      let ps = set_set (or_new (SortedMap.get path s.cache)) name value in
      record { files = write_file s.files path ps; cache = SortedMap.insert path ps s.cache }

  unfoldable pub sqlite_remove :
      SqlitePropertyStore → (path name : Bytes) → Option Bytes × SqlitePropertyStore
  unfolding set_remove write_file
  sqlite_remove s path name = elim (SortedMap.get path s.cache) [
    | none ↦ (none, s)
    | some ps ↦
        let (removed, ps') = set_remove ps name in
        (
          removed,
          record { files = write_file s.files path ps'; cache = SortedMap.insert path ps' s.cache },
        )
  ]

  unfoldable pub sqlite_list : SqlitePropertyStore → Bytes → List Bytes × SqlitePropertyStore
  unfolding sqlite_get set_list
  sqlite_list s path = let (ps, s') = sqlite_get s path in (set_list ps, s')

  unfoldable pub sqlite_contains :
      SqlitePropertyStore → (path name : Bytes) → Bool × SqlitePropertyStore
  unfolding sqlite_get set_contains
  sqlite_contains s path name = let (ps, s') = sqlite_get s path in (set_contains ps name, s')
