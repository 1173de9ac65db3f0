-- ===== src/Examples/Registries.antt =====
-- The theorems about the registry of repositories and about properties at concrete inputs.
use dsvn.Prelude.{
  ◌≡◌, refl, sym, ap, ◌∙◌, Option, none, some, [], false, true, Bool-cases, inl, inr,
}
use mathlib.Core.Option.{none-ne-some}
use dsvn.Bytes.{Bytes, ascii, eqb, eqb_iff, is_empty, trim, starts_with}
use dsvn.SortedMap
use dsvn.SortedMap.{SortedMap, get-insert}
use dsvn.Object.{Codec}
use dsvn.Text.Search.{Free}
use dsvn.Properties.{
  PropertySet, SqlitePropertyStore, new_set, set_set, read_file, sqlite_new, sqlite_get, sqlite_set,
  sqlite_remove,
}
use dsvn.Properties.Restart.{IsLossless, IsApart, IsSynced, restart-IsSynced, sqlite_set_cold}
use dsvn.WebDav.Registry.{Opened, CreateRepoRequest, new_registry, registry_get}
use dsvn.Examples.Formats.{pair, list, codec_of, codec_of_lem}
use dsvn.Examples.Settings.{bytes, digest}

abbrev docs : Bytes
docs = ascii "docs"

abbrev docs_repo : Opened
docs_repo = record { root = ascii "/srv/docs"; uuid = ascii "u1" }

abbrev again : Opened
again = record { root = ascii "/srv/docs"; uuid = ascii "u2" }

nothing {ℓ} : {V : Type ℓ} (k : Bytes) → SortedMap.get {V = V} k [] ≡ none
unfolding SortedMap.get
nothing k = refl

abbrev request : CreateRepoRequest
request = record {
  name = ascii " docs";
  path = ascii "/srv/docs";
  display_name = none;
  description = none;
}

abbrev open_docs : Bytes → Option Opened
open_docs path = some docs_repo

docs-IsFilled : is_empty (trim request.name) ≡ false
unfolding trim
docs-IsFilled = refl

docs-Free : Free b'/' (trim request.name)
unfolding trim
docs-Free = (refl, (refl, (refl, (refl, tt))))

docs_absent : registry_get new_registry (trim request.name) ≡ none
unfolding registry_get
docs_absent = nothing (trim request.name)

absolute : starts_with request.path (ascii "/") ≡ true
unfolding starts_with
absolute = refl

abbrev file : Bytes
file = ascii "/a.txt"

abbrev pub from_rows : SortedMap Bytes → PropertySet
from_rows rows = record { properties = rows }

abbrev pub json : Codec PropertySet
json = codec_of (list (pair bytes bytes)) (λ ps. ps.properties) from_rows

json-IsLossless : IsLossless json
json-IsLossless = record {
  json_lem = λ ps. codec_of_lem (list (pair bytes bytes)) (λ ps. ps.properties) from_rows ps;
}

-- A server that has just been started on a directory with one property.
abbrev started : SqlitePropertyStore
started =
    sqlite_new json digest
      (sqlite_set json digest (sqlite_new json digest (λ d. none)) file (ascii "size")
        (ascii "big")).files

started-IsSynced : IsSynced json digest started
started-IsSynced path ps h = absurd (none-ne-some ps (sym (nothing path) ∙ h))

nothing-IsApart : (path : Bytes) → IsApart digest started path
nothing-IsApart path path' ps' h = absurd (none-ne-some ps' (sym (nothing path') ∙ h))

abbrev other : Bytes
other = ascii "/b.txt"

-- Another path has been written since the start.
abbrev busy : SqlitePropertyStore
busy = sqlite_set json digest started other (ascii "size") (ascii "small")

busy-IsSynced : IsSynced json digest busy
busy-IsSynced =
    (restart-IsSynced digest json-IsLossless started other (ascii "size") (ascii "small")
      (nothing-IsApart other) started-IsSynced).0

digests_differ : eqb (digest file) (digest other) ≡ false
unfolding eqb
digests_differ = refl

-- A path in the cache is the one that was written.
busy_at : (path : Bytes) (ps : PropertySet) → SortedMap.get path busy.cache ≡ some ps → other ≡ path
unfolding sqlite_set
busy_at path ps h =
    let h' = sym (get-insert path other _ started.cache) ∙ h in
    elim (Bool-cases (eqb other path)) [
      | inl e ↦ (eqb_iff other path).0 e
      | inr ne ↦ absurd (none-ne-some ps (sym (nothing path) ∙ rw ne at h'))
    ]

busy-IsApart : IsApart digest busy file
busy-IsApart path ps h same =
    let e = (eqb_iff (digest file) (digest other)).1 (same ∙ ap digest (sym (busy_at path ps h))) in
    let differ = digests_differ in cc

restart-IsSynced_example :
    IsSynced json digest (sqlite_set json digest busy file (ascii "color") (ascii "red"))
    × IsSynced json digest (sqlite_remove json digest busy file (ascii "color")).1
    × IsSynced json digest (sqlite_get json digest busy file).1
    × ((sqlite_get json digest (sqlite_new json digest busy.files) file).0
        ≡ (sqlite_get json digest busy file).0)
restart-IsSynced_example =
    restart-IsSynced digest json-IsLossless busy file (ascii "color") (ascii "red") busy-IsApart
      busy-IsSynced

sqlite_set_cold_example :
    ((sqlite_get json digest
        (sqlite_set json digest started file (ascii "color") (ascii "red"))
        file).0
      ≡ set_set new_set (ascii "color") (ascii "red"))
    × (read_file json digest
          (sqlite_set json digest started file (ascii "color") (ascii "red")).files
          file
        ≡ some (set_set new_set (ascii "color") (ascii "red")))
    × (sqlite_remove json digest started file (ascii "color") ≡ (none, started))
sqlite_set_cold_example =
    sqlite_set_cold digest json-IsLossless started file (ascii "color") (ascii "red") (nothing file)
