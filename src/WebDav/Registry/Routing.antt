-- ===== src/WebDav/Registry/Routing.antt =====
-- Which repository a request path leads to (dsvn-webdav/src/handlers.rs), after the requests that
-- manage the registry (dsvn-webdav/src/repo_management.rs).
use dsvn.Prelude.{
  ℕ, ◌≡◌, refl, sym, ap, ◌∙◌, true, false, Option, none, some, [], ◌∷◌, ◌++◌, Bool-cases, inl, inr,
  if◌then◌else◌, ==_iff,
}
use mathlib.Core.Option.{none-ne-some}
use dsvn.Bytes.{Bytes, ascii, eqb, eqb_iff, eqb_refl, is_empty, strip_prefix, trim, starts_with}
use dsvn.Text.{split_on}
use dsvn.Text.Search.{Free}
use dsvn.SortedMap
use dsvn.SortedMap.{get-insert, get-remove}
use dsvn.WebDav.Registry.{
  Opened, RepositoryRegistry, CreateRepoRequest, Answer, created, register, registry_get, not_empty,
  segments, named, get_repo_by_path, handle_create_repo,
}

split_on-first :
    (c : ℕ) (s rest : Bytes) → Free c s → split_on c (s ++ (c ∷ rest)) ≡ s ∷ split_on c rest
unfolding split_on
split_on-first c [] rest f = rw ((==_iff c c).1 refl) refl
split_on-first c (d ∷ s) rest f = rw f.0 (rw (split_on-first c s rest f.1, split_on) refl)

-- The path of something in a repository of the registry.
abbrev pub repo_path : (name rest : Bytes) → Bytes
repo_path name rest = ascii "/svn/" ++ (name ++ (b'/' ∷ rest))

named-repo_path :
    (g : RepositoryRegistry) (name rest : Bytes)
    → Free b'/' name
    → is_empty name ≡ false
    → named g (segments (repo_path name rest)) ≡ registry_get g name
unfolding named segments not_empty strip_prefix split_on
named-repo_path g name rest f h = rw (split_on-first b'/' name rest f, split_on) (rw h refl)

abbrev added : RepositoryRegistry → Bytes → Opened → RepositoryRegistry
added g name repo = record {
  repositories = SortedMap.insert name repo g.repositories;
  names = SortedMap.insert repo.root name g.names;
}

get-added :
    (g : RepositoryRegistry) (name : Bytes) (repo : Opened) (other : Bytes)
    → registry_get (added g name repo) other
      ≡ (if eqb name other then some repo else registry_get g other)
unfolding registry_get
get-added g name repo other = get-insert other name repo g.repositories

create_lem :
    (open_and_initialize : Bytes → Option Opened) (request : CreateRepoRequest)
    (g : RepositoryRegistry) (repo : Opened)
    → is_empty (trim request.name) ≡ false
    → starts_with request.path (ascii "/") ≡ true
    → registry_get g (trim request.name) ≡ none
    → open_and_initialize request.path ≡ some repo
    → handle_create_repo open_and_initialize request g ≡ (
      created (record {
        name = trim request.name;
        path = request.path;
        display_name = request.display_name;
        description = request.description;
        uuid = repo.uuid;
      }),
      added g (trim request.name) repo,
    )
unfolding handle_create_repo register registry_get
create_lem open_and_initialize request g repo filled absolute free opens = rw filled (
    rw absolute (
      rw (free, handle_create_repo)
        (rw (opens, handle_create_repo) (rw (free, handle_create_repo) refl))))

get_repo_by_path-registered :
    (g : RepositoryRegistry) (legacy : Option Opened) (name rest : Bytes) (repo : Opened)
    → Free b'/' name
    → is_empty name ≡ false
    → registry_get g name ≡ some repo
    → get_repo_by_path (some g) legacy (repo_path name rest) ≡ some repo
unfolding get_repo_by_path
get_repo_by_path-registered g legacy name rest repo f h at =
    rw (named-repo_path g name rest f h ∙ at, get_repo_by_path) refl

-- A request to create a repository under a new name, which is trimmed and not empty, at an absolute
-- path that can be opened, answers with its name, path and UUID. From then on, each path below the
-- name leads to the new repository, and each path below a name that was registered before to the
-- repository that it led to. Names with a slash are left out.
pub get_repo_by_path-handle_create_repo :
    (open_and_initialize : Bytes → Option Opened) (request : CreateRepoRequest)
    (g : RepositoryRegistry) (repo : Opened) (legacy : Option Opened) (rest : Bytes)
    → is_empty (trim request.name) ≡ false
    → Free b'/' (trim request.name)
    → starts_with request.path (ascii "/") ≡ true
    → registry_get g (trim request.name) ≡ none
    → open_and_initialize request.path ≡ some repo
    → ((handle_create_repo open_and_initialize request g).0
        ≡ created (record {
          name = trim request.name;
          path = request.path;
          display_name = request.display_name;
          description = request.description;
          uuid = repo.uuid;
        }))
      × (get_repo_by_path
            (some (handle_create_repo open_and_initialize request g).1)
            legacy
            (repo_path (trim request.name) rest)
          ≡ some repo)
      × ((other : Bytes) (old : Opened)
          → Free b'/' other
          → is_empty other ≡ false
          → registry_get g other ≡ some old
          → get_repo_by_path
              (some (handle_create_repo open_and_initialize request g).1)
              legacy
              (repo_path other rest)
            ≡ some old)
get_repo_by_path-handle_create_repo open_and_initialize request g repo legacy rest filled f absolute
      free opens =
    let outcome = create_lem open_and_initialize request g repo filled absolute free opens in
    let name = trim request.name in
    let g' = added g name repo in
    (
      ap (λ (p : Answer × RepositoryRegistry). p.0) outcome,
      ap
            (λ (p : Answer × RepositoryRegistry).
              get_repo_by_path (some p.1) legacy (repo_path name rest))
            outcome
          ∙ get_repo_by_path-registered g' legacy name rest repo f filled
              (get-added g name repo name ∙ rw (eqb_refl name) refl),
      λ other old f' filled' at.
          ap
            (λ (p : Answer × RepositoryRegistry).
              get_repo_by_path (some p.1) legacy (repo_path other rest))
            outcome
          ∙ get_repo_by_path-registered g' legacy other rest old f' filled'
              (get-added g name repo other ∙ rw (differ other old free at) at),
    )
  where
    differ :
        (other : Bytes) (old : Opened)
        → registry_get g (trim request.name) ≡ none
        → registry_get g other ≡ some old
        → eqb (trim request.name) other ≡ false
    differ other old free at = elim (Bool-cases (eqb (trim request.name) other)) [
      | inr ne ↦ ne
      | inl e ↦ absurd (
          none-ne-some old
            (sym free ∙ ap (registry_get g) ((eqb_iff (trim request.name) other).0 e) ∙ at))
    ]
