-- ===== src/WebDav/Registry.antt =====
-- The registry of repositories (dsvn-webdav/src/handlers.rs), the routing of a request path to one
-- of them, and the requests that manage it (dsvn-webdav/src/repo_management.rs). A repository is
-- its root and its UUID; how a repository is opened and initialised is a parameter.
pub mod Routing
pub mod Paths
use dsvn.Prelude.{
  ℕ, Bool, true, false, Option, none, some, List, [], ◌∷◌, ◌++◌, if◌then◌else◌, length, ltb, ◌==◌,
}
use dsvn.Bytes.{Bytes, ascii, trim, is_empty, starts_with, strip_prefix}
use dsvn.Text.{split_on}
use dsvn.SortedMap
use dsvn.SortedMap.{SortedMap}

pub record Opened : Type 0 where
  pub root : Bytes
  pub uuid : Bytes

-- `names` leads from the root of a repository to its name.
pub record RepositoryRegistry : Type 0 where
  pub repositories : SortedMap Opened
  pub names : SortedMap Bytes

abbrev pub new_registry : RepositoryRegistry
new_registry = record { repositories = []; names = [] }

unfoldable pub registry_get : RepositoryRegistry → Bytes → Option Opened
registry_get g name = SortedMap.get name g.repositories

-- `none` is the error that the name is taken.
unfoldable pub register : RepositoryRegistry → Bytes → Opened → Option RepositoryRegistry
register g name repo = elim (SortedMap.get name g.repositories) [
  | some there ↦ none
  | none ↦ some (record {
    repositories = SortedMap.insert name repo g.repositories;
    names = SortedMap.insert repo.root name g.names;
  })
]

unfoldable pub get_name_by_path : RepositoryRegistry → Bytes → Option Bytes
get_name_by_path g path = SortedMap.get path g.names

unfoldable pub registry_list : RepositoryRegistry → List Bytes
registry_list g = SortedMap.keys g.repositories

unfoldable pub is_multi_repo : RepositoryRegistry → Bool
is_multi_repo g = ltb 1 (length g.repositories)

only : SortedMap Opened → Option Opened → Option Opened
only [] legacy = legacy
only ((name, repo) ∷ []) legacy = some repo
only (a ∷ b ∷ rest) legacy = legacy

-- `legacy` is what the static SQLITE_REPO holds.
unfoldable pub get_default : RepositoryRegistry → Option Opened → Option Opened
unfolding only
get_default g legacy = only g.repositories legacy

-- `none` is the error that the name is not there.
unfoldable pub unregister : RepositoryRegistry → Bytes → Option RepositoryRegistry
unregister g name = elim (SortedMap.get name g.repositories) [
  | none ↦ none
  | some repo ↦ some (record {
    repositories = SortedMap.remove name g.repositories;
    names = SortedMap.remove repo.root g.names;
  })
]

unfoldable pub not_empty : List Bytes → List Bytes
not_empty [] = []
not_empty (s ∷ ss) = let rest = not_empty ss in if is_empty s then rest else s ∷ rest

-- The segments of a request path below the prefix.
unfoldable pub segments : Bytes → List Bytes
unfolding not_empty
segments path =
    not_empty
      (split_on b'/' (elim (strip_prefix path (ascii "/svn")) [ none ↦ path | some rest ↦ rest ]))

named : RepositoryRegistry → List Bytes → Option Opened
unfolding registry_get
named g [] = none
named g (repo_name ∷ parts) = registry_get g repo_name

-- `none` is the panic where no repository was initialised.
unfoldable pub get_repo_by_path :
    Option RepositoryRegistry → (legacy : Option Opened) → Bytes → Option Opened
unfolding segments named get_default
get_repo_by_path none legacy path = legacy
get_repo_by_path (some g) legacy path = elim (named g (segments path)) [
  | some repo ↦ some repo
  | none ↦ elim (get_default g legacy) [ some repo ↦ some repo | none ↦ legacy ]
]

pub record RepositoryInfo : Type 0 where
  pub name : Bytes
  pub path : Bytes
  pub display_name : Option Bytes
  pub description : Option Bytes
  pub uuid : Bytes

pub record CreateRepoRequest : Type 0 where
  pub name : Bytes
  pub path : Bytes
  pub display_name : Option Bytes
  pub description : Option Bytes

-- The status with the message of a refusal, or what the body shows; `failed` is an internal error.
pub data Answer : Type 0 where
  refused : ℕ → Bytes → Answer
  created : RepositoryInfo → Answer
  deleted : Answer
  listed : List RepositoryInfo → Answer
  failed : Answer

-- `open_and_initialize` gives the repository at a path, or an error.
unfoldable pub handle_create_repo :
    (open_and_initialize : Bytes → Option Opened)
    → CreateRepoRequest
    → RepositoryRegistry
    → Answer × RepositoryRegistry
unfolding registry_get register
handle_create_repo open_and_initialize request g =
    let name = trim request.name in
    if is_empty name
    then (refused 400 (ascii "Repository name cannot be empty"), g)
    else if starts_with request.path (ascii "/")
    then elim (registry_get g name) [
      | some there ↦ (refused 409 (ascii "Repository '" ++ (name ++ ascii "' already exists")), g)
      | none ↦ elim (open_and_initialize request.path) [
        | none ↦ (failed, g)
        | some repo ↦ elim (register g name repo) [
          | none ↦ (failed, g)
          | some g' ↦ (
            created (record {
              name = name;
              path = request.path;
              display_name = request.display_name;
              description = request.description;
              uuid = repo.uuid;
            }),
            g',
          )
        ]
      ]
    ]
    else (refused 400 (ascii "Repository path must be absolute"), g)

unfoldable pub handle_delete_repo : Bytes → RepositoryRegistry → Answer × RepositoryRegistry
unfolding registry_get unregister
handle_delete_repo repo_name g =
    let name = trim repo_name in
    if is_empty name
    then (refused 400 (ascii "Repository name cannot be empty"), g)
    else elim (registry_get g name) [
      | none ↦ (refused 404 (ascii "Repository '" ++ (name ++ ascii "' not found")), g)
      | some there ↦ elim (unregister g name) [ none ↦ (failed, g) | some g' ↦ (deleted, g') ]
    ]

infos : RepositoryRegistry → List Bytes → List RepositoryInfo
unfolding registry_get
infos g [] = []
infos g (name ∷ names) =
    let rest = infos g names in
    elim (registry_get g name) [
      | none ↦ rest
      | some repo ↦
          record {
            name = name;
            path = repo.root;
            display_name = none;
            description = none;
            uuid = repo.uuid;
          }
          ∷ rest
    ]

unfoldable pub handle_list_repos : RepositoryRegistry → Answer
unfolding infos registry_list
handle_list_repos g = listed (infos g (registry_list g))
