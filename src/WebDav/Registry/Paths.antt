-- ===== src/WebDav/Registry/Paths.antt =====
-- The two maps of the registry (dsvn-webdav/src/handlers.rs) against each other.
use dsvn.Prelude.{
  ◌≡◌, ◌≢◌, refl, sym, ap, ◌∙◌, true, false, Option, none, some, Option-cases, Bool-cases, inl, inr,
  ◌>>=◌,
}
use mathlib.Core.Option.{none-ne-some}
use dsvn.Bytes.{Bytes, eqb, eqb_iff, eqb_refl}
use dsvn.SortedMap
use dsvn.SortedMap.{get-insert, get-remove}
use dsvn.WebDav.Registry.{
  Opened, RepositoryRegistry, register, unregister, registry_get, get_name_by_path,
}

-- The name that a path leads to is that of a repository with this root.
abbrev pub IsConsistent : RepositoryRegistry → Type 0
IsConsistent g =
    (path name : Bytes)
    → SortedMap.get path g.names ≡ some name
    → (repo : Opened) × (SortedMap.get name g.repositories ≡ some repo) × (repo.root ≡ path)

abbrev pub IsConsistent? : Option RepositoryRegistry → Type 0
IsConsistent? none = Unit
IsConsistent? (some g) = IsConsistent g

register-IsConsistent :
    (g : RepositoryRegistry) (name : Bytes) (repo : Opened)
    → IsConsistent g
    → IsConsistent? (register g name repo)
unfolding register
register-IsConsistent g name repo v = elim (Option-cases (SortedMap.get name g.repositories)) [
  | inr (there, e) ↦ rw (e, register) tt
  | inl free ↦
      rw (free, register)
        (λ path other h.
          let h' = sym (get-insert path repo.root name g.names) ∙ h in
          elim (Bool-cases (eqb repo.root path)) [
            | inl e ↦
                let same : name ≡ other = cc (rw e at h') in
                (
                  repo,
                  get-insert other name repo g.repositories ∙ rw ((eqb_iff name other).1 same) refl,
                  (eqb_iff repo.root path).0 e,
                )
            | inr ne ↦
                let (old, at, root) = v path other (rw ne at h') in
                (
                  old,
                  get-insert other name repo g.repositories ∙ (elim (Bool-cases (eqb name other)) [
                    | inl e ↦
                        absurd (none-ne-some old (sym free ∙ rw ((eqb_iff name other).0 e) at))
                    | inr ne' ↦ rw ne' at
                  ]),
                  root,
                )
          ])
]

some_injective : {a b : Opened} → some a ≡ some b → a ≡ b
some_injective h = cc

clash :
    (repo old : Opened) (path : Bytes)
    → (repo.root ≡ path → eqb repo.root path ≡ true)
    → eqb repo.root path ≡ false
    → old.root ≡ path
    → repo ≡ old
    → ⊥
clash repo old path differ ne root same =
    let t = differ (ap (λ (o : Opened). o.root) same ∙ root) in cc

unregister-IsConsistent :
    (g : RepositoryRegistry) (name : Bytes) → IsConsistent g → IsConsistent? (unregister g name)
unfolding unregister
unregister-IsConsistent g name v = elim (Option-cases (SortedMap.get name g.repositories)) [
  | inl absent ↦ rw (absent, unregister) tt
  | inr (repo, e) ↦
      rw (e, unregister)
        (λ path other h.
          let h' = sym (get-remove path repo.root g.names) ∙ h in
          elim (Bool-cases (eqb repo.root path)) [
            | inl same ↦ absurd (none-ne-some other (rw same at h'))
            | inr ne ↦
                let (old, at, root) = v path other (rw ne at h') in
                (
                  old,
                  get-remove other name g.repositories ∙ (elim (Bool-cases (eqb name other)) [
                    | inl e' ↦ absurd (
                        clash repo old path (eqb_iff repo.root path).1 ne root (
                          some_injective (
                            sym e
                            ∙ ap (λ (k : Bytes). SortedMap.get k g.repositories)
                                ((eqb_iff name other).0 e')
                            ∙ at)))
                    | inr ne' ↦ rw ne' at
                  ]),
                  root,
                )
          ])
]

-- Registering and unregistering keep the map from paths to names consistent with the repositories:
-- a path leads to the name of a repository that is registered and has this root.
pub register-unregister-IsConsistent :
    (g : RepositoryRegistry) (name : Bytes) (repo : Opened)
    → IsConsistent g
    → IsConsistent? (register g name repo) × IsConsistent? (unregister g name)
register-unregister-IsConsistent g name repo v =
    (register-IsConsistent g name repo v, unregister-IsConsistent g name v)

eqb-ne : (a b : Bytes) → a ≢ b → eqb a b ≡ false
eqb-ne a b differ = elim (Bool-cases (eqb a b)) [
  | inl e ↦ absurd (differ ((eqb_iff a b).0 e))
  | inr ne ↦ ne
]

module _ (g : RepositoryRegistry) (first second : Bytes) (repo again : Opened) where
  abbrev with_first : RepositoryRegistry
  with_first = record {
    repositories = SortedMap.insert first repo g.repositories;
    names = SortedMap.insert repo.root first g.names;
  }

  abbrev with_both : RepositoryRegistry
  with_both = record {
    repositories = SortedMap.insert second again with_first.repositories;
    names = SortedMap.insert again.root second with_first.names;
  }

  abbrev without_second : RepositoryRegistry
  without_second = record {
    repositories = SortedMap.remove second with_both.repositories;
    names = SortedMap.remove again.root with_both.names;
  }

  -- Where the same directory is registered under two new names and the second is unregistered, the
  -- first is still registered, but its path leads to no name.
  pub get_name_by_path-orphaned :
      SortedMap.get first g.repositories ≡ none
      → SortedMap.get second g.repositories ≡ none
      → first ≢ second
      → again.root ≡ repo.root
      → (g' : RepositoryRegistry) × ((register g first repo >>= λ g1.
            (register g1 second again >>= λ g2. unregister g2 second))
          ≡ some g')
        × (registry_get g' first ≡ some repo)
        × (get_name_by_path g' repo.root ≡ none)
  unfolding register unregister registry_get get_name_by_path
  get_name_by_path-orphaned free free' differ same =
      let ne = eqb-ne first second differ in
      let ne' = eqb-ne second first (λ e. differ (sym e)) in
      let free2 : SortedMap.get second with_first.repositories ≡ none =
        get-insert second first repo g.repositories ∙ rw ne free' in
      let there : SortedMap.get second with_both.repositories ≡ some again =
        get-insert second second again with_first.repositories ∙ rw (eqb_refl second) refl in
      (
        without_second,
        rw (free, register) (rw (free2, register) (rw (there, unregister) refl)),
        get-remove first second with_both.repositories
            ∙ rw ne' (
                get-insert first second again with_first.repositories
                ∙ rw ne' (get-insert first first repo g.repositories ∙ rw (eqb_refl first) refl)),
        get-remove repo.root again.root with_both.names
            ∙ rw ((eqb_iff again.root repo.root).1 same) refl,
      )
