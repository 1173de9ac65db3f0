-- ===== src/Authz/Precedence.antt =====
-- Which section's rule decides in `find_access_level` (dsvn-core/src/authz.rs).
use dsvn.Prelude.{
  ℕ, zero, suc, ◌≡◌, ◌≢◌, ◌⊎◌, refl, ap, ◌∙◌, true, not, ◌&&◌, Option, none, some, List, [], ◌∷◌,
  ◌++◌, arith, if◌then◌else◌, length, ◌==◌, ==_iff, Bool-cases, Option-cases, inl, inr,
}
use dsvn.Bytes.{Bytes, ascii, eqb, eqb_iff, eqb_refl, is_empty}
use dsvn.SortedMap
use dsvn.SortedMap.{SortedMap}
use dsvn.SortedMap.Order.{get-AllRows}
use dsvn.Text.{ends_with, before_last_slash}
use dsvn.Authz.{
  AccessLevel, AccessRule, SvnAuthzProvider, rules_at, parent_rules, get_applicable_rules,
  specificity, find_access_level,
}
use dsvn.Authz.WellFormed.{IsWellFormed, IsSection}
use dsvn.Authz.Tiers.{tier, find_match, or_else, find_match-append, find_access_level-tier}

tier-append :
    (path : Bytes) (n : ℕ) (xs ys : List AccessRule)
    → tier path n (xs ++ ys) ≡ tier path n xs ++ tier path n ys
tier-append path n [] ys = refl
tier-append path n (x ∷ xs) ys = ground (arith, tier-append path n xs ys)

-- The specificity that the rules of a section have.
abbrev section_specificity : Bytes → Bytes → ℕ
section_specificity path section =
    if eqb section path
    then 1000
    else if ends_with section (ascii "/*")
    then 500
    else if eqb section (ascii "/")
    then 500
    else 0

tier-section :
    (p : SvnAuthzProvider) (path : Bytes) (n : ℕ) (section : Bytes) (rules : List AccessRule)
    → IsSection p.groups section rules
    → tier path n rules ≡ (if section_specificity path section == n then rules else [])
unfolding specificity
tier-section p path n section [] h = ground arith
tier-section p path n section (r ∷ rules) ((named, known), h) =
    rw (tier-section p path n section rules h) (rw named (ground arith))

rules_at-IsSection :
    (p : SvnAuthzProvider) (section : Bytes)
    → IsWellFormed p.groups p.rules
    → IsSection p.groups section (rules_at p section)
unfolding rules_at
rules_at-IsSection p section v = elim (Option-cases (SortedMap.get section p.rules)) [
  | inl gone ↦ rw (gone, rules_at) tt
  | inr (rules, e) ↦
      rw (e, rules_at) (get-AllRows (IsSection p.groups) section rules p.rules v.filed e)
]

find_match-tier :
    (p : SvnAuthzProvider) (u : Option Bytes) (path : Bytes) (n : ℕ) (xs ys : List AccessRule)
    → find_match p u (tier path n (xs ++ ys))
      ≡ or_else (find_match p u (tier path n xs)) (find_match p u (tier path n ys))
find_match-tier p u path n xs ys =
    ap (find_match p u) (tier-append path n xs ys)
    ∙ find_match-append p u (tier path n xs) (tier path n ys)

or_else-either :
    (o a b : Option AccessLevel)
    → (a ≡ none) ⊎ (a ≡ o)
    → (b ≡ none) ⊎ (b ≡ o)
    → (or_else a b ≡ none) ⊎ (or_else a b ≡ o)
or_else-either o a b (inl e) k = rw e k
or_else-either o none b (inr e) k = k
or_else-either o (some l) b (inr e) k = inr e

applies :
    (path : Bytes)
    → path ≢ []
    → path ≢ ascii "/"
    → not (is_empty path) && not (eqb path (ascii "/")) ≡ true
applies [] ne nr = absurd (ne refl)
applies (c ∷ s) ne nr = ground (arith, nr, eqb_iff (c ∷ s) (ascii "/"))

own_specificity : (path : Bytes) → section_specificity path path ≡ 1000
own_specificity path = rw (eqb_refl path) refl

root_specificity : (path : Bytes) → path ≢ ascii "/" → section_specificity path (ascii "/") ≡ 500
root_specificity path nr = ground (arith, nr, eqb_iff (ascii "/") path, eqb_refl (ascii "/"))

is_own : (path section : Bytes) → section_specificity path section ≡ 1000 → section ≡ path
is_own path section e = ground (arith, e, eqb_iff section path)

is_root :
    (path section : Bytes)
    → section_specificity path section ≡ 500
    → (ends_with section (ascii "/*") ≡ true) ⊎ (section ≡ ascii "/")
is_root path section e = ground (arith, e, eqb_iff section (ascii "/"))

module _ (p : SvnAuthzProvider) (v : IsWellFormed p.groups p.rules) (u : Option Bytes)
    (path : Bytes) where
  tier-rules_at :
      (n : ℕ) (section : Bytes)
      → tier path n (rules_at p section)
        ≡ (if section_specificity path section == n then rules_at p section else [])
  tier-rules_at n section =
      tier-section p path n section (rules_at p section) (rules_at-IsSection p section v)

  -- In a well-formed provider, the first rule for the user in the section of the path itself
  -- decides the access level at the path.
  pub find_access_level-own_section :
      (l : AccessLevel) → find_match p u (rules_at p path) ≡ some l → find_access_level p u path ≡ l
  unfolding get_applicable_rules
  find_access_level-own_section l e =
      let own : find_match p u (tier path 1000 (rules_at p path)) ≡ some l =
        rw (tier-rules_at 1000 path) (rw (eqb_refl path) e) in
      let parents = parent_rules (length path) p path in
      let root =
        if not (is_empty path) && not (eqb path (ascii "/")) then rules_at p (ascii "/") else [] in
      let first : find_match p u (tier path 1000 (get_applicable_rules p path)) ≡ some l =
        find_match-tier p u path 1000 (rules_at p path ++ parents) root
        ∙ rw (find_match-tier p u path 1000 (rules_at p path) parents) (rw own refl) in
      find_access_level-tier p u path ∙ rw first refl

  find_match-section :
      (n : ℕ) (o : Option AccessLevel) (section : Bytes)
      → (section_specificity path section ≡ n
          → (find_match p u (rules_at p section) ≡ none)
            ⊎ (find_match p u (rules_at p section) ≡ o))
      → (find_match p u (tier path n (rules_at p section)) ≡ none)
        ⊎ (find_match p u (tier path n (rules_at p section)) ≡ o)
  find_match-section n o section h =
      rw (tier-rules_at n section) (elim (Bool-cases (section_specificity path section == n)) [
        | inr other ↦ rw other (inl refl)
        | inl same ↦ rw same (h ((==_iff (section_specificity path section) n).0 same))
      ])

  -- A tier of the parents' rules has no match but a given one, when each section has none but it.
  find_match-parent_rules :
      (n : ℕ) (o : Option AccessLevel)
      → ((section : Bytes)
          → section_specificity path section ≡ n
          → (find_match p u (rules_at p section) ≡ none)
            ⊎ (find_match p u (rules_at p section) ≡ o))
      → (fuel : ℕ) (parent : Bytes)
      → (find_match p u (tier path n (parent_rules fuel p parent)) ≡ none)
        ⊎ (find_match p u (tier path n (parent_rules fuel p parent)) ≡ o)
  unfolding parent_rules
  find_match-parent_rules n o h zero parent = inl refl
  find_match-parent_rules n o h (suc fuel) parent = elim (Option-cases (before_last_slash parent)) [
    | inl e ↦ rw (e, parent_rules) (inl refl)
    | inr (above, e) ↦
        let section = if is_empty above then ascii "/" else above in
        rw (e, parent_rules)
          (rw (find_match-tier p u path n (rules_at p section) (parent_rules fuel p above)) (
            or_else-either o _ _ (find_match-section n o section (h section))
              (find_match-parent_rules n o h fuel above)))
  ]

  find_match-applicable :
      (n : ℕ)
      → not (is_empty path) && not (eqb path (ascii "/")) ≡ true
      → find_match p u (tier path n (get_applicable_rules p path))
        ≡ or_else
            (or_else
              (find_match p u (if section_specificity path path == n then rules_at p path else []))
              (find_match p u (tier path n (parent_rules (length path) p path))))
            (find_match p u
              (if section_specificity path (ascii "/") == n then rules_at p (ascii "/") else []))
  unfolding get_applicable_rules
  find_match-applicable n asked =
      let parents = parent_rules (length path) p path in
      rw asked (
        rw (find_match-tier p u path n (rules_at p path ++ parents) (rules_at p (ascii "/"))) (
          rw (find_match-tier p u path n (rules_at p path) parents)
            (rw (tier-rules_at n path) (rw (tier-rules_at n (ascii "/")) refl))))

  -- In a well-formed provider, with no rule for the user in the section of the path, which is not
  -- the root, and no section that ends in `/*`, the first rule for the user in the root section
  -- decides, whatever the sections of nearer parents say.
  pub find_access_level-root_section :
      (l : AccessLevel)
      → path ≢ []
      → path ≢ ascii "/"
      → ((section : Bytes) → ends_with section (ascii "/*") ≡ true → rules_at p section ≡ [])
      → find_match p u (rules_at p path) ≡ none
      → find_match p u (rules_at p (ascii "/")) ≡ some l
      → find_access_level p u path ≡ l
  unfolding get_applicable_rules
  find_access_level-root_section l ne nr no_star own root =
      let parents = parent_rules (length path) p path in
      let slash = rules_at p (ascii "/") in
      let none_above =
        find_match-parent_rules 1000 none (λ section e. inl (rw (is_own path section e) own))
          (length path) path in
      let root_above =
        find_match-parent_rules 500 (some l)
          (λ section e. elim (is_root path section e) [
            | inl star ↦ inl (rw (no_star section star) refl)
            | inr slash ↦ inr (rw slash root)
          ])
          (length path) path in
      let asked : not (is_empty path) && not (eqb path (ascii "/")) ≡ true = applies path ne nr in
      let exact : find_match p u (tier path 1000 (get_applicable_rules p path)) ≡ none = ground (
        arith,
        find_match-applicable 1000 asked,
        own,
        own_specificity path,
        root_specificity path nr,
        none_above,
      ) in
      let middle : find_match p u (tier path 500 (get_applicable_rules p path)) ≡ some l = ground (
        arith,
        find_match-applicable 500 asked,
        root,
        own_specificity path,
        root_specificity path nr,
        root_above,
      ) in
      find_access_level-tier p u path ∙ rw exact (rw middle refl)
