-- ===== src/Authz/Tiers.antt =====
-- The rules by specificity, as `find_access_level` sorts and searches them (dsvn-core/src/authz.rs).
use dsvn.Prelude.{
  All-append, ℕ, ◌≤◌, ◌<◌, ◌≡◌, ◌⊎◌, refl, ap, ◌∙◌, true, Option, none, some, List, [], ◌∷◌, ◌++◌,
  arith, if◌then◌else◌, ◌==◌, Bool-cases, inl, inr, All,
}
use dsvn.Bytes.{Bytes}
use dsvn.Authz.{
  AccessLevel, AccessRule, SvnAuthzProvider, get_applicable_rules, specificity, insert_rule,
  sort_rules, matches_user, first_match, find_access_level, svn_authz, can_read, can_write,
}

-- The rules of one specificity, in their order.
abbrev pub tier : Bytes → ℕ → List AccessRule → List AccessRule
tier path n [] = []
tier path n (r ∷ rules) =
    let rest = tier path n rules in if specificity path r == n then r ∷ rest else rest

-- The level of the first rule that is for the user.
abbrev pub find_match : SvnAuthzProvider → Option Bytes → List AccessRule → Option AccessLevel
find_match p username [] = none
find_match p username (r ∷ rules) =
    let rest = find_match p username rules in
    if matches_user p username r then some r.level else rest

abbrev pub or_else {ℓ} : {A : Type ℓ} → Option A → Option A → Option A
or_else none o = o
or_else (some a) o = some a

abbrev pub or_default : SvnAuthzProvider → Option AccessLevel → AccessLevel
or_default p none = p.default_access
or_default p (some l) = l

specificity-cases :
    (path : Bytes) (r : AccessRule)
    → (specificity path r ≡ 1000) ⊎ ((specificity path r ≡ 500) ⊎ (specificity path r ≡ 0))
unfolding specificity
specificity-cases path r = ground arith

insert_rule-pass :
    (path : Bytes) (r : AccessRule) (xs ys : List AccessRule)
    → All (λ x. specificity path r < specificity path x) xs
    → insert_rule path r (xs ++ ys) ≡ xs ++ insert_rule path r ys
unfolding insert_rule
insert_rule-pass path r [] ys h = refl
insert_rule-pass path r (x ∷ xs) ys (one, h) = ground (arith, one, insert_rule-pass path r xs ys h)

insert_rule-here :
    (path : Bytes) (r : AccessRule) (xs : List AccessRule)
    → All (λ x. specificity path x ≤ specificity path r) xs
    → insert_rule path r xs ≡ r ∷ xs
unfolding insert_rule
insert_rule-here path r [] h = refl
insert_rule-here path r (x ∷ xs) (one, h) = ground (arith, one)

-- A property of the rules of one specificity.
All-tier :
    (P : AccessRule → Type 0) (path : Bytes) (n : ℕ) (rules : List AccessRule)
    → ((r : AccessRule) → specificity path r ≡ n → P r)
    → All P (tier path n rules)
All-tier P path n [] h = tt
All-tier P path n (r ∷ rules) h = elim (Bool-cases (specificity path r == n)) [
  | inl same ↦ rw same (h r (ground arith), All-tier P path n rules h)
  | inr other ↦ rw other (All-tier P path n rules h)
]

-- Sorting puts the rules of each specificity together, the highest first, each in their order.
sort_rules-tier :
    (path : Bytes) (rules : List AccessRule)
    → sort_rules path rules ≡ tier path 1000 rules ++ (tier path 500 rules ++ tier path 0 rules)
unfolding sort_rules
sort_rules-tier path [] = refl
sort_rules-tier path (r ∷ rules) = elim (specificity-cases path r) [
  | inl e ↦ rw e (
      ap (insert_rule path r) (sort_rules-tier path rules)
      ∙ insert_rule-here path r (a ++ (b ++ c)) (
          All-append Low a (b ++ c) (low 1000 1000 (omega arith) e)
            (All-append Low b c (low 1000 500 (omega arith) e) (low 1000 0 (omega arith) e))))
  | inr (inl e) ↦ rw e (
      ap (insert_rule path r) (sort_rules-tier path rules)
      ∙ insert_rule-pass path r a (b ++ c) (high 500 1000 (omega arith) e)
      ∙ ap (λ t. a ++ t)
          (insert_rule-here path r (b ++ c)
            (All-append Low b c (low 500 500 (omega arith) e) (low 500 0 (omega arith) e))))
  | inr (inr e) ↦ rw e (
      ap (insert_rule path r) (sort_rules-tier path rules)
      ∙ insert_rule-pass path r a (b ++ c) (high 0 1000 (omega arith) e)
      ∙ ap (λ t. a ++ t)
          (insert_rule-pass path r b c (high 0 500 (omega arith) e)
            ∙ ap (λ t. b ++ t) (insert_rule-here path r c (low 0 0 (omega arith) e))))
]
  where
    a : List AccessRule
    a = tier path 1000 rules

    b : List AccessRule
    b = tier path 500 rules

    c : List AccessRule
    c = tier path 0 rules

    Low : AccessRule → Type 0
    Low x = specificity path x ≤ specificity path r

    low : (n m : ℕ) → m ≤ n → specificity path r ≡ n → All Low (tier path m rules)
    low n m h e = All-tier Low path m rules (λ x k. omega (arith, h, e, k))

    high :
        (n m : ℕ)
        → n < m
        → specificity path r ≡ n
        → All (λ x. specificity path r < specificity path x) (tier path m rules)
    high n m h e =
        All-tier (λ x. specificity path r < specificity path x) path m rules
          (λ x k. omega (arith, h, e, k))

pub find_match-append :
    (p : SvnAuthzProvider) (u : Option Bytes) (xs ys : List AccessRule)
    → find_match p u (xs ++ ys) ≡ or_else (find_match p u xs) (find_match p u ys)
find_match-append p u [] ys = refl
find_match-append p u (x ∷ xs) ys = ground (arith, find_match-append p u xs ys)

first_match-find_match :
    (p : SvnAuthzProvider) (u : Option Bytes) (xs : List AccessRule)
    → first_match p u xs ≡ or_default p (find_match p u xs)
unfolding first_match
first_match-find_match p u [] = refl
first_match-find_match p u (x ∷ xs) = ground (arith, first_match-find_match p u xs)

-- The access level at a path is that of the first rule for the user among the applicable rules of
-- specificity 1000, else of 500, else of 0, each in their order, else the default.
pub find_access_level-tier :
    (p : SvnAuthzProvider) (u : Option Bytes) (path : Bytes)
    → find_access_level p u path
      ≡ or_default p (
          or_else (find_match p u (tier path 1000 (get_applicable_rules p path))) (
            or_else
              (find_match p u (tier path 500 (get_applicable_rules p path)))
              (find_match p u (tier path 0 (get_applicable_rules p path)))))
unfolding find_access_level
find_access_level-tier p u path =
    let rules = get_applicable_rules p path in
    let a = tier path 1000 rules in
    let b = tier path 500 rules in
    let c = tier path 0 rules in
    first_match-find_match p u (sort_rules path rules)
    ∙ ap (or_default p) (
        ap (find_match p u) (sort_rules-tier path rules)
        ∙ find_match-append p u a (b ++ c)
        ∙ ap (or_else (find_match p u a)) (find_match-append p u b c))

-- In the provider of an authorization file, who may write a path may read it.
pub can_read-can_write :
    (p : SvnAuthzProvider) (u : Option Bytes) (path : Bytes)
    → can_write (svn_authz p) u path ≡ true
    → can_read (svn_authz p) u path ≡ true
unfolding can_write can_read svn_authz
can_read-can_write p u path h = ground arith
