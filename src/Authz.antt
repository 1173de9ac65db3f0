-- ===== src/Authz.antt =====
-- Authorization (dsvn-core/src/authz.rs): the rules, and the decision for a user at a path. The
-- hash maps are only looked up, so that they are sorted maps here.
pub mod Parse
pub mod Parents
pub mod Precedence
pub mod Tiers
pub mod WellFormed
use dsvn.Prelude.{
  ℕ, zero, suc, Bool, true, false, not, ◌&&◌, Option, none, some, List, [], ◌∷◌, ◌++◌,
  if◌then◌else◌, length, ltb,
}
use dsvn.Bytes.{Bytes, ascii, eqb, is_empty, starts_with}
use dsvn.SortedMap
use dsvn.SortedMap.{SortedMap}
use dsvn.Text.{ends_with, before_last_slash}

pub data AccessLevel : Type 0 where
  no_access read write : AccessLevel

pub data AuthzResult : Type 0 where
  granted denied : AuthzResult
  error : Bytes → AuthzResult

-- A rule is for one user, for one group, or, with neither, for anonymous users.
pub record AccessRule : Type 0 where
  pub path : Bytes
  pub user : Option Bytes
  pub group : Option Bytes
  pub level : AccessLevel

pub record SvnAuthzProvider : Type 0 where
  pub rules : SortedMap (List AccessRule)
  pub groups : SortedMap (SortedMap (Unit {0}))
  pub default_access : AccessLevel

abbrev pub with_default_access : SvnAuthzProvider → AccessLevel → SvnAuthzProvider
with_default_access p level = record p { default_access = level }

-- The rules that stand in the section of a path.
unfoldable pub rules_at : SvnAuthzProvider → Bytes → List AccessRule
rules_at p path = elim (SortedMap.get path p.rules) [ none ↦ [] | some rules ↦ rules ]

-- The loop over the parents of a path. Each turn shortens the path.
unfoldable pub parent_rules : ℕ → SvnAuthzProvider → Bytes → List AccessRule
unfolding rules_at
parent_rules zero p parent_path = []
parent_rules (suc fuel) p parent_path = elim (before_last_slash parent_path) [
  | none ↦ []
  | some parent ↦
      rules_at p (if is_empty parent then ascii "/" else parent) ++ parent_rules fuel p parent
]

unfoldable pub get_applicable_rules : SvnAuthzProvider → Bytes → List AccessRule
unfolding parent_rules rules_at
get_applicable_rules p path =
    rules_at p path
    ++ parent_rules (length path) p path
    ++ (if not (is_empty path) && not (eqb path (ascii "/")) then rules_at p (ascii "/") else [])

unfoldable pub specificity : Bytes → AccessRule → ℕ
specificity path rule =
    if eqb rule.path path
    then 1000
    else if ends_with rule.path (ascii "/*")
    then 500
    else if eqb rule.path (ascii "/")
    then 500
    else 0

-- `sort_by`, which is stable, from the highest specificity down.
unfoldable pub insert_rule : Bytes → AccessRule → List AccessRule → List AccessRule
unfolding specificity
insert_rule path rule [] = rule ∷ []
insert_rule path rule (r ∷ rules) =
    let rest = insert_rule path rule rules in
    if ltb (specificity path rule) (specificity path r) then r ∷ rest else rule ∷ r ∷ rules

unfoldable pub sort_rules : Bytes → List AccessRule → List AccessRule
unfolding insert_rule
sort_rules path [] = []
sort_rules path (r ∷ rules) = insert_rule path r (sort_rules path rules)

unfoldable pub in_group : SvnAuthzProvider → Bytes → Bytes → Bool
in_group p group username = elim (SortedMap.get group p.groups) [
  | none ↦ false
  | some users ↦ elim (SortedMap.get username users) [ none ↦ false | some _ ↦ true ]
]

-- Whether a rule, by its user and its group, is for the user.
unfoldable pub matches : SvnAuthzProvider → Option Bytes → Option Bytes → Option Bytes → Bool
unfolding in_group
matches p (some username) (some user) none = eqb username user
matches p none (some user) none = false
matches p (some username) none (some group) = in_group p group username
matches p none none (some group) = false
matches p (some username) none none = false
matches p none none none = true
matches p username (some user) (some group) = false

unfoldable pub matches_user : SvnAuthzProvider → Option Bytes → AccessRule → Bool
unfolding matches
matches_user p username rule = matches p username rule.user rule.group

unfoldable pub first_match : SvnAuthzProvider → Option Bytes → List AccessRule → AccessLevel
unfolding matches_user
first_match p username [] = p.default_access
first_match p username (r ∷ rules) =
    let rest = first_match p username rules in if matches_user p username r then r.level else rest

unfoldable pub find_access_level : SvnAuthzProvider → Option Bytes → Bytes → AccessLevel
unfolding first_match
find_access_level p username path =
    first_match p username (sort_rules path (get_applicable_rules p path))

abbrev pub allows : (granted_level required_level : AccessLevel) → Bool
allows write required = true
allows read read = true
allows no_access required = false
allows read no_access = false
allows read write = false

abbrev pub is_granted : AuthzResult → Bool
is_granted granted = true
is_granted denied = false
is_granted (error message) = false

-- `AuthzProvider`: the method that each provider has.
pub record AuthzProvider : Type 0 where
  pub check_access : Option Bytes → Bytes → AccessLevel → AuthzResult

unfoldable pub can_read : AuthzProvider → Option Bytes → Bytes → Bool
can_read a username path = is_granted (a.check_access username path read)

unfoldable pub can_write : AuthzProvider → Option Bytes → Bytes → Bool
can_write a username path = is_granted (a.check_access username path write)

unfoldable pub svn_authz : SvnAuthzProvider → AuthzProvider
svn_authz p = record {
  check_access = λ username path required.
      if allows (find_access_level p username path) required then granted else denied;
}

unfoldable pub no_op_authz : AuthzProvider
no_op_authz = record { check_access = λ username path required. granted }

unfoldable pub deny_all_authz : AuthzProvider
deny_all_authz = record { check_access = λ username path required. denied }

-- The provider for tests: `admin` may do all, `user` may read, and anyone without a name may read
-- below `/public`.
abbrev reads_only : Bool → AccessLevel → AuthzResult
reads_only true read = granted
reads_only true write = denied
reads_only true no_access = denied
reads_only false required = denied

abbrev mock_access : Option Bytes → Bytes → AccessLevel → AuthzResult
mock_access (some username) path required =
    if eqb username (ascii "admin")
    then granted
    else reads_only (eqb username (ascii "user")) required
mock_access none path required = reads_only (starts_with path (ascii "/public")) required

unfoldable pub mock_authz : AuthzProvider
mock_authz = record { check_access = mock_access }
