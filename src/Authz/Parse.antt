-- ===== src/Authz/Parse.antt =====
-- Reading an authorization file: sections of rules, and the section of groups.
use dsvn.Prelude.{◌&&◌, Option, none, some, List, [], ◌∷◌, ◌++◌, if◌then◌else◌}
use dsvn.Bytes.{Bytes, ascii, eqb, is_empty, trim, starts_with, strip_prefix}
use dsvn.SortedMap
use dsvn.SortedMap.{SortedMap}
use dsvn.Text.{lines, ends_with, split_once, split_on, trimmed, to_lowercase, but_last}
use dsvn.Authz.{AccessLevel, no_access, read, write, AccessRule, SvnAuthzProvider}

-- Why a file is refused; the text is that of the message.
pub data Refusal : Type 0 where
  invalid_group_definition no_users_in_group invalid_access_rule : Bytes → Refusal
  invalid_access_level group_not_found : Bytes → Refusal
  empty_group_name : Refusal

pub data Parsed {ℓ} (A : Type ℓ) : Type ℓ where
  ok : A → Parsed A
  err : Refusal → Parsed A

infixl 10 ◌>>=◌
abbrev pub ◌>>=◌ {ℓ κ} : {A : Type ℓ} {B : Type κ} → Parsed A → (A → Parsed B) → Parsed B
ok a >>= f = f a
err e >>= f = err e

abbrev pub Groups : Type 0
Groups = SortedMap (SortedMap (Unit {0}))

abbrev pub Rules : Type 0
Rules = SortedMap (List AccessRule)

-- The users, as a set.
unfoldable pub user_set : List Bytes → SortedMap (Unit {0})
user_set [] = []
user_set (u ∷ us) = SortedMap.insert u tt (user_set us)

unfoldable pub parse_group : Bytes → Groups → Parsed Groups
unfolding user_set
parse_group line groups = elim (split_once b'=' line) [
  | none ↦ err (invalid_group_definition line)
  | some (name, users_str) ↦
      let group_name = trim name in
      let users = trimmed (split_on b',' (trim users_str)) in
      if is_empty group_name
      then err empty_group_name
      else if is_empty users
      then err (no_users_in_group group_name)
      else ok (SortedMap.insert group_name (user_set users) groups)
]

-- The user and the group that the left side of a rule names.
unfoldable pub parse_subject : Bytes → Option Bytes × Option Bytes
parse_subject user_or_group = elim (strip_prefix user_or_group (ascii "@")) [
  | some group_name ↦ (none, some group_name)
  | none ↦ if eqb user_or_group (ascii "*") then (none, none) else (some user_or_group, none)
]

unfoldable pub parse_level : Bytes → Parsed AccessLevel
parse_level access =
    if eqb access (ascii "r")
    then ok read
    else if eqb access (ascii "read")
    then ok read
    else if eqb access (ascii "rw")
    then ok write
    else if eqb access (ascii "read-write")
    then ok write
    else if eqb access (ascii "w")
    then ok write
    else if eqb access (ascii "write")
    then ok write
    else if is_empty access
    then ok no_access
    else err (invalid_access_level access)

-- The check that a group that a rule names is there.
unfoldable pub group_check : Groups → Option Bytes → Parsed (Unit {0})
group_check groups none = ok tt
group_check groups (some group_name) = elim (SortedMap.get group_name groups) [
  | none ↦ err (group_not_found group_name)
  | some users ↦ ok tt
]

-- `entry(path).or_insert_with(Vec::new).push(rule)`
unfoldable pub push_rule : Bytes → AccessRule → Rules → Rules
push_rule path rule rules = elim (SortedMap.get path rules) [
  | none ↦ SortedMap.insert path (rule ∷ []) rules
  | some there ↦ SortedMap.insert path (there ++ rule ∷ []) rules
]

unfoldable pub parse_access_rule : Bytes → Bytes → Rules → Groups → Parsed Rules
unfolding parse_subject parse_level group_check push_rule
parse_access_rule path line rules groups = elim (split_once b'=' line) [
  | none ↦ err (invalid_access_rule line)
  | some (subject, access) ↦ do
    let (user, group) = parse_subject (trim subject)
    level ← parse_level (to_lowercase (trim access))
    _ ← group_check groups group
    ok (push_rule path (record { path = path; user = user; group = group; level = level }) rules)
]

-- The state of the loop over the lines.
pub record Parsing : Type 0 where
  pub rules : Rules
  pub groups : Groups
  pub current_section : Option Bytes

-- A line in a section, or before the first one, where it is ignored.
unfoldable pub parse_entry : Bytes → Parsing → Parsed Parsing
unfolding parse_group parse_access_rule
parse_entry line p = elim p.current_section [
  | none ↦ ok p
  | some section ↦
      if eqb section (ascii "groups")
      then (do groups ← parse_group line p.groups; ok (record p { groups = groups }))
      else (do
        rules ← parse_access_rule section line p.rules p.groups
        ok (record p { rules = rules }))
]

unfoldable pub parse_line : Bytes → Parsing → Parsed Parsing
unfolding parse_entry
parse_line text p =
    let line = trim text in
    if is_empty line
    then ok p
    else if starts_with line (ascii "#")
    then ok p
    else if starts_with line (ascii "[") && ends_with line (ascii "]")
    then elim line [
      | [] ↦ ok p
      | (c ∷ rest) ↦ ok (record p { current_section = some (but_last rest) })
    ]
    else parse_entry line p

unfoldable pub parse_lines : List Bytes → Parsing → Parsed Parsing
unfolding parse_line
parse_lines [] p = ok p
parse_lines (l ∷ ls) p = do p' ← parse_line l p; parse_lines ls p'

unfoldable pub parse : Bytes → Parsed SvnAuthzProvider
unfolding parse_lines
parse content = do
  p ← parse_lines (lines content) (record { rules = []; groups = []; current_section = none })
  ok (record { rules = p.rules; groups = p.groups; default_access = no_access })
