-- ===== src/Authz/WellFormed.antt =====
-- The well-formedness of what `SvnAuthzProvider::parse` returns (dsvn-core/src/authz.rs).
use dsvn.Prelude.{
  All-append, ◌≡◌, ◌≢◌, refl, subst, Bool, true, false, ◌&&◌, Option, none, some, List, [], ◌∷◌,
  ◌++◌, arith, if◌then◌else◌, Bool-cases, Option-cases, inl, inr, All,
}
use dsvn.Bytes.{Bytes, ascii, eqb, is_empty, trim, starts_with}
use dsvn.SortedMap
use dsvn.SortedMap.{SortedMap, get-insert}
use dsvn.SortedMap.Order.{AllRows, insert-AllRows, get-AllRows}
use dsvn.Text.{lines, ends_with, split_once, split_on, trimmed, to_lowercase, but_last}
use dsvn.Authz.{AccessRule, SvnAuthzProvider}
use dsvn.Authz.Parse.{
  Parsed, ok, err, ◌>>=◌, Groups, Rules, Parsing, user_set, parse_group, parse_subject, parse_level,
  group_check, push_rule, parse_access_rule, parse_entry, parse_line, parse_lines, parse,
}

-- A group that a rule names is there.
abbrev pub IsKnown : Groups → Option Bytes → Type 0
IsKnown groups none = Unit
IsKnown groups (some g) = (users : SortedMap (Unit {0})) × (SortedMap.get g groups ≡ some users)

abbrev pub IsFiled : Groups → Bytes → AccessRule → Type 0
IsFiled groups path rule = (rule.path ≡ path) × IsKnown groups rule.group

abbrev pub IsSection : Groups → Bytes → List AccessRule → Type 0
IsSection groups path rules = All (IsFiled groups path) rules

pub record IsWellFormed (groups : Groups) (rules : Rules) : Type 0 where
  pub filed : AllRows (IsSection groups) rules
  pub peopled : AllRows (λ g users. users ≢ []) groups

IsKnown-insert :
    (groups : Groups) (g : Bytes) (users : SortedMap (Unit {0})) (o : Option Bytes)
    → IsKnown groups o
    → IsKnown (SortedMap.insert g users groups) o
IsKnown-insert groups g users none h = tt
IsKnown-insert groups g users (some k) (there, e) = elim (Bool-cases (eqb g k)) [
  | inl same ↦ (users, rw (get-insert k g users groups) (rw same refl))
  | inr other ↦ (there, rw (get-insert k g users groups) (rw other e))
]

IsSection-insert :
    (groups : Groups) (g : Bytes) (users : SortedMap (Unit {0})) (path : Bytes)
    (rules : List AccessRule)
    → IsSection groups path rules
    → IsSection (SortedMap.insert g users groups) path rules
IsSection-insert groups g users path [] h = tt
IsSection-insert groups g users path (r ∷ rules) ((named, known), h) = (
  (named, IsKnown-insert groups g users r.group known),
  IsSection-insert groups g users path rules h,
)

filed_insert :
    (groups : Groups) (g : Bytes) (users : SortedMap (Unit {0})) (rules : Rules)
    → AllRows (IsSection groups) rules
    → AllRows (IsSection (SortedMap.insert g users groups)) rules
filed_insert groups g users [] h = tt
filed_insert groups g users ((path, rs) ∷ rules) (one, h) =
    (IsSection-insert groups g users path rs one, filed_insert groups g users rules h)

-- A property of what a step returns, when it returns.
abbrev Gives : {A : Type 0} → (A → Type 0) → Parsed A → Type 0
Gives P (ok a) = P a
Gives P (err e) = Unit

if-Gives :
    {A : Type 0} (P : A → Type 0) (b : Bool) (x y : Parsed A)
    → Gives P x
    → (b ≡ false → Gives P y)
    → Gives P (if b then x else y)
if-Gives P true x y hx hy = hx
if-Gives P false x y hx hy = hy refl

if-both :
    {A : Type 0} (P : A → Type 0) (b : Bool) (x y : Parsed A)
    → Gives P x
    → Gives P y
    → Gives P (if b then x else y)
if-both P b x y hx hy = if-Gives P b x y hx (λ _. hy)

option-Gives :
    {A B : Type 0} (P : B → Type 0) (o : Option A) (x : Parsed B) (f : A → Parsed B)
    → Gives P x
    → ((a : A) → Gives P (f a))
    → Gives P (elim o [ none ↦ x | some a ↦ f a ])
option-Gives P none x f hx hf = hx
option-Gives P (some a) x f hx hf = hf a

bind-Gives :
    {A B : Type 0} (Q : A → Type 0) (P : B → Type 0) (x : Parsed A) (f : A → Parsed B)
    → Gives Q x
    → ((a : A) → Q a → Gives P (f a))
    → Gives P (x >>= f)
bind-Gives Q P (ok a) f hx hf = hf a hx
bind-Gives Q P (err e) f hx hf = tt

insert_ne : {V : Type 0} (k : Bytes) (v : V) (m : SortedMap V) → SortedMap.insert k v m ≢ []
unfolding SortedMap.insert
insert_ne k v [] e = cc
insert_ne k v ((j, w) ∷ m) e = ground arith

user_set_ne : (us : List Bytes) → is_empty us ≡ false → user_set us ≢ []
unfolding user_set
user_set_ne [] h = cc
user_set_ne (u ∷ us) h = insert_ne u tt (user_set us)

parse_group-Gives :
    (line : Bytes) (groups : Groups) (rules : Rules)
    → IsWellFormed groups rules
    → Gives (λ gs. IsWellFormed gs rules) (parse_group line groups)
unfolding parse_group
parse_group-Gives line groups rules v =
    option-Gives P (split_once b'=' line) _ _ tt λ (name, users_str).
      let users = trimmed (split_on b',' (trim users_str)) in
      if-Gives P (is_empty (trim name)) _ _ tt λ _. if-Gives P (is_empty users) _ _ tt λ some_user.
        record {
          filed = filed_insert groups (trim name) (user_set users) rules v.filed;
          peopled =
              insert-AllRows (λ g us. us ≢ []) (trim name) (user_set users) groups
                (user_set_ne users some_user) v.peopled;
        }
  where
    P : Groups → Type 0
    P gs = IsWellFormed gs rules

push_rule-filed :
    (groups : Groups) (path : Bytes) (rule : AccessRule) (rules : Rules)
    → IsFiled groups path rule
    → AllRows (IsSection groups) rules
    → AllRows (IsSection groups) (push_rule path rule rules)
unfolding push_rule
push_rule-filed groups path rule rules one h = elim (Option-cases (SortedMap.get path rules)) [
  | inl gone ↦
      rw (gone, push_rule) (insert-AllRows (IsSection groups) path (rule ∷ []) rules (one, tt) h)
  | inr (there, e) ↦
      rw (e, push_rule)
        (insert-AllRows (IsSection groups) path (there ++ rule ∷ []) rules
          (All-append (IsFiled groups path) there (rule ∷ [])
            (get-AllRows (IsSection groups) path there rules h e) (one, tt))
          h)
]

group_check-Gives :
    (groups : Groups) (o : Option Bytes) → Gives (λ u. IsKnown groups o) (group_check groups o)
unfolding group_check
group_check-Gives groups none = tt
group_check-Gives groups (some g) = elim (Option-cases (SortedMap.get g groups)) [
  | inl gone ↦ rw (gone, group_check) tt
  | inr (users, e) ↦ rw (e, group_check) (users, refl)
]

-- Every value satisfies the trivial property.
trivial-Gives : {A : Type 0} (x : Parsed A) → Gives (λ _. Unit {0}) x
trivial-Gives (ok a) = tt
trivial-Gives (err e) = tt

parse_access_rule-Gives :
    (path line : Bytes) (rules : Rules) (groups : Groups)
    → AllRows (IsSection groups) rules
    → Gives (AllRows (IsSection groups)) (parse_access_rule path line rules groups)
unfolding parse_access_rule
parse_access_rule-Gives path line rules groups h =
    option-Gives P (split_once b'=' line) _ _ tt λ (subject, access).
      bind-Gives (λ _. Unit {0}) P (parse_level (to_lowercase (trim access))) _ (trivial-Gives _)
        λ level _.
          let (user, group) = parse_subject (trim subject) in
          bind-Gives (λ _. IsKnown groups group) P (group_check groups group) _
            (group_check-Gives groups group)
            λ _ known. push_rule-filed groups path _ rules (refl, known) h
  where
    P : Rules → Type 0
    P = AllRows (IsSection groups)

parse_entry-Gives :
    (line : Bytes) (p : Parsing)
    → IsWellFormed p.groups p.rules
    → Gives (λ q. IsWellFormed q.groups q.rules) (parse_entry line p)
unfolding parse_entry
parse_entry-Gives line p v = option-Gives P p.current_section _ _ v λ section.
    if-both P (eqb section (ascii "groups")) _ _
      (bind-Gives (λ gs. IsWellFormed gs p.rules) P (parse_group line p.groups) _
        (parse_group-Gives line p.groups p.rules v) (λ gs w. w))
      (bind-Gives (AllRows (IsSection p.groups)) P (parse_access_rule section line p.rules p.groups)
        _ (parse_access_rule-Gives section line p.rules p.groups v.filed)
        (λ rules filed. record { filed = filed; peopled = v.peopled }))
  where
    P : Parsing → Type 0
    P q = IsWellFormed q.groups q.rules

parse_line-Gives :
    (line : Bytes) (p : Parsing)
    → IsWellFormed p.groups p.rules
    → Gives (λ q. IsWellFormed q.groups q.rules) (parse_line line p)
unfolding parse_line
parse_line-Gives text p v = if-both P (is_empty (trim text)) _ _ v (
    if-both P (starts_with (trim text) (ascii "#")) _ _ v (
      if-both P (starts_with (trim text) (ascii "[") && ends_with (trim text) (ascii "]")) _ _
        (elim (trim text)
          as (λ line. Gives P (elim line [
            | [] ↦ ok p
            | (c ∷ rest) ↦ ok (record p { current_section = some (but_last rest) })
          ])) [ [] ↦ v | (c ∷ rest) ↦ v ])
        (parse_entry-Gives (trim text) p v)))
  where
    P : Parsing → Type 0
    P q = IsWellFormed q.groups q.rules

parse_lines-Gives :
    (ls : List Bytes) (p : Parsing)
    → IsWellFormed p.groups p.rules
    → Gives (λ q. IsWellFormed q.groups q.rules) (parse_lines ls p)
unfolding parse_lines
parse_lines-Gives [] p v = v
parse_lines-Gives (l ∷ ls) p v =
    bind-Gives _ _ (parse_line l p) _ (parse_line-Gives l p v) (λ p' v'. parse_lines-Gives ls p' v')

parse-Gives : (content : Bytes) → Gives (λ p. IsWellFormed p.groups p.rules) (parse content)
unfolding parse
parse-Gives content =
    bind-Gives (λ q. IsWellFormed q.groups q.rules) _ (parse_lines (lines content) _) _
      (parse_lines-Gives (lines content) _ (record { filed = tt; peopled = tt })) (λ q v. v)

-- In a provider that `parse` returns, each rule stands under its own path and names, if any, a group
-- that is defined, and no defined group is empty.
pub parse-IsWellFormed :
    (content : Bytes) (p : SvnAuthzProvider) → parse content ≡ ok p → IsWellFormed p.groups p.rules
parse-IsWellFormed content p e =
    subst (Gives (λ q. IsWellFormed q.groups q.rules)) e (parse-Gives content)
