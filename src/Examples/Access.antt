-- ===== src/Examples/Access.antt =====
-- An authorization file, and the decisions that it leads to.
use dsvn.Prelude.{
  ◌≡◌, refl, ap, sym, ◌∙◌, true, false, Option, none, some, [], ◌∷◌, arith, Bool-cases, inl, inr,
}
use dsvn.Bytes.{Bytes, ascii, eqb, eqb_iff}
use dsvn.SortedMap
use dsvn.Text.{ends_with}
use dsvn.Authz.{
  AccessLevel, no_access, read, write, AccessRule, SvnAuthzProvider, rules_at, parent_rules,
  get_applicable_rules, find_access_level, svn_authz, can_read, can_write, matches_user,
}
use dsvn.Authz.Parse.{parse, ok}
use dsvn.Authz.WellFormed.{IsWellFormed, parse-IsWellFormed}
use dsvn.Authz.Tiers.{tier, find_match, or_else, or_default, find_access_level-tier}
use dsvn.Authz.Precedence.{find_access_level-root_section}

abbrev content : Bytes
content = ascii "[groups]\ndevs = alice, bob\n\n[/]\n@devs = r\n\n[/trunk]\n@devs = rw\nbob = r\n"

abbrev rule : Bytes → Option Bytes → Option Bytes → AccessLevel → AccessRule
rule path user group level = record { path = path; user = user; group = group; level = level }

abbrev devs : Bytes
devs = ascii "devs"

-- What the file gives.
abbrev provider : SvnAuthzProvider
provider = record {
  rules =
      (ascii "/", rule (ascii "/") none (some devs) read ∷ [])
      ∷ (
        ascii "/trunk",
        rule (ascii "/trunk") none (some devs) write
            ∷ rule (ascii "/trunk") (some (ascii "bob")) none read
            ∷ [],
      )
      ∷ [];
  groups = (devs, (ascii "alice", tt) ∷ (ascii "bob", tt) ∷ []) ∷ [];
  default_access = no_access;
}

parsed : parse content ≡ ok provider
unfolding parse dsvn.Text.lines dsvn.Bytes.trim dsvn.Bytes.starts_with ends_with eqb
    dsvn.Text.but_last dsvn.Text.split_once dsvn.Text.trimmed dsvn.Text.to_lowercase
    dsvn.Bytes.strip_prefix SortedMap.get SortedMap.insert dsvn.Bytes.cmp
parsed = refl

provider-IsWellFormed : IsWellFormed provider.groups provider.rules
provider-IsWellFormed = parse-IsWellFormed content provider parsed

parse-IsWellFormed_example : IsWellFormed provider.groups provider.rules
parse-IsWellFormed_example = parse-IsWellFormed content provider parsed

abbrev alice : Option Bytes
alice = some (ascii "alice")

no_section :
    (section : Bytes)
    → eqb (ascii "/") section ≡ false
    → eqb (ascii "/trunk") section ≡ false
    → rules_at provider section ≡ []
unfolding rules_at SortedMap.get eqb
no_section section a b = rw a (rw b refl)

no_star : (section : Bytes) → ends_with section (ascii "/*") ≡ true → rules_at provider section ≡ []
unfolding ends_with eqb
no_star section star = elim (Bool-cases (eqb (ascii "/") section)) [
  | inl root ↦
      cc
        (sym star ∙ ap (λ t. ends_with t (ascii "/*")) (sym ((eqb_iff (ascii "/") section).0 root)))
  | inr a ↦ elim (Bool-cases (eqb (ascii "/trunk") section)) [
    | inl sub ↦ cc (
        sym star
        ∙ ap (λ t. ends_with t (ascii "/*")) (sym ((eqb_iff (ascii "/trunk") section).0 sub)))
    | inr b ↦ no_section section a b
  ]
]

-- The root section decides below `/trunk`, where alice may write.
find_access_level-root_section_example :
    find_access_level provider alice (ascii "/trunk/a.c") ≡ read
unfolding rules_at SortedMap.get eqb matches_user
find_access_level-root_section_example =
    find_access_level-root_section provider provider-IsWellFormed alice (ascii "/trunk/a.c") read
      (λ e. cc) (λ e. ground arith) no_star refl refl

find_access_level-tier_example :
    find_access_level provider alice (ascii "/trunk")
    ≡ or_default provider (
        or_else
          (find_match provider alice
            (tier (ascii "/trunk") 1000 (get_applicable_rules provider (ascii "/trunk"))))
          (or_else
            (find_match provider alice
              (tier (ascii "/trunk") 500 (get_applicable_rules provider (ascii "/trunk"))))
            (find_match provider alice
              (tier (ascii "/trunk") 0 (get_applicable_rules provider (ascii "/trunk"))))))
find_access_level-tier_example = find_access_level-tier provider alice (ascii "/trunk")

may_write : can_write (svn_authz provider) alice (ascii "/trunk") ≡ true
unfolding can_write svn_authz find_access_level dsvn.Authz.sort_rules get_applicable_rules
    SortedMap.get eqb dsvn.Text.before_last_slash ends_with
may_write = refl
