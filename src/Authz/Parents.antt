-- ===== src/Authz/Parents.antt =====
-- The loop of `get_applicable_rules` over the parents of a path (dsvn-core/src/authz.rs).
use dsvn.Prelude.{
  ℕ, zero, suc, ◌≤◌, ◌<◌, ◌≡◌, refl, some, [], ◌∷◌, arith, length, Option-cases, inl, inr,
}
use dsvn.Bytes.{Bytes}
use dsvn.Text.{before_last_slash}
use dsvn.Authz.{SvnAuthzProvider, parent_rules}

length-before_last_slash :
    (path parent : Bytes) → before_last_slash path ≡ some parent → length parent < length path
unfolding before_last_slash
length-before_last_slash [] parent e = cc
length-before_last_slash (c ∷ s) parent e = elim (Option-cases (before_last_slash s)) [
  | inl k ↦ ground (arith, e, k)
  | inr (q, k) ↦ ground (arith, e, k, length-before_last_slash s q k)
]

-- With a turn for each byte of the path, or more, the loop over the parents stops by itself: the
-- rules are those of any larger number of turns.
pub parent_rules-fuel :
    (p : SvnAuthzProvider) (m n : ℕ) (path : Bytes)
    → length path ≤ m
    → length path ≤ n
    → parent_rules m p path ≡ parent_rules n p path
unfolding parent_rules before_last_slash
parent_rules-fuel p zero zero path h k = refl
parent_rules-fuel p zero (suc n) [] h k = refl
parent_rules-fuel p zero (suc n) (c ∷ s) h k = absurd (omega arith)
parent_rules-fuel p (suc m) zero [] h k = refl
parent_rules-fuel p (suc m) zero (c ∷ s) h k = absurd (omega arith)
parent_rules-fuel p (suc m) (suc n) path h k = elim (Option-cases (before_last_slash path)) [
  | inl e ↦ rw (e, parent_rules) refl
  | inr (parent, e) ↦
      rw (e, parent_rules)
        (rw
          (parent_rules-fuel p m n parent (omega (arith, length-before_last_slash path parent e))
            (omega (arith, length-before_last_slash path parent e)))
          refl)
]
