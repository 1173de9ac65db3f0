-- ===== src/WebDav/Transactions/Numbered.antt =====
-- The names that the server makes for transactions (dsvn-webdav/src/handlers.rs), and tables in
-- which all names are such.
use dsvn.Prelude.{
  ℕ, ◌+◌, ◌^◌, ◌<◌, ◌≡◌, sym, ap, ◌∙◌, false, some, arith, Bool-cases, inl, inr, ◌==◌,
}
use mathlib.Core.Option.{none-ne-some}
use dsvn.Bytes.{Bytes, eqb, eqb_iff}
use dsvn.Text.{split_once}
use dsvn.Text.Search.{Free, split_once-Free}
use dsvn.Decimal.{decimal, parse_u64}
use dsvn.Decimal.RoundTrip.{decimal-All, parse_u64-decimal}
use dsvn.SortedMap
use dsvn.SortedMap.{SortedMap, get-insert, get-remove}
use dsvn.Sqlite.Repo.{Setting}
use dsvn.WebDav.Transactions.{Transaction, Server, txn_name}

-- Every transaction has the name that a revision and an earlier value of the counter make.
abbrev pub Numbered : SortedMap Transaction → ℕ → Type 0
Numbered transactions counter =
    (name : Bytes) (txn : Transaction)
    → SortedMap.get name transactions ≡ some txn
    → (rev : ℕ) × (seq : ℕ) × (name ≡ txn_name rev seq) × (seq < counter)

pub record IsNumbered {s : Setting} (v : Server s) : Type 0 where
  pub bounded : v.txn_counter < 2 ^ 64
  pub numbered : Numbered v.transactions v.txn_counter

-- The sequence number can be read off the name.
pub txn_name_injective :
    (rev seq rev' seq' : ℕ)
    → seq < 2 ^ 64
    → seq' < 2 ^ 64
    → txn_name rev seq ≡ txn_name rev' seq'
    → seq ≡ seq'
unfolding txn_name
txn_name_injective rev seq rev' seq' b b' e =
    let parts =
      sym (split_once-Free b'-' (decimal rev) (decimal seq) (no_dash rev))
      ∙ ap (split_once b'-') e
      ∙ split_once-Free b'-' (decimal rev') (decimal seq') (no_dash rev') in
    let same : decimal seq ≡ decimal seq' = cc in
    let numbers = sym (parse_u64-decimal seq b) ∙ ap parse_u64 same ∙ parse_u64-decimal seq' b' in
    cc
  where
    digit : (d : ℕ) → d < 10 → (48 + d == b'-') ≡ false
    digit d h = ground arith

    no_dash : (n : ℕ) → Free b'-' (decimal n)
    no_dash n = decimal-All (λ c. (c == b'-') ≡ false) digit n

-- A table in which a transaction is replaced under its own name stays numbered, and one from which a
-- transaction is removed.
pub insert-Numbered :
    (transactions : SortedMap Transaction) (counter : ℕ) (name : Bytes) (txn txn' : Transaction)
    → SortedMap.get name transactions ≡ some txn
    → Numbered transactions counter
    → Numbered (SortedMap.insert name txn' transactions) counter
insert-Numbered transactions counter name txn txn' at n name' t h =
    let h' = sym (get-insert name' name txn' transactions) ∙ h in
    elim (Bool-cases (eqb name name')) [
      | inl e ↦ n name' txn (rw (sym ((eqb_iff name name').0 e)) at)
      | inr ne ↦ n name' t (rw ne at h')
    ]

pub remove-Numbered :
    (transactions : SortedMap Transaction) (counter : ℕ) (name : Bytes)
    → Numbered transactions counter
    → Numbered (SortedMap.remove name transactions) counter
remove-Numbered transactions counter name n name' t h =
    let h' = sym (get-remove name' name transactions) ∙ h in
    elim (Bool-cases (eqb name name')) [
      | inl e ↦ absurd (none-ne-some t (rw e at h'))
      | inr ne ↦ n name' t (rw ne at h')
    ]

-- A new transaction takes the counter's value, and the counter goes on.
pub add-Numbered :
    (transactions : SortedMap Transaction) (counter rev : ℕ) (txn : Transaction)
    → Numbered transactions counter
    → Numbered (SortedMap.insert (txn_name rev counter) txn transactions) (counter + 1)
add-Numbered transactions counter rev txn n name' t h =
    let h' = sym (get-insert name' (txn_name rev counter) txn transactions) ∙ h in
    elim (Bool-cases (eqb (txn_name rev counter) name')) [
      | inl e ↦ (rev, counter, sym ((eqb_iff (txn_name rev counter) name').0 e), omega arith)
      | inr ne ↦
          let (rev', seq, named, b) = n name' t (rw ne at h') in (rev', seq, named, omega arith)
    ]
