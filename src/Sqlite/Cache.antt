-- ===== src/Sqlite/Cache.antt =====
-- The `lru::LruCache` of reconstructed trees, as a parameter: its operations, and what is documented
-- of them. Which entry a full cache drops is left open.
use dsvn.Prelude.{ℕ, ◌≡◌, ◌⊎◌, Option, none, some}

pub record LruCache (V : Type 0) : Type 1 where
  pub State : Type 0
  pub empty : State
  -- The value that `get` returns, and the cache with the key made the most recent.
  pub get : ℕ → State → Option V
  pub touch : ℕ → State → State
  pub put : ℕ → V → State → State

pub record IsCache {V : Type 0} (l : LruCache V) : Type 0 where
  pub get-empty : (k : ℕ) → l.get k l.empty ≡ none
  -- `get` changes only the order of use.
  pub get-touch : (k j : ℕ) (c : l.State) → l.get k (l.touch j c) ≡ l.get k c
  -- `put` stores its value, and may drop others.
  pub get-put :
      (k j : ℕ) (v w : V) (c : l.State)
      → l.get k (l.put j v c) ≡ some w
      → ((k ≡ j) × (v ≡ w)) ⊎ (l.get k c ≡ some w)
