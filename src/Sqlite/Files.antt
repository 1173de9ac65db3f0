-- ===== src/Sqlite/Files.antt =====
-- The files of a repository directory: objects by id, commits, tree snapshots and delta trees by
-- revision, and the functions that read and write them. A file is its bytes; a missing file is
-- `none`. Failures of the disk are not modelled. The path of an object is its id in hexadecimal, so
-- the files are indexed by the id.
use dsvn.Prelude.{
  ◌≡◌, refl, ◌⊎◌, inl, inr, ℕ, Bool, true, false, Option, none, some, if◌then◌else◌, ◌==◌,
}
use dsvn.Bytes.{Bytes, eqb}
use dsvn.Object.{ObjectId, Blob, Tree, Commit, DeltaTree, Codec, Externals}

pub data Failure : Type 0 where
  missing undecodable no_base null_column endless path_not_found : Failure
  hook_rejected : Bytes → Failure

pub data Result {ℓ} (A : Type ℓ) : Type ℓ where
  ok : A → Result A
  err : Failure → Result A

infixl 10 ◌>>=◌
abbrev pub ◌>>=◌ {ℓ κ} : {A : Type ℓ} {B : Type κ} → Result A → (A → Result B) → Result B
ok a >>= f = f a
err e >>= f = err e

pub Result-cases :
    {A : Type 0} → (x : Result A) → ((a : A) × (x ≡ ok a)) ⊎ ((e : Failure) × (x ≡ err e))
Result-cases (ok a) = inl (a, refl)
Result-cases (err e) = inr (e, refl)

pub record Files : Type 0 where
  pub objects : Bytes → Option Bytes
  pub commits : ℕ → Option Bytes
  pub snapshots : ℕ → Option Bytes
  pub delta_files : ℕ → Option Bytes

abbrev pub write_at : ℕ → Bytes → (ℕ → Option Bytes) → ℕ → Option Bytes
write_at rev bytes f r = if rev == r then some bytes else f r

abbrev pub exists {ℓ} : {A : Type ℓ} → Option A → Bool
exists none = false
exists (some a) = true

-- `fs::read` followed by `bincode::deserialize`.
unfoldable pub read_as : {A : Type 0} → Codec A → Option Bytes → Result A
read_as c none = err missing
read_as c (some bytes) = elim (c.deserialize bytes) [ none ↦ err undecodable | some a ↦ ok a ]

-- An object that is there already is not written again.
unfoldable pub store_object : Files → ObjectId → Bytes → Files
store_object f id bytes =
    if exists (f.objects id)
    then f
    else record f { objects = λ j. if eqb id j then some bytes else f.objects j }

module _ (x : Externals) where
  unfoldable pub load_blob : Files → ObjectId → Result Blob
  load_blob f id = read_as x.blobs (f.objects id)

  unfoldable pub load_tree : Files → ObjectId → Result Tree
  load_tree f id = read_as x.trees (f.objects id)

  unfoldable pub store_commit : Files → ℕ → Commit → Files
  store_commit f rev c = record f { commits = write_at rev (x.commits.serialize c) f.commits }

  unfoldable pub load_commit : Files → ℕ → Result Commit
  load_commit f rev = read_as x.commits (f.commits rev)

  unfoldable pub store_tree_snapshot : Files → ℕ → Tree → Files
  store_tree_snapshot f rev t = record f {
    snapshots = write_at rev (x.trees.serialize t) f.snapshots;
  }

  unfoldable pub load_tree_snapshot : Files → ℕ → Result Tree
  load_tree_snapshot f rev = read_as x.trees (f.snapshots rev)

  unfoldable pub store_delta_tree : Files → ℕ → DeltaTree → Files
  store_delta_tree f rev d = record f {
    delta_files = write_at rev (x.deltas.serialize d) f.delta_files;
  }

  unfoldable pub load_delta_tree : Files → ℕ → Result DeltaTree
  load_delta_tree f rev = read_as x.deltas (f.delta_files rev)
