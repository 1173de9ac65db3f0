-- ===== src/Object.antt =====
-- The object model (dsvn-core/src/object.rs): blobs, tree entries, trees, commits and delta trees,
-- and the ids of objects. `bincode` and SHA-256 are the fields of `Externals`.
use dsvn.Prelude.{ℕ, ℤ, ◌≡◌, Bool, Option, some, List, [], length}
use dsvn.Bytes.{Bytes}
use dsvn.SortedMap
use dsvn.SortedMap.{SortedMap}

-- `ObjectId([u8; 32])`, as its bytes.
abbrev pub ObjectId : Type 0
ObjectId = Bytes

pub data ObjectKind : Type 0 where
  blob tree commit : ObjectKind

pub record Blob : Type 0 where
  pub content : Bytes
  pub size : ℕ
  pub executable : Bool

pub record TreeEntry : Type 0 where
  pub name : Bytes
  pub id : ObjectId
  pub kind : ObjectKind
  pub mode : ℕ

pub record Tree : Type 0 where
  pub entries : SortedMap TreeEntry

pub record Commit : Type 0 where
  pub tree_id : ObjectId
  pub parents : List ObjectId
  pub author : Bytes
  pub message : Bytes
  pub timestamp : ℤ
  pub tz_offset : ℤ

pub data TreeChange : Type 0 where
  upsert : Bytes → TreeEntry → TreeChange
  delete : Bytes → TreeChange

pub record DeltaTree : Type 0 where
  pub parent_rev : ℕ
  pub changes : List TreeChange
  pub total_entries : ℕ

-- `bincode::serialize` and `bincode::deserialize` at one type. Serialising these structs into a
-- vector does not fail.
pub record Codec (A : Type 0) : Type 0 where
  pub serialize : A → Bytes
  pub deserialize : Bytes → Option A

-- The library code that the repository calls: the codec of each stored type, and SHA-256.
pub record Externals : Type 0 where
  pub blobs : Codec Blob
  pub trees : Codec Tree
  pub commits : Codec Commit
  pub deltas : Codec DeltaTree
  pub sha256 : Bytes → Bytes

-- What is documented of it: decoding gives back what was encoded, less the skipped field `size` of
-- a blob, and a digest has 32 bytes.
pub record IsLawful (x : Externals) : Type 0 where
  pub blobs_lem :
      (b : Blob) → x.blobs.deserialize (x.blobs.serialize b) ≡ some (record b { size = 0 })
  pub trees_lem : (t : Tree) → x.trees.deserialize (x.trees.serialize t) ≡ some t
  pub commits_lem : (c : Commit) → x.commits.deserialize (x.commits.serialize c) ≡ some c
  pub deltas_lem : (d : DeltaTree) → x.deltas.deserialize (x.deltas.serialize d) ≡ some d
  pub digest_length : (b : Bytes) → length (x.sha256 b) ≡ 32

abbrev pub new_blob : Bytes → Bool → Blob
new_blob content executable = record {
  content = content;
  size = length content;
  executable = executable;
}

abbrev pub new_tree : Tree
new_tree = record { entries = [] }

unfoldable pub tree_insert : Tree → TreeEntry → Tree
tree_insert t e = record { entries = SortedMap.insert e.name e t.entries }

unfoldable pub tree_get : Tree → Bytes → Option TreeEntry
tree_get t name = SortedMap.get name t.entries

unfoldable pub tree_remove : Tree → Bytes → Tree × Option TreeEntry
tree_remove t name =
    (record { entries = SortedMap.remove name t.entries }, SortedMap.get name t.entries)

module _ (x : Externals) where
  -- `id()` of each kind of object. A blob's id is the digest of its content alone.
  unfoldable pub blob_id : Blob → ObjectId
  blob_id b = x.sha256 b.content

  unfoldable pub tree_id : Tree → ObjectId
  tree_id t = x.sha256 (x.trees.serialize t)

  unfoldable pub commit_id : Commit → ObjectId
  commit_id c = x.sha256 (x.commits.serialize c)

  unfoldable pub delta_id : DeltaTree → ObjectId
  delta_id d = x.sha256 (x.deltas.serialize d)
