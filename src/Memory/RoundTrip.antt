-- ===== src/Memory/RoundTrip.antt =====
-- `add_file` and `commit` against `get_file` (dsvn-core/src/repository.rs).
use dsvn.Prelude.{
  ◌+◌, ℤ, ◌≡◌, refl, ◌∙◌, Bool, false, some, if◌then◌else◌, ==_iff, Option-cases, inl, inr,
}
use dsvn.Bytes.{Bytes, eqb, eqb_refl, trim_slashes}
use dsvn.SortedMap
use dsvn.SortedMap.{SortedMap, get-insert}
use dsvn.Object.{
  blob, ObjectId, TreeEntry, Commit, Externals, IsLawful, new_blob, blob_id, tree_id, commit_id,
  tree_insert, tree_get,
}
use dsvn.Memory.{
  MemoryRepository, read_blob, read_tree, root_at, memory_file_in, memory_get_file, memory_add_file,
  memory_commit, memory_commit_of, insert_absent,
}

-- The digests of the objects that a commit stores are apart from each other and from the blob's, and
-- what is stored under the tree's digest, if anything, is the tree.
pub record IsApart (x : Externals) (r : MemoryRepository) (c : Commit) (id : ObjectId)
    : Type 0 where
  pub tree_blob : eqb (tree_id x r.root_tree) id ≡ false
  pub commit_blob : eqb (commit_id x c) id ≡ false
  pub commit_tree : eqb (commit_id x c) (tree_id x r.root_tree) ≡ false
  pub own_tree :
      (bytes : Bytes)
      → SortedMap.get (tree_id x r.root_tree) r.objects ≡ some bytes
      → x.trees.deserialize bytes ≡ some r.root_tree

get-insert_absent :
    (id j : ObjectId) (bytes : Bytes) (objects : SortedMap Bytes)
    → eqb id j ≡ false
    → SortedMap.get j (insert_absent id bytes objects) ≡ SortedMap.get j objects
unfolding insert_absent
get-insert_absent id j bytes objects h = elim (Option-cases (SortedMap.get id objects)) [
  | inl gone ↦ rw (gone, insert_absent) (get-insert j id bytes objects ∙ rw h refl)
  | inr (there, e) ↦ rw (e, insert_absent) refl
]

module _ {x : Externals} (lawful : IsLawful x) where
  read_tree-insert_absent :
      (r : MemoryRepository) (c : Commit) (id : ObjectId)
      → IsApart x r c id
      → read_tree x
          (insert_absent (tree_id x r.root_tree) (x.trees.serialize r.root_tree) r.objects)
          (tree_id x r.root_tree)
        ≡ some r.root_tree
  unfolding read_tree insert_absent
  read_tree-insert_absent r c id v =
      elim (Option-cases (SortedMap.get (tree_id x r.root_tree) r.objects)) [
        | inl gone ↦
            rw (gone, insert_absent)
              (rw
                (get-insert (tree_id x r.root_tree) (tree_id x r.root_tree)
                  (x.trees.serialize r.root_tree) r.objects)
                (rw (eqb_refl (tree_id x r.root_tree)) (lawful.trees_lem r.root_tree)))
        | inr (bytes, e) ↦ rw (e, insert_absent) (rw e (v.own_tree bytes e))
      ]

  module _ (r : MemoryRepository) (path content : Bytes) (executable : Bool)
      (author message : Bytes) (timestamp : ℤ) where
    abbrev pub after_add : MemoryRepository
    after_add = (memory_add_file x r path content executable).1

    abbrev pub next_commit : Commit
    next_commit = memory_commit_of x after_add author message timestamp

    abbrev pub added_id : ObjectId
    added_id = blob_id x (new_blob content executable)

    root_at-memory_commit :
        IsApart x after_add next_commit added_id
        → root_at x
            (memory_commit x after_add author message timestamp).1
            (after_add.current_rev + 1)
          ≡ some after_add.root_tree
    unfolding root_at memory_commit read_tree memory_commit_of
    root_at-memory_commit v =
        rw ((==_iff (after_add.current_rev + 1) (after_add.current_rev + 1)).1 refl) (
          rw
            (get-insert (tree_id x after_add.root_tree) (commit_id x next_commit)
              (x.commits.serialize next_commit) _)
            (rw v.commit_tree (read_tree-insert_absent after_add next_commit added_id v)))

    get-memory_add_file :
        SortedMap.get added_id after_add.objects
        ≡ some (x.blobs.serialize (new_blob content executable))
    unfolding memory_add_file
    get-memory_add_file =
        get-insert added_id added_id (x.blobs.serialize (new_blob content executable)) r.objects
        ∙ rw (eqb_refl added_id) refl

    abbrev entry : TreeEntry
    entry = record {
      name = trim_slashes path;
      id = added_id;
      kind = blob;
      mode = if executable then 0o755 else 0o644;
    }

    tree_get-memory_add_file : tree_get after_add.root_tree (trim_slashes path) ≡ some entry
    unfolding memory_add_file tree_insert tree_get
    tree_get-memory_add_file =
        get-insert (trim_slashes path) (trim_slashes path) entry r.root_tree.entries
        ∙ rw (eqb_refl (trim_slashes path)) refl

    read_blob-memory_commit :
        IsApart x after_add next_commit added_id
        → read_blob x (memory_commit x after_add author message timestamp).1.objects added_id
          ≡ some content
    unfolding read_blob memory_commit
    read_blob-memory_commit v =
        rw (get-insert added_id (commit_id x next_commit) (x.commits.serialize next_commit) _) (
          rw v.commit_blob (
            rw
              (get-insert_absent (tree_id x after_add.root_tree) added_id
                (x.trees.serialize after_add.root_tree) after_add.objects v.tree_blob)
              (rw get-memory_add_file (rw (lawful.blobs_lem (new_blob content executable)) refl))))

    -- A file that is added to the in-memory repository and committed reads back from the new revision
    -- with its content, over a lawful serializer, if the digests of the stored objects are apart.
    pub memory_get_file-memory_commit :
        IsApart x after_add next_commit added_id
        → memory_get_file x
            (memory_commit x after_add author message timestamp).1
            path
            (after_add.current_rev + 1)
          ≡ some content
    unfolding memory_get_file memory_file_in
    memory_get_file-memory_commit v =
        rw (root_at-memory_commit v, memory_get_file)
          (rw (tree_get-memory_add_file, memory_file_in) (read_blob-memory_commit v))
