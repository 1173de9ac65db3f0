-- ===== src/Sqlite/RoundTrip.antt =====
-- `add_file` and a commit against `get_file` (dsvn-core/src/sqlite_repository.rs).
use dsvn.Prelude.{
  ℕ, ◌+◌, ◌%◌, ℤ, ◌≡◌, refl, ap, ◌∙◌, Bool, some, arith, ◌==◌, Bool-cases, Option-cases, inl, inr,
}
use dsvn.Bytes.{Bytes, eqb_iff, eqb_refl, trim_slashes}
use dsvn.SortedMap
use dsvn.SortedMap.{SortedMap, get-insert}
use dsvn.SortedMap.Order.{insert-IsSorted}
use dsvn.Hooks.{accepted}
use dsvn.Object.{ObjectId, blob, TreeEntry, Blob, new_blob, blob_id, DeltaTree}
use dsvn.Sqlite.Table.{
  TreeDb, conn_build_tree, conn_tree_insert, row_to_entry, bytes_to_oid, kind_to_i64, i64_to_kind,
}
use dsvn.Sqlite.Pending.{staged}
use dsvn.Sqlite.Staging.{get-conn_build_tree, collect_total}
use dsvn.Sqlite.Files.{
  Files, ok, store_object, store_commit, store_delta_tree, store_tree_snapshot, load_blob, read_as,
}
use dsvn.Sqlite.Reconstruct.{TreeMap}
use dsvn.Sqlite.Commit.{IsSound, IsRepo, Says, commit_with_writes}
use dsvn.Sqlite.Operations.{IsFresh, add_file-IsRepo}
use dsvn.Sqlite.Revisions.{tree_at-commit}
use dsvn.Sqlite.Read.{file_in, get_file}
use dsvn.Sqlite.Repo.{
  Setting, Repo, commit, write_commit, store_revision, add_file, file_mode, tree_at,
}

-- An object that is stored is never overwritten.
objects-store_object :
    (f : Files) (id j : ObjectId) (b c : Bytes)
    → f.objects id ≡ some b
    → (store_object f j c).objects id ≡ some b
unfolding store_object
objects-store_object f id j b c h = ground (arith, eqb_iff j id)

-- What is stored at the id of a blob, if anything, is a blob of the same content: no other object
-- has its digest.
abbrev pub IsOwn : (s : Setting) → Files → Blob → Type 0
IsOwn s f b =
    (bytes : Bytes)
    → f.objects (blob_id s.externals b) ≡ some bytes
    → (b' : Blob) × (s.externals.blobs.deserialize bytes ≡ some b') × (b'.content ≡ b.content)

module _ {s : Setting} (sound : IsSound s) where
  -- After `store_object`, the blob's id leads to its content.
  stored_blob :
      (f : Files) (b : Blob)
      → IsOwn s f b
      → (bytes : Bytes) × (b' : Blob) × ((store_object f
              (blob_id s.externals b)
              (s.externals.blobs.serialize b)).objects
            (blob_id s.externals b)
          ≡ some bytes)
        × (s.externals.blobs.deserialize bytes ≡ some b')
        × (b'.content ≡ b.content)
  unfolding store_object
  stored_blob f b own = elim (Option-cases (f.objects (blob_id s.externals b))) [
    | inl fresh ↦ (
      s.externals.blobs.serialize b,
      record b { size = 0 },
      rw fresh (rw eqb_refl),
      sound.lawful.blobs_lem b,
      refl,
    )
    | inr (bytes, there) ↦
        let (b', decodes, same) = own bytes there in (bytes, b', rw there there, decodes, same)
  ]

  objects-write_commit :
      (r : Repo s) (db : TreeDb) (d : DeltaTree) (author message : Bytes) (timestamp : ℤ)
      (id : ObjectId) (b : Bytes)
      → r.files.objects id ≡ some b
      → (write_commit s r db d author message timestamp).files.objects id ≡ some b
  unfolding write_commit store_tree_snapshot store_revision store_commit store_delta_tree
  objects-write_commit r db d author message timestamp id b h =
      elim (Bool-cases ((r.current_rev + 1) % 1000 == 0)) [
        | inl snap ↦
            rw snap (objects-store_object _ id _ b _ (objects-store_object r.files id _ b _ h))
        | inr plain ↦
            rw plain (objects-store_object _ id _ b _ (objects-store_object r.files id _ b _ h))
      ]

  objects-commit :
      {r : Repo s} {hist : ℕ → TreeMap} (v : IsRepo s r hist) (author message : Bytes)
      (timestamp : ℤ) (id : ObjectId) (b : Bytes)
      → Says s r author message timestamp accepted
      → r.files.objects id ≡ some b
      → (commit s r author message timestamp).1.files.objects id ≡ some b
  unfolding commit
  objects-commit {r} v author message timestamp id b accepts h =
      let collected = collect_total v.staged in
      rw
        (commit_with_writes s (write_commit s) r author message timestamp _ _ _ collected
          (accepts _ _ _ collected))
        (objects-write_commit r _ _ author message timestamp id b h)

  staged_blob :
      (p : Bytes) (b : Blob) (mode : ℕ)
      → ((staged p (blob_id s.externals b) blob mode).id ≡ blob_id s.externals b)
        × ((staged p (blob_id s.externals b) blob mode).kind ≡ blob)
  unfolding row_to_entry bytes_to_oid kind_to_i64 i64_to_kind blob_id
  staged_blob p b mode = (rw (sound.lawful.digest_length b.content), refl)

  file_in_lem :
      (f : Files) (tm : TreeMap) (path : Bytes) (e : TreeEntry) (bytes : Bytes) (b : Blob)
      → SortedMap.get (trim_slashes path) tm ≡ some e
      → e.kind ≡ blob
      → f.objects e.id ≡ some bytes
      → s.externals.blobs.deserialize bytes ≡ some b
      → file_in s f tm path ≡ ok b.content
  unfolding file_in load_blob read_as
  file_in_lem f tm path e bytes b there kind at decodes =
      rw (there, file_in) (rw (kind, file_in) (rw (at, read_as) (rw (decodes, read_as))))

  added_entry :
      {r : Repo s} {hist : ℕ → TreeMap} (v : IsRepo s r hist) (path content : Bytes)
      (executable : Bool)
      → SortedMap.get
          (trim_slashes path)
          (conn_build_tree (add_file s r path content executable).1.db).entries
        ≡ some (
            staged
              (trim_slashes path)
              (blob_id s.externals (new_blob content executable))
              blob
              (file_mode executable))
  unfolding add_file conn_tree_insert
  added_entry {r} v path content executable =
      get-conn_build_tree (trim_slashes path) _
        (insert-IsSorted (trim_slashes path) _ r.db.tree_entries v.staged.rows_sorted)
      ∙ rw get-insert (rw eqb_refl)

  next_tree :
      {r : Repo s} {hist : ℕ → TreeMap} (v : IsRepo s r hist) (path content : Bytes)
      (executable : Bool) (author message : Bytes) (timestamp : ℤ)
      → IsFresh s r hist (trim_slashes path)
      → Says s (add_file s r path content executable).1 author message timestamp accepted
      → (tree_at s
          (commit s (add_file s r path content executable).1 author message timestamp).1
          (r.current_rev + 1)).0
        ≡ ok (conn_build_tree (add_file s r path content executable).1.db).entries
  unfolding add_file
  next_tree v path content executable author message timestamp fresh accepts =
      (tree_at-commit sound (add_file-IsRepo v path content executable fresh) author message
        timestamp 0 accepts (omega arith)).0

  -- In a repository that satisfies the invariant, over a lawful serializer and cache, a file that
  -- is added and committed, with the hook accepting, reads back from the new revision with its
  -- content, if no pending deletion of its path hides committed entries below it, and what is
  -- stored under its digest, if anything, is a blob of that content.
  pub get_file-commit-add_file :
      {r : Repo s} {hist : ℕ → TreeMap} (v : IsRepo s r hist) (path content : Bytes)
      (executable : Bool) (author message : Bytes) (timestamp : ℤ)
      → IsFresh s r hist (trim_slashes path)
      → IsOwn s r.files (new_blob content executable)
      → Says s (add_file s r path content executable).1 author message timestamp accepted
      → (get_file s
          (commit s (add_file s r path content executable).1 author message timestamp).1
          path
          (r.current_rev + 1)).0
        ≡ ok content
  unfolding get_file
  get_file-commit-add_file {r} {hist} v path content executable author message timestamp fresh own
        accepts =
      let v1 = add_file-IsRepo v path content executable fresh in
      let r1 : Repo s = (add_file s r path content executable).1 in
      let b : Blob = new_blob content executable in
      let (bytes, b', at, decodes, same) = stored_blob r.files b own in
      let entry = staged_blob (trim_slashes path) b (file_mode executable) in
      let at' : r1.files.objects (blob_id s.externals b) ≡ some bytes = unfold add_file in at in
      rw (next_tree v path content executable author message timestamp fresh accepts) (
        file_in_lem (commit s r1 author message timestamp).1.files (conn_build_tree r1.db).entries
          path _ bytes b' (added_entry v path content executable) entry.1
          (rw entry.0
            (objects-commit v1 author message timestamp (blob_id s.externals b) bytes accepts at'))
          decodes
        ∙ ap ok same)
