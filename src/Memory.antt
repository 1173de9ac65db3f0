-- ===== src/Memory.antt =====
-- The in-memory repository (dsvn-core/src/repository.rs). An operation that fails returns `none`;
-- the text of its error is not modelled, nor the random UUID.
pub mod RoundTrip
use dsvn.Prelude.{
  ℕ, zero, suc, ◌+◌, ℤ, pos, Bool, true, false, Option, none, some, List, [], ◌∷◌, ◌++◌,
  if◌then◌else◌, ltb, leb, length, ◌==◌, ◌>>=◌,
}
use dsvn.Bytes.{Bytes, ascii, trim_slashes, is_empty}
use dsvn.SortedMap
use dsvn.SortedMap.{SortedMap}
use dsvn.Text.{split_on}
use dsvn.Object.{
  ObjectId, ObjectKind, blob, tree, commit, TreeEntry, Tree, Commit, Externals, new_blob, new_tree,
  tree_insert, tree_get, tree_remove, blob_id, tree_id, commit_id,
}

pub record MemoryRepository : Type 0 where
  pub objects : SortedMap Bytes
  pub root_tree : Tree
  pub current_rev : ℕ
  pub commits : ℕ → Option Commit
  pub path_index : SortedMap ObjectId

abbrev pub new_memory : MemoryRepository
new_memory = record {
  objects = [];
  root_tree = new_tree;
  current_rev = 0;
  commits = λ rev. none;
  path_index = [];
}

abbrev pub is_blob_entry : ObjectKind → Bool
is_blob_entry blob = true
is_blob_entry tree = false
is_blob_entry commit = false

unfoldable pub entry_names : SortedMap TreeEntry → List Bytes
entry_names [] = []
entry_names ((k, e) ∷ es) = e.name ∷ entry_names es

unfoldable pub memory_delete_file : MemoryRepository → Bytes → MemoryRepository
memory_delete_file r path = record r {
  path_index = SortedMap.remove path r.path_index;
  root_tree = (tree_remove r.root_tree (trim_slashes path)).0;
}

unfoldable pub insert_absent : ObjectId → Bytes → SortedMap Bytes → SortedMap Bytes
insert_absent id bytes objects = elim (SortedMap.get id objects) [
  | some there ↦ objects
  | none ↦ SortedMap.insert id bytes objects
]

-- The loop from `rev` down to 0; the limit is asked only after a commit is added.
unfoldable pub memory_log_down : (ℕ → Option Commit) → ℕ → ℕ → List Commit → List Commit
memory_log_down commits limit zero result = elim (commits 0) [
  | none ↦ result
  | some c ↦ result ++ c ∷ []
]
memory_log_down commits limit (suc rev) result = elim (commits (suc rev)) [
  | none ↦ memory_log_down commits limit rev result
  | some c ↦
      let more = memory_log_down commits limit rev (result ++ c ∷ []) in
      if leb limit (length (result ++ c ∷ [])) then result ++ c ∷ [] else more
]

unfoldable pub memory_log : MemoryRepository → ℕ → ℕ → List Commit
unfolding memory_log_down
memory_log r start_rev limit =
    memory_log_down r.commits limit
      (if leb start_rev r.current_rev then start_rev else r.current_rev) []

module _ (x : Externals) where
  unfoldable pub read_blob : SortedMap Bytes → ObjectId → Option Bytes
  read_blob objects id = do
    bytes ← SortedMap.get id objects
    b ← x.blobs.deserialize bytes
    some b.content

  unfoldable pub read_tree : SortedMap Bytes → ObjectId → Option Tree
  read_tree objects id = do bytes ← SortedMap.get id objects; x.trees.deserialize bytes

  unfoldable pub root_at : MemoryRepository → ℕ → Option Tree
  unfolding read_tree
  root_at r rev = do c ← r.commits rev; read_tree r.objects c.tree_id

  -- The walk from tree to tree; the last part names the file.
  unfoldable pub walk_file : SortedMap Bytes → List Bytes → Tree → Option Bytes
  unfolding read_blob read_tree
  walk_file objects [] current_tree = none
  walk_file objects (part ∷ []) current_tree =
      if is_empty part
      then none
      else elim (tree_get current_tree part) [ none ↦ none | some e ↦ read_blob objects e.id ]
  walk_file objects (part ∷ next ∷ parts) current_tree =
      if is_empty part then walk_file objects (next ∷ parts) current_tree else (do
        e ← tree_get current_tree part
        below ← read_tree objects e.id
        walk_file objects (next ∷ parts) below)

  -- The file of the full path, if the root tree has one, and otherwise the walk.
  unfoldable pub memory_file_in : SortedMap Bytes → Bytes → Tree → Option Bytes
  unfolding walk_file
  memory_file_in objects full_path t =
      let walked = walk_file objects (split_on b'/' full_path) t in
      elim (tree_get t full_path) [
        | none ↦ walked
        | some e ↦ if is_blob_entry e.kind then read_blob objects e.id else walked
      ]

  unfoldable pub memory_get_file : MemoryRepository → Bytes → ℕ → Option Bytes
  unfolding root_at memory_file_in
  memory_get_file r path rev = do t ← root_at r rev; memory_file_in r.objects (trim_slashes path) t

  unfoldable pub walk_dir : SortedMap Bytes → List Bytes → Tree → Option Tree
  unfolding read_tree
  walk_dir objects [] current_tree = some current_tree
  walk_dir objects (part ∷ parts) current_tree =
      if is_empty part then walk_dir objects parts current_tree else (do
        e ← tree_get current_tree part
        below ← read_tree objects e.id
        walk_dir objects parts below)

  unfoldable pub memory_list_dir : MemoryRepository → Bytes → ℕ → Option (List Bytes)
  unfolding root_at walk_dir
  memory_list_dir r path rev = do
    t ← root_at r rev
    dir ← walk_dir r.objects (split_on b'/' (trim_slashes path)) t
    some (entry_names dir.entries)

  unfoldable pub memory_add_file :
      MemoryRepository → (path content : Bytes) → Bool → ObjectId × MemoryRepository
  memory_add_file r path content executable =
      let b = new_blob content executable in
      let id = blob_id x b in
      let entry : TreeEntry = record {
        name = trim_slashes path;
        id = id;
        kind = blob;
        mode = if executable then 0o755 else 0o644;
      } in
      (
        id,
        record r {
          objects = SortedMap.insert id (x.blobs.serialize b) r.objects;
          root_tree = tree_insert r.root_tree entry;
          path_index = SortedMap.insert path id r.path_index;
        },
      )

  -- Both cases of the source add an empty tree under the full path.
  unfoldable pub memory_mkdir : MemoryRepository → Bytes → ObjectId × MemoryRepository
  memory_mkdir r path =
      let id = tree_id x new_tree in
      let entry : TreeEntry = record {
        name = trim_slashes path;
        id = id;
        kind = tree;
        mode = 0o755;
      } in
      (
        id,
        record r {
          objects = SortedMap.insert id (x.trees.serialize new_tree) r.objects;
          root_tree = tree_insert r.root_tree entry;
          path_index = SortedMap.insert path id r.path_index;
        },
      )

  -- The commit that the next revision gets.
  unfoldable pub memory_commit_of : MemoryRepository → (author message : Bytes) → ℤ → Commit
  memory_commit_of r author message timestamp = record {
    tree_id = tree_id x r.root_tree;
    parents =
        if ltb 0 r.current_rev
        then elim (r.commits r.current_rev) [ none ↦ [] | some parent ↦ commit_id x parent ∷ [] ]
        else [];
    author = author;
    message = message;
    timestamp = timestamp;
    tz_offset = pos 0;
  }

  unfoldable pub memory_commit :
      MemoryRepository → (author message : Bytes) → ℤ → ℕ × MemoryRepository
  unfolding insert_absent
  memory_commit r author message timestamp =
      let c = memory_commit_of r author message timestamp in
      let stored =
        insert_absent (tree_id x r.root_tree) (x.trees.serialize r.root_tree) r.objects in
      let new_rev = r.current_rev + 1 in
      (
        new_rev,
        record r {
          objects = SortedMap.insert (commit_id x c) (x.commits.serialize c) stored;
          commits = λ rev. if new_rev == rev then some c else r.commits rev;
          current_rev = new_rev;
        },
      )

  unfoldable pub memory_exists : MemoryRepository → Bytes → ℕ → Bool
  unfolding memory_get_file
  memory_exists r path rev = elim (memory_get_file r path rev) [
    | none ↦ false
    | some content ↦ true
  ]

  unfoldable pub memory_initialize : ℤ → MemoryRepository → MemoryRepository
  memory_initialize now r =
      let c : Commit = record {
        tree_id = tree_id x new_tree;
        parents = [];
        author = ascii "system";
        message = ascii "Initial commit";
        timestamp = now;
        tz_offset = pos 0;
      } in
      record r {
        objects =
            SortedMap.insert (commit_id x c) (x.commits.serialize c)
              (SortedMap.insert (tree_id x new_tree) (x.trees.serialize new_tree) r.objects);
        commits = λ rev. if 0 == rev then some c else r.commits rev;
      }
