-- ===== src/Examples/Memories.antt =====
-- An in-memory repository with one file.
use dsvn.Prelude.{◌+◌, pos, ◌≡◌, refl, false, some}
use mathlib.Core.Option.{none-ne-some}
use dsvn.Bytes.{Bytes, ascii}
use dsvn.Object.{IsLawful}
use dsvn.Memory.{MemoryRepository, new_memory, memory_initialize, memory_commit, memory_get_file}
use dsvn.Memory.RoundTrip.{IsApart, after_add, next_commit, added_id, memory_get_file-memory_commit}
use dsvn.Examples.Settings.{externals, externals-IsLawful}

abbrev begun : MemoryRepository
begun = memory_initialize externals (pos 0) new_memory

abbrev with_file : MemoryRepository
with_file =
    after_add externals-IsLawful begun (ascii "/a") (ascii "hi") false (ascii "alice") (ascii "m")
      (pos 1)

begun-IsApart :
    IsApart externals with_file
      (next_commit externals-IsLawful begun
        (ascii "/a")
        (ascii "hi")
        false
        (ascii "alice")
        (ascii "m")
        (pos 1))
      (added_id externals-IsLawful begun
        (ascii "/a")
        (ascii "hi")
        false
        (ascii "alice")
        (ascii "m")
        (pos 1))
unfolding dsvn.Bytes.eqb dsvn.Object.tree_id dsvn.Object.blob_id dsvn.Memory.memory_add_file
    dsvn.Object.tree_insert dsvn.SortedMap.insert memory_initialize dsvn.Bytes.trim_slashes
    dsvn.Object.commit_id dsvn.Memory.memory_commit_of dsvn.SortedMap.get dsvn.Bytes.cmp
begun-IsApart = record {
  tree_blob = refl;
  commit_blob = refl;
  commit_tree = refl;
  own_tree = λ bytes e. absurd (none-ne-some bytes e);
}

memory_get_file-memory_commit_example :
    memory_get_file externals
      (memory_commit externals with_file (ascii "alice") (ascii "m") (pos 1)).1
      (ascii "/a")
      (with_file.current_rev + 1)
    ≡ some (ascii "hi")
memory_get_file-memory_commit_example =
    memory_get_file-memory_commit externals-IsLawful begun (ascii "/a") (ascii "hi") false
      (ascii "alice") (ascii "m") (pos 1) begun-IsApart
