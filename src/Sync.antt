-- ===== src/Sync.antt =====
-- The state of a synchronisation and its log (dsvn-core/src/sync.rs). `serde_json` is a codec for
-- each type. The directory is its state file and the files of `repl-log` by name, in the order in
-- which the directory is read; failures of the disk are not modelled.
pub mod Resume
pub mod Log
use dsvn.Prelude.{
  ℕ, ◌+◌, ◌-◌, ◌%◌, ◌^◌, ℤ, pos, Bool, true, false, not, ◌&&◌, Option, none, some, List, [], ◌∷◌,
  ◌++◌, if◌then◌else◌, ltb, leb,
}
use dsvn.Bytes.{Bytes, ascii, eqb}
use dsvn.SortedMap
use dsvn.SortedMap.{SortedMap}
use dsvn.Decimal.{decimal}
use dsvn.Text.{ends_with}
use dsvn.Object.{Codec}

pub record SyncState : Type 0 where
  pub source_uuid : Bytes
  pub source_url : Bytes
  pub last_synced_rev : ℕ
  pub source_head_rev : ℕ
  pub last_sync_timestamp : ℤ
  pub total_synced_revisions : ℕ
  pub sync_in_progress : Bool
  pub protocol_version : ℕ
  pub checkpoint_rev : Option ℕ

pub record ReplicationLogEntry : Type 0 where
  pub from_rev : ℕ
  pub to_rev : ℕ
  pub timestamp : ℤ
  pub objects_transferred : ℕ
  pub bytes_transferred : ℕ
  pub duration_ms : ℕ
  pub success : Bool
  pub error : Option Bytes

pub record Directory : Type 0 where
  pub state_file : Option Bytes
  pub log_files : SortedMap Bytes

abbrev pub new_sync_state : (source_uuid source_url : Bytes) → SyncState
new_sync_state source_uuid source_url = record {
  source_uuid = source_uuid;
  source_url = source_url;
  last_synced_rev = 0;
  source_head_rev = 0;
  last_sync_timestamp = pos 0;
  total_synced_revisions = 0;
  sync_in_progress = false;
  protocol_version = 1;
  checkpoint_rev = none;
}

-- What `load` finds: no file, a state, or a file that does not parse.
pub data Loaded : Type 0 where
  absent : Loaded
  found : SyncState → Loaded
  unreadable : Loaded

module _ (json : Codec SyncState) where
  unfoldable pub load : Directory → Loaded
  load d = elim d.state_file [
    | none ↦ absent
    | some text ↦ elim (json.deserialize text) [ none ↦ unreadable | some s ↦ found s ]
  ]

  unfoldable pub save : SyncState → Directory → Directory
  save s d = record d { state_file = some (json.serialize s) }

  unfoldable pub begin_sync : SyncState → Directory → SyncState × Directory
  unfolding save
  begin_sync s d = let s' : SyncState = record s { sync_in_progress = true } in (s', save s' d)

  -- The count of revisions is a `u64`, as a release build adds.
  unfoldable pub complete_sync : (now : ℤ) → ℕ → SyncState → Directory → SyncState × Directory
  unfolding save
  complete_sync now synced_rev s d =
      let s' : SyncState = record s {
        last_synced_rev = synced_rev;
        total_synced_revisions = (s.total_synced_revisions + 1) % 2 ^ 64;
        last_sync_timestamp = now;
        sync_in_progress = false;
        checkpoint_rev = none;
      } in
      (s', save s' d)

  unfoldable pub set_checkpoint : ℕ → SyncState → Directory → SyncState × Directory
  unfolding save
  set_checkpoint rev s d =
      let s' : SyncState = record s { checkpoint_rev = some rev } in (s', save s' d)

-- The log goes with the state.
unfoldable pub remove_state : Directory → Directory
remove_state d = record { state_file = none; log_files = [] }

unfoldable pub effective_start_rev : SyncState → ℕ
effective_start_rev s = elim s.checkpoint_rev [ none ↦ s.last_synced_rev | some rev ↦ rev ]

unfoldable pub verify_source : SyncState → Bytes → Bool
verify_source s uuid = eqb s.source_uuid uuid

unfoldable pub log_name : ReplicationLogEntry → Bytes
log_name e = decimal e.from_rev ++ (ascii "_" ++ (decimal e.to_rev ++ ascii ".json"))

-- A file name with the extension `json`.
unfoldable pub is_json : Bytes → Bool
is_json name = ends_with name (ascii ".json") && not (eqb name (ascii ".json"))

unfoldable pub insert_entry :
    ReplicationLogEntry → List ReplicationLogEntry → List ReplicationLogEntry
insert_entry e [] = e ∷ []
insert_entry e (f ∷ fs) =
    let rest = insert_entry e fs in if ltb f.from_rev e.from_rev then f ∷ rest else e ∷ f ∷ fs

-- `sort_by_key`, which is stable.
unfoldable pub sort_entries : List ReplicationLogEntry → List ReplicationLogEntry
unfolding insert_entry
sort_entries [] = []
sort_entries (e ∷ es) = insert_entry e (sort_entries es)

module _ (json : Codec ReplicationLogEntry) where
  unfoldable pub append : ReplicationLogEntry → Directory → Directory
  append e d = record d { log_files = SortedMap.insert (log_name e) (json.serialize e) d.log_files }

  -- The entry of a file, if it is one.
  unfoldable pub read_entry : Bytes → Bytes → Option ReplicationLogEntry
  unfolding is_json
  read_entry name text = if is_json name then json.deserialize text else none

  unfoldable pub overlapping : (from_rev to_rev : ℕ) → SortedMap Bytes → List ReplicationLogEntry
  unfolding read_entry
  overlapping from_rev to_rev [] = []
  overlapping from_rev to_rev ((name, text) ∷ files) =
      let rest = overlapping from_rev to_rev files in
      elim (read_entry name text) [
        | none ↦ rest
        | some e ↦ if leb from_rev e.to_rev && leb e.from_rev to_rev then e ∷ rest else rest
      ]

  unfoldable pub query : (from_rev to_rev : ℕ) → Directory → List ReplicationLogEntry
  unfolding overlapping sort_entries
  query from_rev to_rev d = sort_entries (overlapping from_rev to_rev d.log_files)

  unfoldable pub all_entries : Directory → List ReplicationLogEntry
  unfolding query
  all_entries d = query 0 (2 ^ 64 - 1) d

  unfoldable pub last_entry : List ReplicationLogEntry → Option ReplicationLogEntry
  last_entry [] = none
  last_entry (e ∷ []) = some e
  last_entry (e ∷ f ∷ es) = last_entry (f ∷ es)

  unfoldable pub latest : Directory → Option ReplicationLogEntry
  unfolding all_entries last_entry
  latest d = last_entry (all_entries d)

  -- The files that stay, and the number of those that are removed.
  unfoldable pub clean : ℕ → SortedMap Bytes → ℕ × SortedMap Bytes
  unfolding read_entry
  clean rev [] = (0, [])
  clean rev ((name, text) ∷ files) =
      let (removed, kept) = clean rev files in
      elim (read_entry name text) [
        | none ↦ (removed, (name, text) ∷ kept)
        | some e ↦ if ltb e.to_rev rev then (removed + 1, kept) else (removed, (name, text) ∷ kept)
      ]

  unfoldable pub cleanup_before : ℕ → Directory → ℕ × Directory
  unfolding clean
  cleanup_before rev d =
      let (removed, kept) = clean rev d.log_files in (removed, record d { log_files = kept })
