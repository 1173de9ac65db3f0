-- ===== src/Examples/Syncs.antt =====
-- A synchronisation that is interrupted, and a log with two entries.
use dsvn.Prelude.{ℕ, ℤ, pos, ◌≡◌, refl, ap, ◌∙◌, Bool, true, Option, none, some, List, [], ◌∷◌}
use dsvn.Bytes.{Bytes, ascii}
use dsvn.Object.{Codec}
use dsvn.Sync.{
  SyncState, ReplicationLogEntry, Directory, new_sync_state, found, load, effective_start_rev,
}
use dsvn.Sync.Resume.{IsJson, Step, began, completed, checkpointed, run_steps, load-run_steps}
use dsvn.Examples.Formats.{Format, number, pair, list, codec_of, codec_of_lem}
use dsvn.Examples.Settings.{bytes, boolean, integer}

abbrev state_format : Format (((Bytes × Bytes) × (ℕ × ℕ)) × ((ℤ × ℕ) × ((Bool × ℕ) × List ℕ)))
state_format =
    pair (pair (pair bytes bytes) (pair number number))
      (pair (pair integer number) (pair (pair boolean number) (list number)))

abbrev of_option : Option ℕ → List ℕ
of_option none = []
of_option (some n) = n ∷ []

abbrev to_option : List ℕ → Option ℕ
to_option [] = none
to_option (n ∷ ns) = some n

to_option-of_option : (o : Option ℕ) → to_option (of_option o) ≡ o
to_option-of_option none = refl
to_option-of_option (some n) = refl

abbrev of_state : SyncState → ((Bytes × Bytes) × (ℕ × ℕ)) × ((ℤ × ℕ) × ((Bool × ℕ) × List ℕ))
of_state s = (
  ((s.source_uuid, s.source_url), (s.last_synced_rev, s.source_head_rev)),
  (
    (s.last_sync_timestamp, s.total_synced_revisions),
    ((s.sync_in_progress, s.protocol_version), of_option s.checkpoint_rev),
  ),
)

abbrev to_state : ((Bytes × Bytes) × (ℕ × ℕ)) × ((ℤ × ℕ) × ((Bool × ℕ) × List ℕ)) → SyncState
to_state p = record {
  source_uuid = p.0.0.0;
  source_url = p.0.0.1;
  last_synced_rev = p.0.1.0;
  source_head_rev = p.0.1.1;
  last_sync_timestamp = p.1.0.0;
  total_synced_revisions = p.1.0.1;
  sync_in_progress = p.1.1.0.0;
  protocol_version = p.1.1.0.1;
  checkpoint_rev = to_option p.1.1.1;
}

abbrev state_json : Codec SyncState
state_json = codec_of state_format of_state to_state

state_json-IsJson : IsJson state_json
state_json-IsJson = record {
  deserialize-serialize = λ s.
      codec_of_lem state_format of_state to_state s
      ∙ ap (λ o. some (record s { checkpoint_rev = o })) (to_option-of_option s.checkpoint_rev);
}

abbrev start : SyncState
start = new_sync_state (ascii "u-1") (ascii "http://source")

abbrev steps : List Step
steps = began ∷ checkpointed 4 ∷ completed (pos 9) 7 ∷ began ∷ checkpointed 8 ∷ []

abbrev saved : Directory
saved = record { state_file = some (state_json.serialize start); log_files = [] }

load-saved : load state_json saved ≡ found start
unfolding load
load-saved = refl

load-run_steps_example :
    (load state_json (run_steps state_json steps (start, saved)).1
      ≡ found (run_steps state_json steps (start, saved)).0)
    × (effective_start_rev (run_steps state_json steps (start, saved)).0 ≡ 8)
load-run_steps_example = load-run_steps state_json state_json-IsJson steps start saved load-saved

abbrev entry_at : Bytes → Option ReplicationLogEntry
entry_at (from ∷ to ∷ []) = some (record {
  from_rev = from;
  to_rev = to;
  timestamp = pos 0;
  objects_transferred = 0;
  bytes_transferred = 0;
  duration_ms = 0;
  success = true;
  error = none;
})
entry_at _ = none

abbrev log_json : Codec ReplicationLogEntry
log_json = record { serialize = λ e. e.from_rev ∷ e.to_rev ∷ []; deserialize = entry_at }

abbrev logged : Directory
logged = record {
  state_file = none;
  log_files = (ascii "5_9.json", 5 ∷ 9 ∷ []) ∷ (ascii "1_4.json", 1 ∷ 4 ∷ []) ∷ [];
}
