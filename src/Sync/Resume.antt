-- ===== src/Sync/Resume.antt =====
-- Steps of a synchronisation, the state on disk and where a restart resumes (dsvn-core/src/sync.rs).
use dsvn.Prelude.{ℕ, ℤ, ◌≡◌, refl, ap, ◌∙◌, some, List, [], ◌∷◌}
use dsvn.Object.{Codec}
use dsvn.Sync.{
  SyncState, Directory, found, load, save, begin_sync, complete_sync, set_checkpoint,
  effective_start_rev,
}

-- The documented behaviour of the serializer.
pub record IsJson (json : Codec SyncState) : Type 0 where
  pub deserialize-serialize : (s : SyncState) → json.deserialize (json.serialize s) ≡ some s

-- The operations that change the state of a synchronisation.
pub data Step : Type 0 where
  began : Step
  completed : ℤ → ℕ → Step
  checkpointed : ℕ → Step

abbrev pub run_step : Codec SyncState → Step → SyncState × Directory → SyncState × Directory
run_step json began (s, d) = begin_sync json s d
run_step json (completed now rev) (s, d) = complete_sync json now rev s d
run_step json (checkpointed rev) (s, d) = set_checkpoint json rev s d

-- The steps in order.
abbrev pub run_steps : Codec SyncState → List Step → SyncState × Directory → SyncState × Directory
run_steps json [] p = p
run_steps json (step ∷ steps) p = run_steps json steps (run_step json step p)

-- The revision that the last completion or checkpoint names.
abbrev pub resume_at : List Step → ℕ → ℕ
resume_at [] rev = rev
resume_at (began ∷ steps) rev = resume_at steps rev
resume_at (completed now r ∷ steps) rev = resume_at steps r
resume_at (checkpointed r ∷ steps) rev = resume_at steps r

resume_first :
    (step : Step) (steps : List Step) (rev : ℕ)
    → resume_at steps (resume_at (step ∷ []) rev) ≡ resume_at (step ∷ steps) rev
resume_first began steps rev = refl
resume_first (completed now r) steps rev = refl
resume_first (checkpointed r) steps rev = refl

module _ (json : Codec SyncState) (lawful : IsJson json) where
  load-save : (s : SyncState) (d : Directory) → load json (save json s d) ≡ found s
  unfolding load save
  load-save s d = rw (lawful.deserialize-serialize s, load) refl

  load-run_step :
      (step : Step) (s : SyncState) (d : Directory)
      → load json (run_step json step (s, d)).1 ≡ found (run_step json step (s, d)).0
  unfolding begin_sync complete_sync set_checkpoint
  load-run_step began s d = load-save _ d
  load-run_step (completed now rev) s d = load-save _ d
  load-run_step (checkpointed rev) s d = load-save _ d

  start-run_step :
      (step : Step) (s : SyncState) (d : Directory)
      → effective_start_rev (run_step json step (s, d)).0
        ≡ resume_at (step ∷ []) (effective_start_rev s)
  unfolding begin_sync complete_sync set_checkpoint effective_start_rev
  start-run_step began s d = refl
  start-run_step (completed now rev) s d = refl
  start-run_step (checkpointed rev) s d = refl

  -- From a state that is saved, with a serializer that gives it back, any steps leave a directory
  -- from which exactly the state in memory loads, and which resumes at the revision that the last
  -- completion or checkpoint named.
  pub load-run_steps :
      (steps : List Step) (s : SyncState) (d : Directory)
      → load json d ≡ found s
      → (load json (run_steps json steps (s, d)).1 ≡ found (run_steps json steps (s, d)).0)
        × (effective_start_rev (run_steps json steps (s, d)).0
            ≡ resume_at steps (effective_start_rev s))
  load-run_steps [] s d saved = (saved, refl)
  load-run_steps (step ∷ steps) s d saved =
      let (same, start) =
        load-run_steps steps (run_step json step (s, d)).0 (run_step json step (s, d)).1
          (load-run_step step s d) in
      (
        same,
        start
            ∙ ap (resume_at steps) (start-run_step step s d)
            ∙ resume_first step steps (effective_start_rev s),
      )
