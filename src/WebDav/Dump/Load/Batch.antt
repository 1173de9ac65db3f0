-- ===== src/WebDav/Dump/Load/Batch.antt =====
-- The batch mode of the repository around a load (dsvn-webdav/src/dump_handlers.rs).
use dsvn.Prelude.{
  ◌+◌, ◌⊎◌, ℤ, ◌≡◌, refl, ◌∙◌, Bool, true, false, ◌||◌, Option, none, some, List, [], ◌∷◌,
  Bool-cases, Option-cases, inl, inr, ◌==◌,
}
use dsvn.Bytes.{Bytes, is_empty}
use dsvn.Hooks.{Verdict, accepted, rejected, run_pre_commit, run_post_commit}
use dsvn.Sqlite.Files.{Result-cases}
use dsvn.Sqlite.Table.{conn_collect_pending}
use dsvn.Sqlite.Repo.{
  Setting, Repo, add_file, mkdir, delete_file, begin_batch, end_batch, commit_sync, commit_with,
  commit_date, hook_files, write_commit_sync,
}
use dsvn.WebDav.Dump.Read.{
  NodeAction, add, delete, change, replace, NodeKind, file, dir, ParsedNode, ParsedRevision,
  LoadError,
}
use dsvn.WebDav.Dump.Load.{
  LoadStats, load_file, load_new, load_action, load_nodes, finish_revision, load_revision,
}

Verdict-cases : (v : Verdict) → (v ≡ accepted) ⊎ ((reason : Bytes) × (v ≡ rejected reason))
Verdict-cases accepted = inl refl
Verdict-cases (rejected reason) = inr (reason, refl)

unfoldable pub has_error : Option LoadError → Bool
has_error none = false
has_error (some e) = true

module _ (s : Setting) where
  load_new-batch_mode :
      (r : Repo s) (st : LoadStats) (nd : ParsedNode) (k : Option NodeKind)
      → (load_new s (r, st) nd k).1.0.batch_mode ≡ r.batch_mode
  unfolding load_new load_file add_file mkdir
  load_new-batch_mode r st nd (some file) = refl
  load_new-batch_mode r st nd (some dir) = refl
  load_new-batch_mode r st nd none = elim (Bool-cases (is_empty nd.content)) [
    | inl e ↦ rw e refl
    | inr e ↦ rw e refl
  ]

  load_action-batch_mode :
      (r : Repo s) (st : LoadStats) (nd : ParsedNode) (a : Option NodeAction)
      → (load_action s (r, st) nd a).1.0.batch_mode ≡ r.batch_mode
  unfolding load_action delete_file add_file
  load_action-batch_mode r st nd (some add) = load_new-batch_mode r st nd nd.kind
  load_action-batch_mode r st nd (some replace) = load_new-batch_mode r st nd nd.kind
  load_action-batch_mode r st nd (some delete) = refl
  load_action-batch_mode r st nd (some change) = elim (Bool-cases (is_empty nd.content)) [
    | inl e ↦ rw e refl
    | inr e ↦ rw e refl
  ]
  load_action-batch_mode r st nd none = refl

  load_nodes-batch_mode :
      (nds : List ParsedNode) (r : Repo s) (st : LoadStats) (b : Bool)
      → (load_nodes s (r, st) b nds).1.0.batch_mode ≡ r.batch_mode
  unfolding load_nodes
  load_nodes-batch_mode [] r st b = refl
  load_nodes-batch_mode (nd ∷ nds) r st b =
      load_nodes-batch_mode nds _ _ _ ∙ load_action-batch_mode r _ nd nd.action

  commit_with-batch_mode :
      (r : Repo s) (author message : Bytes) (timestamp : ℤ)
      → (commit_with s (write_commit_sync s) r author message timestamp).1.batch_mode ≡ r.batch_mode
  unfolding commit_with write_commit_sync
  commit_with-batch_mode r author message timestamp =
      elim (Option-cases (conn_collect_pending r.db)) [
        | inl e ↦ rw (e, commit_with) refl
        | inr (collected, e) ↦
            rw (e, commit_with)
              (elim (Verdict-cases (
                run_pre_commit s.scripts (r.current_rev + 1) author message
                  (commit_date s timestamp) (hook_files collected.0))) [
                    | inr (reason, e') ↦ rw (e', commit_with) refl
                    | inl e' ↦
                        rw (e', commit_with)
                          (elim (Verdict-cases (
                            run_post_commit s.scripts (r.current_rev + 1) author message
                              (commit_date s timestamp))) [
                                | inr (reason, e'') ↦ rw (e'', commit_with) refl
                                | inl e'' ↦ rw (e'', commit_with) refl
                              ])
                  ])
      ]

  commit_sync-batch_mode :
      (r : Repo s) (author message : Bytes) (timestamp : ℤ)
      → (commit_sync s r author message timestamp).1.batch_mode ≡ r.batch_mode
  unfolding commit_sync
  commit_sync-batch_mode = commit_with-batch_mode

  -- After the loading of a revision that is not revision 0 and has nodes, the repository is in no
  -- batch if it ends without an error, and still in a batch if it ends with one.
  pub batch_mode-load_revision :
      (r : Repo s) (st : LoadStats) (rev : ParsedRevision)
      → (rev.revision_number == 0 || is_empty rev.nodes) ≡ false
      → (load_revision s (r, st) rev).1.0.batch_mode ≡ has_error (load_revision s (r, st) rev).0
  unfolding load_revision finish_revision begin_batch end_batch has_error
  batch_mode-load_revision r st rev loaded =
      let mode = load_nodes-batch_mode rev.nodes (begin_batch s r) st false in
      let l = load_nodes s (begin_batch s r, st) false rev.nodes in
      rw loaded (elim (Bool-cases l.0) [
        | inr unchanged ↦ rw unchanged refl
        | inl changed ↦
            rw changed
              (elim (Result-cases (commit_sync s l.1.0 rev.author rev.message rev.timestamp).0) [
                | inl (n, e) ↦ rw e refl
                | inr (failure, e) ↦
                    rw e (commit_sync-batch_mode l.1.0 rev.author rev.message rev.timestamp ∙ mode)
              ])
      ])
