-- ===== src/WebDav/Dump/Load.antt =====
-- `parse_dump_stream` and `handle_load` of dsvn-webdav/src/dump_handlers.rs. The `_sync` operations
-- of the repository stage as the others do. A panic of the task is answered as an error is. Of the
-- statistics the elapsed time is left out.
pub mod Batch
use dsvn.Prelude.{
  ℕ, zero, suc, ◌+◌, ℤ, Bool, true, false, not, ◌||◌, ◌⊎◌, inl, inr, Option, none, some, List, [],
  ◌∷◌, ◌++◌, if◌then◌else◌, length, ◌==◌,
}
use dsvn.Bytes.{Bytes, ascii, is_empty, starts_with, trim}
use dsvn.SortedMap
use dsvn.SortedMap.{SortedMap}
use dsvn.Sqlite.Files.{ok, err}
use dsvn.Sqlite.Repo.{
  Setting, Repo, add_file, mkdir, delete_file, begin_batch, end_batch, commit_sync,
}
use dsvn.WebDav.Xml.{contains}
use dsvn.WebDav.Dump.Props.{hdr_val, number_or_0}
use dsvn.WebDav.Dump.Read.{
  NodeAction, add, delete, change, replace, NodeKind, file, dir, ParsedNode, ParsedRevision,
  LoadError, repository, read_line, read_hdr_buf, read_props, or_text, parse_node_headers,
}

unfoldable pub is_skipped : Bytes → Bool
is_skipped t =
    starts_with t (ascii "SVN-fs-dump-format-version:")
    || starts_with t (ascii "UUID:")
    || is_empty t

-- A node before the first revision is dropped.
unfoldable pub push_node : Option ParsedRevision → ParsedNode → Option ParsedRevision
push_node none nd = none
push_node (some rev) nd = some (record rev { nodes = rev.nodes ++ (nd ∷ []) })

abbrev pub new_node : Bytes → ParsedNode
new_node path = record { path = path; kind = none; action = none; content = [] }

module _ (parse_date : Bytes → Option ℤ) (now : ℤ) where
  abbrev pub timestamp_of : Option Bytes → ℤ
  timestamp_of none = now
  timestamp_of (some text) = elim (parse_date text) [ none ↦ now | some t ↦ t ]

  unfoldable pub new_revision : (rn : ℕ) → SortedMap Bytes → ParsedRevision
  new_revision rn props = record {
    revision_number = rn;
    author = or_text (SortedMap.get (ascii "svn:author") props) (ascii "unknown");
    message = or_text (SortedMap.get (ascii "svn:log") props) [];
    timestamp = timestamp_of (SortedMap.get (ascii "svn:date") props);
    nodes = [];
  }

  -- `on_rev` is called with each revision once its nodes are read, on the state `A`; an error ends
  -- the loop. `cur_rev` is the revision that is read.
  module _ {A : Type 0} (on_rev : A → ParsedRevision → Option LoadError × A) where
    unfoldable pub flush : A → Option ParsedRevision → Option LoadError × A
    flush a none = (none, a)
    flush a (some rev) = on_rev a rev

    unfoldable pub parse_dump_from :
        ℕ → A → (cur_rev : Option ParsedRevision) → Bytes → Option LoadError × A
    unfolding flush is_skipped new_revision push_node
    parse_dump_from zero a cur_rev r = flush a cur_rev
    parse_dump_from (suc fuel) a cur_rev r =
        let (line, r') = read_line r in
        let t = trim line in
        elim (is_empty line) [
          | true ↦ flush a cur_rev
          | false ↦ elim (is_skipped t) [
            | true ↦ parse_dump_from fuel a cur_rev r'
            | false ↦ elim (starts_with t (ascii "Revision-number:")) [
              | true ↦
                  let (failed, a') = flush a cur_rev in
                  let ((pl, cl), r'') = read_hdr_buf (length r') r' (0, 0) in
                  elim failed [
                    | some e ↦ (some e, a')
                    | none ↦ elim (read_props pl cl r'') [
                      | inl e ↦ (some e, a')
                      | inr (props, left) ↦
                          parse_dump_from fuel a'
                            (some (new_revision (number_or_0 (hdr_val t)) props)) left
                    ]
                  ]
              | false ↦ elim (starts_with t (ascii "Node-path:")) [
                | false ↦ parse_dump_from fuel a cur_rev r'
                | true ↦ elim (parse_node_headers (length r') r' (new_node (hdr_val t))) [
                  | inl e ↦ (some e, a)
                  | inr (nd, left) ↦ parse_dump_from fuel a (push_node cur_rev nd) left
                ]
              ]
            ]
          ]
        ]

    unfoldable pub parse_dump_stream : A → Bytes → Option LoadError × A
    unfolding parse_dump_from
    parse_dump_stream a r = parse_dump_from (suc (length r)) a none r

pub record LoadStats : Type 0 where
  pub revisions_loaded : ℕ
  pub nodes_processed : ℕ
  pub files_added : ℕ
  pub dirs_created : ℕ
  pub files_deleted : ℕ
  pub files_modified : ℕ
  pub final_revision : ℕ

abbrev pub no_stats : LoadStats
no_stats = record {
  revisions_loaded = 0;
  nodes_processed = 0;
  files_added = 0;
  dirs_created = 0;
  files_deleted = 0;
  files_modified = 0;
  final_revision = 0;
}

module _ (s : Setting) where
  abbrev pub Loading : Type 0
  Loading = Repo s × LoadStats

  unfoldable pub load_file : Loading → ParsedNode → Loading
  load_file (r, st) nd =
      ((add_file s r nd.path nd.content false).1, record st { files_added = st.files_added + 1 })

  unfoldable pub load_new : Loading → ParsedNode → Option NodeKind → Bool × Loading
  unfolding load_file
  load_new (r, st) nd (some file) = (true, load_file (r, st) nd)
  load_new (r, st) nd (some dir) =
      (true, ((mkdir s r nd.path).1, record st { dirs_created = st.dirs_created + 1 }))
  load_new (r, st) nd none =
      if is_empty nd.content then (false, (r, st)) else (true, load_file (r, st) nd)

  -- Whether the node changed something, and the state after it.
  unfoldable pub load_action : Loading → ParsedNode → Option NodeAction → Bool × Loading
  unfolding load_new
  load_action (r, st) nd (some add) = load_new (r, st) nd nd.kind
  load_action (r, st) nd (some replace) = load_new (r, st) nd nd.kind
  load_action (r, st) nd (some delete) =
      (true, (delete_file s r nd.path, record st { files_deleted = st.files_deleted + 1 }))
  load_action (r, st) nd (some change) = if is_empty nd.content then (false, (r, st)) else (
    true,
    (
      (add_file s r nd.path nd.content false).1,
      record st { files_modified = st.files_modified + 1 },
    ),
  )
  load_action (r, st) nd none = (false, (r, st))

  unfoldable pub load_nodes : Loading → (has_changes : Bool) → List ParsedNode → Bool × Loading
  unfolding load_action
  load_nodes l has_changes [] = (has_changes, l)
  load_nodes (r, st) has_changes (nd ∷ nds) =
      let (changed, l) =
        load_action (r, record st { nodes_processed = st.nodes_processed + 1 }) nd nd.action in
      load_nodes l (has_changes || changed) nds

  unfoldable pub finish_revision : Loading → Loading
  finish_revision (r, st) =
      (end_batch s r, record st { revisions_loaded = st.revisions_loaded + 1 })

  unfoldable pub load_revision : Loading → ParsedRevision → Option LoadError × Loading
  unfolding load_nodes finish_revision
  load_revision (r, st) rev =
      if rev.revision_number == 0 || is_empty rev.nodes
      then (none, (r, st))
      else (let (has_changes, (r', st')) = load_nodes (begin_batch s r, st) false rev.nodes in
          if has_changes
          then (let (done, r'') = commit_sync s r' rev.author rev.message rev.timestamp in
              elim done [
                | err failure ↦ (some (repository failure), (r'', st'))
                | ok n ↦ (none, finish_revision (r'', record st' { final_revision = n }))
              ])
          else (none, finish_revision (r', st')))

  -- The answer's status, and the statistics after it.
  unfoldable pub handle_load :
      (parse_date : Bytes → Option ℤ) (now : ℤ) → Repo s → (body : Bytes) → ℕ × Loading
  unfolding parse_dump_stream load_revision
  handle_load parse_date now r body =
      let (failed, l) = parse_dump_stream parse_date now load_revision (r, no_stats) body in
      (elim failed [ none ↦ 200 | some e ↦ 500 ], l)

unfoldable pub is_dump_request : Bytes → Bool
is_dump_request accept =
    contains accept (ascii "application/vnd.svn-dumpfile") || contains accept (ascii "svn-dumpfile")

unfoldable pub is_load_request : Bytes → Bool
is_load_request content_type =
    contains content_type (ascii "application/vnd.svn-dumpfile")
    || contains content_type (ascii "svn-dumpfile")
