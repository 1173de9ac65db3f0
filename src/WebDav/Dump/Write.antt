-- ===== src/WebDav/Dump/Write.antt =====
-- Writing a dump (dsvn-webdav/src/dump_handlers.rs). A write to the buffer does not fail.
use dsvn.Prelude.{
  ℕ, zero, suc, ◌+◌, ◌-◌, ◌/◌, ◌%◌, ℤ, Bool, true, false, ◌||◌, Option, none, some, List, [], ◌∷◌,
  ◌++◌, if◌then◌else◌, length, ltb, ◌==◌,
}
use dsvn.Bytes.{Bytes, ascii}
use dsvn.Decimal.{decimal}
use dsvn.Object.{ObjectKind, blob, tree, commit, TreeChange, upsert, delete}
use dsvn.SortedMap
use dsvn.Sqlite.Files.{ok, err, exists, load_commit, load_delta_tree}
use dsvn.Sqlite.Repo.{Setting, Repo, tree_at}
use dsvn.Sqlite.Read.{get_file}
use dsvn.WebDav.Transactions.{Response, response}
use dsvn.WebDav.Dump.Params.{DumpParams, from_query}
use dsvn.WebDav.Dump.Props.{build_rev_props, build_empty_props, build_node_props}
use dsvn.WebDav.Dump.Md5.{md5_hex}

-- `writeln!`
unfoldable pub header : (name value : Bytes) → Bytes
header name value = name ++ (ascii ": " ++ (value ++ (10 ∷ [])))

abbrev pub newline : Bytes
newline = 10 ∷ []

unfoldable pub revision_text : ℕ → (props : Bytes) → Bytes
unfolding header
revision_text rev props =
    header (ascii "Revision-number") (decimal rev)
    ++ (header (ascii "Prop-content-length") (decimal (length props))
        ++ (header (ascii "Content-length") (decimal (length props))
            ++ (newline ++ (props ++ newline))))

unfoldable pub file_node_text : (path action : Bytes) → Bool → (content : Bytes) → Bytes
unfolding header
file_node_text path action executable content =
    let np = build_node_props executable in
    header (ascii "Node-path") path
    ++ (header (ascii "Node-kind") (ascii "file")
        ++ (header (ascii "Node-action") action
            ++ (header (ascii "Prop-content-length") (decimal (length np))
                ++ (header (ascii "Text-content-length") (decimal (length content))
                    ++ (header (ascii "Text-content-md5") (md5_hex content)
                        ++ (header (ascii "Content-length") (decimal (length np + length content))
                            ++ (newline ++ (np ++ (content ++ (newline ++ newline))))))))))

unfoldable pub dir_node_text : (path action : Bytes) → Bytes
unfolding header
dir_node_text path action =
    let np = build_empty_props in
    header (ascii "Node-path") path
    ++ (header (ascii "Node-kind") (ascii "dir")
        ++ (header (ascii "Node-action") action
            ++ (header (ascii "Prop-content-length") (decimal (length np))
                ++ (header (ascii "Content-length") (decimal (length np))
                    ++ (newline ++ (np ++ (newline ++ newline)))))))

unfoldable pub delete_node_text : Bytes → Bytes
unfolding header
delete_node_text path =
    header (ascii "Node-path") path ++ (header (ascii "Node-action") (ascii "delete") ++ newline)

-- `mode & 0o111 != 0`
unfoldable pub has_executable_bit : ℕ → Bool
has_executable_bit mode = mode % 2 == 1 || mode / 8 % 2 == 1 || mode / 64 % 2 == 1

abbrev is_blob : ObjectKind → Bool
is_blob blob = true
is_blob tree = false
is_blob commit = false

module _ (s : Setting) where
  -- Whether the path is in the tree of the revision before.
  unfoldable pub is_known : Repo s → ℕ → Bytes → Bool × Repo s
  is_known r rev path =
      if ltb 1 rev
      then (let (t, r') = tree_at s r (rev - 1) in
          (elim t [ ok m ↦ exists (SortedMap.get path m) | err failure ↦ false ], r'))
      else (false, r)

  -- A file that cannot be read is left out.
  unfoldable pub write_change_to_buf : Repo s → ℕ → TreeChange → Bytes × Repo s
  unfolding is_known file_node_text dir_node_text delete_node_text has_executable_bit
  write_change_to_buf r rev (delete path) = (delete_node_text path, r)
  write_change_to_buf r rev (upsert path entry) =
      let (known, r') = is_known r rev path in
      let action = if known then ascii "change" else ascii "add" in
      if is_blob entry.kind
      then (let (found, r'') = get_file s r' (b'/' ∷ path) rev in
          (
            elim found [
              | ok content ↦ file_node_text path action (has_executable_bit entry.mode) content
              | err failure ↦ []
            ],
            r'',
          ))
      else (dir_node_text path action, r')

  unfoldable pub write_changes : Repo s → ℕ → List TreeChange → Bytes × Repo s
  unfolding write_change_to_buf
  write_changes r rev [] = ([], r)
  write_changes r rev (change ∷ changes) =
      let (text, r') = write_change_to_buf r rev change in
      let (texts, r'') = write_changes r' rev changes in (text ++ texts, r'')

  module _ (date_of : ℤ → Option Bytes) where
    unfoldable pub commit_props : Repo s → ℕ → Bytes
    commit_props r rev = elim (load_commit s.externals r.files rev) [
      | err failure ↦ build_empty_props
      | ok c ↦
          build_rev_props c.author c.message
            (elim (date_of c.timestamp) [ none ↦ [] | some date ↦ date ])
    ]

    unfoldable pub write_revision : Repo s → ℕ → Bytes × Repo s
    unfolding commit_props revision_text write_changes
    write_revision r rev =
        let text = revision_text rev (commit_props r rev) in
        if ltb 0 rev
        then elim (load_delta_tree s.externals r.files rev) [
          | err failure ↦ (text, r)
          | ok delta ↦ let (nodes, r') = write_changes r rev delta.changes in (text ++ nodes, r')
        ]
        else (text, r)

    -- The revisions from `rev` on; `n` is their number.
    unfoldable pub write_revisions : ℕ → Repo s → ℕ → Bytes × Repo s
    unfolding write_revision
    write_revisions zero r rev = ([], r)
    write_revisions (suc n) r rev =
        let (text, r') = write_revision r rev in
        let (texts, r'') = write_revisions n r' (rev + 1) in (text ++ texts, r'')

    unfoldable pub generate_dump : (uuid : Bytes) → Repo s → DumpParams → Bytes × Repo s
    unfolding write_revisions
    generate_dump uuid r params =
        let (texts, r') =
          write_revisions (params.end_rev + 1 - params.start_rev) r params.start_rev in
        (
          header (ascii "SVN-fs-dump-format-version") (decimal params.format_version)
              ++ (newline
                  ++ ((if params.incremental then [] else header (ascii "UUID") uuid ++ newline)
                      ++ texts)),
          r',
        )

    -- Of the headers of the answer, the range of the revisions.
    unfoldable pub handle_dump : (uuid : Bytes) → Repo s → (query : Bytes) → Response × Repo s
    unfolding generate_dump
    handle_dump uuid r query =
        let params = from_query query r.current_rev in
        let (text, r') = generate_dump uuid r params in
        (response 200 (some (decimal params.start_rev ++ (b':' ∷ decimal params.end_rev))) text, r')
