-- ===== src/WebDav/Dump/FileNode.antt =====
-- A dump's text of a file in the stream that `parse_dump_stream` reads
-- (dsvn-webdav/src/dump_handlers.rs).
use dsvn.Prelude.{
  ℕ, suc, ◌+◌, ◌^◌, ◌<◌, ◌≡◌, refl, ap, ◌∙◌, Bool, true, false, Option, some, [], ◌∷◌, ◌++◌, length,
  inr, if◌then◌else◌, ℤ,
}
use dsvn.Bytes.{Bytes, ascii, is_empty, starts_with, trim}
use dsvn.Decimal.{decimal}
use dsvn.WebDav.Dump.Props.{hdr_val, build_node_props}
use dsvn.WebDav.Dump.Md5.{md5_hex}
use dsvn.WebDav.Dump.Write.{header, newline, file_node_text}
use dsvn.WebDav.Dump.Read.{
  add, change, file, ParsedNode, ParsedRevision, LoadError, read_line, parse_node_headers,
}
use dsvn.WebDav.Dump.Load.{parse_dump_from, push_node, new_node, is_skipped}
use dsvn.WebDav.Dump.Headers.{
  IsValue, trim-read_line, hdr_val-line_of, is_name, is_name-IsName, onto, onto-append,
}
use dsvn.WebDav.Dump.Nodes.{file_headers, action_text, parse_node_headers-file}

file_node_text-append :
    (path action : Bytes) (executable : Bool) (content rest : Bytes)
    → file_node_text path action executable content ++ rest
      ≡ header (ascii "Node-path") path ++ file_headers action executable content (10 ∷ rest)
unfolding file_node_text file_headers onto
file_node_text-append path action executable content rest =
    let np = build_node_props executable in
    onto-append
      (header (ascii "Node-path") path
        ∷ header (ascii "Node-kind") (ascii "file")
        ∷ header (ascii "Node-action") action
        ∷ header (ascii "Prop-content-length") (decimal (length np))
        ∷ header (ascii "Text-content-length") (decimal (length content))
        ∷ header (ascii "Text-content-md5") (md5_hex content)
        ∷ header (ascii "Content-length") (decimal (length np + length content))
        ∷ newline
        ∷ np
        ∷ content
        ∷ [])
      (newline ++ newline) rest

module _ (parse_date : Bytes → Option ℤ) (now : ℤ) {A : Type 0}
    (on_rev : A → ParsedRevision → Option LoadError × A) where
  node_found :
      (fuel : ℕ) (a : A) (cur_rev : Option ParsedRevision) (r : Bytes) (nd : ParsedNode)
      (left : Bytes)
      → is_empty (read_line r).0 ≡ false
      → is_skipped (trim (read_line r).0) ≡ false
      → starts_with (trim (read_line r).0) (ascii "Revision-number:") ≡ false
      → starts_with (trim (read_line r).0) (ascii "Node-path:") ≡ true
      → parse_node_headers
          (length (read_line r).1)
          (read_line r).1
          (new_node (hdr_val (trim (read_line r).0)))
        ≡ inr (nd, left)
      → parse_dump_from parse_date now on_rev (suc fuel) a cur_rev r
        ≡ parse_dump_from parse_date now on_rev fuel a (push_node cur_rev nd) left
  unfolding parse_dump_from
  node_found fuel a cur_rev r nd left full kept old path read =
      rw (full, parse_dump_from) (rw kept (rw old (rw path (rw read refl))))

  -- The text that a dump writes for a file, whose path is not empty and has no white space at its
  -- ends and no line feed and whose content is any bytes, is read back as one node of the revision
  -- in progress: the path, the action and the content are those written.
  pub parse_dump_from-file_node_text :
      (fuel : ℕ) (a : A) (cur_rev : Option ParsedRevision) (path : Bytes) (known executable : Bool)
      (content rest : Bytes)
      → IsValue path
      → length content + 64 < 2 ^ 64
      → parse_dump_from parse_date now on_rev
          (suc fuel)
          a
          cur_rev
          (file_node_text path (action_text known) executable content ++ rest)
        ≡ parse_dump_from parse_date now on_rev fuel a
            (push_node cur_rev (record {
              path = path;
              kind = some file;
              action = some (if known then change else add);
              content = content;
            }))
            (10 ∷ rest)
  unfolding is_name header read_line is_skipped starts_with file_headers
  parse_dump_from-file_node_text fuel a cur_rev path known executable content rest v b =
      let named = is_name-IsName (ascii "Node-path") refl in
      let tail = file_headers (action_text known) executable content (10 ∷ rest) in
      let (line, left) = trim-read_line (ascii "Node-path") path tail named v in
      ap (parse_dump_from parse_date now on_rev (suc fuel) a cur_rev)
        (file_node_text-append path (action_text known) executable content rest)
      ∙ node_found fuel a cur_rev (header (ascii "Node-path") path ++ tail) _ (10 ∷ rest) refl
          (ap is_skipped line) (ap (λ t. starts_with t (ascii "Revision-number:")) line)
          (ap (λ t. starts_with t (ascii "Node-path:")) line)
          (ap
              (λ r.
                parse_node_headers (length r) r (
                  new_node
                    (hdr_val (trim (read_line (header (ascii "Node-path") path ++ tail)).0))))
              left
            ∙ ap (λ t. parse_node_headers (length tail) tail (new_node (hdr_val t))) line
            ∙ ap (λ p. parse_node_headers (length tail) tail (new_node p))
                (hdr_val-line_of (ascii "Node-path") path named v)
            ∙ parse_node_headers-file _ path known executable content (10 ∷ rest) b)
