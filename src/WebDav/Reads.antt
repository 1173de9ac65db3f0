-- ===== src/WebDav/Reads.antt =====
-- The handlers of dsvn-webdav/src/handlers.rs that read files, GET and HEAD, in the mode with one
-- repository.
use dsvn.Prelude.{◌||◌, List, [], if◌then◌else◌}
use dsvn.Bytes.{Bytes, ascii, eqb}
use dsvn.Text.{ends_with}
use dsvn.Object.{Codec}
use dsvn.SortedMap
use dsvn.Properties.{PropertySet}
use dsvn.Sqlite.Files.{ok, err}
use dsvn.Sqlite.Repo.{Setting}
use dsvn.Sqlite.Read.{get_file, path_exists}
use dsvn.WebDav.Xml.{contains}
use dsvn.WebDav.Transactions.{Server, Response, plain, repo_prefix, without_prefix}

module _ (s : Setting) (json : Codec PropertySet) (sha256 : Bytes → Bytes) where
  -- `activities` is the text that lists the names of the transactions.
  unfoldable pub get_handler :
      (activities : List Bytes → Bytes) → Server s → (path : Bytes) → Response × Server s
  unfolding without_prefix
  get_handler activities v path =
      let special = without_prefix repo_prefix path in
      if eqb special (ascii "/!svn/act/") || eqb special (ascii "/!svn/act")
      then (plain 200 (activities (SortedMap.keys v.transactions)), v)
      else if contains path (ascii "!svn")
      then (plain 404 (ascii "Not found"), v)
      else if ends_with path (ascii "/") || eqb path (ascii "/svn")
      then (plain 405 (ascii "Use PROPFIND"), v)
      else (let (found, repo) = get_file s v.repo path v.repo.current_rev in
          (
            elim found [
              | ok content ↦ plain 200 content
              | err failure ↦ plain 404 (ascii "Not found")
            ],
            record v { repo = repo },
          ))

  unfoldable pub head_handler : Server s → (path : Bytes) → Response × Server s
  head_handler v path =
      if contains path (ascii "!svn")
      then (plain 404 [], v)
      else (let (found, repo) = path_exists s v.repo path v.repo.current_rev in
          (if found then plain 200 [] else plain 404 [], record v { repo = repo }))
