-- ===== src/WebDav/Activities.antt =====
-- The activities of dsvn-webdav/src/handlers.rs, the names that clients see for the transactions of
-- WebDav/Transactions: MKACTIVITY and DELETE.
pub mod Replaced
use dsvn.Prelude.{
  ℕ, ◌+◌, ◌%◌, ◌^◌, ℤ, Bool, true, false, ◌&&◌, ◌||◌, Option, none, some, List, [], ◌∷◌, ◌++◌,
  if◌then◌else◌,
}
use dsvn.Bytes.{Bytes, ascii, strip_prefix, starts_with, trim_end_slashes, is_empty, eqb}
use dsvn.Text.{ends_with}
use dsvn.Object.{Codec}
use dsvn.SortedMap
use dsvn.Properties.{PropertySet}
use dsvn.Sqlite.Files.{ok, err}
use dsvn.Sqlite.Repo.{Setting}
use dsvn.Sqlite.Read.{get_file, path_exists}
use dsvn.WebDav.Xml.{escape_xml, contains}
use dsvn.WebDav.Transactions.{
  Transaction, Server, Response, response, plain, repo_prefix, without_prefix, new_transaction,
  txn_name,
}

module _ (s : Setting) (json : Codec PropertySet) (sha256 : Bytes → Bytes) where
  unfoldable pub make_activity :
      (answer exists : Bytes → Bytes) → Server s → (name : Bytes) → (now : ℤ) → Response × Server s
  make_activity answer exists v name now = elim (SortedMap.get name v.transactions) [
    | some txn ↦ (plain 405 (exists (escape_xml name)), v)
    | none ↦ (
      response 201 (some name) (answer name),
      record v {
        transactions =
            SortedMap.insert name (new_transaction name v.repo.current_rev now) v.transactions;
      },
    )
  ]

  -- `answer` is the text that names the new activity, `exists` the one that says that it exists.
  unfoldable pub mkactivity_handler :
      (answer exists : Bytes → Bytes) → Server s → (path : Bytes) → (now : ℤ) → Response × Server s
  unfolding without_prefix txn_name make_activity
  mkactivity_handler answer exists v path now =
      elim (strip_prefix (without_prefix repo_prefix path) (ascii "/!svn/act/")) [
        | none ↦ (plain 405 (ascii "MKACTIVITY only supported on /!svn/act/"), v)
        | some rest ↦
            let client_txn_id = trim_end_slashes rest in
            if is_empty client_txn_id
            then make_activity answer exists
                (record v { txn_counter = (v.txn_counter + 1) % 2 ^ 64 })
                (txn_name v.repo.current_rev v.txn_counter) now
            else make_activity answer exists v client_txn_id now
      ]

  unfoldable pub handle_delete_activity :
      (not_found : Bytes → Bytes) → Server s → Bytes → Response × Server s
  handle_delete_activity not_found v name = elim (SortedMap.get name v.transactions) [
    | none ↦ (plain 404 (not_found (escape_xml name)), v)
    | some txn ↦ (plain 204 [], record v { transactions = SortedMap.remove name v.transactions })
  ]

  unfoldable pub delete_handler :
      (not_found : Bytes → Bytes) → Server s → (path : Bytes) → Response × Server s
  unfolding without_prefix handle_delete_activity
  delete_handler not_found v path =
      elim (strip_prefix (without_prefix repo_prefix path) (ascii "/!svn/act/")) [
        | none ↦ (plain 204 [], v)
        | some rest ↦
            let name = trim_end_slashes rest in
            if is_empty name
            then (plain 405 (ascii "Cannot DELETE the activity collection itself"), v)
            else handle_delete_activity not_found v name
      ]
