-- ===== src/WebDav/Transactions.antt =====
-- The handlers of dsvn-webdav/src/handlers.rs that create, fill and commit transactions, in the mode
-- with one repository. A request is its path and its body; of a
-- response the status, the header that names a result, and the body are modelled. The lock makes a
-- MERGE atomic. A hash map of files or properties is sorted, so that a loop over it takes the order
-- of its keys.
pub mod Session
pub mod Numbered
pub mod Names
pub mod Failures
use dsvn.Prelude.{
  ℕ, ◌+◌, ◌%◌, ◌^◌, ℤ, Bool, true, false, ◌&&◌, ◌||◌, Option, none, some, List, [], ◌∷◌, ◌++◌,
  if◌then◌else◌,
}
use dsvn.Bytes.{Bytes, ascii, strip_prefix, starts_with, trim_end_slashes, is_empty, eqb}
use dsvn.Text.{split_once, ends_with}
use dsvn.Decimal.{decimal}
use dsvn.Object.{Codec}
use dsvn.SortedMap
use dsvn.SortedMap.{SortedMap}
use dsvn.Properties.{PropertySet, SqlitePropertyStore, sqlite_set, sqlite_remove}
use dsvn.Sqlite.Files.{Failure, Result, ok, err}
use dsvn.Sqlite.Repo.{Setting, Repo, add_file, commit}
use dsvn.Sqlite.Read.{get_file, path_exists}
use dsvn.WebDav.PropPatch.{PropertyModification, set, remove, from_xml, success_xml}
use dsvn.WebDav.Xml.{escape_xml, contains, extract_text_between}
use dsvn.WebDav.Svndiff.{decode_svndiff}

pub record Transaction : Type 0 where
  pub id : Bytes
  pub base_revision : ℕ
  pub author : Bytes
  pub log_message : Bytes
  pub created_at : ℤ
  pub staged_files : SortedMap Bytes
  pub staged_properties : SortedMap (SortedMap Bytes)

-- The repository, its property store, and what the statics TRANSACTIONS and TXN_COUNTER hold.
pub record Server (s : Setting) : Type 0 where
  pub repo : Repo s
  pub properties : SqlitePropertyStore
  pub transactions : SortedMap Transaction
  pub txn_counter : ℕ

-- SVN-Txn-Name or Location is the header; an internal error is the `Err` of a handler.
pub data Response : Type 0 where
  response : (status : ℕ) (header : Option Bytes) (body : Bytes) → Response
  internal : Failure → Response

abbrev pub status_of : Response → ℕ
status_of (response status header body) = status
status_of (internal failure) = 500

abbrev pub plain : ℕ → Bytes → Response
plain status body = response status none body

abbrev pub repo_prefix : Bytes
repo_prefix = ascii "/svn"

-- `path.strip_prefix(p).unwrap_or(path)`
unfoldable pub without_prefix : (p path : Bytes) → Bytes
without_prefix p path = elim (strip_prefix path p) [ none ↦ path | some rest ↦ rest ]

unfoldable pub is_executable : Bytes → Bool
is_executable file_path = ends_with file_path (ascii ".sh") || contains file_path (ascii "/bin/")

abbrev pub new_transaction : (id : Bytes) → ℕ → ℤ → Transaction
new_transaction id base_revision created_at = record {
  id = id;
  base_revision = base_revision;
  author = [];
  log_message = [];
  created_at = created_at;
  staged_files = [];
  staged_properties = [];
}

unfoldable pub txn_name : (current_rev txn_seq : ℕ) → Bytes
txn_name current_rev txn_seq = decimal current_rev ++ (b'-' ∷ decimal txn_seq)

unfoldable pub or_text : Bytes → Bytes → Bytes
or_text text default = if is_empty text then default else text

abbrev pub or_nothing : Option Bytes → Bytes
or_nothing none = []
or_nothing (some text) = text

module _ (s : Setting) (json : Codec PropertySet) (sha256 : Bytes → Bytes) where
  unfoldable pub post_handler : Server s → (path body : Bytes) → (now : ℤ) → Response × Server s
  unfolding txn_name
  post_handler v path body now =
      if ends_with path (ascii "/!svn/me") && contains body (ascii "create-txn")
      then (
        response 201 (some (txn_name v.repo.current_rev v.txn_counter)) [],
        record v {
          txn_counter = (v.txn_counter + 1) % 2 ^ 64;
          transactions =
              SortedMap.insert (txn_name v.repo.current_rev v.txn_counter)
                (new_transaction (txn_name v.repo.current_rev v.txn_counter) v.repo.current_rev now)
                v.transactions;
        },
      )
      else (plain 405 (ascii "Method Not Allowed"), v)

  unfoldable pub stage : Server s → (name file_path content : Bytes) → Response × Server s
  stage v name file_path content = elim (SortedMap.get name v.transactions) [
    | none ↦ (plain 404 (ascii "Transaction not found"), v)
    | some txn ↦
        let txn' : Transaction = record txn {
          staged_files = SortedMap.insert (ascii "/" ++ file_path) content txn.staged_files;
        } in
        (
          response 201
              (some (repo_prefix ++ (ascii "/!svn/txr/" ++ (name ++ (ascii "/" ++ file_path))))) [],
          record v { transactions = SortedMap.insert name txn' v.transactions },
        )
  ]

  unfoldable pub put_handler : Server s → (path body : Bytes) → Response × Server s
  unfolding without_prefix stage
  put_handler v path body =
      elim (strip_prefix (without_prefix repo_prefix path) (ascii "/!svn/txr/")) [
        | none ↦ (plain 405 (ascii "PUT not allowed"), v)
        | some rest ↦ elim (split_once b'/' rest) [
          | none ↦ (plain 405 (ascii "PUT not allowed"), v)
          | some (name, file_path) ↦ stage v name file_path (decode_svndiff body)
        ]
      ]

  unfoldable pub add_staged : Repo s → SortedMap Bytes → Repo s
  unfolding is_executable
  add_staged r [] = r
  add_staged r ((file_path, content) ∷ files) =
      add_staged (add_file s r file_path content (is_executable file_path)).1 files

  unfoldable pub set_all :
      SqlitePropertyStore → (store_path : Bytes) → SortedMap Bytes → SqlitePropertyStore
  set_all p store_path [] = p
  set_all p store_path ((name, value) ∷ props) =
      set_all (sqlite_set json sha256 p store_path name value) store_path props

  unfoldable pub set_staged :
      SqlitePropertyStore → SortedMap (SortedMap Bytes) → SqlitePropertyStore
  unfolding set_all
  set_staged p [] = p
  set_staged p ((file_path, props) ∷ files) =
      set_staged (set_all p (repo_prefix ++ file_path) props) files

  -- What a MERGE does with the transaction that it has taken out of the table. `merge_xml` is the
  -- text of the answer, of the revision, the date and the author.
  unfoldable pub merge_txn :
      (merge_xml : ℕ → ℤ → Bytes → Bytes) → Server s → Transaction → (now : ℤ) → Response × Server s
  unfolding add_staged set_staged or_text
  merge_txn merge_xml v txn now =
      let author = or_text txn.author (ascii "anonymous") in
      let message = or_text txn.log_message (ascii "No log message") in
      let staged = add_staged v.repo txn.staged_files in
      let properties = set_staged v.properties txn.staged_properties in
      let (done, repo) = commit s staged author message now in
      (
        elim done [
          | err failure ↦ internal failure
          | ok new_rev ↦ plain 200 (merge_xml new_rev now (escape_xml author))
        ],
        record v { repo = repo; properties = properties },
      )

  unfoldable pub merge_handler :
      (merge_xml : ℕ → ℤ → Bytes → Bytes)
      → Server s
      → (body : Bytes) → (now : ℤ) → Response × Server s
  unfolding merge_txn
  merge_handler merge_xml v body now =
      let name = or_nothing (extract_text_between body (ascii "/!svn/txn/") (ascii "</D:href>")) in
      elim (SortedMap.get name v.transactions) [
        | none ↦ (plain 404 (ascii "Transaction not found"), v)
        | some txn ↦
            merge_txn merge_xml (record v { transactions = SortedMap.remove name v.transactions })
              txn now
      ]

  -- PROPPATCH on a transaction; `answer` is the text of the response for its name.
  unfoldable pub proppatch_txn :
      (answer : Bytes → Bytes) → Server s → (name body : Bytes) → Response × Server s
  proppatch_txn answer v name body = (
    plain 207 (answer name),
    elim (extract_text_between body (ascii "<S:log>") (ascii "</S:log>")) [
      | none ↦ v
      | some log_msg ↦ elim (SortedMap.get name v.transactions) [
        | none ↦ v
        | some txn ↦
            let txn' : Transaction = record txn { log_message = log_msg } in
            record v { transactions = SortedMap.insert name txn' v.transactions }
      ]
    ],
  )

  -- What the modifications of a PROPPATCH on a file do to its properties.
  unfoldable pub modify_all :
      SqlitePropertyStore → (path : Bytes) → List PropertyModification → SqlitePropertyStore
  modify_all p path [] = p
  modify_all p path (set name value ∷ ms) =
      modify_all (sqlite_set json sha256 p path name value) path ms
  modify_all p path (remove name ∷ ms) =
      modify_all (sqlite_remove json sha256 p path name).1 path ms

  -- `answer` and `txn_answer` are the texts of the responses for a file and a transaction of the
  -- server; `none` is a panic.
  unfoldable pub proppatch_handler :
      (answer txn_answer : Bytes → Bytes)
      → Server s
      → (path body : Bytes) → Option (Response × Server s)
  unfolding without_prefix proppatch_txn modify_all
  proppatch_handler answer txn_answer v path body =
      let special = without_prefix repo_prefix path in
      if starts_with special (ascii "/!svn/txr/")
      then some (plain 207 (answer path), v)
      else elim (strip_prefix special (ascii "/!svn/txn/")) [
        | some name ↦ some (proppatch_txn txn_answer v name body)
        | none ↦ elim (from_xml body) [
          | none ↦ none
          | some modifications ↦ some (
            plain 207 (success_xml path),
            record v { properties = modify_all v.properties path modifications },
          )
        ]
      ]
