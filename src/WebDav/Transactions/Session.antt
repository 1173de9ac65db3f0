-- ===== src/WebDav/Transactions/Session.antt =====
-- A commit over WebDAV (dsvn-webdav/src/handlers.rs): PUT stages a file in a transaction, MERGE
-- commits it, and GET reads from the repository.
use dsvn.Prelude.{ℕ, ◌+◌, ℤ, ◌≡◌, refl, ap, ◌∙◌, none, some, List, [], ◌∷◌, ◌++◌, All}
use dsvn.Bytes.{Bytes, ascii, strip_prefix, trim_slashes, eqb_refl}
use dsvn.Text.Search.{Free, split_once-Free}
use dsvn.SortedMap
use dsvn.SortedMap.{get-insert, get-remove}
use dsvn.Hooks.{accepted}
use dsvn.Object.{Codec, new_blob}
use dsvn.Properties.{PropertySet}
use dsvn.Sqlite.Files.{ok}
use dsvn.Sqlite.Reconstruct.{TreeMap}
use dsvn.Sqlite.Repo.{Setting, Repo, add_file, commit}
use dsvn.Sqlite.Read.{get_file}
use dsvn.Sqlite.Commit.{IsSound, IsRepo, Says}
use dsvn.Sqlite.Operations.{IsFresh, add_file-IsRepo}
use dsvn.Sqlite.Revisions.{commit-IsRepo}
use dsvn.Sqlite.RoundTrip.{IsOwn, get_file-commit-add_file}
use dsvn.WebDav.Xml.{extract_text_between}
use dsvn.WebDav.Svndiff.{decode_svndiff}
use dsvn.WebDav.Svndiff.RoundTrip.{IsChunk, svndiff_of, concat, decode_svndiff-svndiff_of}
use dsvn.WebDav.Transactions.{
  Transaction, Server, Response, status_of, without_prefix, is_executable, or_text, stage,
  put_handler, add_staged, merge_txn, merge_handler,
}

-- The path of a file of a transaction.
abbrev pub txr_path : (name file_path : Bytes) → Bytes
txr_path name file_path = ascii "/svn/!svn/txr/" ++ (name ++ (b'/' ∷ file_path))

module _ (s : Setting) (json : Codec PropertySet) (sha256 : Bytes → Bytes) where
  put_handler-stage :
      (v : Server s) (name file_path body : Bytes)
      → Free b'/' name
      → put_handler s json sha256 v (txr_path name file_path) body
        ≡ stage s json sha256 v name file_path (decode_svndiff body)
  unfolding put_handler without_prefix strip_prefix
  put_handler-stage v name file_path body f =
      rw (split_once-Free b'/' name file_path f, put_handler) refl

  stage-some :
      (v : Server s) (name file_path content : Bytes) (txn : Transaction)
      → SortedMap.get name v.transactions ≡ some txn
      → (stage s json sha256 v name file_path content).1 ≡ record v {
        transactions =
            SortedMap.insert name
              (record txn {
                staged_files = SortedMap.insert (ascii "/" ++ file_path) content txn.staged_files;
              })
              v.transactions;
      }
  unfolding stage
  stage-some v name file_path content txn h = rw (h, stage) refl

  pub merge_handler-some :
      (merge_xml : ℕ → ℤ → Bytes → Bytes) (v : Server s) (body name : Bytes) (now : ℤ)
      (txn : Transaction)
      → extract_text_between body (ascii "/!svn/txn/") (ascii "</D:href>") ≡ some name
      → SortedMap.get name v.transactions ≡ some txn
      → merge_handler s json sha256 merge_xml v body now
        ≡ merge_txn s json sha256 merge_xml
            (record v { transactions = SortedMap.remove name v.transactions })
            txn
            now
  unfolding merge_handler
  merge_handler-some merge_xml v body name now txn e h =
      rw (e, merge_handler) (rw (h, merge_handler) (rw e refl))

  -- The server after the PUT, and the answer and the server after the MERGE.
  abbrev pub put_done : Server s → (name file_path : Bytes) → List Bytes → Server s
  put_done v name file_path chunks =
      (put_handler s json sha256 v (txr_path name file_path) (svndiff_of chunks)).1

  -- A PUT into a transaction without staged files stages one.
  pub put_done-empty :
      (v : Server s) (txn : Transaction) (name file_path : Bytes) (chunks : List Bytes)
      → Free b'/' name
      → All IsChunk chunks
      → SortedMap.get name v.transactions ≡ some txn
      → txn.staged_files ≡ []
      → put_done v name file_path chunks ≡ record v {
        transactions =
            SortedMap.insert name
              (record txn { staged_files = (b'/' ∷ file_path, concat chunks) ∷ [] })
              v.transactions;
      }
  unfolding SortedMap.insert
  put_done-empty v txn name file_path chunks f chunked at empty =
      ap (λ (p : Response × Server s). p.1)
        (put_handler-stage v name file_path (svndiff_of chunks) f)
      ∙ stage-some v name file_path (decode_svndiff (svndiff_of chunks)) txn at
      ∙ rw empty (rw (decode_svndiff-svndiff_of chunks chunked) refl)

  abbrev pub merged :
      (ℕ → ℤ → Bytes → Bytes)
      → Server s
      → (name file_path : Bytes) → List Bytes
      → (body : Bytes) → ℤ
      → Response × Server s
  merged merge_xml v name file_path chunks body now =
      merge_handler s json sha256 merge_xml (put_done v name file_path chunks) body now

-- The author and the message that a MERGE commits with.
abbrev pub author_of : Transaction → Bytes
author_of txn = or_text txn.author (ascii "anonymous")

abbrev pub message_of : Transaction → Bytes
message_of txn = or_text txn.log_message (ascii "No log message")

module _ {s : Setting} (sound : IsSound s) (json : Codec PropertySet) (sha256 : Bytes → Bytes)
    (merge_xml : ℕ → ℤ → Bytes → Bytes) (v : Server s) {hist : ℕ → TreeMap}
    (inv : IsRepo s v.repo hist) (now : ℤ) (txn : Transaction) (path content : Bytes)
    (one : txn.staged_files ≡ (path, content) ∷ [])
    (fresh : IsFresh s v.repo hist (trim_slashes path))
    (accepts : Says s
      (add_file s v.repo path content (is_executable path)).1
      (author_of txn)
      (message_of txn)
      now
      accepted) where
  -- A MERGE of a transaction with one staged file and no properties is `add_file` and `commit`.
  merge_txn-one :
      (merge_txn s json sha256 merge_xml v txn now).1.repo
      ≡ (commit s
          (add_file s v.repo path content (is_executable path)).1
          (author_of txn)
          (message_of txn)
          now).1
  unfolding merge_txn add_staged
  merge_txn-one = rw one refl

  status_of-merge_txn : status_of (merge_txn s json sha256 merge_xml v txn now).0 ≡ 200
  unfolding merge_txn add_staged
  status_of-merge_txn = rw one (
      rw
        (
          (commit-IsRepo sound (add_file-IsRepo inv path content (is_executable path) fresh)
              (author_of txn) (message_of txn) now accepts).0,
          merge_txn,
        )
        refl)

  get_file-merge_txn :
      IsOwn s v.repo.files (new_blob content (is_executable path))
      → (get_file s
          (merge_txn s json sha256 merge_xml v txn now).1.repo
          path
          (v.repo.current_rev + 1)).0
        ≡ ok content
  get_file-merge_txn own =
      ap (λ (r : Repo s). (get_file s r path (v.repo.current_rev + 1)).0) merge_txn-one
      ∙ get_file-commit-add_file sound inv path content (is_executable path) (author_of txn)
          (message_of txn) now fresh own accepts

module _ {s : Setting} (sound : IsSound s) (json : Codec PropertySet) (sha256 : Bytes → Bytes)
    (merge_xml : ℕ → ℤ → Bytes → Bytes) (v : Server s) {hist : ℕ → TreeMap}
    (inv : IsRepo s v.repo hist) (now : ℤ) (txn : Transaction) (name file_path : Bytes)
    (chunks : List Bytes) where
  abbrev staged_txn : Transaction
  staged_txn = record txn { staged_files = (b'/' ∷ file_path, concat chunks) ∷ [] }

  abbrev staged_server : Server s
  staged_server = record v { transactions = SortedMap.insert name staged_txn v.transactions }

  abbrev taken : Server s
  taken = record staged_server { transactions = SortedMap.remove name staged_server.transactions }

  merged_lem :
      (body : Bytes)
      → extract_text_between body (ascii "/!svn/txn/") (ascii "</D:href>") ≡ some name
      → put_done s json sha256 v name file_path chunks ≡ staged_server
      → merged s json sha256 merge_xml v name file_path chunks body now
        ≡ merge_txn s json sha256 merge_xml taken staged_txn now
  merged_lem body names put =
      ap (λ (w : Server s). merge_handler s json sha256 merge_xml w body now) put
      ∙ merge_handler-some s json sha256 merge_xml staged_server body name now staged_txn names
          (get-insert name name staged_txn v.transactions ∙ rw (eqb_refl name) refl)

  gone :
      SortedMap.get name (merge_txn s json sha256 merge_xml taken staged_txn now).1.transactions
      ≡ none
  unfolding merge_txn
  gone = get-remove name name staged_server.transactions ∙ rw (eqb_refl name) refl

  -- In a repository that satisfies the invariant, over a lawful serializer and cache: if a file is
  -- PUT as a full-text svndiff into a transaction with no staged files, and a MERGE names the
  -- transaction, and the pre-commit hook accepts, then the MERGE answers 200, the file reads back
  -- from the next revision with its content, and the transaction is gone. The name has no slash,
  -- no pending deletion of the path hides a committed entry below it, what is stored at the id of
  -- the file's blob, if anything, is a blob of this content (no other object has its digest), and
  -- no chunk is empty or has 2 ^ 63 bytes.
  pub get_file-merge-put :
      (body : Bytes)
      → Free b'/' name
      → All IsChunk chunks
      → SortedMap.get name v.transactions ≡ some txn
      → txn.staged_files ≡ []
      → extract_text_between body (ascii "/!svn/txn/") (ascii "</D:href>") ≡ some name
      → IsFresh s v.repo hist (trim_slashes (b'/' ∷ file_path))
      → IsOwn s v.repo.files (new_blob (concat chunks) (is_executable (b'/' ∷ file_path)))
      → Says s
          (add_file s v.repo
            (b'/' ∷ file_path)
            (concat chunks)
            (is_executable (b'/' ∷ file_path))).1
          (author_of txn)
          (message_of txn)
          now
          accepted
      → (status_of (merged s json sha256 merge_xml v name file_path chunks body now).0 ≡ 200)
        × ((get_file s
              (merged s json sha256 merge_xml v name file_path chunks body now).1.repo
              (b'/' ∷ file_path)
              (v.repo.current_rev + 1)).0
            ≡ ok (concat chunks))
        × (SortedMap.get name
              (merged s json sha256 merge_xml v name file_path chunks body now).1.transactions
            ≡ none)
  get_file-merge-put body f chunked at empty names fresh own accepts =
      let merge =
        merged_lem body names
          (put_done-empty s json sha256 v txn name file_path chunks f chunked at empty) in
      (
        ap (λ (p : Response × Server s). status_of p.0) merge
            ∙ status_of-merge_txn sound json sha256 merge_xml taken inv now staged_txn
                (b'/' ∷ file_path) (concat chunks) refl fresh accepts,
        ap
              (λ (p : Response × Server s).
                (get_file s p.1.repo (b'/' ∷ file_path) (v.repo.current_rev + 1)).0)
              merge
            ∙ get_file-merge_txn sound json sha256 merge_xml taken inv now staged_txn
                (b'/' ∷ file_path) (concat chunks) refl fresh accepts own,
        ap (λ (p : Response × Server s). SortedMap.get name p.1.transactions) merge ∙ gone,
      )
