-- ===== src/WebDav/Transactions/Failures.antt =====
-- Where a commit over WebDAV goes wrong (dsvn-webdav/src/handlers.rs): a MERGE that a hook rejects,
-- and a GET of what was committed.
use dsvn.Prelude.{
  ℕ, ◌+◌, ◌%◌, ◌==◌, ℤ, ◌≡◌, refl, sym, ap, ◌∙◌, subst, false, ◌||◌, none, some, List, [], ◌∷◌,
  ◌++◌, arith,
}
use dsvn.Bytes.{Bytes, ascii, strip_prefix, trim_slashes, trim_start, eqb, eqb_refl}
use dsvn.Text.{ends_with}
use dsvn.SortedMap
use dsvn.SortedMap.{get-remove}
use dsvn.Hooks.{accepted, rejected}
use dsvn.Object.{Codec}
use dsvn.Properties.{PropertySet}
use dsvn.Sqlite.Files.{Result, Failure, Files, ok, err, hook_rejected, path_not_found}
use dsvn.Sqlite.Reconstruct.{TreeMap}
use dsvn.Sqlite.Repo.{Setting, Repo, add_file, commit, tree_at}
use dsvn.Sqlite.Read.{get_file, file_in}
use dsvn.Sqlite.Commit.{IsSound, IsRepo, Says}
use dsvn.Sqlite.Operations.{IsFresh, add_file-IsRepo}
use dsvn.Sqlite.Revisions.{commit_rejected, tree_at-history}
use dsvn.Sqlite.Divergence.{tree_at-commit_rejected}
use dsvn.WebDav.Xml.{extract_text_between, contains}
use dsvn.WebDav.Transactions.{
  Transaction, Server, Response, internal, status_of, without_prefix, is_executable, add_staged,
  merge_txn, merge_handler,
}
use dsvn.WebDav.Reads.{get_handler}
use dsvn.WebDav.Transactions.Session.{author_of, message_of, merge_handler-some}

missing :
    (s : Setting) (f : Files) (tm : TreeMap) (file_path : Bytes)
    → SortedMap.get (ascii "svn/" ++ file_path) tm ≡ none
    → file_in s f tm (ascii "/svn/" ++ file_path) ≡ err path_not_found
unfolding file_in trim_slashes trim_start
missing s f tm file_path absent = rw (absent, file_in) refl

module _ (s : Setting) (json : Codec PropertySet) (sha256 : Bytes → Bytes)
    (merge_xml : ℕ → ℤ → Bytes → Bytes) (v : Server s) (txn : Transaction) (now : ℤ)
    (path content : Bytes) (one : txn.staged_files ≡ (path, content) ∷ []) (failure : Failure)
    (left : Repo s)
    (outcome : commit s
        (add_file s v.repo path content (is_executable path)).1
        (author_of txn)
        (message_of txn)
        now
      ≡ (err failure, left)) where
  answer_lem :
      ((merge_txn s json sha256 merge_xml v txn now).0 ≡ internal failure)
      × ((merge_txn s json sha256 merge_xml v txn now).1.repo ≡ left)
  unfolding merge_txn add_staged
  answer_lem =
      (rw one (rw (outcome, merge_txn) refl), rw one (ap (λ (p : Result ℕ × Repo s). p.1) outcome))

transactions-merge_txn :
    (s : Setting) (json : Codec PropertySet) (sha256 : Bytes → Bytes)
    (merge_xml : ℕ → ℤ → Bytes → Bytes) (v : Server s) (txn : Transaction) (now : ℤ)
    → (merge_txn s json sha256 merge_xml v txn now).1.transactions ≡ v.transactions
unfolding merge_txn
transactions-merge_txn s json sha256 merge_xml v txn now = refl

module _ {s : Setting} (sound : IsSound s) (json : Codec PropertySet) (sha256 : Bytes → Bytes)
    (v : Server s) {hist : ℕ → TreeMap} (inv : IsRepo s v.repo hist) where
  -- In a repository that satisfies the invariant, over a lawful serializer and cache, with no
  -- snapshot due: if a MERGE names a transaction with one staged file, no pending deletion of whose
  -- path hides a committed entry below it, and the pre-commit hook rejects, then the answer is an
  -- internal error, the transaction is gone, the working table is as after the `add_file` of the
  -- file, and nothing is pending. If the hook accepts the next commit, with nothing staged between
  -- the two, this commit makes a revision with the tree of the one before: the rejected file, which
  -- the working table holds, is not brought by it.
  pub merge_handler-rejected :
      (merge_xml : ℕ → ℤ → Bytes → Bytes) (body name path content : Bytes) (now : ℤ)
      (txn : Transaction) (reason next_author next_message : Bytes) (next_time : ℤ)
      → extract_text_between body (ascii "/!svn/txn/") (ascii "</D:href>") ≡ some name
      → SortedMap.get name v.transactions ≡ some txn
      → txn.staged_files ≡ (path, content) ∷ []
      → IsFresh s v.repo hist (trim_slashes path)
      → (v.repo.current_rev + 1) % 1000 == 0 ≡ false
      → Says s
          (add_file s v.repo path content (is_executable path)).1
          (author_of txn)
          (message_of txn)
          now
          (rejected reason)
      → Says s
          (merge_handler s json sha256 merge_xml v body now).1.repo
          next_author
          next_message
          next_time
          accepted
      → ((merge_handler s json sha256 merge_xml v body now).0 ≡ internal (hook_rejected reason))
        × (SortedMap.get name (merge_handler s json sha256 merge_xml v body now).1.transactions
            ≡ none)
        × ((merge_handler s json sha256 merge_xml v body now).1.repo.db
            ≡ record (add_file s v.repo path content (is_executable path)).1.db {
              pending_changes = [];
            })
        × ((tree_at s
              (commit s
                (merge_handler s json sha256 merge_xml v body now).1.repo
                next_author
                next_message
                next_time).1
              (v.repo.current_rev + 1)).0
            ≡ ok (hist v.repo.current_rev))
  unfolding add_file
  merge_handler-rejected merge_xml body name path content now txn reason next_author next_message
        next_time names at one fresh no_snapshot rejects accepts =
      let merge = merge_handler-some s json sha256 merge_xml v body name now txn names at in
      let w : Server s = record v { transactions = SortedMap.remove name v.transactions } in
      let inv' = add_file-IsRepo inv path content (is_executable path) fresh in
      let outcome =
        (commit_rejected sound inv' (author_of txn) (message_of txn) now reason rejects).0 in
      let (answers, left) =
        answer_lem s json sha256 merge_xml w txn now path content one _ _ outcome in
      let repo = ap (λ (p : Response × Server s). p.1.repo) merge ∙ left in
      let after = repo ∙ sym (ap (λ (p : Result ℕ × Repo s). p.1) outcome) in
      (
        ap (λ (p : Response × Server s). p.0) merge ∙ answers,
        ap (λ (p : Response × Server s). SortedMap.get name p.1.transactions) merge
            ∙ ap (SortedMap.get name) (transactions-merge_txn s json sha256 merge_xml w txn now)
            ∙ get-remove name name v.transactions
            ∙ rw (eqb_refl name) refl,
        ap (λ (r : Repo s). r.db) repo,
        ap
              (λ (r : Repo s).
                (tree_at s (commit s r next_author next_message next_time).1
                  (v.repo.current_rev + 1)).0)
              after
            ∙ (tree_at-commit_rejected sound inv' (author_of txn) (message_of txn) now reason
                next_author next_message next_time no_snapshot rejects
                (subst (λ (r : Repo s). Says s r next_author next_message next_time accepted) after
                  accepts)).1,
      )

  unprefixed :
      (file_path : Bytes)
      → SortedMap.get (ascii "svn/" ++ file_path) (hist v.repo.current_rev) ≡ none
      → (get_file s v.repo (ascii "/svn/" ++ file_path) v.repo.current_rev).0 ≡ err path_not_found
  unfolding get_file
  unprefixed file_path absent =
      rw ((tree_at-history sound inv v.repo.current_rev (omega arith)).0, get_file)
        (missing s v.repo.files (hist v.repo.current_rev) file_path absent)

  -- In a repository that satisfies the invariant, over a lawful serializer and cache, a GET of a URL
  -- below `/svn` looks its whole path up: unless the tree holds an entry below a directory `svn`,
  -- the answer is 404, also for a file that the tree holds. The path is neither special nor a
  -- directory's.
  pub get_handler-prefixed :
      (activities : List Bytes → Bytes) (file_path : Bytes)
      → contains (ascii "/svn/" ++ file_path) (ascii "!svn") ≡ false
      → ends_with (ascii "/svn/" ++ file_path) (ascii "/") ≡ false
      → (eqb (b'/' ∷ file_path) (ascii "/!svn/act/") || eqb (b'/' ∷ file_path) (ascii "/!svn/act"))
        ≡ false
      → SortedMap.get (ascii "svn/" ++ file_path) (hist v.repo.current_rev) ≡ none
      → status_of (get_handler s json sha256 activities v (ascii "/svn/" ++ file_path)).0 ≡ 404
  unfolding get_handler without_prefix strip_prefix eqb
  get_handler-prefixed activities file_path special directory listing absent =
      rw listing (rw special (rw directory (rw (unprefixed file_path absent) refl)))
