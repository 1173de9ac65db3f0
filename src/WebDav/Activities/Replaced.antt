-- ===== src/WebDav/Activities/Replaced.antt =====
-- The two handlers that make a transaction (dsvn-webdav/src/handlers.rs), when a client has given the
-- name of the next one to an activity of its own.
use dsvn.Prelude.{
  ℕ, ℤ, ◌≡◌, refl, sym, ap, ◌∙◌, true, false, none, some, List, [], ◌∷◌, ◌++◌, ◌==◌, All,
  All-append, arith,
}
use dsvn.Bytes.{Bytes, ascii, strip_prefix, trim_end, trim_end_slashes, is_empty, eqb_refl}
use dsvn.Text.Search.{Free}
use dsvn.Decimal.{decimal}
use dsvn.Decimal.RoundTrip.{decimal-All}
use dsvn.Text.{ends_with}
use dsvn.SortedMap
use dsvn.SortedMap.{get-insert}
use dsvn.Object.{Codec}
use dsvn.Properties.{PropertySet}
use dsvn.Sqlite.Repo.{Setting}
use dsvn.WebDav.Xml.{contains, escape_xml}
use dsvn.WebDav.Transactions.{
  Transaction, Server, Response, response, plain, txn_name, post_handler, new_transaction,
  without_prefix, repo_prefix,
}
use dsvn.WebDav.Transactions.Session.{put_done, put_done-empty}
use dsvn.WebDav.Svndiff.RoundTrip.{IsChunk, concat}
use dsvn.WebDav.Activities.{mkactivity_handler, make_activity}

-- The path at which a client makes an activity.
abbrev pub act_path : Bytes → Bytes
act_path name = ascii "/svn/!svn/act/" ++ name

act_path_lem :
    (name : Bytes)
    → strip_prefix (without_prefix repo_prefix (act_path name)) (ascii "/!svn/act/") ≡ some name
unfolding without_prefix strip_prefix
act_path_lem name = refl

trim_end-Free : (c : ℕ) (a : Bytes) → Free c a → trim_end (λ d. d == c) a ≡ a
unfolding trim_end
trim_end-Free c [] f = refl
trim_end-Free c (x ∷ []) f = rw f.0 refl
trim_end-Free c (x ∷ y ∷ a) f = rw (trim_end-Free c (y ∷ a) f.1, trim_end) refl

-- A name that the server makes has no slash, and is not empty.
txn_name-Free : (rev seq : ℕ) → Free b'/' (txn_name rev seq)
unfolding txn_name
txn_name-Free rev seq =
    All-append (λ d. (d == b'/') ≡ false) (decimal rev) (b'-' ∷ decimal seq) (free rev)
      (refl, free seq)
  where
    free : (n : ℕ) → Free b'/' (decimal n)
    free n = decimal-All (λ d. (d == b'/') ≡ false) (λ d h. ground arith) n

txn_name-trimmed : (rev seq : ℕ) → trim_end_slashes (txn_name rev seq) ≡ txn_name rev seq
unfolding trim_end_slashes
txn_name-trimmed rev seq = trim_end-Free b'/' (txn_name rev seq) (txn_name-Free rev seq)

is_empty-append : (a b : Bytes) (c : ℕ) → is_empty (a ++ (c ∷ b)) ≡ false
is_empty-append [] b c = refl
is_empty-append (x ∷ a) b c = refl

is_empty-txn_name : (rev seq : ℕ) → is_empty (txn_name rev seq) ≡ false
unfolding txn_name
is_empty-txn_name rev seq = is_empty-append (decimal rev) (decimal seq) b'-'

module _ (s : Setting) (json : Codec PropertySet) (sha256 : Bytes → Bytes) where
  mkactivity_handler-there :
      (answer exists : Bytes → Bytes) (v : Server s) (txn : Transaction) (path name rest : Bytes)
      (now : ℤ)
      → strip_prefix (without_prefix repo_prefix path) (ascii "/!svn/act/") ≡ some rest
      → trim_end_slashes rest ≡ name
      → is_empty name ≡ false
      → SortedMap.get name v.transactions ≡ some txn
      → mkactivity_handler s json sha256 answer exists v path now
        ≡ (plain 405 (exists (escape_xml name)), v)
  unfolding mkactivity_handler make_activity
  mkactivity_handler-there answer exists v txn path name rest now act whole named at =
      rw (act, mkactivity_handler) (rw whole (rw named (rw (at, make_activity) refl)))

  post_handler-made :
      (v : Server s) (path body name : Bytes) (now : ℤ)
      → name ≡ txn_name v.repo.current_rev v.txn_counter
      → ends_with path (ascii "/!svn/me") ≡ true
      → contains body (ascii "create-txn") ≡ true
      → ((post_handler s json sha256 v path body now).0 ≡ response 201 (some name) [])
        × (SortedMap.get name (post_handler s json sha256 v path body now).1.transactions
            ≡ some (new_transaction name v.repo.current_rev now))
  unfolding post_handler
  post_handler-made v path body name now named me create = (
    rw (me, post_handler) (rw create (rw named refl)),
    rw (me, post_handler)
        (rw create
          (rw (sym named) (get-insert name name _ v.transactions ∙ rw (eqb_refl name) refl))),
  )

  -- The name of the transaction that the next POST makes.
  abbrev pub next_name : Server s → Bytes
  next_name v = txn_name v.repo.current_rev v.txn_counter

  -- A client asks for an activity of a name.
  abbrev pub made :
      (answer exists : Bytes → Bytes) → Server s → (name : Bytes) → ℤ → Response × Server s
  made answer exists v name now =
      mkactivity_handler s json sha256 answer exists v (act_path name) now

  mkactivity_handler-new :
      (answer exists : Bytes → Bytes) (v : Server s) (name : Bytes) (now : ℤ)
      → trim_end_slashes name ≡ name
      → is_empty name ≡ false
      → SortedMap.get name v.transactions ≡ none
      → made answer exists v name now ≡ (
        response 201 (some name) (answer name),
        record v {
          transactions =
              SortedMap.insert name (new_transaction name v.repo.current_rev now) v.transactions;
        },
      )
  unfolding mkactivity_handler make_activity
  mkactivity_handler-new answer exists v name now whole full absent =
      rw (act_path_lem name, mkactivity_handler)
        (rw whole (rw full (rw (absent, make_activity) refl)))

  module _ (answer exists : Bytes → Bytes) (v : Server s) (file_path : Bytes) (chunks : List Bytes)
      (now : ℤ) where
    -- The server after a client has made the activity and PUT a file into it, and the transaction
    -- that it then holds.
    abbrev pub filled : Server s
    filled =
        put_done s json sha256 (made answer exists v (next_name v) now).1 (next_name v) file_path
          chunks

    abbrev pub staged_txn : Transaction
    staged_txn = record (new_transaction (next_name v) v.repo.current_rev now) {
      staged_files = (b'/' ∷ file_path, concat chunks) ∷ [];
    }

    abbrev staged_server : Server s
    staged_server = record v {
      transactions = SortedMap.insert (next_name v) staged_txn (
          SortedMap.insert (next_name v) (new_transaction (next_name v) v.repo.current_rev now)
            v.transactions);
    }

    filled_lem :
        All IsChunk chunks
        → SortedMap.get (next_name v) v.transactions ≡ none
        → filled ≡ staged_server
    filled_lem chunked absent =
        let name = next_name v in
        ap (λ (p : Response × Server s). put_done s json sha256 p.1 name file_path chunks)
          (mkactivity_handler-new answer exists v name now (txn_name-trimmed _ _)
            (is_empty-txn_name _ _) absent)
        ∙ put_done-empty s json sha256 _ (new_transaction name v.repo.current_rev now) name
            file_path chunks (txn_name-Free _ _) chunked
            (get-insert name name _ v.transactions ∙ rw (eqb_refl name) refl) refl

    staged_at : SortedMap.get (next_name v) staged_server.transactions ≡ some staged_txn
    staged_at =
        get-insert (next_name v) (next_name v) staged_txn _ ∙ rw (eqb_refl (next_name v)) refl

    -- If the table does not hold the name that the next POST makes, a client can take it: an
    -- MKACTIVITY that names it answers 201, and a PUT of non-empty chunks shorter than 2 ^ 63 as a
    -- full-text svndiff stages a file there. Then a second MKACTIVITY with the name is refused with
    -- 405 and changes nothing, but a POST that creates a transaction answers 201 with this name and
    -- leaves a new, empty transaction under it: the staged file is lost.
    pub post_handler-replaces :
        (path body : Bytes) (later : ℤ)
        → SortedMap.get (next_name v) v.transactions ≡ none
        → All IsChunk chunks
        → ends_with path (ascii "/!svn/me") ≡ true
        → contains body (ascii "create-txn") ≡ true
        → ((made answer exists v (next_name v) now).0
            ≡ response 201 (some (next_name v)) (answer (next_name v)))
          × (SortedMap.get (next_name v) filled.transactions ≡ some staged_txn)
          × (made answer exists filled (next_name v) later
              ≡ (plain 405 (exists (escape_xml (next_name v))), filled))
          × ((post_handler s json sha256 filled path body later).0
              ≡ response 201 (some (next_name v)) [])
          × (SortedMap.get
                (next_name v)
                (post_handler s json sha256 filled path body later).1.transactions
              ≡ some (new_transaction (next_name v) v.repo.current_rev later))
    post_handler-replaces path body later absent chunked me create =
        let name = next_name v in
        let whole = txn_name-trimmed v.repo.current_rev v.txn_counter in
        let full = is_empty-txn_name v.repo.current_rev v.txn_counter in
        let (created, empty) =
          post_handler-made staged_server path body name later refl me create in
        rw (filled_lem chunked absent) (
          ap (λ (p : Response × Server s). p.0)
              (mkactivity_handler-new answer exists v name now whole full absent),
          staged_at,
          mkactivity_handler-there answer exists staged_server staged_txn (act_path name) name name
              later (act_path_lem name) whole full staged_at,
          created,
          empty,
        )
