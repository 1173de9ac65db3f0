-- ===== src/Examples/Sessions.antt =====
-- The theorems about transactions at a server whose repository has only revision 0.
use dsvn.Prelude.{
  ℕ, ◌+◌, ℤ, pos, ◌≡◌, refl, false, true, ◌||◌, none, some, List, [], ◌∷◌, ◌++◌, arith,
}
use dsvn.Bytes.{Bytes, ascii, trim, eqb, starts_with, strip_prefix}
use dsvn.Text.{ends_with}
use dsvn.SortedMap
use dsvn.Decimal.{decimal}
use dsvn.Hooks.{accepted, rejected, run_pre_commit, run_hook, pre_commit_input}
use dsvn.Object.{new_blob}
use dsvn.Sqlite.Files.{Failure, ok, hook_rejected}
use dsvn.Sqlite.Repo.{add_file, commit, commit_with, tree_at}
use dsvn.Sqlite.Table.{conn_collect_pending, rows_to_changes, row_to_change, conn_tree_insert}
use dsvn.Sqlite.Read.{initialize, get_file}
use dsvn.Sqlite.Commit.{Says}
use dsvn.Sqlite.RoundTrip.{IsOwn}
use dsvn.WebDav.Xml.{cut, contains, escape_xml, extract_text_between}
use dsvn.WebDav.Svndiff.RoundTrip.{concat}
use dsvn.WebDav.Transactions.{
  Transaction, Server, response, plain, internal, status_of, is_executable, or_text, txn_name,
  post_handler, merge_handler, new_transaction, merge_txn, add_staged,
}
use dsvn.WebDav.Activities.Replaced.{next_name, made, filled, staged_txn, post_handler-replaces}
use dsvn.WebDav.Reads.{get_handler}
use dsvn.WebDav.Transactions.Session.{author_of, message_of, merged, get_file-merge-put}
use dsvn.WebDav.Transactions.Failures.{merge_handler-rejected, get_handler-prefixed}
use dsvn.WebDav.Transactions.Names.{Reach, Step, Reach-new_name}
use dsvn.WebDav.SyncEndpoints.{send_range}
use dsvn.WebDav.SyncEndpoints.Delta.{Sent, send_range-Sent}
use dsvn.Examples.Settings.{setting, setting-IsSound, digest}
use dsvn.Examples.Repositories.{
  opened, opened-IsRepo, no_trees, main_rs, hello, main_rs-IsFresh, hello-IsOwn,
}
use dsvn.Examples.Registries.{json}

abbrev merge_text : ℕ → ℤ → Bytes → Bytes
merge_text rev now author = decimal rev

abbrev txn : Transaction
txn = new_transaction (ascii "0-0") 0 (pos 5)

abbrev server : Server setting
server = record {
  repo = opened;
  properties = record { files = λ d. none; cache = [] };
  transactions = (ascii "0-0", txn) ∷ [];
  txn_counter = 1;
}

abbrev body : Bytes
body = ascii "<D:href>/svn/!svn/txn/0-0</D:href>"

abbrev file_path : Bytes
file_path = ascii "src/main.rs"

body_names : extract_text_between body (ascii "/!svn/txn/") (ascii "</D:href>") ≡ some (ascii "0-0")
unfolding extract_text_between strip_prefix
body_names = refl

staged_at : SortedMap.get (ascii "0-0") server.transactions ≡ some txn
unfolding SortedMap.get eqb
staged_at = refl

anonymous-Says :
    Says setting
      (add_file setting opened main_rs hello (is_executable main_rs)).1
      (author_of txn)
      (message_of txn)
      (pos 7)
      accepted
unfolding run_pre_commit run_hook starts_with pre_commit_input decimal add_file initialize or_text
anonymous-Says changes total db e = refl

main_rs-IsOwn : IsOwn setting opened.files (new_blob hello (is_executable main_rs))
unfolding is_executable ends_with contains cut strip_prefix eqb
main_rs-IsOwn = hello-IsOwn

get_file-merge-put_example :
    (status_of
        (merged setting json digest merge_text server
          (ascii "0-0")
          file_path
          (hello ∷ [])
          body
          (pos 7)).0
      ≡ 200)
    × ((get_file setting
          (merged setting json digest merge_text server
            (ascii "0-0")
            file_path
            (hello ∷ [])
            body
            (pos 7)).1.repo
          (b'/' ∷ file_path)
          (opened.current_rev + 1)).0
        ≡ ok (concat (hello ∷ [])))
    × (SortedMap.get
          (ascii "0-0")
          (merged setting json digest merge_text server
            (ascii "0-0")
            file_path
            (hello ∷ [])
            body
            (pos 7)).1.transactions
        ≡ none)
unfolding concat
get_file-merge-put_example =
    get_file-merge-put setting-IsSound json digest merge_text server opened-IsRepo (pos 7) txn
      (ascii "0-0") file_path (hello ∷ []) body (refl, (refl, (refl, tt))) (omega arith) staged_at
      refl body_names main_rs-IsFresh main_rs-IsOwn anonymous-Says

abbrev mallory_txn : Transaction
mallory_txn = record txn { author = ascii "mallory"; staged_files = (main_rs, hello) ∷ [] }

abbrev mallory_server : Server setting
mallory_server = record server { transactions = (ascii "0-0", mallory_txn) ∷ [] }

mallory_at : SortedMap.get (ascii "0-0") mallory_server.transactions ≡ some mallory_txn
unfolding SortedMap.get eqb
mallory_at = refl

abbrev reason : Bytes
reason = ascii "Hook 'pre-commit' rejected the operation: no"

mallory-Says :
    Says setting
      (add_file setting opened main_rs hello (is_executable main_rs)).1
      (author_of mallory_txn)
      (message_of mallory_txn)
      (pos 7)
      (rejected reason)
unfolding run_pre_commit run_hook starts_with pre_commit_input decimal add_file initialize or_text
    trim
mallory-Says changes total db e = refl

abbrev rejected_server : Server setting
rejected_server = (merge_handler setting json digest merge_text mallory_server body (pos 7)).1

alice-Says : Says setting rejected_server.repo (ascii "alice") (ascii "second") (pos 8) accepted
unfolding run_pre_commit run_hook starts_with pre_commit_input decimal add_file initialize commit
    commit_with conn_collect_pending rows_to_changes conn_tree_insert SortedMap.insert row_to_change
    merge_handler extract_text_between strip_prefix SortedMap.get eqb merge_txn add_staged
alice-Says changes total db e = refl

merge_handler-rejected_example :
    ((merge_handler setting json digest merge_text mallory_server body (pos 7)).0
      ≡ internal (hook_rejected reason))
    × (SortedMap.get
          (ascii "0-0")
          (merge_handler setting json digest merge_text mallory_server body (pos 7)).1.transactions
        ≡ none)
    × ((merge_handler setting json digest merge_text mallory_server body (pos 7)).1.repo.db
        ≡ record (add_file setting opened main_rs hello (is_executable main_rs)).1.db {
          pending_changes = [];
        })
    × ((tree_at setting
          (commit setting
            (merge_handler setting json digest merge_text mallory_server body (pos 7)).1.repo
            (ascii "alice")
            (ascii "second")
            (pos 8)).1
          (opened.current_rev + 1)).0
        ≡ ok (no_trees opened.current_rev))
unfolding initialize
merge_handler-rejected_example =
    merge_handler-rejected setting-IsSound json digest mallory_server opened-IsRepo merge_text body
      (ascii "0-0") main_rs hello (pos 7) mallory_txn reason (ascii "alice") (ascii "second")
      (pos 8) body_names mallory_at refl main_rs-IsFresh refl mallory-Says alice-Says

abbrev activities : List Bytes → Bytes
activities names = []

plain_path : contains (ascii "/svn/" ++ file_path) (ascii "!svn") ≡ false
unfolding contains cut strip_prefix
plain_path = refl

file_end : ends_with (ascii "/svn/" ++ file_path) (ascii "/") ≡ false
unfolding ends_with eqb
file_end = refl

no_listing :
    (eqb (b'/' ∷ file_path) (ascii "/!svn/act/") || eqb (b'/' ∷ file_path) (ascii "/!svn/act"))
    ≡ false
unfolding eqb
no_listing = refl

no_svn : SortedMap.get (ascii "svn/" ++ file_path) (no_trees opened.current_rev) ≡ none
unfolding SortedMap.get
no_svn = refl

get_handler-prefixed_example :
    status_of (get_handler setting json digest activities server (ascii "/svn/" ++ file_path)).0
    ≡ 404
get_handler-prefixed_example =
    get_handler-prefixed setting-IsSound json digest server opened-IsRepo activities file_path
      plain_path file_end no_listing no_svn

abbrev idle : Server setting
idle = record server { transactions = []; txn_counter = 0 }

abbrev after_post : Server setting
after_post =
    (post_handler setting json digest idle (ascii "/svn/!svn/me") (ascii "create-txn") (pos 5)).1

abbrev echo : Bytes → Bytes
echo text = text

Reach-new_name_example :
    SortedMap.get
      (txn_name after_post.repo.current_rev after_post.txn_counter)
      after_post.transactions
    ≡ none
Reach-new_name_example =
    Reach-new_name setting json digest merge_text echo echo echo idle after_post refl (omega arith)
      (Reach.next Reach.here
        (Step.post (ascii "/svn/!svn/me") (ascii "create-txn") (pos 5) (omega arith) refl))

free_name : SortedMap.get (next_name setting json digest idle) idle.transactions ≡ none
unfolding SortedMap.get
free_name = refl

post_end : ends_with (ascii "/svn/!svn/me") (ascii "/!svn/me") ≡ true
unfolding ends_with eqb
post_end = refl

post_body : contains (ascii "(create-txn)") (ascii "create-txn") ≡ true
unfolding contains cut strip_prefix
post_body = refl

-- The server on which a client has filled the activity `0-0`.
abbrev busy : Server setting
busy = filled setting json digest echo echo idle file_path (hello ∷ []) (pos 7)

post_handler-replaces_example :
    ((made setting json digest echo echo idle (next_name setting json digest idle) (pos 7)).0
      ≡ response 201 (some (ascii "0-0")) (ascii "0-0"))
    × (SortedMap.get (ascii "0-0") busy.transactions
        ≡ some (staged_txn setting json digest echo echo idle file_path (hello ∷ []) (pos 7)))
    × (made setting json digest echo echo busy (ascii "0-0") (pos 8)
        ≡ (plain 405 (escape_xml (ascii "0-0")), busy))
    × ((post_handler setting json digest busy
          (ascii "/svn/!svn/me")
          (ascii "(create-txn)")
          (pos 8)).0
        ≡ response 201 (some (ascii "0-0")) [])
    × (SortedMap.get
          (ascii "0-0")
          (post_handler setting json digest busy
            (ascii "/svn/!svn/me")
            (ascii "(create-txn)")
            (pos 8)).1.transactions
        ≡ some (new_transaction (ascii "0-0") idle.repo.current_rev (pos 8)))
unfolding txn_name decimal initialize
post_handler-replaces_example =
    post_handler-replaces setting json digest echo echo idle file_path (hello ∷ []) (pos 7)
      (ascii "/svn/!svn/me") (ascii "(create-txn)") (pos 8) free_name (omega arith, tt) post_end
      post_body

abbrev no_revprops : ℕ → List (Bytes × Bytes)
no_revprops rev = []

abbrev failure_text : ℕ → Failure → Bytes
failure_text rev failure = ascii "Failed to build revision data"

abbrev size_text : ℕ → Bytes
size_text n = ascii "Range too large"

send_range-Sent_example :
    Sent digest 0 3 (send_range setting digest no_revprops failure_text size_text opened.files 0 3)
send_range-Sent_example =
    send_range-Sent setting digest no_revprops failure_text opened.files size_text 0 3 (omega arith)
