-- ===== src/WebDav/Transactions/Names.antt =====
-- The table of transactions (dsvn-webdav/src/handlers.rs) as requests other than MKACTIVITY
-- change it.
use dsvn.Prelude.{
  ℕ, ◌+◌, ◌%◌, ◌^◌, ◌<◌, ℤ, ◌≡◌, refl, sym, ◌∙◌, Option, none, some, [], arith, ◌&&◌, Option-cases,
  Bool-cases, inl, inr, subst,
}
use mathlib.Core.Option.{none-ne-some}
use dsvn.Bytes.{Bytes, ascii, strip_prefix, trim_end_slashes, is_empty, starts_with}
use dsvn.Text.{split_once, ends_with}
use dsvn.SortedMap
use dsvn.SortedMap.{SortedMap, get-insert, get-remove}
use dsvn.Object.{Codec}
use dsvn.Properties.{PropertySet}
use dsvn.Sqlite.Repo.{Setting}
use dsvn.WebDav.Xml.{extract_text_between, contains}
use dsvn.WebDav.PropPatch.{from_xml}
use dsvn.WebDav.Transactions.{
  Transaction, Server, Response, txn_name, post_handler, put_handler, stage, proppatch_handler,
  proppatch_txn, merge_handler, merge_txn, or_nothing, without_prefix, repo_prefix,
}
use dsvn.WebDav.Activities.{delete_handler, handle_delete_activity}
use dsvn.WebDav.Svndiff.{decode_svndiff}
use dsvn.WebDav.Transactions.Numbered.{
  IsNumbered, Numbered, txn_name_injective, insert-Numbered, remove-Numbered, add-Numbered,
}

get_nil : (name : Bytes) → SortedMap.get {V = Transaction} name [] ≡ none
unfolding SortedMap.get
get_nil name = refl

module _ (s : Setting) (json : Codec PropertySet) (sha256 : Bytes → Bytes)
    (merge_xml : ℕ → ℤ → Bytes → Bytes) (answer txn_answer not_found : Bytes → Bytes) where
  -- What a request does to the server. The counter does not wrap.
  pub data Step (v w : Server s) : Type 0 where
    post :
        (path body : Bytes) (now : ℤ)
        → v.txn_counter + 1 < 2 ^ 64
        → w ≡ (post_handler s json sha256 v path body now).1
        → Step v w
    put : (path body : Bytes) → w ≡ (put_handler s json sha256 v path body).1 → Step v w
    proppatch :
        (path body : Bytes) (r : Response)
        → proppatch_handler s json sha256 answer txn_answer v path body ≡ some (r, w)
        → Step v w
    merge :
        (body : Bytes) (now : ℤ)
        → w ≡ (merge_handler s json sha256 merge_xml v body now).1
        → Step v w
    delete : (path : Bytes) → w ≡ (delete_handler s json sha256 not_found v path).1 → Step v w

  pub data Reach (v : Server s) : Server s → Type 0 where
    here : Reach v v
    next : {u w : Server s} → Reach v u → Step u w → Reach v w

  post-IsNumbered :
      (v : Server s) (path body : Bytes) (now : ℤ)
      → v.txn_counter + 1 < 2 ^ 64
      → IsNumbered v
      → IsNumbered (post_handler s json sha256 v path body now).1
  unfolding post_handler
  post-IsNumbered v path body now b n =
      elim (Bool-cases (ends_with path (ascii "/!svn/me") && contains body (ascii "create-txn"))) [
        | inl made ↦
            let kept : (v.txn_counter + 1) % 2 ^ 64 ≡ v.txn_counter + 1 = omega arith in
            rw (made, post_handler)
              (record {
                bounded = omega (arith, kept);
                numbered =
                    rw kept
                      (add-Numbered v.transactions v.txn_counter v.repo.current_rev _ n.numbered);
              })
        | inr other ↦ rw (other, post_handler) n
      ]

  -- The table changes at one name, and the counter stays.
  keep :
      (v w : Server s)
      → w.txn_counter ≡ v.txn_counter
      → Numbered w.transactions v.txn_counter
      → IsNumbered v
      → IsNumbered w
  keep v w e m n = record { bounded = rw e n.bounded; numbered = rw e m }

  stage-IsNumbered :
      (v : Server s) (name file_path content : Bytes)
      → IsNumbered v
      → IsNumbered (stage s json sha256 v name file_path content).1
  unfolding stage
  stage-IsNumbered v name file_path content n =
      elim (Option-cases (SortedMap.get name v.transactions)) [
        | inl gone ↦ rw (gone, stage) n
        | inr (txn, e) ↦
            rw (e, stage)
              (keep v _ refl (insert-Numbered v.transactions v.txn_counter name txn _ e n.numbered)
                n)
      ]

  put-IsNumbered :
      (v : Server s) (path body : Bytes)
      → IsNumbered v
      → IsNumbered (put_handler s json sha256 v path body).1
  unfolding put_handler
  put-IsNumbered v path body n =
      elim (Option-cases (strip_prefix (without_prefix repo_prefix path) (ascii "/!svn/txr/"))) [
        | inl none_there ↦ rw (none_there, put_handler) n
        | inr (rest, e) ↦
            rw (e, put_handler)
              (elim (Option-cases (split_once b'/' rest)) [
                | inl no_slash ↦ rw (no_slash, put_handler) n
                | inr (p, e') ↦
                    rw (e', put_handler) (stage-IsNumbered v p.0 p.1 (decode_svndiff body) n)
              ])
      ]

  proppatch_txn-IsNumbered :
      (v : Server s) (name body : Bytes)
      → IsNumbered v
      → IsNumbered (proppatch_txn s json sha256 txn_answer v name body).1
  unfolding proppatch_txn
  proppatch_txn-IsNumbered v name body n =
      elim (Option-cases (extract_text_between body (ascii "<S:log>") (ascii "</S:log>"))) [
        | inl no_log ↦ rw (no_log, proppatch_txn) n
        | inr (log_msg, e) ↦
            rw (e, proppatch_txn)
              (elim (Option-cases (SortedMap.get name v.transactions)) [
                | inl gone ↦ rw (gone, proppatch_txn) n
                | inr (txn, e') ↦
                    rw (e', proppatch_txn)
                      (keep v _ refl
                        (insert-Numbered v.transactions v.txn_counter name txn _ e' n.numbered) n)
              ])
      ]

  -- The state after a request that did not panic.
  abbrev Kept : Option (Response × Server s) → Type 0
  Kept none = Unit
  Kept (some p) = IsNumbered p.1

  proppatch-Kept :
      (v : Server s) (path body : Bytes)
      → IsNumbered v
      → Kept (proppatch_handler s json sha256 answer txn_answer v path body)
  unfolding proppatch_handler
  proppatch-Kept v path body n =
      let special = without_prefix repo_prefix path in
      elim (Bool-cases (starts_with special (ascii "/!svn/txr/"))) [
        | inl txr ↦ rw (txr, proppatch_handler) n
        | inr other ↦
            rw (other, proppatch_handler)
              (elim (Option-cases (strip_prefix special (ascii "/!svn/txn/"))) [
                | inr (name, e) ↦ rw (e, proppatch_handler) (proppatch_txn-IsNumbered v name body n)
                | inl file ↦
                    rw (file, proppatch_handler)
                      (elim (Option-cases (from_xml body)) [
                        | inl panics ↦ rw (panics, proppatch_handler) tt
                        | inr (ms, e) ↦ rw (e, proppatch_handler) (keep v _ refl n.numbered n)
                      ])
              ])
      ]

  proppatch-IsNumbered :
      (v w : Server s) (path body : Bytes) (r : Response)
      → proppatch_handler s json sha256 answer txn_answer v path body ≡ some (r, w)
      → IsNumbered v
      → IsNumbered w
  proppatch-IsNumbered v w path body r h n = subst Kept h (proppatch-Kept v path body n)

  merge-IsNumbered :
      (v : Server s) (body : Bytes) (now : ℤ)
      → IsNumbered v
      → IsNumbered (merge_handler s json sha256 merge_xml v body now).1
  unfolding merge_handler merge_txn
  merge-IsNumbered v body now n =
      let name = or_nothing (extract_text_between body (ascii "/!svn/txn/") (ascii "</D:href>")) in
      elim (Option-cases (SortedMap.get name v.transactions)) [
        | inl gone ↦ rw (gone, merge_handler) n
        | inr (txn, e) ↦
            rw (e, merge_handler)
              (keep v _ refl (remove-Numbered v.transactions v.txn_counter name n.numbered) n)
      ]

  delete_activity-IsNumbered :
      (v : Server s) (name : Bytes)
      → IsNumbered v
      → IsNumbered (handle_delete_activity s json sha256 not_found v name).1
  unfolding handle_delete_activity
  delete_activity-IsNumbered v name n = elim (Option-cases (SortedMap.get name v.transactions)) [
    | inl gone ↦ rw (gone, handle_delete_activity) n
    | inr (txn, e) ↦
        rw (e, handle_delete_activity)
          (keep v _ refl (remove-Numbered v.transactions v.txn_counter name n.numbered) n)
  ]

  delete-IsNumbered :
      (v : Server s) (path : Bytes)
      → IsNumbered v
      → IsNumbered (delete_handler s json sha256 not_found v path).1
  unfolding delete_handler
  delete-IsNumbered v path n =
      elim (Option-cases (strip_prefix (without_prefix repo_prefix path) (ascii "/!svn/act/"))) [
        | inl other ↦ rw (other, delete_handler) n
        | inr (rest, e) ↦
            rw (e, delete_handler)
              (elim (Bool-cases (is_empty (trim_end_slashes rest))) [
                | inl none_named ↦ rw none_named n
                | inr named ↦ rw named (delete_activity-IsNumbered v (trim_end_slashes rest) n)
              ])
      ]

  Step-IsNumbered : {v w : Server s} → Step v w → IsNumbered v → IsNumbered w
  Step-IsNumbered {v} (post path body now b e) n = rw e (post-IsNumbered v path body now b n)
  Step-IsNumbered {v} (put path body e) n = rw e (put-IsNumbered v path body n)
  Step-IsNumbered {v} {w} (proppatch path body r e) n = proppatch-IsNumbered v w path body r e n
  Step-IsNumbered {v} (merge body now e) n = rw e (merge-IsNumbered v body now n)
  Step-IsNumbered {v} (delete path e) n = rw e (delete-IsNumbered v path n)

  Reach-IsNumbered : {v w : Server s} → Reach v w → IsNumbered v → IsNumbered w
  Reach-IsNumbered here n = n
  Reach-IsNumbered (next r step) n = Step-IsNumbered step (Reach-IsNumbered r n)

  -- However POST, PUT, PROPPATCH, MERGE and DELETE requests, but no MKACTIVITY, follow each other
  -- from a server with no transactions, as long as the counter does not wrap, the name that a POST gives to a new
  -- transaction is not in the table, so that it replaces no other.
  pub Reach-new_name :
      (v w : Server s)
      → v.transactions ≡ []
      → v.txn_counter < 2 ^ 64
      → Reach v w
      → SortedMap.get (txn_name w.repo.current_rev w.txn_counter) w.transactions ≡ none
  Reach-new_name v w empty b reach =
      let n = Reach-IsNumbered reach (record {
        bounded = b;
        numbered = λ name txn h. absurd (none-ne-some txn (nothing name ∙ rw empty at h));
      }) in
      elim (Option-cases
        (SortedMap.get (txn_name w.repo.current_rev w.txn_counter) w.transactions)) [
          | inl fresh ↦ fresh
          | inr (txn, e) ↦
              let (rev, seq, named, less) =
                n.numbered (txn_name w.repo.current_rev w.txn_counter) txn e in
              let same =
                txn_name_injective w.repo.current_rev w.txn_counter rev seq n.bounded
                  (omega (arith, n.bounded)) named in
              absurd (omega (arith, same))
        ]
    where
      nothing : (name : Bytes) → none ≡ SortedMap.get {V = Transaction} name []
      nothing name = sym (get_nil name)
