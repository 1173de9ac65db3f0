-- ===== src/WebDav/SyncEndpoints.antt =====
-- The endpoints of dsvn-webdav/src/sync_handlers.rs that send revisions and objects to another
-- server, and the query strings that they read. Texts are bytes in UTF-8.
pub mod Delta
use dsvn.Prelude.{
  ℕ, zero, suc, ◌+◌, ◌-◌, ◌*◌, ◌/◌, ◌%◌, ◌^◌, Bool, true, false, ◌&&◌, Option, none, some, List, [],
  ◌∷◌, ◌++◌, if◌then◌else◌, length, ltb, leb, ◌==◌,
}
use dsvn.Bytes.{Bytes, ascii, eqb, is_empty, trim}
use dsvn.Text.{split_on, split_once}
use dsvn.Decimal.{parse_u64}
use dsvn.SortedMap
use dsvn.SortedMap.{SortedMap}
use dsvn.Object.{ObjectId, ObjectKind, blob, tree, commit, TreeChange, upsert, delete, DeltaTree}
use dsvn.Replication.{RevisionData, compute_content_hash}
use dsvn.Sqlite.Files.{Files, Failure, Result, ok, err, load_blob, load_commit, load_delta_tree}
use dsvn.Sqlite.Repo.{Setting, Repo}

unfoldable pub hex_val : ℕ → ℕ
hex_val b =
    if leb 48 b && leb b 57
    then b - 48
    else if leb 97 b && leb b 102
    then b - 97 + 10
    else if leb 65 b && leb b 70
    then b - 65 + 10
    else 0

-- `push(b as char)`: a byte from 128 on becomes a character of two bytes.
unfoldable pub push_char : ℕ → Bytes → Bytes
push_char b rest = if ltb b 128 then b ∷ rest else (192 + b / 64) ∷ (128 + b % 64) ∷ rest

-- A byte that is not behind a `%`.
abbrev plain_char : ℕ → Bytes → Bytes
plain_char b rest = if b == b'+' then 32 ∷ rest else push_char b rest

-- A missing digit counts as 0.
unfoldable pub urldecode : Bytes → Bytes
unfolding hex_val push_char
urldecode [] = []
urldecode (b ∷ []) = if b == b'%' then push_char 0 [] else plain_char b []
urldecode (b ∷ hi ∷ []) = elim (b == b'%') [
  | true ↦ push_char (hex_val hi * 16) []
  | false ↦ plain_char b (urldecode (hi ∷ []))
]
urldecode (b ∷ hi ∷ lo ∷ s) = elim (b == b'%') [
  | true ↦ push_char (hex_val hi * 16 + hex_val lo) (urldecode s)
  | false ↦ plain_char b (urldecode (hi ∷ lo ∷ s))
]

unfoldable pub parse_pairs : SortedMap Bytes → List Bytes → SortedMap Bytes
unfolding urldecode
parse_pairs map [] = map
parse_pairs map (pair ∷ pairs) =
    parse_pairs
      (elim (split_once b'=' pair) [
        | none ↦ map
        | some (k, v) ↦ SortedMap.insert (urldecode k) (urldecode v) map
      ])
      pairs

-- The last value of a key counts.
unfoldable pub parse_query : Bytes → SortedMap Bytes
unfolding parse_pairs
parse_query query = parse_pairs [] (split_on b'&' query)

-- The number of a key, if it has one.
unfoldable pub number_at : Bytes → SortedMap Bytes → Option ℕ
number_at key params = elim (SortedMap.get key params) [ none ↦ none | some v ↦ parse_u64 v ]

abbrev pub or_number : Option ℕ → ℕ → ℕ
or_number none d = d
or_number (some n) d = n

abbrev pub max_delta_range : ℕ
max_delta_range = 500

-- What is sent as JSON, or an error.
pub data Answer (A : Type 0) : Type 0 where
  json_ok : A → Answer A
  json_error : (status : ℕ) (message : Bytes) → Answer A

abbrev is_blob : ObjectKind → Bool
is_blob blob = true
is_blob tree = false
is_blob commit = false

module _ (s : Setting) (sha256 : Bytes → Bytes) (revprops : ℕ → List (Bytes × Bytes)) where
  -- The files that a revision changes; one that cannot be read is left out.
  unfoldable pub changed_objects : Files → List TreeChange → List (ObjectId × Bytes)
  changed_objects f [] = []
  changed_objects f (delete path ∷ changes) = changed_objects f changes
  changed_objects f (upsert path entry ∷ changes) =
      let rest = changed_objects f changes in
      if is_blob entry.kind
      then elim (load_blob s.externals f entry.id) [
        | err e ↦ rest
        | ok b ↦ (entry.id, b.content) ∷ rest
      ]
      else rest

  unfoldable pub delta_or_empty : Files → ℕ → DeltaTree
  delta_or_empty f rev = elim (load_delta_tree s.externals f rev) [
    | ok d ↦ d
    | err e ↦ record { parent_rev = rev - 1; changes = []; total_entries = 0 }
  ]

  unfoldable pub build_revision_data : Files → ℕ → Result RevisionData
  unfolding changed_objects delta_or_empty
  build_revision_data f rev = elim (load_commit s.externals f rev) [
    | err e ↦ err e
    | ok c ↦
        let delta = delta_or_empty f rev in
        let objects = changed_objects f delta.changes in
        ok (record {
          revision = rev;
          author = c.author;
          message = c.message;
          timestamp = c.timestamp;
          delta_tree = delta;
          objects = objects;
          properties = revprops rev;
          content_hash = compute_content_hash sha256 objects;
          empty_commit = is_empty delta.changes;
        })
  ]

  -- `n` revisions from `rev` on; the first that cannot be read is the error.
  unfoldable pub build_range :
      (failed : ℕ → Failure → Bytes) → Files → ℕ → ℕ → Answer (List RevisionData)
  unfolding build_revision_data
  build_range failed f zero rev = json_ok []
  build_range failed f (suc n) rev = elim (build_revision_data f rev) [
    | err e ↦ json_error 404 (failed rev e)
    | ok rd ↦ elim (build_range failed f n (rev + 1)) [
      | json_ok rds ↦ json_ok (rd ∷ rds)
      | json_error status message ↦ json_error status message
    ]
  ]

  -- The number of revisions wraps around in 64 bits. `failed` and `too_large` are texts of errors.
  unfoldable pub send_range :
      (failed : ℕ → Failure → Bytes) (too_large : ℕ → Bytes)
      → Files
      → (from to : ℕ) → Answer (List RevisionData)
  unfolding build_range
  send_range failed too_large f from to =
      if ltb to from
      then json_error 400 (ascii "from must be <= to")
      else if ltb max_delta_range ((to - from + 1) % 2 ^ 64)
      then json_error 400 (too_large ((to - from + 1) % 2 ^ 64))
      else build_range failed f (to - from + 1) from

  unfoldable pub handle_delta :
      (failed : ℕ → Failure → Bytes) (too_large : ℕ → Bytes)
      → Repo s
      → (query : Bytes) → Answer (List RevisionData)
  unfolding send_range parse_query number_at
  handle_delta failed too_large r query =
      let params = parse_query query in
      let from = or_number (number_at (ascii "from") params) 1 in
      let to = or_number (number_at (ascii "to") params) from in
      send_range failed too_large r.files from to
