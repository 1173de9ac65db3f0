-- ===== src/Examples/Settings.antt =====
-- A concrete setting: lossless codecs, a digest of 32 bytes, a cache that keeps everything, a
-- matcher for LIKE, and hook scripts.
use dsvn.Prelude.{
  ℕ, zero, suc, ◌+◌, ◌-◌, ◌*◌, ◌%◌, ℤ, pos, negsuc, ◌≡◌, refl, Bool, true, false, ◌&&◌, ◌||◌,
  Option, none, some, List, [], ◌∷◌, arith, length, if◌then◌else◌, ◌==◌, leb,
}
use dsvn.Bytes.{Bytes, ascii, starts_with}
use dsvn.Hooks.{Scripts, not_installed, exited}
use dsvn.Object.{
  ObjectKind, blob, tree, commit, Blob, TreeEntry, Commit, TreeChange, upsert, delete, Externals,
  IsLawful,
}
use dsvn.Sqlite.Table.{Like}
use dsvn.Sqlite.Cache.{LruCache, IsCache}
use dsvn.Sqlite.Repo.{Setting}
use dsvn.Sqlite.Commit.{IsSound}
use dsvn.Examples.Formats.{Format, number, pair, list, via, codec_of, codec_of_lem}

abbrev pub bytes : Format Bytes
bytes = list number

abbrev of_bool : Bool → ℕ
of_bool true = 1
of_bool false = 0

abbrev to_bool : ℕ → Bool
to_bool zero = false
to_bool (suc n) = true

pub to_bool-of_bool : (b : Bool) → to_bool (of_bool b) ≡ b
to_bool-of_bool true = refl
to_bool-of_bool false = refl

abbrev pub boolean : Format Bool
boolean = via number of_bool to_bool to_bool-of_bool

abbrev of_kind : ObjectKind → ℕ
of_kind blob = 0
of_kind tree = 1
of_kind commit = 2

abbrev to_kind : ℕ → ObjectKind
to_kind zero = blob
to_kind (suc zero) = tree
to_kind (suc (suc n)) = commit

pub to_kind-of_kind : (k : ObjectKind) → to_kind (of_kind k) ≡ k
to_kind-of_kind blob = refl
to_kind-of_kind tree = refl
to_kind-of_kind commit = refl

abbrev kind_format : Format ObjectKind
kind_format = via number of_kind to_kind to_kind-of_kind

abbrev of_integer : ℤ → Bool × ℕ
of_integer (pos n) = (true, n)
of_integer (negsuc n) = (false, n)

abbrev to_integer : Bool × ℕ → ℤ
to_integer (true, n) = pos n
to_integer (false, n) = negsuc n

pub to_integer-of_integer : (i : ℤ) → to_integer (of_integer i) ≡ i
to_integer-of_integer (pos n) = refl
to_integer-of_integer (negsuc n) = refl

abbrev pub integer : Format ℤ
integer = via (pair boolean number) of_integer to_integer to_integer-of_integer

abbrev entry : Format TreeEntry
entry =
    via (pair (pair bytes bytes) (pair kind_format number))
      (λ e. ((e.name, e.id), (e.kind, e.mode)))
      (λ p. record { name = p.0.0; id = p.0.1; kind = p.1.0; mode = p.1.1 }) (λ e. refl)

abbrev of_change : TreeChange → Bytes × List TreeEntry
of_change (upsert path e) = (path, e ∷ [])
of_change (delete path) = (path, [])

abbrev to_change : Bytes × List TreeEntry → TreeChange
to_change (path, []) = delete path
to_change (path, e ∷ es) = upsert path e

pub to_change-of_change : (c : TreeChange) → to_change (of_change c) ≡ c
to_change-of_change (upsert path e) = refl
to_change-of_change (delete path) = refl

abbrev change : Format TreeChange
change = via (pair bytes (list entry)) of_change to_change to_change-of_change

abbrev to_blob : Bytes × Bool → Blob
to_blob (content, executable) = record { content = content; size = 0; executable = executable }

abbrev commit_format : Format ((Bytes × List Bytes) × ((Bytes × Bytes) × (ℤ × ℤ)))
commit_format = pair (pair bytes (list bytes)) (pair (pair bytes bytes) (pair integer integer))

abbrev of_commit : Commit → (Bytes × List Bytes) × ((Bytes × Bytes) × (ℤ × ℤ))
of_commit c = ((c.tree_id, c.parents), ((c.author, c.message), (c.timestamp, c.tz_offset)))

abbrev to_commit : (Bytes × List Bytes) × ((Bytes × Bytes) × (ℤ × ℤ)) → Commit
to_commit p = record {
  tree_id = p.0.0;
  parents = p.0.1;
  author = p.1.0.0;
  message = p.1.0.1;
  timestamp = p.1.1.0;
  tz_offset = p.1.1.1;
}

abbrev zeros : ℕ → Bytes
zeros zero = []
zeros (suc n) = 0 ∷ zeros n

abbrev checksum : Bytes → ℕ
checksum [] = 7
checksum (b ∷ bs) = (b + 31 * checksum bs) % 1000003

-- A digest of 32 numbers, which tells the contents of the examples apart.
abbrev pub digest : Bytes → Bytes
digest bs = checksum bs ∷ length bs ∷ zeros 30

abbrev pub externals : Externals
externals = record {
  blobs = codec_of (pair bytes boolean) (λ b. (b.content, b.executable)) to_blob;
  trees = codec_of (list (pair bytes entry)) (λ t. t.entries) (λ es. record { entries = es });
  commits = codec_of commit_format of_commit to_commit;
  deltas =
      codec_of (pair number (pair (list change) number))
        (λ d. (d.parent_rev, (d.changes, d.total_entries)))
        (λ p. record { parent_rev = p.0; changes = p.1.0; total_entries = p.1.1 });
  sha256 = digest;
}

pub externals-IsLawful : IsLawful externals
externals-IsLawful = record {
  blobs_lem = λ b. codec_of_lem (pair bytes boolean) (λ b. (b.content, b.executable)) to_blob b;
  trees_lem = λ t.
      codec_of_lem (list (pair bytes entry)) (λ t. t.entries) (λ es. record { entries = es }) t;
  commits_lem = λ c. codec_of_lem commit_format of_commit to_commit c;
  deltas_lem = λ d.
      codec_of_lem (pair number (pair (list change) number))
        (λ d. (d.parent_rev, (d.changes, d.total_entries)))
        (λ p. record { parent_rev = p.0; changes = p.1.0; total_entries = p.1.1 }) d;
  digest_length = λ b. refl;
}

abbrev pub keeping : (V : Type 0) → LruCache V
keeping V = record {
  State = ℕ → Option V;
  empty = λ k. none;
  get = λ k c. c k;
  touch = λ k c. c;
  put = λ k v c j. if k == j then some v else c j;
}

keeping-IsCache : (V : Type 0) → IsCache (keeping V)
keeping-IsCache V = record {
  get-empty = λ k. refl;
  get-touch = λ k j c. refl;
  get-put = λ k j v w c e. ground (arith, e);
}

-- `%` stands for any text, `_` for one byte, and letters match in either case.
abbrev upper : ℕ → ℕ
upper c = if leb 97 c && leb c 122 then c - 32 else c

abbrev any_suffix : (Bytes → Bool) → Bytes → Bool
any_suffix f [] = f []
any_suffix f (c ∷ s) = f (c ∷ s) || any_suffix f s

abbrev pub like : Like
like [] [] = true
like [] (c ∷ s) = false
like (p ∷ ps) [] = if p == 37 then like ps [] else false
like (p ∷ ps) (c ∷ s) =
    if p == 37
    then any_suffix (like ps) (c ∷ s)
    else if p == 95
    then like ps s
    else if upper p == upper c
    then like ps s
    else false

-- No hook is installed, but a pre-commit hook that turns the author `mallory` away at revision 1.
abbrev pub scripts : Scripts
scripts name stdin =
    if starts_with stdin (ascii "REVISION: 1\nAUTHOR: mallory")
    then exited false (some (pos 1)) [] (ascii "no")
    else not_installed

abbrev pub setting : Setting
setting = record {
  externals = externals;
  lru = keeping (List (Bytes × TreeEntry));
  like = like;
  scripts = scripts;
  rfc3339 = λ t. none;
}

pub setting-IsSound : IsSound setting
setting-IsSound = record { lawful = externals-IsLawful; cache = keeping-IsCache _ }
