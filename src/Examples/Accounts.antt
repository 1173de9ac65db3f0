-- ===== src/Examples/Accounts.antt =====
-- An htpasswd file with a SHA-1 hash.
use dsvn.Prelude.{◌≡◌, ◌≢◌, refl, some, [], ◌∷◌, ◌++◌}
use dsvn.Bytes.{Bytes, ascii, eqb}
use dsvn.SortedMap
use dsvn.Auth.{success, ok, Hashes, HtpasswdAuthProvider, parse_htpasswd, authenticate}
use dsvn.Auth.Soundness.{IsConfirmed, authenticate-success}

-- Stand-ins: a hash is the password with a mark.
abbrev marks : Hashes
marks = record {
  bcrypt_verify = λ password hash. ok (eqb (ascii "$2y$" ++ password) hash);
  sha1 = λ b. b;
  base64 = λ b. b ++ ascii "=";
}

abbrev content : Bytes
content = ascii "# users\nalice:{SHA}secret=\n"

abbrev provider : HtpasswdAuthProvider
provider = record { users = (ascii "alice", ascii "{SHA}secret=") ∷ [] }

parsed : parse_htpasswd content ≡ ok provider
unfolding parse_htpasswd dsvn.Text.lines dsvn.Bytes.trim dsvn.Bytes.starts_with dsvn.Text.split_once
    SortedMap.insert
parsed = refl

entered : authenticate marks provider (ascii "alice") (ascii "secret") ≡ success (ascii "alice")
unfolding authenticate SortedMap.get eqb dsvn.Bytes.starts_with
entered = refl

authenticate-success_example :
    (ascii "alice" ≡ ascii "alice")
    × (ascii "alice" ≢ [])
    × (ascii "secret" ≢ [])
    × (hash : Bytes) × (SortedMap.get (ascii "alice") provider.users ≡ some hash)
    × IsConfirmed marks hash (ascii "secret")
authenticate-success_example =
    authenticate-success marks provider (ascii "alice") (ascii "secret") (ascii "alice") entered
