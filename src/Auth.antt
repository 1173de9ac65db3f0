-- ===== src/Auth.antt =====
-- Authentication (dsvn-core/src/auth.rs): the htpasswd file and the check of a password. bcrypt,
-- SHA-1 and base64 are parameters; reading the file is I/O.
pub mod Soundness
use dsvn.Prelude.{
  Bool, true, false, not, ◌&&◌, ◌||◌, Option, none, some, List, [], ◌∷◌, if◌then◌else◌, drop,
}
use dsvn.Bytes.{Bytes, ascii, eqb, is_empty, trim, starts_with}
use dsvn.SortedMap
use dsvn.SortedMap.{SortedMap}
use dsvn.Text.{lines, split_once}

-- Why a file or a password is refused with an error; the text is that of the message.
pub data AuthError : Type 0 where
  invalid_line empty_part user_not_found unsupported_format : Bytes → AuthError
  no_users crypt_unsupported : AuthError
  bcrypt_failed : Bytes → AuthError

pub data AuthResult : Type 0 where
  success : Bytes → AuthResult
  failed : AuthResult
  error : AuthError → AuthResult

pub data Checked {ℓ} (A : Type ℓ) : Type ℓ where
  ok : A → Checked A
  err : AuthError → Checked A

infixl 10 ◌>>=◌
abbrev pub ◌>>=◌ {ℓ κ} : {A : Type ℓ} {B : Type κ} → Checked A → (A → Checked B) → Checked B
ok a >>= f = f a
err e >>= f = err e

-- `bcrypt::verify`, the SHA-1 digest, and `base64::encode`.
pub record Hashes : Type 0 where
  pub bcrypt_verify : (password hash : Bytes) → Checked Bool
  pub sha1 : Bytes → Bytes
  pub base64 : Bytes → Bytes

pub record HtpasswdAuthProvider : Type 0 where
  pub users : SortedMap Bytes

unfoldable pub parse_user : Bytes → SortedMap Bytes → Checked (SortedMap Bytes)
parse_user line users = elim (split_once b':' line) [
  | none ↦ err (invalid_line line)
  | some (name, rest) ↦
      if is_empty (trim name) || is_empty (trim rest)
      then err (empty_part line)
      else ok (SortedMap.insert (trim name) (trim rest) users)
]

unfoldable pub parse_users : List Bytes → SortedMap Bytes → Checked (SortedMap Bytes)
unfolding parse_user
parse_users [] users = ok users
parse_users (text ∷ texts) users =
    (if is_empty (trim text)
      then ok users
      else if starts_with (trim text) (ascii "#")
      then ok users
      else parse_user (trim text) users)
    >>= λ more. parse_users texts more

unfoldable pub parse_htpasswd : Bytes → Checked HtpasswdAuthProvider
unfolding parse_users
parse_htpasswd content = do
  users ← parse_users (lines content) []
  if is_empty users then err no_users else ok (record { users = users })

module _ (h : Hashes) where
  unfoldable pub verify_bcrypt : (hash password : Bytes) → Checked Bool
  verify_bcrypt hash password =
      if not (starts_with hash (ascii "$2y$"))
        && not (starts_with hash (ascii "$2b$"))
        && not (starts_with hash (ascii "$2a$"))
      then ok false
      else h.bcrypt_verify password hash

  unfoldable pub verify_sha1 : (hash password : Bytes) → Checked Bool
  verify_sha1 hash password =
      if not (starts_with hash (ascii "{SHA}"))
      then ok false
      else ok (eqb (h.base64 (h.sha1 password)) (drop 5 hash))

  unfoldable pub verify_crypt : (hash password : Bytes) → Checked Bool
  verify_crypt hash password = err crypt_unsupported

  -- The scheme is chosen by the start of the hash.
  unfoldable pub verify_hash : (username hash password : Bytes) → Checked Bool
  unfolding verify_bcrypt verify_sha1 verify_crypt
  verify_hash username hash password =
      if starts_with hash (ascii "$2")
      then verify_bcrypt hash password
      else if starts_with hash (ascii "{SHA}")
      then verify_sha1 hash password
      else if not (starts_with hash (ascii "$"))
      then verify_crypt hash password
      else err (unsupported_format username)

  unfoldable pub verify_password : HtpasswdAuthProvider → (username password : Bytes) → Checked Bool
  unfolding verify_hash
  verify_password p username password = elim (SortedMap.get username p.users) [
    | none ↦ err (user_not_found username)
    | some hash ↦ verify_hash username hash password
  ]

  abbrev pub result_of : Bytes → Checked Bool → AuthResult
  result_of username (ok true) = success username
  result_of username (ok false) = failed
  result_of username (err e) = error e

  unfoldable pub authenticate : HtpasswdAuthProvider → (username password : Bytes) → AuthResult
  unfolding verify_password
  authenticate p username password =
      if is_empty username || is_empty password
      then failed
      else result_of username (verify_password p username password)

unfoldable pub no_op_authenticate : (username password : Bytes) → AuthResult
no_op_authenticate username password = success username

unfoldable pub mock_authenticate : (username password : Bytes) → AuthResult
mock_authenticate username password =
    if eqb password (ascii "test123") && not (is_empty username) then success username else failed
