-- ===== src/Auth/Soundness.antt =====
-- Properties of the password check and of the htpasswd parser (dsvn-core/src/auth.rs).
use dsvn.Prelude.{
  ◌≡◌, ◌≢◌, ◌⊎◌, refl, subst, Bool, true, false, ◌||◌, some, List, [], ◌∷◌, arith, if◌then◌else◌,
  Bool-cases, Option-cases, inl, inr, drop,
}
use dsvn.Bytes.{Bytes, ascii, eqb_iff, is_empty, trim, starts_with}
use dsvn.SortedMap
use dsvn.SortedMap.{SortedMap}
use dsvn.SortedMap.Order.{AllRows, insert-AllRows}
use dsvn.Text.{lines, split_once}
use dsvn.Auth.{
  success, Checked, ok, err, ◌>>=◌, Hashes, HtpasswdAuthProvider, parse_user, parse_users,
  parse_htpasswd, verify_bcrypt, verify_sha1, verify_crypt, verify_hash, verify_password, result_of,
  authenticate,
}

-- A password that one of the two supported schemes confirms for a hash.
abbrev pub IsConfirmed : Hashes → (hash password : Bytes) → Type 0
IsConfirmed h hash password =
    ((starts_with hash (ascii "$2") ≡ true) × (h.bcrypt_verify password hash ≡ ok true))
    ⊎ ((starts_with hash (ascii "{SHA}") ≡ true) × (drop 5 hash ≡ h.base64 (h.sha1 password)))

module _ (h : Hashes) where
  verify_hash-ok :
      (username hash password : Bytes)
      → verify_hash h username hash password ≡ ok true
      → IsConfirmed h hash password
  unfolding verify_hash verify_bcrypt verify_sha1 verify_crypt
  verify_hash-ok username hash password e =
      ground (arith, e, eqb_iff (h.base64 (h.sha1 password)) (drop 5 hash))

  result_of-success :
      (username name : Bytes) (c : Checked Bool)
      → result_of h username c ≡ success name
      → (c ≡ ok true) × (name ≡ username)
  result_of-success username name (ok true) e = (refl, cc)
  result_of-success username name (ok false) e = cc
  result_of-success username name (err x) e = cc

  verify_password-ok :
      (p : HtpasswdAuthProvider) (username password : Bytes)
      → verify_password h p username password ≡ ok true
      → (hash : Bytes) × (SortedMap.get username p.users ≡ some hash)
        × (verify_hash h username hash password ≡ ok true)
  unfolding verify_password
  verify_password-ok p username password e = elim (Option-cases (SortedMap.get username p.users)) [
    | inl gone ↦ cc (rw (gone, verify_password) at e)
    | inr (hash, there) ↦ (hash, there, rw (there, verify_password) at e)
  ]

  -- Authentication succeeds only for the given user, who is in the file and whose hash bcrypt or SHA-1
  -- confirms for the password, and never for an empty name or password.
  pub authenticate-success :
      (p : HtpasswdAuthProvider) (username password name : Bytes)
      → authenticate h p username password ≡ success name
      → (name ≡ username)
        × (username ≢ [])
        × (password ≢ [])
        × (hash : Bytes) × (SortedMap.get username p.users ≡ some hash)
        × IsConfirmed h hash password
  unfolding authenticate
  authenticate-success p [] password name e = cc
  authenticate-success p (c ∷ username) [] name e = cc
  authenticate-success p (c ∷ username) (d ∷ password) name e =
      let (verified, same) =
        result_of-success (c ∷ username) name (verify_password h p (c ∷ username) (d ∷ password))
          e in
      let (hash, there, confirmed) = verify_password-ok p (c ∷ username) (d ∷ password) verified in
      (
        same,
        (λ k. cc),
        (λ k. cc),
        hash,
        there,
        verify_hash-ok (c ∷ username) hash (d ∷ password) confirmed,
      )

-- Users with a name and a hash.
abbrev pub IsFilled : SortedMap Bytes → Type 0
IsFilled users = AllRows (λ name hash. (name ≢ []) × (hash ≢ [])) users

bind-ok :
    {A B : Type 0} (x : Checked A) (f : A → Checked B) (b : B)
    → (x >>= f) ≡ ok b
    → (a : A) × (x ≡ ok a) × (f a ≡ ok b)
bind-ok (ok a) f b e = (a, refl, e)
bind-ok (err x) f b e = cc

filled_part : (s : Bytes) → is_empty s ≡ false → s ≢ []
filled_part [] h e = cc
filled_part (c ∷ s) h e = cc

parse_user-IsFilled :
    (line : Bytes) (users more : SortedMap Bytes)
    → IsFilled users
    → parse_user line users ≡ ok more
    → IsFilled more
unfolding parse_user
parse_user-IsFilled line users more v e = elim (Option-cases (split_once b':' line)) [
  | inl gone ↦ cc (rw (gone, parse_user) at e)
  | inr ((name, rest), k) ↦ elim (Bool-cases (is_empty (trim name) || is_empty (trim rest))) [
    | inl bad ↦ cc (rw (k, parse_user, bad) at e)
    | inr good ↦
        let same : SortedMap.insert (trim name) (trim rest) users ≡ more =
          cc (rw (k, parse_user, good) at e) in
        subst IsFilled same (
          insert-AllRows _ (trim name) (trim rest) users
            (
              filled_part (trim name) (ground (arith, good)),
              filled_part (trim rest) (ground (arith, good)),
            )
            v)
  ]
]

parse_users-IsFilled :
    (texts : List Bytes) (users more : SortedMap Bytes)
    → IsFilled users
    → parse_users texts users ≡ ok more
    → IsFilled more
unfolding parse_users
parse_users-IsFilled [] users more v e = subst IsFilled (cc (e)) v
parse_users-IsFilled (text ∷ texts) users more v e =
    let (next, step, rest) = bind-ok _ (λ m. parse_users texts m) more e in
    parse_users-IsFilled texts next more (step_filled step) rest
  where
    step_filled :
        {next : SortedMap Bytes}
        → (if is_empty (trim text)
            then ok users
            else if starts_with (trim text) (ascii "#")
            then ok users
            else parse_user (trim text) users)
          ≡ ok next
        → IsFilled next
    step_filled {next} step = elim (Bool-cases (is_empty (trim text))) [
      | inl blank ↦ subst IsFilled (cc (rw blank at step)) v
      | inr full ↦ elim (Bool-cases (starts_with (trim text) (ascii "#"))) [
        | inl comment ↦ subst IsFilled (cc (rw (full, comment) at step)) v
        | inr entry ↦ parse_user-IsFilled (trim text) users next v (rw (full, entry) at step)
      ]
    ]

-- A file that is accepted gives at least one user, and each with a name and a hash that are not
-- empty.
pub parse_htpasswd-IsFilled :
    (content : Bytes) (p : HtpasswdAuthProvider)
    → parse_htpasswd content ≡ ok p
    → (p.users ≢ []) × IsFilled p.users
unfolding parse_htpasswd
parse_htpasswd-IsFilled content p e =
    let (users, parsed, rest) = bind-ok (parse_users (lines content) []) _ p e in
    elim (Bool-cases (is_empty users)) [
      | inl empty ↦ cc (rw empty at rest)
      | inr full ↦
          let same : record { users = users } ≡ p = cc (rw full at rest) in
          subst (λ q. (q.users ≢ []) × IsFilled q.users) same
            (ground (arith, full), parse_users-IsFilled (lines content) [] users tt parsed)
    ]
