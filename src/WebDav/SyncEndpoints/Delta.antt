-- ===== src/WebDav/SyncEndpoints/Delta.antt =====
-- What `/sync/delta` sends (dsvn-webdav/src/sync_handlers.rs).
use dsvn.Prelude.{
  ℕ, zero, suc, ◌+◌, ◌-◌, ◌%◌, ◌^◌, ◌≤◌, ◌<◌, ◌≡◌, refl, true, List, [], ◌∷◌, arith, Bool-cases,
  inl, inr, ltb, ◌⊎◌, subst,
}
use dsvn.Bytes.{Bytes, eqb_refl}
use dsvn.Replication.{RevisionData, verify_content_hash}
use dsvn.Sqlite.Files.{Files, Failure, Result, Result-cases, ok, err, load_commit}
use dsvn.Sqlite.Repo.{Setting}
use dsvn.WebDav.SyncEndpoints.{
  Answer, json_ok, json_error, build_revision_data, build_range, send_range,
}

-- `n` revisions that follow each other from `rev` on, each with objects that have its content hash.
abbrev pub AreRevisions : (Bytes → Bytes) → ℕ → ℕ → List RevisionData → Type 0
AreRevisions sha256 n rev [] = n ≡ 0
AreRevisions sha256 zero rev (rd ∷ rds) = ⊥
AreRevisions sha256 (suc n) rev (rd ∷ rds) =
    (rd.revision ≡ rev)
    × (verify_content_hash sha256 rd ≡ true)
    × AreRevisions sha256 n (rev + 1) rds

-- What an answer without an error holds.
abbrev Sends : (Bytes → Bytes) → ℕ → ℕ → Answer (List RevisionData) → Type 0
Sends sha256 n rev (json_ok rds) = AreRevisions sha256 n rev rds
Sends sha256 n rev (json_error status message) = (status ≡ 400) ⊎ (status ≡ 404)

-- What an answer to a request for the revisions `from` to `to` is.
abbrev pub Sent : (Bytes → Bytes) → (from to : ℕ) → Answer (List RevisionData) → Type 0
Sent sha256 from to (json_ok rds) =
    (from ≤ to) × (to - from + 1 ≤ 500) × AreRevisions sha256 (to - from + 1) from rds
Sent sha256 from to (json_error status message) = (status ≡ 400) ⊎ (status ≡ 404)

module _ (s : Setting) (sha256 : Bytes → Bytes) (revprops : ℕ → List (Bytes × Bytes)) where
  Builds : ℕ → Result RevisionData → Type 0
  Builds rev (ok rd) = (rd.revision ≡ rev) × (verify_content_hash sha256 rd ≡ true)
  Builds rev (err e) = Unit

  build_revision_data-Builds :
      (f : Files) (rev : ℕ) → Builds rev (build_revision_data s sha256 revprops f rev)
  unfolding build_revision_data verify_content_hash Builds
  build_revision_data-Builds f rev = elim (Result-cases (load_commit s.externals f rev)) [
    | inl (c, e) ↦ rw (e, build_revision_data) (refl, eqb_refl _)
    | inr (failure, e) ↦ rw (e, build_revision_data) tt
  ]

  Answer-cases :
      (x : Answer (List RevisionData))
      → ((rds : List RevisionData) × (x ≡ json_ok rds))
        ⊎ ((status : ℕ) × (message : Bytes) × (x ≡ json_error status message))
  Answer-cases (json_ok rds) = inl (rds, refl)
  Answer-cases (json_error status message) = inr (status, message, refl)

  module _ (failed : ℕ → Failure → Bytes) (f : Files) where
    build_range-Sends :
        (n rev : ℕ) → Sends sha256 n rev (build_range s sha256 revprops failed f n rev)
    unfolding build_range Builds
    build_range-Sends zero rev = refl
    build_range-Sends (suc n) rev =
        elim (Result-cases (build_revision_data s sha256 revprops f rev)) [
          | inr (failure, e) ↦ rw (e, build_range) (inr refl)
          | inl (rd, e) ↦
              let built = subst (Builds rev) e (build_revision_data-Builds f rev) in
              let more = build_range-Sends n (rev + 1) in
              rw (e, build_range)
                (elim (Answer-cases (build_range s sha256 revprops failed f n (rev + 1))) [
                  | inl (rds, e') ↦
                      rw e' (built.0, built.1, subst (Sends sha256 n (rev + 1)) e' more)
                  | inr (status, message, e') ↦ rw e' (subst (Sends sha256 n (rev + 1)) e' more)
                ])
        ]

    -- The answer to a request for the revisions `from` to `to`, of which there are less than 2^64, is
    -- an error with status 400 or 404, or it holds at most 500 revisions: one for each number from
    -- `from` to `to`, in this order, and each with the content hash of its objects.
    pub send_range-Sent :
        (too_large : ℕ → Bytes) (from to : ℕ)
        → to - from + 1 < 2 ^ 64
        → Sent sha256 from to (send_range s sha256 revprops failed too_large f from to)
    unfolding send_range
    send_range-Sent too_large from to b = elim (Bool-cases (ltb to from)) [
      | inl reversed ↦ rw (reversed, send_range) (inl refl)
      | inr ordered ↦
          rw (ordered, send_range)
            (elim (Bool-cases (ltb 500 ((to - from + 1) % 2 ^ 64))) [
              | inl large ↦ rw large (inl refl)
              | inr small ↦
                  let more = build_range-Sends (to - from + 1) from in
                  rw small
                    (elim (Answer-cases
                      (build_range s sha256 revprops failed f (to - from + 1) from)) [
                        | inl (rds, e) ↦ rw e (
                          ground arith,
                          ground arith,
                          subst (Sends sha256 (to - from + 1) from) e more,
                        )
                        | inr (status, message, e) ↦
                            rw e (subst (Sends sha256 (to - from + 1) from) e more)
                      ])
            ])
    ]
