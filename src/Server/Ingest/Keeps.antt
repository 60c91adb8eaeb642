-- ===== src/Server/Ingest/Keeps.antt =====
-- ingest.rs: the invariant of `Sound`, over each of the calls.
use corpus.Prelude.{
  ℕ, ◌≡◌, refl, sym, ap, ◌||◌, inl, inr, Bool-cases, Option-cases, some, String, length, ◌==◌,
  str_eq,
}
use corpus.Prelude.Results.{ok, Result-cases}
use corpus.Agent.Spool.{Bytes}
use corpus.Server.Hash.{
  Text, Digests, HashMismatch, sha256_hex, hex_to_raw, verify_upload, verify_upload_ok,
}
use corpus.Server.Cas.{object_key, stage, discard_staging, commit}
use corpus.Server.Cas.Put.{
  IsWholeWrite, commit-IsGrown, commit-read_object, discard_staging-objects, stage-objects,
}
use corpus.Server.Catalog.{
  Server, SessionState, opened, committed, failed, find_artifact, find_session,
}
use corpus.Server.Ingest.Finalize.{finalize_selected}
use corpus.Server.Ingest.Announce.{announce_selected, stage_selected}
use corpus.Prelude.Results.{err}
use corpus.Server.Ingest.{after_select, db}
use corpus.Server.Ingest.{
  AnnounceRequest, FinalizeRequest, Answers, insert_capture_attempt, commit_transaction,
}
use corpus.Server.Ingest.Finalize.{
  mark_session_failed, refuse_size, refuse_digest, answer_captured, capture, scope_of,
  capture_in_scope, finalize_bytes, finalize_in_state, finalize,
}
use corpus.Server.Ingest.Announce.{
  record_present, open_session, announce, stage_in_state, stage_upload,
}
use corpus.Server.Ingest.Sound.{
  IsSound, carry-IsSound, grown-IsSound, insert_occurrence-IsSound, capture_rows-IsSound,
}

verified :
    (d : Digests) (bytes : Bytes) (announced : Text) (raw : Bytes)
    → verify_upload d bytes announced ≡ ok raw
    → sha256_hex d bytes ≡ d.encode raw
unfolding sha256_hex
verified d bytes announced raw h = ap d.encode (sym (verify_upload_ok d bytes announced raw h).0)

module _ (d : Digests) (ans : Answers) (tenant_id : ℕ) where
  discard-IsSound :
      (upload_id : ℕ) (s : Server)
      → IsSound d s
      → IsSound d (record s { cas = discard_staging ans.disk upload_id s.cas })
  discard-IsSound upload_id s h =
      carry-IsSound d s _ (discard_staging-objects ans.disk upload_id s.cas) refl refl h

  transaction-IsSound :
      {A : Type 0} (done lost : A) (after before : Server)
      → IsSound d after
      → IsSound d before
      → IsSound d (commit_transaction ans done lost after before).1
  transaction-IsSound done lost after before h k = elim (Bool-cases ans.transaction) [
    | inl commits ↦ rw commits h
    | inr rolls_back ↦ rw rolls_back k
  ]

  module _ (req : FinalizeRequest) where
    refuse_size-IsSound :
        (received : ℕ) (s : Server)
        → IsSound d s
        → IsSound d (refuse_size d ans tenant_id req received s).1
    unfolding refuse_size mark_session_failed
    refuse_size-IsSound received s h =
        let gone = discard-IsSound req.upload_id s h in
        transaction-IsSound _ _ _ _ (carry-IsSound d _ _ refl refl refl gone) gone

    refuse_digest-IsSound :
        (e : HashMismatch) (s : Server)
        → IsSound d s
        → IsSound d (refuse_digest d ans tenant_id req e s).1
    unfolding refuse_digest mark_session_failed insert_capture_attempt
    refuse_digest-IsSound e s h =
        transaction-IsSound _ _ _ _
          (discard-IsSound req.upload_id _ (carry-IsSound d s _ refl refl refl h)) h

    capture-IsSound :
        (scope : String) (bytes sha_raw : Bytes) (s : Server)
        → IsWholeWrite ans.disk
        → s.cas.staging req.upload_id ≡ some bytes
        → sha256_hex d bytes ≡ d.encode sha_raw
        → IsSound d s
        → IsSound d (capture d ans tenant_id req scope bytes sha_raw s).1
    unfolding capture object_key answer_captured
    capture-IsSound scope bytes sha_raw s whole staged digest h =
        let key = object_key tenant_id (d.encode sha_raw) in
        let after = commit ans.disk req.upload_id key s.cas in
        let kept =
          grown-IsSound d s key bytes after.1
            (commit-IsGrown ans.disk req.upload_id key bytes s.cas whole staged) digest h in
        elim (Result-cases after.0) [
          | inl (e, lost) ↦ rw (lost, capture) kept
          | inr (_, done) ↦ elim (Bool-cases ans.transaction) [
            | inr rolls_back ↦ rw (done, rolls_back, capture) kept
            | inl commits ↦
                let rows =
                  capture_rows-IsSound d ans tenant_id req scope bytes sha_raw _
                    (commit-read_object ans.disk req.upload_id key s.cas done) kept in
                elim (Option-cases ans.forward_scan) [
                  | inl none_scanned ↦
                      rw (done, commits, none_scanned, capture, answer_captured) rows
                  | inr (m, scanned) ↦ rw (done, commits, scanned, capture, answer_captured) rows
                ]
          ]
        ]

    finalize_bytes-IsSound :
        (bytes : Bytes) (s : Server)
        → IsWholeWrite ans.disk
        → s.cas.staging req.upload_id ≡ some bytes
        → IsSound d s
        → IsSound d (finalize_bytes d ans tenant_id req bytes s).1
    unfolding finalize_bytes capture_in_scope
    finalize_bytes-IsSound bytes s whole staged h =
        elim (Bool-cases (length bytes == req.size_bytes)) [
          | inr other ↦ rw (other, finalize_bytes) (refuse_size-IsSound (length bytes) s h)
          | inl same ↦ elim (Result-cases (verify_upload d bytes req.sha256)) [
            | inl (e, refused) ↦ rw (same, refused, finalize_bytes) (refuse_digest-IsSound e s h)
            | inr (raw, accepted) ↦
                elim (Bool-cases (
                  str_eq (scope_of d ans tenant_id req) "endpoint"
                  || str_eq (scope_of d ans tenant_id req) "intel")) [
                    | inr bad ↦
                        rw (same, accepted, bad, finalize_bytes, capture_in_scope)
                          (discard-IsSound req.upload_id s h)
                    | inl good ↦
                        rw (same, accepted, good, finalize_bytes, capture_in_scope)
                          (capture-IsSound (scope_of d ans tenant_id req) bytes raw s whole staged
                            (verified d bytes req.sha256 raw accepted) h)
                  ]
          ]
        ]

    finalize_in_state-IsSound :
        (state : SessionState) (s : Server)
        → IsWholeWrite ans.disk
        → IsSound d s
        → IsSound d (finalize_in_state d ans tenant_id state req s).1
    unfolding finalize_in_state
    finalize_in_state-IsSound committed s whole h = h
    finalize_in_state-IsSound failed s whole h = h
    finalize_in_state-IsSound opened s whole h = elim (Option-cases (s.cas.staging req.upload_id)) [
      | inl gone ↦ rw (gone, finalize_in_state) h
      | inr (bytes, staged) ↦
          rw (staged, finalize_in_state) (finalize_bytes-IsSound bytes s whole staged h)
    ]

    -- However a call of `finalize` ends, if of the two ways to move the staged file one goes through:
    -- in a sound state it leaves a sound state, in which every object has the digest that names it,
    -- every artifact has an object, and no two artifacts and no two occurrences have one key.
    pub finalize-IsSound :
        (s : Server)
        → IsWholeWrite ans.disk
        → IsSound d s
        → IsSound d (finalize d ans tenant_id req s).1
    unfolding finalize finalize_selected
    finalize-IsSound s whole h =
        after_select (λ o. IsSound d o.1) ans.selects (finalize_selected d ans tenant_id req s)
          (err db, s)
          (elim (Option-cases (find_session req.upload_id tenant_id s.sessions)) [
            | inl unknown ↦ rw (unknown, finalize_selected) h
            | inr (session, found) ↦
                rw (found, finalize_selected) (finalize_in_state-IsSound session.state s whole h)
          ])
          h

  announce_selected-IsSound :
      (req : AnnounceRequest) (raw : Bytes) (s : Server)
      → IsSound d s
      → IsSound d (announce_selected d ans tenant_id req raw s).1
  unfolding announce_selected record_present open_session insert_capture_attempt
  announce_selected-IsSound req raw s h =
      elim (Option-cases (find_artifact tenant_id raw s.artifacts)) [
        | inr (a, found) ↦
            rw (found, announce_selected)
              (transaction-IsSound _ _ _ _
                (carry-IsSound d _ _ refl refl refl
                  (insert_occurrence-IsSound d ans.now tenant_id a.id raw req.occurrence s h))
                h)
        | inl new ↦
            rw (new, announce_selected)
              (transaction-IsSound _ _ _ _ (carry-IsSound d s _ refl refl refl h) h)
      ]

  -- A call of `announce` leaves a sound state sound, whatever it answers.
  pub announce-IsSound :
      (req : AnnounceRequest) (s : Server)
      → IsSound d s
      → IsSound d (announce d ans tenant_id req s).1
  unfolding announce hex_to_raw
  announce-IsSound req s h = elim (Option-cases (hex_to_raw d req.sha256)) [
    | inl bad ↦ rw (bad, announce) h
    | inr (raw, read) ↦
        rw (read, announce)
          (after_select (λ o. IsSound d o.1) ans.selects
            (announce_selected d ans tenant_id req raw s) (err db, s)
            (announce_selected-IsSound req raw s h) h)
  ]

  -- A call of `stage_upload` leaves a sound state sound, whatever it answers.
  pub stage_upload-IsSound :
      (upload_id : ℕ) (bytes : Bytes) (s : Server)
      → IsSound d s
      → IsSound d (stage_upload d ans tenant_id upload_id bytes s).1
  unfolding stage_upload stage_selected stage_in_state
  stage_upload-IsSound upload_id bytes s h =
      after_select (λ o. IsSound d o.1) ans.selects
        (stage_selected d ans tenant_id upload_id bytes s) (err db, s)
        (elim (Option-cases (find_session upload_id tenant_id s.sessions)) [
          | inl unknown ↦ rw (unknown, stage_selected) h
          | inr (session, found) ↦ rw (found, stage_selected) (in_state session.state)
        ])
        h
    where
      in_state :
          (state : SessionState)
          → IsSound d (stage_in_state d ans tenant_id state upload_id bytes s).1
      in_state committed = h
      in_state failed = h
      in_state opened =
          let kept =
            carry-IsSound d s (record s { cas = (stage ans.disk upload_id bytes s.cas).1 })
              (stage-objects ans.disk upload_id bytes s.cas) refl refl h in
          elim (Result-cases (stage ans.disk upload_id bytes s.cas).0) [
            | inl (e, full) ↦ rw (full, stage_in_state) kept
            | inr (_, written) ↦ rw (written, stage_in_state) kept
          ]
