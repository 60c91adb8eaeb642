-- ===== src/Server/Ingest/Refused.antt =====
-- What a `finalize` that fails has left alone.
use corpus.Prelude.{
  ℕ, ◌≡◌, refl, arith, Bool, true, false, ◌||◌, inl, inr, Bool-cases, Option-cases, some, ◌∷◌,
  String, All, length, ◌==◌, str_eq,
}
use corpus.Prelude.Results.{Result, err, Result-cases}
use corpus.Agent.Spool.{Bytes}
use corpus.Server.Hash.{Digests, sha256_hex, eq_ignore_ascii_case, verify_upload}
use corpus.Server.Cas.{object_key, commit}
use corpus.Server.Cas.Put.{discard_staging-objects}
use corpus.Server.Catalog.{
  UploadSession, Outcome, CaptureAttempt, Server, SessionState, opened, committed, failed,
  find_session,
}
use corpus.Server.Ingest.Finalize.{finalize_selected}
use corpus.Server.Ingest.{after_select, db}
use corpus.Server.Ingest.{
  AnnounceRequest, FinalizeRequest, FinalizeResponse, Error, Answers, AttemptMeta,
  insert_capture_attempt, insert_occurrence, commit_transaction,
}
use corpus.Server.Ingest.Finalize.{
  mark_session_failed, refuse_size, refuse_digest, answer_captured, capture, scope_of,
  capture_in_scope, finalize_bytes, finalize_in_state, finalize,
}
use corpus.Server.Ingest
use corpus.Server.Ingest.{scan}
use corpus.Server.Ingest.Captured.{set_session_state_lem}

-- The forward scan is the one step after the commit.
abbrev pub is_scan : Error → Bool
is_scan scan = true
is_scan _ = false

module _ (d : Digests) (tenant_id : ℕ) (req : FinalizeRequest) (s : Server) where
  abbrev pub IsSameRows : Server → Type 0
  IsSameRows s' = (s'.artifacts ≡ s.artifacts) × (s'.occurrences ≡ s.occurrences)

  abbrev IsSameIfErr : Result Error FinalizeResponse × Server → Type 0
  IsSameIfErr o = (e : Error) → o.0 ≡ err e → is_scan e ≡ false → IsSameRows o.1

  pub record IsMismatch (bytes : Bytes) (o : Result Error FinalizeResponse × Server) : Type 0 where
    pub answer :
        o.0
        ≡ err (
            Ingest.hash_mismatch
              (record { announced = req.sha256; recomputed = sha256_hex d bytes }))
    pub objects : o.1.cas.objects ≡ s.cas.objects
    pub artifacts : o.1.artifacts ≡ s.artifacts
    pub occurrences : o.1.occurrences ≡ s.occurrences
    pub session : All (λ x. x.id ≡ req.upload_id → x.state ≡ failed) o.1.sessions
    pub attempt :
        (a : CaptureAttempt) × (o.1.attempts ≡ a ∷ s.attempts)
        × (a.tenant_id ≡ tenant_id)
        × (a.terminal_outcome ≡ Outcome.hash_mismatch)

module _ (d : Digests) (ans : Answers) (tenant_id : ℕ) (req : FinalizeRequest) (s : Server) where
  transaction_same :
      (e f : Error) (after before : Server)
      → IsSameRows d tenant_id req s after
      → IsSameRows d tenant_id req s before
      → IsSameRows d tenant_id req s
          (commit_transaction {A = Result Error FinalizeResponse} ans
            (err e)
            (err f)
            after
            before).1
  transaction_same e f after before h k = elim (Bool-cases ans.transaction) [
    | inl commits ↦ rw commits h
    | inr rolls_back ↦ rw rolls_back k
  ]

  capture_same :
      (scope : String) (bytes raw : Bytes)
      → IsSameIfErr d tenant_id req s (capture d ans tenant_id req scope bytes raw s)
  unfolding capture answer_captured
  capture_same scope bytes raw =
      let after = commit ans.disk req.upload_id (object_key tenant_id (d.encode raw)) s.cas in
      elim (Result-cases after.0) [
        | inl (e, lost) ↦ rw (lost, capture) (λ f h n. (refl, refl))
        | inr (_, done) ↦ elim (Bool-cases ans.transaction) [
          | inr rolls_back ↦ rw (done, rolls_back, capture) (λ f h n. (refl, refl))
          | inl commits ↦ elim (Option-cases ans.forward_scan) [
            | inl none_scanned ↦
                rw (done, commits, none_scanned, capture, answer_captured)
                  (λ f h n. absurd (ground (arith, h, n)))
            | inr (m, scanned) ↦
                rw (done, commits, scanned, capture, answer_captured)
                  (λ f h n. absurd (ground (arith, h)))
          ]
        ]
      ]

  finalize_bytes_same :
      (bytes : Bytes) → IsSameIfErr d tenant_id req s (finalize_bytes d ans tenant_id req bytes s)
  unfolding finalize_bytes capture_in_scope refuse_size refuse_digest mark_session_failed
      insert_capture_attempt
  finalize_bytes_same bytes = elim (Bool-cases (length bytes == req.size_bytes)) [
    | inr other ↦
        rw (other, finalize_bytes) (λ f h n. transaction_same _ _ _ _ (refl, refl) (refl, refl))
    | inl size ↦ elim (Result-cases (verify_upload d bytes req.sha256)) [
      | inl (e, refused) ↦
          rw (size, refused, finalize_bytes)
            (λ f h n. transaction_same _ _ _ _ (refl, refl) (refl, refl))
      | inr (raw, accepted) ↦
          elim (Bool-cases (
            str_eq (scope_of d ans tenant_id req) "endpoint"
            || str_eq (scope_of d ans tenant_id req) "intel")) [
              | inr bad ↦
                  rw (size, accepted, bad, finalize_bytes, capture_in_scope) (λ f h n. (refl, refl))
              | inl good ↦
                  rw (size, accepted, good, finalize_bytes, capture_in_scope)
                    (capture_same (scope_of d ans tenant_id req) bytes raw)
            ]
    ]
  ]

  in_state_same :
      (state : SessionState)
      → IsSameIfErr d tenant_id req s (finalize_in_state d ans tenant_id state req s)
  unfolding finalize_in_state
  in_state_same committed = λ f h n. (refl, refl)
  in_state_same failed = λ f h n. (refl, refl)
  in_state_same opened = elim (Option-cases (s.cas.staging req.upload_id)) [
    | inl gone ↦ rw (gone, finalize_in_state) (λ f h n. (refl, refl))
    | inr (bytes, staged) ↦ rw (staged, finalize_in_state) (finalize_bytes_same bytes)
  ]

  -- A `finalize` that returns an error, other than one of the forward scan, leaves the artifacts and
  -- the occurrences as they were.
  pub finalize_refused :
      (e : Error)
      → (finalize d ans tenant_id req s).0 ≡ err e
      → is_scan e ≡ false
      → ((finalize d ans tenant_id req s).1.artifacts ≡ s.artifacts)
        × ((finalize d ans tenant_id req s).1.occurrences ≡ s.occurrences)
  unfolding finalize finalize_selected
  finalize_refused =
      after_select
        (λ o.
          (e : Error)
          → o.0 ≡ err e
          → is_scan e ≡ false
          → (o.1.artifacts ≡ s.artifacts) × (o.1.occurrences ≡ s.occurrences))
        ans.selects (finalize_selected d ans tenant_id req s) (err db, s)
        (elim (Option-cases (find_session req.upload_id tenant_id s.sessions)) [
          | inl unknown ↦ rw (unknown, finalize_selected) (λ f h n. (refl, refl))
          | inr (session, found) ↦ rw (found, finalize_selected) (in_state_same session.state)
        ])
        (λ f h n. (refl, refl))

  -- Staged bytes of the announced size, whose digest is not the announced one, are refused by the
  -- open session's `finalize`, if its first statement and its transaction go through: the answer has both digests, no object, no
  -- artifact and no occurrence is written, the session fails, and the attempt is on record.
  pub finalize-IsMismatch :
      (session : UploadSession) (bytes : Bytes)
      → ans.selects ≡ true
      → ans.transaction ≡ true
      → find_session req.upload_id tenant_id s.sessions ≡ some session
      → session.state ≡ opened
      → s.cas.staging req.upload_id ≡ some bytes
      → length bytes ≡ req.size_bytes
      → eq_ignore_ascii_case (sha256_hex d bytes) req.sha256 ≡ false
      → IsMismatch d tenant_id req s bytes (finalize d ans tenant_id req s)
  unfolding finalize finalize_selected finalize_in_state finalize_bytes verify_upload refuse_digest
      mark_session_failed insert_capture_attempt
  finalize-IsMismatch session bytes reads commits found state staged size other =
      let sized : (length bytes == req.size_bytes) ≡ true = ground (arith, size) in
      rw
        (
          reads, found, state, staged, sized, other, commits, finalize, finalize_selected,
          finalize_in_state, finalize_bytes, verify_upload, refuse_digest,
        )
        (record {
          answer = refl;
          objects = discard_staging-objects ans.disk req.upload_id s.cas;
          artifacts = refl;
          occurrences = refl;
          session = set_session_state_lem req.upload_id failed s.sessions;
          attempt = (_, refl, refl, refl);
        })
