-- ===== src/Server/Ingest/Captured.antt =====
-- What a successful `finalize` says.
use mathlib.Core.Path.{subst}
use corpus.Prelude.{
  ℕ, ◌≡◌, refl, sym, arith, true, false, ◌||◌, ◌⊎◌, inl, inr, Bool-cases, Option-cases, some, List,
  [], ◌∷◌, String, All, length, ◌==◌, str_eq, if◌then◌else◌,
}
use corpus.Prelude.Results.{Result, ok, err, Result-cases, ok_inj}
use corpus.Agent.Spool.{Bytes}
use corpus.Server.Hash.{Digests, sha256_hex, eq_ignore_ascii_case, verify_upload, verify_upload_ok}
use corpus.Server.Cas.{object_key, commit}
use corpus.Server.Cas.Put.{commit-read_object}
use corpus.Server.Classify.{classify}
use corpus.Server.Catalog.{
  Artifact, UploadSession, Server, SessionState, opened, committed, failed, is_artifact,
  find_artifact, find_session, set_session_state,
}
use corpus.Server.Ingest.Finalize.{finalize_selected}
use corpus.Server.Ingest.{after_select, db}
use corpus.Server.Ingest.{
  FinalizeRequest, FinalizeResponse, Error, Answers, insert_capture_attempt, insert_occurrence,
  commit_transaction,
}
use corpus.Server.Ingest.Finalize.{
  refuse_size, refuse_digest, insert_artifact, capture_rows, answer_captured, capture, scope_of,
  capture_in_scope, finalize_bytes, finalize_in_state, finalize,
}
use corpus.Server.Cas.Put.{text_eq_refl}

-- The session is the one of the call.
abbrev pub IsCommitted : ℕ → List UploadSession → Type 0
IsCommitted upload_id = All (λ x. x.id ≡ upload_id → x.state ≡ committed)

pub set_session_state_lem :
    (id : ℕ) (state : SessionState) (rows : List UploadSession)
    → All (λ x. x.id ≡ id → x.state ≡ state) (set_session_state id state rows)
unfolding set_session_state
set_session_state_lem id state [] = tt
set_session_state_lem id state (x ∷ rows) =
    (this (Bool-cases (x.id == id)), set_session_state_lem id state rows)
  where
    this :
        ((x.id == id) ≡ true) ⊎ ((x.id == id) ≡ false)
        → (if x.id == id then record x { state = state } else x).id ≡ id
        → (if x.id == id then record x { state = state } else x).state ≡ state
    this (inl hit) = rw hit (λ _. refl)
    this (inr miss) = rw miss (λ e. absurd (ground (arith, miss, e)))

insert_artifact_lem :
    (d : Digests) (ans : Answers) (tenant_id : ℕ) (a : Artifact) (rows : List Artifact)
    → (b : Artifact) × (find_artifact a.tenant_id a.sha256
          (insert_artifact d ans tenant_id a rows).1
        ≡ some b)
      × (b.id ≡ (insert_artifact d ans tenant_id a rows).0)
unfolding insert_artifact find_artifact is_artifact
insert_artifact_lem d ans tenant_id a rows =
    elim (Option-cases (find_artifact a.tenant_id a.sha256 rows)) [
      | inr (old, found) ↦
          (old, rw (found, insert_artifact) found, rw (found, insert_artifact) refl)
      | inl new ↦ (
        a,
        rw (new, insert_artifact) (ground (arith, text_eq_refl a.sha256)),
        rw (new, insert_artifact) refl,
      )
    ]

module _ (d : Digests) (tenant_id : ℕ) (req : FinalizeRequest) (s : Server) where
  pub record IsCaptured (resp : FinalizeResponse) (s' : Server) : Type 0 where
    pub bytes : Bytes
    pub staged : s.cas.staging req.upload_id ≡ some bytes
    pub size : length bytes ≡ req.size_bytes
    pub announced : eq_ignore_ascii_case (sha256_hex d bytes) req.sha256 ≡ true
    pub name : resp.sha256 ≡ sha256_hex d bytes
    pub artifact :
        (a : Artifact) × (find_artifact tenant_id (d.sha256_raw bytes) s'.artifacts ≡ some a)
        × (a.id ≡ resp.artifact_id)
    pub object : (b : Bytes) × (s'.cas.objects tenant_id (sha256_hex d bytes) ≡ some b)
    pub session : IsCommitted req.upload_id s'.sessions

  abbrev pub IsCapturedIfOk : Result Error FinalizeResponse × Server → Type 0
  IsCapturedIfOk o = (resp : FinalizeResponse) → o.0 ≡ ok resp → IsCaptured resp o.1

module _ (d : Digests) (ans : Answers) (tenant_id : ℕ) (req : FinalizeRequest) (s : Server) where
  transaction_lost :
      (e f : Error) (after before : Server)
      → IsCapturedIfOk d tenant_id req s (commit_transaction ans (err e) (err f) after before)
  transaction_lost e f after before resp h = elim (Bool-cases ans.transaction) [
    | inl commits ↦ absurd (ground (arith, rw commits at h))
    | inr rolls_back ↦ absurd (ground (arith, rw rolls_back at h))
  ]

  ok_artifact :
      (scope : String) (bytes : Bytes) (s1 : Server)
      → (a : Artifact) × (find_artifact tenant_id
            (d.sha256_raw bytes)
            (capture_rows d ans tenant_id req scope bytes (d.sha256_raw bytes) s1).1.artifacts
          ≡ some a)
        × (a.id ≡ (capture_rows d ans tenant_id req scope bytes (d.sha256_raw bytes) s1).0)
  unfolding capture_rows insert_capture_attempt insert_occurrence
  ok_artifact scope bytes s1 =
      insert_artifact_lem d ans tenant_id
        (record {
          id = ans.fresh;
          tenant_id = tenant_id;
          sha256 = d.sha256_raw bytes;
          size_bytes = req.size_bytes;
          artifact_class = classify bytes;
          object_key = object_key tenant_id (d.encode (d.sha256_raw bytes));
          first_committed_at = ans.now;
          scope = scope;
        })
        s1.artifacts

  ok_session :
      (scope : String) (bytes raw : Bytes) (s1 : Server)
      → IsCommitted req.upload_id (capture_rows d ans tenant_id req scope bytes raw s1).1.sessions
  unfolding capture_rows insert_capture_attempt insert_occurrence
  ok_session scope bytes raw s1 = set_session_state_lem req.upload_id committed s1.sessions

  capture-IsCapturedIfOk :
      (scope : String) (bytes : Bytes)
      → s.cas.staging req.upload_id ≡ some bytes
      → length bytes ≡ req.size_bytes
      → eq_ignore_ascii_case (sha256_hex d bytes) req.sha256 ≡ true
      → IsCapturedIfOk d tenant_id req s
          (capture d ans tenant_id req scope bytes (d.sha256_raw bytes) s)
  unfolding capture object_key answer_captured sha256_hex
  capture-IsCapturedIfOk scope bytes staged size same =
      let key = object_key tenant_id (sha256_hex d bytes) in
      let after = commit ans.disk req.upload_id key s.cas in
      let rows =
        (capture_rows d ans tenant_id req scope bytes (d.sha256_raw bytes)
          (record s { cas = after.1 })).1 in
      elim (Result-cases after.0) [
        | inl (e, lost) ↦ rw (lost, capture) (λ resp h. absurd (ground (arith, h)))
        | inr (_, done) ↦ elim (Bool-cases ans.transaction) [
          | inr rolls_back ↦ rw (done, rolls_back, capture) (λ resp h. absurd (ground (arith, h)))
          | inl commits ↦ elim (Option-cases ans.forward_scan) [
            | inl none_scanned ↦
                rw (done, commits, none_scanned, capture, answer_captured)
                  (λ resp h. absurd (ground (arith, h)))
            | inr (m, scanned) ↦
                rw (done, commits, scanned, capture, answer_captured)
                  (λ resp h.
                    subst (λ r. IsCaptured d tenant_id req s r rows) (ok_inj h)
                      (record {
                        bytes = bytes;
                        staged = staged;
                        size = size;
                        announced = same;
                        name = refl;
                        artifact = ok_artifact scope bytes (record s { cas = after.1 });
                        object = commit-read_object ans.disk req.upload_id key s.cas done;
                        session =
                            ok_session scope bytes (d.sha256_raw bytes)
                              (record s { cas = after.1 });
                      }))
          ]
        ]
      ]

  finalize_bytes-IsCapturedIfOk :
      (bytes : Bytes)
      → s.cas.staging req.upload_id ≡ some bytes
      → IsCapturedIfOk d tenant_id req s (finalize_bytes d ans tenant_id req bytes s)
  unfolding finalize_bytes capture_in_scope refuse_size refuse_digest
  finalize_bytes-IsCapturedIfOk bytes staged = elim (Bool-cases (length bytes == req.size_bytes)) [
    | inr other ↦ rw (other, finalize_bytes) (transaction_lost _ _ _ _)
    | inl size ↦ elim (Result-cases (verify_upload d bytes req.sha256)) [
      | inl (e, refused) ↦ rw (size, refused, finalize_bytes) (transaction_lost _ _ _ _)
      | inr (raw, accepted) ↦
          let (own, same) = verify_upload_ok d bytes req.sha256 raw accepted in
          elim (Bool-cases (
            str_eq (scope_of d ans tenant_id req) "endpoint"
            || str_eq (scope_of d ans tenant_id req) "intel")) [
              | inr bad ↦
                  rw (size, accepted, bad, finalize_bytes, capture_in_scope)
                    (λ resp h. absurd (ground (arith, h)))
              | inl good ↦
                  rw (size, accepted, good, finalize_bytes, capture_in_scope)
                    (subst
                      (λ r.
                        IsCapturedIfOk d tenant_id req s
                          (capture d ans tenant_id req (scope_of d ans tenant_id req) bytes r s))
                      (sym own)
                      (capture-IsCapturedIfOk (scope_of d ans tenant_id req) bytes staged
                        (ground (arith, size)) same))
            ]
    ]
  ]

  finalize_in_state-IsCapturedIfOk :
      (state : SessionState)
      → IsCapturedIfOk d tenant_id req s (finalize_in_state d ans tenant_id state req s)
  unfolding finalize_in_state
  finalize_in_state-IsCapturedIfOk committed = λ resp h. absurd (ground (arith, h))
  finalize_in_state-IsCapturedIfOk failed = λ resp h. absurd (ground (arith, h))
  finalize_in_state-IsCapturedIfOk opened = elim (Option-cases (s.cas.staging req.upload_id)) [
    | inl gone ↦ rw (gone, finalize_in_state) (λ resp h. absurd (ground (arith, h)))
    | inr (bytes, staged) ↦
        rw (staged, finalize_in_state) (finalize_bytes-IsCapturedIfOk bytes staged)
  ]

  -- A `finalize` that returns a response had staged bytes of the announced size, whose digest is the
  -- announced one up to case; the response names them by their own digest; the tenant has an artifact
  -- of that digest, with the id in the response, and an object; and the session is committed.
  pub finalize-IsCaptured :
      (resp : FinalizeResponse)
      → (finalize d ans tenant_id req s).0 ≡ ok resp
      → IsCaptured d tenant_id req s resp (finalize d ans tenant_id req s).1
  unfolding finalize finalize_selected
  finalize-IsCaptured =
      after_select
        (λ o. (resp : FinalizeResponse) → o.0 ≡ ok resp → IsCaptured d tenant_id req s resp o.1)
        ans.selects (finalize_selected d ans tenant_id req s) (err db, s)
        (elim (Option-cases (find_session req.upload_id tenant_id s.sessions)) [
          | inl unknown ↦ rw (unknown, finalize_selected) (λ resp h. absurd (ground (arith, h)))
          | inr (session, found) ↦
              rw (found, finalize_selected) (finalize_in_state-IsCapturedIfOk session.state)
        ])
        (λ resp h. absurd (ground (arith, h)))
