-- ===== src/Server/Ingest/Finalize.antt =====
-- ingest.rs: `finalize`.
use corpus.Prelude.{ℕ, ◌||◌, some, none, List, [], ◌∷◌, String, length, ◌==◌, str_eq, if◌then◌else◌}
use corpus.Prelude.Results.{Result, ok, err}
use corpus.Agent.Spool.{Bytes}
use corpus.Server.Hash.{Digests, HashMismatch, hex_to_raw, verify_upload}
use corpus.Server.Cas.{object_key, discard_staging, commit}
use corpus.Server.Classify.{classify}
use corpus.Server.Catalog.{
  Artifact, Outcome, artifact_class, digests, Server, SessionState, opened, committed, failed,
  find_artifact, find_session, set_session_state,
}
use corpus.Server.Ingest.{
  FinalizeRequest, FinalizeResponse, Error, Answers, invalid_scope, size_mismatch, hash_mismatch,
  not_found, conflict, io, db, scan, attempt_meta, insert_capture_attempt, insert_occurrence,
  commit_transaction,
}

module _ (d : Digests) (ans : Answers) (tenant_id : ℕ) where
  abbrev pub discard : ℕ → Server → Server
  discard upload_id s = record s { cas = discard_staging ans.disk upload_id s.cas }

  unfoldable pub mark_session_failed : ℕ → Server → Server
  mark_session_failed upload_id s = record s {
    sessions = set_session_state upload_id failed s.sessions;
  }

  -- The size is not the announced one. The staging file goes first.
  unfoldable pub refuse_size : FinalizeRequest → ℕ → Server → Result Error FinalizeResponse × Server
  unfolding mark_session_failed
  refuse_size req received s =
      commit_transaction ans (err (size_mismatch req.size_bytes received)) (err db)
        (mark_session_failed req.upload_id (discard req.upload_id s)) (discard req.upload_id s)

  -- The digest is not the announced one. The staging file goes after the transaction.
  unfoldable pub refuse_digest :
      FinalizeRequest → HashMismatch → Server → Result Error FinalizeResponse × Server
  unfolding mark_session_failed insert_capture_attempt hex_to_raw attempt_meta
  refuse_digest req e s =
      commit_transaction ans (err (hash_mismatch e)) (err db)
        (discard req.upload_id (
          mark_session_failed req.upload_id (
            insert_capture_attempt tenant_id (attempt_meta ans.now req.occurrence req.provenance)
              Outcome.hash_mismatch (elim (hex_to_raw d req.sha256) [ none ↦ [] | some raw ↦ raw ])
              (some "SHA256_MISMATCH") (digests e.announced e.recomputed) s)))
        s

  -- INSERT … ON CONFLICT DO NOTHING, and the id of the row that is there then.
  unfoldable pub insert_artifact : Artifact → List Artifact → ℕ × List Artifact
  insert_artifact a rows = elim (find_artifact a.tenant_id a.sha256 rows) [
    | some old ↦ (old.id, rows)
    | none ↦ (a.id, a ∷ rows)
  ]

  -- The rows of a capture: artifact, occurrence, attempt, session.
  unfoldable pub capture_rows : FinalizeRequest → String → Bytes → Bytes → Server → ℕ × Server
  unfolding insert_artifact insert_capture_attempt insert_occurrence attempt_meta
  capture_rows req scope bytes sha_raw s =
      let (artifact_id, artifacts) =
        insert_artifact
          (record {
            id = ans.fresh;
            tenant_id = tenant_id;
            sha256 = sha_raw;
            size_bytes = req.size_bytes;
            artifact_class = classify bytes;
            object_key = object_key tenant_id (d.encode sha_raw);
            first_committed_at = ans.now;
            scope = scope;
          })
          s.artifacts in
      let s' =
        insert_capture_attempt tenant_id (attempt_meta ans.now req.occurrence req.provenance)
          Outcome.captured sha_raw none (artifact_class (classify bytes))
          (insert_occurrence ans.now tenant_id artifact_id sha_raw req.occurrence
            (record s { artifacts = artifacts })) in
      (artifact_id, record s' { sessions = set_session_state req.upload_id committed s'.sessions })

  -- The forward scan comes after the commit, so that its error leaves the rows.
  unfoldable pub answer_captured : Bytes → ℕ × Server → Result Error FinalizeResponse × Server
  answer_captured sha_raw (artifact_id, s) = elim ans.forward_scan [
    | none ↦ (err scan, s)
    | some matches ↦ (
      ok (record {
        artifact_id = artifact_id;
        sha256 = d.encode sha_raw;
        forward_matches = matches;
      }),
      s,
    )
  ]

  unfoldable pub capture :
      FinalizeRequest → String → Bytes → Bytes → Server → Result Error FinalizeResponse × Server
  unfolding capture_rows answer_captured
  capture req scope bytes sha_raw s =
      let (r, cas) =
        commit ans.disk req.upload_id (object_key tenant_id (d.encode sha_raw)) s.cas in
      let s' = record s { cas = cas } in
      elim r [
        | err _ ↦ (err io, s')
        | ok _ ↦
            if ans.transaction
            then answer_captured sha_raw (capture_rows req scope bytes sha_raw s')
            else (err db, s')
      ]

  -- `req.scope.as_deref().unwrap_or("endpoint")`
  abbrev pub scope_of : FinalizeRequest → String
  scope_of req = elim req.scope [ none ↦ "endpoint" | some scope ↦ scope ]

  -- The session stays open, without its bytes.
  unfoldable pub capture_in_scope :
      FinalizeRequest → Bytes → Bytes → Server → Result Error FinalizeResponse × Server
  unfolding capture
  capture_in_scope req bytes sha_raw s =
      if str_eq (scope_of req) "endpoint" || str_eq (scope_of req) "intel"
      then capture req (scope_of req) bytes sha_raw s
      else (err (invalid_scope (scope_of req)), discard req.upload_id s)

  unfoldable pub finalize_bytes :
      FinalizeRequest → Bytes → Server → Result Error FinalizeResponse × Server
  unfolding refuse_size refuse_digest capture_in_scope
  finalize_bytes req bytes s =
      if length bytes == req.size_bytes
      then elim (verify_upload d bytes req.sha256) [
        | ok sha_raw ↦ capture_in_scope req bytes sha_raw s
        | err e ↦ refuse_digest req e s
      ]
      else refuse_size req (length bytes) s

  unfoldable pub finalize_in_state :
      SessionState → FinalizeRequest → Server → Result Error FinalizeResponse × Server
  unfolding finalize_bytes
  finalize_in_state opened req s = elim (s.cas.staging req.upload_id) [
    | none ↦ (err io, s)
    | some bytes ↦ finalize_bytes req bytes s
  ]
  finalize_in_state other req s = (err (conflict req.upload_id other), s)

  -- The answer of the first SELECT.
  unfoldable pub finalize_selected :
      FinalizeRequest → Server → Result Error FinalizeResponse × Server
  unfolding finalize_in_state
  finalize_selected req s = elim (find_session req.upload_id tenant_id s.sessions) [
    | none ↦ (err (not_found req.upload_id), s)
    | some session ↦ finalize_in_state session.state req s
  ]

  unfoldable pub finalize : FinalizeRequest → Server → Result Error FinalizeResponse × Server
  unfolding finalize_selected
  finalize req s = if ans.selects then finalize_selected req s else (err db, s)
