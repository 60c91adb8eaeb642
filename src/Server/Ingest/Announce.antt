-- ===== src/Server/Ingest/Announce.antt =====
-- ingest.rs: `announce` and `stage_upload`.
use corpus.Prelude.{ℕ, some, none, ◌∷◌, if◌then◌else◌}
use corpus.Prelude.Results.{Result, ok, err}
use corpus.Agent.Spool.{Bytes}
use corpus.Server.Hash.{Digests, hex_to_raw}
use corpus.Server.Cas.{stage}
use corpus.Server.Catalog.{
  Outcome, empty, Server, SessionState, opened, find_artifact, find_session,
}
use corpus.Server.Ingest.{
  AnnounceRequest, AnnounceResponse, Error, Answers, already_present, upload_required,
  invalid_sha256, not_found, conflict, io, db, attempt_meta, insert_capture_attempt,
  insert_occurrence, commit_transaction,
}

module _ (d : Digests) (ans : Answers) (tenant_id : ℕ) where
  -- The dedup hit.
  unfoldable pub record_present :
      AnnounceRequest → Bytes → ℕ → Server → Result Error AnnounceResponse × Server
  unfolding insert_capture_attempt insert_occurrence attempt_meta
  record_present req sha_raw artifact_id s =
      commit_transaction ans (ok (already_present artifact_id)) (err db)
        (insert_capture_attempt tenant_id (attempt_meta ans.now req.occurrence none)
          Outcome.already_present sha_raw none empty
          (insert_occurrence ans.now tenant_id artifact_id sha_raw req.occurrence s))
        s

  unfoldable pub open_session :
      AnnounceRequest → Bytes → Server → Result Error AnnounceResponse × Server
  open_session req sha_raw s =
      commit_transaction ans (ok (upload_required ans.fresh)) (err db)
        (record s {
          sessions =
              record {
                id = ans.fresh;
                tenant_id = tenant_id;
                announced_sha256 = sha_raw;
                announced_size = req.size_bytes;
                state = opened;
                created_at = ans.now;
              }
              ∷ s.sessions;
        })
        s

  -- The answer of the first SELECT.
  unfoldable pub announce_selected :
      AnnounceRequest → Bytes → Server → Result Error AnnounceResponse × Server
  unfolding record_present open_session
  announce_selected req sha_raw s = elim (find_artifact tenant_id sha_raw s.artifacts) [
    | some artifact ↦ record_present req sha_raw artifact.id s
    | none ↦ open_session req sha_raw s
  ]

  unfoldable pub announce : AnnounceRequest → Server → Result Error AnnounceResponse × Server
  unfolding announce_selected hex_to_raw
  announce req s = elim (hex_to_raw d req.sha256) [
    | none ↦ (err (invalid_sha256 req.sha256), s)
    | some sha_raw ↦ if ans.selects then announce_selected req sha_raw s else (err db, s)
  ]

  unfoldable pub stage_in_state :
      SessionState → ℕ → Bytes → Server → Result Error (Unit {0}) × Server
  stage_in_state opened upload_id bytes s =
      let (r, cas) = stage ans.disk upload_id bytes s.cas in
      elim r [ ok _ ↦ (ok tt, record s { cas = cas }) | err _ ↦ (err io, record s { cas = cas }) ]
  stage_in_state other upload_id bytes s = (err (conflict upload_id other), s)

  unfoldable pub stage_selected : ℕ → Bytes → Server → Result Error (Unit {0}) × Server
  unfolding stage_in_state
  stage_selected upload_id bytes s = elim (find_session upload_id tenant_id s.sessions) [
    | none ↦ (err (not_found upload_id), s)
    | some session ↦ stage_in_state session.state upload_id bytes s
  ]

  unfoldable pub stage_upload : ℕ → Bytes → Server → Result Error (Unit {0}) × Server
  unfolding stage_selected
  stage_upload upload_id bytes s =
      if ans.selects then stage_selected upload_id bytes s else (err db, s)
