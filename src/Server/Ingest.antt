-- ===== src/Server/Ingest.antt =====
-- crates/corpus-core/src/ingest.rs: announce, stage, finalize.
-- A call is one step: the clock, the fresh ids and the answers of the disk and of the database are
-- values. A transaction that does not commit leaves its tables as they were.
pub mod Announce
pub mod Sound
pub mod Keeps
pub mod Captured
pub mod RoundTrip
pub mod Refused
pub mod Finalize
use corpus.Prelude.{
  ℕ, ◌≡◌, Bool, true, false, ◌&&◌, ◌||◌, Option, some, none, List, [], ◌∷◌, String, length, ◌==◌,
  str_eq, find?, if◌then◌else◌,
}
use corpus.Prelude.Results.{Result, ok, err}
use corpus.Agent.Spool.{Bytes}
use corpus.Server.Hash.{Text, Digests, HashMismatch, sha256_hex, hex_to_raw, verify_upload}
use corpus.Server.Cas.{FsCas, ObjectKey, object_key, Disk, CasError, stage, discard_staging, commit}
use corpus.Server.Classify.{ArtifactClass, classify}
use corpus.Server.Catalog.{
  OccurrenceInfo, Artifact, UploadSession, OccurrenceEvent, Outcome, CaptureAttempt, AttemptDetail,
  empty, artifact_class, digests, Server, SessionState, opened, committed, failed, find_artifact,
  find_session, set_session_state, insert_event,
}

-- The keys of the provenance that `attempt_meta` reads.
pub record Provenance : Type 0 where
  pub source : Option String
  pub path : Option String

pub record AnnounceRequest : Type 0 where
  pub sha256 : Text
  pub size_bytes : ℕ
  pub occurrence : Option OccurrenceInfo

pub record FinalizeRequest : Type 0 where
  pub upload_id : ℕ
  pub sha256 : Text
  pub size_bytes : ℕ
  pub occurrence : Option OccurrenceInfo
  pub scope : Option String
  pub provenance : Option Provenance

-- `ALREADY_PRESENT` has the artifact's id, and `UPLOAD_REQUIRED` the upload's.
pub data AnnounceResponse : Type 0 where
  already_present upload_required : ℕ → AnnounceResponse

pub record FinalizeResponse : Type 0 where
  pub artifact_id : ℕ
  pub sha256 : Text
  pub forward_matches : List String

pub data Error : Type 0 where
  invalid_sha256 : Text → Error
  invalid_scope : String → Error
  size_mismatch : ℕ → ℕ → Error
  hash_mismatch : HashMismatch → Error
  not_found : ℕ → Error
  conflict : ℕ → SessionState → Error
  io db scan : Error

-- What one call is given besides its request.
pub record Answers : Type 0 where
  pub now : ℕ
  pub fresh : ℕ
  pub disk : Disk
  pub selects : Bool  -- the first statement, which reads
  pub transaction : Bool
  pub forward_scan : Option (List String)

-- What follows from both answers of the first statement follows from the call.
pub after_select :
    {A : Type 0} (P : A → Type 0) (b : Bool) (x y : A) → P x → P y → P (if b then x else y)
after_select P true x y p q = p
after_select P false x y p q = q

pub record AttemptMeta : Type 0 where
  pub host : String
  pub agent : ℕ
  pub observed : ℕ
  pub reason : String
  pub path : Option String

unfoldable pub attempt_meta : ℕ → Option OccurrenceInfo → Option Provenance → AttemptMeta
attempt_meta now (some o) provenance = record {
  host = o.host_name;
  agent = o.agent_id;
  observed = o.observed_at;
  reason = o.capture_reason;
  path = some o.path;
}
attempt_meta now none provenance = record {
  host = elim provenance [
    | none ↦ "intel-import"
    | some p ↦ elim p.source [ none ↦ "intel-import" | some s ↦ s ]
  ];
  agent = 0;
  observed = now;
  reason = "intel_import";
  path = elim provenance [ none ↦ none | some p ↦ p.path ];
}

unfoldable pub insert_capture_attempt :
    ℕ → AttemptMeta → Outcome → Bytes → Option String → AttemptDetail → Server → Server
insert_capture_attempt tenant_id meta outcome sha256 code detail s = record s {
  attempts =
      record {
        tenant_id = tenant_id;
        host_name = meta.host;
        agent_id = meta.agent;
        observed_at = meta.observed;
        capture_reason = meta.reason;
        terminal_outcome = outcome;
        artifact_sha256 = some sha256;
        path = meta.path;
        detail_code = code;
        detail = detail;
      }
      ∷ s.attempts;
}

-- `if let Some(occ)`: the event of an artifact.
unfoldable pub insert_occurrence : ℕ → ℕ → ℕ → Bytes → Option OccurrenceInfo → Server → Server
insert_occurrence now tenant_id artifact_id sha256 occurrence s = record s {
  occurrences = elim occurrence [
    | none ↦ s.occurrences
    | some occ ↦
        insert_event
          (record {
            tenant_id = tenant_id;
            artifact_id = some artifact_id;
            artifact_sha256 = some sha256;
            received_at = now;
            info = occ;
          })
          s.occurrences
  ];
}

-- `tx.commit()`, or the rows as they were before.
abbrev pub commit_transaction {ℓ} : {A : Type ℓ} → Answers → A → A → Server → Server → A × Server
commit_transaction ans done lost after before =
    if ans.transaction then (done, after) else (lost, before)
