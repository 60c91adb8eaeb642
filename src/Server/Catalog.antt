-- ===== src/Server/Catalog.antt =====
-- The tables of migrations/0001_init.sql that crates/corpus-core/src/ingest.rs writes. The random
-- ids of the occurrences and of the attempts, which no code of the ingest reads, are left out.
use corpus.Prelude.{ℕ, Bool, ◌&&◌, Option, List, [], ◌∷◌, String, ◌==◌, find?, any, if◌then◌else◌}
use corpus.Agent.Spool.{Bytes}
use corpus.Server.Hash.{Text}
use corpus.Server.Cas.{FsCas, ObjectKey, text_eq}
use corpus.Server.Classify.{ArtifactClass}

pub record OccurrenceInfo : Type 0 where
  pub host_name : String
  pub agent_id : ℕ
  pub boot_id : ℕ
  pub agent_sequence : ℕ
  pub path : String
  pub observed_at : ℕ
  pub file_size : ℕ
  pub file_mtime : Option ℕ
  pub capture_reason : String

pub record Artifact : Type 0 where
  pub id : ℕ
  pub tenant_id : ℕ
  pub sha256 : Bytes
  pub size_bytes : ℕ
  pub artifact_class : ArtifactClass
  pub object_key : ObjectKey
  pub first_committed_at : ℕ
  pub scope : String

pub data SessionState : Type 0 where
  opened committed failed : SessionState

pub record UploadSession : Type 0 where
  pub id : ℕ
  pub tenant_id : ℕ
  pub announced_sha256 : Bytes
  pub announced_size : ℕ
  pub state : SessionState
  pub created_at : ℕ

pub record OccurrenceEvent : Type 0 where
  pub tenant_id : ℕ
  pub artifact_id : Option ℕ
  pub artifact_sha256 : Option Bytes
  pub received_at : ℕ
  pub info : OccurrenceInfo

pub data Outcome : Type 0 where
  captured already_present hash_mismatch : Outcome

-- The JSON of `detail`.
pub data AttemptDetail : Type 0 where
  empty : AttemptDetail
  artifact_class : ArtifactClass → AttemptDetail
  digests : Text → Text → AttemptDetail

pub record CaptureAttempt : Type 0 where
  pub tenant_id : ℕ
  pub host_name : String
  pub agent_id : ℕ
  pub observed_at : ℕ
  pub capture_reason : String
  pub terminal_outcome : Outcome
  pub artifact_sha256 : Option Bytes
  pub path : Option String
  pub detail_code : Option String
  pub detail : AttemptDetail

pub record Server : Type 0 where
  pub cas : FsCas
  pub artifacts : List Artifact
  pub sessions : List UploadSession
  pub occurrences : List OccurrenceEvent
  pub attempts : List CaptureAttempt

-- WHERE tenant_id = $1 AND sha256 = $2
unfoldable pub is_artifact : ℕ → Bytes → Artifact → Bool
is_artifact tenant_id sha256 a = (a.tenant_id == tenant_id) && text_eq a.sha256 sha256

unfoldable pub find_artifact : ℕ → Bytes → List Artifact → Option Artifact
unfolding is_artifact
find_artifact tenant_id sha256 rows = find? (is_artifact tenant_id sha256) rows

-- SELECT … FROM upload_session WHERE id = $1 AND tenant_id = $2
unfoldable pub find_session : ℕ → ℕ → List UploadSession → Option UploadSession
find_session id tenant_id rows = find? (λ s. (s.id == id) && (s.tenant_id == tenant_id)) rows

-- UPDATE upload_session SET state = … WHERE id = $1
unfoldable pub set_session_state : ℕ → SessionState → List UploadSession → List UploadSession
set_session_state id state [] = []
set_session_state id state (s ∷ rows) =
    (if s.id == id then record s { state = state } else s) ∷ set_session_state id state rows

-- UNIQUE (tenant_id, agent_id, boot_id, agent_sequence)
unfoldable pub same_event : OccurrenceEvent → OccurrenceEvent → Bool
same_event e f =
    (e.tenant_id == f.tenant_id)
    && (e.info.agent_id == f.info.agent_id)
    && (e.info.boot_id == f.info.boot_id)
    && (e.info.agent_sequence == f.info.agent_sequence)

-- INSERT … ON CONFLICT DO NOTHING
unfoldable pub insert_event : OccurrenceEvent → List OccurrenceEvent → List OccurrenceEvent
unfolding same_event
insert_event e rows = if any (same_event e) rows then rows else e ∷ rows
