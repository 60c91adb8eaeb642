-- ===== src/Agent/Capture/Runtime.antt =====
-- capture.rs: `AgentRuntime`, what the world answers during one call, and the small helpers.
-- The clock is read once, and the server's and the operating system's answers are values.
use Prim.Native.String.{◌++◌ as text_append}
use corpus.Prelude.{
  ℕ, ◌+◌, ◌*◌, ◌^◌, min, Bool, true, false, Option, none, some, [], ◌∷◌, String, length,
  if◌then◌else◌,
}
use corpus.Prelude.Results.{Result, ok, err}
use corpus.Prelude.Assoc.{lookup, remove}
use corpus.Agent.Spool.{Bytes, Cipher, unspool}
use corpus.Agent.StableRead.{Attempt, SpoolDir}
use corpus.Agent.State
use corpus.Agent.State.{
  CaptureState, observed, debouncing, opening, copying_and_hashing, hashed, announced, dedup_hit,
  uploading, finalizing, occurrence_queued, complete, Candidate, FailedStep, no_upload_id,
  no_spool_path, GapDetail, size_bytes, error_debug, error_text, empty, StateDb,
}
use corpus.Agent.State.Identity.{Decimal, set_identity, sequence_text, next_sequence}
use corpus.Agent.State.Gaps.{insert_gap, increment_counter}
use corpus.Agent.Capture.Actions.{
  bad_sequence, spool_missing, spool_decrypt, Action, pure, fail, ◌>>=◌, run, checked, modify,
  try_statement,
}

-- corpus-core's `dto::AnnounceDisposition`.
pub data AnnounceDisposition : Type 0 where
  already_present upload_required metadata_only_accepted rejected_policy : AnnounceDisposition
  rejected_quota retry_later : AnnounceDisposition

pub record AnnounceResponse : Type 0 where
  pub disposition : AnnounceDisposition
  pub upload_id : Option String

-- `AgentRuntime` with the parts of its configuration that the code reads.
pub record AgentRuntime : Type 0 where
  pub max_attempts : ℕ
  pub max_spool_bytes : ℕ
  pub max_artifact_bytes : ℕ
  pub stable_read_retries : ℕ
  pub spool_cipher : Option Cipher
  pub sha256_hex : Bytes → String
  pub decimal : Decimal
  pub agent_id : String
  pub boot_id : String
  pub host_name : String

pub record Answers : Type 0 where
  pub now : ℕ
  pub now_text : String  -- `Utc::now().to_rfc3339()`
  pub file : ℕ → Attempt
  pub mtime : Option ℕ
  pub announced : Result String AnnounceResponse
  pub uploaded : Result String (Unit {0})
  pub finalized : Result String (Unit {0})
  -- The spool directory that the blocking task leaves if it panics; none where it returns.
  pub panicked : Option SpoolDir
  -- Whether the spool file of a row can be read, and removed.
  pub readable : Bool
  pub removes : Bool
  -- Whether the two statements of `worker_loop` itself go through: the lease, and `set_retry`.
  pub leases : Bool
  pub retries : Bool

-- 5 * 2^min(attempts, 6), at most 300. An i64 holds it.
unfoldable pub backoff_secs : ℕ → ℕ
backoff_secs attempts = min (5 * 2 ^ min attempts 6) 300

-- The sizes of the files in the spool directory.
unfoldable pub spool_used_bytes : SpoolDir → ℕ
spool_used_bytes [] = 0
spool_used_bytes ((path, contents) ∷ dir) = length contents + spool_used_bytes dir

-- `let _ = std::fs::remove_file(p)`, if there is a path.
unfoldable pub drop_spool_file : Answers → Option String → Action (Unit {0})
drop_spool_file ans none w = (ok tt, w)
drop_spool_file ans (some p) w =
    (ok tt, record w { spool = if ans.removes then remove p w.spool else w.spool })

-- The selection, and `parse()?`: `number` is what the update has written.
unfoldable pub read_number : Option ℕ → Action ℕ
read_number none = fail bad_sequence
read_number (some n) = pure n

-- The update of `next_sequence`, and the selection after it.
unfoldable pub take_number : Decimal → Action ℕ
unfolding read_number
take_number dec w =
    let (db', number) = next_sequence dec w.db in run (read_number number) (record w { db = db' })

-- `next_sequence`: the insertion of the key where it is missing, the update and the selection, in no
-- transaction.
unfoldable pub take_sequence : Decimal → Action ℕ
unfolding take_number
take_sequence dec = modify (λ db. set_identity "agent_sequence" (sequence_text db) db) >>= λ _.
    run (take_number dec)

-- The uploaded bytes: `std::fs::read(spool)?`, then the decryption.
unfoldable pub read_spool : Answers → Option Cipher → String → Action Bytes
read_spool ans cipher path w = elim (if ans.readable then lookup path w.spool else none) [
  | none ↦ (err spool_missing, w)
  | some raw ↦ elim (unspool cipher raw) [
    | err e ↦ (err (spool_decrypt e), w)
    | ok bytes ↦ (ok bytes, w)
  ]
]

-- `Debug` of the dispositions that end in a gap.
abbrev pub disposition_name : AnnounceDisposition → String
disposition_name already_present = "AlreadyPresent"
disposition_name upload_required = "UploadRequired"
disposition_name metadata_only_accepted = "MetadataOnlyAccepted"
disposition_name rejected_policy = "RejectedPolicy"
disposition_name rejected_quota = "RejectedQuota"
disposition_name retry_later = "RetryLater"

-- The two states before OPENING.
abbrev pub is_waiting : CaptureState → Bool
is_waiting debouncing = true
is_waiting observed = true
is_waiting _ = false

abbrev pub is_reading : CaptureState → Bool
is_reading opening = true
is_reading copying_and_hashing = true
is_reading _ = false

-- DEDUP_HIT | OCCURRENCE_QUEUED
abbrev pub is_announced : CaptureState → Bool
is_announced dedup_hit = true
is_announced occurrence_queued = true
is_announced _ = false

abbrev pub is_upload_phase : CaptureState → Bool
is_upload_phase hashed = true
is_upload_phase announced = true
is_upload_phase CaptureState.upload_required = true
is_upload_phase uploading = true
is_upload_phase finalizing = true
is_upload_phase _ = false

-- `format!("upload_id:{}", cand.id)`
unfoldable pub upload_key : Decimal → ℕ → String
upload_key dec id = text_append "upload_id:" (dec.to_text id)

-- `cand.size_bytes.unwrap_or(0)`
abbrev pub size_of : Candidate → ℕ
size_of cand = elim cand.size_bytes [ none ↦ 0 | some n ↦ n ]

-- The second statement of `record_gap`.
abbrev pub count_gap : String → Bool → Action (Unit {0})
count_gap outcome false w = (ok tt, w)
count_gap outcome true w = (ok tt, (try_statement (increment_counter outcome) w).1)

-- `record_gap` of capture.rs, which only logs that one of the two statements has failed.
unfoldable pub gap :
    Answers → String → String → Option String → Option String → GapDetail → Action (Unit {0})
gap ans reason outcome sha path detail =
    try_statement (insert_gap ans.now_text reason outcome sha path none detail)
    >>= count_gap outcome

abbrev pub move : Answers → ℕ → CaptureState → Action (Unit {0})
move ans id s = checked (State.transition ans.now id s)
