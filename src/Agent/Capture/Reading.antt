-- ===== src/Agent/Capture/Reading.antt =====
-- capture.rs: `retry_or_fail`, and the phase from OPENING to HASHED.
use corpus.Prelude.{◌+◌, ◌-◌, Bool, true, false, Option, none, some, String, leb, if◌then◌else◌}
use corpus.Prelude.Results.{Result, ok, err}
use corpus.Agent.StableRead.{
  StableReadError, deleted_before_read, changed_during_read, spool_full, too_large, io,
  StableReadResult, SpoolDir, stable_read,
}
use corpus.Agent.State
use corpus.Agent.State.{
  CaptureState, observed, debouncing, opening, copying_and_hashing, hashed, announced, dedup_hit,
  uploading, finalizing, occurrence_queued, complete, Candidate, FailedStep, no_upload_id,
  no_spool_path, GapDetail, size_bytes, error_debug, error_text, empty, StateDb,
}
use corpus.Agent.Capture.Actions.{task_failed, Action, pure, ◌>>=◌, ◌>>◌, checked, modify}
use corpus.Agent.Capture.Runtime.{gap, move, AgentRuntime, Answers, backoff_secs, spool_used_bytes}

module _ (rt : AgentRuntime) (ans : Answers) where
  -- `retry_or_fail`
  unfoldable pub retry_or_fail : Candidate → FailedStep → Action (Unit {0})
  retry_or_fail cand why =
      if leb rt.max_attempts cand.attempts
      then (do
        gap ans cand.capture_reason "UPLOAD_FAILED" cand.sha256 (some cand.path) (error_text why)
        checked (State.finish_gap ans.now cand.id "UPLOAD_FAILED"))
      else modify (State.set_retry ans.now cand.id (ans.now + backoff_secs cand.attempts))

  -- A read that failed: the outcome's name, or none for a retry by `set_retry`.
  -- `SpoolFull` is handled apart.
  unfoldable pub read_outcome : Candidate → StableReadError → Option String
  read_outcome cand deleted_before_read = some "DELETED_BEFORE_READ"
  read_outcome cand StableReadError.permission_denied = some "PERMISSION_DENIED"
  read_outcome cand (too_large size) = some "TOO_LARGE"
  read_outcome cand changed_during_read = some "CHANGED_DURING_READ"
  read_outcome cand spool_full = none
  read_outcome cand (io why) =
      if leb rt.max_attempts cand.attempts then some "UPLOAD_FAILED" else none

  unfoldable pub read_detail : StableReadError → GapDetail
  read_detail (too_large size) = size_bytes size
  read_detail e = error_debug e

  -- The `Err` arm after `stable_read`.
  unfoldable pub read_failed : Candidate → StableReadError → Action (Unit {0})
  unfolding read_outcome read_detail
  read_failed cand spool_full = modify (State.defer ans.now cand.id (ans.now + 30))
  read_failed cand e = elim (read_outcome cand e) [
    | none ↦ modify (State.set_retry ans.now cand.id (ans.now + backoff_secs cand.attempts))
    | some outcome ↦ (do
      gap ans cand.capture_reason outcome none (some cand.path) (read_detail e)
      checked (State.finish_gap ans.now cand.id outcome))
  ]

  -- The blocking task that calls `stable_read`, and `.await?`: the task writes the spool directory.
  unfoldable pub run_task : Option SpoolDir → Action (Result StableReadError StableReadResult)
  run_task (some spool) w = (err task_failed, record w { spool = spool })
  run_task none w =
      let free = rt.max_spool_bytes - spool_used_bytes w.spool in
      let (r, spool) =
        stable_read rt.sha256_hex rt.max_artifact_bytes free rt.stable_read_retries rt.spool_cipher
          ans.file w.spool in
      (ok r, record w { spool = spool })

  abbrev pub read_file : Action (Result StableReadError StableReadResult)
  read_file = run_task ans.panicked

  -- What follows the copy: whether the candidate goes on.
  unfoldable pub after_read : Candidate → Result StableReadError StableReadResult → Action Bool
  after_read cand (ok r) = do
    checked (State.set_hashed ans.now cand.id r.sha256 r.size r.spool_path)
    pure true
  after_read cand (err e) = do read_failed cand e; pure false

  -- OPENING + COPYING_AND_HASHING
  unfoldable pub read_phase : Candidate → Action Bool
  read_phase cand = do move ans cand.id copying_and_hashing; r ← read_file; after_read cand r
