-- ===== src/Agent/Capture.antt =====
-- crates/corpus-agent/src/capture.rs: one candidate through the state machine, and a worker's step.
-- The renewal task of `worker_loop` writes only `next_retry_at` of an active row, and is not run
-- beside the call. The semaphore bounds how many workers run, and is not modelled.
pub mod Actions
pub mod Runtime
pub mod Reading
pub mod Uploading
pub mod Rules
pub mod Ends
pub mod UploadEnds
pub mod Backoff
pub mod Progress
pub mod Step
use Prim.Native.String.{◌++◌ as text_append}
use corpus.Prelude.{
  ℕ, ◌+◌, ◌-◌, ◌*◌, ◌^◌, min, Bool, true, false, ◌&&◌, ◌||◌, Option, none, some, List, [], ◌∷◌,
  String, length, leb, if◌then◌else◌,
}
use corpus.Prelude.Results.{Result, ok, err}
use corpus.Prelude.Assoc.{lookup, remove}
use corpus.Agent.Spool.{Bytes, Cipher, unspool}
use corpus.Agent.StableRead
use corpus.Agent.StableRead.{
  StableReadError, deleted_before_read, changed_during_read, spool_full, too_large, io, Attempt,
  StableReadResult, SpoolDir, stable_read,
}
use corpus.Agent.State
use corpus.Agent.State.{
  CaptureState, observed, debouncing, opening, copying_and_hashing, hashed, announced, dedup_hit,
  uploading, finalizing, occurrence_queued, complete, Candidate, FailedStep, no_upload_id,
  no_spool_path, GapDetail, size_bytes, error_debug, error_text, empty, StateDb,
}
use corpus.Agent.State.Identity.{Decimal, next_sequence, set_identity}
use corpus.Agent.State.Gaps.{record_gap, increment_counter}
use corpus.Agent.State.Queue.{lease_next_due}
use corpus.Agent.Capture.Actions.{
  OccurrenceInfo, AnnounceRequest, FinalizeRequest, Request, World, ProcessError, bad_sequence,
  without_sha256, spool_missing, spool_decrypt, Action, pure, fail, ◌>>=◌, ◌>>◌, run, checked,
  modify, send,
}
use corpus.Agent.Capture.Runtime.{
  gap, move, AgentRuntime, AnnounceDisposition, AnnounceResponse, Answers, already_present,
  backoff_secs, disposition_name, drop_spool_file, is_announced, is_reading, is_upload_phase,
  is_waiting, read_spool, size_of, spool_used_bytes, take_sequence, upload_key,
}
use corpus.Agent.Capture.Reading.{read_phase}
use corpus.Agent.Capture.Uploading.{announce_phase, finish_resumed}

module _ (rt : AgentRuntime) (ans : Answers) where
  unfoldable pub with_digest : Candidate → Option String → Action (Unit {0})
  with_digest cand none = fail without_sha256
  with_digest cand (some sha256) =
      if is_upload_phase cand.state then announce_phase rt ans cand sha256 else pure tt

  -- From the reload of the row on.
  unfoldable pub resume : Option Candidate → Action (Unit {0})
  resume none = pure tt
  resume (some cand) =
      if is_announced cand.state then finish_resumed rt ans cand else with_digest cand cand.sha256

  unfoldable pub reload : ℕ → Action (Unit {0})
  reload id = run (λ w. resume (State.get id w.db) w)

  unfoldable pub copy_then_resume : Candidate → Action (Unit {0})
  unfolding reload
  copy_then_resume cand = do
    further ← read_phase rt ans cand
    if further then reload cand.id else pure tt

  unfoldable pub process_candidate : Candidate → Action (Unit {0})
  unfolding reload
  process_candidate cand =
      if is_waiting cand.state
      then (do move ans cand.id opening; copy_then_resume cand)
      else if is_reading cand.state
      then copy_then_resume cand
      else reload cand.id

  -- `worker_loop`: one lease, and what is done with it. An error costs an attempt, unless the
  -- statement that counts it fails, which nothing reports.
  unfoldable pub settle : Candidate → Result ProcessError (Unit {0}) × World → World
  settle cand (ok _, w) = w
  settle cand (err e, w) =
      if ans.retries
      then record w { db = State.set_retry ans.now cand.id (ans.now + 30) w.db }
      else w

  -- `Ok(None)` only sleeps, and so does the error of a lease.
  unfoldable pub run_lease : World → StateDb × Option Candidate → World
  unfolding settle
  run_lease w (db', none) = w
  run_lease w (db', some c) = settle c (process_candidate c (record w { db = db' }))

  -- Whether the lease goes through.
  unfoldable pub after_lease : Bool → World → World
  after_lease true w = run_lease w (lease_next_due ans.now 120 w.db)
  after_lease false w = w

  unfoldable pub worker_step : World → World
  unfolding after_lease
  worker_step w = after_lease ans.leases w
