-- ===== src/Agent/Capture/Uploading.antt =====
-- capture.rs: the phases from HASHED to COMPLETE.
use corpus.Prelude.{ℕ, Option, none, some, String}
use corpus.Prelude.Results.{Result, ok, err}
use corpus.Agent.State
use corpus.Agent.State.{
  CaptureState, observed, debouncing, opening, copying_and_hashing, hashed, announced, dedup_hit,
  uploading, finalizing, occurrence_queued, complete, Candidate, FailedStep, no_upload_id,
  no_spool_path, GapDetail, size_bytes, error_debug, error_text, empty, StateDb,
}
use corpus.Agent.State.Identity.{set_identity}
use corpus.Agent.State.Gaps.{increment_counter}
use corpus.Agent.Capture.Actions
use corpus.Agent.Capture.Actions.{
  OccurrenceInfo, AnnounceRequest, FinalizeRequest, Request, World, ProcessError, bad_sequence,
  without_sha256, spool_missing, spool_decrypt, Action, pure, fail, ◌>>=◌, ◌>>◌, checked, modify,
  send,
}
use corpus.Agent.Capture.Runtime.{
  gap, move, AgentRuntime, AnnounceDisposition, AnnounceResponse, Answers, already_present,
  disposition_name, drop_spool_file, read_spool, size_of, take_sequence, upload_key,
}
use corpus.Agent.Capture.Reading.{retry_or_fail}

module _ (rt : AgentRuntime) (ans : Answers) where
  unfoldable pub occurrence : Candidate → ℕ → OccurrenceInfo
  occurrence cand seq = record {
    host_name = rt.host_name;
    agent_id = rt.agent_id;
    boot_id = rt.boot_id;
    agent_sequence = seq;
    path = cand.path;
    observed_at = ans.now;
    file_size = size_of cand;
    file_mtime = ans.mtime;
    capture_reason = cand.capture_reason;
  }

  -- The crash-resume of the states after the announcement.
  unfoldable pub finish_resumed : Candidate → Action (Unit {0})
  finish_resumed cand = do move ans cand.id complete; drop_spool_file ans cand.spool_path

  -- The `AlreadyPresent` arm.
  unfoldable pub already_there : Candidate → Action (Unit {0})
  already_there cand = do
    move ans cand.id dedup_hit
    move ans cand.id occurrence_queued
    move ans cand.id complete
    modify (increment_counter "ALREADY_PRESENT")
    drop_spool_file ans cand.spool_path

  -- The answer to FINALIZING.
  unfoldable pub after_finalize : Candidate → Result String (Unit {0}) → Action (Unit {0})
  after_finalize cand (ok _) = do
    move ans cand.id occurrence_queued
    move ans cand.id complete
    modify (increment_counter "CAPTURED")
    modify (set_identity "last_upload_at" ans.now_text)
    drop_spool_file ans cand.spool_path
  after_finalize cand (err e) = retry_or_fail rt ans cand (State.finalize e)

  -- FINALIZING, after the answer to the upload.
  unfoldable pub after_upload :
      Candidate → String → String → Result String (Unit {0}) → Action (Unit {0})
  unfolding occurrence
  after_upload cand sha256 upload_id (ok _) = do
    move ans cand.id finalizing
    seq ← take_sequence rt.decimal
    send (
        Actions.finalize (record {
          upload_id = upload_id;
          sha256 = sha256;
          size_bytes = size_of cand;
          occurrence = some (occurrence cand seq);
        }))
    after_finalize cand ans.finalized
  after_upload cand sha256 upload_id (err e) = retry_or_fail rt ans cand (State.upload e)

  -- UPLOADING, where there is a spool file.
  unfoldable pub upload_file : Candidate → String → String → Option String → Action (Unit {0})
  upload_file cand sha256 upload_id none = retry_or_fail rt ans cand no_spool_path
  upload_file cand sha256 upload_id (some path) = do
    bytes ← read_spool ans rt.spool_cipher path
    send (Actions.upload upload_id bytes)
    after_upload cand sha256 upload_id ans.uploaded

  -- The `UploadRequired` arm. It also stores the upload id under a key of the candidate's own.
  unfoldable pub upload_phase : Candidate → String → Option String → Action (Unit {0})
  upload_phase cand sha256 none = do
    move ans cand.id CaptureState.upload_required
    retry_or_fail rt ans cand no_upload_id
  upload_phase cand sha256 (some upload_id) = do
    move ans cand.id CaptureState.upload_required
    modify (set_identity (upload_key rt.decimal cand.id) upload_id)
    move ans cand.id uploading
    upload_file cand sha256 upload_id cand.spool_path

  -- Every other disposition ends in a gap of its name.
  unfoldable pub refused : Candidate → String → AnnounceDisposition → Action (Unit {0})
  refused cand sha256 d = do
    gap ans cand.capture_reason (disposition_name d) (some sha256) (some cand.path) empty
    checked (State.finish_gap ans.now cand.id (disposition_name d))

  unfoldable pub dispose :
      Candidate → String → Option String → AnnounceDisposition → Action (Unit {0})
  dispose cand sha256 upload_id already_present = already_there cand
  dispose cand sha256 upload_id AnnounceDisposition.upload_required =
      upload_phase cand sha256 upload_id
  dispose cand sha256 upload_id d = refused cand sha256 d

  unfoldable pub after_announce :
      Candidate → String → Result String AnnounceResponse → Action (Unit {0})
  after_announce cand sha256 (err e) = retry_or_fail rt ans cand (State.announce e)
  after_announce cand sha256 (ok a) = do
    move ans cand.id announced
    dispose cand sha256 a.upload_id a.disposition

  -- HASHED, or the resume of any upload-phase state.
  unfoldable pub announce_phase : Candidate → String → Action (Unit {0})
  unfolding occurrence
  announce_phase cand sha256 = do
    seq ← take_sequence rt.decimal
    send (
        Actions.announce (record {
          sha256 = sha256;
          size_bytes = size_of cand;
          occurrence = some (occurrence cand seq);
        }))
    after_announce cand sha256 ans.announced
