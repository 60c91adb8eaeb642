-- ===== src/Agent/Capture/UploadEnds.antt =====
-- The rest of `Ends`: the phases from the announcement to the finalisation.
use corpus.Prelude.{◌≡◌, refl, true, Option, none, some, String, if◌then◌else◌}
use corpus.Prelude.Results.{Result, ok, err}
use corpus.Prelude.Assoc.{lookup}
use corpus.Agent.Spool.{Bytes, SpoolError, unspool}
use corpus.Agent.State.{
  CaptureState, is_active, complete, announced, occurrence_queued, uploading, finalizing, Candidate,
}
use corpus.Agent.State.Invariant.{is_copied, Holds}
use corpus.Agent.State.Statements.{InState}
use corpus.Agent.State.Identity.{set_identity}
use corpus.Agent.State.Gaps.{increment_counter}
use corpus.Agent.Capture.Actions.{World, modify, ◌>>◌}
use corpus.Agent.Capture.Runtime.{
  AgentRuntime, Answers, AnnounceResponse, AnnounceDisposition, already_present,
  metadata_only_accepted, rejected_policy, rejected_quota, retry_later, read_spool, drop_spool_file,
  upload_key,
}
use corpus.Agent.Capture.Uploading.{
  after_finalize, after_upload, upload_file, upload_phase, refused, dispose, after_announce,
  announce_phase,
}
use corpus.Agent.Capture.Rules.{
  modify-then, increment_counter-Holds, set_identity-Holds, take_sequence-then,
}
use corpus.Agent.Capture.Ends.{
  Ends, Ends-failed, stops, after_complete, drop_spool_file-Ends, retry_or_fail-Ends, gap-Ends,
  step, already_there-Ends,
}

module _ (rt : AgentRuntime) (ans : Answers) (cand : Candidate) where
  after_finalize-Ends :
      (r : Result String (Unit {0})) (w : World)
      → Holds cand.id (InState finalizing cand.attempts) w.db
      → Ends rt ans cand.id cand.attempts (after_finalize rt ans cand r w)
  unfolding after_finalize
  after_finalize-Ends (ok _) w h =
      step rt ans cand finalizing occurrence_queued _ w h refl (λ _. refl)
        λ w1 h1.
          step rt ans cand occurrence_queued complete _ _ h1 refl (λ _. refl)
            λ w2 h2.
              after_complete rt ans cand (increment_counter "CAPTURED")
                (modify (set_identity "last_upload_at" ans.now_text)
                  >> drop_spool_file ans cand.spool_path)
                w2 h2 (increment_counter-Holds cand.id _ w2.db h2 _)
                λ w3 h3.
                  after_complete rt ans cand (set_identity "last_upload_at" ans.now_text)
                    (drop_spool_file ans cand.spool_path) w3 h3
                    (set_identity-Holds cand.id _ w3.db h3 _ _)
                    λ w4 h4. drop_spool_file-Ends rt ans cand complete cand.spool_path w4 refl h4
  after_finalize-Ends (err e) w h = retry_or_fail-Ends rt ans cand finalizing _ w refl h

  after_upload-Ends :
      (sha256 upload_id : String) (r : Result String (Unit {0})) (w : World)
      → Holds cand.id (InState uploading cand.attempts) w.db
      → Ends rt ans cand.id cand.attempts (after_upload rt ans cand sha256 upload_id r w)
  unfolding after_upload
  after_upload-Ends sha256 upload_id (ok _) w h =
      step rt ans cand uploading finalizing _ w h refl (λ _. refl)
        λ w1 h1.
          take_sequence-then (Ends rt ans cand.id cand.attempts) cand.id
            (InState finalizing cand.attempts) rt.decimal _ _ h1
            (stops rt ans cand.id cand.attempts finalizing refl)
            λ n w2 h2. after_finalize-Ends ans.finalized _ h2
  after_upload-Ends sha256 upload_id (err e) w h =
      retry_or_fail-Ends rt ans cand uploading _ w refl h

  upload_file-Ends :
      (sha256 upload_id : String) (path : Option String) (w : World)
      → Holds cand.id (InState uploading cand.attempts) w.db
      → Ends rt ans cand.id cand.attempts (upload_file rt ans cand sha256 upload_id path w)
  unfolding upload_file read_spool
  upload_file-Ends sha256 upload_id none w h = retry_or_fail-Ends rt ans cand uploading _ w refl h
  upload_file-Ends sha256 upload_id (some path) w h = go source refl
    where
      source : Option Bytes
      source = if ans.readable then lookup path w.spool else none

      decrypted :
          (raw : Bytes)
          → source ≡ some raw
          → (r : Result SpoolError Bytes) → unspool rt.spool_cipher raw ≡ r
          → Ends rt ans cand.id cand.attempts
              (upload_file rt ans cand sha256 upload_id (some path) w)
      decrypted raw found (err e) bad =
          rw (found, bad, read_spool)
            (Ends-failed rt ans cand.id cand.attempts uploading _ w tt refl h)
      decrypted raw found (ok bytes) good =
          rw (found, good, read_spool) (after_upload-Ends sha256 upload_id ans.uploaded _ h)

      go :
          (o : Option Bytes)
          → source ≡ o
          → Ends rt ans cand.id cand.attempts
              (upload_file rt ans cand sha256 upload_id (some path) w)
      go none gone =
          rw (gone, read_spool) (Ends-failed rt ans cand.id cand.attempts uploading _ w tt refl h)
      go (some raw) found = decrypted raw found (unspool rt.spool_cipher raw) refl

  upload_phase-Ends :
      (sha256 : String) (upload_id : Option String) (w : World)
      → Holds cand.id (InState announced cand.attempts) w.db
      → Ends rt ans cand.id cand.attempts (upload_phase rt ans cand sha256 upload_id w)
  unfolding upload_phase
  upload_phase-Ends sha256 none w h =
      step rt ans cand announced CaptureState.upload_required _ w h refl (λ _. refl)
        λ w1 h1. retry_or_fail-Ends rt ans cand CaptureState.upload_required _ _ refl h1
  upload_phase-Ends sha256 (some upload_id) w h =
      step rt ans cand announced CaptureState.upload_required _ w h refl (λ _. refl)
        λ w1 h1.
          modify-then (Ends rt ans cand.id cand.attempts) cand.id
            (InState CaptureState.upload_required cand.attempts)
            (InState CaptureState.upload_required cand.attempts)
            (set_identity (upload_key rt.decimal cand.id) upload_id) _ w1 h1
            (set_identity-Holds cand.id _ w1.db h1 _ _)
            (stops rt ans cand.id cand.attempts CaptureState.upload_required refl)
            λ w2 h2.
              step rt ans cand CaptureState.upload_required uploading _ _ h2 refl (λ _. refl)
                λ w3 h3. upload_file-Ends sha256 upload_id cand.spool_path _ h3

  dispose-Ends :
      (sha256 : String) (upload_id : Option String) (d : AnnounceDisposition) (w : World)
      → Holds cand.id (InState announced cand.attempts) w.db
      → Ends rt ans cand.id cand.attempts (dispose rt ans cand sha256 upload_id d w)
  unfolding dispose refused
  dispose-Ends sha256 upload_id already_present w h = already_there-Ends rt ans cand w h
  dispose-Ends sha256 upload_id AnnounceDisposition.upload_required w h =
      upload_phase-Ends sha256 upload_id w h
  dispose-Ends sha256 upload_id metadata_only_accepted w h =
      gap-Ends rt ans cand announced _ _ _ _ _ w refl h
  dispose-Ends sha256 upload_id rejected_policy w h =
      gap-Ends rt ans cand announced _ _ _ _ _ w refl h
  dispose-Ends sha256 upload_id rejected_quota w h =
      gap-Ends rt ans cand announced _ _ _ _ _ w refl h
  dispose-Ends sha256 upload_id retry_later w h = gap-Ends rt ans cand announced _ _ _ _ _ w refl h

  after_announce-Ends :
      (s : CaptureState) (sha256 : String) (r : Result String AnnounceResponse) (w : World)
      → is_active s ≡ true
      → is_copied s ≡ true
      → Holds cand.id (InState s cand.attempts) w.db
      → Ends rt ans cand.id cand.attempts (after_announce rt ans cand sha256 r w)
  unfolding after_announce
  after_announce-Ends s sha256 (err e) w active copied h =
      retry_or_fail-Ends rt ans cand s _ w active h
  after_announce-Ends s sha256 (ok a) w active copied h =
      step rt ans cand s announced _ w h active (λ _. copied)
        λ w1 h1. dispose-Ends sha256 a.upload_id a.disposition _ h1

  pub announce_phase-Ends :
      (s : CaptureState) (sha256 : String) (w : World)
      → is_active s ≡ true
      → is_copied s ≡ true
      → Holds cand.id (InState s cand.attempts) w.db
      → Ends rt ans cand.id cand.attempts (announce_phase rt ans cand sha256 w)
  unfolding announce_phase
  announce_phase-Ends s sha256 w active copied h =
      take_sequence-then (Ends rt ans cand.id cand.attempts) cand.id (InState s cand.attempts)
        rt.decimal _ _ h (stops rt ans cand.id cand.attempts s active)
        λ n w1 h1. after_announce-Ends s sha256 ans.announced _ active copied h1
