-- ===== src/Agent/Capture/Ends.antt =====
-- capture.rs: how the phase of the copy in `process_candidate` can end, on a leased row.
use mathlib.Core.Path.{subst}
use corpus.Prelude.{
  ℕ, ◌+◌, ◌<◌, ◌≡◌, refl, true, false, Option, none, some, String, All, ◌⊎◌, inl, inr, leb, arith,
  Bool-cases,
}
use corpus.Prelude.Results.{Result, ok, err, err_inj}
use corpus.Agent.StableRead.{
  StableReadError, spool_full, too_large, io, deleted_before_read, changed_during_read,
}
use corpus.Agent.State
use corpus.Agent.State.{
  CaptureState, is_active, gap_recorded, complete, announced, dedup_hit, occurrence_queued, hashed,
  uploading, finalizing, copying_and_hashing, opening, Candidate, StateDb, FailedStep, GapDetail,
}
use corpus.Agent.State.Rows.{All-map}
use corpus.Agent.State.Gaps.{increment_counter}
use corpus.Agent.State.Invariant.{is_copied, IsWellFormed, Holds}
use corpus.Agent.State.Statements.{InState, set_retry-Holds, defer-Holds}
use corpus.Agent.Capture.Actions.{
  World, ProcessError, statement_failed, task_failed, spool_missing, spool_decrypt, Action, ◌>>◌,
  checked, update, modify,
}
use corpus.Agent.Capture.Runtime.{gap, AgentRuntime, Answers, move, backoff_secs, drop_spool_file}
use corpus.Agent.Capture.Reading.{retry_or_fail, read_failed}
use corpus.Agent.Capture.Uploading.{finish_resumed, already_there}
use corpus.Agent.Capture.Rules.{
  increment_counter-Holds, run-last, Stops, modify-then, gap-then, move-then, finish_gap-then,
}

-- The errors that are left: a statement fails, the task of the copy panics, or the spool file cannot
-- be read or does not decrypt.
abbrev pub IsOuterError : ProcessError → Type 0
IsOuterError statement_failed = Unit
IsOuterError task_failed = Unit
IsOuterError spool_missing = Unit
IsOuterError (spool_decrypt _) = Unit
IsOuterError _ = ⊥

module _ (rt : AgentRuntime) (ans : Answers) (id a : ℕ) where
  -- The row has ended; or it waits for its next attempt, which is allowed and counted; or the spool
  -- is full, and it waits half a minute with no attempt counted.
  abbrev pub IsSettled : Candidate → Type 0
  IsSettled c =
      (is_active c.state ≡ false)
      ⊎ (a < rt.max_attempts) × (c.attempts ≡ a + 1) × (c.next_retry_at ≡ ans.now + backoff_secs a)
      ⊎ (c.state ≡ copying_and_hashing) × (c.attempts ≡ a) × (c.next_retry_at ≡ ans.now + 30)

  -- The row is active or complete, and no attempt is counted.
  abbrev pub IsPending : Candidate → Type 0
  IsPending c = ((is_active c.state ≡ true) ⊎ (c.state ≡ complete)) × (c.attempts ≡ a)

  pub record Ends (o : Result ProcessError (Unit {0}) × World) : Type 0 where
    pub well : IsWellFormed o.1.db
    pub settled : o.0 ≡ ok tt → All (λ c. c.id ≡ id → IsSettled c) o.1.db.candidates
    pub failed :
        (e : ProcessError)
        → o.0 ≡ err e
        → IsOuterError e × All (λ c. c.id ≡ id → IsPending c) o.1.db.candidates

  Ends-ok :
      (Q : Candidate → Type 0) (w : World)
      → ((c : Candidate) → Q c → IsSettled c)
      → Holds id Q w.db
      → Ends (ok tt, w)
  Ends-ok Q w f h = record {
    well = h.well;
    settled = λ _. All-map _ _ w.db.candidates (λ c p e. f c (p e)) h.row;
    failed = λ e bad. cc;
  }

  pub Ends-failed :
      (s : CaptureState) (e : ProcessError) (w : World)
      → IsOuterError e
      → is_active s ≡ true
      → Holds id (InState s a) w.db
      → Ends (err e, w)
  Ends-failed s e w spool active h = record {
    well = h.well;
    settled = λ bad. cc;
    failed = λ e' same. (
      subst IsOuterError (err_inj same) spool,
      All-map _ _ w.db.candidates (λ c p i. (inl (ground (arith, (p i).0, active)), (p i).1)) h.row,
    );
  }

  -- A statement that fails ends the call.
  pub stops : (s : CaptureState) → is_active s ≡ true → Stops Ends id (InState s a)
  stops s active w h = Ends-failed s statement_failed w tt active h

  -- So does one after the row is complete.
  pub complete-stops : Stops Ends id (InState complete a)
  complete-stops w h = record {
    well = h.well;
    settled = λ bad. cc;
    failed = λ e same. (
      subst IsOuterError (err_inj same) tt,
      All-map _ _ w.db.candidates (λ c p i. (inr (p i).0, (p i).1)) h.row,
    );
  }

  pub ended :
      (s : CaptureState) (w : World)
      → is_active s ≡ false
      → Holds id (InState s a) w.db
      → Ends (ok tt, w)
  ended s w done h = Ends-ok (InState s a) w (λ c p. inl (ground (arith, p.0, done))) h

module _ (rt : AgentRuntime) (ans : Answers) (cand : Candidate) where
  -- A later action that removes the spool file changes no row.
  pub drop_spool_file-Ends :
      (s : CaptureState) (path : Option String) (w : World)
      → is_active s ≡ false
      → Holds cand.id (InState s cand.attempts) w.db
      → Ends rt ans cand.id cand.attempts (drop_spool_file ans path w)
  unfolding drop_spool_file
  drop_spool_file-Ends s none w done h = ended rt ans cand.id cand.attempts s _ done h
  drop_spool_file-Ends s (some p) w done h = ended rt ans cand.id cand.attempts s _ done h

  pub gap-Ends :
      (s : CaptureState) (reason outcome : String) (sha path : Option String) (detail : GapDetail)
      (w : World)
      → is_active s ≡ true
      → Holds cand.id (InState s cand.attempts) w.db
      → Ends rt ans cand.id cand.attempts (
          (gap ans reason outcome sha path detail
              >> checked (State.finish_gap ans.now cand.id outcome))
            w)
  gap-Ends s reason outcome sha path detail w active h =
      gap-then (Ends rt ans cand.id cand.attempts) ans cand.id (InState s cand.attempts) reason
        outcome sha path detail _ w h
        λ w' held.
          finish_gap-then (Ends rt ans cand.id cand.attempts) ans cand.id cand.attempts s outcome w'
            held (stops rt ans cand.id cand.attempts s active)
            (λ w'' there. ended rt ans cand.id cand.attempts gap_recorded _ refl there)

  retry-Ends :
      (s : CaptureState) (w : World)
      → is_active s ≡ true
      → cand.attempts < rt.max_attempts
      → Holds cand.id (InState s cand.attempts) w.db
      → Ends rt ans cand.id cand.attempts
          (modify (State.set_retry ans.now cand.id (ans.now + backoff_secs cand.attempts)) w)
  retry-Ends s w active more h =
      run-last (Ends rt ans cand.id cand.attempts)
        (update (State.set_retry ans.now cand.id (ans.now + backoff_secs cand.attempts))) w
        (Ends-ok rt ans cand.id cand.attempts _ _ (λ c p. inr (inl (more, p.0.1, p.1)))
          (set_retry-Holds ans.now cand.id s cand.attempts w.db h _))
        (stops rt ans cand.id cand.attempts s active _ h)

  pub retry_or_fail-Ends :
      (s : CaptureState) (why : FailedStep) (w : World)
      → is_active s ≡ true
      → Holds cand.id (InState s cand.attempts) w.db
      → Ends rt ans cand.id cand.attempts (retry_or_fail rt ans cand why w)
  unfolding retry_or_fail
  retry_or_fail-Ends s why w active h = elim (Bool-cases (leb rt.max_attempts cand.attempts)) [
    | inl last ↦ rw last (gap-Ends s _ _ _ _ _ w active h)
    | inr more ↦ rw more (retry-Ends s w active (ground (arith, more)) h)
  ]

  pub read_failed-Ends :
      (e : StableReadError) (w : World)
      → Holds cand.id (InState copying_and_hashing cand.attempts) w.db
      → Ends rt ans cand.id cand.attempts (read_failed rt ans cand e w)
  unfolding read_failed
  read_failed-Ends spool_full w h =
      run-last (Ends rt ans cand.id cand.attempts)
        (update (State.defer ans.now cand.id (ans.now + 30))) w
        (Ends-ok rt ans cand.id cand.attempts _ _ (λ c p. inr (inr (p.0.0, p.0.1, p.1)))
          (defer-Holds ans.now cand.id copying_and_hashing cand.attempts w.db h _))
        (stops rt ans cand.id cand.attempts copying_and_hashing refl _ h)
  read_failed-Ends (io why) w h = elim (Bool-cases (leb rt.max_attempts cand.attempts)) [
    | inl last ↦ rw (last, read_failed) (gap-Ends copying_and_hashing _ _ _ _ _ w refl h)
    | inr more ↦
        rw (more, read_failed) (retry-Ends copying_and_hashing w refl (ground (arith, more)) h)
  ]
  read_failed-Ends deleted_before_read w h = gap-Ends copying_and_hashing _ _ _ _ _ w refl h
  read_failed-Ends StableReadError.permission_denied w h =
      gap-Ends copying_and_hashing _ _ _ _ _ w refl h
  read_failed-Ends changed_during_read w h = gap-Ends copying_and_hashing _ _ _ _ _ w refl h
  read_failed-Ends (too_large size) w h = gap-Ends copying_and_hashing _ _ _ _ _ w refl h

  -- A transition, and what follows it.
  pub step :
      (s t : CaptureState) (k : Action (Unit {0})) (w : World)
      → Holds cand.id (InState s cand.attempts) w.db
      → is_active s ≡ true
      → (is_copied t ≡ true → is_copied s ≡ true)
      → ((w' : World)
          → Holds cand.id (InState t cand.attempts) w'.db
          → Ends rt ans cand.id cand.attempts (k w'))
      → Ends rt ans cand.id cand.attempts ((move ans cand.id t >> k) w)
  step s t k w h active copied next =
      move-then (Ends rt ans cand.id cand.attempts) ans cand.id cand.attempts s t k w h active
        copied (stops rt ans cand.id cand.attempts s active) next

  -- A statement on another table after the row is complete, and what follows it.
  pub after_complete :
      (statement : StateDb → StateDb) (k : Action (Unit {0})) (w : World)
      → Holds cand.id (InState complete cand.attempts) w.db
      → Holds cand.id (InState complete cand.attempts) (statement w.db)
      → ((w' : World)
          → Holds cand.id (InState complete cand.attempts) w'.db
          → Ends rt ans cand.id cand.attempts (k w'))
      → Ends rt ans cand.id cand.attempts ((modify statement >> k) w)
  after_complete statement k w h after next =
      modify-then (Ends rt ans cand.id cand.attempts) cand.id (InState complete cand.attempts)
        (InState complete cand.attempts) statement k w h after
        (complete-stops rt ans cand.id cand.attempts) next

  pub finish_resumed-Ends :
      (s : CaptureState) (w : World)
      → is_active s ≡ true
      → is_copied s ≡ true
      → Holds cand.id (InState s cand.attempts) w.db
      → Ends rt ans cand.id cand.attempts (finish_resumed rt ans cand w)
  unfolding finish_resumed
  finish_resumed-Ends s w active copied h =
      step s complete _ w h active (λ _. copied)
        λ w' held. drop_spool_file-Ends complete cand.spool_path _ refl held

  pub already_there-Ends :
      (w : World)
      → Holds cand.id (InState announced cand.attempts) w.db
      → Ends rt ans cand.id cand.attempts (already_there rt ans cand w)
  unfolding already_there
  already_there-Ends w h =
      step announced dedup_hit _ w h refl (λ _. refl)
        λ w1 h1.
          step dedup_hit occurrence_queued _ _ h1 refl (λ _. refl)
            λ w2 h2.
              step occurrence_queued complete _ _ h2 refl (λ _. refl)
                λ w3 h3.
                  after_complete (increment_counter "ALREADY_PRESENT")
                    (drop_spool_file ans cand.spool_path) w3 h3
                    (increment_counter-Holds cand.id _ w3.db h3 _)
                    λ w4 h4. drop_spool_file-Ends complete cand.spool_path w4 refl h4
