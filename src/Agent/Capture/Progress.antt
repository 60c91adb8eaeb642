-- ===== src/Agent/Capture/Progress.antt =====
-- capture.rs: `process_candidate` on a leased row, as a whole.
use mathlib.Core.Path.{subst}
use corpus.Prelude.{
  ℕ, ◌≡◌, ◌≢◌, refl, ap, sym, ◌||◌, Bool, true, false, Option, none, some, List, [], ◌∷◌, All, inl,
  inr, if◌then◌else◌, arith, Bool-cases, Option-cases,
}
use corpus.Prelude.Results.{Result, ok, err}
use corpus.Agent.StableRead.{SpoolDir, StableReadError, StableReadResult}
use corpus.Agent.State
use corpus.Agent.State.{
  CaptureState, is_active, find_row, gap_recorded, complete, announced, dedup_hit,
  occurrence_queued, hashed, uploading, finalizing, copying_and_hashing, opening, Candidate,
  StateDb, FailedStep, GapDetail,
}
use corpus.Agent.State.Rows.{All-map}
use corpus.Agent.State.Invariant.{HasCopy, IsWellFormed, Holds}
use corpus.Agent.State.Statements.{InState}
use corpus.Agent.Capture.Actions.{task_failed, answered, World, ProcessError, pure, continue, ◌>>=◌}
use corpus.Agent.Capture.Runtime.{
  AgentRuntime, Answers, is_announced, is_upload_phase, is_waiting, is_reading,
}
use corpus.Agent.Capture.Reading.{run_task, after_read, read_phase}
use corpus.Agent.Capture.Rules.{run-last, move-then, set_hashed-then}
use corpus.Agent.State.Find.{All-find_row, All_of_find_row}
use corpus.Agent.Capture.{with_digest, resume, reload, copy_then_resume, process_candidate}
use corpus.Agent.Capture.Ends.{
  IsSettled, IsPending, IsOuterError, Ends, Ends-failed, stops, step, finish_resumed-Ends,
  read_failed-Ends,
}
use corpus.Agent.Capture.UploadEnds.{announce_phase-Ends}

-- The states in which a reloaded row is taken further.
abbrev pub is_resumable : CaptureState → Bool
is_resumable s = is_announced s || is_upload_phase s

find_row-none :
    (id : ℕ) (rows : List Candidate) → find_row id rows ≡ none → All (λ c. c.id ≢ id) rows
unfolding find_row
find_row-none id [] e = tt
find_row-none id (c ∷ rows) e =
    (λ same. ground (arith, e, same), find_row-none id rows (ground (arith, e)))

-- What the row of an id says of it, in a well-formed database.
pub Holds-get :
    (id : ℕ) (db : StateDb) (c : Candidate)
    → IsWellFormed db
    → State.get id db ≡ some c
    → Holds id (InState c.state c.attempts) db
unfolding State.get
Holds-get id db c w e = record {
  well = w;
  row =
      All-map _ _ db.candidates
        (λ d same i. (ap (λ x. x.state) (same i), ap (λ x. x.attempts) (same i)))
        (All_of_find_row id db.candidates c w.rows e);
}

pub get-IsRow :
    (P : Candidate → Type 0) (id : ℕ) (db : StateDb) (c : Candidate)
    → All P db.candidates
    → State.get id db ≡ some c
    → P c × (c.id ≡ id)
unfolding State.get
get-IsRow P id db c h e = All-find_row P id db.candidates c h e

no_row : (id : ℕ) (db : StateDb) → State.get id db ≡ none → All (λ c. c.id ≢ id) db.candidates
unfolding State.get
no_row id db e = find_row-none id db.candidates e

module _ (rt : AgentRuntime) (ans : Answers) where
  resume-Ends :
      (c : Candidate) (w : World)
      → IsWellFormed w.db
      → State.get c.id w.db ≡ some c
      → is_resumable c.state ≡ true
      → Ends rt ans c.id c.attempts (resume rt ans (some c) w)
  unfolding resume with_digest
  resume-Ends c w well e further = elim (Bool-cases (is_announced c.state)) [
    | inl there ↦ rw there (
        finish_resumed-Ends rt ans c c.state w (ground (arith, there)) (ground (arith, there))
          (Holds-get c.id w.db c well e))
    | inr not_there ↦
        let phase : is_upload_phase c.state ≡ true = ground (arith, further, not_there) in
        let (sha256, same) =
          (get-IsRow HasCopy c.id w.db c well.copies e).0.sha256 (ground (arith, phase)) in
        rw not_there (
          subst (λ o. Ends rt ans c.id c.attempts (with_digest rt ans c o w)) (sym same)
            (rw phase (
              announce_phase-Ends rt ans c c.state sha256 w (ground (arith, phase))
                (ground (arith, phase)) (Holds-get c.id w.db c well e))))
  ]

  -- The copy is announced, whatever the row said before.
  reloaded :
      (id : ℕ) (s : CaptureState) (a : ℕ) (w : World)
      → Holds id (InState s a) w.db
      → is_resumable s ≡ true
      → Ends rt ans id a (resume rt ans (State.get id w.db) w)
  unfolding resume
  reloaded id s a w h further = elim (Option-cases (State.get id w.db)) [
    | inl gone ↦ rw gone (record {
      well = h.well;
      settled = λ _.
          All-map _ _ w.db.candidates (λ c away same. absurd (away same)) (no_row id w.db gone);
      failed = λ e bad. cc;
    })
    | inr (c, found) ↦
        let (p, same) = get-IsRow (λ d. d.id ≡ id → InState s a d) id w.db c h.row found in
        let (state, attempts) = p same in
        let again : State.get c.id w.db ≡ some c =
          subst (λ i. State.get i w.db ≡ some c) (sym same) found in
        let ends = resume-Ends c w h.well again (ground (arith, further, state)) in
        rw found (
          subst (λ i. Ends rt ans i a (resume rt ans (some c) w)) same
            (subst (λ n. Ends rt ans c.id n (resume rt ans (some c) w)) attempts ends))
  ]

  reload-Ends :
      (id : ℕ) (s : CaptureState) (a : ℕ) (w : World)
      → Holds id (InState s a) w.db
      → is_resumable s ≡ true
      → Ends rt ans id a (reload rt ans id w)
  unfolding reload
  reload-Ends id s a w h further =
      run-last (Ends rt ans id a) (λ v. resume rt ans (State.get id v.db) v) w
        (reloaded id s a (answered w) h further) (stops rt ans id a s (ground (arith, further)) _ h)

  -- What is left to do after a read that failed is nothing.
  stopped :
      (id a : ℕ) (o : Result ProcessError (Unit {0}) × World)
      → Ends rt ans id a o
      → Ends rt ans id a (
          continue
            (continue o.0 (λ _. pure false) o.1).0
            (λ further. if further then reload rt ans id else pure tt)
            (continue o.0 (λ _. pure false) o.1).1)
  stopped id a (ok _, w) h = h
  stopped id a (err e, w) h = h

  after_read-Ends :
      (cand : Candidate) (r : Result StableReadError StableReadResult) (w : World)
      → Holds cand.id (InState copying_and_hashing cand.attempts) w.db
      → Ends rt ans cand.id cand.attempts (
          (after_read rt ans cand r >>= λ further.
          if further then reload rt ans cand.id else pure tt)
            w)
  unfolding after_read
  after_read-Ends cand (ok r) w h =
      set_hashed-then
        (λ o.
          Ends rt ans cand.id cand.attempts
            (continue o.0 (λ further. if further then reload rt ans cand.id else pure tt) o.1))
        ans cand.id cand.attempts copying_and_hashing r.sha256 r.size r.spool_path _ w h refl
        (stops rt ans cand.id cand.attempts copying_and_hashing refl)
        λ w' held. reload-Ends cand.id hashed cand.attempts _ held refl
  after_read-Ends cand (err e) w h =
      stopped cand.id cand.attempts _ (read_failed-Ends rt ans cand e w h)

  run_task-Ends :
      (cand : Candidate) (p : Option SpoolDir) (w : World)
      → Holds cand.id (InState copying_and_hashing cand.attempts) w.db
      → Ends rt ans cand.id cand.attempts (
          ((run_task rt ans p >>= λ r. after_read rt ans cand r) >>= λ further.
          if further then reload rt ans cand.id else pure tt)
            w)
  unfolding run_task
  run_task-Ends cand none w h = after_read-Ends cand _ _ h
  run_task-Ends cand (some spool) w h =
      Ends-failed rt ans cand.id cand.attempts copying_and_hashing task_failed _ tt refl h

  copy_then_resume-Ends :
      (cand : Candidate) (s : CaptureState) (w : World)
      → Holds cand.id (InState s cand.attempts) w.db
      → is_active s ≡ true
      → Ends rt ans cand.id cand.attempts (copy_then_resume rt ans cand w)
  unfolding copy_then_resume read_phase
  copy_then_resume-Ends cand s w h active =
      move-then
        (λ o.
          Ends rt ans cand.id cand.attempts
            (continue o.0 (λ further. if further then reload rt ans cand.id else pure tt) o.1))
        ans cand.id cand.attempts s copying_and_hashing _ w h active (λ e. cc)
        (stops rt ans cand.id cand.attempts s active)
        λ w' held. run_task-Ends cand ans.panicked w' held

  process_candidate-Ends :
      (cand : Candidate) (w : World)
      → IsWellFormed w.db
      → State.get cand.id w.db ≡ some cand
      → is_active cand.state ≡ true
      → Ends rt ans cand.id cand.attempts (process_candidate rt ans cand w)
  unfolding process_candidate
  process_candidate-Ends cand w well found active =
      let held = Holds-get cand.id w.db cand well found in
      elim (Bool-cases (is_waiting cand.state)) [
        | inl waits ↦ rw waits (
            step rt ans cand cand.state opening _ w held active (λ e. cc)
              λ w' there. copy_then_resume-Ends cand opening _ there refl)
        | inr later ↦ elim (Bool-cases (is_reading cand.state)) [
          | inl reads ↦ rw later (rw reads (copy_then_resume-Ends cand cand.state w held active))
          | inr read ↦ rw later (
              rw read (
                reload-Ends cand.id cand.state cand.attempts w held
                  (ground (arith, later, read, active))))
        ]
      ]

  -- How a call may end: well, and then the row is settled; or with one of the four errors, and then the
  -- row is active or complete and has no attempt counted.
  abbrev pub IsOutcome : ℕ → ℕ → Result ProcessError (Unit {0}) × World → Type 0
  IsOutcome id a (ok _, w) =
      IsWellFormed w.db × All (λ c. c.id ≡ id → IsSettled rt ans id a c) w.db.candidates
  IsOutcome id a (err e, w) =
      IsWellFormed w.db
      × IsOuterError e
      × All (λ c. c.id ≡ id → IsPending rt ans id a c) w.db.candidates

  Ends-IsOutcome :
      (id a : ℕ) (o : Result ProcessError (Unit {0}) × World)
      → Ends rt ans id a o
      → IsOutcome id a o
  Ends-IsOutcome id a (ok _, w) h = (h.well, h.settled refl)
  Ends-IsOutcome id a (err e, w) h =
      let (spool, pending) = h.failed e refl in (h.well, spool, pending)

  -- An active row of a well-formed database, taken through the state machine, leaves the database well
  -- formed, whichever statements fail. A call that succeeds leaves the row in a final state, or with one
  -- more attempt, which was allowed, at the time of its backoff, or, where the spool is full, to be
  -- copied in half a minute. A call that fails leaves the row active or complete, with no attempt
  -- counted, and the error is a statement that failed, the task of the copy that panicked, or a spool
  -- file that cannot be read or does not decrypt: the unique index is never broken, a row with no
  -- digest is never met, and a sequence number that is selected can be read.
  pub process_candidate-IsOutcome :
      (cand : Candidate) (w : World)
      → IsWellFormed w.db
      → State.get cand.id w.db ≡ some cand
      → is_active cand.state ≡ true
      → IsOutcome cand.id cand.attempts (process_candidate rt ans cand w)
  process_candidate-IsOutcome cand w well found active =
      Ends-IsOutcome cand.id cand.attempts _ (process_candidate-Ends cand w well found active)
