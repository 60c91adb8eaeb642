-- ===== src/Agent/Capture/Step.antt =====
-- A worker's step: the lease, the call of `process_candidate`, and what an error costs.
use mathlib.Core.Path.{subst}
use corpus.Prelude.{ℕ, ◌+◌, ◌<◌, ◌≡◌, refl, ap, sym, true, false, some, All, ◌⊎◌, inl, inr, arith}
use corpus.Prelude.Results.{Result, ok, err}
use corpus.Agent.State
use corpus.Agent.State.{
  CaptureState, is_active, find_row, gap_recorded, complete, announced, dedup_hit,
  occurrence_queued, hashed, uploading, finalizing, copying_and_hashing, opening, Candidate,
  StateDb, FailedStep, GapDetail,
}
use corpus.Agent.State.Rows.{All-map}
use corpus.Agent.State.Invariant.{IsWellFormed}
use corpus.Agent.Capture.Actions.{World, ProcessError}
use corpus.Agent.Capture.Runtime.{AgentRuntime, Answers}
use corpus.Agent.Capture.{process_candidate, settle, run_lease, after_lease, worker_step}
use corpus.Agent.Capture.Progress.{IsOutcome, process_candidate-IsOutcome}
use corpus.Agent.Capture.Ends.{IsPending}
use corpus.Agent.Capture.Backoff.{backoff_secs_lem}
use corpus.Agent.State.Invariant.{update_row-Holds}
use corpus.Agent.State.Queue.{due, lease_next_due, leased}
use corpus.Agent.State.Queue.Lease.{lease_next_due-IsLeased, lease_next_due-IsWellFormed}

module _ (rt : AgentRuntime) (ans : Answers) where
  -- After a step the row has ended; or an attempt is counted, and a later time is set; or it is put
  -- off for half a minute, since the spool is full.
  abbrev pub IsStepped : ℕ → Candidate → Type 0
  IsStepped a c =
      (is_active c.state ≡ false)
      ⊎ (c.attempts ≡ a + 1) × (ans.now < c.next_retry_at)
      ⊎ (c.state ≡ copying_and_hashing) × (c.attempts ≡ a) × (c.next_retry_at ≡ ans.now + 30)

  settle-IsStepped :
      (cand : Candidate) (o : Result ProcessError (Unit {0}) × World)
      → ans.retries ≡ true
      → IsOutcome rt ans cand.id cand.attempts o
      → IsWellFormed (settle rt ans cand o).db
        × All (λ c. c.id ≡ cand.id → IsStepped cand.attempts c) (settle rt ans cand o).db.candidates
  unfolding settle State.set_retry
  settle-IsStepped cand (ok _, w) counts h = (
    h.0,
    All-map _ _ w.db.candidates
        (λ c p i. elim (p i) [
          | inl done ↦ inl done
          | inr (inl (_, counted, later)) ↦
              inr (inl (counted, omega (arith, later, (backoff_secs_lem cand.attempts).0)))
          | inr (inr full) ↦ inr (inr full)
        ])
        h.1,
  )
  settle-IsStepped cand (err e, w) counts h =
      let held =
        (update_row-Holds cand.id (IsPending rt ans cand.id cand.attempts) (IsStepped cand.attempts)
          (λ c. record c {
            attempts = c.attempts + 1;
            next_retry_at = ans.now + 30;
            updated_at = ans.now;
          })
          (record { id = λ c. refl; path = λ c. refl })
          (λ c p. inr (inl (ap (λ (n : ℕ). n + 1) p.1, omega arith))) (λ c p e. e)
          (λ c p copy. record { sha256 = copy.sha256; spool_path = copy.spool_path }) w.db
          (record { well = h.0; row = h.2 })).1 in
      rw (counts, settle) (held.well, held.row)

  leased_step :
      (old c : Candidate) (db' : StateDb) (w : World)
      → ans.retries ≡ true
      → IsWellFormed db'
      → c ≡ leased ans.now 120 old
      → is_active old.state ≡ true
      → State.get c.id db' ≡ some c
      → IsWellFormed (settle rt ans c (process_candidate rt ans c (record w { db = db' }))).db
        × All
            (λ d. d.id ≡ c.id → IsStepped c.attempts d)
            (settle rt ans c (process_candidate rt ans c (record w { db = db' }))).db.candidates
  unfolding leased
  leased_step old c db' w counts well row active stored = settle-IsStepped c _ counts (
      process_candidate-IsOutcome rt ans c (record w { db = db' }) well stored
        (ground (arith, row, active)))

  -- A worker's step with a leased row, from a well-formed database, of which the lease and the statement
  -- that counts an attempt go through, and the others may fail, leaves a well-formed database, in which
  -- the row has ended, or has one more attempt counted and a later time set, or is still to be copied
  -- and put off by half a minute.
  pub worker_step-IsStepped :
      (w : World) (db' : StateDb) (c : Candidate)
      → ans.leases ≡ true
      → ans.retries ≡ true
      → IsWellFormed w.db
      → lease_next_due ans.now 120 w.db ≡ (db', some c)
      → IsWellFormed (worker_step rt ans w).db
        × All (λ d. d.id ≡ c.id → IsStepped c.attempts d) (worker_step rt ans w).db.candidates
  unfolding worker_step after_lease run_lease due
  worker_step-IsStepped w db' c leasing counts well e =
      let lease = lease_next_due-IsLeased ans.now 120 w.db well db' c e in
      let well' : IsWellFormed db' =
        subst (λ x. IsWellFormed x.0) e (lease_next_due-IsWellFormed ans.now 120 w.db well) in
      let stepped =
        subst
          (λ o.
            IsWellFormed (run_lease rt ans w o).db
            × All (λ d. d.id ≡ c.id → IsStepped c.attempts d) (run_lease rt ans w o).db.candidates)
          (sym e)
          (leased_step lease.chosen c db' w counts well' lease.row (ground (arith, lease.best.0))
            lease.stored) in
      subst
        (λ b.
          IsWellFormed (after_lease rt ans b w).db
          × All (λ d. d.id ≡ c.id → IsStepped c.attempts d) (after_lease rt ans b w).db.candidates)
        (sym leasing) stepped
