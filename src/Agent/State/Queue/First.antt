-- ===== src/Agent/State/Queue/First.antt =====
-- state.rs: the row that a lease hands out, by its columns.
use corpus.Prelude.{ℕ, ◌+◌, ◌≤◌, ◌<◌, ◌≡◌, ◌≢◌, refl, true, false, some, All, ◌⊎◌, arith}
use corpus.Agent.State.{CaptureState, complete, gap_recorded, is_active, Candidate, StateDb, get}
use corpus.Agent.State.Rows.{All-map}
use corpus.Agent.State.Invariant.{IsWellFormed}
use corpus.Agent.State.Queue.{due, comes_before, leased, lease_next_due}
use corpus.Agent.State.Queue.Lease.{lease_next_due-IsLeased}

-- The row has not ended, and its time has come.
pub record IsReady (now : ℕ) (c : Candidate) : Type 0 where
  pub not_complete : c.state ≢ complete
  pub no_gap : c.state ≢ gap_recorded
  pub time : c.next_retry_at ≤ now

-- The row that is handed out, and the one that it was before.
pub record IsFirst (now lease_secs : ℕ) (db db' : StateDb) (c : Candidate) : Type 0 where
  pub chosen : Candidate
  pub found : get chosen.id db ≡ some chosen
  pub ready : IsReady now chosen
  pub first :
      All
        (λ d.
          IsReady now d
          → (chosen.priority < d.priority) ⊎ (chosen.priority ≡ d.priority) × (chosen.id ≤ d.id))
        db.candidates
  pub row : c ≡ record chosen { next_retry_at = now + lease_secs; updated_at = now }
  pub stored : get c.id db' ≡ some c

is_active-ends : (s : CaptureState) → is_active s ≡ true → (s ≢ complete) × (s ≢ gap_recorded)
is_active-ends s h = ((λ e. ground (arith, h, e)), λ e. ground (arith, h, e))

not_ended-is_active : (s : CaptureState) → s ≢ complete → s ≢ gap_recorded → is_active s ≡ true
not_ended-is_active complete h k = absurd (h refl)
not_ended-is_active gap_recorded h k = absurd (k refl)
not_ended-is_active s h k = refl

due-IsReady : (now : ℕ) (c : Candidate) → due now c ≡ true → IsReady now c
unfolding due
due-IsReady now c h =
    let (not_complete, no_gap) = is_active-ends c.state (ground (arith, h)) in
    record { not_complete = not_complete; no_gap = no_gap; time = ground (arith, h) }

IsReady-due : (now : ℕ) (c : Candidate) → IsReady now c → due now c ≡ true
unfolding due
IsReady-due now c h =
    let active = not_ended-is_active c.state h.not_complete h.no_gap in
    ground (arith, active, h.time)

in_order :
    (c d : Candidate)
    → comes_before d c ≡ false
    → (c.priority < d.priority) ⊎ (c.priority ≡ d.priority) × (c.id ≤ d.id)
unfolding comes_before
in_order c d h = ground (arith, h)

-- From a well-formed database a lease hands out a row that has not ended and whose time has come; of all
-- such rows it has the least priority number, and of those the least id. It is stored as it is handed
-- out: as it was, but for the end of the lease and the time of the change.
pub lease_next_due-IsFirst :
    (now lease_secs : ℕ) (db db' : StateDb) (c : Candidate)
    → IsWellFormed db
    → lease_next_due now lease_secs db ≡ (db', some c)
    → IsFirst now lease_secs db db' c
unfolding leased
lease_next_due-IsFirst now lease_secs db db' c w h =
    let lease = lease_next_due-IsLeased now lease_secs db w db' c h in
    record {
      chosen = lease.chosen;
      found = lease.found;
      ready = due-IsReady now lease.chosen lease.best.0;
      first =
          All-map _ _ db.candidates
            (λ d first ready. in_order lease.chosen d (first (IsReady-due now d ready)))
            lease.best.1;
      row = lease.row;
      stored = lease.stored;
    }
