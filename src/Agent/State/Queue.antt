-- ===== src/Agent/State/Queue.antt =====
-- state.rs: the queue that the table `candidate` is for the workers.
pub mod Lease
pub mod First
use corpus.Prelude.{
  ℕ, ◌+◌, ◌-◌, min, Bool, true, false, ◌&&◌, ◌||◌, Option, none, some, List, [], ◌∷◌, length,
  keep_if, ltb, leb, ◌==◌, if◌then◌else◌,
}
use corpus.Agent.State.{Candidate, StateDb, is_active, update_row}

-- WHERE state NOT IN ('complete','gap_recorded') AND next_retry_at <= now
unfoldable pub due : ℕ → Candidate → Bool
due now c = is_active c.state && leb c.next_retry_at now

-- ORDER BY priority ASC, id ASC
unfoldable pub comes_before : Candidate → Candidate → Bool
comes_before c d = ltb c.priority d.priority || (c.priority == d.priority && ltb c.id d.id)

unfoldable pub first_of_two : Candidate → Option Candidate → Candidate
first_of_two c none = c
first_of_two c (some d) = if comes_before d c then d else c

-- SELECT … ORDER BY … LIMIT 1
unfoldable pub next_due : ℕ → List Candidate → Option Candidate
next_due now [] = none
next_due now (c ∷ rows) =
    let rest = next_due now rows in if due now c then some (first_of_two c rest) else rest

-- The row is returned as it is after the update.
unfoldable pub leased : ℕ → ℕ → Candidate → Candidate
leased now lease_secs c = record c { next_retry_at = now + lease_secs; updated_at = now }

unfoldable pub lease_next_due : ℕ → ℕ → StateDb → StateDb × Option Candidate
lease_next_due now lease_secs db = elim (next_due now db.candidates) [
  | none ↦ (db, none)
  | some c ↦ (
    record db { candidates = update_row c.id (leased now lease_secs) db.candidates },
    some (leased now lease_secs c),
  )
]

unfoldable pub queue_depth : StateDb → ℕ
queue_depth db = length (keep_if (λ c. is_active c.state) db.candidates)

-- SELECT min(created_at) … ; none where no row is active.
unfoldable pub oldest_created : List Candidate → Option ℕ
oldest_created [] = none
oldest_created (c ∷ rows) =
    let rest = oldest_created rows in
    if is_active c.state
    then elim rest [ none ↦ some c.created_at | some t ↦ some (min c.created_at t) ]
    else rest

-- `(now() - t).max(0)`
unfoldable pub oldest_pending_secs : ℕ → StateDb → Option ℕ
oldest_pending_secs now db = elim (oldest_created db.candidates) [
  | none ↦ none
  | some t ↦ some (now - t)
]
