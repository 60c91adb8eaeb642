-- ===== src/Agent/Examples/Worker.antt =====
-- A worker's step at the queue of two files.
use corpus.Prelude.{◌≡◌, refl, true, some, none, [], All}
use corpus.Prelude.Results.{ok}
use corpus.Agent.Examples.Unary.{example_decimal}
use corpus.Agent.State
use corpus.Agent.State.{
  CaptureState, Candidate, PendingGap, GapDetail, StateDb, fresh_db, is_active, enqueue, update_row,
}
use corpus.Agent.State.Invariant.{IsWellFormed}
use corpus.Agent.Capture.{process_candidate, worker_step}
use corpus.Agent.Capture.Actions.{World}
use corpus.Agent.Capture.Runtime.{AgentRuntime, Answers, already_present}
use corpus.Agent.Capture.Progress.{IsOutcome, process_candidate-IsOutcome}
use corpus.Agent.Capture.Step.{IsStepped, worker_step-IsStepped}
use mathlib.Core.Path.{subst}
use corpus.Agent.State.Queue.Lease.{lease_next_due-IsWellFormed}
use corpus.Agent.Examples.{calm, no_hash}
use corpus.Agent.Examples.Database.{
  queue, queue-IsWellFormed, after_first, first_lease, leased_first,
}

abbrev runtime : AgentRuntime
runtime = record {
  max_attempts = 5;
  max_spool_bytes = 1000;
  max_artifact_bytes = 100;
  stable_read_retries = 2;
  spool_cipher = none;
  sha256_hex = no_hash;
  decimal = example_decimal;
  agent_id = "agent";
  boot_id = "boot";
  host_name = "host";
}

abbrev answers : Answers
answers = record {
  now = 20;
  now_text = "t";
  file = λ i. calm;
  mtime = none;
  announced = ok (record { disposition = already_present; upload_id = none });
  uploaded = ok tt;
  finalized = ok tt;
  panicked = none;
  readable = true;
  removes = true;
  leases = true;
  retries = true;
}

abbrev world : World
world = record { db = queue; spool = []; sent = []; answers = [] }

row_of_lease : State.get 2 after_first ≡ some first_lease
unfolding State.get State.find_row
row_of_lease = refl

leased-IsWellFormed : IsWellFormed after_first
leased-IsWellFormed =
    subst (λ o. IsWellFormed o.0) leased_first
      (lease_next_due-IsWellFormed 20 120 queue queue-IsWellFormed)

process_candidate-IsOutcome_example :
    IsOutcome runtime answers 2 0
      (process_candidate runtime answers first_lease (record world { db = after_first }))
process_candidate-IsOutcome_example =
    process_candidate-IsOutcome runtime answers first_lease (record world { db = after_first })
      leased-IsWellFormed row_of_lease refl

worker_step-IsStepped_example :
    IsWellFormed (worker_step runtime answers world).db
    × All
        (λ d. d.id ≡ 2 → IsStepped runtime answers 0 d)
        (worker_step runtime answers world).db.candidates
worker_step-IsStepped_example =
    worker_step-IsStepped runtime answers world after_first first_lease refl refl queue-IsWellFormed
      leased_first
