-- ===== src/Server/Hunts/Queue/Stuck.antt =====
-- hunts.rs: a hunt that a failed statement has left RUNNING.
use corpus.Prelude.{
  ℕ, ◌≡◌, ◌≢◌, refl, ◌∙◌, Bool, true, false, inl, inr, Option, none, some, String, List, [], ◌∷◌,
  if◌then◌else◌, find?,
}
use corpus.Prelude.Results.{ok, err}
use corpus.Server.Hunts.{
  running, HuntRow, HuntJob, Store, is_hunt, find_hunt, update_hunts, update_hunt, update_job,
  retro,
}
use corpus.Server.Hunts.Actions.{conflict, pure, fail, ◌>>=◌, statement, query}
use corpus.Server.Hunts.Actions.Runs.{quiet}
use corpus.Server.Hunts.Actions.Rules.{Keeps, Keeps-bind, Keeps-execute, Keeps-pure}
use corpus.Server.Hunts.Queue.{
  Engine, found, get_hunt, is_busy, enqueue_checked, enqueue_hunt, is_pending, next_pending,
  is_queued, run_if_queued, set_running, claim, claim_job, claim_next_job,
}
use corpus.Server.Hunts.Sound.{In}
use corpus.Server.Hunts.Queue.Claims.{claimed_row, claim_next_job-IsClaimed}

-- A hunt that RUNS with its job taken, as a failed statement of `execute_hunt` leaves it.
pub record IsStuck (t id : ℕ) (s : Store) : Type 0 where
  pub row : HuntRow
  pub kind : row.kind ≡ retro
  pub state : row.state ≡ running
  pub found : find_hunt t id s ≡ some row
  pub taken : (k : HuntJob) → In k s.jobs → k.hunt_id ≡ id → is_pending k ≡ false

module _ (t id : ℕ) where
  module _ (now : ℕ) (row : HuntRow) where
    same_test :
        (c : Bool) (h : HuntRow)
        → is_hunt t id (if c then run_if_queued now h else h) ≡ is_hunt t id h
    unfolding is_hunt
    same_test false h = refl
    same_test true h = this (is_queued h.state)
      where
        this : (q : Bool) → is_hunt t id (if q then set_running now h else h) ≡ is_hunt t id h
        this true = refl
        this false = refl

    unchanged :
        (c : Bool) (h : HuntRow) → h.state ≡ running → (if c then run_if_queued now h else h) ≡ h
    unfolding is_queued
    unchanged false h e = refl
    unchanged true h e = rw e refl

    find_step :
        (b c : Bool) (h : HuntRow) (rest rest' : Option HuntRow)
        → is_hunt t id h ≡ b
        → row.state ≡ running
        → (rest ≡ some row → rest' ≡ some row)
        → (if b then some h else rest) ≡ some row
        → (if is_hunt t id (if c then run_if_queued now h else h)
            then some (if c then run_if_queued now h else h)
            else rest')
          ≡ some row
    find_step true c h rest rest' e state k f =
        let e' : h.state ≡ running = cc in rw (unchanged c h e') (rw e f)
    find_step false c h rest rest' e state k f = rw (same_test c h ∙ e) (k f)

    -- A claim changes the state of no hunt that runs.
    find-claimed :
        (t' id' : ℕ) (rows : List HuntRow)
        → row.state ≡ running
        → find? (is_hunt t id) rows ≡ some row
        → find? (is_hunt t id) (update_hunts (run_if_queued now) t' id' rows) ≡ some row
    unfolding update_hunts
    find-claimed t' id' [] e f = f
    find-claimed t' id' (h ∷ rows) e f =
        find_step (is_hunt t id h) (is_hunt t' id' h) h (find? (is_hunt t id) rows) _ refl e
          (find-claimed t' id' rows e) f

  claim-IsStuck :
      (now : ℕ) (worker : String) (s : Store) (o : Option HuntJob)
      → IsStuck t id s
      → IsStuck t id (claim now worker o s)
  unfolding claim update_hunt update_job find_hunt
  claim-IsStuck now worker s none h = h
  claim-IsStuck now worker s (some j) h = record {
    row = h.row;
    kind = h.kind;
    state = h.state;
    found = find-claimed now h.row j.tenant_id j.hunt_id s.hunts h.state h.found;
    taken = λ k i same. elim (claimed_row now worker j.hunt_id s.jobs k i) [
      | inl e ↦ e
      | inr (i', _) ↦ h.taken k i' same
    ];
  }

  claim_job-IsStuck :
      (now : ℕ) (worker : String) (job : Option HuntJob)
      → Keeps (IsStuck t id) (claim_job now worker job)
  unfolding claim_job
  claim_job-IsStuck now worker job =
      Keeps-bind _ _ (Keeps-execute _ (λ s. claim-IsStuck now worker s job)) (λ _. Keeps-pure _)

  claim_next_job-IsStuck :
      (now : ℕ) (worker : String) → Keeps (IsStuck t id) (claim_next_job now worker)
  unfolding claim_next_job
  claim_next_job-IsStuck now worker = record {
    from = λ w p. record {
      at = ((claim_job-IsStuck now worker (next_pending w.store.jobs)).from w p).at;
    };
  }

  enqueue-refused :
      (e : Engine) (s : Store)
      → IsStuck t id s
      → enqueue_hunt e t id (quiet s) ≡ (err (conflict id running), quiet s)
  unfolding enqueue_hunt get_hunt found enqueue_checked is_busy query statement ◌>>=◌ pure fail
  enqueue-refused e s h = rw h.found (rw h.kind (rw h.state refl))

  -- While a hunt is stuck, enqueue refuses it and writes nothing, no claim answers it, and a claim
  -- leaves it stuck.
  pub IsStuck-stays :
      (e : Engine) (now : ℕ) (worker : String) (t' : ℕ) (s : Store)
      → IsStuck t id s
      → (enqueue_hunt e t id (quiet s) ≡ (err (conflict id running), quiet s))
        × ((claim_next_job now worker (quiet s)).0 ≢ ok (some (t', id)))
        × IsStuck t id (claim_next_job now worker (quiet s)).1.store
  IsStuck-stays e now worker t' s h = (
    enqueue-refused e s h,
    (λ answered.
        let c = claim_next_job-IsClaimed now worker t' id (quiet s) answered in
        let waits = c.next.pending in let taken = h.taken c.job c.next.stored c.hunt in cc),
    ((claim_next_job-IsStuck now worker).from (quiet s) h).at,
  )
