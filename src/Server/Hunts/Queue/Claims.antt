-- ===== src/Server/Hunts/Queue/Claims.antt =====
-- hunts.rs: what a claim takes from the queue.
use corpus.Prelude.{
  ℕ, ◌≤◌, ◌≡◌, ◌≢◌, refl, ◌∙◌, arith, Bool, true, false, Option-cases, ◌⊎◌, inl, inr, Option, none,
  some, String, List, [], ◌∷◌, leb, leb→le, ◌==◌, ==_refl, if◌then◌else◌,
}
use corpus.Prelude.Results.{ok}
use corpus.Server.Hunts.{HuntJob, Store, update_hunt, update_jobs, update_job}
use corpus.Server.Hunts.Actions.{World, pure, continue, ◌>>=◌, statement, execute}
use corpus.Server.Hunts.Queue.{
  is_pending, first_row, next_pending, set_claimed, claim, claimed_ids, claim_job, claim_next_job,
}
use corpus.Server.Hunts.Sound.{In}

-- The row that is taken waits, and none that waits was enqueued before it.
pub record IsNext (j : HuntJob) (rows : List HuntJob) : Type 0 where
  pub stored : In j rows
  pub pending : is_pending j ≡ true
  pub oldest : (k : HuntJob) → In k rows → is_pending k ≡ true → j.enqueued_at ≤ k.enqueued_at

-- What `next_pending` may answer.
unfoldable IsAnswer : List HuntJob → Option HuntJob → Type 0
IsAnswer rows none = (k : HuntJob) → In k rows → is_pending k ≡ false
IsAnswer rows (some j) = IsNext j rows

first_of_two :
    (j k : HuntJob) (rows : List HuntJob) (b : Bool)
    → leb j.enqueued_at k.enqueued_at ≡ b
    → is_pending j ≡ true
    → IsNext k rows
    → IsNext (if b then j else k) (j ∷ rows)
first_of_two j k rows true e p h = record { stored = inl refl; pending = p; oldest = this }
  where
    this : (l : HuntJob) → In l (j ∷ rows) → is_pending l ≡ true → j.enqueued_at ≤ l.enqueued_at
    this l (inl same) q = rw same (omega arith)
    this l (inr i) q =
        let old = h.oldest l i q in let le = leb→le j.enqueued_at k.enqueued_at e in omega arith
first_of_two j k rows false e p h = record {
  stored = inr h.stored;
  pending = h.pending;
  oldest = this;
}
  where
    this : (l : HuntJob) → In l (j ∷ rows) → is_pending l ≡ true → k.enqueued_at ≤ l.enqueued_at
    this l (inl same) q = rw same (ground arith)
    this l (inr i) q = h.oldest l i q

IsAnswer-first_row :
    (j : HuntJob) (rows : List HuntJob) (rest : Option HuntJob) (b : Bool)
    → is_pending j ≡ b
    → IsAnswer rows rest
    → IsAnswer (j ∷ rows) (if b then first_row j rest else rest)
unfolding IsAnswer first_row
IsAnswer-first_row j rows none true e h = record { stored = inl refl; pending = e; oldest = this }
  where
    this : (l : HuntJob) → In l (j ∷ rows) → is_pending l ≡ true → j.enqueued_at ≤ l.enqueued_at
    this l (inl same) q = rw same (omega arith)
    this l (inr i) q = let no' = h l i in cc
IsAnswer-first_row j rows (some k) true e h =
    first_of_two j k rows (leb j.enqueued_at k.enqueued_at) refl e h
IsAnswer-first_row j rows none false e h = λ l i. elim i [ inl same ↦ rw same e | inr i' ↦ h l i' ]
IsAnswer-first_row j rows (some k) false e h = record {
  stored = inr h.stored;
  pending = h.pending;
  oldest = λ l i q. elim i [ inl same ↦ cc | inr i' ↦ h.oldest l i' q ];
}

next_pending-IsAnswer : (rows : List HuntJob) → IsAnswer rows (next_pending rows)
unfolding next_pending IsAnswer first_row
next_pending-IsAnswer [] = λ k i. absurd i
next_pending-IsAnswer (j ∷ rows) =
    IsAnswer-first_row j rows (next_pending rows) (is_pending j) refl (next_pending-IsAnswer rows)

module _ (now : ℕ) (worker : String) (id : ℕ) where
  pub claimed_row :
      (rows : List HuntJob) (k : HuntJob)
      → In k (update_jobs (set_claimed now worker) id rows)
      → (is_pending k ≡ false) ⊎ (In k rows × (k.hunt_id == id) ≡ false)
  unfolding update_jobs is_pending
  claimed_row [] k i = absurd i
  claimed_row (j ∷ rows) k (inr i) = elim (claimed_row rows k i) [
    | inl e ↦ inl e
    | inr i' ↦ inr (inr i'.0, i'.1)
  ]
  claimed_row (j ∷ rows) k (inl same) = this (j.hunt_id == id) refl same
    where
      this :
          (b : Bool)
          → (j.hunt_id == id) ≡ b
          → k ≡ (if b then set_claimed now worker j else j)
          → (is_pending k ≡ false) ⊎ (In k (j ∷ rows) × (k.hunt_id == id) ≡ false)
      this true e s = inl (
          rw s
            (elim (Option-cases j.finished_at) [ inl e' ↦ rw e' refl | inr (_, e') ↦ rw e' refl ]))
      this false e s = inr (inl s, rw s e)

-- What a claim that answers a job has done.
pub record IsClaimed (now : ℕ) (worker : String) (t id : ℕ) (s s' : Store) : Type 0 where
  pub job : HuntJob
  pub next : IsNext job s.jobs
  pub tenant : job.tenant_id ≡ t
  pub hunt : job.hunt_id ≡ id
  pub written : s' ≡ claim now worker (some job) s

module _ (now : ℕ) (worker : String) where
  claim-IsClaimed :
      (t id : ℕ) (job : Option HuntJob) (answers : List Bool) (w : World)
      → IsAnswer w.store.jobs job
      → (continue
          (statement (λ _. tt) (claim now worker job) answers w)
          (λ _. pure (claimed_ids job))).0
        ≡ ok (some (t, id))
      → IsClaimed now worker t id w.store
          (continue
            (statement (λ _. tt) (claim now worker job) answers w)
            (λ _. pure (claimed_ids job))).1.store
  unfolding statement pure IsAnswer
  claim-IsClaimed t id none [] w h e = cc
  claim-IsClaimed t id none (true ∷ later) w h e = cc
  claim-IsClaimed t id none (false ∷ later) w h e = cc
  claim-IsClaimed t id (some j) [] w h e = record {
    job = j;
    next = h;
    tenant = cc;
    hunt = cc;
    written = refl;
  }
  claim-IsClaimed t id (some j) (true ∷ later) w h e = record {
    job = j;
    next = h;
    tenant = cc;
    hunt = cc;
    written = refl;
  }
  claim-IsClaimed t id (some j) (false ∷ later) w h e = cc

  pub claim_next_job-IsClaimed :
      (t id : ℕ) (w : World)
      → (claim_next_job now worker w).0 ≡ ok (some (t, id))
      → IsClaimed now worker t id w.store (claim_next_job now worker w).1.store
  unfolding claim_next_job claim_job ◌>>=◌ execute
  claim_next_job-IsClaimed t id w e =
      claim-IsClaimed t id (next_pending w.store.jobs) w.answers w
        (next_pending-IsAnswer w.store.jobs) e

  -- A job that a claim has answered waits no more.
  claimed_not_pending :
      (t id : ℕ) (s s' : Store)
      → IsClaimed now worker t id s s'
      → (k : HuntJob) → In k s'.jobs
      → k.hunt_id ≡ id
      → is_pending k ≡ false
  unfolding claim update_hunt update_job
  claimed_not_pending t id s s' c k i same =
      elim (claimed_row now worker c.job.hunt_id s.jobs k (rw c.written at i)) [
        | inl e ↦ e
        | inr (_, other) ↦ let hunt = c.hunt in let yes = ==_refl id in cc
      ]

pub claim_exclusive :
    (now now' : ℕ) (worker worker' : String) (t t' id id' : ℕ) (w : World)
    → (claim_next_job now worker w).0 ≡ ok (some (t, id))
    → (claim_next_job now' worker' (claim_next_job now worker w).1).0 ≡ ok (some (t', id'))
    → id' ≢ id
claim_exclusive now now' worker worker' t t' id id' w e e' same =
    let first = claim_next_job-IsClaimed now worker t id w e in
    let second = claim_next_job-IsClaimed now' worker' t' id' (claim_next_job now worker w).1 e' in
    let none_waits =
      claimed_not_pending now worker t id w.store _ first second.job second.next.stored
        (second.hunt ∙ same) in
    let waits = second.next.pending in cc
