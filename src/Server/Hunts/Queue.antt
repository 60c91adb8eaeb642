-- ===== src/Server/Hunts/Queue.antt =====
-- hunts.rs: `create_hunt`, `get_hunt`, `enqueue_hunt` and `claim_next_job`.
pub mod Claims
pub mod Stuck
use corpus.Prelude.{
  ℕ, suc, ◌+◌, Bool, true, false, ◌&&◌, ◌||◌, Option, none, some, String, List, [], ◌∷◌, ◌++◌,
  length, leb, ◌==◌, if◌then◌else◌, any,
}
use corpus.Prelude.Results.{Result, ok, err}
use corpus.Server.Hunts.{
  HuntKind, retro, forward, HuntState, draft, validating, planned, queued, running, completed,
  completed_partial, failed, active_forward, zero_counters, HuntRow, HuntJob, Bundle, Store,
  find_hunt, update_hunt, update_job, find_bundle, bundle_sources, planned_artifacts, max_seq,
}
use corpus.Server.Hunts.Actions.{
  Error, not_found, conflict, bad_request, rule_compile, db, Action, pure, fail, ◌>>=◌, ◌>>◌, query,
  execute, attempt,
}

-- What a call meets: the time, the compiler's diagnostics, and `check_min_tier`'s message.
pub record Engine : Type 0 where
  pub now : ℕ
  pub compile_bundle : List (String × String) → Option String
  pub tier_refused : Option String

-- `ok_or_else(|| NotFound)`
unfoldable pub found : {A : Type 0} → String → Option A → Action A
found what none = fail (not_found what)
found what (some a) = pure a

unfoldable pub get_hunt : ℕ → ℕ → Action HuntRow
unfolding found
get_hunt tenant_id id = do row ← query (find_hunt tenant_id id); found "hunt" row

-- `registry::get_bundle`
unfoldable pub get_bundle : ℕ → String → Action Bundle
unfolding found
get_bundle tenant_id digest = do row ← query (find_bundle tenant_id digest); found "bundle" row

unfoldable pub insert_hunt : ℕ → ℕ → HuntKind → HuntState → ℕ → String → Store → Store
insert_hunt now tenant_id kind state bundle_id digest s = record s {
  hunts =
      s.hunts
      ++ record {
        id = s.next_id;
        tenant_id = tenant_id;
        kind = kind;
        bundle_id = bundle_id;
        bundle_digest = digest;
        state = state;
        corpus_watermark = none;
        planned_artifacts = 0;
        counters = zero_counters;
        error = none;
        created_at = now;
        started_at = none;
        completed_at = none;
      }
        ∷ [];
  next_id = suc s.next_id;
}

unfoldable pub create_hunt : ℕ → ℕ → String → Action (Unit {0})
unfolding get_bundle insert_hunt
create_hunt now tenant_id digest = do
  bundle ← get_bundle tenant_id digest
  execute (insert_hunt now tenant_id retro draft bundle.id digest)

abbrev pub set_state : HuntState → HuntRow → HuntRow
set_state state h = record h { state = state }

-- SET state = 'FAILED', error = $3, completed_at = $4
abbrev pub set_failed : ℕ → String → HuntRow → HuntRow
set_failed now message h = record h {
  state = failed;
  error = some message;
  completed_at = some now;
}

-- SET state = 'PLANNED', corpus_watermark = $3, planned_artifacts = $4, scanned = 0, …
abbrev pub set_planned : ℕ → ℕ → HuntRow → HuntRow
set_planned watermark count h = record h {
  state = planned;
  corpus_watermark = some watermark;
  planned_artifacts = count;
  counters = zero_counters;
  error = none;
  completed_at = none;
}

-- started_at = COALESCE(started_at, $3)
abbrev pub set_running : ℕ → HuntRow → HuntRow
set_running now h = record h {
  state = running;
  started_at = elim h.started_at [ none ↦ some now | some t ↦ some t ];
}

-- INSERT … ON CONFLICT (hunt_id) DO UPDATE
unfoldable pub upsert_jobs : ℕ → ℕ → ℕ → List HuntJob → List HuntJob
upsert_jobs now tenant_id id [] =
    record {
      hunt_id = id;
      tenant_id = tenant_id;
      enqueued_at = now;
      claimed_at = none;
      claimed_by = none;
      finished_at = none;
    }
    ∷ []
upsert_jobs now tenant_id id (j ∷ rows) =
    let rest = upsert_jobs now tenant_id id rows in
    if j.hunt_id == id
    then record j { enqueued_at = now; claimed_at = none; claimed_by = none; finished_at = none }
      ∷ rows
    else j ∷ rest

unfoldable pub upsert_job : ℕ → ℕ → ℕ → Store → Store
upsert_job now tenant_id id s = record s { jobs = upsert_jobs now tenant_id id s.jobs }

-- `matches!(hunt.state, "RUNNING" | "QUEUED")`
unfoldable pub is_busy : HuntState → Bool
is_busy running = true
is_busy queued = true
is_busy _ = false

abbrev pub is_retro : HuntKind → Bool
is_retro retro = true
is_retro forward = false

module _ (e : Engine) (tenant_id id : ℕ) where
  -- A watermark that is pinned is kept.
  unfoldable pub watermark_of : HuntRow → Action ℕ
  watermark_of h = elim h.corpus_watermark [
    | some w ↦ pure w
    | none ↦ query (λ s. max_seq tenant_id s.artifacts)
  ]

  -- A bundle that does not compile fails the hunt.
  unfoldable pub refuse_bundle : String → Action (Unit {0})
  refuse_bundle message = do
    execute (update_hunt (set_failed e.now message) tenant_id id)
    fail (rule_compile message)

  unfoldable pub compiled : List (String × String) → Action (Unit {0})
  unfolding refuse_bundle
  compiled sources = elim (e.compile_bundle sources) [
    | none ↦ pure tt
    | some message ↦ refuse_bundle message
  ]

  -- `fetch_one`: no row is a database error.
  unfoldable pub bundle_of : Action ℕ
  bundle_of = do
    row ← query (find_hunt tenant_id id)
    elim row [ none ↦ fail db | some h ↦ pure h.bundle_id ]

  -- From VALIDATING to QUEUED.
  unfoldable pub plan_hunt : HuntRow → Action HuntRow
  unfolding bundle_of compiled watermark_of get_hunt
  plan_hunt h = do
    execute (update_hunt (set_state validating) tenant_id id)
    bundle_id ← bundle_of
    sources ← query (bundle_sources tenant_id bundle_id)
    compiled sources
    watermark ← watermark_of h
    count ← query (λ s. length (planned_artifacts tenant_id watermark s))
    execute (update_hunt (set_planned watermark count) tenant_id id)
    execute (update_hunt (set_state queued) tenant_id id)
    execute (upsert_job e.now tenant_id id)
    get_hunt tenant_id id

  unfoldable pub enqueue_checked : HuntRow → Action HuntRow
  unfolding plan_hunt is_busy
  enqueue_checked h =
      if is_retro h.kind
      then (if is_busy h.state then fail (conflict id h.state) else elim e.tier_refused [
        | some message ↦ fail (bad_request message)
        | none ↦ plan_hunt h
      ])
      else fail (bad_request "only retro hunts are run explicitly")

  unfoldable pub enqueue_hunt : Action HuntRow
  unfolding enqueue_checked get_hunt
  enqueue_hunt = do h ← get_hunt tenant_id id; enqueue_checked h

-- WHERE finished_at IS NULL AND claimed_at IS NULL
unfoldable pub is_pending : HuntJob → Bool
is_pending j = elim j.finished_at [
  | none ↦ elim j.claimed_at [ none ↦ true | some _ ↦ false ]
  | some _ ↦ false
]

unfoldable pub first_row : HuntJob → Option HuntJob → Option HuntJob
first_row j none = some j
first_row j (some k) = some (if leb j.enqueued_at k.enqueued_at then j else k)

-- ORDER BY enqueued_at LIMIT 1
unfoldable pub next_pending : List HuntJob → Option HuntJob
unfolding is_pending first_row
next_pending [] = none
next_pending (j ∷ rows) =
    let rest = next_pending rows in if is_pending j then first_row j rest else rest

abbrev pub set_claimed : ℕ → String → HuntJob → HuntJob
set_claimed now worker_id j = record j { claimed_at = some now; claimed_by = some worker_id }

unfoldable pub is_queued : HuntState → Bool
is_queued queued = true
is_queued _ = false

-- AND state = 'QUEUED'
abbrev pub run_if_queued : ℕ → HuntRow → HuntRow
run_if_queued now h = if is_queued h.state then set_running now h else h

-- The writes of the transaction.
unfoldable pub claim : ℕ → String → Option HuntJob → Store → Store
claim now worker_id none s = s
claim now worker_id (some j) s =
    update_hunt (run_if_queued now) j.tenant_id j.hunt_id
      (update_job (set_claimed now worker_id) j.hunt_id s)

abbrev pub claimed_ids : Option HuntJob → Option (ℕ × ℕ)
claimed_ids none = none
claimed_ids (some j) = some (j.tenant_id, j.hunt_id)

unfoldable pub claim_job : ℕ → String → Option HuntJob → Action (Option (ℕ × ℕ))
unfolding claim
claim_job now worker_id job = do execute (claim now worker_id job); pure (claimed_ids job)

-- One transaction, so one statement: the row that it locks is the one that it answers.
unfoldable pub claim_next_job : ℕ → String → Action (Option (ℕ × ℕ))
unfolding claim_job next_pending
claim_next_job now worker_id w = claim_job now worker_id (next_pending w.store.jobs) w
