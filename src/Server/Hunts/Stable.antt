-- ===== src/Server/Hunts/Stable.antt =====
-- What the bookkeeping of a hunt keeps: its state, its job, its events.
use corpus.Prelude.{ℕ, ◌≡◌, refl, Option, none, some, String, List, [], ◌∷◌}
use corpus.Server.Hunts.{
  HuntMatch, commit_match, MatchSummary, cached, evidence, RuleMatchEvidence, ScanStatus, clean,
  matched, timeout, error, HuntState, HuntRow, HuntJob, DetectionEvent, OutboxRow, TriggerRule,
  MatchEvent, record_detection, Store, Counters, update_hunt, update_job,
}
use corpus.Server.Hunts.Actions.{bad_request, rule_compile, fail, ◌>>◌, execute, attempt}
use corpus.Server.Hunts.Actions.Rules.{
  Keeps, keeps_rules, Keeps-execute, Keeps-query, Keeps-bind, Keeps-pure, Keeps-fail, Keeps-option,
  Keeps-if, Keeps-attempt,
}
use corpus.Server.Hunts.Queue.{
  Engine, found, get_hunt, set_state, set_failed, set_planned, set_running, upsert_job, is_busy,
  is_retro, watermark_of, refuse_bundle, compiled, bundle_of, plan_hunt, enqueue_hunt,
}
use corpus.Server.Hunts.Run.{
  commit_and_fire, replay_matches, commit_matches, replay, count_scan, Scanner, set_counters,
  set_completed, finish, check_tier,
}
use corpus.Server.Hunts.Scan.{queue_event, fire_hunt_match}

-- An update that leaves the keys and the bundle alone.
pub record IsQuiet (f : HuntRow → HuntRow) : Type 0 where
  pub id : (h : HuntRow) → (f h).id ≡ h.id
  pub tenant_id : (h : HuntRow) → (f h).tenant_id ≡ h.tenant_id
  pub digest : (h : HuntRow) → (f h).bundle_digest ≡ h.bundle_digest

-- Predicates of the store that the bookkeeping of a hunt keeps.
pub record IsStable (P : Store → Type 0) : Type 0 where
  pub hunts :
      (f : HuntRow → HuntRow) (t id : ℕ) (s : Store) → IsQuiet f → P s → P (update_hunt f t id s)
  pub jobs : (rows : List HuntJob) (s : Store) → P s → P (record s { jobs = rows })
  pub outbox : (rows : List OutboxRow) (s : Store) → P s → P (record s { outbox = rows })
  pub detections :
      (rows : List DetectionEvent) (s : Store) → P s → P (record s { detections = rows })

module _ {P : Store → Type 0} (st : IsStable P) where
  pub Keeps-update_hunt :
      (f : HuntRow → HuntRow) (t id : ℕ) → IsQuiet f → Keeps P (execute (update_hunt f t id))
  Keeps-update_hunt f t id q = Keeps-execute _ (λ s p. st.hunts f t id s q p)

  pub Keeps-update_job : (f : HuntJob → HuntJob) (id : ℕ) → Keeps P (execute (update_job f id))
  unfolding update_job
  Keeps-update_job f id = Keeps-execute _ (λ s p. st.jobs _ s p)

  queue_event-Keeps :
      (t : ℕ) (event : MatchEvent) (ts : List TriggerRule) → Keeps P (queue_event t event ts)
  unfolding queue_event
  queue_event-Keeps t event [] = Keeps-pure _
  queue_event-Keeps t event (r ∷ ts) =
      Keeps-bind _ _ (Keeps-execute _ (λ s p. st.outbox _ s p)) (λ _. queue_event-Keeps t event ts)

  pub fire-Keeps : (t h a : ℕ) (r : String) → Keeps P (fire_hunt_match t h a r)
  unfolding fire_hunt_match
  fire-Keeps t h a r = search (keeps_rules, queue_event-Keeps)

  pub Keeps-record_detection :
      (e : DetectionEvent) → Keeps P (attempt (execute (record_detection e)))
  unfolding record_detection
  Keeps-record_detection e = Keeps-attempt _ (Keeps-execute _ (λ s p. st.detections _ s p))

set_state-IsQuiet : (state : HuntState) → IsQuiet (set_state state)
set_state-IsQuiet state = record { id = λ h. refl; tenant_id = λ h. refl; digest = λ h. refl }

set_failed-IsQuiet : (now : ℕ) (why : String) → IsQuiet (set_failed now why)
set_failed-IsQuiet now why = record { id = λ h. refl; tenant_id = λ h. refl; digest = λ h. refl }

set_planned-IsQuiet : (w n : ℕ) → IsQuiet (set_planned w n)
set_planned-IsQuiet w n = record { id = λ h. refl; tenant_id = λ h. refl; digest = λ h. refl }

pub set_counters-IsQuiet : (n : Counters) → IsQuiet (set_counters n)
set_counters-IsQuiet n = record { id = λ h. refl; tenant_id = λ h. refl; digest = λ h. refl }

pub set_running-IsQuiet : (now : ℕ) → IsQuiet (set_running now)
set_running-IsQuiet now = record { id = λ h. refl; tenant_id = λ h. refl; digest = λ h. refl }

module _ {P : Store → Type 0} (st : IsStable P) (t id : ℕ) where
  pub found-Keeps : {A : Type 0} (what : String) (o : Option A) → Keeps P (found what o)
  unfolding found
  found-Keeps what none = Keeps-fail _
  found-Keeps what (some a) = Keeps-pure a

  pub get_hunt-Keeps : Keeps P (get_hunt t id)
  unfolding get_hunt
  get_hunt-Keeps = Keeps-bind _ _ (Keeps-query _) (λ row. found-Keeps _ row)

  pub bundle_of-Keeps : (e : Engine) → Keeps P (bundle_of e t id)
  unfolding bundle_of
  bundle_of-Keeps e =
      Keeps-bind _ _ (Keeps-query _)
        (λ row. Keeps-option row _ _ (Keeps-fail _) (λ h _. Keeps-pure h.bundle_id))

  pub compiled-Keeps :
      (e : Engine) (sources : List (String × String)) → Keeps P (compiled e t id sources)
  unfolding compiled
  compiled-Keeps e sources =
      Keeps-option (e.compile_bundle sources) _ (refuse_bundle e t id) (Keeps-pure tt) (λ why _.
        Keeps-bind _ _ (Keeps-update_hunt st _ t id (set_failed-IsQuiet e.now why))
          (λ _. Keeps-fail (rule_compile why)))

  watermark_of-Keeps : (e : Engine) (h : HuntRow) → Keeps P (watermark_of e t id h)
  unfolding watermark_of
  watermark_of-Keeps e h = Keeps-option h.corpus_watermark _ _ (Keeps-query _) (λ w _. Keeps-pure w)

  plan_hunt-Keeps : (e : Engine) (h : HuntRow) → Keeps P (plan_hunt e t id h)
  unfolding plan_hunt upsert_job
  plan_hunt-Keeps e h = Keeps-bind _ _ (Keeps-update_hunt st _ t id (set_state-IsQuiet _)) λ _.
      Keeps-bind _ _ (bundle_of-Keeps e) λ b. Keeps-bind _ _ (Keeps-query _) λ sources.
        Keeps-bind _ _ (compiled-Keeps e sources) λ _. Keeps-bind _ _ (watermark_of-Keeps e h) λ w.
          Keeps-bind _ _ (Keeps-query _) λ n.
            Keeps-bind _ _ (Keeps-update_hunt st _ t id (set_planned-IsQuiet w n)) λ _.
              Keeps-bind _ _ (Keeps-update_hunt st _ t id (set_state-IsQuiet _))
                λ _. Keeps-bind _ _ (Keeps-execute _ (λ s p. st.jobs _ s p)) λ _. get_hunt-Keeps

  pub enqueue_hunt-Keeps : (e : Engine) → Keeps P (enqueue_hunt e t id)
  unfolding enqueue_hunt
  enqueue_hunt-Keeps e = Keeps-bind _ _ get_hunt-Keeps λ h.
      Keeps-if (is_retro h.kind) _ _
        (Keeps-if (is_busy h.state) _ _ (Keeps-fail _) (
          Keeps-option e.tier_refused _ _ (plan_hunt-Keeps e h)
            (λ why _. Keeps-fail (bad_request why))))
        (Keeps-fail _)

pub set_completed-IsQuiet :
    (sc : Scanner) (t id : ℕ) (n : Counters) → IsQuiet (set_completed sc t id n)
set_completed-IsQuiet sc t id n = record {
  id = λ h. refl;
  tenant_id = λ h. refl;
  digest = λ h. refl;
}

module _ {P : Store → Type 0} (st : IsStable P) (sc : Scanner) (t id : ℕ) where
  pub finish-Keeps : (n : Counters) → Keeps P (finish sc t id n)
  unfolding finish
  finish-Keeps n =
      Keeps-bind _ _ (Keeps-update_hunt st _ t id (set_completed-IsQuiet sc t id n))
        λ _. Keeps-bind _ _ (Keeps-attempt _ (Keeps-update_job st _ id)) λ _. get_hunt-Keeps st t id

  pub check_tier-Keeps : Keeps P (check_tier sc t id)
  unfolding check_tier
  check_tier-Keeps =
      Keeps-option sc.engine.tier_refused _
        (λ why. execute (update_hunt (set_failed sc.engine.now why) t id) >> fail (bad_request why))
        (Keeps-pure tt)
        (λ why _.
          Keeps-bind _ _ (Keeps-update_hunt st _ t id (set_failed-IsQuiet sc.engine.now why))
            (λ _. Keeps-fail (bad_request why)))

-- The matches are free too.
module _ {P : Store → Type 0} (st : IsStable P)
    (free : (m : HuntMatch) (s : Store) → P s → P (commit_match m s)) (t id a : ℕ) where
  commit_and_fire-Keeps :
      (r : String) (m : MatchSummary) (n : Counters) → Keeps P (commit_and_fire t id a r m n)
  unfolding commit_and_fire
  commit_and_fire-Keeps r m n =
      Keeps-bind _ _ (Keeps-execute _ (free _))
        λ _. Keeps-bind _ _ (fire-Keeps st t id a r) λ _. Keeps-pure _

  replay_matches-Keeps : (ids : List String) (n : Counters) → Keeps P (replay_matches t id a ids n)
  unfolding replay_matches
  replay_matches-Keeps [] n = Keeps-pure _
  replay_matches-Keeps (r ∷ ids) n =
      Keeps-bind _ _ (commit_and_fire-Keeps r cached n) (λ n'. replay_matches-Keeps ids n')

  commit_matches-Keeps :
      (ms : List RuleMatchEvidence) (n : Counters) → Keeps P (commit_matches t id a ms n)
  unfolding commit_matches
  commit_matches-Keeps [] n = Keeps-pure _
  commit_matches-Keeps (m ∷ ms) n =
      Keeps-bind _ _ (commit_and_fire-Keeps m.rule_id (evidence m) n)
        (λ n'. commit_matches-Keeps ms n')

  pub replay-Keeps :
      (ids : List String) (n : Counters) (status : ScanStatus)
      → Keeps P (replay t id a ids n status)
  unfolding replay
  replay-Keeps ids n timeout = Keeps-pure _
  replay-Keeps ids n error = Keeps-pure _
  replay-Keeps ids n clean = Keeps-pure _
  replay-Keeps ids n matched = replay_matches-Keeps ids n

  pub count_scan-Keeps :
      (digest : String) (ms : List RuleMatchEvidence) (n : Counters) (status : ScanStatus)
      → Keeps P (count_scan t id digest a ms n status)
  unfolding count_scan
  count_scan-Keeps digest ms n timeout = Keeps-pure _
  count_scan-Keeps digest ms n error = Keeps-pure _
  count_scan-Keeps digest ms n clean = Keeps-pure _
  count_scan-Keeps digest ms n matched =
      Keeps-bind _ _ (Keeps-record_detection st _) (λ _. commit_matches-Keeps ms _)
