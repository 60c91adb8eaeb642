-- ===== src/Server/Hunts/Run.antt =====
-- hunts.rs: `execute_hunt`.
use corpus.Prelude.{ℕ, ◌+◌, ◌||◌, Option, none, some, String, List, [], ◌∷◌, ltb, if◌then◌else◌}
use corpus.Prelude.Results.{Result, ok, err}
use corpus.Agent.Spool.{Bytes}
use corpus.Server.Cas.{FsCas, CasError, read}
use corpus.Server.Hunts.{
  HuntState, completed, completed_partial, Counters, zero_counters, HuntRow, ScanCacheKey,
  ScanStatus, clean, matched, timeout, error, CacheEntry, RuleMatchEvidence, MatchSummary, cached,
  evidence, StoredArtifact, DetectionEvent, update_hunt, update_job, bundle_sources,
  planned_artifacts, commit_cache_entry, commit_match, record_detection,
}
use corpus.Server.Hunts.Actions.{
  bad_request, Action, pure, fail, ◌>>=◌, ◌>>◌, query, execute, attempt,
}
use corpus.Server.Hunts.Queue.{
  Engine, get_hunt, enqueue_hunt, set_failed, set_running, set_claimed, is_retro, bundle_of,
  compiled,
}
use corpus.Server.Hunts.Scan.{
  Config, scan_cache_key, ScanOutcome, rule_ids, entry_of, cache_lookup, fire_hunt_match,
  hunt_match,
}

-- The engine, the object store, and what `scan_with_tier` answers for an artifact's bytes.
pub record Scanner : Type 0 where
  pub engine : Engine
  pub config : Config
  pub cas : FsCas
  pub unreadable_message : String
  pub scan : ℕ → Bytes → ScanOutcome

abbrev pub count_match : Counters → Counters
count_match c = record c { matched = c.matched + 1 }

-- SET scanned = $3, cache_hits = $4, …
abbrev pub set_counters : Counters → HuntRow → HuntRow
set_counters c h = record h { counters = c }

-- COMPLETED_PARTIAL when anything timed out or failed.
unfoldable pub final_state : Counters → HuntState
final_state c = if ltb 0 c.timed_out || ltb 0 c.failed then completed_partial else completed

module _ (tenant_id hunt_id : ℕ) where
  -- One match: its row, its count, and its event.
  unfoldable pub commit_and_fire : ℕ → String → MatchSummary → Counters → Action Counters
  unfolding fire_hunt_match
  commit_and_fire artifact_id rule_id summary c = do
    execute (commit_match (hunt_match tenant_id hunt_id artifact_id rule_id summary))
    fire_hunt_match tenant_id hunt_id artifact_id rule_id
    pure (count_match c)

  unfoldable pub replay_matches : ℕ → List String → Counters → Action Counters
  unfolding commit_and_fire
  replay_matches artifact_id [] c = pure c
  replay_matches artifact_id (rule_id ∷ ids) c = do
    c' ← commit_and_fire artifact_id rule_id cached c
    replay_matches artifact_id ids c'

  unfoldable pub commit_matches : ℕ → List RuleMatchEvidence → Counters → Action Counters
  unfolding commit_and_fire
  commit_matches artifact_id [] c = pure c
  commit_matches artifact_id (m ∷ ms) c = do
    c' ← commit_and_fire artifact_id m.rule_id (evidence m) c
    commit_matches artifact_id ms c'

  -- A hit of the cache, which is counted before: no byte is read.
  unfoldable pub replay : ℕ → List String → Counters → ScanStatus → Action Counters
  unfolding replay_matches
  replay artifact_id ids c timeout = pure (record c { timed_out = c.timed_out + 1 })
  replay artifact_id ids c error = pure (record c { failed = c.failed + 1 })
  replay artifact_id ids c matched = replay_matches artifact_id ids c
  replay artifact_id ids c clean = pure c

  unfoldable pub detection : String → ℕ → List String → DetectionEvent
  detection digest artifact_id rules = record {
    tenant_id = tenant_id;
    artifact_id = artifact_id;
    source = "retro_hunt";
    severity = "high";
    bundle_digest = digest;
    rules = rules;
  }

  unfoldable pub count_scan :
      String → ℕ → List RuleMatchEvidence → Counters → ScanStatus → Action Counters
  unfolding commit_matches detection
  count_scan digest artifact_id ms c matched = do
    attempt (execute (record_detection (detection digest artifact_id (rule_ids ms))))
    commit_matches artifact_id ms (record c { scanned = c.scanned + 1 })
  count_scan digest artifact_id ms c clean = pure (record c { scanned = c.scanned + 1 })
  count_scan digest artifact_id ms c timeout = pure (record c { timed_out = c.timed_out + 1 })
  count_scan digest artifact_id ms c error = pure (record c { failed = c.failed + 1 })

-- The text of the error is the display of `Error::Io`.
abbrev pub unreadable : String → CacheEntry
unreadable message = record {
  status = error;
  matched_rule_ids = [];
  duration_ms = 0;
  error_code = some message;
}

module _ (sc : Scanner) (tenant_id hunt_id : ℕ) where
  unfoldable pub scan_object :
      String → ScanCacheKey → ℕ → Counters → Result CasError Bytes → Action Counters
  unfolding count_scan entry_of
  scan_object digest key artifact_id c (ok bytes) = do
    let o = sc.scan artifact_id bytes
    execute (commit_cache_entry key (entry_of o))
    count_scan tenant_id hunt_id digest artifact_id o.matches c o.status
  scan_object digest key artifact_id c (err e) = do
    execute (commit_cache_entry key (unreadable sc.unreadable_message))
    pure (record c { failed = c.failed + 1 })

  unfoldable pub visit_lookup :
      String → ScanCacheKey → StoredArtifact → Counters → Option CacheEntry → Action Counters
  unfolding replay scan_object
  visit_lookup digest key a c (some hit) =
      replay tenant_id hunt_id a.id hit.matched_rule_ids
        (record c { cache_hits = c.cache_hits + 1 }) hit.status
  visit_lookup digest key a c none = scan_object digest key a.id c (read a.object_key sc.cas)

  unfoldable pub key_of : String → StoredArtifact → ScanCacheKey
  unfolding scan_cache_key
  key_of digest a = scan_cache_key sc.config tenant_id a.sha256 digest

  -- One turn of the loop.
  unfoldable pub visit : String → StoredArtifact → Counters → Action Counters
  unfolding visit_lookup cache_lookup
  visit digest a c = do
    hit ← cache_lookup (key_of digest a)
    c' ← visit_lookup digest (key_of digest a) a c hit
    execute (update_hunt (set_counters c') tenant_id hunt_id)
    pure c'

  unfoldable pub visit_all : String → List StoredArtifact → Counters → Action Counters
  visit_all digest [] c = pure c
  visit_all digest (a ∷ artifacts) c = do c' ← visit digest a c; visit_all digest artifacts c'

  abbrev pub set_completed : Counters → HuntRow → HuntRow
  set_completed c h = record h { state = final_state c; completed_at = some sc.engine.now }

  unfoldable pub finish : Counters → Action HuntRow
  unfolding get_hunt
  finish c = do
    execute (update_hunt (set_completed c) tenant_id hunt_id)
    attempt (execute (update_job (λ j. record j { finished_at = some sc.engine.now }) hunt_id))
    get_hunt tenant_id hunt_id

  -- From RUNNING on.
  unfoldable pub run_loop : HuntRow → ℕ → Action HuntRow
  unfolding visit_all finish
  run_loop h watermark = do
    execute (update_hunt (set_running sc.engine.now) tenant_id hunt_id)
    attempt (execute (update_job (set_claimed sc.engine.now "local-worker") hunt_id))
    artifacts ← query (planned_artifacts tenant_id watermark)
    c ← visit_all h.bundle_digest artifacts zero_counters
    finish c

  unfoldable pub check_tier : Action (Unit {0})
  check_tier = elim sc.engine.tier_refused [
    | none ↦ pure tt
    | some message ↦ do
      execute (update_hunt (set_failed sc.engine.now message) tenant_id hunt_id)
      fail (bad_request message)
  ]

  abbrev pub pinned : HuntRow → Action ℕ
  pinned h = elim h.corpus_watermark [
    | none ↦ fail (bad_request "hunt has no corpus_watermark; call enqueue/run first")
    | some w ↦ pure w
  ]

  unfoldable pub execute_retro : HuntRow → Action HuntRow
  unfolding bundle_of compiled check_tier run_loop
  execute_retro h = do
    bundle_id ← bundle_of sc.engine tenant_id hunt_id
    sources ← query (bundle_sources tenant_id bundle_id)
    compiled sc.engine tenant_id hunt_id sources
    watermark ← pinned h
    check_tier
    run_loop h watermark

  unfoldable pub execute_found : HuntRow → Action HuntRow
  unfolding execute_retro
  execute_found h =
      if is_retro h.kind
      then execute_retro h
      else fail (bad_request "only retro hunts are run explicitly")

  unfoldable pub execute_hunt : Action HuntRow
  unfolding execute_found get_hunt
  execute_hunt = do h ← get_hunt tenant_id hunt_id; execute_found h

  -- `run_hunt`: the answer of the first is not used.
  unfoldable pub run_hunt : Action HuntRow
  unfolding enqueue_hunt execute_hunt
  run_hunt = do enqueue_hunt sc.engine tenant_id hunt_id; execute_hunt
