-- ===== src/Server/Hunts/Scan.antt =====
-- scan.rs: the key of the scan cache, and what becomes of a scan by the YARA engine. hunts.rs:
-- `cache_lookup`, `fire_hunt_match`, and what the two scans of hunts.rs share.
use corpus.Prelude.{
  ℕ, Bool, ◌&&◌, Option, none, some, String, List, [], ◌∷◌, ◌++◌, map, take, ◌==◌, str_eq,
  if◌then◌else◌, keep_if,
}
use corpus.Prelude.Results.{Result, ok, err}
use corpus.Agent.Spool.{Bytes}
use corpus.Server.Hunts.{
  ScanCacheKey, ScanStatus, clean, matched, timeout, error, CacheEntry, PatternEvidence,
  RuleMatchEvidence, MatchSummary, HuntMatch, TriggerRule, MatchEvent, Store,
}
use corpus.Server.Hunts.Actions.{Action, pure, ◌>>=◌, ◌>>◌, query, execute}

-- ENGINE_VERSION and `scan_config_digest()`.
pub record Config : Type 0 where
  pub engine_version : String
  pub scan_config_digest : String

unfoldable pub scan_cache_key : Config → ℕ → Bytes → String → ScanCacheKey
scan_cache_key c tenant_id sha256 digest = record {
  tenant_id = tenant_id;
  artifact_sha256 = sha256;
  rule_bundle_digest = digest;
  engine_version = c.engine_version;
  scan_config_digest = c.scan_config_digest;
}

pub record ScanOutcome : Type 0 where
  pub status : ScanStatus
  pub matches : List RuleMatchEvidence
  pub duration_ms : ℕ
  pub error_code : Option String

-- A rule that the engine reports: its names, and for each pattern the ranges where it matched.
pub record MatchingRule : Type 0 where
  pub identifier : String
  pub namespace : String
  pub patterns : List (String × List (ℕ × ℕ))

-- `for m in pat.matches()`
unfoldable pub pattern_evidence : String → List (ℕ × ℕ) → List PatternEvidence
pattern_evidence name [] = []
pattern_evidence name ((start, len) ∷ ranges) =
    record { identifier = name; offset = start; length = len } ∷ pattern_evidence name ranges

-- `for pat in rule.patterns()`, at most 64 matches of each.
unfoldable pub patterns_evidence : List (String × List (ℕ × ℕ)) → List PatternEvidence
unfolding pattern_evidence
patterns_evidence [] = []
patterns_evidence ((name, ranges) ∷ patterns) =
    pattern_evidence name (take 64 ranges) ++ patterns_evidence patterns

unfoldable pub rule_evidence : MatchingRule → RuleMatchEvidence
unfolding patterns_evidence
rule_evidence r = record {
  rule_id = r.identifier;
  namespace = r.namespace;
  patterns = patterns_evidence r.patterns;
}

-- `scan_bytes`, after `scanner.scan`. An error is its text, and whether that names a timeout.
unfoldable pub outcome_of : ℕ → Result (String × Bool) (List MatchingRule) → ScanOutcome
unfolding rule_evidence
outcome_of elapsed (ok rules) = record {
  status = elim rules [ [] ↦ clean | r ∷ rs ↦ matched ];
  matches = map rule_evidence rules;
  duration_ms = elapsed;
  error_code = none;
}
outcome_of elapsed (err (message, is_timeout)) = record {
  status = if is_timeout then timeout else error;
  matches = [];
  duration_ms = elapsed;
  error_code = some message;
}

abbrev pub rule_ids : List RuleMatchEvidence → List String
rule_ids ms = map (λ m. m.rule_id) ms

unfoldable pub entry_of : ScanOutcome → CacheEntry
entry_of o = record {
  status = o.status;
  matched_rule_ids = rule_ids o.matches;
  duration_ms = o.duration_ms;
  error_code = o.error_code;
}

unfoldable pub cache_lookup : ScanCacheKey → Action (Option CacheEntry)
cache_lookup key = query (λ s. s.cache key)

-- WHERE tenant_id = $1 AND condition = $2 AND enabled
unfoldable pub enabled_triggers : ℕ → String → Store → List TriggerRule
enabled_triggers tenant_id condition s =
    keep_if (λ t. (t.tenant_id == tenant_id) && str_eq t.condition condition && t.enabled)
      s.triggers

unfoldable pub queue_event : ℕ → MatchEvent → List TriggerRule → Action (Unit {0})
queue_event tenant_id event [] = pure tt
queue_event tenant_id event (t ∷ triggers) = do
  execute (λ s. record s {
    outbox = record { tenant_id = tenant_id; trigger_id = t.id; event = event } ∷ s.outbox;
  })
  queue_event tenant_id event triggers

-- `triggers::fire`
unfoldable pub fire : ℕ → String → MatchEvent → Action (Unit {0})
unfolding queue_event enabled_triggers
fire tenant_id condition event = do
  triggers ← query (enabled_triggers tenant_id condition)
  queue_event tenant_id event triggers

unfoldable pub fire_hunt_match : ℕ → ℕ → ℕ → String → Action (Unit {0})
unfolding fire
fire_hunt_match tenant_id hunt_id artifact_id rule_id =
    fire tenant_id "hunt_match"
      (record { hunt_id = hunt_id; artifact_id = artifact_id; rule_id = rule_id })

abbrev pub hunt_match : ℕ → ℕ → ℕ → String → MatchSummary → HuntMatch
hunt_match tenant_id hunt_id artifact_id rule_id summary = record {
  hunt_id = hunt_id;
  tenant_id = tenant_id;
  artifact_id = artifact_id;
  rule_id = rule_id;
  match_summary = summary;
}
