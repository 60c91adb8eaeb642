-- ===== src/Server/Hunts.antt =====
-- crates/corpus-core/src/hunts.rs, and what it calls of scan.rs, registry.rs, detect.rs and
-- triggers.rs: the tables that a hunt reads and writes, and its statements.
-- The YARA engine is a parameter of the operations. Uuids are numbers, and new ones are counted up.
-- Of the JSON columns only what is read again, or names the row, is kept.
pub mod Actions
pub mod Queue
pub mod Scan
pub mod Run
pub mod Forward
pub mod Stable
pub mod Sound
pub mod Replay
pub mod Complete
use corpus.Prelude.{
  ℕ, ◌+◌, Bool, true, false, ◌&&◌, ◌||◌, not, Option, none, some, String, List, [], ◌∷◌, ◌++◌, map,
  length, leb, ◌==◌, str_eq, if◌then◌else◌, keep_if, any, find?,
}
use corpus.Agent.Spool.{Bytes}
use corpus.Server.Cas.{ObjectKey, text_eq}

pub data HuntKind : Type 0 where
  retro forward : HuntKind

pub data HuntState : Type 0 where
  draft validating planned queued running completed completed_partial failed : HuntState
  active_forward : HuntState

-- The counters of a hunt.
pub record Counters : Type 0 where
  pub scanned : ℕ
  pub cache_hits : ℕ
  pub matched : ℕ
  pub timed_out : ℕ
  pub failed : ℕ

abbrev pub zero_counters : Counters
zero_counters = record { scanned = 0; cache_hits = 0; matched = 0; timed_out = 0; failed = 0 }

pub record HuntRow : Type 0 where
  pub id : ℕ
  pub tenant_id : ℕ
  pub kind : HuntKind
  pub bundle_id : ℕ
  pub bundle_digest : String
  pub state : HuntState
  pub corpus_watermark : Option ℕ
  pub planned_artifacts : ℕ
  pub counters : Counters
  pub error : Option String
  pub created_at : ℕ
  pub started_at : Option ℕ
  pub completed_at : Option ℕ

pub record HuntJob : Type 0 where
  pub hunt_id : ℕ
  pub tenant_id : ℕ
  pub enqueued_at : ℕ
  pub claimed_at : Option ℕ
  pub claimed_by : Option String
  pub finished_at : Option ℕ

pub record ScanCacheKey : Type 0 where
  pub tenant_id : ℕ
  pub artifact_sha256 : Bytes
  pub rule_bundle_digest : String
  pub engine_version : String
  pub scan_config_digest : String

pub data ScanStatus : Type 0 where
  clean matched timeout error : ScanStatus

pub record CacheEntry : Type 0 where
  pub status : ScanStatus
  pub matched_rule_ids : List String
  pub duration_ms : ℕ
  pub error_code : Option String

pub record PatternEvidence : Type 0 where
  pub identifier : String
  pub offset : ℕ
  pub length : ℕ

pub record RuleMatchEvidence : Type 0 where
  pub rule_id : String
  pub namespace : String
  pub patterns : List PatternEvidence

pub data MatchSummary : Type 0 where
  cached : MatchSummary
  evidence : RuleMatchEvidence → MatchSummary

pub record HuntMatch : Type 0 where
  pub hunt_id : ℕ
  pub tenant_id : ℕ
  pub artifact_id : ℕ
  pub rule_id : String
  pub match_summary : MatchSummary

-- The columns of `artifact` that a hunt reads.
pub record StoredArtifact : Type 0 where
  pub id : ℕ
  pub tenant_id : ℕ
  pub sha256 : Bytes
  pub object_key : ObjectKey
  pub scope : String
  pub seq : ℕ
  pub is_committed : Bool

-- A row of `rule_bundle`, with the sources of its rules in their order.
pub record Bundle : Type 0 where
  pub id : ℕ
  pub tenant_id : ℕ
  pub digest : String
  pub active : Bool
  pub sources : List (String × String)

pub record DetectionEvent : Type 0 where
  pub tenant_id : ℕ
  pub artifact_id : ℕ
  pub source : String
  pub severity : String
  pub bundle_digest : String
  pub rules : List String

pub record TriggerRule : Type 0 where
  pub id : ℕ
  pub tenant_id : ℕ
  pub condition : String
  pub enabled : Bool

-- The event of `fire_hunt_match`.
pub record MatchEvent : Type 0 where
  pub hunt_id : ℕ
  pub artifact_id : ℕ
  pub rule_id : String

pub record OutboxRow : Type 0 where
  pub tenant_id : ℕ
  pub trigger_id : ℕ
  pub event : MatchEvent

pub record Store : Type 0 where
  pub artifacts : List StoredArtifact
  pub bundles : List Bundle
  pub hunts : List HuntRow
  pub jobs : List HuntJob
  pub cache : ScanCacheKey → Option CacheEntry
  pub matches : List HuntMatch
  pub detections : List DetectionEvent
  pub triggers : List TriggerRule
  pub outbox : List OutboxRow
  pub next_id : ℕ

-- WHERE id = $1 AND tenant_id = $2
unfoldable pub is_hunt : ℕ → ℕ → HuntRow → Bool
is_hunt tenant_id id h = (h.id == id) && (h.tenant_id == tenant_id)

unfoldable pub find_hunt : ℕ → ℕ → Store → Option HuntRow
find_hunt tenant_id id s = find? (is_hunt tenant_id id) s.hunts

-- UPDATE hunt SET … WHERE id = $1 AND tenant_id = $2
unfoldable pub update_hunts : (HuntRow → HuntRow) → ℕ → ℕ → List HuntRow → List HuntRow
update_hunts f tenant_id id [] = []
update_hunts f tenant_id id (h ∷ rows) =
    (if is_hunt tenant_id id h then f h else h) ∷ update_hunts f tenant_id id rows

unfoldable pub update_hunt : (HuntRow → HuntRow) → ℕ → ℕ → Store → Store
update_hunt f tenant_id id s = record s { hunts = update_hunts f tenant_id id s.hunts }

-- UPDATE hunt_job SET … WHERE hunt_id = $1
unfoldable pub update_jobs : (HuntJob → HuntJob) → ℕ → List HuntJob → List HuntJob
update_jobs f id [] = []
update_jobs f id (j ∷ rows) = (if j.hunt_id == id then f j else j) ∷ update_jobs f id rows

unfoldable pub update_job : (HuntJob → HuntJob) → ℕ → Store → Store
update_job f id s = record s { jobs = update_jobs f id s.jobs }

-- WHERE tenant_id = $1 AND digest = $2
unfoldable pub find_bundle : ℕ → String → Store → Option Bundle
find_bundle tenant_id digest s =
    find? (λ b. (b.tenant_id == tenant_id) && str_eq b.digest digest) s.bundles

-- `registry::bundle_sources`: no row joins, so no source, where there is no bundle.
unfoldable pub bundle_sources : ℕ → ℕ → Store → List (String × String)
bundle_sources tenant_id id s =
    elim (find? (λ b. (b.id == id) && (b.tenant_id == tenant_id)) s.bundles) [
      | none ↦ []
      | some b ↦ b.sources
    ]

-- The test of the primary key, column by column.
unfoldable pub same_key : ScanCacheKey → ScanCacheKey → Bool
same_key a b =
    (a.tenant_id == b.tenant_id)
    && text_eq a.artifact_sha256 b.artifact_sha256
    && str_eq a.rule_bundle_digest b.rule_bundle_digest
    && str_eq a.engine_version b.engine_version
    && str_eq a.scan_config_digest b.scan_config_digest

-- `commit_cache_entry`: INSERT … ON CONFLICT … DO NOTHING
unfoldable pub commit_cache_entry : ScanCacheKey → CacheEntry → Store → Store
commit_cache_entry key entry s = record s {
  cache = λ k. elim (s.cache k) [
    | some old ↦ some old
    | none ↦ if same_key k key then some entry else none
  ];
}

-- ON CONFLICT (hunt_id, artifact_id, rule_id)
unfoldable pub same_match : HuntMatch → HuntMatch → Bool
same_match m n =
    (m.hunt_id == n.hunt_id) && (m.artifact_id == n.artifact_id) && str_eq m.rule_id n.rule_id

-- `commit_match`: INSERT … ON CONFLICT … DO NOTHING
unfoldable pub commit_match : HuntMatch → Store → Store
unfolding same_match
commit_match m s = if any (same_match m) s.matches then s else record s { matches = m ∷ s.matches }

-- `detect::record`
unfoldable pub record_detection : DetectionEvent → Store → Store
record_detection e s = record s { detections = e ∷ s.detections }

-- storage_state = 'committed' AND scope = 'endpoint' AND seq <= $2
unfoldable pub is_planned : ℕ → ℕ → StoredArtifact → Bool
is_planned tenant_id watermark a =
    (a.tenant_id == tenant_id) && a.is_committed && str_eq a.scope "endpoint" && leb a.seq watermark

-- ORDER BY seq
unfoldable pub insert_by_seq : StoredArtifact → List StoredArtifact → List StoredArtifact
insert_by_seq a [] = a ∷ []
insert_by_seq a (b ∷ rows) =
    let rest = insert_by_seq a rows in if leb a.seq b.seq then a ∷ b ∷ rows else b ∷ rest

unfoldable pub order_by_seq : List StoredArtifact → List StoredArtifact
unfolding insert_by_seq
order_by_seq [] = []
order_by_seq (a ∷ rows) = insert_by_seq a (order_by_seq rows)

unfoldable pub planned_artifacts : ℕ → ℕ → Store → List StoredArtifact
unfolding order_by_seq is_planned
planned_artifacts tenant_id watermark s =
    order_by_seq (keep_if (is_planned tenant_id watermark) s.artifacts)

-- SELECT COALESCE(MAX(seq), 0) … storage_state = 'committed'
unfoldable pub max_seq : ℕ → List StoredArtifact → ℕ
max_seq tenant_id [] = 0
max_seq tenant_id (a ∷ rows) =
    let rest = max_seq tenant_id rows in
    if (a.tenant_id == tenant_id) && a.is_committed && leb rest a.seq then a.seq else rest
