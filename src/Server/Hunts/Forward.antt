-- ===== src/Server/Hunts/Forward.antt =====
-- hunts.rs: `forward_scan`, the scan of new bytes by every active bundle.
pub mod Again
use corpus.Prelude.{
  ℕ, ◌+◌, Bool, true, false, ◌&&◌, Option, none, some, String, List, [], ◌∷◌, ◌++◌, map, length,
  ◌==◌, if◌then◌else◌, keep_if, find?,
}
use corpus.Agent.Spool.{Bytes}
use corpus.Server.Hunts.{
  HuntKind, retro, forward, Counters, HuntRow, ScanCacheKey, ScanStatus, clean, matched, timeout,
  error, CacheEntry, Bundle, RuleMatchEvidence, evidence, DetectionEvent, Store, update_hunt,
  bundle_sources, commit_cache_entry, commit_match, record_detection,
}
use corpus.Server.Hunts.Actions.{
  rule_compile, Action, pure, fail, ◌>>=◌, ◌>>◌, query, execute, attempt,
}
use corpus.Server.Hunts.Scan.{
  Config, scan_cache_key, ScanOutcome, rule_ids, entry_of, cache_lookup, fire_hunt_match,
  hunt_match,
}

-- The compiler's diagnostics, and what `scan_with_tier` answers for a bundle and the bytes.
pub record BundleScanner : Type 0 where
  pub config : Config
  pub compile_bundle : List (String × String) → Option String
  pub scan : List (String × String) → Bytes → ScanOutcome

-- The new bytes.
pub record Committed : Type 0 where
  pub tenant_id : ℕ
  pub artifact_id : ℕ
  pub sha256 : Bytes
  pub bytes : Bytes

-- WHERE tenant_id = $1 AND active
unfoldable pub active_bundles : ℕ → Store → List (ℕ × String)
active_bundles tenant_id s =
    map (λ b. (b.id, b.digest)) (keep_if (λ b. (b.tenant_id == tenant_id) && b.active) s.bundles)

-- WHERE tenant_id = $1 AND bundle_id = $2 AND kind = 'forward'
unfoldable pub find_forward : ℕ → ℕ → Store → Option ℕ
find_forward tenant_id bundle_id s =
    elim (find? (λ h. (h.tenant_id == tenant_id) && (h.bundle_id == bundle_id) && not_retro h.kind)
      s.hunts) [ none ↦ none | some h ↦ some h.id ]
  where
    not_retro : HuntKind → Bool
    not_retro forward = true
    not_retro retro = false

-- SET scanned = scanned + $2, matched = matched + $3, …
unfoldable pub add_outcome : ScanOutcome → HuntRow → HuntRow
add_outcome o h = record h { counters = counted o.status }
  where
    counted : ScanStatus → Counters
    counted timeout = record h.counters { timed_out = h.counters.timed_out + 1 }
    counted error = record h.counters { failed = h.counters.failed + 1 }
    counted _ = record h.counters {
      scanned = h.counters.scanned + 1;
      matched = h.counters.matched + length o.matches;
    }

module _ (sc : BundleScanner) (new : Committed) where
  unfoldable pub commit_forward : ℕ → List RuleMatchEvidence → Action (Unit {0})
  commit_forward hunt_id [] = pure tt
  commit_forward hunt_id (m ∷ ms) = do
    execute (commit_match (hunt_match new.tenant_id hunt_id new.artifact_id m.rule_id (evidence m)))
    commit_forward hunt_id ms

  -- The matches and the counters of the forward hunt, where there is one.
  unfoldable pub record_forward : ScanOutcome → Option ℕ → Action (Unit {0})
  unfolding commit_forward
  record_forward o none = pure tt
  record_forward o (some hunt_id) = do
    commit_forward hunt_id o.matches
    execute (update_hunt (add_outcome o) new.tenant_id hunt_id)

  unfoldable pub fire_one : RuleMatchEvidence → Option ℕ → Action (Unit {0})
  unfolding fire_hunt_match
  fire_one m none = pure tt
  fire_one m (some hunt_id) =
      attempt (fire_hunt_match new.tenant_id hunt_id new.artifact_id m.rule_id)

  unfoldable pub fire_forward : ℕ → List RuleMatchEvidence → Action (Unit {0})
  unfolding fire_one
  fire_forward bundle_id [] = pure tt
  fire_forward bundle_id (m ∷ ms) = do
    hunt ← query (find_forward new.tenant_id bundle_id)
    fire_one m hunt
    fire_forward bundle_id ms

  abbrev pub forward_detection : String → List String → DetectionEvent
  forward_detection digest rules = record {
    tenant_id = new.tenant_id;
    artifact_id = new.artifact_id;
    source = "forward_scan";
    severity = "medium";
    bundle_digest = digest;
    rules = rules;
  }

  -- Where no rule matched, nothing is told.
  unfoldable pub tell : ℕ → String → List RuleMatchEvidence → Action (List String)
  unfolding fire_forward
  tell bundle_id digest [] = pure []
  tell bundle_id digest (m ∷ ms) = do
    attempt (execute (record_detection (forward_detection digest (rule_ids (m ∷ ms)))))
    fire_forward bundle_id (m ∷ ms)
    pure (rule_ids (m ∷ ms))

  unfoldable pub forward_key : String → ScanCacheKey
  unfolding scan_cache_key
  forward_key digest = scan_cache_key sc.config new.tenant_id new.sha256 digest

  unfoldable pub forward_compiled : List (String × String) → Action (Unit {0})
  forward_compiled sources = elim (sc.compile_bundle sources) [
    | none ↦ pure tt
    | some message ↦ fail (rule_compile message)
  ]

  unfoldable pub scan_forward : ℕ → String → Action (List String)
  unfolding forward_compiled record_forward tell
  scan_forward bundle_id digest = do
    sources ← query (bundle_sources new.tenant_id bundle_id)
    forward_compiled sources
    let o = sc.scan sources new.bytes
    execute (commit_cache_entry (forward_key digest) (entry_of o))
    hunt ← query (find_forward new.tenant_id bundle_id)
    record_forward o hunt
    tell bundle_id digest o.matches

  -- A bundle whose scan is in the cache is passed over.
  unfoldable pub forward_lookup : ℕ → String → Option CacheEntry → Action (List String)
  unfolding scan_forward
  forward_lookup bundle_id digest (some hit) = pure []
  forward_lookup bundle_id digest none = scan_forward bundle_id digest

  unfoldable pub forward_all : List (ℕ × String) → Action (List String)
  unfolding forward_lookup forward_key cache_lookup
  forward_all [] = pure []
  forward_all ((bundle_id, digest) ∷ bundles) = do
    hit ← cache_lookup (forward_key digest)
    ids ← forward_lookup bundle_id digest hit
    later ← forward_all bundles
    pure (ids ++ later)

  unfoldable pub forward_scan : Action (List String)
  unfolding forward_all active_bundles
  forward_scan = do bundles ← query (active_bundles new.tenant_id); forward_all bundles
