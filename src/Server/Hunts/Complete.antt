-- ===== src/Server/Hunts/Complete.antt =====
-- hunts.rs: a hunt in which every statement goes through: what its later stores keep.
pub mod Loop
pub mod Run
use corpus.Prelude.{
  ℕ, ◌+◌, ◌≡◌, refl, sym, ap, ◌∙◌, arith, Bool, true, false, ◌||◌, Bool-cases, inl, inr, Option,
  none, some, Option-cases, String, List, [], ◌∷◌, ltb, any, All, find?, if◌then◌else◌,
}
use corpus.Prelude.Results.{Result, ok, err}
use corpus.Agent.Spool.{Bytes}
use corpus.Server.Cas.{CasError, read}
use corpus.Server.Hunts.{
  HuntKind, retro, forward, HuntState, completed, completed_partial, Counters, zero_counters,
  HuntRow, HuntMatch, ScanCacheKey, ScanStatus, clean, matched, timeout, error, CacheEntry,
  MatchSummary, cached, evidence, RuleMatchEvidence, StoredArtifact, MatchEvent, TriggerRule, Store,
  is_hunt, find_hunt, update_hunts, update_hunt, update_job, same_match, commit_match,
  commit_cache_entry, bundle_sources, planned_artifacts,
}
use corpus.Server.Hunts.Actions.{World, Action, pure, ◌>>=◌, ◌>>◌, query, execute, attempt}
use corpus.Server.Hunts.Actions.Rules.{Keeps, Keeps-execute, Keeps-bind, Keeps-pure}
use corpus.Server.Hunts.Actions.Runs.{
  quiet, Runs, Runs-pure, Runs-query, Runs-execute, Runs-attempt, Runs-imp, Runs-Keeps, Runs-bind,
}
use corpus.Server.Hunts.Queue.{found, get_hunt, bundle_of, compiled, is_retro, set_running}
use corpus.Server.Hunts.Scan.{
  ScanOutcome, entry_of, cache_lookup, queue_event, fire, fire_hunt_match, hunt_match,
}
use corpus.Server.Hunts.Run.{
  Scanner, set_counters, commit_and_fire, replay_matches, commit_matches, replay, count_scan,
  unreadable, scan_object, key_of, visit_lookup, visit, visit_all, final_state, finish, check_tier,
  execute_found, execute_hunt,
}
use corpus.Server.Hunts.Stable.{
  IsQuiet, IsStable, Keeps-update_hunt, Keeps-update_job, set_running-IsQuiet, set_counters-IsQuiet,
  replay-Keeps, count_scan-Keeps,
}
use corpus.Server.Hunts.Sound.Steps.{cache-commit_cache_entry}
use corpus.Server.Hunts.Replay.{IsCovered}

-- Later in a hunt: the hunt is still there, and no scan is forgotten.
pub record IsLater (t id : ℕ) (s₀ s : Store) : Type 0 where
  pub artifacts : s.artifacts ≡ s₀.artifacts
  pub cache : (k : ScanCacheKey) (e : CacheEntry) → s₀.cache k ≡ some e → s.cache k ≡ some e
  pub hunt :
      (h : HuntRow) → find_hunt t id s₀ ≡ some h → (h' : HuntRow) × (find_hunt t id s ≡ some h')

module _ (f : HuntRow → HuntRow) (t id : ℕ) (q : IsQuiet f) where
  is_hunt-update :
      (t' id' : ℕ) (g : HuntRow)
      → is_hunt t' id' (if is_hunt t id g then f g else g) ≡ is_hunt t' id' g
  unfolding is_hunt
  is_hunt-update t' id' g = ground (arith, q.id g, q.tenant_id g)

  find-update_hunts :
      (t' id' : ℕ) (rows : List HuntRow) (h : HuntRow)
      → find? (is_hunt t' id') rows ≡ some h
      → (h' : HuntRow) × (find? (is_hunt t' id') (update_hunts f t id rows) ≡ some h')
  unfolding update_hunts
  find-update_hunts t' id' [] h e = cc
  find-update_hunts t' id' (g ∷ rows) h e = elim (Bool-cases (is_hunt t' id' g)) [
    | inl hit ↦ (if is_hunt t id g then f g else g, rw (is_hunt-update t' id' g, hit) refl)
    | inr miss ↦
        rw (is_hunt-update t' id' g, miss)
          (find-update_hunts t' id' rows h (ground (arith, miss, e)))
  ]

  pub find-update_hunt_self :
      (rows : List HuntRow) (h : HuntRow)
      → find? (is_hunt t id) rows ≡ some h
      → find? (is_hunt t id) (update_hunts f t id rows) ≡ some (f h)
  unfolding update_hunts is_hunt
  find-update_hunt_self [] h e = cc
  find-update_hunt_self (g ∷ rows) h e = elim (Bool-cases (is_hunt t id g)) [
    | inl hit ↦
        let same : g ≡ h = ground (arith, hit, e) in
        let hit' : is_hunt t id (f g) ≡ true = ground (arith, hit, q.id g, q.tenant_id g) in
        rw (hit, hit', same) refl
    | inr miss ↦ rw (miss, miss) (find-update_hunt_self rows h (ground (arith, miss, e)))
  ]

module _ (t id : ℕ) (s₀ : Store) where
  pub IsLater-IsStable : IsStable (IsLater t id s₀)
  unfolding update_hunt find_hunt
  IsLater-IsStable = record {
    hunts = λ f t' id' s q k. record {
      artifacts = k.artifacts;
      cache = k.cache;
      hunt = λ h e. let (g, e') = k.hunt h e in find-update_hunts f t' id' q t id s.hunts g e';
    };
    jobs = λ rows s k. record { artifacts = k.artifacts; cache = k.cache; hunt = k.hunt };
    outbox = λ rows s k. record { artifacts = k.artifacts; cache = k.cache; hunt = k.hunt };
    detections = λ rows s k. record { artifacts = k.artifacts; cache = k.cache; hunt = k.hunt };
  }

  pub commit_match-IsLater :
      (m : HuntMatch) (s : Store) → IsLater t id s₀ s → IsLater t id s₀ (commit_match m s)
  unfolding commit_match find_hunt
  commit_match-IsLater m s k = elim (Bool-cases (any (same_match m) s.matches)) [
    | inl old ↦ rw old k
    | inr new ↦ rw new (record { artifacts = k.artifacts; cache = k.cache; hunt = k.hunt })
  ]

  pub commit_cache_entry-IsLater :
      (key : ScanCacheKey) (entry : CacheEntry) (s : Store)
      → IsLater t id s₀ s
      → IsLater t id s₀ (commit_cache_entry key entry s)
  unfolding commit_cache_entry find_hunt
  commit_cache_entry-IsLater key entry s k = record {
    artifacts = k.artifacts;
    cache = λ k' e h. rw (k.cache k' e h) refl;
    hunt = k.hunt;
  }

module _ (t id : ℕ) where
  pub IsLater-refl : (s : Store) → IsLater t id s s
  IsLater-refl s = record { artifacts = refl; cache = λ k e h. h; hunt = λ h e. (h, e) }

  pub IsLater-trans :
      {s₀ s₁ s₂ : Store} → IsLater t id s₀ s₁ → IsLater t id s₁ s₂ → IsLater t id s₀ s₂
  IsLater-trans k l = record {
    artifacts = l.artifacts ∙ k.artifacts;
    cache = λ c e h. l.cache c e (k.cache c e h);
    hunt = λ h e. let (g, e') = k.hunt h e in l.hunt g e';
  }
