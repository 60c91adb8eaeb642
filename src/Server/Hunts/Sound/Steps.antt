-- ===== src/Server/Hunts/Sound/Steps.antt =====
-- The invariant, over the statements of a hunt and the turns of its loop.
use corpus.Prelude.{
  ℕ, ◌≡◌, refl, true, inl, inr, none, some, String, List, [], ◌∷◌, eq_refl, ==_refl,
}
use corpus.Server.Cas.Put.{text_eq_refl}
use corpus.Server.Hunts.{
  Counters, ScanCacheKey, ScanStatus, clean, matched, timeout, error, CacheEntry, RuleMatchEvidence,
  MatchSummary, cached, evidence, Store, update_hunt, same_key, commit_cache_entry, commit_match,
  record_detection,
}
use corpus.Server.Hunts.Actions.{Action, World, execute}
use corpus.Server.Hunts.Actions.Rules.{From, Keeps, Keeps-execute, Keeps-bind, Keeps-pure}
use corpus.Server.Hunts.Scan.{Config, rule_ids, hunt_match}
use corpus.Server.Hunts.Run.{commit_and_fire, replay_matches, commit_matches, replay, count_scan}
use corpus.Server.Hunts.Stable.{IsStable, fire-Keeps, Keeps-record_detection}
use corpus.Server.Hunts.Sound.{
  In, Grows, Grows-trans, IsJustified, IsSound, Grows-IsJustified, Grows-IsSound,
  commit_match-IsSound, commit_match-Grows, update_hunt-Grows,
}

same_key_refl : (k : ScanCacheKey) → same_key k k ≡ true
unfolding same_key
same_key_refl k =
    rw
      (
        ==_refl k.tenant_id,
        text_eq_refl k.artifact_sha256,
        eq_refl k.rule_bundle_digest,
        eq_refl k.engine_version,
        eq_refl k.scan_config_digest,
      )
      refl

pub cache-commit_cache_entry :
    (k : ScanCacheKey) (e : CacheEntry) (s : Store)
    → s.cache k ≡ none
    → (commit_cache_entry k e s).cache k ≡ some e
unfolding commit_cache_entry
cache-commit_cache_entry k e s new = rw (new, same_key_refl k) refl

module _ (c : Config) (s₀ : Store) where
  -- Sound, and grown since `s₀`.
  pub record Kept (s : Store) : Type 0 where
    pub sound : IsSound c s
    pub grown : Grows s₀ s

  pub Keeps-grow :
      (write : Store → Store)
      → ((s : Store) → Grows s (write s))
      → ((s : Store) → (write s).matches ≡ s.matches)
      → Keeps Kept (execute write)
  Keeps-grow write g same = Keeps-execute write (λ s h. record {
    sound = Grows-IsSound c (g s) (same s) h.sound;
    grown = Grows-trans h.grown (g s);
  })

  pub Kept-IsStable : IsStable Kept
  unfolding update_hunt
  Kept-IsStable = record {
    hunts = λ f t id s q k. stays (update_hunt-Grows f t id s q) refl k;
    jobs = λ rows s k.
        stays (record { artifacts = λ a i. i; digests = λ t i d e. e; cache = λ c' e h. h }) refl k;
    outbox = λ rows s k.
        stays (record { artifacts = λ a i. i; digests = λ t i d e. e; cache = λ c' e h. h }) refl k;
    detections = λ rows s k.
        stays (record { artifacts = λ a i. i; digests = λ t i d e. e; cache = λ c' e h. h }) refl k;
  }
    where
      stays : {s s' : Store} → Grows s s' → s'.matches ≡ s.matches → Kept s → Kept s'
      stays g same k = record {
        sound = Grows-IsSound c g same k.sound;
        grown = Grows-trans k.grown g;
      }

  module _ (t id a : ℕ) where
    commit_and_fire-Keeps :
        (r : String) (m : MatchSummary) (n : Counters)
        → IsJustified c s₀ (hunt_match t id a r m)
        → Keeps Kept (commit_and_fire t id a r m n)
    unfolding commit_and_fire
    commit_and_fire-Keeps r m n j =
        let committed = Keeps-execute {P = Kept} (commit_match (hunt_match t id a r m)) (λ s h.
          record {
            sound = commit_match-IsSound c _ s h.sound (Grows-IsJustified c h.grown j);
            grown = Grows-trans h.grown (commit_match-Grows _ s);
          }) in
        Keeps-bind _ _ committed
          (λ _. Keeps-bind _ _ (fire-Keeps Kept-IsStable t id a r) (λ _. Keeps-pure _))

    replay_matches-Keeps :
        (ids : List String) (n : Counters)
        → ((r : String) → In r ids → IsJustified c s₀ (hunt_match t id a r cached))
        → Keeps Kept (replay_matches t id a ids n)
    unfolding replay_matches
    replay_matches-Keeps [] n j = Keeps-pure _
    replay_matches-Keeps (r ∷ ids) n j =
        Keeps-bind _ _ (commit_and_fire-Keeps r cached n (j r (inl refl)))
          (λ n'. replay_matches-Keeps ids n' (λ r' i. j r' (inr i)))

    commit_matches-Keeps :
        (ms : List RuleMatchEvidence) (n : Counters)
        → ((r : String) (m : MatchSummary)
            → In r (rule_ids ms)
            → IsJustified c s₀ (hunt_match t id a r m))
        → Keeps Kept (commit_matches t id a ms n)
    unfolding commit_matches
    commit_matches-Keeps [] n j = Keeps-pure _
    commit_matches-Keeps (m ∷ ms) n j =
        Keeps-bind _ _ (commit_and_fire-Keeps m.rule_id (evidence m) n (j m.rule_id _ (inl refl)))
          (λ n'. commit_matches-Keeps ms n' (λ r' m' i. j r' m' (inr i)))

    -- What a hit of the cache justifies.
    pub replay-Keeps :
        (ids : List String) (n : Counters) (status : ScanStatus)
        → (status ≡ matched
            → (r : String) → In r ids
            → IsJustified c s₀ (hunt_match t id a r cached))
        → Keeps Kept (replay t id a ids n status)
    unfolding replay
    replay-Keeps ids n timeout j = Keeps-pure _
    replay-Keeps ids n error j = Keeps-pure _
    replay-Keeps ids n clean j = Keeps-pure _
    replay-Keeps ids n matched j = replay_matches-Keeps ids n (j refl)

    pub count_scan-Keeps :
        (digest : String) (ms : List RuleMatchEvidence) (n : Counters) (status : ScanStatus)
        → (status ≡ matched
            → (r : String) (m : MatchSummary) → In r (rule_ids ms)
            → IsJustified c s₀ (hunt_match t id a r m))
        → Keeps Kept (count_scan t id digest a ms n status)
    unfolding count_scan record_detection
    count_scan-Keeps digest ms n timeout j = Keeps-pure _
    count_scan-Keeps digest ms n error j = Keeps-pure _
    count_scan-Keeps digest ms n clean j = Keeps-pure _
    count_scan-Keeps digest ms n matched j =
        Keeps-bind _ _ (Keeps-record_detection Kept-IsStable _)
          (λ _. commit_matches-Keeps ms _ (j refl))

-- From a later store, where more is known.
pub rebase :
    (c : Config) (s₀ s : Store) {A : Type 0} (m : Action A) (w : World)
    → Grows s₀ s
    → From (Kept c s) m w
    → From (Kept c s₀) m w
rebase c s₀ s m w g f = record {
  at = record { sound = f.at.sound; grown = Grows-trans g f.at.grown };
}
