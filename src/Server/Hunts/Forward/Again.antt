-- ===== src/Server/Hunts/Forward/Again.antt =====
-- hunts.rs: `forward_scan` called again for the same bytes.
use corpus.Prelude.{
  ℕ, ◌≡◌, refl, ◌∙◌, Bool-cases, inl, inr, Option, none, some, String, List, [], ◌∷◌, any, All,
}
use corpus.Prelude.Results.{ok}
use corpus.Agent.Spool.{Bytes}
use corpus.Server.Hunts.{
  ScanCacheKey, CacheEntry, HuntMatch, RuleMatchEvidence, MatchEvent, TriggerRule, Store,
  update_hunt, same_match, commit_match, commit_cache_entry, record_detection, bundle_sources,
}
use corpus.Server.Hunts.Actions.{Action, pure, ◌>>=◌, statement, query, execute, attempt}
use corpus.Server.Hunts.Actions.Runs.{
  quiet, Runs, Runs-pure, Runs-query, Runs-execute, Runs-attempt, Runs-imp, Runs-bind, Runs-none,
}
use corpus.Server.Hunts.Scan.{ScanOutcome, entry_of, cache_lookup, queue_event}
use corpus.Server.Hunts.Forward.{
  BundleScanner, Committed, active_bundles, find_forward, commit_forward, record_forward, fire_one,
  fire_forward, tell, forward_key, forward_compiled, scan_forward, forward_lookup, forward_all,
  forward_scan,
}
use corpus.Server.Hunts.Sound.Steps.{cache-commit_cache_entry}

-- Later: the bundles are the same, and no scan is forgotten.
pub record Follows (s s' : Store) : Type 0 where
  pub bundles : s'.bundles ≡ s.bundles
  pub cache : (k : ScanCacheKey) (e : CacheEntry) → s.cache k ≡ some e → s'.cache k ≡ some e

Follows-refl : (s : Store) → Follows s s
Follows-refl s = record { bundles = refl; cache = λ k e h. h }

Follows-trans : {s t u : Store} → Follows s t → Follows t u → Follows s u
Follows-trans f g = record {
  bundles = g.bundles ∙ f.bundles;
  cache = λ k e h. g.cache k e (f.cache k e h);
}

commit_match-Follows : (m : HuntMatch) (s : Store) → Follows s (commit_match m s)
unfolding commit_match
commit_match-Follows m s = elim (Bool-cases (any (same_match m) s.matches)) [
  | inl old ↦ rw old (Follows-refl s)
  | inr new ↦ rw new (record { bundles = refl; cache = λ k e h. h })
]

commit_cache_entry-Follows :
    (k : ScanCacheKey) (e : CacheEntry) (s : Store) → Follows s (commit_cache_entry k e s)
unfolding commit_cache_entry
commit_cache_entry-Follows k e s = record { bundles = refl; cache = λ k' e' h. rw h refl }

-- An action that returns, and whose store follows.
abbrev Goes : {A : Type 0} → Action A → Type 0
Goes m = (s : Store) → Runs (λ _ s'. Follows s s') m s

module _ {A B : Type 0} where
  Goes-bind : (m : Action A) (f : A → Action B) → Goes m → ((a : A) → Goes (f a)) → Goes (m >>= f)
  Goes-bind m f hm hf s =
      Runs-bind _ _ m f s (hm s) (λ a s' g. Runs-imp (λ b s'' g'. Follows-trans g g') (hf a s'))

module _ {A : Type 0} where
  Goes-pure : (a : A) → Goes (pure a)
  Goes-pure a s = Runs-pure _ a s (Follows-refl s)

  Goes-query : (read : Store → A) → Goes (query read)
  Goes-query read s = Runs-query _ read s (Follows-refl s)

  Goes-attempt : (m : Action A) → Goes m → Goes (attempt m)
  Goes-attempt m h s = Runs-attempt _ m s (h s)

Goes-execute : (write : Store → Store) → ((s : Store) → Follows s (write s)) → Goes (execute write)
Goes-execute write h s = Runs-execute _ write s (h s)

module _ (sc : BundleScanner) (new : Committed) where
  commit_forward-Goes : (id : ℕ) (ms : List RuleMatchEvidence) → Goes (commit_forward sc new id ms)
  unfolding commit_forward
  commit_forward-Goes id [] = Goes-pure tt
  commit_forward-Goes id (m ∷ ms) =
      Goes-bind _ _ (Goes-execute _ (commit_match-Follows _)) (λ _. commit_forward-Goes id ms)

  record_forward-Goes : (o : ScanOutcome) (id : Option ℕ) → Goes (record_forward sc new o id)
  unfolding record_forward update_hunt
  record_forward-Goes o none = Goes-pure tt
  record_forward-Goes o (some id) =
      Goes-bind _ _ (commit_forward-Goes id o.matches)
        (λ _. Goes-execute _ (λ s. record { bundles = refl; cache = λ k e h. h }))

  queue_event-Goes : (t : ℕ) (e : MatchEvent) (ts : List TriggerRule) → Goes (queue_event t e ts)
  unfolding queue_event
  queue_event-Goes t e [] = Goes-pure tt
  queue_event-Goes t e (r ∷ ts) =
      Goes-bind _ _ (Goes-execute _ (λ s. record { bundles = refl; cache = λ k e' h. h }))
        (λ _. queue_event-Goes t e ts)

  fire_one-Goes : (m : RuleMatchEvidence) (id : Option ℕ) → Goes (fire_one sc new m id)
  unfolding fire_one
  fire_one-Goes m none = Goes-pure tt
  fire_one-Goes m (some id) =
      Goes-attempt _ (Goes-bind _ _ (Goes-query _) (λ ts. queue_event-Goes _ _ ts))

  fire_forward-Goes : (b : ℕ) (ms : List RuleMatchEvidence) → Goes (fire_forward sc new b ms)
  unfolding fire_forward
  fire_forward-Goes b [] = Goes-pure tt
  fire_forward-Goes b (m ∷ ms) =
      Goes-bind _ _ (Goes-query _)
        λ id. Goes-bind _ _ (fire_one-Goes m id) λ _. fire_forward-Goes b ms

  tell-Goes : (b : ℕ) (d : String) (ms : List RuleMatchEvidence) → Goes (tell sc new b d ms)
  unfolding tell record_detection
  tell-Goes b d [] = Goes-pure _
  tell-Goes b d (m ∷ ms) =
      Goes-bind _ _
        (Goes-attempt _ (Goes-execute _ (λ s. record { bundles = refl; cache = λ k e h. h })))
        λ _. Goes-bind _ _ (fire_forward-Goes b (m ∷ ms)) λ _. Goes-pure _

  -- The bundle's scan of the bytes is in the cache.
  abbrev pub IsScanned : Store → ℕ × String → Type 0
  IsScanned s (b, d) = (e : CacheEntry) × (s.cache (forward_key sc new d) ≡ some e)

  scan_forward-Runs :
      (b : ℕ) (d : String) (s : Store)
      → s.cache (forward_key sc new d) ≡ none
      → sc.compile_bundle (bundle_sources new.tenant_id b s) ≡ none
      → Runs (λ _ s'. Follows s s' × IsScanned s' (b, d)) (scan_forward sc new b d) s
  unfolding scan_forward forward_compiled
  scan_forward-Runs b d s fresh compiles =
      let sources = bundle_sources new.tenant_id b s in
      let o = sc.scan sources new.bytes in
      let key = forward_key sc new d in
      let s' = commit_cache_entry key (entry_of o) s in
      Runs-bind (λ found s₁. (found ≡ sources) × (s₁ ≡ s)) _ _ _ s (Runs-query _ _ _ (refl, refl))
        λ found s₁ e₁.
          rw (e₁.0, e₁.1)
            (Runs-bind (λ _ s₂. s₂ ≡ s) _ _ _ s
              (Runs-none _ (sc.compile_bundle sources) _ _ s compiles (Runs-pure _ _ _ refl))
              λ _ s₂ e₂. rw e₂ (
                Runs-bind (λ _ s₃. s₃ ≡ s') _ _ _ s (Runs-execute _ _ _ refl)
                  λ _ s₃ e₃. rw e₃ (
                    Runs-imp
                      (λ ids s₄ g. (
                        Follows-trans (commit_cache_entry-Follows key (entry_of o) s) g,
                        (
                          entry_of o,
                          g.cache _ _ (cache-commit_cache_entry key (entry_of o) s fresh),
                        ),
                      ))
                      (Goes-bind _ _ (Goes-query (find_forward new.tenant_id b))
                        (λ id.
                          Goes-bind _ _ (record_forward-Goes o id) (λ _. tell-Goes b d o.matches))
                        s'))))

  forward_lookup-Runs :
      (b : ℕ) (d : String) (hit : Option CacheEntry) (s : Store)
      → s.cache (forward_key sc new d) ≡ hit
      → sc.compile_bundle (bundle_sources new.tenant_id b s) ≡ none
      → Runs (λ _ s'. Follows s s' × IsScanned s' (b, d)) (forward_lookup sc new b d hit) s
  unfolding forward_lookup
  forward_lookup-Runs b d none s e compiles = scan_forward-Runs b d s e compiles
  forward_lookup-Runs b d (some hit) s e compiles = Runs-pure _ _ _ (Follows-refl s, (hit, e))

  -- Every bundle of the list compiles.
  abbrev pub Compile : Store → List (ℕ × String) → Type 0
  Compile s bundles =
      All (λ b. sc.compile_bundle (bundle_sources new.tenant_id b.0 s) ≡ none) bundles

  Follows-Compile :
      {s s' : Store} (bundles : List (ℕ × String))
      → Follows s s'
      → Compile s bundles
      → Compile s' bundles
  unfolding bundle_sources
  Follows-Compile [] f h = tt
  Follows-Compile (b ∷ bundles) f h = (rw f.bundles h.0, Follows-Compile bundles f h.1)

  forward_all-Runs :
      (bundles : List (ℕ × String)) (s : Store)
      → Compile s bundles
      → Runs (λ _ s'. Follows s s' × All (IsScanned s') bundles) (forward_all sc new bundles) s
  unfolding forward_all cache_lookup
  forward_all-Runs [] s h = Runs-pure _ _ _ (Follows-refl s, tt)
  forward_all-Runs ((b, d) ∷ bundles) s h =
      Runs-bind (λ hit s₁. (hit ≡ s.cache (forward_key sc new d)) × (s₁ ≡ s)) _ _ _ s
        (Runs-query _ _ _ (refl, refl))
        λ hit s₁ e₁.
          rw (e₁.0, e₁.1)
            (Runs-bind _ _ _ _ s (forward_lookup-Runs b d _ s refl h.0) λ ids s₂ k.
              Runs-bind _ _ _ _ s₂ (forward_all-Runs bundles s₂ (Follows-Compile bundles k.0 h.1))
                λ ids' s₃ k'.
                  Runs-pure _ _ _ (Follows-trans k.0 k'.0, ((k.1.0, k'.0.cache _ _ k.1.1), k'.1)))

-- Another compiler, and another scanner.
abbrev pub with_scan :
    BundleScanner
    → (List (String × String) → Option String)
    → (List (String × String) → Bytes → ScanOutcome)
    → BundleScanner
with_scan sc compile scan = record sc { compile_bundle = compile; scan = scan }

module _ (sc : BundleScanner) (new : Committed) (s : Store) where
  forward_all_scanned :
      (bundles : List (ℕ × String))
      → All (IsScanned sc new s) bundles
      → forward_all sc new bundles (quiet s) ≡ (ok [], quiet s)
  unfolding forward_all forward_lookup cache_lookup query statement ◌>>=◌ pure
  forward_all_scanned [] h = refl
  forward_all_scanned ((b, d) ∷ bundles) h = rw (h.0.1, forward_all_scanned bundles h.1) refl

  forward_scan_scanned :
      All (IsScanned sc new s) (active_bundles new.tenant_id s)
      → forward_scan sc new (quiet s) ≡ (ok [], quiet s)
  unfolding forward_scan query statement ◌>>=◌
  forward_scan_scanned h = forward_all_scanned (active_bundles new.tenant_id s) h

same_bundles : (t : ℕ) (s s' : Store) → Follows s s' → active_bundles t s' ≡ active_bundles t s
unfolding active_bundles
same_bundles t s s' f = rw f.bundles refl

module _ (sc : BundleScanner) (new : Committed) (s : Store) where
  -- When no statement fails and every active bundle compiles, forward_scan returns; called again for
  -- the same bytes, with any compiler and any scanner, it matches nothing and changes nothing.
  pub forward_scan_again :
      (compile : List (String × String) → Option String)
      (scan : List (String × String) → Bytes → ScanOutcome)
      → Compile sc new s (active_bundles new.tenant_id s)
      → Runs
          (λ _ s'. forward_scan (with_scan sc compile scan) new (quiet s') ≡ (ok [], quiet s'))
          (forward_scan sc new)
          s
  unfolding forward_scan
  forward_scan_again compile scan h =
      Runs-bind (λ bundles s₁. (bundles ≡ active_bundles new.tenant_id s) × (s₁ ≡ s)) _ _ _ s
        (Runs-query _ _ _ (refl, refl))
        λ bundles s₁ e₁.
          rw (e₁.0, e₁.1)
            (Runs-imp
              (λ ids s₂ k.
                forward_scan_scanned (with_scan sc compile scan) new s₂
                  (rw (same_bundles new.tenant_id s s₂ k.0) k.1))
              (forward_all-Runs sc new (active_bundles new.tenant_id s) s h))
