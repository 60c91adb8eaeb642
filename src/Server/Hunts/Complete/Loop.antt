-- ===== src/Server/Hunts/Complete/Loop.antt =====
-- hunts.rs: the loop of a hunt in which every statement goes through, and what it counts.
use corpus.Prelude.{ℕ, ◌+◌, ◌≡◌, refl, ◌∙◌, arith, Option, none, some, String, List, [], ◌∷◌}
use corpus.Prelude.Results.{Result, ok, err}
use corpus.Agent.Spool.{Bytes}
use corpus.Server.Cas.{CasError}
use corpus.Server.Hunts.{
  Counters, ScanStatus, clean, matched, timeout, error, CacheEntry, MatchSummary, cached, evidence,
  RuleMatchEvidence, StoredArtifact, MatchEvent, TriggerRule, Store, update_hunt,
  commit_cache_entry,
}
use corpus.Server.Hunts.Actions.{Action, ◌>>◌, execute}
use corpus.Server.Hunts.Actions.Rules.{Keeps, Keeps-pure}
use corpus.Server.Hunts.Actions.Runs.{
  Runs, Runs-pure, Runs-query, Runs-execute, Runs-attempt, Runs-imp, Runs-Keeps, Runs-bind,
}
use corpus.Server.Hunts.Scan.{entry_of, queue_event}
use corpus.Server.Hunts.Run.{
  Scanner, commit_and_fire, replay_matches, commit_matches, replay, count_scan, unreadable,
  scan_object, key_of, visit_lookup, visit, visit_all,
}
use corpus.Server.Hunts.Stable.{set_counters-IsQuiet, replay-Keeps, count_scan-Keeps}
use corpus.Server.Hunts.Sound.Steps.{cache-commit_cache_entry}
use corpus.Server.Hunts.Replay.{IsCovered}
use corpus.Server.Hunts.Complete.{
  IsLater, IsLater-IsStable, commit_match-IsLater, commit_cache_entry-IsLater, IsLater-refl,
  IsLater-trans,
}

-- What the counters count of a scan that did not come to an end.
unfoldable pub bad : ScanStatus → ℕ
bad timeout = 1
bad error = 1
bad _ = 0

unfoldable pub bad_entry : Option CacheEntry → ℕ
unfolding bad
bad_entry none = 0
bad_entry (some e) = bad e.status

abbrev pub bad_count : Counters → ℕ
bad_count n = n.timed_out + n.failed

-- All of it goes through, and counts matches only.
module _ (t id a : ℕ) where
  queue_event-Runs :
      (event : MatchEvent) (ts : List TriggerRule) (s : Store)
      → Runs (λ _ _. Unit {0}) (queue_event t event ts) s
  unfolding queue_event
  queue_event-Runs event [] s = Runs-pure _ _ _ tt
  queue_event-Runs event (r ∷ ts) s =
      Runs-bind (λ _ _. Unit {0}) _ _ _ s (Runs-execute _ _ _ tt)
        (λ _ s' _. queue_event-Runs event ts s')

  commit_and_fire-Runs :
      (r : String) (m : MatchSummary) (n : Counters) (s : Store)
      → Runs (λ n' _. bad_count n' ≡ bad_count n) (commit_and_fire t id a r m n) s
  unfolding commit_and_fire
  commit_and_fire-Runs r m n s =
      Runs-bind (λ _ _. Unit {0}) _ _ _ s (Runs-execute _ _ _ tt)
        λ _ s₁ _.
          Runs-bind (λ _ _. Unit {0}) _ _ _ s₁
            (Runs-bind (λ _ _. Unit {0}) _ _ _ s₁ (Runs-query _ _ _ tt)
              (λ ts s₂ _. queue_event-Runs _ ts s₂))
            λ _ s₂ _. Runs-pure _ _ _ refl

  replay_matches-Runs :
      (ids : List String) (n : Counters) (s : Store)
      → Runs (λ n' _. bad_count n' ≡ bad_count n) (replay_matches t id a ids n) s
  unfolding replay_matches
  replay_matches-Runs [] n s = Runs-pure _ _ _ refl
  replay_matches-Runs (r ∷ ids) n s =
      Runs-bind _ _ _ _ s (commit_and_fire-Runs r cached n s)
        (λ n' s' e. Runs-imp (λ n'' s'' e'. e' ∙ e) (replay_matches-Runs ids n' s'))

  commit_matches-Runs :
      (ms : List RuleMatchEvidence) (n : Counters) (s : Store)
      → Runs (λ n' _. bad_count n' ≡ bad_count n) (commit_matches t id a ms n) s
  unfolding commit_matches
  commit_matches-Runs [] n s = Runs-pure _ _ _ refl
  commit_matches-Runs (m ∷ ms) n s =
      Runs-bind _ _ _ _ s (commit_and_fire-Runs m.rule_id (evidence m) n s)
        (λ n' s' e. Runs-imp (λ n'' s'' e'. e' ∙ e) (commit_matches-Runs ms n' s'))

  replay-Runs :
      (ids : List String) (n : Counters) (status : ScanStatus) (s : Store)
      → Runs (λ n' _. bad_count n' ≡ bad_count n + bad status) (replay t id a ids n status) s
  unfolding replay bad
  replay-Runs ids n timeout s = Runs-pure _ _ _ (omega arith)
  replay-Runs ids n error s = Runs-pure _ _ _ (omega arith)
  replay-Runs ids n clean s = Runs-pure _ _ _ (omega arith)
  replay-Runs ids n matched s = Runs-imp (λ n' s' e. omega (arith, e)) (replay_matches-Runs ids n s)

  count_scan-Runs :
      (digest : String) (ms : List RuleMatchEvidence) (n : Counters) (status : ScanStatus)
      (s : Store)
      → Runs
          (λ n' _. bad_count n' ≡ bad_count n + bad status)
          (count_scan t id digest a ms n status)
          s
  unfolding count_scan bad
  count_scan-Runs digest ms n timeout s = Runs-pure _ _ _ (omega arith)
  count_scan-Runs digest ms n error s = Runs-pure _ _ _ (omega arith)
  count_scan-Runs digest ms n clean s = Runs-pure _ _ _ (omega arith)
  count_scan-Runs digest ms n matched s =
      Runs-bind (λ _ _. Unit {0}) _ _ _ s (Runs-attempt _ _ _ (Runs-execute _ _ _ tt))
        (λ _ s' _. Runs-imp (λ n' s'' e. omega (arith, e)) (commit_matches-Runs ms _ s'))

-- How many of the artifacts have a cached scan that did not come to an end.
unfoldable pub bad_scans : Scanner → ℕ → ℕ → String → List StoredArtifact → Store → ℕ
unfolding bad_entry
bad_scans sc t id digest [] s = 0
bad_scans sc t id digest (a ∷ rows) s =
    bad_entry (s.cache (key_of sc t id digest a)) + bad_scans sc t id digest rows s

module _ (sc : Scanner) (t id : ℕ) (digest : String) (a : StoredArtifact) where
  -- The artifact's scan is in the cache, and was counted.
  abbrev IsVisited : Counters → Counters → Store → Type 0
  IsVisited n n' s =
      (e : CacheEntry) × (s.cache (key_of sc t id digest a) ≡ some e)
      × (bad_count n' ≡ bad_count n + bad e.status)

  -- What is known of a store in the cache stays known.
  settled :
      (n : Counters) (e : CacheEntry) (s : Store) (m : Action Counters)
      → s.cache (key_of sc t id digest a) ≡ some e
      → Keeps (IsLater t id s) m
      → Runs (λ n' _. bad_count n' ≡ bad_count n + bad e.status) m s
      → Runs (λ n' s'. IsVisited n n' s' × IsLater t id s s') m s
  settled n e s m known k r =
      Runs-imp (λ n' s' h. ((e, h.1.cache _ e known, h.0), h.1))
        (Runs-Keeps (IsLater t id s) _ m s k (IsLater-refl t id s) r)

  -- The entry is written, and the rest follows.
  entered :
      (n : Counters) (entry : CacheEntry) (m : Action Counters) (s : Store)
      → s.cache (key_of sc t id digest a) ≡ none
      → ((s' : Store) → Keeps (IsLater t id s') m)
      → ((s' : Store) → Runs (λ n' _. bad_count n' ≡ bad_count n + bad entry.status) m s')
      → Runs
          (λ n' s'. IsVisited n n' s' × IsLater t id s s')
          (execute (commit_cache_entry (key_of sc t id digest a) entry) >> m)
          s
  entered n entry m s new k r =
      let key = key_of sc t id digest a in
      let grown = commit_cache_entry-IsLater t id s key entry s (IsLater-refl t id s) in
      Runs-bind (λ _ s'. s' ≡ commit_cache_entry key entry s) _ _ _ s (Runs-execute _ _ _ refl)
        (λ _ s' e.
          Runs-imp (λ n' s'' h. (h.0, IsLater-trans t id (rw e grown) h.1))
            (settled n entry s' m (rw e (cache-commit_cache_entry key entry s new)) (k s') (r s')))

  scan_object-Runs :
      (n : Counters) (r : Result CasError Bytes) (s : Store)
      → s.cache (key_of sc t id digest a) ≡ none
      → Runs
          (λ n' s'. IsVisited n n' s' × IsLater t id s s')
          (scan_object sc t id digest (key_of sc t id digest a) a.id n r)
          s
  unfolding scan_object bad
  scan_object-Runs n (err e) s new =
      entered n (unreadable sc.unreadable_message) _ s new (λ s'. Keeps-pure _)
        (λ s'. Runs-pure _ _ _ (omega arith))
  scan_object-Runs n (ok bytes) s new =
      let o = sc.scan a.id bytes in
      entered n (entry_of o) _ s new
        (λ s'.
          count_scan-Keeps (IsLater-IsStable t id s') (commit_match-IsLater t id s') t id a.id
            digest o.matches n o.status)
        (λ s'. count_scan-Runs t id a.id digest o.matches n o.status s')

  visit_lookup-Runs :
      (n : Counters) (hit : Option CacheEntry) (s : Store)
      → s.cache (key_of sc t id digest a) ≡ hit
      → Runs
          (λ n' s'. IsVisited n n' s' × IsLater t id s s')
          (visit_lookup sc t id digest (key_of sc t id digest a) a n hit)
          s
  unfolding visit_lookup
  visit_lookup-Runs n none s new = scan_object-Runs n _ s new
  visit_lookup-Runs n (some e) s known =
      settled n e s _ known
        (replay-Keeps (IsLater-IsStable t id s) (commit_match-IsLater t id s) t id a.id
          e.matched_rule_ids _ e.status)
        (Runs-imp (λ n' s' h. h)
          (replay-Runs t id a.id e.matched_rule_ids (record n { cache_hits = n.cache_hits + 1 })
            e.status s))

  visit-Runs :
      (n : Counters) (s : Store)
      → Runs (λ n' s'. IsVisited n n' s' × IsLater t id s s') (visit sc t id digest a n) s
  unfolding visit update_hunt
  visit-Runs n s =
      Runs-bind (λ hit s'. (s' ≡ s) × (hit ≡ s.cache (key_of sc t id digest a))) _ _ _ s
        (Runs-query _ _ _ (refl, refl))
        λ hit s₁ e₁.
          Runs-bind (λ n' s'. IsVisited n n' s' × IsLater t id s s') _ _ _ s₁
            (rw (e₁.0, e₁.1) (visit_lookup-Runs n _ s refl))
            λ n' s₂ h.
              Runs-bind (λ _ s₃. IsVisited n n' s₃ × IsLater t id s s₃) _ _ _ s₂
                (Runs-execute _ _ _
                  (h.0, (IsLater-IsStable t id s).hunts _ t id s₂ (set_counters-IsQuiet n') h.1))
                (λ _ s₃ h'. Runs-pure _ _ _ h')

module _ (sc : Scanner) (t id : ℕ) (digest : String) where
  -- Every artifact was scanned or was in the cache, and what did not come to an end was counted.
  pub visit_all-Runs :
      (rows : List StoredArtifact) (n : Counters) (s : Store)
      → Runs
          (λ n' s'.
            IsCovered sc t id digest rows s'
            × (bad_count n' ≡ bad_count n + bad_scans sc t id digest rows s')
            × IsLater t id s s')
          (visit_all sc t id digest rows n)
          s
  unfolding visit_all bad_scans
  visit_all-Runs [] n s = Runs-pure _ _ _ (tt, omega arith, IsLater-refl t id s)
  visit_all-Runs (a ∷ rows) n s = Runs-bind _ _ _ _ s (visit-Runs sc t id digest a n s) (λ n' s' h.
      Runs-imp
        (λ n'' s'' h'.
          let known = h'.2.cache _ h.0.0 h.0.1 in
          let counted : bad_count n''
              ≡ bad_count n + (bad h.0.0.status + bad_scans sc t id digest rows s'') =
            omega (arith, h'.1, h.0.2) in
          (((h.0.0, known), h'.0), rw known counted, IsLater-trans t id h.1 h'.2))
        (visit_all-Runs rows n' s'))
