-- ===== src/Server/Hunts/Replay.antt =====
-- hunts.rs: a hunt whose artifacts are all in the scan cache.
use corpus.Prelude.{
  ℕ, ◌≡◌, refl, sym, ◌∙◌, Bool, true, false, Bool-cases, inl, inr, Option, none, some, String, List,
  [], ◌∷◌, any, All, if◌then◌else◌,
}
use corpus.Prelude.Results.{Result, ok}
use corpus.Agent.Spool.{Bytes}
use corpus.Server.Cas.{FsCas}
use corpus.Server.Hunts.{
  Counters, zero_counters, HuntRow, HuntMatch, CacheEntry, StoredArtifact, Store, same_match,
  commit_match, update_hunt, find_hunt, planned_artifacts,
}
use corpus.Server.Hunts.Actions.{Error, World, Action, pure, fail, ◌>>=◌, query}
use corpus.Server.Hunts.Actions.Rules.{
  From, Keeps, Keeps-pure, Keeps-fail, Keeps-option, Keeps-query, Keeps-bind, Keeps-attempt,
  From-query,
}
use corpus.Server.Hunts.Actions.Same.{bind_both, bind_kept, query_same}
use corpus.Server.Hunts.Queue.{is_retro}
use corpus.Server.Hunts.Scan.{ScanOutcome}
use corpus.Server.Hunts.Run.{
  Scanner, key_of, visit_lookup, visit, visit_all, finish, check_tier, pinned, execute_found,
  execute_hunt,
}
use corpus.Server.Hunts.Stable.{
  IsStable, replay-Keeps, Keeps-update_hunt, Keeps-update_job, set_running-IsQuiet, get_hunt-Keeps,
  bundle_of-Keeps, compiled-Keeps, check_tier-Keeps, set_counters-IsQuiet,
}
use corpus.Server.Hunts.Sound.Calls.{get_hunt_ok}

-- Nothing is scanned.
record IsFixed (s₀ s : Store) : Type 0 where
  artifacts : s.artifacts ≡ s₀.artifacts
  cache : s.cache ≡ s₀.cache

module _ (s₀ : Store) where
  IsFixed-IsStable : IsStable (IsFixed s₀)
  unfolding update_hunt
  IsFixed-IsStable = record {
    hunts = λ f t id s q k. record { artifacts = k.artifacts; cache = k.cache };
    jobs = λ rows s k. record { artifacts = k.artifacts; cache = k.cache };
    outbox = λ rows s k. record { artifacts = k.artifacts; cache = k.cache };
    detections = λ rows s k. record { artifacts = k.artifacts; cache = k.cache };
  }

  commit_match-IsFixed : (m : HuntMatch) (s : Store) → IsFixed s₀ s → IsFixed s₀ (commit_match m s)
  unfolding commit_match
  commit_match-IsFixed m s k = elim (Bool-cases (any (same_match m) s.matches)) [
    | inl old ↦ rw old k
    | inr new ↦ rw new (record { artifacts = k.artifacts; cache = k.cache })
  ]

-- Every artifact of the list has been scanned.
abbrev pub IsCovered : Scanner → ℕ → ℕ → String → List StoredArtifact → Store → Type 0
IsCovered sc t id digest rows s =
    All (λ a. (e : CacheEntry) × (s.cache (key_of sc t id digest a) ≡ some e)) rows

module _ (sc : Scanner) (t id : ℕ) (digest : String) where
  pub IsCovered-later :
      (s s' : Store) (rows : List StoredArtifact)
      → s'.cache ≡ s.cache
      → IsCovered sc t id digest rows s
      → IsCovered sc t id digest rows s'
  IsCovered-later s s' [] same h = tt
  IsCovered-later s s' (a ∷ rows) same h =
      ((h.0.0, rw same h.0.1), IsCovered-later s s' rows same h.1)

-- Another object store, and another scanner.
abbrev pub with_objects : Scanner → FsCas → (ℕ → Bytes → ScanOutcome) → Scanner
with_objects sc cas scan = record sc { cas = cas; scan = scan }

module _ (sc : Scanner) (cas : FsCas) (scan : ℕ → Bytes → ScanOutcome) (t id : ℕ)
    (digest : String) where
  module _ (a : StoredArtifact) (e : CacheEntry) where
    lookup_same :
        (n : Counters) (hit : Option CacheEntry) (k : Counters → Action Counters) (w : World)
        → hit ≡ some e
        → (visit_lookup sc t id digest (key_of sc t id digest a) a n hit >>= k) w
          ≡ (visit_lookup (with_objects sc cas scan) t id digest (key_of sc t id digest a) a n hit
                >>= k)
              w
    unfolding visit_lookup
    lookup_same n none k w h = cc
    lookup_same n (some e') k w h = refl

    visit_same :
        (n : Counters) (w : World)
        → w.store.cache (key_of sc t id digest a) ≡ some e
        → visit sc t id digest a n w ≡ visit (with_objects sc cas scan) t id digest a n w
    unfolding visit key_of
    visit_same n w h = query_same _ _ _ w (λ later. lookup_same n _ _ _ h)

    visit-IsFixed :
        (n : Counters) (w : World)
        → w.store.cache (key_of sc t id digest a) ≡ some e
        → (s₀ : Store) → IsFixed s₀ w.store
        → From (IsFixed s₀) (visit sc t id digest a n) w
    unfolding visit
    visit-IsFixed n w h s₀ k = From-query _ _ w k (λ later.
        let w' : World = record w { answers = later } in
        (Keeps-bind _ _ (looked _ h) λ n'.
            Keeps-bind _ _
              (Keeps-update_hunt (IsFixed-IsStable s₀) _ t id (set_counters-IsQuiet n'))
              λ _. Keeps-pure n').from
          w' k)
      where
        looked :
            (hit : Option CacheEntry)
            → hit ≡ some e
            → Keeps (IsFixed s₀) (visit_lookup sc t id digest (key_of sc t id digest a) a n hit)
        looked none h' = cc
        looked (some e') h' =
            replay-Keeps (IsFixed-IsStable s₀) (commit_match-IsFixed s₀) t id a.id
              e'.matched_rule_ids _ e'.status

  visit_all_same :
      (rows : List StoredArtifact) (n : Counters) (w : World)
      → IsCovered sc t id digest rows w.store
      → visit_all sc t id digest rows n w
        ≡ visit_all (with_objects sc cas scan) t id digest rows n w
  unfolding visit_all
  visit_all_same [] n w h = refl
  visit_all_same (a ∷ rows) n w h =
      let first = visit_same a h.0.0 n w h.0.1 in
      let kept =
        visit-IsFixed a h.0.0 n w h.0.1 w.store (record { artifacts = refl; cache = refl }) in
      bind_both _ _ _ _ w first (λ n' e. visit_all_same rows n' _ (
        IsCovered-later sc t id digest w.store (visit sc t id digest a n w).1.store rows
          kept.at.cache h.1))

pub planned_same :
    (t n watermark : ℕ) (s s' : Store)
    → n ≡ watermark
    → s'.artifacts ≡ s.artifacts
    → planned_artifacts t n s' ≡ planned_artifacts t watermark s
unfolding planned_artifacts
planned_same t n watermark s s' e same = rw (e, same) refl

if_same :
    {A : Type 0} (b : Bool) (m m' n : Action A) (w : World)
    → m w ≡ m' w
    → (if b then m else n) w ≡ (if b then m' else n) w
if_same true m m' n w e = e
if_same false m m' n w e = refl

pinned_ok :
    (sc : Scanner) (t id : ℕ) (h : HuntRow) (o : Option ℕ) (watermark n : ℕ) (w : World)
    → h.corpus_watermark ≡ o
    → o ≡ some watermark
    → (pinned sc t id h w).0 ≡ ok n
    → n ≡ watermark
unfolding pure fail
pinned_ok sc t id h none watermark n w e e' r = cc
pinned_ok sc t id h (some m) watermark n w e e' r =
    let r' : ◌≡◌ {A = Result Error ℕ} (ok m) (ok n) = rw e at r in cc

module _ (sc : Scanner) (cas : FsCas) (scan : ℕ → Bytes → ScanOutcome) (t id : ℕ)
    (h : HuntRow) where
  -- The rows are those that are planned now.
  loop_same :
      (watermark : ℕ) (w : World)
      → IsCovered sc t id h.bundle_digest (planned_artifacts t watermark w.store) w.store
      → (query (planned_artifacts t watermark) >>= λ rows.
            visit_all sc t id h.bundle_digest rows zero_counters >>= finish sc t id)
          w
        ≡ (query (planned_artifacts t watermark) >>= λ rows.
              visit_all (with_objects sc cas scan) t id h.bundle_digest rows zero_counters
              >>= finish (with_objects sc cas scan) t id)
            w
  unfolding finish
  loop_same watermark w covered = query_same _ _ _ w (λ later.
      bind_both _ _ _ _ _
        (visit_all_same sc cas scan t id h.bundle_digest _ zero_counters _ covered) (λ n e. refl))

  found_same :
      (watermark : ℕ) (w : World)
      → h.corpus_watermark ≡ some watermark
      → IsCovered sc t id h.bundle_digest (planned_artifacts t watermark w.store) w.store
      → execute_found sc t id h w ≡ execute_found (with_objects sc cas scan) t id h w
  unfolding execute_found check_tier
  found_same watermark w pin covered =
      let st = IsFixed-IsStable w.store in
      let start : IsFixed w.store w.store = record { artifacts = refl; cache = refl } in
      if_same (is_retro h.kind) _ _ _ w (
        bind_kept _ _ _ w ((bundle_of-Keeps st t id sc.engine).from w start) λ b w₁ _ k₁.
          bind_kept _ _ _ w₁ ((Keeps-query _).from w₁ k₁) λ sources w₂ _ k₂.
            bind_kept _ _ _ w₂ ((compiled-Keeps st t id sc.engine sources).from w₂ k₂) λ _ w₃ _ k₃.
              bind_kept _ _ _ w₃
                ((Keeps-option h.corpus_watermark _ _ (Keeps-fail _) (λ n _. Keeps-pure n)).from w₃
                  k₃)
                λ n w₄ r k₄.
                  bind_kept _ _ _ w₄ ((check_tier-Keeps st sc t id).from w₄ k₄) λ _ w₅ _ k₅.
                    bind_kept _ _ _ w₅
                      ((Keeps-update_hunt st _ t id (set_running-IsQuiet sc.engine.now)).from w₅ k₅)
                      λ _ w₆ _ k₆.
                        bind_kept _ _ _ w₆ ((Keeps-attempt _ (Keeps-update_job st _ id)).from w₆ k₆)
                          λ _ w₇ _ k₇. loop_same n w₇ (
                            rw
                              (planned_same t n watermark w.store w₇.store
                                (pinned_ok sc t id h h.corpus_watermark watermark n w₃ refl pin r)
                                k₇.artifacts)
                              (IsCovered-later sc t id h.bundle_digest w.store w₇.store _ k₇.cache
                                covered)))

-- A hunt with a pinned watermark, whose planned artifacts all are in the scan cache, neither reads
-- the object store nor scans: with any other objects and any other scanner it gives the same answer
-- and leaves the same tables, whichever of its statements fail.
pub execute_hunt_replay :
    (sc : Scanner) (cas : FsCas) (scan : ℕ → Bytes → ScanOutcome) (t id : ℕ) (h : HuntRow)
    (watermark : ℕ) (w : World)
    → find_hunt t id w.store ≡ some h
    → h.corpus_watermark ≡ some watermark
    → IsCovered sc t id h.bundle_digest (planned_artifacts t watermark w.store) w.store
    → execute_hunt sc t id w ≡ execute_hunt (with_objects sc cas scan) t id w
unfolding execute_hunt
execute_hunt_replay sc cas scan t id h watermark w e pin covered =
    let start : IsFixed w.store w.store = record { artifacts = refl; cache = refl } in
    let looked = (get_hunt-Keeps (IsFixed-IsStable w.store) t id).from w start in
    bind_kept _ _ _ w looked (λ g w' r k.
      let same : g ≡ h = some_inj (sym (get_hunt_ok t id g w r) ∙ e) in
      found_same sc cas scan t id g watermark w' (rw same pin) (
        rw (same, planned_same t watermark watermark w.store w'.store refl k.artifacts)
          (IsCovered-later sc t id h.bundle_digest w.store w'.store _ k.cache covered)))
  where
    some_inj : {a b : HuntRow} → ◌≡◌ {A = Option HuntRow} (some a) (some b) → a ≡ b
    some_inj p = cc
