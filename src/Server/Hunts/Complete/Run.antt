-- ===== src/Server/Hunts/Complete/Run.antt =====
-- hunts.rs: `execute_hunt`, when every statement goes through.
use corpus.Prelude.{
  ℕ, ◌≡◌, refl, ap, ◌∙◌, arith, Option, none, some, String, List, [], ◌∷◌, ltb, find?,
  if◌then◌else◌,
}
use corpus.Server.Hunts.{
  retro, completed, completed_partial, Counters, zero_counters, HuntRow, ScanCacheKey, CacheEntry,
  StoredArtifact, Store, is_hunt, find_hunt, update_hunt, update_job, bundle_sources,
  planned_artifacts,
}
use corpus.Server.Hunts.Actions.{◌>>=◌, query}
use corpus.Server.Hunts.Actions.Runs.{
  Runs, Runs-pure, Runs-query, Runs-execute, Runs-attempt, Runs-if, Runs-none, Runs-some, Runs-imp,
  Runs-bind,
}
use corpus.Server.Hunts.Queue.{found, get_hunt, bundle_of, compiled, is_retro}
use corpus.Server.Hunts.Run.{
  Scanner, key_of, visit_all, final_state, set_completed, finish, run_loop, check_tier,
  execute_found, execute_hunt,
}
use corpus.Server.Hunts.Stable.{set_running-IsQuiet, set_completed-IsQuiet}
use corpus.Server.Hunts.Replay.{IsCovered, IsCovered-later, planned_same}
use corpus.Server.Hunts.Complete.{
  IsLater, IsLater-IsStable, find-update_hunt_self, IsLater-refl, IsLater-trans,
}
use corpus.Server.Hunts.Complete.Loop.{bad_count, bad_scans, visit_all-Runs}

module _ (t id : ℕ) where
  get_hunt-Runs :
      (h : HuntRow) (s : Store)
      → find_hunt t id s ≡ some h
      → Runs (λ h' s'. (h' ≡ h) × (s' ≡ s)) (get_hunt t id) s
  unfolding get_hunt found
  get_hunt-Runs h s e =
      Runs-bind (λ row s'. (row ≡ some h) × (s' ≡ s)) _ _ _ s (Runs-query _ _ _ (e, refl))
        (λ row s' k. rw k.0 (Runs-pure _ h s' (refl, k.1)))

module _ (sc : Scanner) (t id : ℕ) where
  finish-Runs :
      (n : Counters) (h : HuntRow) (s : Store)
      → find_hunt t id s ≡ some h
      → Runs (λ h' s'. (h'.state ≡ final_state n) × (s'.cache ≡ s.cache)) (finish sc t id n) s
  unfolding finish update_hunt update_job find_hunt
  finish-Runs n h s e =
      Runs-bind (λ _ s₁. s₁ ≡ update_hunt (set_completed sc t id n) t id s) _ _ _ s
        (Runs-execute _ _ _ refl)
        λ _ s₁ e₁.
          Runs-bind (λ _ s₂. (s₂.hunts ≡ s₁.hunts) × (s₂.cache ≡ s₁.cache)) _ _ _ s₁
            (Runs-attempt _ _ _ (Runs-execute _ _ _ (refl, refl)))
            λ _ s₂ e₂.
              Runs-imp
                (λ h' s₃ e₃.
                  let same : s₃.cache ≡ s.cache =
                    ap (λ (x : Store). x.cache) e₃.1 ∙ e₂.1 ∙ ap (λ (x : Store). x.cache) e₁ in
                  (rw e₃.0 refl, same))
                (get_hunt-Runs t id (set_completed sc t id n h) s₂ (
                  ap (λ (rows : List HuntRow). find? (is_hunt t id) rows)
                    (e₂.0 ∙ ap (λ (x : Store). x.hunts) e₁)
                  ∙ find-update_hunt_self (set_completed sc t id n) t id
                      (set_completed-IsQuiet sc t id n) s.hunts h e))

bad_scans_same :
    (sc : Scanner) (t id : ℕ) (digest : String) (rows : List StoredArtifact) (s s' : Store)
    → s'.cache ≡ s.cache
    → bad_scans sc t id digest rows s' ≡ bad_scans sc t id digest rows s
unfolding bad_scans
bad_scans_same sc t id digest [] s s' e = refl
bad_scans_same sc t id digest (a ∷ rows) s s' e =
    let same = ap (λ (c : ScanCacheKey → Option CacheEntry). c (key_of sc t id digest a)) e in
    rw (bad_scans_same sc t id digest rows s s' e, same) refl

final_state_lem :
    (n : Counters) (k : ℕ)
    → bad_count n ≡ k
    → final_state n ≡ (if ltb 0 k then completed_partial else completed)
unfolding final_state
final_state_lem n k e = ground (arith, e)

module _ (sc : Scanner) (t id : ℕ) (h : HuntRow) (watermark : ℕ) (s : Store) where
  -- The answer, and what the hunt has covered.
  abbrev pub IsComplete : HuntRow → Store → Type 0
  IsComplete h' s' =
      let rows = planned_artifacts t watermark s in
      IsCovered sc t id h.bundle_digest rows s'
      × (h'.state ≡ (
          if ltb 0 (bad_scans sc t id h.bundle_digest rows s')
          then completed_partial
          else completed))

  loop-Runs :
      (s₀ : Store)
      → IsLater t id s s₀
      → find_hunt t id s ≡ some h
      → Runs IsComplete
          (query (planned_artifacts t watermark) >>= λ rows.
            visit_all sc t id h.bundle_digest rows zero_counters >>= finish sc t id)
          s₀
  loop-Runs s₀ l e =
      Runs-bind (λ rows s₁. (rows ≡ planned_artifacts t watermark s₀) × (s₁ ≡ s₀)) _ _ _ s₀
        (Runs-query _ _ _ (refl, refl))
        λ rows s₁ e₁.
          Runs-bind _ _ _ _ s₁ (visit_all-Runs sc t id h.bundle_digest rows zero_counters s₁)
            λ n s₂ e₂.
              let here =
                (IsLater-trans t id (IsLater-trans t id l (rw e₁.1 (IsLater-refl t id s₀)))
                    e₂.2).hunt
                  h e in
              Runs-imp
                (λ h' s₃ e₃.
                  let which = e₁.0 ∙ planned_same t watermark watermark s s₀ refl l.artifacts in
                  let covered = IsCovered-later sc t id h.bundle_digest s₂ s₃ rows e₃.1 e₂.0 in
                  let counted = bad_scans_same sc t id h.bundle_digest rows s₂ s₃ e₃.1 in
                  let state =
                    e₃.0
                    ∙ final_state_lem n (bad_scans sc t id h.bundle_digest rows s₃)
                        (omega (arith, e₂.1, counted)) in
                  (rw (← which) covered, rw (← which) state))
                (finish-Runs sc t id n here.0 s₂ here.1)

  bundle_of-Runs :
      find_hunt t id s ≡ some h
      → Runs (λ b s'. (b ≡ h.bundle_id) × (s' ≡ s)) (bundle_of sc.engine t id) s
  unfolding bundle_of
  bundle_of-Runs e =
      Runs-bind (λ row s'. (row ≡ some h) × (s' ≡ s)) _ _ _ s (Runs-query _ _ _ (e, refl))
        (λ row s' k. rw k.0 (Runs-pure _ h.bundle_id s' (refl, k.1)))

  -- From the tables of `s` on, in which no row has changed.
  started :
      (s₀ : Store)
      → s₀ ≡ s
      → find_hunt t id s ≡ some h
      → Runs IsComplete (run_loop sc t id h watermark) s₀
  unfolding run_loop update_job
  started s₀ e₀ e =
      let st = IsLater-IsStable t id s in
      Runs-bind (λ _ s'. IsLater t id s s') _ _ _ s₀
        (Runs-execute _ _ _
          (st.hunts _ t id s₀ (set_running-IsQuiet sc.engine.now) (rw e₀ (IsLater-refl t id s))))
        λ _ s₁ l₁.
          Runs-bind (λ _ s'. IsLater t id s s') _ _ _ s₁
            (Runs-attempt _ _ _ (Runs-execute _ _ _ (st.jobs _ s₁ l₁))) λ _ s₂ l₂. loop-Runs s₂ l₂ e

  executed :
      find_hunt t id s ≡ some h
      → h.kind ≡ retro
      → h.corpus_watermark ≡ some watermark
      → sc.engine.compile_bundle (bundle_sources t h.bundle_id s) ≡ none
      → sc.engine.tier_refused ≡ none
      → Runs IsComplete (execute_found sc t id h) s
  unfolding execute_found compiled check_tier
  executed e kind pin compiles tier = Runs-if _ (is_retro h.kind) _ _ s (ap is_retro kind) (
      Runs-bind _ _ _ _ s (bundle_of-Runs e) λ b s₁ k₁.
        Runs-bind (λ sources s'. (sources ≡ bundle_sources t h.bundle_id s) × (s' ≡ s)) _ _ _ s₁
          (Runs-query _ _ _ (rw (k₁.0, k₁.1) refl, k₁.1))
          λ sources s₂ k₂.
            Runs-bind (λ _ s'. s' ≡ s) _ _ _ s₂
              (Runs-none _ (sc.engine.compile_bundle sources) _ _ s₂ (rw k₂.0 compiles)
                (Runs-pure _ _ _ k₂.1))
              λ _ s₃ k₃.
                Runs-bind (λ n s'. (n ≡ watermark) × (s' ≡ s)) _ _ _ s₃
                  (Runs-some _ h.corpus_watermark _ _ s₃ watermark pin (Runs-pure _ _ _ (refl, k₃)))
                  λ n s₄ k₄.
                    Runs-bind (λ _ s'. s' ≡ s) _ _ _ s₄
                      (Runs-none _ sc.engine.tier_refused _ _ s₄ tier (Runs-pure _ _ _ k₄.1))
                      λ _ s₅ k₅. rw k₄.0 (started s₅ k₅ e))

  -- A retro hunt with a pinned watermark, whose bundle compiles and whose tier is allowed, returns
  -- when no statement fails. Every artifact that was planned then has a scan by its bundle in the
  -- cache, new or old, and the answer is COMPLETED_PARTIAL if one of these scans, cached ones
  -- included, timed out or failed, and COMPLETED if none did.
  pub execute_hunt-IsComplete :
      find_hunt t id s ≡ some h
      → h.kind ≡ retro
      → h.corpus_watermark ≡ some watermark
      → sc.engine.compile_bundle (bundle_sources t h.bundle_id s) ≡ none
      → sc.engine.tier_refused ≡ none
      → Runs IsComplete (execute_hunt sc t id) s
  unfolding execute_hunt
  execute_hunt-IsComplete e kind pin compiles tier =
      Runs-bind _ _ _ _ s (get_hunt-Runs t id h s e)
        (λ g s₀ k. rw (k.0, k.1) (executed e kind pin compiles tier))
