-- ===== src/Server/Hunts/Sound/Calls.antt =====
-- The invariant, over the calls of a hunt.
use corpus.Prelude.{ℕ, ◌≡◌, Bool, true, false, Option, none, some, List, [], ◌∷◌}
use corpus.Prelude.Results.{ok}
use corpus.Server.Hunts.{HuntRow, Store, zero_counters, find_hunt, planned_artifacts}
use corpus.Server.Hunts.Actions.{World, continue, statement, pure, fail, ◌>>=◌, query}
use corpus.Server.Hunts.Actions.Rules.{
  Keeps, Keeps-query, Keeps-bind, Keeps-pure, Keeps-fail, Keeps-option, Keeps-if, Keeps-attempt,
  From-bind, From-query,
}
use corpus.Server.Hunts.Queue.{found, get_hunt, is_retro}
use corpus.Server.Hunts.Run.{Scanner, visit_all, finish, execute_found, execute_hunt}
use corpus.Server.Hunts.Stable.{
  IsStable, Keeps-update_hunt, Keeps-update_job, set_running-IsQuiet, get_hunt-Keeps,
  bundle_of-Keeps, compiled-Keeps, finish-Keeps, check_tier-Keeps,
}
use corpus.Server.Hunts.Sound.{digest_of, Grows-refl, digest_of_found}
use corpus.Server.Hunts.Sound.Steps.{Kept, rebase, Kept-IsStable}
use corpus.Server.Hunts.Sound.Loop.{visit_all-Keeps, planned-IsBound}

module _ (sc : Scanner) (s₀ : Store) (t id : ℕ) where
  abbrev st : IsStable (Kept sc.config s₀)
  st = Kept-IsStable sc.config s₀

  -- The rows are read from the store as it then is.
  visit_planned-Keeps :
      (h : HuntRow) (watermark : ℕ)
      → digest_of t id s₀.hunts ≡ some h.bundle_digest
      → Keeps (Kept sc.config s₀) (
          query (planned_artifacts t watermark) >>= λ rows.
          visit_all sc t id h.bundle_digest rows zero_counters >>= λ n. finish sc t id n)
  visit_planned-Keeps h watermark bound = record {
    from = λ w k. From-query _ _ w k (λ later.
        let w' : World = record w { answers = later } in
        let loop =
          visit_all-Keeps sc t id h.bundle_digest w.store _ zero_counters (
            planned-IsBound t id h.bundle_digest watermark w.store
              (k.grown.digests t id _ bound)) in
        let visited =
          rebase sc.config s₀ w.store _ w' k.grown
            (loop.from w' (record { sound = k.sound; grown = Grows-refl w.store })) in
        From-bind _ _ w' visited (λ n _. (finish-Keeps st sc t id n).from _ visited.at));
  }

  execute_found-Keeps :
      (h : HuntRow)
      → digest_of t id s₀.hunts ≡ some h.bundle_digest
      → Keeps (Kept sc.config s₀) (execute_found sc t id h)
  unfolding execute_found
  execute_found-Keeps h bound =
      Keeps-if (is_retro h.kind) _ _
        (Keeps-bind _ _ (bundle_of-Keeps st t id sc.engine) λ b.
          Keeps-bind _ _ (Keeps-query _) λ sources.
            Keeps-bind _ _ (compiled-Keeps st t id sc.engine sources) λ _.
              Keeps-bind _ _
                (Keeps-option h.corpus_watermark _ _ (Keeps-fail _) (λ n _. Keeps-pure n))
                λ n. Keeps-bind _ _ (check_tier-Keeps st sc t id) λ _.
                  Keeps-bind _ _ (Keeps-update_hunt st _ t id (set_running-IsQuiet sc.engine.now))
                    λ _.
                      Keeps-bind _ _ (Keeps-attempt _ (Keeps-update_job st _ id))
                        λ _. visit_planned-Keeps h n bound)
        (Keeps-fail _)

module _ (t id : ℕ) (h : HuntRow) (w : World) where
  found_ok : (o : Option HuntRow) (w' : World) → (found "hunt" o w').0 ≡ ok h → o ≡ some h
  unfolding found fail pure
  found_ok none w' e = cc
  found_ok (some g) w' e = cc

  pub get_hunt_ok : (get_hunt t id w).0 ≡ ok h → find_hunt t id w.store ≡ some h
  unfolding get_hunt query ◌>>=◌ statement
  get_hunt_ok e = this w.answers e
    where
      this :
          (answers : List Bool)
          → (continue (statement (find_hunt t id) (λ s. s) answers w) (found "hunt")).0 ≡ ok h
          → find_hunt t id w.store ≡ some h
      this [] e' = found_ok _ _ e'
      this (true ∷ later) e' = found_ok _ _ e'
      this (false ∷ later) e' = cc

module _ (sc : Scanner) (s₀ : Store) (t id : ℕ) where
  pub execute_hunt-Keeps : Keeps (Kept sc.config s₀) (execute_hunt sc t id)
  unfolding execute_hunt find_hunt
  execute_hunt-Keeps = record {
    from = λ w k.
        let start : Kept sc.config w.store w.store = record {
          sound = k.sound;
          grown = Grows-refl w.store;
        } in
        let looked = (get_hunt-Keeps (Kept-IsStable sc.config w.store) t id).from w start in
        rebase sc.config s₀ w.store _ w k.grown (
          From-bind _ _ w looked (λ h e.
            let bound = digest_of_found t id w.store.hunts h (get_hunt_ok t id h w e) in
            (execute_found-Keeps sc w.store t id h bound).from _ looked.at));
  }
