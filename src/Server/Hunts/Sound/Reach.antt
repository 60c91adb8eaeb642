-- ===== src/Server/Hunts/Sound/Reach.antt =====
-- The server as a step relation: calls of the hunts in any order, with any statements failing, and
-- what the rest of the server does to the tables that they read.
use mathlib.Core.Path.{subst}
use corpus.Prelude.{ℕ, ◌≡◌, refl, sym, arith, Bool, Option, none, some, String, List, ◌∷◌, inr}
use corpus.Server.Hunts.{
  HuntJob, StoredArtifact, Bundle, TriggerRule, Store, update_hunt, update_job,
}
use corpus.Server.Hunts.Actions.{Action, execute}
use corpus.Server.Hunts.Actions.Rules.{Keeps, Keeps-bind, Keeps-query, Keeps-pure}
use corpus.Server.Hunts.Queue.{
  Engine, create_hunt, enqueue_hunt, claim, claim_job, claim_next_job, next_pending, run_if_queued,
}
use corpus.Server.Hunts.Scan.{Config}
use corpus.Server.Hunts.Run.{Scanner, execute_hunt}
use corpus.Server.Hunts.Stable.{IsQuiet, enqueue_hunt-Keeps, found-Keeps}
use corpus.Server.Hunts.Sound.{
  Grows-refl, IsSound, Grows-IsSound, digest_of-append, update_hunt-Grows,
}
use corpus.Server.Hunts.Sound.Steps.{Kept, Kept-IsStable, Keeps-grow}
use corpus.Server.Hunts.Sound.Calls.{execute_hunt-Keeps}

-- The store after a call, of which the statements go through or fail as `answers` says.
abbrev pub after : {A : Type 0} → Action A → Store → List Bool → Store
after m s answers = (m (record { store = s; answers = answers })).1.store

pub data Step (c : Config) (s : Store) : Store → Type 0 where
  create :
      (now t : ℕ) (digest : String) (answers : List Bool)
      → Step c s (after (create_hunt now t digest) s answers)
  enqueue :
      (e : Engine) (t id : ℕ) (answers : List Bool)
      → Step c s (after (enqueue_hunt e t id) s answers)
  claims :
      (now : ℕ) (worker : String) (answers : List Bool)
      → Step c s (after (claim_next_job now worker) s answers)
  runs :
      (sc : Scanner) (t id : ℕ) (answers : List Bool)
      → sc.config ≡ c
      → Step c s (after (execute_hunt sc t id) s answers)
  commits : (a : StoredArtifact) → Step c s (record s { artifacts = a ∷ s.artifacts })
  publishes :
      (bundles : List Bundle) (triggers : List TriggerRule)
      → Step c s (record s { bundles = bundles; triggers = triggers })

pub data Reach (c : Config) (s : Store) : Store → Type 0 where
  here : Reach c s s
  later : {t u : Store} → Reach c s t → Step c t u → Reach c s u

run_if_queued-IsQuiet : (now : ℕ) → IsQuiet (run_if_queued now)
run_if_queued-IsQuiet now = record {
  id = λ h. ground arith;
  tenant_id = λ h. ground arith;
  digest = λ h. ground arith;
}

module _ (c : Config) (s₀ : Store) where
  create_hunt-Keeps : (now t : ℕ) (digest : String) → Keeps (Kept c s₀) (create_hunt now t digest)
  unfolding create_hunt
  create_hunt-Keeps now t digest =
      Keeps-bind _ _
        (Keeps-bind _ _ (Keeps-query _) (λ b. found-Keeps (Kept-IsStable c s₀) t t _ b))
        λ b.
          Keeps-grow c s₀ _
            (λ s. record {
              artifacts = λ a i. i;
              digests = λ t' id d e. digest_of-append t' id s.hunts _ d e;
              cache = λ k e h. h;
            })
            (λ s. refl)

  claim-Keeps :
      (now : ℕ) (worker : String) (job : Option HuntJob)
      → Keeps (Kept c s₀) (execute (claim now worker job))
  unfolding claim update_hunt update_job
  claim-Keeps now worker none = Keeps-grow c s₀ _ Grows-refl (λ s. refl)
  claim-Keeps now worker (some j) =
      Keeps-grow c s₀ _
        (λ s. record {
          artifacts = λ a i. i;
          digests =
              (update_hunt-Grows _ j.tenant_id j.hunt_id s (run_if_queued-IsQuiet now)).digests;
          cache = λ k e h. h;
        })
        (λ s. refl)

  claim_next_job-Keeps : (now : ℕ) (worker : String) → Keeps (Kept c s₀) (claim_next_job now worker)
  unfolding claim_next_job
  claim_next_job-Keeps now worker = record {
    from = λ w k. record { at = ((claimed (next_pending w.store.jobs)).from w k).at };
  }
    where
      claimed : (job : Option HuntJob) → Keeps (Kept c s₀) (claim_job now worker job)
      claimed job = Keeps-bind _ _ (claim-Keeps now worker job) (λ _. Keeps-pure _)

runs-IsSound :
    (sc : Scanner) (t id : ℕ) (s : Store) (answers : List Bool) {c : Config}
    → sc.config ≡ c
    → IsSound c s
    → IsSound c (after (execute_hunt sc t id) s answers)
runs-IsSound sc t id s answers same h =
    let h' = subst (λ x. IsSound x s) (sym same) h in
    let kept =
      (execute_hunt-Keeps sc s t id).from _ (record { sound = h'; grown = Grows-refl s }) in
    subst (λ x. IsSound x (after (execute_hunt sc t id) s answers)) same kept.at.sound

module _ (c : Config) where
  start : (s : Store) → IsSound c s → Kept c s s
  start s h = record { sound = h; grown = Grows-refl s }

  Step-IsSound : {s t : Store} → Step c s t → IsSound c s → IsSound c t
  Step-IsSound (create now t digest answers) h =
      ((create_hunt-Keeps c _ now t digest).from _ (start _ h)).at.sound
  Step-IsSound (enqueue e t id answers) h =
      ((enqueue_hunt-Keeps (Kept-IsStable c _) t id e).from _ (start _ h)).at.sound
  Step-IsSound (claims now worker answers) h =
      ((claim_next_job-Keeps c _ now worker).from _ (start _ h)).at.sound
  Step-IsSound (runs sc t id answers same) h = runs-IsSound sc t id _ answers same h
  Step-IsSound (commits a) h =
      Grows-IsSound c
        (record { artifacts = λ b i. inr i; digests = λ t id d e. e; cache = λ k e h'. h' }) refl h
  Step-IsSound (publishes bundles triggers) h =
      Grows-IsSound c
        (record { artifacts = λ b i. i; digests = λ t id d e. e; cache = λ k e h'. h' }) refl h

  -- In every store that the server reaches from a sound one, every match of a hunt is of an artifact
  -- of its tenant, and is backed by the cached scan of its bytes by the hunt's own bundle, which
  -- matched that rule: whichever statements of whichever calls fail.
  pub Reach-IsSound : {s t : Store} → IsSound c s → Reach c s t → IsSound c t
  Reach-IsSound h here = h
  Reach-IsSound h (later r step) = Step-IsSound step (Reach-IsSound h r)
