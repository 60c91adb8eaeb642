-- ===== src/Server/Hunts/Actions/Runs.antt =====
-- Rules for sequences of statements that all go through.
use corpus.Prelude.{◌≡◌, refl, ap, ◌∙◌, Bool, true, false, Option, none, some, [], if◌then◌else◌}
use corpus.Prelude.Results.{ok}
use corpus.Server.Hunts.{Store}
use corpus.Server.Hunts.Actions.{
  World, Action, pure, continue, ◌>>=◌, statement, query, execute, attempt,
}
use corpus.Server.Hunts.Actions.Rules.{Keeps}

-- No statement fails.
abbrev pub quiet : Store → World
quiet s = record { store = s; answers = [] }

-- From `s`, the action returns, and `Q` holds of what it returns and of the store.
pub record Runs {A : Type 0} (Q : A → Store → Type 0) (m : Action A) (s : Store) : Type 0 where
  pub value : A
  pub store : Store
  pub run : m (quiet s) ≡ (ok value, quiet store)
  pub post : Q value store

module _ {A : Type 0} where
  pub Runs-pure : (Q : A → Store → Type 0) (a : A) (s : Store) → Q a s → Runs Q (pure a) s
  unfolding pure
  Runs-pure Q a s q = record { value = a; store = s; run = refl; post = q }

  pub Runs-query :
      (Q : A → Store → Type 0) (read : Store → A) (s : Store) → Q (read s) s → Runs Q (query read) s
  unfolding query statement
  Runs-query Q read s q = record { value = read s; store = s; run = refl; post = q }

  pub Runs-attempt :
      (Q : Unit {0} → Store → Type 0) (m : Action A) (s : Store)
      → Runs (λ _ s'. Q tt s') m s
      → Runs Q (attempt m) s
  unfolding attempt
  Runs-attempt Q m s r = record {
    value = tt;
    store = r.store;
    run = ap (λ p. (ok tt, p.1)) r.run;
    post = r.post;
  }

  -- A branch whose test is known.
  pub Runs-if :
      (Q : A → Store → Type 0) (b : Bool) (m n : Action A) (s : Store)
      → b ≡ true
      → Runs Q m s
      → Runs Q (if b then m else n) s
  Runs-if Q true m n s e r = r
  Runs-if Q false m n s e r = cc

  pub Runs-none :
      (Q : A → Store → Type 0) {B : Type 0} (o : Option B) (m : Action A) (f : B → Action A)
      (s : Store)
      → o ≡ none
      → Runs Q m s
      → Runs Q (elim o [ none ↦ m | some b ↦ f b ]) s
  Runs-none Q none m f s e r = r
  Runs-none Q (some b) m f s e r = cc

  pub Runs-some :
      (Q : A → Store → Type 0) {B : Type 0} (o : Option B) (m : Action A) (f : B → Action A)
      (s : Store) (b : B)
      → o ≡ some b
      → Runs Q (f b) s
      → Runs Q (elim o [ none ↦ m | some b' ↦ f b' ]) s
  Runs-some Q o m f s b e r = rw e r

  pub Runs-imp :
      {Q R : A → Store → Type 0} {m : Action A} {s : Store}
      → ((a : A) (s' : Store) → Q a s' → R a s')
      → Runs Q m s
      → Runs R m s
  Runs-imp f r = record { value = r.value; store = r.store; run = r.run; post = f _ _ r.post }

  -- What the action keeps in any case holds after it.
  pub Runs-Keeps :
      (P : Store → Type 0) (Q : A → Store → Type 0) (m : Action A) (s : Store)
      → Keeps P m
      → P s
      → Runs Q m s
      → Runs (λ a s'. Q a s' × P s') m s
  Runs-Keeps P Q m s k p r = record {
    value = r.value;
    store = r.store;
    run = r.run;
    post = (r.post, rw r.run at (k.from (quiet s) p).at);
  }

pub Runs-execute :
    (Q : Unit {0} → Store → Type 0) (write : Store → Store) (s : Store)
    → Q tt (write s)
    → Runs Q (execute write) s
unfolding execute statement
Runs-execute Q write s q = record { value = tt; store = write s; run = refl; post = q }

module _ {A B : Type 0} where
  pub Runs-bind :
      (Q : A → Store → Type 0) (R : B → Store → Type 0) (m : Action A) (f : A → Action B)
      (s : Store)
      → Runs Q m s
      → ((a : A) (s' : Store) → Q a s' → Runs R (f a) s')
      → Runs R (m >>= f) s
  unfolding ◌>>=◌
  Runs-bind Q R m f s r k =
      let next = k r.value r.store r.post in
      record {
        value = next.value;
        store = next.store;
        run = ap (λ p. continue p f) r.run ∙ next.run;
        post = next.post;
      }
