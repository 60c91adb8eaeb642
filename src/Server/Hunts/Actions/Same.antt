-- ===== src/Server/Hunts/Actions/Same.antt =====
-- Rules for sequences of statements: when two of them do the same.
use corpus.Prelude.{◌≡◌, refl, ap, ◌∙◌, Bool, true, false, List, [], ◌∷◌}
use corpus.Prelude.Results.{Result, ok, err}
use corpus.Server.Hunts.{Store}
use corpus.Server.Hunts.Actions.{Error, World, Action, continue, ◌>>=◌, statement, query}
use corpus.Server.Hunts.Actions.Rules.{From}

module _ {A B : Type 0} where
  -- Two blocks that begin alike are alike if they go on alike.
  pub bind_same :
      (m : Action A) (f g : A → Action B) (w : World)
      → ((a : A) → (m w).0 ≡ ok a → f a (m w).1 ≡ g a (m w).1)
      → (m >>= f) w ≡ (m >>= g) w
  unfolding ◌>>=◌
  bind_same m f g w h = this (m w) (λ a e. h a e)
    where
      this :
          (r : Result Error A × World)
          → ((a : A) → r.0 ≡ ok a → f a r.1 ≡ g a r.1)
          → continue r f ≡ continue r g
      this (ok a, w') k = k a refl
      this (err e, w') k = refl

  pub bind_both :
      (m m' : Action A) (f g : A → Action B) (w : World)
      → m w ≡ m' w
      → ((a : A) → (m w).0 ≡ ok a → f a (m w).1 ≡ g a (m w).1)
      → (m >>= f) w ≡ (m' >>= g) w
  unfolding ◌>>=◌
  bind_both m m' f g w e h = bind_same m f g w h ∙ ap (λ r. continue r g) e

  -- What the first of them keeps may be used.
  pub bind_kept :
      {P : Store → Type 0} (m : Action A) (f g : A → Action B) (w : World)
      → From P m w
      → ((a : A) (w' : World) → (m w).0 ≡ ok a → P w'.store → f a w' ≡ g a w')
      → (m >>= f) w ≡ (m >>= g) w
  bind_kept m f g w k h = bind_same m f g w (λ a e. h a (m w).1 e k.at)

  pub query_same :
      (read : Store → A) (f g : A → Action B) (w : World)
      → ((later : List Bool)
          → f (read w.store) (record w { answers = later })
            ≡ g (read w.store) (record w { answers = later }))
      → (query read >>= f) w ≡ (query read >>= g) w
  unfolding ◌>>=◌ query statement
  query_same read f g w h = this w.answers
    where
      this :
          (answers : List Bool)
          → continue (statement read (λ s. s) answers w) f
            ≡ continue (statement read (λ s. s) answers w) g
      this [] = h []
      this (true ∷ later) = h later
      this (false ∷ later) = refl
