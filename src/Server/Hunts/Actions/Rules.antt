-- ===== src/Server/Hunts/Actions/Rules.antt =====
-- Rules for sequences of statements: what is kept whichever statements fail, and what holds after.
use corpus.Prelude.{◌≡◌, refl, Bool, true, false, Option, none, some, List, [], ◌∷◌, if◌then◌else◌}
use corpus.Prelude.Results.{Result, ok, err}
use corpus.Server.Hunts.{Store}
use corpus.Server.Hunts.Actions.{
  Error, World, Action, pure, fail, continue, ◌>>=◌, ◌>>◌, statement, query, execute, attempt,
}

-- `P` holds of the store after `m` from `w`, however `m` ends.
pub record From (P : Store → Type 0) {A : Type 0} (m : Action A) (w : World) : Type 0 where
  pub at : P (m w).1.store

-- What holds of the store before holds after, however the action ends.
pub record Keeps (P : Store → Type 0) {A : Type 0} (m : Action A) : Type 0 where
  pub from : (w : World) → P w.store → From P m w

module _ {P : Store → Type 0} {A : Type 0} where
  pub Keeps-pure : (a : A) → Keeps P (pure a)
  unfolding pure
  Keeps-pure a = record { from = λ w p. record { at = p } }

  pub Keeps-fail : (e : Error) → Keeps P (fail {A = A} e)
  unfolding fail
  Keeps-fail e = record { from = λ w p. record { at = p } }

  -- An option that is looked at, with what it is.
  pub Keeps-option :
      {B : Type 0} (o : Option B) (m : Action A) (f : B → Action A)
      → Keeps P m
      → ((b : B) → o ≡ some b → Keeps P (f b))
      → Keeps P (elim o [ none ↦ m | some b ↦ f b ])
  Keeps-option none m f hm hf = hm
  Keeps-option (some b) m f hm hf = hf b refl

  pub Keeps-if : (b : Bool) (m n : Action A) → Keeps P m → Keeps P n → Keeps P (if b then m else n)
  Keeps-if true m n hm hn = hm
  Keeps-if false m n hm hn = hn

  pub Keeps-query : (read : Store → A) → Keeps P (query read)
  unfolding query
  Keeps-query read = record { from = λ w p. record { at = this w.answers w p } }
    where
      this :
          (answers : List Bool) (w : World)
          → P w.store
          → P (statement read (λ s. s) answers w).1.store
      this [] w p = p
      this (true ∷ later) w p = p
      this (false ∷ later) w p = p

  pub Keeps-attempt : (m : Action A) → Keeps P m → Keeps P (attempt m)
  unfolding attempt
  Keeps-attempt m h = record { from = λ w p. record { at = (h.from w p).at } }

module _ {P : Store → Type 0} where
  pub Keeps-execute :
      (write : Store → Store) → ((s : Store) → P s → P (write s)) → Keeps P (execute write)
  unfolding execute
  Keeps-execute write h = record { from = λ w p. record { at = this w.answers w p } }
    where
      this :
          (answers : List Bool) (w : World)
          → P w.store
          → P (statement (λ _. tt) write answers w).1.store
      this [] w p = h w.store p
      this (true ∷ later) w p = h w.store p
      this (false ∷ later) w p = p

module _ {P : Store → Type 0} {A B : Type 0} where
  -- The rest of the block may use what its first action left.
  pub From-bind :
      (m : Action A) (f : A → Action B) (w : World)
      → From P m w
      → ((a : A) → (m w).0 ≡ ok a → From P (f a) (m w).1)
      → From P (m >>= f) w
  unfolding ◌>>=◌
  From-bind m f w h k = record { at = this (m w).0 (m w).1 h.at (λ a e. (k a e).at) }
    where
      this :
          (r : Result Error A) (w' : World)
          → P w'.store
          → ((a : A) → r ≡ ok a → P (f a w').1.store)
          → P (continue (r, w') f).1.store
      this (ok a) w' p next = next a refl
      this (err e) w' p next = p

  pub Keeps-bind :
      (m : Action A) (f : A → Action B) → Keeps P m → ((a : A) → Keeps P (f a)) → Keeps P (m >>= f)
  Keeps-bind m f hm hf = record {
    from = λ w p. From-bind m f w (hm.from w p) (λ a e. (hf a).from _ (hm.from w p).at);
  }

  -- A statement whose answer, or whose write, matters to what follows it.
  pub From-query :
      (read : Store → A) (f : A → Action B) (w : World)
      → P w.store
      → ((later : List Bool) → From P (f (read w.store)) (record w { answers = later }))
      → From P (query read >>= f) w
  unfolding query ◌>>=◌
  From-query read f w p k = record { at = this w.answers }
    where
      this : (answers : List Bool) → P (continue (statement read (λ s. s) answers w) f).1.store
      this [] = (k _).at
      this (true ∷ later) = (k _).at
      this (false ∷ later) = p

module _ {P : Store → Type 0} {B : Type 0} where
  pub From-execute :
      (write : Store → Store) (m : Action B) (w : World)
      → P w.store
      → ((later : List Bool) → From P m (record w { store = write w.store; answers = later }))
      → From P (execute write >> m) w
  unfolding execute ◌>>=◌
  From-execute write m w p k = record { at = this w.answers }
    where
      this :
          (answers : List Bool)
          → P (continue (statement (λ _. tt) write answers w) (λ _. m)).1.store
      this [] = (k _).at
      this (true ∷ later) = (k _).at
      this (false ∷ later) = p

pub ruleset keeps_rules =
    (Keeps-pure, Keeps-fail, Keeps-option, Keeps-if, Keeps-query, Keeps-attempt, Keeps-bind)
