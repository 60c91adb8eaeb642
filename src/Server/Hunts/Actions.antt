-- ===== src/Server/Hunts/Actions.antt =====
-- Sequences of statements, of which each may fail: what was written before a failure stays written.
pub mod Rules
pub mod Runs
pub mod Same
use corpus.Prelude.{ℕ, Bool, true, false, Option, none, some, String, List, [], ◌∷◌}
use corpus.Prelude.Results.{Result, ok, err}
use corpus.Server.Hunts.{HuntState, Store}

-- error.rs, as far as the hunts use it.
pub data Error : Type 0 where
  not_found : String → Error
  conflict : ℕ → HuntState → Error
  bad_request : String → Error
  rule_compile : String → Error
  db : Error

-- `answers`: whether the next statements go through. All do once it is empty.
pub record World : Type 0 where
  pub store : Store
  pub answers : List Bool

abbrev pub Action : Type 0 → Type 0
Action A = World → Result Error A × World

module _ {A : Type 0} where
  unfoldable pub pure : A → Action A
  pure a w = (ok a, w)

  unfoldable pub fail : Error → Action A
  fail e w = (err e, w)

module _ {A B : Type 0} where
  abbrev pub continue : Result Error A × World → (A → Action B) → Result Error B × World
  continue (ok a, w) f = f a w
  continue (err e, w) f = (err e, w)

  infixl 5 ◌>>=◌ ◌>>◌
  unfoldable pub ◌>>=◌ : Action A → (A → Action B) → Action B
  ◌>>=◌ m f w = continue (m w) f

  abbrev pub ◌>>◌ : Action A → Action B → Action B
  m >> k = m >>= λ _. k

-- One statement: what it reads, and what it writes. One that fails writes nothing.
unfoldable pub statement : {A : Type 0} → (Store → A) → (Store → Store) → List Bool → Action A
statement read write [] w = (ok (read w.store), record w { store = write w.store; answers = [] })
statement read write (true ∷ later) w =
    (ok (read w.store), record w { store = write w.store; answers = later })
statement read write (false ∷ later) w = (err db, record w { answers = later })

unfoldable pub query : {A : Type 0} → (Store → A) → Action A
unfolding statement
query read w = statement read (λ s. s) w.answers w

unfoldable pub execute : (Store → Store) → Action (Unit {0})
unfolding statement
execute write w = statement (λ _. tt) write w.answers w

-- `.await.ok()`
unfoldable pub attempt : {A : Type 0} → Action A → Action (Unit {0})
attempt m w = (ok tt, (m w).1)
