-- ===== src/Agent/Capture/Actions.antt =====
-- Actions of a worker: they change its world and may fail, and what was written before a failure
-- stays written.
use corpus.Prelude.{ℕ, Bool, true, false, String, Option, List, [], ◌∷◌, ◌++◌, if◌then◌else◌}
use corpus.Prelude.Results.{Result, ok, err}
use corpus.Agent.Spool.{Bytes, SpoolError}
use corpus.Agent.StableRead.{SpoolDir}
use corpus.Agent.State.{StateDb, DbError}

-- corpus-core's `dto::OccurrenceInfo`.
pub record OccurrenceInfo : Type 0 where
  pub host_name : String
  pub agent_id : String
  pub boot_id : String
  pub agent_sequence : ℕ
  pub path : String
  pub observed_at : ℕ
  pub file_size : ℕ
  pub file_mtime : Option ℕ
  pub capture_reason : String

pub record AnnounceRequest : Type 0 where
  pub sha256 : String
  pub size_bytes : ℕ
  pub occurrence : Option OccurrenceInfo

-- `scope` and `provenance` are none on the agents that are no Windows.
pub record FinalizeRequest : Type 0 where
  pub upload_id : String
  pub sha256 : String
  pub size_bytes : ℕ
  pub occurrence : Option OccurrenceInfo

-- What a worker sends to the server.
pub data Request : Type 0 where
  announce : AnnounceRequest → Request
  upload : String → Bytes → Request
  finalize : FinalizeRequest → Request

-- `answers`: whether the next statements of the database go through. All do once it is empty.
pub record World : Type 0 where
  pub db : StateDb
  pub spool : SpoolDir
  pub sent : List Request
  pub answers : List Bool

-- Why `process_candidate` returns an error.
pub data ProcessError : Type 0 where
  db : DbError → ProcessError
  statement_failed task_failed : ProcessError
  bad_sequence without_sha256 spool_missing : ProcessError
  spool_decrypt : SpoolError → ProcessError

abbrev pub Action : Type 0 → Type 0
Action A = World → Result ProcessError A × World

module _ {A : Type 0} where
  abbrev pub pure : A → Action A
  pure a w = (ok a, w)

  abbrev pub fail : ProcessError → Action A
  fail e w = (err e, w)

module _ {A B : Type 0} where
  abbrev pub continue : Result ProcessError A → (A → Action B) → Action B
  continue (ok a) f w = f a w
  continue (err e) f w = (err e, w)

  infixl 5 ◌>>=◌ ◌>>◌
  abbrev pub ◌>>=◌ : Action A → (A → Action B) → Action B
  ◌>>=◌ m f w = let (r, w') = m w in continue r f w'

  abbrev pub ◌>>◌ : Action A → Action B → Action B
  m >> k = m >>= λ _. k

-- Whether the next statement goes through.
unfoldable pub goes : List Bool → Bool
goes [] = true
goes (a ∷ answers) = a

unfoldable pub later : List Bool → List Bool
later [] = []
later (a ∷ answers) = answers

-- After the next answer.
abbrev pub answered : World → World
answered w = record w { answers = later w.answers }

-- One statement, after which the code has `?`.
abbrev pub run : {A : Type 0} → Action A → Action A
run m w = if goes w.answers then m (answered w) else (err statement_failed, answered w)

abbrev pub indexed : (StateDb → Result DbError StateDb) → Action (Unit {0})
indexed statement w = elim (statement w.db) [
  | ok db' ↦ (ok tt, record w { db = db' })
  | err e ↦ (err (ProcessError.db e), w)
]

-- A statement that may break the unique index.
abbrev pub checked : (StateDb → Result DbError StateDb) → Action (Unit {0})
checked statement = run (indexed statement)

abbrev pub update : (StateDb → StateDb) → Action (Unit {0})
update statement w = (ok tt, record w { db = statement w.db })

abbrev pub modify : (StateDb → StateDb) → Action (Unit {0})
modify statement = run (update statement)

-- A statement whose failure is only logged.
abbrev pub try_statement : (StateDb → StateDb) → Action Bool
try_statement statement w =
    if goes w.answers
    then (ok true, record w { db = statement w.db; answers = later w.answers })
    else (ok false, answered w)

abbrev pub send : Request → Action (Unit {0})
send r w = (ok tt, record w { sent = w.sent ++ r ∷ [] })
