-- ===== src/Agent/State.antt =====
-- crates/corpus-agent/src/state.rs: the agent's durable state, an SQLite file.
-- Each table is a list of its rows, in the order of insertion; a table with a TEXT primary key is an
-- association list. A statement is the function that its SQL says, where it goes through or breaks
-- the unique index; capture.rs is modelled with the failure of each. `now()` is an argument.
pub mod Rows
pub mod Find
pub mod Invariant
pub mod Statements
pub mod Identity
pub mod Queue
pub mod Gaps
use corpus.Prelude.{
  ℕ, suc, ◌+◌, ◌-◌, ◌/◌, Bool, true, false, not, ◌&&◌, ◌||◌, Option, none, some, List, [], ◌∷◌,
  ◌++◌, map, String, length, keep_if, any, ltb, leb, ◌==◌, str_eq, if◌then◌else◌,
}
use corpus.Prelude.Results.{Result, ok, err}
use corpus.Agent.StableRead.{StableReadError}
use corpus.Prelude.Assoc.{Assoc, lookup, insert}

-- `mod states`: the text constants of the column `candidate.state`.
pub data CaptureState : Type 0 where
  observed debouncing opening copying_and_hashing hashed announced dedup_hit : CaptureState
  upload_required uploading finalizing occurrence_queued complete gap_recorded : CaptureState

pub record Candidate : Type 0 where
  pub id : ℕ
  pub path : String
  pub priority : ℕ
  pub capture_reason : String
  pub state : CaptureState
  pub attempts : ℕ
  pub next_retry_at : ℕ
  pub size_bytes : Option ℕ
  pub sha256 : Option String
  pub spool_path : Option String
  pub terminal_reason : Option String
  pub created_at : ℕ
  pub updated_at : ℕ

-- The `why` of capture.rs's `retry_or_fail`: the step that failed, with its error's text.
pub data FailedStep : Type 0 where
  announce upload finalize : String → FailedStep
  no_upload_id no_spool_path : FailedStep

-- The JSON texts that the code writes to the column `detail`, before `format!` renders them.
pub data GapDetail : Type 0 where
  empty : GapDetail  -- {}
  size_bytes : ℕ → GapDetail
  error_debug : StableReadError → GapDetail  -- {:?}
  error_text : FailedStep → GapDetail

pub record PendingGap : Type 0 where
  pub id : ℕ
  pub observed_at : String
  pub capture_reason : String
  pub terminal_outcome : String
  pub artifact_sha256 : Option String
  pub path : Option String
  pub detail_code : Option String
  pub detail : GapDetail

pub record SeenFile : Type 0 where
  pub inode : ℕ
  pub mtime_secs : ℕ
  pub size : ℕ

pub record StateDb : Type 0 where
  pub identity : Assoc String
  pub candidates : List Candidate
  pub last_id : ℕ  -- AUTOINCREMENT
  pub baseline_dirs : Assoc Bool
  pub gaps : List PendingGap
  pub last_gap_id : ℕ  -- AUTOINCREMENT
  pub counters : Assoc ℕ
  pub seen_files : Assoc SeenFile

-- `StateDb::open` on a new file.
abbrev pub fresh_db : StateDb
fresh_db = record {
  identity = [];
  candidates = [];
  last_id = 0;
  baseline_dirs = [];
  gaps = [];
  last_gap_id = 0;
  counters = [];
  seen_files = [];
}

-- UNIQUE constraint failed: idx_candidate_active_path.
pub data DbError : Type 0 where
  active_path_taken : DbError

-- `state NOT IN ('complete','gap_recorded')`
abbrev pub is_active : CaptureState → Bool
is_active complete = false
is_active gap_recorded = false
is_active _ = true

-- UPDATE candidate SET … WHERE id = ?1, where no column of the index changes.
unfoldable pub update_row : ℕ → (Candidate → Candidate) → List Candidate → List Candidate
update_row id f [] = []
update_row id f (c ∷ rows) = (if c.id == id then f c else c) ∷ update_row id f rows

-- The new version of row `c` and another active row have one path.
unfoldable pub clashes : ℕ → Candidate → Candidate → Bool
clashes id new other = not (other.id == id) && is_active other.state && str_eq other.path new.path

-- UPDATE candidate SET state = … WHERE id = ?1: refused where the partial unique index is broken.
unfoldable pub blocked : ℕ → (Candidate → Candidate) → List Candidate → Bool
blocked id f rows =
    any (λ c. c.id == id && is_active (f c).state && any (clashes id (f c)) rows) rows

unfoldable pub update_indexed : ℕ → (Candidate → Candidate) → StateDb → Result DbError StateDb
update_indexed id f db =
    if blocked id f db.candidates
    then err active_path_taken
    else ok (record db { candidates = update_row id f db.candidates })

-- Also returns the new row's id, or none where an active row has the path.
unfoldable pub enqueue : ℕ → String → ℕ → String → ℕ → StateDb → StateDb × Option ℕ
enqueue now path priority capture_reason debounce_ms db =
    if any (λ c. is_active c.state && str_eq c.path path) db.candidates then (db, none) else (
      record db {
        candidates =
            db.candidates
            ++ record {
              id = suc db.last_id;
              path = path;
              priority = priority;
              capture_reason = capture_reason;
              state = if ltb 0 debounce_ms then debouncing else observed;
              attempts = 0;
              next_retry_at = now + debounce_ms / 1000;
              size_bytes = none;
              sha256 = none;
              spool_path = none;
              terminal_reason = none;
              created_at = now;
              updated_at = now;
            }
              ∷ [];
        last_id = suc db.last_id;
      },
      some (suc db.last_id),
    )

unfoldable pub transition : ℕ → ℕ → CaptureState → StateDb → Result DbError StateDb
transition now id new_state =
    update_indexed id (λ c. record c { state = new_state; updated_at = now })

unfoldable pub set_retry : ℕ → ℕ → ℕ → StateDb → StateDb
set_retry now id next_retry_at db = record db {
  candidates =
      update_row id
        (λ c. record c {
          attempts = c.attempts + 1;
          next_retry_at = next_retry_at;
          updated_at = now;
        })
        db.candidates;
}

unfoldable pub defer : ℕ → ℕ → ℕ → StateDb → StateDb
defer now id next_retry_at db = record db {
  candidates =
      update_row id (λ c. record c { next_retry_at = next_retry_at; updated_at = now })
        db.candidates;
}

-- Only an active row is renewed.
unfoldable pub renew_lease : ℕ → ℕ → ℕ → StateDb → StateDb
renew_lease now id lease_secs db = record db {
  candidates =
      update_row id
        (λ c. if is_active c.state then record c { next_retry_at = now + lease_secs } else c)
        db.candidates;
}

unfoldable pub set_hashed : ℕ → ℕ → String → ℕ → String → StateDb → Result DbError StateDb
set_hashed now id sha256 size spool_path = update_indexed id (λ c. record c {
  state = hashed;
  sha256 = some sha256;
  size_bytes = some size;
  spool_path = some spool_path;
  updated_at = now;
})

unfoldable pub finish_gap : ℕ → ℕ → String → StateDb → Result DbError StateDb
finish_gap now id terminal_reason = update_indexed id (λ c. record c {
  state = gap_recorded;
  terminal_reason = some terminal_reason;
  updated_at = now;
})

unfoldable pub find_row : ℕ → List Candidate → Option Candidate
find_row id [] = none
find_row id (c ∷ rows) = let rest = find_row id rows in if c.id == id then some c else rest

unfoldable pub get : ℕ → StateDb → Option Candidate
get id db = find_row id db.candidates
