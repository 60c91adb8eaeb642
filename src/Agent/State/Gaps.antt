-- ===== src/Agent/State/Gaps.antt =====
-- state.rs: the coverage gaps and the outcome counters; main.rs: one round of `gap_flusher`;
-- heartbeat.rs: what `send_once` does to the counters.
-- The RFC 3339 parser (crate chrono) is the argument `parse`. A server's answer is an argument.
pub mod Flush
use corpus.Prelude.{
  ℕ, suc, ◌+◌, Bool, true, false, not, Option, none, some, List, [], ◌∷◌, ◌++◌, map, String, take,
  keep_if, ◌==◌, if◌then◌else◌,
}
use corpus.Prelude.Results.{Result, ok, err}
use corpus.Prelude.Assoc.{Assoc, lookup, insert}
use corpus.Agent.State.{GapDetail, PendingGap, StateDb}

-- INSERT … (outcome, 1) ON CONFLICT(outcome) DO UPDATE SET count = count + 1
unfoldable pub bump : String → Assoc ℕ → Assoc ℕ
bump outcome counters = elim (lookup outcome counters) [
  | none ↦ insert outcome 1 counters
  | some n ↦ insert outcome (n + 1) counters
]

unfoldable pub increment_counter : String → StateDb → StateDb
increment_counter outcome db = record db { counters = bump outcome db.counters }

-- INSERT INTO pending_gap …
unfoldable pub insert_gap :
    String
    → String
    → String
    → Option String
    → Option String
    → Option String
    → GapDetail
    → StateDb
    → StateDb
insert_gap observed_at capture_reason terminal_outcome artifact_sha256 path detail_code detail db =
    record db {
      gaps =
          db.gaps
          ++ record {
            id = suc db.last_gap_id;
            observed_at = observed_at;
            capture_reason = capture_reason;
            terminal_outcome = terminal_outcome;
            artifact_sha256 = artifact_sha256;
            path = path;
            detail_code = detail_code;
            detail = detail;
          }
            ∷ [];
      last_gap_id = suc db.last_gap_id;
    }

-- Both statements of the call.
unfoldable pub record_gap :
    String
    → String
    → String
    → Option String
    → Option String
    → Option String
    → GapDetail
    → StateDb
    → StateDb
unfolding insert_gap increment_counter
record_gap observed_at capture_reason terminal_outcome artifact_sha256 path detail_code detail db =
    increment_counter terminal_outcome (
      insert_gap observed_at capture_reason terminal_outcome artifact_sha256 path detail_code detail
        db)

-- Their reader makes a map of the rows, so ORDER BY outcome is not modelled.
unfoldable pub read_counters : StateDb → Assoc ℕ
read_counters db = db.counters

unfoldable pub clear_counters : StateDb → StateDb
clear_counters db = record db { counters = [] }

-- SELECT … ORDER BY id LIMIT ?1: the rows stand in the order of their ids.
unfoldable pub pending_gaps : ℕ → StateDb → List PendingGap
pending_gaps limit db = take limit db.gaps

unfoldable pub delete_gap : ℕ → List PendingGap → List PendingGap
delete_gap id = keep_if (λ g. not (g.id == id))

-- One statement for each id, in no transaction: the first that fails is the last.
unfoldable pub delete_ids : (ℕ → Bool) → List ℕ → List PendingGap → List PendingGap
unfolding delete_gap
delete_ids goes [] gaps = gaps
delete_ids goes (id ∷ ids) gaps =
    let rest = delete_ids goes ids (delete_gap id gaps) in if goes id then rest else gaps

unfoldable pub delete_gaps : (ℕ → Bool) → List ℕ → StateDb → StateDb
delete_gaps goes ids db = record db { gaps = delete_ids goes ids db.gaps }

-- corpus-core's `dto::GapEvent`, without its constant `host_name`. `Value` is serde_json's.
pub record GapEvent (Value : Type 0) : Type 0 where
  pub observed_at : ℕ
  pub capture_reason : String
  pub terminal_outcome : String
  pub artifact_sha256 : Option String
  pub path : Option String
  pub detail_code : Option String
  pub detail : Option Value

-- `from_str` is `serde_json::from_str(&g.detail).ok()` of the text that the detail stands for.
-- The events and the ids of the rows whose time can be read.
unfoldable pub gap_events :
    {Value : Type 0}
    → (String → Option ℕ)
    → (GapDetail → Option Value)
    → List PendingGap
    → List (GapEvent Value)
gap_events parse from_str [] = []
gap_events parse from_str (g ∷ gaps) =
    let rest = gap_events parse from_str gaps in
    elim (parse g.observed_at) [
      | none ↦ rest
      | some t ↦
          record {
            observed_at = t;
            capture_reason = g.capture_reason;
            terminal_outcome = g.terminal_outcome;
            artifact_sha256 = g.artifact_sha256;
            path = g.path;
            detail_code = g.detail_code;
            detail = from_str g.detail;
          }
          ∷ rest
    ]

unfoldable pub delivered_ids : (String → Option ℕ) → List PendingGap → List ℕ
delivered_ids parse [] = []
delivered_ids parse (g ∷ gaps) =
    let rest = delivered_ids parse gaps in
    elim (parse g.observed_at) [ none ↦ rest | some t ↦ g.id ∷ rest ]

-- The answer of `report_gaps`, after the events that were sent to it.
unfoldable pub settle_flush : (ℕ → Bool) → List ℕ → Result String (Unit {0}) → StateDb → StateDb
settle_flush goes ids (ok _) db = delete_gaps goes ids db
settle_flush goes ids (err e) db = db

-- A round of `gap_flusher` on the batch that it has read: the events sent, if any, and the state.
unfoldable pub flush_batch :
    {Value : Type 0}
    → (String → Option ℕ)
    → (GapDetail → Option Value)
    → (List (GapEvent Value) → Result String (Unit {0}))
    → (ℕ → Bool)
    → List PendingGap
    → StateDb
    → List (GapEvent Value) × StateDb
unfolding settle_flush delete_gaps
flush_batch parse from_str report_gaps goes gaps db = elim (gap_events parse from_str gaps) [
  | [] ↦ ([], db)
  | e ∷ events ↦
      (e ∷ events, settle_flush goes (delivered_ids parse gaps) (report_gaps (e ∷ events)) db)
]

unfoldable pub flush_gaps :
    {Value : Type 0}
    → (String → Option ℕ)
    → (GapDetail → Option Value)
    → (List (GapEvent Value) → Result String (Unit {0}))
    → (ℕ → Bool)
    → StateDb
    → List (GapEvent Value) × StateDb
flush_gaps parse from_str report_gaps goes db =
    flush_batch parse from_str report_gaps goes (pending_gaps 100 db) db

-- heartbeat.rs, `send_once`: the counters that go out, and the state after the answer.
unfoldable pub send_counters : (Assoc ℕ → Result String (Unit {0})) → StateDb → Assoc ℕ × StateDb
send_counters heartbeat db =
    let counts = read_counters db in
    (counts, elim (heartbeat counts) [ ok _ ↦ clear_counters db | err e ↦ db ])
