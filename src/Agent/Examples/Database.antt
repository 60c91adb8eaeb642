-- ===== src/Agent/Examples/Database.antt =====
-- The theorems on the database, at small databases.
use corpus.Prelude.{
  true, ℕ, ◌+◌, ◌≡◌, ◌≢◌, refl, arith, Option, some, none, String, [], ◌∷◌, ◌++◌, take, drop,
  str_eq, eq_iff, if◌then◌else◌,
}
use corpus.Prelude.Results.{ok}
use corpus.Prelude.Assoc.{lookup}
use corpus.Agent.Examples.Unary.{example_decimal}
use corpus.Agent.State
use corpus.Agent.State.{
  CaptureState, Candidate, PendingGap, GapDetail, StateDb, fresh_db, is_active, enqueue, update_row,
}
use corpus.Agent.State.Invariant.{IsWellFormed}
use corpus.Agent.State.Identity.{get_identity}
use corpus.Agent.State.Identity.Sequence.{sequence, sequences, sequences_lem, count_from}
use corpus.Agent.State.Queue.{lease_next_due, next_due, due, first_of_two, comes_before, leased}
use corpus.Agent.State.Queue.Lease.{lease_exclusive}
use corpus.Agent.State.Queue.First.{IsFirst, lease_next_due-IsFirst}
use corpus.Agent.State.Gaps.{flush_gaps}
use corpus.Agent.State.Gaps.Flush.{
  IsNumbered, unreadable, readable, AreReports, flush_gaps_answered,
}

-- Two queued files, of which the second is due first.
abbrev row : ℕ → String → ℕ → Candidate
row id path priority = record {
  id = id;
  path = path;
  priority = priority;
  capture_reason = "baseline";
  state = State.observed;
  attempts = 0;
  next_retry_at = 10;
  size_bytes = none;
  sha256 = none;
  spool_path = none;
  terminal_reason = none;
  created_at = 5;
  updated_at = 5;
}

abbrev pub queue : StateDb
queue = record fresh_db { candidates = row 1 "/a" 2 ∷ row 2 "/b" 1 ∷ []; last_id = 2 }

pub queue-IsWellFormed : IsWellFormed queue
queue-IsWellFormed = record {
  rows = (
    (
      record { ids = λ e. ground (arith, e); paths = λ p q e. ground (arith, e, eq_iff "/a" "/b") },
      tt,
    ),
    (tt, tt),
  );
  ids = (omega arith, (omega arith, tt));
  copies = (
    record {
      sha256 = λ e. absurd (ground (arith, e));
      spool_path = λ e. absurd (ground (arith, e));
    },
    (
      record {
        sha256 = λ e. absurd (ground (arith, e));
        spool_path = λ e. absurd (ground (arith, e));
      },
      tt,
    ),
  );
}

sequences_lem_example :
    ((sequences example_decimal 3 fresh_db).0
      ≡ count_from example_decimal 3 (sequence example_decimal fresh_db + 1))
    × (get_identity "boot_id" (sequences example_decimal 3 fresh_db).1
        ≡ get_identity "boot_id" fresh_db)
sequences_lem_example = sequences_lem example_decimal 3 fresh_db

abbrev booted : StateDb
booted = record fresh_db { identity = ("boot_id", "old") ∷ [] }

booted_old : get_identity "boot_id" booted ≢ some "new"
unfolding get_identity lookup
booted_old e = ground (arith, e, eq_iff "old" "new")

-- The file of the lower priority number is leased first, and then the other.
abbrev pub after_first : StateDb
after_first = record queue {
  candidates = row 1 "/a" 2 ∷ record (row 2 "/b" 1) { next_retry_at = 140; updated_at = 20 } ∷ [];
}

abbrev pub first_lease : Candidate
first_lease = record (row 2 "/b" 1) { next_retry_at = 140; updated_at = 20 }

pub leased_first : lease_next_due 20 120 queue ≡ (after_first, some first_lease)
unfolding lease_next_due next_due due first_of_two comes_before leased update_row
leased_first = refl

abbrev second_lease : Candidate
second_lease = record (row 1 "/a" 2) { next_retry_at = 150; updated_at = 30 }

abbrev after_second : StateDb
after_second = record queue { candidates = second_lease ∷ first_lease ∷ [] }

leased_second : lease_next_due 30 120 after_first ≡ (after_second, some second_lease)
unfolding lease_next_due next_due due first_of_two comes_before leased update_row
leased_second = refl

lease_next_due-IsFirst_example : IsFirst 20 120 queue after_first first_lease
lease_next_due-IsFirst_example =
    lease_next_due-IsFirst 20 120 queue after_first first_lease queue-IsWellFormed leased_first

lease_exclusive_example : first_lease.id ≢ second_lease.id
lease_exclusive_example =
    lease_exclusive 20 120 30 120 queue after_first after_second first_lease second_lease
      queue-IsWellFormed leased_first (omega arith) leased_second

-- Two gaps, of which the second has no time that can be read.
abbrev gap_row : ℕ → String → PendingGap
gap_row id observed_at = record {
  id = id;
  observed_at = observed_at;
  capture_reason = "baseline";
  terminal_outcome = "TOO_LARGE";
  artifact_sha256 = none;
  path = some "/a";
  detail_code = none;
  detail = GapDetail.empty;
}

abbrev gapped : StateDb
gapped = record fresh_db { gaps = gap_row 1 "t" ∷ gap_row 2 "" ∷ []; last_gap_id = 2 }

abbrev parse_time : String → Option ℕ
parse_time text = if str_eq text "t" then some 77 else none

gapped-IsNumbered : IsNumbered 0 gapped.gaps
gapped-IsNumbered = (omega arith, (omega arith, tt))

-- `{}` is JSON, and the debug text of an error is not.
abbrev from_json : GapDetail → Option ℕ
from_json GapDetail.empty = some 0
from_json (GapDetail.size_bytes n) = some n
from_json _ = none

flush_gaps_answered_example :
    AreReports parse_time from_json
      (readable parse_time (take 100 gapped.gaps))
      (flush_gaps parse_time from_json (λ events. ok tt) (λ id. true) gapped).0
    × ((flush_gaps parse_time from_json (λ events. ok tt) (λ id. true) gapped).1.gaps
        ≡ unreadable parse_time (take 100 gapped.gaps) ++ drop 100 gapped.gaps)
flush_gaps_answered_example =
    flush_gaps_answered parse_time from_json (λ events. ok tt) (λ id. true) (λ id. refl) 0 gapped
      gapped-IsNumbered refl
