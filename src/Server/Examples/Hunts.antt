-- ===== src/Server/Examples/Hunts.antt =====
-- hunts.rs at a concrete store: two artifacts, of which one is in the object store, and a hunt.
use corpus.Prelude.{
  ℕ, ◌+◌, ◌≡◌, ◌≢◌, refl, arith, true, false, Option, none, some, [], ◌∷◌, inl, inr, length,
  if◌then◌else◌,
}
use corpus.Prelude.Results.{ok, err}
use corpus.Agent.Spool.{Bytes}
use corpus.Server.Cas.{FsCas, text_eq, read}
use corpus.Server.Hunts.{
  retro, HuntState, queued, running, completed_partial, zero_counters, HuntRow, HuntJob,
  ScanCacheKey, clean, matched, CacheEntry, RuleMatchEvidence, StoredArtifact, Store, is_hunt,
  find_hunt, update_hunts, update_hunt, update_jobs, update_job, bundle_sources, same_key,
  commit_cache_entry, commit_match, record_detection, planned_artifacts,
}
use corpus.Server.Hunts.Actions.{
  conflict, World, pure, fail, ◌>>=◌, statement, query, execute, attempt,
}
use corpus.Server.Hunts.Actions.Runs.{quiet, Runs}
use corpus.Server.Hunts.Queue.{
  Engine, create_hunt, enqueue_hunt, is_pending, first_row, next_pending, is_queued, claim,
  claim_job, claim_next_job,
}
use corpus.Server.Hunts.Queue.Claims.{claim_exclusive}
use corpus.Server.Hunts.Queue.Stuck.{IsStuck, IsStuck-stays}
use corpus.Server.Hunts.Scan.{Config, ScanOutcome}
use corpus.Server.Hunts.Run.{Scanner, final_state, key_of, visit, execute_hunt}
use corpus.Server.Hunts.Forward.{
  BundleScanner, Committed, active_bundles, find_forward, forward_scan, forward_key,
}
use corpus.Server.Hunts.Forward.Again.{with_scan, forward_scan_again}
use corpus.Server.Hunts.Replay.{with_objects, execute_hunt_replay}
use corpus.Server.Hunts.Complete.Run.{IsComplete, execute_hunt-IsComplete}
use corpus.Server.Hunts.Sound.{IsSound}
use corpus.Server.Hunts.Sound.Reach.{after, create, enqueue, runs, here, later, Reach-IsSound}

abbrev engine : Engine
engine = record { now = 100; compile_bundle = λ sources. none; tier_refused = none }

abbrev config : Config
config = record { engine_version = "1"; scan_config_digest = "c" }

abbrev a_match : RuleMatchEvidence
a_match = record { rule_id = "Alpha"; namespace = "default"; patterns = [] }

abbrev objects : FsCas
objects = record {
  staging = λ k. none;
  objects = λ t sha. if text_eq sha (7 ∷ []) then some (1 ∷ 2 ∷ []) else none;
}

abbrev scanner : Scanner
scanner = record {
  engine = engine;
  config = config;
  cas = objects;
  unreadable_message = "io error: not found";
  scan = λ id bytes. record {
    status = matched;
    matches = a_match ∷ [];
    duration_ms = length bytes;
    error_code = none;
  };
}

abbrev artifact : ℕ → ℕ → StoredArtifact
artifact id sha = record {
  id = id;
  tenant_id = 1;
  sha256 = sha ∷ [];
  object_key = record { tenant_id = 1; sha256 = sha ∷ [] };
  scope = "endpoint";
  seq = id;
  is_committed = true;
}

abbrev empty_cache : ScanCacheKey → Option CacheEntry
empty_cache k = none

abbrev no_hunts : Store
no_hunts = record {
  artifacts = artifact 2 8 ∷ artifact 1 7 ∷ [];
  bundles =
      record {
        id = 5;
        tenant_id = 1;
        digest = "b";
        active = true;
        sources = ("Alpha", "rule Alpha") ∷ [];
      }
      ∷ [];
  hunts = [];
  jobs = [];
  cache = empty_cache;
  matches = [];
  detections = [];
  triggers = [];
  outbox = [];
  next_id = 1;
}

abbrev hunt : HuntState → HuntRow
hunt state = record {
  id = 1;
  tenant_id = 1;
  kind = retro;
  bundle_id = 5;
  bundle_digest = "b";
  state = state;
  corpus_watermark = some 2;
  planned_artifacts = 2;
  counters = zero_counters;
  error = none;
  created_at = 90;
  started_at = none;
  completed_at = none;
}

abbrev job : ℕ → HuntJob
job id = record {
  hunt_id = id;
  tenant_id = 1;
  enqueued_at = 90 + id;
  claimed_at = none;
  claimed_by = none;
  finished_at = none;
}

abbrev with_hunt : Store
with_hunt = record no_hunts { hunts = hunt queued ∷ []; jobs = job 2 ∷ job 1 ∷ []; next_id = 2 }

run_hunt_partial :
    (execute_hunt scanner 1 1 (quiet with_hunt)).0
    ≡ ok (record (hunt completed_partial) {
      counters = record { scanned = 1; cache_hits = 0; matched = 1; timed_out = 0; failed = 1 };
      started_at = some 100;
      completed_at = some 100;
    })
unfolding execute_hunt visit key_of final_state bundle_sources planned_artifacts find_hunt is_hunt
    update_hunt update_hunts update_job update_jobs same_key commit_cache_entry commit_match
    record_detection attempt execute query ◌>>=◌ fail pure read
run_hunt_partial = refl

-- A store of the same rows, in which both artifacts have been scanned.
abbrev with_cache : Store
with_cache = record with_hunt { cache = (after (execute_hunt scanner 1 1) with_hunt []).cache }

abbrev clean_scan : ℕ → Bytes → ScanOutcome
clean_scan id bytes = record { status = clean; matches = []; duration_ms = 0; error_code = none }

execute_hunt_replay_example :
    execute_hunt scanner 1 1
      (record { store = with_cache; answers = true ∷ true ∷ true ∷ true ∷ false ∷ [] })
    ≡ execute_hunt
        (with_objects scanner (record objects { objects = λ t sha. none }) clean_scan)
        1
        1
        (record { store = with_cache; answers = true ∷ true ∷ true ∷ true ∷ false ∷ [] })
unfolding execute_hunt visit key_of final_state bundle_sources planned_artifacts find_hunt is_hunt
    update_hunt update_hunts update_job update_jobs same_key commit_cache_entry commit_match
    record_detection attempt execute query ◌>>=◌ fail pure read
execute_hunt_replay_example =
    execute_hunt_replay scanner (record objects { objects = λ t sha. none }) clean_scan 1 1
      (hunt queued) 2
      (record { store = with_cache; answers = true ∷ true ∷ true ∷ true ∷ false ∷ [] }) refl refl
      ((_, refl), ((_, refl), tt))

execute_hunt-IsComplete_example :
    Runs (IsComplete scanner 1 1 (hunt queued) 2 with_hunt) (execute_hunt scanner 1 1) with_hunt
unfolding find_hunt is_hunt
execute_hunt-IsComplete_example =
    execute_hunt-IsComplete scanner 1 1 (hunt queued) 2 with_hunt refl refl refl refl refl

-- Two claims in a row.
claim_exclusive_example : ◌≢◌ {A = ℕ} 2 1
unfolding claim_next_job claim_job claim next_pending first_row is_pending update_hunt update_job
    update_hunts update_jobs is_hunt is_queued execute statement ◌>>=◌ pure
claim_exclusive_example = claim_exclusive 100 101 "w" "v" 1 1 1 2 (quiet with_hunt) refl refl

-- The store after a run in which the sixth statement, the first of the loop, fails.
abbrev interrupted : Store
interrupted =
    after (execute_hunt scanner 1 1) with_hunt
      (true ∷ true ∷ true ∷ true ∷ true ∷ true ∷ false ∷ [])

interrupted-IsStuck : IsStuck 1 1 interrupted
unfolding execute_hunt visit key_of final_state bundle_sources planned_artifacts find_hunt is_hunt
    update_hunt update_hunts update_job update_jobs same_key commit_cache_entry commit_match
    record_detection attempt execute query ◌>>=◌ fail pure read is_pending
interrupted-IsStuck = record {
  row = record (hunt running) { started_at = some 100 };
  kind = refl;
  state = refl;
  found = refl;
  taken = λ k i same. elim i [
    | inl e ↦ let other : k.hunt_id ≡ 2 = rw e refl in ground arith
    | inr i' ↦ elim i' [ inl e ↦ rw e refl | inr i'' ↦ absurd i'' ]
  ];
}

IsStuck-stays_example :
    (enqueue_hunt engine 1 1 (quiet interrupted) ≡ (err (conflict 1 running), quiet interrupted))
    × ((claim_next_job 101 "v" (quiet interrupted)).0 ≢ ok (some (1, 1)))
    × IsStuck 1 1 (claim_next_job 101 "v" (quiet interrupted)).1.store
IsStuck-stays_example = IsStuck-stays 1 1 engine 101 "v" 1 interrupted interrupted-IsStuck

-- Three calls, of which the run stops in the middle.
abbrev created : Store
created = after (create_hunt 90 1 "b") no_hunts []

abbrev planned_store : Store
planned_store = after (enqueue_hunt engine 1 1) created []

abbrev stopped : Store
stopped =
    after (execute_hunt scanner 1 1) planned_store
      (true ∷ true ∷ true ∷ true ∷ true ∷ true ∷ true ∷ true ∷ true ∷ false ∷ [])

Reach-IsSound_example : IsSound config stopped
Reach-IsSound_example =
    Reach-IsSound config (record { matches = λ m i. absurd i })
      (later (later (later here (create 90 1 "b" [])) (enqueue engine 1 1 []))
        (runs scanner 1 1 _ refl))

abbrev bundle_scanner : BundleScanner
bundle_scanner = record {
  config = config;
  compile_bundle = λ sources. none;
  scan = λ sources bytes. scanner.scan 1 bytes;
}

abbrev new_bytes : Committed
new_bytes = record { tenant_id = 1; artifact_id = 1; sha256 = 7 ∷ []; bytes = 1 ∷ 2 ∷ [] }

forward_scan_matches :
    (forward_scan bundle_scanner new_bytes (quiet no_hunts)).0 ≡ ok ("Alpha" ∷ [])
unfolding forward_scan find_forward bundle_sources commit_cache_entry attempt execute query ◌>>=◌
    pure record_detection
forward_scan_matches = refl

-- A call that stops after the entry of the cache: the next one reports no match.
abbrev scanned_only : World
scanned_only =
    (forward_scan bundle_scanner new_bytes
      (record { store = no_hunts; answers = true ∷ true ∷ true ∷ true ∷ false ∷ [] })).1

forward_scan_loses : (forward_scan bundle_scanner new_bytes scanned_only).0 ≡ ok []
unfolding forward_scan find_forward forward_key bundle_sources same_key commit_cache_entry attempt
    execute query ◌>>=◌ pure
forward_scan_loses = refl

forward_scan_again_example :
    Runs
      (λ _ s'.
        forward_scan
          (with_scan bundle_scanner (λ sources. some "no") (λ sources bytes. clean_scan 1 bytes))
          new_bytes
          (quiet s')
        ≡ (ok [], quiet s'))
      (forward_scan bundle_scanner new_bytes)
      no_hunts
unfolding active_bundles
forward_scan_again_example =
    forward_scan_again bundle_scanner new_bytes no_hunts (λ sources. some "no")
      (λ sources bytes. clean_scan 1 bytes) (refl, tt)
