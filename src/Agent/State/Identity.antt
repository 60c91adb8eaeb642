-- ===== src/Agent/State/Identity.antt =====
-- state.rs: the key-value table `identity` with the occurrence sequence, the baseline checkpoints
-- and the snapshot of seen files; main.rs: `refresh_boot_identity`.
pub mod Sequence
use corpus.Prelude.{
  ℕ, ◌+◌, ◌≡◌, Bool, true, false, not, ◌&&◌, Option, none, some, List, [], ◌∷◌, String, ◌==◌,
  str_eq, if◌then◌else◌,
}
use corpus.Prelude.Assoc.{Assoc, lookup, insert}
use corpus.Agent.State.{StateDb, SeenFile}

-- Numbers in TEXT columns: SQLite's CAST in both directions and Rust's `parse`, with what the code
-- relies on.
pub record Decimal : Type 0 where
  pub to_text : ℕ → String
  pub to_int : String → ℕ
  pub parse : String → Option ℕ
  pub to_text_zero : to_text 0 ≡ "0"
  pub to_int-to_text : (n : ℕ) → to_int (to_text n) ≡ n
  pub parse-to_text : (n : ℕ) → parse (to_text n) ≡ some n

unfoldable pub get_identity : String → StateDb → Option String
get_identity key db = lookup key db.identity

unfoldable pub set_identity : String → String → StateDb → StateDb
set_identity key value db = record db { identity = insert key value db.identity }

insert_many : List (String × String) → Assoc String → Assoc String
insert_many [] table = table
insert_many ((key, value) ∷ pairs) table = insert_many pairs (insert key value table)

-- One transaction: all the keys, or none.
unfoldable pub set_identity_many : List (String × String) → StateDb → StateDb
unfolding insert_many
set_identity_many pairs db = record db { identity = insert_many pairs db.identity }

-- INSERT … ('agent_sequence', '0') ON CONFLICT(key) DO NOTHING
unfoldable pub sequence_text : StateDb → String
unfolding get_identity
sequence_text db = elim (get_identity "agent_sequence" db) [ none ↦ "0" | some v ↦ v ]

-- The insertion, the update and the selection. An i64 is not exceeded by events one at a time.
unfoldable pub next_sequence : Decimal → StateDb → StateDb × Option ℕ
unfolding set_identity
next_sequence dec db =
    let value = dec.to_text (dec.to_int (sequence_text db) + 1) in
    (set_identity "agent_sequence" value db, dec.parse value)

-- main.rs: a new boot id is stored, and the sequence starts again, in one transaction.
-- Also returns whether the boot id changed.
unfoldable pub refresh_boot_identity : String → StateDb → StateDb × Bool
unfolding get_identity set_identity_many
refresh_boot_identity current db = elim (get_identity "boot_id" db) [
  | some stored ↦
      if str_eq stored current
      then (db, false)
      else (set_identity_many (("boot_id", current) ∷ ("agent_sequence", "0") ∷ []) db, true)
  | none ↦ (set_identity_many (("boot_id", current) ∷ ("agent_sequence", "0") ∷ []) db, false)
]

unfoldable pub baseline_dir_done : String → StateDb → Bool
baseline_dir_done path db = elim (lookup path db.baseline_dirs) [ none ↦ false | some done ↦ done ]

unfoldable pub mark_baseline_dir : String → Bool → StateDb → StateDb
mark_baseline_dir path done db = record db { baseline_dirs = insert path done db.baseline_dirs }

unfoldable pub same_file : SeenFile → SeenFile → Bool
same_file a b = a.inode == b.inode && a.mtime_secs == b.mtime_secs && a.size == b.size

-- Also returns whether the file is new or changed.
unfoldable pub seen_check_and_update : String → SeenFile → StateDb → StateDb × Bool
unfolding same_file
seen_check_and_update path file db =
    let changed : Bool = elim (lookup path db.seen_files) [
      | none ↦ true
      | some prev ↦ not (same_file prev file)
    ] in
    if changed
    then (record db { seen_files = insert path file db.seen_files }, true)
    else (db, false)
