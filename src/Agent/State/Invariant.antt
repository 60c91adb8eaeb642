-- ===== src/Agent/State/Invariant.antt =====
-- The invariant of the agent's state, and the statements on `candidate`.
use corpus.Prelude.{
  ℕ, ◌≤◌, ◌≡◌, refl, Bool, true, false, some, ◌==◌, if◌then◌else◌, arith, All, Bool-cases, inl, inr,
  String,
}
use corpus.Prelude.Results.{ok, ok_inj}
use corpus.Agent.State.{
  CaptureState, hashed, announced, upload_required, uploading, finalizing, dedup_hit,
  occurrence_queued, complete, Candidate, StateDb, is_active, update_row, blocked, update_indexed,
}
use corpus.Agent.State.Rows.{
  IsConsistent, All-map, All-zip, All-update_row, KeepsKeys, IsConsistent-update_indexed,
  not_blocked,
}

-- The states that come after a copy into the spool.
abbrev pub is_copied : CaptureState → Bool
is_copied hashed = true
is_copied announced = true
is_copied dedup_hit = true
is_copied upload_required = true
is_copied uploading = true
is_copied finalizing = true
is_copied occurrence_queued = true
is_copied complete = true
is_copied _ = false

-- A row in such a state has the digest and the spool file of its copy.
pub record HasCopy (c : Candidate) : Type 0 where
  pub sha256 : is_copied c.state ≡ true → (s : String) × (c.sha256 ≡ some s)
  pub spool_path : is_copied c.state ≡ true → (p : String) × (c.spool_path ≡ some p)

pub record IsWellFormed (db : StateDb) : Type 0 where
  pub rows : IsConsistent db.candidates
  pub ids : All (λ c. c.id ≤ db.last_id) db.candidates
  pub copies : All HasCopy db.candidates

module _ (id : ℕ) (f : Candidate → Candidate) (keys : KeepsKeys f) (db : StateDb) where
  pub update_row-IsWellFormed :
      blocked id f db.candidates ≡ false
      → All (λ c. c.id ≡ id → HasCopy (f c)) db.candidates
      → IsWellFormed db
      → IsWellFormed (record db { candidates = update_row id f db.candidates })
  update_row-IsWellFormed free copy w = record {
    rows = IsConsistent-update_indexed id f keys db.candidates free w.rows;
    ids =
        All-update_row (λ c. c.id ≤ db.last_id) (λ c. c.id ≤ db.last_id) id f db.candidates
          (λ c h. ground (arith, keys.id c)) w.ids;
    copies =
        All-update_row (λ c. HasCopy c × (c.id ≡ id → HasCopy (f c))) HasCopy id f db.candidates
          (λ c t. choose c t.0 t.1) (All-zip _ _ db.candidates w.copies copy);
  }
    where
      choose :
          (c : Candidate)
          → HasCopy c
          → (c.id ≡ id → HasCopy (f c))
          → HasCopy (if c.id == id then f c else c)
      choose c old new = elim (Bool-cases (c.id == id)) [
        | inl hit ↦ rw hit (new (ground (arith, hit)))
        | inr miss ↦ rw miss old
      ]

  pub update_indexed-IsWellFormed :
      (db' : StateDb)
      → update_indexed id f db ≡ ok db'
      → All (λ c. c.id ≡ id → HasCopy (f c)) db.candidates
      → IsWellFormed db
      → IsWellFormed db'
  unfolding update_indexed
  update_indexed-IsWellFormed db' done copy w = elim (Bool-cases (blocked id f db.candidates)) [
    | inl bad ↦ absurd (ground (arith, done, bad))
    | inr free ↦ rw (← (ok_inj (rw free at done))) (update_row-IsWellFormed free copy w)
  ]

-- `P` holds of the row `id`, in a well-formed database.
pub record Holds (id : ℕ) (P : Candidate → Type 0) (db : StateDb) : Type 0 where
  pub well : IsWellFormed db
  pub row : All (λ c. c.id ≡ id → P c) db.candidates

-- The tables that no statement on `candidate` writes.
pub record SameRest (db db' : StateDb) : Type 0 where
  pub identity : db'.identity ≡ db.identity
  pub baseline_dirs : db'.baseline_dirs ≡ db.baseline_dirs
  pub gaps : db'.gaps ≡ db.gaps
  pub last_gap_id : db'.last_gap_id ≡ db.last_gap_id
  pub counters : db'.counters ≡ db.counters
  pub seen_files : db'.seen_files ≡ db.seen_files
  pub last_id : db'.last_id ≡ db.last_id

module _ (id : ℕ) (P Q : Candidate → Type 0) (f : Candidate → Candidate) (keys : KeepsKeys f)
    (post : (c : Candidate) → P c → Q (f c))
    (active : (c : Candidate) → P c → is_active (f c).state ≡ true → is_active c.state ≡ true)
    (copied : (c : Candidate) → P c → HasCopy c → HasCopy (f c)) where
  updated_row :
      (c : Candidate)
      → (c.id ≡ id → P c)
      → (if c.id == id then f c else c).id ≡ id
      → Q (if c.id == id then f c else c)
  updated_row c h e = elim (Bool-cases (c.id == id)) [
    | inl hit ↦ rw hit (post c (h (ground (arith, hit))))
    | inr miss ↦ absurd (ground (arith, rw miss at e, miss))
  ]

  -- A write to the row that makes no row active moves it, and keeps the invariant.
  pub update_row-Holds :
      (db : StateDb)
      → Holds id P db
      → (blocked id f db.candidates ≡ false)
        × Holds id Q (record db { candidates = update_row id f db.candidates })
  update_row-Holds db h =
      let free =
        not_blocked id f keys db.candidates h.well.rows
          (All-map _ _ db.candidates (λ c p e. active c (p e)) h.row) in
      (
        free,
        record {
          well =
              update_row-IsWellFormed id f keys db free
                (All-map _ _ db.candidates (λ c t e. copied c (t.0 e) t.1)
                  (All-zip _ _ db.candidates h.row h.well.copies))
                h.well;
          row =
              All-update_row (λ c. c.id ≡ id → P c) (λ c. c.id ≡ id → Q c) id f db.candidates
                updated_row h.row;
        },
      )

  -- So the statement that checks the index succeeds.
  pub update_indexed-Holds :
      (db : StateDb)
      → Holds id P db
      → (db' : StateDb) × (update_indexed id f db ≡ ok db') × Holds id Q db' × SameRest db db'
  unfolding update_indexed
  update_indexed-Holds db h =
      let (free, held) = update_row-Holds db h in
      (
        record db { candidates = update_row id f db.candidates },
        rw free,
        held,
        record {
          identity = refl;
          baseline_dirs = refl;
          gaps = refl;
          last_gap_id = refl;
          counters = refl;
          seen_files = refl;
          last_id = refl;
        },
      )
