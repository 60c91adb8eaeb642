-- ===== src/Agent/Capture/Rules.antt =====
-- Rules for the actions of a worker: what an action does to the row that it works on.
use corpus.Prelude.{ℕ, ◌≡◌, true, none, Bool-cases, inl, inr, Option, String}
use corpus.Prelude.Results.{Result, ok, err}
use corpus.Agent.State
use corpus.Agent.State.{CaptureState, is_active, DbError, Candidate, StateDb, GapDetail}
use corpus.Agent.State.Invariant.{is_copied, Holds}
use corpus.Agent.State.Statements.{InState, transition-Holds, set_hashed-Holds, finish_gap-Holds}
use corpus.Agent.State.Identity.{Decimal, sequence_text, next_sequence, set_identity}
use corpus.Agent.State.Identity.Sequence.{next_sequence_lem}
use corpus.Agent.State.Gaps.{insert_gap, increment_counter}
use corpus.Agent.Capture.Actions.{
  World, ProcessError, statement_failed, Action, ◌>>=◌, ◌>>◌, goes, later, answered, run, indexed,
  checked, update, modify,
}
use corpus.Agent.Capture.Runtime.{Answers, move, gap, read_number, take_number, take_sequence}

-- The other tables do not matter to what is known of the row.
module _ (id : ℕ) (P : Candidate → Type 0) (db : StateDb) (h : Holds id P db) where
  pub increment_counter-Holds : (outcome : String) → Holds id P (increment_counter outcome db)
  unfolding increment_counter
  increment_counter-Holds outcome = record {
    well = record { rows = h.well.rows; ids = h.well.ids; copies = h.well.copies };
    row = h.row;
  }

  pub set_identity-Holds : (key value : String) → Holds id P (set_identity key value db)
  unfolding set_identity
  set_identity-Holds key value = record {
    well = record { rows = h.well.rows; ids = h.well.ids; copies = h.well.copies };
    row = h.row;
  }

  pub next_sequence-Holds : (dec : Decimal) → Holds id P (next_sequence dec db).0
  unfolding next_sequence
  next_sequence-Holds dec = set_identity-Holds _ _

  pub insert_gap-Holds :
      (now reason outcome : String) (sha path code : Option String) (detail : GapDetail)
      → Holds id P (insert_gap now reason outcome sha path code detail db)
  unfolding insert_gap
  insert_gap-Holds now reason outcome sha path code detail = record {
    well = record { rows = h.well.rows; ids = h.well.ids; copies = h.well.copies };
    row = h.row;
  }

module _ (statement : StateDb → Result DbError StateDb) (w : World) (db' : StateDb)
    (e : statement w.db ≡ ok db') where
  indexed_ok : indexed statement w ≡ (ok tt, record w { db = db' })
  indexed_ok = rw (e, indexed)

module _ {B : Type 0} (Post : Result ProcessError B × World → Type 0) where
  -- One statement that is the last of a call.
  pub run-last :
      (m : Action B) (w : World)
      → Post (m (answered w))
      → Post (err statement_failed, answered w)
      → Post (run m w)
  run-last m w through failed = elim (Bool-cases (goes w.answers)) [
    | inl e ↦ rw e through
    | inr e ↦ rw e failed
  ]

  -- One statement, and what follows it.
  pub run-then :
      {A : Type 0} (m : Action A) (k : A → Action B) (w : World)
      → Post ((m >>= k) (answered w))
      → Post (err statement_failed, answered w)
      → Post ((run m >>= k) w)
  run-then m k w through failed = elim (Bool-cases (goes w.answers)) [
    | inl e ↦ rw e through
    | inr e ↦ rw e failed
  ]

  -- What holds of the row before a call that a failed statement ends.
  abbrev pub Stops : ℕ → (Candidate → Type 0) → Type 0
  Stops id P = (w : World) → Holds id P w.db → Post (err statement_failed, w)

  pub modify-then :
      (id : ℕ) (P Q : Candidate → Type 0) (statement : StateDb → StateDb) (k : Action B) (w : World)
      → Holds id P w.db
      → Holds id Q (statement w.db)
      → Stops id P
      → ((w' : World) → Holds id Q w'.db → Post (k w'))
      → Post ((modify statement >> k) w)
  modify-then id P Q statement k w h after stops next =
      run-then (update statement) (λ _. k) w (next _ after) (stops _ h)

  pub gap-then :
      (ans : Answers) (id : ℕ) (P : Candidate → Type 0) (reason outcome : String)
      (sha path : Option String) (detail : GapDetail) (k : Action B) (w : World)
      → Holds id P w.db
      → ((w' : World) → Holds id P w'.db → Post (k w'))
      → Post ((gap ans reason outcome sha path detail >> k) w)
  unfolding gap
  gap-then ans id P reason outcome sha path detail k w h next =
      let inserted =
        insert_gap-Holds id P w.db h ans.now_text reason outcome sha path none detail in
      elim (Bool-cases (goes w.answers)) [
        | inr e ↦ rw e (next _ h)
        | inl e ↦ rw e (elim (Bool-cases (goes (later w.answers))) [
          | inl c ↦ rw c (next _ (increment_counter-Holds id P _ inserted outcome))
          | inr c ↦ rw c (next _ inserted)
        ])
      ]

  module _ (ans : Answers) (id a : ℕ) where
    -- A transition that the row's state allows, and what follows it.
    pub move-then :
        (s t : CaptureState) (k : Action B) (w : World)
        → Holds id (InState s a) w.db
        → is_active s ≡ true
        → (is_copied t ≡ true → is_copied s ≡ true)
        → Stops id (InState s a)
        → ((w' : World) → Holds id (InState t a) w'.db → Post (k w'))
        → Post ((move ans id t >> k) w)
    move-then s t k w h active copied stops next =
        let (db', e, held, _) = transition-Holds ans.now id s a w.db h t active copied in
        run-then (indexed (State.transition ans.now id t)) (λ _. k) w
          (rw (indexed_ok _ (answered w) db' e) (next _ held)) (stops _ h)

    pub set_hashed-then :
        (s : CaptureState) (sha256 : String) (size : ℕ) (path : String) (k : Action B) (w : World)
        → Holds id (InState s a) w.db
        → is_active s ≡ true
        → Stops id (InState s a)
        → ((w' : World) → Holds id (InState State.hashed a) w'.db → Post (k w'))
        → Post ((checked (State.set_hashed ans.now id sha256 size path) >> k) w)
    set_hashed-then s sha256 size path k w h active stops next =
        let (db', e, held, _) = set_hashed-Holds ans.now id s a w.db h sha256 size path active in
        run-then (indexed (State.set_hashed ans.now id sha256 size path)) (λ _. k) w
          (rw (indexed_ok _ (answered w) db' e) (next _ held)) (stops _ h)

  -- A number is given, unless a statement fails.
  pub take_sequence-then :
      (id : ℕ) (P : Candidate → Type 0) (dec : Decimal) (k : ℕ → Action B) (w : World)
      → Holds id P w.db
      → Stops id P
      → ((n : ℕ) (w' : World) → Holds id P w'.db → Post (k n w'))
      → Post ((take_sequence dec >>= k) w)
  unfolding take_sequence take_number read_number
  take_sequence-then id P dec k w h stops next =
      let inserted = set_identity-Holds id P w.db h "agent_sequence" (sequence_text w.db) in
      let first : World = record w {
        db = set_identity "agent_sequence" (sequence_text w.db) w.db;
        answers = later w.answers;
      } in
      let (number, _, _) = next_sequence_lem dec first.db in
      let bumped = next_sequence-Holds id P first.db inserted dec in
      elim (Bool-cases (goes w.answers)) [
        | inr e ↦ rw e (stops _ h)
        | inl e ↦ rw e (elim (Bool-cases (goes (later w.answers))) [
          | inr e' ↦ rw e' (stops _ inserted)
          | inl e' ↦ rw e' (elim (Bool-cases (goes (later (later w.answers)))) [
            | inr e'' ↦ rw e'' (stops _ bumped)
            | inl e'' ↦ rw (e'', number, read_number) (next _ _ bumped)
          ])
        ])
      ]

pub finish_gap-then :
    (Post : Result ProcessError (Unit {0}) × World → Type 0) (ans : Answers) (id a : ℕ)
    (s : CaptureState) (outcome : String) (w : World)
    → Holds id (InState s a) w.db
    → Stops Post id (InState s a)
    → ((w' : World) → Holds id (InState State.gap_recorded a) w'.db → Post (ok tt, w'))
    → Post (checked (State.finish_gap ans.now id outcome) w)
finish_gap-then Post ans id a s outcome w h stops next =
    let (db', e, held, _) = finish_gap-Holds ans.now id s a w.db h outcome in
    run-last Post (indexed (State.finish_gap ans.now id outcome)) w
      (rw (indexed_ok _ (answered w) db' e) (next _ held)) (stops _ h)
