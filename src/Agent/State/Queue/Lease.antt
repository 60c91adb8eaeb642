-- ===== src/Agent/State/Queue/Lease.antt =====
-- state.rs: the leases of the queue, one after the other.
use mathlib.Core.Path.{subst}
use corpus.Prelude.{
  ℕ, ◌+◌, ◌<◌, ◌≡◌, ◌≢◌, refl, sym, ap, ◌∙◌, true, false, Option, none, some, List, [], ◌∷◌, ◌==◌,
  ==_refl, arith, All, Bool-cases, Option-cases, inl, inr,
}
use corpus.Agent.State.{Candidate, StateDb, update_row, find_row, get}
use corpus.Agent.State.Find.{All-find_row, find_row-update_row}
use corpus.Agent.State.Rows.{IsApart, IsConsistent, All-map, KeepsKeys}
use corpus.Agent.State.Invariant.{IsWellFormed, update_row-Holds}
use corpus.Agent.State.Queue.{due, comes_before, first_of_two, next_due, leased, lease_next_due}

-- No due row comes before `c`.
abbrev pub IsFirstDue : ℕ → Candidate → List Candidate → Type 0
IsFirstDue now c = All (λ d. due now d ≡ true → comes_before d c ≡ false)

abbrev pub IsBestDue : ℕ → List Candidate → Candidate → Type 0
IsBestDue now rows c = (due now c ≡ true) × IsFirstDue now c rows

-- Of three rows in the order `c`, `d`, `e` the last is not before the first.
not_before_trans :
    (c d e : Candidate)
    → comes_before d c ≡ false
    → comes_before e d ≡ false
    → comes_before e c ≡ false
unfolding comes_before
not_before_trans c d e h k = ground arith

comes_before_irrefl : (c : Candidate) → comes_before c c ≡ false
unfolding comes_before
comes_before_irrefl c = ground arith

comes_before_asymm : (c d : Candidate) → comes_before d c ≡ true → comes_before c d ≡ false
unfolding comes_before
comes_before_asymm c d h = ground arith

pub next_due-none :
    (now : ℕ) (rows : List Candidate) → next_due now rows ≡ none → All (λ d. due now d ≡ false) rows
unfolding next_due
next_due-none now [] h = tt
next_due-none now (c ∷ rows) h = (ground arith, next_due-none now rows (ground arith))

pub next_due-some :
    (now : ℕ) (rows : List Candidate) (c : Candidate)
    → next_due now rows ≡ some c
    → IsBestDue now rows c
unfolding next_due first_of_two
next_due-some now [] c h = cc
next_due-some now (d ∷ rows) c h = elim (Bool-cases (due now d)) [
  | inr late ↦
      let (ready, first) = next_due-some now rows c (ground (arith, h, late)) in
      (ready, (λ e. ground (arith, late, e), first))
  | inl ready ↦ elim (Option-cases (next_due now rows)) [
    | inl alone ↦
        let same : d ≡ c = ground (arith, h, ready, alone) in
        subst (IsBestDue now (d ∷ rows)) same (
          ready,
          (
            λ _. comes_before_irrefl d,
            All-map _ _ rows (λ e late due_e. absurd (ground (arith, late, due_e)))
                (next_due-none now rows alone),
          ),
        )
    | inr (b, found) ↦
        let (ready_b, first) = next_due-some now rows b found in
        elim (Bool-cases (comes_before b d)) [
          | inl other ↦
              let same : b ≡ c = ground (arith, h, ready, found, other) in
              subst (IsBestDue now (d ∷ rows)) same
                (ready_b, (λ _. comes_before_asymm d b other, first))
          | inr head ↦
              let same : d ≡ c = ground (arith, h, ready, found, head) in
              subst (IsBestDue now (d ∷ rows)) same (
                ready,
                (
                  λ _. comes_before_irrefl d,
                  All-map _ _ rows (λ e not_b due_e. not_before_trans d b e head (not_b due_e))
                      first,
                ),
              )
        ]
  ]
]

-- The row that is due first is the row of its id.
next_due-find_row :
    (now : ℕ) (rows : List Candidate) (c : Candidate)
    → IsConsistent rows
    → next_due now rows ≡ some c
    → find_row c.id rows ≡ some c
unfolding next_due find_row first_of_two
next_due-find_row now [] c h e = cc
next_due-find_row now (d ∷ rows) c h e = elim (Bool-cases (due now d)) [
  | inr late ↦ later c (next_due-find_row now rows c h.1 (ground (arith, e, late)))
  | inl ready ↦ elim (Option-cases (next_due now rows)) [
    | inl alone ↦ this (ground (arith, e, ready, alone))
    | inr (b, found) ↦ elim (Bool-cases (comes_before b d)) [
      | inl other ↦
          let same : b ≡ c = ground (arith, e, ready, found, other) in
          later c
            (next_due-find_row now rows c h.1 (subst (λ x. next_due now rows ≡ some x) same found))
      | inr head ↦ this (ground (arith, e, ready, found, head))
    ]
  ]
]
  where
    this : d ≡ c → find_row c.id (d ∷ rows) ≡ some c
    this same = ground (arith, same, ==_refl c.id)

    later : (b : Candidate) → find_row b.id rows ≡ some b → find_row b.id (d ∷ rows) ≡ some b
    later b found =
        let (apart, _) = All-find_row (IsApart d) b.id rows b h.0 found in
        elim (Bool-cases (d.id == b.id)) [
          | inl same ↦ absurd (apart.ids (ground (arith, same)))
          | inr ne ↦ ground (arith, ne, found)
        ]

-- What a lease hands out, and the row that it leaves.
pub record IsLeased (now lease_secs : ℕ) (db : StateDb) (c : Candidate) (db' : StateDb)
    : Type 0 where
  pub chosen : Candidate
  pub best : IsBestDue now db.candidates chosen
  pub found : get chosen.id db ≡ some chosen
  pub row : c ≡ leased now lease_secs chosen
  pub stored : get c.id db' ≡ some c

module _ (now lease_secs : ℕ) (db : StateDb) (w : IsWellFormed db) where
  leased_keys : KeepsKeys (leased now lease_secs)
  unfolding leased
  leased_keys = record { id = λ c. refl; path = λ c. refl }

  pub lease_next_due-IsWellFormed : IsWellFormed (lease_next_due now lease_secs db).0
  unfolding lease_next_due leased
  lease_next_due-IsWellFormed = go (next_due now db.candidates) refl
    where
      go :
          (o : Option Candidate)
          → next_due now db.candidates ≡ o
          → IsWellFormed (lease_next_due now lease_secs db).0
      go none e = rw (e, lease_next_due) w
      go (some c) e =
          rw (e, lease_next_due)
            (update_row-Holds c.id (λ _. Unit) (λ _. Unit) (leased now lease_secs) leased_keys
              (λ _ t. t) (λ _ _ active. active)
              (λ _ _ copy. record { sha256 = copy.sha256; spool_path = copy.spool_path }) db
              (record { well = w; row = All-map _ _ db.candidates (λ _ _ _. tt) w.ids })).1.well

  -- From a well-formed database a lease hands out the row of an id, as it was but for the two times that
  -- it sets; that row was due and active, no due row comes before it by priority and id, and it is
  -- stored as it was handed out.
  pub lease_next_due-IsLeased :
      (db' : StateDb) (c : Candidate)
      → lease_next_due now lease_secs db ≡ (db', some c)
      → IsLeased now lease_secs db c db'
  unfolding lease_next_due get leased
  lease_next_due-IsLeased db' c h = elim (Option-cases (next_due now db.candidates)) [
    | inl idle ↦ absurd (ground (arith, h, idle))
    | inr (old, found) ↦
        let row : c ≡ leased now lease_secs old = ground (arith, h, found) in
        let rows : db'.candidates ≡ update_row old.id (leased now lease_secs) db.candidates =
          ground (arith, h, found) in
        record {
          chosen = old;
          best = next_due-some now db.candidates old found;
          found = next_due-find_row now db.candidates old w.rows found;
          row = row;
          stored =
              rw (rows, row)
                (find_row-update_row old.id (leased now lease_secs) db.candidates old leased_keys
                  (next_due-find_row now db.candidates old w.rows found));
        }
  ]

some_inj : {c d : Candidate} → some c ≡ some d → c ≡ d
some_inj h = cc

two_leases :
    (now lease_secs now' lease_secs' : ℕ) (db db' db'' : StateDb) (c d : Candidate)
    → IsLeased now lease_secs db c db'
    → IsLeased now' lease_secs' db' d db''
    → now' < now + lease_secs
    → c.id ≢ d.id
unfolding leased due
two_leases now lease_secs now' lease_secs' db db' db'' c d one two during same =
    let id : two.chosen.id ≡ c.id = ap (λ x. x.id) (sym two.row) ∙ sym same in
    let again : two.chosen ≡ c = some_inj (sym two.found ∙ ap (λ i. get i db') id ∙ one.stored) in
    ground (arith, two.best.0, again, one.row, during)

-- Two leases of a well-formed database, the second before the first is over, and at any time with
-- any duration of its own, hand out two different rows.
pub lease_exclusive :
    (now lease_secs now' lease_secs' : ℕ) (db db' db'' : StateDb) (c d : Candidate)
    → IsWellFormed db
    → lease_next_due now lease_secs db ≡ (db', some c)
    → now' < now + lease_secs
    → lease_next_due now' lease_secs' db' ≡ (db'', some d)
    → c.id ≢ d.id
lease_exclusive now lease_secs now' lease_secs' db db' db'' c d w first during second same =
    let one = lease_next_due-IsLeased now lease_secs db w db' c first in
    let w' : IsWellFormed db' =
      subst (λ x. IsWellFormed x.0) first (lease_next_due-IsWellFormed now lease_secs db w) in
    let two = lease_next_due-IsLeased now' lease_secs' db' w' db'' d second in
    two_leases now lease_secs now' lease_secs' db db' db'' c d one two during same
