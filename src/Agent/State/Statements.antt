-- ===== src/Agent/State/Statements.antt =====
-- Each statement on the table `candidate`, on a row of which something is known.
use corpus.Prelude.{
  ℕ, suc, ◌+◌, ◌≤◌, ◌≡◌, refl, ap, true, ◌&&◌, some, List, [], ◌∷◌, ◌++◌, any, str_eq, eq_iff,
  arith, All, All-append, Bool-cases, inl, inr, String,
}
use corpus.Prelude.Results.{ok}
use corpus.Agent.State.{
  CaptureState, hashed, gap_recorded, Candidate, StateDb, is_active, enqueue, transition, set_retry,
  defer, set_hashed, finish_gap,
}
use corpus.Agent.State.Rows.{IsApart, IsConsistent, any-false, All-map, All-zip}
use corpus.Agent.State.Invariant.{
  is_copied, HasCopy, IsWellFormed, Holds, SameRest, update_row-Holds, update_indexed-Holds,
}

-- The row's state and the attempts that it has used.
abbrev pub InState : CaptureState → ℕ → Candidate → Type 0
InState s a c = (c.state ≡ s) × (c.attempts ≡ a)

module _ (now id : ℕ) (s : CaptureState) (a : ℕ) (db : StateDb)
    (h : Holds id (InState s a) db) where
  -- A transition of an active row, to a state that needs no copy it has not.
  pub transition-Holds :
      (t : CaptureState)
      → is_active s ≡ true
      → (is_copied t ≡ true → is_copied s ≡ true)
      → (db' : StateDb) × (transition now id t db ≡ ok db')
        × Holds id (InState t a) db'
        × SameRest db db'
  unfolding transition
  transition-Holds t active copied =
      update_indexed-Holds id (InState s a) (InState t a)
        (λ c. record c { state = t; updated_at = now })
        (record { id = λ c. refl; path = λ c. refl }) (λ c p. (refl, p.1))
        (λ c p _. ground (arith, p.0))
        (λ c p copy. record {
          sha256 = λ e. copy.sha256 (ground (arith, p.0, copied));
          spool_path = λ e. copy.spool_path (ground (arith, p.0, copied));
        })
        db h

  pub set_hashed-Holds :
      (sha256 : String) (size : ℕ) (spool_path : String)
      → is_active s ≡ true
      → (db' : StateDb) × (set_hashed now id sha256 size spool_path db ≡ ok db')
        × Holds id (InState hashed a) db'
        × SameRest db db'
  unfolding set_hashed
  set_hashed-Holds sha256 size spool_path active =
      update_indexed-Holds id (InState s a) (InState hashed a)
        (λ c. record c {
          state = hashed;
          sha256 = some sha256;
          size_bytes = some size;
          spool_path = some spool_path;
          updated_at = now;
        })
        (record { id = λ c. refl; path = λ c. refl }) (λ c p. (refl, p.1))
        (λ c p _. ground (arith, p.0))
        (λ c p copy. record { sha256 = λ e. (sha256, refl); spool_path = λ e. (spool_path, refl) })
        db h

  pub finish_gap-Holds :
      (terminal_reason : String)
      → (db' : StateDb) × (finish_gap now id terminal_reason db ≡ ok db')
        × Holds id (InState gap_recorded a) db'
        × SameRest db db'
  unfolding finish_gap
  finish_gap-Holds terminal_reason =
      update_indexed-Holds id (InState s a) (InState gap_recorded a)
        (λ c. record c {
          state = gap_recorded;
          terminal_reason = some terminal_reason;
          updated_at = now;
        })
        (record { id = λ c. refl; path = λ c. refl }) (λ c p. (refl, p.1)) (λ c p e. cc)
        (λ c p copy. record { sha256 = λ e. cc; spool_path = λ e. cc }) db h

  pub set_retry-Holds :
      (at : ℕ)
      → Holds id (λ c. InState s (a + 1) c × (c.next_retry_at ≡ at)) (set_retry now id at db)
  unfolding set_retry
  set_retry-Holds at =
      (update_row-Holds id (InState s a) (λ c. InState s (a + 1) c × (c.next_retry_at ≡ at))
        (λ c. record c { attempts = c.attempts + 1; next_retry_at = at; updated_at = now })
        (record { id = λ c. refl; path = λ c. refl })
        (λ c p. ((p.0, ap (λ (n : ℕ). n + 1) p.1), refl)) (λ c p e. e)
        (λ c p copy. record { sha256 = copy.sha256; spool_path = copy.spool_path }) db h).1

  pub defer-Holds :
      (at : ℕ) → Holds id (λ c. InState s a c × (c.next_retry_at ≡ at)) (defer now id at db)
  unfolding defer
  defer-Holds at =
      (update_row-Holds id (InState s a) (λ c. InState s a c × (c.next_retry_at ≡ at))
        (λ c. record c { next_retry_at = at; updated_at = now })
        (record { id = λ c. refl; path = λ c. refl }) (λ c p. (p, refl)) (λ c p e. e)
        (λ c p copy. record { sha256 = copy.sha256; spool_path = copy.spool_path }) db h).1

-- A row that no write has named keeps its place beside a new one.
IsConsistent-snoc :
    (rows : List Candidate) (new : Candidate)
    → IsConsistent rows
    → All (λ c. IsApart c new) rows
    → IsConsistent (rows ++ new ∷ [])
IsConsistent-snoc [] new h a = (tt, tt)
IsConsistent-snoc (c ∷ rows) new h a =
    (All-append (IsApart c) rows (new ∷ []) h.0 (a.0, tt), IsConsistent-snoc rows new h.1 a.1)

-- `enqueue` leaves a well-formed database well formed, whether it adds a row or finds the path active.
pub enqueue-IsWellFormed :
    (now : ℕ) (path : String) (priority : ℕ) (capture_reason : String) (debounce_ms : ℕ)
    (db : StateDb)
    → IsWellFormed db
    → IsWellFormed (enqueue now path priority capture_reason debounce_ms db).0
unfolding enqueue
enqueue-IsWellFormed now path priority capture_reason debounce_ms db w =
    let taken = λ (c : Candidate). is_active c.state && str_eq c.path path in
    elim (Bool-cases (any taken db.candidates)) [
      | inl dup ↦ rw dup w
      | inr free ↦ rw free (record {
        rows = IsConsistent-snoc db.candidates _ w.rows (
            All-map _ _ db.candidates
              (λ c t. record {
                ids = λ e. omega (arith, t.0);
                paths = λ p q e. ground (arith, t.1, eq_iff c.path path);
              })
              (All-zip _ _ db.candidates w.ids (any-false taken db.candidates free)));
        ids =
            All-append (λ c. c.id ≤ suc db.last_id) db.candidates _
              (All-map _ _ db.candidates (λ c le. omega (arith, le)) w.ids) (omega arith, tt);
        copies = All-append HasCopy db.candidates _ w.copies (
          record { sha256 = λ e. absurd (ground arith); spool_path = λ e. absurd (ground arith) },
          tt,
        );
      })
    ]
