-- ===== src/Server/Triggers/Settle.antt =====
-- triggers.rs: what one post of a sweep makes of the rows of the outbox.
use corpus.Prelude.{
  ℕ, zero, suc, ◌+◌, ◌^◌, ◌≤◌, ◌<◌, ◌≡◌, ◌≢◌, refl, sym, ap, ◌∙◌, arith, Bool, true, false,
  Bool-cases, ◌⊎◌, inl, inr, Option, none, some, List, [], ◌∷◌, All, leb, ◌==◌, ==_iff,
  if◌then◌else◌,
}
use corpus.Server.Hash.{Text}
use corpus.Server.Hunts.Sound.{In}
use corpus.Server.Triggers.{Delivery, backoff, settle_row, update_rows}

-- No two rows have one id.
abbrev pub Distinct : List Delivery → Type 0
Distinct [] = Unit
Distinct (r ∷ rows) = All (λ s. s.id ≢ r.id) rows × Distinct rows

-- An open row has been posted fewer than eight times.
pub record IsSane (r : Delivery) : Type 0 where
  pub attempts : r.attempts ≤ 8
  pub is_open : r.delivered_at ≡ none → r.attempts ≤ 7

-- What a post makes of an open row: closed, or with one attempt more, and due again later.
pub record IsPosted (now : ℕ) (r r' : Delivery) : Type 0 where
  pub was_open : r.delivered_at ≡ none
  pub was_due : r.next_attempt_at ≤ now
  pub outcome :
      (r'.delivered_at ≡ some now)
      ⊎ ((r'.attempts ≡ r.attempts + 1)
          × (now + 5 ≤ r'.next_attempt_at)
          × (r'.next_attempt_at ≤ now + 300))
  pub sane : IsSane r'

-- A row before and after a sweep.
pub record IsSwept (now : ℕ) (r r' : Delivery) : Type 0 where
  pub id : r'.id ≡ r.id
  pub moved : (r' ≡ r) ⊎ IsPosted now r r'

abbrev pub Swept : ℕ → List Delivery → List Delivery → Type 0
Swept now [] [] = Unit
Swept now (r ∷ rows) (r' ∷ rows') = IsSwept now r r' × Swept now rows rows'
Swept now _ _ = ⊥

pow_positive : (n : ℕ) → 1 ≤ 2 ^ n
pow_positive zero = omega arith
pow_positive (suc n) = omega (arith, pow_positive n)

backoff_bounds : (n : ℕ) → (5 ≤ backoff n) × (backoff n ≤ 300)
unfolding backoff
backoff_bounds n = let one = pow_positive n in (omega (arith, one), omega arith)

settle_row-IsPosted :
    (now : ℕ) (answer : Option Text) (r : Delivery)
    → IsSane r
    → r.delivered_at ≡ none
    → r.next_attempt_at ≤ now
    → IsPosted now r (settle_row now answer r.attempts r)
unfolding settle_row
settle_row-IsPosted now none r h e due = record {
  was_open = e;
  was_due = due;
  outcome = inl refl;
  sane = record { attempts = h.attempts; is_open = λ e'. cc };
}
settle_row-IsPosted now (some why) r h e due =
    let bounds = backoff_bounds r.attempts in
    let room = h.is_open e in
    elim (Bool-cases (leb 8 (r.attempts + 1))) [
      | inl last ↦ rw last (record {
        was_open = e;
        was_due = due;
        outcome = inl refl;
        sane = record { attempts = omega (arith, room); is_open = λ e'. cc };
      })
      | inr again ↦
          let below : r.attempts + 1 < 8 = ground (arith, again) in
          rw again (record {
            was_open = e;
            was_due = due;
            outcome = inr (refl, omega (arith, bounds.0), omega (arith, bounds.1));
            sane = record { attempts = omega (arith, room); is_open = λ e'. omega (arith, below) };
          })
    ]

pub Swept-refl : (now : ℕ) (rows : List Delivery) → Swept now rows rows
Swept-refl now [] = tt
Swept-refl now (r ∷ rows) = (record { id = refl; moved = inl refl }, Swept-refl now rows)

pub All-In :
    (P : Delivery → Type 0) (rows : List Delivery) (r : Delivery) → All P rows → In r rows → P r
All-In P [] r h i = absurd i
All-In P (s ∷ rows) r h (inl e) = rw e h.0
All-In P (s ∷ rows) r h (inr i) = All-In P rows r h.1 i

pub unique_row :
    (rows : List Delivery) (a b : Delivery)
    → Distinct rows
    → In a rows
    → In b rows
    → a.id ≡ b.id
    → a ≡ b
unique_row [] a b h i j e = absurd i
unique_row (r ∷ rows) a b h (inl e₁) (inl e₂) e = e₁ ∙ sym e₂
unique_row (r ∷ rows) a b h (inl e₁) (inr j) e =
    let apart = All-In (λ s. s.id ≢ r.id) rows b h.0 j in
    absurd (apart (sym e ∙ ap (λ (s : Delivery). s.id) e₁))
unique_row (r ∷ rows) a b h (inr i) (inl e₂) e =
    let apart = All-In (λ s. s.id ≢ r.id) rows a h.0 i in
    absurd (apart (e ∙ ap (λ (s : Delivery). s.id) e₂))
unique_row (r ∷ rows) a b h (inr i) (inr j) e = unique_row rows a b h.1 i j e

pub settle_row_id :
    (now : ℕ) (answer : Option Text) (r : Delivery) → (settle_row now answer r.attempts r).id ≡ r.id
unfolding settle_row
settle_row_id now none r = refl
settle_row_id now (some why) r = elim (Bool-cases (leb 8 (r.attempts + 1))) [
  | inl e ↦ rw e refl
  | inr e ↦ rw e refl
]

-- One row is settled; a row of this id is this row, before the sweep and now.
module _ (now : ℕ) (answer : Option Text) (r : Delivery) where
  step-IsSwept :
      (s s' : Delivery) (same : Bool)
      → (s'.id == r.id) ≡ same
      → IsSane r
      → r.delivered_at ≡ none
      → r.next_attempt_at ≤ now
      → (s'.id ≡ r.id → s ≡ r)
      → (s'.id ≡ r.id → s' ≡ r)
      → IsSwept now s s'
      → IsSwept now s (if same then settle_row now answer r.attempts s' else s')
  unfolding settle_row
  step-IsSwept s s' false e sane is_open due was is h = h
  step-IsSwept s s' true e sane is_open due was is h =
      let hit = (==_iff s'.id r.id).0 e in
      rw (was hit, is hit)
        (record {
          id = settle_row_id now answer r;
          moved = inr (settle_row-IsPosted now answer r sane is_open due);
        })

  pub update_rows-Swept :
      (rows rows' : List Delivery)
      → IsSane r
      → r.delivered_at ≡ none
      → r.next_attempt_at ≤ now
      → ((s : Delivery) → In s rows → s.id ≡ r.id → s ≡ r)
      → ((s : Delivery) → In s rows' → s.id ≡ r.id → s ≡ r)
      → Swept now rows rows'
      → Swept now rows (update_rows (settle_row now answer r.attempts) r.id rows')
  unfolding update_rows
  update_rows-Swept [] [] sane is_open due was is h = tt
  update_rows-Swept [] (s' ∷ rows') sane is_open due was is h = h
  update_rows-Swept (s ∷ rows) [] sane is_open due was is h = h
  update_rows-Swept (s ∷ rows) (s' ∷ rows') sane is_open due was is h = (
    step-IsSwept s s' (s'.id == r.id) refl sane is_open due (λ e. was s (inl refl) (sym h.0.id ∙ e))
        (λ e. is s' (inl refl) e) h.0,
    update_rows-Swept rows rows' sane is_open due (λ t i e. was t (inr i) e)
        (λ t i e. is t (inr i) e) h.1,
  )

  -- Another row stays.
  pub In-update_rows :
      (s : Delivery) (rows : List Delivery)
      → s.id ≢ r.id
      → In s rows
      → In s (update_rows (settle_row now answer r.attempts) r.id rows)
  unfolding update_rows
  In-update_rows s [] apart i = absurd i
  In-update_rows s (t ∷ rows) apart (inr i) = inr (In-update_rows s rows apart i)
  In-update_rows s (t ∷ rows) apart (inl e) = elim (Bool-cases (t.id == r.id)) [
    | inl hit ↦ absurd (apart (ap (λ (x : Delivery). x.id) e ∙ (==_iff t.id r.id).0 hit))
    | inr miss ↦ inl (rw miss e)
  ]

-- The rows of a sweep keep their ids, so they stay apart.
pub Swept-Distinct :
    (now : ℕ) (rows rows' : List Delivery) → Swept now rows rows' → Distinct rows → Distinct rows'
Swept-Distinct now [] [] h k = tt
Swept-Distinct now [] (s ∷ rows') h k = absurd h
Swept-Distinct now (r ∷ rows) [] h k = absurd h
Swept-Distinct now (r ∷ rows) (s ∷ rows') h k =
    (apart rows rows' h.0.id h.1 k.0, Swept-Distinct now rows rows' h.1 k.1)
  where
    apart :
        (us vs : List Delivery)
        → s.id ≡ r.id
        → Swept now us vs
        → All (λ u. u.id ≢ r.id) us
        → All (λ v. v.id ≢ s.id) vs
    apart [] [] same h k = tt
    apart [] (v ∷ vs) same h k = absurd h
    apart (u ∷ us) [] same h k = absurd h
    apart (u ∷ us) (v ∷ vs) same h k =
        ((λ e. k.0 (sym h.0.id ∙ e ∙ same)), apart us vs same h.1 k.1)
