-- ===== src/Server/Triggers/Sweep.antt =====
-- triggers.rs: what one sweep makes of the rows of the outbox.
use corpus.Prelude.{
  ℕ, zero, suc, ◌≤◌, ◌≡◌, ◌≢◌, refl, sym, arith, true, false, Bool-cases, inl, inr, Option,
  Option-cases, none, List, [], ◌∷◌, All, take, leb, find?, ◌==◌,
}
use corpus.Server.Hash.{Text, Digests}
use corpus.Server.Hunts.Sound.{In}
use corpus.Server.Triggers.{
  Delivery, Endpoint, Outside, request, is_due, join_due, insert_due, order_due, settle_row,
  update_rows, count_success, deliver_all, deliver_pending,
}
use corpus.Server.Triggers.Settle.{
  Distinct, IsSane, Swept, Swept-refl, All-In, unique_row, update_rows-Swept, In-update_rows,
  Swept-Distinct,
}

-- No two posts of a sweep are of one row.
abbrev pub Apart : List (Delivery × Endpoint) → Type 0
Apart [] = Unit
Apart (p ∷ due) = All (λ q. q.0.id ≢ p.0.id) due × Apart due

-- A row of the outbox that is due.
record IsReady (now : ℕ) (rows : List Delivery) (p : Delivery × Endpoint) : Type 0 where
  stored : In p.0 rows
  sane : IsSane p.0
  is_open : p.0.delivered_at ≡ none
  due : p.0.next_attempt_at ≤ now

pub still_there :
    (now : ℕ) (answer : Option Text) (r : Delivery) (rows : List Delivery)
    (due : List (Delivery × Endpoint))
    → All (λ q. q.0.id ≢ r.id) due
    → All (λ q. In q.0 rows) due
    → All (λ q. In q.0 (update_rows (settle_row now answer r.attempts) r.id rows)) due
still_there now answer r rows [] apart h = tt
still_there now answer r rows (q ∷ due) apart h = (
  In-update_rows now answer r q.0 rows apart.0 h.0,
  still_there now answer r rows due apart.1 h.1,
)

module _ (d : Digests) (o : Outside) (rows₀ : List Delivery) (distinct : Distinct rows₀) where
  deliver_all-Swept :
      (due : List (Delivery × Endpoint)) (n : ℕ) (rows : List Delivery)
      → All (IsReady o.now rows₀) due
      → All (λ q. In q.0 rows) due
      → Apart due
      → Swept o.now rows₀ rows
      → Swept o.now rows₀ (deliver_all d o due n rows).1
  unfolding deliver_all
  deliver_all-Swept [] n rows ready here apart h = h
  deliver_all-Swept ((r, e) ∷ due) n rows ready here apart h =
      elim (Bool-cases (o.statement r.id)) [
        | inr fails ↦ rw (fails, deliver_all) h
        | inl goes ↦
            let answer = o.post (request d r e) in
            let now_distinct = Swept-Distinct o.now rows₀ rows h distinct in
            rw (goes, deliver_all)
              (deliver_all-Swept due (count_success answer n) _ ready.1
                (still_there o.now answer r rows due apart.0 here.1) apart.1
                (update_rows-Swept o.now answer r rows₀ rows ready.0.sane ready.0.is_open
                  ready.0.due (λ s i e'. unique_row rows₀ s r distinct i ready.0.stored e')
                  (λ s i e'. unique_row rows s r now_distinct i here.0 e') h))
      ]

module _ (P : Delivery × Endpoint → Type 0) where
  All-insert_due :
      (p : Delivery × Endpoint) (due : List (Delivery × Endpoint))
      → P p
      → All P due
      → All P (insert_due p due)
  unfolding insert_due
  All-insert_due p [] h k = (h, tt)
  All-insert_due p (q ∷ due) h k = elim (Bool-cases (leb p.0.next_attempt_at q.0.next_attempt_at)) [
    | inl e ↦ rw e (h, k)
    | inr e ↦ rw e (k.0, All-insert_due p due h k.1)
  ]

  All-order_due : (due : List (Delivery × Endpoint)) → All P due → All P (order_due due)
  unfolding order_due
  All-order_due [] h = h
  All-order_due (p ∷ due) h = All-insert_due p _ h.0 (All-order_due due h.1)

  All-take : (n : ℕ) (due : List (Delivery × Endpoint)) → All P due → All P (take n due)
  All-take zero due h = tt
  All-take (suc n) [] h = tt
  All-take (suc n) (p ∷ due) h = (h.0, All-take n due h.1)

insert_due-Apart :
    (p : Delivery × Endpoint) (due : List (Delivery × Endpoint))
    → All (λ q. q.0.id ≢ p.0.id) due
    → Apart due
    → Apart (insert_due p due)
unfolding insert_due
insert_due-Apart p [] h k = (tt, tt)
insert_due-Apart p (q ∷ due) h k = elim (Bool-cases (leb p.0.next_attempt_at q.0.next_attempt_at)) [
  | inl e ↦ rw e (h, k)
  | inr e ↦ rw e (
    All-insert_due (λ x. x.0.id ≢ q.0.id) p due (λ same. h.0 (sym same)) k.0,
    insert_due-Apart p due h.1 k.1,
  )
]

pub order_due-Apart : (due : List (Delivery × Endpoint)) → Apart due → Apart (order_due due)
unfolding order_due
order_due-Apart [] h = h
order_due-Apart (p ∷ due) h =
    insert_due-Apart p _ (All-order_due _ due h.0) (order_due-Apart due h.1)

pub take-Apart : (n : ℕ) (due : List (Delivery × Endpoint)) → Apart due → Apart (take n due)
take-Apart zero due h = tt
take-Apart (suc n) [] h = tt
take-Apart (suc n) (p ∷ due) h = (All-take _ n due h.0, take-Apart n due h.1)

module _ (now : ℕ) (endpoints : List Endpoint) where
  All-join_due :
      (P : Delivery × Endpoint → Type 0) (rows : List Delivery)
      → ((r : Delivery) (e : Endpoint) → In r rows → is_due now r ≡ true → P (r, e))
      → All P (join_due now endpoints rows)
  unfolding join_due
  All-join_due P [] h = tt
  All-join_due P (r ∷ rows) h =
      let rest = All-join_due P rows (λ s e i. h s e (inr i)) in
      elim (Bool-cases (is_due now r)) [
        | inr later ↦ rw (later, join_due) rest
        | inl due ↦ elim (Option-cases (find? (λ e. e.id == r.trigger_id) endpoints)) [
          | inl none_found ↦ rw (due, none_found, join_due) rest
          | inr (e, found) ↦ rw (due, found, join_due) (h r e (inl refl) due, rest)
        ]
      ]

  pub join_due-Apart : (rows : List Delivery) → Distinct rows → Apart (join_due now endpoints rows)
  unfolding join_due
  join_due-Apart [] h = tt
  join_due-Apart (r ∷ rows) h =
      let rest = join_due-Apart rows h.1 in
      let others =
        All-join_due (λ q. q.0.id ≢ r.id) rows
          (λ s e i due. All-In (λ t. t.id ≢ r.id) rows s h.0 i) in
      elim (Bool-cases (is_due now r)) [
        | inr later ↦ rw (later, join_due) rest
        | inl due ↦ elim (Option-cases (find? (λ e. e.id == r.trigger_id) endpoints)) [
          | inl none_found ↦ rw (due, none_found, join_due) rest
          | inr (e, found) ↦ rw (due, found, join_due) (others, rest)
        ]
      ]

due_row :
    (now : ℕ) (r : Delivery)
    → is_due now r ≡ true
    → (r.delivered_at ≡ none) × (r.next_attempt_at ≤ now)
unfolding is_due
due_row now r h = elim (Option-cases r.delivered_at) [
  | inl e ↦ let due : leb r.next_attempt_at now ≡ true = rw e at h in (e, ground (arith, due))
  | inr (t, e) ↦ let never : false ≡ true = rw e at h in cc
]

pub picked :
    (now : ℕ) (endpoints : List Endpoint) (rows : List Delivery) (P : Delivery × Endpoint → Type 0)
    → ((r : Delivery) (e : Endpoint) → In r rows → is_due now r ≡ true → P (r, e))
    → All P (take 20 (order_due (join_due now endpoints rows)))
picked now endpoints rows P h =
    All-take P 20 _ (All-order_due P _ (All-join_due now endpoints P rows h))

-- After a sweep every row of the outbox is as it was, or it was open and due and has been posted
-- once: it is closed, or it has one attempt more and is due in 5 to 300 seconds; and an open row has
-- at most seven attempts, whatever the other side answers and whichever statement ends the sweep.
pub deliver_pending-IsSwept :
    (d : Digests) (o : Outside) (endpoints : List Endpoint) (rows : List Delivery)
    → Distinct rows
    → All IsSane rows
    → Swept o.now rows (deliver_pending d o endpoints rows).1
unfolding deliver_pending
deliver_pending-IsSwept d o endpoints rows distinct sane =
    let ready = picked o.now endpoints rows in
    deliver_all-Swept d o rows distinct _ 0 rows
      (ready (IsReady o.now rows) (λ r e i due. record {
        stored = i;
        sane = All-In IsSane rows r sane i;
        is_open = (due_row o.now r due).0;
        due = (due_row o.now r due).1;
      }))
      (ready (λ q. In q.0 rows) (λ r e i due. i))
      (take-Apart 20 _ (order_due-Apart _ (join_due-Apart o.now endpoints rows distinct)))
      (Swept-refl o.now rows)
