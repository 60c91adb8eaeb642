-- ===== src/Agent/State/Gaps/Flush.antt =====
-- main.rs: a round of `gap_flusher` whose report is answered.
use mathlib.Core.Path.{subst}
use corpus.Prelude.{
  Bool, Bool-cases, ℕ, zero, suc, ◌<◌, ◌≤◌, ◌≡◌, refl, sym, ap, take-append-drop, ◌∙◌, true, false,
  Option, none, some, List, [], ◌∷◌, ◌++◌, String, take, drop, keep_if, arith, Option-cases, inl,
  inr, All,
}
use corpus.Prelude.Results.{Result, ok}
use corpus.Agent.State.{GapDetail, PendingGap, StateDb}
use corpus.Agent.State.Rows.{All-map}
use corpus.Agent.State.Gaps.{
  delete_gap, delete_ids, delivered_ids, gap_events, GapEvent, flush_gaps, pending_gaps,
  settle_flush, record_gap, flush_batch,
}

-- The ids grow along the table, from above `low`.
abbrev pub IsNumbered : ℕ → List PendingGap → Type 0
IsNumbered low [] = Unit
IsNumbered low (g ∷ gaps) = (low < g.id) × IsNumbered g.id gaps

abbrev IsAbove : ℕ → PendingGap → Type 0
IsAbove low g = low < g.id

IsNumbered-IsAbove :
    (low : ℕ) (gaps : List PendingGap) → IsNumbered low gaps → All (IsAbove low) gaps
IsNumbered-IsAbove low [] h = tt
IsNumbered-IsAbove low (g ∷ gaps) h =
    (h.0, All-map _ _ gaps (λ x p. omega (arith, h.0)) (IsNumbered-IsAbove g.id gaps h.1))

delete_gap-above :
    (low : ℕ) (gaps : List PendingGap) → All (IsAbove low) gaps → delete_gap low gaps ≡ gaps
unfolding delete_gap
delete_gap-above low [] h = refl
delete_gap-above low (g ∷ gaps) h = ground (arith, h.0, delete_gap-above low gaps h.1)

-- The rows of a batch whose time cannot be read.
abbrev pub unreadable : (String → Option ℕ) → List PendingGap → List PendingGap
unreadable parse = keep_if (λ g. elim (parse g.observed_at) [ none ↦ true | some _ ↦ false ])

-- Those whose time can be read.
abbrev pub readable : (String → Option ℕ) → List PendingGap → List PendingGap
readable parse = keep_if (λ g. elim (parse g.observed_at) [ none ↦ false | some _ ↦ true ])

delete_gap-cons :
    (id : ℕ) (g : PendingGap) (gaps : List PendingGap)
    → g.id < id
    → delete_gap id (g ∷ gaps) ≡ g ∷ delete_gap id gaps
unfolding delete_gap
delete_gap-cons id g gaps h = ground arith

delete_gap-cons_self :
    (g : PendingGap) (gaps : List PendingGap)
    → All (IsAbove g.id) gaps
    → delete_gap g.id (g ∷ gaps) ≡ gaps
unfolding delete_gap
delete_gap-cons_self g gaps h = ground (arith, delete_gap-above g.id gaps h)

delete_ids-cons :
    (goes : ℕ → Bool) (ids : List ℕ) (g : PendingGap) (gaps : List PendingGap)
    → All (λ id. g.id < id) ids
    → delete_ids goes ids (g ∷ gaps) ≡ g ∷ delete_ids goes ids gaps
unfolding delete_ids
delete_ids-cons goes [] g gaps h = refl
delete_ids-cons goes (id ∷ ids) g gaps h = elim (Bool-cases (goes id)) [
  | inr fails ↦ rw fails refl
  | inl going ↦ rw going (
      ap (delete_ids goes ids) (delete_gap-cons id g gaps h.0)
      ∙ delete_ids-cons goes ids g (delete_gap id gaps) h.1)
]

module _ (parse : String → Option ℕ) where
  delivered_ids-above :
      (low n : ℕ) (gaps : List PendingGap)
      → All (IsAbove low) gaps
      → All (λ id. low < id) (delivered_ids parse (take n gaps))
  unfolding delivered_ids
  delivered_ids-above low zero gaps h = tt
  delivered_ids-above low (suc n) [] h = tt
  delivered_ids-above low (suc n) (g ∷ gaps) h = elim (Option-cases (parse g.observed_at)) [
    | inl bad ↦ rw bad (delivered_ids-above low n gaps h.1)
    | inr (t, good) ↦ rw good (h.0, delivered_ids-above low n gaps h.1)
  ]

  delete_ids-delivered_ids :
      (goes : ℕ → Bool) (all : (id : ℕ) → goes id ≡ true) (low n : ℕ) (gaps : List PendingGap)
      → IsNumbered low gaps
      → delete_ids goes (delivered_ids parse (take n gaps)) gaps
        ≡ unreadable parse (take n gaps) ++ drop n gaps
  unfolding delivered_ids delete_ids
  delete_ids-delivered_ids goes all low zero gaps h = refl
  delete_ids-delivered_ids goes all low (suc n) [] h = refl
  delete_ids-delivered_ids goes all low (suc n) (g ∷ gaps) h =
      let above = IsNumbered-IsAbove g.id gaps h.1 in
      let ids = delivered_ids parse (take n gaps) in
      let ih = delete_ids-delivered_ids goes all g.id n gaps h.1 in
      elim (Option-cases (parse g.observed_at)) [
        | inl bad ↦ rw bad (
            delete_ids-cons goes ids g gaps (delivered_ids-above g.id n gaps above)
            ∙ ap (λ x. g ∷ x) ih)
        | inr (t, good) ↦
            rw good
              (rw (all g.id) (ap (delete_ids goes ids) (delete_gap-cons_self g gaps above) ∙ ih))
      ]

module _ {Value : Type 0} (parse : String → Option ℕ) (from_str : GapDetail → Option Value) where
  no_events :
      (gaps : List PendingGap) → gap_events parse from_str gaps ≡ [] → unreadable parse gaps ≡ gaps
  unfolding gap_events
  no_events [] h = refl
  no_events (g ∷ gaps) h = ground (arith, no_events gaps)

  -- The event has the row's columns.
  pub record IsReport (g : PendingGap) (e : GapEvent Value) : Type 0 where
    pub observed_at : parse g.observed_at ≡ some e.observed_at
    pub capture_reason : e.capture_reason ≡ g.capture_reason
    pub terminal_outcome : e.terminal_outcome ≡ g.terminal_outcome
    pub artifact_sha256 : e.artifact_sha256 ≡ g.artifact_sha256
    pub path : e.path ≡ g.path
    pub detail_code : e.detail_code ≡ g.detail_code
    pub detail : e.detail ≡ from_str g.detail

  -- One event for each row, in the order of the rows.
  abbrev pub AreReports : List PendingGap → List (GapEvent Value) → Type 0
  AreReports [] [] = Unit
  AreReports (g ∷ gaps) (e ∷ events) = IsReport g e × AreReports gaps events
  AreReports _ _ = ⊥

  gap_events-AreReports :
      (gaps : List PendingGap) → AreReports (readable parse gaps) (gap_events parse from_str gaps)
  unfolding gap_events
  gap_events-AreReports [] = tt
  gap_events-AreReports (g ∷ gaps) = elim (Option-cases (parse g.observed_at)) [
    | inl bad ↦ rw (bad, gap_events) (gap_events-AreReports gaps)
    | inr (t, good) ↦
        rw (good, gap_events)
          (
            record {
              observed_at = good;
              capture_reason = refl;
              terminal_outcome = refl;
              artifact_sha256 = refl;
              path = refl;
              detail_code = refl;
              detail = refl;
            },
            gap_events-AreReports gaps,
          )
  ]

  FlushSpec :
      (List (GapEvent Value) → Result String (Unit {0}))
      → ℕ
      → StateDb
      → List (GapEvent Value) × StateDb
      → Type 0
  FlushSpec report_gaps n db (events, db') =
      AreReports (readable parse (take n db.gaps)) events
      × (report_gaps events ≡ ok tt
          → db'.gaps ≡ unreadable parse (take n db.gaps) ++ drop n db.gaps)

  module _ (report_gaps : List (GapEvent Value) → Result String (Unit {0})) (goes : ℕ → Bool)
      (all : (id : ℕ) → goes id ≡ true) where
    flush_batch_lem :
        (low n : ℕ) (db : StateDb)
        → IsNumbered low db.gaps
        → FlushSpec report_gaps n db
            (flush_batch parse from_str report_gaps goes (take n db.gaps) db)
    unfolding flush_batch FlushSpec
    flush_batch_lem low n db h = go (gap_events parse from_str (take n db.gaps)) refl
      where
        go :
            (events : List (GapEvent Value))
            → gap_events parse from_str (take n db.gaps) ≡ events
            → FlushSpec report_gaps n db
                (flush_batch parse from_str report_gaps goes (take n db.gaps) db)
        go [] e =
            let sent =
              subst (AreReports (readable parse (take n db.gaps))) e
                (gap_events-AreReports (take n db.gaps)) in
            rw (e, flush_batch)
              (
                sent,
                λ _. sym (
                    ap (λ x. x ++ drop n db.gaps) (no_events (take n db.gaps) e)
                    ∙ take-append-drop n db.gaps),
              )
        go (x ∷ xs) e =
            let sent =
              subst (AreReports (readable parse (take n db.gaps))) e
                (gap_events-AreReports (take n db.gaps)) in
            rw (e, flush_batch)
              (
                sent,
                λ fine.
                    rw (fine, settle_flush)
                      (delete_ids-delivered_ids parse goes all low n db.gaps h),
              )

    -- A round of the flusher, from a table whose ids grow, whose report is answered and of which every
    -- deletion goes through: it sends one event for each of the first 100 rows whose time can be read,
    -- in their order, with the columns of the row and its detail where that is JSON, and deletes exactly
    -- these rows; all others stay, in order.
    pub flush_gaps_answered :
        (low : ℕ) (db : StateDb)
        → IsNumbered low db.gaps
        → report_gaps (flush_gaps parse from_str report_gaps goes db).0 ≡ ok tt
        → AreReports
            (readable parse (take 100 db.gaps))
            (flush_gaps parse from_str report_gaps goes db).0
          × ((flush_gaps parse from_str report_gaps goes db).1.gaps
              ≡ unreadable parse (take 100 db.gaps) ++ drop 100 db.gaps)
    unfolding FlushSpec flush_gaps pending_gaps
    flush_gaps_answered low db h fine =
        let (sent, deleted) = flush_batch_lem low 100 db h in (sent, deleted fine)

-- Recording a gap gives it an id above all others.
pub record_gap-IsNumbered :
    (observed_at capture_reason terminal_outcome : String)
    (artifact_sha256 path detail_code : Option String) (detail : GapDetail) (db : StateDb)
    → IsNumbered 0 db.gaps
    → All (λ g. g.id ≤ db.last_gap_id) db.gaps
    → IsNumbered 0
        (record_gap observed_at capture_reason terminal_outcome artifact_sha256 path detail_code
          detail db).gaps
unfolding record_gap
record_gap-IsNumbered observed_at capture_reason terminal_outcome artifact_sha256 path detail_code
      detail db h low =
    snoc 0 db.gaps _ (omega arith) h (All-map _ _ db.gaps (λ g le. omega (arith, le)) low)
  where
    snoc :
        (low : ℕ) (gaps : List PendingGap) (g : PendingGap)
        → low < g.id
        → IsNumbered low gaps
        → All (λ x. x.id < g.id) gaps
        → IsNumbered low (gaps ++ g ∷ [])
    snoc low [] g new h below = (new, tt)
    snoc low (x ∷ gaps) g new h below = (h.0, snoc x.id gaps g below.0 h.1 below.1)
