-- ===== src/Agent/State/Rows.antt =====
-- The rows of the table `candidate`, two at a time, and an update of one.
use corpus.Prelude.{
  ℕ, ◌≡◌, ◌≢◌, refl, sym, Bool, true, false, ◌&&◌, List, [], ◌∷◌, any, ◌==◌, eq_iff, if◌then◌else◌,
  arith, All, Bool-cases, inl, inr,
}
use corpus.Agent.State.{Candidate, is_active, update_row, clashes, blocked}

-- Two rows have two ids, and two active rows have two paths.
pub record IsApart (c d : Candidate) : Type 0 where
  pub ids : c.id ≢ d.id
  pub paths : is_active c.state ≡ true → is_active d.state ≡ true → c.path ≢ d.path

abbrev pub IsConsistent : List Candidate → Type 0
IsConsistent [] = Unit
IsConsistent (c ∷ rows) = All (IsApart c) rows × IsConsistent rows

pub any-false {ℓ} :
    {A : Type ℓ} (p : A → Bool) (xs : List A) → any p xs ≡ false → All (λ x. p x ≡ false) xs
any-false p [] h = tt
any-false p (x ∷ xs) h = (ground arith, any-false p xs (ground arith))

pub All-map {ℓ κ μ} :
    {A : Type ℓ} (P : A → Type κ) (Q : A → Type μ) (xs : List A)
    → ((x : A) → P x → Q x)
    → All P xs
    → All Q xs
All-map P Q [] f h = tt
All-map P Q (x ∷ xs) f h = (f x h.0, All-map P Q xs f h.1)

-- What holds of each new row holds of the updated table.
pub All-update_row {ℓ κ} :
    (P : Candidate → Type ℓ) (Q : Candidate → Type κ) (id : ℕ) (f : Candidate → Candidate)
    (rows : List Candidate)
    → ((c : Candidate) → P c → Q (if c.id == id then f c else c))
    → All P rows
    → All Q (update_row id f rows)
unfolding update_row
All-update_row P Q id f [] step h = tt
All-update_row P Q id f (c ∷ rows) step h = (step c h.0, All-update_row P Q id f rows step h.1)

pub false-any {ℓ} :
    {A : Type ℓ} (p : A → Bool) (xs : List A) → All (λ x. p x ≡ false) xs → any p xs ≡ false
false-any p [] h = refl
false-any p (x ∷ xs) h = ground (arith, h.0, false-any p xs h.1)

pub All-zip {ℓ κ μ} :
    {A : Type ℓ} (P : A → Type κ) (Q : A → Type μ) (xs : List A)
    → All P xs
    → All Q xs
    → All (λ x. P x × Q x) xs
All-zip P Q [] p q = tt
All-zip P Q (x ∷ xs) p q = ((p.0, q.0), All-zip P Q xs p.1 q.1)

IsApart-symm : (c d : Candidate) → IsApart c d → IsApart d c
IsApart-symm c d a = record { ids = λ e. a.ids (sym e); paths = λ p q e. a.paths q p (sym e) }

-- Any two rows with two ids are apart, in either order.
pub all-IsApart :
    (rows : List Candidate)
    → IsConsistent rows
    → All (λ c. All (λ d. c.id ≢ d.id → IsApart c d) rows) rows
all-IsApart [] h = tt
all-IsApart (c ∷ rows) h = (
  (λ ne. absurd (ne refl), All-map _ _ rows (λ d a _. a) h.0),
  All-map _ _ rows (λ d t. (λ _. IsApart-symm c d t.0, t.1))
      (All-zip _ _ rows h.0 (all-IsApart rows h.1)),
)

-- A write that leaves the two columns alone that tell the rows apart.
pub record KeepsKeys (f : Candidate → Candidate) : Type 0 where
  pub id : (c : Candidate) → (f c).id ≡ c.id
  pub path : (c : Candidate) → (f c).path ≡ c.path

module _ (id : ℕ) (f : Candidate → Candidate) (keys : KeepsKeys f) where
  abbrev upd : Candidate → Candidate
  upd c = if c.id == id then f c else c

  -- The new version of `c`, if `c` is written and active, has not the path of the active row `d`.
  abbrev IsClear : Candidate → Candidate → Type 0
  IsClear c d = (c.id == id && is_active (f c).state && clashes id (f c) d) ≡ false

  IsApart-upd :
      (c d : Candidate) → IsApart c d → IsClear c d → IsClear d c → IsApart (upd c) (upd d)
  unfolding clashes
  IsApart-upd c d a cd dc = ground (
    arith,
    a.ids,
    a.paths,
    keys.id c,
    keys.id d,
    keys.path c,
    keys.path d,
    eq_iff d.path (f c).path,
    eq_iff c.path (f d).path,
  )

  row_clear :
      (b : Bool) (p : Candidate → Bool) (rows : List Candidate)
      → (b && any p rows) ≡ false
      → All (λ d. (b && p d) ≡ false) rows
  row_clear b p [] h = tt
  row_clear b p (d ∷ rows) h = (ground arith, row_clear b p rows (ground arith))

  IsConsistent-update :
      (rows : List Candidate)
      → IsConsistent rows
      → All (λ c. All (IsClear c) rows) rows
      → IsConsistent (update_row id f rows)
  unfolding update_row
  IsConsistent-update [] h clear = tt
  IsConsistent-update (c ∷ rows) h clear = (
    All-update_row (λ d. IsApart c d × IsClear c d × IsClear d c) (IsApart (upd c)) id f rows
        (λ d t. IsApart-upd c d t.0 t.1 t.2) (zip rows h.0 clear.0.1 clear.1),
    IsConsistent-update rows h.1 (All-map _ _ rows (λ d t. t.1) clear.1),
  )
    where
      zip :
          (ds : List Candidate)
          → All (IsApart c) ds
          → All (IsClear c) ds
          → All (λ d. All (IsClear d) (c ∷ rows)) ds
          → All (λ d. IsApart c d × IsClear c d × IsClear d c) ds
      zip [] a b e = tt
      zip (d ∷ ds) a b e = ((a.0, b.0, e.0.0), zip ds a.1 b.1 e.1)

  -- An update that the unique index lets through keeps it.
  pub IsConsistent-update_indexed :
      (rows : List Candidate)
      → blocked id f rows ≡ false
      → IsConsistent rows
      → IsConsistent (update_row id f rows)
  unfolding blocked
  IsConsistent-update_indexed rows free h = IsConsistent-update rows h (
      All-map _ _ rows
        (λ c e.
          row_clear (c.id == id && is_active (f c).state) (clashes id (f c)) rows
            (ground (arith, e)))
        (any-false _ rows free))

  module _ (c : Candidate)
      (quiet : c.id ≡ id → is_active (f c).state ≡ true → is_active c.state ≡ true) where
    IsClear-of_quiet : (d : Candidate) → (c.id ≢ d.id → IsApart c d) → IsClear c d
    unfolding clashes
    IsClear-of_quiet d apart = elim (Bool-cases (c.id == d.id)) [
      | inl same ↦ ground (arith, same)
      | inr ne ↦
          let a = apart (ground (arith, ne)) in
          ground (arith, quiet, a.paths, keys.path c, eq_iff d.path (f c).path)
    ]

    no_clash :
        (ds : List Candidate)
        → All (λ d. c.id ≢ d.id → IsApart c d) ds
        → (c.id == id && is_active (f c).state && any (clashes id (f c)) ds) ≡ false
    no_clash [] apart = ground arith
    no_clash (d ∷ ds) apart = ground (arith, IsClear-of_quiet d apart.0, no_clash ds apart.1)

  -- A write that makes no row active is never refused.
  pub not_blocked :
      (rows : List Candidate)
      → IsConsistent rows
      → All (λ c. c.id ≡ id → is_active (f c).state ≡ true → is_active c.state ≡ true) rows
      → blocked id f rows ≡ false
  unfolding blocked
  not_blocked rows h quiet = false-any _ rows (
      All-map _ _ rows (λ c t. no_clash c t.0 rows t.1)
        (All-zip _ _ rows quiet (all-IsApart rows h)))
