-- ===== src/Server/Lsh/Candidates.antt =====
-- lsh.rs: what `candidates` answers.
use corpus.Prelude.{
  ℕ, zero, suc, ◌+◌, ◌≤◌, ◌<◌, ◌≡◌, ◌≢◌, refl, arith, Bool, true, false, Bool-cases, inl, inr, List,
  [], ◌∷◌, ◌++◌, All, All-append, any, length, length-append, take, keep_if, leb, ◌==◌,
}
use corpus.Server.Hash.{Text}
use corpus.Server.Cas.Put.{text_eq-true}
use corpus.Server.Hunts.Sound.{In}
use corpus.Server.Lsh.{
  Band, band_keys, is_hit, push_new, push_rows, collect, candidates, candidate_cap,
}

-- The artifact is another one of the tenant, and a row of it has one of the keys, at the key's index.
pub record SharesBand (tenant artifact : ℕ) (keys : List (ℕ × Text)) (table : List Band) (id : ℕ)
    : Type 0 where
  pub row : Band
  pub stored : In row table
  pub key : ℕ × Text
  pub given : In key keys
  pub ident : row.artifact_id ≡ id
  pub other : id ≢ artifact
  pub same_tenant : row.tenant_id ≡ tenant
  pub same_index : row.band_idx ≡ key.0
  pub same_key : row.band_key ≡ key.1

is_hit-SharesBand :
    (tenant artifact : ℕ) (keys : List (ℕ × Text)) (table : List Band) (b : Band) (k : ℕ × Text)
    → In b table
    → In k keys
    → is_hit tenant artifact k b ≡ true
    → SharesBand tenant artifact keys table b.artifact_id
unfolding is_hit
is_hit-SharesBand tenant artifact keys table b k i j e = record {
  row = b;
  stored = i;
  key = k;
  given = j;
  ident = refl;
  other = λ same. ground (arith, e, same);
  same_tenant = ground (arith, e);
  same_index = ground (arith, e);
  same_key = text_eq-true _ _ (ground (arith, e));
}

-- No id stands twice.
abbrev pub Distinct : List ℕ → Type 0
Distinct [] = Unit
Distinct (x ∷ xs) = (any (λ y. y == x) xs ≡ false) × Distinct xs

All-hits :
    (P : Band → Type 0) (test : Band → Bool) (table : List Band)
    → ((b : Band) → In b table → test b ≡ true → P b)
    → All P (take candidate_cap (keep_if test table))
All-hits P test table h = cut candidate_cap (keep_if test table) (all table h)
  where
    all :
        (rows : List Band)
        → ((b : Band) → In b rows → test b ≡ true → P b)
        → All P (keep_if test rows)
    all [] k = tt
    all (b ∷ rows) k =
        let rest = all rows (λ c i e. k c (inr i) e) in
        elim (Bool-cases (test b)) [ inl e ↦ rw e (k b (inl refl) e, rest) | inr e ↦ rw e rest ]

    cut : (n : ℕ) (rows : List Band) → All P rows → All P (take n rows)
    cut zero rows k = tt
    cut (suc n) [] k = tt
    cut (suc n) (b ∷ rows) k = (k.0, cut n rows k.1)

module _ (P : ℕ → Type 0) where
  pub record IsAnswer (out : List ℕ) : Type 0 where
    pub distinct : Distinct out
    pub members : All P out

  any-push :
      (x id : ℕ) (xs : List ℕ)
      → any (λ y. y == x) xs ≡ false
      → (id == x) ≡ false
      → any (λ y. y == x) (xs ++ (id ∷ [])) ≡ false
  any-push x id [] h k = rw k refl
  any-push x id (y ∷ xs) h k =
      let head : (y == x) ≡ false = ground (arith, h) in
      let tail : any (λ z. z == x) xs ≡ false = ground (arith, h) in
      rw (head, any-push x id xs tail k) refl

  push-Distinct :
      (id : ℕ) (xs : List ℕ)
      → any (λ x. x == id) xs ≡ false
      → Distinct xs
      → Distinct (xs ++ (id ∷ []))
  push-Distinct id [] h k = (refl, tt)
  push-Distinct id (x ∷ xs) h k =
      let head : (id == x) ≡ false = ground (arith, h) in
      let tail : any (λ z. z == id) xs ≡ false = ground (arith, h) in
      (any-push x id xs k.0 head, push-Distinct id xs tail k.1)

  push_new-IsAnswer : (id : ℕ) (out : List ℕ) → P id → IsAnswer out → IsAnswer (push_new id out)
  unfolding push_new
  push_new-IsAnswer id out p h = elim (Bool-cases (any (λ x. x == id) out)) [
    | inl old ↦ rw old h
    | inr new ↦ rw new (record {
      distinct = push-Distinct id out new h.distinct;
      members = All-append P out (id ∷ []) h.members (p, tt);
    })
  ]

  length-push_new : (id : ℕ) (out : List ℕ) → length (push_new id out) ≤ length out + 1
  unfolding push_new
  length-push_new id out = elim (Bool-cases (any (λ x. x == id) out)) [
    | inl old ↦ rw old (omega arith)
    | inr new ↦ rw new (omega (arith, length-append out (id ∷ [])))
  ]

  -- The answer is good, and there is room for one more, unless the cap is reached.
  record IsPushed (p : Bool × List ℕ) : Type 0 where
    answer : IsAnswer p.1
    few : length p.1 ≤ candidate_cap
    room : p.0 ≡ false → length p.1 < candidate_cap

  push_rows-IsPushed :
      (rows : List Band) (out : List ℕ)
      → All (λ b. P b.artifact_id) rows
      → IsAnswer out
      → length out < candidate_cap
      → IsPushed (push_rows rows out)
  unfolding push_rows
  push_rows-IsPushed [] out ps h small = record {
    answer = h;
    few = omega (arith, small);
    room = λ e. small;
  }
  push_rows-IsPushed (b ∷ rows) out ps h small =
      let next = push_new-IsAnswer b.artifact_id out ps.0 h in
      let grown = length-push_new b.artifact_id out in
      elim (Bool-cases (leb candidate_cap (length (push_new b.artifact_id out)))) [
        | inl full ↦
            rw (full, push_rows)
              (record { answer = next; few = omega (arith, grown, small); room = λ e. cc })
        | inr room ↦
            let below : length (push_new b.artifact_id out) < 512 = ground (arith, room) in
            rw (room, push_rows) (push_rows-IsPushed rows _ ps.1 next below)
      ]

  collect-IsAnswer :
      (tenant artifact : ℕ) (table : List Band) (keys : List (ℕ × Text)) (out : List ℕ)
      → ((b : Band) (k : ℕ × Text)
          → In b table
          → In k keys
          → is_hit tenant artifact k b ≡ true
          → P b.artifact_id)
      → IsAnswer out
      → length out < candidate_cap
      → IsAnswer (collect tenant artifact table keys out)
        × (length (collect tenant artifact table keys out) ≤ candidate_cap)
  unfolding collect
  collect-IsAnswer tenant artifact table [] out hits h small = (h, omega (arith, small))
  collect-IsAnswer tenant artifact table (k ∷ keys) out hits h small =
      let pushed =
        push_rows-IsPushed (take candidate_cap (keep_if (is_hit tenant artifact k) table)) out
          (All-hits (λ b. P b.artifact_id) (is_hit tenant artifact k) table
            (λ b i e. hits b k i (inl refl) e))
          h small in
      elim (Bool-cases
        (push_rows (take candidate_cap (keep_if (is_hit tenant artifact k) table)) out).0) [
          | inl full ↦ rw (full, collect) (pushed.answer, pushed.few)
          | inr goes_on ↦
              rw (goes_on, collect)
                (collect-IsAnswer tenant artifact table keys _ (λ b k' i j e. hits b k' i (inr j) e)
                  pushed.answer (pushed.room goes_on))
        ]

-- No artifact stands twice in the answer, there are 512 at most, and each is another artifact of the
-- tenant with a row for one of the digest's bands, at the band's index.
pub candidates-IsAnswer :
    (is_utf8 : Text → Bool) (tenant artifact : ℕ) (ssdeep : Text) (table : List Band)
    → IsAnswer
        (SharesBand tenant artifact (band_keys is_utf8 ssdeep) table)
        (candidates is_utf8 tenant artifact ssdeep table)
      × (length (candidates is_utf8 tenant artifact ssdeep table) ≤ candidate_cap)
unfolding candidates
candidates-IsAnswer is_utf8 tenant artifact ssdeep table =
    collect-IsAnswer _ tenant artifact table (band_keys is_utf8 ssdeep) []
      (is_hit-SharesBand tenant artifact (band_keys is_utf8 ssdeep) table)
      (record { distinct = tt; members = tt }) (omega arith)
