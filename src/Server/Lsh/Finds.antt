-- ===== src/Server/Lsh/Finds.antt =====
-- lsh.rs: which artifacts `candidates` finds.
use corpus.Prelude.{
  ℕ, zero, suc, ◌≤◌, ◌≡◌, refl, sym, ap, arith, Bool, true, false, Bool-cases, ◌⊎◌, inl, inr, List,
  [], ◌∷◌, ◌++◌, any, length, take, keep_if, leb, ◌==◌, ==_iff,
}
use corpus.Server.Hash.{Text}
use corpus.Server.Hunts.Sound.{In}
use corpus.Server.Lsh.{
  Band, band_keys, is_hit, push_new, push_rows, collect, candidates, candidate_cap,
}

In-append : (x y : ℕ) (xs : List ℕ) → In x xs → In x (xs ++ (y ∷ []))
In-append x y [] i = absurd i
In-append x y (z ∷ xs) (inl e) = inl e
In-append x y (z ∷ xs) (inr i) = inr (In-append x y xs i)

In-last : (x : ℕ) (xs : List ℕ) → In x (xs ++ (x ∷ []))
In-last x [] = inl refl
In-last x (z ∷ xs) = inr (In-last x xs)

any-In : (id : ℕ) (xs : List ℕ) → any (λ x. x == id) xs ≡ true → In id xs
any-In id [] h = cc
any-In id (x ∷ xs) h = elim (Bool-cases (x == id)) [
  | inl e ↦ inl (sym ((==_iff x id).0 e))
  | inr e ↦ inr (any-In id xs (ground (arith, h, e)))
]

push_new-keeps : (x id : ℕ) (out : List ℕ) → In x out → In x (push_new id out)
unfolding push_new
push_new-keeps x id out i = elim (Bool-cases (any (λ y. y == id) out)) [
  | inl old ↦ rw old i
  | inr new ↦ rw new (In-append x id out i)
]

push_new-adds : (id : ℕ) (out : List ℕ) → In id (push_new id out)
unfolding push_new
push_new-adds id out = elim (Bool-cases (any (λ y. y == id) out)) [
  | inl old ↦ rw old (any-In id out old)
  | inr new ↦ rw new (In-last id out)
]

push_rows-keeps : (x : ℕ) (rows : List Band) (out : List ℕ) → In x out → In x (push_rows rows out).1
unfolding push_rows
push_rows-keeps x [] out i = i
push_rows-keeps x (b ∷ rows) out i =
    let next = push_new-keeps x b.artifact_id out i in
    elim (Bool-cases (leb candidate_cap (length (push_new b.artifact_id out)))) [
      | inl full ↦ rw (full, push_rows) next
      | inr room ↦ rw (room, push_rows) (push_rows-keeps x rows _ next)
    ]

push_rows-full :
    (rows : List Band) (out : List ℕ)
    → (push_rows rows out).0 ≡ true
    → candidate_cap ≤ length (push_rows rows out).1
unfolding push_rows
push_rows-full [] out = λ e. cc
push_rows-full (b ∷ rows) out =
    elim (Bool-cases (leb candidate_cap (length (push_new b.artifact_id out)))) [
      | inl full ↦ rw (full, push_rows) (λ e. ground (arith, full))
      | inr room ↦ rw (room, push_rows) (push_rows-full rows _)
    ]

push_rows-adds :
    (b : Band) (rows : List Band) (out : List ℕ)
    → In b rows
    → (push_rows rows out).0 ≡ false
    → In b.artifact_id (push_rows rows out).1
unfolding push_rows
push_rows-adds b [] out i = absurd i
push_rows-adds b (c ∷ rows) out i =
    elim (Bool-cases (leb candidate_cap (length (push_new c.artifact_id out)))) [
      | inl full ↦ rw (full, push_rows) (λ e. cc)
      | inr room ↦
          rw (room, push_rows)
            (λ e. elim i [
              | inl same ↦
                  push_rows-keeps b.artifact_id rows _ (rw same (push_new-adds c.artifact_id out))
              | inr i' ↦ push_rows-adds b rows _ i' e
            ])
    ]

module _ (tenant artifact : ℕ) (table : List Band) where
  abbrev hits : ℕ × Text → List Band
  hits k = take candidate_cap (keep_if (is_hit tenant artifact k) table)

  collect-keeps :
      (x : ℕ) (keys : List (ℕ × Text)) (out : List ℕ)
      → In x out
      → In x (collect tenant artifact table keys out)
  unfolding collect
  collect-keeps x [] out i = i
  collect-keeps x (k ∷ keys) out i =
      let next = push_rows-keeps x (hits k) out i in
      elim (Bool-cases (push_rows (hits k) out).0) [
        | inl full ↦ rw (full, collect) next
        | inr goes_on ↦ rw (goes_on, collect) (collect-keeps x keys _ next)
      ]

  collect-adds :
      (b : Band) (k : ℕ × Text) (keys : List (ℕ × Text)) (out : List ℕ)
      → In k keys
      → In b (hits k)
      → In b.artifact_id (collect tenant artifact table keys out)
        ⊎ (candidate_cap ≤ length (collect tenant artifact table keys out))
  unfolding collect
  collect-adds b k [] out i hit = absurd i
  collect-adds b k (k' ∷ keys) out i hit = elim (Bool-cases (push_rows (hits k') out).0) [
    | inl full ↦ rw (full, collect) (inr (push_rows-full (hits k') out full))
    | inr goes_on ↦
        rw (goes_on, collect)
          (elim i [
            | inl same ↦ inl (
                collect-keeps b.artifact_id keys _
                  (push_rows-adds b (hits k') out (rw (← same) hit) goes_on))
            | inr i' ↦ collect-adds b k keys _ i' hit
          ])
  ]

In-keep_if :
    (test : Band → Bool) (b : Band) (rows : List Band)
    → In b rows
    → test b ≡ true
    → In b (keep_if test rows)
In-keep_if test b [] i e = absurd i
In-keep_if test b (c ∷ rows) (inl same) e =
    let e' : test c ≡ true = rw (← same) e in rw e' (inl same)
In-keep_if test b (c ∷ rows) (inr i) e =
    let rest = In-keep_if test b rows i e in
    elim (Bool-cases (test c)) [ inl e' ↦ rw e' (inr rest) | inr e' ↦ rw e' rest ]

take_whole : (n : ℕ) (rows : List Band) → length rows ≤ n → take n rows ≡ rows
take_whole zero [] h = refl
take_whole zero (b ∷ rows) h = absurd (omega (arith, h))
take_whole (suc n) [] h = refl
take_whole (suc n) (b ∷ rows) h = ap (λ rest. b ∷ rest) (take_whole n rows (omega (arith, h)))

-- Another artifact of the tenant with a row for one of the digest's bands, at the band's index, is in
-- the answer, unless that band has more than 512 rows, or the answer has 512 artifacts.
pub candidates-finds :
    (is_utf8 : Text → Bool) (tenant artifact : ℕ) (ssdeep : Text) (table : List Band) (b : Band)
    (k : ℕ × Text)
    → In b table
    → In k (band_keys is_utf8 ssdeep)
    → is_hit tenant artifact k b ≡ true
    → length (keep_if (is_hit tenant artifact k) table) ≤ candidate_cap
    → In b.artifact_id (candidates is_utf8 tenant artifact ssdeep table)
      ⊎ (candidate_cap ≤ length (candidates is_utf8 tenant artifact ssdeep table))
unfolding candidates
candidates-finds is_utf8 tenant artifact ssdeep table b k i j e few =
    let found = In-keep_if (is_hit tenant artifact k) b table i e in
    collect-adds tenant artifact table b k (band_keys is_utf8 ssdeep) [] j
      (rw (take_whole candidate_cap _ few) found)
