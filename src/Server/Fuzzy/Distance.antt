-- ===== src/Server/Fuzzy/Distance.antt =====
-- The two-row loop of `levenshtein`, and the edit distance.
use corpus.Prelude.{
  ℕ, suc, ◌+◌, min, ◌≤◌, ◌≡◌, refl, ap, sym, arith, true, Bool-cases, inl, inr, List, [], ◌∷◌,
  length, ◌==◌, if◌then◌else◌, ==_refl,
}
use corpus.Agent.Spool.{Bytes}
use corpus.Server.Cas.{text_eq}
use corpus.Server.Cas.Put.{text_eq-true}
use corpus.Server.Fuzzy.{count_up, next_cells, last_row, last_cell, levenshtein}

-- The cost of a replacement.
abbrev pub cost : ℕ → ℕ → ℕ
cost a b = if a == b then 0 else 1

-- The edit distance of two texts that are read from their ends.
unfoldable pub edit_distance : Bytes → Bytes → ℕ
edit_distance [] ys = length ys
edit_distance (x ∷ xs) [] = suc (length xs)
edit_distance (x ∷ xs) (y ∷ ys) =
    min (min (edit_distance (x ∷ xs) ys + 1) (edit_distance xs (y ∷ ys) + 1))
      (edit_distance xs ys + cost x y)

-- `iter().rev()`
unfoldable pub onto : Bytes → Bytes → Bytes
onto [] ys = ys
onto (x ∷ xs) ys = onto xs (x ∷ ys)

-- The row of `xs` over the prefixes of a text, of which `ys` is read.
row_of : Bytes → Bytes → Bytes → List ℕ
unfolding edit_distance
row_of xs ys [] = edit_distance xs ys ∷ []
row_of xs ys (t ∷ ts) = edit_distance xs ys ∷ row_of xs (t ∷ ys) ts

count_up_lem : (ys t : Bytes) (i : ℕ) → i ≡ length ys → count_up i (length t) ≡ row_of [] ys t
unfolding count_up row_of edit_distance
count_up_lem ys [] i e = rw e refl
count_up_lem ys (b ∷ t) i e =
    let rest = count_up_lem (b ∷ ys) t (suc i) (omega (arith, e)) in rw (rest, e) refl

-- A turn of the outer loop goes from the row of a prefix to the row of the next.
next_cells_lem :
    (x : ℕ) (xs ys : Bytes) (t : Bytes)
    → edit_distance (x ∷ xs) ys ∷ next_cells x t (row_of xs ys t) (edit_distance (x ∷ xs) ys)
      ≡ row_of (x ∷ xs) ys t
unfolding next_cells row_of edit_distance
next_cells_lem x xs ys [] = refl
next_cells_lem x xs ys (b ∷ []) = refl
next_cells_lem x xs ys (b ∷ c ∷ t) =
    ap (λ r. edit_distance (x ∷ xs) ys ∷ r) (next_cells_lem x xs (b ∷ ys) (c ∷ t))

last_row_lem :
    (i : ℕ) (s xs t : Bytes)
    → i ≡ length xs
    → last_row i s t (row_of xs [] t) ≡ row_of (onto s xs) [] t
unfolding last_row onto edit_distance
last_row_lem i [] xs t e = refl
last_row_lem i (x ∷ s) xs t e =
    let next : suc i ∷ next_cells x t (row_of xs [] t) (suc i) ≡ row_of (x ∷ xs) [] t =
      rw e (next_cells_lem x xs [] t) in
    rw next (last_row_lem (suc i) s (x ∷ xs) t (omega (arith, e)))

last_cell_lem : (xs ys t : Bytes) → last_cell (row_of xs ys t) ≡ edit_distance xs (onto t ys)
unfolding last_cell row_of onto
last_cell_lem xs ys [] = refl
last_cell_lem xs ys (b ∷ []) = refl
last_cell_lem xs ys (b ∷ c ∷ t) = last_cell_lem xs (b ∷ ys) (c ∷ t)

length-onto : (xs ys : Bytes) → length (onto xs ys) ≡ length xs + length ys
unfolding onto
length-onto [] ys = omega arith
length-onto (x ∷ xs) ys = omega (arith, length-onto xs (x ∷ ys))

distance_nil : (xs : Bytes) → edit_distance xs [] ≡ length xs
unfolding edit_distance
distance_nil [] = refl
distance_nil (x ∷ xs) = refl

distance_self : (xs : Bytes) → edit_distance xs xs ≡ 0
unfolding edit_distance
distance_self [] = refl
distance_self (x ∷ xs) = rw (==_refl x) (omega (arith, distance_self xs))

pub distance_le : (xs ys : Bytes) → edit_distance xs ys ≤ length xs + length ys
unfolding edit_distance
distance_le [] ys = omega arith
distance_le (x ∷ xs) [] = omega arith
distance_le (x ∷ xs) (y ∷ ys) = omega (arith, distance_le xs (y ∷ ys))

loop_lem :
    (s t : Bytes)
    → last_cell (last_row 0 s t (count_up 0 (length t))) ≡ edit_distance (onto s []) (onto t [])
loop_lem s t =
    rw (count_up_lem [] t 0 refl, last_row_lem 0 s [] t refl) (last_cell_lem (onto s []) [] t)

-- The two rows and the three shortcuts give the edit distance: the least number of insertions,
-- deletions and replacements, by recursion on the two texts from their ends.
pub levenshtein-edit_distance :
    (s t : Bytes) → levenshtein s t ≡ edit_distance (onto s []) (onto t [])
unfolding levenshtein onto edit_distance
levenshtein-edit_distance s t = elim (Bool-cases (text_eq s t)) [
  | inl same ↦ rw (same, levenshtein) (rw (text_eq-true s t same) (sym (distance_self (onto t []))))
  | inr other ↦ elim (Bool-cases (length s == 0)) [
    | inl first ↦ rw (other, first, levenshtein) (left s first)
    | inr some_s ↦ elim (Bool-cases (length t == 0)) [
      | inl second ↦ rw (other, some_s, second, levenshtein) (right t second)
      | inr some_t ↦ rw (other, some_s, some_t, levenshtein) (loop_lem s t)
    ]
  ]
]
  where
    left :
        (s' : Bytes) → (length s' == 0) ≡ true → length t ≡ edit_distance (onto s' []) (onto t [])
    left [] h = omega (arith, length-onto t [])
    left (x ∷ s') h = absurd (ground (arith, h))

    right :
        (t' : Bytes) → (length t' == 0) ≡ true → length s ≡ edit_distance (onto s []) (onto t' [])
    right [] h = omega (arith, distance_nil (onto s []), length-onto s [])
    right (y ∷ t') h = absurd (ground (arith, h))

pub levenshtein_le : (s t : Bytes) → levenshtein s t ≤ length s + length t
levenshtein_le s t = omega (
  arith,
  levenshtein-edit_distance s t,
  distance_le (onto s []) (onto t []),
  length-onto s [],
  length-onto t [],
)
