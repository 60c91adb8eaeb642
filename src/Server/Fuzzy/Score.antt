-- ===== src/Server/Fuzzy/Score.antt =====
-- The scores of a comparison: their bounds, and the full score.
use native.Mathlib.Nat.{div-le_of_le-mul}
use corpus.Prelude.{
  ℕ, ◌+◌, ◌*◌, ◌/◌, min, ◌≤◌, ◌≡◌, refl, arith, true, Bool-cases, inl, inr, Option, some, none,
  Option-cases, length, ◌==◌,
}
use corpus.Agent.Spool.{Bytes}
use corpus.Server.Cas.{text_eq}
use corpus.Server.Cas.Put.{text_eq_refl}
use corpus.Server.Fuzzy.{
  spamsum_length, strip_sequences, levenshtein, common_substring, score_cap, similarity,
  score_strings, Digest, twice, max_score, compare_stripped, strip, compare,
}
use corpus.Server.Fuzzy.Distance.{levenshtein_le}

-- The subtraction from 100 does not go below 0.
pub penalty_le :
    (s t : Bytes)
    → (100 * ((levenshtein s t * spamsum_length) / (length s + length t))) / spamsum_length ≤ 100
penalty_le s t =
    let part : (levenshtein s t * spamsum_length) / (length s + length t) ≤ spamsum_length =
      div-le_of_le-mul (length s + length t) (omega (arith, levenshtein_le s t)) in
    omega (arith, part)

IsScore : Option ℕ → Type 0
IsScore o = (n : ℕ) → o ≡ some n → n ≤ 100

score_strings-IsScore : (s t : Bytes) (b : ℕ) → IsScore (score_strings s t b)
unfolding score_strings similarity IsScore
score_strings-IsScore s t b = elim (Bool-cases (common_substring s t)) [
  | inr apart ↦ rw (apart, score_strings) (λ n e. ground (arith, e))
  | inl common ↦ elim (Option-cases (score_cap b (min (length s) (length t)))) [
    | inl over ↦ rw (common, over, score_strings) (λ n e. ground (arith, e))
    | inr (cap, fits) ↦ rw (common, fits, score_strings) (λ n e. ground (arith, e))
  ]
]

max_score-IsScore : (a b : Option ℕ) → IsScore a → IsScore b → IsScore (max_score a b)
unfolding max_score IsScore
max_score-IsScore none b ha hb n e = ground (arith, e)
max_score-IsScore (some x) none ha hb n e = ground (arith, e)
max_score-IsScore (some x) (some y) ha hb n e = ground (arith, e, ha x refl, hb y refl)

compare_stripped-IsScore : (h1 h2 : Digest) → IsScore (compare_stripped h1 h2)
unfolding compare_stripped IsScore
compare_stripped-IsScore h1 h2 = elim (Bool-cases (h1.block_size == h2.block_size)) [
  | inl one ↦ elim (Bool-cases (text_eq h1.first h2.first)) [
    | inl same ↦ rw (one, same, compare_stripped) (at_most 100 (omega arith))
    | inr other ↦ elim (Option-cases (twice h2.block_size)) [
      | inl over ↦ rw (one, other, over, compare_stripped) nothing
      | inr (d, fits) ↦
          rw (one, other, fits, compare_stripped)
            (max_score-IsScore _ _ (score_strings-IsScore h1.first h2.first h1.block_size)
              (score_strings-IsScore h1.second h2.second d))
    ]
  ]
  | inr two ↦ elim (Option-cases (twice h2.block_size)) [
    | inl over ↦ rw (two, over, compare_stripped) nothing
    | inr (d2, fits2) ↦ elim (Bool-cases (h1.block_size == d2)) [
      | inl up ↦
          rw (two, fits2, up, compare_stripped)
            (score_strings-IsScore h1.first h2.second h1.block_size)
      | inr not_up ↦ elim (Option-cases (twice h1.block_size)) [
        | inl over ↦ rw (two, fits2, not_up, over, compare_stripped) nothing
        | inr (d1, fits1) ↦ elim (Bool-cases (h2.block_size == d1)) [
          | inl down ↦
              rw (two, fits2, not_up, fits1, down, compare_stripped)
                (score_strings-IsScore h1.second h2.first h2.block_size)
          | inr far ↦
              rw (two, fits2, not_up, fits1, far, compare_stripped) (at_most 0 (omega arith))
        ]
      ]
    ]
  ]
]
  where
    nothing : IsScore none
    nothing n e = absurd (ground (arith, e))

    at_most : (k : ℕ) → k ≤ 100 → IsScore (some k)
    at_most k h n e = ground (arith, h, e)

-- A comparison of two digests, malformed or not, that gives a score gives at most 100.
pub compare-IsScore : (h1 h2 : Option Digest) (n : ℕ) → compare h1 h2 ≡ some n → n ≤ 100
unfolding compare IsScore
compare-IsScore none h2 n e = ground (arith, e)
compare-IsScore (some h1) none n e = ground (arith, e)
compare-IsScore (some h1) (some h2) n e = compare_stripped-IsScore (strip h1) (strip h2) n e

-- A digest is like itself, and like every digest of its block size whose first half differs from its
-- own only by what `strip_sequences` leaves out.
pub compare_same :
    (h1 h2 : Digest)
    → h1.block_size ≡ h2.block_size
    → strip_sequences h1.first ≡ strip_sequences h2.first
    → compare (some h1) (some h2) ≡ some 100
unfolding compare compare_stripped strip
compare_same h1 h2 size first =
    let one : (h1.block_size == h2.block_size) ≡ true = ground (arith, size) in
    let same : text_eq (strip_sequences h1.first) (strip_sequences h2.first) ≡ true =
      rw first (text_eq_refl (strip_sequences h2.first)) in
    rw (one, same) refl
