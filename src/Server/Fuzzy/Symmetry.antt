-- ===== src/Server/Fuzzy/Symmetry.antt =====
-- The order of the two digests that `compare` is given.
use corpus.Prelude.{
  ℕ, ◌+◌, ◌*◌, ◌^◌, min, ◌<◌, ◌≡◌, refl, ap, sym, ◌∙◌, arith, Bool, true, false, Bool-cases,
  Option-cases, ◌⊎◌, inl, inr, Option, some, none, [], ◌∷◌, length, leb, ◌==◌, if◌then◌else◌,
}
use corpus.Agent.Spool.{Bytes}
use corpus.Server.Cas.{text_eq}
use corpus.Server.Fuzzy.{
  common_prefix, matches_at, common_substring, roll_window, levenshtein, score_cap, score_strings,
  max_score, twice, Digest, compare_stripped, strip, compare,
}
use corpus.Server.Fuzzy.Distance.{edit_distance, onto, levenshtein-edit_distance}

edit_distance_comm : (xs ys : Bytes) → edit_distance xs ys ≡ edit_distance ys xs
unfolding edit_distance
edit_distance_comm [] [] = refl
edit_distance_comm [] (y ∷ ys) = refl
edit_distance_comm (x ∷ xs) [] = refl
edit_distance_comm (x ∷ xs) (y ∷ ys) = ground (
  arith,
  edit_distance_comm (x ∷ xs) ys,
  edit_distance_comm xs (y ∷ ys),
  edit_distance_comm xs ys,
)

levenshtein_comm : (s t : Bytes) → levenshtein s t ≡ levenshtein t s
levenshtein_comm s t =
    levenshtein-edit_distance s t
    ∙ edit_distance_comm (onto s []) (onto t [])
    ∙ sym (levenshtein-edit_distance t s)

common_prefix_comm : (s t : Bytes) → common_prefix s t ≡ common_prefix t s
unfolding common_prefix
common_prefix_comm [] [] = refl
common_prefix_comm [] (b ∷ t) = refl
common_prefix_comm (a ∷ s) [] = refl
common_prefix_comm (a ∷ s) (b ∷ t) = ground (arith, common_prefix_comm s t)

-- A common piece is found where it starts, and in every text that goes on to the left.
here : (s t : Bytes) → leb roll_window (common_prefix s t) ≡ true → common_substring s t ≡ true
unfolding common_substring matches_at common_prefix
here [] t e = ground (arith, e)
here (a ∷ s) [] e = ground (arith, e)
here (a ∷ s) (b ∷ t) e = rw e refl

longer_left :
    (a : ℕ) (s t : Bytes) → common_substring s t ≡ true → common_substring (a ∷ s) t ≡ true
unfolding common_substring
longer_left a s t e = ground (arith, e)

longer_right :
    (s : Bytes) (b : ℕ) (t : Bytes)
    → common_substring s t ≡ true
    → common_substring s (b ∷ t) ≡ true
unfolding common_substring matches_at
longer_right [] b t e = ground (arith, e)
longer_right (a ∷ s) b t e = ground (arith, e, longer_right s b t)

matches_at-common_substring : (s t : Bytes) → matches_at s t ≡ true → common_substring t s ≡ true
unfolding matches_at
matches_at-common_substring s [] e = ground (arith, e)
matches_at-common_substring s (b ∷ t) e =
    elim (Bool-cases (leb roll_window (common_prefix s (b ∷ t)))) [
      | inl found ↦ here (b ∷ t) s (rw (common_prefix_comm (b ∷ t) s) found)
      | inr miss ↦ longer_left b t s (matches_at-common_substring s t (ground (arith, miss, e)))
    ]

common_substring_flip : (s t : Bytes) → common_substring s t ≡ true → common_substring t s ≡ true
unfolding common_substring
common_substring_flip [] t e = ground (arith, e)
common_substring_flip (a ∷ s) t e = elim (Bool-cases (matches_at (a ∷ s) t)) [
  | inl found ↦ matches_at-common_substring (a ∷ s) t found
  | inr miss ↦ longer_right t a s (common_substring_flip s t (ground (arith, miss, e)))
]

common_substring_comm : (s t : Bytes) → common_substring s t ≡ common_substring t s
common_substring_comm s t = ground (arith, common_substring_flip s t, common_substring_flip t s)

text_eq_comm : (s t : Bytes) → text_eq s t ≡ text_eq t s
text_eq_comm [] [] = refl
text_eq_comm [] (b ∷ t) = refl
text_eq_comm (a ∷ s) [] = refl
text_eq_comm (a ∷ s) (b ∷ t) = ground (arith, text_eq_comm s t)

score_strings_comm : (s t : Bytes) (b : ℕ) → score_strings s t b ≡ score_strings t s b
unfolding score_strings
score_strings_comm s t b =
    let least : min (length t) (length s) ≡ min (length s) (length t) = omega arith in
    let total : length t + length s ≡ length s + length t = omega arith in
    elim (Bool-cases (common_substring s t)) [
      | inr apart ↦ rw (apart, common_substring_comm t s ∙ apart, score_strings) refl
      | inl common ↦ elim (Option-cases (score_cap b (min (length s) (length t)))) [
        | inl over ↦
            rw (common, common_substring_comm t s ∙ common, over, least, over, score_strings) refl
        | inr (cap, fits) ↦
            rw (common, common_substring_comm t s ∙ common, fits, least, fits, score_strings)
              (rw (levenshtein_comm t s, total) refl)
      ]
    ]

max_score_comm : (a b : Option ℕ) → max_score a b ≡ max_score b a
unfolding max_score
max_score_comm none none = refl
max_score_comm none (some b) = refl
max_score_comm (some a) none = refl
max_score_comm (some a) (some b) = ap some (omega arith)

twice_fits : (n : ℕ) → n < 2 ^ 31 → twice n ≡ some (n * 2)
unfolding twice
twice_fits n small = ground (arith, small)

pub one_size :
    (h1 h2 : Digest)
    → (h1.block_size == h2.block_size) ≡ true
    → h2.block_size < 2 ^ 31
    → compare_stripped h1 h2 ≡ (
        if text_eq h1.first h2.first
        then some 100
        else max_score
            (score_strings h1.first h2.first h1.block_size)
            (score_strings h1.second h2.second (h2.block_size * 2)))
unfolding compare_stripped
one_size h1 h2 same small = rw (same, twice_fits h2.block_size small, compare_stripped) refl

pub two_sizes :
    (h1 h2 : Digest)
    → (h1.block_size == h2.block_size) ≡ false
    → h1.block_size < 2 ^ 31
    → h2.block_size < 2 ^ 31
    → compare_stripped h1 h2 ≡ (
        if h1.block_size == h2.block_size * 2
        then score_strings h1.first h2.second h1.block_size
        else if h2.block_size == h1.block_size * 2
        then score_strings h1.second h2.first h2.block_size
        else some 0)
unfolding compare_stripped
two_sizes h1 h2 differ small1 small2 = elim (Bool-cases (h1.block_size == h2.block_size * 2)) [
  | inl up ↦ rw (differ, twice_fits h2.block_size small2, up, compare_stripped) refl
  | inr not_up ↦
      rw
        (
          differ,
          twice_fits h2.block_size small2,
          not_up,
          twice_fits h1.block_size small1,
          compare_stripped,
        )
        refl
]

-- Two tests of which one fails are made in either order.
either :
    {p q : Bool} (a b c : Option ℕ)
    → (p ≡ false) ⊎ (q ≡ false)
    → (if p then a else if q then b else c) ≡ (if q then b else if p then a else c)
either {p = true} {q = true} a b c (inl e) = cc
either {p = true} {q = true} a b c (inr e) = cc
either {p = true} {q = false} a b c e = refl
either {p = false} {q = true} a b c e = refl
either {p = false} {q = false} a b c e = refl

one_fails : (m n : ℕ) → (m == n) ≡ false → ((m == n * 2) ≡ false) ⊎ ((n == m * 2) ≡ false)
one_fails m n differ = elim (Bool-cases (m == n * 2)) [
  | inr e ↦ inl e
  | inl e ↦ inr (ground (arith, differ, e))
]

compare_stripped_comm :
    (h1 h2 : Digest)
    → h1.block_size < 2 ^ 31
    → h2.block_size < 2 ^ 31
    → compare_stripped h1 h2 ≡ compare_stripped h2 h1
compare_stripped_comm h1 h2 small1 small2 = elim (Bool-cases (h1.block_size == h2.block_size)) [
  | inl same ↦
      let size : h1.block_size ≡ h2.block_size = ground (arith, same) in
      rw
        (
          one_size h1 h2 same small2,
          one_size h2 h1 (ground (arith, size)) small1,
          size,
          text_eq_comm h1.first h2.first,
          score_strings_comm h1.first h2.first h2.block_size,
          score_strings_comm h1.second h2.second (h2.block_size * 2),
        )
        refl
  | inr differ ↦
      rw
        (
          two_sizes h1 h2 differ small1 small2,
          two_sizes h2 h1 (ground (arith, differ)) small2 small1,
          score_strings_comm h1.first h2.second h1.block_size,
          score_strings_comm h1.second h2.first h2.block_size,
        )
        (either _ _ (some 0) (one_fails h1.block_size h2.block_size differ))
]

-- A comparison does not depend on the order of its two digests, if both block
-- sizes are below 2 ^ 31, so that their doubles do not overflow.
pub compare_comm :
    (h1 h2 : Digest)
    → h1.block_size < 2 ^ 31
    → h2.block_size < 2 ^ 31
    → compare (some h1) (some h2) ≡ compare (some h2) (some h1)
unfolding compare strip
compare_comm h1 h2 small1 small2 = compare_stripped_comm (strip h1) (strip h2) small1 small2
