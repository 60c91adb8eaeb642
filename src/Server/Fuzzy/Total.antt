-- ===== src/Server/Fuzzy/Total.antt =====
-- The overflows that `compare` can meet, and the sizes of its digests.
use native.Mathlib.Nat.{mul-le-mul_left}
use corpus.Prelude.{
  ℕ, ◌*◌, ◌/◌, ◌^◌, min, ◌≤◌, ◌<◌, ◌≡◌, refl, arith, Bool, true, false, not, ◌||◌, Bool-cases, inl,
  inr, Option, some, [], ◌∷◌, length, ◌==◌, if◌then◌else◌,
}
use corpus.Agent.Spool.{Bytes}
use corpus.Server.Fuzzy.{
  blocksize_min, common_substring, strip_from, strip_sequences, score_cap, score_strings, max_score,
  Digest, compare_stripped, strip, compare,
}
use corpus.Server.Fuzzy.Symmetry.{one_size, two_sizes}

IsSome : Option ℕ → Type 0
IsSome o = (n : ℕ) × (o ≡ some n)

length-strip_from : (a b c : ℕ) (xs : Bytes) → length (strip_from a b c xs) ≤ length xs
unfolding strip_from
length-strip_from a b c [] = omega arith
length-strip_from a b c (x ∷ xs) =
    let rest = length-strip_from b c x xs in
    elim (Bool-cases (not (x == c) || not (x == b) || not (x == a))) [
      | inl kept ↦ rw (kept, strip_from) (omega (arith, rest))
      | inr dropped ↦ rw (dropped, strip_from) (omega (arith, rest))
    ]

length-strip_sequences : (xs : Bytes) → length (strip_sequences xs) ≤ length xs
unfolding strip_sequences
length-strip_sequences [] = omega arith
length-strip_sequences (a ∷ []) = omega arith
length-strip_sequences (a ∷ b ∷ []) = omega arith
length-strip_sequences (a ∷ b ∷ c ∷ xs) = omega (arith, length-strip_from a b c xs)

score_cap_fits : (b n : ℕ) → b < 2 ^ 26 → n ≤ 64 → score_cap b n ≡ some ((b / blocksize_min) * n)
unfolding score_cap
score_cap_fits b n small few =
    let fits : (b / blocksize_min) * n < 2 ^ 31 =
      omega (arith, mul-le-mul_left (b / blocksize_min) few, small) in
    ground (arith, fits)

score_strings_total :
    (s t : Bytes) (b : ℕ) → length s ≤ 64 → b < 2 ^ 26 → IsSome (score_strings s t b)
unfolding IsSome score_strings
score_strings_total s t b few small = elim (Bool-cases (common_substring s t)) [
  | inr apart ↦ rw (apart, score_strings) (0, refl)
  | inl common ↦
      rw
        (
          common,
          score_cap_fits b (min (length s) (length t)) small (omega (arith, few)),
          score_strings,
        )
        (_, refl)
]

max_score_total : (a b : Option ℕ) → IsSome a → IsSome b → IsSome (max_score a b)
unfolding IsSome max_score
max_score_total a b (m, e) (n, f) = rw (e, f) (_, refl)

if_total : (b : Bool) (x y : Option ℕ) → IsSome x → IsSome y → IsSome (if b then x else y)
if_total true x y hx hy = hx
if_total false x y hx hy = hy

found : (n : ℕ) → IsSome (some n)
unfolding IsSome
found n = (n, refl)

compare_stripped_total :
    (h1 h2 : Digest)
    → length h1.first ≤ 64
    → length h1.second ≤ 64
    → h1.block_size < 2 ^ 25
    → h2.block_size < 2 ^ 25
    → IsSome (compare_stripped h1 h2)
compare_stripped_total h1 h2 first second small1 small2 =
    let below1 : h1.block_size < 2 ^ 31 = omega (arith, small1) in
    let below2 : h2.block_size < 2 ^ 31 = omega (arith, small2) in
    elim (Bool-cases (h1.block_size == h2.block_size)) [
      | inl same ↦ rw (one_size h1 h2 same below2) (
          if_total _ _ _ (found 100) (
            max_score_total _ _
              (score_strings_total h1.first h2.first _ first (omega (arith, small1)))
              (score_strings_total h1.second h2.second _ second (omega (arith, small2)))))
      | inr differ ↦ rw (two_sizes h1 h2 differ below1 below2) (
          if_total _ _ _ (score_strings_total h1.first h2.second _ first (omega (arith, small1))) (
            if_total _ _ _ (score_strings_total h1.second h2.first _ second (omega (arith, small2)))
              (found 0)))
    ]

-- A comparison of two digests gives a score, so that nothing in it overflows, if both block sizes
-- are below 2 ^ 25 and the two halves of the first digest have at most 64 characters each.
pub compare_total :
    (h1 h2 : Digest)
    → length h1.first ≤ 64
    → length h1.second ≤ 64
    → h1.block_size < 2 ^ 25
    → h2.block_size < 2 ^ 25
    → (n : ℕ) × (compare (some h1) (some h2) ≡ some n)
unfolding compare strip IsSome
compare_total h1 h2 first second small1 small2 =
    compare_stripped_total (strip h1) (strip h2)
      (omega (arith, first, length-strip_sequences h1.first))
      (omega (arith, second, length-strip_sequences h1.second)) small1 small2
