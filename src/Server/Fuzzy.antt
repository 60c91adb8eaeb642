-- ===== src/Server/Fuzzy.antt =====
-- crates/corpus-core/src/similarity/fuzzy.rs: the comparison of two fuzzy digests.
-- A digest is taken apart into its block size and its two halves, which are lists of bytes. An
-- arithmetic overflow, which panics where the checks are on, is none.
pub mod Distance
pub mod Score
pub mod Symmetry
pub mod Total
pub mod Hash
pub mod Text
use corpus.Prelude.{
  ℕ, zero, suc, ◌+◌, ◌-◌, ◌*◌, ◌/◌, ◌^◌, min, max, Bool, true, false, not, ◌&&◌, ◌||◌, Option, some,
  none, List, [], ◌∷◌, length, leb, ltb, ◌==◌, if◌then◌else◌,
}
use corpus.Agent.Spool.{Bytes}
use corpus.Server.Cas.{text_eq}

abbrev pub blocksize_min : ℕ
blocksize_min = 3

abbrev pub spamsum_length : ℕ
spamsum_length = 64

abbrev pub roll_window : ℕ
roll_window = 7

-- The bytes from the fourth on, after the three before each.
unfoldable pub strip_from : ℕ → ℕ → ℕ → Bytes → Bytes
strip_from a b c [] = []
strip_from a b c (x ∷ xs) =
    let rest = strip_from b c x xs in
    if not (x == c) || not (x == b) || not (x == a) then x ∷ rest else rest

unfoldable pub strip_sequences : Bytes → Bytes
unfolding strip_from
strip_sequences (a ∷ b ∷ c ∷ rest) = a ∷ b ∷ c ∷ strip_from a b c rest
strip_sequences short = short

-- `(i..=n)`
unfoldable pub count_up : ℕ → ℕ → List ℕ
count_up i zero = i ∷ []
count_up i (suc n) = i ∷ count_up (suc i) n

-- The inner loop: `v0` from the cell before `t` on, and the cell to the left in `v1`.
unfoldable pub next_cells : ℕ → Bytes → List ℕ → ℕ → List ℕ
next_cells sc (tc ∷ t) (diag ∷ up ∷ v0) left =
    let cell = min (min (left + 1) (up + 1)) (diag + (if sc == tc then 0 else 1)) in
    cell ∷ next_cells sc t (up ∷ v0) cell
next_cells sc t v0 left = []

-- The outer loop, from the row of `i` on.
unfoldable pub last_row : ℕ → Bytes → Bytes → List ℕ → List ℕ
unfolding next_cells
last_row i [] t v0 = v0
last_row i (sc ∷ s) t v0 = last_row (suc i) s t (suc i ∷ next_cells sc t v0 (suc i))

-- `v0[t.len()]`
unfoldable pub last_cell : List ℕ → ℕ
last_cell [] = 0
last_cell (n ∷ []) = n
last_cell (n ∷ m ∷ ns) = last_cell (m ∷ ns)

unfoldable pub levenshtein : Bytes → Bytes → ℕ
unfolding last_row last_cell count_up
levenshtein s t =
    if text_eq s t
    then 0
    else if length s == 0
    then length t
    else if length t == 0
    then length s
    else last_cell (last_row 0 s t (count_up 0 (length t)))

-- The length of the common prefix, which the innermost loop counts.
unfoldable pub common_prefix : Bytes → Bytes → ℕ
common_prefix (a ∷ s) (b ∷ t) = let cur = common_prefix s t in if a == b then suc cur else 0
common_prefix s t = 0

unfoldable pub matches_at : Bytes → Bytes → Bool
unfolding common_prefix
matches_at s [] = false
matches_at s (b ∷ t) = leb roll_window (common_prefix s (b ∷ t)) || matches_at s t

unfoldable pub common_substring : Bytes → Bytes → Bool
unfolding matches_at
common_substring [] t = false
common_substring (a ∷ s) t = matches_at (a ∷ s) t || common_substring s t

-- `(block_size / 3) as i32 * len as i32`
unfoldable pub score_cap : ℕ → ℕ → Option ℕ
score_cap block_size len =
    if ltb ((block_size / blocksize_min) * len) (2 ^ 31)
    then some ((block_size / blocksize_min) * len)
    else none

-- `100 - score`
unfoldable pub similarity : ℕ → ℕ → ℕ
similarity dist total = 100 - (100 * ((dist * spamsum_length) / total)) / spamsum_length

unfoldable pub score_strings : Bytes → Bytes → ℕ → Option ℕ
unfolding common_substring levenshtein score_cap similarity
score_strings s1 s2 block_size =
    if common_substring s1 s2
    then (elim (score_cap block_size (min (length s1) (length s2))) [
      | none ↦ none
      | some cap ↦ some (min (similarity (levenshtein s1 s2) (length s1 + length s2)) cap)
    ])
    else some 0

-- A digest as `parse` takes it apart.
pub record Digest : Type 0 where
  pub block_size : ℕ
  pub first : Bytes
  pub second : Bytes

-- `bs * 2` on u32.
unfoldable pub twice : ℕ → Option ℕ
twice bs = if ltb (bs * 2) (2 ^ 32) then some (bs * 2) else none

unfoldable pub max_score : Option ℕ → Option ℕ → Option ℕ
max_score (some a) (some b) = some (max a b)
max_score a b = none

-- The comparison of two digests that are taken apart, after `strip_sequences`.
unfoldable pub compare_stripped : Digest → Digest → Option ℕ
unfolding score_strings twice max_score
compare_stripped h1 h2 =
    if h1.block_size == h2.block_size
    then (if text_eq h1.first h2.first then some 100 else (elim (twice h2.block_size) [
      | none ↦ none
      | some double ↦
          max_score (score_strings h1.first h2.first h1.block_size)
            (score_strings h1.second h2.second double)
    ]))
    else (elim (twice h2.block_size) [
      | none ↦ none
      | some double2 ↦
          if h1.block_size == double2
          then score_strings h1.first h2.second h1.block_size
          else (elim (twice h1.block_size) [
            | none ↦ none
            | some double1 ↦
                if h2.block_size == double1
                then score_strings h1.second h2.first h2.block_size
                else some 0
          ])
    ])

unfoldable pub strip : Digest → Digest
unfolding strip_sequences
strip h = record {
  block_size = h.block_size;
  first = strip_sequences h.first;
  second = strip_sequences h.second;
}

-- What `parse` makes of each text is given: none is malformed.
unfoldable pub compare : Option Digest → Option Digest → Option ℕ
unfolding compare_stripped strip
compare none h2 = some 0
compare (some h1) none = some 0
compare (some h1) (some h2) = compare_stripped (strip h1) (strip h2)
