-- ===== src/Server/Examples/Fuzzy.antt =====
-- similarity/fuzzy.rs: the digests of the tests of the repository.
use corpus.Prelude.{ℕ, ◌≡◌, zero, suc, refl, arith, false, some, [], ◌∷◌, length}
use corpus.Agent.Spool.{Bytes}
use corpus.Server.Fuzzy.Hash.{fuzzy_hash}
use corpus.Server.Fuzzy.Hash.Bounds.{has_colon}
use corpus.Server.Fuzzy.Text.{Numbers}
use corpus.Server.Fuzzy.Text.RoundTrip.{IsCompared, fuzzy_text-IsCompared}

-- `hello world`
abbrev hello : Bytes
hello = 104 ∷ 101 ∷ 108 ∷ 108 ∷ 111 ∷ 32 ∷ 119 ∷ 111 ∷ 114 ∷ 108 ∷ 100 ∷ []

-- `3:iKFSMPn:rJPn`
fuzzy_hash-hello :
    fuzzy_hash hello
    ≡ some (record {
      block_size = 3;
      first = 105 ∷ 75 ∷ 70 ∷ 83 ∷ 77 ∷ 80 ∷ 110 ∷ [];
      second = 114 ∷ 74 ∷ 80 ∷ 110 ∷ [];
    })
unfolding fuzzy_hash
fuzzy_hash-hello = refl

-- Numbers in strokes.
unfoldable strokes : ℕ → Bytes
strokes zero = []
strokes (suc n) = 49 ∷ strokes n

length-strokes : (n : ℕ) → length (strokes n) ≡ n
unfolding strokes
length-strokes zero = refl
length-strokes (suc n) = rw (length-strokes n) refl

has_colon-strokes : (n : ℕ) → has_colon (strokes n) ≡ false
unfolding strokes
has_colon-strokes zero = refl
has_colon-strokes (suc n) = has_colon-strokes n

abbrev stroke_numbers : Numbers
stroke_numbers = record {
  to_text = strokes;
  parse = λ text. some (length text);
  parse-to_text = λ n _. rw (length-strokes n) refl;
  no_colon = has_colon-strokes;
}

fuzzy_text-IsCompared_example : IsCompared stroke_numbers hello []
fuzzy_text-IsCompared_example =
    fuzzy_text-IsCompared stroke_numbers hello [] (omega arith) (omega arith)
