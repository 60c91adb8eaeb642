-- ===== src/Server/Rules/Names.antt =====
-- rules.rs: where `parse_rule_name` panics.
use mathlib.Core.Path.{subst}
use corpus.Prelude.{
  ◌≤◌, ◌<◌, ◌↔◌, ℕ, zero, suc, ◌+◌, ◌≡◌, refl, arith, Bool-cases, inl, inr, Option, none, some,
  List, [], ◌∷◌, All, length, get_elem?,
}
use corpus.Server.Hash.{Text}
use corpus.Server.Cas.{text_eq}
use corpus.Server.Rules.{
  tokens, rule_word, rule_positions, panics, check_name, name_at, parse_rule_name,
}

get_elem?-none : (ts : List (List ℕ)) (i : ℕ) → get_elem? ts i ≡ none → length ts ≤ i
get_elem?-none [] i e = omega arith
get_elem?-none (t ∷ ts) zero e = cc
get_elem?-none (t ∷ ts) (suc i) e = omega (arith, get_elem?-none ts i e)

get_elem?-past : (ts : List (List ℕ)) (i : ℕ) → length ts ≤ i → get_elem? ts i ≡ none
get_elem?-past [] i le = refl
get_elem?-past (t ∷ ts) zero le = ground arith
get_elem?-past (t ∷ ts) (suc i) le = get_elem?-past ts i (omega arith)

rule_positions-bounds :
    (i : ℕ) (ts : List (List ℕ)) → All (λ p. p < i + length ts) (rule_positions i ts)
unfolding rule_positions
rule_positions-bounds i [] = tt
rule_positions-bounds i (t ∷ ts) =
    let later = weaken (rule_positions (suc i) ts) (rule_positions-bounds (suc i) ts) in
    elim (Bool-cases (text_eq t rule_word)) [
      | inl e ↦ rw e (omega arith, later)
      | inr e ↦ rw e later
    ]
  where
    weaken :
        (ps : List ℕ) → All (λ p. p < suc i + length ts) ps → All (λ p. p < i + length (t ∷ ts)) ps
    weaken [] h = tt
    weaken (p ∷ ps) h = (omega (arith, h.0), weaken ps h.1)

-- The word `rule` stands once, and is the last token.
pub record EndsInRule (source : Text) : Type 0 where
  pub index : ℕ
  pub only : rule_positions 0 (tokens source) ≡ index ∷ []
  pub last : suc index ≡ length (tokens source)

check_name-panics : (o : Option (List ℕ)) → check_name o ≡ panics → o ≡ none
unfolding check_name
check_name-panics none e = refl
check_name-panics (some []) e = cc
check_name-panics (some (c ∷ cs)) e = ground (arith, e)

panics_at :
    (source : Text) (ps : List ℕ)
    → rule_positions 0 (tokens source) ≡ ps
    → name_at (tokens source) ps ≡ panics
    → EndsInRule source
unfolding name_at
panics_at source [] e r = cc
panics_at source (p ∷ q ∷ ps) e r = cc
panics_at source (p ∷ []) e r =
    let past = get_elem?-none (tokens source) (p + 1) (check_name-panics _ r) in
    let below : All (λ q. q < 0 + length (tokens source)) (p ∷ []) =
      subst (λ ps. All (λ q. q < 0 + length (tokens source)) ps) e
        (rule_positions-bounds 0 (tokens source)) in
    record { index = p; only = e; last = omega (arith, past, below.0) }

-- A source panics exactly if the word `rule` stands once in it, as the last token.
pub parse_rule_name-EndsInRule :
    (source : Text) → (parse_rule_name source ≡ panics) ↔ EndsInRule source
unfolding parse_rule_name name_at check_name
parse_rule_name-EndsInRule source = (
  panics_at source (rule_positions 0 (tokens source)) refl,
  λ h.
      rw (h.only, get_elem?-past (tokens source) (h.index + 1) (let last = h.last in omega arith))
        refl,
)
