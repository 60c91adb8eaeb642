-- ===== src/Server/Examples/Rules.antt =====
-- rules.rs at concrete sources. The digest of the examples is one byte, the length.
use mathlib.Core.List.{Perm}
use mathlib.Core.List.Perm
use corpus.Prelude.{arith, ◌≡◌, ◌↔◌, ◌⊎◌, refl, List, [], ◌∷◌, ◌++◌}
use corpus.Server.Hash.{Text}
use corpus.Server.Rules.{parse_rule_name, named, many_rules, panics, bundle_bytes, bundle_digest}
use corpus.Server.Rules.Names.{EndsInRule, parse_rule_name-EndsInRule}
use corpus.Server.Rules.Order.{bundle_digest-Perm}
use corpus.Server.Rules.Framing.{Collide, bundle_digest-Perm_inv}
use corpus.Server.Examples.{example_digests}

-- `rule A{}`
abbrev rule_a : Text
rule_a = 114 ∷ 117 ∷ 108 ∷ 101 ∷ 32 ∷ 65 ∷ 123 ∷ 125 ∷ []

-- `//`, `rule A{}` again, in the comment
abbrev comment : Text
comment = 47 ∷ 47 ∷ rule_a ++ (10 ∷ [])

-- `rule`
abbrev only_rule : Text
only_rule = 114 ∷ 117 ∷ 108 ∷ 101 ∷ []

parse_rule_name-comment : parse_rule_name (comment ++ rule_a) ≡ named (65 ∷ [])
unfolding parse_rule_name
parse_rule_name-comment = refl

-- A second rule after `"//"` on the line is not seen.
parse_rule_name_hides : parse_rule_name (rule_a ++ (34 ∷ 47 ∷ 47 ∷ 34 ∷ rule_a)) ≡ named (65 ∷ [])
unfolding parse_rule_name
parse_rule_name_hides = refl

-- The word in a text counts as a rule.
parse_rule_name_text : parse_rule_name (rule_a ++ (34 ∷ only_rule ++ (34 ∷ []))) ≡ many_rules 2
unfolding parse_rule_name
parse_rule_name_text = refl

parse_rule_name-EndsInRule_example : (parse_rule_name only_rule ≡ panics) ↔ EndsInRule only_rule
parse_rule_name-EndsInRule_example = parse_rule_name-EndsInRule only_rule

parse_rule_name_panics : parse_rule_name only_rule ≡ panics
unfolding parse_rule_name
parse_rule_name_panics = refl

abbrev rules_ab : List (Text × Text)
rules_ab = (65 ∷ [], 97 ∷ []) ∷ (66 ∷ [], 98 ∷ []) ∷ []

abbrev rules_ba : List (Text × Text)
rules_ba = (66 ∷ [], 98 ∷ []) ∷ (65 ∷ [], 97 ∷ []) ∷ []

bundle_digest-Perm_example :
    bundle_digest example_digests rules_ab (99 ∷ [])
    ≡ bundle_digest example_digests rules_ba (99 ∷ [])
bundle_digest-Perm_example =
    bundle_digest-Perm example_digests rules_ab rules_ba (99 ∷ []) (Perm.swap _ _ [])
      (((λ e. ground arith), tt), (tt, tt))

bundle_digest-Perm_inv_example :
    (Perm rules_ab rules_ba × ◌≡◌ {A = Text} (99 ∷ []) (99 ∷ []))
    ⊎ Collide example_digests (bundle_bytes rules_ab (99 ∷ [])) (bundle_bytes rules_ba (99 ∷ []))
unfolding bundle_digest
bundle_digest-Perm_inv_example =
    bundle_digest-Perm_inv example_digests rules_ab rules_ba (99 ∷ []) (99 ∷ [])
      ((((λ e. cc), tt), ((λ e. cc), tt)), ((((λ e. cc), tt), ((λ e. cc), tt)), tt))
      ((((λ e. cc), tt), ((λ e. cc), tt)), ((((λ e. cc), tt), ((λ e. cc), tt)), tt)) ((λ e. cc), tt)
      ((λ e. cc), tt) refl
