-- ===== src/Server/Rules/Order.antt =====
-- rules.rs, `bundle_digest`: the sort of the rules.
use mathlib.Core.List.{Perm, Permᴰ}
use mathlib.Core.List.Perm
use mathlib.Core.Logic.{∥∥₁_elim}
use mathlib.Core.Path.{subst}
use native.Mathlib.Nat.{ℕ_set}
use corpus.Prelude.{
  ◌≡◌, ◌≢◌, refl, sym, ap, ◌∙◌, arith, true, false, Bool-cases, inl, inr, List, [], ◌∷◌, All,
}
use corpus.Server.Hash.{Text, Digests}
use corpus.Server.Rules.{text_leb, insert_rule, sort_rules, bundle_digest}

text_leb_total : (a b : Text) → text_leb a b ≡ false → text_leb b a ≡ true
unfolding text_leb
text_leb_total [] b e = cc
text_leb_total (s ∷ ss) [] e = refl
text_leb_total (s ∷ ss) (t ∷ ts) e = elim (Bool-cases (text_leb ss ts)) [
  | inl le ↦ ground (arith, e, le)
  | inr gt ↦ let back = text_leb_total ss ts gt in ground (arith, e, gt, back)
]

text_leb_antisym : (a b : Text) → text_leb a b ≡ true → text_leb b a ≡ true → a ≡ b
unfolding text_leb
text_leb_antisym [] [] e e' = refl
text_leb_antisym [] (t ∷ ts) e e' = cc
text_leb_antisym (s ∷ ss) [] e e' = cc
text_leb_antisym (s ∷ ss) (t ∷ ts) e e' =
    let head : s ≡ t = ground (arith, e, e') in
    let le : text_leb ss ts ≡ true = ground (arith, e, head) in
    let ge : text_leb ts ss ≡ true = ground (arith, e', head) in
    let tail = text_leb_antisym ss ts le ge in cc

text_leb_trans : (a b c : Text) → text_leb a b ≡ true → text_leb b c ≡ true → text_leb a c ≡ true
unfolding text_leb
text_leb_trans [] b c e e' = refl
text_leb_trans (r ∷ rs) [] c e e' = cc
text_leb_trans (r ∷ rs) (s ∷ ss) [] e e' = cc
text_leb_trans (r ∷ rs) (s ∷ ss) (t ∷ ts) e e' = elim (Bool-cases (text_leb rs ss)) [
  | inr gt ↦ ground (arith, e, e', gt)
  | inl le ↦ elim (Bool-cases (text_leb ss ts)) [
    | inr gt' ↦ ground (arith, e, e', gt')
    | inl le' ↦ let both = text_leb_trans rs ss ts le le' in ground (arith, e, e', both)
  ]
]

module _ (a b : Text × Text) (apart : a.0 ≢ b.0) where
  -- One of two ids is the lesser.
  before : text_leb a.0 b.0 ≡ true → text_leb b.0 a.0 ≡ false
  before le = elim (Bool-cases (text_leb b.0 a.0)) [
    | inl ge ↦ absurd (apart (text_leb_antisym a.0 b.0 le ge))
    | inr gt ↦ gt
  ]

  comm_step :
      (s : Text × Text) (rules : List (Text × Text))
      → insert_rule a (insert_rule b rules) ≡ insert_rule b (insert_rule a rules)
      → text_leb a.0 b.0 ≡ true
      → insert_rule a (insert_rule b (s ∷ rules)) ≡ insert_rule b (insert_rule a (s ∷ rules))
  unfolding insert_rule
  comm_step s rules e le =
      let gt = before le in
      elim (Bool-cases (text_leb b.0 s.0)) [
        | inl b_first ↦
            let a_first = text_leb_trans a.0 b.0 s.0 le b_first in
            rw (b_first, le, a_first, gt, b_first) refl
        | inr b_later ↦ elim (Bool-cases (text_leb a.0 s.0)) [
          | inl a_first ↦ rw (b_later, a_first, gt, b_later) refl
          | inr a_later ↦ rw (b_later, a_later, b_later) (ap (λ rest. s ∷ rest) e)
        ]
      ]

-- Two rules of different ids go in whichever order.
insert_rule_comm :
    (a b : Text × Text) (rules : List (Text × Text))
    → a.0 ≢ b.0
    → insert_rule a (insert_rule b rules) ≡ insert_rule b (insert_rule a rules)
unfolding insert_rule
insert_rule_comm a b [] apart = elim (Bool-cases (text_leb a.0 b.0)) [
  | inl le ↦ rw (le, before a b apart le) refl
  | inr gt ↦ let le = text_leb_total a.0 b.0 gt in rw (gt, le) refl
]
insert_rule_comm a b (s ∷ rules) apart =
    let later = insert_rule_comm a b rules apart in
    elim (Bool-cases (text_leb a.0 b.0)) [
      | inl le ↦ comm_step a b apart s rules later le
      | inr gt ↦
          sym (comm_step b a (λ e. apart (sym e)) s rules (sym later) (text_leb_total a.0 b.0 gt))
    ]

-- No two rules have one id.
abbrev pub Distinct : List (Text × Text) → Type 0
Distinct [] = Unit
Distinct (r ∷ rules) = All (λ s. r.0 ≢ s.0) rules × Distinct rules

All-Permᴰ :
    (P : Text × Text → Type 0) {rules rules' : List (Text × Text)}
    → Permᴰ rules rules'
    → All P rules
    → All P rules'
All-Permᴰ P Permᴰ.nil h = h
All-Permᴰ P (Permᴰ.cons e p) h = (rw (← e) h.0, All-Permᴰ P p h.1)
All-Permᴰ P (Permᴰ.swap e e') h = (rw (← e') h.1.0, (rw (← e) h.0, h.1.1))
All-Permᴰ P (Permᴰ.trans p q) h = All-Permᴰ P q (All-Permᴰ P p h)

Distinct-Permᴰ :
    {rules rules' : List (Text × Text)} → Permᴰ rules rules' → Distinct rules → Distinct rules'
Distinct-Permᴰ Permᴰ.nil h = h
Distinct-Permᴰ (Permᴰ.cons e p) h = (rw (← e) (All-Permᴰ _ p h.0), Distinct-Permᴰ p h.1)
Distinct-Permᴰ (Permᴰ.swap {a} {b} {a'} {b'} {l} e e') h =
    subst (λ x. Distinct (x ∷ b' ∷ l)) e'
      (subst (λ x. Distinct (b ∷ x ∷ l)) e (((λ same. h.0.0 (sym same)), h.1.0), (h.0.1, h.1.1)))
Distinct-Permᴰ (Permᴰ.trans p q) h = Distinct-Permᴰ q (Distinct-Permᴰ p h)

sort_rules-Permᴰ :
    {rules rules' : List (Text × Text)}
    → Permᴰ rules rules'
    → Distinct rules
    → sort_rules rules ≡ sort_rules rules'
unfolding sort_rules
sort_rules-Permᴰ Permᴰ.nil h = refl
sort_rules-Permᴰ (Permᴰ.cons e p) h = rw (e, sort_rules-Permᴰ p h.1) refl
sort_rules-Permᴰ (Permᴰ.swap {a} {b} {l = l} e e') h =
    rw (← e, ← e') (insert_rule_comm a b (sort_rules l) h.0.0)
sort_rules-Permᴰ (Permᴰ.trans p q) h =
    sort_rules-Permᴰ p h ∙ sort_rules-Permᴰ q (Distinct-Permᴰ p h)

-- The digest of a bundle does not depend on the order in which its rules are given, if no two of
-- them have one id.
pub bundle_digest-Perm :
    (d : Digests) (rules rules' : List (Text × Text)) (compiler_config : Text)
    → Perm rules rules'
    → Distinct rules
    → bundle_digest d rules compiler_config ≡ bundle_digest d rules' compiler_config
unfolding bundle_digest
bundle_digest-Perm d rules rules' compiler_config p h =
    ∥∥₁_elim p (hlevel ℕ_set) (λ q. rw (sort_rules-Permᴰ q h) refl)

insert_rule-Perm :
    (r : Text × Text) (rules : List (Text × Text)) → Perm (insert_rule r rules) (r ∷ rules)
unfolding insert_rule
insert_rule-Perm r [] = Perm.rfl
insert_rule-Perm r (s ∷ rules) = elim (Bool-cases (text_leb r.0 s.0)) [
  | inl le ↦ rw le Perm.rfl
  | inr gt ↦ rw gt (Perm.trans (Perm.cons s (insert_rule-Perm r rules)) (Perm.swap r s rules))
]

pub sort_rules-Perm : (rules : List (Text × Text)) → Perm (sort_rules rules) rules
unfolding sort_rules
sort_rules-Perm [] = Perm.rfl
sort_rules-Perm (r ∷ rules) =
    Perm.trans (insert_rule-Perm r (sort_rules rules)) (Perm.cons r (sort_rules-Perm rules))
