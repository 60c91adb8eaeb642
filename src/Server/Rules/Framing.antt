-- ===== src/Server/Rules/Framing.antt =====
-- rules.rs, `bundle_digest`: what the zero bytes between the ids and the sources separate.
use mathlib.Core.List.{append_assoc, Perm}
use mathlib.Core.List.Perm
use corpus.Prelude.{
  ◌≡◌, ◌≢◌, refl, sym, ap, ◌∙◌, true, Bool-cases, ◌⊎◌, inl, inr, List, [], ◌∷◌, ◌++◌, All,
}
use corpus.Server.Hash.{Text, Digests, encode_inj}
use corpus.Server.Cas.{text_eq}
use corpus.Server.Cas.Put.{text_eq-true, text_eq_refl}
use corpus.Server.Rules.{
  text_leb, insert_rule, sort_rules, frame_rules, bundle_tag, bundle_bytes, bundle_digest,
}
use corpus.Server.Rules.Order.{sort_rules-Perm}

abbrev pub HasNoNul : Text → Type 0
HasNoNul text = All (λ b. b ≢ 0) text

-- What the text columns of PostgreSQL can hold.
abbrev pub IsStorable : Text × Text → Type 0
IsStorable r = HasNoNul r.0 × HasNoNul r.1

cut_at_nul :
    (a b x y : Text) → HasNoNul a → HasNoNul b → a ++ (0 ∷ x) ≡ b ++ (0 ∷ y) → (a ≡ b) × (x ≡ y)
cut_at_nul [] [] x y h k e = (refl, cc)
cut_at_nul [] (b ∷ bs) x y h k e = absurd (k.0 cc)
cut_at_nul (a ∷ as') [] x y h k e = absurd (h.0 cc)
cut_at_nul (a ∷ as') (b ∷ bs) x y h k e =
    let head : a ≡ b = cc in let rest = cut_at_nul as' bs x y h.1 k.1 cc in (cc, rest.1)

no_nul : (c a x : Text) → HasNoNul c → c ≡ a ++ (0 ∷ x) → ⊥
no_nul [] [] x h e = cc
no_nul [] (a ∷ as') x h e = cc
no_nul (c ∷ cs) [] x h e = h.0 cc
no_nul (c ∷ cs) (a ∷ as') x h e = no_nul cs as' x h.1 cc

frame_assoc :
    (id source rest c : Text)
    → (id ++ (0 ∷ (source ++ (0 ∷ rest)))) ++ c ≡ id ++ (0 ∷ (source ++ (0 ∷ (rest ++ c))))
frame_assoc id source rest c =
    append_assoc id (0 ∷ (source ++ (0 ∷ rest))) c
    ∙ ap (λ t. id ++ (0 ∷ t)) (append_assoc source (0 ∷ rest) c)

frame_rules_inj :
    (rules rules' : List (Text × Text)) (c c' : Text)
    → All IsStorable rules
    → All IsStorable rules'
    → HasNoNul c
    → HasNoNul c'
    → frame_rules rules ++ c ≡ frame_rules rules' ++ c'
    → (rules ≡ rules') × (c ≡ c')
unfolding frame_rules
frame_rules_inj [] [] c c' h h' k k' e = (refl, e)
frame_rules_inj [] ((id, source) ∷ rules') c c' h h' k k' e =
    absurd (no_nul c id _ k (e ∙ frame_assoc id source _ c'))
frame_rules_inj ((id, source) ∷ rules) [] c c' h h' k k' e =
    absurd (no_nul c' id _ k' (sym e ∙ frame_assoc id source _ c))
frame_rules_inj ((id, source) ∷ rules) ((id', source') ∷ rules') c c' h h' k k' e =
    let first =
      cut_at_nul id id' _ _ h.0.0 h'.0.0
        (sym (frame_assoc id source _ c) ∙ e ∙ frame_assoc id' source' _ c') in
    let second = cut_at_nul source source' _ _ h.0.1 h'.0.1 first.1 in
    let rest = frame_rules_inj rules rules' c c' h.1 h'.1 k k' second.1 in
    let same = first.0 in let same' = second.0 in (rw (same, same', rest.0) refl, rest.1)

All-insert_rule :
    (r : Text × Text) (rules : List (Text × Text))
    → IsStorable r
    → All IsStorable rules
    → All IsStorable (insert_rule r rules)
unfolding insert_rule
All-insert_rule r [] p h = (p, tt)
All-insert_rule r (s ∷ rules) p h = elim (Bool-cases (text_leb r.0 s.0)) [
  | inl le ↦ rw le (p, h)
  | inr gt ↦ rw gt (h.0, All-insert_rule r rules p h.1)
]

All-sort_rules :
    (rules : List (Text × Text)) → All IsStorable rules → All IsStorable (sort_rules rules)
unfolding sort_rules
All-sort_rules [] h = h
All-sort_rules (r ∷ rules) h = All-insert_rule r _ h.0 (All-sort_rules rules h.1)

-- After the tag, which all bundles share.
after_tag : (tag x y : Text) → tag ++ x ≡ tag ++ y → x ≡ y
after_tag [] x y e = e
after_tag (b ∷ tag) x y e = after_tag tag x y cc

bundle_bytes_inj :
    (rules rules' : List (Text × Text)) (c c' : Text)
    → All IsStorable rules
    → All IsStorable rules'
    → HasNoNul c
    → HasNoNul c'
    → bundle_bytes rules c ≡ bundle_bytes rules' c'
    → Perm rules rules' × (c ≡ c')
unfolding bundle_bytes
bundle_bytes_inj rules rules' c c' h h' k k' e =
    let framed =
      after_tag bundle_tag (frame_rules (sort_rules rules) ++ c)
        (frame_rules (sort_rules rules') ++ c')
        (sym (append_assoc bundle_tag _ c) ∙ e ∙ append_assoc bundle_tag _ c') in
    let same =
      frame_rules_inj (sort_rules rules) (sort_rules rules') c c' (All-sort_rules rules h)
        (All-sort_rules rules' h') k k' framed in
    (Perm.trans (Perm.symm (sort_rules-Perm rules)) (rw same.0 (sort_rules-Perm rules')), same.1)

-- Two inputs of SHA-256 with one digest.
pub record Collide (d : Digests) (x y : Text) : Type 0 where
  pub apart : x ≢ y
  pub digests : d.sha256_raw x ≡ d.sha256_raw y

same_or_Collide :
    (d : Digests) (x y : Text) → d.sha256_raw x ≡ d.sha256_raw y → (x ≡ y) ⊎ Collide d x y
same_or_Collide d x y e = elim (Bool-cases (text_eq x y)) [
  | inl same ↦ inl (text_eq-true x y same)
  | inr other ↦
      let yes = text_eq_refl x in
      inr (record {
        apart = λ same. let not_same : text_eq x y ≡ true = rw (← same) yes in cc;
        digests = e;
      })
]

-- Where no id, no source and no configuration has a zero byte, two bundles with one digest have the
-- same rules, up to their order, and the same configuration, or SHA-256 has a collision.
pub bundle_digest-Perm_inv :
    (d : Digests) (rules rules' : List (Text × Text)) (c c' : Text)
    → All IsStorable rules
    → All IsStorable rules'
    → HasNoNul c
    → HasNoNul c'
    → bundle_digest d rules c ≡ bundle_digest d rules' c'
    → (Perm rules rules' × (c ≡ c')) ⊎ Collide d (bundle_bytes rules c) (bundle_bytes rules' c')
unfolding bundle_digest
bundle_digest-Perm_inv d rules rules' c c' h h' k k' e =
    elim (same_or_Collide d _ _ (encode_inj d _ _ e)) [
      | inl same ↦ inl (bundle_bytes_inj rules rules' c c' h h' k k' same)
      | inr collide ↦ inr collide
    ]
