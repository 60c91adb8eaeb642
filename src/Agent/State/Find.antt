-- ===== src/Agent/State/Find.antt =====
-- SELECT … FROM candidate WHERE id = ?1, before and after an update.
use mathlib.Core.Path.{subst}
use corpus.Prelude.{ℕ, ◌≡◌, some, List, [], ◌∷◌, ◌==◌, arith, All, Bool-cases, inl, inr}
use corpus.Agent.State.{Candidate, update_row, find_row}
use corpus.Agent.State.Rows.{IsConsistent, KeepsKeys, All-map}

pub All-find_row {ℓ} :
    (P : Candidate → Type ℓ) (id : ℕ) (rows : List Candidate) (c : Candidate)
    → All P rows
    → find_row id rows ≡ some c
    → P c × (c.id ≡ id)
unfolding find_row
All-find_row P id [] c h e = absurd (ground (arith, e))
All-find_row P id (d ∷ rows) c h e = elim (Bool-cases (d.id == id)) [
  | inl hit ↦
      let same : d ≡ c = ground (arith, e, hit) in
      subst (λ x. P x × (x.id ≡ id)) same (h.0, ground (arith, hit))
  | inr miss ↦ All-find_row P id rows c h.1 (ground (arith, e, miss))
]

-- Of two rows with one id, one found by it, the table has one.
pub All_of_find_row :
    (id : ℕ) (rows : List Candidate) (c : Candidate)
    → IsConsistent rows
    → find_row id rows ≡ some c
    → All (λ d. d.id ≡ id → d ≡ c) rows
unfolding find_row
All_of_find_row id [] c h e = tt
All_of_find_row id (d ∷ rows) c h e = elim (Bool-cases (d.id == id)) [
  | inl hit ↦
      let same : d ≡ c = ground (arith, e, hit) in
      (
        λ _. same,
        All-map _ _ rows (λ x apart same_id. absurd (apart.ids (ground (arith, hit, same_id)))) h.0,
      )
  | inr miss ↦ (
    λ same_id. absurd (ground (arith, miss, same_id)),
    All_of_find_row id rows c h.1 (ground (arith, e, miss)),
  )
]

pub find_row-update_row :
    (id : ℕ) (f : Candidate → Candidate) (rows : List Candidate) (c : Candidate)
    → KeepsKeys f
    → find_row id rows ≡ some c
    → find_row id (update_row id f rows) ≡ some (f c)
unfolding find_row update_row
find_row-update_row id f [] c keys e = absurd (ground (arith, e))
find_row-update_row id f (d ∷ rows) c keys e = elim (Bool-cases (d.id == id)) [
  | inl hit ↦ let same : d ≡ c = ground (arith, e, hit) in ground (arith, hit, same, keys.id d)
  | inr miss ↦ ground (arith, miss, find_row-update_row id f rows c keys (ground (arith, e, miss)))
]
