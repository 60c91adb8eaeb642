-- ===== src/Agent/State/Identity/Sequence.antt =====
-- state.rs: the occurrence sequence, and the boot id that it belongs to.
use corpus.Prelude.{
  ℕ, zero, suc, ◌+◌, ◌≡◌, ◌≢◌, refl, ◌∙◌, Bool, true, false, Option, none, some, List, [], ◌∷◌,
  String, eq_iff, eq_refl, arith, inl, inr, Option-cases,
}
use corpus.Prelude.Assoc.{insert, lookup-insert}
use corpus.Agent.State.{StateDb}
use corpus.Agent.State.Identity.{
  Decimal, get_identity, set_identity_many, sequence_text, next_sequence, refresh_boot_identity,
}

abbrev pub is_some : Option String → Bool
is_some none = false
is_some (some _) = true

module _ (dec : Decimal) where
  -- The number that the last occurrence got.
  unfoldable pub sequence : StateDb → ℕ
  sequence db = dec.to_int (sequence_text db)

  abbrev next_text : StateDb → String
  next_text db = dec.to_text (dec.to_int (sequence_text db) + 1)

  -- A call returns the number after the last, whatever text is stored, and that is now the last. The
  -- boot id stays.
  pub next_sequence_lem :
      (db : StateDb)
      → ((next_sequence dec db).1 ≡ some (sequence db + 1))
        × (sequence (next_sequence dec db).0 ≡ sequence db + 1)
        × (get_identity "boot_id" (next_sequence dec db).0 ≡ get_identity "boot_id" db)
  unfolding next_sequence sequence sequence_text get_identity
  next_sequence_lem db =
      let stored = lookup-insert "agent_sequence" "agent_sequence" (next_text db) db.identity in
      let other = lookup-insert "agent_sequence" "boot_id" (next_text db) db.identity in
      (
        ground (arith, dec.parse-to_text (sequence db + 1)),
        ground (arith, stored, eq_refl "agent_sequence", dec.to_int-to_text (sequence db + 1)),
        ground (arith, other, eq_iff "agent_sequence" "boot_id"),
      )

  -- The numbers of `n` calls in a row.
  unfoldable pub sequences : ℕ → StateDb → List (Option ℕ) × StateDb
  sequences zero db = ([], db)
  sequences (suc n) db =
      let (db', number) = next_sequence dec db in
      let (rest, last) = sequences n db' in (number ∷ rest, last)

  abbrev pub count_from : ℕ → ℕ → List (Option ℕ)
  count_from zero start = []
  count_from (suc n) start = some start ∷ count_from n (start + 1)

  -- `n` calls in a row return the `n` numbers that follow the last one, in order and with no gap,
  -- and leave the boot id alone.
  pub sequences_lem :
      (n : ℕ) (db : StateDb)
      → ((sequences n db).0 ≡ count_from n (sequence db + 1))
        × (get_identity "boot_id" (sequences n db).1 ≡ get_identity "boot_id" db)
  unfolding sequences
  sequences_lem zero db = (refl, refl)
  sequences_lem (suc n) db =
      let (number, last, boot) = next_sequence_lem db in
      let (rest, kept) = sequences_lem n (next_sequence dec db).0 in
      (ground (arith, number, last, rest), kept ∙ boot)

  abbrev restarted : String → StateDb → StateDb
  restarted current db = set_identity_many (("boot_id", current) ∷ ("agent_sequence", "0") ∷ []) db

  restarted_lem :
      (current : String) (db : StateDb)
      → (get_identity "boot_id" (restarted current db) ≡ some current)
        × (sequence (restarted current db) ≡ 0)
  unfolding get_identity set_identity_many sequence sequence_text
  restarted_lem current db =
      let booted = insert "boot_id" current db.identity in
      let zero_text : dec.to_int "0" ≡ 0 = rw dec.to_text_zero at (dec.to_int-to_text 0) in
      (
        ground (
          arith,
          lookup-insert "agent_sequence" "boot_id" "0" booted,
          lookup-insert "boot_id" "boot_id" current db.identity,
          eq_refl "boot_id",
          eq_iff "agent_sequence" "boot_id",
        ),
        ground (
          arith,
          lookup-insert "agent_sequence" "agent_sequence" "0" booted,
          eq_refl "agent_sequence",
          zero_text,
        ),
      )

  refresh_boot_identity_lem :
      (current : String) (db : StateDb)
      → (get_identity "boot_id" (refresh_boot_identity current db).0 ≡ some current)
        × (get_identity "boot_id" db ≡ some current
            → refresh_boot_identity current db ≡ (db, false))
        × (get_identity "boot_id" db ≢ some current
            → (sequence (refresh_boot_identity current db).0 ≡ 0)
              × ((refresh_boot_identity current db).1 ≡ is_some (get_identity "boot_id" db)))
  unfolding refresh_boot_identity
  refresh_boot_identity_lem current db =
      let (boot, start) = restarted_lem current db in
      elim (Option-cases (get_identity "boot_id" db)) [
        | inl new ↦ (
          ground (arith, new, boot),
          λ e. ground (arith, new, e),
          λ _. (ground (arith, new, start), ground (arith, new)),
        )
        | inr (stored, old) ↦
            let same = eq_iff stored current in
            (
              ground (arith, old, boot, same),
              λ e. ground (arith, old, e, same),
              λ other. (ground (arith, old, other, start, same), ground (arith, old, other, same)),
            )
      ]

  -- Another boot id than the stored one is stored, and the sequence starts again at zero under it; the
  -- result says whether there was an earlier one.
  pub refresh_boot_identity_new :
      (current : String) (db : StateDb)
      → get_identity "boot_id" db ≢ some current
      → (get_identity "boot_id" (refresh_boot_identity current db).0 ≡ some current)
        × (sequence (refresh_boot_identity current db).0 ≡ 0)
        × ((refresh_boot_identity current db).1 ≡ is_some (get_identity "boot_id" db))
  refresh_boot_identity_new current db other =
      let (boot, _, new) = refresh_boot_identity_lem current db in
      (boot, (new other).0, (new other).1)
