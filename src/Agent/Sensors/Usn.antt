-- ===== src/Agent/Sensors/Usn.antt =====
-- sensors/usn.rs: the journal's identity, the plan at startup, and a buffer of USN_RECORD_V2.
-- `buf[offset..]` is the argument `rest`.
use corpus.Prelude.{
  ℕ, zero, suc, ◌+◌, ◌*◌, ◌≤◌, ◌≡◌, refl, ap, arith, Bool, true, false, ◌&&◌, Option, some, none,
  String, List, [], ◌∷◌, length, take, drop, leb, ltb, ◌==◌, if◌then◌else◌, Bool-cases, inl, inr,
}
use corpus.Agent.Spool.{Bytes}
use corpus.Agent.Sensors.{field, units, i64_leb}
use corpus.Agent.Sensors.Notify.{length-drop}

pub record UsnRecord : Type 0 where
  pub usn : ℕ
  pub file_reference : ℕ
  pub parent_reference : ℕ
  pub reason : ℕ
  pub file_name : String

pub record JournalInfo : Type 0 where
  pub journal_id : ℕ
  pub first_usn : ℕ
  pub next_usn : ℕ

unfoldable pub parse_journal_data : Bytes → Option JournalInfo
parse_journal_data buf =
    if ltb (length buf) 24
    then none
    else some (record {
      journal_id = field 0 8 buf;
      first_usn = field 8 8 buf;
      next_usn = field 16 8 buf;
    })

-- Each plan has the journal's id and an USN.
pub data ResumePlan : Type 0 where
  initialize resume reconcile : ℕ → ℕ → ResumePlan

unfoldable pub plan_resume : Option (ℕ × ℕ) → JournalInfo → ResumePlan
plan_resume none journal = initialize journal.journal_id journal.next_usn
plan_resume (some (id, usn)) journal =
    if (id == journal.journal_id) && i64_leb journal.first_usn usn && i64_leb usn journal.next_usn
    then resume id usn
    else reconcile journal.journal_id journal.next_usn

-- The tests on the length and on the version, each of which ends the loop.
unfoldable pub is_record : Bytes → Bool
is_record rest =
    leb 60 (length rest)
    && leb 60 (field 0 4 rest)
    && leb (field 0 4 rest) (length rest)
    && (field 4 2 rest == 2)

module _ (from_utf16_lossy : List ℕ → String) where
  unfoldable pub usn_record : Bytes → UsnRecord
  usn_record rest = record {
    usn = field 24 8 rest;
    file_reference = field 8 8 rest;
    parent_reference = field 16 8 rest;
    reason = field 40 4 rest;
    file_name = from_utf16_lossy (units (take (field 56 2 rest) (drop (field 58 2 rest) rest)));
  }

  unfoldable pub usn_records : ℕ → Bytes → List UsnRecord
  unfolding is_record usn_record
  usn_records zero rest = []
  usn_records (suc fuel) rest =
      let later = usn_records fuel (drop (field 0 4 rest) rest) in
      if is_record rest
      then (if leb (field 58 2 rest + field 56 2 rest) (field 0 4 rest)
          then usn_record rest ∷ later
          else later)
      else []

  -- Each turn drops at least sixty bytes, so that the length is fuel enough.
  unfoldable pub parse_usn_records : Bytes → List UsnRecord
  unfolding usn_records
  parse_usn_records buf = usn_records (length buf) buf

record_shortens :
    (rest : Bytes) → is_record rest ≡ true → 60 + length (drop (field 0 4 rest) rest) ≤ length rest
unfolding is_record
record_shortens rest whole = ground (arith, whole, length-drop (field 0 4 rest) rest)

module _ (from_utf16_lossy : List ℕ → String) where
  usn_records_fit :
      (fuel : ℕ) (rest : Bytes) → length (usn_records from_utf16_lossy fuel rest) * 60 ≤ length rest
  unfolding usn_records
  usn_records_fit zero rest = omega arith
  usn_records_fit (suc fuel) rest = elim (Bool-cases (is_record rest)) [
    | inr stop ↦ rw (stop, usn_records) (omega arith)
    | inl whole ↦
        let fit = usn_records_fit fuel (drop (field 0 4 rest) rest) in
        let shorter = record_shortens rest whole in
        elim (Bool-cases (leb (field 58 2 rest + field 56 2 rest) (field 0 4 rest))) [
          | inl named ↦ rw (whole, named, usn_records) (omega (arith, shorter, fit))
          | inr skipped ↦ rw (whole, skipped, usn_records) (omega (arith, shorter, fit))
        ]
  ]

  usn_records_enough :
      (f g : ℕ) (rest : Bytes)
      → length rest ≤ f
      → length rest ≤ g
      → usn_records from_utf16_lossy f rest ≡ usn_records from_utf16_lossy g rest
  unfolding usn_records is_record
  usn_records_enough zero zero rest hf hg = refl
  usn_records_enough zero (suc g) rest hf hg =
      let short : is_record rest ≡ false = ground (arith, hf) in rw (short, usn_records) refl
  usn_records_enough (suc f) zero rest hf hg =
      let short : is_record rest ≡ false = ground (arith, hg) in rw (short, usn_records) refl
  usn_records_enough (suc f) (suc g) rest hf hg = elim (Bool-cases (is_record rest)) [
    | inr stop ↦ rw (stop, usn_records) refl
    | inl whole ↦
        let shorter = record_shortens rest whole in
        let same =
          usn_records_enough f g (drop (field 0 4 rest) rest) (omega (arith, shorter, hf))
            (omega (arith, shorter, hg)) in
        elim (Bool-cases (leb (field 58 2 rest + field 56 2 rest) (field 0 4 rest))) [
          | inl named ↦
              rw (whole, named, usn_records) (ap (λ t. usn_record from_utf16_lossy rest ∷ t) same)
          | inr skipped ↦ rw (whole, skipped, usn_records) same
        ]
  ]

  -- Fuel beyond the buffer's length finds no more records, and those found take at least sixty bytes
  -- of the buffer each.
  pub parse_usn_records_lem :
      (fuel : ℕ) (buf : Bytes)
      → length buf ≤ fuel
      → (usn_records from_utf16_lossy fuel buf ≡ parse_usn_records from_utf16_lossy buf)
        × (length (parse_usn_records from_utf16_lossy buf) * 60 ≤ length buf)
  unfolding parse_usn_records
  parse_usn_records_lem fuel buf enough = (
    usn_records_enough fuel (length buf) buf enough (omega arith),
    usn_records_fit (length buf) buf,
  )
