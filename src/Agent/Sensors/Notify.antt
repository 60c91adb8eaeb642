-- ===== src/Agent/Sensors/Notify.antt =====
-- sensors/rdcw_parse.rs: a buffer of FILE_NOTIFY_INFORMATION entries.
-- `buf[offset..]` is the argument `rest`, so that `buf.len() - offset` is its length.
pub mod Packed
use corpus.Prelude.{
  ℕ, zero, suc, ◌+◌, ◌-◌, ◌*◌, ◌%◌, ◌^◌, ◌≤◌, ◌<◌, ◌≡◌, refl, ap, sym, ◌∙◌, arith, Bool, true,
  false, not, ◌&&◌, ◌||◌, String, List, [], ◌∷◌, ◌++◌, length, take, drop, ltb, leb, ◌==◌,
  if◌then◌else◌, Bool-cases, inl, inr, length-append, take-append, drop-append, All,
}
use corpus.Agent.Spool.{Bytes, to_le_bytes, from_le_bytes}
use corpus.Agent.Sensors.{field, units}

pub record NotifyRecord : Type 0 where
  pub action : ℕ
  pub file_name : String

abbrev pub header_len : ℕ
header_len = 12

-- The two tests of a record, against the bytes that are left.
unfoldable pub is_whole : Bytes → Bool
is_whole rest =
    (field 8 4 rest % 2 == 0)
    && leb (field 8 4 rest) (length rest - header_len)
    && ((field 0 4 rest == 0)
        || leb (header_len + field 8 4 rest) (field 0 4 rest) && leb (field 0 4 rest) (length rest))

module _ (from_utf16_lossy : List ℕ → String) where
  unfoldable pub notify_record : Bytes → NotifyRecord
  notify_record rest = record {
    action = field 4 4 rest;
    file_name = from_utf16_lossy (units (take (field 8 4 rest) (drop header_len rest)));
  }

  unfoldable pub notify_records : ℕ → Bytes → List NotifyRecord
  unfolding is_whole notify_record
  notify_records zero rest = []
  notify_records (suc fuel) rest =
      let later = notify_records fuel (drop (field 0 4 rest) rest) in
      if leb header_len (length rest) && is_whole rest
      then notify_record rest ∷ (if field 0 4 rest == 0 then [] else later)
      else []

  -- Each turn drops at least a header, so that the length is fuel enough.
  unfoldable pub parse_notify_records : Bytes → List NotifyRecord
  unfolding notify_records
  parse_notify_records buf = notify_records (length buf) buf

pub length-drop : (n : ℕ) (xs : Bytes) → length (drop n xs) ≡ length xs - n
length-drop zero xs = omega arith
length-drop (suc n) [] = omega arith
length-drop (suc n) (x ∷ xs) = omega (arith, length-drop n xs)

-- A chained record takes a header at least.
next_shortens :
    (rest : Bytes)
    → (leb header_len (length rest) && is_whole rest) ≡ true
    → (field 0 4 rest == 0) ≡ false
    → header_len + length (drop (field 0 4 rest) rest) ≤ length rest
unfolding is_whole
next_shortens rest whole more = ground (arith, whole, more, length-drop (field 0 4 rest) rest)

module _ (from_utf16_lossy : List ℕ → String) where
  -- The records found take twelve bytes of the buffer each.
  notify_records_fit :
      (fuel : ℕ) (rest : Bytes)
      → length (notify_records from_utf16_lossy fuel rest) * header_len ≤ length rest
  unfolding notify_records
  notify_records_fit zero rest = omega arith
  notify_records_fit (suc fuel) rest =
      elim (Bool-cases (leb header_len (length rest) && is_whole rest)) [
        | inr stop ↦ rw (stop, notify_records) (omega arith)
        | inl whole ↦ elim (Bool-cases (field 0 4 rest == 0)) [
          | inl last ↦ rw (whole, last, notify_records) (ground (arith, whole))
          | inr more ↦
              rw (whole, more, notify_records)
                (omega (
                  arith,
                  next_shortens rest whole more,
                  notify_records_fit fuel (drop (field 0 4 rest) rest),
                ))
        ]
      ]

  notify_records_enough :
      (f g : ℕ) (rest : Bytes)
      → length rest ≤ f
      → length rest ≤ g
      → notify_records from_utf16_lossy f rest ≡ notify_records from_utf16_lossy g rest
  unfolding notify_records
  notify_records_enough zero zero rest hf hg = refl
  notify_records_enough zero (suc g) rest hf hg =
      let short : (leb header_len (length rest) && is_whole rest) ≡ false = ground (arith, hf) in
      rw (short, notify_records) refl
  notify_records_enough (suc f) zero rest hf hg =
      let short : (leb header_len (length rest) && is_whole rest) ≡ false = ground (arith, hg) in
      rw (short, notify_records) refl
  notify_records_enough (suc f) (suc g) rest hf hg =
      elim (Bool-cases (leb header_len (length rest) && is_whole rest)) [
        | inr stop ↦ rw (stop, notify_records) refl
        | inl whole ↦ elim (Bool-cases (field 0 4 rest == 0)) [
          | inl last ↦ rw (whole, last, notify_records) refl
          | inr more ↦
              let shorter = next_shortens rest whole more in
              rw (whole, more, notify_records)
                (ap (λ t. notify_record from_utf16_lossy rest ∷ t)
                  (notify_records_enough f g (drop (field 0 4 rest) rest)
                    (omega (arith, shorter, hf)) (omega (arith, shorter, hg))))
        ]
      ]

  -- Fuel beyond the buffer's length finds no more records, and those found take at least twelve bytes
  -- of the buffer each.
  pub parse_notify_records_lem :
      (fuel : ℕ) (buf : Bytes)
      → length buf ≤ fuel
      → (notify_records from_utf16_lossy fuel buf ≡ parse_notify_records from_utf16_lossy buf)
        × (length (parse_notify_records from_utf16_lossy buf) * header_len ≤ length buf)
  unfolding parse_notify_records
  parse_notify_records_lem fuel buf enough = (
    notify_records_enough fuel (length buf) buf enough (omega arith),
    notify_records_fit (length buf) buf,
  )
