-- ===== src/Agent/Sensors/Notify/Packed.antt =====
-- The layout that ReadDirectoryChangesW documents, and its parser.
use mathlib.Core.List.{append_assoc}
use corpus.Prelude.{
  ℕ, zero, suc, ◌+◌, ◌*◌, ◌/◌, ◌%◌, ◌^◌, ◌≤◌, ◌<◌, ◌≡◌, refl, ap, sym, ◌∙◌, arith, true, false,
  ◌&&◌, ◌||◌, String, List, [], ◌∷◌, ◌++◌, map, length, take, drop, leb, ◌==◌, length-append,
  take-append, drop-append, All,
}
use corpus.Agent.Spool.{Bytes, to_le_bytes, from_le_bytes}
use corpus.Agent.Spool.RoundTrip.{from_le_bytes-to_le_bytes}
use corpus.Agent.Sensors.{field, units}
use corpus.Agent.Sensors.Notify.{
  NotifyRecord, header_len, is_whole, notify_record, notify_records, parse_notify_records,
  parse_notify_records_lem,
}

-- An entry before it is packed: its action, the UTF-16 units of its name, and the bytes after it,
-- with which Windows fills up to a multiple of four.
pub record Entry : Type 0 where
  pub action : ℕ
  pub name : List ℕ
  pub padding : Bytes

-- Where the next entry begins.
abbrev pub size : Entry → ℕ
size e = header_len + 2 * length e.name + length e.padding

pub record IsEntry (e : Entry) : Type 0 where
  pub action : e.action < 2 ^ 32
  pub name : All (λ u. u < 2 ^ 16) e.name
  pub length : size e < 2 ^ 32

unfoldable pub unit_bytes : List ℕ → Bytes
unit_bytes [] = []
unit_bytes (u ∷ us) = to_le_bytes 2 u ++ unit_bytes us

unfoldable pub pack : ℕ → Entry → Bytes
unfolding unit_bytes
pack next e =
    to_le_bytes 4 next
    ++ to_le_bytes 4 e.action
    ++ to_le_bytes 4 (2 * length e.name)
    ++ (unit_bytes e.name ++ e.padding)

-- The last entry has no next one.
unfoldable pub pack_all : List Entry → Bytes
unfolding pack
pack_all [] = []
pack_all (e ∷ []) = pack 0 e ++ []
pack_all (e ∷ f ∷ more) = pack (size e) e ++ pack_all (f ∷ more)

length-unit_bytes : (us : List ℕ) → length (unit_bytes us) ≡ 2 * length us
unfolding unit_bytes to_le_bytes
length-unit_bytes [] = omega arith
length-unit_bytes (u ∷ us) = omega (arith, length-unit_bytes us)

units-unit_bytes : (us : List ℕ) → All (λ u. u < 2 ^ 16) us → units (unit_bytes us) ≡ us
unfolding units unit_bytes to_le_bytes from_le_bytes
units-unit_bytes [] h = refl
units-unit_bytes (u ∷ us) h =
    let unit : u % 256 + 256 * (u / 256 % 256 + 256 * 0) ≡ u = omega (arith, h.0) in
    let rest = units-unit_bytes us h.1 in rw (unit, rest) refl

module _ (next : ℕ) (e : Entry) (tail : Bytes) (small : next < 2 ^ 32) (valid : IsEntry e) where
  packed : Bytes
  unfolding pack
  packed = pack next e ++ tail

  next_field : field 0 4 packed ≡ next
  unfolding packed field pack to_le_bytes
  next_field = from_le_bytes-to_le_bytes next small

  action_field : field 4 4 packed ≡ e.action
  unfolding packed field pack to_le_bytes
  action_field = from_le_bytes-to_le_bytes e.action valid.action

  name_field : field 8 4 packed ≡ 2 * length e.name
  unfolding packed field pack to_le_bytes
  name_field = from_le_bytes-to_le_bytes (2 * length e.name) (omega (arith, valid.length))

  length_packed : length packed ≡ size e + length tail
  unfolding packed pack to_le_bytes
  length_packed = omega (
    arith,
    length-append (unit_bytes e.name ++ e.padding) tail,
    length-append (unit_bytes e.name) e.padding,
    length-unit_bytes e.name,
  )

  name_bytes : take (2 * length e.name) (drop header_len packed) ≡ unit_bytes e.name
  unfolding packed pack to_le_bytes
  name_bytes =
      rw (← (length-unit_bytes e.name), append_assoc (unit_bytes e.name) e.padding tail)
        (take-append (unit_bytes e.name) (e.padding ++ tail))

  after : drop (size e) packed ≡ tail
  unfolding packed pack to_le_bytes
  after =
      let split : size e
          ≡ suc (
              suc (
                suc (
                  suc (
                    suc (
                      suc (
                        suc (
                          suc (
                            suc
                              (suc (suc (suc (length (unit_bytes e.name ++ e.padding))))))))))))) =
        omega (arith, length-unit_bytes e.name, length-append (unit_bytes e.name) e.padding) in
      rw split (drop-append (unit_bytes e.name ++ e.padding) tail)

  packed_whole :
      (next == 0) || (next == size e) ≡ true
      → (leb header_len (length packed) && is_whole packed) ≡ true
  unfolding is_whole
  packed_whole right =
      let even : 2 * length e.name % 2 ≡ 0 = omega arith in
      ground (arith, right, next_field, name_field, length_packed, even)

  module _ (from_utf16_lossy : List ℕ → String) where
    packed_record :
        notify_record from_utf16_lossy packed
        ≡ record { action = e.action; file_name = from_utf16_lossy e.name }
    unfolding notify_record
    packed_record =
        let name : units (take (field 8 4 packed) (drop header_len packed)) ≡ e.name =
          rw (name_field, name_bytes) (units-unit_bytes e.name valid.name) in
        rw (action_field, name) refl

module _ (from_utf16_lossy : List ℕ → String) where
  abbrev pub decoded : Entry → NotifyRecord
  decoded e = record { action = e.action; file_name = from_utf16_lossy e.name }

  read_last :
      (fuel : ℕ) (e : Entry)
      → IsEntry e
      → notify_records from_utf16_lossy (suc fuel) (pack 0 e ++ []) ≡ decoded e ∷ []
  unfolding notify_records packed
  read_last fuel e valid =
      let small : 0 < 2 ^ 32 = omega arith in
      rw
        (
          packed_whole 0 e [] small valid refl,
          next_field 0 e [] small valid,
          packed_record 0 e [] small valid from_utf16_lossy,
        )
        refl

  read_next :
      (fuel : ℕ) (e : Entry) (tail : Bytes)
      → IsEntry e
      → notify_records from_utf16_lossy (suc fuel) (pack (size e) e ++ tail)
        ≡ decoded e ∷ notify_records from_utf16_lossy fuel tail
  unfolding notify_records packed
  read_next fuel e tail valid =
      let next = size e in
      let more : (next == 0) ≡ false = ground arith in
      rw
        (
          packed_whole next e tail valid.length valid (ground arith),
          next_field next e tail valid.length valid,
          more,
          packed_record next e tail valid.length valid from_utf16_lossy,
          after next e tail valid.length valid,
        )
        refl

  read_all :
      (fuel : ℕ) (es : List Entry)
      → length es ≤ fuel
      → All IsEntry es
      → notify_records from_utf16_lossy fuel (pack_all es) ≡ map decoded es
  unfolding pack_all notify_records
  read_all zero [] h valid = refl
  read_all (suc fuel) [] h valid = refl
  read_all zero (e ∷ es) h valid = absurd (omega (arith, h))
  read_all (suc fuel) (e ∷ []) h valid = read_last fuel e valid.0
  read_all (suc fuel) (e ∷ f ∷ more) h valid =
      read_next fuel e (pack_all (f ∷ more)) valid.0
      ∙ ap (λ t. decoded e ∷ t) (read_all fuel (f ∷ more) (omega (arith, h)) valid.1)

  -- Entries whose fields fit, packed one after the other, each with any padding after it, are read
  -- back, in their order, with their actions and their names.
  pub parse_notify_records-pack_all :
      (es : List Entry)
      → All IsEntry es
      → parse_notify_records from_utf16_lossy (pack_all es) ≡ map decoded es
  parse_notify_records-pack_all es valid =
      let fuel = length (pack_all es) + length es in
      sym (parse_notify_records_lem from_utf16_lossy fuel (pack_all es) (omega arith)).0
      ∙ read_all fuel es (omega arith) valid
