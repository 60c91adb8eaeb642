-- ===== src/Server/Fuzzy/Hash/Bounds.antt =====
-- fuzzy.rs: the sizes of the digest that is computed, and the end of its two loops.
use corpus.Prelude.{
  ℕ, zero, suc, ◌+◌, ◌-◌, ◌*◌, ◌/◌, ◌^◌, ◌≤◌, ◌<◌, ◌≡◌, refl, arith, Bool, true, false, Bool-cases,
  inl, inr, Option, some, [], ◌∷◌, ◌++◌, length, length-append, ltb, ◌==◌, if◌then◌else◌, any,
}
use corpus.Agent.Spool.{Bytes}
use corpus.Server.Fuzzy.{spamsum_length, Digest, twice}
use corpus.Server.Fuzzy.Hash.{
  Hashing, new_hashing, trigger, entry, b64, low6, end_block1, end_block2, take_byte, end_blocks,
  hash_from, hash_with_block, grow_block, with_tails, is_too_short, shrink_block, fuzzy_hash,
}

-- Whether the text has a colon.
abbrev pub has_colon : Bytes → Bool
has_colon xs = any (λ c. c == 58) xs

entry-clean : (table : Bytes) (i : ℕ) → has_colon table ≡ false → (entry table i == 58) ≡ false
entry-clean [] i h = refl
entry-clean (c ∷ table) zero h = ground (arith, h)
entry-clean (c ∷ table) (suc i) h = entry-clean table i (ground (arith, h))

push-clean :
    (xs : Bytes) (c : ℕ)
    → has_colon xs ≡ false
    → (c == 58) ≡ false
    → has_colon (xs ++ (c ∷ [])) ≡ false
push-clean [] c h k = rw k refl
push-clean (x ∷ xs) c h k =
    let head : (x == 58) ≡ false = ground (arith, h) in
    let tail : has_colon xs ≡ false = ground (arith, h) in rw (head, push-clean xs c tail k) refl

-- There is room for the tails.
record HasRoom (h : Hashing) : Type 0 where
  first : length h.hs1 ≤ 63
  second : length h.hs2 ≤ 31
  clean : has_colon h.hs1 ≡ false

length_push : (xs : Bytes) (c : ℕ) → length (xs ++ (c ∷ [])) ≡ length xs + 1
length_push xs c = omega (arith, length-append xs (c ∷ []))

end_block1-HasRoom : (h : Hashing) → HasRoom h → HasRoom (end_block1 h)
unfolding end_block1
end_block1-HasRoom h r = elim (Bool-cases (ltb (length h.hs1) (spamsum_length - 1))) [
  | inr full ↦ rw full r
  | inl room ↦
      let below : length h.hs1 < 63 = ground (arith, room) in
      rw room (record {
        first = omega (arith, below, length_push h.hs1 (entry b64 (low6 h.bh1)));
        second = r.second;
        clean =
            push-clean h.hs1 (entry b64 (low6 h.bh1)) r.clean (entry-clean b64 (low6 h.bh1) refl);
      })
]

end_block2-HasRoom : (h : Hashing) → HasRoom h → HasRoom (end_block2 h)
unfolding end_block2
end_block2-HasRoom h r = elim (Bool-cases (ltb (length h.hs2) (spamsum_length / 2 - 1))) [
  | inr full ↦ rw full r
  | inl room ↦
      let below : length h.hs2 < 31 = ground (arith, room) in
      rw room (record {
        first = r.first;
        second = omega (arith, below, length_push h.hs2 (entry b64 (low6 h.bh2)));
        clean = r.clean;
      })
]

twice_fits : (b : ℕ) → b < 2 ^ 31 → twice b ≡ some (b * 2)
unfolding twice
twice_fits b small = ground arith

-- The hash of a part of the bytes goes on, with room left.
record Goes (o : Option Hashing) : Type 0 where
  value : Hashing
  is : o ≡ some value
  room : HasRoom value

end_blocks-Goes : (b : ℕ) (h : Hashing) → b < 2 ^ 31 → HasRoom h → Goes (end_blocks b h)
unfolding end_blocks
end_blocks-Goes b h small r = elim (Bool-cases (trigger h.rh b)) [
  | inr other ↦ rw other (record { value = h; is = refl; room = r })
  | inl ends ↦ rw (ends, twice_fits b small) (second (trigger h.rh (b * 2)))
]
  where
    second : (ends : Bool) → Goes (some (if ends then end_block2 (end_block1 h) else end_block1 h))
    second true = record {
      value = _;
      is = refl;
      room = end_block2-HasRoom _ (end_block1-HasRoom h r);
    }
    second false = record { value = _; is = refl; room = end_block1-HasRoom h r }

take_byte-HasRoom : (c : ℕ) (h : Hashing) → HasRoom h → HasRoom (take_byte c h)
unfolding take_byte
take_byte-HasRoom c h r = record { first = r.first; second = r.second; clean = r.clean }

hash_from-Goes :
    (b : ℕ) (h : Hashing) (bytes : Bytes) → b < 2 ^ 31 → HasRoom h → Goes (hash_from b h bytes)
unfolding hash_from
hash_from-Goes b h [] small r = record { value = h; is = refl; room = r }
hash_from-Goes b h (c ∷ bytes) small r =
    let next = end_blocks-Goes b (take_byte c h) small (take_byte-HasRoom c h r) in
    rw (next.is, hash_from) (hash_from-Goes b next.value bytes small next.room)

-- The sizes of a digest that is computed.
pub record IsComputed (o : Option Digest) (bound : ℕ) : Type 0 where
  pub digest : Digest
  pub is : o ≡ some digest
  pub first : length digest.first ≤ 64
  pub second : length digest.second ≤ 32
  pub clean : has_colon digest.first ≡ false
  pub block_size : digest.block_size < bound

with_tails-IsComputed :
    (b bound : ℕ) (h : Hashing) → b < bound → HasRoom h → IsComputed (some (with_tails b h)) bound
unfolding with_tails
with_tails-IsComputed b bound h small r = elim (Bool-cases (h.rh == 0)) [
  | inl none_yet ↦ rw none_yet (record {
    digest = _;
    is = refl;
    first = omega (arith, r.first);
    second = omega (arith, r.second);
    clean = r.clean;
    block_size = small;
  })
  | inr tails ↦ rw tails (record {
    digest = _;
    is = refl;
    first = omega (arith, r.first, length_push h.hs1 (entry b64 (low6 h.bh1)));
    second = omega (arith, r.second, length_push h.hs2 (entry b64 (low6 h.bh2)));
    clean = push-clean h.hs1 (entry b64 (low6 h.bh1)) r.clean (entry-clean b64 (low6 h.bh1) refl);
    block_size = small;
  })
]

shrink_block-IsComputed :
    (fuel bound : ℕ) (bytes : Bytes) (b : ℕ)
    → b < fuel
    → b < bound
    → bound ≤ 2 ^ 31
    → IsComputed (shrink_block fuel bytes b) bound
unfolding shrink_block hash_with_block
shrink_block-IsComputed zero bound bytes b enough small fits = absurd (omega (arith, enough))
shrink_block-IsComputed (suc fuel) bound bytes b enough small fits =
    let hashed =
      hash_from-Goes b new_hashing bytes (omega (arith, small, fits))
        (record { first = omega arith; second = omega arith; clean = refl }) in
    rw (hashed.is, shrink_block)
      (elim (Bool-cases (is_too_short b hashed.value)) [
        | inr long ↦
            rw (long, shrink_block) (with_tails-IsComputed b bound hashed.value small hashed.room)
        | inl short ↦
            let above : 3 < b = ground (arith, short) in
            rw (short, shrink_block)
              (shrink_block-IsComputed fuel bound bytes (b / 2) (omega (arith, enough, above))
                (omega (arith, small)) fits)
      ])

-- The first block size is found.
record Grown (o : Option ℕ) : Type 0 where
  value : ℕ
  is : o ≡ some value
  small : value < 2 ^ 25

grow_block-Grown :
    (fuel len b : ℕ)
    → len < 2 ^ 30
    → b < 2 ^ 25
    → 1 ≤ b
    → len ≤ b * 64 + fuel
    → Grown (grow_block (suc fuel) len b)
unfolding grow_block
grow_block-Grown zero len b short small pos enough =
    elim (Bool-cases (ltb (b * spamsum_length) len)) [
      | inr done ↦ rw (done, grow_block) (record { value = b; is = refl; small = small })
      | inl more ↦
          let below : b * 64 < len = ground (arith, more) in absurd (omega (arith, below, enough))
    ]
grow_block-Grown (suc fuel) len b short small pos enough =
    elim (Bool-cases (ltb (b * spamsum_length) len)) [
      | inr done ↦ rw (done, grow_block) (record { value = b; is = refl; small = small })
      | inl more ↦
          let below : b * 64 < len = ground (arith, more) in
          rw (more, twice_fits b (omega (arith, small)), grow_block)
            (grow_block-Grown fuel len (b * 2) short (omega (arith, below, short))
              (omega (arith, pos)) (omega (arith, enough, pos)))
    ]

-- The digest of fewer than 2 ^ 30 bytes is computed: both loops come to an end, no product
-- overflows, the halves have at most 64 and 32 characters, and the block size is below 2 ^ 25.
pub fuzzy_hash-IsComputed :
    (bytes : Bytes) → length bytes < 2 ^ 30 → IsComputed (fuzzy_hash bytes) (2 ^ 25)
unfolding fuzzy_hash
fuzzy_hash-IsComputed bytes short =
    let grown =
      grow_block-Grown (length bytes) (length bytes) 3 short (omega arith) (omega arith)
        (omega arith) in
    rw (grown.is, fuzzy_hash)
      (shrink_block-IsComputed (suc grown.value) (2 ^ 25) bytes grown.value (omega arith)
        grown.small (omega arith))
