-- ===== src/Server/Fuzzy/Hash.antt =====
-- crates/corpus-core/src/similarity/fuzzy.rs: the computation of a digest.
-- A digest is its block size and its two halves, which `format!` puts into one text. A product of
-- u32 that overflows, which panics where the checks are on, is none.
pub mod Bounds
use Prim.Native.Nat.{bit_and, bit_xor}
use corpus.Prelude.{
  ℕ, zero, suc, ◌+◌, ◌-◌, ◌*◌, ◌/◌, ◌%◌, ◌^◌, Bool, true, false, ◌&&◌, Option, none, some, List, [],
  ◌∷◌, ◌++◌, length, get_elem?, ltb, ◌==◌, if◌then◌else◌,
}
use corpus.Agent.Spool.{Bytes}
use corpus.Server.Fuzzy.{blocksize_min, spamsum_length, roll_window, Digest, twice}

abbrev pub hash_init : ℕ
hash_init = 0x27

-- The characters of `B64`.
abbrev pub b64 : Bytes
b64 =
    65 ∷ 66 ∷ 67 ∷ 68 ∷ 69 ∷ 70 ∷ 71 ∷ 72 ∷ 73 ∷ 74 ∷ 75 ∷ 76 ∷ 77 ∷ 78 ∷ 79 ∷ 80 ∷ 81 ∷ 82 ∷ 83
    ∷ 84 ∷ 85 ∷ 86 ∷ 87 ∷ 88 ∷ 89 ∷ 90 ∷ 97 ∷ 98 ∷ 99 ∷ 100 ∷ 101 ∷ 102 ∷ 103 ∷ 104 ∷ 105 ∷ 106
    ∷ 107 ∷ 108 ∷ 109 ∷ 110 ∷ 111 ∷ 112 ∷ 113 ∷ 114 ∷ 115 ∷ 116 ∷ 117 ∷ 118 ∷ 119 ∷ 120 ∷ 121 ∷ 122
    ∷ 48 ∷ 49 ∷ 50 ∷ 51 ∷ 52 ∷ 53 ∷ 54 ∷ 55 ∷ 56 ∷ 57 ∷ 43 ∷ 47 ∷ []

abbrev f_table : List ℕ
f_table =
    0x00 ∷ 0x13 ∷ 0x26 ∷ 0x39 ∷ 0x0c ∷ 0x1f ∷ 0x32 ∷ 0x05 ∷ 0x18 ∷ 0x2b ∷ 0x3e ∷ 0x11 ∷ 0x24 ∷ 0x37
    ∷ 0x0a ∷ 0x1d ∷ 0x30 ∷ 0x03 ∷ 0x16 ∷ 0x29 ∷ 0x3c ∷ 0x0f ∷ 0x22 ∷ 0x35 ∷ 0x08 ∷ 0x1b ∷ 0x2e
    ∷ 0x01 ∷ 0x14 ∷ 0x27 ∷ 0x3a ∷ 0x0d ∷ 0x20 ∷ 0x33 ∷ 0x06 ∷ 0x19 ∷ 0x2c ∷ 0x3f ∷ 0x12 ∷ 0x25
    ∷ 0x38 ∷ 0x0b ∷ 0x1e ∷ 0x31 ∷ 0x04 ∷ 0x17 ∷ 0x2a ∷ 0x3d ∷ 0x10 ∷ 0x23 ∷ 0x36 ∷ 0x09 ∷ 0x1c
    ∷ 0x2f ∷ 0x02 ∷ 0x15 ∷ 0x28 ∷ 0x3b ∷ 0x0e ∷ 0x21 ∷ 0x34 ∷ 0x07 ∷ 0x1a ∷ 0x2d ∷ []

-- An index into a table, which no index of the code leaves.
abbrev pub entry : List ℕ → ℕ → ℕ
entry table i = elim (get_elem? table i) [ none ↦ 0 | some x ↦ x ]

-- `x & 0x3f`
abbrev pub low6 : ℕ → ℕ
low6 x = bit_and x 0x3f

unfoldable pub byte_hash : ℕ → ℕ → ℕ
byte_hash h b = bit_xor (entry f_table (low6 h)) (low6 b)

abbrev wrapping_add : ℕ → ℕ → ℕ
wrapping_add a b = (a + b) % 2 ^ 32

abbrev wrapping_sub : ℕ → ℕ → ℕ
wrapping_sub a b = (a + (2 ^ 32 - b)) % 2 ^ 32

pub record Roll : Type 0 where
  pub window : List ℕ
  pub h1 : ℕ
  pub h2 : ℕ
  pub h3 : ℕ
  pub n : ℕ

abbrev pub new_roll : Roll
new_roll = record { window = 0 ∷ 0 ∷ 0 ∷ 0 ∷ 0 ∷ 0 ∷ 0 ∷ []; h1 = 0; h2 = 0; h3 = 0; n = 0 }

unfoldable pub set_at : ℕ → ℕ → List ℕ → List ℕ
set_at i x [] = []
set_at zero x (y ∷ ys) = x ∷ ys
set_at (suc i) x (y ∷ ys) = y ∷ set_at i x ys

-- `Roll::update`, without its answer; `h3 << 5` drops the bits that leave the word.
unfoldable pub roll_update : ℕ → Roll → Roll
unfolding set_at
roll_update b r = record {
  h2 = wrapping_add (wrapping_sub r.h2 r.h1) (roll_window * b);
  h1 = wrapping_sub (wrapping_add r.h1 b) (entry r.window r.n);
  window = set_at r.n b r.window;
  n = (r.n + 1) % roll_window;
  h3 = bit_xor (r.h3 * 32 % 2 ^ 32) b;
}

abbrev pub roll_sum : Roll → ℕ
roll_sum r = wrapping_add (wrapping_add r.h1 r.h2) r.h3

-- The variables of `hash_with_block`.
pub record Hashing : Type 0 where
  pub roll : Roll
  pub bh1 : ℕ
  pub bh2 : ℕ
  pub hs1 : Bytes
  pub hs2 : Bytes
  pub rh : ℕ

abbrev pub new_hashing : Hashing
new_hashing = record {
  roll = new_roll;
  bh1 = hash_init;
  bh2 = hash_init;
  hs1 = [];
  hs2 = [];
  rh = 0;
}

abbrev pub trigger : ℕ → ℕ → Bool
trigger rh size = rh % size == size - 1

-- A block ends: its character is pushed, while there is room for one more and the tail.
unfoldable pub end_block1 : Hashing → Hashing
end_block1 h =
    if ltb (length h.hs1) (spamsum_length - 1)
    then record h { hs1 = h.hs1 ++ (entry b64 (low6 h.bh1) ∷ []); bh1 = hash_init }
    else h

unfoldable pub end_block2 : Hashing → Hashing
end_block2 h =
    if ltb (length h.hs2) (spamsum_length / 2 - 1)
    then record h { hs2 = h.hs2 ++ (entry b64 (low6 h.bh2) ∷ []); bh2 = hash_init }
    else h

unfoldable pub take_byte : ℕ → Hashing → Hashing
unfolding byte_hash roll_update
take_byte b h =
    let roll = roll_update b h.roll in
    record h { roll = roll; bh1 = byte_hash h.bh1 b; bh2 = byte_hash h.bh2 b; rh = roll_sum roll }

unfoldable pub end_blocks : ℕ → Hashing → Option Hashing
unfolding end_block1 end_block2 twice
end_blocks block_size h =
    if trigger h.rh block_size
    then elim (twice block_size) [
      | none ↦ none
      | some double ↦
          let h' = end_block1 h in some (if trigger h.rh double then end_block2 h' else h')
    ]
    else some h

-- `for &b in data`. The values of `last1` and `last2` are used only where `rh` is 0, and then not
-- by the caller.
unfoldable pub hash_from : ℕ → Hashing → Bytes → Option Hashing
unfolding take_byte end_blocks
hash_from block_size h [] = some h
hash_from block_size h (b ∷ bytes) = elim (end_blocks block_size (take_byte b h)) [
  | none ↦ none
  | some h' ↦ hash_from block_size h' bytes
]

unfoldable pub hash_with_block : Bytes → ℕ → Option Hashing
unfolding hash_from
hash_with_block bytes block_size = hash_from block_size new_hashing bytes

-- `while block_size * SPAMSUM_LENGTH < data.len()`; the product is one of usize.
unfoldable pub grow_block : ℕ → ℕ → ℕ → Option ℕ
unfolding twice
grow_block zero len block_size = none
grow_block (suc fuel) len block_size = elim (ltb (block_size * spamsum_length) len) [
  | false ↦ some block_size
  | true ↦ elim (twice block_size) [ none ↦ none | some double ↦ grow_block fuel len double ]
]

-- The characters of the last blocks, where the rolling hash is not 0.
unfoldable pub with_tails : ℕ → Hashing → Digest
with_tails block_size h =
    if h.rh == 0
    then record { block_size = block_size; first = h.hs1; second = h.hs2 }
    else record {
      block_size = block_size;
      first = h.hs1 ++ (entry b64 (low6 h.bh1) ∷ []);
      second = h.hs2 ++ (entry b64 (low6 h.bh2) ∷ []);
    }

abbrev pub is_too_short : ℕ → Hashing → Bool
is_too_short block_size h = ltb blocksize_min block_size && ltb (length h.hs1) (spamsum_length / 2)

-- `loop`: with half the block size where the first half came out too short.
unfoldable pub shrink_block : ℕ → Bytes → ℕ → Option Digest
unfolding hash_with_block with_tails
shrink_block zero bytes block_size = none
shrink_block (suc fuel) bytes block_size = elim (hash_with_block bytes block_size) [
  | none ↦ none
  | some h ↦ elim (is_too_short block_size h) [
    | true ↦ shrink_block fuel bytes (block_size / 2)
    | false ↦ some (with_tails block_size h)
  ]
]

-- Each round of the first loop adds to the block size, and each of the second takes from it.
unfoldable pub fuzzy_hash : Bytes → Option Digest
unfolding grow_block shrink_block
fuzzy_hash bytes = elim (grow_block (suc (length bytes)) (length bytes) blocksize_min) [
  | none ↦ none
  | some block_size ↦ shrink_block (suc block_size) bytes block_size
]
