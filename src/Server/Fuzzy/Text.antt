-- ===== src/Server/Fuzzy/Text.antt =====
-- similarity/fuzzy.rs: a digest as one text, as `fuzzy_hash` prints it and `compare` parses it.
-- The decimal texts of u32 are the standard library's.
pub mod RoundTrip
use corpus.Prelude.{
  ℕ, ◌^◌, ◌<◌, ◌≡◌, Bool, true, false, Option, none, some, List, [], ◌∷◌, ◌++◌, ◌==◌, if◌then◌else◌,
}
use corpus.Agent.Spool.{Bytes}
use corpus.Server.Fuzzy.{Digest, compare}
use corpus.Server.Fuzzy.Hash.{fuzzy_hash}
use corpus.Server.Fuzzy.Hash.Bounds.{has_colon}

-- `to_string` and `str::parse` of u32.
pub record Numbers : Type 0 where
  pub to_text : ℕ → Bytes
  pub parse : Bytes → Option ℕ
  pub parse-to_text : (n : ℕ) → n < 2 ^ 32 → parse (to_text n) ≡ some n
  pub no_colon : (n : ℕ) → has_colon (to_text n) ≡ false

-- The next part of `splitn(3, ':')`, and what is left, where a colon is left.
unfoldable pub split_colon : Bytes → Option (Bytes × Bytes)
split_colon [] = none
split_colon (c ∷ cs) =
    let rest = split_colon cs in
    if c == 58 then some ([], cs) else elim rest [ none ↦ none | some p ↦ some (c ∷ p.0, p.1) ]

module _ (n : Numbers) where
  -- `format!("{block_size}:{hs1}:{hs2}")`
  unfoldable pub digest_text : Digest → Bytes
  digest_text d = n.to_text d.block_size ++ (58 ∷ (d.first ++ (58 ∷ d.second)))

  unfoldable pub parse_digest : Bytes → Option Digest
  unfolding split_colon
  parse_digest text = elim (split_colon text) [
    | none ↦ none
    | some p ↦ elim (n.parse p.0) [
      | none ↦ none
      | some block_size ↦ elim (split_colon p.1) [
        | none ↦ none
        | some q ↦ some (record { block_size = block_size; first = q.0; second = q.1 })
      ]
    ]
  ]

  -- The text that `fuzzy_hash` returns.
  unfoldable pub fuzzy_text : Bytes → Option Bytes
  unfolding fuzzy_hash digest_text
  fuzzy_text bytes = elim (fuzzy_hash bytes) [ none ↦ none | some d ↦ some (digest_text d) ]

  unfoldable pub compare_texts : Bytes → Bytes → Option ℕ
  unfolding parse_digest compare
  compare_texts hash1 hash2 = compare (parse_digest hash1) (parse_digest hash2)
