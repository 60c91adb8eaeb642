-- ===== src/Server/Lsh.antt =====
-- crates/corpus-core/src/similarity/lsh.rs: the bands of fuzzy digests, and the artifacts that share one.
-- A text is the list of its bytes; `str::from_utf8` is a parameter.
pub mod Candidates
pub mod Finds
use corpus.Prelude.{
  ℕ, zero, suc, ◌+◌, Bool, true, false, ◌&&◌, ◌||◌, not, List, [], ◌∷◌, ◌++◌, length, take, any,
  keep_if, map, leb, ltb, ◌==◌, if◌then◌else◌,
}
use corpus.Server.Hash.{Text}
use corpus.Server.Cas.{text_eq}

abbrev pub band_width : ℕ
band_width = 3

abbrev pub candidate_cap : ℕ
candidate_cap = 512

-- A row of `similarity_lsh_band`.
pub record Band : Type 0 where
  pub tenant_id : ℕ
  pub artifact_id : ℕ
  pub band_idx : ℕ
  pub band_key : Text

-- The text before the first colon, and that after it.
unfoldable pub before_colon : Text → Text
before_colon [] = []
before_colon (c ∷ cs) = let rest = before_colon cs in if c == 58 then [] else c ∷ rest

unfoldable pub after_colon : Text → Text
after_colon [] = []
after_colon (c ∷ cs) = let rest = after_colon cs in if c == 58 then cs else rest

module _ (is_utf8 : Text → Bool) where
  abbrev pub key_of_window : Text → Text → Text
  key_of_window bs window = bs ++ (58 ∷ (if is_utf8 window then window else []))

  -- `windows(BAND_WIDTH)`, numbered from `idx` on.
  unfoldable pub window_keys : Text → ℕ → Text → List (ℕ × Text)
  window_keys bs idx (a ∷ b ∷ c ∷ rest) =
      (idx, key_of_window bs (a ∷ b ∷ c ∷ [])) ∷ window_keys bs (suc idx) (b ∷ c ∷ rest)
  window_keys bs idx short = []

  -- A half that is shorter than a band is one band, unless it is empty.
  unfoldable pub half_keys : Text → ℕ → Text → List (ℕ × Text)
  unfolding window_keys
  half_keys bs idx [] = []
  half_keys bs idx (c ∷ cs) =
      if ltb (length (c ∷ cs)) band_width
      then (idx, bs ++ (58 ∷ (c ∷ cs))) ∷ []
      else window_keys bs idx (c ∷ cs)

  -- `splitn(3, ':')`
  unfoldable pub band_keys : Text → List (ℕ × Text)
  unfolding half_keys before_colon after_colon
  band_keys ssdeep =
      let bs = before_colon ssdeep in
      let h1 = before_colon (after_colon ssdeep) in
      let h2 = after_colon (after_colon ssdeep) in
      let first = half_keys bs 0 h1 in first ++ half_keys bs (length first) h2

  abbrev pub band : ℕ → ℕ → ℕ × Text → Band
  band tenant artifact (idx, key) = record {
    tenant_id = tenant;
    artifact_id = artifact;
    band_idx = idx;
    band_key = key;
  }

  -- INSERT … ON CONFLICT (tenant_id, artifact_id, band_idx) DO UPDATE SET band_key = …
  unfoldable pub put_band : Band → List Band → List Band
  put_band b [] = b ∷ []
  put_band b (c ∷ table) =
      let rest = put_band b table in
      if (c.tenant_id == b.tenant_id)
        && (c.artifact_id == b.artifact_id)
        && (c.band_idx == b.band_idx)
      then b ∷ table
      else c ∷ rest

  -- One statement for each band, in no transaction: the first that fails is the last. `answers` says
  -- which go through; all do once it is empty. Also returns whether all have.
  unfoldable pub put_bands : List Bool → List Band → List Band → Bool × List Band
  unfolding put_band
  put_bands answers [] table = (true, table)
  put_bands [] (b ∷ bands) table = put_bands [] bands (put_band b table)
  put_bands (true ∷ answers) (b ∷ bands) table = put_bands answers bands (put_band b table)
  put_bands (false ∷ answers) (b ∷ bands) table = (false, table)

  -- DELETE … WHERE tenant_id = $1 AND artifact_id = $2, then the inserts.
  unfoldable pub store_bands : List Bool → ℕ → ℕ → Text → List Band → Bool × List Band
  unfolding band_keys put_bands
  store_bands (false ∷ answers) tenant artifact ssdeep table = (false, table)
  store_bands [] tenant artifact ssdeep table =
      put_bands [] (map (band tenant artifact) (band_keys ssdeep))
        (keep_if (λ b. not ((b.tenant_id == tenant) && (b.artifact_id == artifact))) table)
  store_bands (true ∷ answers) tenant artifact ssdeep table =
      put_bands answers (map (band tenant artifact) (band_keys ssdeep))
        (keep_if (λ b. not ((b.tenant_id == tenant) && (b.artifact_id == artifact))) table)

-- WHERE tenant_id = $1 AND band_idx = $2 AND band_key = $3 AND artifact_id != $4
unfoldable pub is_hit : ℕ → ℕ → ℕ × Text → Band → Bool
is_hit tenant artifact k b =
    (b.tenant_id == tenant)
    && (b.band_idx == k.0)
    && text_eq b.band_key k.1
    && not (b.artifact_id == artifact)

-- `if seen.insert(id) { out.push(id) }`
unfoldable pub push_new : ℕ → List ℕ → List ℕ
push_new id out = if any (λ x. x == id) out then out else out ++ (id ∷ [])

-- The rows of one band. Whether the cap is reached, and what there then is.
unfoldable pub push_rows : List Band → List ℕ → Bool × List ℕ
unfolding push_new
push_rows [] out = (false, out)
push_rows (b ∷ rows) out =
    let out' = push_new b.artifact_id out in
    elim (leb candidate_cap (length out')) [ true ↦ (true, out') | false ↦ push_rows rows out' ]

unfoldable pub collect : ℕ → ℕ → List Band → List (ℕ × Text) → List ℕ → List ℕ
unfolding push_rows is_hit
collect tenant artifact table [] out = out
collect tenant artifact table (k ∷ keys) out =
    let p = push_rows (take candidate_cap (keep_if (is_hit tenant artifact k) table)) out in
    elim p.0 [ true ↦ p.1 | false ↦ collect tenant artifact table keys p.1 ]

unfoldable pub candidates : (Text → Bool) → ℕ → ℕ → Text → List Band → List ℕ
unfolding collect band_keys
candidates is_utf8 tenant artifact ssdeep table =
    collect tenant artifact table (band_keys is_utf8 ssdeep) []
