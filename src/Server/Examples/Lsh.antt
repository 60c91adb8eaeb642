-- ===== src/Server/Examples/Lsh.antt =====
-- similarity/lsh.rs at short digests.
use corpus.Prelude.{◌≤◌, ◌≡◌, refl, arith, true, Bool, ◌⊎◌, inl, List, [], ◌∷◌, length}
use corpus.Server.Hash.{Text}
use corpus.Server.Hunts.Sound.{In}
use corpus.Server.Lsh.{
  Band, band_keys, store_bands, put_bands, put_band, is_hit, candidates, candidate_cap,
}
use corpus.Server.Lsh.Candidates.{SharesBand, IsAnswer, candidates-IsAnswer}
use corpus.Server.Lsh.Finds.{candidates-finds}

abbrev ascii : Text → Bool
ascii t = true

-- `3:abcd:efg`
abbrev digest : Text
digest = 51 ∷ 58 ∷ 97 ∷ 98 ∷ 99 ∷ 100 ∷ 58 ∷ 101 ∷ 102 ∷ 103 ∷ []

-- `3:xabcd:efg`, with one character more in front
abbrev shifted : Text
shifted = 51 ∷ 58 ∷ 120 ∷ 97 ∷ 98 ∷ 99 ∷ 100 ∷ 58 ∷ 101 ∷ 102 ∷ 103 ∷ []

abbrev table : List Band
table = (store_bands ascii [] 1 7 digest []).1

-- The same digest is a candidate, but not the shifted one, of which no window stands at its index.
candidates-same : candidates ascii 1 8 digest table ≡ 7 ∷ []
unfolding candidates store_bands put_bands put_band
candidates-same = refl

candidates-shifted : candidates ascii 1 8 shifted table ≡ []
unfolding candidates store_bands put_bands put_band
candidates-shifted = refl

candidates-IsAnswer_example :
    IsAnswer (SharesBand 1 8 (band_keys ascii digest) table) (candidates ascii 1 8 digest table)
    × (length (candidates ascii 1 8 digest table) ≤ candidate_cap)
candidates-IsAnswer_example = candidates-IsAnswer ascii 1 8 digest table

candidates-finds_example :
    In 7 (candidates ascii 1 8 digest table)
    ⊎ (candidate_cap ≤ length (candidates ascii 1 8 digest table))
unfolding store_bands put_bands put_band is_hit
candidates-finds_example =
    candidates-finds ascii 1 8 digest table
      (record {
        tenant_id = 1;
        artifact_id = 7;
        band_idx = 0;
        band_key = 51 ∷ 58 ∷ 97 ∷ 98 ∷ 99 ∷ [];
      })
      (0, 51 ∷ 58 ∷ 97 ∷ 98 ∷ 99 ∷ []) (inl refl) (inl refl) refl (omega arith)
