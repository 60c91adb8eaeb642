-- ===== src/Server/Hash.antt =====
-- crates/corpus-core/src/hash.rs. A text of the protocol is the list of its UTF-8 bytes.
-- SHA-256 (crate sha2) and the hex codec (crate hex) are not code of the repository.
use corpus.Prelude.{
  ℕ, ◌+◌, ◌≡◌, refl, sym, arith, Bool-cases, inl, inr, Bool, true, false, ◌&&◌, Option, some, [],
  ◌∷◌, leb, ◌==◌, if◌then◌else◌,
}
use corpus.Prelude.Results.{Result, ok, err, ok_inj}
use corpus.Agent.Spool.{Bytes}

abbrev pub Text : Type 0
Text = Bytes

-- `u8::to_ascii_lowercase`
unfoldable pub to_ascii_lowercase : ℕ → ℕ
to_ascii_lowercase b = if leb 65 b && leb b 90 then b + 32 else b

-- `str::eq_ignore_ascii_case`
unfoldable pub eq_ignore_ascii_case : Text → Text → Bool
eq_ignore_ascii_case [] [] = true
eq_ignore_ascii_case [] (t ∷ ts) = false
eq_ignore_ascii_case (s ∷ ss) [] = false
eq_ignore_ascii_case (s ∷ ss) (t ∷ ts) =
    (to_ascii_lowercase s == to_ascii_lowercase t) && eq_ignore_ascii_case ss ts

-- `hex::decode` reads what `hex::encode` writes, in either case.
pub record Digests : Type 0 where
  pub sha256_raw : Bytes → Bytes
  pub encode : Bytes → Text
  pub decode : Text → Option Bytes
  pub decode-encode :
      (raw : Bytes) (text : Text)
      → eq_ignore_ascii_case (encode raw) text ≡ true
      → decode text ≡ some raw

-- The two digests of an `Error::HashMismatch`.
pub record HashMismatch : Type 0 where
  pub announced : Text
  pub recomputed : Text

module _ (d : Digests) where
  unfoldable pub sha256_hex : Bytes → Text
  sha256_hex bytes = d.encode (d.sha256_raw bytes)

  unfoldable pub hex_to_raw : Text → Option Bytes
  hex_to_raw s = d.decode s

  unfoldable pub verify_upload : Bytes → Text → Result HashMismatch Bytes
  unfolding sha256_hex
  verify_upload bytes announced =
      if eq_ignore_ascii_case (sha256_hex bytes) announced
      then ok (d.sha256_raw bytes)
      else err (record { announced = announced; recomputed = sha256_hex bytes })

pub eq_ignore_ascii_case_refl : (s : Text) → eq_ignore_ascii_case s s ≡ true
unfolding eq_ignore_ascii_case
eq_ignore_ascii_case_refl [] = refl
eq_ignore_ascii_case_refl (b ∷ s) = ground (arith, eq_ignore_ascii_case_refl s)

-- So two digests with one name are one digest.
pub encode_inj : (d : Digests) (a b : Bytes) → d.encode a ≡ d.encode b → a ≡ b
encode_inj d a b same =
    let one = d.decode-encode a (d.encode a) (eq_ignore_ascii_case_refl (d.encode a)) in
    let two = d.decode-encode b (d.encode b) (eq_ignore_ascii_case_refl (d.encode b)) in cc

-- The digest that is accepted is the digest of the bytes, and what was announced names it.
pub verify_upload_ok :
    (d : Digests) (bytes : Bytes) (announced : Text) (raw : Bytes)
    → verify_upload d bytes announced ≡ ok raw
    → (raw ≡ d.sha256_raw bytes) × (eq_ignore_ascii_case (sha256_hex d bytes) announced ≡ true)
unfolding verify_upload
verify_upload_ok d bytes announced raw h =
    elim (Bool-cases (eq_ignore_ascii_case (sha256_hex d bytes) announced)) [
      | inl same ↦ (sym (ok_inj (rw (same, verify_upload) at h)), same)
      | inr other ↦ absurd (ground (arith, rw (other, verify_upload) at h))
    ]
