-- ===== src/Agent/Spool.antt =====
-- crates/corpus-agent/src/spool_crypto.rs: the encrypted spool file, format v2.
-- The AEAD (crate chacha20poly1305) is not code of the repository: `Cipher` holds the two
-- operations that the code calls and the two documented facts that it relies on.
pub mod RoundTrip
use corpus.Prelude.{
  ℕ, zero, suc, ◌+◌, ◌*◌, ◌/◌, ◌%◌, ◌≡◌, Option, none, some, List, [], ◌∷◌, ◌++◌, length, take,
  drop, ltb, ◌==◌, if◌then◌else◌,
}
use corpus.Prelude.Results.{Result, ok, err}

abbrev pub Bytes : Type 0
Bytes = List ℕ

-- `uN::to_le_bytes`: k bytes, the least first. A value of more than k bytes is cut, as by `as`.
unfoldable pub to_le_bytes : ℕ → ℕ → Bytes
to_le_bytes zero n = []
to_le_bytes (suc k) n = n % 256 ∷ to_le_bytes k (n / 256)

-- `uN::from_le_bytes`
unfoldable pub from_le_bytes : Bytes → ℕ
from_le_bytes [] = 0
from_le_bytes (b ∷ bs) = b + 256 * from_le_bytes bs

-- XChaCha20Poly1305 under the spool key: nonce, then text. The tag has 16 bytes.
pub record Cipher : Type 0 where
  pub encrypt : Bytes → Bytes → Bytes
  pub decrypt : Bytes → Bytes → Option Bytes
  pub decrypt-encrypt : (nonce plain : Bytes) → decrypt nonce (encrypt nonce plain) ≡ some plain
  pub length-encrypt : (nonce plain : Bytes) → length (encrypt nonce plain) ≡ length plain + 16

abbrev pub spool_format_version : ℕ
spool_format_version = 2

-- The prefix of 16 bytes, then the counter in 8.
unfoldable pub chunk_nonce : Bytes → ℕ → Bytes
chunk_nonce stream index = stream ++ to_le_bytes 8 index

unfoldable pub encrypt_chunk : Cipher → Bytes → ℕ → Bytes → Bytes
encrypt_chunk c stream index chunk = c.encrypt (chunk_nonce stream index) chunk

unfoldable pub decrypt_chunk : Cipher → Bytes → ℕ → Bytes → Option Bytes
decrypt_chunk c stream index ct = c.decrypt (chunk_nonce stream index) ct

-- The messages of `bail!`. `out_of_fuel` is the model's own: see `decrypt_file_total`.
pub data SpoolError : Type 0 where
  too_short truncated_header truncated_chunk failed_verification out_of_fuel : SpoolError
  unsupported_version : ℕ → SpoolError

-- The first half of a round: the length, and the split into the ciphertext and what follows it.
-- A `usize` has 64 bits, so `len + 16` does not wrap.
unfoldable pub next_chunk : Bytes → Result SpoolError (Bytes × Bytes)
next_chunk rest =
    if ltb (length rest) 4
    then err truncated_header
    else let ct_len = from_le_bytes (take 4 rest) + 16 in
      let body = drop 4 rest in
      if ltb (length body) ct_len
      then err truncated_chunk
      else ok (take ct_len body, drop ct_len body)

-- The `while` of `decrypt_file`: `index`, `out` and `rest` are its variables.
unfoldable pub decrypt_chunks : ℕ → Cipher → Bytes → ℕ → Bytes → Bytes → Result SpoolError Bytes
decrypt_chunks zero c stream index out rest = err out_of_fuel
decrypt_chunks (suc fuel) c stream index out [] = ok out
decrypt_chunks (suc fuel) c stream index out (b ∷ bs) = elim (next_chunk (b ∷ bs)) [
  | err e ↦ err e
  | ok (ct, next) ↦ elim (decrypt_chunk c stream index ct) [
    | none ↦ err failed_verification
    | some plain ↦ decrypt_chunks fuel c stream (index + 1) (out ++ plain) next
  ]
]

-- A round drops at least 20 bytes, so as many rounds as there are bytes are enough.
unfoldable pub decrypt_file : Cipher → Bytes → Result SpoolError Bytes
decrypt_file c [] = err too_short
decrypt_file c (version ∷ body) =
    if ltb (length (version ∷ body)) 17
    then err too_short
    else if version == spool_format_version
    then decrypt_chunks (length (version ∷ body)) c (take 16 body) 0 [] (drop 16 body)
    else err (unsupported_version version)

-- What the writer of stable_read.rs puts down for one chunk: its length, then its ciphertext.
unfoldable pub frame : Cipher → Bytes → ℕ → Bytes → Bytes
frame c stream index chunk = to_le_bytes 4 (length chunk) ++ encrypt_chunk c stream index chunk

-- The frames of a list of chunks, numbered from `index`.
unfoldable pub frames : Cipher → Bytes → ℕ → List Bytes → Bytes
frames c stream index [] = []
frames c stream index (chunk ∷ chunks) =
    frame c stream index chunk ++ frames c stream (index + 1) chunks

-- capture.rs, before the upload: the bytes of a spool file, with or without a cipher.
unfoldable pub unspool : Option Cipher → Bytes → Result SpoolError Bytes
unspool none raw = ok raw
unspool (some c) raw = decrypt_file c raw
