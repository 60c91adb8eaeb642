-- ===== src/Agent/Spool/RoundTrip.antt =====
-- spool_crypto.rs: the loop of decryption, and the frames of the writer.
use mathlib.Core.List.{flatten, append_assoc, append-nil}
use corpus.Prelude.{
  ◌∙◌, ℕ, zero, suc, ◌+◌, ◌/◌, ◌^◌, ◌≤◌, ◌<◌, ◌≡◌, ◌≢◌, refl, ap, some, List, [], ◌∷◌, ◌++◌, length,
  take, drop, arith, length-drop_le, All, length-append, take-append, drop-append, Option-cases,
  inl, inr,
}
use corpus.Prelude.Results.{ok, err, Result-cases}
use corpus.Agent.Spool.{
  Bytes, to_le_bytes, from_le_bytes, Cipher, encrypt_chunk, decrypt_chunk, out_of_fuel, next_chunk,
  decrypt_chunks, decrypt_file, frame, frames, spool_format_version,
}

pub length-to_le_bytes : (k n : ℕ) → length (to_le_bytes k n) ≡ k
unfolding to_le_bytes
length-to_le_bytes zero n = refl
length-to_le_bytes (suc k) n = ap suc (length-to_le_bytes k (n / 256))

-- Four bytes hold a `u32`.
pub from_le_bytes-to_le_bytes : (n : ℕ) → n < 2 ^ 32 → from_le_bytes (to_le_bytes 4 n) ≡ n
unfolding to_le_bytes from_le_bytes
from_le_bytes-to_le_bytes n h = omega arith

next_chunk-smaller :
    (b : ℕ) (bs ct next : Bytes) → next_chunk (b ∷ bs) ≡ ok (ct, next) → length next ≤ length bs
unfolding next_chunk
next_chunk-smaller b bs ct next h =
    let n = from_le_bytes (take 4 (b ∷ bs)) + 16 in
    ground (arith, length-drop_le n (drop 3 bs), length-drop_le 3 bs)

next_chunk_total : (rest : Bytes) → next_chunk rest ≢ err out_of_fuel
unfolding next_chunk
next_chunk_total rest = ground arith

decrypt_chunks_total :
    (fuel : ℕ) (c : Cipher) (stream : Bytes) (index : ℕ) (out rest : Bytes)
    → length rest < fuel
    → decrypt_chunks fuel c stream index out rest ≢ err out_of_fuel
unfolding decrypt_chunks
decrypt_chunks_total zero c stream index out rest h = elim h [ ]
decrypt_chunks_total (suc fuel) c stream index out [] h = ground arith
decrypt_chunks_total (suc fuel) c stream index out (b ∷ bs) h =
    elim (Result-cases (next_chunk (b ∷ bs))) [
      | inl (e, failed) ↦ ground (arith, next_chunk_total (b ∷ bs))
      | inr ((ct, next), parsed) ↦ elim (Option-cases (decrypt_chunk c stream index ct)) [
        | inl bad ↦ ground arith
        | inr (plain, good) ↦ ground (
          arith,
          next_chunk-smaller b bs ct next parsed,
          decrypt_chunks_total fuel c stream (index + 1) (out ++ plain) next,
        )
      ]
    ]

-- Decryption comes to an end on every spool file: the rounds allowed are enough.
pub decrypt_file_total : (c : Cipher) (blob : Bytes) → decrypt_file c blob ≢ err out_of_fuel
unfolding decrypt_file
decrypt_file_total c [] = ground arith
decrypt_file_total c (version ∷ body) =
    let left : length (drop 16 body) < suc (length body) = omega (arith, length-drop_le 16 body) in
    ground
      (arith, decrypt_chunks_total (suc (length body)) c (take 16 body) 0 [] (drop 16 body) left)

-- `n as u32` in the header holds the length of a chunk.
abbrev pub IsChunk : Bytes → Type 0
IsChunk chunk = length chunk < 2 ^ 32

module _ (c : Cipher) (stream : Bytes) where
  length-encrypt_chunk :
      (index : ℕ) (chunk : Bytes) → length (encrypt_chunk c stream index chunk) ≡ length chunk + 16
  unfolding encrypt_chunk
  length-encrypt_chunk index chunk = c.length-encrypt _ chunk

  decrypt_chunk-encrypt_chunk :
      (index : ℕ) (chunk : Bytes)
      → decrypt_chunk c stream index (encrypt_chunk c stream index chunk) ≡ some chunk
  unfolding encrypt_chunk decrypt_chunk
  decrypt_chunk-encrypt_chunk index chunk = c.decrypt-encrypt _ chunk

  next_chunk-frame :
      (index : ℕ) (chunk rest : Bytes)
      → IsChunk chunk
      → next_chunk (frame c stream index chunk ++ rest)
        ≡ ok (encrypt_chunk c stream index chunk, rest)
  unfolding next_chunk frame to_le_bytes
  next_chunk-frame index chunk rest h =
      let ct = encrypt_chunk c stream index chunk in
      let size : from_le_bytes (to_le_bytes 4 (length chunk)) + 16 ≡ length ct =
        omega (arith, from_le_bytes-to_le_bytes _ h, length-encrypt_chunk index chunk) in
      rw (size, take-append, drop-append) (ground (arith, length-append ct rest))

  -- One round of the reader.
  decrypt_chunks_step :
      (fuel index : ℕ) (out rest ct next plain : Bytes)
      → next_chunk rest ≡ ok (ct, next)
      → decrypt_chunk c stream index ct ≡ some plain
      → decrypt_chunks (suc fuel) c stream index out rest
        ≡ decrypt_chunks fuel c stream (index + 1) (out ++ plain) next
  unfolding decrypt_chunks next_chunk
  decrypt_chunks_step fuel index out [] ct next plain parsed good = cc
  decrypt_chunks_step fuel index out (b ∷ bs) ct next plain parsed good =
      rw (parsed, decrypt_chunks) (rw (good, decrypt_chunks) refl)

  length-frame_pos :
      (index : ℕ) (chunk rest : Bytes) → length rest < length (frame c stream index chunk ++ rest)
  unfolding frame to_le_bytes
  length-frame_pos index chunk rest =
      omega (arith, length-append (encrypt_chunk c stream index chunk) rest)

  decrypt_chunks-frames :
      (fuel index : ℕ) (out : Bytes) (chunks : List Bytes)
      → length (frames c stream index chunks) < fuel
      → All IsChunk chunks
      → decrypt_chunks fuel c stream index out (frames c stream index chunks)
        ≡ ok (out ++ flatten chunks)
  unfolding frames flatten
  decrypt_chunks-frames zero index out chunks more h = elim more [ ]
  decrypt_chunks-frames (suc fuel) index out [] more h = unfold decrypt_chunks in rw append-nil
  decrypt_chunks-frames (suc fuel) index out (chunk ∷ chunks) more h =
      let rest = frames c stream (index + 1) chunks in
      let fits : length rest < fuel = omega (arith, length-frame_pos index chunk rest) in
      let read = next_chunk-frame index chunk rest h.0 in
      decrypt_chunks_step fuel index out _ (encrypt_chunk c stream index chunk) rest chunk read
        (decrypt_chunk-encrypt_chunk index chunk)
      ∙ decrypt_chunks-frames fuel (index + 1) (out ++ chunk) chunks fits h.1
      ∙ ap ok (append_assoc out chunk (flatten chunks))

-- A spool file of format 2, written chunk by chunk under a prefix of 16 bytes, decrypts to the
-- chunks in their order, whatever the AEAD is that meets its documentation.
pub decrypt_file-frames :
    (c : Cipher) (stream : Bytes) (chunks : List Bytes)
    → length stream ≡ 16
    → All IsChunk chunks
    → decrypt_file c (spool_format_version ∷ (stream ++ frames c stream 0 chunks))
      ≡ ok (flatten chunks)
unfolding decrypt_file
decrypt_file-frames c stream chunks h small =
    let rest = frames c stream 0 chunks in
    let split : take 16 (stream ++ rest) ≡ stream = rw (← h) (take-append stream rest) in
    let after : drop 16 (stream ++ rest) ≡ rest = rw (← h) (drop-append stream rest) in
    let fits : length rest < suc (length (stream ++ rest)) =
      omega (arith, length-append stream rest) in
    rw (split, after)
      (ground (
        arith,
        length-append stream rest,
        decrypt_chunks-frames c stream (suc (length (stream ++ rest))) 0 [] chunks fits small,
      ))
