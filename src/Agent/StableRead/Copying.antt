-- ===== src/Agent/StableRead/Copying.antt =====
-- stable_read.rs: the copy loop, its hash and what it writes.
use mathlib.Core.List.{flatten, append_assoc, append-nil}
use mathlib.Core.Path.{subst}
use corpus.Prelude.{
  ℕ, ◌+◌, ◌≤◌, ◌≡◌, refl, ap, ◌∙◌, Option, none, some, List, [], ◌∷◌, ◌++◌, String, length, ltb,
  arith, length-append, All, inl, inr, Bool-cases,
}
use corpus.Prelude.Results.{Result, ok, err, Result-cases, ok_inj}
use corpus.Agent.Spool.{Bytes, Cipher, frames, unspool}
use corpus.Agent.Spool.RoundTrip.{IsChunk, decrypt_file-frames}
use corpus.Agent.StableRead.{IoError, Copied, spooled, header, copy_chunks}

-- The chunks that the reads deliver before the end of the file.
abbrev pub chunks_read : List (Result IoError Bytes) → List Bytes
chunks_read [] = []
chunks_read (err e ∷ reads) = []
chunks_read (ok [] ∷ reads) = []
chunks_read (ok (b ∷ bs) ∷ reads) = (b ∷ bs) ∷ chunks_read reads

-- What is written for a list of chunks.
abbrev pub spooled_all : Option Cipher → Bytes → ℕ → List Bytes → Bytes
spooled_all none stream index chunks = flatten chunks
spooled_all (some c) stream index chunks = frames c stream index chunks

spooled_all-cons :
    (cipher : Option Cipher) (stream : Bytes) (index : ℕ) (chunk : Bytes) (chunks : List Bytes)
    → spooled cipher stream index chunk ++ spooled_all cipher stream (index + 1) chunks
      ≡ spooled_all cipher stream index (chunk ∷ chunks)
unfolding spooled frames flatten
spooled_all-cons none stream index chunk chunks = refl
spooled_all-cons (some c) stream index chunk chunks = refl

spooled_all-nil :
    (cipher : Option Cipher) (stream : Bytes) (index : ℕ) → spooled_all cipher stream index [] ≡ []
unfolding frames flatten
spooled_all-nil none stream index = refl
spooled_all-nil (some c) stream index = refl

-- What the loop has done at its end, from where it began.
pub record CopiedAll (max_bytes : ℕ) (cipher : Option Cipher) (stream : Bytes) (index : ℕ)
    (chunks : List Bytes) (start done : Copied) : Type 0 where
  pub hashed : done.hashed ≡ start.hashed ++ flatten chunks
  pub total : done.total ≡ start.total + length (flatten chunks)
  pub contents : done.contents ≡ start.contents ++ spooled_all cipher stream index chunks
  pub bounded : start.total ≤ max_bytes → done.total ≤ max_bytes

module _ (max_bytes : ℕ) (cipher : Option Cipher) (stream : Bytes)
    (written : ℕ → Result String (Unit {0})) where
  CopiedAll-nil :
      (index : ℕ) (start : Copied) → CopiedAll max_bytes cipher stream index [] start start
  unfolding flatten
  CopiedAll-nil index start = record {
    hashed = rw append-nil;
    total = omega arith;
    contents = rw (spooled_all-nil cipher stream index) (rw append-nil);
    bounded = λ h. h;
  }

  CopiedAll-cons :
      (index : ℕ) (chunk : Bytes) (chunks : List Bytes) (start next done : Copied)
      → next.hashed ≡ start.hashed ++ chunk
      → next.total ≡ start.total + length chunk
      → next.contents ≡ start.contents ++ spooled cipher stream index chunk
      → next.total ≤ max_bytes
      → CopiedAll max_bytes cipher stream (index + 1) chunks next done
      → CopiedAll max_bytes cipher stream index (chunk ∷ chunks) start done
  unfolding flatten
  CopiedAll-cons index chunk chunks start next done h t c small rest = record {
    hashed = rest.hashed ∙ ap (λ x. x ++ flatten chunks) h ∙ append_assoc _ chunk _;
    total = omega (arith, rest.total, length-append chunk (flatten chunks));
    contents =
        rest.contents
        ∙ ap (λ x. x ++ spooled_all cipher stream (index + 1) chunks) c
        ∙ append_assoc start.contents (spooled cipher stream index chunk)
            (spooled_all cipher stream (index + 1) chunks)
        ∙ ap (λ x. start.contents ++ x) (spooled_all-cons cipher stream index chunk chunks);
    bounded = λ _. rest.bounded small;
  }

  pub copy_chunks-CopiedAll :
      (reads : List (Result IoError Bytes)) (index : ℕ) (start done : Copied)
      → copy_chunks max_bytes cipher stream written reads index start ≡ ok done
      → CopiedAll max_bytes cipher stream index (chunks_read reads) start done
  unfolding copy_chunks
  copy_chunks-CopiedAll [] index start done h =
      subst (λ d. CopiedAll max_bytes cipher stream index [] start d) (ok_inj h)
        (CopiedAll-nil index start)
  copy_chunks-CopiedAll (err e ∷ reads) index start done h = cc
  copy_chunks-CopiedAll (ok [] ∷ reads) index start done h =
      subst (λ d. CopiedAll max_bytes cipher stream index [] start d) (ok_inj h)
        (CopiedAll-nil index start)
  copy_chunks-CopiedAll (ok (b ∷ bs) ∷ reads) index start done h =
      elim (Bool-cases (ltb max_bytes (start.total + length (b ∷ bs)))) [
        | inl large ↦ absurd (ground (arith, h, large))
        | inr small ↦ elim (Result-cases (written index)) [
          | inl (why, failed) ↦ absurd (ground (arith, h, small, failed))
          | inr (_, fine) ↦
              CopiedAll-cons index (b ∷ bs) (chunks_read reads) start _ done refl refl refl
                (ground (arith, small))
                (copy_chunks-CopiedAll reads (index + 1) _ done (rw (small, fine) at h))
        ]
      ]

-- A spool file that holds the header and all chunks gives the chunks back before the upload.
pub unspool-header :
    (cipher : Option Cipher) (stream : Bytes) (chunks : List Bytes)
    → length stream ≡ 16
    → All IsChunk chunks
    → unspool cipher (header cipher stream ++ spooled_all cipher stream 0 chunks)
      ≡ ok (flatten chunks)
unfolding unspool header
unspool-header none stream chunks h small = refl
unspool-header (some c) stream chunks h small = decrypt_file-frames c stream chunks h small
