-- ===== src/Agent/StableRead/Stable.antt =====
-- stable_read.rs: the results of `stable_read`.
use mathlib.Core.List.{flatten}
use corpus.Prelude.{
  ℕ, zero, suc, ◌+◌, ◌≤◌, ◌≡◌, ap, ◌∙◌, true, Option, some, [], ◌∷◌, String, length, arith, All,
  inl, inr, Bool-cases,
}
use corpus.Prelude.Results.{ok, Result-cases}
use corpus.Prelude.Assoc.{lookup, lookup-cons_self}
use corpus.Agent.Spool.{Bytes, Cipher, unspool}
use corpus.Agent.Spool.RoundTrip.{IsChunk}
use corpus.Agent.StableRead.{
  FileKey, same_key, Attempt, StableReadResult, Copied, copy_chunks, SpoolDir, verify_unchanged,
  write_header, fill_spool, read_once, is_changed, stable_read_from, stable_read, header,
}
use corpus.Agent.StableRead.Copying.{chunks_read, copy_chunks-CopiedAll, unspool-header}

-- The calls of one attempt answer as the operating system documents: a read fills at most a buffer
-- of 64 KiB, and the random prefix has 16 bytes.
pub record IsPlausible (a : Attempt) : Type 0 where
  pub buffered : All IsChunk (chunks_read a.reads)
  pub prefixed : length a.stream_prefix ≡ 16

-- What a successful read stands for, at the attempt that succeeded.
pub record IsStableCopy (sha256_hex : Bytes → String) (max_bytes : ℕ) (cipher : Option Cipher)
    (a : Attempt) (r : StableReadResult) (dir : SpoolDir) : Type 0 where
  pub key : FileKey
  pub before : a.before ≡ ok key
  pub after : a.after ≡ ok key
  pub size_key : key.size ≡ r.size
  pub size : r.size ≡ length (flatten (chunks_read a.reads))
  pub bounded : r.size ≤ max_bytes
  pub sha256 : r.sha256 ≡ sha256_hex (flatten (chunks_read a.reads))
  pub contents : Bytes
  pub kept : lookup r.spool_path dir ≡ some contents
  pub restored : unspool cipher contents ≡ ok (flatten (chunks_read a.reads))

same_key-eq : (a b : FileKey) → same_key a b ≡ true → a ≡ b
unfolding same_key
same_key-eq a b h = ground arith

module _ (sha256_hex : Bytes → String) where
  verify_unchanged_ok :
      (a : Attempt) (before : FileKey) (dir dir' : SpoolDir) (done : Copied) (r : StableReadResult)
      → verify_unchanged sha256_hex a before dir done ≡ (ok r, dir')
      → (done.total ≡ before.size)
        × (a.after ≡ ok before)
        × (r.sha256 ≡ sha256_hex done.hashed)
        × (r.size ≡ done.total)
        × (r.spool_path ≡ a.spool_path)
        × (dir' ≡ dir)
  unfolding verify_unchanged
  verify_unchanged_ok a before dir dir' done r h = elim (Result-cases a.after) [
    | inl (e, failed) ↦ ground arith
    | inr (after, e) ↦ ground (arith, same_key-eq after before)
  ]

  module _ (max_bytes : ℕ) (cipher : Option Cipher) (a : Attempt) where
    fill_spool_ok :
        (before : FileKey) (dir dir' : SpoolDir) (r : StableReadResult)
        → fill_spool sha256_hex max_bytes cipher a before dir ≡ (ok r, dir')
        → (done : Copied) × (copy_chunks max_bytes cipher a.stream_prefix a.chunk_written a.reads 0
              (record { hashed = []; total = 0; contents = header cipher a.stream_prefix })
            ≡ ok done)
          × (verify_unchanged sha256_hex a before ((a.spool_path, done.contents) ∷ dir) done
              ≡ (ok r, dir'))
    unfolding fill_spool
    fill_spool_ok before dir dir' r h =
        let start : Copied = record {
          hashed = [];
          total = 0;
          contents = header cipher a.stream_prefix;
        } in
        let copied = copy_chunks max_bytes cipher a.stream_prefix a.chunk_written a.reads 0 start in
        elim (Result-cases (write_header cipher a)) [
          | inl (why, failed) ↦ absurd (ground (arith, h, failed))
          | inr (_, fine) ↦ elim (Result-cases copied) [
            | inl (e, stopped) ↦ absurd (ground (arith, h, fine, stopped))
            | inr (done, e) ↦ (done, e, ground (arith, h, fine, e))
          ]
        ]

    read_once_ok :
        (spool_free : ℕ) (dir dir' : SpoolDir) (r : StableReadResult)
        → read_once sha256_hex max_bytes spool_free cipher a dir ≡ (ok r, dir')
        → (before : FileKey) × (a.before ≡ ok before)
          × (fill_spool sha256_hex max_bytes cipher a before dir ≡ (ok r, dir'))
    unfolding read_once
    read_once_ok spool_free dir dir' r h = elim (Result-cases a.opened) [
      | inl (e, failed) ↦ absurd (ground (arith, h, failed))
      | inr (_, opened) ↦ elim (Result-cases a.before) [
        | inl (e, failed) ↦ absurd (ground (arith, h, opened, failed))
        | inr (before, e) ↦ (before, e, ground (arith, h, opened, e))
      ]
    ]

    read_once-IsStableCopy :
        (spool_free : ℕ) (dir dir' : SpoolDir) (r : StableReadResult)
        → IsPlausible a
        → read_once sha256_hex max_bytes spool_free cipher a dir ≡ (ok r, dir')
        → IsStableCopy sha256_hex max_bytes cipher a r dir'
    read_once-IsStableCopy spool_free dir dir' r p h =
        let (before, at_first, filled) = read_once_ok spool_free dir dir' r h in
        let (done, copied, verified) = fill_spool_ok before dir dir' r filled in
        let (total, after, hash, size, path, same) =
          verify_unchanged_ok a before ((a.spool_path, done.contents) ∷ dir) dir' done r verified in
        let all =
          copy_chunks-CopiedAll max_bytes cipher a.stream_prefix a.chunk_written a.reads 0 _ done
            copied in
        record {
          key = before;
          before = at_first;
          after = after;
          size_key = omega (arith, total, size);
          size = omega (arith, size, all.total);
          bounded = omega (arith, size, all.bounded (omega arith));
          sha256 = hash ∙ ap sha256_hex all.hashed;
          contents = done.contents;
          kept = rw (path, same) (lookup-cons_self a.spool_path done.contents dir);
          restored =
              rw all.contents
                (unspool-header cipher a.stream_prefix (chunks_read a.reads) p.prefixed p.buffered);
        }

module _ (sha256_hex : Bytes → String) (max_bytes spool_free : ℕ) (cipher : Option Cipher)
    (world : ℕ → Attempt) (plausible : (i : ℕ) → IsPlausible (world i)) where
  stable_read_from-IsStableCopy :
      (retries attempt : ℕ) (dir dir' : SpoolDir) (r : StableReadResult)
      → stable_read_from sha256_hex max_bytes spool_free cipher world retries attempt dir
        ≡ (ok r, dir')
      → (i : ℕ) × (i ≤ attempt + retries)
        × IsStableCopy sha256_hex max_bytes cipher (world i) r dir'
  unfolding stable_read_from
  stable_read_from-IsStableCopy zero attempt dir dir' r h = (
    attempt,
    omega arith,
    read_once-IsStableCopy sha256_hex max_bytes cipher (world attempt) spool_free dir dir' r
        (plausible attempt) h,
  )
  stable_read_from-IsStableCopy (suc retries) attempt dir dir' r h =
      let once = read_once sha256_hex max_bytes spool_free cipher (world attempt) dir in
      elim (Bool-cases (is_changed once.0)) [
        | inl again ↦
            let (i, most, copy) =
              stable_read_from-IsStableCopy retries (attempt + 1) once.1 dir' r (rw again at h) in
            (i, omega (arith, most), copy)
        | inr last ↦ (
          attempt,
          omega arith,
          read_once-IsStableCopy sha256_hex max_bytes cipher (world attempt) spool_free dir dir' r
              (plausible attempt) (rw last at h),
        )
      ]

  -- Where no read gives more than 2^32 - 1 bytes and the random prefixes have 16: if `stable_read`
  -- returns a file, then one of its attempts saw it unchanged. The identity before and after the copy
  -- is the same, the size is that of the identity, that of the bytes that were read, and at most the
  -- limit, the digest is that of those bytes, and the spool file that is named decrypts to them.
  pub stable_read-IsStableCopy :
      (retries : ℕ) (dir dir' : SpoolDir) (r : StableReadResult)
      → stable_read sha256_hex max_bytes spool_free retries cipher world dir ≡ (ok r, dir')
      → (i : ℕ) × (i ≤ retries) × IsStableCopy sha256_hex max_bytes cipher (world i) r dir'
  unfolding stable_read
  stable_read-IsStableCopy retries dir dir' r h =
      let (i, most, copy) = stable_read_from-IsStableCopy retries 0 dir dir' r h in
      (i, omega (arith, most), copy)
