-- ===== src/Agent/StableRead/Cleanup.antt =====
-- stable_read.rs: the spool directory after a read that fails.
use corpus.Prelude.{
  ℕ, zero, suc, ◌+◌, ◌≤◌, ◌≡◌, ◌≢◌, refl, true, false, Option, none, [], ◌∷◌, String, ◌==◌, ==_iff,
  arith, inl, inr, Bool-cases, Option-cases,
}
use corpus.Prelude.Results.{Result, ok, err, Result-cases}
use corpus.Prelude.Assoc.{lookup, remove-cons_self}
use corpus.Agent.Spool.{Bytes, Cipher}
use corpus.Agent.StableRead.{
  StableReadError, changed_during_read, FileKey, Attempt, StableReadResult, Copied, copy_chunks,
  SpoolDir, remove_spool_file, verify_unchanged, create_spool_file, write_header, fill_spool,
  read_once, is_changed, stable_read_from, stable_read, header,
}

-- The second `identity_of` of an attempt answers, and a removal goes through.
pub record IsCleared (a : Attempt) : Type 0 where
  pub key : FileKey
  pub answers : a.after ≡ ok key
  pub removes : a.removed ≡ true

module _ (sha256_hex : Bytes → String) (max_bytes : ℕ) (cipher : Option Cipher) (a : Attempt) where
  verify_unchanged_cleanup :
      (before : FileKey) (dir : SpoolDir) (done : Copied) (e : StableReadError)
      → IsCleared a
      → lookup a.spool_path dir ≡ none
      → (verify_unchanged sha256_hex a before ((a.spool_path, done.contents) ∷ dir) done).0 ≡ err e
      → (verify_unchanged sha256_hex a before ((a.spool_path, done.contents) ∷ dir) done).1 ≡ dir
  unfolding verify_unchanged remove_spool_file
  verify_unchanged_cleanup before dir done e fine fresh h =
      ground (arith, fine.answers, fine.removes, remove-cons_self a.spool_path done.contents dir)

  fill_spool_cleanup :
      (before : FileKey) (dir : SpoolDir) (e : StableReadError)
      → IsCleared a
      → lookup a.spool_path dir ≡ none
      → (fill_spool sha256_hex max_bytes cipher a before dir).0 ≡ err e
      → (fill_spool sha256_hex max_bytes cipher a before dir).1 ≡ dir
  unfolding fill_spool remove_spool_file
  fill_spool_cleanup before dir e fine fresh h =
      let start : Copied = record {
        hashed = [];
        total = 0;
        contents = header cipher a.stream_prefix;
      } in
      elim (Result-cases (write_header cipher a)) [
        | inl (why, failed) ↦
            ground (arith, fine.removes, failed, remove-cons_self {V = Bytes} a.spool_path [] dir)
        | inr (_, wrote) ↦
            elim (Result-cases
              (copy_chunks max_bytes cipher a.stream_prefix a.chunk_written a.reads 0 start)) [
                | inl (e', stopped) ↦ ground (
                  arith,
                  fine.removes,
                  wrote,
                  stopped,
                  remove-cons_self a.spool_path start.contents dir,
                )
                | inr (done, copied) ↦
                    ground
                      (arith, wrote, copied, verify_unchanged_cleanup before dir done e fine fresh)
              ]
      ]

  pub read_once_cleanup :
      (spool_free : ℕ) (dir : SpoolDir) (e : StableReadError)
      → IsCleared a
      → (read_once sha256_hex max_bytes spool_free cipher a dir).0 ≡ err e
      → (read_once sha256_hex max_bytes spool_free cipher a dir).1 ≡ dir
  unfolding read_once create_spool_file
  read_once_cleanup spool_free dir e fine h = elim (Option-cases (lookup a.spool_path dir)) [
    | inl fresh ↦ elim (Result-cases a.before) [
      | inl (x, failed) ↦ ground (arith, failed)
      | inr (before, known) ↦
          ground (arith, known, fresh, fill_spool_cleanup before dir e fine fresh)
    ]
    | inr (old, taken) ↦ ground (arith, taken)
  ]

is_changed-err :
    (r : Result StableReadError StableReadResult)
    → is_changed r ≡ true
    → r ≡ err changed_during_read
is_changed-err r h = ground arith

eq_of_test : (i j : ℕ) → (i == j) ≡ true → i ≡ j
eq_of_test i j = (==_iff i j).0

not_changed :
    (r : Result StableReadError StableReadResult) (e : StableReadError)
    → is_changed r ≡ false
    → r ≡ err e
    → e ≢ changed_during_read
not_changed r e h same c = ground arith

module _ (sha256_hex : Bytes → String) (max_bytes spool_free : ℕ) (cipher : Option Cipher)
    (world : ℕ → Attempt) where
  -- The answer of one attempt that starts from this spool directory.
  abbrev outcome : ℕ → SpoolDir → Result StableReadError StableReadResult
  outcome i dir = (read_once sha256_hex max_bytes spool_free cipher (world i) dir).0

  stable_read_from_cleanup :
      (retries attempt : ℕ) (dir : SpoolDir) (e : StableReadError)
      → ((i : ℕ) → IsCleared (world i))
      → (stable_read_from sha256_hex max_bytes spool_free cipher world retries attempt dir).0
        ≡ err e
      → ((stable_read_from sha256_hex max_bytes spool_free cipher world retries attempt dir).1
          ≡ dir)
        × (e ≡ changed_during_read
            → (i : ℕ) → attempt ≤ i
            → i ≤ attempt + retries
            → outcome i dir ≡ err changed_during_read)
  unfolding stable_read_from
  stable_read_from_cleanup zero attempt dir e fine h = (
    read_once_cleanup sha256_hex max_bytes cipher (world attempt) spool_free dir e (fine attempt) h,
    λ c i low high. let here : i ≡ attempt = omega arith in rw here (rw c at h),
  )
  stable_read_from_cleanup (suc retries) attempt dir e fine h =
      let once = read_once sha256_hex max_bytes spool_free cipher (world attempt) dir in
      elim (Bool-cases (is_changed once.0)) [
        | inl again ↦
            let changed = is_changed-err once.0 again in
            let same =
              read_once_cleanup sha256_hex max_bytes cipher (world attempt) spool_free dir
                changed_during_read (fine attempt) changed in
            let (kept, all) =
              stable_read_from_cleanup retries (attempt + 1) dir e fine
                (rw same at (rw again at h)) in
            rw again (
              rw same (
                kept,
                λ c i low high. elim (Bool-cases (i == attempt)) [
                  | inl here ↦ rw (eq_of_test i attempt here) changed
                  | inr later ↦ all c i (ground (arith, low, later)) (omega arith)
                ],
              ))
        | inr last ↦ rw last (
          read_once_cleanup sha256_hex max_bytes cipher (world attempt) spool_free dir e
              (fine attempt) (rw last at h),
          λ c. absurd (not_changed once.0 e last (rw last at h) c),
        )
      ]

  -- If `stable_read` fails, every second `identity_of` answers, and every removal of a spool file goes
  -- through, then the spool directory is the one before the call.
  pub stable_read_cleanup :
      (retries : ℕ) (dir : SpoolDir) (e : StableReadError)
      → ((i : ℕ) → IsCleared (world i))
      → (stable_read sha256_hex max_bytes spool_free retries cipher world dir).0 ≡ err e
      → (stable_read sha256_hex max_bytes spool_free retries cipher world dir).1 ≡ dir
  unfolding stable_read
  stable_read_cleanup retries dir e fine h = (stable_read_from_cleanup retries 0 dir e fine h).0

  -- If it reports a file that changed, where every second `identity_of` answers and every removal goes
  -- through, then each of its attempts, the first and all the retries, saw a change.
  pub stable_read_exhausted :
      (retries : ℕ) (dir : SpoolDir) (i : ℕ)
      → ((k : ℕ) → IsCleared (world k))
      → (stable_read sha256_hex max_bytes spool_free retries cipher world dir).0
        ≡ err changed_during_read
      → i ≤ retries
      → (read_once sha256_hex max_bytes spool_free cipher (world i) dir).0 ≡ err changed_during_read
  unfolding stable_read
  stable_read_exhausted retries dir i fine h most =
      (stable_read_from_cleanup retries 0 dir changed_during_read fine h).1 refl i (omega arith)
        (omega (arith, most))
