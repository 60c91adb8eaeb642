-- ===== src/Server/Cas/Put.antt =====
-- What a commit changes in the store.
use mathlib.Core.Path.{subst}
use corpus.Prelude.{
  ℕ, ◌≡◌, Bool, refl, sym, ◌∙◌, ap, arith, true, false, ◌&&◌, ◌⊎◌, inl, inr, Bool-cases,
  Option-cases, Option, some, none, [], ◌∷◌, take, ◌==◌,
}
use corpus.Prelude.Results.{ok, err}
use corpus.Agent.Spool.{Bytes}
use corpus.Server.Hash.{Text}
use corpus.Server.Cas.{
  ObjectKey, FsCas, Disk, io, text_eq, put_staging, put_object, read_object, stage, discard_staging,
  copy_over, move_over, move_into, commit, Written, whole, unopened, cut,
}

pub text_eq-true : (s t : Text) → text_eq s t ≡ true → s ≡ t
text_eq-true [] [] h = refl
text_eq-true [] (b ∷ t) h = cc
text_eq-true (a ∷ s) [] h = cc
text_eq-true (a ∷ s) (b ∷ t) h =
    let head : a ≡ b = ground (arith, h) in
    let tail : s ≡ t = text_eq-true s t (ground (arith, h)) in cc

pub text_eq_refl : (s : Text) → text_eq s s ≡ true
text_eq_refl [] = refl
text_eq_refl (a ∷ s) = ground (arith, text_eq_refl s)

-- An object stays as it is, or is new, under `key`, with the contents `bytes`.
abbrev IsKept : ObjectKey → Bytes → FsCas → FsCas → ℕ → Text → Type 0
IsKept key bytes cas cas' t h =
    (cas'.objects t h ≡ cas.objects t h)
    ⊎ (cas.objects t h ≡ none)
      × (t ≡ key.tenant_id)
      × (h ≡ key.sha256)
      × (cas'.objects t h ≡ some bytes)

pub record IsGrown (key : ObjectKey) (bytes : Bytes) (cas cas' : FsCas) : Type 0 where
  pub kept : (t : ℕ) (h : Text) → IsKept key bytes cas cas' t h

-- The rename, or else the copy, goes through.
abbrev pub IsWholeWrite : Disk → Type 0
IsWholeWrite disk = (disk.rename ≡ true) ⊎ (disk.copy ≡ whole)

pub discard_staging-objects :
    (disk : Disk) (key : ℕ) (cas : FsCas) → (discard_staging disk key cas).objects ≡ cas.objects
unfolding discard_staging put_staging
discard_staging-objects disk key cas = elim (Bool-cases disk.remove) [
  | inl gone ↦ rw gone refl
  | inr left ↦ rw left refl
]

pub stage-objects :
    (disk : Disk) (key : ℕ) (bytes : Bytes) (cas : FsCas)
    → (stage disk key bytes cas).1.objects ≡ cas.objects
unfolding stage put_staging
stage-objects disk key bytes cas = go disk.write refl
  where
    go : (o : Written) → disk.write ≡ o → (stage disk key bytes cas).1.objects ≡ cas.objects
    go whole e = rw (e, stage) refl
    go unopened e = rw (e, stage) refl
    go (cut n) e = rw (e, stage) refl

module _ (disk : Disk) (key : ℕ) (dest : ObjectKey) (bytes : Bytes) where
  put_object-IsGrown :
      (cas : FsCas)
      → read_object dest cas ≡ none
      → IsGrown dest bytes cas (put_object dest (some bytes) cas)
  unfolding put_object
  put_object-IsGrown cas free = record {
    kept = λ t h. place t h (Bool-cases ((t == dest.tenant_id) && text_eq h dest.sha256));
  }
    where
      place :
          (t : ℕ) (h : Text)
          → (((t == dest.tenant_id) && text_eq h dest.sha256) ≡ true)
            ⊎ (((t == dest.tenant_id) && text_eq h dest.sha256) ≡ false)
          → IsKept dest bytes cas (put_object dest (some bytes) cas) t h
      place t h (inr other) = inl (rw other refl)
      place t h (inl here) =
          let tenant : t ≡ dest.tenant_id = ground (arith, here) in
          let digest : h ≡ dest.sha256 = text_eq-true h dest.sha256 (ground (arith, here)) in
          inr (rw (tenant, digest) free, tenant, digest, rw here refl)

  moved :
      (file : Option Bytes) (cas cas' : FsCas)
      → IsGrown dest bytes cas cas'
      → IsGrown dest bytes cas (put_staging key file cas')
  unfolding put_staging
  moved file cas cas' h = record { kept = h.kept }

  copy_over-IsGrown :
      (cas : FsCas)
      → disk.copy ≡ whole
      → read_object dest cas ≡ none
      → IsGrown dest bytes cas (copy_over disk key dest bytes cas).1
  unfolding copy_over
  copy_over-IsGrown cas done free = elim (Bool-cases disk.remove) [
    | inl gone ↦ rw (done, gone, copy_over) (moved none cas _ (put_object-IsGrown cas free))
    | inr left ↦ rw (done, left, copy_over) (put_object-IsGrown cas free)
  ]

  copied : disk.rename ≡ false → IsWholeWrite disk → disk.copy ≡ whole
  copied cross (inl ren) = cc
  copied cross (inr done) = done

  move_over-IsGrown :
      (cas : FsCas)
      → IsWholeWrite disk
      → cas.staging key ≡ some bytes
      → read_object dest cas ≡ none
      → IsGrown dest bytes cas (move_over disk key dest cas).1
  unfolding move_over
  move_over-IsGrown cas safe staged free = elim (Bool-cases disk.rename) [
    | inl ren ↦ rw (staged, ren, move_over) (moved none cas _ (put_object-IsGrown cas free))
    | inr cross ↦ rw (staged, cross, move_over) (copy_over-IsGrown cas (copied cross safe) free)
  ]

  move_into-IsGrown :
      (made : Bool) (cas : FsCas)
      → IsWholeWrite disk
      → cas.staging key ≡ some bytes
      → read_object dest cas ≡ none
      → IsGrown dest bytes cas (move_into disk made key dest cas).1
  unfolding move_into
  move_into-IsGrown true cas safe staged free = move_over-IsGrown cas safe staged free
  move_into-IsGrown false cas safe staged free = record { kept = λ t h. inl refl }

  pub commit-IsGrown :
      (cas : FsCas)
      → IsWholeWrite disk
      → cas.staging key ≡ some bytes
      → IsGrown dest bytes cas (commit disk key dest cas).1
  unfolding commit
  commit-IsGrown cas safe staged = elim (Option-cases (read_object dest cas)) [
    | inr (there, present) ↦
        rw (present, commit)
          (record {
            kept = λ t h. inl (
                ap (λ (f : ℕ → Text → Option Bytes). f t h) (discard_staging-objects disk key cas));
          })
    | inl free ↦ rw (free, commit) (move_into-IsGrown disk.create_dir cas safe staged free)
  ]

put_object_read :
    (dest : ObjectKey) (bytes : Bytes) (cas : FsCas)
    → read_object dest (put_object dest (some bytes) cas) ≡ some bytes
unfolding put_object
put_object_read dest bytes cas = ground (arith, text_eq_refl dest.sha256)

module _ (disk : Disk) (key : ℕ) (dest : ObjectKey) (cas : FsCas) where
  copy_over-read_object :
      (bytes : Bytes)
      → (copy_over disk key dest bytes cas).0 ≡ ok tt
      → read_object dest (copy_over disk key dest bytes cas).1 ≡ some bytes
  unfolding copy_over put_staging
  copy_over-read_object bytes done = go disk.copy refl
    where
      go :
          (o : Written)
          → disk.copy ≡ o
          → read_object dest (copy_over disk key dest bytes cas).1 ≡ some bytes
      go (cut n) e = absurd (ground (arith, rw (e, copy_over) at done))
      go unopened e = absurd (ground (arith, rw (e, copy_over) at done))
      go whole e = elim (Bool-cases disk.remove) [
        | inr left ↦ absurd (ground (arith, rw (e, left, copy_over) at done))
        | inl gone ↦ rw (e, gone, copy_over) (put_object_read dest bytes cas)
      ]

  move_over-read_object :
      (move_over disk key dest cas).0 ≡ ok tt
      → (b : Bytes) × (read_object dest (move_over disk key dest cas).1 ≡ some b)
  unfolding move_over put_staging
  move_over-read_object done = elim (Option-cases (cas.staging key)) [
    | inl gone ↦ absurd (ground (arith, rw (gone, move_over) at done))
    | inr (bytes, staged) ↦ elim (Bool-cases disk.rename) [
      | inl ren ↦ (bytes, rw (staged, ren, move_over) (put_object_read dest bytes cas))
      | inr cross ↦ (
        bytes,
        rw (staged, cross, move_over)
            (copy_over-read_object bytes (rw (staged, cross, move_over) at done)),
      )
    ]
  ]

  move_into-read_object :
      (made : Bool)
      → (move_into disk made key dest cas).0 ≡ ok tt
      → (b : Bytes) × (read_object dest (move_into disk made key dest cas).1 ≡ some b)
  unfolding move_into
  move_into-read_object true done = move_over-read_object done
  move_into-read_object false done = absurd (ground (arith, done))

  -- A commit that succeeds leaves an object under the key.
  pub commit-read_object :
      (commit disk key dest cas).0 ≡ ok tt
      → (b : Bytes) × (read_object dest (commit disk key dest cas).1 ≡ some b)
  unfolding commit put_staging
  commit-read_object done = elim (Option-cases (read_object dest cas)) [
    | inr (there, present) ↦ (
      there,
      rw (present, commit)
          (ap (λ (f : ℕ → Text → Option Bytes). f dest.tenant_id dest.sha256)
              (discard_staging-objects disk key cas)
            ∙ present),
    )
    | inl free ↦
        let (bytes, there) = move_into-read_object disk.create_dir (rw (free, commit) at done) in
        (bytes, rw (free, commit) there)
  ]

-- An object that is there is kept, and the commit succeeds.
pub commit_present :
    (disk : Disk) (key : ℕ) (dest : ObjectKey) (b : Bytes) (cas : FsCas)
    → read_object dest cas ≡ some b
    → ((commit disk key dest cas).0 ≡ ok tt)
      × (read_object dest (commit disk key dest cas).1 ≡ some b)
unfolding commit
commit_present disk key dest b cas present = (
  rw (present, commit) refl,
  rw (present, commit)
      (ap (λ (f : ℕ → Text → Option Bytes). f dest.tenant_id dest.sha256)
          (discard_staging-objects disk key cas)
        ∙ present),
)

-- Where the tenant's directory is made, the rename fails and the copy fails after `n` bytes, those
-- stay under the final key, and the next commit under that key, whatever it has staged, succeeds and
-- keeps them.
pub commit_cut_copy :
    (disk disk' : Disk) (n key key' : ℕ) (dest : ObjectKey) (bytes : Bytes) (cas : FsCas)
    → read_object dest cas ≡ none
    → cas.staging key ≡ some bytes
    → disk.create_dir ≡ true
    → disk.rename ≡ false
    → disk.copy ≡ cut n
    → let first = commit disk key dest cas in
      let second = commit disk' key' dest first.1 in
      (first.0 ≡ err io) × (second.0 ≡ ok tt) × (read_object dest second.1 ≡ some (take n bytes))
unfolding commit move_into move_over copy_over
commit_cut_copy disk disk' n key key' dest bytes cas free staged made cross short =
    let first : commit disk key dest cas ≡ (err io, put_object dest (some (take n bytes)) cas) =
      rw (free, made, staged, cross, short, commit, move_into, move_over, copy_over) refl in
    let next =
      commit_present disk' key' dest (take n bytes) (put_object dest (some (take n bytes)) cas)
        (put_object_read dest (take n bytes) cas) in
    subst
      (λ o.
        (o.0 ≡ err io)
        × ((commit disk' key' dest o.1).0 ≡ ok tt)
        × (read_object dest (commit disk' key' dest o.1).1 ≡ some (take n bytes)))
      (sym first) (refl, next.0, next.1)
