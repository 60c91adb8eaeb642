-- ===== src/Server/Cas.antt =====
-- crates/corpus-core/src/cas.rs: the object store on a file system.
-- The two trees of the layout are two maps. `staging/{staging_key}` is named by the upload id that
-- the key is the text of, in which the assertion of `staging_path` finds neither `/` nor `..`;
-- `objects/{tenant}/{sha256}` by the two segments of `object_key`.
pub mod Put
use corpus.Prelude.{
  ℕ, ◌+◌, min, ◌≡◌, Bool, true, false, ◌&&◌, Option, some, none, List, [], ◌∷◌, length, take, drop,
  leb, ◌==◌, if◌then◌else◌,
}
use corpus.Prelude.Results.{Result, ok, err}
use corpus.Agent.Spool.{Bytes}
use corpus.Server.Hash.{Text, Digests, HashMismatch, sha256_hex}

pub record ObjectKey : Type 0 where
  pub tenant_id : ℕ
  pub sha256 : Text

-- `objects/{tenant_id}/{sha256_hex}`
unfoldable pub object_key : ℕ → Text → ObjectKey
object_key tenant_id sha256 = record { tenant_id = tenant_id; sha256 = sha256 }

pub record FsCas : Type 0 where
  pub staging : ℕ → Option Bytes
  pub objects : ℕ → Text → Option Bytes

-- How a write of a whole file ends: it succeeds, or the file is not opened, or so many bytes are in it.
pub data Written : Type 0 where
  whole unopened : Written
  cut : ℕ → Written

-- What the operating system answers to one call.
pub record Disk : Type 0 where
  pub write : Written
  pub create_dir : Bool
  pub rename : Bool
  pub copy : Written
  pub remove : Bool

pub data CasError : Type 0 where
  io : CasError

-- The equality of two texts of bytes.
abbrev pub text_eq : Text → Text → Bool
text_eq [] [] = true
text_eq [] (t ∷ ts) = false
text_eq (s ∷ ss) [] = false
text_eq (s ∷ ss) (t ∷ ts) = (s == t) && text_eq ss ts

-- One file of a tree is written, or removed.
unfoldable pub put_staging : ℕ → Option Bytes → FsCas → FsCas
put_staging key file cas = record cas { staging = λ k. if k == key then file else cas.staging k }

unfoldable pub put_object : ObjectKey → Option Bytes → FsCas → FsCas
put_object key file cas = record cas {
  objects = λ t s. if (t == key.tenant_id) && text_eq s key.sha256 then file else cas.objects t s;
}

abbrev pub read_object : ObjectKey → FsCas → Option Bytes
read_object key cas = cas.objects key.tenant_id key.sha256

module _ (disk : Disk) where
  unfoldable pub stage : ℕ → Bytes → FsCas → Result CasError (Unit {0}) × FsCas
  stage key bytes cas = elim disk.write [
    | whole ↦ (ok tt, put_staging key (some bytes) cas)
    | unopened ↦ (err io, cas)
    | cut n ↦ (err io, put_staging key (some (take n bytes)) cas)
  ]

  -- `let _ = std::fs::remove_file(..)`
  unfoldable pub discard_staging : ℕ → FsCas → FsCas
  discard_staging key cas = if disk.remove then put_staging key none cas else cas

  -- `std::fs::copy`, then `std::fs::remove_file`.
  unfoldable pub copy_over : ℕ → ObjectKey → Bytes → FsCas → Result CasError (Unit {0}) × FsCas
  copy_over key dest bytes cas = elim disk.copy [
    | cut n ↦ (err io, put_object dest (some (take n bytes)) cas)
    | unopened ↦ (err io, cas)
    | whole ↦
        let copied = put_object dest (some bytes) cas in
        if disk.remove then (ok tt, put_staging key none copied) else (err io, copied)
  ]

  -- The rename, or else the copy. A staging file that is not there fails in both.
  unfoldable pub move_over : ℕ → ObjectKey → FsCas → Result CasError (Unit {0}) × FsCas
  unfolding copy_over
  move_over key dest cas = elim (cas.staging key) [
    | none ↦ (err io, cas)
    | some bytes ↦
        if disk.rename
        then (ok tt, put_staging key none (put_object dest (some bytes) cas))
        else copy_over key dest bytes cas
  ]

  -- Whether `create_dir_all` has made the tenant's directory.
  unfoldable pub move_into : Bool → ℕ → ObjectKey → FsCas → Result CasError (Unit {0}) × FsCas
  move_into true key dest cas = move_over key dest cas
  move_into false key dest cas = (err io, cas)

  unfoldable pub commit : ℕ → ObjectKey → FsCas → Result CasError (Unit {0}) × FsCas
  unfolding discard_staging move_into
  commit key dest cas = elim (read_object dest cas) [
    | some present ↦ (ok tt, discard_staging key cas)
    | none ↦ move_into disk.create_dir key dest cas
  ]

  unfoldable pub delete : ObjectKey → FsCas → Result CasError (Unit {0}) × FsCas
  delete key cas = elim (read_object key cas) [
    | none ↦ (ok tt, cas)
    | some bytes ↦ if disk.remove then (ok tt, put_object key none cas) else (err io, cas)
  ]

unfoldable pub read : ObjectKey → FsCas → Result CasError Bytes
read key cas = elim (read_object key cas) [ none ↦ err io | some bytes ↦ ok bytes ]

unfoldable pub read_range : ObjectKey → ℕ → ℕ → FsCas → Result CasError Bytes
unfolding read
read_range key start len cas = elim (read key cas) [
  | err e ↦ err e
  | ok all ↦
      if leb (length all) start
      then ok []
      else ok (drop start (take (min (start + len) (length all)) all))
]

unfoldable pub metadata : Digests → ObjectKey → FsCas → Option (ℕ × Text)
metadata d key cas = elim (read_object key cas) [
  | none ↦ none
  | some bytes ↦ some (length bytes, sha256_hex d bytes)
]

unfoldable pub verify_digest : Digests → Bytes → Text → Result HashMismatch (Unit {0})
verify_digest d bytes declared =
    if text_eq (sha256_hex d bytes) declared
    then ok tt
    else err (record { announced = declared; recomputed = sha256_hex d bytes })
