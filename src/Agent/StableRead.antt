-- ===== src/Agent/StableRead.antt =====
-- crates/corpus-agent/src/stable_read.rs (and `FileKey` of fileid.rs): the copy of a file into the
-- spool, and the check that the file did not change during it.
-- What the operating system answers to the calls of one attempt is the record `Attempt`. The spool
-- directory is an association list. SHA-256 (crate sha2) and the AEAD are parameters. The test hook
-- of the source is `None` outside its tests, and is left out.
pub mod Copying
pub mod Stable
pub mod Cleanup
use corpus.Prelude.{
  ℕ, zero, suc, ◌+◌, ◌≡◌, Bool, true, false, not, ◌&&◌, Option, none, some, List, [], ◌∷◌, ◌++◌,
  String, length, ltb, ◌==◌, if◌then◌else◌,
}
use corpus.Prelude.Results.{Result, ok, err}
use corpus.Prelude.Assoc.{Assoc, lookup, remove}
use corpus.Agent.Spool.{Bytes, Cipher, frame, spool_format_version}

-- `io::ErrorKind`, as far as `map_open_err` tells the kinds apart.
pub data IoError : Type 0 where
  not_found permission_denied : IoError
  other : String → IoError

pub data StableReadError : Type 0 where
  deleted_before_read permission_denied changed_during_read spool_full : StableReadError
  too_large : ℕ → StableReadError
  io : String → StableReadError

unfoldable pub map_open_err : IoError → StableReadError
map_open_err IoError.not_found = deleted_before_read
map_open_err IoError.permission_denied = StableReadError.permission_denied
map_open_err (other why) = io why

pub record FileKey : Type 0 where
  pub volume : ℕ
  pub index : ℕ
  pub size : ℕ
  pub mtime_ns : ℕ
  pub ctime_ns : ℕ

-- The derived `==`.
unfoldable pub same_key : FileKey → FileKey → Bool
same_key a b =
    a.volume == b.volume
    && a.index == b.index
    && a.size == b.size
    && a.mtime_ns == b.mtime_ns
    && a.ctime_ns == b.ctime_ns

-- The answers to the calls of one `read_once`, in the order of the calls. `reads` are those of
-- `file.read`: an empty one is the end of the file, and so is the end of the list.
pub record Attempt : Type 0 where
  pub opened : Result IoError (Unit {0})
  pub before : Result IoError FileKey
  pub spool_path : String
  pub created : Result String (Unit {0})
  pub stream_prefix : Bytes
  pub header_written : Result String (Unit {0})
  pub reads : List (Result IoError Bytes)
  pub chunk_written : ℕ → Result String (Unit {0})
  pub after : Result IoError FileKey
  pub removed : Bool

pub record StableReadResult : Type 0 where
  pub sha256 : String
  pub size : ℕ
  pub spool_path : String

-- What the copy loop leaves: the hashed bytes, their number, and the bytes written to the spool.
pub record Copied : Type 0 where
  pub hashed : Bytes
  pub total : ℕ
  pub contents : Bytes

-- The bytes of one `write_all` round, encrypted or not.
unfoldable pub spooled : Option Cipher → Bytes → ℕ → Bytes → Bytes
spooled none stream index chunk = chunk
spooled (some c) stream index chunk = frame c stream index chunk

unfoldable pub header : Option Cipher → Bytes → Bytes
header none stream = []
header (some c) stream = spool_format_version ∷ stream

-- The loop over `file.read`. The size limit is tested before the write.
unfoldable pub copy_chunks :
    ℕ
    → Option Cipher
    → Bytes
    → (ℕ → Result String (Unit {0}))
    → List (Result IoError Bytes)
    → ℕ
    → Copied
    → Result StableReadError Copied
copy_chunks max_bytes cipher stream written [] index done = ok done
copy_chunks max_bytes cipher stream written (err e ∷ reads) index done = err (map_open_err e)
copy_chunks max_bytes cipher stream written (ok [] ∷ reads) index done = ok done
copy_chunks max_bytes cipher stream written (ok (b ∷ bs) ∷ reads) index done =
    let chunk = b ∷ bs in
    let total = done.total + length chunk in
    let next : Copied = record {
      hashed = done.hashed ++ chunk;
      total = total;
      contents = done.contents ++ spooled cipher stream index chunk;
    } in
    let rest = copy_chunks max_bytes cipher stream written reads (index + 1) next in
    if ltb max_bytes total
    then err (too_large total)
    else elim (written index) [ err why ↦ err (io why) | ok _ ↦ rest ]

abbrev pub SpoolDir : Type 0
SpoolDir = Assoc Bytes

-- `let _ = std::fs::remove_file(&spool_path)`: where it fails, the file stays, and nothing is said.
unfoldable pub remove_spool_file : Attempt → SpoolDir → SpoolDir
remove_spool_file a dir = if a.removed then remove a.spool_path dir else dir

-- The end of `read_once`, after the copy: `dir` holds the spool file.
unfoldable pub verify_unchanged :
    (Bytes → String)
    → Attempt
    → FileKey
    → SpoolDir
    → Copied
    → Result StableReadError StableReadResult × SpoolDir
unfolding remove_spool_file
verify_unchanged sha256_hex a before dir done =
    if not (done.total == before.size)
    then (err changed_during_read, remove_spool_file a dir)
    else elim a.after [
      -- `identity_of(&file).map_err(..)?`: the spool file stays
      | err e ↦ (err (map_open_err e), dir)
      | ok after ↦
          if same_key after before
          then (
            ok (record {
              sha256 = sha256_hex done.hashed;
              size = done.total;
              spool_path = a.spool_path;
            }),
            dir,
          )
          else (err changed_during_read, remove_spool_file a dir)
    ]

-- `OpenOptions::create_new`: an existing file is refused.
unfoldable pub create_spool_file :
    String → Result String (Unit {0}) → SpoolDir → Result StableReadError SpoolDir
create_spool_file path answer dir = elim (lookup path dir) [
  | some _ ↦ err (io "File exists")
  | none ↦ elim answer [ err why ↦ err (io why) | ok _ ↦ ok ((path, []) ∷ dir) ]
]

-- The header is written only where there is a cipher.
unfoldable pub write_header : Option Cipher → Attempt → Result String (Unit {0})
write_header none a = ok tt
write_header (some c) a = a.header_written

-- `read_once` from the creation of the spool file on. `dir` is the directory without it.
unfoldable pub fill_spool :
    (Bytes → String)
    → ℕ
    → Option Cipher
    → Attempt
    → FileKey
    → SpoolDir
    → Result StableReadError StableReadResult × SpoolDir
unfolding write_header remove_spool_file
fill_spool sha256_hex max_bytes cipher a before dir =
    let start = header cipher a.stream_prefix in
    let none_yet : Copied = record { hashed = []; total = 0; contents = start } in
    elim (write_header cipher a) [
      | err why ↦ (err (io why), remove_spool_file a ((a.spool_path, []) ∷ dir))
      | ok _ ↦
          elim (copy_chunks max_bytes cipher a.stream_prefix a.chunk_written a.reads 0 none_yet) [
            | err e ↦ (err e, remove_spool_file a ((a.spool_path, start) ∷ dir))
            | ok done ↦
                verify_unchanged sha256_hex a before ((a.spool_path, done.contents) ∷ dir) done
          ]
    ]

-- The two checks before a byte is read.
unfoldable pub check_size : ℕ → ℕ → FileKey → Result StableReadError (Unit {0})
check_size max_bytes spool_free before =
    if ltb max_bytes before.size
    then err (too_large before.size)
    else if ltb spool_free before.size
    then err spool_full
    else ok tt

unfoldable pub read_once :
    (Bytes → String)
    → ℕ
    → ℕ
    → Option Cipher
    → Attempt
    → SpoolDir
    → Result StableReadError StableReadResult × SpoolDir
read_once sha256_hex max_bytes spool_free cipher a dir = elim a.opened [
  | err e ↦ (err (map_open_err e), dir)
  | ok _ ↦ elim a.before [
    | err e ↦ (err (map_open_err e), dir)
    | ok before ↦ elim (check_size max_bytes spool_free before) [
      | err e ↦ (err e, dir)
      | ok _ ↦ elim (create_spool_file a.spool_path a.created dir) [
        | err e ↦ (err e, dir)
        | ok _ ↦ fill_spool sha256_hex max_bytes cipher a before dir
      ]
    ]
  ]
]

abbrev pub is_changed : Result StableReadError StableReadResult → Bool
is_changed (err changed_during_read) = true
is_changed _ = false

-- The `loop` of `stable_read`: `retries` is what is left of them, and `attempt` counts up.
unfoldable pub stable_read_from :
    (Bytes → String)
    → ℕ
    → ℕ
    → Option Cipher
    → (ℕ → Attempt)
    → ℕ
    → ℕ
    → SpoolDir
    → Result StableReadError StableReadResult × SpoolDir
stable_read_from sha256_hex max_bytes spool_free cipher world zero attempt dir =
    read_once sha256_hex max_bytes spool_free cipher (world attempt) dir
stable_read_from sha256_hex max_bytes spool_free cipher world (suc retries) attempt dir =
    let once = read_once sha256_hex max_bytes spool_free cipher (world attempt) dir in
    let again =
      stable_read_from sha256_hex max_bytes spool_free cipher world retries (attempt + 1) once.1 in
    if is_changed once.0 then again else once

unfoldable pub stable_read :
    (Bytes → String)
    → ℕ
    → ℕ
    → ℕ
    → Option Cipher
    → (ℕ → Attempt)
    → SpoolDir
    → Result StableReadError StableReadResult × SpoolDir
stable_read sha256_hex max_bytes spool_free retries cipher world dir =
    stable_read_from sha256_hex max_bytes spool_free cipher world retries 0 dir
