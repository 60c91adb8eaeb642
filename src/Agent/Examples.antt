-- ===== src/Agent/Examples.antt =====
-- Concrete states of the agent, and the theorems at them. The cipher of the examples puts a tag of
-- sixteen zeros before the text; a number is written in unary, after a 0.
pub mod Unary
pub mod Worker
pub mod Database
use mathlib.Core.List.{flatten}
use corpus.Prelude.{
  ℕ, zero, suc, ◌+◌, ◌-◌, ◌*◌, ◌≤◌, ◌<◌, ◌≡◌, ◌≢◌, refl, ap, arith, Bool, true, false, Option, some,
  none, String, List, [], ◌∷◌, ◌++◌, map, All, inl, inr, length, take, drop,
}
use corpus.Prelude.Results.{Result, ok, err}
use corpus.Prelude.Assoc.{lookup, remove}
use corpus.Agent.Sensors.{field, units}
use corpus.Agent.Sensors.Notify.{
  NotifyRecord, notify_records, parse_notify_records, parse_notify_records_lem,
}
use corpus.Agent.Sensors.Notify.Packed.{
  Entry, IsEntry, pack_all, decoded, parse_notify_records-pack_all,
}
use corpus.Agent.Sensors.Usn.{usn_records, parse_usn_records, parse_usn_records_lem}
use corpus.Agent.Spool.{
  Bytes, Cipher, decrypt_file, frames, spool_format_version, from_le_bytes, SpoolError, out_of_fuel,
}
use corpus.Agent.Spool.RoundTrip.{IsChunk, decrypt_file_total, decrypt_file-frames}
use corpus.Agent.StableRead.{
  IoError, StableReadError, changed_during_read, deleted_before_read, map_open_err, FileKey,
  Attempt, remove_spool_file, StableReadResult, Copied, copy_chunks, header, SpoolDir, write_header,
  fill_spool, read_once, stable_read, stable_read_from, check_size, create_spool_file,
  verify_unchanged, same_key, spooled,
}
use corpus.Agent.StableRead.Copying.{chunks_read}
use corpus.Agent.StableRead.Stable.{IsPlausible, IsStableCopy, stable_read-IsStableCopy}
use corpus.Agent.StableRead.Cleanup.{IsCleared, stable_read_cleanup}

abbrev pub sixteen : Bytes
sixteen = 0 ∷ 0 ∷ 0 ∷ 0 ∷ 0 ∷ 0 ∷ 0 ∷ 0 ∷ 0 ∷ 0 ∷ 0 ∷ 0 ∷ 0 ∷ 0 ∷ 0 ∷ 0 ∷ []

abbrev pub example_cipher : Cipher
example_cipher = record {
  encrypt = λ nonce plain. sixteen ++ plain;
  decrypt = λ nonce text. some (drop 16 text);
  decrypt-encrypt = λ nonce plain. refl;
  length-encrypt = λ nonce plain. omega arith;
}

decrypt_file_total_example : decrypt_file example_cipher (2 ∷ sixteen ++ 9 ∷ []) ≢ err out_of_fuel
decrypt_file_total_example = decrypt_file_total example_cipher (2 ∷ sixteen ++ 9 ∷ [])

abbrev two_chunks : List Bytes
two_chunks = (1 ∷ 2 ∷ []) ∷ (3 ∷ []) ∷ []

two_chunks-IsChunk : All IsChunk two_chunks
two_chunks-IsChunk = (omega arith, (omega arith, tt))

decrypt_file-frames_example :
    decrypt_file example_cipher
      (spool_format_version ∷ (sixteen ++ frames example_cipher sixteen 0 two_chunks))
    ≡ ok (flatten two_chunks)
decrypt_file-frames_example =
    decrypt_file-frames example_cipher sixteen two_chunks refl two_chunks-IsChunk

-- A name of two units, then one of one unit.
abbrev entries : List Entry
entries =
    record { action = 1; name = 97 ∷ []; padding = 0 ∷ 0 ∷ [] }
    ∷ record { action = 3; name = 98 ∷ 300 ∷ []; padding = [] }
    ∷ []

abbrev lossy : List ℕ → String
lossy units = "name"

entries-IsEntry : All IsEntry entries
entries-IsEntry = (
  record { action = omega arith; name = (omega arith, tt); length = omega arith },
  (
    record { action = omega arith; name = (omega arith, (omega arith, tt)); length = omega arith },
    tt,
  ),
)

parse_notify_records-pack_all_example :
    parse_notify_records lossy (pack_all entries) ≡ map (decoded lossy) entries
parse_notify_records-pack_all_example = parse_notify_records-pack_all lossy entries entries-IsEntry

-- A record that names itself as the next ends the loop.
abbrev looping : Bytes
looping = 1 ∷ 0 ∷ 0 ∷ 0 ∷ 1 ∷ 0 ∷ 0 ∷ 0 ∷ 2 ∷ 0 ∷ 0 ∷ 0 ∷ 97 ∷ 0 ∷ []

parse_notify_records_lem_example :
    (notify_records lossy 100 looping ≡ parse_notify_records lossy looping)
    × (length (parse_notify_records lossy looping) * 12 ≤ 14)
parse_notify_records_lem_example = parse_notify_records_lem lossy 100 looping (omega arith)

-- One record of sixty bytes, with a name of one unit that ends it.
abbrev journal : Bytes
journal = 60 ∷ 0 ∷ 0 ∷ 0 ∷ 2 ∷ 0 ∷ 0 ∷ 0 ∷ (sixteen ++ sixteen ++ sixteen ++ 2 ∷ 0 ∷ 58 ∷ 0 ∷ [])

parse_usn_records_lem_example :
    (usn_records lossy 100 journal ≡ parse_usn_records lossy journal)
    × (length (parse_usn_records lossy journal) * 60 ≤ 60)
parse_usn_records_lem_example = parse_usn_records_lem lossy 100 journal (omega arith)

journal_record : length (parse_usn_records lossy journal) ≡ 1
unfolding parse_usn_records field from_le_bytes
journal_record = refl

abbrev key : FileKey
key = record { volume = 1; index = 2; size = 3; mtime_ns = 4; ctime_ns = 5 }

abbrev pub calm : Attempt
calm = record {
  opened = ok tt;
  before = ok key;
  spool_path = "spool/a";
  created = ok tt;
  stream_prefix = sixteen;
  header_written = ok tt;
  reads = ok (7 ∷ 8 ∷ []) ∷ ok (9 ∷ []) ∷ ok [] ∷ [];
  chunk_written = λ i. ok tt;
  after = ok key;
  removed = true;
}

-- The file shrinks while it is read.
abbrev shrinking : Attempt
shrinking = record calm { reads = ok (7 ∷ 8 ∷ []) ∷ ok [] ∷ [] }

-- The file cannot be asked again.
abbrev unanswered : Attempt
unanswered = record calm { after = err (IoError.other "EIO") }

abbrev pub no_hash : Bytes → String
no_hash bytes = "digest"

calm-IsPlausible : IsPlausible calm
calm-IsPlausible = record { buffered = (omega arith, (omega arith, tt)); prefixed = refl }

abbrev read_result : StableReadResult
read_result = record { sha256 = "digest"; size = 3; spool_path = "spool/a" }

stable_read-IsStableCopy_example :
    (i : ℕ) × (i ≤ 2)
    × IsStableCopy no_hash 100 none calm read_result (("spool/a", 7 ∷ 8 ∷ 9 ∷ []) ∷ [])
unfolding stable_read lookup stable_read_from read_once check_size create_spool_file fill_spool
    copy_chunks verify_unchanged same_key header spooled
stable_read-IsStableCopy_example =
    stable_read-IsStableCopy no_hash 100 1000 none (λ i. calm) (λ i. calm-IsPlausible) 2 []
      (("spool/a", 7 ∷ 8 ∷ 9 ∷ []) ∷ []) read_result refl

shrinking_read :
    (stable_read no_hash 100 1000 1 none (λ i. shrinking) []).0 ≡ err changed_during_read
unfolding stable_read lookup stable_read_from read_once check_size create_spool_file fill_spool
    copy_chunks verify_unchanged same_key header spooled remove remove_spool_file
shrinking_read = refl

shrinking-IsCleared : (i : ℕ) → IsCleared shrinking
shrinking-IsCleared i = record { key = key; answers = refl; removes = refl }

stable_read_cleanup_example : (stable_read no_hash 100 1000 1 none (λ i. shrinking) []).1 ≡ []
stable_read_cleanup_example =
    stable_read_cleanup no_hash 100 1000 none (λ i. shrinking) 1 [] changed_during_read
      shrinking-IsCleared shrinking_read

-- The second `identity_of` fails, and the spool file stays behind.
fill_spool_leaks :
    fill_spool no_hash 100 none unanswered key []
    ≡ (err (map_open_err (IoError.other "EIO")), ("spool/a", 7 ∷ 8 ∷ 9 ∷ []) ∷ [])
unfolding fill_spool verify_unchanged write_header copy_chunks header spooled
fill_spool_leaks = refl
