-- ===== src/Server/Examples.antt =====
-- Concrete states of the server, and the theorems at them. The digest of the examples is one byte,
-- the length; the codec writes a byte b as the letter-free text byte b + 200.
mod Hunts
mod Rules
mod Fuzzy
mod Triggers
mod Lsh
use corpus.Prelude.{
  ℕ, ◌+◌, ◌-◌, ◌≤◌, ◌≡◌, ◌↔◌, refl, ap, arith, true, false, some, none, [], ◌∷◌, ◌++◌, inl, length,
  take, ◌==◌, if◌then◌else◌,
}
use corpus.Prelude.Results.{ok, err}
use corpus.Agent.Spool.{Bytes, from_le_bytes}
use corpus.Server.Hash.{
  Text, Digests, sha256_hex, eq_ignore_ascii_case, to_ascii_lowercase, verify_upload, hex_to_raw,
}
use corpus.Server.Cas.{
  ObjectKey, Disk, whole, cut, move_into, move_over, io, read_object, commit, put_staging,
  put_object, discard_staging, object_key,
}
use corpus.Server.Cas.Put.{commit_cut_copy}
use corpus.Server.Classify.{pe, classify}
use corpus.Server.Classify.Signature.{IsPe, classify-IsPe}
use corpus.Server.Catalog.{
  OccurrenceInfo, UploadSession, Server, opened, find_artifact, find_session,
}
use corpus.Server.Ingest.Finalize.{finalize_selected}
use corpus.Server.Ingest.{
  Answers, AnnounceRequest, FinalizeRequest, FinalizeResponse, already_present, upload_required,
  hash_mismatch,
}
use corpus.Server.Ingest.Announce.{announce, stage_upload}
use corpus.Server.Ingest.Finalize.{finalize}
use corpus.Server.Ingest.Sound.{IsSound}
use corpus.Server.Ingest.Keeps.{finalize-IsSound, announce-IsSound, stage_upload-IsSound}
use corpus.Server.Ingest.Captured.{IsCaptured, finalize-IsCaptured}
use corpus.Server.Ingest.RoundTrip.{IsWorking, announce-stage_upload-finalize}
use corpus.Server.Ingest.Refused.{IsMismatch, finalize_refused, finalize-IsMismatch}
use corpus.Server.Fuzzy.{Digest, levenshtein, compare, strip_sequences}
use corpus.Server.Fuzzy.Distance.{edit_distance, onto, levenshtein-edit_distance}
use corpus.Server.Fuzzy.Score.{compare-IsScore, compare_same}
use corpus.Server.Fuzzy.Symmetry.{compare_comm}
use corpus.Server.Fuzzy.Total.{compare_total}

pub raise : Bytes → Text
raise [] = []
raise (b ∷ bs) = (b + 200) ∷ raise bs

pub lower : Text → Bytes
lower [] = []
lower (b ∷ bs) = (b - 200) ∷ lower bs

pub lower-raise :
    (raw : Bytes) (text : Text) → eq_ignore_ascii_case (raise raw) text ≡ true → lower text ≡ raw
unfolding raise lower eq_ignore_ascii_case to_ascii_lowercase
lower-raise [] [] h = refl
lower-raise [] (t ∷ text) h = cc
lower-raise (b ∷ raw) [] h = cc
lower-raise (b ∷ raw) (t ∷ text) h =
    let head : t - 200 ≡ b = ground (arith, h) in
    let rest = lower-raise raw text (ground (arith, h)) in rw (head, rest) refl

abbrev pub example_digests : Digests
example_digests = record {
  sha256_raw = λ bytes. length bytes ∷ [];
  encode = raise;
  decode = λ text. some (lower text);
  decode-encode = λ raw text h. ap (λ t. some t) (lower-raise raw text h);
}

abbrev empty_server : Server
empty_server = record {
  cas = record { staging = λ k. none; objects = λ t h. none };
  artifacts = [];
  sessions = [];
  occurrences = [];
  attempts = [];
}

empty-IsSound : IsSound example_digests empty_server
empty-IsSound = record {
  intact = λ t h b e. absurd (ground (arith, e));
  backed = tt;
  artifacts = tt;
  events = tt;
}

abbrev good_disk : Disk
good_disk = record { write = whole; create_dir = true; rename = true; copy = whole; remove = true }

abbrev good_answers : Answers
good_answers = record {
  now = 1000;
  fresh = 7;
  disk = good_disk;
  transaction = true;
  selects = true;
  forward_scan = some [];
}

abbrev three_bytes : Bytes
three_bytes = 35 ∷ 33 ∷ 47 ∷ []

abbrev event : OccurrenceInfo
event = record {
  host_name = "host";
  agent_id = 1;
  boot_id = 2;
  agent_sequence = 3;
  path = "/bin/x";
  observed_at = 900;
  file_size = 3;
  file_mtime = none;
  capture_reason = "baseline";
}

abbrev announcement : AnnounceRequest
announcement = record { sha256 = 203 ∷ []; size_bytes = 3; occurrence = some event }

abbrev completion : Text → FinalizeRequest
completion sha256 = record {
  upload_id = 7;
  sha256 = sha256;
  size_bytes = 3;
  occurrence = some event;
  scope = none;
  provenance = none;
}

-- The session of the announcement, and the staged bytes.
abbrev session : UploadSession
session = record {
  id = 7;
  tenant_id = 1;
  announced_sha256 = 3 ∷ [];
  announced_size = 3;
  state = opened;
  created_at = 1000;
}

abbrev staged : Server
staged = record empty_server {
  cas = record { staging = λ k. if k == 7 then some three_bytes else none; objects = λ t h. none };
  sessions = session ∷ [];
}

staged-IsSound : IsSound example_digests staged
staged-IsSound = record {
  intact = λ t h b e. absurd (ground (arith, e));
  backed = tt;
  artifacts = tt;
  events = tt;
}

working : IsWorking good_answers
working = record {
  write = refl;
  create_dir = refl;
  rename = refl;
  selects = refl;
  transaction = refl;
  matches = [];
  scanned = refl;
}

finalize-IsSound_example :
    IsSound example_digests
      (finalize example_digests good_answers 1 (completion (203 ∷ [])) staged).1
finalize-IsSound_example =
    finalize-IsSound example_digests good_answers 1 (completion (203 ∷ [])) staged (inl refl)
      staged-IsSound

announce-IsSound_example :
    IsSound example_digests (announce example_digests good_answers 1 announcement staged).1
announce-IsSound_example =
    announce-IsSound example_digests good_answers 1 announcement staged staged-IsSound

abbrev response : FinalizeResponse
response = record { artifact_id = 7; sha256 = 203 ∷ []; forward_matches = [] }

finalize-IsCaptured_example :
    IsCaptured example_digests 1
      (completion (203 ∷ []))
      staged
      response
      (finalize example_digests good_answers 1 (completion (203 ∷ [])) staged).1
unfolding raise finalize finalize_selected find_session sha256_hex verify_upload
    eq_ignore_ascii_case to_ascii_lowercase commit move_into move_over put_staging put_object
    discard_staging find_artifact object_key hex_to_raw
finalize-IsCaptured_example =
    finalize-IsCaptured example_digests good_answers 1 (completion (203 ∷ [])) staged response refl

finalize-IsMismatch_example :
    IsMismatch example_digests 1
      (completion (204 ∷ []))
      staged
      three_bytes
      (finalize example_digests good_answers 1 (completion (204 ∷ [])) staged)
unfolding raise find_session sha256_hex eq_ignore_ascii_case to_ascii_lowercase
finalize-IsMismatch_example =
    finalize-IsMismatch example_digests good_answers 1 (completion (204 ∷ [])) staged session
      three_bytes refl refl refl refl refl refl refl

finalize_refused_example :
    ((finalize example_digests good_answers 1 (completion (204 ∷ [])) staged).1.artifacts ≡ [])
    × ((finalize example_digests good_answers 1 (completion (204 ∷ [])) staged).1.occurrences ≡ [])
unfolding raise finalize finalize_selected find_session sha256_hex verify_upload
    eq_ignore_ascii_case to_ascii_lowercase commit move_into move_over put_staging put_object
    discard_staging find_artifact object_key hex_to_raw
finalize_refused_example =
    finalize_refused example_digests good_answers 1 (completion (204 ∷ [])) staged
      (hash_mismatch (record { announced = 204 ∷ []; recomputed = 203 ∷ [] })) refl refl

announce-stage_upload-finalize_example :
    let first = announce example_digests good_answers 1 announcement empty_server in
    let second = stage_upload example_digests good_answers 1 7 three_bytes first.1 in
    (first.0 ≡ ok (upload_required 7))
    × (second.0 ≡ ok tt)
    × ((resp : FinalizeResponse) × ((finalize example_digests good_answers 1
            (completion (203 ∷ []))
            second.1).0
          ≡ ok resp)
        × ((announce example_digests good_answers 1 announcement
              (finalize example_digests good_answers 1 (completion (203 ∷ [])) second.1).1).0
            ≡ ok (already_present resp.artifact_id)))
unfolding raise sha256_hex eq_ignore_ascii_case to_ascii_lowercase find_artifact
announce-stage_upload-finalize_example =
    announce-stage_upload-finalize example_digests good_answers 1 three_bytes announcement
      (completion (203 ∷ [])) empty_server working refl refl refl refl refl refl

abbrev cut_disk : Disk
cut_disk = record { write = whole; create_dir = true; rename = false; copy = cut 2; remove = true }

abbrev one_key : ObjectKey
one_key = record { tenant_id = 1; sha256 = 203 ∷ [] }

commit_cut_copy_example :
    let first = commit cut_disk 7 one_key staged.cas in
    let second = commit good_disk 8 one_key first.1 in
    (first.0 ≡ err io)
    × (second.0 ≡ ok tt)
    × (read_object one_key second.1 ≡ some (take 2 three_bytes))
commit_cut_copy_example =
    commit_cut_copy cut_disk good_disk 2 7 8 one_key three_bytes staged.cas refl refl refl refl refl

abbrev zeros : ℕ → Bytes
zeros ℕ.zero = []
zeros (ℕ.suc n) = 0 ∷ zeros n

-- The smallest PE: the signature is at 64, right behind the field that says so.
abbrev pe_file : Bytes
pe_file = 77 ∷ 90 ∷ (zeros 58 ++ 64 ∷ 0 ∷ 0 ∷ 0 ∷ 80 ∷ 69 ∷ 0 ∷ 0 ∷ [])

pe_file_class : classify pe_file ≡ pe
unfolding classify from_le_bytes
pe_file_class = refl

classify-IsPe_example : (classify pe_file ≡ pe) ↔ IsPe pe_file
classify-IsPe_example = classify-IsPe pe_file

levenshtein-edit_distance_example :
    levenshtein (1 ∷ 2 ∷ 3 ∷ []) (1 ∷ 3 ∷ 4 ∷ 5 ∷ [])
    ≡ edit_distance (onto (1 ∷ 2 ∷ 3 ∷ []) []) (onto (1 ∷ 3 ∷ 4 ∷ 5 ∷ []) [])
levenshtein-edit_distance_example = levenshtein-edit_distance (1 ∷ 2 ∷ 3 ∷ []) (1 ∷ 3 ∷ 4 ∷ 5 ∷ [])

three_edits : levenshtein (1 ∷ 2 ∷ 3 ∷ []) (1 ∷ 3 ∷ 4 ∷ 5 ∷ []) ≡ 3
unfolding levenshtein
three_edits = refl

-- The two halves have a common part of eight bytes.
abbrev digest_a : Digest
digest_a = record {
  block_size = 96;
  first = 1 ∷ 2 ∷ 3 ∷ 4 ∷ 5 ∷ 6 ∷ 7 ∷ 8 ∷ 9 ∷ [];
  second = 1 ∷ 2 ∷ [];
}

abbrev digest_b : Digest
digest_b = record {
  block_size = 96;
  first = 1 ∷ 2 ∷ 3 ∷ 4 ∷ 5 ∷ 6 ∷ 7 ∷ 8 ∷ 8 ∷ [];
  second = 1 ∷ 2 ∷ [];
}

compare_comm_example :
    compare (some digest_a) (some digest_b) ≡ compare (some digest_b) (some digest_a)
compare_comm_example = compare_comm digest_a digest_b (omega arith) (omega arith)
