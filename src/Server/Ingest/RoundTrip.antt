-- ===== src/Server/Ingest/RoundTrip.antt =====
-- The protocol from the announcement to the dedup hit.
use mathlib.Core.Path.{subst}
use corpus.Prelude.{
  ℕ, ◌≡◌, refl, sym, ◌∙◌, arith, true, ◌||◌, inl, inr, Option-cases, some, none, List, ◌∷◌, String,
  length, ◌==◌, str_eq,
}
use corpus.Prelude.Results.{ok}
use corpus.Agent.Spool.{Bytes}
use corpus.Server.Hash.{Digests, sha256_hex, eq_ignore_ascii_case, hex_to_raw, verify_upload}
use corpus.Server.Cas.{
  FsCas, ObjectKey, object_key, Disk, whole, read_object, stage, move_over, move_into, commit,
  put_staging,
}
use corpus.Server.Catalog.{Artifact, UploadSession, Server, opened, find_artifact, find_session}
use corpus.Server.Ingest.Finalize.{finalize_selected}
use corpus.Server.Ingest.Announce.{announce_selected, stage_selected}
use corpus.Server.Ingest.{
  AnnounceRequest, already_present, upload_required, FinalizeRequest, FinalizeResponse, Answers,
}
use corpus.Server.Ingest.Finalize.{
  capture_rows, answer_captured, capture, scope_of, capture_in_scope, finalize_bytes,
  finalize_in_state, finalize,
}
use corpus.Prelude.{==_refl}
use corpus.Server.Ingest.Announce.{
  record_present, open_session, announce, stage_in_state, stage_upload,
}
use corpus.Server.Ingest.Captured.{finalize-IsCaptured}

some_inj : {A : Type 0} {x y : A} → some x ≡ some y → x ≡ y
some_inj h = cc

-- Every call of the disk and of the database goes through.
pub record IsWorking (ans : Answers) : Type 0 where
  pub write : ans.disk.write ≡ whole
  pub create_dir : ans.disk.create_dir ≡ true
  pub rename : ans.disk.rename ≡ true
  pub selects : ans.selects ≡ true
  pub transaction : ans.transaction ≡ true
  pub matches : List String
  pub scanned : ans.forward_scan ≡ some matches

commit_done :
    (disk : Disk) (key : ℕ) (dest : ObjectKey) (bytes : Bytes) (cas : FsCas)
    → disk.create_dir ≡ true
    → disk.rename ≡ true
    → cas.staging key ≡ some bytes
    → (commit disk key dest cas).0 ≡ ok tt
unfolding commit move_into move_over
commit_done disk key dest bytes cas made ren staged = elim (Option-cases (read_object dest cas)) [
  | inl free ↦ rw (free, made, staged, ren, commit, move_into, move_over) refl
  | inr (b, present) ↦ rw (present, commit) refl
]

module _ (d : Digests) (ans : Answers) (tenant_id : ℕ) where
  -- The answers of a `finalize` with nothing against it.
  pub finalize_done :
      (req : FinalizeRequest) (session : UploadSession) (bytes : Bytes) (s : Server)
      → IsWorking ans
      → find_session req.upload_id tenant_id s.sessions ≡ some session
      → session.state ≡ opened
      → s.cas.staging req.upload_id ≡ some bytes
      → length bytes ≡ req.size_bytes
      → eq_ignore_ascii_case (sha256_hex d bytes) req.sha256 ≡ true
      → (str_eq (scope_of d ans tenant_id req) "endpoint"
          || str_eq (scope_of d ans tenant_id req) "intel")
        ≡ true
      → (resp : FinalizeResponse) × ((finalize d ans tenant_id req s).0 ≡ ok resp)
  unfolding finalize finalize_selected finalize_in_state finalize_bytes verify_upload
      capture_in_scope capture answer_captured
  finalize_done req session bytes s w found state staged size same scope =
      let key = object_key tenant_id (d.encode (d.sha256_raw bytes)) in
      let done = commit_done ans.disk req.upload_id key bytes s.cas w.create_dir w.rename staged in
      let sized : (length bytes == req.size_bytes) ≡ true = ground (arith, size) in
      let stored = record s { cas = (commit ans.disk req.upload_id key s.cas).1 } in
      (
        record {
          artifact_id =
              (capture_rows d ans tenant_id req (scope_of d ans tenant_id req) bytes
                (d.sha256_raw bytes) stored).0;
          sha256 = d.encode (d.sha256_raw bytes);
          forward_matches = w.matches;
        },
        rw
            (
              w.selects, found, state, staged, sized, same, scope, done, w.transaction, w.scanned,
              finalize, finalize_selected, finalize_in_state, finalize_bytes, verify_upload,
              capture_in_scope, capture, answer_captured,
            )
            refl,
      )

  announce_present :
      (req : AnnounceRequest) (a : Artifact) (raw : Bytes) (s : Server)
      → ans.selects ≡ true
      → ans.transaction ≡ true
      → eq_ignore_ascii_case (d.encode raw) req.sha256 ≡ true
      → find_artifact tenant_id raw s.artifacts ≡ some a
      → (announce d ans tenant_id req s).0 ≡ ok (already_present a.id)
  unfolding announce announce_selected record_present hex_to_raw
  announce_present req a raw s reads commits same found =
      rw
        (
          d.decode-encode raw req.sha256 same,
          found,
          reads,
          commits,
          announce,
          announce_selected,
          record_present,
        )
        refl

  -- The session that an announcement opens, and the store after the staging.
  abbrev opened_session : AnnounceRequest → Bytes → UploadSession
  opened_session req raw = record {
    id = ans.fresh;
    tenant_id = tenant_id;
    announced_sha256 = raw;
    announced_size = req.size_bytes;
    state = opened;
    created_at = ans.now;
  }

  abbrev announced_server : AnnounceRequest → Bytes → Server → Server
  announced_server req raw s = record s { sessions = opened_session req raw ∷ s.sessions }

  abbrev staged_server : AnnounceRequest → Bytes → Bytes → Server → Server
  staged_server req raw bytes s = record (announced_server req raw s) {
    cas = put_staging ans.fresh (some bytes) s.cas;
  }

  announce_new :
      (req : AnnounceRequest) (raw : Bytes) (s : Server)
      → ans.selects ≡ true
      → ans.transaction ≡ true
      → d.decode req.sha256 ≡ some raw
      → find_artifact tenant_id raw s.artifacts ≡ none
      → announce d ans tenant_id req s
        ≡ (ok (upload_required ans.fresh), announced_server req raw s)
  unfolding announce announce_selected hex_to_raw open_session
  announce_new req raw s reads commits read new =
      rw (read, new, reads, commits, announce, announce_selected, open_session) refl

  found_session :
      (req : AnnounceRequest) (raw : Bytes) (rows : List UploadSession)
      → find_session ans.fresh tenant_id (opened_session req raw ∷ rows)
        ≡ some (opened_session req raw)
  unfolding find_session
  found_session req raw rows = rw (==_refl ans.fresh, ==_refl tenant_id) refl

  staged_new :
      (req : AnnounceRequest) (raw bytes : Bytes) (s : Server)
      → ans.selects ≡ true
      → ans.disk.write ≡ whole
      → stage_upload d ans tenant_id ans.fresh bytes (announced_server req raw s)
        ≡ (ok tt, staged_server req raw bytes s)
  unfolding stage_upload stage_selected stage_in_state stage
  staged_new req raw bytes s reads written =
      rw (reads, found_session req raw s.sessions, stage_upload, stage_selected)
        (rw (written, stage) refl)

  staged_file :
      (bytes : Bytes) (cas : FsCas)
      → (put_staging ans.fresh (some bytes) cas).staging ans.fresh ≡ some bytes
  unfolding put_staging
  staged_file bytes cas = rw (==_refl ans.fresh) refl

  module _ (bytes : Bytes) (req : AnnounceRequest) (fin : FinalizeRequest) where
    -- What the third call answers, and the fourth after it.
    abbrev IsAnswered : Server → Type 0
    IsAnswered s =
        (resp : FinalizeResponse) × ((finalize d ans tenant_id fin s).0 ≡ ok resp)
        × ((announce d ans tenant_id req (finalize d ans tenant_id fin s).1).0
            ≡ ok (already_present resp.artifact_id))

    answered :
        (s : Server)
        → IsWorking ans
        → eq_ignore_ascii_case (sha256_hex d bytes) req.sha256 ≡ true
        → fin.upload_id ≡ ans.fresh
        → fin.sha256 ≡ req.sha256
        → length bytes ≡ fin.size_bytes
        → (str_eq (scope_of d ans tenant_id fin) "endpoint"
            || str_eq (scope_of d ans tenant_id fin) "intel")
          ≡ true
        → IsAnswered (staged_server req (d.sha256_raw bytes) bytes s)
    unfolding sha256_hex
    answered s w same id text size scope =
        let raw = d.sha256_raw bytes in
        let s2 = staged_server req raw bytes s in
        let staged : s2.cas.staging fin.upload_id ≡ some bytes =
          subst (λ i. s2.cas.staging i ≡ some bytes) (sym id) (staged_file bytes s.cas) in
        let (resp, done) =
          finalize_done fin (opened_session req raw) bytes s2 w
            (subst (λ i. find_session i tenant_id s2.sessions ≡ some (opened_session req raw))
              (sym id) (found_session req raw s.sessions))
            refl staged size
            (subst (λ t. eq_ignore_ascii_case (sha256_hex d bytes) t ≡ true) (sym text) same)
            scope in
        let facts = finalize-IsCaptured d ans tenant_id fin s2 resp done in
        let (a, found, numbered) = facts.artifact in
        let own : facts.bytes ≡ bytes = some_inj (sym facts.staged ∙ staged) in
        let there : find_artifact tenant_id raw (finalize d ans tenant_id fin s2).1.artifacts
            ≡ some a =
          subst
            (λ b.
              find_artifact tenant_id (d.sha256_raw b) (finalize d ans tenant_id fin s2).1.artifacts
              ≡ some a)
            own found in
        (
          resp,
          done,
          subst
              (λ n.
                (announce d ans tenant_id req (finalize d ans tenant_id fin s2).1).0
                ≡ ok (already_present n))
              numbered (announce_present req a raw _ w.selects w.transaction same there),
        )

    -- When nothing fails, bytes that the tenant does not have are announced as required, staged under
    -- the new session, and captured by a `finalize` with the announced digest, up to case, and the
    -- size of the bytes; and the same announcement is a dedup hit on their artifact from then on.
    pub announce-stage_upload-finalize :
        (s : Server)
        → IsWorking ans
        → eq_ignore_ascii_case (sha256_hex d bytes) req.sha256 ≡ true
        → find_artifact tenant_id (d.sha256_raw bytes) s.artifacts ≡ none
        → fin.upload_id ≡ ans.fresh
        → fin.sha256 ≡ req.sha256
        → length bytes ≡ fin.size_bytes
        → (str_eq (scope_of d ans tenant_id fin) "endpoint"
            || str_eq (scope_of d ans tenant_id fin) "intel")
          ≡ true
        → let first = announce d ans tenant_id req s in
          let second = stage_upload d ans tenant_id ans.fresh bytes first.1 in
          (first.0 ≡ ok (upload_required ans.fresh)) × (second.0 ≡ ok tt) × IsAnswered second.1
    unfolding sha256_hex
    announce-stage_upload-finalize s w same new id text size scope =
        let raw = d.sha256_raw bytes in
        let one =
          announce_new req raw s w.selects w.transaction (d.decode-encode raw req.sha256 same)
            new in
        let two = staged_new req raw bytes s w.selects w.write in
        let rest = answered s w same id text size scope in
        let tail = subst (λ b. (b.0 ≡ ok tt) × IsAnswered b.1) (sym two) (refl, rest) in
        subst
          (λ a.
            (a.0 ≡ ok (upload_required ans.fresh))
            × ((stage_upload d ans tenant_id ans.fresh bytes a.1).0 ≡ ok tt)
            × IsAnswered (stage_upload d ans tenant_id ans.fresh bytes a.1).1)
          (sym one) (refl, tail.0, tail.1)
