-- ===== src/Lib.antt =====
-- Corpus: the endpoint agent that captures files, and the control plane's store that receives them.
--
-- The agent (crates/corpus-agent) keeps a queue of candidate files in an SQLite database. A worker
-- leases the row that is due first, copies the file into the spool with a check that it did not change,
-- announces its digest to the server, uploads the bytes if they are wanted, and finalizes. What cannot be
-- captured becomes a gap, which a second task reports. The server (crates/corpus-core) keeps staged
-- bytes, objects named by tenant and digest, and the rows of artifacts, upload sessions, occurrences and
-- capture attempts.
--
-- Agent.Spool        crates/corpus-agent/src/spool_crypto.rs: chunk_nonce, encrypt_chunk, decrypt_chunk,
--                    decrypt_file; `frame` is what the copy loop of stable_read.rs writes for one chunk.
-- Agent.StableRead   stable_read.rs: read_once, stable_read, create_spool_file, map_open_err. The answers
--                    of the operating system to one attempt are the record `Attempt`.
-- Agent.State        state.rs: `StateDb` has the tables as lists, one function for each statement;
--                    a statement is what it does where it goes through, and Capture lets it fail.
--                    Identity also has main.rs: refresh_boot_identity; Queue the leases; Gaps also
--                    main.rs: gap_flusher and heartbeat.rs: send_once.
-- Agent.Capture      capture.rs: process_candidate, cut at its phases (Reading, Uploading), and
--                    worker_loop's treatment of one lease. An action is a function of the world: database,
--                    spool directory, requests sent, and which of the next statements go through.
-- Agent.Sensors      sensors/rdcw_parse.rs: parse_notify_records; sensors/usn.rs: parse_journal_data,
--                    plan_resume, parse_usn_records.
-- Server.Hash, Cas   crates/corpus-core/src/hash.rs: verify_upload; cas.rs: the file system backend.
-- Server.Classify    classify.rs: classify.
-- Server.Catalog     the tables of migrations/0001_init.sql that the ingest writes.
-- Server.Ingest      ingest.rs: announce, stage_upload, finalize.
-- Server.Hunts       hunts.rs, with what it calls of scan.rs, registry.rs, detect.rs and triggers.rs: `Store`
--                    has the tables as lists and the scan cache as a map; Actions are sequences of
--                    statements, of which each may fail; Queue has create_hunt, enqueue_hunt and
--                    claim_next_job; Scan the cache's key and the outcome of a scan; Run execute_hunt;
--                    Forward forward_scan. Stable, Sound, Replay, Complete, Queue.Claims,
--                    Queue.Stuck and Forward.Again are proofs about them.
-- Server.Rules       rules.rs: parse_rule_name with strip_comments, and bundle_digest.
-- Server.Triggers    triggers.rs: deliver_pending, one sweep over the outbox, and hmac_signature; Settle,
--                    Sweep and Posted are the proofs. `fire` is with the hunts.
-- Server.Lsh         similarity/lsh.rs: band_keys, store_bands and candidates.
-- Server.Fuzzy       similarity/fuzzy.rs: fuzzy_hash (Fuzzy.Hash) and compare with what they
--                    call, and the texts of digests (Fuzzy.Text).
-- The modules Examples have the concrete values at which the theorems are applied.
--
-- Fuel. fuzzy_hash allows as many doublings of the block size as the file has bytes, each of which
-- adds to it, and as many halvings as the block size. decrypt_file allows as many rounds as the file
-- has bytes, and each round takes one at least. The two parsers of the sensors allow as many rounds
-- as the buffer has bytes, and each record takes twelve, or sixty.
--
-- Parameters. SHA-256, the hex codec, the AEAD, decimal texts, RFC 3339 times, UTF-16 and the test
-- of UTF-8 are arguments, with what the code relies on in the records `Digests`, `Cipher`, `Decimal`
-- and `Numbers`; so is the JSON parser of a gap's detail. The YARA compiler, the scanner with its
-- sandbox, and the answer of each statement of a worker, of a hunt or of a sweep are arguments too. The clock, fresh ids, the disk, the database's commits and
-- the other side's responses are values.
--
-- Not modelled: the calls of operating systems and of HTTP, several calls at one time (a call of the
-- hunts is one step, whose statements may fail), 64-bit bounds of times and counters, the labels of
-- detections, the publication of bundles, the validation of triggers, continuous analysis, the edges
-- and groups of similarity and their lifecycle, semantic similarity, tenants and their
-- authentication, and the front ends.
pub mod Prelude
pub mod Agent
pub mod Server
