-- ===== src/Server/Hunts/Sound.antt =====
-- The invariant of the hunts: what stands behind a match.
pub mod Steps
pub mod Loop
pub mod Calls
pub mod Reach
use corpus.Prelude.{
  ℕ, ◌≡◌, refl, sym, ◌∙◌, arith, Bool, true, false, ◌&&◌, Bool-cases, Option-cases, ◌⊎◌, inl, inr,
  Option, none, some, String, List, [], ◌∷◌, ◌++◌, ◌==◌, if◌then◌else◌, find?, any,
}
use corpus.Agent.Spool.{Bytes}
use corpus.Server.Hunts.{
  HuntRow, ScanCacheKey, CacheEntry, matched, HuntMatch, StoredArtifact, Store, is_hunt,
  update_hunts, update_hunt, same_key, commit_cache_entry, same_match, commit_match,
}
use corpus.Server.Hunts.Stable.{IsQuiet}
use corpus.Server.Hunts.Scan.{Config, scan_cache_key}

module _ {A : Type 0} where
  abbrev pub In : A → List A → Type 0
  In a [] = ⊥
  In a (b ∷ rows) = (a ≡ b) ⊎ In a rows

-- The bundle that a hunt is bound to.
unfoldable pub digest_of : ℕ → ℕ → List HuntRow → Option String
digest_of tenant_id id [] = none
digest_of tenant_id id (h ∷ rows) =
    let rest = digest_of tenant_id id rows in
    if is_hunt tenant_id id h then some h.bundle_digest else rest

-- What may have changed in the tables that a match rests on.
pub record Grows (s s' : Store) : Type 0 where
  pub artifacts : (a : StoredArtifact) → In a s.artifacts → In a s'.artifacts
  pub digests :
      (t id : ℕ) (d : String) → digest_of t id s.hunts ≡ some d → digest_of t id s'.hunts ≡ some d
  pub cache : (k : ScanCacheKey) (e : CacheEntry) → s.cache k ≡ some e → s'.cache k ≡ some e

pub Grows-refl : (s : Store) → Grows s s
Grows-refl s = record { artifacts = λ a i. i; digests = λ t id d e. e; cache = λ k e h. h }

pub Grows-trans : {s t u : Store} → Grows s t → Grows t u → Grows s u
Grows-trans f g = record {
  artifacts = λ a i. g.artifacts a (f.artifacts a i);
  digests = λ t id d e. g.digests t id d (f.digests t id d e);
  cache = λ k e h. g.cache k e (f.cache k e h);
}

module _ (c : Config) where
  -- The tenant has the artifact, the hunt is bound to a bundle, and the cached scan of the one by
  -- the other matched the rule.
  pub record IsJustified (s : Store) (m : HuntMatch) : Type 0 where
    pub artifact : StoredArtifact
    pub stored : In artifact s.artifacts
    pub owned : artifact.tenant_id ≡ m.tenant_id
    pub ident : artifact.id ≡ m.artifact_id
    pub digest : String
    pub bound : digest_of m.tenant_id m.hunt_id s.hunts ≡ some digest
    pub entry : CacheEntry
    pub scanned : s.cache (scan_cache_key c m.tenant_id artifact.sha256 digest) ≡ some entry
    pub status : entry.status ≡ matched
    pub rule : In m.rule_id entry.matched_rule_ids

  pub record IsSound (s : Store) : Type 0 where
    pub matches : (m : HuntMatch) → In m s.matches → IsJustified s m

  pub Grows-IsJustified :
      {s s' : Store} {m : HuntMatch} → Grows s s' → IsJustified s m → IsJustified s' m
  Grows-IsJustified g j = record {
    artifact = j.artifact;
    stored = g.artifacts _ j.stored;
    owned = j.owned;
    ident = j.ident;
    digest = j.digest;
    bound = g.digests _ _ _ j.bound;
    entry = j.entry;
    scanned = g.cache _ _ j.scanned;
    status = j.status;
    rule = j.rule;
  }

  pub Grows-IsSound : {s s' : Store} → Grows s s' → s'.matches ≡ s.matches → IsSound s → IsSound s'
  Grows-IsSound {s} g same h = record {
    matches = λ m i. Grows-IsJustified g (h.matches m (rw (← same) i));
  }

  -- A match that is justified may be committed.
  pub commit_match-IsSound :
      (m : HuntMatch) (s : Store) → IsSound s → IsJustified s m → IsSound (commit_match m s)
  unfolding commit_match
  commit_match-IsSound m s h j = elim (Bool-cases (any (same_match m) s.matches)) [
    | inl old ↦ rw old h
    | inr new ↦ rw new (record {
      matches = λ n i. elim i [
        | inl e ↦ rw e (Grows-IsJustified (step _) j)
        | inr i' ↦ Grows-IsJustified (step _) (h.matches n i')
      ];
    })
  ]
    where
      step : (ms : List HuntMatch) → Grows s (record s { matches = ms })
      step ms = record { artifacts = λ a i. i; digests = λ t id d e. e; cache = λ k e h'. h' }

pub commit_match-Grows : (m : HuntMatch) (s : Store) → Grows s (commit_match m s)
unfolding commit_match
commit_match-Grows m s = elim (Bool-cases (any (same_match m) s.matches)) [
  | inl old ↦ rw old (Grows-refl s)
  | inr new ↦ rw new (record { artifacts = λ a i. i; digests = λ t id d e. e; cache = λ k e h. h })
]

digest_of-update_hunts :
    (f : HuntRow → HuntRow) (t' id' t id : ℕ) (rows : List HuntRow)
    → IsQuiet f
    → digest_of t id (update_hunts f t' id' rows) ≡ digest_of t id rows
unfolding digest_of update_hunts is_hunt
digest_of-update_hunts f t' id' t id [] q = refl
digest_of-update_hunts f t' id' t id (h ∷ rows) q =
    ground (arith, digest_of-update_hunts f t' id' t id rows q, q.id h, q.tenant_id h, q.digest h)

-- The row that is found has the digest.
pub digest_of_found :
    (t id : ℕ) (rows : List HuntRow) (h : HuntRow)
    → find? (is_hunt t id) rows ≡ some h
    → digest_of t id rows ≡ some h.bundle_digest
unfolding digest_of
digest_of_found t id [] h e = ground (arith, e)
digest_of_found t id (g ∷ rows) h e = elim (Bool-cases (is_hunt t id g)) [
  | inl found ↦ let same : g ≡ h = ground (arith, found, e) in rw (found, same) refl
  | inr other ↦ rw other (digest_of_found t id rows h (ground (arith, other, e)))
]

-- A new hunt stands last, behind all that there are.
pub digest_of-append :
    (t id : ℕ) (rows new : List HuntRow) (d : String)
    → digest_of t id rows ≡ some d
    → digest_of t id (rows ++ new) ≡ some d
unfolding digest_of
digest_of-append t id [] new d e = ground (arith, e)
digest_of-append t id (h ∷ rows) new d e = ground (arith, digest_of-append t id rows new d, e)

pub update_hunt-Grows :
    (f : HuntRow → HuntRow) (t' id' : ℕ) (s : Store) → IsQuiet f → Grows s (update_hunt f t' id' s)
unfolding update_hunt
update_hunt-Grows f t' id' s q = record {
  artifacts = λ a i. i;
  digests = λ t id d e. digest_of-update_hunts f t' id' t id s.hunts q ∙ e;
  cache = λ k e h. h;
}

pub commit_cache_entry-Grows :
    (key : ScanCacheKey) (entry : CacheEntry) (s : Store) → Grows s (commit_cache_entry key entry s)
unfolding commit_cache_entry
commit_cache_entry-Grows key entry s = record {
  artifacts = λ a i. i;
  digests = λ t id d e. e;
  cache = λ k e h. rw h refl;
}
