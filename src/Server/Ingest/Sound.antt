-- ===== src/Server/Ingest/Sound.antt =====
-- The invariant of the store and the catalog.
use mathlib.Core.Path.{subst}
use corpus.Prelude.{
  ℕ, ◌≡◌, refl, sym, ◌∙◌, ap, arith, Bool, false, inl, inr, Bool-cases, Option-cases, Option, some,
  none, List, [], ◌∷◌, String, All, any, find?,
}
use corpus.Agent.Spool.{Bytes}
use corpus.Server.Hash.{Text, Digests, sha256_hex}
use corpus.Server.Cas.{FsCas, ObjectKey, object_key}
use corpus.Server.Cas.Put.{IsGrown}
use corpus.Server.Classify.{classify}
use corpus.Server.Catalog.{
  OccurrenceInfo, Artifact, OccurrenceEvent, Server, is_artifact, find_artifact, same_event,
  insert_event,
}
use corpus.Server.Ingest.{FinalizeRequest, Answers, insert_capture_attempt, insert_occurrence}
use corpus.Server.Ingest.Finalize.{insert_artifact, capture_rows}

-- No two rows have one key.
abbrev pub IsUnique : (Artifact → Artifact → Bool) → List Artifact → Type 0
IsUnique same [] = Unit
IsUnique same (a ∷ rows) = All (λ b. same a b ≡ false) rows × IsUnique same rows

abbrev pub same_digest : Artifact → Artifact → Bool
same_digest a b = is_artifact a.tenant_id a.sha256 b

abbrev pub IsUniqueEvents : List OccurrenceEvent → Type 0
IsUniqueEvents [] = Unit
IsUniqueEvents (e ∷ rows) = All (λ f. same_event e f ≡ false) rows × IsUniqueEvents rows

-- There is an object of the artifact's digest in its tenant's tree.
abbrev pub HasObject : Digests → FsCas → Artifact → Type 0
HasObject d cas a = (b : Bytes) × (cas.objects a.tenant_id (d.encode a.sha256) ≡ some b)

-- Every object has the digest that it is named by.
abbrev pub IsIntact : Digests → FsCas → Type 0
IsIntact d cas = (t : ℕ) (h : Text) (b : Bytes) → cas.objects t h ≡ some b → sha256_hex d b ≡ h

pub record IsSound (d : Digests) (s : Server) : Type 0 where
  pub intact : IsIntact d s.cas
  pub backed : All (HasObject d s.cas) s.artifacts
  pub artifacts : IsUnique same_digest s.artifacts
  pub events : IsUniqueEvents s.occurrences

pub All-imp :
    {A : Type 0} (P Q : A → Type 0) (xs : List A) → ((x : A) → P x → Q x) → All P xs → All Q xs
All-imp P Q [] f h = tt
All-imp P Q (x ∷ xs) f h = (f x h.0, All-imp P Q xs f h.1)

pub any-false :
    {A : Type 0} (p : A → Bool) (xs : List A) → any p xs ≡ false → All (λ x. p x ≡ false) xs
any-false p [] h = tt
any-false p (x ∷ xs) h = (ground (arith, h), any-false p xs (ground (arith, h)))

pub find_none :
    {A : Type 0} (p : A → Bool) (xs : List A) → find? p xs ≡ none → All (λ x. p x ≡ false) xs
find_none p [] h = tt
find_none p (x ∷ xs) h = (ground (arith, h), find_none p xs (ground (arith, h)))

-- An insert keeps the unique keys.
pub insert_event-IsUniqueEvents :
    (e : OccurrenceEvent) (rows : List OccurrenceEvent)
    → IsUniqueEvents rows
    → IsUniqueEvents (insert_event e rows)
unfolding insert_event
insert_event-IsUniqueEvents e rows h = elim (Bool-cases (any (same_event e) rows)) [
  | inl there ↦ rw (there, insert_event) h
  | inr new ↦ rw (new, insert_event) (any-false (same_event e) rows new, h)
]

some_inj : {A : Type 0} {x y : A} → some x ≡ some y → x ≡ y
some_inj h = cc

module _ (d : Digests) where
  -- Objects only grow, by one that has its own digest.
  grown-IsIntact :
      (key : ObjectKey) (bytes : Bytes) (cas cas' : FsCas)
      → IsGrown key bytes cas cas'
      → sha256_hex d bytes ≡ key.sha256
      → IsIntact d cas
      → IsIntact d cas'
  grown-IsIntact key bytes cas cas' g digest intact t h b e = elim (g.kept t h) [
    | inl same ↦ intact t h b (sym same ∙ e)
    | inr (free, tenant, name, new) ↦
        let same : b ≡ bytes = some_inj (sym e ∙ new) in ap (sha256_hex d) same ∙ digest ∙ sym name
  ]

  grown-HasObject :
      (key : ObjectKey) (bytes : Bytes) (cas cas' : FsCas) (a : Artifact)
      → IsGrown key bytes cas cas'
      → HasObject d cas a
      → HasObject d cas' a
  grown-HasObject key bytes cas cas' a g (b, there) =
      elim (g.kept a.tenant_id (d.encode a.sha256)) [
        | inl same ↦ (b, same ∙ there)
        | inr (free, _, _, _) ↦ absurd (ground (arith, sym free ∙ there))
      ]

  -- The sessions, the attempts and the staging files do not matter.
  pub carry-IsSound :
      (s s' : Server)
      → s'.cas.objects ≡ s.cas.objects
      → s'.artifacts ≡ s.artifacts
      → s'.occurrences ≡ s.occurrences
      → IsSound d s
      → IsSound d s'
  carry-IsSound s s' objects artifacts events h = record {
    intact =
        λ t n b e. h.intact t n b (ap (λ (f : ℕ → Text → Option Bytes). f t n) (sym objects) ∙ e);
    backed = subst (All (HasObject d s'.cas)) (sym artifacts) (
        All-imp _ _ s.artifacts
          (λ a (b, e). (
            b,
            ap (λ (f : ℕ → Text → Option Bytes). f a.tenant_id (d.encode a.sha256)) objects ∙ e,
          ))
          h.backed);
    artifacts = subst (IsUnique same_digest) (sym artifacts) h.artifacts;
    events = subst IsUniqueEvents (sym events) h.events;
  }

  pub grown-IsSound :
      (s : Server) (key : ObjectKey) (bytes : Bytes) (cas' : FsCas)
      → IsGrown key bytes s.cas cas'
      → sha256_hex d bytes ≡ key.sha256
      → IsSound d s
      → IsSound d (record s { cas = cas' })
  grown-IsSound s key bytes cas' g digest h = record {
    intact = grown-IsIntact key bytes s.cas cas' g digest h.intact;
    backed =
        All-imp _ _ s.artifacts (λ a there. grown-HasObject key bytes s.cas cas' a g there)
          h.backed;
    artifacts = h.artifacts;
    events = h.events;
  }

  insert_artifact-IsSound :
      (ans : Answers) (tenant_id : ℕ) (a : Artifact) (s : Server)
      → HasObject d s.cas a
      → IsSound d s
      → IsSound d (record s { artifacts = (insert_artifact d ans tenant_id a s.artifacts).1 })
  unfolding insert_artifact find_artifact
  insert_artifact-IsSound ans tenant_id a s there h =
      elim (Option-cases (find_artifact a.tenant_id a.sha256 s.artifacts)) [
        | inr (old, found) ↦ rw (found, insert_artifact) h
        | inl new ↦
            rw (new, insert_artifact)
              (record {
                intact = h.intact;
                backed = (there, h.backed);
                artifacts =
                    (find_none (is_artifact a.tenant_id a.sha256) s.artifacts new, h.artifacts);
                events = h.events;
              })
      ]

  pub insert_occurrence-IsSound :
      (now tenant_id artifact_id : ℕ) (sha256 : Bytes) (occ : Option OccurrenceInfo) (s : Server)
      → IsSound d s
      → IsSound d (insert_occurrence now tenant_id artifact_id sha256 occ s)
  unfolding insert_occurrence
  insert_occurrence-IsSound now tenant_id artifact_id sha256 none s h =
      carry-IsSound s _ refl refl refl h
  insert_occurrence-IsSound now tenant_id artifact_id sha256 (some occ) s h = record {
    intact = h.intact;
    backed = h.backed;
    artifacts = h.artifacts;
    events = insert_event-IsUniqueEvents _ s.occurrences h.events;
  }

  module _ (ans : Answers) (tenant_id : ℕ) (req : FinalizeRequest) where
    pub capture_rows-IsSound :
        (scope : String) (bytes sha_raw : Bytes) (s : Server)
        → (b : Bytes) × (s.cas.objects tenant_id (d.encode sha_raw) ≡ some b)
        → IsSound d s
        → IsSound d (capture_rows d ans tenant_id req scope bytes sha_raw s).1
    unfolding capture_rows insert_capture_attempt
    capture_rows-IsSound scope bytes sha_raw s there h =
        let stored =
          insert_artifact-IsSound ans tenant_id
            (record {
              id = ans.fresh;
              tenant_id = tenant_id;
              sha256 = sha_raw;
              size_bytes = req.size_bytes;
              artifact_class = classify bytes;
              object_key = object_key tenant_id (d.encode sha_raw);
              first_committed_at = ans.now;
              scope = scope;
            })
            s there h in
        let seen = insert_occurrence-IsSound ans.now tenant_id _ sha_raw req.occurrence _ stored in
        carry-IsSound _ _ refl refl refl seen
