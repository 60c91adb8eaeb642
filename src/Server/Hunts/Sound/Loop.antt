-- ===== src/Server/Hunts/Sound/Loop.antt =====
-- The invariant, over the loop of a hunt.
use corpus.Prelude.{
  ℕ, ◌≡◌, refl, arith, true, Bool-cases, inl, inr, Option, none, some, String, List, [], ◌∷◌, leb,
  keep_if, All,
}
use corpus.Prelude.Results.{Result, ok, err}
use corpus.Agent.Spool.{Bytes}
use corpus.Server.Cas.{CasError}
use corpus.Server.Hunts.{
  Counters, matched, CacheEntry, MatchSummary, StoredArtifact, Store, commit_cache_entry,
  is_planned, insert_by_seq, order_by_seq, planned_artifacts,
}
use corpus.Server.Hunts.Actions.{World}
use corpus.Server.Hunts.Actions.Rules.{
  From, Keeps, Keeps-bind, Keeps-pure, From-bind, From-query, From-execute,
}
use corpus.Server.Hunts.Scan.{entry_of, hunt_match}
use corpus.Server.Hunts.Run.{
  Scanner, unreadable, scan_object, visit_lookup, key_of, visit, visit_all,
}
use corpus.Server.Hunts.Stable.{Keeps-update_hunt, set_counters-IsQuiet}
use corpus.Server.Hunts.Sound.{
  In, digest_of, Grows, Grows-refl, IsJustified, IsSound, Grows-IsSound, commit_cache_entry-Grows,
}
use corpus.Server.Hunts.Sound.Steps.{
  cache-commit_cache_entry, Kept, rebase, Kept-IsStable, replay-Keeps, count_scan-Keeps,
}

-- What a scan of `a` for the hunt may rest on.
pub record IsBound (t id : ℕ) (digest : String) (a : StoredArtifact) (s : Store) : Type 0 where
  pub stored : In a s.artifacts
  pub owned : a.tenant_id ≡ t
  pub bound : digest_of t id s.hunts ≡ some digest

Grows-IsBound :
    {t id : ℕ} {digest : String} {a : StoredArtifact} {s s' : Store}
    → Grows s s'
    → IsBound t id digest a s
    → IsBound t id digest a s'
Grows-IsBound g b = record {
  stored = g.artifacts _ b.stored;
  owned = b.owned;
  bound = g.digests _ _ _ b.bound;
}

module _ (sc : Scanner) (t id : ℕ) (digest : String) (a : StoredArtifact) where
  justified :
      (s : Store) (e : CacheEntry) (r : String) (m : MatchSummary)
      → IsBound t id digest a s
      → s.cache (key_of sc t id digest a) ≡ some e
      → e.status ≡ matched
      → In r e.matched_rule_ids
      → IsJustified sc.config s (hunt_match t id a.id r m)
  unfolding key_of
  justified s e r m b known hit i = record {
    artifact = a;
    stored = b.stored;
    owned = b.owned;
    ident = refl;
    digest = digest;
    bound = b.bound;
    entry = e;
    scanned = known;
    status = hit;
    rule = i;
  }

  start : (w : World) → IsSound sc.config w.store → Kept sc.config w.store w.store
  start w h = record { sound = h; grown = Grows-refl w.store }

  module _ (w : World) (b : IsBound t id digest a w.store) (h : IsSound sc.config w.store) where
    committed :
        (entry : CacheEntry)
        → Kept sc.config w.store (commit_cache_entry (key_of sc t id digest a) entry w.store)
    unfolding commit_cache_entry
    committed entry = record {
      sound = Grows-IsSound sc.config (commit_cache_entry-Grows _ entry w.store) refl h;
      grown = commit_cache_entry-Grows _ entry w.store;
    }

    scan_object-From :
        (n : Counters) (r : Result CasError Bytes)
        → w.store.cache (key_of sc t id digest a) ≡ none
        → From
            (Kept sc.config w.store)
            (scan_object sc t id digest (key_of sc t id digest a) a.id n r)
            w
    unfolding scan_object
    scan_object-From n (err e) new =
        From-execute _ _ w (start w h)
          (λ later. (Keeps-pure _).from _ (committed (unreadable sc.unreadable_message)))
    scan_object-From n (ok bytes) new =
        let o = sc.scan a.id bytes in
        let k = committed (entry_of o) in
        From-execute _ _ w (start w h) (λ later.
          let w' : World = record w {
            store = commit_cache_entry (key_of sc t id digest a) (entry_of o) w.store;
            answers = later;
          } in
          rebase sc.config w.store w'.store _ w' k.grown (
            (count_scan-Keeps sc.config w'.store t id a.id digest o.matches n o.status (λ hit r m i.
                justified w'.store (entry_of o) r m (Grows-IsBound k.grown b)
                  (cache-commit_cache_entry _ _ w.store new) hit i)).from
              w' (start w' k.sound)))

    visit_lookup-From :
        (n : Counters) (hit : Option CacheEntry)
        → w.store.cache (key_of sc t id digest a) ≡ hit
        → From
            (Kept sc.config w.store)
            (visit_lookup sc t id digest (key_of sc t id digest a) a n hit)
            w
    unfolding visit_lookup entry_of
    visit_lookup-From n none new = scan_object-From n _ new
    visit_lookup-From n (some e) known =
        (replay-Keeps sc.config w.store t id a.id e.matched_rule_ids _ e.status
            (λ hit r i. justified w.store e r _ b known hit i)).from
          w (start w h)

  visit-From :
      (n : Counters) (w : World)
      → IsBound t id digest a w.store
      → IsSound sc.config w.store
      → From (Kept sc.config w.store) (visit sc t id digest a n) w
  unfolding visit
  visit-From n w b h = From-query _ _ w (start w h) (λ later.
      let w' : World = record w { answers = later } in
      let looked = visit_lookup-From w' b h n _ refl in
      From-bind _ _ w' looked (λ n' _.
        (Keeps-bind _ _
            (Keeps-update_hunt (Kept-IsStable sc.config w.store) _ t id (set_counters-IsQuiet n'))
            (λ _. Keeps-pure n')).from
          _ looked.at))

  visit-Keeps :
      (s₀ : Store) (n : Counters)
      → IsBound t id digest a s₀
      → Keeps (Kept sc.config s₀) (visit sc t id digest a n)
  visit-Keeps s₀ n b = record {
    from = λ w k.
        rebase sc.config s₀ w.store _ w k.grown (visit-From n w (Grows-IsBound k.grown b) k.sound);
  }

pub visit_all-Keeps :
    (sc : Scanner) (t id : ℕ) (digest : String) (s₀ : Store) (rows : List StoredArtifact)
    (n : Counters)
    → All (λ a. IsBound t id digest a s₀) rows
    → Keeps (Kept sc.config s₀) (visit_all sc t id digest rows n)
unfolding visit_all
visit_all-Keeps sc t id digest s₀ [] n b = Keeps-pure n
visit_all-Keeps sc t id digest s₀ (a ∷ rows) n b =
    Keeps-bind _ _ (visit-Keeps sc t id digest a s₀ n b.0)
      (λ n'. visit_all-Keeps sc t id digest s₀ rows n' b.1)

-- The rows that a hunt visits are rows of its tenant.
module _ (P : StoredArtifact → Type 0) where
  All-insert_by_seq :
      (a : StoredArtifact) (rows : List StoredArtifact)
      → P a
      → All P rows
      → All P (insert_by_seq a rows)
  unfolding insert_by_seq
  All-insert_by_seq a [] p h = (p, tt)
  All-insert_by_seq a (b ∷ rows) p h = elim (Bool-cases (leb a.seq b.seq)) [
    | inl here ↦ rw here (p, h)
    | inr later ↦ rw later (h.0, All-insert_by_seq a rows p h.1)
  ]

  All-order_by_seq : (rows : List StoredArtifact) → All P rows → All P (order_by_seq rows)
  unfolding order_by_seq
  All-order_by_seq [] h = h
  All-order_by_seq (a ∷ rows) h = All-insert_by_seq a _ h.0 (All-order_by_seq rows h.1)

owner : (t watermark : ℕ) (a : StoredArtifact) → is_planned t watermark a ≡ true → a.tenant_id ≡ t
unfolding is_planned
owner t watermark a h = ground (arith, h)

All-is_planned :
    (t watermark : ℕ) (rows : List StoredArtifact)
    → All (λ a. In a rows × (a.tenant_id ≡ t)) (keep_if (is_planned t watermark) rows)
All-is_planned t watermark rows = this rows (λ a i. i)
  where
    this :
        (kept : List StoredArtifact)
        → ((a : StoredArtifact) → In a kept → In a rows)
        → All (λ a. In a rows × (a.tenant_id ≡ t)) (keep_if (is_planned t watermark) kept)
    this [] h = tt
    this (a ∷ kept) h = elim (Bool-cases (is_planned t watermark a)) [
      | inr other ↦ rw other (this kept (λ b i. h b (inr i)))
      | inl found ↦
          rw found ((h a (inl refl), owner t watermark a found), this kept (λ b i. h b (inr i)))
    ]

All-imp :
    {P Q : StoredArtifact → Type 0} (rows : List StoredArtifact)
    → ((a : StoredArtifact) → P a → Q a)
    → All P rows
    → All Q rows
All-imp [] f h = tt
All-imp (a ∷ rows) f h = (f a h.0, All-imp rows f h.1)

pub planned-IsBound :
    (t id : ℕ) (digest : String) (watermark : ℕ) (s : Store)
    → digest_of t id s.hunts ≡ some digest
    → All (λ a. IsBound t id digest a s) (planned_artifacts t watermark s)
unfolding planned_artifacts
planned-IsBound t id digest watermark s bound =
    All-imp _ (λ a h. record { stored = h.0; owned = h.1; bound = bound })
      (All-order_by_seq _ _ (All-is_planned t watermark s.artifacts))
