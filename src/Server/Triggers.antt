-- ===== src/Server/Triggers.antt =====
-- crates/corpus-core/src/triggers.rs: the outbox of webhooks, one sweep over it, and the signature.
-- The other side's answers, and whether the statement for a row goes through, are a value.
pub mod Settle
pub mod Sweep
pub mod Posted
use Prim.Native.Nat.{bit_xor}
use corpus.Prelude.{
  ℕ, zero, suc, ◌+◌, ◌-◌, ◌*◌, ◌^◌, min, Bool, true, false, ◌&&◌, Option, none, some, List, [], ◌∷◌,
  ◌++◌, map, length, take, find?, leb, ltb, ◌==◌, if◌then◌else◌,
}
use corpus.Agent.Spool.{Bytes}
use corpus.Server.Hash.{Text, Digests, sha256_hex}

-- A row of `trigger_outbox`. The event is its text.
pub record Delivery : Type 0 where
  pub id : ℕ
  pub trigger_id : ℕ
  pub event : Text
  pub attempts : ℕ
  pub last_error : Option Text
  pub next_attempt_at : ℕ
  pub delivered_at : Option ℕ

-- What the join reads of `trigger_rule`.
pub record Endpoint : Type 0 where
  pub id : ℕ
  pub webhook_url : Text
  pub hmac_secret : Text

pub record Request : Type 0 where
  pub url : Text
  pub signature : Text
  pub body : Text

-- `post`: none where the status is a success, else the text of the error.
pub record Outside : Type 0 where
  pub now : ℕ
  pub post : Request → Option Text
  pub statement : ℕ → Bool

abbrev zeros : ℕ → Bytes
zeros zero = []
zeros (suc n) = 0 ∷ zeros n

module _ (d : Digests) where
  -- A key of one block: a longer one is hashed, and `resize` fills it up.
  unfoldable pub hmac_key : Text → Bytes
  hmac_key secret =
      let key = if ltb 64 (length secret) then d.sha256_raw secret else secret in
      take 64 (key ++ zeros (64 - length key))

  unfoldable pub hmac_signature : Text → Bytes → Text
  unfolding hmac_key sha256_hex
  hmac_signature secret body =
      let inner = d.sha256_raw (map (λ b. bit_xor b 0x36) (hmac_key secret) ++ body) in
      sha256_hex d (map (λ b. bit_xor b 0x5c) (hmac_key secret) ++ inner)

  unfoldable pub request : Delivery → Endpoint → Request
  unfolding hmac_signature
  request r e = record {
    url = e.webhook_url;
    signature = hmac_signature e.hmac_secret r.event;
    body = r.event;
  }

-- WHERE o.delivered_at IS NULL AND o.next_attempt_at <= now()
unfoldable pub is_due : ℕ → Delivery → Bool
is_due now r = elim r.delivered_at [ none ↦ leb r.next_attempt_at now | some t ↦ false ]

-- JOIN trigger_rule t ON t.id = o.trigger_id
unfoldable pub join_due : ℕ → List Endpoint → List Delivery → List (Delivery × Endpoint)
unfolding is_due
join_due now endpoints [] = []
join_due now endpoints (r ∷ rows) =
    let rest = join_due now endpoints rows in
    if is_due now r
    then elim (find? (λ e. e.id == r.trigger_id) endpoints) [ none ↦ rest | some e ↦ (r, e) ∷ rest ]
    else rest

-- ORDER BY o.next_attempt_at
unfoldable pub insert_due :
    Delivery × Endpoint → List (Delivery × Endpoint) → List (Delivery × Endpoint)
insert_due p [] = p ∷ []
insert_due p (q ∷ due) =
    let rest = insert_due p due in
    if leb p.0.next_attempt_at q.0.next_attempt_at then p ∷ q ∷ due else q ∷ rest

unfoldable pub order_due : List (Delivery × Endpoint) → List (Delivery × Endpoint)
unfolding insert_due
order_due [] = []
order_due (p ∷ due) = insert_due p (order_due due)

unfoldable pub backoff : ℕ → ℕ
backoff attempts = min (5 * 2 ^ attempts) 300

-- The update of a row after its post; `attempts` is what the sweep has read.
unfoldable pub settle_row : ℕ → Option Text → ℕ → Delivery → Delivery
unfolding backoff
settle_row now none attempts r = record r { delivered_at = some now }
settle_row now (some why) attempts r =
    if leb 8 (attempts + 1)
    then record r { attempts = r.attempts + 1; last_error = some why; delivered_at = some now }
    else record r {
      attempts = r.attempts + 1;
      last_error = some why;
      next_attempt_at = now + backoff attempts;
    }

-- WHERE id = $1
unfoldable pub update_rows : (Delivery → Delivery) → ℕ → List Delivery → List Delivery
update_rows f id [] = []
update_rows f id (r ∷ rows) = (if r.id == id then f r else r) ∷ update_rows f id rows

abbrev count_success : Option Text → ℕ → ℕ
count_success none n = n + 1
count_success (some why) n = n

module _ (d : Digests) (o : Outside) where
  -- A statement that fails ends the sweep, by `?`.
  unfoldable pub deliver_all :
      List (Delivery × Endpoint) → ℕ → List Delivery → Option ℕ × List Delivery
  unfolding request settle_row update_rows
  deliver_all [] n rows = (some n, rows)
  deliver_all ((r, e) ∷ due) n rows =
      let answer = o.post (request d r e) in
      elim (o.statement r.id) [
        | false ↦ (none, rows)
        | true ↦
            deliver_all due (count_success answer n)
              (update_rows (settle_row o.now answer r.attempts) r.id rows)
      ]

  -- LIMIT 20
  unfoldable pub deliver_pending : List Endpoint → List Delivery → Option ℕ × List Delivery
  unfolding deliver_all join_due order_due
  deliver_pending endpoints rows =
      deliver_all (take 20 (order_due (join_due o.now endpoints rows))) 0 rows
