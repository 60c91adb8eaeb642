-- ===== src/Server/Triggers/Posted.antt =====
-- triggers.rs: a sweep in which every statement goes through posts what is due.
use Prim.Native.Nat.{bit_xor}
use corpus.Prelude.{ℕ, ◌+◌, ◌*◌, ◌^◌, ◌<◌, min, none, map, ◌++◌, ◌≤◌, ◌≡◌, true, some, List}
use corpus.Server.Hash.{Text, Digests, sha256_hex}
use corpus.Server.Hunts.Sound.{In}
use corpus.Server.Triggers.{Delivery, Endpoint, Outside, Request, hmac_key, request, settle_row}

module _ (d : Digests) (o : Outside) (goes : (id : ℕ) → o.statement id ≡ true) where
  abbrev posted : Delivery × Endpoint → Delivery
  posted p = settle_row o.now (o.post (request d p.0 p.1)) p.0.attempts p.0

-- The outbox has the row as the answer to its own request leaves it.
pub record IsPosted (d : Digests) (o : Outside) (r : Delivery) (e : Endpoint) (rows : List Delivery)
    : Type 0 where
  pub sent : Request
  pub url : sent.url ≡ e.webhook_url
  pub body : sent.body ≡ r.event
  pub signature :
      let key = hmac_key d e.hmac_secret in
      sent.signature
      ≡ sha256_hex d
          (map (λ b. bit_xor b 0x5c) key ++ d.sha256_raw (map (λ b. bit_xor b 0x36) key ++ r.event))
  pub row : Delivery
  pub stored : In row rows
  pub ident : row.id ≡ r.id
  pub accepted : o.post sent ≡ none → (row.delivered_at ≡ some o.now) × (row.attempts ≡ r.attempts)
  pub refused :
      (why : Text)
      → o.post sent ≡ some why
      → (row.attempts ≡ r.attempts + 1) × (row.last_error ≡ some why)
  pub given_up :
      (why : Text) → o.post sent ≡ some why → 8 ≤ r.attempts + 1 → row.delivered_at ≡ some o.now
  pub again :
      (why : Text)
      → o.post sent ≡ some why
      → r.attempts + 1 < 8
      → (row.delivered_at ≡ r.delivered_at)
        × (row.next_attempt_at ≡ o.now + min (5 * 2 ^ r.attempts) 300)
