-- ===== src/Server/Examples/Triggers.antt =====
-- triggers.rs at a concrete outbox: one open row that is due, and one that is closed.
use corpus.Prelude.{◌≡◌, refl, arith, true, some, none, List, [], ◌∷◌}
use corpus.Server.Triggers.{Delivery, Endpoint, Outside, deliver_pending}
use corpus.Server.Triggers.Settle.{Swept}
use corpus.Server.Triggers.Sweep.{deliver_pending-IsSwept}
use corpus.Server.Examples.{example_digests}

abbrev waiting : Delivery
waiting = record {
  id = 1;
  trigger_id = 5;
  event = 123 ∷ 125 ∷ [];
  attempts = 7;
  last_error = none;
  next_attempt_at = 90;
  delivered_at = none;
}

abbrev closed : Delivery
closed = record {
  id = 2;
  trigger_id = 5;
  event = 123 ∷ 125 ∷ [];
  attempts = 0;
  last_error = none;
  next_attempt_at = 90;
  delivered_at = some 95;
}

abbrev outbox : List Delivery
outbox = closed ∷ waiting ∷ []

abbrev endpoint : Endpoint
endpoint = record { id = 5; webhook_url = 104 ∷ []; hmac_secret = 1 ∷ [] }

abbrev refusing : Outside
refusing = record { now = 100; post = λ r. some (53 ∷ []); statement = λ id. true }

-- The eighth failure closes the row.
deliver_pending-gives_up :
    (deliver_pending example_digests refusing (endpoint ∷ []) outbox).1
    ≡ closed
      ∷ record waiting { attempts = 8; last_error = some (53 ∷ []); delivered_at = some 100 }
      ∷ []
unfolding deliver_pending
deliver_pending-gives_up = refl

deliver_pending-IsSwept_example :
    Swept 100 outbox (deliver_pending example_digests refusing (endpoint ∷ []) outbox).1
deliver_pending-IsSwept_example =
    deliver_pending-IsSwept example_digests refusing (endpoint ∷ []) outbox
      (((λ e. ground arith), tt), (tt, tt))
      (
        record { attempts = omega arith; is_open = λ e. omega arith },
        (record { attempts = omega arith; is_open = λ e. omega arith }, tt),
      )
