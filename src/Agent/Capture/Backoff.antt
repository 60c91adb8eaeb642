-- ===== src/Agent/Capture/Backoff.antt =====
-- The delays of `backoff_secs`.
use corpus.Prelude.{ℕ, zero, suc, min, ◌≤◌, ◌≡◌, refl, arith}
use corpus.Agent.Capture.Runtime.{backoff_secs}

-- From the seventh attempt on the delay is five minutes.
late : (n : ℕ) → backoff_secs (suc (suc (suc (suc (suc (suc n)))))) ≡ 300
unfolding backoff_secs
late n = rw (capped n) refl
  where
    capped : (m : ℕ) → min (suc (suc (suc (suc (suc (suc m)))))) 6 ≡ 6
    capped m = omega arith

-- Whatever the attempt, the delay is from 5 to 300 seconds, and no less after one more attempt.
pub backoff_secs_lem :
    (a : ℕ)
    → (5 ≤ backoff_secs a) × (backoff_secs a ≤ 300) × (backoff_secs a ≤ backoff_secs (suc a))
unfolding backoff_secs
backoff_secs_lem zero = ground arith
backoff_secs_lem (suc zero) = ground arith
backoff_secs_lem (suc (suc zero)) = ground arith
backoff_secs_lem (suc (suc (suc zero))) = ground arith
backoff_secs_lem (suc (suc (suc (suc zero)))) = ground arith
backoff_secs_lem (suc (suc (suc (suc (suc zero))))) = ground (arith, late 0)
backoff_secs_lem (suc (suc (suc (suc (suc (suc n)))))) = ground (arith, late n, late (suc n))
