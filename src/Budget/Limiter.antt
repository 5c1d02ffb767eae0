-- ===== src/Budget/Limiter.antt =====
-- The rate limiter. Its numbers are float64, but they start as the integer MaxQPS and only whole
-- tokens are taken, so they stay integers.
use zone_lint.Common.{
  ℕ, suc, ◌-◌, ◌≤◌, List, [], ◌∷◌, Bool, true, false, ◌≡◌, refl, arith, ltb, leb, length,
  if◌then◌else◌,
}
use zone_lint.Budget.{positive_or}

-- RateLimiter, with the times as numbers.
pub record RateLimiter : Type 0 where
  pub tokens : ℕ
  pub max : ℕ
  pub refill : ℕ
  pub last : ℕ

-- NewRateLimiter at a time.
unfoldable pub new_rate_limiter : ℕ → ℕ → RateLimiter
unfolding positive_or
new_rate_limiter qps now =
    let rate = positive_or qps 50 in record { tokens = rate; max = rate; refill = rate; last = now }

-- One round of the loop of Wait under the lock, at the time `now`: `some` where it returns nil,
-- and `none` where it goes on to wait for the timer or the context.
unfoldable pub round : ℕ → RateLimiter → RateLimiter × Bool
round now r =
    let filled = r.max in
    let tokens : ℕ = if ltb r.max filled then r.max else filled in
    if leb 1 tokens
    then (record { tokens = tokens - 1; max = r.max; refill = r.refill; last = now }, true)
    else (record { tokens = tokens; max = r.max; refill = r.refill; last = now }, false)

-- The first rounds of the calls of Wait that arrive at the given times, in the order of the lock:
-- how many of them return without waiting.
pub admitted : List ℕ → RateLimiter → ℕ
unfolding round
admitted [] r = 0
admitted (now ∷ times) r =
    let (r', done) = round now r in
    let later = admitted times r' in if done then suc later else later

admitted-length : (times : List ℕ) (r : RateLimiter) → 1 ≤ r.max → admitted times r ≡ length times
unfolding admitted
admitted-length [] r h = refl
admitted-length (now ∷ times) r h = ground (arith, admitted-length times (round now r).0)

-- Every call of Wait on a new limiter is admitted in its first round, whatever the rate and the
-- times of the calls.
pub admitted-new_rate_limiter :
    (qps start : ℕ) (times : List ℕ) → admitted times (new_rate_limiter qps start) ≡ length times
unfolding new_rate_limiter
admitted-new_rate_limiter qps start times = admitted-length times _ (ground arith)
