-- ===== src/Net/RateLimit.antt =====
-- recon/net/rate_limit.py: the token bucket in front of each request. Time is in milliseconds, a rate in
-- thousandths of a request per second and the tokens in millionths, so that a refill is exact. What
-- the loop of `acquire` reads of the clock, at first and after each sleep, is a list.
use recon_platform.Prelude.{
  ℕ, ◌+◌, ◌-◌, ◌*◌, ◌≤◌, ◌<◌, leb, min, max, ◌≡◌, refl, Bool, true, false, Option, none, some, List,
  [], ◌∷◌, if◌then◌else◌, Bool-cases, inl, inr, arith,
}

pub record RateLimiter : Type 0 where
  pub rate : ℕ
  pub tokens : ℕ
  pub updated : ℕ

unfoldable pub new_limiter : ℕ → ℕ → RateLimiter
new_limiter rate now = record { rate = max rate 10; tokens = 1000 * max rate 10; updated = now }

unfoldable pub update_rate : ℕ → RateLimiter → RateLimiter
update_rate rate l = record l { rate = max rate 10 }

-- The bucket at a reading of the clock.
unfoldable pub refill : ℕ → RateLimiter → RateLimiter
refill now l = record l {
  tokens = min (1000 * l.rate) (l.tokens + (now - l.updated) * l.rate);
  updated = now;
}

-- `acquire`: the bucket when it returns, and `none` if it still sleeps after the last reading.
unfoldable pub acquire : List ℕ → RateLimiter → Option RateLimiter
unfolding refill
acquire [] l = none
acquire (now ∷ times) l =
    let full = refill now l in
    let rest = acquire times full in
    if leb 1000000 full.tokens then some (record full { tokens = full.tokens - 1000000 }) else rest

abbrev pub returns : Option RateLimiter → Bool
returns none = false
returns (some _) = true

-- A bucket never holds more than the rate.
refill-le : (now : ℕ) (l : RateLimiter) → (refill now l).tokens ≤ 1000 * l.rate
unfolding refill
refill-le now l = omega arith

acquire-starves : (times : List ℕ) (l : RateLimiter) → l.rate < 1000 → acquire times l ≡ none
unfolding acquire
acquire-starves [] l slow = refl
acquire-starves (now ∷ times) l slow = elim (Bool-cases (leb 1000000 (refill now l).tokens)) [
  | inl full ↦ let most = refill-le now l in ground (arith, most)
  | inr empty ↦ rw empty (acquire-starves times (refill now l) slow)
]

acquire-served :
    (now later : ℕ) (times : List ℕ) (l : RateLimiter)
    → 1000 ≤ l.rate
    → 1000000 ≤ (refill now l).tokens + (later - now) * l.rate
    → returns (acquire (now ∷ later ∷ times) l) ≡ true
unfolding acquire refill
acquire-served now later times l fast slept = ground arith

-- After a change of the rate, a call that slept as long as it asked to, before it read the clock again,
-- returns exactly if the new rate is one request per second or more; below that it sleeps for ever,
-- whatever the later readings are.
pub acquire-update_rate :
    (rate now later : ℕ) (times : List ℕ) (l : RateLimiter)
    → 1000000 ≤ (refill now (update_rate rate l)).tokens + (later - now) * max rate 10
    → returns (acquire (now ∷ later ∷ times) (update_rate rate l)) ≡ leb 1000 rate
unfolding update_rate
acquire-update_rate rate now later times l slept = elim (Bool-cases (leb 1000 rate)) [
  | inl fast ↦ rw fast (acquire-served now later times (update_rate rate l) (ground arith) slept)
  | inr slow ↦
      rw (slow, acquire-starves (now ∷ later ∷ times) (update_rate rate l) (ground arith)) refl
]
