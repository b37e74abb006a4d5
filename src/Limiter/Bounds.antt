-- ===== src/Limiter/Bounds.antt =====
-- The bucket never overflows and the slots are never oversold.
use muthur.Prelude.{ℕ, ◌+◌, ◌≤◌, ◌<◌, true, false, some, ◌≡◌, arith, ◌⊎◌}
use muthur.Limiter.{Limiter, new, refilled, acquire, release}

pub record IsBounded (l : Limiter) : Type 0 where
  pub bucket : l.tokens ≤ l.max_tokens
  pub slots : l.in_flight ≤ l.max_concurrent
  pub room : 0 < l.max_concurrent

pub refilled-le : (now : ℕ) (l : Limiter) → refilled now l ≤ l.max_tokens
unfolding refilled
refilled-le now l = ground arith

-- A new limiter is within its bounds, with a full bucket and all slots free.
pub new-IsBounded :
    (calls_per_minute burst max_concurrent now : ℕ) {l : Limiter}
    → new calls_per_minute burst max_concurrent now ≡ some l
    → IsBounded l × (l.tokens ≡ l.max_tokens) × (l.in_flight ≡ 0)
unfolding new
new-IsBounded calls_per_minute burst max_concurrent now h = ground arith

pub acquire-IsBounded : (now : ℕ) {l : Limiter} → IsBounded l → IsBounded (acquire now l).1
unfolding acquire
acquire-IsBounded now {l} b = ground (arith, refilled-le now l)

pub release-IsBounded : {l : Limiter} → IsBounded l → IsBounded (release l)
unfolding release
release-IsBounded b = ground arith

-- A granted call takes a slot and its release gives it back; a refused one holds none.
pub acquire-slots :
    (now : ℕ) (l : Limiter)
    → ((acquire now l).1.in_flight ≡ l.in_flight) × ((acquire now l).0 ≡ false)
      ⊎ ((acquire now l).1.in_flight ≡ l.in_flight + 1)
        × ((acquire now l).0 ≡ true)
        × (l.in_flight < l.max_concurrent)
        × ((release (acquire now l).1).in_flight ≡ l.in_flight)
unfolding acquire release
acquire-slots now l = ground arith
