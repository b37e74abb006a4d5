-- ===== src/Limiter.antt =====
-- internal/llmlimit/llmlimit.go: the ceilings on the rate and the concurrency of LLM calls. Tokens are
-- counted in units of 1/(60·10⁹), so that one nanosecond refills `calls_per_minute` units and the
-- arithmetic is exact; float64 rounding is not modelled. The clock is monotonic.
pub mod Bounds
pub mod Rate
pub mod Isolation
use muthur.Prelude.{
  ℕ, ◌+◌, ◌-◌, ◌*◌, ◌^◌, Text, Bool, true, false, Option, none, some, Map, lookup, insert, ltb, leb,
  ◌||◌, ◌==◌, if◌then◌else◌, [],
}

-- One token.
abbrev pub token : ℕ
token = 60 * 10 ^ 9

-- The channel of slots holds `in_flight` of at most `max_concurrent`.
pub record Limiter : Type 0 where
  pub tokens : ℕ
  pub max_tokens : ℕ
  pub refill : ℕ
  pub last : ℕ
  pub in_flight : ℕ
  pub max_concurrent : ℕ

-- `New`: none is the unlimited nil limiter.
unfoldable pub new : ℕ → ℕ → ℕ → ℕ → Option Limiter
new calls_per_minute burst max_concurrent now =
    if (calls_per_minute == 0) || (max_concurrent == 0)
    then none
    else let depth = (if burst == 0 then calls_per_minute else burst) * token in
      some (record {
        tokens = depth;
        max_tokens = depth;
        refill = calls_per_minute;
        last = now;
        in_flight = 0;
        max_concurrent = max_concurrent;
      })

-- The tokens after the refill of the time that has passed, up to the depth of the bucket.
unfoldable pub refilled : ℕ → Limiter → ℕ
refilled now l =
    let t = l.tokens + (now - l.last) * l.refill in if ltb l.max_tokens t then l.max_tokens else t

-- `Acquire`: the slot first, which goes back where no token is left.
unfoldable pub acquire : ℕ → Limiter → Bool × Limiter
unfolding refilled
acquire now l =
    if leb l.max_concurrent l.in_flight
    then (false, l)
    else if ltb (refilled now l) token
    then (false, record l { tokens = refilled now l; last = now })
    else (
      true,
      record l { tokens = refilled now l - token; last = now; in_flight = l.in_flight + 1 },
    )

-- `Release`: an empty channel stays empty.
unfoldable pub release : Limiter → Limiter
release l = record l { in_flight = l.in_flight - 1 }

-- `Pool`: one limiter for each tenant, made on first use.
pub record Pool : Type 0 where
  pub buckets : Map Limiter
  pub calls_per_minute : ℕ
  pub burst : ℕ
  pub max_concurrent : ℕ

unfoldable pub new_pool : ℕ → ℕ → ℕ → Option Pool
new_pool calls_per_minute burst max_concurrent =
    if (calls_per_minute == 0) || (max_concurrent == 0)
    then none
    else some (record {
      buckets = [];
      calls_per_minute = calls_per_minute;
      burst = burst;
      max_concurrent = max_concurrent;
    })

-- The bucket of a cluster; a new one where there is none.
unfoldable pub bucket : ℕ → Text → Pool → Option Limiter
bucket now cluster p = elim (lookup cluster p.buckets) [
  | some l ↦ some l
  | none ↦ new p.calls_per_minute p.burst p.max_concurrent now
]

abbrev pub put : Text → Pool → Bool × Limiter → Bool × Pool
put cluster p (taken, l) = (taken, record p { buckets = insert cluster l p.buckets })

abbrev pub acquire_from : ℕ → Text → Pool → Option Limiter → Bool × Pool
acquire_from now cluster p none = (true, p)
acquire_from now cluster p (some l) = put cluster p (acquire now l)

-- `Pool.Acquire`
unfoldable pub pool_acquire : ℕ → Text → Pool → Bool × Pool
pool_acquire now cluster p = acquire_from now cluster p (bucket now cluster p)

abbrev pub release_to : Text → Pool → Option Limiter → Pool
release_to cluster p none = p
release_to cluster p (some l) = record p { buckets = insert cluster (release l) p.buckets }

-- `Pool.Release`
unfoldable pub pool_release : ℕ → Text → Pool → Pool
pool_release now cluster p = release_to cluster p (bucket now cluster p)
