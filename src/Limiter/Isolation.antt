-- ===== src/Limiter/Isolation.antt =====
-- Tenants do not share limiters.
use muthur.Prelude.{
  ℕ, Text, some, ◌≡◌, ◌≢◌, refl, lookup, lookup-insert_ne, lookup-insert_self, Option-cases, inl,
  inr,
}
use muthur.Limiter.{
  Limiter, Pool, bucket, acquire, release, acquire_from, release_to, pool_acquire, pool_release,
}

-- A call for one cluster, acquire or release, leaves every other cluster's limiter as it was.
pub pool_acquire_other :
    (now : ℕ) (cluster other : Text) (p : Pool)
    → cluster ≢ other
    → (lookup other (pool_acquire now cluster p).1.buckets ≡ lookup other p.buckets)
      × (lookup other (pool_release now cluster p).buckets ≡ lookup other p.buckets)
unfolding pool_acquire pool_release
pool_acquire_other now cluster other p h = elim (Option-cases (bucket now cluster p)) [
  | inl nil ↦ (rw (nil, acquire_from) refl, rw (nil, release_to) refl)
  | inr (l, found) ↦ (
    rw (found, acquire_from) (lookup-insert_ne cluster other (acquire now l).1 p.buckets h),
    rw (found, release_to) (lookup-insert_ne cluster other (release l) p.buckets h),
  )
]

pub bucket_of_found :
    (now : ℕ) (cluster : Text) (p : Pool) (l : Limiter)
    → lookup cluster p.buckets ≡ some l
    → bucket now cluster p ≡ some l
unfolding bucket
bucket_of_found now cluster p l found = rw (found, bucket) refl

-- What a pool decides for a cluster is what that cluster's own limiter decides.
pub pool_acquire_own :
    (now : ℕ) (cluster : Text) (p : Pool) (l : Limiter)
    → lookup cluster p.buckets ≡ some l
    → ((pool_acquire now cluster p).0 ≡ (acquire now l).0)
      × (lookup cluster (pool_acquire now cluster p).1.buckets ≡ some (acquire now l).1)
unfolding pool_acquire
pool_acquire_own now cluster p l found =
    rw (bucket_of_found now cluster p l found, acquire_from)
      (refl, lookup-insert_self cluster (acquire now l).1 p.buckets)
