-- ===== src/Limiter/Rate.antt =====
-- How many calls are granted in a stretch of time.
use muthur.Prelude.{
  ℕ, ◌+◌, ◌-◌, ◌*◌, ◌≤◌, some, ◌≡◌, refl, arith, List, [], ◌∷◌, if◌then◌else◌, ◌==◌, subst, ◌∙◌,
  ◌⊎◌, inl, inr, false,
}
use muthur.Limiter.Bounds.{refilled-le}
use muthur.Limiter.{Limiter, new, refilled, acquire, release, token}

-- The calls on one limiter, in order.
pub data Call : Type 0 where
  acquire_at : ℕ → Call
  release_one : Call

-- The calls to `Acquire` come at rising instants, between `from` and `until`.
abbrev pub Between : ℕ → ℕ → List Call → Type 0
Between from until [] = from ≤ until
Between from until (acquire_at now ∷ calls) = (from ≤ now) × Between now until calls
Between from until (release_one ∷ calls) = Between from until calls

-- The state after the calls.
unfoldable pub run : List Call → Limiter → Limiter
run [] l = l
run (acquire_at now ∷ calls) l = run calls (acquire now l).1
run (release_one ∷ calls) l = run calls (release l)

-- How many of the calls were granted.
unfoldable pub granted : List Call → Limiter → ℕ
granted [] l = 0
granted (acquire_at now ∷ calls) l =
    (if (acquire now l).0 then 1 else 0) + granted calls (acquire now l).1
granted (release_one ∷ calls) l = granted calls (release l)

refill_split : (r last now : ℕ) → last ≤ now → last * r + (now - last) * r ≡ now * r
refill_split r last now h = grind arith

-- One call: what it spends was there or was refilled since the last one.
acquire_spends :
    (now : ℕ) (l : Limiter)
    → l.last ≤ now
    → (acquire now l).1.tokens + (if (acquire now l).0 then 1 else 0) * token + l.last * l.refill
      ≤ l.tokens + (acquire now l).1.last * l.refill
unfolding acquire refilled
acquire_spends now l h = ground (arith, refill_split l.refill l.last now h)

acquire_keeps :
    (now : ℕ) (l : Limiter)
    → l.last ≤ now
    → ((acquire now l).1.refill ≡ l.refill)
      × (l.last ≤ (acquire now l).1.last)
      × ((acquire now l).1.last ≤ now)
unfolding acquire
acquire_keeps now l h = ground arith

release_keeps :
    (l : Limiter)
    → ((release l).tokens ≡ l.tokens)
      × ((release l).refill ≡ l.refill)
      × ((release l).last ≡ l.last)
unfolding release
release_keeps l = (refl, refl, refl)

-- What the granted calls spend was in the bucket or was refilled in the time between.
granted_spends :
    (from until r : ℕ) (calls : List Call) (l : Limiter)
    → l.refill ≡ r
    → l.last ≤ from
    → Between from until calls
    → granted calls l * token + l.last * r ≤ l.tokens + until * r
unfolding granted release
granted_spends from until r [] l same le within =
    omega (arith, refill_split r l.last until (omega arith))
granted_spends from until r (release_one ∷ calls) l same le within =
    granted_spends from until r calls (release l) same le within
granted_spends from until r (acquire_at now ∷ calls) l same le within =
    let l' = (acquire now l).1 in
    let last_le : l.last ≤ now = omega arith in
    let (refill_same, _, last_now) = acquire_keeps now l last_le in
    let spends : l'.tokens + (if (acquire now l).0 then 1 else 0) * token + l.last * r
        ≤ l.tokens + l'.last * r =
      subst
        (λ x.
          l'.tokens + (if (acquire now l).0 then 1 else 0) * token + l.last * x
          ≤ l.tokens + l'.last * x)
        same (acquire_spends now l last_le) in
    let rest = granted_spends now until r calls l' (refill_same ∙ same) last_now within.1 in
    omega (arith, spends, rest)

Between-le : (from until : ℕ) (calls : List Call) → Between from until calls → from ≤ until
Between-le from until [] h = h
Between-le from until (acquire_at now ∷ calls) h = omega (arith, Between-le now until calls h.1)
Between-le from until (release_one ∷ calls) h = Between-le from until calls h

-- A bucket that is not over its depth, at rest since some instant that has passed.
pub record Level (r depth from : ℕ) (l : Limiter) : Type 0 where
  pub rate : l.refill ≡ r
  pub capacity : l.max_tokens ≡ depth
  pub within : l.tokens ≤ l.max_tokens
  pub past : l.last ≤ from

-- A call tops the bucket up to its depth at most and spends of that.
acquire_levels :
    (now : ℕ) (l : Limiter)
    → l.tokens ≤ l.max_tokens
    → ((acquire now l).1.max_tokens ≡ l.max_tokens)
      × ((acquire now l).1.tokens + (if (acquire now l).0 then 1 else 0) * token ≤ l.max_tokens)
unfolding acquire
acquire_levels now l h = ground (arith, refilled-le now l)

-- A call for which there is no slot is refused, and any other one winds the clock.
acquire_clock :
    (now : ℕ) (l : Limiter) → ((acquire now l).0 ≡ false) ⊎ ((acquire now l).1.last ≡ now)
unfolding acquire
acquire_clock now l = ground arith

acquire-Level :
    (r depth from now : ℕ) (l : Limiter)
    → Level r depth from l
    → from ≤ now
    → Level r depth now (acquire now l).1
acquire-Level r depth from now l v le =
    let past : l.last ≤ now = omega (arith, v.past) in
    let (same, _, last_now) = acquire_keeps now l past in
    let (max_same, spent) = acquire_levels now l v.within in
    record {
      rate = same ∙ v.rate;
      capacity = max_same ∙ v.capacity;
      within = omega (arith, spent, max_same);
      past = last_now;
    }

release-Level :
    (r depth from : ℕ) (l : Limiter) → Level r depth from l → Level r depth from (release l)
unfolding release
release-Level r depth from l v = record {
  rate = v.rate;
  capacity = v.capacity;
  within = v.within;
  past = v.past;
}

run-Level :
    (r depth start from : ℕ) (calls : List Call) (l : Limiter)
    → Level r depth start l
    → Between start from calls
    → Level r depth from (run calls l)
unfolding run
run-Level r depth start from [] l v within = record {
  rate = v.rate;
  capacity = v.capacity;
  within = v.within;
  past = omega (arith, v.past);
}
run-Level r depth start from (release_one ∷ calls) l v within =
    run-Level r depth start from calls (release l) (release-Level r depth start l v) within
run-Level r depth start from (acquire_at now ∷ calls) l v within =
    run-Level r depth now from calls (acquire now l).1
      (acquire-Level r depth start now l v within.0) within.1

refill_mono : (r from now until : ℕ) → from ≤ now → (until - now) * r ≤ (until - from) * r
refill_mono r from now until h = grind arith

-- From any level: what the calls spend is the depth and what is refilled in the stretch.
granted_within :
    (from until r depth : ℕ) (calls : List Call) (l : Limiter)
    → Level r depth from l
    → Between from until calls
    → granted calls l * token ≤ depth + (until - from) * r
unfolding granted
granted_within from until r depth [] l v within = omega arith
granted_within from until r depth (release_one ∷ calls) l v within =
    granted_within from until r depth calls (release l) (release-Level r depth from l v) within
granted_within from until r depth (acquire_at now ∷ calls) l v within =
    let l' = (acquire now l).1 in
    let v' = acquire-Level r depth from now l v within.0 in
    let (_, spent) = acquire_levels now l v.within in
    let more = refill_mono r from now until within.0 in
    elim (acquire_clock now l) [
      | inl refused ↦
          rw refused (omega (arith, granted_within now until r depth calls l' v' within.1, more))
      | inr wound ↦
          let rest = granted_spends now until r calls l' v'.rate v'.past within.1 in
          let rest' : granted calls l' * token + now * r ≤ l'.tokens + until * r =
            subst (λ x. granted calls l' * token + x * r ≤ l'.tokens + until * r) wound rest in
          omega (
            arith,
            rest',
            spent,
            v.capacity,
            more,
            refill_split r now until (Between-le now until calls within.1),
          )
    ]

new-Level :
    (calls_per_minute burst max_concurrent start : ℕ) {l : Limiter}
    → new calls_per_minute burst max_concurrent start ≡ some l
    → Level calls_per_minute ((if burst == 0 then calls_per_minute else burst) * token) start l
unfolding new
new-Level calls_per_minute burst max_concurrent start {l} made = record {
  rate = ground arith;
  capacity = ground arith;
  within = ground arith;
  past = ground arith;
}

-- In any stretch of time, whatever calls came before it, the calls granted by a limiter are at most
-- its burst, or its rate where no burst is set, and what the rate refills in that stretch, with
-- tokens counted exactly and calls at rising instants.
pub granted-le :
    (calls_per_minute burst max_concurrent start from until : ℕ) (earlier calls : List Call)
    {l : Limiter}
    → new calls_per_minute burst max_concurrent start ≡ some l
    → Between start from earlier
    → Between from until calls
    → granted calls (run earlier l) * token
      ≤ (if burst == 0 then calls_per_minute else burst) * token + (until - from) * calls_per_minute
granted-le calls_per_minute burst max_concurrent start from until earlier calls {l} made before
      within =
    let depth = (if burst == 0 then calls_per_minute else burst) * token in
    let v : Level calls_per_minute depth start l =
      new-Level calls_per_minute burst max_concurrent start made in
    granted_within from until calls_per_minute depth calls (run earlier l)
      (run-Level calls_per_minute depth start from earlier l v before) within
