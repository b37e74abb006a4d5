-- ===== src/Pipeline/Budget.antt =====
-- The budget of LLM calls along an evaluation.
use muthur.Prelude.{
  ℕ, Text, codes, List, Bool, true, false, Option, none, some, ◌≡◌, ◌≢◌, refl, sym, ap, ◌∙◌,
  Bool-cases, inl, inr, Option-cases, text_eq, text_eq_iff, arith, lookup, insert,
  lookup-insert_self,
}
use muthur.Alert.{AlertPayload}
use muthur.Evaluator.{Analysis}
use muthur.Limiter.{
  Limiter, Pool, acquire, release, refilled, pool_acquire, pool_release, bucket, new, acquire_from,
  release_to,
}
use muthur.Limiter.Isolation.{bucket_of_found}
use muthur.Routing.{Rule}
use muthur.Silence.{Client}
use muthur.Pipeline.{
  Services, State, acquire_slot, release_slot, with_slot, ask, ask_group, on_miss, evaluate,
  evaluate_incident, process, process_resolved, after_resolved,
}

-- The calls of a cluster that hold a slot of the pool.
abbrev pub in_flight_of : Option Limiter → ℕ
in_flight_of none = 0
in_flight_of (some l) = l.in_flight

abbrev pub slots : Text → Option Pool → ℕ
slots cluster none = 0
slots cluster (some p) = in_flight_of (lookup cluster p.buckets)

acquire-release :
    (now : ℕ) (l : Limiter)
    → (acquire now l).0 ≡ true
    → (release (acquire now l).1).in_flight ≡ l.in_flight
unfolding acquire release refilled
acquire-release now l h = ground arith

refused-in_flight :
    (now : ℕ) (l : Limiter) → (acquire now l).0 ≡ false → (acquire now l).1.in_flight ≡ l.in_flight
unfolding acquire refilled
refused-in_flight now l h = ground arith

new-in_flight :
    (cpm burst max now : ℕ) (l : Limiter) → new cpm burst max now ≡ some l → l.in_flight ≡ 0
unfolding new
new-in_flight cpm burst max now l e = ground arith

bucket-in_flight :
    (now : ℕ) (cluster : Text) (p : Pool) (l : Limiter)
    → bucket now cluster p ≡ some l
    → in_flight_of (lookup cluster p.buckets) ≡ l.in_flight
unfolding bucket
bucket-in_flight now cluster p l e = elim (Option-cases (lookup cluster p.buckets)) [
  | inl absent ↦
      let fresh : new p.calls_per_minute p.burst p.max_concurrent now ≡ some l =
        sym (rw (absent, bucket) refl) ∙ e in
      rw absent (sym (new-in_flight p.calls_per_minute p.burst p.max_concurrent now l fresh))
  | inr (l', found) ↦ rw found (ap in_flight_of (sym (bucket_of_found now cluster p l' found) ∙ e))
]

acquire_by :
    (now : ℕ) (cluster : Text) (p : Pool) (o : Option Limiter)
    → bucket now cluster p ≡ o
    → pool_acquire now cluster p ≡ acquire_from now cluster p o
unfolding pool_acquire
acquire_by now cluster p o e = ap (acquire_from now cluster p) e

release_by :
    (now : ℕ) (cluster : Text) (p : Pool) (o : Option Limiter)
    → bucket now cluster p ≡ o
    → pool_release now cluster p ≡ release_to cluster p o
unfolding pool_release
release_by now cluster p o e = ap (release_to cluster p) e

slots-insert :
    (cluster : Text) (l : Limiter) (p : Pool)
    → slots cluster (some (record p { buckets = insert cluster l p.buckets })) ≡ l.in_flight
slots-insert cluster l p = ap in_flight_of (lookup-insert_self cluster l p.buckets)

-- In a pool, a slot that is granted and then given back leaves the count as it was.
pool-returned :
    (now : ℕ) (cluster : Text) (p : Pool)
    → (pool_acquire now cluster p).0 ≡ true
    → slots cluster (some (pool_release now cluster (pool_acquire now cluster p).1))
      ≡ slots cluster (some p)
pool-returned now cluster p granted = elim (Option-cases (bucket now cluster p)) [
  | inl nil ↦
      ap (λ q. slots cluster (some (pool_release now cluster q.1)))
        (acquire_by now cluster p none nil)
      ∙ ap (λ q. slots cluster (some q)) (release_by now cluster p none nil)
  | inr (l, found) ↦
      let taken = acquire_by now cluster p (some l) found in
      let l' : Limiter = (acquire now l).1 in
      let p' : Pool = record p { buckets = insert cluster l' p.buckets } in
      let granted' : (acquire now l).0 ≡ true = ap (λ q. q.0) (sym taken) ∙ granted in
      let there : bucket now cluster p' ≡ some l' =
        bucket_of_found now cluster p' l' (lookup-insert_self cluster l' p.buckets) in
      ap (λ q. slots cluster (some (pool_release now cluster q.1))) taken
      ∙ ap (λ q. slots cluster (some q)) (release_by now cluster p' (some l') there)
      ∙ slots-insert cluster (release l') p'
      ∙ acquire-release now l granted'
      ∙ sym (bucket-in_flight now cluster p l found)
]

pool-refused :
    (now : ℕ) (cluster : Text) (p : Pool)
    → (pool_acquire now cluster p).0 ≡ false
    → slots cluster (some (pool_acquire now cluster p).1) ≡ slots cluster (some p)
pool-refused now cluster p refused = elim (Option-cases (bucket now cluster p)) [
  | inl nil ↦ ap (λ q. slots cluster (some q.1)) (acquire_by now cluster p none nil)
  | inr (l, found) ↦
      let taken = acquire_by now cluster p (some l) found in
      let refused' : (acquire now l).0 ≡ false = ap (λ q. q.0) (sym taken) ∙ refused in
      ap (λ q. slots cluster (some q.1)) taken
      ∙ slots-insert cluster (acquire now l).1 p
      ∙ refused-in_flight now l refused'
      ∙ sym (bucket-in_flight now cluster p l found)
]

module _ {W M X : Type 0} (services : Services W M X) (rules : List Rule) (client : Client) where
  with_slot-slots :
      (now : ℕ) (cluster : Text) (call : W → Option Analysis × W) (w : W) (pool : Option Pool)
      → slots cluster
          (with_slot services rules client now cluster call w (acquire_slot now cluster pool)).1.1
        ≡ slots cluster pool
  unfolding acquire_slot release_slot
  with_slot-slots now cluster call w none = refl
  with_slot-slots now cluster call w (some p) = elim (Bool-cases (pool_acquire now cluster p).0) [
    | inl granted ↦ rw (granted, with_slot) (pool-returned now cluster p granted)
    | inr refused ↦ rw (refused, with_slot) (pool-refused now cluster p refused)
  ]

  on_miss-slots :
      (now : ℕ) (p : AlertPayload) (pool : Option Pool) (r : Option Analysis × W)
      → slots p.cluster_id (on_miss services rules client now p pool r).1.1
        ≡ slots p.cluster_id pool
  on_miss-slots now p pool (some cached, w) = refl
  on_miss-slots now p pool (none, w) =
      with_slot-slots now p.cluster_id (ask services rules client p) w pool

  -- An evaluation, of one alert or of a group, ends with as many of the cluster's limiter slots in
  -- use as before it, on a cache hit, a refusal, a failure and an analysis.
  pub evaluate-slots :
      (now : ℕ) (p : AlertPayload) (alerts : List AlertPayload) (w : W) (pool : Option Pool)
      → (slots p.cluster_id (evaluate services rules client now p (w, pool)).1.1
          ≡ slots p.cluster_id pool)
        × (slots p.cluster_id (evaluate_incident services rules client now p alerts (w, pool)).1.1
            ≡ slots p.cluster_id pool)
  unfolding evaluate evaluate_incident
  evaluate-slots now p alerts w pool = (
    on_miss-slots now p pool (services.cache_get p w),
    with_slot-slots now p.cluster_id (ask_group services rules client p alerts) w pool,
  )

  after_resolved-budget :
      (p : AlertPayload) (s : State W) (r : Bool × W)
      → ((after_resolved services rules client p s r).pool ≡ s.pool)
        × ((after_resolved services rules client p s r).correlator ≡ s.correlator)
  unfolding process_resolved
  after_resolved-budget p s (true, w) = (refl, refl)
  after_resolved-budget p s (false, w) = (refl, refl)

  -- A resolved alert, new or repeated, takes no slot and no token of any tenant, and no open
  -- incident changes.
  pub process-resolved :
      (now : ℕ) (p : AlertPayload) (s : State W)
      → p.status ≡ codes "resolved"
      → ((process services rules client now p s).pool ≡ s.pool)
        × ((process services rules client now p s).correlator ≡ s.correlator)
  unfolding process
  process-resolved now p s e =
      rw ((text_eq_iff p.status (codes "resolved")).1 e)
        (after_resolved-budget p s (services.is_duplicate_resolved p s.world))

  -- A firing alert that the deduplicator has seen leaves the limiter and the open incidents alone,
  -- and the world as the deduplicator left it.
  pub process-duplicate :
      (now : ℕ) (p : AlertPayload) (s : State W)
      → p.status ≢ codes "resolved"
      → (services.is_duplicate p s.world).0 ≡ true
      → process services rules client now p s
        ≡ record s { world = (services.is_duplicate p s.world).1 }
  unfolding process
  process-duplicate now p s firing dup = elim (Bool-cases (text_eq p.status (codes "resolved"))) [
    | inl e ↦ absurd (firing ((text_eq_iff p.status (codes "resolved")).0 e))
    | inr e ↦ rw (e, dup) refl
  ]
