-- ===== src/Pipeline.antt =====
-- internal/pipeline/pipeline.go: what happens to an alert between ingestion and the receivers. The
-- limiter's pool, the correlator, the routing rules and the silence guards are the modelled ones; the
-- other components are the operations of `Services`, on a world that they share. One instant is read
-- for each operation; deadlines, metrics and logs are not modelled.
pub mod Silencing
pub mod Delivery
pub mod Budget
use muthur.Prelude.{
  ℕ, Text, codes, List, [], ◌∷◌, Bool, true, false, Option, none, some, Result, text_eq,
  if◌then◌else◌,
}
use muthur.Alert.{AlertPayload}
use muthur.Evaluator.{Analysis}
use muthur.Incident
use muthur.Incident.{Timer, fire, Correlator, add, representative}
use muthur.Limiter.{Pool, pool_acquire, pool_release}
use muthur.Routing.{Rule, route}
use muthur.Silence.{Client, SilenceRequest, create_silence}

-- `W` is the world, `M` a message and `X` the examples of the feedback manager. An evaluation that
-- fails is none, and so is the analysis of a cache miss; `notifier` is the map of receivers.
pub record Services (W M X : Type 0) : Type 0 where
  pub is_duplicate : AlertPayload → W → Bool × W
  pub is_duplicate_resolved : AlertPayload → W → Bool × W
  pub cache_get : AlertPayload → W → Option Analysis × W
  pub cache_set : AlertPayload → Analysis → W → W
  pub examples : AlertPayload → W → X × W
  pub evaluate_alert : AlertPayload → X → W → Option Analysis × W
  pub evaluate_group : List AlertPayload → X → W → Option Analysis × W
  pub record_history : AlertPayload → Option Analysis → List AlertPayload → W → W
  pub record_feedback : AlertPayload → Analysis → W → (Text × Text) × W
  pub format_message : AlertPayload → Option Analysis → M
  pub format_incident : AlertPayload → List AlertPayload → Option Analysis → M
  pub attach_evidence : AlertPayload → M → M
  pub with_links : Text → Text → M → M
  pub notifier : Text → Option (M → W → Bool × W)
  pub rfc3339 : ℕ → Text
  pub post_silence : Text → SilenceRequest → W → Option ℕ × W

-- No pool is the nil one, which limits nothing.
pub record State (W : Type 0) : Type 0 where
  pub world : W
  pub pool : Option Pool
  pub correlator : Correlator

unfoldable pub acquire_slot : ℕ → Text → Option Pool → Bool × Option Pool
acquire_slot now cluster none = (true, none)
acquire_slot now cluster (some p) =
    let (granted, p') = pool_acquire now cluster p in (granted, some p')

unfoldable pub release_slot : ℕ → Text → Option Pool → Option Pool
release_slot now cluster none = none
release_slot now cluster (some p) = some (pool_release now cluster p)

module _ {W M X : Type 0} (services : Services W M X) (rules : List Rule) (client : Client) where
  -- An evaluation that has its slot, and returns it however it ends.
  abbrev pub with_slot :
      ℕ
      → Text
      → (W → Option Analysis × W)
      → W
      → Bool × Option Pool
      → Option Analysis × (W × Option Pool)
  with_slot now cluster call w (false, pool) = (none, (w, pool))
  with_slot now cluster call w (true, pool) =
      let (analysis, w') = call w in (analysis, (w', release_slot now cluster pool))

  abbrev pub store_fresh : AlertPayload → Option Analysis × W → Option Analysis × W
  store_fresh p (none, w) = (none, w)
  store_fresh p (some a, w) = (some a, services.cache_set p a w)

  abbrev pub ask : AlertPayload → W → Option Analysis × W
  ask p w = let (x, w') = services.examples p w in store_fresh p (services.evaluate_alert p x w')

  abbrev pub ask_group : AlertPayload → List AlertPayload → W → Option Analysis × W
  ask_group rep alerts w =
      let (x, w') = services.examples rep w in services.evaluate_group alerts x w'

  abbrev pub on_miss :
      ℕ → AlertPayload → Option Pool → Option Analysis × W → Option Analysis × (W × Option Pool)
  on_miss now p pool (some cached, w) = (some cached, (w, pool))
  on_miss now p pool (none, w) =
      with_slot now p.cluster_id (ask p) w (acquire_slot now p.cluster_id pool)

  -- `evaluate`
  unfoldable pub evaluate : ℕ → AlertPayload → W × Option Pool → Option Analysis × (W × Option Pool)
  evaluate now p (w, pool) = on_miss now p pool (services.cache_get p w)

  -- `evaluateIncident`
  unfoldable pub evaluate_incident :
      ℕ → AlertPayload → List AlertPayload → W × Option Pool → Option Analysis × (W × Option Pool)
  evaluate_incident now rep alerts (w, pool) =
      with_slot now rep.cluster_id (ask_group rep alerts) w (acquire_slot now rep.cluster_id pool)

  -- `maybeSilence`: an error of the API is only logged.
  unfoldable pub maybe_silence : ℕ → AlertPayload → Option Analysis → W → W
  maybe_silence now p none w = w
  maybe_silence now p (some a) w =
      if a.silence
      then if text_eq a.confidence (codes "low")
        then w
        else (create_silence services.rfc3339 services.post_silence now client p a.silence_reason
            w).1
      else w

  -- `attachFeedback`
  abbrev pub attach_feedback : AlertPayload → Option Analysis → M → W → M × W
  attach_feedback p none msg w = (msg, w)
  attach_feedback p (some a) msg w =
      let ((up, down), w') = services.record_feedback p a w in (services.with_links up down msg, w')

  abbrev pub send_by : Option (M → W → Bool × W) → M → W → W
  send_by none msg w = w
  send_by (some send) msg w = (send msg w).1

  -- The loop of `deliver`: a receiver that is unknown or that fails stops nobody.
  unfoldable pub send_all : List Text → M → W → W
  send_all [] msg w = w
  send_all (name ∷ names) msg w = send_all names msg (send_by (services.notifier name) msg w)

  unfoldable pub deliver : AlertPayload → M → W → W
  deliver p msg w = send_all (route rules p) msg w

  -- What follows an analysis, or the lack of one.
  unfoldable pub finish : ℕ → AlertPayload → List AlertPayload → M → Option Analysis → W → W
  finish now p alerts msg analysis w =
      let w1 = maybe_silence now p analysis w in
      let w2 = services.record_history p analysis alerts w1 in
      let (msg', w3) = attach_feedback p analysis (services.attach_evidence p msg) w2 in
      deliver p msg' w3

  -- `processSingle`
  unfoldable pub process_single : ℕ → AlertPayload → State W → State W
  process_single now p s =
      let (analysis, (w, pool)) = evaluate now p (s.world, s.pool) in
      record s {
        world = finish now p (p ∷ []) (services.format_message p analysis) analysis w;
        pool = pool;
      }

  -- The groups of `processIncident`: one alert is rendered as a normal one.
  abbrev pub process_group : ℕ → Option AlertPayload → List AlertPayload → State W → State W
  process_group now none alerts s = s
  process_group now (some rep) (a ∷ []) s =
      let (analysis, (w, pool)) = evaluate now rep (s.world, s.pool) in
      record s {
        world = finish now rep (a ∷ []) (services.format_message rep analysis) analysis w;
        pool = pool;
      }
  process_group now (some rep) [] s = s
  process_group now (some rep) (a ∷ (b ∷ l)) s =
      let (analysis, (w, pool)) = evaluate_incident now rep (a ∷ (b ∷ l)) (s.world, s.pool) in
      record s {
        world =
            finish now rep (a ∷ (b ∷ l)) (services.format_incident rep (a ∷ (b ∷ l)) analysis)
              analysis w;
        pool = pool;
      }

  unfoldable pub process_incident : ℕ → List AlertPayload → State W → State W
  process_incident now alerts s = process_group now (representative alerts) alerts s

  -- `processResolved`
  unfoldable pub process_resolved : AlertPayload → State W → State W
  process_resolved p s = record s { world = deliver p (services.format_message p none) s.world }

  abbrev pub process_fresh : ℕ → AlertPayload → State W → State W
  process_fresh now p s =
      if s.correlator.enabled
      then record s { correlator = add now p s.correlator }
      else process_single now p s

  abbrev pub after_resolved : AlertPayload → State W → Bool × W → State W
  after_resolved p s (dup, w) =
      if dup then record s { world = w } else process_resolved p (record s { world = w })

  abbrev pub after_firing : ℕ → AlertPayload → State W → Bool × W → State W
  after_firing now p s (dup, w) =
      if dup then record s { world = w } else process_fresh now p (record s { world = w })

  -- `Process`
  unfoldable pub process : ℕ → AlertPayload → State W → State W
  process now p s =
      if text_eq p.status (codes "resolved")
      then after_resolved p s (services.is_duplicate_resolved p s.world)
      else after_firing now p s (services.is_duplicate p s.world)

  -- The flush callback, for each group in turn.
  abbrev pub process_groups : ℕ → List (List AlertPayload) → State W → State W
  process_groups now [] s = s
  process_groups now (g ∷ groups) s = process_groups now groups (process_incident now g s)

  -- `Drain`, where no alert arrives in between.
  unfoldable pub drain : ℕ → State W → State W
  drain now s =
      let (groups, c) = Incident.drain s.correlator in
      process_groups now groups (record s { correlator = c })

  abbrev pub flushed_group : ℕ → Option (List AlertPayload) × Correlator → State W → State W
  flushed_group now (none, c) s = record s { correlator = c }
  flushed_group now (some g, c) s = process_incident now g (record s { correlator = c })

  -- A timer of the correlator fires.
  unfoldable pub timer_fires : ℕ → Timer → State W → State W
  timer_fires now t s = flushed_group now (fire t s.correlator) s
