-- ===== src/AlertKey/Injective.antt =====
-- When two alerts have the same key.
use muthur.Prelude.{
  ℕ, Text, [], ◌∷◌, ◌++◌, ◌≡◌, ◌≢◌, refl, arith, All, InInt64, format_int-injective,
}
use muthur.Alert.{AlertPayload}
use muthur.AlertKey.{raw_key, raw_episode_key}

-- The text holds no `c`.
abbrev pub Lacks : ℕ → Text → Type 0
Lacks c = All (λ x. x ≢ c)

-- What stands before the first separator is determined.
pub split-injective :
    (c : ℕ) (x y s t : Text)
    → Lacks c x
    → Lacks c y
    → x ++ (c ∷ s) ≡ y ++ (c ∷ t)
    → (x ≡ y) × (s ≡ t)
split-injective c [] [] s t hx hy e = (refl, ground arith)
split-injective c [] (b ∷ y) s t hx hy e = absurd (hy.0 (ground arith))
split-injective c (a ∷ x) [] s t hx hy e = absurd (hx.0 (ground arith))
split-injective c (a ∷ x) (b ∷ y) s t hx hy e =
    let (p, q) = split-injective c x y s t hx.1 hy.1 (ground arith) in (ground arith, q)

-- The fields that a key joins hold no separator. Kubernetes names never do.
pub record HasPlainFields (p : AlertPayload) : Type 0 where
  pub cluster : Lacks b'|' p.cluster_id
  pub alert : Lacks b'|' p.alert_name
  pub namespace : Lacks b'|' p.namespace
  pub pod : Lacks b'|' p.pod_name

-- Two alerts are the same up to the firing time.
pub record SameAlert (p q : AlertPayload) : Type 0 where
  pub cluster : p.cluster_id ≡ q.cluster_id
  pub alert : p.alert_name ≡ q.alert_name
  pub namespace : p.namespace ≡ q.namespace
  pub pod : p.pod_name ≡ q.pod_name

module _ (p q : AlertPayload) (hp : HasPlainFields p) (hq : HasPlainFields q) where
  pub raw_key-injective : raw_key p ≡ raw_key q → SameAlert p q
  unfolding raw_key
  raw_key-injective e =
      let (cluster, e') = split-injective _ _ _ _ _ hp.cluster hq.cluster e in
      let (alert, e'') = split-injective _ _ _ _ _ hp.alert hq.alert e' in
      let (namespace, pod) = split-injective _ _ _ _ _ hp.namespace hq.namespace e'' in
      record { cluster = cluster; alert = alert; namespace = namespace; pod = pod }

  -- Two alerts with the same episode key agree in cluster, alert, namespace, pod and firing time,
  -- if no field holds the separator and the times are 64-bit numbers.
  pub raw_episode_key-injective :
      InInt64 p.fired_at
      → InInt64 q.fired_at
      → raw_episode_key p ≡ raw_episode_key q
      → SameAlert p q × (p.fired_at ≡ q.fired_at)
  unfolding raw_episode_key
  raw_episode_key-injective rp rq e =
      let (cluster, e') = split-injective _ _ _ _ _ hp.cluster hq.cluster e in
      let (alert, e'') = split-injective _ _ _ _ _ hp.alert hq.alert e' in
      let (namespace, e''') = split-injective _ _ _ _ _ hp.namespace hq.namespace e'' in
      let (pod, fired) = split-injective _ _ _ _ _ hp.pod hq.pod e''' in
      (
        record { cluster = cluster; alert = alert; namespace = namespace; pod = pod },
        format_int-injective p.fired_at q.fired_at rp rq fired,
      )
