-- ===== src/AlertKey.antt =====
-- internal/alertkey/alertkey.go, and the keys of internal/dedup and internal/llmcache: texts that
-- identify an alert. `sha256_hex` is the lower-case hex of crypto/sha256, a parameter.
pub mod Injective
use muthur.Prelude.{Text, ◌∷◌, ◌++◌, take, format_int}
use muthur.Alert.{AlertPayload}

-- "%s|%s|%s|%s" of the cluster, the alert, the namespace and the pod.
unfoldable pub raw_key : AlertPayload → Text
raw_key p = p.cluster_id ++ (b'|' ∷ (p.alert_name ++ (b'|' ∷ (p.namespace ++ (b'|' ∷ p.pod_name)))))

-- "%s|%s|%s|%s|%d", with the firing time.
unfoldable pub raw_episode_key : AlertPayload → Text
unfolding format_int
raw_episode_key p =
    p.cluster_id
    ++ (b'|'
        ∷ (p.alert_name
            ++ (b'|' ∷ (p.namespace ++ (b'|' ∷ (p.pod_name ++ (b'|' ∷ format_int p.fired_at)))))))

module _ (sha256_hex : Text → Text) where
  -- `alertkey.ID`
  unfoldable pub id : AlertPayload → Text
  unfolding raw_episode_key
  id p = take 16 (sha256_hex (raw_episode_key p))
