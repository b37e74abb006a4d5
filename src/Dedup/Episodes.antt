-- ===== src/Dedup/Episodes.antt =====
-- The keys: which alerts share a marker.
use muthur.Prelude.{
  ℕ, Text, codes, Option, ◌++◌, ◌∷◌, ◌≡◌, ◌≢◌, arith, All, leb, true, ◌&&◌, ◌||◌, InInt64, ◌↔◌, [],
}
use muthur.Alert.{AlertPayload}
use muthur.AlertKey.{raw_key, raw_episode_key}
use muthur.AlertKey.Injective.{
  HasPlainFields, SameAlert, raw_key-injective, raw_episode_key-injective,
}
use muthur.Store.{Store}
use muthur.Store.Laws.{StoreLaws}
use muthur.Dedup.{Deduplicator, firing_key, resolved_key, is_duplicate_resolved}

-- "%x" prints lower-case hexadecimal digits, and more than none.
abbrev pub IsHex : ℕ → Type 0
IsHex c = ((leb b'0' c && leb c b'9') || (leb b'a' c && leb c b'f')) ≡ true

abbrev pub IsHexText : Text → Type 0
IsHexText [] = ⊥
IsHexText (c ∷ s) = IsHex c × All IsHex s

-- A digest in hex cannot begin like "resolved:".
not-hex-prefix : (h k : Text) → IsHexText h → h ≢ codes "resolved:" ++ k
not-hex-prefix [] k x e = elim x [ ]
not-hex-prefix (c ∷ h) k x e = ground arith

drop-prefix : (a b : Text) → codes "dedup:" ++ a ≡ codes "dedup:" ++ b → a ≡ b
drop-prefix a b e = ground arith

drop-prefix_resolved :
    (a b : Text) → codes "dedup:resolved:" ++ a ≡ codes "dedup:resolved:" ++ b → a ≡ b
drop-prefix_resolved a b e = ground arith

module _ {S : Type 0} (st : Store S) (sha256_hex : Text → Text) (d : Deduplicator) where
  module _ (p q : AlertPayload) (hp : HasPlainFields p) (hq : HasPlainFields q) where
    firing_of_same : SameAlert p q → firing_key st sha256_hex d p ≡ firing_key st sha256_hex d q
    unfolding firing_key
    firing_of_same same = rw (same.cluster, same.alert, same.namespace, same.pod)

    -- Two alerts share a firing marker exactly where cluster, alert, namespace and pod agree, if
    -- their digests do not collide and no field holds the separator.
    pub firing_key_iff :
        (sha256_hex (raw_key p) ≡ sha256_hex (raw_key q) → raw_key p ≡ raw_key q)
        → (firing_key st sha256_hex d p ≡ firing_key st sha256_hex d q) ↔ SameAlert p q
    firing_key_iff no_collision = (
      λ e. raw_key-injective p q hp hq (no_collision (drop-prefix _ _ (unfold firing_key in e))),
      firing_of_same,
    )

    resolved_key-injective :
        (sha256_hex (raw_episode_key p) ≡ sha256_hex (raw_episode_key q)
          → raw_episode_key p ≡ raw_episode_key q)
        → InInt64 p.fired_at
        → InInt64 q.fired_at
        → resolved_key st sha256_hex d p ≡ resolved_key st sha256_hex d q
        → SameAlert p q × (p.fired_at ≡ q.fired_at)
    unfolding resolved_key
    resolved_key-injective no_collision rp rq e =
        raw_episode_key-injective p q hp hq rp rq (no_collision (drop-prefix_resolved _ _ e))

  resolved-ne-firing :
      (p q : AlertPayload)
      → IsHexText (sha256_hex (raw_key q))
      → resolved_key st sha256_hex d p ≢ firing_key st sha256_hex d q
  unfolding resolved_key firing_key
  resolved-ne-firing p q hex e =
      not-hex-prefix (sha256_hex (raw_key q)) (sha256_hex (raw_episode_key p)) hex (ground arith)

  -- A resolved notification marks its own firing episode and nothing else: the marker of another
  -- episode, also one of the same alert, and every firing marker show what they showed before.
  pub resolved-touches_own_episode :
      {view : ℕ → Text → S → Option Text}
      → StoreLaws st view
      → (p q : AlertPayload) → HasPlainFields p
      → HasPlainFields q
      → InInt64 p.fired_at
      → InInt64 q.fired_at
      → (sha256_hex (raw_episode_key p) ≡ sha256_hex (raw_episode_key q)
          → raw_episode_key p ≡ raw_episode_key q)
      → IsHexText (sha256_hex (raw_key q))
      → ¬ (SameAlert p q × (p.fired_at ≡ q.fired_at))
      → (now t : ℕ) (s : S)
      → (view t (resolved_key st sha256_hex d q) (is_duplicate_resolved st sha256_hex d now p s).1
          ≡ view t (resolved_key st sha256_hex d q) s)
        × (view t (firing_key st sha256_hex d q) (is_duplicate_resolved st sha256_hex d now p s).1
            ≡ view t (firing_key st sha256_hex d q) s)
  unfolding is_duplicate_resolved
  resolved-touches_own_episode laws p q hp hq rp rq no_collision hex other now t s = (
    laws.set_nx_frame now _ _ d.window s t _
        (λ e. other (resolved_key-injective p q hp hq no_collision rp rq e)),
    laws.set_nx_frame now _ _ d.window s t _ (resolved-ne-firing p q hex),
  )
