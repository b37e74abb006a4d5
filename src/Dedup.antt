-- ===== src/Dedup.antt =====
-- internal/dedup/dedup.go: repeat firings are dropped within a window by one atomic set-if-absent.
-- The metric and the log lines are left out. A call reads the clock once, at `now`.
pub mod Window
pub mod Episodes
use muthur.Prelude.{ℕ, ◌*◌, ◌^◌, Text, codes, Bool, true, false, ◌++◌, [], ◌∷◌, Result, ok, err}
use muthur.Alert.{AlertPayload}
use muthur.AlertKey.{raw_key, raw_episode_key}
use muthur.Store.{Store, StoreError}

-- `time.Minute`, in nanoseconds.
abbrev pub minute : ℕ
minute = 60 * 10 ^ 9

pub record Deduplicator : Type 0 where
  pub window : ℕ

abbrev pub new : ℕ → Deduplicator
new window_minutes = record { window = window_minutes * minute }

-- The end of both methods: an error lets the alert through.
abbrev pub seen : Result StoreError Bool → Bool
seen (err e) = false
seen (ok true) = false
seen (ok false) = true

module _ {S : Type 0} (st : Store S) (sha256_hex : Text → Text) (d : Deduplicator) where
  unfoldable pub firing_key : AlertPayload → Text
  unfolding raw_key
  firing_key p = codes "dedup:" ++ sha256_hex (raw_key p)

  unfoldable pub resolved_key : AlertPayload → Text
  unfolding raw_episode_key
  resolved_key p = codes "dedup:resolved:" ++ sha256_hex (raw_episode_key p)

  unfoldable pub is_duplicate : ℕ → AlertPayload → S → Bool × S
  is_duplicate now p s =
      let (set, s') = st.set_nx now (firing_key p) (codes "1") d.window s in (seen set, s')

  unfoldable pub is_duplicate_resolved : ℕ → AlertPayload → S → Bool × S
  is_duplicate_resolved now p s =
      let (set, s') = st.set_nx now (resolved_key p) (codes "1") d.window s in (seen set, s')
