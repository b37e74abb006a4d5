-- ===== src/Incident/Overflow.antt =====
-- What an alert does to a group that is full.
use muthur.Prelude.{
  ℕ, ◌≤◌, [], ◌∷◌, true, some, ◌≡◌, refl, arith, length, lookup, insert, lookup-insert_self, leb,
}
use muthur.Alert.{AlertPayload}
use muthur.Incident.{Correlator, Bucket, group_key, add, add_to, open_bucket, flush_key}

leb_of_le : (a b : ℕ) → a ≤ b → leb a b ≡ true
leb_of_le a b h = ground arith

-- An alert that meets a full bucket replaces it by a bucket of its own, and a flush of the key then
-- hands over the new alert alone, without those of the full bucket.
pub add-overflow :
    (now : ℕ) (p : AlertPayload) (c : Correlator) (b : Bucket)
    → lookup (group_key p) c.buckets ≡ some b
    → c.max_group ≤ length b.alerts
    → ((add now p c).buckets
        ≡ insert (group_key p) (record { alerts = p ∷ []; timer = c.next_timer }) c.buckets)
      × ((flush_key (group_key p) (add now p c)).0 ≡ some (p ∷ []))
unfolding add flush_key
add-overflow now p c b found full =
    let replaced : add_to now (group_key p) p (lookup (group_key p) c.buckets) c
        ≡ open_bucket now (group_key p) p c =
      rw (found, add_to, leb_of_le c.max_group (length b.alerts) full) refl in
    rw replaced (
      refl,
      rw
          (lookup-insert_self (group_key p) (record { alerts = p ∷ []; timer = c.next_timer })
            c.buckets)
          refl,
    )
