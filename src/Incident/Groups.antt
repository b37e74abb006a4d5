-- ===== src/Incident/Groups.antt =====
-- Groups are of one key, never empty and never above the limit.
use muthur.Prelude.{
  ℕ, ◌≤◌, ◌<◌, Text, List, [], ◌∷◌, ◌++◌, false, Option, none, some, ◌≡◌, refl, arith, All,
  All-append, length, length-append, lookup, insert, lookup-insert, lookup-remove, text_eq,
  text_eq_iff, Option-cases, Bool-cases, inl, inr, leb, subst,
}
use muthur.Alert.{AlertPayload}
use muthur.Incident.{
  Correlator, Bucket, Timer, group_key, add, add_to, open_bucket, flush_key, flushed, fire,
  without_timer,
}

-- An alert arrives, or a timer fires.
pub data Event : Type 0 where
  added : ℕ → AlertPayload → Event
  fired : Timer → Event

unfoldable pub step : Event → Correlator → Option (List AlertPayload) × Correlator
step (added now p) c = (none, add now p c)
step (fired t) c = fire t c

-- A bucket is in order: one key, at least one alert, at most the limit.
pub record IsGroup (k : Text) (limit : ℕ) (l : List AlertPayload) : Type 0 where
  pub one_key : All (λ p. group_key p ≡ k) l
  pub some_alert : 0 < length l
  pub at_most : length l ≤ limit

pub record IsGrouped (c : Correlator) : Type 0 where
  pub limit : 0 < c.max_group
  pub bucket :
      (k : Text) (b : Bucket) → lookup k c.buckets ≡ some b → IsGroup k c.max_group b.alerts

IsGroup-join :
    (p : AlertPayload) (limit : ℕ) (l : List AlertPayload)
    → IsGroup (group_key p) limit l
    → leb limit (length l) ≡ false
    → IsGroup (group_key p) limit (l ++ p ∷ [])
IsGroup-join p limit l g room = record {
  one_key = All-append (λ q. group_key q ≡ group_key p) l (p ∷ []) g.one_key (refl, tt);
  some_alert = omega (arith, length-append l (p ∷ []), g.some_alert);
  at_most = let lt : length l < limit = ground arith in omega (arith, length-append l (p ∷ []), lt);
}

-- A write of a good group under its key keeps the buckets in order.
bucket_of_insert :
    (c : Correlator) (k : Text) (b : Bucket)
    → IsGrouped c
    → IsGroup k c.max_group b.alerts
    → (j : Text) (b' : Bucket) → lookup j (insert k b c.buckets) ≡ some b'
    → IsGroup j c.max_group b'.alerts
bucket_of_insert c k b ok' g j b' found = elim (Bool-cases (text_eq k j)) [
  | inl same ↦
      let e : k ≡ j = (text_eq_iff k j).0 same in
      let here : b ≡ b' = ground (arith, lookup-insert k j b c.buckets) in
      subst (λ x. IsGroup j c.max_group x.alerts) here
        (subst (λ x. IsGroup x c.max_group b.alerts) e g)
  | inr other ↦ ok'.bucket j b' (ground (arith, lookup-insert k j b c.buckets))
]

add-IsGrouped :
    (now : ℕ) (p : AlertPayload) (c : Correlator) → IsGrouped c → IsGrouped (add now p c)
unfolding add
add-IsGrouped now p c g = elim (Option-cases (lookup (group_key p) c.buckets)) [
  | inl absent ↦ rw (absent, add_to) (opened now p c g)
  | inr (b, found) ↦ elim (Bool-cases (leb c.max_group (length b.alerts))) [
    | inl full ↦ rw (found, add_to, full) (opened now p c g)
    | inr room ↦
        rw (found, add_to, room)
          (record {
            limit = g.limit;
            bucket =
                bucket_of_insert c (group_key p) (record b { alerts = b.alerts ++ p ∷ [] }) g
                  (IsGroup-join p c.max_group b.alerts (g.bucket (group_key p) b found) room);
          })
  ]
]
  where
    opened :
        (now : ℕ) (p : AlertPayload) (c : Correlator)
        → IsGrouped c
        → IsGrouped (open_bucket now (group_key p) p c)
    opened now p c g = record {
      limit = g.limit;
      bucket =
          bucket_of_insert c (group_key p) (record { alerts = p ∷ []; timer = c.next_timer }) g
            (record { one_key = (refl, tt); some_alert = omega arith; at_most = g.limit });
    }

flush_key-IsGrouped : (k : Text) (c : Correlator) → IsGrouped c → IsGrouped (flush_key k c).1
unfolding flush_key
flush_key-IsGrouped k c g = record {
  limit = g.limit;
  bucket = λ j b found. g.bucket j b (ground (arith, lookup-remove k j c.buckets));
}

fire-IsGrouped : (t : Timer) (c : Correlator) → IsGrouped c → IsGrouped (fire t c).1
unfolding fire
fire-IsGrouped t c g =
    flush_key-IsGrouped t.key (record c { pending = without_timer t.id c.pending })
      (record { limit = g.limit; bucket = g.bucket })

-- What a step flushes is nothing or a group of one key.
unfoldable pub IsFlush : ℕ → Option (List AlertPayload) → Type 0
IsFlush limit none = Unit
IsFlush limit (some l) = (k : Text) × IsGroup k limit l

IsFlush-flushed :
    (k : Text) (limit : ℕ) (l : List AlertPayload) (timer : ℕ)
    → IsGroup k limit l
    → IsFlush limit (flushed (some (record { alerts = l; timer = timer })))
unfolding IsFlush
IsFlush-flushed k limit [] timer g = tt
IsFlush-flushed k limit (a ∷ l) timer g = (k, g)

fire-IsFlush : (t : Timer) (c : Correlator) → IsGrouped c → IsFlush c.max_group (fire t c).0
unfolding fire flush_key IsFlush
fire-IsFlush t c g = elim (Option-cases (lookup t.key c.buckets)) [
  | inl absent ↦ rw absent tt
  | inr (b, found) ↦
      rw found (IsFlush-flushed t.key c.max_group b.alerts b.timer (g.bucket t.key b found))
]

-- Every step, an arrival or a timer, keeps every open bucket of one key, not empty and within the
-- limit, and a group that a step flushes is of one key, not empty and within the limit as well.
pub step-IsGrouped :
    (e : Event) (c : Correlator)
    → IsGrouped c
    → IsGrouped (step e c).1 × IsFlush c.max_group (step e c).0
unfolding step IsFlush
step-IsGrouped (added now p) c g = (add-IsGrouped now p c g, tt)
step-IsGrouped (fired t) c g = (fire-IsGrouped t c g, fire-IsFlush t c g)
