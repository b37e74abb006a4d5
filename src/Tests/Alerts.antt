-- ===== src/Tests/Alerts.antt =====
-- Alerts: deduplication, groups, the store, limits.
use muthur.Prelude.{
  ℕ, Text, codes, List, [], ◌∷◌, ◌++◌, true, false, none, some, ok, ◌≡◌, ◌≢◌, ◌↔◌, refl, arith,
  text_eq, lookup, insert, inl, inr, ◌≤◌, ◌+◌, ◌*◌, ◌-◌, ◌==◌, if◌then◌else◌, In, Distinct,
  Bool-cases, text_eq_iff, subst,
}
use muthur.AlertKey.Injective.{HasPlainFields, SameAlert}
use muthur.Store.Memory
use muthur.Store.Memory.{Memory, Item, empty, get, set_nx, list_by_prefix}
use muthur.Store.Memory.Backend.{memory, memory_laws}
use muthur.Store.Memory.Listing.{Found, list_by_prefix_iff}
use muthur.Store.Trace.{Op, run, set}
use muthur.Dedup.{Deduplicator, new, firing_key, is_duplicate}
use muthur.Dedup.Window.{is_duplicate-repeat}
use muthur.Dedup.Episodes.{firing_key_iff}
use muthur.Incident.{Correlator, Bucket, Timer, add, flush_key, group_key, fire}
use muthur.Incident.Groups.{Event, added, fired, step, IsGroup, IsGrouped, IsFlush, step-IsGrouped}
use muthur.Incident.Lossless.{HasRoom, held, received, handed_over, final, flushed-lossless}
use muthur.Incident.Overflow.{add-overflow}
use muthur.Limiter
use muthur.Limiter.{Limiter, Pool, token, pool_acquire, pool_release}
use muthur.Limiter.Rate.{Call, acquire_at, release_one, granted, run as run_calls, granted-le}
use muthur.Tests.Data.{alert, other_alert, same_text}

abbrev d : Deduplicator
d = new 1

taken :
    (memory.set_nx 7 (firing_key memory same_text d alert) (codes "1") d.window empty).0 ≡ ok true
unfolding memory set_nx
taken = refl

abbrev later_write : List Op
later_write = set 20 (codes "k") (codes "v") 0 ∷ []

not_the_marker : codes "k" ≢ firing_key memory same_text d alert
unfolding firing_key
not_the_marker e = cc

asked_again :
    (memory.set_nx 30
      (firing_key memory same_text d alert)
      (codes "1")
      d.window
      (run memory later_write (is_duplicate memory same_text d 7 alert empty).1)).0
    ≡ ok false
unfolding memory set_nx run is_duplicate firing_key Memory.set
asked_again = refl

is_duplicate-repeat_example :
    (is_duplicate memory same_text d 30 alert
      (run memory later_write (is_duplicate memory same_text d 7 alert empty).1)).0
    ≡ true
is_duplicate-repeat_example =
    is_duplicate-repeat memory memory_laws same_text d alert alert 7 30 empty later_write false refl
      taken (omega arith, tt) (not_the_marker, tt) (omega arith) (omega arith) asked_again

alert-HasPlainFields : HasPlainFields alert
alert-HasPlainFields = record {
  cluster = ((λ e. omega arith), ((λ e. omega arith), tt));
  alert = (
    (λ e. omega arith),
    ((λ e. omega arith), ((λ e. omega arith), ((λ e. omega arith), ((λ e. omega arith), tt)))),
  );
  namespace = ((λ e. omega arith), ((λ e. omega arith), tt));
  pod = ((λ e. omega arith), ((λ e. omega arith), ((λ e. omega arith), tt)));
}

firing_key_iff_example :
    (firing_key memory same_text d alert ≡ firing_key memory same_text d alert)
    ↔ SameAlert alert alert
firing_key_iff_example =
    firing_key_iff memory same_text d alert alert alert-HasPlainFields alert-HasPlainFields (λ e. e)

abbrev stored : Memory
stored = (codes "a:1", record { val = codes "v"; expires_at = none }) ∷ []

stored-Distinct : Distinct stored
unfolding lookup
stored-Distinct = (refl, tt)

list_by_prefix_iff_example :
    In (codes "v") (list_by_prefix 3 (codes "a:") stored) ↔ Found 3 (codes "a:") (codes "v") stored
list_by_prefix_iff_example = list_by_prefix_iff 3 (codes "a:") (codes "v") stored stored-Distinct

abbrev bucket : Bucket
bucket = record { alerts = alert ∷ []; timer = 0 }

abbrev key : Text
key = codes "c1|ns|ns"

abbrev timer : Timer
timer = record { id = 0; key = key; due = 10 }

abbrev groups : ℕ → Correlator
groups max = record {
  enabled = true;
  window = 10;
  max_group = max;
  buckets = (key, bucket) ∷ [];
  pending = timer ∷ [];
  next_timer = 1;
}

abbrev events : List Event
events = added 5 other_alert ∷ (fired timer ∷ [])

has_room : HasRoom events (groups 25)
unfolding HasRoom lookup group_key text_eq fire flush_key add
has_room = (refl, tt)

flushed-lossless_example :
    held key (groups 25) ++ received key events
    ≡ handed_over key events (groups 25) ++ held key (final events (groups 25))
flushed-lossless_example = flushed-lossless key events (groups 25) has_room

groups-IsGrouped : IsGrouped (groups 25)
unfolding lookup
groups-IsGrouped = record {
  limit = omega arith;
  bucket = λ k b found. elim (Bool-cases (text_eq key k)) [
    | inl same ↦
        let here : bucket ≡ b = ground arith in
        subst (λ x. IsGroup k 25 x.alerts) here
          (subst (λ x. IsGroup x 25 bucket.alerts) ((text_eq_iff key k).0 same) one)
    | inr other ↦ absurd (ground arith)
  ];
}
  where
    one : IsGroup key 25 (alert ∷ [])
    one = record {
      one_key = (unfold group_key in refl, tt);
      some_alert = omega arith;
      at_most = omega arith;
    }

step-IsGrouped_example :
    IsGrouped (step (fired timer) (groups 25)).1 × IsFlush 25 (step (fired timer) (groups 25)).0
step-IsGrouped_example = step-IsGrouped (fired timer) (groups 25) groups-IsGrouped

bucket_found : lookup (group_key other_alert) (groups 1).buckets ≡ some bucket
unfolding lookup group_key text_eq
bucket_found = refl

add-overflow_example :
    ((add 5 other_alert (groups 1)).buckets
      ≡ insert
          (group_key other_alert)
          (record { alerts = other_alert ∷ []; timer = 1 })
          (groups 1).buckets)
    × ((flush_key (group_key other_alert) (add 5 other_alert (groups 1))).0
        ≡ some (other_alert ∷ []))
add-overflow_example = add-overflow 5 other_alert (groups 1) bucket bucket_found (omega arith)

abbrev limiter : Limiter
limiter = record {
  tokens = 2 * token;
  max_tokens = 2 * token;
  refill = 1;
  last = 100;
  in_flight = 0;
  max_concurrent = 1;
}

abbrev earlier : List Call
earlier = acquire_at 105 ∷ (release_one ∷ [])

abbrev calls : List Call
calls = acquire_at 200 ∷ (release_one ∷ (acquire_at 205 ∷ []))

granted-le_example :
    granted calls (run_calls earlier limiter) * token
    ≤ (if 2 == 0 then 1 else 2) * token + (300 - 150) * 1
granted-le_example =
    granted-le 1 2 1 100 150 300 earlier calls {l = limiter} (unfold Limiter.new in refl)
      (omega arith, omega arith) (omega arith, (omega arith, omega arith))

abbrev pool : Pool
pool = record { buckets = []; calls_per_minute = 1; burst = 2; max_concurrent = 1 }
