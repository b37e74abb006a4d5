-- ===== src/Incident.antt =====
-- internal/incident/correlator.go: alerts of one group are held for a window and flushed together.
-- Alerts and timers are told apart by numbers: `pending` holds the timers that have not fired, each
-- with the key that its callback flushes. A step holds the lock; the flush callback gets the groups.
pub mod Groups
pub mod Lossless
pub mod Overflow
pub mod Rank
use muthur.Prelude.{
  ℕ, ◌+◌, Text, codes, List, [], ◌∷◌, ◌++◌, Bool, true, false, Option, none, some, Map, lookup,
  insert, remove, length, ltb, leb, ◌==◌, text_eq, is_empty, not, if◌then◌else◌,
}
use muthur.Alert.{AlertPayload, AlertTarget}

pub record Bucket : Type 0 where
  pub alerts : List AlertPayload
  pub timer : ℕ

-- A timer that will fire at `due`.
pub record Timer : Type 0 where
  pub id : ℕ
  pub key : Text
  pub due : ℕ

pub record Correlator : Type 0 where
  pub enabled : Bool
  pub window : ℕ
  pub max_group : ℕ
  pub buckets : Map Bucket
  pub pending : List Timer
  pub next_timer : ℕ

unfoldable pub new : Bool → ℕ → ℕ → Correlator
new enabled window max_group = record {
  enabled = enabled;
  window = window;
  max_group = if max_group == 0 then 25 else max_group;
  buckets = [];
  pending = [];
  next_timer = 0;
}

abbrev node_of : Option AlertTarget → Text
node_of none = []
node_of (some t) = t.node

-- Node alerts group by node, all others by namespace.
unfoldable pub group_key : AlertPayload → Text
group_key p =
    if not (is_empty (node_of p.target))
    then p.cluster_id ++ (codes "|node|" ++ node_of p.target)
    else p.cluster_id ++ (codes "|ns|" ++ p.namespace)

-- A fresh bucket replaces the one of the key, and its timer starts.
abbrev open_bucket : ℕ → Text → AlertPayload → Correlator → Correlator
open_bucket now k p c = record c {
  buckets = insert k (record { alerts = p ∷ []; timer = c.next_timer }) c.buckets;
  pending = c.pending ++ record { id = c.next_timer; key = k; due = now + c.window } ∷ [];
  next_timer = c.next_timer + 1;
}

abbrev join_bucket : Text → AlertPayload → Bucket → Correlator → Correlator
join_bucket k p b c = record c {
  buckets = insert k (record b { alerts = b.alerts ++ p ∷ [] }) c.buckets;
}

abbrev add_to : ℕ → Text → AlertPayload → Option Bucket → Correlator → Correlator
add_to now k p none c = open_bucket now k p c
add_to now k p (some b) c =
    if leb c.max_group (length b.alerts) then open_bucket now k p c else join_bucket k p b c

-- `Add`
unfoldable pub add : ℕ → AlertPayload → Correlator → Correlator
add now p c = add_to now (group_key p) p (lookup (group_key p) c.buckets) c

abbrev flushed : Option Bucket → Option (List AlertPayload)
flushed none = none
flushed (some b) = elim b.alerts [ [] ↦ none | a ∷ l ↦ some (a ∷ l) ]

-- `flushKey`: the group that goes to the callback, if any, and the state without the bucket.
unfoldable pub flush_key : Text → Correlator → Option (List AlertPayload) × Correlator
flush_key k c = (flushed (lookup k c.buckets), record c { buckets = remove k c.buckets })

abbrev without_timer : ℕ → List Timer → List Timer
without_timer i [] = []
without_timer i (t ∷ ts) = let rest = without_timer i ts in if t.id == i then rest else t ∷ rest

-- A timer fires: its callback flushes whatever bucket its key has now.
unfoldable pub fire : Timer → Correlator → Option (List AlertPayload) × Correlator
unfolding flush_key
fire t c = flush_key t.key (record c { pending = without_timer t.id c.pending })

abbrev stop_timers : Map Bucket → List Timer → List Timer
stop_timers [] ts = ts
stop_timers ((k, b) ∷ m) ts = stop_timers m (without_timer b.timer ts)

abbrev keys : Map Bucket → List Text
keys [] = []
keys ((k, b) ∷ m) = k ∷ keys m

abbrev collect : Option (List AlertPayload) → List (List AlertPayload) → List (List AlertPayload)
collect none l = l
collect (some g) l = g ∷ l

unfoldable pub flush_keys : List Text → Correlator → List (List AlertPayload) × Correlator
unfolding flush_key
flush_keys [] c = ([], c)
flush_keys (k ∷ ks) c =
    let (g, c') = flush_key k c in let (l, c'') = flush_keys ks c' in (collect g l, c'')

-- `Drain`: the timers of the open buckets are stopped, and every bucket is flushed.
unfoldable pub drain : Correlator → List (List AlertPayload) × Correlator
unfolding flush_keys
drain c = flush_keys (keys c.buckets) (record c { pending = stop_timers c.buckets c.pending })

unfoldable pub severity_rank : Text → ℕ
severity_rank s =
    if text_eq s (codes "critical")
    then 3
    else if text_eq s (codes "warning")
    then 2
    else if text_eq s (codes "info")
    then 1
    else 0

-- The loop of `Representative`.
unfoldable pub best_of : AlertPayload → List AlertPayload → AlertPayload
best_of best [] = best
best_of best (a ∷ l) =
    best_of (if ltb (severity_rank best.severity) (severity_rank a.severity) then a else best) l

unfoldable pub representative : List AlertPayload → Option AlertPayload
unfolding best_of
representative [] = none
representative (a ∷ l) = some (best_of a l)
