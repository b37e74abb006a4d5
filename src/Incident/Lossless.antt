-- ===== src/Incident/Lossless.antt =====
-- What arrives for a key and what its flushes hand over, along any run of arrivals and timers in
-- which no alert meets a full bucket.
use mathlib.Core.List.{append_assoc, append-nil}
use muthur.Prelude.{
  ℕ, Text, List, [], ◌∷◌, ◌++◌, false, Option, none, some, ◌≡◌, refl, sym, ap, ◌∙◌, arith, length,
  lookup, insert, lookup-insert, lookup-remove, text_eq, text_eq_iff, Option-cases, Bool-cases, inl,
  inr, leb, if◌then◌else◌,
}
use muthur.Alert.{AlertPayload}
use muthur.Incident.{Correlator, Bucket, Timer, group_key, add, add_to, flush_key, flushed, fire}
use muthur.Incident.Groups.{Event, added, fired, step}

abbrev pub alerts_of : Option Bucket → List AlertPayload
alerts_of none = []
alerts_of (some b) = b.alerts

-- The alerts that wait under a key.
abbrev pub held : Text → Correlator → List AlertPayload
held k c = alerts_of (lookup k c.buckets)

abbrev pub group_of : Option (List AlertPayload) → List AlertPayload
group_of none = []
group_of (some l) = l

abbrev pub final : List Event → Correlator → Correlator
final [] c = c
final (e ∷ es) c = final es (step e c).1

-- The arrivals of a key, in order.
abbrev pub received_now : Text → Event → List AlertPayload
received_now k (added now p) = if text_eq (group_key p) k then p ∷ [] else []
received_now k (fired t) = []

abbrev pub received : Text → List Event → List AlertPayload
received k [] = []
received k (e ∷ es) = received_now k e ++ received k es

-- What the flushes of a key hand to the callback, in order.
abbrev pub handed_now : Text → Event → Correlator → List AlertPayload
handed_now k (added now p) c = []
handed_now k (fired t) c = if text_eq t.key k then group_of (step (fired t) c).0 else []

abbrev pub handed_over : Text → List Event → Correlator → List AlertPayload
handed_over k [] c = []
handed_over k (e ∷ es) c = handed_now k e c ++ handed_over k es (step e c).1

-- No arrival meets a full bucket.
unfoldable pub HasRoom : List Event → Correlator → Type 0
HasRoom [] c = Unit
HasRoom (added now p ∷ es) c =
    (leb c.max_group (length (held (group_key p) c)) ≡ false) × HasRoom es (add now p c)
HasRoom (fired t ∷ es) c = HasRoom es (fire t c).1

held-insert :
    (j k : Text) (b : Bucket) (c : Correlator)
    → alerts_of (lookup j (insert k b c.buckets)) ≡ (if text_eq k j then b.alerts else held j c)
held-insert j k b c = elim (Bool-cases (text_eq k j)) [
  | inl same ↦ rw (lookup-insert k j b c.buckets, same) refl
  | inr other ↦ rw (lookup-insert k j b c.buckets, other) refl
]

held-add_if :
    (now : ℕ) (p : AlertPayload) (k : Text) (c : Correlator)
    → leb c.max_group (length (held (group_key p) c)) ≡ false
    → held k (add now p c)
      ≡ (if text_eq (group_key p) k then held (group_key p) c ++ (p ∷ []) else held k c)
unfolding add
held-add_if now p k c room = elim (Option-cases (lookup (group_key p) c.buckets)) [
  | inl absent ↦
      rw (absent, add_to)
        (held-insert k (group_key p) (record { alerts = p ∷ []; timer = c.next_timer }) c)
  | inr (b, found) ↦
      let room' : leb c.max_group (length b.alerts) ≡ false =
        ap (λ o. leb c.max_group (length (alerts_of o))) (sym found) ∙ room in
      rw (found, add_to, room')
        (held-insert k (group_key p) (record b { alerts = b.alerts ++ p ∷ [] }) c)
]

-- An arrival is appended to what its key holds; other keys keep theirs.
held-add :
    (now : ℕ) (p : AlertPayload) (k : Text) (c : Correlator)
    → leb c.max_group (length (held (group_key p) c)) ≡ false
    → held k (add now p c) ≡ held k c ++ received_now k (added now p)
held-add now p k c room = elim (Bool-cases (text_eq (group_key p) k)) [
  | inl same ↦
      let e : group_key p ≡ k = (text_eq_iff (group_key p) k).0 same in
      let there : held k (add now p c) ≡ held (group_key p) c ++ (p ∷ []) =
        held-add_if now p k c room ∙ rw same refl in
      rw same (there ∙ ap (λ j. held j c ++ (p ∷ [])) e)
  | inr other ↦
      let there : held k (add now p c) ≡ held k c = held-add_if now p k c room ∙ rw other refl in
      rw other (there ∙ sym (append-nil (held k c)))
]

group_of-flushed : (o : Option Bucket) → group_of (flushed o) ≡ alerts_of o
group_of-flushed none = refl
group_of-flushed (some b) = ground arith

-- A timer hands over what its key holds, and leaves the other keys alone.
held-fire :
    (t : Timer) (k : Text) (c : Correlator)
    → handed_now k (fired t) c ++ held k (fire t c).1 ≡ held k c
unfolding fire flush_key step
held-fire t k c = elim (Bool-cases (text_eq t.key k)) [
  | inl same ↦
      let e : t.key ≡ k = (text_eq_iff t.key k).0 same in
      rw (same, lookup-remove t.key k c.buckets, same)
        (append-nil (group_of (flushed (lookup t.key c.buckets)))
          ∙ group_of-flushed (lookup t.key c.buckets)
          ∙ ap (λ j. held j c) e)
  | inr other ↦ rw (other, lookup-remove t.key k c.buckets, other) refl
]

-- Along a run of arrivals and timers in which no arrival meets a full bucket, what a key held at
-- the start and what arrived for it is, in this order and once each, what its flushes handed over
-- followed by what it still holds.
pub flushed-lossless :
    (k : Text) (es : List Event) (c : Correlator)
    → HasRoom es c
    → held k c ++ received k es ≡ handed_over k es c ++ held k (final es c)
unfolding HasRoom step
flushed-lossless k [] c room = append-nil (held k c)
flushed-lossless k (added now p ∷ es) c room =
    let there : held k (add now p c) ≡ held k c ++ received_now k (added now p) =
      held-add now p k c room.0 in
    sym (append_assoc (held k c) (received_now k (added now p)) (received k es))
    ∙ ap (λ l. l ++ received k es) (sym there)
    ∙ flushed-lossless k es (add now p c) room.1
flushed-lossless k (fired t ∷ es) c room =
    let c' : Correlator = (fire t c).1 in
    let g : List AlertPayload = handed_now k (fired t) c in
    ap (λ l. l ++ received k es) (sym (held-fire t k c))
    ∙ append_assoc g (held k c') (received k es)
    ∙ ap (λ l. g ++ l) (flushed-lossless k es c' room)
    ∙ sym (append_assoc g (handed_over k es c') (held k (final es c')))
