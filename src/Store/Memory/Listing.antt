-- ===== src/Store/Memory/Listing.antt =====
-- `ListByPrefix` against `Get`: it returns the live values under the prefix, and no others. The
-- operations keep the keys distinct, as a Go map does.
use muthur.Prelude.{
  ℕ, Text, Bool, true, false, none, some, List, [], ◌∷◌, ◌≡◌, refl, arith, text_eq_iff, has_prefix,
  lookup, In, inl, inr, ◌⊎◌, Distinct, insert-Distinct, remove-Distinct, if◌then◌else◌, ◌↔◌,
}
use muthur.Store.Memory.{Memory, Item, get, set, set_nx, delete, sweep, list_by_prefix, expiry}
use muthur.Store.Memory.View.{lookup-sweep_absent}

pub set-Distinct :
    (now : ℕ) (k v : Text) (ttl : ℕ) (m : Memory) → Distinct m → Distinct (set now k v ttl m)
unfolding set
set-Distinct now k v ttl m d = insert-Distinct k _ m d

pub set_nx-Distinct :
    (now : ℕ) (k v : Text) (ttl : ℕ) (m : Memory) → Distinct m → Distinct (set_nx now k v ttl m).1
unfolding set_nx
set_nx-Distinct now k v ttl m d =
    ground (arith, insert-Distinct k (record { val = v; expires_at = expiry now ttl }) m d)

pub delete-Distinct : (k : Text) (m : Memory) → Distinct m → Distinct (delete k m)
unfolding delete
delete-Distinct k m d = remove-Distinct k m d

pub sweep-Distinct : (now : ℕ) (m : Memory) → Distinct m → Distinct (sweep now m)
unfolding sweep
sweep-Distinct now [] d = tt
sweep-Distinct now ((k, i) ∷ m) d =
    ground (arith, sweep-Distinct now m, lookup-sweep_absent now k m)

In-if :
    (v x : Text) (xs : List Text) (b : Bool)
    → In v (if b then xs else x ∷ xs)
    → ((b ≡ false) × (v ≡ x)) ⊎ In v xs
In-if v x xs true h = inr h
In-if v x xs false (inl e) = inl (refl, e)
In-if v x xs false (inr h) = inr h

-- A key under the prefix whose live value is `v`.
abbrev pub Found : ℕ → Text → Text → Memory → Type 0
Found now p v m = (k : Text) × (has_prefix p k ≡ true) × (get now k m ≡ some v)

Found-cons :
    (now : ℕ) (p v k : Text) (i : Item) (m : Memory)
    → lookup k m ≡ none
    → Found now p v m
    → Found now p v ((k, i) ∷ m)
unfolding get lookup
Found-cons now p v k i m absent (j, under, found) = (j, under, ground (arith, text_eq_iff k j))

Found-of_In :
    (now : ℕ) (p v : Text) (m : Memory)
    → Distinct m
    → In v (list_by_prefix now p m)
    → Found now p v m
unfolding list_by_prefix
Found-of_In now p v [] d h = elim h [ ]
Found-of_In now p v ((k, i) ∷ m) d h = elim (In-if v i.val (list_by_prefix now p m) _ h) [
  | inl (shown, e) ↦ (k, ground arith, unfold get lookup in ground (arith, text_eq_iff k k))
  | inr below ↦ Found-cons now p v k i m d.0 (Found-of_In now p v m d.1 below)
]

In-of_Found :
    (now : ℕ) (p v : Text) (m : Memory) (k : Text)
    → has_prefix p k ≡ true
    → get now k m ≡ some v
    → In v (list_by_prefix now p m)
unfolding list_by_prefix get lookup
In-of_Found now p v [] k under found = cc
In-of_Found now p v ((j, i) ∷ m) k under found =
    ground (arith, text_eq_iff j k, In-of_Found now p v m k under)

-- On a map with distinct keys, ListByPrefix returns exactly the live values of the keys under the
-- prefix.
pub list_by_prefix_iff :
    (now : ℕ) (p v : Text) (m : Memory)
    → Distinct m
    → In v (list_by_prefix now p m) ↔ Found now p v m
list_by_prefix_iff now p v m d =
    (Found-of_In now p v m d, λ (k, under, found). In-of_Found now p v m k under found)
