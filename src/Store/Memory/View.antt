-- ===== src/Store/Memory/View.antt =====
-- What a `Get` at a later instant returns after each operation of the in-process store.
use muthur.Prelude.{
  ℕ, zero, suc, ◌+◌, ◌≤◌, Text, true, false, Option, none, some, ◌≡◌, ◌≢◌, refl, arith, ltb, [],
  ◌∷◌, text_eq, text_eq_iff, lookup, Distinct, lookup-insert, lookup-remove, if◌then◌else◌,
}
use muthur.Store.Memory.{
  Memory, Item, live, is_live, expired, expiry, get, set, set_nx, delete, sweep,
}

-- The value that a write at `now` shows at `t`.
abbrev pub shown : Text → ℕ → ℕ → ℕ → Option Text
shown v zero now t = some v
shown v (suc ttl) now t = if ltb (now + suc ttl) t then none else some v

live-written :
    (v : Text) (ttl now t : ℕ)
    → live t (some (record { val = v; expires_at = expiry now ttl })) ≡ shown v ttl now t
unfolding expired expiry
live-written v zero now t = refl
live-written v (suc ttl) now t = refl

-- A `Get` after a `Set` shows the new value until its expiry, and every other key as before.
pub get-set :
    (now : ℕ) (k v : Text) (ttl : ℕ) (m : Memory) (t : ℕ) (j : Text)
    → get t j (set now k v ttl m) ≡ (if text_eq k j then shown v ttl now t else get t j m)
unfolding get set
get-set now k v ttl m t j = ground (
  arith,
  lookup-insert k j (record { val = v; expires_at = expiry now ttl }) m,
  live-written v ttl now t,
)

is_live-live : (now : ℕ) (o : Option Item) → is_live now o ≡ false → live now o ≡ none
is_live-live now none h = refl
is_live-live now (some i) h = ground arith

is_live-ne-none : (now : ℕ) (o : Option Item) → is_live now o ≡ true → live now o ≢ none
is_live-ne-none now none h = cc
is_live-ne-none now (some i) h = ground arith

-- `SetNX` answers true exactly where the key has no live value.
pub set_nx-true_iff :
    (now : ℕ) (k v : Text) (ttl : ℕ) (m : Memory)
    → (set_nx now k v ttl m).0 ≡ (if is_live now (lookup k m) then false else true)
unfolding set_nx
set_nx-true_iff now k v ttl m = ground arith

pub get_of_set_nx :
    (now : ℕ) (k v : Text) (ttl : ℕ) (m : Memory)
    → (set_nx now k v ttl m).0 ≡ true
    → get now k m ≡ none
unfolding set_nx get
get_of_set_nx now k v ttl m h = is_live-live now (lookup k m) (ground arith)

pub get_of_taken :
    (now : ℕ) (k v : Text) (ttl : ℕ) (m : Memory)
    → (set_nx now k v ttl m).0 ≡ false
    → get now k m ≢ none
unfolding set_nx get
get_of_taken now k v ttl m h = is_live-ne-none now (lookup k m) (ground arith)

-- A `SetNX` that wins writes like `Set`; one that loses changes nothing.
pub set_nx-set :
    (now : ℕ) (k v : Text) (ttl : ℕ) (m : Memory)
    → (set_nx now k v ttl m).1 ≡ (if (set_nx now k v ttl m).0 then set now k v ttl m else m)
unfolding set_nx set
set_nx-set now k v ttl m = ground arith

pub get-delete :
    (k : Text) (m : Memory) (t : ℕ) (j : Text)
    → get t j (delete k m) ≡ (if text_eq k j then none else get t j m)
unfolding get delete
get-delete k m t j = ground (arith, lookup-remove k j m)

-- What the janitor evicts at `now` is shown at no later instant.
expired_later : (i : Item) (now t : ℕ) → now ≤ t → expired i now ≡ true → expired i t ≡ true
unfolding expired
expired_later i now t h = ground arith

pub lookup-sweep_absent :
    (now : ℕ) (j : Text) (m : Memory) → lookup j m ≡ none → lookup j (sweep now m) ≡ none
unfolding lookup sweep
lookup-sweep_absent now j [] h = refl
lookup-sweep_absent now j ((k, i) ∷ m) h =
    ground (arith, text_eq_iff k j, lookup-sweep_absent now j m)

-- A tick of the janitor at `now` is invisible to every `Get` from then on.
pub get-sweep :
    (now t : ℕ) (j : Text) (m : Memory) → Distinct m → now ≤ t → get t j (sweep now m) ≡ get t j m
unfolding get lookup sweep
get-sweep now t j [] d h = refl
get-sweep now t j ((k, i) ∷ m) d h = ground (
  arith,
  text_eq_iff k j,
  expired_later i now t h,
  get-sweep now t j m,
  lookup-sweep_absent now k m,
)
