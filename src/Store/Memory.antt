-- ===== src/Store/Memory.antt =====
-- internal/store/memory.go: the in-process store. The map is the association list of `Map`; every operation
-- holds the lock, so it is one step at one instant. The janitor's tick is `sweep`.
pub mod View
pub mod Listing
pub mod Backend
use muthur.Prelude.{
  ℕ, zero, suc, ◌+◌, Text, Bool, true, false, Option, none, some, List, [], ◌∷◌, ltb, not, ◌||◌,
  has_prefix, keep, map, Map, lookup, insert, remove, if◌then◌else◌,
}

-- `memItem`; no expiry is the zero time.
pub record Item : Type 0 where
  pub val : Text
  pub expires_at : Option ℕ

unfoldable pub expired : Item → ℕ → Bool
expired i now = elim i.expires_at [ none ↦ false | some t ↦ ltb t now ]

unfoldable pub expiry : ℕ → ℕ → Option ℕ
expiry now zero = none
expiry now (suc ttl) = some (now + suc ttl)

abbrev pub Memory : Type 0
Memory = Map Item

abbrev pub empty : Memory
empty = []

abbrev live : ℕ → Option Item → Option Text
live now none = none
live now (some i) = if expired i now then none else some i.val

unfoldable pub get : ℕ → Text → Memory → Option Text
unfolding lookup
get now k m = live now (lookup k m)

unfoldable pub set : ℕ → Text → Text → ℕ → Memory → Memory
unfolding insert expiry
set now k v ttl m = insert k (record { val = v; expires_at = expiry now ttl }) m

abbrev is_live : ℕ → Option Item → Bool
is_live now none = false
is_live now (some i) = not (expired i now)

unfoldable pub set_nx : ℕ → Text → Text → ℕ → Memory → Bool × Memory
unfolding lookup insert expiry expired
set_nx now k v ttl m =
    if is_live now (lookup k m)
    then (false, m)
    else (true, insert k (record { val = v; expires_at = expiry now ttl }) m)

unfoldable pub delete : Text → Memory → Memory
unfolding remove
delete k m = remove k m

unfoldable pub list_by_prefix : ℕ → Text → Memory → List Text
unfolding expired has_prefix
list_by_prefix now prefix [] = []
list_by_prefix now prefix ((k, i) ∷ m) =
    let rest = list_by_prefix now prefix m in
    if expired i now || not (has_prefix prefix k) then rest else i.val ∷ rest

-- One tick of `janitor`.
unfoldable pub sweep : ℕ → Memory → Memory
unfolding expired keep
sweep now m = keep (λ (e : Text × Item). not (expired e.1 now)) m
