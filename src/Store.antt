-- ===== src/Store.antt =====
-- internal/store/store.go: the interface of the key/value store with expiry. Instants and durations
-- are nanoseconds; a duration that is not positive is 0. An operation happens at one instant.
pub mod Laws
pub mod Memory
pub mod Trace
pub mod Kept
use muthur.Prelude.{ℕ, Text, Bool, Option, List, Result}

-- What a failing backend returns; callers only test that there is an error.
pub data StoreError : Type 0 where
  backend_error : StoreError

pub record Store (S : Type 0) : Type 0 where
  pub get : ℕ → Text → S → Result StoreError (Option Text)
  pub set : ℕ → Text → Text → ℕ → S → Result StoreError (Unit {0}) × S
  pub set_nx : ℕ → Text → Text → ℕ → S → Result StoreError Bool × S
  pub delete : ℕ → Text → S → Result StoreError (Unit {0}) × S
  pub list_by_prefix : ℕ → Text → S → Result StoreError (List Text)
