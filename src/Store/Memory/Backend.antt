-- ===== src/Store/Memory/Backend.antt =====
-- The in-process store as a backend: it never fails, and it satisfies the laws of the interface.
use muthur.Prelude.{
  ℕ, zero, suc, ◌+◌, ◌<◌, Text, none, some, ok, ◌≡◌, refl, arith, text_eq, text_eq_iff,
  if◌then◌else◌,
}
use muthur.Store.{Store}
use muthur.Store.Laws.{StoreLaws, Lives}
use muthur.Store.Memory
use muthur.Store.Memory.{Memory}
use muthur.Store.Memory.View.{shown, get-set, get-delete, get_of_set_nx, get_of_taken, set_nx-set}

unfoldable pub memory : Store Memory
memory = record {
  get = λ now k m. ok (Memory.get now k m);
  set = λ now k v ttl m. (ok tt, Memory.set now k v ttl m);
  set_nx = λ now k v ttl m. let (won, m') = Memory.set_nx now k v ttl m in (ok won, m');
  delete = λ now k m. (ok tt, Memory.delete k m);
  list_by_prefix = λ now p m. ok (Memory.list_by_prefix now p m);
}

shown-Lives : (v : Text) (ttl now t : ℕ) → Lives ttl now t → shown v ttl now t ≡ some v
shown-Lives v zero now t h = refl
shown-Lives v (suc ttl) now t h = ground arith

shown-expires : (v : Text) (ttl now t : ℕ) → 0 < ttl → now + ttl < t → shown v ttl now t ≡ none
shown-expires v zero now t p h = absurd (omega arith)
shown-expires v (suc ttl) now t p h = ground arith

module _ (now : ℕ) (k v : Text) (ttl : ℕ) (m : Memory) (t : ℕ) where
  after_set_nx :
      (j : Text)
      → Memory.get t j (Memory.set_nx now k v ttl m).1 ≡ (
          if (Memory.set_nx now k v ttl m).0
          then if text_eq k j then shown v ttl now t else Memory.get t j m
          else Memory.get t j m)
  after_set_nx j = ground (arith, set_nx-set now k v ttl m, get-set now k v ttl m t j)

pub memory_laws : StoreLaws memory Memory.get
unfolding memory
memory_laws = record {
  get_view = λ now k s o e. ground arith;
  set_frame = λ now k v ttl s t j h. ground (arith, get-set now k v ttl s t j, text_eq_iff k j);
  set_nx_frame =
      λ now k v ttl s t j h. ground (arith, after_set_nx now k v ttl s t j, text_eq_iff k j);
  delete_frame = λ now k s t j h. ground (arith, get-delete k s t j, text_eq_iff k j);
  set_stores = λ now k v ttl s t e le lives.
      ground (arith, get-set now k v ttl s t k, text_eq_iff k k, shown-Lives v ttl now t lives);
  set_expires = λ now k v ttl s t e p le.
      ground (arith, get-set now k v ttl s t k, text_eq_iff k k, shown-expires v ttl now t p le);
  set_nx_fresh = λ now k v ttl s e. get_of_set_nx now k v ttl s (ground arith);
  set_nx_taken = λ now k v ttl s e. get_of_taken now k v ttl s (ground arith);
  set_nx_stores = λ now k v ttl s t e le lives.
      ground
        (arith, after_set_nx now k v ttl s t k, text_eq_iff k k, shown-Lives v ttl now t lives);
  set_nx_expires = λ now k v ttl s t e p le.
      ground
        (arith, after_set_nx now k v ttl s t k, text_eq_iff k k, shown-expires v ttl now t p le);
  set_nx_keeps = λ now k v ttl s t e le kept. ground (arith, after_set_nx now k v ttl s t k);
  delete_clears = λ now k s t e le. ground (arith, get-delete k s t k, text_eq_iff k k);
}
