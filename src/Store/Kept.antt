-- ===== src/Store/Kept.antt =====
-- What is set is read until its expiry, whatever is written under other keys in between.
use muthur.Prelude.{ℕ, ◌+◌, ◌≤◌, Text, Option, some, List, ok, ◌≡◌, ◌∙◌, All}
use muthur.Store.{Store}
use muthur.Store.Laws.{StoreLaws, Lives-until}
use muthur.Store.Trace.{Op, Avoids, run, view-run}

module _ {S : Type 0} (st : Store S) {view : ℕ → Text → S → Option Text}
    (laws : StoreLaws st view) where
  pub get-run-set :
      (k raw : Text) (ttl now later : ℕ) (s : S) (ops : List Op) (o : Option Text)
      → (st.set now k raw ttl s).0 ≡ ok tt
      → All (Avoids k) ops
      → now ≤ later
      → later ≤ now + ttl
      → st.get later k (run st ops (st.set now k raw ttl s).1) ≡ ok o
      → o ≡ some raw
  get-run-set k raw ttl now later s ops o stored avoid lo hi answered =
      laws.get_view later k (run st ops (st.set now k raw ttl s).1) o answered
      ∙ view-run st laws k ops later (st.set now k raw ttl s).1 avoid
      ∙ laws.set_stores now k raw ttl s later stored lo (Lives-until ttl now later hi)
