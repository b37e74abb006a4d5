-- ===== src/Dedup/Window.antt =====
-- The window: a repeat inside it is dropped, a new alert or one after it is let through.
use muthur.Prelude.{
  ℕ, ◌+◌, ◌≤◌, ◌<◌, Text, codes, Bool, true, false, Option, none, some, List, ◌≡◌, ◌≢◌, ◌∙◌, arith,
  Result, ok, All, inl, inr, Bool-cases,
}
use muthur.Alert.{AlertPayload}
use muthur.Store.{Store, StoreError}
use muthur.Store.Laws.{Lives-until, StoreLaws}
use muthur.Store.Trace.{Op, Spares, Avoids, Since, end, run, run-Held, view-run, Held}
use muthur.Dedup.{Deduplicator, seen, firing_key, is_duplicate}

-- The alert was let through because the store took its marker, not because the store failed.
abbrev pub Marked : {S : Type 0} → Result StoreError Bool × S → Type 0
Marked r = r.0 ≡ ok true

not-none_of_some {ℓ} : {A : Type ℓ} {o : Option A} (a : A) → o ≡ some a → o ≢ none
not-none_of_some a e h = cc

module _ {S : Type 0} (st : Store S) {view : ℕ → Text → S → Option Text} (laws : StoreLaws st view)
    (sha256_hex : Text → Text) (d : Deduplicator) where
  -- After a marker was taken at `now`, the key is held for the window.
  pub Held-mark :
      (now : ℕ) (k v : Text) (s : S)
      → Marked (st.set_nx now k v d.window s)
      → Held st view k now (now + d.window) (st.set_nx now k v d.window s).1
  Held-mark now k v s won t lo hi =
      not-none_of_some v
        (laws.set_nx_stores now k v d.window s t won lo (Lives-until d.window now t hi))

  seen_of_held :
      (now : ℕ) (k v : Text) (s : S)
      → view now k s ≢ none
      → (b : Bool) → (st.set_nx now k v d.window s).0 ≡ ok b
      → seen (st.set_nx now k v d.window s).0 ≡ true
  seen_of_held now k v s held true won = absurd (held (laws.set_nx_fresh now k v d.window s won))
  seen_of_held now k v s held false lost = rw lost

  -- A repeat of an alert that took its marker is a duplicate within the window, whatever other
  -- calls spare its marker in between, if the store answers.
  pub is_duplicate-repeat :
      (p q : AlertPayload) (now later : ℕ) (s : S) (ops : List Op) (b : Bool)
      → firing_key st sha256_hex d q ≡ firing_key st sha256_hex d p
      → Marked (st.set_nx now (firing_key st sha256_hex d p) (codes "1") d.window s)
      → Since now ops
      → All (Spares (firing_key st sha256_hex d p)) ops
      → end now ops ≤ later
      → later ≤ now + d.window
      → (st.set_nx later
          (firing_key st sha256_hex d q)
          (codes "1")
          d.window
          (run st ops (is_duplicate st sha256_hex d now p s).1)).0
        ≡ ok b
      → (is_duplicate st sha256_hex d later q
          (run st ops (is_duplicate st sha256_hex d now p s).1)).0
        ≡ true
  unfolding is_duplicate
  is_duplicate-repeat p q now later s ops b same won since spares lo hi answered =
      seen_of_held later (firing_key st sha256_hex d q) (codes "1") _
        (rw same (
          run-Held st laws (firing_key st sha256_hex d p) ops now (now + d.window) _ since spares
            (Held-mark now (firing_key st sha256_hex d p) (codes "1") s won) later lo hi))
        b answered

  -- An alert is a duplicate only if its marker is live: a store that fails, or that holds no live
  -- marker, lets the alert through.
  pub is_duplicate-live :
      (p : AlertPayload) (now : ℕ) (s : S)
      → (is_duplicate st sha256_hex d now p s).0 ≡ true
      → view now (firing_key st sha256_hex d p) s ≢ none
  unfolding is_duplicate
  is_duplicate-live p now s dup =
      laws.set_nx_taken now (firing_key st sha256_hex d p) (codes "1") d.window s (ground arith)

  -- Once a positive window has passed, an alert that took its marker is let through again, if no
  -- other call writes the marker.
  pub is_duplicate-after_window :
      (p : AlertPayload) (now later : ℕ) (s : S) (ops : List Op)
      → Marked (st.set_nx now (firing_key st sha256_hex d p) (codes "1") d.window s)
      → All (Avoids (firing_key st sha256_hex d p)) ops
      → 0 < d.window
      → now + d.window < later
      → (is_duplicate st sha256_hex d later p
          (run st ops (is_duplicate st sha256_hex d now p s).1)).0
        ≡ false
  is_duplicate-after_window p now later s ops won avoids pos le =
      let k = firing_key st sha256_hex d p in
      let s' = (is_duplicate st sha256_hex d now p s).1 in
      elim (Bool-cases (is_duplicate st sha256_hex d later p (run st ops s')).0) [
        | inl dup ↦ absurd (
            is_duplicate-live p later (run st ops s') dup (
              view-run st laws k ops later s' avoids
              ∙ (unfold is_duplicate in
                  laws.set_nx_expires now k (codes "1") d.window s later won pos le)))
        | inr fresh ↦ fresh
      ]
