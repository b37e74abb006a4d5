-- ===== src/Store/Trace.antt =====
-- What other callers do to a store between two calls of one: a list of writes at rising instants.
use muthur.Prelude.{
  ℕ, ◌≤◌, Text, Option, none, List, [], ◌∷◌, ◌≡◌, ◌≢◌, refl, ◌∙◌, sym, subst, arith, text_eq,
  text_eq_iff, Bool-cases, inl, inr, All,
}
use muthur.Store.{Store}
use muthur.Store.Laws.{StoreLaws}

pub data Op : Type 0 where
  set : ℕ → Text → Text → ℕ → Op
  set_nx : ℕ → Text → Text → ℕ → Op
  delete : ℕ → Text → Op

abbrev pub instant : Op → ℕ
instant (set now k v ttl) = now
instant (set_nx now k v ttl) = now
instant (delete now k) = now

abbrev pub key : Op → Text
key (set now k v ttl) = k
key (set_nx now k v ttl) = k
key (delete now k) = k

-- A call that cannot take `k` away: any `SetNX`, and a write to another key.
abbrev pub Spares : Text → Op → Type 0
Spares k (set now j v ttl) = j ≢ k
Spares k (set_nx now j v ttl) = Unit {0}
Spares k (delete now j) = j ≢ k

abbrev pub Avoids : Text → Op → Type 0
Avoids k op = key op ≢ k

-- The calls stand in order of time, from `now` on.
abbrev pub Since : ℕ → List Op → Type 0
Since now [] = Unit
Since now (op ∷ ops) = (now ≤ instant op) × Since (instant op) ops

-- The instant of the last call.
abbrev pub end : ℕ → List Op → ℕ
end now [] = now
end now (op ∷ ops) = end (instant op) ops

module _ {S : Type 0} (st : Store S) where
  unfoldable pub apply : Op → S → S
  apply (set now k v ttl) s = (st.set now k v ttl s).1
  apply (set_nx now k v ttl) s = (st.set_nx now k v ttl s).1
  apply (delete now k) s = (st.delete now k s).1

  unfoldable pub run : List Op → S → S
  unfolding apply
  run [] s = s
  run (op ∷ ops) s = run ops (apply op s)

  -- `k` is taken from `now` up to `until`.
  abbrev pub Held : (ℕ → Text → S → Option Text) → Text → ℕ → ℕ → S → Type 0
  Held view k now until s = (t : ℕ) → now ≤ t → t ≤ until → view t k s ≢ none

  module _ {view : ℕ → Text → S → Option Text} (laws : StoreLaws st view) where
    set_nx-Held_self :
        (k v : Text) (u ttl now until : ℕ) (s : S)
        → now ≤ u
        → Held view k now until s
        → Held view k u until (st.set_nx u k v ttl s).1
    set_nx-Held_self k v u ttl now until s le held t lo hi =
        laws.set_nx_keeps u k v ttl s t
          (λ won. held u le (omega arith) (laws.set_nx_fresh u k v ttl s won)) lo
          (held t (omega arith) hi)

    set_nx-Held :
        (k j v : Text) (u ttl now until : ℕ) (s : S)
        → now ≤ u
        → Held view k now until s
        → Held view k u until (st.set_nx u j v ttl s).1
    set_nx-Held k j v u ttl now until s le held = elim (Bool-cases (text_eq j k)) [
      | inl same ↦
          subst (λ x. Held view k u until (st.set_nx u x v ttl s).1)
            (sym ((text_eq_iff j k).0 same)) (set_nx-Held_self k v u ttl now until s le held)
      | inr other ↦ λ t lo hi.
          rw (laws.set_nx_frame u j v ttl s t k (λ e. cc ((text_eq_iff j k).1 e)))
            (held t (omega arith) hi)
    ]

    apply-Held :
        (k : Text) (op : Op) (now until : ℕ) (s : S)
        → now ≤ instant op
        → Spares k op
        → Held view k now until s
        → Held view k (instant op) until (apply op s)
    unfolding apply
    apply-Held k (set u j v ttl) now until s le spares held =
        λ t lo hi. rw (laws.set_frame u j v ttl s t k spares) (held t (omega arith) hi)
    apply-Held k (set_nx u j v ttl) now until s le spares held =
        set_nx-Held k j v u ttl now until s le held
    apply-Held k (delete u j) now until s le spares held =
        λ t lo hi. rw (laws.delete_frame u j s t k spares) (held t (omega arith) hi)

    -- What is taken stays taken until its expiry, whatever calls that spare it come between.
    pub run-Held :
        (k : Text) (ops : List Op) (now until : ℕ) (s : S)
        → Since now ops
        → All (Spares k) ops
        → Held view k now until s
        → Held view k (end now ops) until (run ops s)
    unfolding run
    run-Held k [] now until s since spares held = held
    run-Held k (op ∷ ops) now until s since spares held =
        run-Held k ops (instant op) until (apply op s) since.1 spares.1
          (apply-Held k op now until s since.0 spares.0 held)

    view-apply :
        (k : Text) (op : Op) (t : ℕ) (s : S) → Avoids k op → view t k (apply op s) ≡ view t k s
    unfolding apply
    view-apply k (set u j v ttl) t s h = laws.set_frame u j v ttl s t k h
    view-apply k (set_nx u j v ttl) t s h = laws.set_nx_frame u j v ttl s t k h
    view-apply k (delete u j) t s h = laws.delete_frame u j s t k h

    -- Calls on other keys do not change what a key shows.
    pub view-run :
        (k : Text) (ops : List Op) (t : ℕ) (s : S)
        → All (Avoids k) ops
        → view t k (run ops s) ≡ view t k s
    unfolding run
    view-run k [] t s h = refl
    view-run k (op ∷ ops) t s h = view-run k ops t (apply op s) h.1 ∙ view-apply k op t s h.0
