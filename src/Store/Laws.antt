-- ===== src/Store/Laws.antt =====
-- What store.go documents of every backend, as laws over a view: the live value of a key at an
-- instant. A failing call may have happened or not, and touches no other key.
use muthur.Prelude.{
  ℕ, zero, suc, ◌+◌, ◌≤◌, ◌<◌, Text, true, false, Option, none, some, ok, ◌≡◌, ◌≢◌,
}
use muthur.Store.{Store}

-- A value written at `now` is live at `t`; a ttl of 0 means no expiry.
abbrev pub Lives : ℕ → ℕ → ℕ → Type 0
Lives zero now t = Unit
Lives (suc ttl) now t = t ≤ now + suc ttl

-- Up to its expiry a value is live, and beyond where there is none.
pub Lives-until : (ttl now t : ℕ) → t ≤ now + ttl → Lives ttl now t
Lives-until zero now t h = tt
Lives-until (suc ttl) now t h = h

pub record StoreLaws {S : Type 0} (st : Store S) (view : ℕ → Text → S → Option Text) : Type 0 where
  pub get_view :
      (now : ℕ) (k : Text) (s : S) (o : Option Text) → st.get now k s ≡ ok o → o ≡ view now k s
  pub set_frame :
      (now : ℕ) (k v : Text) (ttl : ℕ) (s : S) (t : ℕ) (j : Text)
      → k ≢ j
      → view t j (st.set now k v ttl s).1 ≡ view t j s
  pub set_nx_frame :
      (now : ℕ) (k v : Text) (ttl : ℕ) (s : S) (t : ℕ) (j : Text)
      → k ≢ j
      → view t j (st.set_nx now k v ttl s).1 ≡ view t j s
  pub delete_frame :
      (now : ℕ) (k : Text) (s : S) (t : ℕ) (j : Text)
      → k ≢ j
      → view t j (st.delete now k s).1 ≡ view t j s
  pub set_stores :
      (now : ℕ) (k v : Text) (ttl : ℕ) (s : S) (t : ℕ)
      → (st.set now k v ttl s).0 ≡ ok tt
      → now ≤ t
      → Lives ttl now t
      → view t k (st.set now k v ttl s).1 ≡ some v
  pub set_expires :
      (now : ℕ) (k v : Text) (ttl : ℕ) (s : S) (t : ℕ)
      → (st.set now k v ttl s).0 ≡ ok tt
      → 0 < ttl
      → now + ttl < t
      → view t k (st.set now k v ttl s).1 ≡ none
  pub set_nx_fresh :
      (now : ℕ) (k v : Text) (ttl : ℕ) (s : S)
      → (st.set_nx now k v ttl s).0 ≡ ok true
      → view now k s ≡ none
  pub set_nx_taken :
      (now : ℕ) (k v : Text) (ttl : ℕ) (s : S)
      → (st.set_nx now k v ttl s).0 ≡ ok false
      → view now k s ≢ none
  pub set_nx_stores :
      (now : ℕ) (k v : Text) (ttl : ℕ) (s : S) (t : ℕ)
      → (st.set_nx now k v ttl s).0 ≡ ok true
      → now ≤ t
      → Lives ttl now t
      → view t k (st.set_nx now k v ttl s).1 ≡ some v
  pub set_nx_expires :
      (now : ℕ) (k v : Text) (ttl : ℕ) (s : S) (t : ℕ)
      → (st.set_nx now k v ttl s).0 ≡ ok true
      → 0 < ttl
      → now + ttl < t
      → view t k (st.set_nx now k v ttl s).1 ≡ none
  pub set_nx_keeps :
      (now : ℕ) (k v : Text) (ttl : ℕ) (s : S) (t : ℕ)
      → (st.set_nx now k v ttl s).0 ≢ ok true
      → now ≤ t
      → view t k s ≢ none
      → view t k (st.set_nx now k v ttl s).1 ≢ none
  pub delete_clears :
      (now : ℕ) (k : Text) (s : S) (t : ℕ)
      → (st.delete now k s).0 ≡ ok tt
      → now ≤ t
      → view t k (st.delete now k s).1 ≡ none

-- A backend that keeps the laws and answers every call.
pub record IsReliable {S : Type 0} (st : Store S) (view : ℕ → Text → S → Option Text) : Type 0 where
  pub laws : StoreLaws st view
  pub get_answers : (now : ℕ) (k : Text) (s : S) → st.get now k s ≡ ok (view now k s)
  pub set_answers : (now : ℕ) (k v : Text) (ttl : ℕ) (s : S) → (st.set now k v ttl s).0 ≡ ok tt
  pub set_nx_wins :
      (now : ℕ) (k v : Text) (ttl : ℕ) (s : S)
      → view now k s ≡ none
      → (st.set_nx now k v ttl s).0 ≡ ok true
  pub set_nx_loses :
      (now : ℕ) (k v : Text) (ttl : ℕ) (s : S)
      → view now k s ≢ none
      → (st.set_nx now k v ttl s).0 ≡ ok false
  pub delete_answers : (now : ℕ) (k : Text) (s : S) → (st.delete now k s).0 ≡ ok tt
