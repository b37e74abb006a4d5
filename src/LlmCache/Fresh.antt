-- ===== src/LlmCache/Fresh.antt =====
-- An analysis that was stored is found again until it expires.
use muthur.Prelude.{
  ℕ, ◌+◌, ◌≤◌, Text, codes, List, [], ◌∷◌, ◌++◌, true, Option, none, some, ok, ◌≡◌, ◌≢◌, refl, ap,
  ◌∙◌, All, arith,
}
use muthur.Alert.{AlertPayload}
use muthur.AlertKey.{raw_key}
use muthur.Embed.{Floats}
use muthur.Evaluator.{Analysis}
use muthur.LlmCache.{Json, Cache, cache_key, vec_key, get, set, write_if_marshalled, set_semantic}
use muthur.Store.{Store}
use muthur.Store.Laws.{StoreLaws, Lives-until}
use muthur.Store.Trace.{Op, Avoids, run, view-run}

abbrev first : Text → ℕ
first [] = 0
first (c ∷ s) = c

module _ {S Single Double : Type 0} (st : Store S) {view : ℕ → Text → S → Option Text}
    (laws : StoreLaws st view) (sha256_hex : Text → Text) (json : Json Single)
    (fl : Floats Single Double) (c : Cache Single Double) where
  -- The key of the exact layer and the key of the semantic layer are never the same.
  layers_apart :
      (p q : AlertPayload) → vec_key st sha256_hex json fl c p ≢ cache_key st sha256_hex json fl c q
  unfolding vec_key cache_key
  layers_apart p q e = omega (arith, ap first e)

  view-write :
      (now : ℕ) (j : Text) (ttl : ℕ) (o : Option Text) (s : S) (t : ℕ) (k : Text)
      → j ≢ k
      → view t k (write_if_marshalled st now j ttl o s) ≡ view t k s
  view-write now j ttl none s t k apart = refl
  view-write now j ttl (some raw) s t k apart = laws.set_frame now j raw ttl s t k apart

  view-set_semantic :
      (embed : Option (Text → List Single)) (now : ℕ) (p q : AlertPayload) (a : Analysis) (s : S)
      (t : ℕ)
      → view t
          (cache_key st sha256_hex json fl c q)
          (set_semantic st sha256_hex json fl c embed now p a s)
        ≡ view t (cache_key st sha256_hex json fl c q) s
  view-set_semantic none now p q a s t = refl
  view-set_semantic (some embed) now p q a s t =
      view-write now (vec_key st sha256_hex json fl c p) c.ttl _ s t
        (cache_key st sha256_hex json fl c q) (layers_apart p q)

  set-written :
      (now : ℕ) (p : AlertPayload) (a : Analysis) (raw : Text) (s : S)
      → c.enabled ≡ true
      → json.marshal a ≡ some raw
      → set st sha256_hex json fl c now p (some a) s
        ≡ set_semantic st sha256_hex json fl c c.semantic now p a
            (st.set now (cache_key st sha256_hex json fl c p) raw c.ttl s).1
  unfolding set
  set-written now p a raw s on marshalled = rw (on, marshalled) refl

  view-stored :
      (p : AlertPayload) (a : Analysis) (raw : Text) (now later : ℕ) (s : S) (ops : List Op)
      → c.enabled ≡ true
      → json.marshal a ≡ some raw
      → (st.set now (cache_key st sha256_hex json fl c p) raw c.ttl s).0 ≡ ok tt
      → All (Avoids (cache_key st sha256_hex json fl c p)) ops
      → now ≤ later
      → later ≤ now + c.ttl
      → view later
          (cache_key st sha256_hex json fl c p)
          (run st ops (set st sha256_hex json fl c now p (some a) s))
        ≡ some raw
  view-stored p a raw now later s ops on marshalled stored avoid lo hi =
      let k = cache_key st sha256_hex json fl c p in
      view-run st laws k ops later (set st sha256_hex json fl c now p (some a) s) avoid
      ∙ ap (view later k) (set-written now p a raw s on marshalled)
      ∙ view-set_semantic c.semantic now p p a (st.set now k raw c.ttl s).1 later
      ∙ laws.set_stores now k raw c.ttl s later stored lo (Lives-until c.ttl now later hi)

  get-hit :
      (later : ℕ) (q : AlertPayload) (a : Analysis) (raw : Text) (s : S)
      → c.enabled ≡ true
      → st.get later (cache_key st sha256_hex json fl c q) s ≡ ok (some raw)
      → json.unmarshal raw ≡ some a
      → get st sha256_hex json fl c later q s ≡ some a
  unfolding get
  get-hit later q a raw s on answered back = rw (answered, back, on) refl

  -- An analysis that was stored in the exact layer is what a lookup of an alert with the same key
  -- gives until it expires, whatever is written under other keys in between, if the store answers
  -- and JSON gives the analysis back; the semantic layer makes no difference.
  pub get-set :
      (p q : AlertPayload) (a : Analysis) (raw : Text) (now later : ℕ) (s : S) (ops : List Op)
      (o : Option Text)
      → c.enabled ≡ true
      → raw_key q ≡ raw_key p
      → json.marshal a ≡ some raw
      → json.unmarshal raw ≡ some a
      → (st.set now (cache_key st sha256_hex json fl c p) raw c.ttl s).0 ≡ ok tt
      → All (Avoids (cache_key st sha256_hex json fl c p)) ops
      → now ≤ later
      → later ≤ now + c.ttl
      → st.get later
          (cache_key st sha256_hex json fl c q)
          (run st ops (set st sha256_hex json fl c now p (some a) s))
        ≡ ok o
      → get st sha256_hex json fl c later q
          (run st ops (set st sha256_hex json fl c now p (some a) s))
        ≡ some a
  get-set p q a raw now later s ops o on same marshalled back stored avoid lo hi answered =
      let st' = run st ops (set st sha256_hex json fl c now p (some a) s) in
      let keys : cache_key st sha256_hex json fl c q ≡ cache_key st sha256_hex json fl c p =
        unfold cache_key in ap (λ r. codes "cache:" ++ sha256_hex r) same in
      let found : o ≡ some raw =
        laws.get_view later (cache_key st sha256_hex json fl c q) st' o answered
        ∙ ap (λ k. view later k st') keys
        ∙ view-stored p a raw now later s ops on marshalled stored avoid lo hi in
      get-hit later q a raw st' on (answered ∙ ap ok found) back
