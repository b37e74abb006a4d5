-- ===== src/Auth/Replay/Isolation.antt =====
-- One tenant cannot use up a nonce of another, and a refused request leaves no trace.
use muthur.Prelude.{
  ℕ, Text, codes, [], ◌∷◌, ◌++◌, true, Option, none, some, err, ◌≡◌, ◌≢◌, refl, arith, Result-cases,
  inl, inr, subst,
}
use muthur.AlertKey.Injective.{Lacks}
use muthur.Store.{Store}
use muthur.Store.Laws.{StoreLaws}
use muthur.Auth.Identity.{Identity, to_string}
use muthur.Auth.Identity.Extract.{IsUsable, to_string-injective}
use muthur.Auth.Replay.{
  ReplayError, ReplayGuard, is_hex_string, nonce_key, check_timestamp, check_nonce, claim_nonce,
  verify, then_nonce,
}
use muthur.Auth.Replay.Single.{check_nonce-ok}

hex-Lacks_colon : (s : Text) → is_hex_string s ≡ true → Lacks b':' s
unfolding is_hex_string
hex-Lacks_colon [] h = tt
hex-Lacks_colon (c ∷ []) h = cc
hex-Lacks_colon (c ∷ d ∷ s) h =
    ((λ e. ground arith), ((λ e. ground arith), hex-Lacks_colon s (ground arith)))

Lacks-append_absurd : (c : ℕ) (y t : Text) → Lacks c (y ++ (c ∷ t)) → ⊥
Lacks-append_absurd c [] t h = h.0 refl
Lacks-append_absurd c (b ∷ y) t h = Lacks-append_absurd c y t h.1

-- What stands behind the last separator is determined.
split_last-injective :
    (c : ℕ) (x y s t : Text)
    → Lacks c s
    → Lacks c t
    → x ++ (c ∷ s) ≡ y ++ (c ∷ t)
    → (x ≡ y) × (s ≡ t)
split_last-injective c [] [] s t hs ht e = (refl, ground arith)
split_last-injective c [] (b ∷ y) s t hs ht e =
    let rest : s ≡ y ++ (c ∷ t) = ground arith in
    absurd (Lacks-append_absurd c y t (subst (Lacks c) rest hs))
split_last-injective c (a ∷ x) [] s t hs ht e =
    let rest : t ≡ x ++ (c ∷ s) = ground arith in
    absurd (Lacks-append_absurd c x s (subst (Lacks c) rest ht))
split_last-injective c (a ∷ x) (b ∷ y) s t hs ht e =
    let (p, q) = split_last-injective c x y s t hs ht (ground arith) in (ground arith, q)

cancel-prefix : (p a b : Text) → p ++ a ≡ p ++ b → a ≡ b
cancel-prefix [] a b e = e
cancel-prefix (c ∷ p) a b e = cancel-prefix p a b (ground arith)

module _ (g : ReplayGuard) where
  -- A marker determines the printed identity and the nonce.
  nonce_key-injective :
      (i j : Identity) (n m : Text)
      → is_hex_string n ≡ true
      → is_hex_string m ≡ true
      → nonce_key g i n ≡ nonce_key g j m
      → (to_string i ≡ to_string j) × (n ≡ m)
  unfolding nonce_key
  nonce_key-injective i j n m hn hm e =
      let tail : codes "nonce:" ++ (to_string i ++ (b':' ∷ n))
          ≡ codes "nonce:" ++ (to_string j ++ (b':' ∷ m)) =
        cancel-prefix g.prefix _ _ e in
      split_last-injective b':' (to_string i) (to_string j) n m (hex-Lacks_colon n hn)
        (hex-Lacks_colon m hm) (cancel-prefix (codes "nonce:") _ _ tail)

  module _ {S : Type 0} (st : Store S) where
    -- A request that is refused for anything but a reused nonce or a failing store changes nothing
    -- in the store.
    pub verify_refused :
        (now : ℕ) (id : Option Identity) (ts_str nonce : Text) (s : S) (e : ReplayError)
        → (verify st g now id ts_str nonce s).0 ≡ err e
        → e ≢ ReplayError.nonce_reused
        → e ≢ ReplayError.nonce_store
        → (verify st g now id ts_str nonce s).1 ≡ s
    unfolding verify
    verify_refused now none ts_str nonce s e h reused store = refl
    verify_refused now (some id) ts_str nonce s e h reused store =
        elim (Result-cases (check_timestamp g now ts_str)) [
          | inr (_, bad) ↦ rw (bad, then_nonce)
          | inl (ts, timely) ↦ elim (Result-cases (check_nonce nonce)) [
            | inr (_, bad) ↦ rw (timely, bad, then_nonce)
            | inl (u, shaped) ↦ absurd (unfold claim_nonce in ground arith)
          ]
        ]

    -- A request of one identity leaves the marker of every hexadecimal nonce of another as it was,
    -- where both are usable identities with a tenant and differ in tenant or cluster: nobody can
    -- use up another collector's nonces.
    pub verify_isolated :
        {view : ℕ → Text → S → Option Text}
        → StoreLaws st view
        → (i j : Identity) → IsUsable i
        → IsUsable j
        → i.tenant_id ≢ []
        → j.tenant_id ≢ []
        → ¬ ((i.tenant_id ≡ j.tenant_id) × (i.cluster_id ≡ j.cluster_id))
        → (now t : ℕ) (ts_str nonce other : Text) (s : S) → is_hex_string other ≡ true
        → view t (nonce_key g j other) (verify st g now (some i) ts_str nonce s).1
          ≡ view t (nonce_key g j other) s
    unfolding verify
    verify_isolated laws i j hi hj ti tj differ now t ts_str nonce other s hex =
        elim (Result-cases (check_timestamp g now ts_str)) [
          | inr (_, bad) ↦ rw (bad, then_nonce)
          | inl (ts, timely) ↦ elim (Result-cases (check_nonce nonce)) [
            | inr (_, bad) ↦ rw (timely, bad, then_nonce)
            | inl (u, shaped) ↦
                rw (timely, shaped, then_nonce)
                  (unfold claim_nonce in
                    laws.set_nx_frame now (nonce_key g i nonce) (1 ∷ []) g.nonce_ttl s t
                      (nonce_key g j other)
                      (λ e. differ (
                        to_string-injective i j hi hj ti tj
                          (nonce_key-injective i j nonce other (check_nonce-ok nonce shaped).hex hex
                            e).0)))
          ]
        ]
