-- ===== src/Auth/Sealed/Rotation.antt =====
-- Every advertised key opens what is sealed to it, the older keys of a rotation included.
use muthur.Prelude.{
  Text, List, [], ◌∷◌, Option, none, some, ok, ◌≡◌, refl, sym, ap, subst, ◌∙◌, inl, inr, In, lookup,
  Map,
}
use muthur.Auth.Sealed.{
  Hpke, HpkeKeySet, ResponseKey, public, entry_of, joined, seal_request, open_request,
}
use muthur.Auth.Sealed.RoundTrip.{SealLaws, open_request-seal_request}

some-injective : {A : Type 0} (a b : A) → some a ≡ some b → a ≡ b
some-injective a b e = cc

module _ {Key PublicKey Context Aead : Type 0} (hpke : Hpke Key PublicKey Context Aead) where
  joined-some :
      (o : Option (Text × PublicKey)) (rest : Option (List (Text × PublicKey)))
      (es : List (Text × PublicKey))
      → joined hpke o rest ≡ some es
      → (e : Text × PublicKey) × (tail : List (Text × PublicKey)) × (o ≡ some e)
        × (rest ≡ some tail)
        × (es ≡ e ∷ tail)
  joined-some none rest es h = cc
  joined-some (some e) none es h = cc
  joined-some (some e) (some tail) es h = (e, tail, refl, refl, sym (some-injective _ _ h))

  entry_of-some :
      (kid : Text) (o : Option Key) (e : Text × PublicKey)
      → entry_of hpke kid o ≡ some e
      → (key : Key) × (o ≡ some key) × (e ≡ (kid, hpke.public_key key))
  entry_of-some kid none e h = cc
  entry_of-some kid (some key) e h = (key, refl, sym (some-injective _ _ h))

  public-held :
      (keys : Map Key) (kids : List Text) (es : List (Text × PublicKey)) (e : Text × PublicKey)
      → public hpke keys kids ≡ some es
      → In e es
      → (key : Key) × (lookup e.0 keys ≡ some key) × (e.1 ≡ hpke.public_key key)
  unfolding public
  public-held keys [] es e h member = absurd (subst (In e) (sym (some-injective _ _ h)) member)
  public-held keys (kid ∷ kids) es e h member =
      let (first, tail, found, rest, same) =
        joined-some (entry_of hpke kid (lookup kid keys)) (public hpke keys kids) es h in
      let (key, held, named) = entry_of-some kid (lookup kid keys) first found in
      elim (subst (In e) same member) [
        | inl here ↦
            (key, ap (λ k. lookup k.0 keys) (here ∙ named) ∙ held, ap (λ k. k.1) (here ∙ named))
        | inr later ↦ public-held keys kids tail e rest later
      ]

  -- A request that was sealed to a key that the set advertises, under the identifier advertised for
  -- it, is opened for the same path, timestamp and nonce, with the response key of its sender, if
  -- HPKE does what it documents.
  pub open_request-advertised :
      (ks : HpkeKeySet Key) (es : List (Text × PublicKey)) (e : Text × PublicKey)
      (random path timestamp nonce plaintext body : Text) (opener : ResponseKey)
      → SealLaws hpke
      → public hpke ks.keys ks.order ≡ some es
      → In e es
      → seal_request hpke random e.1 path timestamp nonce plaintext ≡ ok (body, opener)
      → open_request hpke ks e.0 path timestamp nonce body ≡ ok (plaintext, opener)
  open_request-advertised ks es e random path timestamp nonce plaintext body opener laws listed
        member sealed =
      let (key, held, same) = public-held ks.keys ks.order es e listed member in
      open_request-seal_request hpke laws ks e.0 key random path timestamp nonce plaintext body
        opener held (rw⁻¹ same sealed)
