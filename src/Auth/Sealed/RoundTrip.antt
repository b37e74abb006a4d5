-- ===== src/Auth/Sealed/RoundTrip.antt =====
-- Sealing and opening: the plaintext of a request and of its response come back.
use muthur.Prelude.{
  ℕ, Text, ◌∷◌, ◌++◌, true, Option, none, some, ok, >>=-eq-ok, ◌≡◌, refl, sym, ap, subst,
  ok-injective, ◌∙◌, lookup, length, length-append, take, drop, arith,
}
use muthur.Auth.HttpSig.Bytes.{take-append, drop-append}
use muthur.Auth.Sealed.{
  Hpke, HpkeKeySet, ResponseKey, SealedError, or_err, hpke_info, seal_aad, has_envelope,
  seal_request, open_request, open_with, seal_response, open_response, hpke_enc_size, gcm_nonce_len,
  sealed_version, response_export_context, response_key_len,
}

or_err-ok :
    {A : Type 0} (problem : SealedError) (o : Option A) (a : A)
    → or_err problem o ≡ ok a
    → o ≡ some a
or_err-ok problem none a e = cc
or_err-ok problem (some b) a e = cc

has_envelope-append :
    (n : ℕ) (s t : Text) → length s ≡ n → has_envelope n (sealed_version ∷ (s ++ t)) ≡ true
unfolding has_envelope
has_envelope-append n s t h = ground (arith, length-append s t, h)

module _ {Key PublicKey Context Aead : Type 0} (hpke : Hpke Key PublicKey Context Aead) where
  -- HPKE and AES-GCM as documented: what is encapsulated to a key's public half in 32 bytes gives
  -- its holder the same context, and what is sealed opens.
  pub record SealLaws : Type 0 where
    pub encapsulated :
        (random : Text) (key : Key) (info enc : Text) (context : Context)
        → hpke.new_sender random (hpke.public_key key) info ≡ some (enc, context)
        → (length enc ≡ hpke_enc_size) × (hpke.new_recipient enc key info ≡ some context)
    pub opened :
        (context : Context) (aad plaintext ct : Text)
        → hpke.seal context aad plaintext ≡ some ct
        → hpke.unseal context aad ct ≡ some plaintext
    pub gcm_opened :
        (aead : Aead) (nonce plaintext : Text)
        → length nonce ≡ gcm_nonce_len
        → hpke.gcm_open aead nonce (hpke.gcm_seal aead nonce plaintext) ≡ some plaintext

module _ {Key PublicKey Context Aead : Type 0} (hpke : Hpke Key PublicKey Context Aead)
    (laws : SealLaws hpke) where
  open_with-sealed :
      (key : Key) (path timestamp nonce enc ct plaintext rk : Text) (context : Context)
      → length enc ≡ hpke_enc_size
      → hpke.new_recipient enc key (hpke_info path) ≡ some context
      → hpke.unseal context (seal_aad timestamp nonce) ct ≡ some plaintext
      → hpke.export context response_export_context response_key_len ≡ some rk
      → open_with hpke path timestamp nonce (sealed_version ∷ (enc ++ ct)) (some key)
        ≡ ok (plaintext, record { key = rk })
  unfolding open_with
  open_with-sealed key path timestamp nonce enc ct plaintext rk context long context_eq opened
        exported =
      let front : take hpke_enc_size (enc ++ ct) ≡ enc = rw⁻¹ long (take-append enc ct) in
      let back : drop hpke_enc_size (enc ++ ct) ≡ ct = rw⁻¹ long (drop-append enc ct) in
      rw (has_envelope-append hpke_enc_size enc ct long, front, back, context_eq, opened, exported)
        refl

  -- What sealing a request went through.
  record SealedWith (random : Text) (pub_key : PublicKey)
      (path timestamp nonce plaintext body : Text) (opener : ResponseKey) : Type 0 where
    enc : Text
    context : Context
    ct : Text
    sent : hpke.new_sender random pub_key (hpke_info path) ≡ some (enc, context)
    sealed : hpke.seal context (seal_aad timestamp nonce) plaintext ≡ some ct
    exported : hpke.export context response_export_context response_key_len ≡ some opener.key
    same : body ≡ sealed_version ∷ (enc ++ ct)

  seal_request-ok :
      (random : Text) (pub_key : PublicKey) (path timestamp nonce plaintext body : Text)
      (opener : ResponseKey)
      → seal_request hpke random pub_key path timestamp nonce plaintext ≡ ok (body, opener)
      → SealedWith random pub_key path timestamp nonce plaintext body opener
  unfolding seal_request
  seal_request-ok random pub_key path timestamp nonce plaintext body opener e =
      let ((enc, context), e_sent, e1) =
        >>=-eq-ok (or_err SealedError.hpke_failed (hpke.new_sender random pub_key (hpke_info path)))
          _ e in
      let (ct, e_ct, e2) =
        >>=-eq-ok
          (or_err SealedError.hpke_failed (hpke.seal context (seal_aad timestamp nonce) plaintext))
          _ e1 in
      let (rk, e_rk, e3) =
        >>=-eq-ok
          (or_err SealedError.hpke_failed
            (hpke.export context response_export_context response_key_len))
          _ e2 in
      let same = ok-injective _ _ e3 in
      record {
        enc = enc;
        context = context;
        ct = ct;
        sent = or_err-ok _ _ _ e_sent;
        sealed = or_err-ok _ _ _ e_ct;
        exported = or_err-ok _ _ _ e_rk ∙ ap (λ p. some p.1.key) same;
        same = ap (λ p. p.0) (sym same);
      }

  -- A request that was sealed to a key of the set, for a path, a timestamp and a nonce, is opened
  -- for them, to the plaintext that was sealed, and with the response key of the one who sealed it.
  pub open_request-seal_request :
      (ks : HpkeKeySet Key) (kid : Text) (key : Key)
      (random path timestamp nonce plaintext body : Text) (opener : ResponseKey)
      → lookup kid ks.keys ≡ some key
      → seal_request hpke random (hpke.public_key key) path timestamp nonce plaintext
        ≡ ok (body, opener)
      → open_request hpke ks kid path timestamp nonce body ≡ ok (plaintext, opener)
  unfolding open_request
  open_request-seal_request ks kid key random path timestamp nonce plaintext body opener known e =
      let w =
        seal_request-ok random (hpke.public_key key) path timestamp nonce plaintext body opener e in
      let (long, context) = laws.encapsulated random key (hpke_info path) w.enc w.context w.sent in
      rw (known, w.same)
        (open_with-sealed key path timestamp nonce w.enc w.ct plaintext opener.key w.context long
          context (laws.opened w.context (seal_aad timestamp nonce) plaintext w.ct w.sealed)
          w.exported)

  open_response-sealed :
      (nonce : Text) (sealer : ResponseKey) (aead : Aead) (plaintext : Text)
      → length nonce ≡ gcm_nonce_len
      → hpke.new_gcm sealer.key ≡ some aead
      → open_response hpke sealer (sealed_version ∷ (nonce ++ hpke.gcm_seal aead nonce plaintext))
        ≡ ok plaintext
  unfolding open_response
  open_response-sealed nonce sealer aead plaintext long found =
      let ct = hpke.gcm_seal aead nonce plaintext in
      let front : take gcm_nonce_len (nonce ++ ct) ≡ nonce = rw⁻¹ long (take-append nonce ct) in
      let back : drop gcm_nonce_len (nonce ++ ct) ≡ ct = rw⁻¹ long (drop-append nonce ct) in
      rw
        (
          has_envelope-append gcm_nonce_len nonce ct long,
          front,
          back,
          found,
          laws.gcm_opened aead nonce plaintext long,
        )
        refl

  -- A response that was sealed with a twelve-byte nonce is opened with the key it was sealed with,
  -- if AES-GCM does what it documents.
  pub open_response-seal_response :
      (nonce : Text) (sealer : ResponseKey) (plaintext body : Text)
      → length nonce ≡ gcm_nonce_len
      → seal_response hpke (some nonce) sealer plaintext ≡ ok body
      → open_response hpke sealer body ≡ ok plaintext
  unfolding seal_response
  open_response-seal_response nonce sealer plaintext body long e =
      let (aead, e_aead, e1) =
        >>=-eq-ok (or_err SealedError.cipher_failed (hpke.new_gcm sealer.key)) _ e in
      subst (λ b. open_response hpke sealer b ≡ ok plaintext) (ok-injective _ _ e1)
        (open_response-sealed nonce sealer aead plaintext long (or_err-ok _ _ _ e_aead))
