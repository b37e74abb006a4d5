-- ===== src/Auth/HttpSig/RoundTrip.antt =====
-- A request that `SignRequest` signed passes `VerifyRequest`.
use mathlib.Core.List.{reverse-append, reverse-reverse}
use muthur.Prelude.{
  ℕ, ◌^◌, ◌<◌, Text, codes, List, [], ◌∷◌, ◌++◌, true, false, none, some, ok, ◌≡◌, refl, sym, ap,
  subst, ◌∙◌, Option, lookup-insert_self, All, ℤ, InInt64, format_int, text_eq, insert,
  lookup-insert, trim_space, is_space, length, length-append, take, drop, >>=-eq-ok, guard, arith,
}
use muthur.Auth.HttpSig.{
  Header, decode_cut, decode_closed, check_length, set_signature, verify_with,
  parse_signature_params, or_empty, Crypto, SignatureInfo, SignatureError, get, component_value,
  base_from, signature_base, signed_components, input_name, signature_name, sign_request,
  verify_request, signature_params, cert_key_id, decode_signature, fill_bytes, set_bytes, spaced,
  in_quotes, signature_alg,
}
use muthur.Auth.HttpSig.Bytes.{
  EndsSolid, append-EndsSolid, trim_space-EndsSolid, length-fill_bytes, set_bytes-fill_bytes,
  take-append, drop-append, cut_prefix-append,
}
use muthur.Auth.HttpSig.Params.{TextLaws, parse_signature_params-signature_params}

-- A header that is not signed may be set after signing.
component_value-insert :
    (method path k v : Text) (h : Header) (c : Text)
    → text_eq k c ≡ false
    → component_value method path (insert k v h) c ≡ component_value method path h c
unfolding component_value get
component_value-insert method path k v h c other = rw (lookup-insert k c v h, other) refl

All-map : {P Q : Text → Type 0} → ((c : Text) → P c → Q c) → (cs : List Text) → All P cs → All Q cs
All-map f [] h = tt
All-map f (c ∷ cs) h = (f c h.0, All-map f cs h.1)

base_from-ext :
    (cs : List Text) (method path : Text) (h h' : Header) (params : Text)
    → All (λ c. component_value method path h' c ≡ component_value method path h c) cs
    → base_from cs method path h' params ≡ base_from cs method path h params
unfolding base_from
base_from-ext [] method path h h' params e = refl
base_from-ext (c ∷ cs) method path h h' params e =
    rw (e.0, base_from-ext cs method path h h' params e.1) refl

signature_base-insert :
    (method path k v : Text) (h : Header) (params : Text)
    → All (λ c. text_eq k c ≡ false) signed_components
    → signature_base method path (insert k v h) params ≡ signature_base method path h params
unfolding signature_base
signature_base-insert method path k v h params others =
    base_from-ext signed_components method path h (insert k v h) params
      (All-map (component_value-insert method path k v h) signed_components others)

module _ {PrivateKey PublicKey : Type 0} (lib : Crypto PrivateKey PublicKey) where
  -- A key pair as the packages document it: a signature fits 32 bytes a number and verifies.
  pub record KeyPair (key : PrivateKey) (public : PublicKey) : Type 0 where
    pub p256 : lib.public_is_p256 public ≡ true
    pub decoded : (s : Text) → lib.base64_decode (lib.base64_encode s) ≡ some s
    pub fits :
        (random digest : Text) (r s : ℕ)
        → lib.ecdsa_sign random key digest ≡ some (r, s)
        → (r < 256 ^ 32) × (s < 256 ^ 32)
    pub verifies :
        (random digest : Text) (r s : ℕ)
        → lib.ecdsa_sign random key digest ≡ some (r, s)
        → lib.ecdsa_verify public digest r s ≡ true

module _ {PrivateKey PublicKey : Type 0} (lib : Crypto PrivateKey PublicKey) where
  abbrev signature_field : Text → Text
  signature_field sig = codes "sig1=:" ++ (lib.base64_encode sig ++ codes ":")

  signature_params-EndsSolid :
      (laws : TextLaws lib) (created : ℤ) (leaf : Text)
      → EndsSolid (signature_params lib created (cert_key_id lib leaf))
  unfolding signature_params cert_key_id
  signature_params-EndsSolid laws created leaf =
      let kid = lib.hex_encode (lib.sha256 leaf) in
      let closed =
        append-EndsSolid (codes ";keyid=\"" ++ kid) (b'"' ∷ [])
          ([], b'"', refl, unfold is_space in refl) in
      rw (laws.quoted kid (laws.hex (lib.sha256 leaf))) (
        append-EndsSolid (b'(' ∷ (spaced signed_components ++ codes ");created=")) _ (
          append-EndsSolid (format_int created) _
            (append-EndsSolid (codes ";alg=" ++ in_quotes signature_alg) _ closed)))

  decode_signature-field :
      (sig : Text)
      → lib.base64_decode (lib.base64_encode sig) ≡ some sig
      → length sig ≡ 64
      → decode_signature lib (signature_field sig) ≡ ok sig
  unfolding decode_signature
  decode_signature-field sig back long =
      ap (decode_cut lib) (cut_prefix-append (codes "sig1=:") (lib.base64_encode sig ++ codes ":"))
      ∙ ap (decode_closed lib) (reverse-append (lib.base64_encode sig) (codes ":"))
      ∙ ap (λ t. check_length lib (lib.base64_decode t)) (reverse-reverse (lib.base64_encode sig))
      ∙ rw (back, long) refl

  fields_length : (r s : ℕ) → length (fill_bytes 32 r ++ fill_bytes 32 s) ≡ 64
  fields_length r s =
      length-append (fill_bytes 32 r) (fill_bytes 32 s)
      ∙ omega (arith, length-fill_bytes 32 r, length-fill_bytes 32 s)

  first_half :
      (r s : ℕ) → r < 256 ^ 32 → set_bytes 0 (take 32 (fill_bytes 32 r ++ fill_bytes 32 s)) ≡ r
  first_half r s h =
      ap (λ n. set_bytes 0 (take n (fill_bytes 32 r ++ fill_bytes 32 s)))
        (sym (length-fill_bytes 32 r))
      ∙ ap (set_bytes 0) (take-append (fill_bytes 32 r) (fill_bytes 32 s))
      ∙ set_bytes-fill_bytes 32 r h

  second_half :
      (r s : ℕ) → s < 256 ^ 32 → set_bytes 0 (drop 32 (fill_bytes 32 r ++ fill_bytes 32 s)) ≡ s
  second_half r s h =
      ap (λ n. set_bytes 0 (drop n (fill_bytes 32 r ++ fill_bytes 32 s)))
        (sym (length-fill_bytes 32 r))
      ∙ ap (set_bytes 0) (drop-append (fill_bytes 32 r) (fill_bytes 32 s))
      ∙ set_bytes-fill_bytes 32 s h

  set_signature-ok :
      (h : Header) (params : Text) (o : Option (ℕ × ℕ)) (h' : Header)
      → set_signature lib h params o ≡ ok h'
      → (r : ℕ) × (s : ℕ) × (o ≡ some (r, s))
        × (h'
            ≡ insert signature_name
                (signature_field (fill_bytes 32 r ++ fill_bytes 32 s))
                (insert input_name (codes "sig1=" ++ params) h))
  set_signature-ok h params none h' e = cc
  set_signature-ok h params (some (r, s)) h' e = (r, s, refl, cc)

  -- What is found in the headers after signing.
  signed_headers :
      (method path : Text) (h : Header) (params sig : Text)
      → EndsSolid params
      → let h' =
          insert signature_name
            (signature_field sig)
            (insert input_name (codes "sig1=" ++ params) h) in
        (trim_space (get input_name h') ≡ codes "sig1=" ++ params)
        × (trim_space (get signature_name h') ≡ signature_field sig)
        × ((ps : Text) → signature_base method path h' ps ≡ signature_base method path h ps)
  unfolding get text_eq
  signed_headers method path h params sig solid =
      let with_input = insert input_name (codes "sig1=" ++ params) h in
      (
        ap (λ v. trim_space (or_empty v))
              (lookup-insert signature_name input_name (signature_field sig) with_input
                ∙ lookup-insert_self input_name (codes "sig1=" ++ params) h)
            ∙ trim_space-EndsSolid b's' (codes "ig1=" ++ params) (unfold is_space in refl)
                (append-EndsSolid (codes "ig1=") params solid),
        ap (λ v. trim_space (or_empty v))
              (lookup-insert_self signature_name (signature_field sig) with_input)
            ∙ trim_space-EndsSolid b's' (codes "ig1=:" ++ (lib.base64_encode sig ++ codes ":"))
                (unfold is_space in refl)
                (append-EndsSolid (codes "ig1=:" ++ lib.base64_encode sig) (codes ":")
                  ([], b':', refl, unfold is_space in refl)),
        λ ps.
            signature_base-insert method path signature_name (signature_field sig) with_input ps
              (refl, (refl, (refl, (refl, (refl, (refl, (refl, tt)))))))
            ∙ signature_base-insert method path input_name (codes "sig1=" ++ params) h ps
                (refl, (refl, (refl, (refl, (refl, (refl, (refl, tt))))))),
      )

  verify_with-valid :
      (method path : Text) (h : Header) (public : PublicKey) (signature params : Text)
      (info : SignatureInfo) (sig : Text)
      → parse_signature_params lib params ≡ ok info
      → decode_signature lib signature ≡ ok sig
      → lib.ecdsa_verify public
          (lib.sha256 (signature_base method path h params))
          (set_bytes 0 (take 32 sig))
          (set_bytes 0 (drop 32 sig))
        ≡ true
      → verify_with lib method path h public signature (some params) ≡ ok info
  unfolding verify_with
  verify_with-valid method path h public signature params info sig parsed decoded valid =
      rw (parsed, decoded, valid) refl

  verify_request-fields :
      (method path : Text) (h : Header) (public : PublicKey) (params rest : Text)
      → lib.public_is_p256 public ≡ true
      → trim_space (get input_name h) ≡ codes "sig1=" ++ params
      → trim_space (get signature_name h) ≡ codes "sig1=:" ++ rest
      → verify_request lib method path h (some public)
        ≡ verify_with lib method path h public (codes "sig1=:" ++ rest) (some params)
  unfolding verify_request
  verify_request-fields method path h public params rest p256 input signature =
      rw (p256, input, signature)
        (ap (verify_with lib method path h public (codes "sig1=:" ++ rest))
          (cut_prefix-append (codes "sig1=") params))

  -- A request that was signed with a P-256 key passes verification with its public key, and what is
  -- learned from it is the signer's time, a 64-bit number, and the identifier of its certificate,
  -- if ECDSA, base64, quoting and hexadecimal printing do what they document.
  pub verify_request-sign_request :
      (laws : TextLaws lib) (random : Text) (h : Header) (method path : Text) (key : PrivateKey)
      (public : PublicKey) (leaf : Text) (created : ℤ) (h' : Header)
      → KeyPair lib key public
      → InInt64 created
      → sign_request lib random h method path (some key) leaf created ≡ ok h'
      → verify_request lib method path h' (some public)
        ≡ ok (record { created = created; key_id = cert_key_id lib leaf })
  unfolding sign_request verify_request
  verify_request-sign_request laws random h method path key public leaf created h' pair range e =
      let params = signature_params lib created (cert_key_id lib leaf) in
      let (done, passed, set) =
        >>=-eq-ok (guard (lib.private_is_p256 key) SignatureError.signature_key_type) _ e in
      let (r, s, drawn, same) = set_signature-ok h params _ h' set in
      let (input, signature, base) =
        signed_headers method path h params (fill_bytes 32 r ++ fill_bytes 32 s)
          (signature_params-EndsSolid laws created leaf) in
      let sig = fill_bytes 32 r ++ fill_bytes 32 s in
      let signed =
        insert signature_name (signature_field sig)
          (insert input_name (codes "sig1=" ++ params) h) in
      let (fits_r, fits_s) = pair.fits random _ r s drawn in
      subst
        (λ hd.
          verify_request lib method path hd (some public)
          ≡ ok (record { created = created; key_id = cert_key_id lib leaf }))
        (sym same)
        (verify_request-fields method path signed public params (lib.base64_encode sig ++ codes ":")
            pair.p256 input signature
          ∙ verify_with-valid method path signed public (signature_field sig) params _ sig
              (parse_signature_params-signature_params lib laws created (cert_key_id lib leaf) range
                (unfold cert_key_id in laws.hex (lib.sha256 leaf)))
              (decode_signature-field sig (pair.decoded sig) (fields_length r s))
              (rw (base params, first_half r s fits_r, second_half r s fits_s)
                (pair.verifies random _ r s drawn)))
