-- ===== src/Auth/HttpSig/Covered.antt =====
-- What a request that passes `VerifyRequest` owes to the holder of the key.
use Prim.Native.String.{String}
use muthur.Prelude.{
  codes, [], ◌∷◌, inl, inr, ◌⊎◌, ◌≢◌, Bool-cases, text_eq, text_eq_iff, arith, Text, List, true,
  false, Bool, none, some, Option, ok, ◌≡◌, refl, sym, ap, ◌∙◌, guard-true, In, All, All-In, guard,
  >>=-eq-ok, ◌>>◌, take, drop, trim_space, not, is_empty, ◌&&◌, not,
}
use muthur.Auth.HttpSig.{
  Header, Crypto, SignatureInfo, SignatureError, get, component_value, to_upper, signature_base,
  signed_components, verify_with, verify_request, parse_signature_params, decode_signature,
  set_bytes, input_name, signature_name,
}
use muthur.Auth.HttpSig.Base.{SingleLines, SameComponents, signature_base-injective}

-- A request, with the parameters that are signed along with it.
pub record Request : Type 0 where
  pub method : Text
  pub path : Text
  pub header : Header
  pub params : Text

abbrev pub base_of : Request → Text
base_of q = signature_base q.method q.path q.header q.params

abbrev pub SingleLined : Request → Type 0
SingleLined q = SingleLines signed_components q.method q.path q.header

-- A signed header of a request, without the blanks around it.
abbrev pub value : String → Header → Text
value name h = trim_space (get (codes name) h)

-- Whether a base is of one of the requests.
signed_before :
    (base : Text) (signed : List Request)
    → ((q : Request) × In q signed × (base ≡ base_of q)) ⊎ All (λ q. base ≢ base_of q) signed
signed_before base [] = inr tt
signed_before base (q ∷ signed) = elim (Bool-cases (text_eq base (base_of q))) [
  | inl same ↦ inl (q, inl refl, (text_eq_iff base (base_of q)).0 same)
  | inr other ↦ elim (signed_before base signed) [
    | inl (r, member, e) ↦ inl (r, inr member, e)
    | inr never ↦ inr (apart other, never)
  ]
]
  where
    apart : {t : Text} → text_eq base t ≡ false → base ≢ t
    apart {t} other e = ground (arith, (text_eq_iff base t).1 e)

module _ {PrivateKey PublicKey : Type 0} (lib : Crypto PrivateKey PublicKey) where
  -- What verification has found in a request.
  pub record Verified (method path : Text) (h : Header) (public : PublicKey) (info : SignatureInfo)
      : Type 0 where
    pub params : Text
    pub sig : Text
    pub parsed : parse_signature_params lib params ≡ ok info
    pub decoded : decode_signature lib (trim_space (get signature_name h)) ≡ ok sig
    pub valid :
        lib.ecdsa_verify public
          (lib.sha256 (signature_base method path h params))
          (set_bytes 0 (take 32 sig))
          (set_bytes 0 (drop 32 sig))
        ≡ true

  guard-ok :
      {E A : Type 0} (b : Bool) (problem : E) (a c : A)
      → (guard b problem >> ok a) ≡ ok c
      → (b ≡ true) × (a ≡ c)
  guard-ok true problem a c e = (refl, cc)
  guard-ok false problem a c e = cc

  verify_with-Verified :
      (method path : Text) (h : Header) (public : PublicKey) (o : Option Text)
      (info : SignatureInfo)
      → verify_with lib method path h public (trim_space (get signature_name h)) o ≡ ok info
      → Verified method path h public info
  unfolding verify_with
  verify_with-Verified method path h public none info e = cc
  verify_with-Verified method path h public (some params) info e =
      let (found, parsed, e1) = >>=-eq-ok (parse_signature_params lib params) _ e in
      let (sig, decoded, e2) =
        >>=-eq-ok (decode_signature lib (trim_space (get signature_name h))) _ e1 in
      let (valid, same) = guard-ok _ SignatureError.signature_invalid found info e2 in
      record {
        params = params;
        sig = sig;
        parsed = parsed ∙ ap ok same;
        decoded = decoded;
        valid = valid;
      }

  pub verify_request-Verified :
      (method path : Text) (h : Header) (public : PublicKey) (info : SignatureInfo)
      → verify_request lib method path h (some public) ≡ ok info
      → (lib.public_is_p256 public ≡ true) × Verified method path h public info
  unfolding verify_request
  verify_request-Verified method path h public info e =
      let (u, p256, e1) =
        >>=-eq-ok (guard (lib.public_is_p256 public) SignatureError.signature_key_type) _ e in
      let (v, present, e2) =
        >>=-eq-ok
          (guard
            (not (is_empty (trim_space (get input_name h)))
              && not (is_empty (trim_space (get signature_name h))))
            SignatureError.signature_missing)
          _ e1 in
      (guard-true _ _ u p256, verify_with-Verified method path h public _ info e2)

  -- A signature of the request that is valid, on a base that is of no request the holder signed.
  pub record Forged (method path : Text) (h : Header) (public : PublicKey) (signed : List Request)
      : Type 0 where
    pub params : Text
    pub sig : Text
    pub decoded : decode_signature lib (trim_space (get signature_name h)) ≡ ok sig
    pub valid :
        lib.ecdsa_verify public
          (lib.sha256 (signature_base method path h params))
          (set_bytes 0 (take 32 sig))
          (set_bytes 0 (drop 32 sig))
        ≡ true
    pub unsigned : All (λ q. signature_base method path h params ≢ base_of q) signed

  -- A request that the holder signed, and with which the given one agrees on all that is signed.
  pub record Covered (method path : Text) (h : Header) (info : SignatureInfo)
      (signed : List Request) : Type 0 where
    pub request : Request
    pub member : In request signed
    pub same_method : to_upper method ≡ to_upper request.method
    pub same_path : path ≡ request.path
    pub same_digest : value "content-digest" h ≡ value "content-digest" request.header
    pub same_timestamp : value "x-muthur-timestamp" h ≡ value "x-muthur-timestamp" request.header
    pub same_nonce : value "x-muthur-nonce" h ≡ value "x-muthur-nonce" request.header
    pub same_cert : value "x-muthur-cert" h ≡ value "x-muthur-cert" request.header
    pub same_kid : value "x-muthur-hpke-kid" h ≡ value "x-muthur-hpke-kid" request.header
    pub same_params : parse_signature_params lib request.params ≡ ok info

  Covered-agreeing :
      (method path : Text) (h : Header) (info : SignatureInfo) (signed : List Request) (q : Request)
      → In q signed
      → SameComponents signed_components method path h q.method q.path q.header
      → parse_signature_params lib q.params ≡ ok info
      → Covered method path h info signed
  unfolding component_value
  Covered-agreeing method path h info signed q member same params = record {
    request = q;
    member = member;
    same_method = same.0;
    same_path = same.1.0;
    same_digest = same.1.1.0;
    same_timestamp = same.1.1.1.0;
    same_nonce = same.1.1.1.1.0;
    same_cert = same.1.1.1.1.1.0;
    same_kid = same.1.1.1.1.1.1.0;
    same_params = params;
  }

  -- A request that verifies agrees with one that the holder of the key signed on the method up to
  -- case, the path, content-digest, timestamp, nonce, certificate and HPKE key identifier, and what
  -- is learned of it are that request's signature parameters; or else its signature is a forgery,
  -- valid on a base that is of no request the holder signed; if the values of the components are
  -- single lines.
  pub verify_request-Covered :
      (method path : Text) (h : Header) (public : PublicKey) (info : SignatureInfo)
      (signed : List Request)
      → All SingleLined signed
      → SingleLines signed_components method path h
      → verify_request lib method path h (some public) ≡ ok info
      → Covered method path h info signed ⊎ Forged method path h public signed
  verify_request-Covered method path h public info signed lines line e =
      let found = (verify_request-Verified method path h public info e).1 in
      elim (signed_before (signature_base method path h found.params) signed) [
        | inl (q, member, base) ↦
            let (same, params) =
              signature_base-injective method path h found.params q.method q.path q.header q.params
                line (All-In SingleLined signed q lines member) base in
            inl (
              Covered-agreeing method path h info signed q member same
                (ap (parse_signature_params lib) (sym params) ∙ found.parsed))
        | inr never ↦ inr (record {
          params = found.params;
          sig = found.sig;
          decoded = found.decoded;
          valid = found.valid;
          unsigned = never;
        })
      ]
