-- ===== src/Signed.antt =====
-- internal/signedsrv/server.go: the same calls as over gRPC, behind signed and sealed HTTP requests. JSON and
-- protobuf are parameters; logs and the headers of the answer are not modelled, and the clock is read
-- once for a request.
pub mod Endpoints
pub mod Admission
pub mod Guarded
pub mod Renewal
pub mod Keys
use muthur.Http.{
  path_keys, path_bootstrap, path_ingest, path_sign_csr, sealed_content_type, Failure, fail,
  HttpRequest, ClientLeaf, TrustPools, X509, verify_client_leaf, grpc_to_http, replay_failure,
  open_failure, or_fail, failing, failing_by, created_matches, read_body, check_tenant, bad_request,
  bad_digest, bad_signature, bad_cert, internal_code, hpke_key_unknown,
}
use muthur.Prelude.{
  ℕ, ◌*◌, ◌^◌, Text, codes, List, [], ◌∷◌, ◌++◌, Bool, true, false, Option, none, some, Result, ok,
  err, ◌>>=◌, ◌>>◌, guard, ℤ, pos, negsuc, parse_int, text_eq, is_empty, has_prefix, trim_space,
  lookup, not, ltb, length, ◌==◌, if◌then◌else◌,
}
use muthur.Auth.HttpSig.{
  Header, Crypto, SignatureInfo, get, timestamp_name, nonce_name, cert_name, kid_name, cert_key_id,
  verify_content_digest, verify_request,
}
use muthur.Auth.Identity.{Certificate, Identity, extract_from_cert}
use muthur.Auth.Replay.{
  ReplayError, ReplayGuard, verify, missing_timestamp, bad_timestamp, missing_nonce, bad_nonce,
  clock_skew, nonce_reused, nonce_store, no_identity,
}
use muthur.Auth.Sealed.{
  Hpke, HpkeKeySet, ResponseKey, SealedError, unknown_hpke_key, sealed_malformed, hpke_failed,
  cipher_failed, nonce_failed, open_request, seal_response,
}
use muthur.Auth.Tenants.{Tenant, Tenants}
use muthur.Grpc.{
  Code, unauthenticated, permission_denied, invalid_argument, internal, not_found,
  failed_precondition, unavailable, other_code, Handler,
}
use muthur.Store.{Store}

module _ {PrivateKey PublicKey : Type 0} (lib : Crypto PrivateKey PublicKey) where
  -- The content type, the body and its digest.
  unfoldable pub receive : HttpRequest → Result Failure Text
  unfolding has_prefix get verify_content_digest
  receive req =
      guard (has_prefix sealed_content_type (get (codes "content-type") req.header))
        (fail 415 bad_request)
      >> (read_body req.body >>= λ body.
          failing (fail 400 bad_digest) (verify_content_digest lib req.header body) >> ok body)

module _ {PrivateKey PublicKey : Type 0} (lib : Crypto PrivateKey PublicKey)
    (x509 : X509 PublicKey) where
  abbrev pub parse_der : Option Text → Option (ClientLeaf PublicKey)
  parse_der none = none
  parse_der (some der) = x509.parse_certificate der

  -- `parseCertHeader`
  unfoldable pub parse_cert_header : Text → Option (ClientLeaf PublicKey)
  unfolding trim_space
  parse_cert_header v =
      if is_empty (trim_space v) then none else parse_der (lib.base64_decode (trim_space v))

  -- `authenticate` up to the tenant: the certificate, the signature, and the identity.
  unfoldable pub identify : ℕ → TrustPools → HttpRequest → Text → Text → Result Failure Identity
  unfolding parse_cert_header get verify_client_leaf verify_request text_eq cert_key_id
      created_matches parse_int extract_from_cert
  identify now trust req path timestamp =
      or_fail (fail 401 bad_cert) (parse_cert_header (get cert_name req.header)) >>= λ leaf.
      guard (verify_client_leaf x509 trust leaf now) (fail 401 bad_cert)
      >> (or_fail (fail 401 bad_cert) leaf.public_key >>= λ key.
          failing (fail 401 bad_signature)
            (verify_request lib req.method path req.header (some key))
          >>= λ info.
              guard (text_eq info.key_id (cert_key_id lib leaf.raw)) (fail 401 bad_signature)
              >> (guard (created_matches info.created (parse_int timestamp))
                    (fail 401 bad_signature)
                  >> failing (fail 401 bad_cert) (extract_from_cert (some leaf.certificate))))

  module _ {S : Type 0} (st : Store S) (replay_guard : ReplayGuard) where
    abbrev pub claimed : Identity → Result ReplayError (Unit {0}) × S → Result Failure Identity × S
    claimed id (err e, s) = (err (replay_failure e), s)
    claimed id (ok _, s) = (ok id, s)

    abbrev pub then_replay :
        ℕ → Text → Text → Result Failure Identity → S → Result Failure Identity × S
    then_replay now timestamp nonce (err f) s = (err f, s)
    then_replay now timestamp nonce (ok id) s =
        claimed id (verify st replay_guard now (some id) timestamp nonce s)

    -- `authenticate`
    unfoldable pub authenticate :
        ℕ
        → TrustPools
        → Option Tenants
        → HttpRequest
        → Text
        → Text
        → Text
        → S
        → Result Failure Identity × S
    unfolding identify check_tenant
    authenticate now trust ts req path timestamp nonce s =
        then_replay now timestamp nonce (identify now trust req path timestamp >>= check_tenant ts)
          s

-- The request's values that the handlers take: the trimmed headers.
abbrev pub timestamp_of : HttpRequest → Text
timestamp_of req = trim_space (get timestamp_name req.header)

abbrev pub nonce_of : HttpRequest → Text
nonce_of req = trim_space (get nonce_name req.header)

abbrev pub kid_of : HttpRequest → Text
kid_of req = trim_space (get kid_name req.header)

module _ {Key HpkePublicKey Context Aead : Type 0}
    (hpke : Hpke Key HpkePublicKey Context Aead) where
  -- The answer of a call: an error, or the response marshalled and sealed.
  unfoldable pub respond :
      {M : Type 0}
      → Option Text
      → (M → Option Text)
      → ResponseKey
      → Result Code M
      → Result Failure Text
  unfolding grpc_to_http seal_response
  respond random marshal sealer (err c) = err (grpc_to_http c)
  respond random marshal sealer (ok m) = or_fail (fail 500 internal_code) (marshal m) >>= λ out.
      failing (fail 500 internal_code) (seal_response hpke random sealer out)

  -- The call on an opened body.
  unfoldable pub opened :
      {M W : Type 0}
      → Option Text
      → (M → Option Text)
      → (Text → Handler M W)
      → Option Identity
      → Result Failure (Text × ResponseKey)
      → W
      → Result Failure Text × W
  unfolding respond
  opened random marshal call id (err f) w = (err f, w)
  opened random marshal call id (ok (plaintext, sealer)) w =
      let (r, w') = call plaintext id w in (respond random marshal sealer r, w')

-- `proto.Unmarshal` before a call of the service.
abbrev pub unmarshalled_call : {R A W : Type 0} → (R → Handler A W) → Option R → Handler A W
unmarshalled_call call none id w = (err invalid_argument, w)
unmarshalled_call call (some req) id w = call req id w

unfoldable pub unmarshalled :
    {R A W : Type 0} → (Text → Option R) → (R → Handler A W) → Text → Handler A W
unmarshalled unmarshal call plaintext = unmarshalled_call call (unmarshal plaintext)

-- What the server composes, beside the store: `Deps`, and what it reads of the world.
pub record Deps (Key : Type 0) : Type 0 where
  pub keys : HpkeKeySet Key
  pub trust : TrustPools
  pub tenants : Option Tenants
  pub now : ℕ
  pub random : Option Text

module _ {PrivateKey PublicKey Key S : Type 0} (lib : Crypto PrivateKey PublicKey)
    (x509 : X509 PublicKey) (st : Store S) (replay_guard : ReplayGuard) (d : Deps Key) where
  -- The caller of an authenticated path; bootstrap has none.
  unfoldable pub caller : Bool → HttpRequest → Text → S → Result Failure (Option Identity) × S
  unfolding authenticate
  caller false req path s = (ok none, s)
  caller true req path s =
      let (r, s') =
        authenticate lib x509 st replay_guard d.now d.trust d.tenants req path (timestamp_of req)
          (nonce_of req) s in
      (r >>= λ id. ok (some id), s')

module _ {PrivateKey PublicKey Key HpkePublicKey Context Aead S Q M : Type 0}
    (lib : Crypto PrivateKey PublicKey) (x509 : X509 PublicKey)
    (hpke : Hpke Key HpkePublicKey Context Aead) (st : Store S) (replay_guard : ReplayGuard)
    (d : Deps Key) where
  abbrev pub after_caller :
      (M → Option Text)
      → (Text → Handler M (S × Q))
      → HttpRequest
      → Text
      → Text
      → Q
      → Result Failure (Option Identity) × S
      → Result Failure Text × (S × Q)
  after_caller marshal call req path body q (err f, s) = (err f, (s, q))
  after_caller marshal call req path body q (ok id, s) =
      opened hpke d.random marshal call id
        (failing_by open_failure
          (open_request hpke d.keys (kid_of req) path (timestamp_of req) (nonce_of req) body))
        (s, q)

  abbrev pub after_receive :
      (M → Option Text)
      → (Text → Handler M (S × Q))
      → Text
      → Bool
      → HttpRequest
      → S × Q
      → Result Failure Text
      → Result Failure Text × (S × Q)
  after_receive marshal call path authenticated req w (err f) = (err f, w)
  after_receive marshal call path authenticated req (s, q) (ok body) =
      after_caller marshal call req path body q
        (caller lib x509 st replay_guard d authenticated req path s)

  -- `handle`
  unfoldable pub handle :
      (M → Option Text)
      → (Text → Handler M (S × Q))
      → Text
      → Bool
      → HttpRequest
      → S × Q
      → Result Failure Text × (S × Q)
  unfolding receive caller open_request opened open_failure
  handle marshal call path authenticated req w =
      after_receive marshal call path authenticated req w (receive lib req)
