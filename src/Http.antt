-- ===== src/Http.antt =====
-- internal/signedsrv/server.go: what a request of the signed transport carries, its answers and error codes,
-- and `TrustPools.VerifyClientLeaf` of internal/auth/trust.go. crypto/x509 is a parameter, and messages are
-- not modelled.
use muthur.Prelude.{
  ℕ, ◌*◌, ◌^◌, Text, codes, List, [], ◌∷◌, Bool, false, Option, none, some, Result, ok, err, ℤ, pos,
  negsuc, lookup, ltb, length, ◌==◌, if◌then◌else◌,
}
use muthur.Auth.HttpSig.{Header}
use muthur.Auth.Identity.{Certificate, Identity}
use muthur.Auth.Replay.{
  ReplayError, missing_timestamp, bad_timestamp, missing_nonce, bad_nonce, clock_skew, nonce_reused,
  nonce_store, no_identity,
}
use muthur.Auth.Sealed.{
  SealedError, unknown_hpke_key, sealed_malformed, hpke_failed, cipher_failed, nonce_failed,
}
use muthur.Auth.Tenants.{Tenant, Tenants}
use muthur.Grpc.{
  Code, unauthenticated, permission_denied, invalid_argument, internal, not_found,
  failed_precondition, unavailable, other_code,
}

abbrev pub path_keys : Text
path_keys = codes "/muthur/v1/keys"

abbrev pub path_bootstrap : Text
path_bootstrap = codes "/muthur/v1/bootstrap"

abbrev pub path_ingest : Text
path_ingest = codes "/muthur/v1/ingest"

abbrev pub path_sign_csr : Text
path_sign_csr = codes "/muthur/v1/sign-csr"

-- `8 << 20`
abbrev pub max_body : ℕ
max_body = 8 * 2 ^ 20

abbrev pub sealed_content_type : Text
sealed_content_type = codes "application/vnd.muthur.sealed"

-- The codes of the error body.
pub data ErrorCode : Type 0 where
  bad_request : ErrorCode
  bad_digest : ErrorCode
  bad_signature : ErrorCode
  bad_cert : ErrorCode
  unknown_tenant : ErrorCode
  revoked : ErrorCode
  replay : ErrorCode
  hpke_key_unknown : ErrorCode
  sealed_code : ErrorCode
  unauthorized : ErrorCode
  forbidden : ErrorCode
  not_found_code : ErrorCode
  precondition : ErrorCode
  internal_code : ErrorCode

-- What `writeError` answers.
pub record Failure : Type 0 where
  pub status : ℕ
  pub code : ErrorCode

abbrev pub fail : ℕ → ErrorCode → Failure
fail status code = record { status = status; code = code }

-- A request that chi has routed. `body` is none where it cannot be read.
pub record HttpRequest : Type 0 where
  pub method : Text
  pub header : Header
  pub body : Option Text

-- A client certificate: what identifies, its ECDSA key if it has one, and its DER encoding.
pub record ClientLeaf (PublicKey : Type 0) : Type 0 where
  pub certificate : Certificate
  pub public_key : Option PublicKey
  pub raw : Text

pub record TrustPools : Type 0 where
  pub roots : List Text
  pub intermediates : List Text

pub data KeyUsage : Type 0 where
  client_auth : KeyUsage

-- `x509.VerifyOptions`
pub record VerifyOptions : Type 0 where
  pub roots : List Text
  pub intermediates : List Text
  pub current_time : ℕ
  pub key_usages : List KeyUsage

-- What the code calls of crypto/x509.
pub record X509 (PublicKey : Type 0) : Type 0 where
  pub parse_certificate : Text → Option (ClientLeaf PublicKey)
  pub verify : ClientLeaf PublicKey → VerifyOptions → Bool

-- `VerifyClientLeaf`
unfoldable pub verify_client_leaf :
    {PublicKey : Type 0} → X509 PublicKey → TrustPools → ClientLeaf PublicKey → ℕ → Bool
verify_client_leaf x509 t leaf now = x509.verify leaf (record {
  roots = t.roots;
  intermediates = t.intermediates;
  current_time = now;
  key_usages = client_auth ∷ [];
})

-- `grpcToHTTP`
unfoldable pub grpc_to_http : Code → Failure
grpc_to_http invalid_argument = fail 400 bad_request
grpc_to_http unauthenticated = fail 401 unauthorized
grpc_to_http permission_denied = fail 403 forbidden
grpc_to_http not_found = fail 404 not_found_code
grpc_to_http failed_precondition = fail 412 precondition
grpc_to_http unavailable = fail 503 internal_code
grpc_to_http internal = fail 500 internal_code
grpc_to_http other_code = fail 500 internal_code

-- The answer to a replay error.
unfoldable pub replay_failure : ReplayError → Failure
replay_failure missing_timestamp = fail 400 bad_request
replay_failure bad_timestamp = fail 400 bad_request
replay_failure missing_nonce = fail 400 bad_request
replay_failure bad_nonce = fail 400 bad_request
replay_failure no_identity = fail 401 replay
replay_failure clock_skew = fail 401 replay
replay_failure nonce_reused = fail 401 replay
replay_failure nonce_store = fail 401 replay

unfoldable pub open_failure : SealedError → Failure
open_failure unknown_hpke_key = fail 400 hpke_key_unknown
open_failure sealed_malformed = fail 400 sealed_code
open_failure hpke_failed = fail 400 sealed_code
open_failure cipher_failed = fail 400 sealed_code
open_failure nonce_failed = fail 400 sealed_code

abbrev pub or_fail : {A : Type 0} → Failure → Option A → Result Failure A
or_fail f none = err f
or_fail f (some a) = ok a

-- One answer for every error of a call.
abbrev pub failing : {E A : Type 0} → Failure → Result E A → Result Failure A
failing f (err e) = err f
failing f (ok a) = ok a

abbrev pub failing_by : {E A : Type 0} → (E → Failure) → Result E A → Result Failure A
failing_by f (err e) = err (f e)
failing_by f (ok a) = ok a

-- `a == b` on int64.
unfoldable pub same_int : ℤ → ℤ → Bool
same_int (pos m) (pos n) = m == n
same_int (pos m) (negsuc n) = false
same_int (negsuc m) (pos n) = false
same_int (negsuc m) (negsuc n) = m == n

-- The X-Muthur-Timestamp header is the signature's creation time.
unfoldable pub created_matches : ℤ → Option ℤ → Bool
unfolding same_int
created_matches created none = false
created_matches created (some ts) = same_int ts created

-- `http.MaxBytesReader` and `io.ReadAll`
abbrev pub read_body : Option Text → Result Failure Text
read_body none = err (fail 413 bad_request)
read_body (some body) = if ltb max_body (length body) then err (fail 413 bad_request) else ok body

-- The tenant checks of `authenticate`.
abbrev pub unless_revoked : Identity → Option Tenant → Result Failure Identity
unless_revoked id none = err (fail 403 unknown_tenant)
unless_revoked id (some t) = if t.revoked then err (fail 403 revoked) else ok id

unfoldable pub check_tenant : Option Tenants → Identity → Result Failure Identity
unfolding lookup
check_tenant none id = err (fail 500 internal_code)
check_tenant (some ts) id = unless_revoked id (lookup id.cluster_id ts)
