-- ===== src/Grpc.antt =====
-- internal/grpcsrv: the three interceptors in their order (main.go chains authentication, revocation
-- and replay), the three calls of server.go, and internal/ingest/handler.go behind it. What a request carries
-- is a record, and the queue holds the alerts that were handed to the pipeline. Logs are not modelled.
pub mod Admission
pub mod Renewal
use muthur.Prelude.{
  ℕ, Text, codes, List, [], ◌∷◌, ◌++◌, Bool, true, false, Option, none, some, Result, ok, err,
  text_eq, is_empty, trim_space, lookup, not, if◌then◌else◌,
}
use muthur.Alert.{AlertPayload}
use muthur.Auth.Identity.{Identity, Certificate, extract_from_cert, IdentityError}
use muthur.Auth.Replay.{
  ReplayError, ReplayGuard, missing_timestamp, bad_timestamp, missing_nonce, bad_nonce, verify,
}
use muthur.Auth.Tenants.{Tenant, Tenants}
use muthur.Auth.Bootstrap
use muthur.Auth.Bootstrap.{BootstrapError, BootstrapInput, BootstrapResult}
use muthur.Auth.Renew
use muthur.Auth.Renew.{RenewError, RenewResult}
use muthur.Auth.Signer.{Signer}
use muthur.Store.{Store}

-- The gRPC status codes: those that the handlers answer with, those that the signed transport maps
-- besides, and the rest as one.
pub data Code : Type 0 where
  unauthenticated : Code
  permission_denied : Code
  invalid_argument : Code
  internal : Code
  not_found : Code
  failed_precondition : Code
  unavailable : Code
  other_code : Code

-- The connection's peer, with the certificates it presented.
pub data Peer : Type 0 where
  no_peer : Peer
  no_tls : Peer
  tls : List Certificate → Peer

pub record Call : Type 0 where
  pub method : Text
  pub peer : Peer
  pub timestamps : List Text
  pub nonces : List Text

-- `authExemptMethods`
unfoldable pub exempt : Text → Bool
exempt method = text_eq method (codes "/monitoring.v1.Brain/BootstrapCert")

-- `firstMeta`
unfoldable pub first_meta : List Text → Text
first_meta [] = []
first_meta (v ∷ vs) =
    let rest = first_meta vs in if is_empty (trim_space v) then rest else trim_space v

-- The code of a replay error.
unfoldable pub replay_code : ReplayError → Code
replay_code missing_timestamp = invalid_argument
replay_code bad_timestamp = invalid_argument
replay_code missing_nonce = invalid_argument
replay_code bad_nonce = invalid_argument
replay_code ReplayError.no_identity = unauthenticated
replay_code ReplayError.clock_skew = unauthenticated
replay_code ReplayError.nonce_reused = unauthenticated
replay_code ReplayError.nonce_store = unauthenticated

-- What comes after an interceptor, given the identity of the context.
abbrev pub Handler : Type 0 → Type 0 → Type 0
Handler A W = Option Identity → W → Result Code A × W

module _ {A W : Type 0} where
  abbrev pub with_identity : Handler A W → Result IdentityError Identity → W → Result Code A × W
  with_identity handler (err e) w = (err unauthenticated, w)
  with_identity handler (ok id) w = handler (some id) w

  abbrev pub with_peer : Handler A W → Peer → W → Result Code A × W
  with_peer handler no_peer w = (err unauthenticated, w)
  with_peer handler no_tls w = (err unauthenticated, w)
  with_peer handler (tls []) w = (err unauthenticated, w)
  with_peer handler (tls (leaf ∷ chain)) w = with_identity handler (extract_from_cert (some leaf)) w

  -- `AuthInterceptor`
  unfoldable pub auth_interceptor : Call → Handler A W → W → Result Code A × W
  auth_interceptor call handler w =
      if exempt call.method then handler none w else with_peer handler call.peer w

  abbrev pub unless_revoked : Handler A W → Identity → Option Tenant → W → Result Code A × W
  unless_revoked handler id none w = (err permission_denied, w)
  unless_revoked handler id (some t) w =
      if t.revoked then (err permission_denied, w) else handler (some id) w

  abbrev pub with_tenants : Handler A W → Option Identity → Option Tenants → W → Result Code A × W
  with_tenants handler none ts w = (err unauthenticated, w)
  with_tenants handler (some id) none w = (err internal, w)
  with_tenants handler (some id) (some ts) w = unless_revoked handler id (lookup id.cluster_id ts) w

  -- `RevocationInterceptor`, with the current tenants.
  unfoldable pub revocation_interceptor : Option Tenants → Call → Handler A W → Handler A W
  revocation_interceptor ts call handler id w =
      if exempt call.method then handler id w else with_tenants handler id ts w

module _ {A S Q : Type 0} (st : Store S) (guard : ReplayGuard) where
  abbrev pub after_verify :
      Handler A (S × Q)
      → Option Identity
      → Q
      → Result ReplayError (Unit {0}) × S
      → Result Code A × (S × Q)
  after_verify handler id q (err e, s) = (err (replay_code e), (s, q))
  after_verify handler id q (ok _, s) = handler id (s, q)

  abbrev pub with_nonce :
      ℕ → Call → Handler A (S × Q) → Option Identity → S × Q → Result Code A × (S × Q)
  with_nonce now call handler none (s, q) = (err unauthenticated, (s, q))
  with_nonce now call handler (some id) (s, q) =
      after_verify handler (some id) q
        (verify st guard now (some id) (first_meta call.timestamps) (first_meta call.nonces) s)

  -- `ReplayInterceptor`
  unfoldable pub replay_interceptor : ℕ → Call → Handler A (S × Q) → Handler A (S × Q)
  replay_interceptor now call handler id w =
      if exempt call.method then handler id w else with_nonce now call handler id w

  -- The chain around a handler.
  unfoldable pub intercepted :
      ℕ → Option Tenants → Call → Handler A (S × Q) → S × Q → Result Code A × (S × Q)
  intercepted now ts call handler w =
      auth_interceptor call (revocation_interceptor ts call (replay_interceptor now call handler)) w

-- `ErrIngestNoIdentity` and `ErrIngestForbidden`.
pub data IngestError : Type 0 where
  no_identity : IngestError
  forbidden : IngestError

-- `Handler.Ingest`: an accepted alert goes to the pipeline.
unfoldable pub ingest :
    Option Identity
    → AlertPayload
    → List AlertPayload
    → Result IngestError (Unit {0}) × List AlertPayload
ingest none p q = (err no_identity, q)
ingest (some id) p q =
    if not (text_eq p.cluster_id id.cluster_id) then (err forbidden, q) else (ok tt, q ++ (p ∷ []))

unfoldable pub ingest_code : IngestError → Code
ingest_code no_identity = unauthenticated
ingest_code forbidden = permission_denied

abbrev pub ingest_answer :
    {S : Type 0}
    → S
    → Result IngestError (Unit {0}) × List AlertPayload
    → Result Code (Unit {0}) × (S × List AlertPayload)
ingest_answer s (err e, q) = (err (ingest_code e), (s, q))
ingest_answer s (ok _, q) = (ok tt, (s, q))

-- `Server.Ingest`
unfoldable pub server_ingest :
    {S : Type 0}
    → AlertPayload
    → Option Identity
    → S × List AlertPayload
    → Result Code (Unit {0}) × (S × List AlertPayload)
server_ingest p id (s, q) = ingest_answer s (ingest id p q)

-- The codes of `Server.BootstrapCert`.
-- The panic in the signer has no code of its own; the last line stands for it.
unfoldable pub bootstrap_code : BootstrapError → Code
bootstrap_code BootstrapError.bad_request = invalid_argument
bootstrap_code BootstrapError.unauthorized = unauthenticated
bootstrap_code BootstrapError.forbidden = permission_denied
bootstrap_code BootstrapError.internal = internal
bootstrap_code BootstrapError.crashed = other_code

abbrev pub coded : {E A : Type 0} → (E → Code) → Result E A → Result Code A
coded code (err e) = err (code e)
coded code (ok a) = ok a

-- `Server.BootstrapCert`, behind the exempt method.
unfoldable pub server_bootstrap_cert :
    {S : Type 0}
    → Store S
    → Signer
    → (Text → Text)
    → Text
    → ℕ
    → Option Tenants
    → BootstrapInput
    → Handler BootstrapResult S
server_bootstrap_cert st signer hash prefix now ts i id s =
    let (r, s') = Bootstrap.issue st signer hash prefix now ts i s in (coded bootstrap_code r, s')

-- The codes of `Server.SignCSR`.
unfoldable pub renew_code : RenewError → Code
renew_code RenewError.bad_request = invalid_argument
renew_code RenewError.forbidden = permission_denied
renew_code RenewError.no_identity = unauthenticated
renew_code RenewError.crashed = other_code

-- `Server.SignCSR`
unfoldable pub server_sign_csr :
    {W : Type 0} → Signer → ℕ → Option Tenants → Text → Handler RenewResult W
server_sign_csr signer now ts csr_pem id w =
    (coded renew_code (Renew.issue signer now id ts csr_pem), w)
