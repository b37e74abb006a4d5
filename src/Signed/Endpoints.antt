-- ===== src/Signed/Endpoints.antt =====
-- internal/signedsrv/server.go: the three calls of the service behind the common pipeline.
use muthur.Prelude.{Text, List, true, false, Option, Result}
use muthur.Alert.{AlertPayload}
use muthur.Auth.HttpSig.{Crypto}
use muthur.Auth.Sealed.{Hpke}
use muthur.Auth.Replay.{ReplayGuard}
use muthur.Auth.Signer.{Signer}
use muthur.Auth.Bootstrap.{BootstrapInput, BootstrapResult}
use muthur.Auth.Renew.{RenewResult}
use muthur.Grpc.{Handler, server_ingest, server_bootstrap_cert, server_sign_csr}
use muthur.Http.{HttpRequest, Failure, X509, path_ingest, path_bootstrap, path_sign_csr}
use muthur.Signed.{Deps, handle, unmarshalled}
use muthur.Store.{Store}

-- A handler of the store beside a queue that it leaves alone.
abbrev pub beside : {A S Q : Type 0} → Handler A S → Handler A (S × Q)
beside handler id (s, q) = let (r, s') = handler id s in (r, (s', q))

module _ {PrivateKey PublicKey Key HpkePublicKey Context Aead S : Type 0}
    (lib : Crypto PrivateKey PublicKey) (x509 : X509 PublicKey)
    (hpke : Hpke Key HpkePublicKey Context Aead) (st : Store S) (replay_guard : ReplayGuard)
    (d : Deps Key) where
  -- `ingest`
  unfoldable pub signed_ingest :
      (Text → Option AlertPayload)
      → (Unit {0} → Option Text)
      → HttpRequest
      → S × List AlertPayload
      → Result Failure Text × (S × List AlertPayload)
  unfolding handle unmarshalled server_ingest
  signed_ingest unmarshal marshal =
      handle lib x509 hpke st replay_guard d marshal (unmarshalled unmarshal server_ingest)
        path_ingest true

  -- `signCSR`
  unfoldable pub signed_sign_csr :
      {Q : Type 0}
      → Signer
      → (Text → Option Text)
      → (RenewResult → Option Text)
      → HttpRequest
      → S × Q
      → Result Failure Text × (S × Q)
  unfolding handle unmarshalled server_sign_csr
  signed_sign_csr signer unmarshal marshal =
      handle lib x509 hpke st replay_guard d marshal
        (unmarshalled unmarshal (server_sign_csr signer d.now d.tenants)) path_sign_csr true

  -- `bootstrap`
  unfoldable pub signed_bootstrap :
      {Q : Type 0}
      → Signer
      → (Text → Text)
      → Text
      → (Text → Option BootstrapInput)
      → (BootstrapResult → Option Text)
      → HttpRequest
      → S × Q
      → Result Failure Text × (S × Q)
  unfolding handle unmarshalled server_bootstrap_cert
  signed_bootstrap signer hash prefix unmarshal marshal =
      handle lib x509 hpke st replay_guard d marshal
        (unmarshalled unmarshal
          (λ i. beside (server_bootstrap_cert st signer hash prefix d.now d.tenants i)))
        path_bootstrap false
