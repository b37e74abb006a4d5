-- ===== src/Tests/SignedHttp.antt =====
-- Runs of the signed transport.
use muthur.Auth.Renew.{issue, issue_for}
use muthur.Prelude.{
  ℕ, Text, codes, List, [], ◌∷◌, ◌++◌, true, none, some, Option, Result, ok, err, ◌≡◌, refl, ◌⊎◌,
  if◌then◌else◌, text_eq,
}
use muthur.Alert.{AlertPayload}
use muthur.Auth.HttpSig.{Header}
use muthur.Auth.HttpSig.{verify_with}
use muthur.Auth.Signer.{Leaf, sign}
use muthur.Auth.Signer.RoundTrip.{CreatesTemplate}
use muthur.Grpc.{ingest}
use muthur.Auth.Replay.{
  verify, check_timestamp, check_nonce, claim_nonce, ReplayGuard, new_replay_guard,
}
use muthur.Http.{replay_failure, Failure, HttpRequest, X509, fail, replay}
use muthur.Signed.{Deps}
use muthur.Signed.Endpoints.{signed_ingest, signed_sign_csr}
use muthur.Signed.Guarded.{Ingested, signed_ingest-Ingested}
use muthur.Signed.Renewal.{SignedRenewal, signed_sign_csr-SignedRenewal}
use muthur.Store.Memory.{Memory, empty, set_nx}
use muthur.Store.Memory.Backend.{memory}
use muthur.Tests.Data.{alert, hundred, leaf_cert, index, nonce, signer}
use muthur.Tests.Signing.{crypto, padding}
use muthur.Tests.Sealing.{sealing, key_set}

abbrev x509 : X509 ℕ
x509 = record {
  parse_certificate =
      λ der. some (record { certificate = leaf_cert; public_key = some 1; raw = der });
  verify = λ leaf options. true;
}

abbrev deps : Deps ℕ
deps = record {
  keys = key_set;
  trust = record { roots = codes "root" ∷ []; intermediates = [] };
  tenants = some index;
  now = hundred;
  random = some (codes "123456789012");
}

abbrev replay_guard : ReplayGuard
replay_guard = new_replay_guard 0 []

-- A body that is sealed for a path at second 100 under the nonce of the tests.
abbrev sealed_body : Text → Text
sealed_body plaintext =
    1 ∷ (0 ∷ (padding ++ ((codes "100" ++ (10 ∷ (nonce ++ (0 ∷ [])))) ++ plaintext)))

abbrev signed_header : Text → Header
signed_header plaintext =
    (codes "content-type", codes "application/vnd.muthur.sealed")
    ∷ (codes "content-digest", codes "sha-256=:" ++ (sealed_body plaintext ++ codes ":"))
    ∷ (codes "x-muthur-timestamp", codes "100")
    ∷ (codes "x-muthur-nonce", nonce)
    ∷ (codes "x-muthur-cert", codes "leaf")
    ∷ (codes "x-muthur-hpke-kid", codes "k")
    ∷ (
      codes "signature-input",
      codes
          "sig1=(\"@method\" \"@path\" \"content-digest\" \"x-muthur-timestamp\" \"x-muthur-nonce\" \"x-muthur-cert\" \"x-muthur-hpke-kid\");created=100;alg=\"ecdsa-p256-sha256\";keyid=\"c0de\"",
    )
    ∷ (codes "signature", codes "sig1=:" ++ ((padding ++ (5 ∷ (padding ++ (7 ∷ [])))) ++ codes ":"))
    ∷ []

abbrev request : Text → HttpRequest
request plaintext = record {
  method = codes "POST";
  header = signed_header plaintext;
  body = some (sealed_body plaintext);
}

abbrev decode_alert : Text → Option AlertPayload
decode_alert t = if text_eq t (codes "alert") then some alert else none

abbrev run :
    HttpRequest → Memory × List AlertPayload → Result Failure Text × (Memory × List AlertPayload)
unfolding signed_ingest
run =
    signed_ingest crypto x509 sealing memory replay_guard deps decode_alert
      (λ u. some (codes "done"))

abbrev answer : Text
answer = 1 ∷ codes "123456789012123456789012done"

accepted : (run (request (codes "alert")) (empty, [])).1.1 ≡ alert ∷ []
unfolding signed_ingest verify_with verify check_timestamp new_replay_guard check_nonce claim_nonce
    memory set_nx ingest
accepted = refl

answered : (run (request (codes "alert")) (empty, [])).0 ≡ ok answer
unfolding signed_ingest verify_with verify check_timestamp new_replay_guard check_nonce claim_nonce
    memory set_nx ingest
answered = refl

-- The same request once more.
replayed :
    (run (request (codes "alert")) (run (request (codes "alert")) (empty, [])).1).0
    ≡ err (fail 401 replay)
unfolding signed_ingest verify_with verify check_timestamp new_replay_guard check_nonce claim_nonce
    memory set_nx ingest replay_failure
replayed = refl

signed_ingest-Ingested_example :
    ((signed_ingest crypto x509 sealing memory replay_guard deps decode_alert
        (λ u. some (codes "done"))
        (request (codes "alert"))
        (empty, [])).1.1
      ≡ [])
    ⊎ Ingested crypto x509 sealing memory replay_guard deps decode_alert
        (λ u. some (codes "done"))
        (request (codes "alert"))
        empty
        []
        (signed_ingest crypto x509 sealing memory replay_guard deps decode_alert
          (λ u. some (codes "done"))
          (request (codes "alert"))
          (empty, [])).1.1
signed_ingest-Ingested_example =
    signed_ingest-Ingested crypto x509 sealing memory replay_guard deps decode_alert
      (λ u. some (codes "done")) (request (codes "alert")) empty []

creates : CreatesTemplate signer.pki
creates cert key leaf e = rw⁻¹ (made e) (refl, refl)
  where
    made : {a b : Leaf} → some a ≡ some b → a ≡ b
    made h = cc

renewal_run :
    (signed_sign_csr crypto x509 sealing memory replay_guard deps signer
      (λ t. some t)
      (λ r. some (codes "done"))
      (request (codes "csr"))
      (empty, alert)).0
    ≡ ok answer
unfolding signed_sign_csr verify_with verify check_timestamp new_replay_guard check_nonce
    claim_nonce memory set_nx issue issue_for sign
renewal_run = refl

signed_sign_csr-SignedRenewal_example :
    SignedRenewal crypto x509 sealing memory replay_guard deps signer
      (λ t. some t)
      (λ r. some (codes "done"))
      (request (codes "csr"))
      empty
      answer
signed_sign_csr-SignedRenewal_example =
    signed_sign_csr-SignedRenewal crypto x509 sealing memory replay_guard deps signer (λ t. some t)
      (λ r. some (codes "done")) (request (codes "csr")) empty alert answer creates renewal_run
