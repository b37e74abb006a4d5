-- ===== src/Signed/Renewal.antt =====
-- What a signed and sealed request that is answered with a body has shown, and what a renewal gives.
use muthur.Prelude.{
  Text, true, Option, none, some, Result, ok, err, >>=-eq-ok, ◌≡◌, refl, sym, ap, subst, ◌∙◌,
}
use muthur.Auth.HttpSig.{Crypto}
use muthur.Auth.Identity.{Identity}
use muthur.Auth.Renew
use muthur.Auth.Renew.{RenewError, RenewResult}
use muthur.Auth.Renew.Kept.{Renewed, issue-Renewed}
use muthur.Auth.Replay.{ReplayGuard}
use muthur.Auth.Sealed.{Hpke, ResponseKey, SealedError, open_request, seal_response}
use muthur.Auth.Signer.{Signer}
use muthur.Auth.Signer.RoundTrip.{CreatesTemplate}
use muthur.Auth.Tenants.{Tenants}
use muthur.Grpc.{Handler, Code, renew_code, server_sign_csr}
use muthur.Grpc.Renewal.{coded-ok}
use muthur.Http.{
  Failure, fail, HttpRequest, X509, or_fail, failing_by, open_failure, path_sign_csr, internal_code,
}
use muthur.Signed.{
  Deps, receive, timestamp_of, nonce_of, kid_of, respond, opened, caller, after_caller,
  after_receive, handle, unmarshalled, unmarshalled_call,
}
use muthur.Signed.Admission.{Authentic, failing-ok, or_fail-ok}
use muthur.Signed.Guarded.{Received, Reached, receive-Received, caller-Authentic, caller-known}
use muthur.Signed.Endpoints.{signed_sign_csr}
use muthur.Store.{Store}

module _ {PrivateKey PublicKey Key HpkePublicKey Context Aead S Q M : Type 0}
    (lib : Crypto PrivateKey PublicKey) (x509 : X509 PublicKey)
    (hpke : Hpke Key HpkePublicKey Context Aead) (st : Store S) (replay_guard : ReplayGuard)
    (d : Deps Key) (marshal : M → Option Text) (call : Text → Handler M (S × Q)) where
  -- The call answered, its response was marshalled, and it was sealed to the request's sender.
  pub record Answered (req : HttpRequest) (path : Text) (s : S) (q : Q) (out : Text) : Type 0 where
    pub id : Identity
    pub plaintext : Text
    pub later : S
    pub response : M
    pub marshalled : Text
    pub reached : Reached lib x509 hpke st replay_guard d req path s id plaintext later
    pub answered : (call plaintext (some id) (later, q)).0 ≡ ok response
    pub encoded : marshal response ≡ some marshalled
    pub sealed : seal_response hpke d.random reached.sealer marshalled ≡ ok out

  respond-ok :
      (sealer : ResponseKey) (r : Result Code M) (out : Text)
      → respond hpke d.random marshal sealer r ≡ ok out
      → (m : M) × (text : Text) × (r ≡ ok m)
        × (marshal m ≡ some text)
        × (seal_response hpke d.random sealer text ≡ ok out)
  unfolding respond
  respond-ok sealer (err c) out e = cc
  respond-ok sealer (ok m) out e =
      let (text, encoded, e1) = >>=-eq-ok (or_fail (fail 500 internal_code) (marshal m)) _ e in
      (m, text, refl, or_fail-ok _ _ text encoded, failing-ok _ _ out e1)

  opened-Answered :
      (req : HttpRequest) (path : Text) (s s' : S) (q : Q) (id : Identity) (body : Text)
      (r : Result SealedError (Text × ResponseKey)) (out : Text)
      → open_request hpke d.keys (kid_of req) path (timestamp_of req) (nonce_of req) body ≡ r
      → ((plaintext : Text) (sealer : ResponseKey)
          → r ≡ ok (plaintext, sealer)
          → (reached : Reached lib x509 hpke st replay_guard d req path s id plaintext s')
            × (reached.sealer ≡ sealer))
      → (opened hpke d.random marshal call (some id) (failing_by open_failure r) (s', q)).0 ≡ ok out
      → Answered req path s q out
  unfolding opened
  opened-Answered req path s s' q id body (err x) out e reached h = cc
  opened-Answered req path s s' q id body (ok (plaintext, sealer)) out e reached h =
      let (m, text, answered, encoded, sealed) =
        respond-ok sealer (call plaintext (some id) (s', q)).0 out h in
      let (r, same) = reached plaintext sealer refl in
      record {
        id = id;
        plaintext = plaintext;
        later = s';
        response = m;
        marshalled = text;
        reached = r;
        answered = answered;
        encoded = encoded;
        sealed = ap (λ k. seal_response hpke d.random k text) same ∙ sealed;
      }

  after_caller-Answered :
      (req : HttpRequest) (path body : Text) (s : S) (q : Q)
      (c : Result Failure (Option Identity) × S) (out : Text)
      → Received lib req body
      → caller lib x509 st replay_guard d true req path s ≡ c
      → (after_caller lib x509 hpke st replay_guard d marshal call req path body q c).0 ≡ ok out
      → Answered req path s q out
  after_caller-Answered req path body s q (err f, s') out received e h = cc
  after_caller-Answered req path body s q (ok none, s') out received e h =
      absurd (caller-known lib x509 hpke st replay_guard d req path s (ap (λ c. c.0) e))
  after_caller-Answered req path body s q (ok (some id), s') out received e h =
      opened-Answered req path s s' q id body _ out refl
        (λ plaintext sealer u. (
          record {
            body = body;
            sealer = sealer;
            received = received;
            authentic =
                subst
                  (λ c.
                    Authentic lib x509 st replay_guard d.now d.trust d.tenants req path
                      (timestamp_of req) (nonce_of req) s id c.1)
                  e
                  (caller-Authentic lib x509 hpke st replay_guard d req path s id
                    (ap (λ c. c.0) e));
            unsealed = u;
          },
          refl,
        ))
        h

  after_receive-Answered :
      (req : HttpRequest) (path : Text) (s : S) (q : Q) (r : Result Failure Text) (out : Text)
      → receive lib req ≡ r
      → (after_receive lib x509 hpke st replay_guard d marshal call path true req (s, q) r).0
        ≡ ok out
      → Answered req path s q out
  after_receive-Answered req path s q (err f) out e h = cc
  after_receive-Answered req path s q (ok body) out e h =
      after_caller-Answered req path body s q _ out (receive-Received lib req body e) refl h

  pub handle-Answered :
      (req : HttpRequest) (path : Text) (s : S) (q : Q) (out : Text)
      → (handle lib x509 hpke st replay_guard d marshal call path true req (s, q)).0 ≡ ok out
      → Answered req path s q out
  unfolding handle
  handle-Answered req path s q out h =
      after_receive-Answered req path s q (receive lib req) out refl h

unmarshalled-ok :
    {A W : Type 0} (call : Text → Handler A W) (o : Option Text) (id : Option Identity) (w : W)
    (a : A)
    → (unmarshalled_call call o id w).0 ≡ ok a
    → (t : Text) × (o ≡ some t) × ((call t id w).0 ≡ ok a)
unmarshalled-ok call none id w a e = cc
unmarshalled-ok call (some t) id w a e = (t, refl, e)

module _ {PrivateKey PublicKey Key HpkePublicKey Context Aead S : Type 0}
    (lib : Crypto PrivateKey PublicKey) (x509 : X509 PublicKey)
    (hpke : Hpke Key HpkePublicKey Context Aead) (st : Store S) (replay_guard : ReplayGuard)
    (d : Deps Key) (signer : Signer) (unmarshal : Text → Option Text)
    (marshal : RenewResult → Option Text) where
  -- A certificate request out of a request that showed what it must, and the leaf that was minted.
  pub record SignedRenewal (req : HttpRequest) (s : S) (out : Text) : Type 0 where
    pub id : Identity
    pub plaintext : Text
    pub later : S
    pub csr_pem : Text
    pub result : RenewResult
    pub text : Text
    pub tenants : Tenants
    pub reached : Reached lib x509 hpke st replay_guard d req path_sign_csr s id plaintext later
    pub decoded : unmarshal plaintext ≡ some csr_pem
    pub snapshot : d.tenants ≡ some tenants
    pub renewed : Renewed signer d.now id tenants csr_pem result
    pub encoded : marshal result ≡ some text
    pub sealed : seal_response hpke d.random reached.sealer text ≡ ok out

  -- A renewal that is answered over the signed transport was asked for by a request that showed its
  -- certificate, its signature, its tenant, its freshness and its seal; the leaf is minted for that
  -- very identity, within the cap, if X.509 creation does what it documents, and the answer is
  -- sealed with the response key of the request.
  pub signed_sign_csr-SignedRenewal :
      {Q : Type 0} (req : HttpRequest) (s : S) (q : Q) (out : Text)
      → CreatesTemplate signer.pki
      → (signed_sign_csr lib x509 hpke st replay_guard d signer unmarshal marshal req (s, q)).0
        ≡ ok out
      → SignedRenewal req s out
  unfolding signed_sign_csr unmarshalled server_sign_csr
  signed_sign_csr-SignedRenewal req s q out creates h =
      let a =
        handle-Answered lib x509 hpke st replay_guard d marshal
          (unmarshalled unmarshal (server_sign_csr signer d.now d.tenants)) req path_sign_csr s q
          out h in
      let (csr_pem, decoded, answered) =
        unmarshalled-ok (server_sign_csr signer d.now d.tenants) (unmarshal a.plaintext) (some a.id)
          (a.later, q) a.response a.answered in
      let issued =
        coded-ok renew_code (Renew.issue signer d.now (some a.id) d.tenants csr_pem) a.response
          answered in
      let active = a.reached.authentic.active in
      record {
        id = a.id;
        plaintext = a.plaintext;
        later = a.later;
        csr_pem = csr_pem;
        result = a.response;
        text = a.marshalled;
        tenants = active.tenants;
        reached = a.reached;
        decoded = decoded;
        snapshot = active.snapshot;
        renewed = issue-Renewed signer d.now a.id active.tenants csr_pem a.response creates (
            ap (λ t. Renew.issue signer d.now (some a.id) t csr_pem) (sym active.snapshot)
            ∙ issued);
        encoded = a.encoded;
        sealed = a.sealed;
      }
