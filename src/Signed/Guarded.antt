-- ===== src/Signed/Guarded.antt =====
-- No call is made for a request that has not shown what it must.
use muthur.Prelude.{
  Text, codes, List, [], ◌∷◌, ◌++◌, true, Option, none, some, Result, ok, err, >>=-eq-ok, guard,
  guard-true, ok-injective, Bool-cases, ◌≡◌, ◌≢◌, refl, sym, ap, ◌∙◌, ◌⊎◌, inl, inr, text_eq,
  text_eq_iff, has_prefix,
}
use muthur.Alert.{AlertPayload}
use muthur.Auth.HttpSig.{Crypto, get, verify_content_digest}
use muthur.Auth.Identity.{Identity}
use muthur.Auth.Replay.{ReplayGuard}
use muthur.Auth.Sealed.{Hpke, ResponseKey, SealedError, open_request}
use muthur.Grpc.{Handler, ingest, ingest_answer, server_ingest}
use muthur.Http.{
  Failure, fail, HttpRequest, X509, failing, failing_by, open_failure, read_body,
  sealed_content_type, bad_digest, bad_request, path_ingest,
}
use muthur.Signed.{
  Deps, receive, authenticate, timestamp_of, nonce_of, kid_of, opened, caller, after_caller,
  after_receive, handle, unmarshalled, unmarshalled_call,
}
use muthur.Signed.Admission.{Authentic, authenticate-Authentic, failing-ok}
use muthur.Signed.Endpoints.{signed_ingest}
use muthur.Store.{Store}

module _ {PrivateKey PublicKey : Type 0} (lib : Crypto PrivateKey PublicKey) where
  -- The body, and that its digest is the one in the header.
  pub record Received (req : HttpRequest) (body : Text) : Type 0 where
    pub sealed_type : has_prefix sealed_content_type (get (codes "content-type") req.header) ≡ true
    pub bounded : read_body req.body ≡ ok body
    pub digest : verify_content_digest lib req.header body ≡ ok tt

  pub receive-Received :
      (req : HttpRequest) (body : Text) → receive lib req ≡ ok body → Received req body
  unfolding receive
  receive-Received req body e =
      let (u, typed, e1) =
        >>=-eq-ok
          (guard (has_prefix sealed_content_type (get (codes "content-type") req.header))
            (fail 415 bad_request))
          _ e in
      let (b, read, e2) = >>=-eq-ok (read_body req.body) _ e1 in
      let (v, digest, e3) =
        >>=-eq-ok (failing (fail 400 bad_digest) (verify_content_digest lib req.header b)) _ e2 in
      let same = ok-injective b body e3 in
      record {
        sealed_type = guard-true _ _ u typed;
        bounded = read ∙ ap ok same;
        digest =
            ap (λ x. verify_content_digest lib req.header x) (sym same) ∙ failing-ok _ _ v digest;
      }

module _ {PrivateKey PublicKey Key HpkePublicKey Context Aead S : Type 0}
    (lib : Crypto PrivateKey PublicKey) (x509 : X509 PublicKey)
    (hpke : Hpke Key HpkePublicKey Context Aead) (st : Store S) (replay_guard : ReplayGuard)
    (d : Deps Key) where
  -- What a request has shown when its call is made: the digest of its body, the certificate, the
  -- signature, the tenant, the freshness, and a body sealed for this path, timestamp and nonce.
  pub record Reached (req : HttpRequest) (path : Text) (s : S) (id : Identity) (plaintext : Text)
      (s' : S) : Type 0 where
    pub body : Text
    pub sealer : ResponseKey
    pub received : Received lib req body
    pub authentic :
        Authentic lib x509 st replay_guard d.now d.trust d.tenants req path
          (timestamp_of req)
          (nonce_of req)
          s
          id
          s'
    pub unsealed :
        open_request hpke d.keys (kid_of req) path (timestamp_of req) (nonce_of req) body
        ≡ ok (plaintext, sealer)

  pub caller-Authentic :
      (req : HttpRequest) (path : Text) (s : S) (id : Identity)
      → (caller lib x509 st replay_guard d true req path s).0 ≡ ok (some id)
      → Authentic lib x509 st replay_guard d.now d.trust d.tenants req path
          (timestamp_of req)
          (nonce_of req)
          s
          id
          (caller lib x509 st replay_guard d true req path s).1
  unfolding caller
  caller-Authentic req path s id e =
      let r =
        authenticate lib x509 st replay_guard d.now d.trust d.tenants req path (timestamp_of req)
          (nonce_of req) s in
      let (found, known, same) = >>=-eq-ok r.0 (λ i. ok (some i)) e in
      authenticate-Authentic lib x509 st replay_guard d.now d.trust d.tenants req path
        (timestamp_of req) (nonce_of req) s id (known ∙ cc)

  pub caller-known :
      (req : HttpRequest) (path : Text) (s : S)
      → (caller lib x509 st replay_guard d true req path s).0 ≢ ok none
  unfolding caller
  caller-known req path s e =
      let r =
        authenticate lib x509 st replay_guard d.now d.trust d.tenants req path (timestamp_of req)
          (nonce_of req) s in
      let (found, known, same) = >>=-eq-ok r.0 (λ i. ok (some i)) e in some≢none same
    where
      some≢none :
          {A : Type 0} {a : A} → Path (Result Failure (Option A)) (ok (some a)) (ok none) → ⊥
      some≢none h = cc

module _ {PrivateKey PublicKey Key HpkePublicKey Context Aead S Q M : Type 0}
    (lib : Crypto PrivateKey PublicKey) (x509 : X509 PublicKey)
    (hpke : Hpke Key HpkePublicKey Context Aead) (st : Store S) (replay_guard : ReplayGuard)
    (d : Deps Key) (marshal : M → Option Text) (call : Text → Handler M (S × Q)) where
  -- The call was made, on a request that showed it all, and left the queue as it is.
  abbrev pub Called : HttpRequest → Text → S → Q → Q → Type 0
  Called req path s q after =
      (id : Identity) × (plaintext : Text) × (s' : S) × Reached lib x509 hpke st replay_guard d req
        path s id plaintext s'
      × (after ≡ (call plaintext (some id) (s', q)).1.1)

  opened-Called :
      (req : HttpRequest) (path body : Text) (s s' : S) (q : Q) (id : Identity)
      (r : Result SealedError (Text × ResponseKey))
      → Received lib req body
      → Authentic lib x509 st replay_guard d.now d.trust d.tenants req path
          (timestamp_of req)
          (nonce_of req)
          s
          id
          s'
      → open_request hpke d.keys (kid_of req) path (timestamp_of req) (nonce_of req) body ≡ r
      → ((opened hpke d.random marshal call (some id) (failing_by open_failure r) (s', q)).1.1 ≡ q)
        ⊎ Called req path s q
            (opened hpke d.random marshal call (some id) (failing_by open_failure r) (s', q)).1.1
  unfolding opened
  opened-Called req path body s s' q id (err x) received authentic e = inl refl
  opened-Called req path body s s' q id (ok (plaintext, sealer)) received authentic e = inr (
    id,
    plaintext,
    s',
    record {
      body = body;
      sealer = sealer;
      received = received;
      authentic = authentic;
      unsealed = e;
    },
    refl,
  )

  after_caller-Called :
      (req : HttpRequest) (path body : Text) (s : S) (q : Q)
      (c : Result Failure (Option Identity) × S)
      → Received lib req body
      → ((id : Identity)
          → c.0 ≡ ok (some id)
          → Authentic lib x509 st replay_guard d.now d.trust d.tenants req path
              (timestamp_of req)
              (nonce_of req)
              s
              id
              c.1)
      → c.0 ≢ ok none
      → ((after_caller lib x509 hpke st replay_guard d marshal call req path body q c).1.1 ≡ q)
        ⊎ Called req path s q
            (after_caller lib x509 hpke st replay_guard d marshal call req path body q c).1.1
  after_caller-Called req path body s q (err f, s') received authentic known = inl refl
  after_caller-Called req path body s q (ok none, s') received authentic known = absurd (known refl)
  after_caller-Called req path body s q (ok (some id), s') received authentic known =
      opened-Called req path body s s' q id _ received (authentic id refl) refl

  after_receive-Called :
      (req : HttpRequest) (path : Text) (s : S) (q : Q) (r : Result Failure Text)
      → receive lib req ≡ r
      → ((after_receive lib x509 hpke st replay_guard d marshal call path true req (s, q) r).1.1
          ≡ q)
        ⊎ Called req path s q
            (after_receive lib x509 hpke st replay_guard d marshal call path true req (s, q) r).1.1
  after_receive-Called req path s q (err f) e = inl refl
  after_receive-Called req path s q (ok body) e =
      after_caller-Called req path body s q (caller lib x509 st replay_guard d true req path s)
        (receive-Received lib req body e)
        (caller-Authentic lib x509 hpke st replay_guard d req path s)
        (caller-known lib x509 hpke st replay_guard d req path s)

  handle-Called :
      (req : HttpRequest) (path : Text) (s : S) (q : Q)
      → ((handle lib x509 hpke st replay_guard d marshal call path true req (s, q)).1.1 ≡ q)
        ⊎ Called req path s q
            (handle lib x509 hpke st replay_guard d marshal call path true req (s, q)).1.1
  unfolding handle
  handle-Called req path s q = after_receive-Called req path s q (receive lib req) refl

module _ {PrivateKey PublicKey Key HpkePublicKey Context Aead S : Type 0}
    (lib : Crypto PrivateKey PublicKey) (x509 : X509 PublicKey)
    (hpke : Hpke Key HpkePublicKey Context Aead) (st : Store S) (replay_guard : ReplayGuard)
    (d : Deps Key) (unmarshal : Text → Option AlertPayload) (marshal : Unit {0} → Option Text) where
  -- An alert of the caller's own cluster, out of a request that showed what it must.
  pub record Ingested (req : HttpRequest) (s : S) (q after : List AlertPayload) : Type 0 where
    pub id : Identity
    pub plaintext : Text
    pub later : S
    pub alert : AlertPayload
    pub reached : Reached lib x509 hpke st replay_guard d req path_ingest s id plaintext later
    pub decoded : unmarshal plaintext ≡ some alert
    pub own_cluster : alert.cluster_id ≡ id.cluster_id
    pub queued : after ≡ q ++ (alert ∷ [])

  server_ingest-queue :
      (p : AlertPayload) (id : Identity) (s : S) (q : List AlertPayload)
      → ((server_ingest p (some id) (s, q)).1.1 ≡ q)
        ⊎ ((p.cluster_id ≡ id.cluster_id)
            × ((server_ingest p (some id) (s, q)).1.1 ≡ q ++ (p ∷ [])))
  unfolding server_ingest ingest
  server_ingest-queue p id s q = elim (Bool-cases (text_eq p.cluster_id id.cluster_id)) [
    | inl same ↦
        inr ((text_eq_iff p.cluster_id id.cluster_id).0 same, rw (same, ingest_answer) refl)
    | inr other ↦ inl (rw (other, ingest_answer) refl)
  ]

  unmarshalled-queue :
      (o : Option AlertPayload) (id : Identity) (s : S) (q : List AlertPayload)
      → ((unmarshalled_call server_ingest o (some id) (s, q)).1.1 ≡ q)
        ⊎ ((p : AlertPayload) × (o ≡ some p)
            × (p.cluster_id ≡ id.cluster_id)
            × ((unmarshalled_call server_ingest o (some id) (s, q)).1.1 ≡ q ++ (p ∷ [])))
  unmarshalled-queue none id s q = inl refl
  unmarshalled-queue (some p) id s q = elim (server_ingest-queue p id s q) [
    | inl same ↦ inl same
    | inr (own, queued) ↦ inr (p, refl, own, queued)
  ]

  -- Over the signed transport, an ingestion leaves the queue as it is, or it appends one alert: an
  -- alert of the caller's own cluster, out of a body whose digest is in the header and that was
  -- sealed for this path, timestamp and nonce, where the certificate is trusted, the signature is
  -- by its key and names it, the signature's time is the timestamp, the tenant is configured and
  -- not revoked, and the timestamp and the nonce are fresh.
  pub signed_ingest-Ingested :
      (req : HttpRequest) (s : S) (q : List AlertPayload)
      → ((signed_ingest lib x509 hpke st replay_guard d unmarshal marshal req (s, q)).1.1 ≡ q)
        ⊎ Ingested req s q
            (signed_ingest lib x509 hpke st replay_guard d unmarshal marshal req (s, q)).1.1
  unfolding signed_ingest unmarshalled
  signed_ingest-Ingested req s q =
      elim (handle-Called lib x509 hpke st replay_guard d marshal
        (unmarshalled unmarshal server_ingest) req path_ingest s q) [
          | inl same ↦ inl same
          | inr (id, plaintext, s', reached, after) ↦
              elim (unmarshalled-queue (unmarshal plaintext) id s' q) [
                | inl same ↦ inl (after ∙ same)
                | inr (p, decoded, own, queued) ↦ inr (record {
                  id = id;
                  plaintext = plaintext;
                  later = s';
                  alert = p;
                  reached = reached;
                  decoded = decoded;
                  own_cluster = own;
                  queued = after ∙ queued;
                })
              ]
        ]
