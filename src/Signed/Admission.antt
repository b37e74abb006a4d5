-- ===== src/Signed/Admission.antt =====
-- What a signed and sealed request has shown before its call is made.
use muthur.Prelude.{
  ℕ, Text, true, false, Option, none, some, Result, ok, err, ◌>>=◌, >>=-eq-ok, guard, guard-true,
  ok-injective, Bool-cases, ◌≡◌, refl, sym, ap, ◌∙◌, inl, inr, ℤ, pos, negsuc, parse_int, text_eq,
  text_eq_iff, lookup, arith,
}
use muthur.Auth.HttpSig.{Crypto, SignatureInfo, get, cert_name, cert_key_id, verify_request}
use muthur.Auth.Identity.{Identity, extract_from_cert}
use muthur.Auth.Replay.{ReplayGuard, ReplayError, verify}
use muthur.Auth.Tenants.{Tenant, Tenants}
use muthur.Http.{
  Failure, fail, HttpRequest, ClientLeaf, TrustPools, X509, verify_client_leaf, or_fail, failing,
  failing_by, created_matches, same_int, check_tenant, unless_revoked, bad_cert, bad_signature,
}
use muthur.Signed.{parse_cert_header, identify, claimed, then_replay, authenticate, caller}
use muthur.Store.{Store}

pub or_fail-ok : {A : Type 0} (f : Failure) (o : Option A) (a : A) → or_fail f o ≡ ok a → o ≡ some a
or_fail-ok f none a e = cc
or_fail-ok f (some b) a e = cc

pub failing-ok :
    {E A : Type 0} (f : Failure) (r : Result E A) (a : A) → failing f r ≡ ok a → r ≡ ok a
failing-ok f (err x) a e = cc
failing-ok f (ok b) a e = cc

failing_by-ok :
    {E A : Type 0} (f : E → Failure) (r : Result E A) (a : A) → failing_by f r ≡ ok a → r ≡ ok a
failing_by-ok f (err x) a e = cc
failing_by-ok f (ok b) a e = cc

same_int-true : (a b : ℤ) → same_int a b ≡ true → a ≡ b
unfolding same_int
same_int-true (pos m) (pos n) h = ap pos (ground (arith, h))
same_int-true (pos m) (negsuc n) h = cc
same_int-true (negsuc m) (pos n) h = cc
same_int-true (negsuc m) (negsuc n) h = ap negsuc (ground (arith, h))

created_matches-true :
    (created : ℤ) (o : Option ℤ) → created_matches created o ≡ true → o ≡ some created
unfolding created_matches
created_matches-true created none h = cc
created_matches-true created (some ts) h = ap some (same_int-true ts created h)

-- The tenant of a cluster, configured and not revoked.
pub record ActiveTenant (ts : Option Tenants) (id : Identity) : Type 0 where
  pub tenants : Tenants
  pub tenant : Tenant
  pub snapshot : ts ≡ some tenants
  pub configured : lookup id.cluster_id tenants ≡ some tenant
  pub not_revoked : tenant.revoked ≡ false

unless_revoked-ok :
    (id : Identity) (o : Option Tenant) (id' : Identity)
    → unless_revoked id o ≡ ok id'
    → (t : Tenant) × (o ≡ some t) × (t.revoked ≡ false) × (id ≡ id')
unless_revoked-ok id none id' e = cc
unless_revoked-ok id (some t) id' e = elim (Bool-cases t.revoked) [
  | inl withdrawn ↦ absurd (err≢ok (rw withdrawn at e))
  | inr active ↦ (t, refl, active, ok-injective _ _ (rw active at e))
]
  where
    err≢ok : {E A : Type 0} {x : E} {a : A} → Path (Result E A) (err x) (ok a) → ⊥
    err≢ok h = cc

check_tenant-ok :
    (ts : Option Tenants) (id id' : Identity)
    → check_tenant ts id ≡ ok id'
    → ActiveTenant ts id' × (id ≡ id')
unfolding check_tenant
check_tenant-ok none id id' e = cc
check_tenant-ok (some ts) id id' e =
    let (t, found, active, same) = unless_revoked-ok id (lookup id.cluster_id ts) id' e in
    (
      record {
        tenants = ts;
        tenant = t;
        snapshot = refl;
        configured = ap (λ i. lookup i.cluster_id ts) (sym same) ∙ found;
        not_revoked = active;
      },
      same,
    )

module _ {PrivateKey PublicKey : Type 0} (lib : Crypto PrivateKey PublicKey)
    (x509 : X509 PublicKey) where
  -- The certificate and the signature behind an identity.
  pub record Identified (now : ℕ) (trust : TrustPools) (req : HttpRequest) (path timestamp : Text)
      (id : Identity) : Type 0 where
    pub leaf : ClientLeaf PublicKey
    pub key : PublicKey
    pub info : SignatureInfo
    pub presented : parse_cert_header lib x509 (get cert_name req.header) ≡ some leaf
    pub trusted : verify_client_leaf x509 trust leaf now ≡ true
    pub holds_key : leaf.public_key ≡ some key
    pub signed : verify_request lib req.method path req.header (some key) ≡ ok info
    pub names_leaf : info.key_id ≡ cert_key_id lib leaf.raw
    pub created : parse_int timestamp ≡ some info.created
    pub proven : extract_from_cert (some leaf.certificate) ≡ ok id

  identify-ok :
      (now : ℕ) (trust : TrustPools) (req : HttpRequest) (path timestamp : Text) (id : Identity)
      → identify lib x509 now trust req path timestamp ≡ ok id
      → Identified now trust req path timestamp id
  unfolding identify
  identify-ok now trust req path timestamp id e =
      let (leaf, presented, e1) =
        >>=-eq-ok
          (or_fail (fail 401 bad_cert) (parse_cert_header lib x509 (get cert_name req.header))) _
          e in
      let (u1, trusted, e2) =
        >>=-eq-ok (guard (verify_client_leaf x509 trust leaf now) (fail 401 bad_cert)) _ e1 in
      let (key, holds, e3) = >>=-eq-ok (or_fail (fail 401 bad_cert) leaf.public_key) _ e2 in
      let (info, signed, e4) =
        >>=-eq-ok
          (failing (fail 401 bad_signature)
            (verify_request lib req.method path req.header (some key)))
          _ e3 in
      let (u2, named, e5) =
        >>=-eq-ok (guard (text_eq info.key_id (cert_key_id lib leaf.raw)) (fail 401 bad_signature))
          _ e4 in
      let (u3, created, e6) =
        >>=-eq-ok
          (guard (created_matches info.created (parse_int timestamp)) (fail 401 bad_signature)) _
          e5 in
      record {
        leaf = leaf;
        key = key;
        info = info;
        presented = or_fail-ok _ _ leaf presented;
        trusted = guard-true _ _ u1 trusted;
        holds_key = or_fail-ok _ _ key holds;
        signed = failing-ok _ _ info signed;
        names_leaf =
            (text_eq_iff info.key_id (cert_key_id lib leaf.raw)).0 (guard-true _ _ u2 named);
        created =
            created_matches-true info.created (parse_int timestamp) (guard-true _ _ u3 created);
        proven = failing-ok _ _ id e6;
      }

  module _ {S : Type 0} (st : Store S) (replay_guard : ReplayGuard) where
    claimed-ok :
        (id id' : Identity) (r : Result ReplayError (Unit {0}) × S)
        → (claimed lib x509 st replay_guard id r).0 ≡ ok id'
        → (r.0 ≡ ok tt) × ((claimed lib x509 st replay_guard id r).1 ≡ r.1) × (id ≡ id')
    claimed-ok id id' (err x, s) e = cc
    claimed-ok id id' (ok u, s) e = (refl, refl, ok-injective id id' e)

    -- What an authenticated caller has shown: certificate, signature, tenant and freshness.
    pub record Authentic (now : ℕ) (trust : TrustPools) (ts : Option Tenants) (req : HttpRequest)
        (path timestamp nonce : Text) (s : S) (id : Identity) (s' : S) : Type 0 where
      pub identified : Identified now trust req path timestamp id
      pub active : ActiveTenant ts id
      pub fresh : (verify st replay_guard now (some id) timestamp nonce s).0 ≡ ok tt
      pub recorded : s' ≡ (verify st replay_guard now (some id) timestamp nonce s).1

    then_replay-ok :
        (now : ℕ) (timestamp nonce : Text) (r : Result Failure Identity) (s : S) (id : Identity)
        → (then_replay lib x509 st replay_guard now timestamp nonce r s).0 ≡ ok id
        → (r ≡ ok id)
          × ((verify st replay_guard now (some id) timestamp nonce s).0 ≡ ok tt)
          × ((then_replay lib x509 st replay_guard now timestamp nonce r s).1
              ≡ (verify st replay_guard now (some id) timestamp nonce s).1)
    then_replay-ok now timestamp nonce (err f) s id e = cc
    then_replay-ok now timestamp nonce (ok caller) s id e =
        let (fresh, recorded, same) =
          claimed-ok caller id (verify st replay_guard now (some caller) timestamp nonce s) e in
        (
          ap ok same,
          ap (λ i. (verify st replay_guard now (some i) timestamp nonce s).0) (sym same) ∙ fresh,
          recorded ∙ ap (λ i. (verify st replay_guard now (some i) timestamp nonce s).1) same,
        )

    pub authenticate-Authentic :
        (now : ℕ) (trust : TrustPools) (ts : Option Tenants) (req : HttpRequest)
        (path timestamp nonce : Text) (s : S) (id : Identity)
        → (authenticate lib x509 st replay_guard now trust ts req path timestamp nonce s).0 ≡ ok id
        → Authentic now trust ts req path timestamp nonce s id
            (authenticate lib x509 st replay_guard now trust ts req path timestamp nonce s).1
    unfolding authenticate
    authenticate-Authentic now trust ts req path timestamp nonce s id e =
        let (accepted, fresh, recorded) =
          then_replay-ok now timestamp nonce
            (identify lib x509 now trust req path timestamp >>= check_tenant ts) s id e in
        let (found, known, checked) =
          >>=-eq-ok (identify lib x509 now trust req path timestamp) (check_tenant ts) accepted in
        let (active, same) = check_tenant-ok ts found id checked in
        record {
          identified = identify-ok now trust req path timestamp id (known ∙ ap ok same);
          active = active;
          fresh = fresh;
          recorded = recorded;
        }
