-- ===== src/Grpc/Renewal.antt =====
-- What a renewal that gets through the interceptors has shown, and what it gives.
use muthur.Prelude.{
  ℕ, Text, List, ◌∷◌, false, Option, some, Result, ok, err, ◌≡◌, refl, sym, ap, ◌∙◌, lookup,
}
use muthur.Auth.Identity.{Identity, Certificate, extract_from_cert}
use muthur.Auth.Renew
use muthur.Auth.Renew.{RenewError, RenewResult}
use muthur.Auth.Renew.Kept.{Renewed, issue-Renewed}
use muthur.Auth.Replay.{ReplayGuard, ReplayError, verify}
use muthur.Auth.Signer.{Signer}
use muthur.Auth.Signer.RoundTrip.{CreatesTemplate}
use muthur.Auth.Tenants.{Tenant, Tenants}
use muthur.Store.{Store}
use muthur.Grpc.{
  Code, tls, Call, exempt, first_meta, Handler, after_verify, replay_interceptor,
  revocation_interceptor, intercepted, coded, renew_code, server_sign_csr,
}
use muthur.Grpc.Admission.{auth-ok, revocation-ok}

pub coded-ok :
    {E A : Type 0} (code : E → Code) (r : Result E A) (a : A) → coded code r ≡ ok a → r ≡ ok a
coded-ok code (err e) a h = cc
coded-ok code (ok b) a h = cc

module _ {S : Type 0} (st : Store S) (guard : ReplayGuard) where
  -- What a request whose renewal succeeds has shown.
  pub record Renewing (signer : Signer) (now : ℕ) (ts : Option Tenants) (call : Call)
      (csr_pem : Text) (s : S) (r : RenewResult) : Type 0 where
    pub leaf : Certificate
    pub chain : List Certificate
    pub id : Identity
    pub tenants : Tenants
    pub presented : call.peer ≡ tls (leaf ∷ chain)
    pub proven : extract_from_cert (some leaf) ≡ ok id
    pub snapshot : ts ≡ some tenants
    pub tenant : Tenant
    pub configured : lookup id.cluster_id tenants ≡ some tenant
    pub fresh :
        (verify st guard now (some id) (first_meta call.timestamps) (first_meta call.nonces) s).0
        ≡ ok tt
    pub renewed : Renewed signer now id tenants csr_pem r

module _ {S Q : Type 0} (st : Store S) (guard : ReplayGuard) where
  after_verify-ok :
      {A : Type 0} (handler : Handler A (S × Q)) (id : Identity) (q : Q)
      (r : Result ReplayError (Unit {0}) × S) (a : A)
      → (after_verify st guard handler (some id) q r).0 ≡ ok a
      → (r.0 ≡ ok tt) × ((handler (some id) (r.1, q)).0 ≡ ok a)
  after_verify-ok handler id q (err e, s) a h = cc
  after_verify-ok handler id q (ok u, s) a h = (refl, h)

  replay-ok :
      {A : Type 0} (now : ℕ) (call : Call) (handler : Handler A (S × Q)) (id : Identity) (s : S)
      (q : Q) (a : A)
      → exempt call.method ≡ false
      → (replay_interceptor st guard now call handler (some id) (s, q)).0 ≡ ok a
      → ((verify st guard now (some id) (first_meta call.timestamps) (first_meta call.nonces) s).0
          ≡ ok tt)
        × ((handler (some id) (
          (verify st guard now (some id) (first_meta call.timestamps) (first_meta call.nonces) s).1,
          q,
        )).0
            ≡ ok a)
  unfolding replay_interceptor
  replay-ok now call handler id s q a gated h =
      after_verify-ok handler id q
        (verify st guard now (some id) (first_meta call.timestamps) (first_meta call.nonces) s) a
        (rw gated at h)

  -- A renewal that succeeds over gRPC, on a method that is not exempt, was asked for with a leaf
  -- certificate that proves an identity of a configured tenant that is not revoked, with a fresh
  -- timestamp and an unused nonce; the new leaf is minted for that very identity, binds the key of
  -- the request and ends within the cap, if X.509 creation does what it documents.
  pub sign_csr-Renewing :
      (signer : Signer) (now : ℕ) (ts : Option Tenants) (call : Call) (csr_pem : Text) (s : S)
      (q : Q) (r : RenewResult)
      → CreatesTemplate signer.pki
      → exempt call.method ≡ false
      → (intercepted st guard now ts call (server_sign_csr signer now ts csr_pem) (s, q)).0 ≡ ok r
      → Renewing st guard signer now ts call csr_pem s r
  unfolding intercepted server_sign_csr
  sign_csr-Renewing signer now ts call csr_pem s q r creates gated e =
      let handler : Handler RenewResult (S × Q) = server_sign_csr signer now ts csr_pem in
      let a =
        auth-ok call (revocation_interceptor ts call (replay_interceptor st guard now call handler))
          (s, q) r gated e in
      let e1 = ap (λ x. x.0) (sym a.passed) ∙ e in
      let b =
        revocation-ok ts call (replay_interceptor st guard now call handler) a.id (s, q) r gated
          e1 in
      let e2 = ap (λ x. x.0) (sym b.passed) ∙ e1 in
      let (fresh, answered) = replay-ok now call handler a.id s q r gated e2 in
      let issued : Renew.issue signer now (some a.id) ts csr_pem ≡ ok r =
        coded-ok renew_code (Renew.issue signer now (some a.id) ts csr_pem) r answered in
      record {
        leaf = a.leaf;
        chain = a.chain;
        id = a.id;
        tenants = b.tenants;
        presented = a.presented;
        proven = a.proven;
        snapshot = b.snapshot;
        tenant = b.tenant;
        configured = b.configured;
        fresh = fresh;
        renewed =
            issue-Renewed signer now a.id b.tenants csr_pem r creates
              (ap (λ t. Renew.issue signer now (some a.id) t csr_pem) (sym b.snapshot) ∙ issued);
      }
