-- ===== src/Grpc/Admission.antt =====
-- What every request that gets through the interceptors has shown.
use muthur.Prelude.{
  ℕ, List, [], ◌∷◌, ◌++◌, false, Option, none, some, Result, ok, err, ◌≡◌, ◌≢◌, refl, sym, ap, ◌∙◌,
  Bool-cases, Result-cases, inl, inr, text_eq, text_eq_iff, lookup,
}
use muthur.Alert.{AlertPayload}
use muthur.Auth.Identity.{Identity, Certificate, extract_from_cert}
use muthur.Auth.Replay.{ReplayGuard, ReplayError, verify}
use muthur.Auth.Tenants.{Tenant, Tenants}
use muthur.Store.{Store}
use muthur.Grpc.{
  Code, Peer, tls, no_peer, no_tls, Call, exempt, first_meta, Handler, with_identity, with_peer,
  auth_interceptor, unless_revoked, with_tenants, revocation_interceptor, after_verify,
  replay_interceptor, intercepted, ingest, ingest_answer, server_ingest,
}

module _ {W A : Type 0} where
  -- Where a handler's answer came through authentication: the identity, and the answer itself.
  pub record Authenticated (handler : Handler A W) (w : W) (peer : Peer) (r : Result Code A × W)
      : Type 0 where
    pub leaf : Certificate
    pub chain : List Certificate
    pub id : Identity
    pub presented : peer ≡ tls (leaf ∷ chain)
    pub proven : extract_from_cert (some leaf) ≡ ok id
    pub passed : r ≡ handler (some id) w

  with_peer-ok :
      (handler : Handler A W) (peer : Peer) (w : W) (a : A)
      → (with_peer handler peer w).0 ≡ ok a
      → Authenticated handler w peer (with_peer handler peer w)
  with_peer-ok handler no_peer w a e = cc
  with_peer-ok handler no_tls w a e = cc
  with_peer-ok handler (tls []) w a e = cc
  with_peer-ok handler (tls (leaf ∷ chain)) w a e =
      elim (Result-cases (extract_from_cert (some leaf))) [
        | inl (id, found) ↦ record {
          leaf = leaf;
          chain = chain;
          id = id;
          presented = refl;
          proven = found;
          passed = ap (λ r. with_identity handler r w) found;
        }
        | inr (bad, unusable) ↦
            absurd (err≢ok (sym (ap (λ r. (with_identity handler r w).0) unusable) ∙ e))
      ]
    where
      err≢ok : {c : Code} {b : A} → err c ≢ ok b
      err≢ok h = cc

  pub auth-ok :
      (call : Call) (handler : Handler A W) (w : W) (a : A)
      → exempt call.method ≡ false
      → (auth_interceptor call handler w).0 ≡ ok a
      → Authenticated handler w call.peer (auth_interceptor call handler w)
  unfolding auth_interceptor
  auth-ok call handler w a gated e = rw gated (with_peer-ok handler call.peer w a (rw gated at e))

  -- The same for the revocation check: the tenant is configured and not revoked.
  pub record Active (handler : Handler A W) (w : W) (ts : Option Tenants) (id : Identity)
      (r : Result Code A × W) : Type 0 where
    pub tenants : Tenants
    pub tenant : Tenant
    pub snapshot : ts ≡ some tenants
    pub configured : lookup id.cluster_id tenants ≡ some tenant
    pub not_revoked : tenant.revoked ≡ false
    pub passed : r ≡ handler (some id) w

  unless_revoked-ok :
      (handler : Handler A W) (m : Tenants) (id : Identity) (o : Option Tenant) (w : W) (a : A)
      → lookup id.cluster_id m ≡ o
      → (unless_revoked handler id o w).0 ≡ ok a
      → Active handler w (some m) id (unless_revoked handler id o w)
  unless_revoked-ok handler m id none w a found e = cc
  unless_revoked-ok handler m id (some t) w a found e = elim (Bool-cases t.revoked) [
    | inl revoked ↦ absurd (err≢ok (rw revoked at e))
    | inr active ↦ record {
      tenants = m;
      tenant = t;
      snapshot = refl;
      configured = found;
      not_revoked = active;
      passed = rw active refl;
    }
  ]
    where
      err≢ok : {c : Code} {b : A} → err c ≢ ok b
      err≢ok h = cc

  with_tenants-ok :
      (handler : Handler A W) (ts : Option Tenants) (id : Identity) (w : W) (a : A)
      → (with_tenants handler (some id) ts w).0 ≡ ok a
      → Active handler w ts id (with_tenants handler (some id) ts w)
  with_tenants-ok handler none id w a e = cc
  with_tenants-ok handler (some m) id w a e =
      unless_revoked-ok handler m id (lookup id.cluster_id m) w a refl e

  pub revocation-ok :
      (ts : Option Tenants) (call : Call) (handler : Handler A W) (id : Identity) (w : W) (a : A)
      → exempt call.method ≡ false
      → (revocation_interceptor ts call handler (some id) w).0 ≡ ok a
      → Active handler w ts id (revocation_interceptor ts call handler (some id) w)
  unfolding revocation_interceptor
  revocation-ok ts call handler id w a gated e =
      rw gated (with_tenants-ok handler ts id w a (rw gated at e))

module _ {S : Type 0} (st : Store S) (guard : ReplayGuard) where
  -- What a request whose alert is accepted has shown.
  pub record Admitted (now : ℕ) (ts : Option Tenants) (call : Call) (p : AlertPayload) (s : S)
      : Type 0 where
    pub leaf : Certificate
    pub chain : List Certificate
    pub id : Identity
    pub tenants : Tenants
    pub tenant : Tenant
    pub presented : call.peer ≡ tls (leaf ∷ chain)
    pub proven : extract_from_cert (some leaf) ≡ ok id
    pub snapshot : ts ≡ some tenants
    pub configured : lookup id.cluster_id tenants ≡ some tenant
    pub not_revoked : tenant.revoked ≡ false
    pub fresh :
        (verify st guard now (some id) (first_meta call.timestamps) (first_meta call.nonces) s).0
        ≡ ok tt
    pub own_cluster : p.cluster_id ≡ id.cluster_id

  ingest-own :
      (p : AlertPayload) (id : Identity) (s : S) (q : List AlertPayload)
      → (server_ingest p (some id) (s, q)).0 ≡ ok tt
      → (p.cluster_id ≡ id.cluster_id)
        × (server_ingest p (some id) (s, q) ≡ (ok tt, (s, q ++ (p ∷ []))))
  unfolding server_ingest ingest
  ingest-own p id s q e = elim (Bool-cases (text_eq p.cluster_id id.cluster_id)) [
    | inl same ↦ ((text_eq_iff p.cluster_id id.cluster_id).0 same, rw (same, ingest_answer) refl)
    | inr other ↦ absurd (err≢ok (rw (other, ingest_answer) at e))
  ]
    where
      err≢ok : {c : Code} {b : Unit {0}} → err c ≢ ok b
      err≢ok h = cc

  after_verify-ok :
      (p : AlertPayload) (id : Identity) (q : List AlertPayload)
      (r : Result ReplayError (Unit {0}) × S)
      → (after_verify st guard (server_ingest p) (some id) q r).0 ≡ ok tt
      → (r.0 ≡ ok tt)
        × ((p.cluster_id ≡ id.cluster_id)
            × ((after_verify st guard (server_ingest p) (some id) q r).1.1 ≡ q ++ (p ∷ [])))
  after_verify-ok p id q (err x, s) e = cc
  after_verify-ok p id q (ok u, s) e =
      let (own, same) = ingest-own p id s q e in (refl, (own, ap (λ r. r.1.1) same))

  replay-ok :
      (now : ℕ) (call : Call) (p : AlertPayload) (id : Identity) (s : S) (q : List AlertPayload)
      → exempt call.method ≡ false
      → (replay_interceptor st guard now call (server_ingest p) (some id) (s, q)).0 ≡ ok tt
      → ((verify st guard now (some id) (first_meta call.timestamps) (first_meta call.nonces) s).0
          ≡ ok tt)
        × ((p.cluster_id ≡ id.cluster_id)
            × ((replay_interceptor st guard now call (server_ingest p) (some id) (s, q)).1.1
                ≡ q ++ (p ∷ [])))
  unfolding replay_interceptor
  replay-ok now call p id s q gated e = rw gated (
      after_verify-ok p id q
        (verify st guard now (some id) (first_meta call.timestamps) (first_meta call.nonces) s)
        (rw gated at e))

  -- An alert that is accepted over gRPC, on a method that is not exempt, came with a leaf
  -- certificate that proves an identity, of a cluster that is configured and not revoked, with a
  -- fresh timestamp and an unused nonce, and names that very cluster; it is queued once, behind
  -- what was there.
  pub ingest-Admitted :
      (now : ℕ) (ts : Option Tenants) (call : Call) (p : AlertPayload) (s : S)
      (q : List AlertPayload)
      → exempt call.method ≡ false
      → (intercepted st guard now ts call (server_ingest p) (s, q)).0 ≡ ok tt
      → Admitted now ts call p s
        × ((intercepted st guard now ts call (server_ingest p) (s, q)).1.1 ≡ q ++ (p ∷ []))
  unfolding intercepted
  ingest-Admitted now ts call p s q gated e =
      let a =
        auth-ok call
          (revocation_interceptor ts call (replay_interceptor st guard now call (server_ingest p)))
          (s, q) tt gated e in
      let e1 = ap (λ r. r.0) (sym a.passed) ∙ e in
      let b =
        revocation-ok ts call (replay_interceptor st guard now call (server_ingest p)) a.id (s, q)
          tt gated e1 in
      let e2 = ap (λ r. r.0) (sym b.passed) ∙ e1 in
      let (fresh, (own, queued)) = replay-ok now call p a.id s q gated e2 in
      (
        record {
          leaf = a.leaf;
          chain = a.chain;
          id = a.id;
          tenants = b.tenants;
          tenant = b.tenant;
          presented = a.presented;
          proven = a.proven;
          snapshot = b.snapshot;
          configured = b.configured;
          not_revoked = b.not_revoked;
          fresh = fresh;
          own_cluster = own;
        },
        ap (λ r. r.1.1) (a.passed ∙ b.passed) ∙ queued,
      )
