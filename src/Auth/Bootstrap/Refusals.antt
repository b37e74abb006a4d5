-- ===== src/Auth/Bootstrap/Refusals.antt =====
-- Refused bootstraps: what the caller learns, and what stays of the attempt.
use muthur.Prelude.{
  ℕ, ◌≤◌, Text, [], ◌∷◌, true, false, Option, none, some, ok, err, ◌≡◌, refl, arith, lookup,
  is_empty, ◌||◌, text_eq, ap, ◌∙◌,
}
use muthur.Store.{Store}
use muthur.Store.Laws.{StoreLaws}
use muthur.Auth.Signer.{Signer, SignError, returned, sign}
use muthur.Auth.Tenants.{Tenant, Tenants}
use muthur.Auth.Bootstrap.{
  BootstrapError, BootstrapInput, want_hash, window_passed, marker_ttl, bootstrap_identity,
  used_key, mint, deliver, claimed, issue_for, for_tenants, issue,
}

abbrev pub IsComplete : BootstrapInput → Type 0
IsComplete i = (is_empty i.cluster_id || is_empty i.bootstrap_token || is_empty i.csr_pem) ≡ false

module _ {S : Type 0} (st : Store S) (signer : Signer) (hash : Text → Text) (prefix : Text) where
  -- Why a tenant's request is turned away before its token is claimed.
  pub data Denied (now : ℕ) (ts : Tenants) (i : BootstrapInput) : Type 0 where
    unknown : lookup i.cluster_id ts ≡ none → Denied now ts i
    revoked : (t : Tenant) → lookup i.cluster_id ts ≡ some t → t.revoked ≡ true → Denied now ts i
    expired :
        (t : Tenant)
        → lookup i.cluster_id ts ≡ some t
        → window_passed t.bootstrap_expires_at now ≡ true
        → Denied now ts i
    mismatch :
        (t : Tenant)
        → lookup i.cluster_id ts ≡ some t
        → text_eq (want_hash t) (hash i.bootstrap_token) ≡ false
        → Denied now ts i

  -- For a complete request, an unknown cluster, a revoked tenant, a closed window and a wrong token
  -- get the same answer, and leave the store as it was.
  pub issue-denied :
      (now : ℕ) (ts : Tenants) (i : BootstrapInput) (s : S)
      → IsComplete i
      → Denied now ts i
      → issue st signer hash prefix now (some ts) i s ≡ (err BootstrapError.unauthorized, s)
  unfolding issue issue_for
  issue-denied now ts i s whole (unknown absent) = rw (whole, absent, for_tenants) refl
  issue-denied now ts i s whole (revoked t found e) = rw (whole, found, for_tenants) (ground arith)
  issue-denied now ts i s whole (expired t found e) = rw (whole, found, for_tenants) (ground arith)
  issue-denied now ts i s whole (mismatch t found e) = rw (whole, found, for_tenants) (ground arith)

  -- For a complete request that passes every test on the tenant and claims the token, a signature
  -- that fails gives the token back: the caller gets an error, and the marker is gone if the store
  -- deletes it.
  pub issue_rolls_back :
      {view : ℕ → Text → S → Option Text}
      → StoreLaws st view
      → (now t : ℕ) (ts : Tenants) (i : BootstrapInput) (s s' : S) (tenant : Tenant) (e : SignError)
      → IsComplete i
      → lookup i.cluster_id ts ≡ some tenant
      → tenant.revoked ≡ false
      → window_passed tenant.bootstrap_expires_at now ≡ false
      → text_eq (want_hash tenant) (hash i.bootstrap_token) ≡ true
      → st.set_nx now
          (used_key st signer hash prefix i.cluster_id)
          (1 ∷ [])
          (marker_ttl tenant.bootstrap_expires_at now)
          s
        ≡ (ok true, s')
      → sign signer now i.csr_pem (bootstrap_identity tenant) tenant.cert_duration
        ≡ err (returned e)
      → (st.delete now (used_key st signer hash prefix i.cluster_id) s').0 ≡ ok tt
      → now ≤ t
      → ((issue st signer hash prefix now (some ts) i s).0 ≡ err BootstrapError.bad_request)
        × (view t
              (used_key st signer hash prefix i.cluster_id)
              (issue st signer hash prefix now (some ts) i s).1
            ≡ none)
  issue_rolls_back {view} laws now t ts i s s' tenant e whole found active open_window token won
        failed deleted le =
      let inner : issue st signer hash prefix now (some ts) i s
          ≡ issue_for st signer hash prefix now i tenant s =
        (unfold issue in rw (whole, found, for_tenants) refl) in
      let claim : issue_for st signer hash prefix now i tenant s
          ≡ claimed st signer hash prefix now i tenant (
              st.set_nx now (used_key st signer hash prefix i.cluster_id) (1 ∷ [])
                (marker_ttl tenant.bootstrap_expires_at now) s) =
        (unfold issue_for in simp (active, open_window, token) refl) in
      let end : claimed st signer hash prefix now i tenant (
            st.set_nx now (used_key st signer hash prefix i.cluster_id) (1 ∷ [])
              (marker_ttl tenant.bootstrap_expires_at now) s)
          ≡ (
            err BootstrapError.bad_request,
            (st.delete now (used_key st signer hash prefix i.cluster_id) s').1,
          ) =
        rw won (unfold mint in rw (failed, deliver) refl) in
      let through = inner ∙ claim ∙ end in
      (
        ap (λ x. x.0) through,
        ap (λ x. view t (used_key st signer hash prefix i.cluster_id) x.1) through
            ∙ laws.delete_clears now (used_key st signer hash prefix i.cluster_id) s' t deleted le,
      )
