-- ===== src/Auth/Bootstrap/Once.antt =====
-- A bootstrap token is good for one certificate while its window is open.
use muthur.Prelude.{
  ℕ, ◌+◌, ◌≤◌, ◌<◌, Text, [], ◌∷◌, List, Bool, true, false, Option, none, some, Result, ok, err,
  ◌≡◌, ◌≢◌, refl, sym, ap, ◌∙◌, subst, arith, All, Option-cases, inl, inr, text_eq, text_eq_iff,
  lookup, is_empty, ◌||◌,
}
use muthur.Store.{Store, StoreError}
use muthur.Store.Laws.{Lives-until, StoreLaws}
use muthur.Store.Trace.{Op, Spares, Avoids, Since, end, run, run-Held, view-run, Held}
use muthur.Auth.Signer.{Signer, Leaf, sign, SignFailure, returned, panicked}
use muthur.Auth.Tenants.{Tenant, Tenants}
use muthur.Auth.Bootstrap.{
  BootstrapInput, BootstrapResult, day, want_hash, window_passed, marker_ttl, bootstrap_identity,
  used_key, mint, claimed, issue_for, for_tenants, issue, deliver,
}

module _ {S : Type 0} (st : Store S) (signer : Signer) (hash : Text → Text) (prefix : Text) where
  -- What a certificate went through.
  pub record Issued (now : ℕ) (index : Tenants) (i : BootstrapInput) (s : S) (r : BootstrapResult)
      : Type 0 where
    pub tenant : Tenant
    pub found : lookup i.cluster_id index ≡ some tenant
    pub active : tenant.revoked ≡ false
    pub open_window : window_passed tenant.bootstrap_expires_at now ≡ false
    pub token : want_hash tenant ≡ hash i.bootstrap_token
    pub won :
        (st.set_nx now
          (used_key st signer hash prefix i.cluster_id)
          (1 ∷ [])
          (marker_ttl tenant.bootstrap_expires_at now)
          s).0
        ≡ ok true
    pub minted :
        sign signer now i.csr_pem (bootstrap_identity tenant) tenant.cert_duration
        ≡ ok r.certificate
    pub after :
        (issue st signer hash prefix now (some index) i s).1
        ≡ (st.set_nx now
            (used_key st signer hash prefix i.cluster_id)
            (1 ∷ [])
            (marker_ttl tenant.bootstrap_expires_at now)
            s).1

  -- What passed the tests on the tenant.
  record IssuedFor (now : ℕ) (i : BootstrapInput) (t : Tenant) (s : S) (r : BootstrapResult)
      : Type 0 where
    active : t.revoked ≡ false
    open_window : window_passed t.bootstrap_expires_at now ≡ false
    token : want_hash t ≡ hash i.bootstrap_token
    won :
        (st.set_nx now
          (used_key st signer hash prefix i.cluster_id)
          (1 ∷ [])
          (marker_ttl t.bootstrap_expires_at now)
          s).0
        ≡ ok true
    minted : sign signer now i.csr_pem (bootstrap_identity t) t.cert_duration ≡ ok r.certificate
    after :
        (issue_for st signer hash prefix now i t s).1
        ≡ (st.set_nx now
            (used_key st signer hash prefix i.cluster_id)
            (1 ∷ [])
            (marker_ttl t.bootstrap_expires_at now)
            s).1

  deliver-ok :
      (now : ℕ) (i : BootstrapInput) (signed : Result SignFailure Leaf) (s : S)
      (r : BootstrapResult)
      → (deliver st signer hash prefix now i signed s).0 ≡ ok r
      → (signed ≡ ok r.certificate) × ((deliver st signer hash prefix now i signed s).1 ≡ s)
  deliver-ok now i (ok leaf) s r e = (ground arith, refl)
  deliver-ok now i (err panicked) s r e = cc
  deliver-ok now i (err (returned x)) s r e = cc

  claimed-ok :
      (now : ℕ) (i : BootstrapInput) (t : Tenant) (c : Result StoreError Bool × S)
      (r : BootstrapResult)
      → (claimed st signer hash prefix now i t c).0 ≡ ok r
      → (c.0 ≡ ok true)
        × ((mint st signer hash prefix now i t c.1).0 ≡ ok r)
        × ((claimed st signer hash prefix now i t c).1 ≡ (mint st signer hash prefix now i t c.1).1)
  claimed-ok now i t (ok true, s) r e = (refl, e, refl)
  claimed-ok now i t (ok false, s) r e = cc
  claimed-ok now i t (err x, s) r e = cc

  issue_for-IssuedFor :
      (now : ℕ) (i : BootstrapInput) (t : Tenant) (s : S) (r : BootstrapResult)
      → (issue_for st signer hash prefix now i t s).0 ≡ ok r
      → IssuedFor now i t s r
  unfolding issue_for
  issue_for-IssuedFor now i t s r e =
      let claim : Result StoreError Bool × S =
        st.set_nx now (used_key st signer hash prefix i.cluster_id) (1 ∷ [])
          (marker_ttl t.bootstrap_expires_at now) s in
      let active : t.revoked ≡ false = ground arith in
      let open_window : window_passed t.bootstrap_expires_at now ≡ false = ground arith in
      let token : text_eq (want_hash t) (hash i.bootstrap_token) ≡ true = ground arith in
      let through : issue_for st signer hash prefix now i t s
          ≡ claimed st signer hash prefix now i t claim =
        simp (active, open_window, token) refl in
      let (won, made, kept) = claimed-ok now i t claim r (ap (λ x. x.0) (sym through) ∙ e) in
      let (minted, same) =
        deliver-ok now i (sign signer now i.csr_pem (bootstrap_identity t) t.cert_duration) claim.1
          r (unfold mint in made) in
      record {
        active = active;
        open_window = open_window;
        token = (text_eq_iff (want_hash t) (hash i.bootstrap_token)).0 token;
        won = won;
        minted = minted;
        after = ap (λ x. x.1) through ∙ kept ∙ (unfold mint in same);
      }

  -- A certificate is issued only for a listed tenant that is not revoked, inside its bootstrap
  -- window, against its token, if the token's marker was free; it is minted for the tenant's own
  -- identity.
  pub issue-Issued :
      (now : ℕ) (ts : Tenants) (i : BootstrapInput) (s : S) (r : BootstrapResult)
      → (issue st signer hash prefix now (some ts) i s).0 ≡ ok r
      → Issued now ts i s r
  unfolding issue
  issue-Issued now ts i s r e = elim (Option-cases (lookup i.cluster_id ts)) [
    | inl absent ↦ absurd (ground arith)
    | inr (t, found) ↦
        let whole : (is_empty i.cluster_id || is_empty i.bootstrap_token || is_empty i.csr_pem)
            ≡ false =
          ground arith in
        let through : issue st signer hash prefix now (some ts) i s
            ≡ issue_for st signer hash prefix now i t s =
          rw (whole, found, for_tenants) refl in
        let f = issue_for-IssuedFor now i t s r (ap (λ x. x.0) (sym through) ∙ e) in
        record {
          tenant = t;
          found = found;
          active = f.active;
          open_window = f.open_window;
          token = f.token;
          won = f.won;
          minted = f.minted;
          after = ap (λ x. x.1) through ∙ f.after;
        }
  ]

entry_unique :
    (a t : Tenant) (index : Tenants) (k : Text)
    → lookup k index ≡ some a
    → lookup k index ≡ some t
    → a ≡ t
entry_unique a t index k p q = cc

expiry_of :
    (a t : Tenant) (expires : ℕ) (index : Tenants) (k : Text)
    → lookup k index ≡ some a
    → lookup k index ≡ some t
    → t.bootstrap_expires_at ≡ some expires
    → a.bootstrap_expires_at ≡ some expires
expiry_of a t expires index k p q e = rw (entry_unique a t index k p q) e

-- The marker outlives the bootstrap window.
ttl_covers :
    (expires now later : ℕ)
    → window_passed (some expires) later ≡ false
    → later ≤ now + marker_ttl (some expires) now
unfolding window_passed marker_ttl
ttl_covers expires now later h = ground arith

module _ {S : Type 0} (st : Store S) {view : ℕ → Text → S → Option Text} (laws : StoreLaws st view)
    (signer : Signer) (hash : Text → Text) (prefix : Text) where
  Held-marker :
      (now : ℕ) (k v : Text) (ttl : ℕ) (s : S)
      → (st.set_nx now k v ttl s).0 ≡ ok true
      → Held st view k now (now + ttl) (st.set_nx now k v ttl s).1
  Held-marker now k v ttl s won t lo hi e =
      let stored : view t k (st.set_nx now k v ttl s).1 ≡ some v =
        laws.set_nx_stores now k v ttl s t won lo (Lives-until ttl now t hi) in
      cc

  -- A bootstrap token with an expiry is good once: after a certificate was issued for a cluster, no
  -- later request for it succeeds, with whatever token and CSR, while the tenant's entry is the
  -- same and no other call overwrites or deletes the marker.
  pub issue_once :
      (now later : ℕ) (index index' : Tenants) (i i' : BootstrapInput) (s : S) (ops : List Op)
      (r r' : BootstrapResult) (t : Tenant) (expires : ℕ)
      → (issue st signer hash prefix now (some index) i s).0 ≡ ok r
      → lookup i.cluster_id index ≡ some t
      → t.bootstrap_expires_at ≡ some expires
      → i'.cluster_id ≡ i.cluster_id
      → lookup i'.cluster_id index' ≡ some t
      → Since now ops
      → All (Spares (used_key st signer hash prefix i.cluster_id)) ops
      → end now ops ≤ later
      → (issue st signer hash prefix later
          (some index')
          i'
          (run st ops (issue st signer hash prefix now (some index) i s).1)).0
        ≢ ok r'
  issue_once now later index index' i i' s ops r r' t expires first found until same found' since
        spares le again =
      let a = issue-Issued st signer hash prefix now index i s r first in
      let s' = (issue st signer hash prefix now (some index) i s).1 in
      let b = issue-Issued st signer hash prefix later index' i' (run st ops s') r' again in
      let k = used_key st signer hash prefix i.cluster_id in
      let ta : a.tenant.bootstrap_expires_at ≡ some expires =
        expiry_of a.tenant t expires index i.cluster_id a.found found until in
      let tb : b.tenant.bootstrap_expires_at ≡ some expires =
        expiry_of b.tenant t expires index' i'.cluster_id b.found found' until in
      let ttl = marker_ttl a.tenant.bootstrap_expires_at now in
      let hi : later ≤ now + ttl = rw ta (ttl_covers expires now later (rw tb at b.open_window)) in
      let held : Held st view k now (now + ttl) s' =
        rw a.after (Held-marker now k (1 ∷ []) ttl s a.won) in
      run-Held st laws k ops now (now + ttl) s' since spares held later le hi (
        subst (λ c. view later (used_key st signer hash prefix c) (run st ops s') ≡ none) same
          (laws.set_nx_fresh later (used_key st signer hash prefix i'.cluster_id) (1 ∷ [])
            (marker_ttl b.tenant.bootstrap_expires_at later) (run st ops s') b.won))

  -- Once 24 hours have passed since a token without an expiry was used, its marker is gone, if no
  -- other call writes it.
  pub marker_gone_after_day :
      (now later : ℕ) (index : Tenants) (i : BootstrapInput) (s : S) (ops : List Op)
      (r : BootstrapResult) (t : Tenant)
      → (issue st signer hash prefix now (some index) i s).0 ≡ ok r
      → lookup i.cluster_id index ≡ some t
      → t.bootstrap_expires_at ≡ none
      → All (Avoids (used_key st signer hash prefix i.cluster_id)) ops
      → now + day < later
      → view later
          (used_key st signer hash prefix i.cluster_id)
          (run st ops (issue st signer hash prefix now (some index) i s).1)
        ≡ none
  marker_gone_after_day now later index i s ops r t first found never avoids le =
      let a = issue-Issued st signer hash prefix now index i s r first in
      let k = used_key st signer hash prefix i.cluster_id in
      let same : a.tenant ≡ t = entry_unique a.tenant t index i.cluster_id a.found found in
      let ttl : marker_ttl a.tenant.bootstrap_expires_at now ≡ day =
        rw (same, never) (unfold marker_ttl in refl) in
      view-run st laws k ops later _ avoids
      ∙ (rw a.after (
          laws.set_nx_expires now k (1 ∷ []) (marker_ttl a.tenant.bootstrap_expires_at now) s later
            a.won (rw ttl (omega arith)) (rw ttl le)))
