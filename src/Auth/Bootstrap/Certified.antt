-- ===== src/Auth/Bootstrap/Certified.antt =====
-- Whom and what a certificate of `Issue` is for, said of the tenant's entry and the certificate alone.
use muthur.Prelude.{
  ℕ, ◌+◌, ◌≤◌, Text, codes, List, [], ◌∷◌, ◌++◌, true, false, Option, none, some, ok, ◌≡◌, refl,
  sym, ap, ◌⊎◌, inl, inr, arith, lookup, to_lower, has_prefix, drop, Bool-cases, subst, is_empty,
  length, ◌==◌, ◌≢◌,
}
use muthur.Store.{Store}
use muthur.Store.Laws.{StoreLaws}
use muthur.Auth.Identity.{Url}
use muthur.Auth.Signer.{Signer, Csr, san_uris, spiffe_text, template, one_url}
use muthur.Auth.Signer.RoundTrip.{CreatesTemplate, sign-Minted, sign-bounded}
use muthur.Auth.Tenants.{Tenant, Tenants}
use muthur.Auth.Bootstrap.{
  BootstrapInput, BootstrapResult, want_hash, window_passed, bootstrap_identity, used_key, issue,
}
use muthur.Auth.Bootstrap.Once.{issue-Issued}

-- A bootstrap window that has no end, or has not ended.
abbrev pub IsOpen : Option ℕ → ℕ → Type 0
IsOpen expires now = (expires ≡ none) ⊎ ((t : ℕ) × (expires ≡ some t) × (now ≤ t))

-- A configured hash, in any case and with or without the prefix `sha256:`, of the token's hash.
abbrev pub IsHash : Text → Text → Type 0
IsHash configured hashed =
    (to_lower configured ≡ hashed) ⊎ (to_lower configured ≡ codes "sha256:" ++ hashed)

-- The URIs of a tenant's certificate: none without a tenant, else the one of tenant and cluster.
abbrev pub IsNamed : Signer → Tenant → List Url → Type 0
IsNamed signer t uris =
    ((t.tenant_id ≡ []) × (uris ≡ []))
    ⊎ ((u : Url) × (signer.pki.parse_url
            (codes "spiffe://muthur/" ++ (t.tenant_id ++ (b'/' ∷ t.cluster_id)))
          ≡ some u)
        × (uris ≡ u ∷ []))

pub record Certified {S : Type 0} (view : ℕ → Text → S → Option Text) (signer : Signer)
    (hash : Text → Text) (prefix : Text) (now : ℕ) (index : Tenants) (i : BootstrapInput) (s : S)
    (r : BootstrapResult) : Type 0 where
  pub tenant : Tenant
  pub found : lookup i.cluster_id index ≡ some tenant
  pub active : tenant.revoked ≡ false
  pub open_window : IsOpen tenant.bootstrap_expires_at now
  pub token : IsHash tenant.bootstrap_token_hash (hash i.bootstrap_token)
  pub unused : view now (prefix ++ (codes "bootstrap:used:" ++ i.cluster_id)) s ≡ none
  pub csr : Csr
  pub parsed : signer.pki.parse_csr_pem i.csr_pem ≡ some csr
  pub proved : csr.signed ≡ true
  pub binds : r.certificate.public_key ≡ csr.public_key
  pub names_cluster : r.certificate.certificate.common_name ≡ tenant.cluster_id
  pub names_tenant : IsNamed signer tenant r.certificate.certificate.uris
  pub bounded : r.certificate.certificate.not_after ≤ now + signer.max_leaf_duration

window_passed-IsOpen :
    (expires : Option ℕ) (now : ℕ) → window_passed expires now ≡ false → IsOpen expires now
unfolding window_passed
window_passed-IsOpen none now h = inl refl
window_passed-IsOpen (some t) now h = inr (t, refl, ground arith)

drop-prefix : (p h : Text) → has_prefix p h ≡ true → h ≡ p ++ drop (length p) h
unfolding has_prefix
drop-prefix [] h e = refl
drop-prefix (c ∷ p) [] e = cc
drop-prefix (c ∷ p) (d ∷ h) e = elim (Bool-cases (c == d)) [
  | inl same ↦
      let eq : c ≡ d = ground (arith, same) in
      rw eq (ap (λ t. d ∷ t) (drop-prefix p h (rw same at e)))
  | inr other ↦ absurd (false≢true (rw other at e))
]
  where
    false≢true : false ≢ true
    false≢true q = cc

want_hash-IsHash : (t : Tenant) → IsHash t.bootstrap_token_hash (want_hash t)
unfolding want_hash
want_hash-IsHash t =
    elim (Bool-cases (has_prefix (codes "sha256:") (to_lower t.bootstrap_token_hash))) [
      | inl prefixed ↦
          rw prefixed
            (inr (drop-prefix (codes "sha256:") (to_lower t.bootstrap_token_hash) prefixed))
      | inr bare ↦ rw bare (inl refl)
    ]

san_uris-IsNamed :
    (signer : Signer) (t : Tenant) (uris : List Url)
    → san_uris signer (bootstrap_identity t) ≡ some uris
    → IsNamed signer t uris
unfolding san_uris
san_uris-IsNamed signer t uris e = elim (Bool-cases (is_empty t.tenant_id)) [
  | inl empty ↦ inl (blank t.tenant_id empty, sym (some-injective (rw empty at e)))
  | inr named ↦ from_url _ refl (rw named at e)
]
  where
    blank : (w : Text) → is_empty w ≡ true → w ≡ []
    blank [] h = refl
    blank (c ∷ w) h = cc

    some-injective : {a b : List Url} → some a ≡ some b → a ≡ b
    some-injective h = cc

    from_url :
        (o : Option Url)
        → signer.pki.parse_url (spiffe_text (bootstrap_identity t)) ≡ o
        → one_url o ≡ some uris
        → IsNamed signer t uris
    from_url none p h = cc
    from_url (some u) p h = inr (u, p, cc)

module _ {S : Type 0} (st : Store S) {view : ℕ → Text → S → Option Text} (laws : StoreLaws st view)
    (signer : Signer) (hash : Text → Text) (prefix : Text) where
  -- A certificate is issued only for a listed tenant that is not revoked, whose bootstrap window
  -- has no end or has not ended, against a token with the configured hash, if no marker of the
  -- token was live; it binds the key of the request, whose signature holds, its common name is the
  -- tenant's cluster, its URI is the one of the tenant and the cluster, or none where there is no
  -- tenant, and it does not outlive the cap; if X.509 creation does what it documents.
  pub issue-Certified :
      (now : ℕ) (ts : Tenants) (i : BootstrapInput) (s : S) (r : BootstrapResult)
      → CreatesTemplate signer.pki
      → (issue st signer hash prefix now (some ts) i s).0 ≡ ok r
      → Certified view signer hash prefix now ts i s r
  unfolding used_key template
  issue-Certified now ts i s r creates e =
      let a = issue-Issued st signer hash prefix now ts i s r e in
      let t = a.tenant in
      let m =
        sign-Minted signer now i.csr_pem (bootstrap_identity t) t.cert_duration r.certificate
          creates a.minted in
      record {
        tenant = t;
        found = a.found;
        active = a.active;
        open_window = window_passed-IsOpen t.bootstrap_expires_at now a.open_window;
        token = subst (IsHash t.bootstrap_token_hash) a.token (want_hash-IsHash t);
        unused = laws.set_nx_fresh now (used_key st signer hash prefix i.cluster_id) _ _ s a.won;
        csr = m.csr;
        parsed = m.parsed;
        proved = m.proved;
        binds = m.binds;
        names_cluster = ap (λ c. c.common_name) m.says;
        names_tenant = rw m.says (san_uris-IsNamed signer t m.uris m.located);
        bounded =
            sign-bounded signer now i.csr_pem (bootstrap_identity t) t.cert_duration r.certificate
              creates a.minted;
      }
