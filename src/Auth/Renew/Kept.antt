-- ===== src/Auth/Renew/Kept.antt =====
-- What a renewal that succeeds gives.
use muthur.Prelude.{
  ℕ, ◌+◌, ◌≤◌, Text, false, some, Result, ok, err, is_empty, lookup, ◌≡◌, ◌≢◌, refl, ap, Bool-cases,
  Result-cases, inl, inr, subst,
}
use muthur.Auth.Identity.{Identity}
use muthur.Auth.Signer.{Signer, SignFailure, returned, panicked, sign}
use muthur.Auth.Signer.RoundTrip.{CreatesTemplate, Minted, sign-Minted, sign-bounded}
use muthur.Auth.Tenants.{Tenants}
use muthur.Auth.Renew.{
  RenewError, RenewResult, is_revoked, wanted_duration, delivered, issue_for, issue,
}

-- The renewed leaf names the caller's own identity, binds the request's key, and is bounded.
pub record Renewed (signer : Signer) (now : ℕ) (id : Identity) (ts : Tenants) (csr_pem : Text)
    (r : RenewResult) : Type 0 where
  pub not_revoked : is_revoked (lookup id.cluster_id ts) ≡ false
  pub minted :
      Minted signer now csr_pem id (wanted_duration signer (lookup id.cluster_id ts)) r.certificate
  pub bounded : r.certificate.certificate.not_after ≤ now + signer.max_leaf_duration
  pub ca : r.ca_pem ≡ signer.ca_cert_pem

err≢ok : {e : RenewError} {r : RenewResult} → err e ≢ ok r
err≢ok h = cc

delivered-err :
    (signer : Signer) (bad : SignFailure) (r : RenewResult) → delivered signer (err bad) ≡ ok r → ⊥
delivered-err signer panicked r e = cc
delivered-err signer (returned x) r e = cc

ok-injective : {a b : RenewResult} (r : Result RenewError RenewResult) → r ≡ ok a → r ≡ ok b → a ≡ b
ok-injective r p q = cc

-- A renewal that succeeds is for a tenant that is not revoked; the leaf is minted for the identity
-- of the caller's present certificate, binds the key of the request and ends within the cap, if
-- X.509 creation does what it documents.
pub issue-Renewed :
    (signer : Signer) (now : ℕ) (id : Identity) (ts : Tenants) (csr_pem : Text) (r : RenewResult)
    → CreatesTemplate signer.pki
    → issue signer now (some id) (some ts) csr_pem ≡ ok r
    → Renewed signer now id ts csr_pem r
unfolding issue issue_for
issue-Renewed signer now id ts csr_pem r creates e =
    elim (Bool-cases (is_revoked (lookup id.cluster_id ts))) [
      | inl revoked ↦ absurd (err≢ok (rw revoked at e))
      | inr active ↦
          let e1 = rw active at e in
          elim (Bool-cases (is_empty csr_pem)) [
            | inl blank ↦ absurd (err≢ok (rw blank at e1))
            | inr there ↦
                let e2 = rw there at e1 in
                let d = wanted_duration signer (lookup id.cluster_id ts) in
                elim (Result-cases (sign signer now csr_pem id d)) [
                  | inr (bad, failed) ↦ absurd (delivered-err signer bad r (rw failed at e2))
                  | inl (leaf, signed) ↦
                      let same : record { certificate = leaf; ca_pem = signer.ca_cert_pem } ≡ r =
                        ok-injective _ (ap (delivered signer) signed) e2 in
                      subst (Renewed signer now id ts csr_pem) same (record {
                        not_revoked = active;
                        minted = sign-Minted signer now csr_pem id d leaf creates signed;
                        bounded = sign-bounded signer now csr_pem id d leaf creates signed;
                        ca = refl;
                      })
                ]
          ]
    ]
