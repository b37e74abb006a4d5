-- ===== src/Auth/Renew.antt =====
-- internal/auth/renew.go: a new leaf for a collector that holds one. Identity and tenants come from
-- the context and from the reloader.
pub mod Kept
use muthur.Prelude.{
  ℕ, Text, Bool, true, false, Option, none, some, Result, ok, err, is_empty, lookup, ltb,
  if◌then◌else◌,
}
use muthur.Auth.Identity.{Identity}
use muthur.Auth.Signer.{Signer, Leaf, SignFailure, returned, panicked, sign}
use muthur.Auth.Tenants.{Tenant, Tenants}

-- What a caller gets where there is no certificate; `crashed` is the panic of the signer.
pub data RenewError : Type 0 where
  no_identity : RenewError
  bad_request : RenewError
  forbidden : RenewError
  crashed : RenewError

pub record RenewResult : Type 0 where
  pub certificate : Leaf
  pub ca_pem : Text

-- `found && tenant.Revoked`
abbrev pub is_revoked : Option Tenant → Bool
is_revoked none = false
is_revoked (some t) = t.revoked

-- The duration to ask the signer for.
abbrev pub wanted_duration : Signer → Option Tenant → ℕ
wanted_duration signer none = signer.max_leaf_duration
wanted_duration signer (some t) =
    if ltb 0 t.cert_duration then t.cert_duration else signer.max_leaf_duration

abbrev pub delivered : Signer → Result SignFailure Leaf → Result RenewError RenewResult
delivered signer (err panicked) = err crashed
delivered signer (err (returned e)) = err bad_request
delivered signer (ok leaf) = ok (record { certificate = leaf; ca_pem = signer.ca_cert_pem })

unfoldable pub issue_for :
    Signer → ℕ → Identity → Option Tenant → Text → Result RenewError RenewResult
issue_for signer now id tenant csr_pem =
    if is_revoked tenant
    then err forbidden
    else if is_empty csr_pem
    then err bad_request
    else delivered signer (sign signer now csr_pem id (wanted_duration signer tenant))

-- `Issue`
unfoldable pub issue :
    Signer → ℕ → Option Identity → Option Tenants → Text → Result RenewError RenewResult
issue signer now none ts csr_pem = err no_identity
issue signer now (some id) none csr_pem = err forbidden
issue signer now (some id) (some ts) csr_pem =
    issue_for signer now id (lookup id.cluster_id ts) csr_pem
