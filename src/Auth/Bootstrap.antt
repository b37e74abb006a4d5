-- ===== src/Auth/Bootstrap.antt =====
-- internal/auth/bootstrap.go: the first certificate of a collector, against a one-time token. The
-- clock is read once, at `now`; the mutex serialises attempts only. `hash` is the lower-case hex of
-- the token's SHA-256.
pub mod Once
pub mod Refusals
pub mod Certified
use muthur.Prelude.{
  ℕ, ◌*◌, ◌^◌, ◌-◌, Text, codes, List, [], ◌∷◌, ◌++◌, Bool, true, false, Option, none, some, Result,
  ok, err, ltb, not, ◌||◌, ◌&&◌, is_empty, text_eq, to_lower, has_prefix, drop, length, lookup,
  if◌then◌else◌,
}
use muthur.Store.{Store, StoreError}
use muthur.Auth.Identity.{Identity}
use muthur.Auth.Signer.{Signer, Leaf, SignFailure, returned, panicked, sign}
use muthur.Auth.Tenants.{Tenant, Tenants}

-- What a caller gets where there is no certificate; `crashed` is the panic of the signer.
pub data BootstrapError : Type 0 where
  bad_request : BootstrapError
  unauthorized : BootstrapError
  forbidden : BootstrapError
  internal : BootstrapError
  crashed : BootstrapError

pub record BootstrapInput : Type 0 where
  pub cluster_id : Text
  pub bootstrap_token : Text
  pub csr_pem : Text

pub record BootstrapResult : Type 0 where
  pub certificate : Leaf
  pub ca_pem : Text

abbrev pub day : ℕ
day = 24 * 3600 * 10 ^ 9

-- `strings.TrimPrefix(strings.ToLower(hash), "sha256:")`
unfoldable pub want_hash : Tenant → Text
want_hash t =
    let h = to_lower t.bootstrap_token_hash in
    if has_prefix (codes "sha256:") h then drop 7 h else h

-- `!t.IsZero() && now.After(t)`
unfoldable pub window_passed : Option ℕ → ℕ → Bool
window_passed none now = false
window_passed (some t) now = ltb t now

-- The marker lives for a day, or up to the end of a longer bootstrap window.
unfoldable pub marker_ttl : Option ℕ → ℕ → ℕ
marker_ttl none now = day
marker_ttl (some t) now = if ltb day (t - now) then t - now else day

abbrev pub bootstrap_identity : Tenant → Identity
bootstrap_identity t = record {
  tenant_id = t.tenant_id;
  cluster_id = t.cluster_id;
  not_after = 0;
  serial_number = [];
}

module _ {S : Type 0} (st : Store S) (signer : Signer) (hash : Text → Text) (prefix : Text) where
  unfoldable pub used_key : Text → Text
  used_key cluster = prefix ++ (codes "bootstrap:used:" ++ cluster)

  -- The end of `Issue`: a failed signature gives the token back, a panic does not.
  abbrev deliver :
      ℕ → BootstrapInput → Result SignFailure Leaf → S → Result BootstrapError BootstrapResult × S
  deliver now i (ok leaf) s = (ok (record { certificate = leaf; ca_pem = signer.ca_cert_pem }), s)
  deliver now i (err panicked) s = (err crashed, s)
  deliver now i (err (returned e)) s =
      (err bad_request, (st.delete now (used_key i.cluster_id) s).1)

  unfoldable pub mint : ℕ → BootstrapInput → Tenant → S → Result BootstrapError BootstrapResult × S
  mint now i t s =
      deliver now i (sign signer now i.csr_pem (bootstrap_identity t) t.cert_duration) s

  abbrev claimed :
      ℕ
      → BootstrapInput
      → Tenant
      → Result StoreError Bool × S
      → Result BootstrapError BootstrapResult × S
  claimed now i t (err e, s) = (err internal, s)
  claimed now i t (ok false, s) = (err unauthorized, s)
  claimed now i t (ok true, s) = mint now i t s

  -- The tests on the tenant, then the claim of the token's marker.
  unfoldable pub issue_for :
      ℕ → BootstrapInput → Tenant → S → Result BootstrapError BootstrapResult × S
  issue_for now i t s =
      if t.revoked
      then (err unauthorized, s)
      else if window_passed t.bootstrap_expires_at now
      then (err unauthorized, s)
      else if not (text_eq (want_hash t) (hash i.bootstrap_token))
      then (err unauthorized, s)
      else claimed now i t
          (st.set_nx now (used_key i.cluster_id) (1 ∷ []) (marker_ttl t.bootstrap_expires_at now) s)

  abbrev for_tenants :
      ℕ → BootstrapInput → Option Tenants → S → Result BootstrapError BootstrapResult × S
  for_tenants now i none s = (err internal, s)
  for_tenants now i (some ts) s = elim (lookup i.cluster_id ts) [
    | none ↦ (err unauthorized, s)
    | some t ↦ issue_for now i t s
  ]

  -- `Issue`, against the current tenants.
  unfoldable pub issue :
      ℕ → Option Tenants → BootstrapInput → S → Result BootstrapError BootstrapResult × S
  issue now tenants i s =
      if is_empty i.cluster_id || is_empty i.bootstrap_token || is_empty i.csr_pem
      then (err bad_request, s)
      else for_tenants now i tenants s
