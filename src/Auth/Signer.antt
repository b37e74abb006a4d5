-- ===== src/Auth/Signer.antt =====
-- internal/auth/sign.go: `Signer.Sign`. PEM, X.509, URL parsing, the random serial and the CA key are
-- parameters; what is modelled is whom the certificate names and how long it lasts.
pub mod RoundTrip
use muthur.Prelude.{
  ℕ, ◌+◌, ◌*◌, ◌^◌, Text, codes, List, [], ◌∷◌, ◌++◌, Bool, true, false, Option, none, some, Result,
  ok, err, ◌>>=◌, ◌>>◌, guard, ltb, ◌||◌, ◌==◌, is_empty, if◌then◌else◌,
}
use muthur.Auth.Identity.{Identity, Url, Certificate}

-- A parsed certificate request: its public key and whether its signature holds.
pub record Csr : Type 0 where
  pub public_key : Text
  pub signed : Bool

pub data SignError : Type 0 where
  parse_csr : SignError
  csr_signature : SignError
  serial : SignError
  create_certificate : SignError

-- How `Sign` ends without a leaf: with an error, or with the panic of `CreateCertificate` on the nil
-- URL that a failed `url.Parse` leaves in the template.
pub data SignFailure : Type 0 where
  returned : SignError → SignFailure
  panicked : SignFailure

-- A minted leaf: what the certificate says, and the key that it binds.
pub record Leaf : Type 0 where
  pub certificate : Certificate
  pub public_key : Text

-- The libraries that `Sign` calls. `random_serial` is `none` where the system has no randomness.
pub record Pki : Type 0 where
  pub parse_csr_pem : Text → Option Csr
  pub parse_url : Text → Option Url
  pub random_serial : Option Text
  pub create : Certificate → Text → Option Leaf

pub record Signer : Type 0 where
  pub pki : Pki
  pub max_leaf_duration : ℕ
  pub ca_cert_pem : Text

-- `NewSignerFromFiles` caps at thirty days.
abbrev pub thirty_days : ℕ
thirty_days = 30 * 24 * 3600 * 10 ^ 9

-- A duration of 0, or one above the cap, is the cap.
unfoldable pub clamp_duration : Signer → ℕ → ℕ
clamp_duration s duration =
    if (duration == 0) || ltb s.max_leaf_duration duration then s.max_leaf_duration else duration

abbrev pub spiffe_text : Identity → Text
spiffe_text id = codes "spiffe://muthur/" ++ (id.tenant_id ++ (b'/' ∷ id.cluster_id))

abbrev pub one_url : Option Url → Option (List Url)
one_url none = none
one_url (some u) = some (u ∷ [])

-- The URI SANs; none where the URL of the identity is nil.
unfoldable pub san_uris : Signer → Identity → Option (List Url)
san_uris s id =
    if is_empty id.tenant_id then some [] else one_url (s.pki.parse_url (spiffe_text id))

unfoldable pub template : Signer → ℕ → Identity → ℕ → Text → List Url → Certificate
unfolding clamp_duration
template s now id duration serial_hex uris = record {
  uris = uris;
  common_name = id.cluster_id;
  not_after = now + clamp_duration s duration;
  serial_hex = serial_hex;
}

abbrev pub or_fail : {E A : Type 0} → E → Option A → Result E A
or_fail e none = err e
or_fail e (some a) = ok a

unfoldable pub sign : Signer → ℕ → Text → Identity → ℕ → Result SignFailure Leaf
unfolding template san_uris
sign s now csr_pem id duration = do
  csr ← or_fail (returned parse_csr) (s.pki.parse_csr_pem csr_pem)
  guard csr.signed (returned csr_signature)
  serial_hex ← or_fail (returned serial) s.pki.random_serial
  uris ← or_fail panicked (san_uris s id)
  or_fail (returned create_certificate)
      (s.pki.create (template s now id duration serial_hex uris) csr.public_key)
