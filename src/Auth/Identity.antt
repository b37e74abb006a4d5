-- ===== src/Auth/Identity.antt =====
-- internal/auth/identity.go: the caller's identity, from a verified client certificate. A certificate
-- is what crypto/x509 and net/url have parsed of it, as far as the code reads it.
pub mod Extract
use muthur.Prelude.{
  ℕ, Text, codes, List, [], ◌∷◌, ◌++◌, Bool, true, false, Option, none, some, Result, ok, err,
  text_eq, is_empty, trim_space, not, ◌||◌, reverse, to_lower, if◌then◌else◌, ◌==◌, ◌>>=◌,
}

pub record Identity : Type 0 where
  pub tenant_id : Text
  pub cluster_id : Text
  pub not_after : ℕ
  pub serial_number : Text

-- `Identity.String`
unfoldable pub to_string : Identity → Text
to_string i = if is_empty i.tenant_id then i.cluster_id else i.tenant_id ++ (b'/' ∷ i.cluster_id)

pub data IdentityError : Type 0 where
  no_identity : IdentityError
  malformed_san : IdentityError

pub record Url : Type 0 where
  pub scheme : Text
  pub host : Text
  pub path : Text

pub record Certificate : Type 0 where
  pub uris : List Url
  pub common_name : Text
  pub not_after : ℕ
  pub serial_hex : Text

-- `strings.Split(s, "/")`: never empty. `segment` is the part read so far, in reverse.
unfoldable pub split_from : Text → Text → List Text
split_from segment [] = reverse segment ∷ []
split_from segment (c ∷ s) =
    let next = reverse segment ∷ split_from [] s in
    let more = split_from (c ∷ segment) s in if c == b'/' then next else more

unfoldable pub drop_slashes : Text → Text
drop_slashes [] = []
drop_slashes (c ∷ s) = if c == b'/' then drop_slashes s else c ∷ s

-- `strings.Trim(s, "/")`
unfoldable pub trim_slashes : Text → Text
unfolding drop_slashes
trim_slashes s = reverse (drop_slashes (reverse (drop_slashes s)))

-- The test on the segments of a SPIFFE path.
unfoldable pub two_segments : List Text → Result IdentityError (Text × Text)
two_segments (tenant ∷ cluster ∷ []) =
    if is_empty tenant || is_empty cluster then err malformed_san else ok (tenant, cluster)
two_segments _ = err malformed_san

unfoldable pub parse_spiffe_path : Url → Result IdentityError (Text × Text)
unfolding text_eq two_segments split_from trim_slashes
parse_spiffe_path u =
    if not (text_eq u.host (codes "muthur"))
    then err malformed_san
    else two_segments (split_from [] (trim_slashes u.path))

-- The loop over the URI SANs: the first SPIFFE one decides.
unfoldable pub spiffe_identity : List Url → Result IdentityError (Text × Text)
unfolding text_eq parse_spiffe_path
spiffe_identity [] = ok ([], [])
spiffe_identity (u ∷ us) =
    if not (text_eq u.scheme (codes "spiffe")) then spiffe_identity us else parse_spiffe_path u

-- The fallback to the Common Name, and the last check.
unfoldable pub with_fallback : Certificate → Text × Text → Result IdentityError Identity
unfolding trim_space
with_fallback cert (tenant, cluster) =
    let cluster' = if is_empty cluster then trim_space cert.common_name else cluster in
    if is_empty cluster'
    then err no_identity
    else ok (record {
      tenant_id = tenant;
      cluster_id = cluster';
      not_after = cert.not_after;
      serial_number = to_lower cert.serial_hex;
    })

unfoldable pub extract_from_cert : Option Certificate → Result IdentityError Identity
unfolding spiffe_identity with_fallback to_lower
extract_from_cert none = err no_identity
extract_from_cert (some cert) = spiffe_identity cert.uris >>= with_fallback cert
