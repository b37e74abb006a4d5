-- ===== src/Auth/Identity/Extract.antt =====
-- What an extracted identity guarantees.
use muthur.Prelude.{
  ℕ, Text, codes, List, [], ◌∷◌, Option, none, some, ok, ◌≡◌, ◌≢◌, arith, All, text_eq, Bool-cases,
  inl, inr, reverse, ◌==◌, ◌⊎◌, subst, >>=-eq-ok,
}
use mathlib.Core.List.{reverse_aux}
use muthur.AlertKey.Injective.{Lacks, split-injective}
use muthur.Auth.Identity.{
  Identity, to_string, Url, Certificate, split_from, two_segments, trim_slashes, parse_spiffe_path,
  spiffe_identity, with_fallback, extract_from_cert,
}

reverse_aux-Lacks : (c : ℕ) (s acc : Text) → Lacks c s → Lacks c acc → Lacks c (reverse_aux s acc)
reverse_aux-Lacks c [] acc hs ha = ha
reverse_aux-Lacks c (x ∷ s) acc hs ha = reverse_aux-Lacks c s (x ∷ acc) hs.1 (hs.0, ha)

pub reverse-Lacks : (c : ℕ) (s : Text) → Lacks c s → Lacks c (reverse s)
reverse-Lacks c s h = reverse_aux-Lacks c s [] h tt

split_from-Lacks : (segment s : Text) → Lacks b'/' segment → All (Lacks b'/') (split_from segment s)
unfolding split_from
split_from-Lacks segment [] h = (reverse-Lacks b'/' segment h, tt)
split_from-Lacks segment (c ∷ s) h = elim (Bool-cases (c == b'/')) [
  | inl sep ↦ rw sep (reverse-Lacks b'/' segment h, split_from-Lacks [] s tt)
  | inr other ↦ rw other (split_from-Lacks (c ∷ segment) s ((λ e. ground arith), h))
]

-- Both parts of a SPIFFE identity are present and free of the separator.
pub record IsSpiffePair (r : Text × Text) : Type 0 where
  pub tenant : r.0 ≢ []
  pub cluster : r.1 ≢ []
  pub tenant_plain : Lacks b'/' r.0
  pub cluster_plain : Lacks b'/' r.1

two_segments-ok :
    (l : List Text) (r : Text × Text) → All (Lacks b'/') l → two_segments l ≡ ok r → IsSpiffePair r
unfolding two_segments
two_segments-ok (tenant ∷ cluster ∷ []) r h e = subst IsSpiffePair (ground arith) (record {
  tenant = λ none. ground arith;
  cluster = λ none. ground arith;
  tenant_plain = h.0;
  cluster_plain = h.1.0;
})
two_segments-ok _ r h e = cc

parse_spiffe_path-ok : (u : Url) (r : Text × Text) → parse_spiffe_path u ≡ ok r → IsSpiffePair r
unfolding parse_spiffe_path
parse_spiffe_path-ok u r e =
    two_segments-ok (split_from [] (trim_slashes u.path)) r
      (split_from-Lacks [] (trim_slashes u.path) tt) (ground arith)

spiffe_identity-ok :
    (us : List Url) (r : Text × Text) → spiffe_identity us ≡ ok r → (r ≡ ([], [])) ⊎ IsSpiffePair r
unfolding spiffe_identity
spiffe_identity-ok [] r e = inl (ground arith)
spiffe_identity-ok (u ∷ us) r e = elim (Bool-cases (text_eq u.scheme (codes "spiffe"))) [
  | inl yes' ↦ inr (parse_spiffe_path-ok u r (ground arith))
  | inr no' ↦ spiffe_identity-ok us r (ground arith)
]

-- The cluster is never empty, and an identity with a tenant has separator-free parts.
pub record IsUsable (i : Identity) : Type 0 where
  pub cluster : i.cluster_id ≢ []
  pub plain : i.tenant_id ≢ [] → Lacks b'/' i.tenant_id × Lacks b'/' i.cluster_id

with_fallback-IsUsable :
    (cert : Certificate) (r : Text × Text) (i : Identity)
    → (r ≡ ([], [])) ⊎ IsSpiffePair r
    → with_fallback cert r ≡ ok i
    → IsUsable i
unfolding with_fallback
with_fallback-IsUsable cert r i (inl e) h = record {
  cluster = λ none. ground arith;
  plain = λ some. ground arith;
}
with_fallback-IsUsable cert r i (inr p) h = record {
  cluster = λ none. ground arith;
  plain = λ some.
      let t : i.tenant_id ≡ r.0 = ground arith in
      let c : i.cluster_id ≡ r.1 = ground arith in rw (t, c) (p.tenant_plain, p.cluster_plain);
}

-- An identity that is extracted has a cluster, and where it has a tenant neither of the two holds a
-- slash.
pub extract_from_cert-IsUsable :
    (cert : Option Certificate) (i : Identity) → extract_from_cert cert ≡ ok i → IsUsable i
unfolding extract_from_cert
extract_from_cert-IsUsable none i e = cc
extract_from_cert-IsUsable (some cert) i e =
    let (r, found, named) = >>=-eq-ok (spiffe_identity cert.uris) (with_fallback cert) e in
    with_fallback-IsUsable cert r i (spiffe_identity-ok cert.uris r found) named

-- Two extracted identities that name tenants print alike only if tenant and cluster agree.
pub to_string-injective :
    (i j : Identity)
    → IsUsable i
    → IsUsable j
    → i.tenant_id ≢ []
    → j.tenant_id ≢ []
    → to_string i ≡ to_string j
    → (i.tenant_id ≡ j.tenant_id) × (i.cluster_id ≡ j.cluster_id)
unfolding to_string
to_string-injective i j hi hj ti tj e =
    split-injective b'/' i.tenant_id j.tenant_id i.cluster_id j.cluster_id (hi.plain ti).0
      (hj.plain tj).0 (ground arith)
