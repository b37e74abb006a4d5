-- ===== src/Auth/Signer/RoundTrip.antt =====
-- A certificate that `Sign` mints is read back as the identity that it was minted for.
use mathlib.Core.List.{append_assoc, append-nil, reverse-append, reverse-reverse}
use muthur.Prelude.{
  List, IsUnreserved, ℕ, ◌+◌, ◌≤◌, Text, codes, [], ◌∷◌, ◌++◌, true, some, ok, ◌≡◌, ◌≢◌, refl, sym,
  ap, ◌∙◌, arith, reverse, inl, inr, Option-cases, to_lower,
}
use muthur.AlertKey.Injective.{Lacks}
use muthur.Auth.Identity.{
  Identity, Url, Certificate, split_from, drop_slashes, trim_slashes, two_segments,
  extract_from_cert, with_fallback,
}
use muthur.Auth.Identity.Extract.{reverse-Lacks}
use muthur.Auth.Signer.{
  Signer, Leaf, Pki, sign, spiffe_text, template, clamp_duration, san_uris, Csr,
}

reverse-shift :
    (segment : Text) (c : ℕ) (t : Text) → reverse (c ∷ segment) ++ t ≡ reverse segment ++ (c ∷ t)
reverse-shift segment c t =
    ap (λ x. x ++ t) (reverse-append (c ∷ []) segment) ∙ append_assoc (reverse segment) (c ∷ []) t

-- A text with no separator, up to one, is one segment.
split_from-segment :
    (segment t s : Text)
    → Lacks b'/' t
    → split_from segment (t ++ (b'/' ∷ s)) ≡ (reverse segment ++ t) ∷ split_from [] s
unfolding split_from
split_from-segment segment [] s h = rw append-nil
split_from-segment segment (c ∷ t) s h =
    ground (arith, h.0, reverse-shift segment c t, split_from-segment (c ∷ segment) t s)

split_from-last :
    (segment t : Text) → Lacks b'/' t → split_from segment t ≡ (reverse segment ++ t) ∷ []
unfolding split_from
split_from-last segment [] h = rw append-nil
split_from-last segment (c ∷ t) h =
    ground (arith, h.0, reverse-shift segment c t, split_from-last (c ∷ segment) t)

drop_slashes_plain : (t s : Text) → t ≢ [] → Lacks b'/' t → drop_slashes (t ++ s) ≡ t ++ s
unfolding drop_slashes
drop_slashes_plain [] s ne h = absurd (ne refl)
drop_slashes_plain (c ∷ t) s ne h = ground (arith, h.0)

reverse-ne-nil : (t : Text) → t ≢ [] → reverse t ≢ []
reverse-ne-nil t ne e = ne (sym (reverse-reverse t) ∙ ap reverse e)

module _ (t c : Text) (ht : t ≢ []) (hc : c ≢ []) (pt : Lacks b'/' t) (pc : Lacks b'/' c) where
  trim_slashes_path : trim_slashes (b'/' ∷ (t ++ (b'/' ∷ c))) ≡ t ++ (b'/' ∷ c)
  unfolding trim_slashes
  trim_slashes_path =
      let path : Text = t ++ (b'/' ∷ c) in
      let front : drop_slashes (b'/' ∷ path) ≡ path =
        (unfold drop_slashes in drop_slashes_plain t (b'/' ∷ c) ht pt) in
      let back : reverse path ≡ reverse c ++ reverse (t ++ (b'/' ∷ [])) =
        ap reverse (sym (append_assoc t (b'/' ∷ []) c)) ∙ reverse-append (t ++ (b'/' ∷ [])) c in
      let kept : drop_slashes (reverse path) ≡ reverse path =
        ap drop_slashes back
        ∙ drop_slashes_plain (reverse c) (reverse (t ++ (b'/' ∷ []))) (reverse-ne-nil c hc)
            (reverse-Lacks b'/' c pc)
        ∙ sym back in
      ap (λ x. reverse (drop_slashes (reverse x))) front ∙ ap reverse kept ∙ reverse-reverse path

  two_segments_path :
      two_segments (split_from [] (trim_slashes (b'/' ∷ (t ++ (b'/' ∷ c))))) ≡ ok (t, c)
  two_segments_path =
      rw (trim_slashes_path, split_from-segment [] t c pt, split_from-last [] c pc)
        (unfold two_segments in ground arith)

-- What crypto/x509 documents of `CreateCertificate`: the certificate says what the template says and
-- binds the given key.
abbrev pub CreatesTemplate : Pki → Type 0
CreatesTemplate pki =
    (cert : Certificate) (key : Text) (leaf : Leaf)
    → pki.create cert key ≡ some leaf
    → (leaf.certificate ≡ cert) × (leaf.public_key ≡ key)

-- What net/url documents of `Parse`: a URL of scheme, host and a path of segments that stand for
-- themselves has these parts.
abbrev pub ParsesUrls : Pki → Type 0
ParsesUrls pki =
    (id : Identity)
    → IsUnreserved id.tenant_id
    → IsUnreserved id.cluster_id
    → pki.parse_url (spiffe_text id)
      ≡ some (record {
        scheme = codes "spiffe";
        host = codes "muthur";
        path = b'/' ∷ (id.tenant_id ++ (b'/' ∷ id.cluster_id));
      })

IsUnreserved-Lacks : (t : Text) → IsUnreserved t → Lacks b'/' t
IsUnreserved-Lacks [] h = tt
IsUnreserved-Lacks (c ∷ t) h = ((λ e. ground (arith, h.0, e)), IsUnreserved-Lacks t h.1)

-- What a successful `Sign` went through.
pub record Minted (s : Signer) (now : ℕ) (csr_pem : Text) (id : Identity) (duration : ℕ)
    (leaf : Leaf) : Type 0 where
  pub csr : Csr
  pub serial_hex : Text
  pub uris : List Url
  pub located : san_uris s id ≡ some uris
  pub parsed : s.pki.parse_csr_pem csr_pem ≡ some csr
  pub proved : csr.signed ≡ true
  pub says : leaf.certificate ≡ template s now id duration serial_hex uris
  pub binds : leaf.public_key ≡ csr.public_key

-- A leaf that `Sign` returns binds the key of a request whose signature holds, and says what the
-- template of the given identity says, whatever the request claims.
pub sign-Minted :
    (s : Signer) (now : ℕ) (csr_pem : Text) (id : Identity) (duration : ℕ) (leaf : Leaf)
    → CreatesTemplate s.pki
    → sign s now csr_pem id duration ≡ ok leaf
    → Minted s now csr_pem id duration leaf
unfolding sign
sign-Minted s now csr_pem id duration leaf creates e =
    elim (Option-cases (s.pki.parse_csr_pem csr_pem)) [
      | inl none' ↦ absurd (ground arith)
      | inr (csr, parsed) ↦ elim (Option-cases s.pki.random_serial) [
        | inl none' ↦ absurd (ground arith)
        | inr (serial_hex, drawn) ↦ elim (Option-cases (san_uris s id)) [
          | inl none' ↦ absurd (ground arith)
          | inr (uris, located) ↦
              let made : s.pki.create (template s now id duration serial_hex uris) csr.public_key
                  ≡ some leaf =
                ground arith in
              let (says, binds) =
                creates (template s now id duration serial_hex uris) csr.public_key leaf made in
              record {
                csr = csr;
                serial_hex = serial_hex;
                uris = uris;
                located = located;
                parsed = parsed;
                proved = ground arith;
                says = says;
                binds = binds;
              }
        ]
      ]
    ]

-- No leaf outlives the cap.
pub sign-bounded :
    (s : Signer) (now : ℕ) (csr_pem : Text) (id : Identity) (duration : ℕ) (leaf : Leaf)
    → CreatesTemplate s.pki
    → sign s now csr_pem id duration ≡ ok leaf
    → leaf.certificate.not_after ≤ now + s.max_leaf_duration
sign-bounded s now csr_pem id duration leaf creates e =
    let m = sign-Minted s now csr_pem id duration leaf creates e in
    rw m.says (unfold template in ground arith)

extract-template :
    (s : Signer) (now : ℕ) (id : Identity) (duration : ℕ) (serial_hex : Text) (uris : List Url)
    → ParsesUrls s.pki
    → san_uris s id ≡ some uris
    → id.tenant_id ≢ []
    → id.cluster_id ≢ []
    → IsUnreserved id.tenant_id
    → IsUnreserved id.cluster_id
    → (i : Identity) × (extract_from_cert (some (template s now id duration serial_hex uris))
        ≡ ok i)
      × (i.tenant_id ≡ id.tenant_id)
      × (i.cluster_id ≡ id.cluster_id)
      × (i.not_after ≡ (template s now id duration serial_hex uris).not_after)
unfolding extract_from_cert template
extract-template s now id duration serial_hex uris parses located ht hc ut uc =
    let parsed = parses id ut uc in
    let found : uris
        ≡ record {
          scheme = codes "spiffe";
          host = codes "muthur";
          path = b'/' ∷ (id.tenant_id ++ (b'/' ∷ id.cluster_id));
        }
          ∷ [] =
      (unfold san_uris in ground arith) in
    (
      record {
        tenant_id = id.tenant_id;
        cluster_id = id.cluster_id;
        not_after = now + clamp_duration s duration;
        serial_number = to_lower serial_hex;
      },
      rw
          (
            found,
            two_segments_path id.tenant_id id.cluster_id ht hc (IsUnreserved-Lacks id.tenant_id ut)
                (IsUnreserved-Lacks id.cluster_id uc),
          )
          (unfold with_fallback in ground arith),
      refl,
      refl,
      refl,
    )

-- The identity that is read from a minted leaf is the one that it was minted for, with tenant and
-- cluster not empty and of letters, digits and the marks -, ., _ and ~ only, if X.509 creation and
-- URL parsing do what they document.
pub extract-sign :
    (s : Signer) (now : ℕ) (csr_pem : Text) (id : Identity) (duration : ℕ) (leaf : Leaf)
    → CreatesTemplate s.pki
    → ParsesUrls s.pki
    → id.tenant_id ≢ []
    → id.cluster_id ≢ []
    → IsUnreserved id.tenant_id
    → IsUnreserved id.cluster_id
    → sign s now csr_pem id duration ≡ ok leaf
    → (i : Identity) × (extract_from_cert (some leaf.certificate) ≡ ok i)
      × (i.tenant_id ≡ id.tenant_id)
      × (i.cluster_id ≡ id.cluster_id)
      × (i.not_after ≡ leaf.certificate.not_after)
extract-sign s now csr_pem id duration leaf creates parses ht hc ut uc e =
    let m = sign-Minted s now csr_pem id duration leaf creates e in
    rw m.says (extract-template s now id duration m.serial_hex m.uris parses m.located ht hc ut uc)
