-- ===== src/Tests/Signing.antt =====
-- Runs of request signatures, with stand-ins for cryptography.
use mathlib.Core.List.{reverse-append, reverse-reverse}
use Prim.Native.String.{String}
use muthur.Prelude.{
  ◌⊎◌, ℕ, Text, ◌≢◌, codes, [], ◌∷◌, ◌++◌, true, some, Option, ok, ◌≡◌, refl, ap, ◌∙◌, arith, drop,
  reverse, pos, text_eq, ◌==◌, ◌&&◌, All,
}
use muthur.Auth.HttpSig.{
  verify_with, component_value, Crypto, Header, in_quotes, signature_params, sign_request,
  verify_request, cert_key_id, parse_signature_params,
}
use muthur.Auth.HttpSig.Covered.{
  Request, Covered, Forged, SingleLined, base_of, verify_request-Covered,
}
use muthur.Auth.HttpSig.Params.{
  TextLaws, lacks, Without-of_lacks, parse_signature_params-signature_params,
}
use muthur.Auth.HttpSig.RoundTrip.{KeyPair, verify_request-sign_request}
use muthur.Tests.Data.{same_text, nonce}

abbrev unquoted : Text → Text
unquoted s = reverse (drop 1 (reverse (drop 1 s)))

-- Signatures are the pair (5, 7), and nothing else verifies.
abbrev pub crypto : Crypto ℕ ℕ
crypto = record {
  sha256 = same_text;
  base64_encode = same_text;
  base64_decode = λ s. some s;
  hex_encode = λ s. codes "c0de";
  quote = in_quotes;
  unquote = λ s. some (unquoted s);
  private_is_p256 = λ k. true;
  public_is_p256 = λ k. true;
  ecdsa_sign = λ random key digest. some (5, 7);
  ecdsa_verify = λ key digest r s. (r == 5) && (s == 7);
}

unquoted-in_quotes : (s : Text) → some (unquoted (in_quotes s)) ≡ some s
unquoted-in_quotes s =
    ap some (ap (λ r. reverse (drop 1 r)) (reverse-append s (b'"' ∷ [])) ∙ reverse-reverse s)

crypto_texts : TextLaws crypto
crypto_texts = record {
  quoted = λ s h. refl;
  unquoted = λ s h. unquoted-in_quotes s;
  hex = λ s. (refl, (refl, (refl, (refl, tt))));
}

pair_fst : {r s : ℕ} → Path (Option (ℕ × ℕ)) (some (5, 7)) (some (r, s)) → 5 ≡ r
pair_fst e = cc

pair_snd : {r s : ℕ} → Path (Option (ℕ × ℕ)) (some (5, 7)) (some (r, s)) → 7 ≡ s
pair_snd e = cc

crypto_keys : KeyPair crypto 1 1
crypto_keys = record {
  p256 = refl;
  decoded = λ s. refl;
  fits = λ random digest r s e. (omega (arith, pair_fst e), omega (arith, pair_snd e));
  verifies = λ random digest r s e. rw⁻¹ (pair_fst e, pair_snd e) refl;
}

-- The headers of a request before it is signed.
abbrev pub unsigned : Header
unsigned =
    (codes "content-digest", codes "sha-256=:body:")
    ∷ (codes "x-muthur-timestamp", codes "100")
    ∷ (codes "x-muthur-nonce", nonce)
    ∷ (codes "x-muthur-cert", codes "leaf")
    ∷ (codes "x-muthur-hpke-kid", codes "k")
    ∷ []

abbrev pub params : Text
params =
    codes
      "(\"@method\" \"@path\" \"content-digest\" \"x-muthur-timestamp\" \"x-muthur-nonce\" \"x-muthur-cert\" \"x-muthur-hpke-kid\");created=100;alg=\"ecdsa-p256-sha256\";keyid=\"c0de\""

params_run : signature_params crypto (pos 100) (codes "c0de") ≡ params
unfolding signature_params
params_run = refl

abbrev pub padding : Text
padding =
    0 ∷ 0 ∷ 0 ∷ 0 ∷ 0 ∷ 0 ∷ 0 ∷ 0 ∷ 0 ∷ 0 ∷ 0 ∷ 0 ∷ 0 ∷ 0 ∷ 0 ∷ 0 ∷ 0 ∷ 0 ∷ 0 ∷ 0 ∷ 0 ∷ 0 ∷ 0 ∷ 0
    ∷ 0 ∷ 0 ∷ 0 ∷ 0 ∷ 0 ∷ 0 ∷ 0 ∷ []

abbrev pub signed : Header
signed =
    unsigned
    ++ ((codes "signature-input", codes "sig1=" ++ params)
        ∷ (
          codes "signature",
          codes "sig1=:" ++ ((padding ++ (5 ∷ (padding ++ (7 ∷ [])))) ++ codes ":"),
        )
        ∷ [])

sign_request_run :
    sign_request crypto [] unsigned
      (codes "POST")
      (codes "/muthur/v1/ingest")
      (some 1)
      (codes "leaf")
      (pos 100)
    ≡ ok signed
unfolding sign_request
sign_request_run = refl

parse_signature_params-signature_params_example :
    parse_signature_params crypto (signature_params crypto (pos 100) (codes "c0de"))
    ≡ ok (record { created = pos 100; key_id = codes "c0de" })
parse_signature_params-signature_params_example =
    parse_signature_params-signature_params crypto crypto_texts (pos 100) (codes "c0de")
      (omega arith, omega arith) (refl, (refl, (refl, (refl, tt))))

verify_request-sign_request_example :
    verify_request crypto (codes "POST") (codes "/muthur/v1/ingest") signed (some 1)
    ≡ ok (record { created = pos 100; key_id = cert_key_id crypto (codes "leaf") })
verify_request-sign_request_example =
    verify_request-sign_request crypto crypto_texts [] unsigned (codes "POST")
      (codes "/muthur/v1/ingest") 1 1 (codes "leaf") (pos 100) signed crypto_keys
      (omega arith, omega arith) sign_request_run

-- The one request that was signed, and a library that accepts no other.
abbrev sent : Request
sent = record {
  method = codes "POST";
  path = codes "/muthur/v1/ingest";
  header = signed;
  params = params;
}

abbrev strict : Crypto ℕ ℕ
strict = record crypto { ecdsa_verify = λ key digest r s. text_eq digest (base_of sent) }

sent-SingleLined : SingleLined sent
unfolding component_value
sent-SingleLined = (
  lines "POST" refl,
  (
    lines "/muthur/v1/ingest" refl,
    (
      lines "sha-256=:body:" refl,
      (
        lines "100" refl,
        (Without-of_lacks 10 nonce refl, (lines "leaf" refl, (lines "k" refl, tt))),
      ),
    ),
  ),
)
  where
    lines : (s : String) → lacks 10 (codes s) ≡ true → All (λ x. x ≢ 10) (codes s)
    lines s h = Without-of_lacks 10 (codes s) h

strict_verified :
    verify_request strict (codes "POST") (codes "/muthur/v1/ingest") signed (some 1)
    ≡ ok (record { created = pos 100; key_id = codes "c0de" })
unfolding verify_request verify_with
strict_verified = refl

verify_request-Covered_example :
    Covered strict
      (codes "POST")
      (codes "/muthur/v1/ingest")
      signed
      (record { created = pos 100; key_id = codes "c0de" })
      (sent ∷ [])
    ⊎ Forged strict (codes "POST") (codes "/muthur/v1/ingest") signed 1 (sent ∷ [])
verify_request-Covered_example =
    verify_request-Covered strict (codes "POST") (codes "/muthur/v1/ingest") signed 1
      (record { created = pos 100; key_id = codes "c0de" }) (sent ∷ []) (sent-SingleLined, tt)
      sent-SingleLined strict_verified
