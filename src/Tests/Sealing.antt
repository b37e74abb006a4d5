-- ===== src/Tests/Sealing.antt =====
-- Runs of sealed envelopes and of the key set.
use muthur.Prelude.{ℕ, Text, length, codes, [], ◌∷◌, ◌++◌, some, ok, ◌≡◌, refl, sym, ap, ◌∙◌, inl}
use muthur.Auth.HttpSig.{cut_prefix}
use muthur.Auth.HttpSig.Bytes.{cut_prefix-append}
use muthur.Auth.Sealed.{
  Hpke, HpkeKeySet, ResponseKey, x25519, seal_request, open_request, seal_response, open_response,
  public,
}
use muthur.Auth.Sealed.RoundTrip.{SealLaws, open_response-seal_response}
use muthur.Auth.Sealed.Rotation.{open_request-advertised}
use muthur.Tests.Data.{same_text, nonce}
use muthur.Tests.Signing.{padding}

-- A sealed text is the additional data, a mark and the text; contexts are the text that is bound.
abbrev pub sealing : Hpke ℕ ℕ Text Text
sealing = record {
  key_bytes = λ k. k ∷ [];
  digest_hex = same_text;
  public_key = λ k. k;
  new_sender = λ random key info. some (0 ∷ padding, key ∷ info);
  new_recipient = λ enc key info. some (key ∷ info);
  seal = λ context aad text. some ((aad ++ (0 ∷ [])) ++ text);
  unseal = λ context aad ct. cut_prefix (aad ++ (0 ∷ [])) ct;
  export = λ context label n. some context;
  new_gcm = λ key. some key;
  gcm_seal = λ aead n text. n ++ text;
  gcm_open = λ aead n ct. cut_prefix n ct;
  pem_blocks = λ t.
      record { type = codes "CERTIFICATE"; bytes = [] }
      ∷ record { type = codes "PRIVATE KEY"; bytes = t }
      ∷ [];
  parse_pkcs8 = λ t. some (x25519 b'k');
  new_dhkem = λ k. some k;
}

sealing_laws : SealLaws sealing
sealing_laws = record {
  encapsulated =
      λ random key info enc context e. (ap length (sym (sent_fst e)), ap some (sent_snd e));
  opened = λ context aad plaintext ct e.
      ap (cut_prefix (aad ++ (0 ∷ []))) (sym (some-injective _ _ e))
      ∙ cut_prefix-append (aad ++ (0 ∷ [])) plaintext;
  gcm_opened = λ aead n plaintext long. cut_prefix-append n plaintext;
}
  where
    some-injective : {A : Type 0} (a b : A) → some a ≡ some b → a ≡ b
    some-injective a b e = cc

    sent_fst : {a b : Text × Text} → some a ≡ some b → a.0 ≡ b.0
    sent_fst e = ap (λ p. p.0) (some-injective _ _ e)

    sent_snd : {a b : Text × Text} → some a ≡ some b → a.1 ≡ b.1
    sent_snd e = ap (λ p. p.1) (some-injective _ _ e)

abbrev pub key_set : HpkeKeySet ℕ
key_set = record { order = codes "k" ∷ []; keys = (codes "k", b'k') ∷ [] }

abbrev path : Text
path = codes "/muthur/v1/ingest"

abbrev pub response_key : ResponseKey
response_key = record { key = b'k' ∷ codes "muthur/v1 /muthur/v1/ingest" }

abbrev pub body : Text
body = 1 ∷ ((0 ∷ padding) ++ ((codes "100" ++ (10 ∷ (nonce ++ (0 ∷ [])))) ++ codes "hello"))

seal_request_run :
    seal_request sealing [] b'k' path (codes "100") nonce (codes "hello") ≡ ok (body, response_key)
unfolding seal_request
seal_request_run = refl

public_run : public sealing key_set.keys key_set.order ≡ some ((codes "k", b'k') ∷ [])
unfolding public
public_run = refl

open_request-advertised_example :
    open_request sealing key_set (codes "k") path (codes "100") nonce body
    ≡ ok (codes "hello", response_key)
open_request-advertised_example =
    open_request-advertised sealing key_set ((codes "k", b'k') ∷ []) (codes "k", b'k') [] path
      (codes "100") nonce (codes "hello") body response_key sealing_laws public_run (inl refl)
      seal_request_run

abbrev twelve : Text
twelve = codes "123456789012"

open_response-seal_response_example :
    open_response sealing response_key (1 ∷ (twelve ++ (twelve ++ codes "done")))
    ≡ ok (codes "done")
open_response-seal_response_example =
    open_response-seal_response sealing sealing_laws twelve response_key (codes "done")
      (1 ∷ (twelve ++ (twelve ++ codes "done"))) refl (unfold seal_response in refl)
