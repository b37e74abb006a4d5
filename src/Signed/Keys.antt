-- ===== src/Signed/Keys.antt =====
-- internal/signedsrv/server.go: the key document that `keys` answers, and `Signer.SignPayload`. JSON and the
-- signing key are parameters.
use muthur.Prelude.{ℕ, Text, codes, List, Option, Result, ok, ◌>>=◌, map}
use muthur.Auth.Sealed.{Hpke, HpkeKeySet, public}
use muthur.Http.{Failure, fail, or_fail, internal_code}

pub record KeyEntry : Type 0 where
  pub kid : Text
  pub kem : Text
  pub kdf : Text
  pub aead : Text
  pub public_key : Text

pub record KeysPayload : Type 0 where
  pub issued_at : ℕ
  pub keys : List KeyEntry

pub record KeysDocument : Type 0 where
  pub payload : Text
  pub signature : Text
  pub signer : Text

-- What `keys` calls of encoding/json and of the signer.
pub record KeysLib : Type 0 where
  pub base64_encode : Text → Text
  pub marshal : KeysPayload → Option Text
  pub sign_payload : Text → Option Text
  pub ca_raw : Text

module _ {Key PublicKey Context Aead : Type 0} (hpke : Hpke Key PublicKey Context Aead)
    (lib : KeysLib) where
  unfoldable pub key_entry : Text × PublicKey → KeyEntry
  key_entry k = record {
    kid = k.0;
    kem = codes "dhkem-x25519-hkdf-sha256";
    kdf = codes "hkdf-sha256";
    aead = codes "aes-256-gcm";
    public_key = lib.base64_encode (hpke.key_bytes k.1);
  }

  -- `keys`, at a second; a key set that cannot be listed would panic, which is answered with 500.
  unfoldable pub keys : ℕ → HpkeKeySet Key → Result Failure KeysDocument
  unfolding public key_entry
  keys now_unix ks = or_fail (fail 500 internal_code) (public hpke ks.keys ks.order) >>= λ listed.
      or_fail (fail 500 internal_code)
        (lib.marshal (record { issued_at = now_unix; keys = map key_entry listed }))
      >>= λ raw. or_fail (fail 500 internal_code) (lib.sign_payload raw) >>= λ sig. ok (record {
        payload = lib.base64_encode raw;
        signature = lib.base64_encode sig;
        signer = lib.base64_encode lib.ca_raw;
      })
