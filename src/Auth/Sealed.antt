-- ===== src/Auth/Sealed.antt =====
-- internal/auth/sealed.go: the sealed envelope of a request and of its response, and the key set that
-- opens requests. HPKE, AES-GCM, SHA-256, PEM and PKCS#8 are parameters; a sender and a recipient
-- context are of one type, since either side uses its context for one message.
pub mod FileOrder
pub mod KeySet
pub mod RoundTrip
pub mod Rotation
use muthur.Prelude.{
  ℕ, suc, ◌+◌, Text, codes, List, [], ◌∷◌, ◌++◌, Bool, false, Option, none, some, Result, ok, err,
  ◌>>=◌, ◌>>◌, guard, Map, lookup, insert, text_eq, take, drop, length, not, ltb, ◌&&◌, ◌||◌, ◌==◌,
  if◌then◌else◌,
}

pub data SealedError : Type 0 where
  sealed_malformed : SealedError
  unknown_hpke_key : SealedError
  hpke_failed : SealedError
  cipher_failed : SealedError
  nonce_failed : SealedError

abbrev pub sealed_version : ℕ
sealed_version = 1

abbrev pub hpke_enc_size : ℕ
hpke_enc_size = 32

abbrev pub response_key_len : ℕ
response_key_len = 32

abbrev pub gcm_nonce_len : ℕ
gcm_nonce_len = 12

abbrev pub response_export_context : Text
response_export_context = codes "muthur/v1 response"

-- What `x509.ParsePKCS8PrivateKey` finds: an X25519 key, or a key of another kind.
pub data ParsedKey (Key : Type 0) : Type 0 where
  x25519 : Key → ParsedKey Key
  other_key : ParsedKey Key

pub record Block : Type 0 where
  pub type : Text
  pub bytes : Text

-- What the code calls of crypto, encoding/pem and encoding/hex.
pub record Hpke (Key PublicKey Context Aead : Type 0) : Type 0 where
  pub key_bytes : PublicKey → Text
  pub digest_hex : Text → Text
  pub public_key : Key → PublicKey
  pub new_sender : Text → PublicKey → Text → Option (Text × Context)
  pub new_recipient : Text → Key → Text → Option Context
  pub seal : Context → Text → Text → Option Text
  pub unseal : Context → Text → Text → Option Text
  pub export : Context → Text → ℕ → Option Text
  pub new_gcm : Text → Option Aead
  pub gcm_seal : Aead → Text → Text → Text
  pub gcm_open : Aead → Text → Text → Option Text
  pub pem_blocks : Text → List Block
  pub parse_pkcs8 : Text → Option (ParsedKey Key)
  pub new_dhkem : Key → Option Key

-- `hpkeInfo`
unfoldable pub hpke_info : Text → Text
hpke_info path = codes "muthur/v1 " ++ path

-- `sealAAD`
unfoldable pub seal_aad : Text → Text → Text
seal_aad timestamp nonce = timestamp ++ (10 ∷ nonce)

-- A value or the error of a call that failed.
abbrev pub or_err : {A : Type 0} → SealedError → Option A → Result SealedError A
or_err problem none = err problem
or_err problem (some a) = ok a

-- The first byte is the version and at least n bytes follow it.
unfoldable pub has_envelope : ℕ → Text → Bool
has_envelope n [] = false
has_envelope n (v ∷ rest) = not (ltb (length rest) n) && (v == sealed_version)

-- `ResponseOpener` and `ResponseSealer`: the response key.
pub record ResponseKey : Type 0 where
  pub key : Text

pub record HpkeKeySet (Key : Type 0) : Type 0 where
  pub order : List Text
  pub keys : Map Key

pub data KeyError : Type 0 where
  parse_key : KeyError
  not_x25519 : KeyError
  wrap_key : KeyError
  no_key : KeyError

module _ {Key PublicKey Context Aead : Type 0} (hpke : Hpke Key PublicKey Context Aead) where
  -- `HPKEKeyID`: the first eight bytes of the digest are sixteen hexadecimal digits.
  unfoldable pub hpke_key_id : PublicKey → Text
  hpke_key_id pub_key = take 16 (hpke.digest_hex (hpke.key_bytes pub_key))

  -- `SealRequest`, with the random bytes that the sender draws.
  unfoldable pub seal_request :
      Text → PublicKey → Text → Text → Text → Text → Result SealedError (Text × ResponseKey)
  unfolding hpke_info seal_aad
  seal_request random pub_key path timestamp nonce plaintext =
      or_err hpke_failed (hpke.new_sender random pub_key (hpke_info path)) >>= λ sent.
      or_err hpke_failed (hpke.seal sent.1 (seal_aad timestamp nonce) plaintext) >>= λ ct.
      or_err hpke_failed (hpke.export sent.1 response_export_context response_key_len) >>= λ rk.
      ok (sealed_version ∷ (sent.0 ++ ct), record { key = rk })

  -- `ResponseOpener.Open`
  unfoldable pub open_response : ResponseKey → Text → Result SealedError Text
  unfolding has_envelope
  open_response opener body =
      let rest = drop 1 body in
      guard (has_envelope gcm_nonce_len body) sealed_malformed
      >> (or_err cipher_failed (hpke.new_gcm opener.key) >>= λ aead.
          or_err sealed_malformed
            (hpke.gcm_open aead (take gcm_nonce_len rest) (drop gcm_nonce_len rest)))

  -- `ResponseSealer.Seal`, with the bytes drawn for the nonce, if the source of randomness gives any.
  unfoldable pub seal_response : Option Text → ResponseKey → Text → Result SealedError Text
  seal_response random sealer plaintext = or_err cipher_failed (hpke.new_gcm sealer.key) >>= λ aead.
      or_err nonce_failed random >>= λ nonce.
      ok (sealed_version ∷ (nonce ++ hpke.gcm_seal aead nonce plaintext))

  -- The part of `OpenRequest` after the key is found.
  unfoldable pub open_with :
      Text → Text → Text → Text → Option Key → Result SealedError (Text × ResponseKey)
  unfolding has_envelope hpke_info seal_aad
  open_with path timestamp nonce body none = err unknown_hpke_key
  open_with path timestamp nonce body (some key) =
      let rest = drop 1 body in
      guard (has_envelope hpke_enc_size body) sealed_malformed
      >> (or_err sealed_malformed
            (hpke.new_recipient (take hpke_enc_size rest) key (hpke_info path))
          >>= λ recipient.
              or_err sealed_malformed
                (hpke.unseal recipient (seal_aad timestamp nonce) (drop hpke_enc_size rest))
              >>= λ pt.
                  or_err hpke_failed
                    (hpke.export recipient response_export_context response_key_len)
                  >>= λ rk. ok (pt, record { key = rk }))

  -- `HPKEKeySet.OpenRequest`
  unfoldable pub open_request :
      HpkeKeySet Key → Text → Text → Text → Text → Text → Result SealedError (Text × ResponseKey)
  unfolding open_with lookup
  open_request ks kid path timestamp nonce body =
      open_with path timestamp nonce body (lookup kid ks.keys)

  abbrev pub unless_known : HpkeKeySet Key → Text → Key → Option Key → HpkeKeySet Key
  unless_known ks kid key (some _) = ks
  unless_known ks kid key none = record {
    order = ks.order ++ (kid ∷ []);
    keys = insert kid key ks.keys;
  }

  -- A key that has been wrapped joins the set, unless its identifier is known.
  unfoldable pub add_key : HpkeKeySet Key → Key → HpkeKeySet Key
  unfolding hpke_key_id lookup insert
  add_key ks key =
      let kid = hpke_key_id (hpke.public_key key) in unless_known ks kid key (lookup kid ks.keys)

  abbrev pub add_wrapped : HpkeKeySet Key → Option Key → Result KeyError (HpkeKeySet Key)
  add_wrapped ks none = err wrap_key
  add_wrapped ks (some key) = ok (add_key ks key)

  abbrev pub add_parsed : HpkeKeySet Key → Option (ParsedKey Key) → Result KeyError (HpkeKeySet Key)
  add_parsed ks none = err parse_key
  add_parsed ks (some other_key) = err not_x25519
  add_parsed ks (some (x25519 priv)) = add_wrapped ks (hpke.new_dhkem priv)

  -- One block of the loop of `ParseHPKEKeys`.
  unfoldable pub add_block : HpkeKeySet Key → Block → Result KeyError (HpkeKeySet Key)
  unfolding text_eq add_key
  add_block ks b =
      if text_eq b.type (codes "PRIVATE KEY")
      then add_parsed ks (hpke.parse_pkcs8 b.bytes)
      else ok ks

  unfoldable pub add_blocks : HpkeKeySet Key → List Block → Result KeyError (HpkeKeySet Key)
  unfolding add_block
  add_blocks ks [] = ok ks
  add_blocks ks (b ∷ bs) = add_block ks b >>= λ ks'. add_blocks ks' bs

  abbrev pub unless_none : HpkeKeySet Key → Result KeyError (HpkeKeySet Key)
  unless_none ks = if length ks.order == 0 then err no_key else ok ks

  -- `ParseHPKEKeys`, over the blocks that repeated `pem.Decode` finds.
  unfoldable pub parse_hpke_keys : Text → Result KeyError (HpkeKeySet Key)
  unfolding add_blocks
  parse_hpke_keys pem_data =
      add_blocks (record { order = []; keys = [] }) (hpke.pem_blocks pem_data) >>= unless_none

  abbrev pub entry_of : Text → Option Key → Option (Text × PublicKey)
  entry_of kid none = none
  entry_of kid (some key) = some (kid, hpke.public_key key)

  abbrev pub joined :
      Option (Text × PublicKey)
      → Option (List (Text × PublicKey))
      → Option (List (Text × PublicKey))
  joined none rest = none
  joined (some e) none = none
  joined (some e) (some es) = some (e ∷ es)

  -- `HPKEKeySet.Public`; `none` stands for the panic on an identifier without a key.
  unfoldable pub public : Map Key → List Text → Option (List (Text × PublicKey))
  unfolding lookup
  public keys [] = some []
  public keys (kid ∷ kids) = joined (entry_of kid (lookup kid keys)) (public keys kids)
