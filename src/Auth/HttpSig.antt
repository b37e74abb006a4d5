-- ===== src/Auth/HttpSig.antt =====
-- internal/auth/httpsig.go: the digest and the signature of a request on the signed transport. Header
-- names are kept in lower case, with the first value of each, as `http.Header.Get` reads them; SHA-256,
-- base64, hexadecimal printing, `strconv.Quote` and ECDSA are parameters. Bytes and runes are numbers.
pub mod Base
pub mod Bytes
pub mod Params
pub mod RoundTrip
pub mod Covered
use muthur.Prelude.{
  ℕ, zero, suc, ◌+◌, ◌-◌, ◌*◌, ◌/◌, ◌%◌, Text, codes, List, [], ◌∷◌, ◌++◌, Bool, true, false,
  Option, none, some, Result, ok, err, ◌>>=◌, ◌>>◌, guard, ℤ, pos, format_int, parse_int, Map,
  lookup, insert, text_eq, is_empty, has_prefix, trim_space, to_lower, map, reverse, take, drop,
  length, not, leb, ◌&&◌, ◌||◌, ◌==◌, if◌then◌else◌,
}

abbrev pub Header : Type 0
Header = Map Text

abbrev pub or_empty : Option Text → Text
or_empty none = []
or_empty (some v) = v

-- `h.Get(name)` and `h.Set(name, v)`
unfoldable pub get : Text → Header → Text
unfolding lookup
get name h = or_empty (lookup name h)

abbrev pub timestamp_name : Text
timestamp_name = codes "x-muthur-timestamp"

abbrev pub nonce_name : Text
nonce_name = codes "x-muthur-nonce"

abbrev pub cert_name : Text
cert_name = codes "x-muthur-cert"

abbrev pub kid_name : Text
kid_name = codes "x-muthur-hpke-kid"

abbrev pub digest_name : Text
digest_name = codes "content-digest"

abbrev pub input_name : Text
input_name = codes "signature-input"

abbrev pub signature_name : Text
signature_name = codes "signature"

-- `signedComponents`
abbrev pub signed_components : List Text
signed_components =
    codes "@method"
    ∷ codes "@path"
    ∷ digest_name
    ∷ timestamp_name
    ∷ nonce_name
    ∷ cert_name
    ∷ kid_name
    ∷ []

pub data SignatureError : Type 0 where
  signature_missing : SignatureError
  signature_malformed : SignatureError
  signature_invalid : SignatureError
  signature_key_type : SignatureError
  digest_mismatch : SignatureError
  sign_failed : SignatureError

-- What the code calls of crypto, encoding and strconv. A signature is a pair of numbers, r and s.
pub record Crypto (PrivateKey PublicKey : Type 0) : Type 0 where
  pub sha256 : Text → Text
  pub base64_encode : Text → Text
  pub base64_decode : Text → Option Text
  pub hex_encode : Text → Text
  pub quote : Text → Text
  pub unquote : Text → Option Text
  pub private_is_p256 : PrivateKey → Bool
  pub public_is_p256 : PublicKey → Bool
  pub ecdsa_sign : Text → PrivateKey → Text → Option (ℕ × ℕ)
  pub ecdsa_verify : PublicKey → Text → ℕ → ℕ → Bool

-- `%q` of a text without quotes, backslashes or unprintable characters.
abbrev pub in_quotes : Text → Text
in_quotes s = b'"' ∷ (s ++ (b'"' ∷ []))

-- `strings.ToUpper`, for ASCII text.
unfoldable pub upper : ℕ → ℕ
upper c = if leb b'a' c && leb c b'z' then c - 32 else c

unfoldable pub to_upper : Text → Text
unfolding upper
to_upper = map upper

-- `x.FillBytes(buf)` into n bytes, and `SetBytes`: big-endian.
unfoldable pub fill_bytes : ℕ → ℕ → Text
fill_bytes zero x = []
fill_bytes (suc n) x = fill_bytes n (x / 256) ++ (x % 256 ∷ [])

unfoldable pub set_bytes : ℕ → Text → ℕ
set_bytes acc [] = acc
set_bytes acc (b ∷ s) = set_bytes (acc * 256 + b) s

abbrev cons_first : ℕ → Option (Text × Text) → Option (Text × Text)
cons_first x none = none
cons_first x (some (before, after)) = some (x ∷ before, after)

-- The text up to and with the first c, and what follows it.
unfoldable pub cut_after : ℕ → Text → Option (Text × Text)
cut_after c [] = none
cut_after c (x ∷ s) =
    let later = cons_first x (cut_after c s) in if x == c then some (x ∷ [], s) else later

-- `strings.Cut` at a character.
unfoldable pub cut : ℕ → Text → Option (Text × Text)
cut c [] = none
cut c (x ∷ s) = let later = cons_first x (cut c s) in if x == c then some ([], s) else later

-- `strings.CutPrefix`
unfoldable pub cut_prefix : Text → Text → Option Text
unfolding has_prefix
cut_prefix p s = if has_prefix p s then some (drop (length p) s) else none

abbrev cons_head : ℕ → List Text → List Text
cons_head x [] = (x ∷ []) ∷ []
cons_head x (w ∷ ws) = (x ∷ w) ∷ ws

-- `strings.Split` at a character.
unfoldable pub split : ℕ → Text → List Text
split c [] = [] ∷ []
split c (x ∷ s) = let rest = split c s in if x == c then [] ∷ rest else cons_head x rest

-- The value of one signed component.
unfoldable pub component_value : Text → Text → Header → Text → Text
unfolding text_eq to_upper get trim_space
component_value method path h c =
    if text_eq c (codes "@method")
    then to_upper method
    else if text_eq c (codes "@path")
    then path
    else trim_space (get c h)

unfoldable pub base_from : List Text → Text → Text → Header → Text → Text
unfolding component_value
base_from [] method path h params = in_quotes (codes "@signature-params") ++ (codes ": " ++ params)
base_from (c ∷ cs) method path h params =
    in_quotes c
    ++ (codes ": " ++ (component_value method path h c ++ (10 ∷ base_from cs method path h params)))

-- `SignatureBase`
unfoldable pub signature_base : Text → Text → Header → Text → Text
unfolding base_from
signature_base = base_from signed_components

-- The component list of `signatureParams`.
unfoldable pub spaced : List Text → Text
spaced [] = []
spaced (c ∷ []) = in_quotes c
spaced (c ∷ d ∷ cs) = in_quotes c ++ (b' ' ∷ spaced (d ∷ cs))

pub record SignatureInfo : Type 0 where
  pub created : ℤ
  pub key_id : Text

-- What the loop of `parseSignatureParams` has read.
pub record Parsed : Type 0 where
  pub info : SignatureInfo
  pub seen : List Text

unfoldable pub contains : Text → List Text → Bool
unfolding text_eq
contains k [] = false
contains k (j ∷ js) = text_eq j k || contains k js

abbrev pub signature_alg : Text
signature_alg = codes "ecdsa-p256-sha256"

module _ {PrivateKey PublicKey : Type 0} (lib : Crypto PrivateKey PublicKey) where
  -- `ContentDigest`
  unfoldable pub content_digest : Text → Text
  content_digest body = codes "sha-256=:" ++ (lib.base64_encode (lib.sha256 body) ++ codes ":")

  -- `VerifyContentDigest`
  unfoldable pub verify_content_digest : Header → Text → Result SignatureError (Unit {0})
  unfolding get trim_space text_eq content_digest
  verify_content_digest h body =
      let got = trim_space (get digest_name h) in
      guard (not (is_empty got) && text_eq got (content_digest body)) digest_mismatch

  -- `CertKeyID`
  unfoldable pub cert_key_id : Text → Text
  cert_key_id leaf_der = lib.hex_encode (lib.sha256 leaf_der)

  -- `signatureParams`
  unfoldable pub signature_params : ℤ → Text → Text
  unfolding spaced format_int
  signature_params created key_id =
      b'('
      ∷ (spaced signed_components
          ++ (codes ");created="
              ++ (format_int created
                  ++ (codes ";alg="
                      ++ (in_quotes signature_alg ++ (codes ";keyid=" ++ lib.quote key_id))))))

  -- The two header fields that `SignRequest` sets.
  abbrev pub set_signature : Header → Text → Option (ℕ × ℕ) → Result SignatureError Header
  set_signature h params none = err sign_failed
  set_signature h params (some (r, s)) = ok (
      insert signature_name
        (codes "sig1=:" ++ (lib.base64_encode (fill_bytes 32 r ++ fill_bytes 32 s) ++ codes ":"))
        (insert input_name (codes "sig1=" ++ params) h))

  -- `SignRequest`, with the random bytes that the signature draws.
  unfoldable pub sign_request :
      Text → Header → Text → Text → Option PrivateKey → Text → ℤ → Result SignatureError Header
  unfolding signature_params signature_base cert_key_id fill_bytes insert
  sign_request random h method path none leaf_der created = err signature_key_type
  sign_request random h method path (some key) leaf_der created =
      let params = signature_params created (cert_key_id leaf_der) in
      guard (lib.private_is_p256 key) signature_key_type
      >> set_signature h params
          (lib.ecdsa_sign random key (lib.sha256 (signature_base method path h params)))

  -- One parameter of the loop of `parseSignatureParams`.
  unfoldable pub set_param : Parsed → Text → Text → Result SignatureError Parsed
  unfolding contains text_eq parse_int
  set_param p k v =
      let seen = k ∷ p.seen in
      if contains k p.seen
      then err signature_malformed
      else if text_eq k (codes "created")
      then elim (parse_int v) [
        | none ↦ err signature_malformed
        | some n ↦ ok (record { info = record p.info { created = n }; seen = seen })
      ]
      else if text_eq k (codes "alg")
      then (if text_eq v (in_quotes signature_alg)
          then ok (record { info = p.info; seen = seen })
          else err signature_malformed)
      else if text_eq k (codes "keyid")
      then elim (lib.unquote v) [
        | none ↦ err signature_malformed
        | some id ↦ ok (record { info = record p.info { key_id = id }; seen = seen })
      ]
      else err signature_malformed

  abbrev set_cut : Parsed → Option (Text × Text) → Result SignatureError Parsed
  set_cut p none = err signature_malformed
  set_cut p (some (k, v)) = set_param p k v

  unfoldable pub set_params : Parsed → List Text → Result SignatureError Parsed
  unfolding set_param cut
  set_params p [] = ok p
  set_params p (kv ∷ kvs) =
      (if is_empty kv then ok p else set_cut p (cut b'=' kv)) >>= λ p'. set_params p' kvs

  unfoldable pub complete : Parsed → Result SignatureError SignatureInfo
  unfolding contains
  complete p =
      guard
        (contains (codes "created") p.seen
          && contains (codes "alg") p.seen
          && contains (codes "keyid") p.seen)
        signature_malformed
      >> ok p.info

  -- `wantList`
  unfoldable pub want_list : Text
  unfolding cut_after signature_params
  want_list = elim (cut_after b')' (signature_params (pos 0) [])) [ none ↦ [] | some (l, _) ↦ l ]

  abbrev parse_cut : Option (Text × Text) → Result SignatureError SignatureInfo
  parse_cut none = err signature_malformed
  parse_cut (some (list, rest)) =
      guard (text_eq list want_list) signature_malformed
      >> (set_params (record { info = record { created = pos 0; key_id = [] }; seen = [] })
            (split b';' rest)
          >>= complete)

  -- `parseSignatureParams`
  unfoldable pub parse_signature_params : Text → Result SignatureError SignatureInfo
  unfolding has_prefix cut_after text_eq set_params split complete want_list
  parse_signature_params params =
      guard (has_prefix (codes "(") params) signature_malformed >> parse_cut (cut_after b')' params)

  abbrev pub check_length : Option Text → Result SignatureError Text
  check_length none = err signature_malformed
  check_length (some sig) = if length sig == 64 then ok sig else err signature_malformed

  -- The text before the closing colon, from its reverse.
  abbrev pub decode_closed : Text → Result SignatureError Text
  decode_closed [] = err signature_malformed
  decode_closed (c ∷ b64) =
      guard (c == b':') signature_malformed >> check_length (lib.base64_decode (reverse b64))

  abbrev pub decode_cut : Option Text → Result SignatureError Text
  decode_cut none = err signature_malformed
  decode_cut (some tail) = decode_closed (reverse tail)

  -- The bytes of a signature field: what `sig1=:` and `:` enclose, 64 bytes.
  unfoldable pub decode_signature : Text → Result SignatureError Text
  unfolding cut_prefix
  decode_signature raw = decode_cut (cut_prefix (codes "sig1=:") raw)

  -- The rest of `VerifyRequest`, from the parameters on.
  unfoldable pub verify_with :
      Text → Text → Header → PublicKey → Text → Option Text → Result SignatureError SignatureInfo
  unfolding parse_signature_params decode_signature signature_base set_bytes
  verify_with method path h key signature none = err signature_malformed
  verify_with method path h key signature (some params) = parse_signature_params params >>= λ info.
      decode_signature signature >>= λ sig.
      guard
        (lib.ecdsa_verify key (lib.sha256 (signature_base method path h params))
          (set_bytes 0 (take 32 sig)) (set_bytes 0 (drop 32 sig)))
        signature_invalid
      >> ok info

  -- `VerifyRequest`
  unfoldable pub verify_request :
      Text → Text → Header → Option PublicKey → Result SignatureError SignatureInfo
  unfolding get trim_space cut_prefix parse_signature_params decode_signature signature_base
      set_bytes
  verify_request method path h none = err signature_key_type
  verify_request method path h (some key) =
      let input = trim_space (get input_name h) in
      let signature = trim_space (get signature_name h) in
      guard (lib.public_is_p256 key) signature_key_type
      >> (guard (not (is_empty input) && not (is_empty signature)) signature_missing
          >> verify_with method path h key signature (cut_prefix (codes "sig1=") input))
