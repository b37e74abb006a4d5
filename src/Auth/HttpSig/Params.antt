-- ===== src/Auth/HttpSig/Params.antt =====
-- What `parseSignatureParams` makes of the parameters that `signatureParams` prints.
use muthur.Prelude.{
  ℕ, not, ◌&&◌, has_prefix, zero, suc, ◌+◌, ◌/◌, ◌%◌, ◌<◌, Text, codes, [], ◌∷◌, ◌++◌, Bool, true,
  some, ok, ◌>>=◌, ◌≡◌, ◌≢◌, refl, ap, ◌∙◌, inl, inr, All, All-append, arith, ltb, ◌==◌, Bool-cases,
  ℤ, pos, negsuc, InInt64, itoa, itoa_loop, format_int, parse_int-format_int, text_eq,
}
use muthur.Auth.Replay.{is_hex_digit}
use muthur.Auth.HttpSig.{
  Crypto, Parsed, split, cut_after, cut, in_quotes, signature_alg, set_param, set_params, contains,
  complete, want_list, parse_signature_params, signature_params, spaced,
}
use muthur.Auth.HttpSig.Base.{Without}

pub split-single : (c : ℕ) (a : Text) → Without c a → split c a ≡ a ∷ []
unfolding split
split-single c [] h = refl
split-single c (x ∷ a) h =
    let rest = split-single c a h.1 in
    elim (Bool-cases (x == c)) [
      | inl same ↦ absurd (h.0 (ground (arith, same)))
      | inr other ↦ rw (other, rest) refl
    ]

pub split-append : (c : ℕ) (a s : Text) → Without c a → split c (a ++ (c ∷ s)) ≡ a ∷ split c s
unfolding split
split-append c [] s h = ground arith
split-append c (x ∷ a) s h =
    let rest = split-append c a s h.1 in
    elim (Bool-cases (x == c)) [
      | inl same ↦ absurd (h.0 (ground (arith, same)))
      | inr other ↦ rw (other, rest) refl
    ]

itoa_loop-Without :
    (c : ℕ) → 57 < c → (f n : ℕ) (acc : Text) → Without c acc → Without c (itoa_loop f n acc)
unfolding itoa_loop
itoa_loop-Without c big zero n acc h = h
itoa_loop-Without c big (suc f) n acc h = elim (Bool-cases (ltb n 10)) [
  | inl small ↦ rw small (λ e. ground (arith, e, small), h)
  | inr large ↦
      rw large
        (itoa_loop-Without c big f (n / 10) ((b'0' + n % 10) ∷ acc) (λ e. omega (arith, e), h))
]

-- A test for texts that are written out.
abbrev pub lacks : ℕ → Text → Bool
lacks c [] = true
lacks c (x ∷ s) = not (x == c) && lacks c s

pub Without-of_lacks : (c : ℕ) (s : Text) → lacks c s ≡ true → Without c s
Without-of_lacks c [] h = tt
Without-of_lacks c (x ∷ s) h = (λ e. ground (arith, e, h), Without-of_lacks c s (ground (arith, h)))

-- A printed number holds digits and a minus sign.
pub format_int-Without : (c : ℕ) → 57 < c → (z : ℤ) → Without c (format_int z)
unfolding format_int itoa
format_int-Without c big (pos n) = itoa_loop-Without c big (suc n) n [] tt
format_int-Without c big (negsuc n) =
    (λ e. omega (arith, e), itoa_loop-Without c big (suc (suc n)) (suc n) [] tt)

-- Hexadecimal characters only.
abbrev pub Hex : Text → Type 0
Hex s = All (λ x. is_hex_digit x ≡ true) s

pub Hex-Without : (c : ℕ) → 102 < c → (s : Text) → Hex s → Without c s
Hex-Without c big [] h = tt
Hex-Without c big (x ∷ s) h = (λ e. ground (arith, h.0, e), Hex-Without c big s h.1)

pub Hex-no_semicolon : (s : Text) → Hex s → Without b';' s
Hex-no_semicolon [] h = tt
Hex-no_semicolon (x ∷ s) h = (λ e. ground (arith, h.0, e), Hex-no_semicolon s h.1)

module _ {PrivateKey PublicKey : Type 0} (lib : Crypto PrivateKey PublicKey) where
  -- Printing and quoting as the packages document them.
  pub record TextLaws : Type 0 where
    pub quoted : (s : Text) → Hex s → lib.quote s ≡ in_quotes s
    pub unquoted : (s : Text) → Hex s → lib.unquote (in_quotes s) ≡ some s
    pub hex : (s : Text) → Hex (lib.hex_encode s)

module _ {PrivateKey PublicKey : Type 0} (lib : Crypto PrivateKey PublicKey)
    (laws : TextLaws lib) where
  abbrev start : Parsed
  start = record { info = record { created = pos 0; key_id = [] }; seen = [] }

  abbrev created_field : ℤ → Text
  created_field z = codes "created=" ++ format_int z

  abbrev alg_field : Text
  alg_field = codes "alg=" ++ in_quotes signature_alg

  abbrev key_field : Text → Text
  key_field key_id = codes "keyid=" ++ in_quotes key_id

  abbrev fields : ℤ → Text → Text
  fields created key_id =
      b';' ∷ (created_field created ++ (b';' ∷ (alg_field ++ (b';' ∷ key_field key_id))))

  split-fields :
      (created : ℤ) (key_id : Text)
      → Hex key_id
      → split b';' (fields created key_id)
        ≡ [] ∷ created_field created ∷ alg_field ∷ key_field key_id ∷ []
  unfolding split
  split-fields created key_id plain =
      let last : Without b';' (key_field key_id) =
        All-append (λ x. x ≢ b';') (codes "keyid=\"") (key_id ++ (b'"' ∷ []))
          (Without-of_lacks b';' (codes "keyid=\"") refl)
          (All-append (λ x. x ≢ b';') key_id (b'"' ∷ []) (Hex-no_semicolon key_id plain)
            (Without-of_lacks b';' (b'"' ∷ []) refl)) in
      let first : Without b';' (created_field created) =
        All-append (λ x. x ≢ b';') (codes "created=") (format_int created)
          (Without-of_lacks b';' (codes "created=") refl)
          (format_int-Without b';' (omega arith) created) in
      ap (λ l. [] ∷ l)
        (split-append b';' (created_field created) (alg_field ++ (b';' ∷ key_field key_id)) first
          ∙ ap (λ l. created_field created ∷ l)
              (split-append b';' alg_field (key_field key_id) (Without-of_lacks b';' alg_field refl)
                ∙ ap (λ l. alg_field ∷ l) (split-single b';' (key_field key_id) last)))

  read_fields :
      (created : ℤ) (key_id : Text)
      → InInt64 created
      → Hex key_id
      → set_params lib start ([] ∷ created_field created ∷ alg_field ∷ key_field key_id ∷ [])
        ≡ ok (record {
          info = record { created = created; key_id = key_id };
          seen = codes "keyid" ∷ codes "alg" ∷ codes "created" ∷ [];
        })
  unfolding set_params set_param cut contains text_eq
  read_fields created key_id h plain =
      rw (parse_int-format_int created h, laws.unquoted key_id plain) refl

  -- The parameters that were printed are read back.
  pub parse_signature_params-signature_params :
      (created : ℤ) (key_id : Text)
      → InInt64 created
      → Hex key_id
      → parse_signature_params lib (signature_params lib created key_id)
        ≡ ok (record { created = created; key_id = key_id })
  unfolding parse_signature_params signature_params text_eq want_list cut_after spaced has_prefix
      complete contains
  parse_signature_params-signature_params created key_id h plain = rw (laws.quoted key_id plain) (
      ap (λ l. set_params lib start l >>= complete lib) (split-fields created key_id plain)
      ∙ ap (λ r. r >>= complete lib) (read_fields created key_id h plain))
