-- ===== src/Auth/HttpSig/Bytes.antt =====
-- The 64 bytes of a signature, and the blanks around a header value.
use mathlib.Core.List.{reverse_aux, reverse_aux-append}
use muthur.Prelude.{
  ℕ, zero, suc, ◌+◌, ◌*◌, ◌/◌, ◌%◌, ◌^◌, ◌<◌, Text, [], ◌∷◌, ◌++◌, false, ◌≡◌, refl, ap, ◌∙◌, arith,
  length, length-append, take, drop, is_space, trim_left, trim_space, has_prefix-append, some,
}
use muthur.Auth.HttpSig.{fill_bytes, set_bytes, cut_prefix}

pub length-fill_bytes : (n x : ℕ) → length (fill_bytes n x) ≡ n
unfolding fill_bytes
length-fill_bytes zero x = refl
length-fill_bytes (suc n) x =
    length-append (fill_bytes n (x / 256)) (x % 256 ∷ [])
    ∙ omega (arith, length-fill_bytes n (x / 256))

set_bytes-append : (acc : ℕ) (s t : Text) → set_bytes acc (s ++ t) ≡ set_bytes (set_bytes acc s) t
unfolding set_bytes
set_bytes-append acc [] t = refl
set_bytes-append acc (b ∷ s) t = set_bytes-append (acc * 256 + b) s t

-- `SetBytes` reads what `FillBytes` wrote of a number that fits.
pub set_bytes-fill_bytes : (n x : ℕ) → x < 256 ^ n → set_bytes 0 (fill_bytes n x) ≡ x
unfolding set_bytes fill_bytes
set_bytes-fill_bytes zero x h = ground arith
set_bytes-fill_bytes (suc n) x h =
    set_bytes-append 0 (fill_bytes n (x / 256)) (x % 256 ∷ [])
    ∙ omega (arith, set_bytes-fill_bytes n (x / 256) (omega (arith, h)))

-- Reversing back.
reverse_aux-reverse_aux : (s t r : Text) → reverse_aux (reverse_aux s t) r ≡ reverse_aux t (s ++ r)
reverse_aux-reverse_aux [] t r = refl
reverse_aux-reverse_aux (x ∷ s) t r = reverse_aux-reverse_aux s (x ∷ t) r

pub take-append : (s t : Text) → take (length s) (s ++ t) ≡ s
take-append [] t = refl
take-append (x ∷ s) t = ap (λ r. x ∷ r) (take-append s t)

pub drop-append : (s t : Text) → drop (length s) (s ++ t) ≡ t
drop-append [] t = refl
drop-append (x ∷ s) t = drop-append s t

pub cut_prefix-append : (p s : Text) → cut_prefix p (p ++ s) ≡ some s
unfolding cut_prefix
cut_prefix-append p s = rw (has_prefix-append p s, drop-append p s) refl

-- A text that neither begins nor ends with a blank is left as it is.
pub trim_space-solid :
    (c : ℕ) (s : Text) (d : ℕ)
    → is_space c ≡ false
    → is_space d ≡ false
    → trim_space (c ∷ (s ++ (d ∷ []))) ≡ c ∷ (s ++ (d ∷ []))
unfolding trim_space trim_left
trim_space-solid c s d hc hd =
    rw (hc, reverse_aux-append s (d ∷ []) (c ∷ []), hd, reverse_aux-reverse_aux s (c ∷ []) (d ∷ []))
      refl

-- A text that ends in a character that is no blank.
abbrev pub EndsSolid : Text → Type 0
EndsSolid s = (m : Text) × (d : ℕ) × (s ≡ m ++ (d ∷ [])) × (is_space d ≡ false)

pub append-EndsSolid : (p s : Text) → EndsSolid s → EndsSolid (p ++ s)
append-EndsSolid [] s h = h
append-EndsSolid (x ∷ p) s h =
    let (m, d, e, hd) = append-EndsSolid p s h in (x ∷ m, d, ap (λ r. x ∷ r) e, hd)

pub trim_space-EndsSolid :
    (c : ℕ) (s : Text) → is_space c ≡ false → EndsSolid s → trim_space (c ∷ s) ≡ c ∷ s
trim_space-EndsSolid c s hc (m, d, e, hd) = rw e (trim_space-solid c m d hc hd)
