-- ===== src/Prelude/Int.antt =====
-- Signed integers over the native numbers, and Go's decimal printing and parsing of an int64.
use Prim.Native.Nat.{ℕ, zero, suc, ◌+◌, ◌-◌, ◌*◌, ◌/◌, ◌%◌, ◌^◌, ◌≤◌, ◌<◌}
use mathlib.Core.Bool.{Bool, true, ◌&&◌}
use mathlib.Core.List.{[], ◌∷◌}
use mathlib.Core.Logic.{inl, inr}
use mathlib.Core.Option.{Option, none, some}
use mathlib.Core.Path.{◌≡◌, refl, ◌∙◌, sym, ap}
use native.Mathlib.Omega.{arith}
use muthur.Prelude.Tests.{ltb, leb, ◌==◌, if◌then◌else◌, Bool-cases}
use muthur.Prelude.Strings.{Text}

-- `negsuc n` is -(n + 1).
pub data ℤ : Type 0 where
  pos : ℕ → ℤ
  negsuc : ℕ → ℤ

abbrev pub pos_part : ℤ → ℕ
pos_part (pos n) = n
pos_part (negsuc n) = 0

abbrev pub neg_part : ℤ → ℕ
neg_part (pos n) = 0
neg_part (negsuc n) = suc n

abbrev pub ltb_ℤ : ℤ → ℤ → Bool
ltb_ℤ a b = ltb (pos_part a + neg_part b) (pos_part b + neg_part a)

-- The digit loop of `strconv.FormatUint`. Every round divides by ten, so `n + 1` rounds do.
unfoldable pub itoa_loop : ℕ → ℕ → Text → Text
itoa_loop zero n acc = acc
itoa_loop (suc f) n acc =
    let rest = itoa_loop f (n / 10) ((b'0' + n % 10) ∷ acc) in
    if ltb n 10 then (b'0' + n) ∷ acc else rest

-- `%d` of a natural number.
unfoldable pub itoa : ℕ → Text
unfolding itoa_loop
itoa n = itoa_loop (suc n) n []

-- `%d` of an int64.
unfoldable pub format_int : ℤ → Text
unfolding itoa
format_int (pos n) = itoa n
format_int (negsuc n) = b'-' ∷ itoa (suc n)

abbrev pub is_digit : ℕ → Bool
is_digit c = leb b'0' c && leb c b'9'

unfoldable pub digits_value : ℕ → Text → Option ℕ
digits_value acc [] = some acc
digits_value acc (c ∷ s) = if is_digit c then digits_value (acc * 10 + (c - b'0')) s else none

-- The value of a digit string that may not be empty.
unfoldable pub atoi : Text → Option ℕ
unfolding digits_value
atoi [] = none
atoi (c ∷ s) = digits_value 0 (c ∷ s)

abbrev pub in_pos : Option ℕ → Option ℤ
in_pos none = none
in_pos (some n) = if ltb n (2 ^ 63) then some (pos n) else none

abbrev pub in_neg : Option ℕ → Option ℤ
in_neg none = none
in_neg (some zero) = some (pos 0)
in_neg (some (suc n)) = if ltb n (2 ^ 63) then some (negsuc n) else none

-- `strconv.ParseInt(s, 10, 64)`: a sign, digits, and the range of an int64.
unfoldable pub parse_int : Text → Option ℤ
unfolding atoi
parse_int [] = none
parse_int (c ∷ s) =
    if c == b'-'
    then in_neg (atoi s)
    else if c == b'+'
    then in_pos (atoi s)
    else in_pos (atoi (c ∷ s))

pub digits_value-itoa_loop :
    (f n : ℕ) (acc : Text) → n < f → digits_value 0 (itoa_loop f n acc) ≡ digits_value n acc
unfolding digits_value itoa_loop
digits_value-itoa_loop zero n acc h = elim h [ ]
digits_value-itoa_loop (suc f) n acc h = elim (Bool-cases (ltb n 10)) [
  | inl small ↦ rw small (ground arith)
  | inr big ↦
      rw big
        (digits_value-itoa_loop f (n / 10) ((b'0' + n % 10) ∷ acc) (ground arith) ∙ (ground arith))
]

-- The first character printed is a digit.
itoa_loop_head :
    (f n : ℕ) (acc : Text)
    → n < f
    → (c : ℕ) × (s : Text) × (itoa_loop f n acc ≡ c ∷ s) × (is_digit c ≡ true)
unfolding itoa_loop
itoa_loop_head zero n acc h = elim h [ ]
itoa_loop_head (suc f) n acc h = elim (Bool-cases (ltb n 10)) [
  | inl small ↦ (b'0' + n, acc, rw small, ground arith)
  | inr big ↦
      let (c, s, e, d) = itoa_loop_head f (n / 10) ((b'0' + n % 10) ∷ acc) (ground arith) in
      (c, s, rw big e, d)
]

atoi-of_cons : (n c : ℕ) (s : Text) → itoa n ≡ c ∷ s → atoi (c ∷ s) ≡ some n
unfolding atoi itoa
atoi-of_cons n c s e =
    ap (digits_value 0) (sym e)
    ∙ digits_value-itoa_loop (suc n) n [] (omega arith)
    ∙ (unfold digits_value in refl)

-- The int64 range.
abbrev pub InInt64 : ℤ → Type 0
InInt64 z = (pos_part z < 2 ^ 63) × (neg_part z ≤ 2 ^ 63)

-- `ParseInt` reads back what `%d` prints of an int64.
pub parse_int-format_int : (z : ℤ) → InInt64 z → parse_int (format_int z) ≡ some z
unfolding parse_int format_int itoa
parse_int-format_int (pos n) h =
    let (c, s, e, d) = itoa_loop_head (suc n) n [] (omega arith) in
    rw e (ground (arith, atoi-of_cons n c s e))
parse_int-format_int (negsuc n) h =
    let (c, s, e, d) = itoa_loop_head (suc (suc n)) (suc n) [] (omega arith) in
    rw e (ground (arith, atoi-of_cons (suc n) c s e))

pub format_int-injective : (y z : ℤ) → InInt64 y → InInt64 z → format_int y ≡ format_int z → y ≡ z
format_int-injective y z hy hz e =
    cc (parse_int-format_int y hy, parse_int-format_int z hz, ap parse_int e)
