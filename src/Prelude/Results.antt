-- ===== src/Prelude/Results.antt =====
-- A value or an error: Go's `(T, error)`.
use mathlib.Core.Bool.{Bool, true, false}
use mathlib.Core.Logic.{◌⊎◌, inl, inr}
use mathlib.Core.Path.{◌≡◌, refl}

pub data Result (E A : Type 0) : Type 0 where
  ok : A → Result E A
  err : E → Result E A

-- `if !pass { return problem }`
abbrev pub guard : {E : Type 0} → Bool → E → Result E (Unit {0})
guard false problem = err problem
guard true problem = ok tt

module _ {E A B : Type 0} where
  infixl 5 ◌>>=◌
  abbrev pub ◌>>=◌ : Result E A → (A → Result E B) → Result E B
  err problem >>= next = err problem
  ok value >>= next = next value

  -- A chain that succeeds succeeded in its first step.
  pub >>=-eq-ok :
      (first : Result E A) (next : A → Result E B) {last : B}
      → (first >>= next) ≡ ok last
      → (value : A) × (first ≡ ok value) × (next value ≡ ok last)
  >>=-eq-ok (err problem) next e = cc
  >>=-eq-ok (ok value) next e = (value, refl, e)

infixl 5 ◌>>◌
abbrev pub ◌>>◌ : {E B : Type 0} → Result E (Unit {0}) → Result E B → Result E B
first >> rest = first >>= λ done. rest

pub Result-cases :
    {E A : Type 0} (r : Result E A) → ((a : A) × (r ≡ ok a)) ⊎ ((e : E) × (r ≡ err e))
Result-cases (ok a) = inl (a, refl)
Result-cases (err e) = inr (e, refl)

pub ok-injective : {E A : Type 0} (a b : A) → Path (Result E A) (ok a) (ok b) → a ≡ b
ok-injective a b e = cc

-- A guard that lets through.
pub guard-true :
    {E : Type 0} (b : Bool) (problem : E) (u : Unit {0}) → guard b problem ≡ ok u → b ≡ true
guard-true true problem u e = refl
guard-true false problem u e = cc
