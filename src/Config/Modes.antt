-- ===== src/Config/Modes.antt =====
-- internal/config/config.go: `parseAuthModes` leaves no configuration without a mode.
use muthur.Prelude.{
  Text, List, [], ◌∷◌, Bool, true, false, Result, ok, err, ok-injective, text_eq, to_lower,
  trim_space, is_empty, ◌||◌, ◌≡◌, refl, subst, Bool-cases, ◌⊎◌, inl, inr, >>=-eq-ok,
}
use muthur.Config.{
  LoadError, auth_mode_mtls, auth_mode_signed, auth_mode_enabled, parse_auth_modes, parse_modes,
  some_mode, cons_mode,
}
use muthur.Auth.HttpSig.{split}

-- At least one mode is enabled.
abbrev pub IsServed : List Text → Type 0
IsServed modes =
    (auth_mode_enabled auth_mode_mtls modes ≡ true)
    ⊎ (auth_mode_enabled auth_mode_signed modes ≡ true)

pub err≢ok : {E A : Type 0} {x : E} {a : A} → Path (Result E A) (err x) (ok a) → ⊥
err≢ok h = cc

-- The mode that leads the list is one of the two.
cons_mode-head :
    (m : Text) (rest : Result LoadError (List Text)) (n : Text) (modes : List Text)
    → cons_mode m rest ≡ ok (n ∷ modes)
    → m ≡ n
cons_mode-head m (err e) n modes h = cc
cons_mode-head m (ok ms) n modes h = cc

parse_modes-head :
    (raws : List Text) (m : Text) (modes : List Text)
    → parse_modes raws ≡ ok (m ∷ modes)
    → (text_eq m auth_mode_mtls || text_eq m auth_mode_signed) ≡ true
unfolding parse_modes
parse_modes-head [] m modes h = cc
parse_modes-head (raw ∷ raws) m modes h =
    let t = to_lower (trim_space raw) in
    elim (Bool-cases (is_empty t)) [
      | inl empty ↦ parse_modes-head raws m modes (rw empty at h)
      | inr full ↦ elim (Bool-cases (text_eq t auth_mode_mtls || text_eq t auth_mode_signed)) [
        | inl known ↦
            subst (λ v. (text_eq v auth_mode_mtls || text_eq v auth_mode_signed) ≡ true)
              (cons_mode-head t (parse_modes raws) m modes (rw (full, known) at h)) known
        | inr unknown ↦ absurd (err≢ok (rw (full, unknown) at h))
      ]
    ]

or-true : (a b : Bool) → (a || b) ≡ true → (a ≡ true) ⊎ (b ≡ true)
or-true true b h = inl refl
or-true false b h = inr h

IsServed-head :
    (m : Text) (modes : List Text)
    → (text_eq m auth_mode_mtls || text_eq m auth_mode_signed) ≡ true
    → IsServed (m ∷ modes)
unfolding auth_mode_enabled
IsServed-head m modes h = elim (or-true (text_eq m auth_mode_mtls) (text_eq m auth_mode_signed) h) [
  | inl mtls ↦ inl (rw mtls)
  | inr signed ↦ inr (rw signed)
]

some_mode-IsServed :
    (raws modes parsed : List Text)
    → parse_modes raws ≡ ok parsed
    → some_mode parsed ≡ ok modes
    → IsServed modes
some_mode-IsServed raws modes [] h e = cc
some_mode-IsServed raws modes (m ∷ ms) h e =
    subst IsServed (ok-injective _ _ e) (IsServed-head m ms (parse_modes-head raws m ms h))

pub parse_auth_modes-IsServed :
    (raw : Text) (modes : List Text) → parse_auth_modes raw ≡ ok modes → IsServed modes
unfolding parse_auth_modes
parse_auth_modes-IsServed raw modes h =
    let (parsed, e, k) = >>=-eq-ok _ _ h in some_mode-IsServed (split b',' raw) modes parsed e k
