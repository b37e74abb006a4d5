-- ===== src/Silence/Guards.antt =====
-- Which alerts can be silenced at all.
use muthur.Prelude.{
  ℕ, Text, codes, List, [], ◌∷◌, true, false, Option, none, some, ok, ◌≡◌, ◌⊎◌, inl, inr, refl, sym,
  arith, equal_fold, text_eq, text_eq_iff, Bool-cases, In,
}
use muthur.Alert.{AlertPayload}
use muthur.Silence.{Client, SilenceRequest, listed, off_list, send, create_silence}

-- The name is on the list, if there is one.
abbrev pub Allows : Option (List Text) → Text → Type 0
Allows none name = Unit
Allows (some l) name = In name l

-- The silences are on, the alert is not critical in any spelling, and its name is allowed.
pub record IsPermitted (c : Client) (p : AlertPayload) : Type 0 where
  pub enabled : c.enabled ≡ true
  pub not_critical : equal_fold p.severity (codes "critical") ≡ false
  pub allowed : Allows c.allowed p.alert_name

In-of_listed : (name : Text) (l : List Text) → listed name l ≡ true → In name l
unfolding listed
In-of_listed name [] h = cc
In-of_listed name (a ∷ l) h = elim (Bool-cases (text_eq a name)) [
  | inl same ↦ inl (sym ((text_eq_iff a name).0 same))
  | inr other ↦ inr (In-of_listed name l (ground arith))
]

listed_of_In : (name : Text) (l : List Text) → In name l → listed name l ≡ true
unfolding listed
listed_of_In name [] h = elim h [ ]
listed_of_In name (a ∷ l) (inl e) = ground (arith, (text_eq_iff a name).1 (sym e))
listed_of_In name (a ∷ l) (inr h) = ground (arith, listed_of_In name l h)

Allows-of_off_list :
    (o : Option (List Text)) (name : Text) → off_list o name ≡ false → Allows o name
Allows-of_off_list none name h = tt
Allows-of_off_list (some l) name h = In-of_listed name l (ground arith)

off_list_of_Allows :
    (o : Option (List Text)) (name : Text) → Allows o name → off_list o name ≡ false
off_list_of_Allows none name h = refl
off_list_of_Allows (some l) name h = ground (arith, listed_of_In name l h)

module _ {W : Type 0} (rfc3339 : ℕ → Text) (post : Text → SilenceRequest → W → Option ℕ × W) where
  -- CreateSilence either meets a permitted alert and makes the one API call, or an alert that is
  -- not permitted and reports success without any call.
  pub create_silence-cases :
      (now : ℕ) (c : Client) (p : AlertPayload) (reason : Text) (w : W)
      → (IsPermitted c p
          × (create_silence rfc3339 post now c p reason w ≡ send rfc3339 post now c p reason w))
        ⊎ ((¬ IsPermitted c p) × (create_silence rfc3339 post now c p reason w ≡ (ok tt, w)))
  unfolding create_silence
  create_silence-cases now c p reason w = elim (Bool-cases c.enabled) [
    | inr off ↦ inr (λ i. cc (i.enabled), rw off refl)
    | inl on ↦ elim (Bool-cases (equal_fold p.severity (codes "critical"))) [
      | inl critical ↦ inr (λ i. cc (i.not_critical), rw (on, critical) refl)
      | inr milder ↦ elim (Bool-cases (off_list c.allowed p.alert_name)) [
        | inl off ↦ inr (
          λ i. cc (off_list_of_Allows c.allowed p.alert_name i.allowed),
          rw (on, milder, off) refl,
        )
        | inr listed' ↦ inl (
          record {
            enabled = on;
            not_critical = milder;
            allowed = Allows-of_off_list c.allowed p.alert_name listed';
          },
          rw (on, milder, listed') refl,
        )
      ]
    ]
  ]
