-- ===== src/Evaluator/Loop.antt =====
-- What an analysis that is returned satisfies, and what the provider is asked.
use muthur.Prelude.{
  ℕ, zero, suc, Text, List, [], ◌∷◌, Bool, true, false, Result, ok, err, ◌>>◌, >>=-eq-ok, text_eq,
  text_eq_iff, is_empty, trim_space, ◌≡◌, ◌≢◌, refl, sym, ap, ◌∙◌, arith, In, Result-cases,
  Bool-cases, inl, inr, guard, not,
}
use muthur.Evaluator.{
  Analysis, Prompt, RunError, call_failed, degraded, severity_enum, confidence_enum, grounding_enum,
  in_enum, validate_analysis, decode_and_validate, validated, corrected, checked, attempt, run_from,
  run,
}

-- The contract on an analysis.
pub record IsCanonical (a : Analysis) : Type 0 where
  pub severity : In a.severity severity_enum
  pub root_cause : trim_space a.root_cause ≢ []
  pub evidence : trim_space a.evidence ≢ []
  pub action : trim_space a.action ≢ []
  pub confidence : In a.confidence confidence_enum
  pub grounding : In a.grounding grounding_enum

In-of_in_enum : (l : List Text) (v : Text) → in_enum l v ≡ true → In v l
unfolding in_enum
In-of_in_enum [] v h = cc
In-of_in_enum (a ∷ l) v h = elim (Bool-cases (text_eq a v)) [
  | inl same ↦ inl (sym ((text_eq_iff a v).0 same))
  | inr other ↦ inr (In-of_in_enum l v (ground arith))
]

filled : (t : Text) → not (is_empty t) ≡ true → t ≢ []
filled [] h = cc
filled (c ∷ t) h = λ e. cc

guard-then :
    {E : Type 0} {u : Unit {0}} (b : Bool) (e : E) (r : Result E (Unit {0}))
    → (guard b e >> r) ≡ ok u
    → (b ≡ true) × (r ≡ ok u)
guard-then true e r h = (refl, h)
guard-then false e r h = cc

ok-injective : {E : Type 0} {a b : Analysis} (r : Result E Analysis) → ok b ≡ r → r ≡ ok a → b ≡ a
ok-injective r e h = cc

validate_analysis-IsCanonical :
    (quote : Text → Text) (a : Analysis) {u : Unit {0}}
    → validate_analysis quote a ≡ ok u
    → IsCanonical a
unfolding validate_analysis
validate_analysis-IsCanonical quote a h =
    let h1 = guard-then _ _ _ h in
    let h2 = guard-then _ _ _ h1.1 in
    let h3 = guard-then _ _ _ h2.1 in
    let h4 = guard-then _ _ _ h3.1 in
    let h5 = guard-then _ _ _ h4.1 in
    record {
      severity = In-of_in_enum severity_enum a.severity h1.0;
      root_cause = filled (trim_space a.root_cause) h2.0;
      evidence = filled (trim_space a.evidence) h3.0;
      action = filled (trim_space a.action) h4.0;
      confidence = In-of_in_enum confidence_enum a.confidence h5.0;
      grounding = In-of_in_enum grounding_enum a.grounding (guard-last _ _ h5.1);
    }
  where
    guard-last : {E : Type 0} {u : Unit {0}} (b : Bool) (e : E) → guard b e ≡ ok u → b ≡ true
    guard-last true e h = refl
    guard-last false e h = cc

module _ {P Raw : Type 0} (quote : Text → Text) (unmarshal : Raw → Result Text Analysis)
    (complete : Prompt → P → Result Text Raw × P) where
  -- What holds of each way an attempt can end holds of the attempt.
  pub attempt-ind :
      (Q : Result RunError Analysis × P → Type 0) (after : Text → P → Result RunError Analysis × P)
      (r : Result Text Raw) (p : P)
      → ((e : Text) → Q (err (call_failed e), p))
      → ((raw : Raw) (a : Analysis) → decode_and_validate quote unmarshal raw ≡ ok a → Q (ok a, p))
      → ((e : Text) → Q (after e p))
      → Q (attempt quote unmarshal complete after (r, p))
  attempt-ind Q after (err e) p failed done again = failed e
  attempt-ind Q after (ok raw) p failed done again =
      elim (Result-cases (decode_and_validate quote unmarshal raw)) [
        | inl (a, valid) ↦ rw (valid, checked) (done raw a valid)
        | inr (e, invalid) ↦ rw (invalid, checked) (again e)
      ]

  decoded-IsCanonical :
      (raw : Raw) (a : Analysis) → decode_and_validate quote unmarshal raw ≡ ok a → IsCanonical a
  unfolding decode_and_validate
  decoded-IsCanonical raw a h = elim (Result-cases (unmarshal raw)) [
    | inl (b, decoded) ↦
        let valid : (validate_analysis quote b >> ok b) ≡ ok a =
          sym (ap (validated quote unmarshal) decoded) ∙ h in
        let (u, passed, same) = >>=-eq-ok _ _ valid in
        let e : b ≡ a = ok-injective (ok b) refl same in
        rw⁻¹ e (validate_analysis-IsCanonical quote b passed)
    | inr (e, bad) ↦ absurd (cc)
  ]

  run_from-IsCanonical :
      (n : ℕ) (first q : Prompt) (p : P) (a : Analysis)
      → (run_from quote unmarshal complete n first q p).0 ≡ ok a
      → IsCanonical a
  unfolding run_from
  run_from-IsCanonical zero first q p a =
      attempt-ind (λ o. o.0 ≡ ok a → IsCanonical a) (λ e p'. (err (degraded e), p'))
        (complete q p).0 (complete q p).1 (λ e h. absurd (cc))
        (λ raw b valid h. decoded-IsCanonical raw a (valid ∙ ap ok (ok-injective (ok b) refl h)))
        (λ e h. absurd (cc))
  run_from-IsCanonical (suc n) first q p a =
      attempt-ind (λ o. o.0 ≡ ok a → IsCanonical a)
        (λ e p'. run_from quote unmarshal complete n first (corrected first e) p') (complete q p).0
        (complete q p).1 (λ e h. absurd (cc))
        (λ raw b valid h. decoded-IsCanonical raw a (valid ∙ ap ok (ok-injective (ok b) refl h)))
        (λ e h. run_from-IsCanonical n first (corrected first e) (complete q p).1 a h)

  -- Whatever the provider sends, an analysis that the retry loop returns satisfies the whole
  -- contract: severity, confidence and grounding in their enumerations, and root cause, evidence
  -- and action not blank.
  pub run-IsCanonical :
      (max_retries : ℕ) (first : Prompt) (p : P) (a : Analysis)
      → (run quote unmarshal complete max_retries first p).0 ≡ ok a
      → IsCanonical a
  unfolding run
  run-IsCanonical max_retries first p a h = run_from-IsCanonical max_retries first first p a h
