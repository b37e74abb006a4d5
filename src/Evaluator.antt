-- ===== src/Evaluator.antt =====
-- internal/evaluator: types.go, schema.go and the validate-retry-degrade loop of analyzer.go. The
-- provider's `complete`, the JSON decoder and the quoting of `%q` are parameters; prompts arrive
-- built. Metrics, logs and the audit records are not modelled.
pub mod Loop
pub mod Prompts
pub mod OpenAi
use muthur.Prelude.{
  ℕ, zero, suc, Text, codes, List, [], ◌∷◌, ◌++◌, Bool, true, false, Result, ok, err, ◌>>◌, guard,
  text_eq, is_empty, not, ◌||◌, trim_space, to_lower, if◌then◌else◌,
}

pub record Analysis : Type 0 where
  pub severity : Text
  pub root_cause : Text
  pub evidence : Text
  pub action : Text
  pub confidence : Text
  pub grounding : Text
  pub silence : Bool
  pub silence_reason : Text

pub record Prompt : Type 0 where
  pub system : Text
  pub user : Text

-- `fmt.Errorf("%s call failed: %w", ...)` and `ErrDegraded`.
pub data RunError : Type 0 where
  call_failed : Text → RunError
  degraded : Text → RunError

abbrev pub severity_enum : List Text
severity_enum = codes "critical" ∷ (codes "warning" ∷ (codes "info" ∷ []))

abbrev pub confidence_enum : List Text
confidence_enum = codes "high" ∷ (codes "medium" ∷ (codes "low" ∷ []))

abbrev pub grounding_enum : List Text
grounding_enum = codes "stated" ∷ (codes "inferred" ∷ [])

unfoldable pub in_enum : List Text → Text → Bool
in_enum [] v = false
in_enum (a ∷ allowed) v = text_eq a v || in_enum allowed v

-- `%v` of a slice of strings.
abbrev spaced : List Text → Text
spaced [] = []
spaced (a ∷ []) = a
spaced (a ∷ (b ∷ l)) = a ++ (codes " " ++ spaced (b ∷ l))

abbrev pub show_enum : List Text → Text
show_enum l = codes "[" ++ (spaced l ++ codes "]")

-- `AuditMode`
pub data AuditMode : Type 0 where
  audit_off : AuditMode
  audit_hash : AuditMode
  audit_full : AuditMode

unfoldable pub parse_audit_mode : Text → AuditMode
parse_audit_mode s =
    if text_eq (to_lower (trim_space s)) (codes "hash")
    then audit_hash
    else if text_eq (to_lower (trim_space s)) (codes "full")
    then audit_full
    else audit_off

module _ (quote : Text → Text) where
  abbrev pub out_of_enum : Text → Text → List Text → Text
  out_of_enum field v allowed =
      field ++ (codes " " ++ (quote v ++ (codes " not one of " ++ show_enum allowed)))

  -- `validateAnalysis`
  unfoldable pub validate_analysis : Analysis → Result Text (Unit {0})
  validate_analysis a =
      guard (in_enum severity_enum a.severity)
        (out_of_enum (codes "severity") a.severity severity_enum)
      >> (guard (not (is_empty (trim_space a.root_cause))) (codes "root_cause is required")
          >> (guard (not (is_empty (trim_space a.evidence))) (codes "evidence is required")
              >> (guard (not (is_empty (trim_space a.action))) (codes "action is required")
                  >> (guard (in_enum confidence_enum a.confidence)
                        (out_of_enum (codes "confidence") a.confidence confidence_enum)
                      >> guard (in_enum grounding_enum a.grounding)
                          (out_of_enum (codes "grounding") a.grounding grounding_enum)))))

-- `correctiveSuffix`
unfoldable pub corrective_suffix : Text → Text
corrective_suffix e =
    (10 ∷ (10 ∷ []))
    ++ (codes "=== Correction required ==="
        ++ ((10 ∷ [])
            ++ (codes "Your previous response was invalid: "
                ++ (e
                    ++ (codes "."
                        ++ ((10 ∷ [])
                            ++ (codes
                                  "Respond again with a complete, schema-valid analysis. Include every required field "
                                ++ (codes
                                      "(severity, root_cause, evidence, action, confidence, grounding, silence) and use only the allowed "
                                    ++ (codes "enum values: severity one of "
                                        ++ (show_enum severity_enum
                                            ++ (codes ", confidence one of "
                                                ++ (show_enum confidence_enum
                                                    ++ (codes ", grounding one of "
                                                        ++ (show_enum grounding_enum
                                                            ++ codes "."))))))))))))))

-- The retry's prompt: the correction goes to the user half of the first one.
abbrev pub corrected : Prompt → Text → Prompt
corrected prompt e = record prompt { user = prompt.user ++ corrective_suffix e }

module _ {Raw : Type 0} (quote : Text → Text) (unmarshal : Raw → Result Text Analysis) where
  abbrev pub validated : Result Text Analysis → Result Text Analysis
  validated (err e) = err (codes "decode analysis: " ++ e)
  validated (ok a) = validate_analysis quote a >> ok a

  -- `decodeAndValidate`
  unfoldable pub decode_and_validate : Raw → Result Text Analysis
  decode_and_validate raw = validated (unmarshal raw)

  module _ {P : Type 0} (complete : Prompt → P → Result Text Raw × P) where
    -- One attempt: an output that does not validate is left to `after`.
    abbrev pub checked :
        (Text → P → Result RunError Analysis × P)
        → Result Text Analysis
        → P
        → Result RunError Analysis × P
    checked after (ok a) p = (ok a, p)
    checked after (err e) p = after e p

    abbrev pub attempt :
        (Text → P → Result RunError Analysis × P)
        → Result Text Raw × P
        → Result RunError Analysis × P
    attempt after (err e, p) = (err (call_failed e), p)
    attempt after (ok raw, p) = checked after (decode_and_validate raw) p

    -- The loop of `run`, with the retries that are left.
    unfoldable pub run_from : ℕ → Prompt → Prompt → P → Result RunError Analysis × P
    run_from zero prompt instruction p =
        attempt (λ e q. (err (degraded e), q)) (complete instruction p)
    run_from (suc n) prompt instruction p =
        attempt (λ e q. run_from n prompt (corrected prompt e) q) (complete instruction p)

    -- `run`, with `maxRetries`.
    unfoldable pub run : ℕ → Prompt → P → Result RunError Analysis × P
    run max_retries prompt p = run_from max_retries prompt prompt p
