-- ===== src/Evaluator/OpenAi/Choice.antt =====
-- internal/evaluator/analyzer.go: `New` chooses the provider. The Anthropic provider is what it is made of; an
-- OpenAI-compatible one is probed before it is used.
use muthur.Prelude.{
  All, ◌++◌, false, ℕ, Text, codes, Bool, Option, none, some, Result, ok, err, ◌>>=◌, ◌>>◌, guard,
  is_empty, text_eq, not, ◌||◌, if◌then◌else◌, ◌≡◌, ℤ, pos, negsuc,
}
use muthur.Evaluator.{AuditMode, parse_audit_mode}
use muthur.Evaluator.OpenAi.{
  OpenAi, parse_schema_mode, new_openai_provider, preflight, ChatRequest, ChatResponse,
}

-- `Config`, without the timeout and the temperature.
pub record Config : Type 0 where
  pub provider : Text
  pub api_key : Text
  pub base_url : Text
  pub model : Text
  pub max_retries : ℤ
  pub schema_mode : Text
  pub audit_mode : Text
  pub air_gapped : Bool

-- `anthropicProvider`, as far as `New` sets it.
pub record Anthropic : Type 0 where
  pub api_key : Text
  pub model : Text

pub data Provider : Type 0 where
  anthropic : Anthropic → Provider
  openai : OpenAi → Provider

pub record Evaluator : Type 0 where
  pub provider : Provider
  pub max_retries : ℕ
  pub audit_mode : AuditMode

pub data ConfigError : Type 0 where
  air_gapped_cloud : ConfigError
  missing_api_key : ConfigError
  missing_base_url : ConfigError
  missing_model : ConfigError
  unknown_schema_mode : ConfigError
  unknown_provider : ConfigError

abbrev pub default_anthropic_model : Text
default_anthropic_model = codes "claude-opus-4-5"

-- A negative number of retries is none.
abbrev pub at_least_zero : ℤ → ℕ
at_least_zero (pos n) = n
at_least_zero (negsuc n) = 0

unfoldable pub new_anthropic : Config → Result ConfigError Provider
new_anthropic cfg =
    guard (not cfg.air_gapped) air_gapped_cloud
    >> (guard (not (is_empty cfg.api_key)) missing_api_key
        >> ok (
            anthropic (record {
              api_key = cfg.api_key;
              model = if is_empty cfg.model then default_anthropic_model else cfg.model;
            })))

abbrev or_error : {A : Type 0} → ConfigError → Option A → Result ConfigError A
or_error e none = err e
or_error e (some a) = ok a

-- The checks before an OpenAI-compatible provider is made.
unfoldable pub check_openai : Config → Result ConfigError OpenAi
unfolding parse_schema_mode new_openai_provider
check_openai cfg =
    guard (not (is_empty cfg.base_url)) missing_base_url
    >> (guard (not (is_empty cfg.model)) missing_model
        >> (or_error unknown_schema_mode (parse_schema_mode cfg.schema_mode) >>= λ mode.
            ok (new_openai_provider cfg.base_url cfg.api_key cfg.model mode)))

abbrev evaluator : Config → Provider → Evaluator
evaluator cfg p = record {
  provider = p;
  max_retries = at_least_zero cfg.max_retries;
  audit_mode = parse_audit_mode cfg.audit_mode;
}

module _ {W : Type 0} (decode : Text → Result Text ChatResponse)
    (send : ChatRequest → W → Result Text (ℕ × Text) × W) where
  abbrev probed : Config → W → Result ConfigError OpenAi → Result ConfigError Evaluator × W
  probed cfg w (err e) = (err e, w)
  probed cfg w (ok p) =
      let (p', w') = preflight decode send p w in (ok (evaluator cfg (openai p')), w')

  -- `New`
  unfoldable pub new : Config → W → Result ConfigError Evaluator × W
  unfolding text_eq new_anthropic check_openai preflight parse_audit_mode
  new cfg w =
      if is_empty cfg.provider || text_eq cfg.provider (codes "anthropic")
      then (new_anthropic cfg >>= λ p. ok (evaluator cfg p), w)
      else if text_eq cfg.provider (codes "openai-compatible")
      then probed cfg w (check_openai cfg)
      else (err unknown_provider, w)

-- An address of the operator's without the slashes at its end.
pub record Trimmed (given used : Text) : Type 0 where
  pub slashes : Text
  pub only : All (λ c. c ≡ b'/') slashes
  pub whole : given ≡ used ++ slashes

-- A provider that talks to the endpoint that is configured, and no other.
abbrev pub IsLocal : Config → Provider → Type 0
IsLocal cfg (anthropic a) = ⊥
IsLocal cfg (openai p) = (is_empty cfg.base_url ≡ false) × Trimmed cfg.base_url p.base_url
