-- ===== src/Config.antt =====
-- internal/config/config.go: the settings that are read from the environment, their defaults and their validation. The
-- environment is a function that gives an empty text for a variable that is not set; files, durations, floating point
-- and `strconv` are parameters.
pub mod Load
pub mod Modes
pub mod Provider
pub mod Valid
use muthur.Prelude.{
  ℕ, ◌*◌, ◌^◌, Text, codes, List, [], ◌∷◌, ◌++◌, Bool, true, false, Option, none, some, Result, ok,
  err, ◌>>=◌, ◌>>◌, guard, ℤ, pos, negsuc, text_eq, is_empty, trim_space, to_lower, reverse, not,
  ◌||◌, ◌&&◌, ◌==◌, if◌then◌else◌, ltb_ℤ,
}
use muthur.Auth.HttpSig.{split}
use muthur.Auth.Replay.{second}

-- What `Load` answers with an error.
pub data LoadError : Type 0 where
  unknown_auth_mode : Text → LoadError
  no_auth_mode : LoadError
  read_api_key : LoadError
  api_key_required : LoadError
  base_url_required : LoadError
  model_required : LoadError
  unknown_provider : Text → LoadError
  trust_root_required : LoadError
  intermediate_required : LoadError
  server_cert_required : LoadError
  hpke_key_required : LoadError

-- What the code calls of os, strconv and time. `atoi` gives a value also where it fails.
pub record Lib (Float : Type 0) : Type 0 where
  pub read_file : Text → Option Text
  pub atoi : Text → ℤ × Bool
  pub parse_bool : Text → Option Bool
  pub parse_float : Text → Option Float
  pub parse_duration : Text → Option ℤ
  -- 0.95 and 0
  pub default_threshold : Float
  pub zero : Float

pub record Config (Float : Type 0) : Type 0 where
  pub port : Text
  pub public_port : Text
  pub log_level : Text
  pub tls_server_cert_file : Text
  pub tls_server_key_file : Text
  pub tls_trust_root_file : Text
  pub auth_modes : List Text
  pub signed_port : Text
  pub hpke_key_file : Text
  pub intermediate_ca_file : Text
  pub intermediate_key_file : Text
  pub replay_window : ℤ
  pub tenants_reload_interval : ℤ
  pub llm_provider : Text
  pub llm_model : Text
  pub llm_base_url : Text
  pub llm_api_key : Text
  pub llm_schema_mode : Text
  pub llm_temperature : Float
  pub llm_max_retries : ℤ
  pub llm_audit_mode : Text
  pub llm_air_gapped : Bool
  pub llm_timeout : ℤ
  pub llm_max_calls_per_minute : ℤ
  pub llm_burst : ℤ
  pub llm_max_concurrent : ℤ
  pub alert_manager_url : Text
  pub silence_on : Bool
  pub silence_duration : ℤ
  pub silence_allow : List Text
  pub dedup_window_minutes : ℤ
  pub llm_cache_enabled : Bool
  pub llm_cache_ttl_minutes : ℤ
  pub config_file : Text
  pub redis_url : Text
  pub redis_prefix : Text
  pub semantic_cache_enabled : Bool
  pub semantic_threshold : Float
  pub embed_dim : ℤ
  pub correlation_enabled : Bool
  pub correlation_window_seconds : ℤ
  pub correlation_max_group : ℤ
  pub public_url : Text
  pub feedback_few_shot : ℤ
  pub incident_history_enabled : Bool
  pub incident_ttl : ℤ
  pub evidence_enabled : Bool
  pub evidence_log_lines : ℤ

abbrev pub auth_mode_mtls : Text
auth_mode_mtls = codes "mtls"

abbrev pub auth_mode_signed : Text
auth_mode_signed = codes "signed"

-- `AuthModeEnabled`, on the modes.
unfoldable pub auth_mode_enabled : Text → List Text → Bool
unfolding text_eq
auth_mode_enabled mode [] = false
auth_mode_enabled mode (m ∷ modes) = text_eq m mode || auth_mode_enabled mode modes

abbrev pub cons_mode : Text → Result LoadError (List Text) → Result LoadError (List Text)
cons_mode m (err e) = err e
cons_mode m (ok modes) = ok (m ∷ modes)

-- The loop of `parseAuthModes`.
unfoldable pub parse_modes : List Text → Result LoadError (List Text)
unfolding text_eq to_lower trim_space
parse_modes [] = ok []
parse_modes (raw ∷ raws) =
    let m = to_lower (trim_space raw) in
    let rest = parse_modes raws in
    if is_empty m
    then rest
    else if text_eq m auth_mode_mtls || text_eq m auth_mode_signed
    then cons_mode m rest
    else err (unknown_auth_mode m)

abbrev pub some_mode : List Text → Result LoadError (List Text)
some_mode [] = err no_auth_mode
some_mode (m ∷ modes) = ok (m ∷ modes)

-- `parseAuthModes`
unfoldable pub parse_auth_modes : Text → Result LoadError (List Text)
unfolding parse_modes split
parse_auth_modes raw = parse_modes (split b',' raw) >>= some_mode

-- The names of the allowlist.
unfoldable pub allowlist : List Text → List Text
unfolding trim_space
allowlist [] = []
allowlist (raw ∷ raws) =
    let rest = allowlist raws in if is_empty (trim_space raw) then rest else trim_space raw ∷ rest

abbrev pub is_blank : ℕ → Bool
is_blank c = (c == 32) || (c == 9) || (c == 13) || (c == 10)

-- `strings.TrimRight(s, " \t\r\n")`, on the reversed text.
unfoldable pub drop_blanks : Text → Text
drop_blanks [] = []
drop_blanks (c ∷ s) = if is_blank c then drop_blanks s else c ∷ s

abbrev pub duration : ℕ → ℤ
duration seconds = pos (seconds * second)

abbrev pub or_default : {A : Type 0} → A → Option A → A
or_default d none = d
or_default d (some a) = a

abbrev pub trimmed_file : Option Text → Result LoadError Text
trimmed_file none = err read_api_key
trimmed_file (some raw) = ok (reverse (drop_blanks (reverse raw)))

abbrev pub retries_of : ℤ × Bool → ℤ
retries_of (n, failed) = if failed || ltb_ℤ n (pos 0) then pos 1 else n

abbrev pub interval_of : Option ℤ → ℤ
interval_of none = duration 5
interval_of (some d) = if ltb_ℤ (pos 0) d then d else duration 5

module _ (getenv : Text → Text) where
  -- `envOr`
  unfoldable pub env_or : Text → Text → Text
  env_or key fallback = if is_empty (getenv key) then fallback else getenv key

  abbrev pub provider_name : Text
  provider_name = to_lower (env_or (codes "LLM_PROVIDER") (codes "anthropic"))

  -- The model: the legacy variable counts for the Anthropic provider only.
  unfoldable pub model_name : Text
  unfolding env_or to_lower text_eq
  model_name =
      if is_empty (getenv (codes "LLM_MODEL"))
        && (text_eq provider_name (codes "anthropic") || is_empty provider_name)
      then env_or (codes "ANTHROPIC_MODEL") (codes "claude-opus-4-5")
      else getenv (codes "LLM_MODEL")

  module _ {Float : Type 0} (lib : Lib Float) where
    -- `boolEnv`
    unfoldable pub bool_env : Text → Bool → Bool
    bool_env key fallback =
        if is_empty (getenv key)
        then fallback
        else or_default fallback (lib.parse_bool (getenv key))

    -- `strconv.ParseBool(envOr(...))`, whose error is dropped: false then.
    abbrev pub flag : Text → Text → Bool
    flag key fallback = or_default false (lib.parse_bool (env_or key fallback))

    abbrev pub number : Text → Text → ℤ
    number key fallback = (lib.atoi (env_or key fallback)).0

    abbrev pub duration_or : Text → Text → ℤ → ℤ
    duration_or key fallback d = or_default d (lib.parse_duration (env_or key fallback))

    -- `resolveAPIKey`
    unfoldable pub resolve_api_key : Result LoadError Text
    unfolding drop_blanks
    resolve_api_key =
        if is_empty (getenv (codes "LLM_API_KEY_FILE"))
        then ok (getenv (codes "ANTHROPIC_API_KEY"))
        else trimmed_file (lib.read_file (getenv (codes "LLM_API_KEY_FILE")))
