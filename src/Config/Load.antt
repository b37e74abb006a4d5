-- ===== src/Config/Load.antt =====
-- internal/config/config.go: `Load`. The settings are read, each with its default, and then validated.
use muthur.Prelude.{
  ◌*◌, Text, codes, List, false, Result, ok, err, ◌>>=◌, ◌>>◌, guard, text_eq, is_empty, to_lower,
  not, ◌||◌, ◌&&◌, if◌then◌else◌,
}
use muthur.Auth.HttpSig.{split}
use muthur.Config.{
  LoadError, api_key_required, base_url_required, model_required, unknown_provider,
  trust_root_required, intermediate_required, server_cert_required, hpke_key_required, Lib, Config,
  auth_mode_mtls, auth_mode_signed, auth_mode_enabled, parse_auth_modes, allowlist, duration,
  or_default, env_or, bool_env, flag, number, duration_or, resolve_api_key, provider_name,
  model_name, retries_of, interval_of,
}

module _ {Float : Type 0} where
  -- The switch over the provider.
  unfoldable pub check_provider : Config Float → Result LoadError (Unit {0})
  unfolding text_eq
  check_provider cfg =
      if is_empty cfg.llm_provider || text_eq cfg.llm_provider (codes "anthropic")
      then guard (not (is_empty cfg.llm_api_key)) api_key_required
      else if text_eq cfg.llm_provider (codes "openai-compatible")
      then guard (not (is_empty cfg.llm_base_url)) base_url_required
        >> guard (not (is_empty cfg.llm_model)) model_required
      else err (unknown_provider cfg.llm_provider)

  -- The files that the modes of authentication need.
  unfoldable pub check_files : Config Float → Result LoadError (Unit {0})
  unfolding auth_mode_enabled
  check_files cfg =
      guard (not (is_empty cfg.tls_trust_root_file)) trust_root_required
      >> (guard (not (is_empty cfg.intermediate_ca_file || is_empty cfg.intermediate_key_file))
            intermediate_required
          >> (guard
                (not (
                  auth_mode_enabled auth_mode_mtls cfg.auth_modes
                  && (is_empty cfg.tls_server_cert_file || is_empty cfg.tls_server_key_file)))
                server_cert_required
              >> guard
                  (not (
                    auth_mode_enabled auth_mode_signed cfg.auth_modes
                    && is_empty cfg.hpke_key_file))
                  hpke_key_required))

  unfoldable pub validated : Config Float → Result LoadError (Config Float)
  unfolding check_provider check_files
  validated cfg = check_provider cfg >> (check_files cfg >> ok cfg)

module _ {Float : Type 0} (getenv : Text → Text) (lib : Lib Float) where
  -- The settings, before they are validated.
  unfoldable pub settings : Text → List Text → Config Float
  unfolding env_or bool_env allowlist model_name to_lower split
  settings api_key modes = record {
    port = env_or getenv (codes "PORT") (codes "8080");
    public_port = env_or getenv (codes "PUBLIC_PORT") (codes "8081");
    log_level = env_or getenv (codes "LOG_LEVEL") (codes "info");
    tls_server_cert_file = getenv (codes "TLS_SERVER_CERT_FILE");
    tls_server_key_file = getenv (codes "TLS_SERVER_KEY_FILE");
    tls_trust_root_file = getenv (codes "TLS_TRUST_ROOT_FILE");
    auth_modes = modes;
    signed_port = env_or getenv (codes "SIGNED_PORT") (codes "8082");
    hpke_key_file = getenv (codes "HPKE_KEY_FILE");
    intermediate_ca_file = getenv (codes "INTERMEDIATE_CA_FILE");
    intermediate_key_file = getenv (codes "INTERMEDIATE_KEY_FILE");
    replay_window = duration_or getenv lib (codes "AUTH_REPLAY_WINDOW") (codes "5m") (duration 300);
    tenants_reload_interval =
        interval_of
          (lib.parse_duration (env_or getenv (codes "TENANTS_RELOAD_INTERVAL") (codes "5s")));
    llm_provider = provider_name getenv;
    llm_model = model_name getenv;
    llm_base_url = getenv (codes "LLM_BASE_URL");
    llm_api_key = api_key;
    llm_schema_mode = env_or getenv (codes "LLM_SCHEMA_MODE") (codes "auto");
    llm_temperature =
        or_default lib.zero (lib.parse_float (env_or getenv (codes "LLM_TEMPERATURE") (codes "0")));
    llm_max_retries = retries_of (lib.atoi (env_or getenv (codes "LLM_MAX_RETRIES") (codes "1")));
    llm_audit_mode = to_lower (env_or getenv (codes "LLM_AUDIT_MODE") (codes "off"));
    llm_air_gapped = bool_env getenv lib (codes "LLM_AIR_GAPPED") false;
    llm_timeout = duration_or getenv lib (codes "LLM_TIMEOUT") (codes "20s") (duration 20);
    llm_max_calls_per_minute = number getenv lib (codes "LLM_MAX_CALLS_PER_MINUTE") (codes "60");
    llm_burst = number getenv lib (codes "LLM_BURST") (codes "15");
    llm_max_concurrent = number getenv lib (codes "LLM_MAX_CONCURRENT") (codes "8");
    alert_manager_url =
        env_or getenv (codes "ALERTMANAGER_URL") (codes "http://alertmanager.monitoring.svc:9093");
    silence_on = flag getenv lib (codes "ALERTMANAGER_SILENCE_ENABLED") (codes "false");
    silence_duration =
        duration_or getenv lib (codes "ALERTMANAGER_SILENCE_DURATION") (codes "2h") (duration 7200);
    silence_allow = allowlist (split b',' (getenv (codes "ALERTMANAGER_SILENCE_ALLOWLIST")));
    dedup_window_minutes = number getenv lib (codes "DEDUP_WINDOW_MINUTES") (codes "15");
    llm_cache_enabled = flag getenv lib (codes "LLM_CACHE_ENABLED") (codes "true");
    llm_cache_ttl_minutes = number getenv lib (codes "LLM_CACHE_TTL_MINUTES") (codes "30");
    config_file = env_or getenv (codes "MUTHUR_CONFIG_FILE") (codes "/config/muthur.yaml");
    redis_url = getenv (codes "REDIS_URL");
    redis_prefix = env_or getenv (codes "REDIS_PREFIX") (codes "muthur:");
    semantic_cache_enabled = flag getenv lib (codes "SEMANTIC_CACHE_ENABLED") (codes "false");
    semantic_threshold =
        or_default lib.default_threshold
          (lib.parse_float (env_or getenv (codes "SEMANTIC_CACHE_THRESHOLD") (codes "0.95")));
    embed_dim = number getenv lib (codes "SEMANTIC_CACHE_EMBED_DIM") (codes "256");
    correlation_enabled = flag getenv lib (codes "CORRELATION_ENABLED") (codes "false");
    correlation_window_seconds =
        number getenv lib (codes "CORRELATION_WINDOW_SECONDS") (codes "30");
    correlation_max_group = number getenv lib (codes "CORRELATION_MAX_GROUP") (codes "25");
    public_url = getenv (codes "MUTHUR_PUBLIC_URL");
    feedback_few_shot = number getenv lib (codes "FEEDBACK_FEW_SHOT") (codes "3");
    incident_history_enabled = flag getenv lib (codes "INCIDENT_HISTORY_ENABLED") (codes "true");
    incident_ttl =
        duration_or getenv lib (codes "INCIDENT_TTL") (codes "720h") (duration (720 * 3600));
    evidence_enabled = flag getenv lib (codes "NOTIFY_EVIDENCE_ENABLED") (codes "true");
    evidence_log_lines = number getenv lib (codes "NOTIFY_LOG_LINES") (codes "8");
  }

  -- `Load`, from the key on.
  unfoldable pub load_with : Text → Result LoadError (Config Float)
  unfolding env_or parse_auth_modes settings validated
  load_with api_key =
      parse_auth_modes (env_or getenv (codes "AUTH_MODES") (codes "mtls")) >>= λ modes.
      validated (settings api_key modes)

  -- `Load`
  unfoldable pub load : Result LoadError (Config Float)
  unfolding resolve_api_key load_with
  load = resolve_api_key getenv lib >>= load_with
