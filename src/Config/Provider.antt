-- ===== src/Config/Provider.antt =====
-- cmd/muthur/main.go: `run` makes the evaluator out of the configuration.
use muthur.Prelude.{ℕ, Text, Bool, true, false, some, Result, ok, err, ◌≡◌}
use muthur.Evaluator.OpenAi.{parse_schema_mode, SchemaMode, ChatRequest, ChatResponse}
use muthur.Evaluator.OpenAi.Choice
use muthur.Evaluator.OpenAi.Choice.{Evaluator, new, new_anthropic, check_openai}
use muthur.Config.{Config, Lib}
use muthur.Config.Load.{load}
use muthur.Config.Valid.{load-IsValid, HasProvider, cloud, endpoint}

-- The evaluator's part of the configuration, without the timeout and the temperature.
unfoldable pub llm_config : {Float : Type 0} → Config Float → Choice.Config
llm_config cfg = record {
  provider = cfg.llm_provider;
  api_key = cfg.llm_api_key;
  base_url = cfg.llm_base_url;
  model = cfg.llm_model;
  max_retries = cfg.llm_max_retries;
  schema_mode = cfg.llm_schema_mode;
  audit_mode = cfg.llm_audit_mode;
  air_gapped = cfg.llm_air_gapped;
}

abbrev pub is_ok : {E A : Type 0} → Result E A → Bool
is_ok (ok a) = true
is_ok (err e) = false

module _ {W Float : Type 0} (decode : Text → Result Text ChatResponse)
    (send : ChatRequest → W → Result Text (ℕ × Text) × W) where
  new-HasProvider :
      (cfg : Config Float) (w : W) (mode : SchemaMode)
      → cfg.llm_air_gapped ≡ false
      → parse_schema_mode cfg.llm_schema_mode ≡ some mode
      → HasProvider cfg
      → is_ok (new decode send (llm_config cfg) w).0 ≡ true
  unfolding new new_anthropic check_openai llm_config
  new-HasProvider cfg w mode open_net known (cloud chosen key) = rw (chosen, open_net, key)
  new-HasProvider cfg w mode open_net known (endpoint other chosen url model) =
      rw (other, chosen, url, model, known)

  -- A configuration that loads, with the air-gapped mode off and a schema mode that is known, gives
  -- an evaluator: what the evaluator refuses on its own is refused before.
  pub new-load :
      (getenv : Text → Text) (lib : Lib Float) (cfg : Config Float) (w : W) (mode : SchemaMode)
      → load getenv lib ≡ ok cfg
      → cfg.llm_air_gapped ≡ false
      → parse_schema_mode cfg.llm_schema_mode ≡ some mode
      → is_ok (new decode send (llm_config cfg) w).0 ≡ true
  new-load getenv lib cfg w mode loads open_net known =
      new-HasProvider cfg w mode open_net known (load-IsValid getenv lib cfg loads).provider
