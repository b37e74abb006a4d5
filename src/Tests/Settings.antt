-- ===== src/Tests/Settings.antt =====
-- A configuration with the signed mode and an endpoint of the operator's, and refused ones.
use muthur.Prelude.{
  ℕ, Text, codes, List, [], ◌∷◌, true, false, none, some, ok, err, pos, text_eq, if◌then◌else◌, ◌≡◌,
  refl,
}
use muthur.Config.{Config, auth_mode_signed, Lib, server_cert_required, unknown_auth_mode}
use muthur.Config.Load.{load, settings}
use muthur.Config.Valid.{IsValid, load-IsValid}
use muthur.Config.Provider.{is_ok, llm_config, new-load}
use muthur.Evaluator.OpenAi.{mode_auto, parse_schema_mode}
use muthur.Evaluator.OpenAi.Choice.{new}
use muthur.Tests.Providers.{decode, endpoint}

abbrev lookup : List (Text × Text) → Text → Text
lookup [] key = []
lookup ((k, v) ∷ vars) key = let rest = lookup vars key in if text_eq k key then v else rest

abbrev lib : Lib ℕ
lib = record {
  read_file = λ path. some (codes "key\n");
  atoi = λ t. (pos 2, false);
  parse_bool = λ t. if text_eq t (codes "true") then some true else some false;
  parse_float = λ t. none;
  parse_duration = λ t. none;
  default_threshold = 95;
  zero = 0;
}

abbrev vars : List (Text × Text)
vars =
    (codes "LLM_PROVIDER", codes "OpenAI-compatible")
    ∷ (codes "LLM_BASE_URL", codes "http://llm")
    ∷ (codes "LLM_MODEL", codes "m")
    ∷ (codes "LLM_API_KEY_FILE", codes "/secrets/key")
    ∷ (codes "AUTH_MODES", codes "signed,")
    ∷ (codes "TLS_TRUST_ROOT_FILE", codes "/root")
    ∷ (codes "INTERMEDIATE_CA_FILE", codes "/ca")
    ∷ (codes "INTERMEDIATE_KEY_FILE", codes "/ca.key")
    ∷ (codes "HPKE_KEY_FILE", codes "/hpke")
    ∷ []

abbrev env : Text → Text
env = lookup vars

abbrev with_var : Text → Text → Text → Text
with_var name value = lookup ((name, value) ∷ vars)

-- The server certificate is needed for the mtls mode.
mtls_refused :
    load (with_var (codes "AUTH_MODES") (codes "signed, mTLS")) lib ≡ err server_cert_required
unfolding load
mtls_refused = refl

unknown_refused :
    load (with_var (codes "AUTH_MODES") (codes "signed,basic")) lib
    ≡ err (unknown_auth_mode (codes "basic"))
unfolding load
unknown_refused = refl

abbrev cfg : Config ℕ
cfg = settings env lib (codes "key") (auth_mode_signed ∷ [])

loads : load env lib ≡ ok cfg
unfolding load
loads = refl

local_model : text_eq cfg.llm_provider (codes "openai-compatible") ≡ true
unfolding settings
local_model = refl

load-IsValid_example : IsValid cfg
load-IsValid_example = load-IsValid env lib cfg loads

new-load_example : is_ok (new decode endpoint (llm_config cfg) 0).0 ≡ true
unfolding settings parse_schema_mode
new-load_example = new-load decode endpoint env lib cfg 0 mode_auto loads refl refl
