-- ===== src/Tests/Providers.antt =====
-- Runs of the OpenAI-compatible provider against an endpoint without schema support.
use muthur.Prelude.{
  none, ℕ, zero, suc, ◌+◌, ◌*◌, ◌≤◌, Text, codes, [], ◌∷◌, true, false, Result, ok, err, pos,
  length, ◌≡◌, refl,
}
use muthur.Evaluator.{Prompt, Analysis, run, audit_off}
use muthur.Evaluator.OpenAi.{OpenAi, mode_auto, ChatRequest, ChatResponse, structured, complete}
use muthur.Evaluator.OpenAi.Requests.{Asked, noted, complete-Asked, run-requests}
use muthur.Evaluator.OpenAi.Choice
use muthur.Evaluator.OpenAi.Choice.{Config, Evaluator, openai}

abbrev reply : ℕ → Result Text (ℕ × Text)
reply zero = ok (400, codes "response_format is Unsupported")
reply (suc n) = ok (200, codes " {} ")

-- The first request is refused for its schema, the later ones are answered.
abbrev pub endpoint : ChatRequest → ℕ → Result Text (ℕ × Text) × ℕ
endpoint q n = (reply n, suc n)

abbrev pub decode : Text → Result Text ChatResponse
decode t = ok (record { choices = t ∷ []; error = none })

abbrev provider : OpenAi
provider = record {
  base_url = codes "http://llm";
  api_key = [];
  model = codes "m";
  mode = mode_auto;
  downgraded = false;
}

abbrev prompt : Prompt
prompt = record { system = []; user = codes "u" }

completed : (complete decode endpoint prompt (provider, 0)).0 ≡ ok (codes "{}")
unfolding complete
completed = refl

downgraded_run : structured (complete decode endpoint prompt (provider, 0)).1.0 ≡ false
unfolding complete structured
downgraded_run = refl

complete-Asked_example :
    Asked decode endpoint 3 provider []
      (complete decode (noted endpoint) prompt (provider, (0, [])))
complete-Asked_example = complete-Asked decode endpoint prompt provider 0 []

abbrev unmarshal : Text → Result Text Analysis
unmarshal t = err (codes "no analysis")

run-requests_example :
    length
      (run (λ t. t) unmarshal (complete decode (noted endpoint)) 1 prompt (provider, (0, []))).1.1.1
    ≤ 0 + 3 * 2
run-requests_example = run-requests (λ t. t) unmarshal decode endpoint 1 prompt provider 0 []

abbrev config : Config
config = record {
  provider = codes "openai-compatible";
  api_key = [];
  base_url = codes "http://llm/";
  model = codes "m";
  max_retries = pos 2;
  schema_mode = codes "auto";
  audit_mode = [];
  air_gapped = true;
}

abbrev made : Evaluator
made = record {
  provider = openai (record provider { downgraded = true });
  max_retries = 2;
  audit_mode = audit_off;
}
