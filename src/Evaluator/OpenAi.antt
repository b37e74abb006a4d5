-- ===== src/Evaluator/OpenAi.antt =====
-- internal/evaluator/openai.go: the provider for OpenAI-compatible endpoints, and the choice of a provider in
-- `New` of analyzer.go. The HTTP client with the JSON encoding of a request is a parameter, and so is the decoder of
-- a response. Waiting between attempts, cancellation, temperature and token counts are not modelled.
pub mod Requests
pub mod Choice
use muthur.Prelude.{
  ℕ, zero, suc, ◌+◌, Text, codes, List, [], ◌∷◌, ◌++◌, Bool, true, false, Option, none, some,
  Result, ok, err, ◌>>=◌, ◌>>◌, guard, text_eq, is_empty, has_prefix, not, ◌&&◌, ◌||◌, trim_space,
  to_lower, reverse, if◌then◌else◌, ltb, ◌==◌, itoa,
}
use muthur.Auth.Identity.{drop_slashes}
use muthur.Evaluator.{Prompt, AuditMode, parse_audit_mode}

-- `schemaMode`
pub data SchemaMode : Type 0 where
  mode_schema : SchemaMode
  mode_json_object : SchemaMode
  mode_auto : SchemaMode

-- `parseSchemaMode`
unfoldable pub parse_schema_mode : Text → Option SchemaMode
unfolding trim_space to_lower text_eq
parse_schema_mode s =
    let m = to_lower (trim_space s) in
    if is_empty m || text_eq m (codes "auto")
    then some mode_auto
    else if text_eq m (codes "schema")
    then some mode_schema
    else if text_eq m (codes "json-object")
        || text_eq m (codes "json_object")
        || text_eq m (codes "json")
    then some mode_json_object
    else none

pub record OpenAi : Type 0 where
  pub base_url : Text
  pub api_key : Text
  pub model : Text
  pub mode : SchemaMode
  pub downgraded : Bool

-- `newOpenAIProvider`; `strings.TrimRight(baseURL, "/")`.
unfoldable pub new_openai_provider : Text → Text → Text → SchemaMode → OpenAi
unfolding drop_slashes
new_openai_provider base_url api_key model mode = record {
  base_url = reverse (drop_slashes (reverse base_url));
  api_key = api_key;
  model = model;
  mode = mode;
  downgraded = false;
}

abbrev pub is_auto : SchemaMode → Bool
is_auto mode_schema = false
is_auto mode_json_object = false
is_auto mode_auto = true

abbrev pub structured_for : SchemaMode → Bool → Bool
structured_for mode_schema downgraded = not downgraded
structured_for mode_json_object downgraded = false
structured_for mode_auto downgraded = not downgraded

-- `structured`
unfoldable pub structured : OpenAi → Bool
structured p = structured_for p.mode p.downgraded

-- `downgrade`
unfoldable pub downgrade : OpenAi → OpenAi
downgrade p = if is_auto p.mode && not p.downgraded then record p { downgraded = true } else p

pub data ResponseFormat : Type 0 where
  json_object : ResponseFormat
  json_schema : ResponseFormat

abbrev pub mode_for : SchemaMode → Bool → SchemaMode
mode_for mode_json_object downgraded = mode_json_object
mode_for mode_schema downgraded = mode_schema
mode_for mode_auto downgraded = if downgraded then mode_json_object else mode_schema

-- `effectiveMode`
unfoldable pub effective_mode : OpenAi → SchemaMode
effective_mode p = mode_for p.mode p.downgraded

-- `responseFormat`
unfoldable pub response_format : SchemaMode → ResponseFormat
response_format mode_json_object = json_object
response_format mode_schema = json_schema
response_format mode_auto = json_schema

pub record ChatMessage : Type 0 where
  pub role : Text
  pub content : Text

-- `chatRequest`, with where it goes and its Authorization header.
pub record ChatRequest : Type 0 where
  pub url : Text
  pub authorization : Option Text
  pub model : Text
  pub messages : List ChatMessage
  pub max_tokens : ℕ
  pub format : ResponseFormat

-- `chatResponse`: the contents of the choices, and the message of an error.
pub record ChatResponse : Type 0 where
  pub choices : List Text
  pub error : Option Text

abbrev pub json_object_instruction : Text
json_object_instruction =
    10
    ∷ (10
        ∷ (codes
              "Respond with a single JSON object and nothing else (no markdown, no prose) with exactly these keys: "
            ++ (codes
                  "severity (one of critical, warning, info), root_cause (string), evidence (string), action (string), "
                ++ (codes
                      "confidence (one of high, medium, low), grounding (one of stated, inferred), silence (boolean), "
                    ++ codes "silence_reason (string, only when silence is true)."))))

abbrev pub with_instruction : SchemaMode → Text → Text
with_instruction mode_json_object user = user ++ json_object_instruction
with_instruction mode_schema user = user
with_instruction mode_auto user = user

-- The request of `do`.
unfoldable pub chat_request : OpenAi → Prompt → SchemaMode → ChatRequest
unfolding response_format
chat_request p prompt mode =
    let user : ChatMessage = record {
      role = codes "user";
      content = with_instruction mode prompt.user;
    } in
    record {
      url = p.base_url ++ codes "/chat/completions";
      authorization = if is_empty p.api_key then none else some (codes "Bearer " ++ p.api_key);
      model = p.model;
      messages =
          if is_empty prompt.system
          then user ∷ []
          else record { role = codes "system"; content = prompt.system } ∷ user ∷ [];
      max_tokens = 1024;
      format = response_format mode;
    }

-- `strings.Contains`
unfoldable pub contains_text : Text → Text → Bool
unfolding has_prefix
contains_text s [] = is_empty s
contains_text s (c ∷ t) = has_prefix s (c ∷ t) || contains_text s t

abbrev pub any_marker : List Text → Text → Bool
any_marker [] b = false
any_marker (m ∷ ms) b = contains_text m b || any_marker ms b

abbrev pub markers : List Text
markers =
    codes "response_format"
    ∷ codes "json_schema"
    ∷ codes "json schema"
    ∷ codes "schema"
    ∷ codes "not supported"
    ∷ codes "unsupported"
    ∷ codes "unrecognized"
    ∷ []

-- `schemaRejected`
unfoldable pub schema_rejected : ℕ → Text → Bool
unfolding contains_text to_lower
schema_rejected status body =
    ((status == 400) || (status == 404) || (status == 422) || (status == 501))
    && any_marker markers (to_lower body)

-- What a single call gives: the content, or an error and whether the endpoint refused the schema.
pub data Answer : Type 0 where
  answered : Text → Answer
  failed : Text → Bool → Answer

-- The checks on a decoded response.
abbrev pub first_choice : List Text → Answer
first_choice [] = failed (codes "response has no choices") false
first_choice (c ∷ cs) =
    if is_empty (trim_space c)
    then failed (codes "response content empty") false
    else answered (trim_space c)

abbrev pub check_error : List Text → Option Text → Answer
check_error choices none = first_choice choices
check_error choices (some message) = failed (codes "api error: " ++ message) false

abbrev pub read_response : Result Text ChatResponse → Answer
read_response (err e) = failed (codes "decode response: " ++ e) false
read_response (ok r) = check_error r.choices r.error

abbrev pub read_reply : (Text → Result Text ChatResponse) → Result Text (ℕ × Text) → Answer
read_reply decode (err e) = failed (codes "http do: " ++ e) false
read_reply decode (ok (status, body)) =
    if ltb status 200 || not (ltb status 300)
    then failed (codes "status " ++ (itoa status ++ (codes ": " ++ trim_space body)))
        (schema_rejected status body)
    else read_response (decode body)

-- What a failed attempt does to the provider.
unfoldable pub after_failure : Bool → OpenAi → OpenAi
unfolding downgrade
after_failure unsupported p = if unsupported && is_auto p.mode then downgrade p else p

module _ {W : Type 0} (decode : Text → Result Text ChatResponse)
    (send : ChatRequest → W → Result Text (ℕ × Text) × W) where
  -- `do`
  unfoldable pub do_call : OpenAi → Prompt → SchemaMode → W → Answer × W
  unfolding chat_request schema_rejected itoa trim_space
  do_call p prompt mode w =
      let (reply, w') = send (chat_request p prompt mode) w in (read_reply decode reply, w')

  abbrev pub settled :
      (Text → OpenAi → W → Result Text Text × (OpenAi × W))
      → OpenAi
      → Answer × W
      → Result Text Text × (OpenAi × W)
  settled again p (answered raw, w) = (ok raw, (p, w))
  settled again p (failed e unsupported, w) = again e (after_failure unsupported p) w

  -- The loop of `complete`, with the attempts that are left and the last error.
  unfoldable pub complete_from : ℕ → Text → Prompt → OpenAi → W → Result Text Text × (OpenAi × W)
  unfolding do_call after_failure effective_mode
  complete_from zero last prompt p w =
      (err (codes "openai-compatible chat failed after 3 attempts: " ++ last), (p, w))
  complete_from (suc n) last prompt p w =
      settled (λ e q v. complete_from n e prompt q v) p (do_call p prompt (effective_mode p) w)

  -- `complete`
  unfoldable pub complete : Prompt → OpenAi × W → Result Text Text × (OpenAi × W)
  unfolding complete_from
  complete prompt (p, w) = complete_from 3 [] prompt p w

  abbrev pub probe : Prompt
  probe = record {
    system = [];
    user = codes "preflight: respond with a minimal valid analysis object.";
  }

  abbrev pub after_probe : OpenAi → Answer × W → OpenAi × W
  after_probe p (answered raw, w) = (p, w)
  after_probe p (failed e unsupported, w) =
      let (reply, w') = do_call p probe mode_json_object w in
      if unsupported && is_auto p.mode then (downgrade p, w') else (p, w)

  -- `preflight`, which only probes; its outcome is logged.
  unfoldable pub preflight : OpenAi → W → OpenAi × W
  unfolding do_call downgrade effective_mode
  preflight p w = after_probe p (do_call p probe (effective_mode p) w)
