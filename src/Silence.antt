-- ===== src/Silence.antt =====
-- internal/silence/alertmanager.go: the guards in front of the Alertmanager silence API, which is a
-- parameter, as is the formatting of instants. A request that cannot be built counts as one that
-- the API did not answer. Metrics and logs are not modelled.
pub mod Guards
use muthur.Prelude.{
  ℕ, ◌+◌, Text, codes, List, [], ◌∷◌, ◌++◌, Bool, true, false, Option, none, some, Result, ok, err,
  text_eq, equal_fold, is_empty, trim_space, not, ◌||◌, ◌==◌, if◌then◌else◌,
}
use muthur.Alert.{AlertPayload}

-- `allowed` is none for the nil map. The listed names are its keys.
pub record Client : Type 0 where
  pub base_url : Text
  pub duration : ℕ
  pub enabled : Bool
  pub allowed : Option (List Text)

pub record Matcher : Type 0 where
  pub name : Text
  pub value : Text
  pub is_regex : Bool
  pub is_equal : Bool

pub record SilenceRequest : Type 0 where
  pub matchers : List Matcher
  pub starts_at : Text
  pub ends_at : Text
  pub created_by : Text
  pub comment : Text

pub data SilenceError : Type 0 where
  api_call : SilenceError
  api_returned : ℕ → SilenceError

abbrev trimmed_names : List Text → List Text
trimmed_names [] = []
trimmed_names (name ∷ l) =
    let rest = trimmed_names l in
    if is_empty (trim_space name) then rest else trim_space name ∷ rest

-- `NewClient`
unfoldable pub new_client : Text → ℕ → Bool → List Text → Client
new_client base_url duration enabled allowlist = record {
  base_url = base_url;
  duration = duration;
  enabled = enabled;
  allowed = if is_nil allowlist then none else some (trimmed_names allowlist);
}
  where
    is_nil : List Text → Bool
    is_nil [] = true
    is_nil (_ ∷ _) = false

unfoldable pub listed : Text → List Text → Bool
listed name [] = false
listed name (a ∷ l) = text_eq a name || listed name l

-- `c.allowed != nil && !c.allowed[name]`
abbrev pub off_list : Option (List Text) → Text → Bool
off_list none name = false
off_list (some l) name = not (listed name l)

abbrev exact : Text → Text → Matcher
exact name value = record { name = name; value = value; is_regex = false; is_equal = true }

-- The API's answer: none where the call fails, else the status.
abbrev status_result : {W : Type 0} → Option ℕ × W → Result SilenceError (Unit {0}) × W
status_result (none, w) = (err api_call, w)
status_result (some status, w) =
    if status == 200 then (ok tt, w) else (err (api_returned status), w)

module _ {W : Type 0} (rfc3339 : ℕ → Text) (post : Text → SilenceRequest → W → Option ℕ × W) where
  unfoldable pub request_for : ℕ → Client → AlertPayload → Text → SilenceRequest
  request_for now c p reason = record {
    matchers =
        exact (codes "alertname") p.alert_name ∷ (exact (codes "namespace") p.namespace ∷ []);
    starts_at = rfc3339 now;
    ends_at = rfc3339 (now + c.duration);
    created_by = codes "muthur-central";
    comment = reason;
  }

  abbrev pub send : ℕ → Client → AlertPayload → Text → W → Result SilenceError (Unit {0}) × W
  send now c p reason w =
      status_result (post (c.base_url ++ codes "/api/v2/silences") (request_for now c p reason) w)

  -- `CreateSilence`
  unfoldable pub create_silence :
      ℕ → Client → AlertPayload → Text → W → Result SilenceError (Unit {0}) × W
  create_silence now c p reason w =
      if not c.enabled
      then (ok tt, w)
      else if equal_fold p.severity (codes "critical")
      then (ok tt, w)
      else if off_list c.allowed p.alert_name
      then (ok tt, w)
      else send now c p reason w
