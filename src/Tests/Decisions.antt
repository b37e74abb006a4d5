-- ===== src/Tests/Decisions.antt =====
-- Decisions: analyses, silences, receivers, the budget.
use muthur.Prelude.{
  ◌++◌, ℕ, Text, codes, List, [], ◌∷◌, Bool, true, false, Option, none, some, Result, ok, err, ◌≡◌,
  ◌≢◌, refl, arith, text_eq, inl, inr, ◌≤◌, ◌+◌, All, length, keep, trim_space, equal_fold,
}
use muthur.Evaluator.{
  Analysis, Prompt, run, run_from, decode_and_validate, validate_analysis, in_enum,
}
use muthur.Evaluator.Loop.{IsCanonical, run-IsCanonical}
use muthur.Evaluator.Prompts.{recording, Extends, run-prompts}
use muthur.Limiter.{Pool}
use muthur.Pipeline.{Services, State, maybe_silence, deliver, evaluate, evaluate_incident}
use muthur.Pipeline.Budget.{slots, evaluate-slots}
use muthur.Pipeline.Delivery.{noted, addressed, deliver-noted}
use muthur.Pipeline.Silencing.{IsSureOfSilence, maybe_silence-IsPermitted}
use muthur.Routing.{Rule}
use muthur.Routing.First.{Applies, Named}
use muthur.Silence.{listed, Client, SilenceRequest, create_silence}
use muthur.Silence.Guards.{IsPermitted}
use muthur.Tests.Data.{alert, same_text}

abbrev analysis : Analysis
analysis = record {
  severity = codes "warning";
  root_cause = codes "oom";
  evidence = codes "log";
  action = codes "restart";
  confidence = codes "high";
  grounding = codes "stated";
  silence = true;
  silence_reason = codes "noise";
}

-- The answers of the provider: a broken one, then an analysis.
abbrev decode_answer : Bool → Result Text Analysis
decode_answer true = ok analysis
decode_answer false = err (codes "eof")

abbrev answer : Prompt → Bool → Result Text Bool × Bool
answer q second = (ok second, true)

abbrev prompt : Prompt
prompt = record { system = codes "rules"; user = codes "data" }

second_is_valid : (run same_text decode_answer answer 1 prompt false).0 ≡ ok analysis
unfolding run run_from decode_and_validate validate_analysis in_enum text_eq trim_space
second_is_valid = refl

run-IsCanonical_example : IsCanonical analysis
run-IsCanonical_example =
    run-IsCanonical same_text decode_answer answer 1 prompt false analysis second_is_valid

run-prompts_example :
    (length (run same_text decode_answer (recording answer) 2 prompt (false, [])).1.1 ≤ 3)
    × All (Extends prompt) (run same_text decode_answer (recording answer) 2 prompt (false, [])).1.1
run-prompts_example = run-prompts same_text decode_answer answer 2 prompt false

abbrev rule : Rule
rule = record {
  name = codes "warnings";
  match_on = record {
    severity = codes "warning";
    cluster_id = [];
    alert_name = [];
    namespace = [];
  };
  receivers = codes "slack" ∷ (codes "mail" ∷ []);
}

abbrev critical_rule : Rule
critical_rule = record rule {
  match_on = record {
    severity = codes "critical";
    cluster_id = [];
    alert_name = [];
    namespace = [];
  };
  receivers = codes "pager" ∷ [];
}

rule-Applies : Applies rule alert
rule-Applies = record {
  severity = inr refl;
  cluster = inl refl;
  alert = inl refl;
  namespace = inl refl;
}

not_critical : codes "critical" ≢ codes "warning"
not_critical e = cc

critical-ne-nil : codes "critical" ≢ []
critical-ne-nil e = cc

critical_rule-off : ¬ Applies critical_rule alert
critical_rule-off a = elim a.severity [ inl e ↦ critical-ne-nil e | inr e ↦ not_critical e ]

abbrev client : Client
client = record {
  base_url = codes "http://am";
  duration = 60;
  enabled = true;
  allowed = some (codes "Crash" ∷ []);
}

abbrev no_time : ℕ → Text
no_time n = []

-- A silence API that counts its requests.
abbrev counted : Text → SilenceRequest → ℕ → Option ℕ × ℕ
counted url request n = (some 200, n + 1)

-- Services around a counter: every firing alert is a duplicate, and the cache is empty.
abbrev services : Services ℕ Text (Unit {0})
services = record {
  is_duplicate = λ p n. (true, n + 1);
  is_duplicate_resolved = λ p n. (false, n);
  cache_get = λ p n. (none, n);
  cache_set = λ p a n. n;
  examples = λ p n. (tt, n);
  evaluate_alert = λ p x n. (some analysis, n);
  evaluate_group = λ l x n. (none, n);
  record_history = λ p o l n. n;
  record_feedback = λ p a n. (([], []), n);
  format_message = λ p o. p.alert_name;
  format_incident = λ p l o. p.alert_name;
  attach_evidence = λ p m. m;
  with_links = λ up down m. m;
  notifier = λ name. none;
  rfc3339 = no_time;
  post_silence = counted;
}

silenced : maybe_silence services (rule ∷ []) client 5 alert (some analysis) 0 ≡ 1
unfolding maybe_silence create_silence text_eq equal_fold listed
silenced = refl

changed : maybe_silence services (rule ∷ []) client 5 alert (some analysis) 0 ≢ 0
changed e = omega (arith, silenced)

maybe_silence-IsPermitted_example : IsSureOfSilence (some analysis) × IsPermitted client alert
maybe_silence-IsPermitted_example =
    maybe_silence-IsPermitted services (rule ∷ []) client 5 alert (some analysis) 0 changed

abbrev pool : Pool
pool = record { buckets = []; calls_per_minute = 1; burst = 2; max_concurrent = 1 }

evaluate-slots_example :
    (slots (codes "c1") (evaluate services (rule ∷ []) client 5 alert (0, some pool)).1.1
      ≡ slots (codes "c1") (some pool))
    × (slots
          (codes "c1")
          (evaluate_incident services (rule ∷ []) client 5 alert (alert ∷ []) (0, some pool)).1.1
        ≡ slots (codes "c1") (some pool))
evaluate-slots_example =
    evaluate-slots services (rule ∷ []) client 5 alert (alert ∷ []) 0 (some pool)

abbrev state : State ℕ
state = record {
  world = 0;
  pool = some pool;
  correlator = record {
    enabled = true;
    window = 10;
    max_group = 5;
    buckets = [];
    pending = [];
    next_timer = 0;
  };
}

still_firing : codes "firing" ≢ codes "resolved"
still_firing e = cc

abbrev logging : Services (List (Text × Text)) Text (Unit {0})
logging = record {
  is_duplicate = λ p n. (false, n);
  is_duplicate_resolved = λ p n. (false, n);
  cache_get = λ p n. (none, n);
  cache_set = λ p a n. n;
  examples = λ p n. (tt, n);
  evaluate_alert = λ p x n. (none, n);
  evaluate_group = λ l x n. (none, n);
  record_history = λ p o l n. n;
  record_feedback = λ p a n. (([], []), n);
  format_message = λ p o. p.alert_name;
  format_incident = λ p l o. p.alert_name;
  attach_evidence = λ p m. m;
  with_links = λ up down m. m;
  notifier = λ name. none;
  rfc3339 = no_time;
  post_silence = λ url request n. (none, n);
}

abbrev is_mail : Text → Bool
is_mail name = text_eq name (codes "mail")

deliver-noted_example :
    (names : List Text) × Named (rule ∷ []) alert names
    × (deliver
          (noted logging (rule ∷ []) client is_mail is_mail)
          (rule ∷ [])
          client
          alert
          (codes "msg")
          []
        ≡ [] ++ addressed (codes "msg") (keep is_mail names))
deliver-noted_example =
    deliver-noted logging (rule ∷ []) client is_mail is_mail alert (codes "msg") []
