-- ===== src/Tests/Caching.antt =====
-- Runs of the analysis cache over the in-process store.
use muthur.Prelude.{
  ℕ, ◌+◌, ◌-◌, ◌*◌, ◌/◌, ◌==◌, Text, codes, List, [], ◌∷◌, true, false, none, some, ok, not, ltb,
  ◌≡◌, refl, arith, if◌then◌else◌, text_eq,
}
use muthur.Embed.{Floats, cosine}
use muthur.Evaluator.{Analysis}
use muthur.LlmCache
use muthur.LlmCache.{Json, Cache, VecEntry, cache_key, best_of, signature, semantic_lookup}
use muthur.LlmCache.Fresh.{get-set}
use muthur.LlmCache.Semantic.{OrderLaws, Chosen, rated, semantic_lookup-Chosen}
use muthur.Store.Memory.{list_by_prefix, empty, get, set, expiry, expired}
use muthur.Store.Trace.{run}
use muthur.Store.Memory.Backend.{memory, memory_laws}
use muthur.Tests.Data.{alert, same_text, hundred}

-- Whole numbers stand for floating-point ones.
abbrev floats : Floats ℕ ℕ
floats = record {
  zero_single = 0;
  one_single = 1;
  add_single = λ a b. a + b;
  sub_single = λ a b. a - b;
  mul_single = λ a b. a * b;
  widen = λ a. a;
  narrow = λ a. a;
  zero_double = 0;
  one_double = 1;
  add_double = λ a b. a + b;
  mul_double = λ a b. a * b;
  div_double = λ a b. a / b;
  sqrt = λ a. a;
  eq_double = λ a b. a == b;
  gt_double = λ a b. ltb b a;
  ge_double = λ a b. not (ltb a b);
}

floats_order : OrderLaws floats
floats_order = record {
  irreflexive = λ a. ground arith;
  below = λ a b x more least. ground (arith, more, least);
}

abbrev pub sample : Analysis
sample = record {
  severity = codes "warning";
  root_cause = codes "disk";
  evidence = codes "e";
  action = codes "a";
  confidence = codes "high";
  grounding = codes "stated";
  silence = false;
  silence_reason = [];
}

abbrev json : Json ℕ
json = record {
  marshal = λ a. some (codes "sample");
  unmarshal = λ t. if text_eq t (codes "sample") then some sample else none;
  marshal_entry = λ e. some e.vec;
  unmarshal_entry = λ t. some (record { vec = t; analysis = some sample });
}

abbrev one_word : Text → List ℕ
one_word t = 1 ∷ []

abbrev cache : Cache ℕ ℕ
cache = record { enabled = true; ttl = hundred; semantic = some one_word; threshold = 1 }

found :
    memory.get
      (hundred + 5)
      (cache_key memory same_text json floats cache alert)
      (LlmCache.set memory same_text json floats cache hundred alert (some sample) empty)
    ≡ ok (some (codes "sample"))
unfolding memory LlmCache.set get set cache_key expiry expired
found = refl

get-set_example :
    LlmCache.get memory same_text json floats cache
      (hundred + 5)
      alert
      (LlmCache.set memory same_text json floats cache hundred alert (some sample) empty)
    ≡ some sample
unfolding text_eq run LlmCache.set
get-set_example =
    get-set memory memory_laws same_text json floats cache alert alert sample (codes "sample")
      hundred (hundred + 5) empty [] (some (codes "sample")) refl refl refl refl
      (unfold memory in refl) tt (omega arith) (omega arith) found

scan :
    memory.list_by_prefix 0
      (codes "vec:")
      ((codes "vec:k", record { val = 1 ∷ []; expires_at = none }) ∷ [])
    ≡ ok ((1 ∷ []) ∷ [])
unfolding memory expired list_by_prefix
scan = refl

hit :
    semantic_lookup memory same_text json floats cache one_word 0 alert
      ((codes "vec:k", record { val = 1 ∷ []; expires_at = none }) ∷ [])
    ≡ some sample
unfolding semantic_lookup memory expired cosine list_by_prefix
hit = refl

semantic_lookup-Chosen_example :
    Chosen memory same_text json floats cache
      (one_word (signature alert))
      floats_order
      sample
      (rated memory same_text json floats cache (one_word (signature alert)) ((1 ∷ []) ∷ []))
semantic_lookup-Chosen_example =
    semantic_lookup-Chosen memory same_text json floats cache one_word 0 alert
      ((codes "vec:k", record { val = 1 ∷ []; expires_at = none }) ∷ []) ((1 ∷ []) ∷ []) sample
      floats_order scan hit
