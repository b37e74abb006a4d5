-- ===== src/LlmCache.antt =====
-- internal/llmcache/llmcache.go, with `Signature` of internal/evaluator/prompt.go: analyses that are used again, for the same
-- alert by its key and for a similar one by its embedding. JSON and SHA-256 are parameters; metrics and logs are not modelled.
pub mod Fresh
pub mod Semantic
use muthur.Prelude.{
  ℕ, ◌*◌, Text, codes, List, [], ◌∷◌, ◌++◌, Bool, true, false, Option, none, some, Result, ok, err,
  if◌then◌else◌, ◌&&◌,
}
use muthur.Alert.{AlertPayload, AlertTarget, Label}
use muthur.AlertKey.{raw_key}
use muthur.Dedup.{minute}
use muthur.Embed.{Floats, cosine}
use muthur.Evaluator.{Analysis}
use muthur.Store.{Store, StoreError}

abbrev pub target_words : Option AlertTarget → Text
target_words none = []
target_words (some t) = b' ' ∷ (t.target_type ++ (b' ' ∷ t.deployment))

abbrev pub label_words : List Label → Text
label_words [] = []
label_words (l ∷ ls) = b' ' ∷ (l.name ++ (b'=' ∷ (l.value ++ label_words ls)))

-- `Signature`
unfoldable pub signature : AlertPayload → Text
signature p =
    p.alert_name
    ++ (b' '
        ∷ (p.namespace
            ++ (b' '
                ∷ (p.severity
                    ++ (b' ' ∷ (p.summary ++ (target_words p.target ++ label_words p.labels)))))))

-- `vecEntry`
pub record VecEntry (Single : Type 0) : Type 0 where
  pub vec : List Single
  pub analysis : Option Analysis

-- What the code calls of encoding/json.
pub record Json (Single : Type 0) : Type 0 where
  pub marshal : Analysis → Option Text
  pub unmarshal : Text → Option Analysis
  pub marshal_entry : VecEntry Single → Option Text
  pub unmarshal_entry : Text → Option (VecEntry Single)

-- `Cache`; the semantic layer is on where it has its embedder.
pub record Cache (Single Double : Type 0) : Type 0 where
  pub enabled : Bool
  pub ttl : ℕ
  pub semantic : Option (Text → List Single)
  pub threshold : Double

-- `New`
unfoldable pub new :
    {Single Double : Type 0}
    → Bool
    → ℕ
    → Option (Text → List Single)
    → Bool
    → Double
    → Cache Single Double
new enabled ttl_minutes emb semantic threshold = record {
  enabled = enabled;
  ttl = ttl_minutes * minute;
  semantic = if semantic then emb else none;
  threshold = threshold;
}

abbrev pub write_if_marshalled : {S : Type 0} → Store S → ℕ → Text → ℕ → Option Text → S → S
write_if_marshalled st now key ttl none s = s
write_if_marshalled st now key ttl (some raw) s = (st.set now key raw ttl s).1

module _ {S Single Double : Type 0} (st : Store S) (sha256_hex : Text → Text) (json : Json Single)
    (fl : Floats Single Double) (c : Cache Single Double) where
  -- `key`
  unfoldable pub cache_key : AlertPayload → Text
  unfolding raw_key
  cache_key p = codes "cache:" ++ sha256_hex (raw_key p)

  unfoldable pub vec_key : AlertPayload → Text
  unfolding raw_key
  vec_key p = codes "vec:" ++ sha256_hex (raw_key p)

  abbrev pub decode_hit : Result StoreError (Option Text) → Option Analysis
  decode_hit (err e) = none
  decode_hit (ok none) = none
  decode_hit (ok (some raw)) = json.unmarshal raw

  -- An analysis with its similarity takes the place of one that is less similar.
  abbrev pub better_of :
      Double → Option Analysis → Option Analysis × Double → Option Analysis × Double
  better_of sim none best = best
  better_of sim (some a) best = if fl.gt_double sim best.1 then (some a, sim) else best

  abbrev pub better :
      List Single → Option (VecEntry Single) → Option Analysis × Double → Option Analysis × Double
  better query none best = best
  better query (some e) best = better_of (cosine fl query e.vec) e.analysis best

  -- The scan of `semanticLookup`.
  unfoldable pub best_of :
      List Single → List Text → Option Analysis × Double → Option Analysis × Double
  unfolding cosine
  best_of query [] best = best
  best_of query (raw ∷ raws) best =
      best_of query raws (better query (json.unmarshal_entry raw) best)

  abbrev pub above_threshold : Option Analysis × Double → Option Analysis
  above_threshold (none, sim) = none
  above_threshold (some a, sim) = if fl.ge_double sim c.threshold then some a else none

  abbrev pub scanned : List Single → Result StoreError (List Text) → Option Analysis
  scanned query (err e) = none
  scanned query (ok vals) = above_threshold (best_of query vals (none, fl.zero_double))

  -- `semanticLookup`
  unfoldable pub semantic_lookup : (Text → List Single) → ℕ → AlertPayload → S → Option Analysis
  unfolding signature best_of
  semantic_lookup embed now p s =
      scanned (embed (signature p)) (st.list_by_prefix now (codes "vec:") s)

  abbrev pub semantic_layer : Option (Text → List Single) → ℕ → AlertPayload → S → Option Analysis
  semantic_layer none now p s = none
  semantic_layer (some embed) now p s = semantic_lookup embed now p s

  abbrev pub or_else : Option Analysis → Option Analysis → Option Analysis
  or_else (some a) later = some a
  or_else none later = later

  -- `Get`
  unfoldable pub get : ℕ → AlertPayload → S → Option Analysis
  unfolding cache_key semantic_lookup
  get now p s =
      if c.enabled
      then or_else (decode_hit (st.get now (cache_key p) s)) (semantic_layer c.semantic now p s)
      else none

  abbrev pub set_semantic : Option (Text → List Single) → ℕ → AlertPayload → Analysis → S → S
  set_semantic none now p a s = s
  set_semantic (some embed) now p a s =
      write_if_marshalled st now (vec_key p) c.ttl
        (json.marshal_entry (record { vec = embed (signature p); analysis = some a })) s

  abbrev pub set_marshalled : ℕ → AlertPayload → Analysis → Option Text → S → S
  set_marshalled now p a none s = s
  set_marshalled now p a (some raw) s =
      set_semantic c.semantic now p a (st.set now (cache_key p) raw c.ttl s).1

  abbrev pub set_present : ℕ → AlertPayload → Option Analysis → S → S
  set_present now p none s = s
  set_present now p (some a) s = set_marshalled now p a (json.marshal a) s

  -- `Set`
  unfoldable pub set : ℕ → AlertPayload → Option Analysis → S → S
  unfolding cache_key vec_key signature
  set now p a s = if c.enabled then set_present now p a s else s
