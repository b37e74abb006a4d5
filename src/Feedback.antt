-- ===== src/Feedback.antt =====
-- internal/feedback/feedback.go: the links under a message, the verdict that a click records, and the verdicts that are
-- shown to the model. JSON, SHA-256 and `sort.Slice` are parameters; logs and the text of the answers are not modelled.
pub mod Clicks
pub mod Recent
use muthur.Prelude.{
  ℕ, suc, zero, ◌*◌, ◌/◌, ◌^◌, Text, codes, List, [], ◌∷◌, ◌++◌, Bool, true, false, Option, none,
  some, Result, ok, err, ℤ, pos, negsuc, text_eq, is_empty, reverse, take, map, not, ◌||◌, ◌&&◌,
  if◌then◌else◌,
}
use muthur.Alert.{AlertPayload}
use muthur.AlertKey.{id}
use muthur.Auth.Identity.{drop_slashes}
use muthur.Auth.Replay.{second}
use muthur.Evaluator.{Analysis}
use muthur.LlmCache.{write_if_marshalled}
use muthur.Store.{Store, StoreError}

abbrev pub day : ℕ
day = 24 * (3600 * second)

pub record Manager : Type 0 where
  pub public_url : Text
  pub pending_ttl : ℕ
  pub verdict_ttl : ℕ
  pub few_shot : ℕ

pub record PendingEntry : Type 0 where
  pub cluster_id : Text
  pub alert_name : Text
  pub namespace : Text
  pub analysis : Option Analysis

pub record VerdictEntry : Type 0 where
  pub alert_name : Text
  pub verdict : Text
  pub analysis : Option Analysis
  pub ts : ℕ

-- `evaluator.Example`
pub record Example : Type 0 where
  pub alert_name : Text
  pub verdict : Text
  pub analysis : Option Analysis

-- What the code calls of encoding/json and sort; `newest_first` orders by falling `TS`.
pub record Lib : Type 0 where
  pub marshal_pending : PendingEntry → Option Text
  pub unmarshal_pending : Text → Option PendingEntry
  pub marshal_verdict : VerdictEntry → Option Text
  pub unmarshal_verdict : Text → Option VerdictEntry
  pub newest_first : List VerdictEntry → List VerdictEntry

-- `trimSlash`
unfoldable pub trim_slash : Text → Text
unfolding drop_slashes
trim_slash s = reverse (drop_slashes (reverse s))

abbrev pub at_least_one : ℤ → ℕ
at_least_one (pos zero) = 3
at_least_one (pos (suc n)) = suc n
at_least_one (negsuc n) = 3

-- `New`
unfoldable pub new : Text → ℤ → Manager
unfolding trim_slash
new public_url few_shot = record {
  public_url = trim_slash public_url;
  pending_ttl = 7 * day;
  verdict_ttl = 30 * day;
  few_shot = at_least_one few_shot;
}

-- `LinksEnabled`
unfoldable pub links_enabled : Manager → Bool
links_enabled m = not (is_empty m.public_url)

-- What `ServeHTTP` answers; `thanks` names the verdict and the alert.
pub data Reply : Type 0 where
  bad_request : Reply
  not_found : Reply
  internal_error : Reply
  thanks : Text → Text → Reply

-- `verdict != "useful" && verdict != "wrong"`
unfoldable pub not_verdict : Text → Bool
unfolding text_eq
not_verdict verdict = not (text_eq verdict (codes "useful") || text_eq verdict (codes "wrong"))

module _ (sha256_hex : Text → Text) where
  -- `alertHash`
  unfoldable pub alert_hash : Text → Text
  alert_hash name = take 12 (sha256_hex name)

  unfoldable pub pending_key : Text → Text
  pending_key fid = codes "fb:pending:" ++ fid

  unfoldable pub verdict_prefix : Text → Text
  unfolding alert_hash
  verdict_prefix name = codes "fb:verdict:" ++ (alert_hash name ++ codes ":")

abbrev pub with_entry : Option VerdictEntry → List VerdictEntry → List VerdictEntry
with_entry none rest = rest
with_entry (some e) rest = e ∷ rest

module _ {S : Type 0} (st : Store S) (sha256_hex : Text → Text) (lib : Lib) (m : Manager) where
  unfoldable pub links : Text → Text × Text
  links fid =
      let base = m.public_url ++ (codes "/feedback?id=" ++ (fid ++ codes "&verdict=")) in
      (base ++ codes "useful", base ++ codes "wrong")

  abbrev pub linked : Text → Result StoreError (Unit {0}) × S → (Text × Text) × S
  linked fid (err e, s) = (([], []), s)
  linked fid (ok u, s) = (links fid, s)

  abbrev pub record_marshalled : ℕ → Text → Option Text → S → (Text × Text) × S
  record_marshalled now fid none s = (links fid, s)
  record_marshalled now fid (some raw) s =
      linked fid (st.set now (pending_key sha256_hex fid) raw m.pending_ttl s)

  abbrev pub pending_of : AlertPayload → Analysis → PendingEntry
  pending_of p a = record {
    cluster_id = p.cluster_id;
    alert_name = p.alert_name;
    namespace = p.namespace;
    analysis = some a;
  }

  abbrev pub record_present : ℕ → AlertPayload → Option Analysis → S → (Text × Text) × S
  record_present now p none s = (([], []), s)
  record_present now p (some a) s =
      record_marshalled now (id sha256_hex p) (lib.marshal_pending (pending_of p a)) s

  -- `Record`
  unfoldable pub record_feedback : ℕ → AlertPayload → Option Analysis → S → (Text × Text) × S
  unfolding links_enabled links pending_key id
  record_feedback now p a s = if links_enabled m then record_present now p a s else (([], []), s)

  abbrev pub decoded : List Text → List VerdictEntry
  decoded [] = []
  decoded (raw ∷ raws) = with_entry (lib.unmarshal_verdict raw) (decoded raws)

  abbrev pub example_of : VerdictEntry → Example
  example_of e = record { alert_name = e.alert_name; verdict = e.verdict; analysis = e.analysis }

  abbrev pub chosen : Result StoreError (List Text) → List Example
  chosen (err e) = []
  chosen (ok vals) = map example_of (take m.few_shot (lib.newest_first (decoded vals)))

  -- `Examples`
  unfoldable pub examples : ℕ → AlertPayload → S → List Example
  unfolding verdict_prefix
  examples now p s = chosen (st.list_by_prefix now (verdict_prefix sha256_hex p.alert_name) s)

  -- The verdict on a pending entry.
  abbrev pub verdict_of : ℕ → Text → PendingEntry → VerdictEntry
  verdict_of now verdict e = record {
    alert_name = e.alert_name;
    verdict = verdict;
    analysis = e.analysis;
    ts = now / second;
  }

  abbrev pub accept : ℕ → Text → Text → Option PendingEntry → S → Reply × S
  accept now fid verdict none s = (internal_error, s)
  accept now fid verdict (some e) s = (
    thanks verdict e.alert_name,
    write_if_marshalled st now (verdict_prefix sha256_hex e.alert_name ++ fid) m.verdict_ttl
        (lib.marshal_verdict (verdict_of now verdict e)) s,
  )

  abbrev pub resolve : ℕ → Text → Text → Result StoreError (Option Text) → S → Reply × S
  resolve now fid verdict (err e) s = (internal_error, s)
  resolve now fid verdict (ok none) s = (not_found, s)
  resolve now fid verdict (ok (some raw)) s = accept now fid verdict (lib.unmarshal_pending raw) s

  -- `ServeHTTP`, of the id and the verdict in the query.
  unfoldable pub serve_http : ℕ → Text → Text → S → Reply × S
  unfolding pending_key verdict_prefix not_verdict
  serve_http now fid verdict s =
      if is_empty fid || not_verdict verdict
      then (bad_request, s)
      else resolve now fid verdict (st.get now (pending_key sha256_hex fid) s) s
