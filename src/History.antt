-- ===== src/History.antt =====
-- internal/history/history.go: the record of an incident. A nil store is none; JSON and SHA-256 are parameters, metrics and logs are
-- not modelled. The store and the representative are not nil. An
-- alert of a group comes with whether it is the representative itself, which is what comparing the pointers finds.
pub mod Recorded
use muthur.Prelude.{
  ℕ, zero, suc, ◌/◌, ◌*◌, Text, codes, List, [], ◌∷◌, ◌++◌, Option, none, some, Result, ok, err, ℤ,
  pos, negsuc, length, Bool, if◌then◌else◌,
}
use muthur.Alert.{AlertPayload}
use muthur.AlertKey.{id}
use muthur.Auth.Replay.{second}
use muthur.Evaluator.{Analysis}
use muthur.Feedback.{day}
use muthur.Store.{Store, StoreError}

pub record Record : Type 0 where
  pub id : Text
  pub cluster_id : Text
  pub alert_name : Text
  pub namespace : Text
  pub severity : Text
  pub fired_at : ℤ
  pub alert_count : ℕ
  pub related_alerts : List Text
  pub analysis : Option Analysis
  pub recorded_at : ℕ

-- What the code calls of encoding/json.
pub record Json : Type 0 where
  pub marshal : Record → Option Text
  pub unmarshal : Text → Option Record

pub data HistoryError : Type 0 where
  store_failed : HistoryError
  decode_failed : HistoryError

-- The `ttl` of `New`; one that is not positive is thirty days.
unfoldable pub new_ttl : ℤ → ℕ
new_ttl (pos zero) = 30 * day
new_ttl (pos (suc n)) = suc n
new_ttl (negsuc n) = 30 * day

-- The names of the alerts that are not the representative.
unfoldable pub related : List (Bool × AlertPayload) → List Text
related [] = []
related ((is_rep, a) ∷ alerts) =
    let rest = related alerts in if is_rep then rest else a.alert_name ∷ rest

abbrev pub at_least_one : ℕ → ℕ
at_least_one zero = 1
at_least_one (suc n) = suc n

module _ {S : Type 0} (st : Store S) (sha256_hex : Text → Text) (json : Json) (ttl : ℕ) where
  unfoldable pub history_key : Text → Text
  history_key rid = codes "incident:" ++ rid

  -- The record that `Record` builds for a group.
  unfoldable pub record_of :
      ℕ → AlertPayload → Option Analysis → List (Bool × AlertPayload) → Record
  unfolding id related
  record_of now rep a alerts = record {
    id = id sha256_hex rep;
    cluster_id = rep.cluster_id;
    alert_name = rep.alert_name;
    namespace = rep.namespace;
    severity = rep.severity;
    fired_at = rep.fired_at;
    alert_count = at_least_one (length alerts);
    related_alerts = related alerts;
    analysis = a;
    recorded_at = now / second;
  }

  abbrev pub written : ℕ → Text → Option Text → S → S
  written now rid none s = s
  written now rid (some raw) s = (st.set now (history_key rid) raw ttl s).1

  -- `Record`
  unfoldable pub record_incident :
      ℕ → AlertPayload → Option Analysis → List (Bool × AlertPayload) → S → S
  unfolding history_key record_of
  record_incident now rep a alerts s =
      let rec = record_of now rep a alerts in written now rec.id (json.marshal rec) s

  abbrev pub decode_record : Option Record → Result HistoryError (Option Record)
  decode_record none = err decode_failed
  decode_record (some r) = ok (some r)

  abbrev pub read : Result StoreError (Option Text) → Result HistoryError (Option Record)
  read (err e) = err store_failed
  read (ok none) = ok none
  read (ok (some raw)) = decode_record (json.unmarshal raw)

  -- `Get`
  unfoldable pub get : ℕ → Text → S → Result HistoryError (Option Record)
  unfolding history_key
  get now rid s = read (st.get now (history_key rid) s)

  abbrev pub with_record : Option Record → List Record → List Record
  with_record none rest = rest
  with_record (some r) rest = r ∷ rest

  abbrev pub decode_all : List Text → List Record
  decode_all [] = []
  decode_all (raw ∷ raws) = with_record (json.unmarshal raw) (decode_all raws)

  abbrev pub read_all : Result StoreError (List Text) → Result HistoryError (List Record)
  read_all (err e) = err store_failed
  read_all (ok vals) = ok (decode_all vals)

  -- `List`
  unfoldable pub list : ℕ → S → Result HistoryError (List Record)
  list now s = read_all (st.list_by_prefix now (codes "incident:") s)
