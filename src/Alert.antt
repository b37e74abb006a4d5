-- ===== src/Alert.antt =====
-- The alert payload of proto/alert.proto, as far as the modelled code reads it. The metric series,
-- the events and the log counters are read by the prompt and by the evidence section only.
use muthur.Prelude.{Text, ℤ, List, Option}

pub record Label : Type 0 where
  pub name : Text
  pub value : Text

pub record AlertTarget : Type 0 where
  pub target_type : Text
  pub pod_name : Text
  pub deployment : Text
  pub daemonset : Text
  pub node : Text
  pub pvc : Text
  pub namespace : Text
  pub resolved_pods : List Text

pub record AlertPayload : Type 0 where
  pub cluster_id : Text
  pub alert_name : Text
  pub severity : Text
  pub namespace : Text
  pub pod_name : Text
  pub fired_at : ℤ
  pub summary : Text
  pub description : Text
  pub target : Option AlertTarget
  pub labels : List Label
  pub status : Text
  pub grafana_base_url : Text
