-- ===== src/Routing.antt =====
-- internal/routing: the first rule that matches an alert names its receivers.
pub mod First
use muthur.Prelude.{
  Text, List, [], ◌∷◌, Bool, true, false, text_eq, is_empty, not, ◌&&◌, if◌then◌else◌,
}
use muthur.Alert.{AlertPayload}

pub record Match : Type 0 where
  pub severity : Text
  pub cluster_id : Text
  pub alert_name : Text
  pub namespace : Text

pub record Rule : Type 0 where
  pub name : Text
  pub match_on : Match
  pub receivers : List Text

-- One test of `Matches`: the field is set and differs.
abbrev pub differs : Text → Text → Bool
differs wanted got = not (is_empty wanted) && not (text_eq wanted got)

unfoldable pub matches : Rule → AlertPayload → Bool
matches r p =
    if differs r.match_on.severity p.severity
    then false
    else if differs r.match_on.cluster_id p.cluster_id
    then false
    else if differs r.match_on.alert_name p.alert_name
    then false
    else if differs r.match_on.namespace p.namespace
    then false
    else true

-- The empty list is Go's nil.
unfoldable pub route : List Rule → AlertPayload → List Text
route [] p = []
route (r ∷ rs) p = if matches r p then r.receivers else route rs p
