-- ===== src/Pipeline/Delivery.antt =====
-- Who gets a message.
use mathlib.Core.List.{append_assoc, append-nil}
use muthur.Prelude.{
  Text, List, [], ◌∷◌, ◌++◌, Bool, Option, none, some, keep, ◌≡◌, sym, ◌∙◌, Bool-cases, inl, inr,
  if◌then◌else◌,
}
use muthur.Alert.{AlertPayload}
use muthur.Routing.{Rule, route}
use muthur.Routing.First.{Named, route-Named}
use muthur.Silence.{Client}
use muthur.Pipeline.{Services, send_all, send_by, deliver}

-- A receiver that notes what it gets and then fails or not.
abbrev pub noting :
    {M : Type 0}
    → (Text → Bool)
    → (Text → Bool)
    → Text
    → Option (M → List (Text × M) → Bool × List (Text × M))
noting registered fails name =
    if registered name then some (λ m sent. (fails name, sent ++ ((name, m) ∷ []))) else none

abbrev pub addressed : {M : Type 0} → M → List Text → List (Text × M)
addressed m [] = []
addressed m (name ∷ names) = (name, m) ∷ addressed m names

module _ {M X : Type 0} (services : Services (List (Text × M)) M X) (rules : List Rule)
    (client : Client) (registered fails : Text → Bool) where
  abbrev pub noted : Services (List (Text × M)) M X
  noted = record services { notifier = noting registered fails }

  send_all-noted :
      (names : List Text) (msg : M) (sent : List (Text × M))
      → send_all noted rules client names msg sent ≡ sent ++ addressed msg (keep registered names)
  unfolding send_all keep
  send_all-noted [] msg sent = sym (append-nil sent)
  send_all-noted (name ∷ names) msg sent = elim (Bool-cases (registered name)) [
    | inl known ↦
        rw (known, send_by)
          (send_all-noted names msg (sent ++ ((name, msg) ∷ []))
            ∙ append_assoc sent ((name, msg) ∷ []) (addressed msg (keep registered names)))
    | inr unknown ↦ rw (unknown, send_by) (send_all-noted names msg sent)
  ]

  -- A message goes to every registered receiver of the first rule that applies to the alert, in the
  -- rule's order, and to nobody else, or to nobody where no rule applies; receivers that are not
  -- registered and sends that fail stop none of the others. A rule applies where each of its fields
  -- is empty or equal to the alert's.
  pub deliver-noted :
      (p : AlertPayload) (msg : M) (sent : List (Text × M))
      → (names : List Text) × Named rules p names
        × (deliver noted rules client p msg sent ≡ sent ++ addressed msg (keep registered names))
  unfolding deliver
  deliver-noted p msg sent =
      (route rules p, route-Named rules p, send_all-noted (route rules p) msg sent)
