-- ===== src/Routing/First.antt =====
-- `Matches` against its documented meaning, and first-match routing.
use muthur.Prelude.{
  Text, List, [], ◌∷◌, ◌++◌, true, false, text_eq_iff, ◌≡◌, ◌⊎◌, inl, inr, ◌↔◌, All, arith, refl,
  sym, ap, ◌∙◌, ◌≢◌, Bool-cases,
}
use muthur.Alert.{AlertPayload}
use muthur.Routing.{Rule, differs, matches, route}

-- An empty field of a rule accepts everything, any other one its own text.
abbrev pub Accepts : Text → Text → Type 0
Accepts wanted got = (wanted ≡ []) ⊎ (wanted ≡ got)

pub record Applies (r : Rule) (p : AlertPayload) : Type 0 where
  pub severity : Accepts r.match_on.severity p.severity
  pub cluster : Accepts r.match_on.cluster_id p.cluster_id
  pub alert : Accepts r.match_on.alert_name p.alert_name
  pub namespace : Accepts r.match_on.namespace p.namespace

Accepts_of_differs : (w g : Text) → differs w g ≡ false → Accepts w g
Accepts_of_differs [] g h = inl refl
Accepts_of_differs (c ∷ w) g h = inr ((text_eq_iff (c ∷ w) g).0 (ground arith))

differs_of_Accepts : (w g : Text) → Accepts w g → differs w g ≡ false
differs_of_Accepts w g (inl e) = rw e refl
differs_of_Accepts w g (inr e) = ground (arith, (text_eq_iff w g).1 e)

-- A rule matches exactly the alerts that each of its fields accepts: an empty field accepts
-- everything, any other one its own text.
pub matches_iff : (r : Rule) (p : AlertPayload) → (matches r p ≡ true) ↔ Applies r p
unfolding matches
matches_iff r p = (
  λ h. record {
    severity = Accepts_of_differs r.match_on.severity p.severity (ground arith);
    cluster = Accepts_of_differs r.match_on.cluster_id p.cluster_id (ground arith);
    alert = Accepts_of_differs r.match_on.alert_name p.alert_name (ground arith);
    namespace = Accepts_of_differs r.match_on.namespace p.namespace (ground arith);
  },
  λ a. ground (
    arith,
    differs_of_Accepts r.match_on.severity p.severity a.severity,
    differs_of_Accepts r.match_on.cluster_id p.cluster_id a.cluster,
    differs_of_Accepts r.match_on.alert_name p.alert_name a.alert,
    differs_of_Accepts r.match_on.namespace p.namespace a.namespace,
  ),
)

-- Rules that do not apply are passed over, and the first that applies decides: the rules behind it
-- do not matter.
pub route-first :
    (before after : List Rule) (r : Rule) (p : AlertPayload)
    → All (λ q. ¬ Applies q p) before
    → Applies r p
    → route (before ++ (r ∷ after)) p ≡ r.receivers
unfolding route
route-first [] after r p none' a = rw ((matches_iff r p).1 a)
route-first (q ∷ before) after r p none' a = elim (Bool-cases (matches q p)) [
  | inl hit ↦ absurd (none'.0 ((matches_iff q p).0 hit))
  | inr miss ↦ rw miss (route-first before after r p none'.1 a)
]

-- Where no rule applies nobody is notified.
pub route-none :
    (rules : List Rule) (p : AlertPayload) → All (λ q. ¬ Applies q p) rules → route rules p ≡ []
unfolding route
route-none [] p none' = refl
route-none (q ∷ rules) p none' = elim (Bool-cases (matches q p)) [
  | inl hit ↦ absurd (none'.0 ((matches_iff q p).0 hit))
  | inr miss ↦ rw miss (route-none rules p none'.1)
]

-- Whom the rules name for an alert: the receivers of a rule that applies and has none that applies
-- before it, or nobody where no rule applies.
pub data Named (rules : List Rule) (p : AlertPayload) : List Text → Type 0 where
  by_rule :
      (before after : List Rule) (r : Rule)
      → rules ≡ before ++ (r ∷ after)
      → All (λ q. ¬ Applies q p) before
      → Applies r p
      → Named rules p r.receivers
  by_none : All (λ q. ¬ Applies q p) rules → Named rules p []

Named-behind :
    (q : Rule) (rules : List Rule) (p : AlertPayload) (names : List Text)
    → ¬ Applies q p
    → Named rules p names
    → Named (q ∷ rules) p names
Named-behind q rules p _ miss (by_rule before after r e none' a) =
    by_rule (q ∷ before) after r (ap (λ l. q ∷ l) e) (miss, none') a
Named-behind q rules p _ miss (by_none none') = by_none (miss, none')

pub route-Named : (rules : List Rule) (p : AlertPayload) → Named rules p (route rules p)
unfolding route
route-Named [] p = by_none tt
route-Named (q ∷ rules) p = elim (Bool-cases (matches q p)) [
  | inl hit ↦ rw hit (by_rule [] rules q refl tt ((matches_iff q p).0 hit))
  | inr miss ↦ rw miss (
      Named-behind q rules p (route rules p) (λ a. true≢false (sym ((matches_iff q p).1 a) ∙ miss))
        (route-Named rules p))
]
  where
    true≢false : true ≢ false
    true≢false e = cc
