-- ===== src/Incident/Rank.antt =====
-- The alert that stands for a group.
use muthur.Prelude.{
  ℕ, ◌≤◌, ◌<◌, List, [], ◌∷◌, ◌++◌, some, ◌≡◌, inl, inr, refl, arith, All, ap, ltb, Bool-cases,
  subst,
}
use muthur.Alert.{AlertPayload}
use muthur.Incident.{severity_rank, best_of, representative}

abbrev rank : AlertPayload → ℕ
rank a = severity_rank a.severity

-- `r` stands at some place of the list: what comes before ranks lower, what comes behind not higher.
pub record IsFirstHighest (r : AlertPayload) (l : List AlertPayload) : Type 0 where
  pub before : List AlertPayload
  pub behind : List AlertPayload
  pub place : l ≡ before ++ (r ∷ behind)
  pub lower : All (λ a. rank a < rank r) before
  pub highest : All (λ a. rank a ≤ rank r) behind

raise_front :
    (r b a : AlertPayload) (l : List AlertPayload)
    → rank b < rank a
    → IsFirstHighest r (a ∷ l)
    → IsFirstHighest r (b ∷ a ∷ l)
raise_front r b a l lt h = go h.before h.place h.lower
  where
    go :
        (before : List AlertPayload)
        → a ∷ l ≡ before ++ (r ∷ h.behind)
        → All (λ x. rank x < rank r) before
        → IsFirstHighest r (b ∷ a ∷ l)
    go [] place lower =
        let same : a ≡ r = ground arith in
        record {
          before = b ∷ [];
          behind = h.behind;
          place = ap (◌∷◌ b) place;
          lower = (subst (λ x. rank b < rank x) same lt, tt);
          highest = h.highest;
        }
    go (x ∷ before) place lower =
        let same : x ≡ a = ground arith in
        let above : rank a < rank r = subst (λ y. rank y < rank r) same lower.0 in
        record {
          before = b ∷ x ∷ before;
          behind = h.behind;
          place = ap (◌∷◌ b) place;
          lower = (omega arith, lower);
          highest = h.highest;
        }

keep_front :
    (r b a : AlertPayload) (l : List AlertPayload)
    → rank a ≤ rank b
    → IsFirstHighest r (b ∷ l)
    → IsFirstHighest r (b ∷ a ∷ l)
keep_front r b a l le h = go h.before h.place h.lower
  where
    go :
        (before : List AlertPayload)
        → b ∷ l ≡ before ++ (r ∷ h.behind)
        → All (λ x. rank x < rank r) before
        → IsFirstHighest r (b ∷ a ∷ l)
    go [] place lower =
        let same : b ≡ r = ground arith in
        let rest : l ≡ h.behind = ground arith in
        record {
          before = [];
          behind = a ∷ h.behind;
          place = ground arith;
          lower = tt;
          highest = (subst (λ x. rank a ≤ rank x) same le, h.highest);
        }
    go (x ∷ before) place lower =
        let same : x ≡ b = ground arith in
        let rest : l ≡ before ++ (r ∷ h.behind) = ground arith in
        let above : rank b < rank r = subst (λ y. rank y < rank r) same lower.0 in
        record {
          before = b ∷ a ∷ before;
          behind = h.behind;
          place = ap (λ t. b ∷ a ∷ t) rest;
          lower = (above, (omega arith, lower.1));
          highest = h.highest;
        }

best_of-IsFirstHighest :
    (b : AlertPayload) (l : List AlertPayload) → IsFirstHighest (best_of b l) (b ∷ l)
unfolding best_of
best_of-IsFirstHighest b [] = record {
  before = [];
  behind = [];
  place = refl;
  lower = tt;
  highest = tt;
}
best_of-IsFirstHighest b (a ∷ l) = elim (Bool-cases (ltb (rank b) (rank a))) [
  | inl lt ↦ rw lt (raise_front (best_of a l) b a l (ground arith) (best_of-IsFirstHighest a l))
  | inr ge ↦ rw ge (keep_front (best_of b l) b a l (ground arith) (best_of-IsFirstHighest b l))
]

-- The alert that stands for a group is the first one of the highest severity in it.
pub representative-IsFirstHighest :
    (a : AlertPayload) (l : List AlertPayload)
    → (r : AlertPayload) × (representative (a ∷ l) ≡ some r) × IsFirstHighest r (a ∷ l)
unfolding representative
representative-IsFirstHighest a l = (best_of a l, refl, best_of-IsFirstHighest a l)
