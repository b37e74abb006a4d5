-- ===== src/Auth/HttpSig/Base.antt =====
-- The signature base determines what it covers.
use muthur.Prelude.{ℕ, Text, codes, List, [], ◌∷◌, ◌++◌, ◌≡◌, ◌≢◌, refl, All}
use muthur.Auth.HttpSig.{
  Header, component_value, base_from, signature_base, signed_components, in_quotes,
}

-- A text that holds the character c nowhere.
abbrev pub Without : ℕ → Text → Type 0
Without c s = All (λ x. x ≢ c) s

-- Where neither text holds the separator, what stands before it and after it is determined.
pub separated :
    (c : ℕ) (a b s t : Text)
    → Without c a
    → Without c b
    → a ++ (c ∷ s) ≡ b ++ (c ∷ t)
    → (a ≡ b) × (s ≡ t)
separated c [] [] s t ha hb e = (refl, cc)
separated c [] (y ∷ b) s t ha hb e = absurd (hb.0 cc)
separated c (x ∷ a) [] s t ha hb e = absurd (ha.0 cc)
separated c (x ∷ a) (y ∷ b) s t ha hb e =
    let tail : a ++ (c ∷ s) ≡ b ++ (c ∷ t) = cc in
    let (same, rest) = separated c a b s t ha.1 hb.1 tail in (cc, rest)

pub append_cancel : (p s t : Text) → p ++ s ≡ p ++ t → s ≡ t
append_cancel [] s t e = e
append_cancel (x ∷ p) s t e = append_cancel p s t cc

-- Every component is a single line.
abbrev pub SingleLines : List Text → Text → Text → Header → Type 0
SingleLines cs method path h = All (λ c. Without 10 (component_value method path h c)) cs

-- Two requests agree on the components.
abbrev pub SameComponents : List Text → Text → Text → Header → Text → Text → Header → Type 0
SameComponents cs method path h method' path' h' =
    All (λ c. component_value method path h c ≡ component_value method' path' h' c) cs

base_from-injective :
    (cs : List Text) (method path : Text) (h : Header) (params method' path' : Text) (h' : Header)
    (params' : Text)
    → SingleLines cs method path h
    → SingleLines cs method' path' h'
    → base_from cs method path h params ≡ base_from cs method' path' h' params'
    → SameComponents cs method path h method' path' h' × (params ≡ params')
unfolding base_from
base_from-injective [] m p h ps m' p' h' ps' l l' e = (
  tt,
  append_cancel (codes ": ") ps ps' (
      append_cancel (in_quotes (codes "@signature-params")) (codes ": " ++ ps) (codes ": " ++ ps')
        e),
)
base_from-injective (c ∷ cs) m p h ps m' p' h' ps' l l' e =
    let v = component_value m p h c in
    let v' = component_value m' p' h' c in
    let rest = base_from cs m p h ps in
    let rest' = base_from cs m' p' h' ps' in
    let line =
      append_cancel (in_quotes c) (codes ": " ++ (v ++ (10 ∷ rest)))
        (codes ": " ++ (v' ++ (10 ∷ rest'))) e in
    let (same, more) =
      separated 10 v v' rest rest' l.0 l'.0
        (append_cancel (codes ": ") (v ++ (10 ∷ rest)) (v' ++ (10 ∷ rest')) line) in
    let (others, params) = base_from-injective cs m p h ps m' p' h' ps' l.1 l'.1 more in
    ((same, others), params)

-- Two requests with the same signature base agree on the method, the path, every signed header
-- and the signature parameters.
pub signature_base-injective :
    (method path : Text) (h : Header) (params method' path' : Text) (h' : Header) (params' : Text)
    → SingleLines signed_components method path h
    → SingleLines signed_components method' path' h'
    → signature_base method path h params ≡ signature_base method' path' h' params'
    → SameComponents signed_components method path h method' path' h' × (params ≡ params')
unfolding signature_base
signature_base-injective m p h ps m' p' h' ps' l l' e =
    base_from-injective signed_components m p h ps m' p' h' ps' l l' e
