-- ===== src/Embed.antt =====
-- internal/embed/embed.go: the feature-hashing embedder and the cosine similarity. Floating point, the FNV hashes
-- and the Unicode classes are parameters; `Single` is float32 and `Double` float64.
use muthur.Prelude.{
  ℕ, zero, suc, ◌%◌, Text, List, [], ◌∷◌, Bool, ℤ, pos, negsuc, to_lower, length, not, ◌||◌, ◌==◌,
  if◌then◌else◌, is_empty, reverse, map,
}

pub record Floats (Single Double : Type 0) : Type 0 where
  pub zero_single : Single
  pub one_single : Single
  pub add_single : Single → Single → Single
  pub sub_single : Single → Single → Single
  pub mul_single : Single → Single → Single
  pub widen : Single → Double
  pub narrow : Double → Single
  pub zero_double : Double
  pub one_double : Double
  pub add_double : Double → Double → Double
  pub mul_double : Double → Double → Double
  pub div_double : Double → Double → Double
  pub sqrt : Double → Double
  pub eq_double : Double → Double → Bool
  -- `a > b` and `a >= b`
  pub gt_double : Double → Double → Bool
  pub ge_double : Double → Double → Bool

-- What the code calls of hash/fnv and unicode.
pub record TextLib : Type 0 where
  pub fnv32a : Text → ℕ
  pub fnv32 : Text → ℕ
  pub is_letter : ℕ → Bool
  pub is_number : ℕ → Bool

-- `HashEmbedder`
pub record HashEmbedder : Type 0 where
  pub dim : ℕ

-- `NewHashEmbedder`
unfoldable pub new_hash_embedder : ℤ → HashEmbedder
new_hash_embedder (pos zero) = record { dim = 256 }
new_hash_embedder (pos (suc n)) = record { dim = suc n }
new_hash_embedder (negsuc n) = record { dim = 256 }

-- `strings.FieldsFunc`, with the field read so far, in reverse.
unfoldable pub fields_func : (ℕ → Bool) → Text → Text → List Text
fields_func sep [] [] = []
fields_func sep (c ∷ field) [] = reverse (c ∷ field) ∷ []
fields_func sep field (c ∷ s) =
    let closed = fields_func sep [] s in
    let longer = fields_func sep (c ∷ field) s in
    if sep c then (if is_empty field then closed else reverse field ∷ closed) else longer

module _ (lib : TextLib) where
  -- `tokenize`
  unfoldable pub tokenize : Text → List Text
  unfolding to_lower fields_func
  tokenize text = fields_func (λ r. not (lib.is_letter r || lib.is_number r)) [] (to_lower text)

  -- `bucket`; a dimension of 0 does not arise.
  unfoldable pub bucket : Text → ℕ → ℕ
  bucket tok dim = lib.fnv32a tok % dim

  -- `signBit`
  unfoldable pub sign_bit : Text → Bool
  sign_bit tok = (lib.fnv32 tok % 2) == 0

-- `make([]T, n)`
abbrev pub repeated : {A : Type 0} → ℕ → A → List A
repeated zero a = []
repeated (suc n) a = a ∷ repeated n a

-- `vec[i] = f(vec[i])`
unfoldable pub modify : {A : Type 0} → ℕ → (A → A) → List A → List A
modify i f [] = []
modify zero f (a ∷ xs) = f a ∷ xs
modify (suc i) f (a ∷ xs) = a ∷ modify i f xs

module _ {Single Double : Type 0} (fl : Floats Single Double) where
  unfoldable pub sum_squares : Double → List Single → Double
  sum_squares acc [] = acc
  sum_squares acc (v ∷ vs) =
      sum_squares (fl.add_double acc (fl.mul_double (fl.widen v) (fl.widen v))) vs

  -- `normalize`
  unfoldable pub normalize : List Single → List Single
  unfolding sum_squares
  normalize vec =
      let norm = sum_squares fl.zero_double vec in
      let inv = fl.narrow (fl.div_double fl.one_double (fl.sqrt norm)) in
      if fl.eq_double norm fl.zero_double then vec else map (λ v. fl.mul_single v inv) vec

  -- The loop of `Cosine`: the dot product and the two sums of squares.
  unfoldable pub dots :
      Double → Double → Double → List Single → List Single → Double × Double × Double
  dots dot na nb [] ys = (dot, na, nb)
  dots dot na nb (a ∷ xs) [] = (dot, na, nb)
  dots dot na nb (a ∷ xs) (b ∷ ys) =
      dots (fl.add_double dot (fl.mul_double (fl.widen a) (fl.widen b)))
        (fl.add_double na (fl.mul_double (fl.widen a) (fl.widen a)))
        (fl.add_double nb (fl.mul_double (fl.widen b) (fl.widen b))) xs ys

  abbrev pub quotient : Double × Double × Double → Double
  quotient (dot, na, nb) =
      if fl.eq_double na fl.zero_double || fl.eq_double nb fl.zero_double
      then fl.zero_double
      else fl.div_double dot (fl.mul_double (fl.sqrt na) (fl.sqrt nb))

  -- `Cosine`
  unfoldable pub cosine : List Single → List Single → Double
  unfolding dots
  cosine a b =
      if not (length a == length b) || (length a == 0)
      then fl.zero_double
      else quotient (dots fl.zero_double fl.zero_double fl.zero_double a b)

  module _ (lib : TextLib) where
    -- One token of `Embed`.
    unfoldable pub count_token : ℕ → List Single → Text → List Single
    unfolding bucket sign_bit modify
    count_token dim vec tok =
        modify (bucket lib tok dim)
          (λ v.
            if sign_bit lib tok
            then fl.add_single v fl.one_single
            else fl.sub_single v fl.one_single)
          vec

    unfoldable pub count_tokens : ℕ → List Single → List Text → List Single
    unfolding count_token
    count_tokens dim vec [] = vec
    count_tokens dim vec (tok ∷ toks) = count_tokens dim (count_token dim vec tok) toks

    -- `Embed`
    unfoldable pub embed : HashEmbedder → Text → List Single
    unfolding tokenize count_tokens normalize
    embed h text =
        normalize (count_tokens h.dim (repeated h.dim fl.zero_single) (tokenize lib text))
