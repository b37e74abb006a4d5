-- ===== src/Auth/Sealed/KeySet.antt =====
-- The key set that `ParseHPKEKeys` builds: its order and its map hold the same identifiers.
use muthur.Prelude.{map, Text, List, [], ◌∷◌, some, ◌≡◌, ◌≢◌, lookup, All}
use muthur.Auth.Sealed.{Hpke, HpkeKeySet, hpke_key_id, public}

-- No text occurs twice.
abbrev pub NoDuplicates : List Text → Type 0
NoDuplicates [] = Unit
NoDuplicates (k ∷ ks) = All (λ j. k ≢ j) ks × NoDuplicates ks

module _ {Key PublicKey Context Aead : Type 0} (hpke : Hpke Key PublicKey Context Aead) where
  -- An identifier that the map resolves to the key it is the identifier of.
  abbrev pub Resolved : HpkeKeySet Key → Text → Type 0
  Resolved ks kid =
      (key : Key) × (lookup kid ks.keys ≡ some key) × (kid ≡ hpke_key_id hpke (hpke.public_key key))

  -- The identifiers in order are distinct and every one is resolved.
  pub record WellFormed (ks : HpkeKeySet Key) : Type 0 where
    pub distinct : NoDuplicates ks.order
    pub resolved : All (Resolved ks) ks.order

  -- What is advertised of a key set.
  pub record Advertised (ks : HpkeKeySet Key) : Type 0 where
    pub entries : List (Text × PublicKey)
    pub listed : public hpke ks.keys ks.order ≡ some entries
    pub in_order : map (λ e. e.0) entries ≡ ks.order
    pub named : All (λ e. e.0 ≡ hpke_key_id hpke e.1) entries
