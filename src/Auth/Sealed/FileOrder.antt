-- ===== src/Auth/Sealed/FileOrder.antt =====
-- In which order `ParseHPKEKeys` keeps the identifiers of the keys in a file.
use mathlib.Core.List.{append_assoc, append-nil}
use muthur.Prelude.{
  Text, codes, List, [], ◌∷◌, ◌++◌, Bool, true, false, Option, none, some, ok, ok-injective,
  >>=-eq-ok, ◌≡◌, refl, sym, subst, ap, ◌∙◌, inl, inr, lookup, lookup-insert, text_eq, Bool-cases,
  arith, ◌||◌, if◌then◌else◌,
}
use muthur.Auth.Sealed.{
  Hpke, HpkeKeySet, ParsedKey, x25519, other_key, Block, hpke_key_id, unless_known, add_key,
  add_wrapped, add_parsed, add_block, add_blocks,
}

-- The first occurrence of every text that was not seen before.
unfoldable pub firsts : (Text → Bool) → List Text → List Text
firsts seen [] = []
firsts seen (k ∷ ks) =
    let known = firsts seen ks in
    let fresh = k ∷ firsts (λ j. text_eq k j || seen j) ks in if seen k then known else fresh

abbrev is_some : {A : Type 0} → Option A → Bool
is_some none = false
is_some (some a) = true

module _ {Key PublicKey Context Aead : Type 0} (hpke : Hpke Key PublicKey Context Aead) where
  abbrev key_ids : Option Key → List Text
  key_ids none = []
  key_ids (some key) = hpke_key_id hpke (hpke.public_key key) ∷ []

  abbrev parsed_ids : Option (ParsedKey Key) → List Text
  parsed_ids none = []
  parsed_ids (some other_key) = []
  parsed_ids (some (x25519 priv)) = key_ids (hpke.new_dhkem priv)

  abbrev block_ids : Block → List Text
  block_ids b =
      if text_eq b.type (codes "PRIVATE KEY") then parsed_ids (hpke.parse_pkcs8 b.bytes) else []

  -- The identifiers of the private keys of a file, as they come, with repeats.
  unfoldable pub file_ids : List Block → List Text
  file_ids [] = []
  file_ids (b ∷ bs) = block_ids b ++ file_ids bs

  -- What was seen is what the map holds.
  abbrev Seen : (Text → Bool) → HpkeKeySet Key → Type 0
  Seen seen ks = (j : Text) → seen j ≡ is_some (lookup j ks.keys)

  -- A key set that comes after another, once the identifiers `ids` were read.
  record Read (seen : Text → Bool) (ks ks' : HpkeKeySet Key) (ids tail : List Text) : Type 0 where
    seen' : Text → Bool
    same : Seen seen' ks'
    order : ks'.order ++ firsts seen' tail ≡ ks.order ++ firsts seen (ids ++ tail)

  unless_known-Read :
      (ks : HpkeKeySet Key) (kid : Text) (key : Key) (o : Option Key) (seen : Text → Bool)
      (tail : List Text)
      → lookup kid ks.keys ≡ o
      → Seen seen ks
      → Read seen ks (unless_known hpke ks kid key o) (kid ∷ []) tail
  unfolding firsts
  unless_known-Read ks kid key (some held) seen tail e same = record {
    seen' = seen;
    same = same;
    order = rw (same kid, e) refl;
  }
  unless_known-Read ks kid key none seen tail e same = record {
    seen' = λ j. text_eq kid j || seen j;
    same = λ j. ground (arith, lookup-insert kid j key ks.keys, same j);
    order =
        rw (same kid, e)
          (append_assoc ks.order (kid ∷ []) (firsts (λ j. text_eq kid j || seen j) tail));
  }

  add_block-Read :
      (ks : HpkeKeySet Key) (b : Block) (ks' : HpkeKeySet Key) (seen : Text → Bool)
      (tail : List Text)
      → Seen seen ks
      → add_block hpke ks b ≡ ok ks'
      → Read seen ks ks' (block_ids b) tail
  unfolding add_block
  add_block-Read ks b ks' seen tail same e =
      elim (Bool-cases (text_eq b.type (codes "PRIVATE KEY"))) [
        | inl private ↦ rw private (from_parsed (hpke.parse_pkcs8 b.bytes) (rw private at e))
        | inr skipped ↦ rw skipped (unchanged (ok-injective _ _ (rw skipped at e)))
      ]
    where
      unchanged : ks ≡ ks' → Read seen ks ks' [] tail
      unchanged h =
          subst (λ k. Read seen ks k [] tail) h (record { seen' = seen; same = same; order = refl })

      from_wrapped :
          (o : Option Key) → add_wrapped hpke ks o ≡ ok ks' → Read seen ks ks' (key_ids o) tail
      from_wrapped none h = cc
      from_wrapped (some key) h =
          let kid = hpke_key_id hpke (hpke.public_key key) in
          subst (λ k. Read seen ks k (kid ∷ []) tail) (ok-injective _ _ h)
            (unfold add_key in
              unless_known-Read ks kid key (lookup kid ks.keys) seen tail refl same)

      from_parsed :
          (o : Option (ParsedKey Key))
          → add_parsed hpke ks o ≡ ok ks'
          → Read seen ks ks' (parsed_ids o) tail
      from_parsed none h = cc
      from_parsed (some other_key) h = cc
      from_parsed (some (x25519 priv)) h = from_wrapped (hpke.new_dhkem priv) h

  add_blocks-order :
      (bs : List Block) (ks ks' : HpkeKeySet Key) (seen : Text → Bool)
      → Seen seen ks
      → add_blocks hpke ks bs ≡ ok ks'
      → ks'.order ≡ ks.order ++ firsts seen (file_ids bs)
  unfolding add_blocks file_ids firsts
  add_blocks-order [] ks ks' seen same e =
      ap (λ k. k.order) (sym (ok-injective _ _ e)) ∙ sym (append-nil ks.order)
  add_blocks-order (b ∷ bs) ks ks' seen same e =
      let (next, added, rest) = >>=-eq-ok (add_block hpke ks b) (λ k. add_blocks hpke k bs) e in
      let r = add_block-Read ks b next seen (file_ids bs) same added in
      add_blocks-order bs next ks' r.seen' r.same rest ∙ r.order

  -- Read from nothing, the identifiers are those of the file, in its order and each once.
  pub add_blocks-firsts :
      (bs : List Block) (ks : HpkeKeySet Key)
      → add_blocks hpke (record { order = []; keys = [] }) bs ≡ ok ks
      → ks.order ≡ firsts (λ j. false) (file_ids bs)
  unfolding lookup
  add_blocks-firsts bs ks e =
      add_blocks-order bs (record { order = []; keys = [] }) ks (λ j. false) (λ j. refl) e
