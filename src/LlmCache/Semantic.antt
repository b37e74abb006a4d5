-- ===== src/LlmCache/Semantic.antt =====
-- What the semantic layer gives: the most similar of the cached analyses, above the threshold.
use muthur.Prelude.{
  ℕ, Text, codes, List, [], ◌∷◌, ◌++◌, true, false, Option, none, some, ok, ◌≡◌, ◌≢◌, refl, sym, ap,
  In-append_left, In-append_right, All-append, ◌∙◌, ◌⊎◌, inl, inr, All, In, Bool-cases, subst,
}
use muthur.Alert.{AlertPayload}
use muthur.Embed.{Floats, cosine}
use muthur.Evaluator.{Analysis}
use muthur.LlmCache.{
  Json, Cache, VecEntry, signature, better, better_of, best_of, above_threshold, semantic_lookup,
}
use muthur.Store.{Store}

module _ {Single Double : Type 0} (fl : Floats Single Double) where
  -- What the order of float64 keeps, also with a NaN: what is not above a value is not above a greater one.
  pub record OrderLaws : Type 0 where
    pub irreflexive : (a : Double) → fl.gt_double a a ≡ false
    pub below :
        (a b x : Double)
        → fl.gt_double b a ≡ true
        → fl.gt_double x a ≡ false
        → fl.gt_double x b ≡ false

module _ {S Single Double : Type 0} (st : Store S) (sha256_hex : Text → Text) (json : Json Single)
    (fl : Floats Single Double) (c : Cache Single Double) (query : List Single) where
  abbrev held : Double → Option Analysis → List (Analysis × Double) → List (Analysis × Double)
  held sim none rest = rest
  held sim (some a) rest = (a, sim) ∷ rest

  abbrev entry : Option (VecEntry Single) → List (Analysis × Double) → List (Analysis × Double)
  entry none rest = rest
  entry (some e) rest = held (cosine fl query e.vec) e.analysis rest

  -- The analyses of a scan, of the entries that decode and hold one, with their similarity.
  abbrev pub rated : List Text → List (Analysis × Double)
  rated [] = []
  rated (raw ∷ raws) = entry (json.unmarshal_entry raw) (rated raws)

  module _ (order : OrderLaws fl) where
    -- How entries change the best one: it comes from them or stays, they are not above it, and what
    -- was not above the one before is not above it.
    record Step (es : List (Analysis × Double)) (best next : Option Analysis × Double)
        : Type 0 where
      origin : (next ≡ best) ⊎ ((e : Analysis × Double) × (next ≡ (some e.0, e.1)) × In e es)
      above : All (λ e. fl.gt_double e.1 next.1 ≡ false) es
      rising : (x : Double) → fl.gt_double x best.1 ≡ false → fl.gt_double x next.1 ≡ false

    better_of-Step :
        (sim : Double) (o : Option Analysis) (best : Option Analysis × Double)
        → Step (held sim o []) best (better_of st sha256_hex json fl c sim o best)
    better_of-Step sim none best = record { origin = inl refl; above = tt; rising = λ x h. h }
    better_of-Step sim (some a) best = elim (Bool-cases (fl.gt_double sim best.1)) [
      | inl more ↦ rw more (record {
        origin = inr ((a, sim), refl, inl refl);
        above = (order.irreflexive sim, tt);
        rising = λ x h. order.below best.1 sim x more h;
      })
      | inr less ↦ rw less (record { origin = inl refl; above = (less, tt); rising = λ x h. h })
    ]

    better-Step :
        (o : Option (VecEntry Single)) (best : Option Analysis × Double)
        → Step (entry o []) best (better st sha256_hex json fl c query o best)
    better-Step none best = record { origin = inl refl; above = tt; rising = λ x h. h }
    better-Step (some e) best = better_of-Step (cosine fl query e.vec) e.analysis best

    entry-append :
        (o : Option (VecEntry Single)) (rest : List (Analysis × Double))
        → entry o rest ≡ entry o [] ++ rest
    entry-append none rest = refl
    entry-append (some e) rest = held_append (cosine fl query e.vec) e.analysis
      where
        held_append : (sim : Double) (a : Option Analysis) → held sim a rest ≡ held sim a [] ++ rest
        held_append sim none = refl
        held_append sim (some a) = refl

    chained :
        (es fs : List (Analysis × Double)) (best middle last : Option Analysis × Double)
        → Step es best middle
        → Step fs middle last
        → Step (es ++ fs) best last
    chained es fs best middle last s t = record {
      origin = elim t.origin [
        | inr (e, found, member) ↦ inr (e, found, In-append_right e es fs member)
        | inl same ↦ elim s.origin [
          | inr (e, found, member) ↦ inr (e, same ∙ found, In-append_left e es fs member)
          | inl before ↦ inl (same ∙ before)
        ]
      ];
      above = All-append (λ e. fl.gt_double e.1 last.1 ≡ false) es fs (lifted es s.above) t.above;
      rising = λ x h. t.rising x (s.rising x h);
    }
      where
        lifted :
            (gs : List (Analysis × Double))
            → All (λ e. fl.gt_double e.1 middle.1 ≡ false) gs
            → All (λ e. fl.gt_double e.1 last.1 ≡ false) gs
        lifted [] h = tt
        lifted (g ∷ gs) h = (t.rising g.1 h.0, lifted gs h.1)

    best_of-Step :
        (raws : List Text) (best : Option Analysis × Double)
        → Step (rated raws) best (best_of st sha256_hex json fl c query raws best)
    unfolding best_of
    best_of-Step [] best = record { origin = inl refl; above = tt; rising = λ x h. h }
    best_of-Step (raw ∷ raws) best =
        let next = better st sha256_hex json fl c query (json.unmarshal_entry raw) best in
        subst (λ l. Step l best (best_of st sha256_hex json fl c query raws next))
          (sym (entry-append (json.unmarshal_entry raw) (rated raws)))
          (chained (entry (json.unmarshal_entry raw) []) (rated raws) best next
            (best_of st sha256_hex json fl c query raws next)
            (better-Step (json.unmarshal_entry raw) best) (best_of-Step raws next))

    -- The most similar of rated analyses, and similar enough.
    pub record Chosen (a : Analysis) (es : List (Analysis × Double)) : Type 0 where
      pub sim : Double
      pub member : In (a, sim) es
      pub highest : All (λ e. fl.gt_double e.1 sim ≡ false) es
      pub similar : fl.ge_double sim c.threshold ≡ true

    above_threshold-Chosen :
        (a : Analysis) (es : List (Analysis × Double)) (final : Option Analysis × Double)
        → Step es (none, fl.zero_double) final
        → above_threshold st sha256_hex json fl c final ≡ some a
        → Chosen a es
    above_threshold-Chosen a es (none, sim) s e = cc
    above_threshold-Chosen a es (some b, sim) s e =
        elim (Bool-cases (fl.ge_double sim c.threshold)) [
          | inr low ↦ absurd (none≢some (rw low at e))
          | inl enough ↦ elim s.origin [
            | inl initial ↦ absurd (none≢some (sym (ap (λ f. f.0) initial)))
            | inr (f, found, member) ↦ record {
              sim = sim;
              member =
                  subst (λ g. In g es) (pair_same f found (some-injective _ _ (rw enough at e)))
                    member;
              highest = s.above;
              similar = enough;
            }
          ]
        ]
      where
        none≢some : {A : Type 0} {x : A} → none ≢ some x
        none≢some h = cc

        some-injective : {A : Type 0} (x y : A) → some x ≡ some y → x ≡ y
        some-injective x y h = cc

        pair_same :
            (f : Analysis × Double)
            → Path (Option Analysis × Double) (some b, sim) (some f.0, f.1)
            → b ≡ a
            → f ≡ (a, sim)
        pair_same f h same =
            ap (λ x. (x, f.1)) (sym (some-injective b f.0 (ap (λ g. g.0) h)) ∙ same)
            ∙ ap (λ y. (a, y)) (sym (ap (λ g. g.1) h))

module _ {S Single Double : Type 0} (st : Store S) (sha256_hex : Text → Text) (json : Json Single)
    (fl : Floats Single Double) (c : Cache Single Double) (embed : Text → List Single) where
  -- A hit of the semantic layer is the analysis of a cached entry that no other entry surpasses in
  -- similarity to the alert's signature, and its similarity reaches the threshold, if the
  -- comparison of floating-point numbers is an order.
  pub semantic_lookup-Chosen :
      (now : ℕ) (p : AlertPayload) (s : S) (vals : List Text) (a : Analysis) (order : OrderLaws fl)
      → st.list_by_prefix now (codes "vec:") s ≡ ok vals
      → semantic_lookup st sha256_hex json fl c embed now p s ≡ some a
      → Chosen st sha256_hex json fl c
          (embed (signature p))
          order
          a
          (rated st sha256_hex json fl c (embed (signature p)) vals)
  unfolding semantic_lookup
  semantic_lookup-Chosen now p s vals a order listed e =
      let query = embed (signature p) in
      above_threshold-Chosen st sha256_hex json fl c query order a
        (rated st sha256_hex json fl c query vals)
        (best_of st sha256_hex json fl c query vals (none, fl.zero_double))
        (best_of-Step st sha256_hex json fl c query order vals (none, fl.zero_double))
        (rw listed at e)

  -- The semantic layer does not look at the cluster: two alerts that differ in nothing else get the same
  -- analysis from it, whichever cluster it was made for.
  pub semantic_lookup-any_cluster :
      (now : ℕ) (p : AlertPayload) (cluster : Text) (s : S)
      → semantic_lookup st sha256_hex json fl c embed now (record p { cluster_id = cluster }) s
        ≡ semantic_lookup st sha256_hex json fl c embed now p s
  unfolding semantic_lookup signature
  semantic_lookup-any_cluster now p cluster s = refl
