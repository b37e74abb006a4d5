-- ===== src/Feedback/Recent.antt =====
-- Which verdicts are shown to the model.
use muthur.Prelude.{
  codes, Option, none, some, ◌⊎◌, ◌∙◌, ℕ, zero, suc, ◌≤◌, Text, List, [], ◌∷◌, ◌++◌, ok, ◌≡◌, refl,
  sym, subst, ap, arith, All, In, inl, inr, map, take, drop, length,
}
use muthur.Alert.{AlertPayload}
use muthur.Feedback.{
  Lib, Manager, VerdictEntry, Example, with_entry, alert_hash, decoded, chosen, examples,
  verdict_prefix,
}
use muthur.Store.{Store}

-- Every entry is at least as new as those behind it.
abbrev pub Newest : List VerdictEntry → Type 0
Newest [] = Unit
Newest (e ∷ es) = All (λ f. f.ts ≤ e.ts) es × Newest es

-- What `sort.Slice` documents, for the order by falling time.
pub record SortLaws (lib : Lib) : Type 0 where
  pub sorted : (l : List VerdictEntry) → Newest (lib.newest_first l)
  pub members : (l : List VerdictEntry) (e : VerdictEntry) → In e (lib.newest_first l) → In e l
  pub whole : (l : List VerdictEntry) (e : VerdictEntry) → In e l → In e (lib.newest_first l)

All-drop :
    (P : VerdictEntry → Type 0) (n : ℕ) (es : List VerdictEntry) → All P es → All P (drop n es)
All-drop P zero es h = h
All-drop P (suc n) [] h = tt
All-drop P (suc n) (e ∷ es) h = All-drop P n es h.1

Newest-take :
    (n : ℕ) (es : List VerdictEntry)
    → Newest es
    → All (λ e. All (λ f. f.ts ≤ e.ts) (drop n es)) (take n es)
Newest-take zero es h = tt
Newest-take (suc n) [] h = tt
Newest-take (suc n) (e ∷ es) h = (All-drop (λ f. f.ts ≤ e.ts) n es h.0, Newest-take n es h.1)

length-take : (n : ℕ) (es : List VerdictEntry) → length (take n es) ≤ n
length-take zero es = omega arith
length-take (suc n) [] = omega arith
length-take (suc n) (e ∷ es) = omega (arith, length-take n es)

In-take : (n : ℕ) (es : List VerdictEntry) (e : VerdictEntry) → In e (take n es) → In e es
In-take zero es e h = elim h [ ]
In-take (suc n) [] e h = elim h [ ]
In-take (suc n) (f ∷ es) e (inl same) = inl same
In-take (suc n) (f ∷ es) e (inr h) = inr (In-take n es e h)

All-members :
    {P : VerdictEntry → Type 0} (es : List VerdictEntry)
    → ((e : VerdictEntry) → In e es → P e)
    → All P es
All-members [] h = tt
All-members (e ∷ es) h = (h e (inl refl), All-members es (λ f i. h f (inr i)))

-- The examples are those of some stored verdicts: few, newer than the rest, and of all that decode.
pub record Recent (lib : Lib) (limit : ℕ) (vals : List Text) (out : List Example) : Type 0 where
  pub kept : List VerdictEntry
  pub left : List VerdictEntry
  pub shown :
      out
      ≡ map
          (λ e. record { alert_name = e.alert_name; verdict = e.verdict; analysis = e.analysis })
          kept
  pub few : length kept ≤ limit
  pub stored : All (λ e. (raw : Text) × In raw vals × (lib.unmarshal_verdict raw ≡ some e)) kept
  pub newer : All (λ e. All (λ f. f.ts ≤ e.ts) left) kept
  pub complete :
      All
        (λ raw.
          (lib.unmarshal_verdict raw ≡ none)
          ⊎ ((e : VerdictEntry) × (lib.unmarshal_verdict raw ≡ some e) × In e (kept ++ left)))
        vals

module _ {S : Type 0} (st : Store S) (sha256_hex : Text → Text) (lib : Lib) (m : Manager) where
  abbrev all_decoded : List Text → List VerdictEntry
  all_decoded = decoded st sha256_hex lib m

  -- What decodes is found among the decoded.
  In-decoded :
      (vals : List Text) (e : VerdictEntry)
      → In e (all_decoded vals)
      → (raw : Text) × In raw vals × (lib.unmarshal_verdict raw ≡ some e)
  In-decoded [] e h = elim h [ ]
  In-decoded (raw ∷ vals) e h = split (λ i. In-decoded vals e i) (lib.unmarshal_verdict raw) refl h
    where
      split :
          (In e (all_decoded vals) → (r : Text) × In r vals × (lib.unmarshal_verdict r ≡ some e))
          → (o : Option VerdictEntry) → lib.unmarshal_verdict raw ≡ o
          → In e (with_entry o (all_decoded vals))
          → (r : Text) × In r (raw ∷ vals) × (lib.unmarshal_verdict r ≡ some e)
      split before none reads i = let (r, member, found) = before i in (r, inr member, found)
      split before (some f) reads (inl same) = (raw, inl refl, reads ∙ ap some (sym same))
      split before (some f) reads (inr i) =
          let (r, member, found) = before i in (r, inr member, found)

  -- A text that decodes to nothing, or to an entry as wanted.
  abbrev Included : (VerdictEntry → Type 0) → Text → Type 0
  Included P raw =
      (lib.unmarshal_verdict raw ≡ none)
      ⊎ ((e : VerdictEntry) × (lib.unmarshal_verdict raw ≡ some e) × P e)

  All-decoded :
      (P : VerdictEntry → Type 0) (vals : List Text)
      → All P (all_decoded vals)
      → All (Included P) vals
  All-decoded P [] h = tt
  All-decoded P (raw ∷ vals) h =
      split (λ i. All-decoded P vals i) (lib.unmarshal_verdict raw) refl h
    where
      split :
          (All P (all_decoded vals) → All (Included P) vals)
          → (o : Option VerdictEntry) → lib.unmarshal_verdict raw ≡ o
          → All P (with_entry o (all_decoded vals))
          → Included P raw × All (Included P) vals
      split before none reads i = (inl reads, before i)
      split before (some f) reads i = (inr (f, reads, i.0), before i.1)

  -- The examples for an alert are verdicts listed under the hash of its name, at most as many as
  -- configured, with their alert, verdict and analysis; no verdict that is left out is newer than
  -- one that is shown, and every listed text that decodes to a verdict is one or the other; if
  -- sorting does what it documents.
  pub examples-Recent :
      (now : ℕ) (p : AlertPayload) (s : S) (vals : List Text)
      → SortLaws lib
      → st.list_by_prefix now
          (codes "fb:verdict:" ++ (take 12 (sha256_hex p.alert_name) ++ codes ":"))
          s
        ≡ ok vals
      → Recent lib m.few_shot vals (examples st sha256_hex lib m now p s)
  unfolding examples verdict_prefix alert_hash
  examples-Recent now p s vals laws listed =
      let entries = all_decoded vals in
      let sorted = lib.newest_first entries in
      record {
        kept = take m.few_shot sorted;
        left = drop m.few_shot sorted;
        shown = ap (chosen st sha256_hex lib m) listed;
        few = length-take m.few_shot sorted;
        stored =
            All-members (take m.few_shot sorted)
              (λ e i. In-decoded vals e (laws.members entries e (In-take m.few_shot sorted e i)));
        newer = Newest-take m.few_shot sorted (laws.sorted entries);
        complete =
            All-decoded (λ e. In e (take m.few_shot sorted ++ drop m.few_shot sorted)) vals
              (All-members entries
                (λ e i. subst (In e) (sym (take_drop m.few_shot sorted)) (laws.whole entries e i)));
      }
    where
      take_drop : (n : ℕ) (es : List VerdictEntry) → take n es ++ drop n es ≡ es
      take_drop zero es = refl
      take_drop (suc n) [] = refl
      take_drop (suc n) (e ∷ es) = ap (λ r. e ∷ r) (take_drop n es)
