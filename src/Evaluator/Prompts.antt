-- ===== src/Evaluator/Prompts.antt =====
-- What the provider is asked: how often, and with which prompts.
use muthur.Prelude.{
  ℕ, zero, suc, ◌≤◌, ◌+◌, Text, List, [], ◌∷◌, ◌++◌, true, Result, err, ◌≡◌, refl, arith, All,
  All-append, length, length-append, has_prefix, has_prefix-append, Text,
}
use muthur.Evaluator.{Analysis, Prompt, degraded, corrective_suffix, corrected, run_from, run}
use muthur.Evaluator.Loop.{attempt-ind}

-- The provider that also keeps the prompts it was sent.
unfoldable pub recording :
    {P Raw : Type 0}
    → (Prompt → P → Result Text Raw × P)
    → Prompt
    → P × List Prompt
    → Result Text Raw × (P × List Prompt)
recording complete q (p, sent) = let (r, p') = complete q p in (r, (p', sent ++ (q ∷ [])))

-- A prompt that keeps the rules and the data of the first one, and may only add to the data.
pub record Extends (first : Prompt) (q : Prompt) : Type 0 where
  pub system : q.system ≡ first.system
  pub user : has_prefix first.user q.user ≡ true

has_prefix_refl : (t : Text) → has_prefix t t ≡ true
unfolding has_prefix
has_prefix_refl [] = refl
has_prefix_refl (c ∷ t) = ground (arith, has_prefix_refl t)

corrected-Extends : (first : Prompt) (e : Text) → Extends first (corrected first e)
corrected-Extends first e = record {
  system = refl;
  user = has_prefix-append first.user (corrective_suffix e);
}

-- What a run of up to `n` further attempts adds to the prompts that were sent.
pub record IsBounded (n : ℕ) (first : Prompt) (sent : List Prompt) (later : List Prompt)
    : Type 0 where
  pub at_most : length later ≤ length sent + n
  pub extends : All (Extends first) later

module _ {P Raw : Type 0} (quote : Text → Text) (unmarshal : Raw → Result Text Analysis)
    (complete : Prompt → P → Result Text Raw × P) where
  sent_one :
      (n : ℕ) (first q : Prompt) (sent : List Prompt)
      → Extends first q
      → All (Extends first) sent
      → IsBounded (suc n) first sent (sent ++ (q ∷ []))
  sent_one n first q sent x all = record {
    at_most = omega (arith, length-append sent (q ∷ []));
    extends = All-append (Extends first) sent (q ∷ []) all (x, tt);
  }

  weaker :
      (n : ℕ) (first q : Prompt) (sent later : List Prompt)
      → IsBounded n first (sent ++ (q ∷ [])) later
      → IsBounded (suc n) first sent later
  weaker n first q sent later b = record {
    at_most = omega (arith, length-append sent (q ∷ []), b.at_most);
    extends = b.extends;
  }

  run_from-IsBounded :
      (n : ℕ) (first q : Prompt) (p : P) (sent : List Prompt)
      → Extends first q
      → All (Extends first) sent
      → IsBounded
          (suc n)
          first
          sent
          (run_from quote unmarshal (recording complete) n first q (p, sent)).1.1
  unfolding run_from recording
  run_from-IsBounded zero first q p sent x all =
      attempt-ind quote unmarshal (recording complete) (λ o. IsBounded 1 first sent o.1.1)
        (λ e s. (err (degraded e), s)) (complete q p).0 ((complete q p).1, sent ++ (q ∷ []))
        (λ e. sent_one zero first q sent x all) (λ raw a valid. sent_one zero first q sent x all)
        (λ e. sent_one zero first q sent x all)
  run_from-IsBounded (suc n) first q p sent x all =
      attempt-ind quote unmarshal (recording complete)
        (λ o. IsBounded (suc (suc n)) first sent o.1.1)
        (λ e s. run_from quote unmarshal (recording complete) n first (corrected first e) s)
        (complete q p).0 ((complete q p).1, sent ++ (q ∷ []))
        (λ e. sent_one (suc n) first q sent x all)
        (λ raw a valid. sent_one (suc n) first q sent x all)
        (λ e. weaker (suc n) first q sent _ (
          run_from-IsBounded n first (corrected first e) (complete q p).1 (sent ++ (q ∷ []))
            (corrected-Extends first e) (sent_one n first q sent x all).extends))

  -- Whatever the provider answers, it is asked at most once more than there are retries, and every
  -- prompt has the system half of the first one and begins its user half with the first one's.
  pub run-prompts :
      (max_retries : ℕ) (first : Prompt) (p : P)
      → (length (run quote unmarshal (recording complete) max_retries first (p, [])).1.1
          ≤ max_retries + 1)
        × All
            (Extends first)
            (run quote unmarshal (recording complete) max_retries first (p, [])).1.1
  unfolding run
  run-prompts max_retries first p =
      let b =
        run_from-IsBounded max_retries first first p []
          (record { system = refl; user = has_prefix_refl first.user }) tt in
      (omega (arith, b.at_most), b.extends)
