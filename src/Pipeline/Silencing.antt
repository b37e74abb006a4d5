-- ===== src/Pipeline/Silencing.antt =====
-- What it takes for the pipeline to reach the silence API.
use muthur.Prelude.{
  ℕ, codes, List, true, Option, none, some, ◌≡◌, ◌≢◌, refl, ap, Bool-cases, inl, inr, text_eq,
  text_eq_iff,
}
use muthur.Alert.{AlertPayload}
use muthur.Evaluator.{Analysis}
use muthur.Routing.{Rule}
use muthur.Silence.{Client}
use muthur.Silence.Guards.{IsPermitted, create_silence-cases}
use muthur.Pipeline.{Services, maybe_silence}

-- The analysis asks for a silence and does not call itself a guess.
pub record IsSureOfSilence (o : Option Analysis) : Type 0 where
  pub analysis : Analysis
  pub is_there : o ≡ some analysis
  pub asks : analysis.silence ≡ true
  pub is_sure : analysis.confidence ≢ codes "low"

module _ {W M X : Type 0} (services : Services W M X) (rules : List Rule) (client : Client) where
  -- Whenever the silence step changes anything, the analysis asked for the silence with a
  -- confidence that is not low, the feature is on, the severity is not critical in any spelling,
  -- and the alert name is on the allowlist if there is one.
  pub maybe_silence-IsPermitted :
      (now : ℕ) (p : AlertPayload) (analysis : Option Analysis) (w : W)
      → maybe_silence services rules client now p analysis w ≢ w
      → IsSureOfSilence analysis × IsPermitted client p
  unfolding maybe_silence
  maybe_silence-IsPermitted now p none w changed = absurd (changed refl)
  maybe_silence-IsPermitted now p (some a) w changed = elim (Bool-cases a.silence) [
    | inr quiet ↦ absurd (changed (rw quiet refl))
    | inl asks ↦ elim (Bool-cases (text_eq a.confidence (codes "low"))) [
      | inl low ↦ absurd (changed (rw (asks, low) refl))
      | inr sure ↦
          elim (create_silence-cases services.rfc3339 services.post_silence now client p
            a.silence_reason w) [
              | inl (ok', e) ↦ (
                record {
                  analysis = a;
                  is_there = refl;
                  asks = asks;
                  is_sure = λ e'. cc ((text_eq_iff a.confidence (codes "low")).1 e');
                },
                ok',
              )
              | inr (refused, e) ↦ absurd (changed (rw (asks, sure) (ap (λ r. r.1) e)))
            ]
    ]
  ]
