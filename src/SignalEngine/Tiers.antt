-- ===== src/SignalEngine/Tiers.antt =====
-- signal_engine/tiers.py: the dependence of a niche on hostile sources, and the cap on its
-- confidence. Confidences are in millionths.
pub mod Dependence
use trail_signal_os.Prelude.{
  ℕ, ◌+◌, ◌*◌, ◌/◌, ◌%◌, min, Bool, true, false, not, Option, none, some, List, [], ◌∷◌, ◌==◌, ltb,
  if◌then◌else◌, select, any,
}
use trail_signal_os.Guards.{Result, ok, err, ◌>>=◌, Route, guard10_route_403_to_blocked}
use trail_signal_os.SignalEngine.Coverage.{
  SourceTier, hostile, source_code, Signal, CoverageGrid, CoverageGap, build_grid_from_signals,
  hard_required_met, find_coverage_gaps,
}

-- `str(signal.get("source", {}).get("tier", ""))` is the empty text where there is no source.
abbrev pub has_tier_of : List SourceTier → Signal → Bool
has_tier_of tiers s = go s.source
  where
    go : Option SourceTier → Bool
    go none = false
    go (some t) = any (λ (u : SourceTier). source_code t == source_code u) tiers

unfoldable pub filter_signals_without_tiers : List SourceTier → List Signal → List Signal
filter_signals_without_tiers excluded signals = select (λ s. not (has_tier_of excluded s)) signals

unfoldable pub compute_hostile_dependent : ℕ → List Signal → ℕ → ℕ → Result Bool
unfolding filter_signals_without_tiers
compute_hostile_dependent niche_id signals as_of min_confidence =
    build_grid_from_signals niche_id signals as_of >>= λ full_grid.
    if not (hard_required_met min_confidence full_grid)
    then ok false
    else (build_grid_from_signals niche_id (filter_signals_without_tiers (hostile ∷ []) signals)
          as_of
        >>= λ reduced_grid. ok (not (hard_required_met min_confidence reduced_grid)))

-- `HOSTILE_DEPENDENCE_CONFIDENCE_CAP`
abbrev pub hostile_cap : ℕ
hostile_cap = 500000

abbrev pub apply_hostile_dependence_cap : ℕ → Bool → ℕ
apply_hostile_dependence_cap raw_confidence hostile_dependent =
    if not hostile_dependent then raw_confidence else min raw_confidence hostile_cap

unfoldable pub tier_loss_gaps_after_removal :
    ℕ → List Signal → ℕ → List SourceTier → ℕ → Result (List CoverageGap)
unfolding filter_signals_without_tiers
tier_loss_gaps_after_removal niche_id signals as_of excluded min_confidence =
    build_grid_from_signals niche_id (filter_signals_without_tiers excluded signals) as_of
    >>= λ grid. ok (find_coverage_gaps min_confidence grid)

pub record TierEffects : Type 0 where
  pub hostile_dependent : Bool
  pub raw_confidence : ℕ
  pub confidence : ℕ
  pub tier_loss_gaps : List CoverageGap

-- `_round_confidence`, the rounding of a float to two places, is the first argument.
unfoldable pub evaluate_tier_effects : (ℕ → ℕ) → ℕ → ℕ → List Signal → ℕ → ℕ → Result TierEffects
unfolding compute_hostile_dependent tier_loss_gaps_after_removal
evaluate_tier_effects round_confidence raw_confidence niche_id signals as_of min_confidence = do
  hostile_dependent ← compute_hostile_dependent niche_id signals as_of min_confidence
  gaps ← tier_loss_gaps_after_removal niche_id signals as_of (hostile ∷ []) min_confidence
  ok (record {
    hostile_dependent = hostile_dependent;
    raw_confidence = raw_confidence;
    confidence = round_confidence (apply_hostile_dependence_cap raw_confidence hostile_dependent);
    tier_loss_gaps = gaps;
  })

abbrev pub route_tier_loss_response : ℕ → Option ℕ → Result Route
route_tier_loss_response status_code escalation =
    guard10_route_403_to_blocked status_code escalation
