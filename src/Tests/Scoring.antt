-- ===== src/Tests/Scoring.antt =====
-- Signals of one niche, of an open and of a hostile source.
use trail_signal_os.Prelude.{ℕ, ◌*◌, ◌/◌, ◌≡◌, true, false, ◌⊎◌, some, List, [], ◌∷◌, all}
use trail_signal_os.Guards.{ok, err, coverage_error}
use trail_signal_os.SignalEngine.Coverage.{
  Signal, SignalType, demand, pain, SourceTier, open_tier, hostile, CoverageGrid,
  build_grid_from_signals, best_confidence,
}
use trail_signal_os.SignalEngine.Coverage.Best.{is_accepted, best_of, build_grid_from_signals_lem}
use trail_signal_os.SignalEngine.Tiers.{TierEffects, evaluate_tier_effects}
use trail_signal_os.SignalEngine.Tiers.Dependence.{hostile_cap_never_applies}

abbrev signal : ℕ → SignalType → SourceTier → ℕ → Signal
signal id ty tier confidence = record {
  signal_id = id;
  niche_id = some 1;
  signal_type = ty;
  source = some tier;
  confidence = confidence;
}

abbrev signals : List Signal
signals =
    signal 1 demand open_tier 600000
    ∷ signal 2 pain hostile 900000
    ∷ signal 3 demand open_tier 700000
    ∷ []

build_grid_from_signals_lem_example :
    ((all (is_accepted 1) signals ≡ true)
      × ((grid : CoverageGrid) × (build_grid_from_signals 1 signals 50 ≡ ok grid)
          × ((ty : SignalType) (tier : SourceTier)
              → best_confidence ty tier grid ≡ best_of ty tier signals)))
    ⊎ ((all (is_accepted 1) signals ≡ false)
        × (build_grid_from_signals 1 signals 50 ≡ err coverage_error))
build_grid_from_signals_lem_example = build_grid_from_signals_lem 1 signals 50

abbrev hundredths : ℕ → ℕ
hundredths v = v / 10000 * 10000

hostile_cap_never_applies_example :
    ((all (is_accepted 1) signals ≡ false)
      × (evaluate_tier_effects hundredths 875000 1 signals 50 500000 ≡ err coverage_error))
    ⊎ ((effects : TierEffects) × (evaluate_tier_effects hundredths 875000 1 signals 50 500000
          ≡ ok effects)
        × (effects.hostile_dependent ≡ false)
        × (effects.confidence ≡ hundredths 875000))
hostile_cap_never_applies_example = hostile_cap_never_applies hundredths 875000 1 signals 50 500000
