-- ===== src/SignalEngine/Tiers/Dependence.antt =====
-- What losing the hostile sources changes.
use trail_signal_os.Prelude.{
  ℕ, ◌≡◌, refl, ◌∙◌, sym, true, false, List, [], ◌∷◌, ◌==◌, all, any, arith, Bool-cases,
  Option-cases, inl, inr, ◌⊎◌,
}
use trail_signal_os.Guards.{coverage_error, ok, err}
use trail_signal_os.SignalEngine.Coverage.{
  SignalType, SourceTier, demand, pain, open_tier, defended, hostile, source_code, same_key, Signal,
  CoverageGrid, best_confidence, hard_required_met, find_coverage_gaps,
}
use trail_signal_os.SignalEngine.Coverage.Best.{
  is_for, best_of, is_accepted, build_grid_from_signals_lem,
}
use trail_signal_os.SignalEngine.Tiers.{
  TierEffects, has_tier_of, filter_signals_without_tiers, compute_hostile_dependent,
  tier_loss_gaps_after_removal, evaluate_tier_effects,
}

gone_for :
    (ty : SignalType) (tier : SourceTier) (excluded : List SourceTier) (s : Signal)
    → any (λ (u : SourceTier). source_code tier == source_code u) excluded ≡ false
    → has_tier_of excluded s ≡ true
    → is_for ty tier s ≡ false
gone_for ty tier excluded s h gone = elim (Bool-cases (is_for ty tier s)) [
  | inr other ↦ other
  | inl own ↦ elim (Option-cases s.source) [
    | inl missing ↦ rw missing refl
    | inr (t, e) ↦
        let same : same_key ty tier s.signal_type t ≡ true = rw e at own in
        let code : source_code tier ≡ source_code t = ground arith in
        let found : any (λ (u : SourceTier). source_code t == source_code u) excluded ≡ true =
          rw e at gone in
        absurd (let none_found = rw code at h in cc)
  ]
]

-- The signals of a tier that is kept.
best-filter :
    (ty : SignalType) (tier : SourceTier) (excluded : List SourceTier) (ss : List Signal)
    → any (λ (u : SourceTier). source_code tier == source_code u) excluded ≡ false
    → best_of ty tier (filter_signals_without_tiers excluded ss) ≡ best_of ty tier ss
unfolding filter_signals_without_tiers
best-filter ty tier excluded [] h = refl
best-filter ty tier excluded (s ∷ ss) h = elim (Bool-cases (has_tier_of excluded s)) [
  | inl gone ↦ rw (gone, gone_for ty tier excluded s h gone) (best-filter ty tier excluded ss h)
  | inr kept ↦ rw kept (rw (best-filter ty tier excluded ss h) refl)
]

all-filter :
    (niche : ℕ) (excluded : List SourceTier) (ss : List Signal)
    → all (is_accepted niche) ss ≡ true
    → all (is_accepted niche) (filter_signals_without_tiers excluded ss) ≡ true
unfolding filter_signals_without_tiers
all-filter niche excluded [] h = refl
all-filter niche excluded (s ∷ ss) h = elim (Bool-cases (has_tier_of excluded s)) [
  | inl gone ↦ rw gone (all-filter niche excluded ss (ground arith))
  | inr kept ↦ rw kept (ground (arith, all-filter niche excluded ss))
]

-- Grids that agree on the open and the defended cells meet the same hard requirements.
hard-same :
    (m : ℕ) (full reduced : CoverageGrid)
    → ((ty : SignalType) → best_confidence ty open_tier reduced ≡ best_confidence ty open_tier full)
    → ((ty : SignalType) → best_confidence ty defended reduced ≡ best_confidence ty defended full)
    → hard_required_met m reduced ≡ hard_required_met m full
hard-same m full reduced o d = rw (o demand, o pain, d demand, d pain) refl

-- No niche is found to depend on hostile sources, whatever its signals are: the hard requirements
-- only read open and defended cells, so taking the hostile signals away cannot break them, and the
-- cap on the confidence is never applied. Where the signals make no grid, the call raises.
pub hostile_cap_never_applies :
    (round_confidence : ℕ → ℕ) (raw niche : ℕ) (signals : List Signal) (as_of m : ℕ)
    → ((all (is_accepted niche) signals ≡ false)
        × (evaluate_tier_effects round_confidence raw niche signals as_of m ≡ err coverage_error))
      ⊎ ((effects : TierEffects) × (evaluate_tier_effects round_confidence raw niche signals as_of m
            ≡ ok effects)
          × (effects.hostile_dependent ≡ false)
          × (effects.confidence ≡ round_confidence raw))
unfolding evaluate_tier_effects compute_hostile_dependent tier_loss_gaps_after_removal
hostile_cap_never_applies round_confidence raw niche signals as_of m =
    elim (build_grid_from_signals_lem niche signals as_of) [
      | inr (refused, e) ↦ inl (refused, rw e refl)
      | inl (accepted, (full, e, bests)) ↦
          let kept = filter_signals_without_tiers (hostile ∷ []) signals in
          elim (build_grid_from_signals_lem niche kept as_of) [
            | inr (refused, e') ↦
                absurd (let fine = all-filter niche (hostile ∷ []) signals accepted in ground arith)
            | inl (h, (reduced, e', bests')) ↦
                let same =
                  hard-same m full reduced
                    (λ ty.
                      bests' ty open_tier
                      ∙ (best-filter ty open_tier (hostile ∷ []) signals refl
                          ∙ sym (bests ty open_tier)))
                    (λ ty.
                      bests' ty defended
                      ∙ (best-filter ty defended (hostile ∷ []) signals refl
                          ∙ sym (bests ty defended))) in
                let effects : TierEffects = record {
                  hostile_dependent = false;
                  raw_confidence = raw;
                  confidence = round_confidence raw;
                  tier_loss_gaps = find_coverage_gaps m reduced;
                } in
                inr (
                  effects,
                  elim (Bool-cases (hard_required_met m full)) [
                    | inl met ↦ rw (e, met, e', same, met) refl
                    | inr unmet ↦ rw (e, unmet, e') refl
                  ],
                  refl,
                  refl,
                )
          ]
    ]
