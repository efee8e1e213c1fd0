-- ===== src/SignalEngine/Gate/Laws.antt =====
-- What the gate decides.
use trail_signal_os.Prelude.{ℕ, ◌≡◌, Bool, false, ◌&&◌, not, Option, [], if◌then◌else◌, arith}
use trail_signal_os.SignalEngine.Coverage.{
  demand, pain, growth, competition, content, CoverageGrid, type_met, hard_required_tiers,
  source_tiers, gaps_of, soft_signal_types, find_coverage_gaps,
}
use trail_signal_os.SignalEngine.Gate.{is_reached, evaluate_coverage_gate}

abbrev pub hard_ok : ℕ → CoverageGrid → Bool
hard_ok m grid =
    type_met m hard_required_tiers grid demand && type_met m hard_required_tiers grid pain

abbrev pub soft_ok : ℕ → CoverageGrid → Bool
soft_ok m grid =
    type_met m source_tiers grid growth
    && (type_met m source_tiers grid competition && type_met m source_tiers grid content)

-- A grid is admitted exactly if all five types are met; it is scored with gaps exactly if the hard
-- types are and a soft one is not, and then the gaps are those of the soft types. With a hard type
-- missing nothing is scored, and the gaps are all of them once the deadline is reached and none
-- before.
pub evaluate_coverage_gate_lem :
    (as_of : ℕ) (deadline : Option ℕ) (m : ℕ) (grid : CoverageGrid)
    → let result = evaluate_coverage_gate as_of deadline m grid in
      (result.admitted ≡ (hard_ok m grid && soft_ok m grid))
      × (result.scores_with_gaps ≡ (hard_ok m grid && not (soft_ok m grid)))
      × (result.hard_required_met ≡ hard_ok m grid)
      × (result.deadline_reached ≡ is_reached as_of deadline)
      × (result.coverage_gaps ≡ (
          if hard_ok m grid
          then gaps_of false m source_tiers grid soft_signal_types
          else if is_reached as_of deadline
          then find_coverage_gaps m grid
          else []))
unfolding evaluate_coverage_gate
evaluate_coverage_gate_lem as_of deadline m grid = ground arith
