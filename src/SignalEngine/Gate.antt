-- ===== src/SignalEngine/Gate.antt =====
-- `evaluate_coverage_gate` of signal_engine/coverage.py. Timestamps are parsed.
pub mod Laws
use trail_signal_os.Prelude.{
  ℕ, Bool, true, false, ◌&&◌, not, Option, none, some, List, [], ◌∷◌, leb, if◌then◌else◌, select,
  any,
}
use trail_signal_os.SignalEngine.Coverage.{
  type_code, CoverageGrid, CoverageGap, hard_required_met, find_coverage_gaps, soft_signal_types,
  SignalType, growth, competition, content,
}

pub record CoverageGateResult : Type 0 where
  pub admitted : Bool
  pub scores_with_gaps : Bool
  pub coverage_gaps : List CoverageGap
  pub hard_required_met : Bool
  pub deadline_reached : Bool

-- `gap.signal_type in SOFT_SIGNAL_TYPES`
abbrev pub is_soft_type : SignalType → Bool
is_soft_type growth = true
is_soft_type competition = true
is_soft_type content = true
is_soft_type _ = false

abbrev pub is_soft_gap : CoverageGap → Bool
is_soft_gap gap = is_soft_type gap.signal_type

abbrev pub has_gaps : List CoverageGap → Bool
has_gaps [] = false
has_gaps (g ∷ gs) = true

abbrev pub is_reached : ℕ → Option ℕ → Bool
is_reached as_of none = false
is_reached as_of (some deadline) = leb deadline as_of

unfoldable pub evaluate_coverage_gate : ℕ → Option ℕ → ℕ → CoverageGrid → CoverageGateResult
evaluate_coverage_gate as_of dossier_deadline_at min_confidence grid =
    let deadline_reached = is_reached as_of dossier_deadline_at in
    let hard_met = hard_required_met min_confidence grid in
    let gaps = find_coverage_gaps min_confidence grid in
    let soft_gaps = select is_soft_gap gaps in
    if hard_met && not (has_gaps gaps)
    then record {
      admitted = true;
      scores_with_gaps = false;
      coverage_gaps = [];
      hard_required_met = true;
      deadline_reached = deadline_reached;
    }
    else if hard_met && has_gaps soft_gaps
    then record {
      admitted = false;
      scores_with_gaps = true;
      coverage_gaps = soft_gaps;
      hard_required_met = true;
      deadline_reached = deadline_reached;
    }
    else if not hard_met && deadline_reached
    then record {
      admitted = false;
      scores_with_gaps = false;
      coverage_gaps = gaps;
      hard_required_met = false;
      deadline_reached = true;
    }
    else record {
      admitted = false;
      scores_with_gaps = false;
      coverage_gaps = [];
      hard_required_met = hard_met;
      deadline_reached = deadline_reached;
    }
