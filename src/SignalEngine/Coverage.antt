-- ===== src/SignalEngine/Coverage.antt =====
-- signal_engine/coverage.py. Confidences are numbers of one unit, since the code only compares
-- them; timestamps are numbers.
pub mod Best
use trail_signal_os.Prelude.{
  ℕ, ◌+◌, Bool, true, false, ◌&&◌, not, Option, none, some, List, [], ◌∷◌, ◌++◌, ◌==◌, ltb, leb,
  if◌then◌else◌, any, sort,
}
use trail_signal_os.Guards.{Result, ok, err, coverage_error}

-- The texts of `SIGNAL_TYPES`, and any other.
pub data SignalType : Type 0 where
  demand growth pain competition content : SignalType
  other_type : ℕ → SignalType

-- The texts of `SOURCE_TIERS`, and any other.
pub data SourceTier : Type 0 where
  open_tier defended hostile : SourceTier
  other_tier : ℕ → SourceTier

abbrev pub type_code : SignalType → ℕ
type_code demand = 0
type_code growth = 1
type_code pain = 2
type_code competition = 3
type_code content = 4
type_code (other_type n) = 5 + n

abbrev pub source_code : SourceTier → ℕ
source_code open_tier = 0
source_code defended = 1
source_code hostile = 2
source_code (other_tier n) = 3 + n

-- A signal with the keys that are read; one without a `source` object has `none`.
pub record Signal : Type 0 where
  pub signal_id : ℕ
  pub niche_id : Option ℕ
  pub signal_type : SignalType
  pub source : Option SourceTier
  pub confidence : ℕ

pub record CoverageCell : Type 0 where
  pub signal_type : SignalType
  pub source_tier : SourceTier
  pub best_confidence : ℕ
  pub contributing_signal_ids : List ℕ
  pub updated_at : ℕ

-- The dict of cells, in the order of insertion.
pub record CoverageGrid : Type 0 where
  pub niche_id : ℕ
  pub cells : List CoverageCell

-- The key of a cell.
abbrev pub same_key : SignalType → SourceTier → SignalType → SourceTier → Bool
same_key ty tier ty' tier' = type_code ty == type_code ty' && source_code tier == source_code tier'

-- `self._cells.get((signal_type, source_tier))`
abbrev pub get_cell : SignalType → SourceTier → List CoverageCell → Option CoverageCell
get_cell ty tier [] = none
get_cell ty tier (c ∷ cs) =
    let rest = get_cell ty tier cs in
    if same_key ty tier c.signal_type c.source_tier then some c else rest

-- `self._cells[key] = cell`
abbrev pub put_cell : CoverageCell → List CoverageCell → List CoverageCell
put_cell new [] = new ∷ []
put_cell new (c ∷ cs) =
    let rest = put_cell new cs in
    if same_key new.signal_type new.source_tier c.signal_type c.source_tier
    then new ∷ cs
    else c ∷ rest

abbrev pub supported_type : SignalType → Bool
supported_type (other_type n) = false
supported_type _ = true

abbrev pub supported_tier : SourceTier → Bool
supported_tier (other_tier n) = false
supported_tier _ = true

abbrev pub new_cell : Signal → SourceTier → List ℕ → ℕ → CoverageCell
new_cell s tier ids updated_at = record {
  signal_type = s.signal_type;
  source_tier = tier;
  best_confidence = s.confidence;
  contributing_signal_ids = ids;
  updated_at = updated_at;
}

-- The cell that is stored, if one is.
abbrev pub upserted : Signal → SourceTier → ℕ → Option CoverageCell → Option CoverageCell
upserted s tier updated_at none = some (new_cell s tier (s.signal_id ∷ []) updated_at)
upserted s tier updated_at (some existing) =
    if ltb existing.best_confidence s.confidence
    then some (new_cell s tier (s.signal_id ∷ []) updated_at)
    else if s.confidence == existing.best_confidence
        && not (any (λ (id : ℕ). s.signal_id == id) existing.contributing_signal_ids)
    then some (
        new_cell s tier (sort leb (existing.contributing_signal_ids ++ s.signal_id ∷ []))
          updated_at)
    else none

abbrev pub stored : Option CoverageCell → CoverageGrid → Bool × CoverageGrid
stored none grid = (false, grid)
stored (some cell) grid = (true, record grid { cells = put_cell cell grid.cells })

abbrev pub upsert_tier :
    Signal → Option SourceTier → ℕ → CoverageGrid → Result (Bool × CoverageGrid)
upsert_tier s none updated_at grid = err coverage_error
upsert_tier s (some tier) updated_at grid =
    if not (supported_type s.signal_type)
    then err coverage_error
    else if not (supported_tier tier)
    then err coverage_error
    else ok (stored (upserted s tier updated_at (get_cell s.signal_type tier grid.cells)) grid)

unfoldable pub upsert_signal : Signal → ℕ → CoverageGrid → Result (Bool × CoverageGrid)
upsert_signal s updated_at grid = upsert_tier s s.source updated_at grid

abbrev pub confidence_of : Option CoverageCell → ℕ
confidence_of none = 0
confidence_of (some c) = c.best_confidence

abbrev pub best_confidence : SignalType → SourceTier → CoverageGrid → ℕ
best_confidence ty tier grid = confidence_of (get_cell ty tier grid.cells)

abbrev pub larger : ℕ → ℕ → ℕ
larger a b = if ltb a b then b else a

-- `max(…, default=0.0)`
abbrev pub best_across_tiers : SignalType → List SourceTier → CoverageGrid → ℕ
best_across_tiers ty [] grid = 0
best_across_tiers ty (t ∷ ts) grid =
    larger (best_confidence ty t grid) (best_across_tiers ty ts grid)

abbrev pub of_niche : ℕ → Option ℕ → Bool
of_niche niche none = true
of_niche niche (some n) = n == niche

-- The loop of `build_grid_from_signals`; an exception ends it.
unfoldable pub upsert_all : List Signal → ℕ → CoverageGrid → Result CoverageGrid
upsert_all [] updated_at grid = ok grid
upsert_all (s ∷ ss) updated_at grid =
    if not (of_niche grid.niche_id s.niche_id)
    then err coverage_error
    else elim (upsert_signal s updated_at grid) [
      | err e ↦ err e
      | ok changed ↦ upsert_all ss updated_at changed.1
    ]

unfoldable pub build_grid_from_signals : ℕ → List Signal → ℕ → Result CoverageGrid
build_grid_from_signals niche_id signals updated_at =
    upsert_all signals updated_at (record { niche_id = niche_id; cells = [] })

-- `HARD_REQUIRED_SIGNAL_TYPES`, `HARD_REQUIRED_TIERS`, `SOFT_SIGNAL_TYPES`, `SOURCE_TIERS`
abbrev pub hard_required_signal_types : List SignalType
hard_required_signal_types = demand ∷ pain ∷ []

abbrev pub hard_required_tiers : List SourceTier
hard_required_tiers = open_tier ∷ defended ∷ []

abbrev pub soft_signal_types : List SignalType
soft_signal_types = growth ∷ competition ∷ content ∷ []

abbrev pub source_tiers : List SourceTier
source_tiers = open_tier ∷ defended ∷ hostile ∷ []

abbrev pub type_met : ℕ → List SourceTier → CoverageGrid → SignalType → Bool
type_met min_confidence tiers grid ty = leb min_confidence (best_across_tiers ty tiers grid)

abbrev pub all_met : ℕ → List SourceTier → CoverageGrid → List SignalType → Bool
all_met min_confidence tiers grid [] = true
all_met min_confidence tiers grid (ty ∷ tys) =
    type_met min_confidence tiers grid ty && all_met min_confidence tiers grid tys

abbrev pub hard_required_met : ℕ → CoverageGrid → Bool
hard_required_met min_confidence grid =
    all_met min_confidence hard_required_tiers grid hard_required_signal_types

-- The reason of a gap names the two confidences; `hard` is which of the two texts it is.
pub record CoverageGap : Type 0 where
  pub signal_type : SignalType
  pub source_tier : SourceTier
  pub hard : Bool
  pub best : ℕ
  pub required : ℕ

abbrev pub gaps_of : Bool → ℕ → List SourceTier → CoverageGrid → List SignalType → List CoverageGap
gaps_of hard min_confidence tiers grid [] = []
gaps_of hard min_confidence tiers grid (ty ∷ tys) =
    let rest = gaps_of hard min_confidence tiers grid tys in
    if type_met min_confidence tiers grid ty
    then rest
    else record {
      signal_type = ty;
      source_tier = open_tier;
      hard = hard;
      best = best_across_tiers ty tiers grid;
      required = min_confidence;
    }
      ∷ rest

abbrev pub find_coverage_gaps : ℕ → CoverageGrid → List CoverageGap
find_coverage_gaps min_confidence grid =
    gaps_of true min_confidence hard_required_tiers grid hard_required_signal_types
    ++ gaps_of false min_confidence source_tiers grid soft_signal_types
