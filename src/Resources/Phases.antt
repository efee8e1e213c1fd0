-- ===== src/Resources/Phases.antt =====
-- control/resources/phase_gating.py. The profiles of config/phases.yaml are an argument.
use trail_signal_os.Prelude.{ℕ, Bool, true, false, ◌&&◌, ltb}
use trail_signal_os.Store.Lanes.{
  Lane, Lane.http, Lane.browser, Lane.search as search_lane, Lane.media, Lane.extract, Lane.enrich,
  Lane.index,
}
use trail_signal_os.Guards.{Result, ok, err, value_error}
use trail_signal_os.Scheduler.Reasons.{Phase, acquire, enrich_phase, index_phase}

-- A text that names a phase, or another one.
pub data PhaseName : Type 0 where
  known : Phase → PhaseName
  unknown : ℕ → PhaseName

pub record PhaseProfile : Type 0 where
  pub phase : Phase
  pub browser_enabled : Bool
  pub http_concurrency : ℕ
  pub local_llm_enabled : Bool
  pub neo4j_enabled : Bool
  pub enrich_workers : ℕ
  pub index_workers : ℕ
  pub parser_processes : ℕ

-- config/phases.yaml
abbrev pub default_profiles : Phase → PhaseProfile
default_profiles acquire = record {
  phase = acquire;
  browser_enabled = true;
  http_concurrency = 24;
  local_llm_enabled = false;
  neo4j_enabled = false;
  enrich_workers = 0;
  index_workers = 0;
  parser_processes = 2;
}
default_profiles enrich_phase = record {
  phase = enrich_phase;
  browser_enabled = false;
  http_concurrency = 8;
  local_llm_enabled = true;
  neo4j_enabled = false;
  enrich_workers = 1;
  index_workers = 0;
  parser_processes = 2;
}
default_profiles index_phase = record {
  phase = index_phase;
  browser_enabled = false;
  http_concurrency = 4;
  local_llm_enabled = false;
  neo4j_enabled = true;
  enrich_workers = 0;
  index_workers = 2;
  parser_processes = 1;
}

abbrev pub load_phase_profile : (Phase → PhaseProfile) → PhaseName → Result PhaseProfile
load_phase_profile profiles (known phase) = ok (record (profiles phase) { phase = phase })
load_phase_profile profiles (unknown text) = err value_error

abbrev pub is_positive : ℕ → Bool
is_positive n = ltb 0 n

abbrev pub lane_enabled_for_phase : Lane → PhaseProfile → Bool
lane_enabled_for_phase browser profile = profile.browser_enabled
lane_enabled_for_phase search_lane profile = is_positive profile.http_concurrency
lane_enabled_for_phase http profile = is_positive profile.http_concurrency
lane_enabled_for_phase media profile = is_positive profile.http_concurrency
lane_enabled_for_phase extract profile = is_positive profile.parser_processes
lane_enabled_for_phase enrich profile =
    profile.local_llm_enabled && is_positive profile.enrich_workers
lane_enabled_for_phase index profile = is_positive profile.index_workers
lane_enabled_for_phase _ profile = true
