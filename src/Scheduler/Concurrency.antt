-- ===== src/Scheduler/Concurrency.antt =====
-- control/scheduler/concurrency.py. The mapping `max_in_flight` of config/limits.yaml is an
-- argument; a key that it lacks is 0, as the code's `get` has it.
use trail_signal_os.Prelude.{
  ℕ, Bool, true, false, ◌&&◌, Option, none, some, ◌==◌, leb, if◌then◌else◌, count_where,
}
use trail_signal_os.Store.{Task, Db}
use trail_signal_os.Store.Lanes.{
  Lane, Lane.http, Lane.browser, Lane.media, Lane.enrich, Lane.index, lane_eq,
}
use trail_signal_os.Store.States.{TaskState}
use trail_signal_os.Scheduler.Reasons.{
  Reason, lane_not_concurrency_gated, max_in_flight_exceeded, within_max_in_flight,
}

pub data LimitKey : Type 0 where
  http_global browser_pages media_concurrency enrich_workers index_workers : LimitKey

abbrev pub Limits : Type 0
Limits = LimitKey → ℕ

-- config/limits.yaml
abbrev pub default_limits : Limits
default_limits http_global = 24
default_limits browser_pages = 2
default_limits media_concurrency = 2
default_limits enrich_workers = 1
default_limits index_workers = 2

-- `LANE_MAX_IN_FLIGHT_KEY`
abbrev pub lane_limit_key : Lane → Option LimitKey
lane_limit_key http = some http_global
lane_limit_key browser = some browser_pages
lane_limit_key media = some media_concurrency
lane_limit_key enrich = some enrich_workers
lane_limit_key index = some index_workers
lane_limit_key _ = none

-- Membership in `IN_FLIGHT_STATES`.
abbrev pub is_in_flight : TaskState → Bool
is_in_flight TaskState.ready = true
is_in_flight TaskState.leased = true
is_in_flight TaskState.running = true
is_in_flight _ = false

pub record ConcurrencyCheckResult : Type 0 where
  pub allowed : Bool
  pub reason : Reason
  pub field : Option LimitKey
  pub limit : Option ℕ
  pub in_flight : Option ℕ

abbrev pub flies : Lane → Task → Bool
flies lane t = lane_eq t.lane lane && is_in_flight t.state

abbrev pub count_lane_in_flight : Lane → Db → ℕ
count_lane_in_flight lane db = count_where (flies lane) db.tasks

abbrev ungated : ConcurrencyCheckResult
ungated = record {
  allowed = true;
  reason = lane_not_concurrency_gated;
  field = none;
  limit = none;
  in_flight = none;
}

abbrev gated : LimitKey → ℕ → ℕ → ConcurrencyCheckResult
gated key limit in_flight =
    if limit == 0
    then ungated
    else if leb limit in_flight
    then record {
      allowed = false;
      reason = max_in_flight_exceeded;
      field = some key;
      limit = some limit;
      in_flight = some in_flight;
    }
    else record {
      allowed = true;
      reason = within_max_in_flight;
      field = some key;
      limit = some limit;
      in_flight = some in_flight;
    }

check_key : Option LimitKey → Limits → Lane → Db → ConcurrencyCheckResult
check_key none limits lane db = ungated
check_key (some key) limits lane db = gated key (limits key) (count_lane_in_flight lane db)

unfoldable pub check_lane_concurrency : Limits → Lane → Db → ConcurrencyCheckResult
unfolding check_key
check_lane_concurrency limits lane db = check_key (lane_limit_key lane) limits lane db
