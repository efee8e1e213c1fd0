-- ===== src/Store.antt =====
-- The Postgres tables of db/migrations/002_core_foundation.sql that the control plane reads and
-- writes. Texts that are only compared or carried (identifiers, references, hashes) are numbers;
-- a time is a number of microseconds; a nullable column is an `Option`.
pub mod Lanes
pub mod Rows
pub mod Counts
pub mod States
use trail_signal_os.Prelude.{ℕ, Option, List, ◌==◌, Bool, first, select}
use Lanes.{Lane}
use States.{TaskState}

pub record Task : Type 0 where
  pub task_id : ℕ
  pub job_id : ℕ
  pub task_kind : Option ℕ
  pub lane : Lane
  pub priority : ℕ
  pub attempt : ℕ
  pub state : TaskState
  pub idempotency_key : ℕ
  pub payload_ref : ℕ
  pub traceparent : Option ℕ
  pub not_before : Option ℕ
  pub retry_at : Option ℕ
  pub lease_owner : Option ℕ
  pub lease_generation : ℕ
  pub lease_expires_at : Option ℕ
  pub last_heartbeat_at : Option ℕ
  pub result_artifact_id : Option ℕ
  pub completed_at : Option ℕ
  pub provenance : ℕ
  pub created_at : ℕ
  pub updated_at : ℕ

-- The stream payload that admission and `enqueue_ready_task` write. `created_at` is the text form
-- of the time.
pub record Payload : Type 0 where
  pub task_id : ℕ
  pub job_id : ℕ
  pub lane : Lane
  pub priority : ℕ
  pub attempt : ℕ
  pub idempotency_key : ℕ
  pub payload_ref : ℕ
  pub created_at : ℕ
  pub traceparent : Option ℕ

-- The tiers of config/queues.yaml; `named` is any other text.
pub data Tier : Type 0 where
  high normal bulk repair : Tier
  named : ℕ → Tier

-- `f"{prefix}:{tier}"`
pub record StreamName : Type 0 where
  pub prefix : ℕ
  pub tier : Tier

pub record OutboxEvent : Type 0 where
  pub event_id : ℕ
  pub task_id : ℕ
  pub stream_name : StreamName
  pub payload : Payload
  pub published_at : Option ℕ
  pub created_at : ℕ

-- The fields of a job budget that admission reads.
pub data BudgetField : Type 0 where
  max_queries max_fetched_urls browser_pages media_items : BudgetField

pub record Job : Type 0 where
  pub job_id : ℕ
  pub budget : BudgetField → Option ℕ

pub record Dependency : Type 0 where
  pub task_id : ℕ
  pub depends_on_task_id : ℕ

-- `next_event_id` is the sequence behind the BIGSERIAL key of the outbox.
pub record Db : Type 0 where
  pub tasks : List Task
  pub dependencies : List Dependency
  pub jobs : List Job
  pub outbox : List OutboxEvent
  pub next_event_id : ℕ
  -- The keys of the artifacts table, which a foreign key of the tasks names.
  pub artifacts : List ℕ

-- `WHERE task_id = %s`
abbrev pub has_id : ℕ → Task → Bool
has_id id t = t.task_id == id

-- `SELECT … FROM tasks WHERE task_id = %s`, and `fetchone`
abbrev pub find_task : Db → ℕ → Option Task
find_task db id = first (select (has_id id) db.tasks)

-- `SELECT … FROM research_jobs WHERE job_id = %s`, and `fetchone`
abbrev pub find_job : Db → ℕ → Option Job
find_job db id = first (select (λ (j : Job). j.job_id == id) db.jobs)
