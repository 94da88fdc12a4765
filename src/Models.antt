-- ===== src/Models.antt =====
-- pkg/models: the job and the log records that the services share (pkg/models/job.go,
-- pkg/models/job_queues.go, pkg/models/job_execution_log.go). An instant is a number, in
-- nanoseconds since the zero time of Go, which is 0; a time zone changes how an instant is shown
-- and not the instant. A status is compared with two constants only.
use scheduler.Prelude.{ℕ, List, Option}
use scheduler.Prelude.Int.{ℤ}

pub data JobStatus : Type 0 where
  active inactive other : JobStatus

-- Fields that no modelled operation reads (data, offset, authors, date of change) are left out.
pub record Job : Type 0 where
  pub id : ℕ
  pub project_id : ℕ
  pub spec : List ℕ
  pub executor_id : Option ℕ
  pub start_date : ℕ
  pub end_date : ℕ
  pub last_execution_date : ℕ
  pub timezone : List ℕ
  pub retry_max : ℤ
  pub execution_id : List ℕ
  pub date_created : ℕ
  pub account_id : ℕ
  pub status : JobStatus

-- The row's id and date are set by the database.
pub record JobQueueLog : Type 0 where
  pub node_id : ℕ
  pub lower_bound_job_id : ℕ
  pub upper_bound_job_id : ℕ
  pub version : ℕ

pub data ExecutionLogState : Type 0 where
  scheduled success failed : ExecutionLogState

pub record MemJobExecution : Type 0 where
  pub execution_version : ℕ
  pub fail_count : ℕ
  pub last_state : ExecutionLogState
  pub last_execution_datetime : ℕ
  pub next_execution_datetime : ℕ

pub record JobSchedule : Type 0 where
  pub job : Job
  pub mem_execution : MemJobExecution

pub record JobScheduleKey : Type 0 where
  pub job_id : ℕ
  pub execution_time : ℕ
