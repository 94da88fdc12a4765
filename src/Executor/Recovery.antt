-- ===== src/Executor/Recovery.antt =====
-- `ScheduleJobs` of pkg/service/executor/executor.go, on the side of the merge marked HEAD: the jobs
-- of a node are put in its cache and its queue, each by the last log of its execution.

pub mod Runs
pub mod Restarts
use scheduler.Prelude.{
  ℕ, ◌+◌, ◌%◌, ◌++◌, Bool, true, false, ◌&&◌, ◌||◌, not, Option, none, some, List, [], ◌∷◌, ltb,
  ◌==◌, if◌then◌else◌, lookup, insert, erase, contains, keep,
}
use scheduler.Prelude.Int.{to_uint64}
use scheduler.Models.{
  Job, JobSchedule, JobScheduleKey, ExecutionLogState, scheduled, success, failed,
}
use scheduler.JobTime.{get_next_execution_time, get_next_execution_id, has_job_ended}
use scheduler.Executor.{
  Executor, Env, exhaustion_notified, log_inserted, log_in_raft, emit, store_schedule,
  add_job_to_schedule_queue, get_local_quota_remaining,
}
use scheduler.Executor.Reschedule.{schedule_of, is_inactive, is_failed}

-- The fields of the log that are read here.
pub record ExecutionLog : Type 0 where
  pub unique_id : List ℕ
  pub state : ExecutionLogState
  pub last_execution_datetime : ℕ
  pub next_execution_datetime : ℕ
  pub execution_version : ℕ

-- The repository's answers: the last log of each job, and the failures that
-- `CountLastFailedExecutionLogs` counts for a job and a version.
pub record History : Type 0 where
  pub logs : List (ℕ × ExecutionLog)
  pub failures : ℕ → ℕ → ℕ

-- The accounts whose jobs are scheduled; the leader hears of an account with nothing left.
unfoldable pub allow_account : Env → Job → List ℕ × Executor → List ℕ × Executor
unfolding get_local_quota_remaining
allow_account env j (allowed, x) =
    if env.single_node_mode || j.account_id == 1
    then (j.account_id ∷ allowed, x)
    else (elim (get_local_quota_remaining j.account_id x) [
      | none ↦ (allowed, x)
      | some n ↦
          if j.account_id == 1 || ltb 0 n
          then (j.account_id ∷ allowed, x)
          else if env.has_exhaustion_callback
          then (allowed, emit (exhaustion_notified j.account_id) x)
          else (allowed, x)
    ])

unfoldable pub allow_accounts : Env → List Job → List ℕ × Executor → List ℕ × Executor
unfolding allow_account
allow_accounts env [] r = r
allow_accounts env (j ∷ js) r = allow_accounts env js (allow_account env j r)

-- The schedule is cached and its key queued; `none` is the queue's panic.
unfoldable pub place : Job → JobSchedule → Executor → Option (Job × Executor)
unfolding store_schedule add_job_to_schedule_queue
place j s x =
    elim (add_job_to_schedule_queue
      (record { job_id = j.id; execution_time = s.mem_execution.next_execution_datetime })
      (store_schedule j.id s x)) [ none ↦ none | some y ↦ some (j, y) ]

abbrev pub with_id : Env → Job → Job
with_id env j = record j { execution_id = get_next_execution_id env.calendar j }

-- A job with no log. With no next time it is logged, and not queued.
unfoldable pub recover_new : Env → Job → Executor → Option (Job × Executor)
unfolding place
recover_new env j x = elim (get_next_execution_time env.calendar j) [
  | none ↦ some (j, x)
  | some t ↦ let n = with_id env j in place n (schedule_of n 1 0 scheduled 0 t) x
]

-- The last log is `scheduled`; with no next time a nil pointer is read. Where the next time is
-- less than half a minute after the logged one, the execution keeps its id.
unfoldable pub recover_scheduled : Env → Job → ExecutionLog → Executor → Option (Job × Executor)
unfolding place
recover_scheduled env j g x =
    let k = record j { last_execution_date = g.last_execution_datetime } in
    elim (get_next_execution_time env.calendar k) [
      | none ↦ none
      | some t ↦
          let n =
            if ltb t (g.next_execution_datetime + 30000000000)
            then record k { execution_id = g.unique_id }
            else with_id env k in
          place n (schedule_of n g.execution_version 0 scheduled g.last_execution_datetime t) x
    ]

-- The execution that the log is about has ended.
unfoldable pub recover_next :
    Env → Job → ExecutionLog → ℕ → ExecutionLogState → Executor → Option (Job × Executor)
unfolding place
recover_next env j g fails state x =
    let k = record j { last_execution_date = g.next_execution_datetime } in
    elim (get_next_execution_time env.calendar k) [
      | none ↦ some (k, x)
      | some t ↦
          let n = with_id env k in
          place n (schedule_of n g.execution_version fails state g.last_execution_datetime t) x
    ]

-- The last log is `failed`, and retries are left: the run is queued at the time it was due.
unfoldable pub recover_retry : Env → Job → ExecutionLog → ℕ → Executor → Option (Job × Executor)
unfolding store_schedule add_job_to_schedule_queue
recover_retry env j g fails x =
    let n = with_id env (record j { last_execution_date = g.last_execution_datetime }) in
    elim (add_job_to_schedule_queue
      (record { job_id = j.id; execution_time = g.next_execution_datetime }) x) [
        | none ↦ none
        | some y ↦ some (
          n,
          store_schedule j.id
              (schedule_of n g.execution_version fails failed g.last_execution_datetime
                g.next_execution_datetime)
              y,
        )
      ]

unfoldable pub recover_failed : Env → Job → ExecutionLog → ℕ → Executor → Option (Job × Executor)
unfolding recover_retry recover_next
recover_failed env j g fails x =
    if ltb fails (to_uint64 j.retry_max)
    then recover_retry env j g fails x
    else recover_next env j g fails failed x

abbrev pub recover_by :
    ExecutionLogState → Env → History → Job → ExecutionLog → Executor → Option (Job × Executor)
recover_by scheduled env h j g x = recover_scheduled env j g x
recover_by success env h j g x = recover_next env j g 0 success x
recover_by failed env h j g x = recover_failed env j g (h.failures j.id g.execution_version) x

unfoldable pub recover_job :
    Env → History → List (ℕ × ExecutionLog) → Job → Executor → Option (Job × Executor)
unfolding recover_new recover_scheduled recover_next recover_failed
recover_job env h logs j x = elim (lookup j.id logs) [
  | none ↦ recover_new env j x
  | some g ↦ recover_by g.state env h j g x
]

-- The loop's variables: the logs not dropped, the ids scheduled, and the jobs as changed so far.
pub record Recovery : Type 0 where
  pub executor : Executor
  pub logs : List (ℕ × ExecutionLog)
  pub scheduled_ids : List ℕ
  pub jobs : List Job

abbrev pub skip_job : Job → Recovery → Recovery
skip_job j r = record r { jobs = r.jobs ++ j ∷ [] }

unfoldable pub recover_step : Env → History → List ℕ → Job → Recovery → Option Recovery
unfolding recover_job
recover_step env h allowed j r =
    if not (contains j.account_id allowed) || is_inactive j.status
    then some (skip_job j r)
    else (elim (has_job_ended env.calendar j) [
      | none ↦ some (skip_job j r)
      | some ended ↦
          if not (j.end_date == 0) && ended
          then some (record (skip_job j r) { logs = erase j.id r.logs })
          else (elim (recover_job env h r.logs j r.executor) [
            | none ↦ none
            | some (n, y) ↦ some (record r {
              executor = y;
              scheduled_ids = j.id ∷ r.scheduled_ids;
              jobs = r.jobs ++ n ∷ [];
            })
          ])
    ])

unfoldable pub recover_jobs : Env → History → List ℕ → List Job → Recovery → Option Recovery
unfolding recover_step
recover_jobs env h allowed [] r = some r
recover_jobs env h allowed (j ∷ js) r = elim (recover_step env h allowed j r) [
  | none ↦ none
  | some m ↦ recover_jobs env h allowed js m
]

abbrev pub is_success : ExecutionLogState → Bool
is_success success = true
is_success _ = false

-- The version that a job is logged with.
unfoldable pub logged_version : ExecutionLog → Option JobSchedule → ℕ
logged_version g none = g.execution_version
logged_version g (some s) =
    if is_success g.state || s.mem_execution.fail_count == 0 && is_failed s.mem_execution.last_state
    then (g.execution_version + 1) % 18446744073709551616
    else g.execution_version

unfoldable pub recovered_versions :
    List (ℕ × JobSchedule) → List (ℕ × ExecutionLog) → List (ℕ × ℕ) → List Job → List (ℕ × ℕ)
unfolding logged_version
recovered_versions cache logs m [] = m
recovered_versions cache logs m (j ∷ js) =
    recovered_versions cache logs
      (elim (lookup j.id m) [
        | some v ↦ m
        | none ↦ elim (lookup j.id logs) [
          | none ↦ insert j.id 1 m
          | some g ↦ insert j.id (logged_version g (lookup j.id cache)) m
        ]
      ])
      js

-- The scheduled jobs are logged, if there are any.
unfoldable pub log_jobs : Env → Recovery → Executor
unfolding recovered_versions
log_jobs env r =
    let js = keep (λ (j : Job). contains j.id r.scheduled_ids) r.jobs in
    let versions = recovered_versions r.executor.cache r.logs [] js in
    let x = emit (log_inserted versions) r.executor in
    elim js [
      | [] ↦ r.executor
      | j ∷ rest ↦ if env.single_node_mode then emit (log_in_raft versions) x else x
    ]

-- `ScheduleJobs`; `none` is a panic.
unfoldable pub schedule_jobs : Env → History → List Job → Executor → Option Executor
unfolding allow_accounts recover_jobs log_jobs
schedule_jobs env h [] x = some x
schedule_jobs env h (j ∷ js) x =
    let (allowed, y) = allow_accounts env (j ∷ js) ([], x) in
    elim (recover_jobs env h allowed (j ∷ js)
      (record { executor = y; logs = h.logs; scheduled_ids = []; jobs = [] })) [
        | none ↦ none
        | some r ↦ some (log_jobs env r)
      ]
