-- ===== src/Processor.antt =====
-- pkg/service/processor/processor.go: what a node does with the jobs when it starts. The answers of
-- the repositories are given.
pub mod Recovers
pub mod Queued
use scheduler.Prelude.{
  ℕ, zero, suc, ◌+◌, ◌-◌, Bool, true, false, ◌&&◌, ◌||◌, not, Option, none, some, List, [], ◌∷◌,
  ◌++◌, ltb, ◌==◌, map, if◌then◌else◌, lookup, keep,
}
use scheduler.Models.{
  Job, JobStatus, active, inactive, other, JobQueueLog, ExecutionLogState, scheduled, success,
  failed,
}
use scheduler.JobTime.{get_next_execution_time}
use scheduler.Executor.{Executor, Env, add_job_schedule}
use scheduler.Executor.Recovery.{ExecutionLog, History, schedule_jobs}

pub record Project : Type 0 where
  pub id : ℕ
  pub account_id : ℕ

-- The answers to `StartJobs`, `none` for an error; the jobs of a project, and whether their
-- loading failed.
pub record Answers : Type 0 where
  pub project_count : Option ℕ
  pub projects : ℕ → Option (List Project)
  pub jobs_count : ℕ → Option ℕ
  pub jobs_of : Project → ℕ → List Job × Bool

-- The calls of the job queue.
pub data QueueCall : Type 0 where
  allocate_quotas increment_queue_version : QueueCall
  queue_jobs : List Job → QueueCall

-- The calls, and whether the program ends by `log.Fatalln`.
pub record Run : Type 0 where
  pub calls : List QueueCall
  pub fatal : Bool

abbrev pub ended_run : Bool → Run
ended_run b = record { calls = []; fatal = b }

abbrev pub call : QueueCall → Run → Run
call c r = record { calls = c ∷ r.calls; fatal = r.fatal }

abbrev pub is_active : JobStatus → Bool
is_active active = true
is_active inactive = false
is_active other = false

abbrev pub is_inactive_status : JobStatus → Bool
is_inactive_status active = false
is_inactive_status inactive = true
is_inactive_status other = false

-- The active jobs, as if they had last run when they were created.
unfoldable pub active_jobs : List Job → List Job
active_jobs js =
    keep (λ (j : Job). is_active j.status)
      (map (λ (j : Job). record j { last_execution_date = j.date_created }) js)

module _ (a : Answers) where
  abbrev pub queue_project : Run → List Job × Bool → Run
  queue_project rest (js, true) = ended_run true
  queue_project rest (js, false) = call (queue_jobs (active_jobs js)) rest

  unfoldable pub start_projects : List Project → Run
  unfolding active_jobs
  start_projects [] = ended_run false
  start_projects (p ∷ ps) =
      let rest = start_projects ps in
      elim (a.jobs_count p.id) [
        | none ↦ ended_run true
        | some n ↦ queue_project rest (a.jobs_of p n)
      ]

  abbrev pub start_listed : Option (List Project) → Run
  start_listed none = ended_run true
  start_listed (some ps) = start_projects ps

  abbrev pub start_counted : Option ℕ → Run
  start_counted none = ended_run true
  start_counted (some n) = start_listed (a.projects n)

  -- `StartJobs`, with the node's mode and whether it leads.
  unfoldable pub start_jobs : Bool → Bool → Run
  unfolding start_projects
  start_jobs single_node_mode node_is_leader =
      if not single_node_mode && node_is_leader
      then call allocate_quotas (ended_run false)
      else call increment_queue_version (start_counted a.project_count)

-- The last log of a job, with the node and the version of the queue that it was written for.
pub record LastLog : Type 0 where
  pub node_id : ℕ
  pub job_queue_version : ℕ
  pub log : ExecutionLog

-- The zero value.
abbrev pub no_log : LastLog
no_log = record {
  node_id = 0;
  job_queue_version = 0;
  log = record {
    unique_id = [];
    state = scheduled;
    last_execution_datetime = 0;
    next_execution_datetime = 0;
    execution_version = 0;
  };
}

-- The answers to `RecoverJobs`: the last logs and the jobs for a list of ids, and what `ScheduleJobs`
-- is answered for a list of jobs.
pub record Recall : Type 0 where
  pub node_id : ℕ
  pub queue_logs : List JobQueueLog
  pub last_logs : List ℕ → List (ℕ × LastLog)
  pub jobs : List ℕ → Option (List Job)
  pub history : List Job → History

-- The jobs to schedule so far; a return; a panic.
pub data Progress : Type 0 where
  going : List Job → Executor → Progress
  returned : Executor → Progress
  panicked : Progress

abbrev pub is_scheduled : ExecutionLogState → Bool
is_scheduled scheduled = true
is_scheduled success = false
is_scheduled failed = false

-- The ids from one on; `n` of them.
abbrev pub ids_from : ℕ → ℕ → List ℕ
ids_from zero i = []
ids_from (suc n) i = i ∷ ids_from n (i + 1)

-- The ids of a range; an upper bound of 2 ^ 64 - 1, at which the loop would not end, is left out.
abbrev pub expanded_job_ids : JobQueueLog → List ℕ
expanded_job_ids l = ids_from (l.upper_bound_job_id + 1 - l.lower_bound_job_id) l.lower_bound_job_id

abbrev pub added : List Job → Option Executor → Progress
added js none = panicked
added js (some x) = going js x

module _ (env : Env) (node : ℕ) (version : ℕ) where
  -- With the last log, and its time and id in the job.
  abbrev pub recover_at : List Job → Executor → LastLog → Job → Progress
  recover_at js x g j = elim (get_next_execution_time env.calendar j) [
    | none ↦ returned x
    | some t ↦
        if ltb env.calendar.now t && is_scheduled g.log.state
        then added js (add_job_schedule env (record j { execution_id = g.log.unique_id }) x)
        else going (js ++ record j { execution_id = g.log.unique_id } ∷ []) x
  ]

  abbrev pub recover_logged : List Job → Executor → Job → LastLog → Progress
  recover_logged js x j g =
      if not (g.node_id == node) && not (g.job_queue_version == version)
      then going js x
      else recover_at js x g (record j { last_execution_date = g.log.last_execution_datetime })

  -- A job with no log is scheduled, and then taken on with the zero log.
  abbrev pub recover_found : List Job → Executor → Job → Option LastLog → Progress
  recover_found js x j none = recover_logged (js ++ j ∷ []) x j no_log
  recover_found js x j (some g) = recover_logged js x j g

  -- One job.
  unfoldable pub recover_one : List (ℕ × LastLog) → Job → List Job → Executor → Progress
  unfolding add_job_schedule
  recover_one states j js x =
      if not (env.calendar.zone_loads j.timezone)
      then returned x
      else if is_inactive_status j.status
          || (not (j.end_date == 0) && ltb j.end_date env.calendar.now)
      then going js x
      else recover_found js x j (lookup j.id states)

  unfoldable pub recover_each : List (ℕ × LastLog) → List Job → List Job → Executor → Progress
  unfolding recover_one
  recover_each states [] js x = going js x
  recover_each states (j ∷ rest) js x = elim (recover_one states j js x) [
    | going more y ↦ recover_each states rest more y
    | returned y ↦ returned y
    | panicked ↦ panicked
  ]

module _ (env : Env) (r : Recall) where
  -- The jobs of one log, then `ScheduleJobs` on those that were kept for it, which does nothing for
  -- none.
  abbrev pub scheduled_with : Progress → Progress
  scheduled_with (going js x) = added [] (schedule_jobs env (r.history js) js x)
  scheduled_with (returned x) = returned x
  scheduled_with panicked = panicked

  unfoldable pub recover_log : JobQueueLog → Executor → Progress
  unfolding recover_each schedule_jobs
  recover_log l x = elim (r.jobs (expanded_job_ids l)) [
    | none ↦ returned x
    | some js ↦
        scheduled_with
          (recover_each env r.node_id l.version (r.last_logs (expanded_job_ids l)) js [] x)
  ]

  unfoldable pub recover_logs : List JobQueueLog → Executor → Option Executor
  unfolding recover_log
  recover_logs [] x = some x
  recover_logs (l ∷ ls) x = elim (recover_log l x) [
    | going js y ↦ recover_logs ls y
    | returned y ↦ some y
    | panicked ↦ none
  ]

  -- `RecoverJobs`; `none` is a panic.
  unfoldable pub recover_jobs : Executor → Option Executor
  unfolding recover_logs
  recover_jobs x = recover_logs r.queue_logs x
