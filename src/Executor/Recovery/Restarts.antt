-- ===== src/Executor/Recovery/Restarts.antt =====
-- What becomes of a job whose last run is over when a node schedules it anew.
use scheduler.Prelude.{
  ℕ, ◌<◌, ◌≤◌, ◌≡◌, true, false, none, some, List, [], ◌∷◌, arith, refl, ltb, lookup, lookup-insert,
  contains, ==-refl,
}
use scheduler.Prelude.Int.{to_uint64}
use scheduler.Models.{Job, JobStatus, JobSchedule, JobScheduleKey, success, failed}
use scheduler.JobTime.{is_empty, get_next_execution_time, has_job_ended}
use scheduler.ScheduleQueue.{add_job}
use scheduler.Executor.{Executor, Env, add_job_to_schedule_queue, store_schedule}
use scheduler.Executor.Reschedule.{
  Loop, schedule_of, notify_failure, advance_version, reschedule_cached,
}
use scheduler.Executor.Recovery.{
  ExecutionLog, History, allow_account, allow_accounts, place, with_id, recover_next,
  recover_failed, recover_job, Recovery, recover_step, recover_jobs, logged_version, schedule_jobs,
}
use scheduler.Executor.Recovery.Runs.{queued, add_job_to_schedule_queue-some}

allow_account-contains :
    (env : Env) (j : Job) (a : ℕ) (allowed : List ℕ) (x : Executor)
    → contains a allowed ≡ true
    → contains a (allow_account env j (allowed, x)).0 ≡ true
unfolding allow_account
allow_account-contains env j a allowed x h = ground arith

allow_account-single :
    (env : Env) (j : Job) (x : Executor)
    → env.single_node_mode ≡ true
    → allow_account env j ([], x) ≡ (j.account_id ∷ [], x)
unfolding allow_account
allow_account-single env j x m = ground arith

allow_accounts-contains :
    (env : Env) (js : List Job) (a : ℕ) (allowed : List ℕ) (x : Executor)
    → contains a allowed ≡ true
    → contains a (allow_accounts env js (allowed, x)).0 ≡ true
unfolding allow_accounts
allow_accounts-contains env [] a allowed x h = h
allow_accounts-contains env (j ∷ js) a allowed x h =
    let (more, y) = allow_account env j (allowed, x) in
    allow_accounts-contains env js a more y (allow_account-contains env j a allowed x h)

place_zero :
    (n : Job) (s : JobSchedule) (x : Executor)
    → s.mem_execution.next_execution_datetime ≡ 0
    → place n s x ≡ none
unfolding place add_job_to_schedule_queue add_job store_schedule
place_zero n s x e = ground arith

-- The next time of a job with no cron spec that has run.
next_once :
    (env : Env) (j : Job) (d : ℕ)
    → is_empty j.spec ≡ true
    → 0 < j.start_date
    → 0 < d
    → get_next_execution_time env.calendar (record j { last_execution_date = d }) ≡ some 0
unfolding get_next_execution_time
next_once env j d p b n = ground arith

recover_once :
    (env : Env) (h : History) (j : Job) (x : Executor) (g : ExecutionLog)
    → is_empty j.spec ≡ true
    → 0 < j.start_date
    → lookup j.id h.logs ≡ some g
    → g.state ≡ success
    → 0 < g.next_execution_datetime
    → recover_job env h h.logs j x ≡ none
unfolding recover_job recover_next
recover_once env h j x g p b e q n =
    let k = record j { last_execution_date = g.next_execution_datetime } in
    rw (e, recover_job, q, next_once env j g.next_execution_datetime p b n, recover_next)
      (place_zero (with_id env k)
        (schedule_of (with_id env k) g.execution_version 0 success g.last_execution_datetime 0) x
        refl)

recover_step_once :
    (env : Env) (h : History) (allowed : List ℕ) (j : Job) (r : Recovery)
    → contains j.account_id allowed ≡ true
    → j.status ≡ JobStatus.active
    → j.end_date ≡ 0
    → recover_job env h r.logs j r.executor ≡ none
    → recover_step env h allowed j r ≡ none
unfolding recover_step has_job_ended
recover_step_once env h allowed j r c a d k = ground arith

-- On a single node, a job with no cron spec whose start date is set, that is active, has no end
-- date, and has run with success, has the zero time as its next time: where it comes first,
-- `ScheduleJobs` panics, and schedules none of the jobs.
pub schedule_jobs_once :
    (env : Env) (h : History) (j : Job) (js : List Job) (x : Executor) (g : ExecutionLog)
    → env.single_node_mode ≡ true
    → j.status ≡ JobStatus.active
    → is_empty j.spec ≡ true
    → 0 < j.start_date
    → j.end_date ≡ 0
    → lookup j.id h.logs ≡ some g
    → g.state ≡ success
    → 0 < g.next_execution_datetime
    → schedule_jobs env h (j ∷ js) x ≡ none
unfolding schedule_jobs recover_jobs allow_accounts
schedule_jobs_once env h j js x g m a p b d e q n =
    let (allowed, y) = allow_accounts env (j ∷ js) ([], x) in
    let r : Recovery = record { executor = y; logs = h.logs; scheduled_ids = []; jobs = [] } in
    let c : contains j.account_id allowed ≡ true =
      rw (allow_accounts, allow_account-single env j x m)
        (allow_accounts-contains env js j.account_id (j.account_id ∷ []) x
          (rw (==-refl j.account_id))) in
    rw (
      schedule_jobs,
      recover_jobs,
      recover_step_once env h allowed j r c a d (recover_once env h j y g p b e q n),
    )

-- The job, its schedule and the executor after such a recovery.
abbrev pub resumed_job : Env → Job → ExecutionLog → Job
resumed_job env j g = with_id env (record j { last_execution_date = g.next_execution_datetime })

abbrev pub resumed_schedule : Env → Job → ExecutionLog → ℕ → ℕ → JobSchedule
resumed_schedule env j g fails t =
    schedule_of (resumed_job env j g) g.execution_version fails failed g.last_execution_datetime t

abbrev pub resumed : Env → Job → ExecutionLog → ℕ → ℕ → Executor → Executor
resumed env j g fails t x =
    queued (record { job_id = j.id; execution_time = t })
      (store_schedule j.id (resumed_schedule env j g fails t) x)

reschedule_cached_spent :
    (env : Env) (j : Job) (l : Loop) (s : JobSchedule)
    → lookup j.id l.executor.cache ≡ some s
    → to_uint64 j.retry_max ≤ s.mem_execution.fail_count
    → reschedule_cached env j failed l
      ≡ advance_version env j s.mem_execution failed
          (record l { executor = notify_failure env j s.mem_execution l.executor })
unfolding reschedule_cached
reschedule_cached_spent env j l s e m =
    let b : ltb s.mem_execution.fail_count (to_uint64 j.retry_max) ≡ false = ground arith in
    rw (e, reschedule_cached, b)

recover_failed_exhausted :
    (env : Env) (j : Job) (x : Executor) (g : ExecutionLog) (fails t : ℕ)
    → to_uint64 j.retry_max ≤ fails
    → get_next_execution_time env.calendar
        (record j { last_execution_date = g.next_execution_datetime })
      ≡ some t
    → 0 < t
    → 0 < j.id
    → recover_failed env j g fails x ≡ some (resumed_job env j g, resumed env j g fails t x)
unfolding recover_failed recover_next place
recover_failed_exhausted env j x g fails t m k p i =
    let b : ltb fails (to_uint64 j.retry_max) ≡ false = ground arith in
    let key : JobScheduleKey = record { job_id = j.id; execution_time = t } in
    rw (
      b,
      k,
      recover_next,
      add_job_to_schedule_queue-some key (store_schedule j.id (resumed_schedule env j g fails t) x)
          i p,
      place,
    )

-- A job whose last run failed with no retries left keeps the version of that run, in its cached
-- schedule and in its log, and the failures that were counted for it; so the next run that fails is
-- not retried, whatever `RetryMax` allows.
pub recover_job_exhausted :
    (env : Env) (h : History) (j : Job) (x : Executor) (g : ExecutionLog) (t : ℕ) (l : Loop)
    → lookup j.id h.logs ≡ some g
    → g.state ≡ failed
    → 0 < h.failures j.id g.execution_version
    → to_uint64 j.retry_max ≤ h.failures j.id g.execution_version
    → get_next_execution_time env.calendar
        (record j { last_execution_date = g.next_execution_datetime })
      ≡ some t
    → 0 < t
    → 0 < j.id
    → (n : Job) × (y : Executor) × (s : JobSchedule) × (recover_job env h h.logs j x ≡ some (n, y))
      × (lookup n.id y.cache ≡ some s)
      × (s.mem_execution.execution_version ≡ g.execution_version)
      × (s.mem_execution.next_execution_datetime ≡ t)
      × (logged_version g (some s) ≡ g.execution_version)
      × (reschedule_cached env n failed (record l { executor = y })
          ≡ advance_version env n s.mem_execution failed
              (record l { executor = notify_failure env n s.mem_execution y }))
unfolding recover_job logged_version store_schedule queued
recover_job_exhausted env h j x g t l e q f m k p i =
    let fails = h.failures j.id g.execution_version in
    let y = resumed env j g fails t x in
    let cached : lookup j.id y.cache ≡ some (resumed_schedule env j g fails t) =
      rw (lookup-insert j.id j.id (resumed_schedule env j g fails t) x.cache, ==-refl j.id) in
    (
      resumed_job env j g,
      y,
      resumed_schedule env j g fails t,
      rw (e, recover_job, q) (recover_failed_exhausted env j x g fails t m k p i),
      cached,
      refl,
      refl,
      rw q (ground arith),
      reschedule_cached_spent env (resumed_job env j g) (record l { executor = y })
          (resumed_schedule env j g fails t) cached m,
    )
