-- ===== src/Executor/Reschedule/Total.antt =====
-- A batch of real jobs never panics.
use scheduler.Prelude.{
  ℕ, ◌<◌, Option, none, some, List, [], ◌∷◌, arith, lookup, Option-cases, inl, inr, All,
}
use scheduler.Models.{Job, MemJobExecution, ExecutionLogState, JobScheduleKey}
use scheduler.ScheduleQueue.{add_job}
use scheduler.Executor.{Executor, Env, add_job_to_schedule_queue}
use scheduler.Executor.Reschedule.{
  Loop, take_execution, retry, notify_failure, advance_version, reschedule_cached, check_job,
  reschedule_job, reschedule_loop, reschedule,
}

-- There is a result.
abbrev pub IsSome {ℓ} : {A : Type ℓ} → Option A → Type 0
IsSome none = ⊥
IsSome (some a) = Unit {0}

add_job_to_schedule_queue-IsSome :
    (k : JobScheduleKey) (x : Executor)
    → 0 < k.job_id
    → 0 < k.execution_time
    → IsSome (add_job_to_schedule_queue k x)
unfolding add_job_to_schedule_queue add_job
add_job_to_schedule_queue-IsSome k x i t = ground arith

retry-IsSome :
    (j : Job) (m : MemJobExecution) (state : ExecutionLogState) (l : Loop)
    → 0 < j.id
    → IsSome (retry j m state l)
unfolding retry add_job_to_schedule_queue add_job
retry-IsSome j m state l i = ground arith

advance_version-IsSome :
    (env : Env) (j : Job) (m : MemJobExecution) (state : ExecutionLogState) (l : Loop)
    → 0 < j.id
    → IsSome (advance_version env j m state l)
unfolding advance_version add_job_to_schedule_queue add_job
advance_version-IsSome env j m state l i = ground arith

reschedule_cached-IsSome :
    (env : Env) (j : Job) (state : ExecutionLogState) (l : Loop)
    → 0 < j.id
    → IsSome (reschedule_cached env j state l)
unfolding reschedule_cached
reschedule_cached-IsSome env j state l i = elim (Option-cases (lookup j.id l.executor.cache)) [
  | inl e ↦ rw (e, reschedule_cached) tt
  | inr (s, e) ↦ ground (
    arith,
    retry-IsSome j s.mem_execution state l i,
    advance_version-IsSome env j s.mem_execution state l i,
    advance_version-IsSome env j s.mem_execution state
        (record l { executor = notify_failure env j s.mem_execution l.executor }) i,
  )
]

check_job-IsSome :
    (env : Env) (j : Job) (state : ExecutionLogState) (l : Loop)
    → 0 < j.id
    → IsSome (check_job env j state l)
unfolding check_job
check_job-IsSome env j state l i = ground (arith, reschedule_cached-IsSome env j state l i)

reschedule_job-IsSome :
    (env : Env) (state : ExecutionLogState) (j : Job) (l : Loop)
    → 0 < j.id
    → IsSome (reschedule_job env state j l)
unfolding reschedule_job
reschedule_job-IsSome env state j l i =
    ground (arith, check_job-IsSome env j state (take_execution env j.account_id l).1 i)

pub reschedule_loop-IsSome :
    (env : Env) (state : ExecutionLogState) (js : List Job) (l : Loop)
    → All (λ j. 0 < j.id) js
    → IsSome (reschedule_loop env state js l)
unfolding reschedule_loop
reschedule_loop-IsSome env state [] l a = tt
reschedule_loop-IsSome env state (j ∷ js) l (i, a) =
    elim (Option-cases (reschedule_job env state j l)) [
      | inl e ↦ ground (arith, reschedule_job-IsSome env state j l i)
      | inr (m, e) ↦ rw (e, reschedule_loop) (reschedule_loop-IsSome env state js m a)
    ]

-- `reschedule` never reaches the panic of the schedule queue: on any batch of jobs with ids, from
-- any state and with or without the counts, it returns.
pub reschedule-IsSome :
    (env : Env) (state : ExecutionLogState) (counts : Option (List (ℕ × ℕ))) (js : List Job)
    (x : Executor)
    → All (λ j. 0 < j.id) js
    → IsSome (reschedule env state counts js x)
unfolding reschedule
reschedule-IsSome env state none js x a = tt
reschedule-IsSome env state (some counts) js x a = ground (
  arith,
  reschedule_loop-IsSome env state js
      (record {
        executor = x;
        counts = counts;
        exhausted = [];
        to_inactivate = [];
        to_reschedule = [];
      })
      a,
)
