-- ===== src/Executor.antt =====
-- pkg/service/executor/executor.go: the state of the job executor and the operations that keep
-- it: the cache of schedules, the queue of pending executions and the local quotas. A `sync.Map`
-- is an association list. The file holds both sides of an unresolved merge; the model follows the
-- side marked HEAD, which the code after it belongs to.
pub mod Due
pub mod Batches
pub mod Reschedule
pub mod Recovery
pub mod Invocation
pub mod Results
pub mod Reports
use scheduler.Prelude.{
  ℕ, zero, suc, ◌-◌, Bool, true, false, ◌||◌, Option, none, some, List, [], ◌∷◌, ltb, ◌==◌,
  if◌then◌else◌, lookup, insert, erase,
}
use scheduler.Models.{
  Job, JobSchedule, JobScheduleKey, MemJobExecution, ExecutionLogState, scheduled,
}
use scheduler.ScheduleQueue.{add_job, peek, pop}
use scheduler.JobTime.{Calendar, get_next_execution_time}

-- What the executor asks the rest of the program to do, newest first.
pub data Event : Type 0 where
  account_inactivated : ℕ → Event
  exhaustion_notified : ℕ → Event
  failure_notified : Job → ℕ → ℕ → Event
  count_updated : ℕ → ℕ → Event
  sent_to_leader : Job → Event
  job_updated : Job → Event
  log_inserted : List (ℕ × ℕ) → Event
  log_in_raft : List (ℕ × ℕ) → Event

pub record Executor : Type 0 where
  pub cache : List (ℕ × JobSchedule)
  pub schedule_queue : List JobScheduleKey
  pub local_quota : List (ℕ × ℕ)
  pub events : List Event

-- The node's mode, whether each callback is set, and the calendar of the jobs.
pub record Env : Type 0 where
  pub single_node_mode : Bool
  pub node_is_leader : Bool
  pub has_exhaustion_callback : Bool
  pub has_leader_callback : Bool
  pub has_failure_sink : Bool
  pub calendar : Calendar

abbrev pub emit : Event → Executor → Executor
emit e x = record x { events = e ∷ x.events }

unfoldable pub store_schedule : ℕ → JobSchedule → Executor → Executor
store_schedule id s x = record x { cache = insert id s x.cache }

unfoldable pub delete_schedule : ℕ → Executor → Executor
delete_schedule id x = record x { cache = erase id x.cache }

-- `addJobToScheduleQueue`; `none` is the queue's panic.
unfoldable pub add_job_to_schedule_queue : JobScheduleKey → Executor → Option Executor
add_job_to_schedule_queue k x = elim (add_job x.schedule_queue k) [
  | none ↦ none
  | some q ↦ some (record x { schedule_queue = q })
]

-- `StopAll`.
unfoldable pub stop_all : Executor → Executor
stop_all x = record x { cache = []; schedule_queue = []; local_quota = [] }

-- `AddJobSchedule`: nothing for a job with no next time; `none` is a panic.
unfoldable pub add_job_schedule : Env → Job → Executor → Option Executor
unfolding store_schedule add_job_to_schedule_queue
add_job_schedule env j x = elim (get_next_execution_time env.calendar j) [
  | none ↦ some x
  | some t ↦
      if j.date_created == 0
      then none
      else add_job_to_schedule_queue (record { job_id = j.id; execution_time = t })
          (store_schedule j.id
            (record {
              job = j;
              mem_execution = record {
                execution_version = 1;
                fail_count = 0;
                last_state = scheduled;
                last_execution_datetime = j.date_created;
                next_execution_datetime = t;
              };
            })
            x)
]

-- `UpdateLocalQuotaAllocations`: each allocation replaces what the account had.
unfoldable pub update_local_quota_allocations : List (ℕ × ℕ) → Executor → Executor
update_local_quota_allocations [] x = x
update_local_quota_allocations ((a, n) ∷ rest) x =
    update_local_quota_allocations rest (record x { local_quota = insert a n x.local_quota })

unfoldable pub reset_local_quota_allocations : Executor → Executor
reset_local_quota_allocations x = record x { local_quota = [] }

unfoldable pub get_local_quota_remaining : ℕ → Executor → Option ℕ
get_local_quota_remaining a x = lookup a x.local_quota

unfoldable pub decrement_local_quota : ℕ → Executor → Bool × Executor
decrement_local_quota a x = elim (lookup a x.local_quota) [
  | none ↦ (false, x)
  | some n ↦
      if n == 0
      then (false, x)
      else (true, record x { local_quota = insert a (n - 1) x.local_quota })
]

-- The jobs that are due at `now`, in the order of the queue; one with no schedule is dropped. The
-- fuel is the length of the queue.
unfoldable pub take_due : ℕ → ℕ → Executor → List Job × Executor
take_due zero now x = ([], x)
take_due (suc fuel) now x =
    let next = peek x.schedule_queue in
    let popped = record x { schedule_queue = (pop x.schedule_queue).1 } in
    let rest = take_due fuel now popped in
    if next.job_id == 0 || ltb now next.execution_time
    then ([], x)
    else (elim (lookup next.job_id x.cache) [ none ↦ rest | some s ↦ (s.job ∷ rest.0, rest.1) ])
