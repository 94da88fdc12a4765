-- ===== src/Executor/Invocation.antt =====
-- `invokeJobsV1` of pkg/service/executor/executor.go: the due jobs are read anew, put together by
-- their executor, and handed to the handlers of web hooks and cloud functions. A map of Go is
-- visited in any order; here it is the order in which its keys were met.
pub mod Counts
pub mod Calls
pub mod Seconds
use scheduler.Prelude.{
  ℕ, ◌/◌, ◌++◌, Bool, true, false, ◌&&◌, Option, none, some, List, [], ◌∷◌, map, ltb, ◌==◌,
  if◌then◌else◌, length, lookup, insert,
}
use scheduler.Prelude.Result.{Result, ok, err}
use scheduler.Models.{Job, JobSchedule, ExecutionLogState, scheduled}
use scheduler.Executor.Reschedule.{is_inactive}

pub data ExecutorType : Type 0 where
  webhook_url cloud_function local_executor unknown_type : ExecutorType

pub data CloudProvider : Type 0 where
  aws azure gcp other_provider : CloudProvider

-- Addresses and keys, which are handed on, are left out.
pub record JobExecutor : Type 0 where
  pub id : ℕ
  pub kind : ExecutorType
  pub cloud_provider : CloudProvider
  pub payload_aggregation : Bool

pub data Handler : Type 0 where
  webhook lambda azure_function gcp_function : Handler

pub record Payload : Type 0 where
  pub job : Job
  pub last_execution_date_time : Option ℕ
  pub last_execution_status : ExecutionLogState

-- A call of a handler with one payload, or with several at once.
pub data Invocation : Type 0 where
  single : Handler → ℕ → Payload → Invocation
  aggregated : Handler → ℕ → List Payload → Invocation

abbrev pub Cache : Type 0
Cache = List (ℕ × JobSchedule)

unfoldable pub build_invocation_payload : Cache → Job → Payload
build_invocation_payload cache j = elim (lookup j.id cache) [
  | none ↦ record { job = j; last_execution_date_time = none; last_execution_status = scheduled }
  | some s ↦ record {
    job = j;
    last_execution_date_time = some s.mem_execution.last_execution_datetime;
    last_execution_status = s.mem_execution.last_state;
  }
]

abbrev pub handler_of : ExecutorType → CloudProvider → Option Handler
handler_of webhook_url p = some webhook
handler_of cloud_function aws = some lambda
handler_of cloud_function azure = some azure_function
handler_of cloud_function gcp = some gcp_function
handler_of cloud_function other_provider = none
handler_of local_executor p = none
handler_of unknown_type p = none

unfoldable pub invoke_single_job : Cache → JobExecutor → Job → List Invocation
unfolding build_invocation_payload
invoke_single_job cache e j = elim (handler_of e.kind e.cloud_provider) [
  | none ↦ []
  | some h ↦ single h e.id (build_invocation_payload cache j) ∷ []
]

unfoldable pub invoke_aggregated_jobs : Cache → JobExecutor → List Job → List Invocation
unfolding build_invocation_payload
invoke_aggregated_jobs cache e js = elim (handler_of e.kind e.cloud_provider) [
  | none ↦ []
  | some h ↦ aggregated h e.id (map (build_invocation_payload cache) js) ∷ []
]

-- `m[k] = append(m[k], j)`.
abbrev pub append_to : ℕ → Job → List (ℕ × List Job) → List (ℕ × List Job)
append_to k j [] = (k, j ∷ []) ∷ []
append_to k j ((i, js) ∷ m) = if i == k then (i, js ++ j ∷ []) ∷ m else (i, js) ∷ append_to k j m

-- The second of the schedule's next execution, from `time.Time`'s zero on.
abbrev pub second_of : JobSchedule → ℕ
second_of s = s.mem_execution.next_execution_datetime / 1000000000

-- The groups so far, and the jobs without a schedule.
abbrev pub group_job :
    Cache → Job → List (ℕ × List Job) × List (List Job) → List (ℕ × List Job) × List (List Job)
group_job cache j (groups, uncached) = elim (lookup j.id cache) [
  | none ↦ (groups, uncached ++ (j ∷ []) ∷ [])
  | some s ↦ (append_to (second_of s) j groups, uncached)
]

unfoldable pub group_jobs :
    Cache → List Job → List (ℕ × List Job) × List (List Job) → List (ℕ × List Job) × List (List Job)
group_jobs cache [] r = r
group_jobs cache (j ∷ js) r = group_jobs cache js (group_job cache j r)

abbrev pub members : List (ℕ × List Job) → List (List Job)
members [] = []
members ((k, js) ∷ m) = js ∷ members m

unfoldable pub group_jobs_by_fire_time : Cache → List Job → List (List Job)
unfolding group_jobs
group_jobs_by_fire_time cache js =
    let (groups, uncached) = group_jobs cache js ([], []) in members groups ++ uncached

abbrev pub invoke_group : Cache → JobExecutor → List Job → List Invocation
invoke_group cache e [] = invoke_aggregated_jobs cache e []
invoke_group cache e (j ∷ []) = invoke_single_job cache e j
invoke_group cache e (j ∷ k ∷ js) = invoke_aggregated_jobs cache e (j ∷ k ∷ js)

unfoldable pub invoke_groups : Cache → JobExecutor → List (List Job) → List Invocation
invoke_groups cache e [] = []
invoke_groups cache e (g ∷ gs) = invoke_group cache e g ++ invoke_groups cache e gs

unfoldable pub invoke_each : Cache → JobExecutor → List Job → List Invocation
unfolding invoke_single_job
invoke_each cache e [] = []
invoke_each cache e (j ∷ js) = invoke_single_job cache e j ++ invoke_each cache e js

-- The jobs of one executor.
unfoldable pub invoke_executor_jobs : Cache → JobExecutor → List Job → List Invocation
unfolding invoke_groups invoke_each group_jobs_by_fire_time
invoke_executor_jobs cache e js =
    if e.payload_aggregation && ltb 1 (length js)
    then invoke_groups cache e (group_jobs_by_fire_time cache js)
    else invoke_each cache e js

-- Jobs that are inactive or have no executor are passed over.
unfoldable pub executor_jobs : List Job → List (ℕ × List Job) → List (ℕ × List Job)
executor_jobs [] m = m
executor_jobs (j ∷ js) m = executor_jobs js (
    if is_inactive j.status
    then m
    else (elim j.executor_id [ none ↦ m | some e ↦ append_to e j m ]))

abbrev pub executor_map : List JobExecutor → List (ℕ × JobExecutor) → List (ℕ × JobExecutor)
executor_map [] m = m
executor_map (e ∷ es) m = executor_map es (insert e.id e m)

unfoldable pub invoke_all : Cache → List (ℕ × JobExecutor) → List (ℕ × List Job) → List Invocation
unfolding invoke_executor_jobs
invoke_all cache targets [] = []
invoke_all cache targets ((id, js) ∷ m) =
    let rest = invoke_all cache targets m in
    elim (lookup id targets) [ none ↦ rest | some e ↦ invoke_executor_jobs cache e js ++ rest ]

abbrev pub invoke_grouped :
    Cache → List (ℕ × List Job) → Result (List JobExecutor) → Option (List Invocation)
invoke_grouped cache [] answer = some []
invoke_grouped cache (g ∷ gs) (err x) = some []
invoke_grouped cache (g ∷ gs) (ok []) = none
invoke_grouped cache (g ∷ gs) (ok (e ∷ es)) =
    some (invoke_all cache (executor_map (e ∷ es) []) (g ∷ gs))

-- `jobs` and `executors` are the repositories' answers to the ids; `none` is a panic.
unfoldable pub invoke_jobs :
    Cache → List Job → Result (List Job) → Result (List JobExecutor) → Option (List Invocation)
unfolding executor_jobs invoke_all
invoke_jobs cache [] jobs executors = some []
invoke_jobs cache (j ∷ js) (err x) executors = some []
invoke_jobs cache (j ∷ js) (ok jobs) executors =
    invoke_grouped cache (executor_jobs jobs []) executors
