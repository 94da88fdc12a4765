-- ===== src/Executor/Results.antt =====
-- What follows a run, in pkg/service/executor/executor.go: `handleSuccessJobs`, `handleFailedJobs` and
-- `handleJobsBatch` log the runs and put the jobs at their next time.
pub mod Stops
use scheduler.Prelude.{
  ℕ, ◌+◌, ◌-◌, Bool, true, false, ◌&&◌, ◌||◌, not, Option, none, some, List, [], ◌∷◌, ltb, ◌==◌,
  if◌then◌else◌, length, lookup, insert,
}
use scheduler.Prelude.Result.{Result, ok, err, bad_request, not_found, Text, is_empty}
use scheduler.Models.{Job, JobSchedule, ExecutionLogState, scheduled, success, failed}
use scheduler.Executor.{Executor, Env, emit, log_inserted, log_in_raft, store_schedule}
use scheduler.Executor.Reschedule.{schedule_of, is_failed, reschedule}
use scheduler.Executor.Recovery.{ExecutionLog, History}

-- The jobs that are not in the cache.
abbrev pub not_cached : List (ℕ × JobSchedule) → List Job → List Job
not_cached cache [] = []
not_cached cache (j ∷ js) = elim (lookup j.id cache) [
  | none ↦ j ∷ not_cached cache js
  | some s ↦ not_cached cache js
]

abbrev first_with_id : ℕ → Job → List Job → Job
first_with_id id j [] = j
first_with_id id j (k ∷ ks) = if k.id == id then k else first_with_id id j ks

-- A job's schedule from its last log; `none` is one of the three panics.
unfoldable pub create_in_mem : History → List Job → Job → Executor → Option Executor
unfolding store_schedule
create_in_mem h jobs j x = elim (lookup j.id h.logs) [
  | none ↦ none
  | some g ↦
      if g.last_execution_datetime == 0 || g.next_execution_datetime == 0
      then none
      else (elim (lookup j.id x.cache) [
        | some s ↦ none
        | none ↦
            let fails = if is_failed g.state then h.failures j.id g.execution_version else 0 in
            some (
              store_schedule j.id
                (schedule_of (first_with_id j.id j jobs) g.execution_version fails g.state
                  g.last_execution_datetime g.next_execution_datetime)
                x)
      ])
]

unfoldable pub create_all_in_mem : History → List Job → List Job → Executor → Option Executor
unfolding create_in_mem
create_all_in_mem h jobs [] x = some x
create_all_in_mem h jobs (j ∷ js) x = elim (create_in_mem h jobs j x) [
  | none ↦ none
  | some y ↦ create_all_in_mem h jobs js y
]

-- `createInMemExecutionsForJobsIfNotExist`.
unfoldable pub create_if_not_exist : History → List Job → Executor → Option Executor
unfolding create_all_in_mem
create_if_not_exist h js x = create_all_in_mem h js (not_cached x.cache js) x

unfoldable pub log_state : Env → List (ℕ × ℕ) → Executor → Executor
log_state env versions x =
    if env.single_node_mode then emit (log_in_raft versions) x else emit (log_inserted versions) x

-- The counts of accounts are what `reschedule` reads.
abbrev pub Counts : Type 0
Counts = Option (List (ℕ × ℕ))

-- `handleSuccessJobs` and `handleFailedJobs`; `none` is a panic.
unfoldable pub handle_job :
    Env → History → ExecutionLogState → Counts → Job → Executor → Option Executor
unfolding create_if_not_exist log_state
handle_job env h state counts j x = elim (create_if_not_exist h (j ∷ []) x) [
  | none ↦ none
  | some y ↦ elim (lookup j.id y.cache) [
    | none ↦ none
    | some s ↦
        reschedule env state counts (j ∷ [])
          (log_state env ((j.id, s.mem_execution.execution_version) ∷ []) y)
  ]
]

-- The jobs in the cache, with their versions.
abbrev pub resolve : List (ℕ × JobSchedule) → List Job → List (ℕ × ℕ) → List (ℕ × ℕ) × List Job
resolve cache [] versions = (versions, [])
resolve cache (j ∷ js) versions = elim (lookup j.id cache) [
  | none ↦ resolve cache js versions
  | some s ↦
      let (v, rest) = resolve cache js (insert j.id s.mem_execution.execution_version versions) in
      (v, j ∷ rest)
]

abbrev pub handle_resolved :
    Env → ExecutionLogState → Counts → List (ℕ × ℕ) × List Job → Executor → Option Executor
handle_resolved env state counts (versions, []) x = some x
handle_resolved env state counts (versions, j ∷ js) x =
    reschedule env state counts (j ∷ js) (log_state env versions x)

unfoldable pub handle_jobs_batch :
    Env → History → ExecutionLogState → Counts → List Job → Executor → Option Executor
unfolding create_if_not_exist
handle_jobs_batch env h state counts [] x = some x
handle_jobs_batch env h state counts (j ∷ js) x = elim (create_if_not_exist h (j ∷ js) x) [
  | none ↦ none
  | some y ↦ handle_resolved env state counts (resolve y.cache (j ∷ js) []) y
]
