-- ===== src/Executor/Results/Stops.antt =====
-- A run that ends: with its job in the cache, and after the cache has been cleared.
use scheduler.Prelude.{ℕ, ◌<◌, ◌≡◌, none, some, List, [], ◌∷◌, lookup, arith}
use scheduler.Models.{Job, JobSchedule, ExecutionLogState}
use scheduler.Executor.{Executor, Env, stop_all}
use scheduler.Executor.Reschedule.Kept.{IsSound, reschedule-IsSound}
use scheduler.Executor.Recovery.{ExecutionLog, History}
use scheduler.Executor.Results.{
  create_in_mem, create_all_in_mem, create_if_not_exist, log_state, Counts, handle_job, not_cached,
}

not_cached_one :
    (j : Job) (x : Executor) (s : JobSchedule)
    → lookup j.id x.cache ≡ some s
    → not_cached x.cache (j ∷ []) ≡ []
not_cached_one j x s e = rw (not_cached, e)

create_if_not_exist_cached :
    (h : History) (j : Job) (x : Executor) (s : JobSchedule)
    → lookup j.id x.cache ≡ some s
    → create_if_not_exist h (j ∷ []) x ≡ some x
unfolding create_if_not_exist create_all_in_mem
create_if_not_exist_cached h j x s e = rw (create_if_not_exist, not_cached_one j x s e)

log_state-queue :
    (env : Env) (versions : List (ℕ × ℕ)) (x : Executor)
    → (log_state env versions x).schedule_queue ≡ x.schedule_queue
unfolding log_state
log_state-queue env versions x = ground arith

-- For a run of a job with an id that is in the cache, with a queue that is a heap of keys with ids,
-- `handleSuccessJobs` and `handleFailedJobs` return and leave such a queue.
pub handle_job-IsSound :
    (env : Env) (h : History) (state : ExecutionLogState) (counts : Counts) (j : Job) (x : Executor)
    (s : JobSchedule)
    → lookup j.id x.cache ≡ some s
    → 0 < j.id
    → IsSound x.schedule_queue
    → (y : Executor) × (handle_job env h state counts j x ≡ some y) × IsSound y.schedule_queue
unfolding handle_job
handle_job-IsSound env h state counts j x s e i v =
    let logged = log_state env ((j.id, s.mem_execution.execution_version) ∷ []) x in
    let (y, p, q) =
      reschedule-IsSound env state counts (j ∷ []) logged (i, tt)
        (rw (log_state-queue env ((j.id, s.mem_execution.execution_version) ∷ []) x) v) in
    (y, rw (handle_job, create_if_not_exist_cached h j x s e, e) p, q)

-- `StopAll` clears the cache. A run of a job that is under way then, and whose last log says that the
-- job has not run before, ends in a panic.
pub handle_job_stopped :
    (env : Env) (h : History) (state : ExecutionLogState) (counts : Counts) (j : Job) (x : Executor)
    (g : ExecutionLog)
    → lookup j.id h.logs ≡ some g
    → g.last_execution_datetime ≡ 0
    → handle_job env h state counts j (stop_all x) ≡ none
unfolding handle_job create_if_not_exist create_all_in_mem create_in_mem stop_all
handle_job_stopped env h state counts j x g e z =
    rw (handle_job, create_if_not_exist, create_all_in_mem, create_in_mem, e, z)
