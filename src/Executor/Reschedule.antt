-- ===== src/Executor/Reschedule.antt =====
-- `reschedule` of pkg/service/executor/executor.go: after a run of jobs has succeeded or failed
-- each is retried, put at its next time, or made inactive.
pub mod Take
pub mod Outcomes
pub mod Retries
pub mod Total
pub mod Kept
use scheduler.Prelude.{
  ℕ, ◌+◌, ◌-◌, ◌%◌, Bool, true, false, ◌&&◌, ◌||◌, not, Option, none, some, List, [], ◌∷◌, ◌++◌,
  map, ltb, ◌==◌, if◌then◌else◌, lookup, insert, contains,
}
use scheduler.Prelude.Int.{to_uint64}
use scheduler.Models.{
  Job, JobStatus, JobSchedule, JobScheduleKey, MemJobExecution, ExecutionLogState, failed,
}
use scheduler.JobTime.{
  Calendar, is_empty, get_next_execution_time, get_next_execution_id, has_job_ended,
  is_start_date_in_past,
}
use scheduler.Executor.{
  Executor, Env, Event, account_inactivated, exhaustion_notified, failure_notified, count_updated,
  sent_to_leader, job_updated, log_inserted, log_in_raft, emit, store_schedule, delete_schedule,
  add_job_to_schedule_queue, get_local_quota_remaining, decrement_local_quota,
}

-- The variables of the loop: the counts read before it, the accounts found exhausted, and the
-- jobs to make inactive and to log, in the order in which they were met.
pub record Loop : Type 0 where
  pub executor : Executor
  pub counts : List (ℕ × ℕ)
  pub exhausted : List ℕ
  pub to_inactivate : List Job
  pub to_reschedule : List Job

-- Single node: one execution is taken from the account's count.
unfoldable pub take_count : ℕ → Loop → Bool × Loop
take_count a l = elim (lookup a l.counts) [
  | none ↦ (false, l)
  | some n ↦
      if ltb 0 n
      then (
        true,
        record l {
          counts = insert a (n - 1) l.counts;
          executor = emit (count_updated a (n - 1)) l.executor;
        },
      )
      else if not (contains a l.exhausted)
      then (
        false,
        record l {
          exhausted = a ∷ l.exhausted;
          executor = if a == 1 then l.executor else emit (account_inactivated a) l.executor;
        },
      )
      else (false, l)
]

-- Cluster: one execution is taken from the account's local quota; account 1 needs none.
unfoldable pub take_quota : Env → ℕ → Loop → Bool × Loop
unfolding get_local_quota_remaining decrement_local_quota
take_quota env a l = if a == 1 then (true, l) else (elim (get_local_quota_remaining a l.executor) [
  | none ↦ (false, l)
  | some n ↦
      if ltb 0 n
      then (let (done, x) = decrement_local_quota a l.executor in (done, record l { executor = x }))
      else if not (contains a l.exhausted)
      then (
        false,
        record l {
          exhausted = a ∷ l.exhausted;
          executor =
              if env.has_exhaustion_callback
              then emit (exhaustion_notified a) l.executor
              else l.executor;
        },
      )
      else (false, l)
])

unfoldable pub take_execution : Env → ℕ → Loop → Bool × Loop
take_execution env a l = if env.single_node_mode then take_count a l else take_quota env a l

-- The job leaves the cache; `retire` also lists it to be made inactive.
unfoldable pub drop_job : Job → Loop → Loop
unfolding delete_schedule
drop_job j l = record l { executor = delete_schedule j.id l.executor }

unfoldable pub retire : Job → Loop → Loop
unfolding drop_job
retire j l = let d = drop_job j l in record d { to_inactivate = l.to_inactivate ++ j ∷ [] }

abbrev pub schedule_of : Job → ℕ → ℕ → ExecutionLogState → ℕ → ℕ → JobSchedule
schedule_of j version fails state last next = record {
  job = j;
  mem_execution = record {
    execution_version = version;
    fail_count = fails;
    last_state = state;
    last_execution_datetime = last;
    next_execution_datetime = next;
  };
}

-- A failed job with retries left: the same version, at the time that it was due.
unfoldable pub retry : Job → MemJobExecution → ExecutionLogState → Loop → Option Loop
unfolding store_schedule add_job_to_schedule_queue
retry j m state l =
    let x =
      store_schedule j.id
        (schedule_of j m.execution_version (m.fail_count + 1) state m.last_execution_datetime
          m.next_execution_datetime)
        l.executor in
    if m.next_execution_datetime == 0
    then some (record l { executor = x; to_inactivate = l.to_inactivate ++ j ∷ [] })
    else (elim (add_job_to_schedule_queue
        (record { job_id = j.id; execution_time = m.next_execution_datetime }) x) [
          | none ↦ none
          | some y ↦ some (record l { executor = y })
        ])

-- `notifyJobFailureAsync`, where a callback or a publisher is set.
unfoldable pub notify_failure : Env → Job → MemJobExecution → Executor → Executor
notify_failure env j m x =
    if env.has_failure_sink && not (j.account_id == 0)
    then emit
        (failure_notified j (if m.fail_count == 0 then 1 else m.fail_count) m.execution_version) x
    else x

-- A job that is done with this version: the next version, at its next time.
unfoldable pub advance_version :
    Env → Job → MemJobExecution → ExecutionLogState → Loop → Option Loop
unfolding store_schedule add_job_to_schedule_queue retire
advance_version env j m state l =
    let k = record j { last_execution_date = m.next_execution_datetime } in
    elim (get_next_execution_time env.calendar k) [
      | none ↦ some l
      | some t ↦
          if t == 0
          then some (retire k l)
          else (let n = record k { execution_id = get_next_execution_id env.calendar k } in
              let x =
                store_schedule j.id
                  (schedule_of n ((m.execution_version + 1) % 18446744073709551616) 0 state
                    m.next_execution_datetime t)
                  l.executor in
              elim (add_job_to_schedule_queue (record { job_id = n.id; execution_time = t }) x) [
                | none ↦ none
                | some y ↦
                    some (record l { executor = y; to_reschedule = l.to_reschedule ++ n ∷ [] })
              ])
    ]

abbrev pub is_failed : ExecutionLogState → Bool
is_failed failed = true
is_failed _ = false

-- What follows the checks: the cached schedule decides.
unfoldable pub reschedule_cached : Env → Job → ExecutionLogState → Loop → Option Loop
reschedule_cached env j state l = elim (lookup j.id l.executor.cache) [
  | none ↦ some l
  | some s ↦
      if is_failed state && ltb s.mem_execution.fail_count (to_uint64 j.retry_max)
      then retry j s.mem_execution state l
      else if is_failed state
      then advance_version env j s.mem_execution state
          (record l { executor = notify_failure env j s.mem_execution l.executor })
      else advance_version env j s.mem_execution state l
]

abbrev pub is_inactive : JobStatus → Bool
is_inactive JobStatus.inactive = true
is_inactive _ = false

-- The checks of one job that may run again.
unfoldable pub check_job : Env → Job → ExecutionLogState → Loop → Option Loop
unfolding retire drop_job
check_job env j state l =
    if is_inactive j.status
    then some (drop_job j l)
    else (elim (is_start_date_in_past env.calendar j) [
      | none ↦ some (retire j l)
      | some past ↦
          if past && is_empty j.spec
          then some (retire j l)
          else (elim (has_job_ended env.calendar j) [
            | none ↦ some (retire j l)
            | some true ↦ some (retire j l)
            | some false ↦ reschedule_cached env j state l
          ])
    ])

-- One round of the loop.
unfoldable pub reschedule_job : Env → ExecutionLogState → Job → Loop → Option Loop
reschedule_job env state j l =
    let (can, taken) = take_execution env j.account_id l in
    if can then check_job env j state taken else some (drop_job j taken)

unfoldable pub reschedule_loop : Env → ExecutionLogState → List Job → Loop → Option Loop
reschedule_loop env state [] l = some l
reschedule_loop env state (j ∷ js) l = elim (reschedule_job env state j l) [
  | none ↦ none
  | some m ↦ reschedule_loop env state js m
]

-- `lastExecutionVersions`: the cached version of each job to log, the first time it is met.
unfoldable pub last_execution_versions :
    List (ℕ × JobSchedule) → List (ℕ × ℕ) → List Job → List (ℕ × ℕ)
last_execution_versions cache m [] = m
last_execution_versions cache m (j ∷ js) =
    last_execution_versions cache
      (elim (lookup j.id m) [
        | some v ↦ m
        | none ↦ elim (lookup j.id cache) [
          | none ↦ m
          | some s ↦ insert j.id s.mem_execution.execution_version m
        ]
      ])
      js

-- Each job to make inactive goes to the leader, or to the repository of a leader or single node.
unfoldable pub inactivate_jobs : Env → List Job → Executor → Executor
inactivate_jobs env [] x = x
inactivate_jobs env (j ∷ js) x =
    let k = record j { status = JobStatus.inactive } in
    inactivate_jobs env js (
      if not env.single_node_mode && not env.node_is_leader
      then (if env.has_leader_callback then emit (sent_to_leader k) x else x)
      else emit (job_updated k) x)

-- What follows the loop: the updates, then the log of the jobs put at their next time.
unfoldable pub finish : Env → Loop → Executor
unfolding last_execution_versions inactivate_jobs
finish env l =
    let versions = last_execution_versions l.executor.cache [] l.to_reschedule in
    let x = emit (log_inserted versions) (inactivate_jobs env l.to_inactivate l.executor) in
    if env.single_node_mode then emit (log_in_raft versions) x else x

-- `reschedule`, given the counts of the accounts (`none` is an error); `none` is a panic.
unfoldable pub reschedule :
    Env → ExecutionLogState → Option (List (ℕ × ℕ)) → List Job → Executor → Option Executor
unfolding finish
reschedule env state none js x = some x
reschedule env state (some counts) js x =
    elim (reschedule_loop env state js (record {
      executor = x;
      counts = counts;
      exhausted = [];
      to_inactivate = [];
      to_reschedule = [];
    })) [ none ↦ none | some l ↦ some (finish env l) ]
