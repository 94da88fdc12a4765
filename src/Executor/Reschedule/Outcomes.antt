-- ===== src/Executor/Reschedule/Outcomes.antt =====
-- What becomes of a job whose run has ended: retries, the notification, the next version.
use scheduler.Prelude.{
  ℕ, ◌+◌, ◌<◌, ◌≤◌, ◌%◌, ◌≡◌, true, some, List, [], ◌∷◌, ◌++◌, arith, ◌==◌, if◌then◌else◌, lookup,
  insert,
}
use scheduler.Prelude.Int.{to_uint64}
use scheduler.Models.{
  Job, JobSchedule, JobScheduleKey, MemJobExecution, ExecutionLogState, failed, success,
}
use scheduler.JobTime.{get_next_execution_time, get_next_execution_id}
use scheduler.ScheduleQueue.{add_job, heap_push}
use scheduler.Executor.{Executor, Env, failure_notified, store_schedule, add_job_to_schedule_queue}
use scheduler.Executor.Reschedule.{
  Loop, retry, notify_failure, advance_version, schedule_of, reschedule_cached,
}

pub add_job-some :
    (q : List JobScheduleKey) (k : JobScheduleKey)
    → 0 < k.job_id
    → 0 < k.execution_time
    → add_job q k ≡ some (heap_push q k)
unfolding add_job
add_job-some q k i t = ground arith

-- The loop's state after a retry of job `j`.
abbrev pub retried : Job → MemJobExecution → ExecutionLogState → Loop → Loop
retried j m state l = record l {
  executor = record (l.executor) {
    cache =
        insert j.id
          (schedule_of j m.execution_version (m.fail_count + 1) state m.last_execution_datetime
            m.next_execution_datetime)
          l.executor.cache;
    schedule_queue =
        heap_push l.executor.schedule_queue
          (record { job_id = j.id; execution_time = m.next_execution_datetime });
  };
}

-- A run that failed with retries left: the failure is counted, the version and the due time stay,
-- the job is queued again at that time, and nobody is notified.
pub reschedule_cached-retry :
    (env : Env) (j : Job) (l : Loop) (s : JobSchedule)
    → lookup j.id l.executor.cache ≡ some s
    → s.mem_execution.fail_count < to_uint64 j.retry_max
    → 0 < j.id
    → 0 < s.mem_execution.next_execution_datetime
    → reschedule_cached env j failed l ≡ some (retried j s.mem_execution failed l)
unfolding reschedule_cached retry store_schedule add_job_to_schedule_queue
reschedule_cached-retry env j l s e f i t =
    rw (e, reschedule_cached)
      (ground (
        arith,
        add_job-some l.executor.schedule_queue
            (record { job_id = j.id; execution_time = s.mem_execution.next_execution_datetime }),
      ))

-- The job and the loop's state after the version of job `j` has ended, with the next time `t`.
abbrev pub next_job : Env → Job → MemJobExecution → Job
next_job env j m =
    let k = record j { last_execution_date = m.next_execution_datetime } in
    record k { execution_id = get_next_execution_id env.calendar k }

abbrev pub advanced : Env → Job → MemJobExecution → ExecutionLogState → ℕ → Loop → Loop
advanced env j m state t l =
    let n = next_job env j m in
    record l {
      executor = record (l.executor) {
        cache =
            insert j.id
              (schedule_of n ((m.execution_version + 1) % 18446744073709551616) 0 state
                m.next_execution_datetime t)
              l.executor.cache;
        schedule_queue =
            heap_push l.executor.schedule_queue (record { job_id = j.id; execution_time = t });
      };
      to_reschedule = l.to_reschedule ++ n ∷ [];
    }

advance_version-some :
    (env : Env) (j : Job) (m : MemJobExecution) (state : ExecutionLogState) (t : ℕ) (l : Loop)
    → get_next_execution_time env.calendar
        (record j { last_execution_date = m.next_execution_datetime })
      ≡ some t
    → 0 < j.id
    → 0 < t
    → advance_version env j m state l ≡ some (advanced env j m state t l)
unfolding advance_version store_schedule add_job_to_schedule_queue
advance_version-some env j m state t l e i p =
    rw (e, advance_version)
      (ground (
        arith,
        add_job-some l.executor.schedule_queue (record { job_id = j.id; execution_time = t }),
      ))

-- A run that succeeded: the version goes up by one, the failures are forgotten, and the job is
-- queued and logged at its next time, which is sought from the time that this run was due.
pub reschedule_cached-success :
    (env : Env) (j : Job) (l : Loop) (s : JobSchedule) (t : ℕ)
    → lookup j.id l.executor.cache ≡ some s
    → get_next_execution_time env.calendar
        (record j { last_execution_date = s.mem_execution.next_execution_datetime })
      ≡ some t
    → 0 < j.id
    → 0 < t
    → reschedule_cached env j success l ≡ some (advanced env j s.mem_execution success t l)
unfolding reschedule_cached
reschedule_cached-success env j l s t e n i p =
    rw (e, reschedule_cached) (advance_version-some env j s.mem_execution success t l n i p)

notify_failure_sink :
    (env : Env) (j : Job) (m : MemJobExecution) (x : Executor)
    → env.has_failure_sink ≡ true
    → 0 < j.account_id
    → notify_failure env j m x ≡ record x {
      events =
          failure_notified j (if m.fail_count == 0 then 1 else m.fail_count) m.execution_version
          ∷ x.events;
    }
unfolding notify_failure
notify_failure_sink env j m x sink a = ground arith

-- A run that failed with no retry left: one notification is sent, with at least one failure, and
-- the job goes to its next version as after a success.
pub reschedule_cached-exhausted :
    (env : Env) (j : Job) (l : Loop) (s : JobSchedule) (t : ℕ)
    → lookup j.id l.executor.cache ≡ some s
    → to_uint64 j.retry_max ≤ s.mem_execution.fail_count
    → get_next_execution_time env.calendar
        (record j { last_execution_date = s.mem_execution.next_execution_datetime })
      ≡ some t
    → 0 < j.id
    → 0 < t
    → env.has_failure_sink ≡ true
    → 0 < j.account_id
    → let m = s.mem_execution in
      reschedule_cached env j failed l
      ≡ some (
          advanced env j m failed t (record l {
            executor = record (l.executor) {
              events =
                  failure_notified j
                    (if m.fail_count == 0 then 1 else m.fail_count)
                    m.execution_version
                  ∷ l.executor.events;
            };
          }))
unfolding reschedule_cached
reschedule_cached-exhausted env j l s t e f n i p sink a =
    let x = notify_failure env j s.mem_execution l.executor in
    rw (e, reschedule_cached)
      (ground (
        arith,
        notify_failure_sink env j s.mem_execution l.executor sink a,
        advance_version-some env j s.mem_execution failed t (record l { executor = x }) n i p,
      ))
