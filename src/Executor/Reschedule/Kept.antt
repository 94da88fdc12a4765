-- ===== src/Executor/Reschedule/Kept.antt =====
-- The queue of an executor stays a heap of keys with ids.
use scheduler.Executor.Reschedule.Outcomes.{add_job-some}
use scheduler.Executor.Reschedule.Total.{reschedule_loop-IsSome}
use scheduler.Executor.Reschedule.Take.{loop_of, reschedule-some}
use scheduler.Prelude.{
  ℕ, ◌<◌, ◌≡◌, ◌⊎◌, Option, none, some, List, arith, inl, inr, Option-cases, All, lookup, refl, ◌∷◌,
  [], insert, lookup-insert,
}
use scheduler.Models.{Job, MemJobExecution, ExecutionLogState, JobScheduleKey, JobStatus, scheduled}
use scheduler.JobTime.{get_next_execution_time}
use scheduler.Queue.{get_or}
use scheduler.ScheduleQueue.{heap_push, add_job}
use scheduler.ScheduleQueue.Elements.{count_if, count_if-heap_push}
use scheduler.ScheduleQueue.Order.{heap_push-IsHeap}
use scheduler.ScheduleQueue.Laws.{IsQueue}
use scheduler.Executor.{
  Env, add_job_to_schedule_queue, Executor, emit, sent_to_leader, job_updated, add_job_schedule,
  store_schedule,
}
use scheduler.Executor.Due.{has_no_id}
use scheduler.Executor.Reschedule.{
  Loop, retry, advance_version, take_count, take_quota, take_execution, drop_job, notify_failure,
  reschedule_cached, check_job, reschedule_job, reschedule_loop, finish, inactivate_jobs,
  reschedule, schedule_of,
}

-- The queue is a heap, and every key has an id.
abbrev pub IsSound : List JobScheduleKey → Type 0
IsSound q = IsQueue q × (count_if has_no_id q ≡ 0)

pub heap_push-IsSound :
    (q : List JobScheduleKey) (k : JobScheduleKey)
    → 0 < k.job_id
    → IsSound q
    → IsSound (heap_push q k)
heap_push-IsSound q k i (v, e) =
    (heap_push-IsHeap q k v, ground (arith, count_if-heap_push has_no_id q k))

-- The queue is left, or gets a key of the job at one of two times.
abbrev Grows : List JobScheduleKey → Job → ℕ → ℕ → Option Loop → Type 0
Grows q j s t none = Unit {0}
Grows q j s t (some l) =
    (l.executor.schedule_queue ≡ q)
    ⊎ (l.executor.schedule_queue ≡ heap_push q (record { job_id = j.id; execution_time = s }))
    ⊎ (l.executor.schedule_queue ≡ heap_push q (record { job_id = j.id; execution_time = t }))

retry-Grows :
    (j : Job) (m : MemJobExecution) (state : ExecutionLogState) (l : Loop) (t : ℕ)
    → Grows l.executor.schedule_queue j m.next_execution_datetime t (retry j m state l)
unfolding retry add_job_to_schedule_queue add_job
retry-Grows j m state l t = ground arith

abbrev time_after : Env → Job → MemJobExecution → ℕ
time_after env j m =
    get_or
      (get_next_execution_time env.calendar
        (record j { last_execution_date = m.next_execution_datetime }))
      0

advance_version-Grows :
    (env : Env) (j : Job) (m : MemJobExecution) (state : ExecutionLogState) (l : Loop) (s : ℕ)
    → Grows l.executor.schedule_queue j s (time_after env j m) (advance_version env j m state l)
unfolding advance_version add_job_to_schedule_queue add_job
advance_version-Grows env j m state l s = ground arith

reschedule_cached-Grows :
    (env : Env) (j : Job) (state : ExecutionLogState) (l : Loop)
    → (s : ℕ) × (t : ℕ) × Grows l.executor.schedule_queue j s t (reschedule_cached env j state l)
unfolding reschedule_cached notify_failure
reschedule_cached-Grows env j state l = elim (Option-cases (lookup j.id l.executor.cache)) [
  | inl e ↦ (0, 0, rw (e, reschedule_cached) (inl refl))
  | inr (s, e) ↦ (
    s.mem_execution.next_execution_datetime,
    time_after env j s.mem_execution,
    ground (
      arith,
      retry-Grows j s.mem_execution state l (time_after env j s.mem_execution),
      advance_version-Grows env j s.mem_execution state l s.mem_execution.next_execution_datetime,
      advance_version-Grows env j s.mem_execution state
          (record l { executor = notify_failure env j s.mem_execution l.executor })
          s.mem_execution.next_execution_datetime,
    ),
  )
]

take_execution-queue :
    (env : Env) (a : ℕ) (l : Loop)
    → (take_execution env a l).1.executor.schedule_queue ≡ l.executor.schedule_queue
unfolding take_execution take_count take_quota
take_execution-queue env a l = ground arith

check_job-Grows :
    (env : Env) (j : Job) (state : ExecutionLogState) (l : Loop) (s t : ℕ)
    → Grows l.executor.schedule_queue j s t (reschedule_cached env j state l)
    → Grows l.executor.schedule_queue j s t (check_job env j state l)
unfolding check_job
check_job-Grows env j state l s t g = ground (arith, g)

reschedule_job-Grows :
    (env : Env) (j : Job) (state : ExecutionLogState) (l : Loop)
    → (s : ℕ) × (t : ℕ) × Grows l.executor.schedule_queue j s t (reschedule_job env state j l)
unfolding reschedule_job drop_job
reschedule_job-Grows env j state l =
    let taken = (take_execution env j.account_id l).1 in
    let (s, t, g) = reschedule_cached-Grows env j state taken in
    (
      s,
      t,
      ground
          (arith, take_execution-queue env j.account_id l, check_job-Grows env j state taken s t g),
    )

Grows-IsSound :
    (q : List JobScheduleKey) (j : Job) (s t : ℕ) (l : Loop)
    → 0 < j.id
    → IsSound q
    → Grows q j s t (some l)
    → IsSound l.executor.schedule_queue
Grows-IsSound q j s t l i v (inl e) = rw e v
Grows-IsSound q j s t l i v (inr (inl e)) = rw e (heap_push-IsSound q _ i v)
Grows-IsSound q j s t l i v (inr (inr e)) = rw e (heap_push-IsSound q _ i v)

reschedule_loop-IsSound :
    (env : Env) (state : ExecutionLogState) (js : List Job) (l m : Loop)
    → All (λ j. 0 < j.id) js
    → IsSound l.executor.schedule_queue
    → reschedule_loop env state js l ≡ some m
    → IsSound m.executor.schedule_queue
unfolding reschedule_loop
reschedule_loop-IsSound env state [] l m a v e = rw (same l m e) v
  where
    same : (l m : Loop) → some l ≡ some m → m.executor.schedule_queue ≡ l.executor.schedule_queue
    same l m e = ground arith
reschedule_loop-IsSound env state (j ∷ js) l m (i, a) v e =
    elim (Option-cases (reschedule_job env state j l)) [
      | inl p ↦ absurd (ground arith)
      | inr (n, p) ↦
          let (s, t, g) = reschedule_job-Grows env j state l in
          reschedule_loop-IsSound env state js n m a
            (Grows-IsSound l.executor.schedule_queue j s t n i v (rw p at g)) (ground arith)
    ]

inactivate_jobs-queue :
    (env : Env) (js : List Job) (x : Executor)
    → (inactivate_jobs env js x).schedule_queue ≡ x.schedule_queue
unfolding inactivate_jobs
inactivate_jobs-queue env [] x = refl
inactivate_jobs-queue env (j ∷ js) x =
    let k = record j { status = JobStatus.inactive } in
    ground (
      arith,
      inactivate_jobs-queue env js x,
      inactivate_jobs-queue env js (emit (sent_to_leader k) x),
      inactivate_jobs-queue env js (emit (job_updated k) x),
    )

finish-queue : (env : Env) (l : Loop) → (finish env l).schedule_queue ≡ l.executor.schedule_queue
unfolding finish
finish-queue env l = ground (arith, inactivate_jobs-queue env l.to_inactivate l.executor)

-- On a batch of jobs with ids, and with a queue that is a heap of keys with ids, `reschedule`
-- returns and leaves such a queue.
pub reschedule-IsSound :
    (env : Env) (state : ExecutionLogState) (counts : Option (List (ℕ × ℕ))) (js : List Job)
    (x : Executor)
    → All (λ j. 0 < j.id) js
    → IsSound x.schedule_queue
    → (y : Executor) × (reschedule env state counts js x ≡ some y) × IsSound y.schedule_queue
unfolding reschedule
reschedule-IsSound env state none js x a v = (x, refl, v)
reschedule-IsSound env state (some counts) js x a v =
    elim (Option-cases (reschedule_loop env state js (loop_of x counts))) [
      | inl e ↦ ground (arith, reschedule_loop-IsSome env state js (loop_of x counts) a)
      | inr (l, e) ↦ (
        finish env l,
        reschedule-some env state counts js x l e,
        rw (finish-queue env l) (reschedule_loop-IsSound env state js (loop_of x counts) l a v e),
      )
    ]

-- A job with an id, a date of creation and a next time that is not zero is added, and the queue is a
-- heap of keys with ids: the job is cached at version 1 with no failures, and the queue is such a heap
-- still.
pub add_job_schedule-IsSound :
    (env : Env) (j : Job) (t : ℕ) (x : Executor)
    → get_next_execution_time env.calendar j ≡ some t
    → 0 < t
    → 0 < j.id
    → 0 < j.date_created
    → IsSound x.schedule_queue
    → (y : Executor) × (add_job_schedule env j x ≡ some y)
      × IsSound y.schedule_queue
      × (lookup j.id y.cache ≡ some (schedule_of j 1 0 scheduled j.date_created t))
unfolding add_job_schedule store_schedule add_job_to_schedule_queue
add_job_schedule-IsSound env j t x e p i d v =
    let key : JobScheduleKey = record { job_id = j.id; execution_time = t } in
    let s = schedule_of j 1 0 scheduled j.date_created t in
    (
      record x { cache = insert j.id s x.cache; schedule_queue = heap_push x.schedule_queue key },
      rw (e, add_job_schedule) (ground (arith, add_job-some x.schedule_queue key)),
      heap_push-IsSound x.schedule_queue key i v,
      ground (arith, lookup-insert j.id j.id s x.cache),
    )
