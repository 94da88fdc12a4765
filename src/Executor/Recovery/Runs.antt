-- ===== src/Executor/Recovery/Runs.antt =====
-- `ScheduleJobs` returns, and leaves a queue that is a heap of keys with ids.
use scheduler.Prelude.{
  ℕ, ◌+◌, ◌<◌, ◌≡◌, ◌≢◌, ◌⊎◌, inl, inr, true, false, ◌&&◌, not, ◌||◌, Option, none, some, List, [],
  ◌∷◌, ◌++◌, arith, refl, ltb, ◌==◌, if◌then◌else◌, All, lookup, erase, contains, Bool-cases,
  Option-cases, ◌∙◌,
}
use scheduler.Prelude.Int.{to_uint64}
use scheduler.Models.{
  Job, JobSchedule, JobScheduleKey, ExecutionLogState, scheduled, success, failed,
}
use scheduler.JobTime.{Calendar, is_empty, get_next_execution_time, has_job_ended}
use scheduler.JobTime.Next.{
  IsRising, FirstAfter, at_once, later, get_next_execution_time-FirstAfter,
}
use scheduler.ScheduleQueue.{heap_push}
use scheduler.Executor.{Executor, Env, add_job_to_schedule_queue, store_schedule}
use scheduler.Executor.Reschedule.{schedule_of, is_inactive}
use scheduler.Executor.Reschedule.Outcomes.{add_job-some}
use scheduler.Executor.Reschedule.Kept.{IsSound, heap_push-IsSound}
use scheduler.Executor.Recovery.{
  ExecutionLog, History, allow_account, allow_accounts, place, with_id, recover_new,
  recover_scheduled, recover_next, recover_retry, recover_failed, recover_by, recover_job, Recovery,
  recover_step, recover_jobs, log_jobs, schedule_jobs,
}

-- A job with an id and a cron spec that parses to a rising schedule, in a zone that loads.
pub record Recurs (c : Calendar) (j : Job) : Type 0 where
  pub next : ℕ → ℕ
  pub has_id : 0 < j.id
  pub has_spec : is_empty j.spec ≡ false
  pub parses : c.cron j.spec ≡ some next
  pub in_zone : c.zone_loads j.timezone ≡ true
  pub rises : IsRising next

FirstAfter-pos : (next : ℕ → ℕ) (now seed t : ℕ) → FirstAfter next now seed t → 0 < t
FirstAfter-pos next now seed t (at_once h) = omega arith
FirstAfter-pos next now seed t (later {u} p l h) = omega arith

-- Such a job has a next time after any last execution.
pub next_time :
    (c : Calendar) (j : Job) (d : ℕ)
    → Recurs c j
    → (t : ℕ) × (get_next_execution_time c (record j { last_execution_date = d }) ≡ some t)
      × (0 < t)
next_time c j d v =
    let (t, e, when) =
      get_next_execution_time-FirstAfter c (record j { last_execution_date = d }) v.next v.has_spec
        v.parses v.in_zone v.rises in
    (t, e, late t when)
  where
    late :
        (t : ℕ)
        → ((d ≡ 0) × (j.start_date ≢ 0) × (t ≡ j.start_date))
          ⊎ (((d ≢ 0) ⊎ (j.start_date ≡ 0))
              × FirstAfter v.next c.now (if d == 0 then c.now else d) t)
        → 0 < t
    late t (inl (a, b, e)) = ground arith
    late t (inr (b, f)) = FirstAfter-pos v.next c.now (if d == 0 then c.now else d) t f

-- A result with a sound queue.
abbrev Placed : Option (Job × Executor) → Type 0
Placed none = ⊥
Placed (some (n, y)) = IsSound y.schedule_queue

unfoldable pub queued : JobScheduleKey → Executor → Executor
queued k x = record x { schedule_queue = heap_push x.schedule_queue k }

pub add_job_to_schedule_queue-some :
    (k : JobScheduleKey) (x : Executor)
    → 0 < k.job_id
    → 0 < k.execution_time
    → add_job_to_schedule_queue k x ≡ some (queued k x)
unfolding add_job_to_schedule_queue queued
add_job_to_schedule_queue-some k x i t =
    rw (add_job-some x.schedule_queue k i t, add_job_to_schedule_queue)

place-Placed :
    (n : Job) (s : JobSchedule) (x : Executor)
    → 0 < n.id
    → 0 < s.mem_execution.next_execution_datetime
    → IsSound x.schedule_queue
    → Placed (place n s x)
unfolding place store_schedule queued
place-Placed n s x i t v =
    let k : JobScheduleKey = record {
      job_id = n.id;
      execution_time = s.mem_execution.next_execution_datetime;
    } in
    rw (add_job_to_schedule_queue-some k (store_schedule n.id s x) i t, place)
      (heap_push-IsSound x.schedule_queue k i v)

module _ (env : Env) (j : Job) (v : Recurs env.calendar j) (x : Executor)
    (q : IsSound x.schedule_queue) where
  recover_new-Placed : Placed (recover_new env j x)
  unfolding recover_new
  recover_new-Placed =
      let (t, e, p) = next_time env.calendar j j.last_execution_date v in
      rw (e, recover_new)
        (place-Placed (with_id env j) (schedule_of (with_id env j) 1 0 scheduled 0 t) x v.has_id p
          q)

  recover_scheduled-Placed : (g : ExecutionLog) → Placed (recover_scheduled env j g x)
  unfolding recover_scheduled
  recover_scheduled-Placed g =
      let (t, e, p) = next_time env.calendar j g.last_execution_datetime v in
      rw (e, recover_scheduled)
        (elim (Bool-cases (ltb t (g.next_execution_datetime + 30000000000))) [
          | inl b ↦ rw b (place-Placed _ _ x v.has_id p q)
          | inr b ↦ rw b (place-Placed _ _ x v.has_id p q)
        ])

  recover_next-Placed :
      (g : ExecutionLog) (fails : ℕ) (state : ExecutionLogState)
      → Placed (recover_next env j g fails state x)
  unfolding recover_next
  recover_next-Placed g fails state =
      let (t, e, p) = next_time env.calendar j g.next_execution_datetime v in
      rw (e, recover_next) (place-Placed _ _ x v.has_id p q)

  recover_failed-Placed :
      (g : ExecutionLog) (fails : ℕ)
      → 0 < g.next_execution_datetime
      → Placed (recover_failed env j g fails x)
  unfolding recover_failed recover_retry store_schedule queued
  recover_failed-Placed g fails p = elim (Bool-cases (ltb fails (to_uint64 j.retry_max))) [
    | inl b ↦
        let k : JobScheduleKey = record {
          job_id = j.id;
          execution_time = g.next_execution_datetime;
        } in
        rw (b, recover_retry, add_job_to_schedule_queue-some k x v.has_id p)
          (heap_push-IsSound x.schedule_queue k v.has_id q)
    | inr b ↦ rw b (recover_next-Placed g fails failed)
  ]

  recover_by-Placed :
      (h : History) (g : ExecutionLog) (state : ExecutionLogState)
      → 0 < g.next_execution_datetime
      → Placed (recover_by state env h j g x)
  recover_by-Placed h g scheduled p = recover_scheduled-Placed g
  recover_by-Placed h g success p = recover_next-Placed g 0 success
  recover_by-Placed h g failed p = recover_failed-Placed g (h.failures j.id g.execution_version) p

-- Every log has a time at which its execution was due.
abbrev pub HasTimes : List (ℕ × ExecutionLog) → Type 0
HasTimes logs = All (λ (r : ℕ × ExecutionLog). 0 < r.1.next_execution_datetime) logs

lookup-HasTimes :
    (a : ℕ) (logs : List (ℕ × ExecutionLog)) (g : ExecutionLog)
    → HasTimes logs
    → lookup a logs ≡ some g
    → 0 < g.next_execution_datetime
lookup-HasTimes a [] g h e = absurd (ground arith)
lookup-HasTimes a ((k, d) ∷ m) g h e = ground (arith, lookup-HasTimes a m g)

erase-HasTimes : (a : ℕ) (logs : List (ℕ × ExecutionLog)) → HasTimes logs → HasTimes (erase a logs)
erase-HasTimes a [] h = tt
erase-HasTimes a ((k, d) ∷ m) h = ground (arith, erase-HasTimes a m)

recover_job-Placed :
    (env : Env) (h : History) (logs : List (ℕ × ExecutionLog)) (j : Job) (x : Executor)
    → Recurs env.calendar j
    → HasTimes logs
    → IsSound x.schedule_queue
    → Placed (recover_job env h logs j x)
unfolding recover_job
recover_job-Placed env h logs j x v t q = elim (Option-cases (lookup j.id logs)) [
  | inl e ↦ rw (e, recover_job) (recover_new-Placed env j v x q)
  | inr (g, e) ↦
      rw (e, recover_job)
        (recover_by-Placed env j v x q h g g.state (lookup-HasTimes j.id logs g t e))
]

abbrev Carried : Option Recovery → Type 0
Carried none = ⊥
Carried (some r) = IsSound r.executor.schedule_queue × HasTimes r.logs

recover_active-Carried :
    (env : Env) (h : History) (j : Job) (r : Recovery) (o : Option (Job × Executor))
    → Placed o
    → HasTimes r.logs
    → Carried (elim o [
      | none ↦ none
      | some (n, y) ↦ some (record r {
        executor = y;
        scheduled_ids = j.id ∷ r.scheduled_ids;
        jobs = r.jobs ++ n ∷ [];
      })
    ])
recover_active-Carried env h j r none p t = p
recover_active-Carried env h j r (some (n, y)) p t = (p, t)

recover_step-Carried :
    (env : Env) (h : History) (allowed : List ℕ) (j : Job) (r : Recovery)
    → Recurs env.calendar j
    → Carried (some r)
    → Carried (recover_step env h allowed j r)
unfolding recover_step
recover_step-Carried env h allowed j r v (q, t) =
    elim (Bool-cases (not (contains j.account_id allowed) || is_inactive j.status)) [
      | inl b ↦ rw b (q, t)
      | inr b ↦ rw b (elim (Option-cases (has_job_ended env.calendar j)) [
        | inl e ↦ rw (e, recover_step) (q, t)
        | inr (ended, e) ↦
            rw (e, recover_step)
              (elim (Bool-cases (not (j.end_date == 0) && ended)) [
                | inl d ↦ rw d (q, erase-HasTimes j.id r.logs t)
                | inr d ↦ rw d (
                    recover_active-Carried env h j r (recover_job env h r.logs j r.executor)
                      (recover_job-Placed env h r.logs j r.executor v t q) t)
              ])
      ])
    ]

recover_jobs-Carried :
    (env : Env) (h : History) (allowed : List ℕ) (js : List Job) (r : Recovery)
    → All (Recurs env.calendar) js
    → Carried (some r)
    → Carried (recover_jobs env h allowed js r)
unfolding recover_jobs
recover_jobs-Carried env h allowed [] r a c = c
recover_jobs-Carried env h allowed (j ∷ js) r (v, a) c =
    elim (Option-cases (recover_step env h allowed j r)) [
      | inl e ↦ absurd (rw e at (recover_step-Carried env h allowed j r v c))
      | inr (m, e) ↦
          rw (e, recover_jobs)
            (recover_jobs-Carried env h allowed js m a
              (rw e at (recover_step-Carried env h allowed j r v c)))
    ]

allow_account-queue :
    (env : Env) (j : Job) (allowed : List ℕ) (x : Executor)
    → (allow_account env j (allowed, x)).1.schedule_queue ≡ x.schedule_queue
unfolding allow_account
allow_account-queue env j allowed x = ground arith

allow_accounts-queue :
    (env : Env) (js : List Job) (allowed : List ℕ) (x : Executor)
    → (allow_accounts env js (allowed, x)).1.schedule_queue ≡ x.schedule_queue
unfolding allow_accounts
allow_accounts-queue env [] allowed x = refl
allow_accounts-queue env (j ∷ js) allowed x =
    let (more, y) = allow_account env j (allowed, x) in
    allow_accounts-queue env js more y ∙ allow_account-queue env j allowed x

log_jobs-queue :
    (env : Env) (r : Recovery) → (log_jobs env r).schedule_queue ≡ r.executor.schedule_queue
unfolding log_jobs
log_jobs-queue env r = ground arith

-- On recurring jobs with ids, with logs that have times and a queue that is a heap of keys with
-- ids, `ScheduleJobs` returns and leaves such a queue.
pub schedule_jobs-IsSound :
    (env : Env) (h : History) (js : List Job) (x : Executor)
    → All (Recurs env.calendar) js
    → HasTimes h.logs
    → IsSound x.schedule_queue
    → (y : Executor) × (schedule_jobs env h js x ≡ some y) × IsSound y.schedule_queue
unfolding schedule_jobs
schedule_jobs-IsSound env h [] x a t q = (x, refl, q)
schedule_jobs-IsSound env h (j ∷ js) x a t q =
    let (allowed, y) = allow_accounts env (j ∷ js) ([], x) in
    let r : Recovery = record { executor = y; logs = h.logs; scheduled_ids = []; jobs = [] } in
    let c =
      recover_jobs-Carried env h allowed (j ∷ js) r a
        (rw (allow_accounts-queue env (j ∷ js) [] x) q, t) in
    elim (Option-cases (recover_jobs env h allowed (j ∷ js) r)) [
      | inl e ↦ absurd (rw e at c)
      | inr (m, e) ↦
          (log_jobs env m, rw (schedule_jobs, e), rw (log_jobs-queue env m) (rw e at c).0)
    ]
