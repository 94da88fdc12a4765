-- ===== src/Processor/Recovers.antt =====
-- `RecoverJobs` returns, and leaves a queue that is a heap of keys with ids.
use scheduler.Prelude.{
  ℕ, ◌<◌, ◌≡◌, ◌&&◌, ◌||◌, not, Option, none, some, List, [], ◌∷◌, ◌++◌, ltb, ◌==◌, lookup, All,
  Bool-cases, Option-cases, inl, inr, refl,
}
use scheduler.Models.{Job, JobQueueLog}
use scheduler.JobTime.{Calendar, get_next_execution_time}
use scheduler.Executor.{Executor, Env}
use scheduler.Executor.Reschedule.Kept.{IsSound, add_job_schedule-IsSound}
use scheduler.Executor.Recovery.Runs.{Recurs, HasTimes, next_time, schedule_jobs-IsSound}
use scheduler.Processor.{
  LastLog, no_log, Recall, Progress, going, returned, panicked, is_scheduled, is_inactive_status,
  expanded_job_ids, recover_at, recover_logged, recover_found, recover_one, recover_each,
  scheduled_with, recover_log, recover_logs, recover_jobs,
}

-- A recurring job that has been created.
abbrev pub Startable : Calendar → Job → Type 0
Startable c j = Recurs c j × (0 < j.date_created)

-- The changed fields are not looked at.
dated :
    (c : Calendar) (j : Job) (d : ℕ)
    → Startable c j
    → Startable c (record j { last_execution_date = d })
dated c j d (v, p) = (
  record {
    next = v.next;
    has_id = v.has_id;
    has_spec = v.has_spec;
    parses = v.parses;
    in_zone = v.in_zone;
    rises = v.rises;
  },
  p,
)

named :
    (c : Calendar) (j : Job) (d : List ℕ)
    → Startable c j
    → Startable c (record j { execution_id = d })
named c j d (v, p) = (
  record {
    next = v.next;
    has_id = v.has_id;
    has_spec = v.has_spec;
    parses = v.parses;
    in_zone = v.in_zone;
    rises = v.rises;
  },
  p,
)

All-snoc :
    {A : Type 0} (P : A → Type 0) (xs : List A) (x : A) → All P xs → P x → All P (xs ++ x ∷ [])
All-snoc P [] x a p = (p, tt)
All-snoc P (y ∷ ys) x (q, a) p = (q, All-snoc P ys x a p)

module _ (env : Env) where
  abbrev pub Sound : Progress → Type 0
  Sound (going js x) = All (Startable env.calendar) js × IsSound x.schedule_queue
  Sound (returned x) = IsSound x.schedule_queue
  Sound panicked = ⊥

  -- What comes after is reached from a sound state.
  continued :
      (p : Progress) (f : List Job → Executor → Progress)
      → Sound p
      → ((js : List Job) (x : Executor)
          → All (Startable env.calendar) js
          → IsSound x.schedule_queue
          → Sound (f js x))
      → Sound (elim p [ going js x ↦ f js x | returned x ↦ returned x | panicked ↦ panicked ])
  continued (going js x) f (a, q) h = h js x a q
  continued (returned x) f q h = q
  continued panicked f q h = elim q [ ]

  module _ (node version : ℕ) where
    recover_at-Sound :
        (js : List Job) (x : Executor) (g : LastLog) (j : Job)
        → Startable env.calendar j
        → All (Startable env.calendar) js
        → IsSound x.schedule_queue
        → Sound (recover_at env node version js x g j)
    recover_at-Sound js x g j v a q =
        let k : Job = record j { execution_id = g.log.unique_id } in
        let w = named env.calendar j g.log.unique_id v in
        let (t, e, p) = next_time env.calendar j j.last_execution_date v.0 in
        let now_then : get_next_execution_time env.calendar j ≡ some t = e in
        let (u, f, r) = next_time env.calendar k k.last_execution_date w.0 in
        let (y, h, s, l) = add_job_schedule-IsSound env k u x f r w.0.has_id w.1 q in
        elim (Bool-cases (ltb env.calendar.now t && is_scheduled g.log.state)) [
          | inl b ↦ rw (recover_at, now_then, b, h) (a, s)
          | inr b ↦ rw (recover_at, now_then, b) (All-snoc (Startable env.calendar) js k a w, q)
        ]

    recover_logged-Sound :
        (js : List Job) (x : Executor) (j : Job) (g : LastLog)
        → Startable env.calendar j
        → All (Startable env.calendar) js
        → IsSound x.schedule_queue
        → Sound (recover_logged env node version js x j g)
    recover_logged-Sound js x j g v a q =
        elim (Bool-cases (not (g.node_id == node) && not (g.job_queue_version == version))) [
          | inl b ↦ rw b (a, q)
          | inr b ↦ rw b (
              recover_at-Sound js x g
                (record j { last_execution_date = g.log.last_execution_datetime })
                (dated env.calendar j g.log.last_execution_datetime v) a q)
        ]

    recover_found-Sound :
        (js : List Job) (x : Executor) (j : Job) (g : Option LastLog)
        → Startable env.calendar j
        → All (Startable env.calendar) js
        → IsSound x.schedule_queue
        → Sound (recover_found env node version js x j g)
    recover_found-Sound js x j none v a q =
        recover_logged-Sound (js ++ j ∷ []) x j no_log v
          (All-snoc (Startable env.calendar) js j a v) q
    recover_found-Sound js x j (some g) v a q = recover_logged-Sound js x j g v a q

    recover_one-Sound :
        (states : List (ℕ × LastLog)) (j : Job) (js : List Job) (x : Executor)
        → Startable env.calendar j
        → All (Startable env.calendar) js
        → IsSound x.schedule_queue
        → Sound (recover_one env node version states j js x)
    unfolding recover_one
    recover_one-Sound states j js x v a q =
        elim (Bool-cases (
          is_inactive_status j.status
          || (not (j.end_date == 0) && ltb j.end_date env.calendar.now))) [
            | inl b ↦ rw (v.0.in_zone, recover_one, b) (a, q)
            | inr b ↦
                rw (v.0.in_zone, recover_one, b)
                  (recover_found-Sound js x j (lookup j.id states) v a q)
          ]

    recover_each-Sound :
        (states : List (ℕ × LastLog)) (todo js : List Job) (x : Executor)
        → All (Startable env.calendar) todo
        → All (Startable env.calendar) js
        → IsSound x.schedule_queue
        → Sound (recover_each env node version states todo js x)
    unfolding recover_each
    recover_each-Sound states [] js x v a q = (a, q)
    recover_each-Sound states (j ∷ todo) js x (w, v) a q =
        continued (recover_one env node version states j js x)
          (λ more y. recover_each env node version states todo more y)
          (recover_one-Sound states j js x w a q)
          (λ more y b r. recover_each-Sound states todo more y v b r)

  abbrev Ends : Option Executor → Type 0
  Ends o = (y : Executor) × (o ≡ some y) × IsSound y.schedule_queue

  finished :
      (p : Progress) (f : Executor → Option Executor)
      → Sound p
      → ((x : Executor) → IsSound x.schedule_queue → Ends (f x))
      → Ends (elim p [ going js x ↦ f x | returned x ↦ some x | panicked ↦ none ])
  finished (going js x) f (a, q) h = h x q
  finished (returned x) f q h = (x, refl, q)
  finished panicked f q h = elim q [ ]

  -- What is asked of the answers: the jobs can start, and the logs have times.
  pub record Answered (r : Recall) : Type 0 where
    pub starts :
        (ids : List ℕ) (js : List Job) → r.jobs ids ≡ some js → All (Startable env.calendar) js
    pub has_times : (js : List Job) → HasTimes (r.history js).logs

  module _ (r : Recall) (ok : Answered r) where
    scheduled_with-Sound : (p : Progress) → Sound p → Sound (scheduled_with env r p)
    scheduled_with-Sound (going js x) (a, q) =
        let (y, e, s) =
          schedule_jobs-IsSound env (r.history js) js x (recurring js a) (ok.has_times js) q in
        rw e (tt, s)
      where
        recurring : (js : List Job) → All (Startable env.calendar) js → All (Recurs env.calendar) js
        recurring [] a = tt
        recurring (j ∷ js) (v, a) = (v.0, recurring js a)
    scheduled_with-Sound (returned x) q = q
    scheduled_with-Sound panicked q = elim q [ ]

    recover_log-Sound :
        (l : JobQueueLog) (x : Executor) → IsSound x.schedule_queue → Sound (recover_log env r l x)
    unfolding recover_log
    recover_log-Sound l x q = elim (Option-cases (r.jobs (expanded_job_ids l))) [
      | inl e ↦ rw (e, recover_log) q
      | inr (js, e) ↦
          rw (e, recover_log)
            (scheduled_with-Sound _ (
              recover_each-Sound r.node_id l.version (r.last_logs (expanded_job_ids l)) js [] x
                (ok.starts (expanded_job_ids l) js e) tt q))
    ]

    recover_logs-IsSound :
        (ls : List JobQueueLog) (x : Executor)
        → IsSound x.schedule_queue
        → (y : Executor) × (recover_logs env r ls x ≡ some y) × IsSound y.schedule_queue
    unfolding recover_logs
    recover_logs-IsSound [] x q = (x, refl, q)
    recover_logs-IsSound (l ∷ ls) x q =
        finished (recover_log env r l x) (recover_logs env r ls) (recover_log-Sound l x q)
          (recover_logs-IsSound ls)

    -- Where the jobs that the repository answers recur and have been created, and the last logs
    -- have times, `RecoverJobs` returns without a panic, and the queue is a heap of keys with ids
    -- still, whatever logs, errors of the repository and times it meets.
    pub recover_jobs-IsSound :
        (x : Executor)
        → IsSound x.schedule_queue
        → (y : Executor) × (recover_jobs env r x ≡ some y) × IsSound y.schedule_queue
    unfolding recover_jobs
    recover_jobs-IsSound x q = recover_logs-IsSound r.queue_logs x q
