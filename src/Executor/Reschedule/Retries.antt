-- ===== src/Executor/Reschedule/Retries.antt =====
-- A job that fails again and again: how often it is retried, and when somebody is told.
use scheduler.JobTime.{get_next_execution_time, is_empty, is_start_date_in_past, has_job_ended}
use scheduler.Prelude.{
  ℕ, zero, suc, ◌+◌, ◌<◌, ◌≤◌, ◌≡◌, ◌≢◌, refl, ◌∙◌, Bool, ◌&&◌, Option, none, some, List, [], arith,
  lookup, lookup-insert, insert, Option-cases, inl, inr, true, false, if◌then◌else◌, ◌==◌, ◌%◌, ◌∷◌,
  ap,
}
use scheduler.Prelude.Int.{to_uint64}
use scheduler.Models.{Job, JobSchedule, failed}
use scheduler.Executor.{
  Executor, Env, Event, failure_notified, log_inserted, emit, get_local_quota_remaining,
  decrement_local_quota,
}
use scheduler.Executor.Reschedule.{
  Loop, reschedule_cached, schedule_of, is_inactive, check_job, take_quota, take_execution,
  reschedule_job, reschedule_loop, finish, inactivate_jobs, last_execution_versions, reschedule,
}
use scheduler.Executor.Reschedule.Take.{loop_of, reschedule-some}
use scheduler.Executor.Reschedule.Outcomes.{
  retried, advanced, reschedule_cached-retry, reschedule_cached-exhausted, next_job,
}

-- `reschedule` is called on a job that has failed, `k` times in a row.
unfoldable pub fail_times : Env → List (ℕ × ℕ) → Job → ℕ → Executor → Option Executor
fail_times env counts j zero x = some x
fail_times env counts j (suc k) x = elim (reschedule env failed (some counts) (j ∷ []) x) [
  | none ↦ none
  | some y ↦ fail_times env counts j k y
]

-- The notifications of failures.
abbrev pub notices : List Event → List Event
notices [] = []
notices (failure_notified j n v ∷ es) = failure_notified j n v ∷ notices es
notices (_ ∷ es) = notices es

-- The job is active, has not ended, and is not a job without a spec whose start lies in the past.
abbrev pub MayRun : Env → Job → Type 0
MayRun env j =
    (is_inactive j.status ≡ false)
    × (past : Bool) × (is_start_date_in_past env.calendar j ≡ some past)
    × ((past && is_empty j.spec) ≡ false)
    × (has_job_ended env.calendar j ≡ some false)

-- The cached run of the job, its version, failures and due time, and what is left of the quota of
-- its account.
abbrev pub Run : Job → ℕ → ℕ → ℕ → ℕ → Executor → Type 0
Run j version fails due quota x =
    (s : JobSchedule) × (lookup j.id x.cache ≡ some s)
    × (s.mem_execution.execution_version ≡ version)
    × (s.mem_execution.fail_count ≡ fails)
    × (s.mem_execution.next_execution_datetime ≡ due)
    × (lookup j.account_id x.local_quota ≡ some quota)

module _ (env : Env) (counts : List (ℕ × ℕ)) (j : Job) (cluster : env.single_node_mode ≡ false)
    (runs : MayRun env j) (other : j.account_id ≢ 1) where
  -- The loop after an execution was taken.
  abbrev taken : ℕ → Executor → Loop
  taken quota x =
      loop_of (record x { local_quota = insert j.account_id quota x.local_quota }) counts

  take_one :
      (quota : ℕ) (x : Executor)
      → lookup j.account_id x.local_quota ≡ some (suc quota)
      → take_execution env j.account_id (loop_of x counts) ≡ (true, taken quota x)
  unfolding take_execution take_quota get_local_quota_remaining decrement_local_quota
  take_one quota x e = ground (arith, e, cluster)

  check_passed : (l : Loop) → check_job env j failed l ≡ reschedule_cached env j failed l
  unfolding check_job
  check_passed l = let (a, past, s, b, ended) = runs in rw (a, s, b, ended, check_job)

  round :
      (quota : ℕ) (x : Executor) (m : Loop)
      → lookup j.account_id x.local_quota ≡ some (suc quota)
      → reschedule_cached env j failed (taken quota x) ≡ some m
      → reschedule env failed (some counts) (j ∷ []) x ≡ some (finish env m)
  unfolding reschedule_loop reschedule_job
  round quota x m e c =
      reschedule-some env failed counts (j ∷ []) x m
        (rw (reschedule_loop, take_one quota x e, check_passed (taken quota x), c))

  finish_quiet :
      (l : Loop)
      → l.to_inactivate ≡ []
      → finish env l
        ≡ emit
            (log_inserted (last_execution_versions l.executor.cache [] l.to_reschedule))
            l.executor
  unfolding finish inactivate_jobs
  finish_quiet l e = rw (cluster, e) refl

  module _ (version due : ℕ) (i : 0 < j.id) (t : 0 < due) where
    fail_once :
        (fails quota : ℕ) (x : Executor)
        → fails < to_uint64 j.retry_max
        → Run j version fails due (suc quota) x
        → (y : Executor) × (reschedule env failed (some counts) (j ∷ []) x ≡ some y)
          × (notices y.events ≡ notices x.events)
          × Run j version (suc fails) due quota y
    unfolding finish
    fail_once fails quota x f (s, e, v, c, d, q) =
        let m = retried j s.mem_execution failed (taken quota x) in
        let run =
          schedule_of j s.mem_execution.execution_version (s.mem_execution.fail_count + 1) failed
            s.mem_execution.last_execution_datetime s.mem_execution.next_execution_datetime in
        (
          emit (log_inserted (last_execution_versions m.executor.cache [] m.to_reschedule))
              m.executor,
          round quota x m q (
                reschedule_cached-retry env j (taken quota x) s e (omega (arith, c)) i
                  (omega (arith, d)))
              ∙ ap some (finish_quiet m refl),
          refl,
          (
            run,
            ground (arith, lookup-insert j.id j.id run x.cache),
            v,
            omega (arith, c),
            d,
            ground (arith, lookup-insert j.account_id j.account_id quota x.local_quota),
          ),
        )

    -- From a run with `fails` failures, each of the next failures up to the job's `RetryMax` is
    -- counted and retried: the version and the due time stay, and nobody is notified.
    fail_times-retries :
        (k fails quota : ℕ) (x : Executor)
        → fails + k ≤ to_uint64 j.retry_max
        → Run j version fails due (k + quota) x
        → (y : Executor) × (fail_times env counts j k x ≡ some y)
          × (notices y.events ≡ notices x.events)
          × Run j version (fails + k) due quota y
    unfolding fail_times
    fail_times-retries zero fails quota x f (s, e, v, c, d, q) =
        (x, refl, refl, (s, e, v, omega (arith, c), d, q ∙ ap some (omega arith)))
    fail_times-retries (suc k) fails quota x f (s, e, v, c, d, q) =
        let (y, a, same, next) =
          fail_once fails (k + quota) x (omega arith) (s, e, v, c, d, q ∙ ap some (omega arith)) in
        let (z, b, kept, (r, g, w, h, u, l)) =
          fail_times-retries k (suc fails) quota y (omega arith) next in
        (z, rw (a, fail_times) b, kept ∙ same, (r, g, w, omega (arith, h), u, l))

    exhaust_once :
        (fails time quota : ℕ) (x : Executor)
        → fails ≡ to_uint64 j.retry_max
        → Run j version fails due (suc quota) x
        → get_next_execution_time env.calendar (record j { last_execution_date = due }) ≡ some time
        → 0 < time
        → env.has_failure_sink ≡ true
        → 0 < j.account_id
        → let r = to_uint64 j.retry_max in
          (y : Executor) × (reschedule env failed (some counts) (j ∷ []) x ≡ some y)
          × (notices y.events
              ≡ failure_notified j (if r == 0 then 1 else r) version ∷ notices x.events)
          × Run j ((version + 1) % 18446744073709551616) 0 time quota y
    exhaust_once fails time quota x f (s, look, v, c, u, q) next p sink a =
        let m = s.mem_execution in
        let times = if m.fail_count == 0 then 1 else m.fail_count in
        let told = record (taken quota x) {
          executor = record ((taken quota x).executor) {
            events = failure_notified j times m.execution_version ∷ x.events;
          };
        } in
        let l = advanced env j m failed time told in
        let run =
          schedule_of (next_job env j m) ((m.execution_version + 1) % 18446744073709551616) 0 failed
            m.next_execution_datetime time in
        (
          emit (log_inserted (last_execution_versions l.executor.cache [] l.to_reschedule))
              l.executor,
          round quota x l q (
                reschedule_cached-exhausted env j (taken quota x) s time look (omega (arith, c, f))
                  (rw u next) i p sink a)
              ∙ ap some (finish_quiet l refl),
          rw (c, v, f) refl,
          (
            run,
            ground (arith, lookup-insert j.id j.id run x.cache),
            ap (λ n. (n + 1) % 18446744073709551616) v,
            refl,
            refl,
            ground (arith, lookup-insert j.account_id j.account_id quota x.local_quota),
          ),
        )

fail_times_last :
    (env : Env) (counts : List (ℕ × ℕ)) (j : Job) (k : ℕ) (x y z : Executor)
    → fail_times env counts j k x ≡ some y
    → reschedule env failed (some counts) (j ∷ []) y ≡ some z
    → fail_times env counts j (suc k) x ≡ some z
unfolding fail_times
fail_times_last env counts j zero x y z e f = ground arith
fail_times_last env counts j (suc k) x y z e f =
    elim (Option-cases (reschedule env failed (some counts) (j ∷ []) x)) [
      | inl g ↦ ground arith
      | inr (o, g) ↦ rw (g, fail_times) (fail_times_last env counts j k o y z (ground arith) f)
    ]

-- In a cluster, a job may run, and belongs to an account above 0 and other than 1, whose local quota
-- is at least `RetryMax + 1`; its cached run has not failed yet and is due at a time that is not
-- zero, after which there is a next time; and failures are notified. Then `reschedule` after
-- `RetryMax + 1` failures of this run has sent one notification of a failure, at the last one and
-- with this version; the job is cached at its next version, with no failures and due at the next
-- time, and each failure has taken one from the quota.
pub fail_times-notifies :
    (env : Env) (counts : List (ℕ × ℕ)) (j : Job) (version due time quota : ℕ) (x : Executor)
    → env.single_node_mode ≡ false
    → MayRun env j
    → j.account_id ≢ 1
    → 0 < j.id
    → 0 < due
    → Run j version 0 due (to_uint64 j.retry_max + suc quota) x
    → get_next_execution_time env.calendar (record j { last_execution_date = due }) ≡ some time
    → 0 < time
    → env.has_failure_sink ≡ true
    → 0 < j.account_id
    → let r = to_uint64 j.retry_max in
      (y : Executor) × (fail_times env counts j (suc r) x ≡ some y)
      × (notices y.events ≡ failure_notified j (if r == 0 then 1 else r) version ∷ notices x.events)
      × Run j ((version + 1) % 18446744073709551616) 0 time quota y
fail_times-notifies env counts j version due time quota x cluster runs o i d run next p sink a =
    let r = to_uint64 j.retry_max in
    let (m, e, same, failing) =
      fail_times-retries env counts j cluster runs o version due i d r 0 (suc quota) x (omega arith)
        run in
    let (n, last, told, fresh) =
      exhaust_once env counts j cluster runs o version due i d (0 + r) time quota m (omega arith)
        failing next p sink a in
    (
      n,
      fail_times_last env counts j r x m n e last,
      told ∙ ap (λ es. failure_notified j (if r == 0 then 1 else r) version ∷ es) same,
      fresh,
    )
