-- ===== src/Executor/Reschedule/Take.antt =====
-- What rescheduling takes from the local quotas of a cluster's worker.
use scheduler.Executor.Reschedule.Total.{reschedule_loop-IsSome}
use scheduler.Prelude.{
  ℕ, ◌+◌, ◌-◌, ◌≡◌, ◌≢◌, refl, ◌∙◌, ap, false, Option, none, some, List, [], ◌∷◌, arith, ◌==◌,
  if◌then◌else◌, lookup, lookup-insert, Option-cases, inl, inr, All, ◌<◌,
}
use scheduler.Models.{Job, MemJobExecution, ExecutionLogState, JobStatus}
use scheduler.Executor.{Env, Executor, emit, sent_to_leader, job_updated}
use scheduler.Executor.Reschedule.{
  Loop, take_quota, take_execution, drop_job, retry, notify_failure, advance_version,
  reschedule_cached, check_job, reschedule_job, reschedule_loop, finish, inactivate_jobs,
  reschedule,
}

-- The result, if there is one, holds the quotas `q`.
abbrev KeepsQuota : List (ℕ × ℕ) → Option Loop → Type 0
KeepsQuota q none = Unit {0}
KeepsQuota q (some l) = l.executor.local_quota ≡ q

retry-KeepsQuota :
    (j : Job) (m : MemJobExecution) (state : ExecutionLogState) (l : Loop)
    → KeepsQuota l.executor.local_quota (retry j m state l)
unfolding retry
retry-KeepsQuota j m state l = ground arith

advance_version-KeepsQuota :
    (env : Env) (j : Job) (m : MemJobExecution) (state : ExecutionLogState) (l : Loop)
    → KeepsQuota l.executor.local_quota (advance_version env j m state l)
unfolding advance_version
advance_version-KeepsQuota env j m state l = ground arith

reschedule_cached-KeepsQuota :
    (env : Env) (j : Job) (state : ExecutionLogState) (l : Loop)
    → KeepsQuota l.executor.local_quota (reschedule_cached env j state l)
unfolding reschedule_cached notify_failure
reschedule_cached-KeepsQuota env j state l = elim (Option-cases (lookup j.id l.executor.cache)) [
  | inl e ↦ rw (e, reschedule_cached) refl
  | inr (s, e) ↦ ground (
    arith,
    retry-KeepsQuota j s.mem_execution state l,
    advance_version-KeepsQuota env j s.mem_execution state l,
    advance_version-KeepsQuota env j s.mem_execution state
        (record l { executor = notify_failure env j s.mem_execution l.executor }),
  )
]

check_job-KeepsQuota :
    (env : Env) (j : Job) (state : ExecutionLogState) (l : Loop)
    → KeepsQuota l.executor.local_quota (check_job env j state l)
unfolding check_job
check_job-KeepsQuota env j state l = ground (arith, reschedule_cached-KeepsQuota env j state l)

-- What a worker has left of an account's quota after `k` executions: none below zero.
abbrev pub lowered : ℕ → Option ℕ → Option ℕ
lowered k none = none
lowered k (some q) = some (q - k)

abbrev taken : ℕ → Job → ℕ
taken a j = if j.account_id == a then 1 else 0

take_quota-lowers :
    (env : Env) (a : ℕ) (j : Job) (l : Loop)
    → a ≢ 1
    → lookup a (take_quota env j.account_id l).1.executor.local_quota
      ≡ lowered (taken a j) (lookup a l.executor.local_quota)
unfolding take_quota
take_quota-lowers env a j l ne = elim (Option-cases (lookup j.account_id l.executor.local_quota)) [
  | inl e ↦ ground arith
  | inr (q, e) ↦ ground (arith, lookup-insert j.account_id a (q - 1) l.executor.local_quota)
]

reschedule_job-lowers :
    (env : Env) (state : ExecutionLogState) (a : ℕ) (j : Job) (l : Loop)
    → a ≢ 1
    → env.single_node_mode ≡ false
    → (m : Loop) → reschedule_job env state j l ≡ some m
    → lookup a m.executor.local_quota ≡ lowered (taken a j) (lookup a l.executor.local_quota)
unfolding reschedule_job take_execution drop_job
reschedule_job-lowers env state a j l ne mode m e =
    let t = (take_quota env j.account_id l).1 in
    ground (arith, take_quota-lowers env a j l ne, check_job-KeepsQuota env j state t)

-- The jobs of an account in the batch.
abbrev pub count_account : ℕ → List Job → ℕ
count_account a [] = 0
count_account a (j ∷ js) = (if j.account_id == a then 1 else 0) + count_account a js

lowered-lowered : (i k : ℕ) (q : Option ℕ) → lowered k (lowered i q) ≡ lowered (i + k) q
lowered-lowered i k none = refl
lowered-lowered i k (some q) = ap some (omega arith)

lowered_zero : (q : Option ℕ) → q ≡ lowered 0 q
lowered_zero none = refl
lowered_zero (some q) = ap some (omega arith)

reschedule_loop-quota :
    (env : Env) (state : ExecutionLogState) (a : ℕ) (js : List Job) (l m : Loop)
    → a ≢ 1
    → env.single_node_mode ≡ false
    → reschedule_loop env state js l ≡ some m
    → lookup a m.executor.local_quota
      ≡ lowered (count_account a js) (lookup a l.executor.local_quota)
unfolding reschedule_loop
reschedule_loop-quota env state a [] l m ne mode e =
    ground (arith, lowered_zero (lookup a l.executor.local_quota))
reschedule_loop-quota env state a (j ∷ js) l m ne mode e =
    elim (Option-cases (reschedule_job env state j l)) [
      | inl p ↦ ground arith
      | inr (t, p) ↦
          reschedule_loop-quota env state a js t m ne mode (ground arith)
          ∙ ap (lowered (count_account a js)) (reschedule_job-lowers env state a j l ne mode t p)
          ∙ lowered-lowered (taken a j) (count_account a js) (lookup a l.executor.local_quota)
    ]

inactivate_jobs-quota :
    (env : Env) (js : List Job) (x : Executor)
    → (inactivate_jobs env js x).local_quota ≡ x.local_quota
unfolding inactivate_jobs
inactivate_jobs-quota env [] x = refl
inactivate_jobs-quota env (j ∷ js) x =
    let k = record j { status = JobStatus.inactive } in
    ground (
      arith,
      inactivate_jobs-quota env js x,
      inactivate_jobs-quota env js (emit (sent_to_leader k) x),
      inactivate_jobs-quota env js (emit (job_updated k) x),
    )

finish-quota : (env : Env) (l : Loop) → (finish env l).local_quota ≡ l.executor.local_quota
unfolding finish
finish-quota env l = ground (arith, inactivate_jobs-quota env l.to_inactivate l.executor)

abbrev pub loop_of : Executor → List (ℕ × ℕ) → Loop
loop_of x counts = record {
  executor = x;
  counts = counts;
  exhausted = [];
  to_inactivate = [];
  to_reschedule = [];
}

pub reschedule-some :
    (env : Env) (state : ExecutionLogState) (counts : List (ℕ × ℕ)) (js : List Job) (x : Executor)
    (l : Loop)
    → reschedule_loop env state js (loop_of x counts) ≡ some l
    → reschedule env state (some counts) js x ≡ some (finish env l)
unfolding reschedule
reschedule-some env state counts js x l e = rw (e, reschedule) refl

-- In a cluster, with the counts read, `reschedule` returns on a batch of jobs with ids, and the
-- local quota of every account but 1 is then lower by one for each job of the account in the
-- batch, down to zero; an account with no quota has none still.
pub reschedule-quota :
    (env : Env) (state : ExecutionLogState) (counts : List (ℕ × ℕ)) (a : ℕ) (js : List Job)
    (x : Executor)
    → a ≢ 1
    → env.single_node_mode ≡ false
    → All (λ j. 0 < j.id) js
    → (y : Executor) × (reschedule env state (some counts) js x ≡ some y)
      × (lookup a y.local_quota ≡ lowered (count_account a js) (lookup a x.local_quota))
reschedule-quota env state counts a js x ne mode ids =
    elim (Option-cases (reschedule_loop env state js (loop_of x counts))) [
      | inl e ↦ ground (arith, reschedule_loop-IsSome env state js (loop_of x counts) ids)
      | inr (l, e) ↦ (
        finish env l,
        reschedule-some env state counts js x l e,
        ap (lookup a) (finish-quota env l)
            ∙ reschedule_loop-quota env state a js (loop_of x counts) l ne mode e,
      )
    ]
