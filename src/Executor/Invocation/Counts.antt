-- ===== src/Executor/Invocation/Counts.antt =====
-- Every job that can run is handed to a handler once.
use scheduler.Prelude.{
  ℕ, ◌+◌, ◌≡◌, Bool, true, false, ◌&&◌, not, Option, none, some, List, [], ◌∷◌, ◌++◌, map,
  if◌then◌else◌, lookup, count, count-append, arith, refl, Option-cases, inl, inr,
}
use scheduler.Models.{Job}
use scheduler.Executor.Reschedule.{is_inactive}
use scheduler.Executor.Invocation.{
  JobExecutor, Payload, Invocation, single, aggregated, Cache, build_invocation_payload, handler_of,
  invoke_single_job, invoke_aggregated_jobs, append_to, second_of, group_job, group_jobs, members,
  group_jobs_by_fire_time, invoke_group, invoke_groups, invoke_each, invoke_executor_jobs,
}

abbrev pub payloads_with : (Job → Bool) → List Payload → ℕ
payloads_with p = count (λ (x : Payload). p x.job)

-- How many payloads of the calls are for jobs that pass a test.
abbrev pub calls_with : (Job → Bool) → List Invocation → ℕ
calls_with p [] = 0
calls_with p (single h e x ∷ is) = payloads_with p (x ∷ []) + calls_with p is
calls_with p (aggregated h e xs ∷ is) = payloads_with p xs + calls_with p is

-- A handler for the executor's type is known.
abbrev pub can_invoke : Option JobExecutor → Bool
can_invoke none = false
can_invoke (some e) = elim (handler_of e.kind e.cloud_provider) [ none ↦ false | some h ↦ true ]

abbrev pub target_of : List (ℕ × JobExecutor) → Option ℕ → Option JobExecutor
target_of targets none = none
target_of targets (some e) = lookup e targets

-- An active job with an executor that can be invoked.
abbrev pub is_runnable : List (ℕ × JobExecutor) → Job → Bool
is_runnable targets j = not (is_inactive j.status) && can_invoke (target_of targets j.executor_id)

pub calls_with-append :
    (p : Job → Bool) (xs ys : List Invocation)
    → calls_with p (xs ++ ys) ≡ calls_with p xs + calls_with p ys
calls_with-append p [] ys = omega arith
calls_with-append p (single h e x ∷ xs) ys = omega (arith, calls_with-append p xs ys)
calls_with-append p (aggregated h e x ∷ xs) ys = omega (arith, calls_with-append p xs ys)

pub payload-job : (cache : Cache) (j : Job) → (build_invocation_payload cache j).job ≡ j
unfolding build_invocation_payload
payload-job cache j = elim (Option-cases (lookup j.id cache)) [
  | inl e ↦ rw (build_invocation_payload, e)
  | inr (s, e) ↦ rw (build_invocation_payload, e)
]

payloads_with-map :
    (p : Job → Bool) (cache : Cache) (js : List Job)
    → payloads_with p (map (build_invocation_payload cache) js) ≡ count p js
payloads_with-map p cache [] = refl
payloads_with-map p cache (j ∷ js) =
    rw (payload-job cache j) (omega (arith, payloads_with-map p cache js))

-- The jobs of several groups.
abbrev pub group_count : (Job → Bool) → List (List Job) → ℕ
group_count p [] = 0
group_count p (g ∷ gs) = count p g + group_count p gs

group_count-append :
    (p : Job → Bool) (xs ys : List (List Job))
    → group_count p (xs ++ ys) ≡ group_count p xs + group_count p ys
group_count-append p [] ys = omega arith
group_count-append p (x ∷ xs) ys = omega (arith, group_count-append p xs ys)

abbrev pub one_if : Bool → ℕ
one_if b = if b then 1 else 0

group_count-append_to :
    (p : Job → Bool) (k : ℕ) (j : Job) (m : List (ℕ × List Job))
    → group_count p (members (append_to k j m)) ≡ group_count p (members m) + one_if (p j)
group_count-append_to p k j [] = omega arith
group_count-append_to p k j ((i, js) ∷ m) =
    ground (arith, group_count-append_to p k j m, count-append p js (j ∷ []))

abbrev both_count : (Job → Bool) → List (ℕ × List Job) × List (List Job) → ℕ
both_count p (groups, uncached) = group_count p (members groups) + group_count p uncached

group_job-count :
    (p : Job → Bool) (cache : Cache) (j : Job) (g : List (ℕ × List Job)) (u : List (List Job))
    → both_count p (group_job cache j (g, u)) ≡ both_count p (g, u) + one_if (p j)
group_job-count p cache j g u = elim (Option-cases (lookup j.id cache)) [
  | inl e ↦ rw (e, group_job) (omega (arith, group_count-append p u ((j ∷ []) ∷ [])))
  | inr (s, e) ↦ rw (e, group_job) (omega (arith, group_count-append_to p (second_of s) j g))
]

group_jobs-count :
    (p : Job → Bool) (cache : Cache) (js : List Job) (g : List (ℕ × List Job)) (u : List (List Job))
    → both_count p (group_jobs cache js (g, u)) ≡ both_count p (g, u) + count p js
unfolding group_jobs
group_jobs-count p cache [] g u = omega arith
group_jobs-count p cache (j ∷ js) g u =
    let (g', u') = group_job cache j (g, u) in
    omega (arith, group_jobs-count p cache js g' u', group_job-count p cache j g u)

group_jobs_by_fire_time-count :
    (p : Job → Bool) (cache : Cache) (js : List Job)
    → group_count p (group_jobs_by_fire_time cache js) ≡ count p js
unfolding group_jobs_by_fire_time
group_jobs_by_fire_time-count p cache js =
    let (g, u) = group_jobs cache js ([], []) in
    omega (arith, group_count-append p (members g) u, group_jobs-count p cache js [] [])

-- The jobs of one executor, if a handler is known.
abbrev pub weight : (Job → Bool) → Option JobExecutor → List Job → ℕ
weight p e js = if can_invoke e then count p js else 0

module _ (p : Job → Bool) (cache : Cache) (e : JobExecutor) where
  invoke_single_job-count :
      (j : Job) → calls_with p (invoke_single_job cache e j) ≡ weight p (some e) (j ∷ [])
  unfolding invoke_single_job
  invoke_single_job-count j = elim (Option-cases (handler_of e.kind e.cloud_provider)) [
    | inl n ↦ ground arith
    | inr (h, n) ↦ ground (arith, payload-job cache j)
  ]

  invoke_aggregated_jobs-count :
      (js : List Job) → calls_with p (invoke_aggregated_jobs cache e js) ≡ weight p (some e) js
  unfolding invoke_aggregated_jobs
  invoke_aggregated_jobs-count js = elim (Option-cases (handler_of e.kind e.cloud_provider)) [
    | inl n ↦ ground arith
    | inr (h, n) ↦ ground (arith, payloads_with-map p cache js)
  ]

  invoke_group-count :
      (js : List Job) → calls_with p (invoke_group cache e js) ≡ weight p (some e) js
  invoke_group-count [] = invoke_aggregated_jobs-count []
  invoke_group-count (j ∷ []) = invoke_single_job-count j
  invoke_group-count (j ∷ k ∷ js) = invoke_aggregated_jobs-count (j ∷ k ∷ js)

  invoke_groups-count :
      (gs : List (List Job))
      → calls_with p (invoke_groups cache e gs)
        ≡ (if can_invoke (some e) then group_count p gs else 0)
  unfolding invoke_groups
  invoke_groups-count [] = ground arith
  invoke_groups-count (g ∷ gs) = ground (
    arith,
    calls_with-append p (invoke_group cache e g) (invoke_groups cache e gs),
    invoke_group-count g,
    invoke_groups-count gs,
  )

  invoke_each-count : (js : List Job) → calls_with p (invoke_each cache e js) ≡ weight p (some e) js
  unfolding invoke_each
  invoke_each-count [] = ground arith
  invoke_each-count (j ∷ js) = ground (
    arith,
    calls_with-append p (invoke_single_job cache e j) (invoke_each cache e js),
    invoke_single_job-count j,
    invoke_each-count js,
  )

  pub invoke_executor_jobs-count :
      (js : List Job) → calls_with p (invoke_executor_jobs cache e js) ≡ weight p (some e) js
  unfolding invoke_executor_jobs
  invoke_executor_jobs-count js = ground (
    arith,
    invoke_each-count js,
    invoke_groups-count (group_jobs_by_fire_time cache js),
    group_jobs_by_fire_time-count p cache js,
  )
