-- ===== src/Executor/Invocation/Calls.antt =====
-- The jobs of all executors, counted in the calls of the handlers.
use scheduler.Prelude.{
  ℕ, ◌+◌, ◌≡◌, Bool, ◌&&◌, some, List, [], ◌∷◌, lookup, count, count-append, arith, refl,
  Option-cases, inl, inr, Bool-cases,
}
use scheduler.Prelude.Result.{ok}
use scheduler.Models.{Job}
use scheduler.Executor.Reschedule.{is_inactive}
use scheduler.Executor.Invocation.{
  JobExecutor, Invocation, Cache, append_to, invoke_executor_jobs, executor_jobs, executor_map,
  invoke_all, invoke_grouped, invoke_jobs,
}
use scheduler.Executor.Invocation.Counts.{
  calls_with, calls_with-append, can_invoke, is_runnable, weight, one_if,
  invoke_executor_jobs-count,
}

abbrev weigh : (Job → Bool) → List (ℕ × JobExecutor) → List (ℕ × List Job) → ℕ
weigh p targets [] = 0
weigh p targets ((id, js) ∷ m) = weight p (lookup id targets) js + weigh p targets m

invoke_all-count :
    (p : Job → Bool) (cache : Cache) (targets : List (ℕ × JobExecutor)) (m : List (ℕ × List Job))
    → calls_with p (invoke_all cache targets m) ≡ weigh p targets m
unfolding invoke_all
invoke_all-count p cache targets [] = refl
invoke_all-count p cache targets ((id, js) ∷ m) = elim (Option-cases (lookup id targets)) [
  | inl n ↦ rw (n, invoke_all) (omega (arith, invoke_all-count p cache targets m))
  | inr (e, n) ↦
      rw (n, invoke_all)
        (omega (
          arith,
          calls_with-append p (invoke_executor_jobs cache e js) (invoke_all cache targets m),
          invoke_executor_jobs-count p cache e js,
          invoke_all-count p cache targets m,
        ))
]

weigh-append_to :
    (p : Job → Bool) (targets : List (ℕ × JobExecutor)) (k : ℕ) (j : Job) (m : List (ℕ × List Job))
    → weigh p targets (append_to k j m)
      ≡ weigh p targets m + one_if (can_invoke (lookup k targets) && p j)
weigh-append_to p targets k j [] = ground arith
weigh-append_to p targets k j ((i, js) ∷ m) =
    ground (arith, weigh-append_to p targets k j m, count-append p js (j ∷ []))

executor_jobs-count :
    (p : Job → Bool) (targets : List (ℕ × JobExecutor)) (js : List Job) (m : List (ℕ × List Job))
    → weigh p targets (executor_jobs js m)
      ≡ weigh p targets m + count (λ j. is_runnable targets j && p j) js
unfolding executor_jobs
executor_jobs-count p targets [] m = omega arith
executor_jobs-count p targets (j ∷ js) m = elim (Bool-cases (is_inactive j.status)) [
  | inl b ↦ rw b (omega (arith, executor_jobs-count p targets js m))
  | inr b ↦ elim (Option-cases j.executor_id) [
    | inl n ↦ ground (arith, executor_jobs-count p targets js m)
    | inr (e, n) ↦
        ground (
          arith,
          executor_jobs-count p targets js (append_to e j m),
          weigh-append_to p targets e j m,
        )
  ]
]

invoke_grouped-count :
    (p : Job → Bool) (cache : Cache) (m : List (ℕ × List Job)) (e : JobExecutor)
    (es : List JobExecutor)
    → (is : List Invocation) × (invoke_grouped cache m (ok (e ∷ es)) ≡ some is)
      × (calls_with p is ≡ weigh p (executor_map (e ∷ es) []) m)
invoke_grouped-count p cache [] e es = ([], refl, refl)
invoke_grouped-count p cache (g ∷ gs) e es = (
  invoke_all cache (executor_map (e ∷ es) []) (g ∷ gs),
  refl,
  invoke_all-count p cache (executor_map (e ∷ es) []) (g ∷ gs),
)

-- Where some jobs are due, and the repositories answer with jobs and with at least one executor, each
-- of these jobs is handed to a handler once if it is active and its executor is among the answer and
-- has a known handler, and is not handed on otherwise: alone or with others, and whether or not the
-- executor wants its jobs together. A test `p` counts the jobs.
pub invoke_jobs-count :
    (p : Job → Bool) (cache : Cache) (j : Job) (due jobs : List Job) (e : JobExecutor)
    (es : List JobExecutor)
    → (is : List Invocation) × (invoke_jobs cache (j ∷ due) (ok jobs) (ok (e ∷ es)) ≡ some is)
      × (calls_with p is ≡ count (λ k. is_runnable (executor_map (e ∷ es) []) k && p k) jobs)
unfolding invoke_jobs
invoke_jobs-count p cache j due jobs e es =
    let (is, q, c) = invoke_grouped-count p cache (executor_jobs jobs []) e es in
    (is, q, omega (arith, c, executor_jobs-count p (executor_map (e ∷ es) []) jobs []))
