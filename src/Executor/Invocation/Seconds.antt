-- ===== src/Executor/Invocation/Seconds.antt =====
-- Jobs that are handed on together are due in one second.
use scheduler.Executor.Invocation.Counts.{payload-job}
use scheduler.Prelude.{
  ℕ, ◌≤◌, ◌<◌, ◌+◌, ◌*◌, ◌≡◌, ◌&&◌, Option, none, some, List, [], ◌∷◌, ◌++◌, map, ltb, ◌==◌, length,
  lookup, All, arith, Option-cases, inl, inr, Bool-cases, ==→eq,
}
use scheduler.Models.{Job, JobSchedule}
use scheduler.Executor.Invocation.{
  JobExecutor, Payload, Invocation, single, aggregated, Cache, build_invocation_payload, handler_of,
  invoke_single_job, invoke_aggregated_jobs, append_to, second_of, group_job, group_jobs, members,
  group_jobs_by_fire_time, invoke_group, invoke_groups, invoke_each, invoke_executor_jobs,
}

-- The second in which a cached job is due.
abbrev pub due_second : Cache → Job → Option ℕ
due_second cache j = elim (lookup j.id cache) [ none ↦ none | some s ↦ some (second_of s) ]

abbrev pub DueAt : Cache → ℕ → List Job → Type 0
DueAt cache k js = All (λ (j : Job). due_second cache j ≡ some k) js

-- One job, or several that are due in one second.
abbrev pub IsGroup : Cache → List Job → Type 0
IsGroup cache [] = ⊥
IsGroup cache (j ∷ []) = Unit {0}
IsGroup cache (j ∷ i ∷ js) = (k : ℕ) × DueAt cache k (j ∷ i ∷ js)

Keyed : Cache → List (ℕ × List Job) → Type 0
Keyed cache m = All (λ (g : ℕ × List Job). (1 ≤ length g.1) × DueAt cache g.0 g.1) m

DueAt-snoc :
    (cache : Cache) (k : ℕ) (js : List Job) (j : Job)
    → DueAt cache k js
    → due_second cache j ≡ some k
    → DueAt cache k (js ++ j ∷ [])
DueAt-snoc cache k [] j d e = (e, tt)
DueAt-snoc cache k (i ∷ js) j (d, ds) e = (d, DueAt-snoc cache k js j ds e)

length-snoc : (js : List Job) (j : Job) → 1 ≤ length (js ++ j ∷ [])
length-snoc [] j = omega arith
length-snoc (i ∷ js) j = omega arith

append_to-Keyed :
    (cache : Cache) (k : ℕ) (j : Job) (m : List (ℕ × List Job))
    → Keyed cache m
    → due_second cache j ≡ some k
    → Keyed cache (append_to k j m)
unfolding Keyed
append_to-Keyed cache k j [] v e = ((omega arith, (e, tt)), tt)
append_to-Keyed cache k j ((i, js) ∷ m) ((l, d), v) e = elim (Bool-cases (i == k)) [
  | inl b ↦ rw b ((length-snoc js j, DueAt-snoc cache i js j d (rw (==→eq i k b) e)), v)
  | inr b ↦ rw b ((l, d), append_to-Keyed cache k j m v e)
]

Groups : Cache → List (List Job) → Type 0
Groups cache gs = All (IsGroup cache) gs

Groups-append :
    (cache : Cache) (xs ys : List (List Job))
    → Groups cache xs
    → Groups cache ys
    → Groups cache (xs ++ ys)
unfolding Groups
Groups-append cache [] ys a b = b
Groups-append cache (x ∷ xs) ys (h, a) b = (h, Groups-append cache xs ys a b)

abbrev Both : Cache → List (ℕ × List Job) × List (List Job) → Type 0
Both cache (g, u) = Keyed cache g × Groups cache u

group_job-Both :
    (cache : Cache) (j : Job) (g : List (ℕ × List Job)) (u : List (List Job))
    → Both cache (g, u)
    → Both cache (group_job cache j (g, u))
unfolding Groups
group_job-Both cache j g u (v, w) = elim (Option-cases (lookup j.id cache)) [
  | inl e ↦ rw (e, group_job) (v, Groups-append cache u ((j ∷ []) ∷ []) w (tt, tt))
  | inr (s, e) ↦
      rw (e, group_job) (append_to-Keyed cache (second_of s) j g v (rw (due_second, e)), w)
]

group_jobs-Both :
    (cache : Cache) (js : List Job) (g : List (ℕ × List Job)) (u : List (List Job))
    → Both cache (g, u)
    → Both cache (group_jobs cache js (g, u))
unfolding group_jobs
group_jobs-Both cache [] g u v = v
group_jobs-Both cache (j ∷ js) g u v =
    let (h, t) = group_job cache j (g, u) in
    group_jobs-Both cache js h t (group_job-Both cache j g u v)

members-Groups :
    (cache : Cache) (m : List (ℕ × List Job)) → Keyed cache m → Groups cache (members m)
unfolding Keyed Groups
members-Groups cache [] v = tt
members-Groups cache ((k, []) ∷ m) ((l, d), v) = absurd (omega arith)
members-Groups cache ((k, j ∷ []) ∷ m) (d, v) = (tt, members-Groups cache m v)
members-Groups cache ((k, j ∷ i ∷ js) ∷ m) ((l, d), v) = ((k, d), members-Groups cache m v)

group_jobs_by_fire_time-Groups :
    (cache : Cache) (js : List Job) → Groups cache (group_jobs_by_fire_time cache js)
unfolding group_jobs_by_fire_time Keyed Groups
group_jobs_by_fire_time-Groups cache js =
    let (v, w) = group_jobs-Both cache js [] [] (tt, tt) in
    let (g, u) = group_jobs cache js ([], []) in
    Groups-append cache (members g) u (members-Groups cache g v) w

-- The job is cached, and due in the second that begins `k` seconds after the epoch.
abbrev pub DueIn : Cache → ℕ → Job → Type 0
DueIn cache k j =
    (s : JobSchedule) × (lookup j.id cache ≡ some s)
    × (k * 1000000000 ≤ s.mem_execution.next_execution_datetime)
    × (s.mem_execution.next_execution_datetime < k * 1000000000 + 1000000000)

due_second-DueIn : (cache : Cache) (k : ℕ) (j : Job) → due_second cache j ≡ some k → DueIn cache k j
due_second-DueIn cache k j e = elim (Option-cases (lookup j.id cache)) [
  | inl n ↦ (let h = rw (due_second, n) at e in absurd (ground arith))
  | inr (s, n) ↦
      let h = rw (due_second, n) at e in
      let q : second_of s ≡ k = ground arith in (s, n, omega arith, omega arith)
]

-- A call with several payloads is for cached jobs that are due in one second.
abbrev pub InOneSecond : Cache → Invocation → Type 0
InOneSecond cache (single h e x) = Unit {0}
InOneSecond cache (aggregated h e xs) = (k : ℕ) × All (λ (x : Payload). DueIn cache k x.job) xs

All-append :
    (cache : Cache) (xs ys : List Invocation)
    → All (InOneSecond cache) xs
    → All (InOneSecond cache) ys
    → All (InOneSecond cache) (xs ++ ys)
All-append cache [] ys a b = b
All-append cache (x ∷ xs) ys (h, a) b = (h, All-append cache xs ys a b)

invoke_single_job-InOneSecond :
    (cache : Cache) (e : JobExecutor) (j : Job)
    → All (InOneSecond cache) (invoke_single_job cache e j)
unfolding invoke_single_job
invoke_single_job-InOneSecond cache e j = elim (Option-cases (handler_of e.kind e.cloud_provider)) [
  | inl n ↦ rw (n, invoke_single_job) tt
  | inr (h, n) ↦ rw (n, invoke_single_job) (tt, tt)
]

payloads-due :
    (cache : Cache) (k : ℕ) (js : List Job)
    → DueAt cache k js
    → All (λ (x : Payload). DueIn cache k x.job) (map (build_invocation_payload cache) js)
payloads-due cache k [] d = tt
payloads-due cache k (j ∷ js) (d, ds) =
    (rw (payload-job cache j) (due_second-DueIn cache k j d), payloads-due cache k js ds)

invoke_group-InOneSecond :
    (cache : Cache) (e : JobExecutor) (js : List Job)
    → IsGroup cache js
    → All (InOneSecond cache) (invoke_group cache e js)
unfolding invoke_aggregated_jobs
invoke_group-InOneSecond cache e [] g = absurd g
invoke_group-InOneSecond cache e (j ∷ []) g = invoke_single_job-InOneSecond cache e j
invoke_group-InOneSecond cache e (j ∷ i ∷ js) (k, d) =
    elim (Option-cases (handler_of e.kind e.cloud_provider)) [
      | inl n ↦ rw (n, invoke_aggregated_jobs) tt
      | inr (h, n) ↦ rw (n, invoke_aggregated_jobs) ((k, payloads-due cache k (j ∷ i ∷ js) d), tt)
    ]

invoke_groups-InOneSecond :
    (cache : Cache) (e : JobExecutor) (gs : List (List Job))
    → Groups cache gs
    → All (InOneSecond cache) (invoke_groups cache e gs)
unfolding invoke_groups Groups
invoke_groups-InOneSecond cache e [] v = tt
invoke_groups-InOneSecond cache e (g ∷ gs) (h, v) =
    All-append cache (invoke_group cache e g) (invoke_groups cache e gs)
      (invoke_group-InOneSecond cache e g h) (invoke_groups-InOneSecond cache e gs v)

invoke_each-InOneSecond :
    (cache : Cache) (e : JobExecutor) (js : List Job)
    → All (InOneSecond cache) (invoke_each cache e js)
unfolding invoke_each
invoke_each-InOneSecond cache e [] = tt
invoke_each-InOneSecond cache e (j ∷ js) =
    All-append cache (invoke_single_job cache e j) (invoke_each cache e js)
      (invoke_single_job-InOneSecond cache e j) (invoke_each-InOneSecond cache e js)

-- Of the jobs of one executor, those that are handed on together, in a call of several payloads,
-- are all cached, and due in one second: at or after the same whole number of seconds, and less
-- than a second later. A call of a single payload may be for any job, cached or not.
pub invoke_executor_jobs-InOneSecond :
    (cache : Cache) (e : JobExecutor) (js : List Job)
    → All (InOneSecond cache) (invoke_executor_jobs cache e js)
unfolding invoke_executor_jobs
invoke_executor_jobs-InOneSecond cache e js =
    elim (Bool-cases (e.payload_aggregation && ltb 1 (length js))) [
      | inl b ↦ rw b (
          invoke_groups-InOneSecond cache e (group_jobs_by_fire_time cache js)
            (group_jobs_by_fire_time-Groups cache js))
      | inr b ↦ rw b (invoke_each-InOneSecond cache e js)
    ]
