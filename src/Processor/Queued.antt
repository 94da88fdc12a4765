-- ===== src/Processor/Queued.antt =====
-- What `StartJobs` hands to the job queue.
use scheduler.Prelude.{
  ℕ, ◌+◌, ◌≡◌, Bool, true, false, ◌&&◌, not, none, some, List, [], ◌∷◌, ◌==◌, count, All,
  Bool-cases, inl, inr, refl, arith, ap,
}
use scheduler.Models.{Job}
use scheduler.Processor.{
  Project, Answers, QueueCall, allocate_quotas, increment_queue_version, queue_jobs, Run, is_active,
  active_jobs, start_projects, start_jobs,
}

-- How often a job of an id is queued.
abbrev pub queued : ℕ → List QueueCall → ℕ
queued i [] = 0
queued i (allocate_quotas ∷ cs) = queued i cs
queued i (increment_queue_version ∷ cs) = queued i cs
queued i (queue_jobs js ∷ cs) = count (λ (j : Job). j.id == i) js + queued i cs

-- How often the version of the queue is incremented.
abbrev pub increments : List QueueCall → ℕ
increments [] = 0
increments (increment_queue_version ∷ cs) = 1 + increments cs
increments (allocate_quotas ∷ cs) = increments cs
increments (queue_jobs js ∷ cs) = increments cs

-- How often an active job of an id is listed.
abbrev pub listed : Answers → ℕ → List Project → ℕ
listed a i [] = 0
listed a i (p ∷ ps) =
    (elim (a.jobs_count p.id) [
      | none ↦ 0
      | some n ↦ count (λ (j : Job). is_active j.status && j.id == i) ((a.jobs_of p n).0)
    ])
    + listed a i ps

abbrev pub Ready : Job → Type 0
Ready j = (is_active j.status ≡ true) × (j.last_execution_date ≡ j.date_created)

-- Every job that is queued is active, and has last run when it was created.
abbrev pub AllReady : List QueueCall → Type 0
AllReady [] = Unit {0}
AllReady (allocate_quotas ∷ cs) = AllReady cs
AllReady (increment_queue_version ∷ cs) = AllReady cs
AllReady (queue_jobs js ∷ cs) = All Ready js × AllReady cs

-- The jobs of a project can be counted and loaded.
abbrev pub Loads : Answers → Project → Type 0
Loads a p = (n : ℕ) × (a.jobs_count p.id ≡ some n) × ((a.jobs_of p n).1 ≡ false)

active_jobs-count :
    (i : ℕ) (js : List Job)
    → count (λ (j : Job). j.id == i) (active_jobs js)
      ≡ count (λ (j : Job). is_active j.status && j.id == i) js
unfolding active_jobs
active_jobs-count i [] = refl
active_jobs-count i (j ∷ js) = elim (Bool-cases (is_active j.status)) [
  | inl h ↦ rw (h, active_jobs-count i js)
  | inr h ↦ rw (h, active_jobs-count i js) (omega arith)
]

active_jobs-Ready : (js : List Job) → All Ready (active_jobs js)
unfolding active_jobs
active_jobs-Ready [] = tt
active_jobs-Ready (j ∷ js) = elim (Bool-cases (is_active j.status)) [
  | inl h ↦ rw h ((h, refl), active_jobs-Ready js)
  | inr h ↦ rw h (active_jobs-Ready js)
]

module _ (a : Answers) where
  abbrev Complete : List Project → Run → Type 0
  Complete ps r =
      (r.fatal ≡ false)
      × ((i : ℕ) → queued i r.calls ≡ listed a i ps)
      × AllReady r.calls
      × (increments r.calls ≡ 0)

  start_projects-Complete :
      (ps : List Project) → All (Loads a) ps → Complete ps (start_projects a ps)
  unfolding start_projects
  start_projects-Complete [] h = (refl, λ i. refl, tt, refl)
  start_projects-Complete (p ∷ ps) ((n, c, l), h) =
      let (f, q, v, z) = start_projects-Complete ps h in
      let js = (a.jobs_of p n).0 in
      let e : a.jobs_of p n ≡ (js, false) = ap (λ (b : Bool). (js, b)) l in
      rw (c, e, start_projects)
        (f, λ i. rw (active_jobs-count i js, q i), (active_jobs-Ready js, v), z)

  -- Where the projects and their jobs can be loaded, a node that does not lead a cluster increments
  -- the version of the queue once, ends without an error, and queues each active job as often as the
  -- projects list it, no other job, and each as if it had last run when it was created.
  pub start_jobs-queued :
      (single leads : Bool) (n : ℕ) (ps : List Project)
      → (not single && leads) ≡ false
      → a.project_count ≡ some n
      → a.projects n ≡ some ps
      → All (Loads a) ps
      → (increments ((start_jobs a single leads).calls) ≡ 1)
        × ((start_jobs a single leads).fatal ≡ false)
        × ((i : ℕ) → queued i ((start_jobs a single leads).calls) ≡ listed a i ps)
        × AllReady ((start_jobs a single leads).calls)
  unfolding start_jobs
  start_jobs-queued single leads n ps m c l h =
      let (f, q, v, z) = start_projects-Complete ps h in
      rw (m, c, l, start_jobs) (ap (λ (x : ℕ). 1 + x) z, f, q, v)
