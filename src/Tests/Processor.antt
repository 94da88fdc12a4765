-- ===== src/Tests/Processor.antt =====
-- A node that starts.
use mathlib.Core.Path.{subst}
use scheduler.Prelude.{ℕ, ◌≡◌, true, false, some, List, [], ◌∷◌, All, refl, arith}
use scheduler.Models.{Job, inactive}
use scheduler.Executor.{Executor}
use scheduler.Executor.Reschedule.Kept.{IsSound}
use scheduler.Processor.{Project, Answers, start_jobs, Recall, recover_jobs}
use scheduler.Processor.Queued.{queued, listed, increments, AllReady, start_jobs-queued}
use scheduler.Processor.Recovers.{Startable, Answered, recover_jobs-IsSound}
use scheduler.Tests.Queue.{job_of}
use scheduler.Tests.ScheduleQueue.{calendar, ten, three_keys-IsQueue}
use scheduler.Tests.Executor.{worker, waiting}
use scheduler.Tests.Recovery.{ten-Recurs, history}

abbrev project : Project
project = record { id = 7; account_id = 4 }

-- Of the jobs of a project, 2 is not active.
abbrev answers : Answers
answers = record {
  project_count = some 1;
  projects = λ n. some (project ∷ []);
  jobs_count = λ p. some 2;
  jobs_of = λ p n. (job_of 1 4 ∷ record (job_of 2 4) { status = inactive } ∷ [], false);
}

start_jobs-queued_example :
    (increments ((start_jobs answers true false).calls) ≡ 1)
    × ((start_jobs answers true false).fatal ≡ false)
    × ((i : ℕ) → queued i ((start_jobs answers true false).calls) ≡ listed answers i (project ∷ []))
    × AllReady ((start_jobs answers true false).calls)
start_jobs-queued_example =
    start_jobs-queued answers true false 1 (project ∷ []) refl refl refl ((2, refl, refl), tt)

-- One range of jobs, with a job that has no log.
abbrev recall : Recall
recall = record {
  node_id = 1;
  queue_logs =
      record { node_id = 1; lower_bound_job_id = 3; upper_bound_job_id = 9; version = 2 } ∷ [];
  last_logs = λ ids. [];
  jobs = λ ids. some (ten ∷ []);
  history = λ js. history;
}

ten-Startable : All (Startable calendar) (ten ∷ [])
ten-Startable = ((ten-Recurs, omega arith), tt)

recall-Answered : Answered worker recall
recall-Answered = record {
  starts = λ (ids : List ℕ) (js : List Job) e.
      let q : ten ∷ [] ≡ js = ground arith in
      subst (λ x. All (Startable calendar) x) q ten-Startable;
  has_times = λ js. (omega arith, (omega arith, tt));
}

recover_jobs-IsSound_example :
    (y : Executor) × (recover_jobs worker recall waiting ≡ some y) × IsSound y.schedule_queue
recover_jobs-IsSound_example =
    recover_jobs-IsSound worker recall recall-Answered waiting (three_keys-IsQueue, refl)
