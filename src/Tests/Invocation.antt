-- ===== src/Tests/Invocation.antt =====
-- Jobs handed to the handlers, runs that end, and reports of local executors, at small inputs.
use scheduler.Prelude.{
  ◌-◌, ◌≡◌, refl, true, ◌&&◌, none, some, List, [], ◌∷◌, count, arith, All, keep,
}
use scheduler.Prelude.Result.{ok}
use scheduler.Models.{Job, scheduled}
use scheduler.Executor.Recovery.{ExecutionLog, History}
use scheduler.Executor.Invocation.{
  JobExecutor, Invocation, Cache, cloud_function, local_executor, aws, invoke_jobs,
  invoke_executor_jobs, executor_map,
}
use scheduler.Executor.Invocation.Counts.{calls_with, is_runnable}
use scheduler.Executor.Invocation.Calls.{invoke_jobs-count}
use scheduler.Executor.Invocation.Seconds.{InOneSecond, invoke_executor_jobs-InOneSecond}
use scheduler.Executor.Reports.{LocalExecutionReport, report_executions}
use scheduler.Executor.Reports.Billing.{
  is_billed, is_well_formed, AreLogged, report_executions-bills,
}
use scheduler.Tests.Queue.{job_of}
use scheduler.Tests.ScheduleQueue.{ten}
use scheduler.Tests.Executor.{first_run}

abbrev target : JobExecutor
target = record { id = 2; kind = cloud_function; cloud_provider = aws; payload_aggregation = true }

abbrev on_target : Job → Job
on_target j = record j { executor_id = some 2 }

-- Jobs 3 and 8 are cached and due in one second, job 9 is not cached.
abbrev due_jobs : List Job
due_jobs = on_target ten ∷ on_target (job_of 9 4) ∷ on_target (job_of 8 4) ∷ job_of 5 4 ∷ []

abbrev schedules : Cache
schedules = (3, first_run) ∷ (8, first_run) ∷ []

invoke_jobs-count_example :
    (is : List Invocation) × (invoke_jobs schedules (ten ∷ []) (ok due_jobs) (ok (target ∷ []))
      ≡ some is)
    × (calls_with (λ j. true) is
        ≡ count (λ j. is_runnable (executor_map (target ∷ []) []) j && true) due_jobs)
invoke_jobs-count_example = invoke_jobs-count (λ j. true) schedules ten [] due_jobs target []

invoke_executor_jobs-InOneSecond_example :
    All (InOneSecond schedules) (invoke_executor_jobs schedules target due_jobs)
invoke_executor_jobs-InOneSecond_example =
    invoke_executor_jobs-InOneSecond schedules target due_jobs

abbrev fresh_log : ExecutionLog
fresh_log = record {
  unique_id = 1 ∷ [];
  state = scheduled;
  last_execution_datetime = 0;
  next_execution_datetime = 6;
  execution_version = 1;
}

-- Job 3 has not run before.
abbrev fresh : History
fresh = record { logs = (3, fresh_log) ∷ []; failures = λ j v. 0 }

abbrev local : JobExecutor
local = record target { kind = local_executor }

abbrev report : LocalExecutionReport
report = record {
  job_id = 3;
  unique_id = 1 ∷ [];
  state = 1;
  last_execution_time = [];
  next_execution_time = 7 ∷ [];
  execution_version = 1;
  job_queue_version = 1;
}

-- A run that succeeded, one that has begun, and a report without an id.
abbrev reports : List LocalExecutionReport
reports = report ∷ record report { state = 0 } ∷ record report { unique_id = [] } ∷ []

report_executions-bills_example :
    ((report_executions (λ t. none) (ok (some local)) (some ((4, 500) ∷ [])) 4 reports).0
      ≡ ok (count is_well_formed reports))
    × AreLogged
        (λ t. none)
        (keep is_well_formed reports)
        (report_executions (λ t. none) (ok (some local)) (some ((4, 500) ∷ [])) 4 reports).1.logged
    × ((report_executions (λ t. none) (ok (some local)) (some ((4, 500) ∷ [])) 4 reports).1.updated
        ≡ some (500 - count is_billed reports))
report_executions-bills_example =
    report_executions-bills (λ t. none) local ((4, 500) ∷ []) 4 500 reports (omega arith) refl
      (omega arith) refl (omega arith)
