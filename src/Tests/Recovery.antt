-- ===== src/Tests/Recovery.antt =====
-- Jobs scheduled anew, at small inputs.
use scheduler.Prelude.{◌+◌, ◌≡◌, refl, true, some, [], ◌∷◌, arith}
use scheduler.Models.{failed, success}
use scheduler.JobTime.{get_next_execution_time, next_cron_time, advance}
use scheduler.Executor.{Executor, Env}
use scheduler.Executor.Reschedule.Kept.{IsSound}
use scheduler.Executor.Recovery.{ExecutionLog, History, schedule_jobs, allow_accounts}
use scheduler.Executor.Recovery.Runs.{Recurs, schedule_jobs-IsSound}
use scheduler.Tests.Queue.{job_of}
use scheduler.Tests.ScheduleQueue.{calendar, ten, three_keys-IsQueue}
use scheduler.Tests.Executor.{worker, waiting}

abbrev single : Env
single = record worker { single_node_mode = true }

abbrev pub failed_log : ExecutionLog
failed_log = record {
  unique_id = 1 ∷ [];
  state = failed;
  last_execution_datetime = 6;
  next_execution_datetime = 16;
  execution_version = 2;
}

-- The last run of job 3 failed three times, that of job 8 ended with success.
abbrev pub history : History
history = record {
  logs = (3, failed_log) ∷ (8, record failed_log { state = success }) ∷ [];
  failures = λ j v. 3;
}

pub ten-Recurs : Recurs calendar ten
ten-Recurs = record {
  next = λ t. t + 10;
  has_id = omega arith;
  has_spec = refl;
  parses = refl;
  in_zone = refl;
  rises = λ t. omega arith;
}

next_after_sixteen :
    get_next_execution_time calendar (record ten { last_execution_date = 16 }) ≡ some 36
unfolding get_next_execution_time next_cron_time advance
next_after_sixteen = refl

-- Account 4 has five executions left, and account 6 none.
accounts :
    (allow_accounts worker (job_of 1 4 ∷ job_of 2 6 ∷ job_of 3 1 ∷ []) ([], waiting)).0 ≡ 1 ∷ 4 ∷ []
unfolding allow_accounts
accounts = refl

schedule_jobs-IsSound_example :
    (y : Executor) × (schedule_jobs worker history (ten ∷ []) waiting ≡ some y)
    × IsSound y.schedule_queue
schedule_jobs-IsSound_example =
    schedule_jobs-IsSound worker history (ten ∷ []) waiting (ten-Recurs, tt)
      (omega arith, (omega arith, tt)) (three_keys-IsQueue, refl)
