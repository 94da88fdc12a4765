-- ===== src/Tests/Executor.antt =====
-- The executor at small inputs.
use scheduler.Executor.Reschedule.Kept.{IsSound, reschedule-IsSound}
use scheduler.ScheduleQueue.Laws.{IsQueue}
use scheduler.ScheduleQueue.Elements.{count_if}
use scheduler.Executor.Due.{is_due, cached, take_due-IsQueue}
use scheduler.Prelude.Sort.{sort}
use scheduler.Prelude.{
  ◌≡◌, ◌≢◌, refl, true, false, ◌&&◌, some, List, [], ◌∷◌, arith, ltb, ◌==◌, lookup, keep, count,
  if◌then◌else◌, not,
}
use scheduler.Prelude.Int.{pos, pos_part, max_int64, min_int64}
use scheduler.Models.{Job, JobQueueLog, JobSchedule, failed, success, scheduled}
use scheduler.JobTime.{
  is_start_date_in_past, has_job_ended, get_next_execution_time, next_cron_time, advance,
}
use scheduler.Queue.{target_node, log_of, parse_uint}
use scheduler.Executor.{Executor, Env, failure_notified, take_due}
use scheduler.Executor.Reschedule.{schedule_of, reschedule}
use scheduler.Executor.Reschedule.Retries.{fail_times, notices, MayRun, Run, fail_times-notifies}
use scheduler.Executor.Reschedule.Take.{reschedule-quota}
use scheduler.Executor.Batches.{Node, queue_executions, workers_of, leader_of, node_ids, bounds}
use scheduler.Executor.Batches.Nodes.{in_range, count_calls, count-queue_executions, workers_of_one}
use scheduler.Tests.Queue.{job_of}
use scheduler.Tests.ScheduleQueue.{calendar, ten, three_keys, three_keys-IsQueue}

abbrev pub worker : Env
worker = record {
  single_node_mode = false;
  node_is_leader = false;
  has_exhaustion_callback = true;
  has_leader_callback = true;
  has_failure_sink = true;
  calendar = calendar;
}

abbrev pub first_run : JobSchedule
first_run = schedule_of ten 1 0 scheduled 1 6

abbrev pub running : Executor
running = record {
  cache = (3, first_run) ∷ [];
  schedule_queue = [];
  local_quota = (4, 5) ∷ [];
  events = [];
}

initial-Run : Run ten 1 0 6 5 running
initial-Run = (first_run, refl, refl, refl, refl, refl)

ten-MayRun : MayRun worker ten
unfolding is_start_date_in_past has_job_ended
ten-MayRun = (refl, true, refl, refl, refl)

next_after_six : get_next_execution_time calendar (record ten { last_execution_date = 6 }) ≡ some 36
unfolding get_next_execution_time next_cron_time advance
next_after_six = refl

-- Four failures take four of a quota of five.
fail_times-notifies_example :
    (y : Executor) × (fail_times worker [] ten 4 running ≡ some y)
    × (notices y.events ≡ failure_notified ten 3 1 ∷ [])
    × Run ten 2 0 36 1 y
fail_times-notifies_example =
    fail_times-notifies worker [] ten 1 6 36 1 running refl ten-MayRun (λ e. absurd (omega arith))
      (omega arith) (omega arith) initial-Run next_after_six (omega arith) refl (omega arith)

reschedule-quota_example :
    (y : Executor) × (reschedule worker success (some []) (ten ∷ ten ∷ []) running ≡ some y)
    × (lookup 4 y.local_quota ≡ some 3)
reschedule-quota_example =
    reschedule-quota worker success [] 4 (ten ∷ ten ∷ []) running (λ e. absurd (omega arith)) refl
      (omega arith, (omega arith, tt))

-- Node 2 of a cluster that node 1 leads, with jobs 10, 11 and 12 in the store.
abbrev rows : List Job
rows = job_of 10 4 ∷ job_of 11 5 ∷ job_of 12 4 ∷ []

abbrev node_two : Node
node_two = record {
  node_id = 2;
  single_node_mode = false;
  leader_server_id = b'1' ∷ [];
  float_min = λ a b. pos (if ltb (pos_part a) (pos_part b) then pos_part a else pos_part b);
  get_jobs = λ lo hi. some (keep (in_range (pos_part lo) (pos_part hi)) rows);
}

abbrev logs : List JobQueueLog
logs = log_of 2 7 10 10 ∷ log_of 3 7 11 11 ∷ log_of 2 7 12 12 ∷ []

logs_workers : workers_of node_two logs ≡ some (2 ∷ 3 ∷ [])
unfolding workers_of node_ids leader_of parse_uint sort
logs_workers = refl

bounds-logs : bounds (max_int64, min_int64) logs ≡ (pos 10, pos 12)
unfolding bounds
bounds-logs = refl

count-queue_executions_example :
    count_calls (λ j. true) (queue_executions node_two logs)
    ≡ count (λ j. in_range 10 12 j && target_node (2 ∷ 3 ∷ []) j.account_id == 2 && true) rows
count-queue_executions_example =
    count-queue_executions node_two logs (2 ∷ 3 ∷ []) 10 12 rows (λ j. true) refl (omega arith)
      logs_workers bounds-logs (omega arith) (omega arith) (λ a b l h. refl) (λ lo hi. refl)

leader_of_two : 3 ≢ leader_of node_two
unfolding leader_of parse_uint
leader_of_two e = absurd (omega arith)

workers_of_one_example :
    (workers_of node_two (log_of 3 7 11 11 ∷ []) ≡ some (3 ∷ [])) × (target_node (3 ∷ []) 4 ≡ 3)
workers_of_one_example = workers_of_one node_two (log_of 3 7 11 11) [] 3 4 (refl, tt) leader_of_two

abbrev pub waiting : Executor
waiting = record running { schedule_queue = three_keys }

take_due-IsQueue_example :
    let (jobs, y) = take_due 3 6 waiting in
    IsQueue y.schedule_queue
    × (count_if (is_due 6) y.schedule_queue ≡ 0)
    × (count_if (λ k. true) y.schedule_queue ≡ count_if (λ k. true && not (is_due 6 k)) three_keys)
    × (count (λ j. true) jobs
        ≡ count_if (λ k. is_due 6 k && cached (λ j. true) ((3, first_run) ∷ []) k) three_keys)
take_due-IsQueue_example =
    take_due-IsQueue 6 (λ k. true) (λ j. true) waiting three_keys-IsQueue refl

reschedule-IsSound_example :
    (y : Executor) × (reschedule worker failed (some []) (ten ∷ ten ∷ []) waiting ≡ some y)
    × IsSound y.schedule_queue
reschedule-IsSound_example =
    reschedule-IsSound worker failed (some []) (ten ∷ ten ∷ []) waiting
      (omega arith, (omega arith, tt)) (three_keys-IsQueue, refl)
