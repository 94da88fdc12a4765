-- ===== src/Tests/AsyncTask.antt =====
-- Asynchronous tasks at small inputs.
use scheduler.Prelude.{◌≡◌, refl, false, some, [], ◌∷◌}
use scheduler.Prelude.Result.{ok}
use scheduler.AsyncTask.{
  AsyncTask, in_progress, success, Tasks, box, add_tasks, listen, new_task, batch_insert,
}
use scheduler.AsyncTask.Steps.{Reach, start, next, fresh_tasks, waited, updated}
use scheduler.AsyncTask.Steps as Steps
use scheduler.AsyncTask.Listening.{Reach-listen}
use scheduler.AsyncTask.Answers.{wait_then_update, waiter_hears}

abbrev task_nine : AsyncTask
task_nine = new_task [] (7 ∷ []) [] 4 9

-- A task with the id 9 has been added.
abbrev one_task : Tasks
one_task = record (fresh_tasks false false) {
  task = (9, task_nine) ∷ [];
  task_ids = (7 ∷ [], 9) ∷ [];
  writes = batch_insert ∷ [];
}

one_task-Reach : Reach one_task
unfolding add_tasks
one_task-Reach =
    next (start false false) (Steps.added [] (7 ∷ []) [] 4 (ok (9 ∷ [])) (ok (9 ∷ [])) refl)

-- Someone waits for it, and it is in progress.
abbrev in_work : Tasks
in_work = wait_then_update 9 task_nine in_progress [] one_task

in_work-Reach : Reach in_work
in_work-Reach =
    next (next one_task-Reach (waited 9 (ok task_nine) refl)) (updated 9 in_progress [] false refl)

Reach-listen_example : (t : Tasks) × (listen 0 in_work ≡ some t)
Reach-listen_example = Reach-listen {s = in_work} in_work-Reach 0

waiter_hears_example :
    (after : Tasks) × (listen 0 (wait_then_update 9 task_nine success (5 ∷ []) one_task)
      ≡ some after)
    × (box 0 after.channels ≡ record task_nine { state = success; output = 5 ∷ [] } ∷ [])
waiter_hears_example =
    waiter_hears {s = one_task} one_task-Reach 9 task_nine task_nine success (5 ∷ []) refl refl
