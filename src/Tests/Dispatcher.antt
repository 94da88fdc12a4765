-- ===== src/Tests/Dispatcher.antt =====
-- One worker, and one piece of work that is queued and run.
use scheduler.Prelude.{
  ℕ, ◌+◌, ◌≤◌, ◌≡◌, ◌⊎◌, refl, true, none, some, List, [], ◌∷◌, arith, length, count, ◌==◌,
}
use scheduler.Dispatcher.{
  Dispatcher, Action, queue, accept, buffer, take, offer, grab, deliver, finish, new_dispatcher,
  queue_work, accept_work, buffer_work, take_work, offer_queue, grab_worker, deliver_work,
  finish_work, perform,
}
use scheduler.Dispatcher.Advances.{steps_left, is_own}
use scheduler.Dispatcher.Drains.{
  Reach, started, queued, perform_all, perform_all-drains, performed_all,
}
use scheduler.Dispatcher.Stuck.{perform_all_stuck}

abbrev with_work : Dispatcher ℕ
with_work = record {
  max_queue = 2;
  max_pending = 65536;
  max_workers = 1;
  input_queue = 7 ∷ [];
  moving = none;
  pending = [];
  held = [];
  assigned = [];
  worker_pool = 0;
  offering = 1;
  running = [];
  done = [];
}

abbrev round : List (Action ℕ)
round = accept ∷ offer ∷ buffer ∷ take ∷ grab 0 ∷ deliver 0 ∷ finish 0 ∷ offer ∷ []

abbrev after_round : Dispatcher ℕ
after_round = record with_work { input_queue = []; worker_pool = 1; offering = 0; done = 7 ∷ [] }

with_work-Reach : Reach 1 2 (7 ∷ []) with_work
unfolding new_dispatcher queue_work
with_work-Reach = queued 7 started refl

perform_round : perform_all round with_work ≡ some after_round
unfolding accept_work buffer_work take_work grab_worker deliver_work finish_work offer_queue
perform_round = refl

perform_all-drains_example :
    (length round + steps_left after_round ≤ steps_left with_work)
    × ((count (λ w. w == 7) after_round.done ≡ count (λ w. w == 7) (7 ∷ []))
        ⊎ ((a : Action ℕ) × (is_own a ≡ true)
            × (f : Dispatcher ℕ) × (perform a after_round ≡ some f)))
perform_all-drains_example =
    perform_all-drains (λ w. w == 7) 1 2 (7 ∷ []) with_work after_round round (omega arith)
      with_work-Reach (refl, (refl, (refl, (refl, (refl, (refl, (refl, (refl, tt))))))))
      perform_round

-- The worker runs 7, and 8 is queued.
abbrev until_run : List (Action ℕ)
until_run = accept ∷ offer ∷ buffer ∷ take ∷ grab 0 ∷ deliver 0 ∷ []

abbrev busy : Dispatcher ℕ
busy = record with_work { input_queue = []; offering = 0; running = 7 ∷ [] }

abbrev waiting : Dispatcher ℕ
waiting = record busy { held = 8 ∷ [] }

perform_until_run : perform_all until_run with_work ≡ some busy
unfolding accept_work buffer_work take_work grab_worker deliver_work offer_queue
perform_until_run = refl

busy-Reach : Reach 1 2 (7 ∷ []) busy
busy-Reach =
    performed_all 1 2 (7 ∷ []) with_work busy until_run with_work-Reach
      (refl, (refl, (refl, (refl, (refl, (refl, tt)))))) perform_until_run

perform_queued : perform_all (queue 8 ∷ accept ∷ buffer ∷ take ∷ []) busy ≡ some waiting
unfolding queue_work accept_work buffer_work take_work
perform_queued = refl

perform_all_stuck_example : (waiting.running ≡ busy.running) × (waiting.done ≡ busy.done)
perform_all_stuck_example =
    perform_all_stuck 1 2 (7 ∷ []) busy waiting (queue 8 ∷ accept ∷ buffer ∷ take ∷ [])
      (omega arith) busy-Reach refl (refl, (refl, (refl, (refl, tt)))) perform_queued
