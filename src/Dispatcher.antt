-- ===== src/Dispatcher.antt =====
-- pkg/utils/dispatcher.go and worker.go: work that is queued is buffered and handed to free workers.
-- The goroutines are counted by what they are at: a worker offers its queue, waits with its queue in
-- the pool, or runs; an assigner is free, holds work, or has taken a queue from the pool.
pub mod Advances
pub mod Progress
pub mod Drains
pub mod Stuck
use scheduler.Prelude.{
  ℕ, zero, suc, ◌+◌, ◌-◌, Bool, true, false, Option, none, some, List, [], ◌∷◌, ◌++◌, ltb,
  if◌then◌else◌, length, get_elem?, remove_at,
}

-- `Work` is the queued effector. `input_queue`, `pending` and `worker_pool` are channels with room
-- for `max_queue`, which is above 0, `max_pending` and `max_workers`; `moving` is what `dispatch` has received.
pub record Dispatcher (Work : Type 0) : Type 0 where
  pub max_queue : ℕ
  pub max_pending : ℕ
  pub max_workers : ℕ
  pub input_queue : List Work
  pub moving : Option Work
  pub pending : List Work
  pub held : List Work
  pub assigned : List Work
  pub worker_pool : ℕ
  pub offering : ℕ
  pub running : List Work
  pub done : List Work

-- What one goroutine does next; a number says which one of those that are at the same place.
pub data Action (Work : Type 0) : Type 0 where
  queue : Work → Action Work
  accept buffer take offer : Action Work
  grab deliver finish : ℕ → Action Work

module _ {Work : Type 0} where
  -- `NewDispatcher` and `Run`.
  unfoldable pub new_dispatcher : ℕ → ℕ → Dispatcher Work
  new_dispatcher workers max_queue = record {
    max_queue = max_queue;
    max_pending = if ltb max_queue 65536 then 65536 else max_queue;
    max_workers = workers;
    input_queue = [];
    moving = none;
    pending = [];
    held = [];
    assigned = [];
    worker_pool = 0;
    offering = workers;
    running = [];
    done = [];
  }

  -- `NoBlockQueue` and the first half of `BlockQueue`: `none` while the queue is full.
  unfoldable pub queue_work : Work → Dispatcher Work → Option (Dispatcher Work)
  queue_work w d =
      if ltb (length d.input_queue) d.max_queue
      then some (record d { input_queue = d.input_queue ++ w ∷ [] })
      else none

  -- `dispatch` receives, and sends on.
  unfoldable pub accept_work : Dispatcher Work → Option (Dispatcher Work)
  accept_work d = elim d.moving [
    | some w ↦ none
    | none ↦ elim d.input_queue [
      | [] ↦ none
      | w ∷ ws ↦ some (record d { input_queue = ws; moving = some w })
    ]
  ]

  unfoldable pub buffer_work : Dispatcher Work → Option (Dispatcher Work)
  buffer_work d = elim d.moving [
    | none ↦ none
    | some w ↦
        if ltb (length d.pending) d.max_pending
        then some (record d { moving = none; pending = d.pending ++ w ∷ [] })
        else none
  ]

  -- A free one of the `maxWorkers` assigners receives.
  unfoldable pub take_work : Dispatcher Work → Option (Dispatcher Work)
  take_work d =
      if ltb (length d.held + length d.assigned) d.max_workers
      then (elim d.pending [
        | [] ↦ none
        | w ∷ ws ↦ some (record d { pending = ws; held = d.held ++ w ∷ [] })
      ])
      else none

  -- An assigner with work takes a worker's queue from the pool.
  unfoldable pub grab_worker : ℕ → Dispatcher Work → Option (Dispatcher Work)
  grab_worker i d = elim (get_elem? d.held i) [
    | none ↦ none
    | some w ↦ elim d.worker_pool [
      | zero ↦ none
      | suc n ↦
          some (record d {
            held = remove_at i d.held;
            assigned = d.assigned ++ w ∷ [];
            worker_pool = n;
          })
    ]
  ]

  -- It sends the work to the worker, which runs it.
  unfoldable pub deliver_work : ℕ → Dispatcher Work → Option (Dispatcher Work)
  deliver_work i d = elim (get_elem? d.assigned i) [
    | none ↦ none
    | some w ↦ some (record d { assigned = remove_at i d.assigned; running = d.running ++ w ∷ [] })
  ]

  -- An effector returns; its worker will offer its queue again.
  unfoldable pub finish_work : ℕ → Dispatcher Work → Option (Dispatcher Work)
  finish_work i d = elim (get_elem? d.running i) [
    | none ↦ none
    | some w ↦ some (record d {
      running = remove_at i d.running;
      offering = d.offering + 1;
      done = d.done ++ w ∷ [];
    })
  ]

  -- A worker sends its queue to the pool.
  unfoldable pub offer_queue : Dispatcher Work → Option (Dispatcher Work)
  offer_queue d = elim d.offering [
    | zero ↦ none
    | suc n ↦
        if ltb d.worker_pool d.max_workers
        then some (record d { offering = n; worker_pool = d.worker_pool + 1 })
        else none
  ]

  abbrev pub perform : Action Work → Dispatcher Work → Option (Dispatcher Work)
  perform (queue w) d = queue_work w d
  perform accept d = accept_work d
  perform buffer d = buffer_work d
  perform take d = take_work d
  perform offer d = offer_queue d
  perform (grab i) d = grab_worker i d
  perform (deliver i) d = deliver_work i d
  perform (finish i) d = finish_work i d
