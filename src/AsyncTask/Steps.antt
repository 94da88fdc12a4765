-- ===== src/AsyncTask/Steps.antt =====
-- The steps of the service, and that each method keeps what `IsTidy` says.
use scheduler.Prelude.{
  ℕ, suc, ◌≡◌, Bool, true, false, not, Option, none, some, List, [], ◌∷◌, ◌==◌, lookup, arith, refl,
  Option-cases, inl, inr, sym, ap,
}
use scheduler.Prelude.Result.{Result, ok, err, Text}
use scheduler.AsyncTask.{
  AsyncTask, TaskState, not_started, in_progress, success, fail, Tasks, Waiter, add_tasks,
  update_task, update_tasks_by_id, update_tasks_by_request_id, add_subscriber, get_task_blocking,
  get_task_with_request_id_non_blocking, get_task_with_request_id_blocking, delete_subscriber,
  listen, receive, lookup_text, own_answer, wait_by, waiter_of, remember, new_task,
}
use scheduler.AsyncTask.Waiters.{
  IsTidy, store-IsTidy, bump-IsTidy, subscribe-IsTidy, fill-IsTidy, unsubscribe-IsTidy,
}

abbrev pub Tidy : Tasks → Type 0
Tidy s = IsTidy s.task s.subscribers s.channels s.next_channel

-- One method, one round of the listener, or a waiter that takes what stands in its channel.
pub data Step (s : Tasks) : Tasks → Type 0 where
  added :
      {t : Tasks} (input request_id service : Text) (account : ℕ) (answer r : Result (List ℕ))
      → add_tasks input request_id service account answer s ≡ some (r, t)
      → Step s t
  updated :
      {t : Tasks} (id : ℕ) (state : TaskState) (output : Text) (fails : Bool)
      → t ≡ (update_tasks_by_id id state output fails s).1
      → Step s t
  updated_by_request :
      {t : Tasks} (request_id : Text) (state : TaskState) (output : Text) (fails : Bool)
      → t ≡ (update_tasks_by_request_id request_id state output fails s).1
      → Step s t
  asked :
      {t : Tasks} (request_id : Text) (account : ℕ) (by_request by_id : Result AsyncTask)
      → t ≡ (get_task_with_request_id_non_blocking request_id account by_request by_id s).1
      → Step s t
  waited :
      {t : Tasks} (id : ℕ) (answer : Result AsyncTask)
      → t ≡ (get_task_blocking id answer s).1
      → Step s t
  waited_by_request :
      {t : Tasks} (request_id : Text) (account : ℕ) (by_request by_id again : Result AsyncTask)
      → t ≡ (get_task_with_request_id_blocking request_id account by_request by_id again s).1
      → Step s t
  gave_up : {t : Tasks} (id sub : ℕ) → t ≡ (delete_subscriber id sub s).1 → Step s t
  listened : {t : Tasks} (i : ℕ) → listen i s ≡ some t → Step s t
  received : {t : Tasks} (channel : ℕ) → t ≡ receive channel s → Step s t

-- A service that has been made and not used.
abbrev pub fresh_tasks : Bool → Bool → Tasks
fresh_tasks single leader = record {
  task = [];
  task_ids = [];
  subscribers = [];
  subscriber_ids = [];
  notifications = [];
  channels = [];
  next_channel = 0;
  single_node_mode = single;
  node_is_leader = leader;
  writes = [];
}

pub data Reach : Tasks → Type 0 where
  start : (single leader : Bool) → Reach (fresh_tasks single leader)
  next : {s t : Tasks} → Reach s → Step s t → Reach t

pub fresh-Tidy : (single leader : Bool) → Tidy (fresh_tasks single leader)
fresh-Tidy single leader = record {
  keyed = λ k t e. absurd (ground arith);
  attended = λ k e. refl;
  single = λ c. omega arith;
  fresh = λ c l. refl;
}

update_task-Tidy :
    (t : AsyncTask) (k : ℕ) (state : TaskState) (output : Text) (fails : Bool) (s : Tasks)
    → t.id ≡ k
    → Tidy s
    → Tidy (update_task t k state output fails s).1
unfolding update_task
update_task-Tidy t k state output true s e v =
    store-IsTidy s.task s.subscribers s.channels s.next_channel v
      (record t { state = state; output = output }) k e
update_task-Tidy t k state output false s e v =
    store-IsTidy s.task s.subscribers s.channels s.next_channel v
      (record t { state = state; output = output }) k e

pub update_tasks_by_id-Tidy :
    (id : ℕ) (state : TaskState) (output : Text) (fails : Bool) (s : Tasks)
    → Tidy s
    → Tidy (update_tasks_by_id id state output fails s).1
unfolding update_tasks_by_id
update_tasks_by_id-Tidy id state output fails s v = elim (Option-cases (lookup id s.task)) [
  | inl e ↦ rw (e, update_tasks_by_id) v
  | inr (t, e) ↦
      rw (e, update_tasks_by_id) (update_task-Tidy t id state output fails s (v.keyed id t e) v)
]

pub update_tasks_by_request_id-Tidy :
    (request_id : Text) (state : TaskState) (output : Text) (fails : Bool) (s : Tasks)
    → Tidy s
    → Tidy (update_tasks_by_request_id request_id state output fails s).1
unfolding update_tasks_by_request_id
update_tasks_by_request_id-Tidy request_id state output fails s v =
    elim (Option-cases (lookup_text request_id s.task_ids)) [
      | inl e ↦ rw (e, update_tasks_by_request_id) v
      | inr (id, e) ↦ elim (Option-cases (lookup id s.task)) [
        | inl f ↦ rw (e, update_tasks_by_request_id, f) v
        | inr (t, f) ↦
            rw (e, update_tasks_by_request_id, f)
              (update_task-Tidy t t.id state output fails s refl v)
      ]
    ]

state_of : Tasks → Option (Result (List ℕ) × Tasks) → Tasks
state_of s none = s
state_of s (some (r, t)) = t

pub add_tasks-Tidy :
    (input request_id service : Text) (account : ℕ) (answer r : Result (List ℕ)) (s t : Tasks)
    → Tidy s
    → add_tasks input request_id service account answer s ≡ some (r, t)
    → Tidy t
unfolding add_tasks state_of
add_tasks-Tidy i q w a (err x) r s t v e = rw (sym (ap (state_of s) e)) v
add_tasks-Tidy i q w a (ok []) r s t v e = absurd (ground arith)
add_tasks-Tidy i q w a (ok (id ∷ ids)) r s t v e =
    rw (sym (ap (state_of s) e))
      (store-IsTidy s.task s.subscribers s.channels s.next_channel v (new_task i q w a id) id refl)

add_subscriber-Tidy :
    (id : ℕ) (s : Tasks)
    → Tidy s
    → Tidy
        (waiter_of s.next_channel
          (add_subscriber id s.next_channel (record s { next_channel = suc s.next_channel }))).1
unfolding add_subscriber
add_subscriber-Tidy id s v = elim (Option-cases (lookup id s.task)) [
  | inl e ↦ rw (e, add_subscriber) (bump-IsTidy s.task s.subscribers s.channels s.next_channel v)
  | inr (t, e) ↦
      rw (e, add_subscriber, v.keyed id t e)
        (subscribe-IsTidy s.task s.subscribers s.channels s.next_channel v id _ t e)
]

wait_by-Tidy :
    (w : TaskState) (id : ℕ) (t : AsyncTask) (s : Tasks) → Tidy s → Tidy (wait_by w id t s).1
wait_by-Tidy success id t s v = fill-IsTidy s.task s.subscribers s.channels s.next_channel v t
wait_by-Tidy fail id t s v = v
wait_by-Tidy not_started id t s v = add_subscriber-Tidy id s v
wait_by-Tidy in_progress id t s v = add_subscriber-Tidy id s v

pub get_task_blocking-Tidy :
    (id : ℕ) (answer : Result AsyncTask) (s : Tasks)
    → Tidy s
    → Tidy (get_task_blocking id answer s).1
unfolding get_task_blocking
get_task_blocking-Tidy id (err e) s v = v
get_task_blocking-Tidy id (ok t) s v = wait_by-Tidy t.state id t s v

remember-Tidy : (q : Text) (t : AsyncTask) (s : Tasks) → Tidy s → Tidy (remember q t s)
remember-Tidy q t s v = store-IsTidy s.task s.subscribers s.channels s.next_channel v t t.id refl

pub asked-Tidy :
    (q : Text) (a : ℕ) (by_request by_id : Result AsyncTask) (s : Tasks)
    → Tidy s
    → Tidy (get_task_with_request_id_non_blocking q a by_request by_id s).1
unfolding get_task_with_request_id_non_blocking
asked-Tidy q a by_request by_id s v = elim (Option-cases (lookup_text q s.task_ids)) [
  | inr (id, e) ↦ rw (e, get_task_with_request_id_non_blocking) v
  | inl e ↦ rw (e, get_task_with_request_id_non_blocking) (found by_request)
]
  where
    found :
        (r : Result AsyncTask)
        → Tidy
            (elim r as (λ _. Result AsyncTask × Tasks) [
              | err e ↦ (err e, s)
              | ok t ↦ (own_answer a by_id, remember q t s)
            ]).1
    found (err e) = v
    found (ok t) = remember-Tidy q t s v

pub waited-Tidy :
    (q : Text) (a : ℕ) (by_request by_id again : Result AsyncTask) (s : Tasks)
    → Tidy s
    → Tidy (get_task_with_request_id_blocking q a by_request by_id again s).1
unfolding get_task_with_request_id_blocking
waited-Tidy q a by_request by_id again s v = elim (Option-cases (lookup_text q s.task_ids)) [
  | inr (id, e) ↦ rw (e, get_task_with_request_id_blocking) (owned id (own_answer a by_id))
  | inl e ↦ rw (e, get_task_with_request_id_blocking) (found by_request)
]
  where
    found :
        (r : Result AsyncTask)
        → Tidy
            (elim r as (λ _. Result Waiter × Tasks) [
              | err e ↦ (err e, s)
              | ok t ↦ get_task_blocking t.id again (remember q t s)
            ]).1
    found (err e) = v
    found (ok t) = get_task_blocking-Tidy t.id again (remember q t s) (remember-Tidy q t s v)

    owned :
        (id : ℕ) (r : Result AsyncTask)
        → Tidy
            (elim r as (λ _. Result Waiter × Tasks) [
              | err e ↦ (err e, s)
              | ok t ↦ get_task_blocking id again s
            ]).1
    owned id (err e) = v
    owned id (ok t) = get_task_blocking-Tidy id again s v

pub delete_subscriber-Tidy : (id sub : ℕ) (s : Tasks) → Tidy s → Tidy (delete_subscriber id sub s).1
unfolding delete_subscriber
delete_subscriber-Tidy id sub s v = elim (Option-cases (lookup id s.task)) [
  | inl e ↦ rw (e, delete_subscriber) v
  | inr (t, e) ↦ elim (Option-cases (lookup t.id s.subscribers)) [
    | inl f ↦ rw (e, delete_subscriber, f) v
    | inr (l, f) ↦
        rw (e, delete_subscriber, f)
          (unsubscribe-IsTidy s.task s.subscribers s.channels s.next_channel v id l
            (λ (p : ℕ × ℕ). not (p.0 == sub)) t e (rw (sym (v.keyed id t e)) f))
  ]
]
