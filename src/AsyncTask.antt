-- ===== src/AsyncTask.antt =====
-- pkg/service/async_task/async_task.go: tasks that run on their own, and those who wait for them.
-- Each method is one step. The goroutines that send a notification are the pending notifications,
-- of which the listener takes any. A subscriber is the channel, of one place, that `GetTaskBlocking`
-- makes; the answers of the repository are arguments.
pub mod Channels
pub mod Waiters
pub mod Steps
pub mod Listening
pub mod Answers
use scheduler.Prelude.{
  ℕ, zero, suc, ◌+◌, Bool, true, false, ◌||◌, not, Option, none, some, List, [], ◌∷◌, ◌++◌, ◌==◌,
  if◌then◌else◌, lookup, insert, erase, keep, get_elem?, remove_at, ◌%◌,
}
use scheduler.Prelude.Result.{Result, ok, err, not_found, Text, text_eq}

pub data TaskState : Type 0 where
  not_started in_progress success fail : TaskState

pub record AsyncTask : Type 0 where
  pub id : ℕ
  pub request_id : Text
  pub input : Text
  pub output : Text
  pub service : Text
  pub state : TaskState
  pub date_created : ℕ
  pub account_id : ℕ
  pub date_modified : ℕ

-- The calls of the repository that write, newest first.
pub data Write : Type 0 where
  raft_batch_insert batch_insert raft_update_task_state update_task_state : Write

-- `channels` holds what stands in the task channels.
pub record Tasks : Type 0 where
  pub task : List (ℕ × AsyncTask)
  pub task_ids : List (Text × ℕ)
  pub subscribers : List (ℕ × List (ℕ × ℕ))
  pub subscriber_ids : List (ℕ × ℕ)
  pub notifications : List AsyncTask
  pub channels : List (ℕ × List AsyncTask)
  pub next_channel : ℕ
  pub single_node_mode : Bool
  pub node_is_leader : Bool
  pub writes : List Write

abbrev pub lookup_text : Text → List (Text × ℕ) → Option ℕ
lookup_text k [] = none
lookup_text k ((j, v) ∷ m) = if text_eq j k then some v else lookup_text k m

abbrev pub insert_text : Text → ℕ → List (Text × ℕ) → List (Text × ℕ)
insert_text k v [] = (k, v) ∷ []
insert_text k v ((j, w) ∷ m) = if text_eq j k then (k, v) ∷ m else (j, w) ∷ insert_text k v m

abbrev pub or_empty : {A : Type 0} → Option (List A) → List A
or_empty none = []
or_empty (some l) = l

abbrev pub by_raft : Tasks → Write → Write → Write
by_raft s raft local = if s.single_node_mode || s.node_is_leader then raft else local

abbrev pub store_task : AsyncTask → Tasks → Tasks
store_task t s = record s { task = insert t.id t s.task }

-- The task that `AddTasks` stores under its id, with no times.
abbrev pub new_task : Text → Text → Text → ℕ → ℕ → AsyncTask
new_task input request_id service account id = record {
  id = id;
  request_id = request_id;
  input = input;
  output = [];
  service = service;
  state = not_started;
  date_created = 0;
  account_id = account;
  date_modified = 0;
}

-- `none` is the panic of `sids[0]`.
unfoldable pub add_tasks :
    Text → Text → Text → ℕ → Result (List ℕ) → Tasks → Option (Result (List ℕ) × Tasks)
add_tasks input request_id service account (err e) s =
    some (err e, record s { writes = by_raft s raft_batch_insert batch_insert ∷ s.writes })
add_tasks input request_id service account (ok []) s = none
add_tasks input request_id service account (ok (id ∷ ids)) s = some (
  ok (id ∷ ids),
  record (store_task (new_task input request_id service account id) s) {
    task_ids = insert_text request_id id s.task_ids;
    writes = by_raft s raft_batch_insert batch_insert ∷ s.writes;
  },
)

-- The task in its new state is stored before the repository is asked, and stays if that fails.
unfoldable pub update_task :
    AsyncTask → ℕ → TaskState → Text → Bool → Tasks → Result (Unit {0}) × Tasks
update_task t key state output fails s =
    let n = record t { state = state; output = output } in
    let u = record s {
      task = insert key n s.task;
      writes = by_raft s raft_update_task_state update_task_state ∷ s.writes;
    } in
    if fails
    then (err not_found, u)
    else (ok tt, record u { notifications = s.notifications ++ n ∷ [] })

unfoldable pub update_tasks_by_id : ℕ → TaskState → Text → Bool → Tasks → Result (Unit {0}) × Tasks
unfolding update_task
update_tasks_by_id id state output fails s = elim (lookup id s.task) [
  | none ↦ (err not_found, s)
  | some t ↦ update_task t id state output fails s
]

unfoldable pub update_tasks_by_request_id :
    Text → TaskState → Text → Bool → Tasks → Result (Unit {0}) × Tasks
unfolding update_task
update_tasks_by_request_id request_id state output fails s =
    elim (lookup_text request_id s.task_ids) [
      | none ↦ (err not_found, s)
      | some id ↦ elim (lookup id s.task) [
        | none ↦ (err not_found, s)
        | some t ↦ update_task t t.id state output fails s
      ]
    ]

abbrev pub or_zero : Option ℕ → ℕ
or_zero none = 0
or_zero (some n) = n

unfoldable pub add_subscriber : ℕ → ℕ → Tasks → Result ℕ × Tasks
add_subscriber id channel s = elim (lookup id s.task) [
  | none ↦ (err not_found, s)
  | some t ↦
      let sub = (or_zero (lookup id s.subscriber_ids) + 1) % 18446744073709551616 in
      (
        ok sub,
        record s {
          subscribers =
              insert id ((sub, channel) ∷ or_empty (lookup t.id s.subscribers)) s.subscribers;
          subscriber_ids = insert id sub s.subscriber_ids;
        },
      )
]

-- What `GetTaskBlocking` answers: a channel, which may be nil, and the subscriber's id.
pub record Waiter : Type 0 where
  pub channel : Option ℕ
  pub subscriber_id : ℕ

abbrev pub waiter_of : ℕ → Result ℕ × Tasks → Result Waiter × Tasks
waiter_of channel (err e, s) = (err e, s)
waiter_of channel (ok sub, s) = (ok (record { channel = some channel; subscriber_id = sub }), s)

abbrev pub wait_by : TaskState → ℕ → AsyncTask → Tasks → Result Waiter × Tasks
wait_by success id t s = (
  ok (record { channel = some s.next_channel; subscriber_id = 0 }),
  record s {
    channels = insert s.next_channel (t ∷ []) s.channels;
    next_channel = suc s.next_channel;
  },
)
wait_by fail id t s = (ok (record { channel = none; subscriber_id = 0 }), s)
wait_by not_started id t s =
    waiter_of s.next_channel
      (add_subscriber id s.next_channel (record s { next_channel = suc s.next_channel }))
wait_by in_progress id t s =
    waiter_of s.next_channel
      (add_subscriber id s.next_channel (record s { next_channel = suc s.next_channel }))

unfoldable pub get_task_blocking : ℕ → Result AsyncTask → Tasks → Result Waiter × Tasks
unfolding add_subscriber
get_task_blocking id (err e) s = (err e, s)
get_task_blocking id (ok t) s = wait_by t.state id t s

abbrev pub remember : Text → AsyncTask → Tasks → Tasks
remember request_id t s = record (store_task t s) {
  task_ids = insert_text request_id t.id s.task_ids;
}

-- A task of the account, or none such.
abbrev pub own : ℕ → AsyncTask → Result AsyncTask
own account t = if t.account_id == account then ok t else err not_found

abbrev pub own_answer : ℕ → Result AsyncTask → Result AsyncTask
own_answer account (err e) = err e
own_answer account (ok t) = own account t

-- `by_request` and `by_id` are what the repository answers.
unfoldable pub get_task_with_request_id_non_blocking :
    Text → ℕ → Result AsyncTask → Result AsyncTask → Tasks → Result AsyncTask × Tasks
get_task_with_request_id_non_blocking request_id account by_request by_id s =
    elim (lookup_text request_id s.task_ids) [
      | some id ↦ (own_answer account by_id, s)
      | none ↦ elim by_request [
        | err e ↦ (err e, s)
        | ok t ↦ (own_answer account by_id, remember request_id t s)
      ]
    ]

-- The task is read once more by `GetTaskBlocking`: `again`.
unfoldable pub get_task_with_request_id_blocking :
    Text
    → ℕ
    → Result AsyncTask
    → Result AsyncTask
    → Result AsyncTask
    → Tasks
    → Result Waiter × Tasks
unfolding get_task_blocking
get_task_with_request_id_blocking request_id account by_request by_id again s =
    elim (lookup_text request_id s.task_ids) [
      | none ↦ elim by_request [
        | err e ↦ (err e, s)
        | ok t ↦ get_task_blocking t.id again (remember request_id t s)
      ]
      | some id ↦ elim (own_answer account by_id) [
        | err e ↦ (err e, s)
        | ok t ↦ get_task_blocking id again s
      ]
    ]

unfoldable pub get_task_id_with_request_id :
    Text → ℕ → Result AsyncTask → Result AsyncTask → Tasks → Result ℕ
get_task_id_with_request_id request_id account by_request by_id s =
    elim (elim (lookup_text request_id s.task_ids) as (λ _. Result AsyncTask) [
      | some id ↦ own_answer account by_id
      | none ↦ by_request
    ]) [ err e ↦ err e | ok t ↦ ok t.id ]

unfoldable pub delete_subscriber : ℕ → ℕ → Tasks → Result (Unit {0}) × Tasks
delete_subscriber id sub s = elim (lookup id s.task) [
  | none ↦ (err not_found, s)
  | some t ↦ elim (lookup t.id s.subscribers) [
    | none ↦ (err not_found, s)
    | some subs ↦ (
      ok tt,
      record s {
        subscribers = insert id (keep (λ (p : ℕ × ℕ). not (p.0 == sub)) subs) s.subscribers;
      },
    )
  ]
]

abbrev pub box : ℕ → List (ℕ × List AsyncTask) → List AsyncTask
box channel m = or_empty (lookup channel m)

-- Each subscriber is called; `none` is a send that waits for ever, on a channel that is full.
unfoldable pub send_all :
    AsyncTask → List (ℕ × ℕ) → List (ℕ × List AsyncTask) → Option (List (ℕ × List AsyncTask))
send_all n [] m = some m
send_all n ((sub, channel) ∷ subs) m = elim (box channel m) [
  | [] ↦ send_all n subs (insert channel (n ∷ []) m)
  | t ∷ ts ↦ none
]

abbrev pub is_finished : TaskState → Bool
is_finished success = true
is_finished fail = true
is_finished not_started = false
is_finished in_progress = false

unfoldable pub notify : AsyncTask → Tasks → Option Tasks
unfolding send_all
notify n s = elim (lookup n.id s.task) [
  | none ↦ some s
  | some t ↦ elim (send_all n (or_empty (lookup t.id s.subscribers)) s.channels) [
    | none ↦ none
    | some m ↦ some (record s {
      channels = m;
      task = if is_finished n.state then erase t.id s.task else s.task;
      subscribers = erase t.id s.subscribers;
    })
  ]
]

-- One round of `ListenForNotifications`, which takes the pending notification at `i`.
unfoldable pub listen : ℕ → Tasks → Option Tasks
unfolding notify
listen i s = elim (get_elem? s.notifications i) [
  | none ↦ some s
  | some n ↦ notify n (record s { notifications = remove_at i s.notifications })
]

-- A waiter takes what stands in its channel.
unfoldable pub receive : ℕ → Tasks → Tasks
receive channel s = record s { channels = insert channel [] s.channels }
