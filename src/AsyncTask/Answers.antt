-- ===== src/AsyncTask/Answers.antt =====
-- Who waits for a task hears of its next change.
use scheduler.AsyncTask.Listening.{Reach-Tidy, notify_found}
use scheduler.Prelude.{
  ℕ, suc, ◌+◌, ◌<◌, ◌≡◌, false, ◌++◌, some, List, [], ◌∷◌, if◌then◌else◌, lookup, insert, erase,
  length, lookup-insert, arith, refl, Option-cases, inl, inr, get_elem?, remove_at, ◌%◌, ap,
}
use scheduler.Prelude.Result.{ok, Text}
use scheduler.AsyncTask.{
  AsyncTask, TaskState, not_started, in_progress, success, fail, Tasks, or_empty, box,
  update_tasks_by_id, update_task, add_subscriber, get_task_blocking, is_finished, listen, or_zero,
  wait_by,
}
use scheduler.AsyncTask.Channels.{hits, occurrences}
use scheduler.AsyncTask.Waiters.{Sent-IsTidy}
use scheduler.AsyncTask.Steps.{Reach, next, waited, updated}

-- In a reachable state, let a notification be pending for a task to which a channel is subscribed.
-- When the listener takes it, whatever state of the task it tells, the channel holds that
-- notification alone, and is subscribed to no task any more.
pub Reach-answers :
    {s : Tasks}
    → Reach s
    → (i c : ℕ) (n : AsyncTask) → get_elem? s.notifications i ≡ some n
    → 0 < hits c (or_empty (lookup n.id s.subscribers))
    → (t : Tasks) × (listen i s ≡ some t)
      × (box c t.channels ≡ n ∷ [])
      × (occurrences c t.subscribers ≡ 0)
unfolding listen
Reach-answers {s} r i c n e h = elim (Option-cases (lookup n.id s.task)) [
  | inl f ↦ absurd (ground (arith, (Reach-Tidy r).attended n.id f))
  | inr (u, f) ↦
      let v = Reach-Tidy r in
      let (m, p, g) =
        notify_found n u (record s { notifications = remove_at i s.notifications }) v f in
      let same : u.id ≡ n.id = v.keyed n.id u f in
      let heard : box c m ≡ n ∷ [] = ground (arith, g c) in
      let w =
        Sent-IsTidy s.task s.subscribers s.channels s.next_channel v n u.id m (is_finished n.state)
          g in
      (
        record s {
          notifications = remove_at i s.notifications;
          channels = m;
          task = if is_finished n.state then erase u.id s.task else s.task;
          subscribers = erase u.id s.subscribers;
        },
        rw (e, listen) p,
        heard,
        ground (arith, w.single c),
      )
]

get_elem?-last : (l : List AsyncTask) (n : AsyncTask) → get_elem? (l ++ n ∷ []) (length l) ≡ some n
get_elem?-last [] n = refl
get_elem?-last (x ∷ xs) n = get_elem?-last xs n

-- The state after a waiter for the task `t` has been subscribed.
subscribed : ℕ → AsyncTask → Tasks → Tasks
subscribed id t s =
    let sub = (or_zero (lookup id s.subscriber_ids) + 1) % 18446744073709551616 in
    record s {
      subscribers =
          insert id ((sub, s.next_channel) ∷ or_empty (lookup t.id s.subscribers)) s.subscribers;
      subscriber_ids = insert id sub s.subscriber_ids;
      next_channel = suc s.next_channel;
    }

wait_unfinished :
    (w : TaskState) (id : ℕ) (t u : AsyncTask) (s : Tasks)
    → lookup id s.task ≡ some t
    → is_finished w ≡ false
    → (wait_by w id u s).1 ≡ subscribed id t s
unfolding subscribed add_subscriber
wait_unfinished success id t u s e f = absurd (ground arith)
wait_unfinished fail id t u s e f = absurd (ground arith)
wait_unfinished not_started id t u s e f = rw (e, add_subscriber)
wait_unfinished in_progress id t u s e f = rw (e, add_subscriber)

-- A task that is waited for, and then changed, in that order.
abbrev pub wait_then_update : ℕ → AsyncTask → TaskState → Text → Tasks → Tasks
wait_then_update id u state output s =
    (update_tasks_by_id id state output false (get_task_blocking id (ok u) s).1).1

module _ (s : Tasks) (id : ℕ) (t u : AsyncTask) (state : TaskState) (output : Text)
    (e : lookup id s.task ≡ some t) (f : is_finished u.state ≡ false) where
  abbrev pub changed : AsyncTask
  changed = record t { state = state; output = output }

  waited_state : (get_task_blocking id (ok u) s).1 ≡ subscribed id t s
  unfolding get_task_blocking
  waited_state = wait_unfinished u.state id t u s e f

  updated_state :
      wait_then_update id u state output s
      ≡ (update_tasks_by_id id state output false (subscribed id t s)).1
  updated_state = ap (λ (x : Tasks). (update_tasks_by_id id state output false x).1) waited_state

  updated_notifications :
      (wait_then_update id u state output s).notifications ≡ s.notifications ++ changed ∷ []
  unfolding subscribed update_tasks_by_id update_task
  updated_notifications = rw updated_state (rw (update_tasks_by_id, e))

  updated_hits :
      t.id ≡ id
      → 0
        < hits s.next_channel
            (or_empty (lookup t.id (wait_then_update id u state output s).subscribers))
  unfolding subscribed update_tasks_by_id update_task
  updated_hits k =
      rw (updated_state, update_tasks_by_id, e, k)
        (ground (
          arith,
          lookup-insert id id
              (((or_zero (lookup id s.subscriber_ids) + 1) % 18446744073709551616, s.next_channel)
                ∷ or_empty (lookup id s.subscribers))
              s.subscribers,
        ))

-- In a reachable state, let the repository answer that a stored task is not finished. Then
-- `GetTaskBlocking` subscribes a channel, and after a change of the task by its id, with the
-- repository's consent, the listener's round on that change leaves the changed task in the channel.
pub waiter_hears :
    {s : Tasks}
    → Reach s
    → (id : ℕ) (t u : AsyncTask) (state : TaskState) (output : Text) → lookup id s.task ≡ some t
    → is_finished u.state ≡ false
    → (after : Tasks) × (listen (length s.notifications) (wait_then_update id u state output s)
        ≡ some after)
      × (box s.next_channel after.channels ≡ record t { state = state; output = output } ∷ [])
waiter_hears {s} r id t u state output e f =
    let reached = next (next r (waited id (ok u) refl)) (updated id state output false refl) in
    let n = record t { state = state; output = output } in
    let k = (Reach-Tidy r).keyed id t e in
    let (after, p, q, z) =
      Reach-answers {s = wait_then_update id u state output s} reached (length s.notifications)
        s.next_channel n
        (rw (updated_notifications s id t u state output e f) (get_elem?-last s.notifications n))
        (updated_hits s id t u state output e f k) in
    (after, p, q)
