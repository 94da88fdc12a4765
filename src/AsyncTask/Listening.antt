-- ===== src/AsyncTask/Listening.antt =====
-- The listener never waits for ever.
use scheduler.Prelude.{
  ℕ, ◌≡◌, Option, none, some, List, if◌then◌else◌, lookup, erase, Option-cases, inl, inr, get_elem?,
  remove_at,
}
use scheduler.AsyncTask.{AsyncTask, Tasks, or_empty, notify, is_finished, listen, receive}
use scheduler.AsyncTask.Channels.{Sent, send_all-Sent}
use scheduler.AsyncTask.Waiters.{receive-IsTidy, room-IsTidy, Sent-IsTidy}
use scheduler.AsyncTask.Steps.{
  Tidy, Step, added, updated, updated_by_request, asked, waited, waited_by_request, gave_up,
  listened, received, Reach, start, next, fresh-Tidy, add_tasks-Tidy, update_tasks_by_id-Tidy,
  update_tasks_by_request_id-Tidy, asked-Tidy, get_task_blocking-Tidy, waited-Tidy,
  delete_subscriber-Tidy,
}

-- The listener takes a notification of a stored task: every channel that is subscribed to the task
-- gets it, and none is subscribed to the task any more.
pub notify_found :
    (n t : AsyncTask) (s : Tasks)
    → Tidy s
    → lookup n.id s.task ≡ some t
    → (m : List (ℕ × List AsyncTask)) × (notify n s
        ≡ some (record s {
          channels = m;
          task = if is_finished n.state then erase t.id s.task else s.task;
          subscribers = erase t.id s.subscribers;
        }))
      × Sent n (or_empty (lookup t.id s.subscribers)) s.channels m
unfolding notify
notify_found n t s v e =
    let subs = or_empty (lookup t.id s.subscribers) in
    let (m, f, g) =
      send_all-Sent n subs s.channels
        (room-IsTidy s.task s.subscribers s.channels s.next_channel v t.id) in
    (m, rw (e, notify, f), g)

abbrev Heard : Option Tasks → Type 0
Heard none = ⊥
Heard (some t) = Tidy t

notify-Heard : (n : AsyncTask) (s : Tasks) → Tidy s → Heard (notify n s)
unfolding notify
notify-Heard n s v = elim (Option-cases (lookup n.id s.task)) [
  | inl e ↦ rw (e, notify) v
  | inr (t, e) ↦
      let (m, f, g) = notify_found n t s v e in
      rw f (
        Sent-IsTidy s.task s.subscribers s.channels s.next_channel v n t.id m (is_finished n.state)
          g)
]

listen-Heard : (i : ℕ) (s : Tasks) → Tidy s → Heard (listen i s)
unfolding listen
listen-Heard i s v = elim (Option-cases (get_elem? s.notifications i)) [
  | inl e ↦ rw (e, listen) v
  | inr (n, e) ↦
      rw (e, listen) (notify-Heard n (record s { notifications = remove_at i s.notifications }) v)
]

Step-Tidy : {s t : Tasks} → Step s t → Tidy s → Tidy t
unfolding receive
Step-Tidy {s} {t} (added i q w a x r e) v = add_tasks-Tidy i q w a x r s t v e
Step-Tidy {s} (updated id w o f e) v = rw e (update_tasks_by_id-Tidy id w o f s v)
Step-Tidy {s} (updated_by_request q w o f e) v = rw e (update_tasks_by_request_id-Tidy q w o f s v)
Step-Tidy {s} (asked q a x y e) v = rw e (asked-Tidy q a x y s v)
Step-Tidy {s} (waited id x e) v = rw e (get_task_blocking-Tidy id x s v)
Step-Tidy {s} (waited_by_request q a x y z e) v = rw e (waited-Tidy q a x y z s v)
Step-Tidy {s} (gave_up id sub e) v = rw e (delete_subscriber-Tidy id sub s v)
Step-Tidy {s} (listened i e) v = rw e at (listen-Heard i s v)
Step-Tidy {s} (received c e) v =
    rw e (receive-IsTidy s.task s.subscribers s.channels s.next_channel v c)

pub Reach-Tidy : {s : Tasks} → Reach s → Tidy s
Reach-Tidy (start single leader) = fresh-Tidy single leader
Reach-Tidy (next r st) = Step-Tidy st (Reach-Tidy r)

-- In every reachable state the listener ends its round, whichever pending notification it takes: no
-- send to a subscriber waits for ever.
pub Reach-listen : {s : Tasks} → Reach s → (i : ℕ) → (t : Tasks) × (listen i s ≡ some t)
Reach-listen {s} r i = elim (Option-cases (listen i s)) [
  | inl e ↦ absurd (rw e at (listen-Heard i s (Reach-Tidy r)))
  | inr (t, e) ↦ (t, e)
]
