-- ===== src/RaftStore/Posts.antt =====
-- What follows from an entry at the nodes that it names.
use mathlib.Core.List.{append-nil, append_assoc}
use scheduler.Prelude.{
  ℕ, zero, suc, ◌≡◌, ◌∙◌, sym, false, none, some, List, [], ◌∷◌, ◌++◌, ◌==◌, if◌then◌else◌, refl,
  Bool-cases, inl, inr,
}
use scheduler.Prelude.Result.{Text}
use scheduler.Node.Stream.{Bytes}
use scheduler.RaftStore.{
  Command, SqlResponse, CommandAction, queue_job, clean_uncommitted_async_tasks_logs,
  clean_uncommitted_execution_logs, PostProcess, Log, log_command, value, raised, Engine, Faults,
  faultless, tx_done, Store, db_execute, post, posted, answered, counted, posts_of, apply_raft_log,
  apply, Started, queue_executions, delete_new_uncommitted_async_logs,
  delete_new_uncommitted_execution_logs, start, start_for, listen_on_input_queues, Submitted,
  answer, write_command_to_raft_log,
}

-- How often a node is named.
abbrev pub times_named : ℕ → List ℕ → ℕ
times_named n [] = 0
times_named n (x ∷ xs) = let rest = times_named n xs in if x == n then suc rest else rest

abbrev pub repeated : {A : Type 0} → ℕ → List A → List A
repeated zero xs = []
repeated (suc k) xs = xs ++ repeated k xs

-- What a command starts at a node that it names.
abbrev pub started_by : Command → SqlResponse → List Started
started_by c r =
    if c.target_action == 0
    then queue_executions r.last_inserted_id r.rows_affected ∷ []
    else if c.target_action == 2
    then delete_new_uncommitted_execution_logs r.last_inserted_id r.rows_affected ∷ []
    else if c.target_action == 1
    then delete_new_uncommitted_async_logs r.last_inserted_id r.rows_affected ∷ []
    else []

start_for-repeated :
    (n : ℕ) (m : PostProcess) (xs : List ℕ)
    → start_for n m xs ≡ repeated (times_named n xs) (start m.action m.response ∷ [])
start_for-repeated n m [] = refl
start_for-repeated n m (x ∷ xs) = elim (Bool-cases (x == n)) [
  | inl h ↦ rw (h, start_for-repeated n m xs)
  | inr h ↦ rw (h, start_for-repeated n m xs)
]

repeated_none : {A : Type 0} (k : ℕ) → repeated {A = A} k [] ≡ []
repeated_none zero = refl
repeated_none (suc k) = repeated_none k

listen-append :
    (n : ℕ) (xs ys : List PostProcess)
    → listen_on_input_queues n (xs ++ ys)
      ≡ listen_on_input_queues n xs ++ listen_on_input_queues n ys
unfolding listen_on_input_queues
listen-append n [] ys = refl
listen-append n (x ∷ xs) ys = rw (listen-append n xs ys) (
    sym (
      append_assoc (start_for n x x.target_nodes) (listen_on_input_queues n xs)
        (listen_on_input_queues n ys)))

listen-post :
    (n : ℕ) (a : CommandAction) (c : Command) (r : SqlResponse)
    → listen_on_input_queues n (post a c r)
      ≡ repeated (times_named n c.target_nodes) (start a r ∷ [])
unfolding listen_on_input_queues
listen-post n a c r =
    let m : PostProcess = record { action = a; target_nodes = c.target_nodes; response = r } in
    append-nil (start_for n m c.target_nodes) ∙ start_for-repeated n m c.target_nodes

listen-posts_of :
    (n : ℕ) (c : Command) (r : SqlResponse)
    → listen_on_input_queues n (posts_of c r)
      ≡ repeated (times_named n c.target_nodes) (started_by c r)
unfolding listen_on_input_queues
listen-posts_of n c r = elim (Bool-cases (c.target_action == 0)) [
  | inl h ↦ rw h (listen-post n queue_job c r)
  | inr h ↦ elim (Bool-cases (c.target_action == 2)) [
    | inl i ↦ rw (h, i) (listen-post n clean_uncommitted_execution_logs c r)
    | inr i ↦ elim (Bool-cases (c.target_action == 1)) [
      | inl j ↦ rw (h, i, j) (listen-post n clean_uncommitted_async_tasks_logs c r)
      | inr j ↦ rw (h, i, j) (sym (repeated_none (times_named n c.target_nodes)))
    ]
  ]
]

module _ {D P : Type 0} (e : Engine D P) (l : Log) (s : Store D) (c : Command) (p : P) (next : D)
    (r : SqlResponse) where
  -- The entry is a command that the engine can run on the database.
  abbrev pub Runs : Type 0
  Runs =
      (l.log_type ≡ log_command)
      × (e.parse_command l.command ≡ value c)
      × (e.parse_params c.params ≡ value p)
      × (e.execute c.sql p s.database ≡ value (next, r))

  executed :
      (f : Faults)
      → Runs
      → f.begin ≡ none
      → f.commit ≡ none
      → apply e f l s ≡ answered (posted false c s.posts (counted f r, next))
  unfolding apply apply_raft_log db_execute
  executed f (a, b, d, x) g h = rw (a, b, db_execute, d, g, x, h)

  -- A command that can be run and meets no failing call changes the database by its statement; it
  -- is answered with the result of the statement, and each node that it names starts what its
  -- action asks for, as often as it is named, with the last id and the number of rows of this
  -- result: for 0 it queues executions, for 2 it deletes execution logs that are not committed, and
  -- for 1 such logs of tasks. Nothing is started for another
  -- action, or at another node.
  pub apply-listen_on_input_queues :
      (n : ℕ)
      → Runs
      → ((apply e faultless l s).0 ≡ some (record { response = r; error = [] }))
        × ((apply e faultless l s).1.database ≡ next)
        × (listen_on_input_queues n ((apply e faultless l s).1.posts)
            ≡ listen_on_input_queues n s.posts
              ++ repeated (times_named n c.target_nodes) (started_by c r))
  apply-listen_on_input_queues n h =
      let x = executed faultless h refl refl in
      (rw x, rw x, rw x (listen-append n s.posts (posts_of c r) ∙ rw (listen-posts_of n c r)))

  -- When the result of a committed statement cannot be read, the database is changed, and the
  -- answer, also to the client on the leader, is an error, which tells of the transaction; nothing
  -- is started at any node.
  pub apply_unread :
      (f : Faults) (reason : Text) (submit : Bytes → Submitted)
      → Runs
      → f.begin ≡ none
      → f.commit ≡ none
      → f.last_insert_id ≡ some reason
      → e.print_params p ≡ value c.params
      → e.print_command c ≡ value l.command
      → submit l.command ≡ answer ((apply e f l s).0)
      → ((apply e f l s).1 ≡ record s { database = next })
        × (write_command_to_raft_log e submit c.sql p c.target_nodes c.target_action
            ≡ raised tx_done)
  unfolding write_command_to_raft_log
  apply_unread f t submit h g k i a b q =
      let x = executed f h g k in (rw (x, i), rw (write_command_to_raft_log, a, b, q, x, i))
