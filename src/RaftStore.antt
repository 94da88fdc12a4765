-- ===== src/RaftStore.antt =====
-- pkg/fsm/fsm_actions.go and the operations of fsm_store.go that apply the raft log to a node's
-- database, with the listener of pkg/service/node/event_handler.go to what they post.
pub mod Posts
pub mod Snapshot
pub mod SharedRepo
pub mod Recovery
use scheduler.Prelude.{
  ℕ, Bool, true, false, ◌&&◌, not, Option, none, some, List, [], ◌∷◌, ◌++◌, ◌==◌, if◌then◌else◌,
}
use scheduler.Prelude.Result.{Text, is_empty, codes}
use scheduler.Node.Stream.{Bytes}

pub record Command : Type 0 where
  pub sql : Text
  pub params : Bytes
  pub target_nodes : List ℕ
  pub target_action : ℕ

pub record SqlResponse : Type 0 where
  pub rows_affected : ℕ
  pub last_inserted_id : ℕ

pub record FsmResponse : Type 0 where
  pub response : SqlResponse
  pub error : Text

pub data CommandAction : Type 0 where
  queue_job clean_uncommitted_async_tasks_logs clean_uncommitted_execution_logs : CommandAction

pub record PostProcess : Type 0 where
  pub action : CommandAction
  pub target_nodes : List ℕ
  pub response : SqlResponse

-- `raft.LogConfiguration`, and the other types.
pub data LogType : Type 0 where
  log_configuration log_command : LogType

pub record Log : Type 0 where
  pub log_type : LogType
  pub index : ℕ
  pub term : ℕ
  pub command : Bytes

-- A value, or an error with its text.
pub data OrError {ℓ} (A : Type ℓ) : Type ℓ where
  value : A → OrError A
  raised : Text → OrError A

-- Protocol Buffers, JSON and SQLite, on databases `D` and lists of parameters `P`: the parameters
-- are JSON, and a statement is run in a transaction.
pub record Engine (D P : Type 0) : Type 0 where
  pub parse_command : Bytes → OrError Command
  pub print_command : Command → OrError Bytes
  pub parse_params : Bytes → OrError P
  pub print_params : P → OrError Bytes
  pub execute : Text → P → D → OrError (D × SqlResponse)

-- The calls of `database/sql` that fail with a text when an entry is applied.
pub record Faults : Type 0 where
  pub begin : Option Text
  pub commit : Option Text
  pub last_insert_id : Option Text
  pub rows_affected : Option Text

abbrev pub faultless : Faults
faultless = record { begin = none; commit = none; last_insert_id = none; rows_affected = none }

abbrev pub no_rows : SqlResponse
no_rows = record { rows_affected = 0; last_inserted_id = 0 }

abbrev pub failure : Text → FsmResponse
failure t = record { response = no_rows; error = t }

-- `Rollback` after `Commit` returns this error, which is answered.
abbrev pub tx_done : Text
tx_done = codes "sql: transaction has already been committed or rolled back"

-- The reads of the result, after the commit.
abbrev pub counted : Faults → SqlResponse → FsmResponse
counted f r = elim f.last_insert_id [
  | some t ↦ failure tx_done
  | none ↦ elim f.rows_affected [
    | some t ↦ failure tx_done
    | none ↦ record { response = r; error = [] }
  ]
]

-- A database, and the messages in the channel of post processing.
pub record Store (D : Type 0) : Type 0 where
  pub database : D
  pub posts : List PostProcess

abbrev pub post : CommandAction → Command → SqlResponse → List PostProcess
post a c r = record { action = a; target_nodes = c.target_nodes; response = r } ∷ []

-- The message of a command, by its action.
abbrev pub posts_of : Command → SqlResponse → List PostProcess
posts_of c r =
    if c.target_action == 0
    then post queue_job c r
    else if c.target_action == 2
    then post clean_uncommitted_execution_logs c r
    else if c.target_action == 1
    then post clean_uncommitted_async_tasks_logs c r
    else []

module _ {D : Type 0} where
  -- A statement that fails is rolled back.
  abbrev pub committed : Faults → D → OrError (D × SqlResponse) → FsmResponse × D
  committed f d (raised t) = (failure t, d)
  committed f d (value (next, r)) = elim f.commit [
    | some t ↦ (failure t, d)
    | none ↦ (counted f r, next)
  ]

  abbrev pub posted : Bool → Command → List PostProcess → FsmResponse × D → FsmResponse × Store D
  posted ignored c posts (r, d) = (
    r,
    record {
      database = d;
      posts = if not ignored && is_empty r.error then posts ++ posts_of c r.response else posts;
    },
  )

  abbrev pub answered : FsmResponse × Store D → Option FsmResponse × Store D
  answered (r, s) = (some r, s)

module _ {D P : Type 0} (e : Engine D P) where
  unfoldable pub db_execute : Faults → Command → D → FsmResponse × D
  db_execute f c d = elim (e.parse_params c.params) [
    | raised t ↦ (failure t, d)
    | value p ↦ elim f.begin [
      | some t ↦ (failure t, d)
      | none ↦ committed f d (e.execute c.sql p d)
    ]
  ]

  abbrev pub applied_command : Faults → Bool → Store D → OrError Command → FsmResponse × Store D
  applied_command f ignored s (raised t) = (failure t, s)
  applied_command f ignored s (value c) = posted ignored c s.posts (db_execute f c s.database)

  -- `ApplyRaftLog`; `none` is nil. The Boolean is `ignorePostProcessChannel`.
  unfoldable pub apply_raft_log : Faults → Bool → Log → Store D → Option FsmResponse × Store D
  unfolding db_execute
  apply_raft_log f ignored l s = elim l.log_type [
    | log_configuration ↦ (none, s)
    | log_command ↦ answered (applied_command f ignored s (e.parse_command l.command))
  ]

  -- `Apply`.
  unfoldable pub apply : Faults → Log → Store D → Option FsmResponse × Store D
  unfolding apply_raft_log
  apply f l s = apply_raft_log f false l s

  -- `ApplyBatch`: the responses in the order of the entries.
  unfoldable pub apply_batch : List (Faults × Log) → Store D → List (Option FsmResponse) × Store D
  unfolding apply_raft_log
  apply_batch [] s = ([], s)
  apply_batch ((f, l) ∷ logs) s =
      let (r, next) = apply_raft_log f false l s in
      let (rs, last) = apply_batch logs next in (r ∷ rs, last)

-- What raft makes of `Apply` on the leader: an error, or what the state machine answered.
pub data Submitted : Type 0 where
  not_leader : Submitted
  rejected : Text → Submitted
  answer : Option FsmResponse → Submitted

abbrev pub response_of : Submitted → OrError (Option FsmResponse)
response_of not_leader = raised (codes "server not raft leader")
response_of (rejected t) = raised t
response_of (answer none) = value none
response_of (answer (some r)) = if is_empty r.error then value (some r) else raised r.error

module _ {D P : Type 0} (e : Engine D P) (submit : Bytes → Submitted) where
  abbrev pub submitted : OrError Bytes → OrError (Option FsmResponse)
  submitted (raised t) = raised t
  submitted (value b) = response_of (submit b)

  -- `WriteCommandToRaftLog`.
  unfoldable pub write_command_to_raft_log : Text → P → List ℕ → ℕ → OrError (Option FsmResponse)
  write_command_to_raft_log sql ps nodes action = elim (e.print_params ps) [
    | raised t ↦ raised t
    | value b ↦ submitted (
        e.print_command
          (record { sql = sql; params = b; target_nodes = nodes; target_action = action }))
  ]

-- The goroutines that the listener starts, with the last id and the number of rows.
pub data Started : Type 0 where
  queue_executions delete_new_uncommitted_async_logs delete_new_uncommitted_execution_logs :
      ℕ → ℕ → Started

abbrev pub start : CommandAction → SqlResponse → Started
start queue_job r = queue_executions r.last_inserted_id r.rows_affected
start clean_uncommitted_async_tasks_logs r =
    delete_new_uncommitted_async_logs r.last_inserted_id r.rows_affected
start clean_uncommitted_execution_logs r =
    delete_new_uncommitted_execution_logs r.last_inserted_id r.rows_affected

-- A message, for the nodes it names, at the node `n`.
abbrev pub start_for : ℕ → PostProcess → List ℕ → List Started
start_for n m [] = []
start_for n m (x ∷ xs) =
    let rest = start_for n m xs in if x == n then start m.action m.response ∷ rest else rest

-- `ListenOnInputQueues`, on the messages that have been posted.
unfoldable pub listen_on_input_queues : ℕ → List PostProcess → List Started
listen_on_input_queues n [] = []
listen_on_input_queues n (m ∷ ms) = start_for n m m.target_nodes ++ listen_on_input_queues n ms
