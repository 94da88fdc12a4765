-- ===== src/Tests/RaftStore.antt =====
-- A raft store on a small engine: a database is a list of numbers, and a statement adds one.
use scheduler.Prelude.{
  ℕ, ◌≡◌, true, Option, none, some, [], ◌∷◌, ◌++◌, ◌==◌, if◌then◌else◌, arith, refl,
}
use scheduler.Prelude.Result.{codes}
use scheduler.Node.Stream.{Bytes}
use scheduler.RaftStore.{
  Command, SqlResponse, Log, log_command, OrError, value, raised, Engine, Faults, faultless, Store,
  apply, listen_on_input_queues, queue_executions,
}
use scheduler.RaftStore.Posts.{apply-listen_on_input_queues}
use scheduler.RaftStore.Snapshot.{Files, Sink, persist, snapshot_bytes, restore, restored}
use scheduler.RaftStore.Snapshot.RoundTrip.{IsFaithful, restore-persist}
use scheduler.RaftStore.SharedRepo.{Statements}
use scheduler.RaftStore.Recovery.{SnapshotFile, RaftFiles, Recovered}

abbrev parse : Bytes → OrError Command
parse [] = raised (codes "empty")
parse (a ∷ []) = raised (codes "short")
parse (a ∷ p ∷ nodes) =
    value (record { sql = []; params = p ∷ []; target_nodes = nodes; target_action = a })

abbrev parse_number : Bytes → OrError ℕ
parse_number [] = raised (codes "empty")
parse_number (p ∷ ps) = value p

abbrev adding : Engine Bytes ℕ
adding = record {
  parse_command = parse;
  print_command = λ c. value (c.target_action ∷ (c.params ++ c.target_nodes));
  parse_params = parse_number;
  print_params = λ p. value (p ∷ []);
  execute = λ sql p d. value (p ∷ d, record { rows_affected = 1; last_inserted_id = p });
}

-- The number 7 is added, and the node 3 is told twice to queue jobs.
abbrev entry : Log
entry = record { log_type = log_command; index = 1; term = 1; command = 0 ∷ 7 ∷ 3 ∷ 3 ∷ [] }

abbrev entry_command : Command
entry_command = record { sql = []; params = 7 ∷ []; target_nodes = 3 ∷ 3 ∷ []; target_action = 0 }

abbrev empty_store : Store Bytes
empty_store = record { database = []; posts = [] }

abbrev one_row : SqlResponse
one_row = record { rows_affected = 1; last_inserted_id = 7 }

apply-listen_on_input_queues_example :
    ((apply adding faultless entry empty_store).0
      ≡ some (record { response = one_row; error = [] }))
    × ((apply adding faultless entry empty_store).1.database ≡ 7 ∷ [])
    × (listen_on_input_queues 3 ((apply adding faultless entry empty_store).1.posts)
        ≡ queue_executions 7 1 ∷ queue_executions 7 1 ∷ [])
unfolding listen_on_input_queues
apply-listen_on_input_queues_example =
    apply-listen_on_input_queues adding entry empty_store entry_command 7 (7 ∷ []) one_row 3
      (refl, refl, refl, refl)

abbrev unread : Faults
unread = record faultless { last_insert_id = some (codes "lost") }

abbrev unzip : Bytes → Option Bytes
unzip [] = none
unzip (x ∷ b) = some b

abbrev plain_files : Files Bytes
plain_files = record {
  serialize = λ d. d;
  open_file = λ b. some b;
  gzip = λ b. 0 ∷ b;
  gunzip = unzip;
}

plain_files-IsFaithful : IsFaithful plain_files
plain_files-IsFaithful = record {
  open_file = λ d. refl;
  gunzip = λ b. refl;
  gzip = λ b. omega arith;
}

abbrev sink : Sink
sink = record { mark = true; size = true; contents = true; close = true }

restore-persist_example :
    restore plain_files
      (record { removed = true; written = true })
      (some (snapshot_bytes (0 ∷ 5 ∷ 6 ∷ [])))
    ≡ restored (5 ∷ 6 ∷ [])
unfolding persist
restore-persist_example =
    restore-persist plain_files sink (5 ∷ 6 ∷ []) (snapshot_bytes (0 ∷ 5 ∷ 6 ∷ []))
      plain_files-IsFaithful (ground arith) refl

abbrev next_entry : Log
next_entry = record { log_type = log_command; index = 2; term = 4; command = 0 ∷ 8 ∷ [] }

-- One log that is not committed, in the node's present database, which begins with 0.
abbrev has_log : Bytes → ℕ
has_log [] = 0
has_log (x ∷ d) = if x == 0 then 1 else 0

-- A log is put in front, and there is one migration.
abbrev put_front : Bytes → Bytes → Bytes
put_front [] d = d
put_front (l ∷ ls) d = put_front ls (l ∷ d)

abbrev statements : Statements Bytes ℕ ℕ
statements = record {
  count_logs = λ d. value (has_log d);
  id_range = λ d. value (1, 1);
  select_logs = λ ids d. value ids;
  insert_logs = λ ls d. value (put_front ls d);
  insert_tasks = λ ts d. value d;
  create_migrations = λ d. value d;
  select_migrations = λ d. value ((5 ∷ []) ∷ []);
  insert_migration = λ n d. value d;
  migrations = record { name = 5 ∷ []; up = λ d. raised [] } ∷ [];
}

abbrev snapshot_file : Option Bytes → SnapshotFile
snapshot_file source = record { index = 1; term = 1; source = some source; closes = true }

abbrev raft_files : Option Bytes → RaftFiles
raft_files source = record {
  snapshots = some (snapshot_file source ∷ []);
  first_index = some 1;
  last_index = some 2;
  get_log = λ i. if i == 2 then some next_entry else none;
  written = true;
  saved = true;
  faults = λ i. faultless;
}

abbrev recovered_as : Bytes → Recovered Bytes
recovered_as d = record {
  snapshot = record { database = d; last_index = 2; last_term = 4 };
  first_deleted = 1;
  last_deleted = 2;
}

abbrev first_snapshot : Bytes
first_snapshot = snapshot_bytes (0 ∷ 7 ∷ [])
