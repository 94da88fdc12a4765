-- ===== src/Tests/Queue.antt =====
-- The queue and the quotas at small inputs.
use scheduler.Prelude.{
  ℕ, ◌≤◌, ◌<◌, ◌-◌, ◌≡◌, refl, true, false, none, some, List, [], ◌∷◌, arith, lookup,
}
use scheduler.Prelude.Int.{pos, max_int64, min_int16}
use scheduler.Prelude.Sort.{sort}
use scheduler.Models.{Job, JobStatus}
use scheduler.Queue.{
  Cluster, JobQueue, log_of, parse_uint, leader_node_id, worker_nodes, target_node,
  group_by_account, group_by_node, ranges, account_logs, node_logs,
  assign_jobs_by_account_to_servers,
}
use scheduler.Queue.Ranges.{covered}
use scheduler.Queue.Assign.{covered-assign}
use scheduler.Queue.Quota.{QuotaState, Snapshot, ok, share, allocate_account, reconcile}
use scheduler.Queue.Quota.Laws.{settled, held}
use scheduler.Queue.Quota.Run.{allocate_account-conserves}

abbrev pub job_of : ℕ → ℕ → Job
job_of id account = record {
  id = id;
  project_id = 1;
  spec = [];
  executor_id = none;
  start_date = 5;
  end_date = 0;
  last_execution_date = 0;
  timezone = [];
  retry_max = pos 3;
  execution_id = [];
  date_created = 1;
  account_id = account;
  status = JobStatus.active;
}

-- Node 1 leads; etcd lists 3, 1 and 2.
abbrev three_nodes : Cluster
three_nodes = record {
  node_id = 1;
  peers = some (3 ∷ 1 ∷ 2 ∷ []);
  leader_server_id = some (b'1' ∷ []);
  last_version = 7;
}

abbrev batch : List Job
batch = job_of 12 4 ∷ job_of 10 4 ∷ job_of 11 5 ∷ job_of 13 4 ∷ []

-- Accounts 4 and 5 go to nodes 2 and 3; account 4 leaves out job 11.
batch_logs :
    assign_jobs_by_account_to_servers three_nodes batch 7
    ≡ log_of 2 7 10 10 ∷ log_of 2 7 12 13 ∷ log_of 3 7 11 11 ∷ []
unfolding assign_jobs_by_account_to_servers node_logs account_logs ranges group_by_node
    group_by_account target_node worker_nodes leader_node_id parse_uint sort
batch_logs = refl

covered-assign_example : covered 2 12 (assign_jobs_by_account_to_servers three_nodes batch 7) ≡ true
unfolding worker_nodes leader_node_id parse_uint sort target_node
covered-assign_example = covered-assign three_nodes batch 7 2 12 (3 ∷ 1 ∷ 2 ∷ []) refl

abbrev alone : JobQueue
alone = record {
  min_id = max_int64;
  max_id = min_int16;
  single_node_mode = true;
  node_is_leader = true;
}

abbrev rows : QuotaState
rows = record { counts = (4, 500) ∷ (5, 40) ∷ []; inactive = []; by_node = [] }

abbrev snapshot : Snapshot
snapshot = record {
  current_counts = (4, 500) ∷ (5, 40) ∷ [];
  features = [];
  usage = (4, 100) ∷ [];
  workers = 3 ∷ 2 ∷ [];
}

settled_four : 0 < settled snapshot 4
unfolding reconcile
settled_four = omega arith

allocate_account-conserves_example :
    let q = settled snapshot 4 in
    (t : QuotaState) × (allocate_account (λ c. false) snapshot 4 rows ≡ ok t)
    × (lookup 4 t.counts ≡ some (q - share q))
    × (held (target_node (3 ∷ 2 ∷ []) 4) 4 t ≡ some (share q))
    × (0 < share q)
    × (share q ≤ q)
allocate_account-conserves_example =
    allocate_account-conserves (λ c. false) snapshot 4 rows (refl, refl, refl, refl, refl) refl
      settled_four
