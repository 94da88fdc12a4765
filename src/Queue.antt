-- ===== src/Queue.antt =====
-- pkg/service/queue/queue.go: which node runs which jobs. The leader turns a batch of jobs into
-- job queue logs: one range of ids for a single node, or, in a cluster, ranges for each account
-- at the node that the account is hashed to. A Go map is visited in an order that Go leaves open;
-- here it is the order of first insertion, and the theorems do not depend on the order.
pub mod Ranges
pub mod Workers
pub mod Grouping
pub mod Assign
pub mod Bounds
pub mod Quota
use scheduler.Prelude.{
  ℕ, ◌+◌, ◌-◌, ◌*◌, ◌%◌, Bool, true, false, ◌&&◌, not, Option, none, some, List, [], ◌∷◌, ◌++◌, map,
  ltb, leb, ◌==◌, if◌then◌else◌, length, get_elem?, keep, lookup, insert,
}
use scheduler.Prelude.Int.{ℤ, pos, ltb_ℤ, to_int64, to_uint64, max_int64, min_int16}
use scheduler.Prelude.Sort.{sort}
use scheduler.Models.{Job, JobQueueLog}

-- What `queue` asks of the rest of the node: its configuration, the peers that etcd lists (`none`
-- is an error), the leader's server id (`none` where there is no store) and the queue version.
pub record Cluster : Type 0 where
  pub node_id : ℕ
  pub peers : Option (List ℕ)
  pub leader_server_id : Option (List ℕ)
  pub last_version : ℕ

pub record JobQueue : Type 0 where
  pub min_id : ℤ
  pub max_id : ℤ
  pub single_node_mode : Bool
  pub node_is_leader : Bool

-- `strconv.ParseUint(s, 10, 64)` over bytes; `none` is any error.
unfoldable pub parse_digits : ℕ → List ℕ → Option ℕ
parse_digits n [] = some n
parse_digits n (c ∷ cs) =
    let rest = parse_digits (n * 10 + (c - 48)) cs in
    if leb 48 c && leb c 57 && ltb (n * 10 + (c - 48)) 18446744073709551616 then rest else none

unfoldable pub parse_uint : List ℕ → Option ℕ
unfolding parse_digits
parse_uint [] = none
parse_uint (c ∷ cs) = parse_digits 0 (c ∷ cs)

abbrev pub get_or {ℓ} : {A : Type ℓ} → Option A → A → A
get_or none d = d
get_or (some a) d = a

-- The leader's node id; 0 where there is no store, no leader, or an id that is not a number.
unfoldable pub leader_node_id : Cluster → ℕ
leader_node_id c = elim c.leader_server_id [
  | none ↦ 0
  | some [] ↦ 0
  | some (b ∷ bs) ↦ get_or (parse_uint (b ∷ bs)) 0
]

-- The peers without the leader, or this node alone if there are none.
unfoldable pub worker_nodes : ℕ → ℕ → List ℕ → List ℕ
worker_nodes node leader peers = elim (keep (λ p. not (p == leader)) peers) [
  | [] ↦ node ∷ []
  | p ∷ ps ↦ p ∷ ps
]

-- `workerNodes[accountId % numberOfWorkerNodes]`.
unfoldable pub target_node : List ℕ → ℕ → ℕ
target_node workers account = get_or (get_elem? workers (account % length workers)) 0

-- `accountJobs[job.AccountId] = append(accountJobs[job.AccountId], job)`, for each job.
unfoldable pub group_by_account : List (ℕ × List Job) → List Job → List (ℕ × List Job)
group_by_account m [] = m
group_by_account m (j ∷ js) =
    group_by_account (insert j.account_id (get_or (lookup j.account_id m) [] ++ j ∷ []) m) js

-- `nodeAccountJobs[targetNodeId][accountId] = jobsForAccount`, for each account.
unfoldable pub group_by_node :
    List ℕ → List (ℕ × List (ℕ × List Job)) → List (ℕ × List Job) → List (ℕ × List (ℕ × List Job))
group_by_node workers m [] = m
group_by_node workers m ((a, js) ∷ groups) =
    let n = target_node workers a in
    group_by_node workers (insert n (insert a js (get_or (lookup n m) [])) m) groups

abbrev pub log_of : ℕ → ℕ → ℕ → ℕ → JobQueueLog
log_of node version lo hi = record {
  node_id = node;
  lower_bound_job_id = lo;
  upper_bound_job_id = hi;
  version = version;
}

-- The loop over the sorted ids of one account: a gap closes the range `lo` to `hi`.
unfoldable pub range_loop : ℕ → ℕ → ℕ → ℕ → List ℕ → List JobQueueLog
range_loop node version lo hi [] = log_of node version lo hi ∷ []
range_loop node version lo hi (x ∷ xs) =
    let gap = ltb ((hi + 1) % 18446744073709551616) x in
    let rest = range_loop node version (if gap then x else lo) x xs in
    if gap then log_of node version lo hi ∷ rest else rest

unfoldable pub ranges : ℕ → ℕ → List ℕ → List JobQueueLog
unfolding range_loop
ranges node version [] = []
ranges node version (x ∷ xs) = range_loop node version x x xs

unfoldable pub account_logs : ℕ → ℕ → List (ℕ × List Job) → List JobQueueLog
account_logs node version [] = []
account_logs node version ((a, js) ∷ groups) =
    ranges node version (sort (map (λ j. j.id) js)) ++ account_logs node version groups

unfoldable pub node_logs : ℕ → List (ℕ × List (ℕ × List Job)) → List JobQueueLog
node_logs version [] = []
node_logs version ((n, groups) ∷ rest) = account_logs n version groups ++ node_logs version rest

-- `assignJobsByAccountToServers`; nothing is assigned where the peers cannot be read.
unfoldable pub assign_jobs_by_account_to_servers : Cluster → List Job → ℕ → List JobQueueLog
assign_jobs_by_account_to_servers c jobs version = elim c.peers [
  | none ↦ []
  | some peers ↦ node_logs version (
      group_by_node (sort (worker_nodes c.node_id (leader_node_id c) peers)) []
        (group_by_account [] jobs))
]

-- `queue`: the logs handed to `InsertJobQueueLogs`, or `none` where it is not called.
unfoldable pub queue : Cluster → JobQueue → ℤ → ℤ → List Job → Option (List JobQueueLog)
queue c q min_id max_id jobs =
    if q.node_is_leader
    then (if q.single_node_mode
        then some (log_of c.node_id c.last_version (to_uint64 min_id) (to_uint64 max_id) ∷ [])
        else (elim (assign_jobs_by_account_to_servers c jobs c.last_version) [
          | [] ↦ none
          | l ∷ ls ↦ some (l ∷ ls)
        ]))
    else none

-- The loop of `Queue` over the jobs.
unfoldable pub widen : JobQueue → List Job → JobQueue
widen q [] = q
widen q (j ∷ js) =
    widen
      (record q {
        max_id = if ltb_ℤ q.max_id (to_int64 j.id) then to_int64 j.id else q.max_id;
        min_id = if ltb_ℤ (to_int64 j.id) q.min_id then to_int64 j.id else q.min_id;
      })
      js

-- `Queue`. The bounds are reset to the constants that the code names, `MinInt16` among them.
unfoldable pub enqueue : Cluster → JobQueue → List Job → JobQueue × Option (List JobQueueLog)
unfolding widen
enqueue c q [] = (q, none)
enqueue c q (j ∷ js) =
    let w = widen q (j ∷ js) in
    (record w { min_id = max_int64; max_id = min_int16 }, queue c w w.min_id w.max_id (j ∷ js))
