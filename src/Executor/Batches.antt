-- ===== src/Executor/Batches.antt =====
-- `QueueExecutions` of pkg/service/executor/executor.go: a node reads the logs that the leader has
-- inserted, and schedules the jobs of their range of ids that are its own, in batches.
pub mod Tiles
pub mod Nodes
use scheduler.Prelude.{
  ℕ, zero, suc, ◌+◌, ◌-◌, ◌%◌, Bool, true, false, ◌&&◌, ◌||◌, not, Option, none, some, List, [],
  ◌∷◌, ◌++◌, map, ltb, ◌==◌, if◌then◌else◌, length, keep, contains,
}
use scheduler.Prelude.Int.{
  ℤ, pos, pos_part, neg_part, ltb_ℤ, to_int64, max_int64, min_int64, add_int, sub_int,
}
use scheduler.Prelude.Sort.{sort}
use scheduler.Models.{Job, JobQueueLog}
use scheduler.Queue.{parse_uint, get_or, target_node}

-- `float_min` is `int(math.Min(float64(a), float64(b)))`; `get_jobs` is
-- `BatchGetJobsWithIDRange`, `none` an error; `leader_server_id` is Raft's, empty for no leader.
pub record Node : Type 0 where
  pub node_id : ℕ
  pub single_node_mode : Bool
  pub leader_server_id : List ℕ
  pub float_min : ℤ → ℤ → ℤ
  pub get_jobs : ℤ → ℤ → Option (List Job)

-- `JobMaxBatchSize`.
abbrev pub max_batch : ℕ
max_batch = 5461

-- `allNodeIds`.
unfoldable pub node_ids : List ℕ → List JobQueueLog → List ℕ
node_ids seen [] = seen
node_ids seen (l ∷ ls) =
    node_ids (if contains l.node_id seen then seen else seen ++ l.node_id ∷ []) ls

unfoldable pub leader_of : Node → ℕ
leader_of n = get_or (parse_uint n.leader_server_id) 0

-- `workerNodes`, sorted; `none` where the leader finds no worker and returns.
unfoldable pub workers_of : Node → List JobQueueLog → Option (List ℕ)
workers_of n logs = elim (keep (λ i. not (i == leader_of n)) (node_ids [] logs)) [
  | [] ↦ if n.node_id == leader_of n then none else some (sort (n.node_id ∷ []))
  | i ∷ is ↦ some (sort (i ∷ is))
]

-- The loop over the logs that finds the bounds of the ids.
unfoldable pub bounds : ℤ × ℤ → List JobQueueLog → ℤ × ℤ
bounds b [] = b
bounds b (l ∷ ls) =
    bounds
      (
        if ltb_ℤ (to_int64 l.lower_bound_job_id) b.0 then to_int64 l.lower_bound_job_id else b.0,
        if ltb_ℤ b.1 (to_int64 l.upper_bound_job_id) then to_int64 l.upper_bound_job_id else b.1,
      )
      ls

abbrev pub equal_ℤ : ℤ → ℤ → Bool
equal_ℤ a b = not (ltb_ℤ a b) && not (ltb_ℤ b a)

-- Where the batch after one that ends at `hi` ends.
unfoldable pub next_upper_bound : Node → ℤ → ℤ → ℤ
next_upper_bound n upper hi =
    if ltb_ℤ (sub_int upper hi) (pos max_batch)
    then upper
    else n.float_min (add_int (add_int hi 1) max_batch) upper

-- The ranges that the loop fetches, while no fetch fails; `lo` and `hi` are its current bounds.
unfoldable pub batch_loop : Node → ℕ → ℤ → ℤ → ℤ → List (ℤ × ℤ)
batch_loop n zero upper lo hi = []
batch_loop n (suc fuel) upper lo hi =
    let rest = batch_loop n fuel upper (add_int hi 1) (next_upper_bound n upper hi) in
    if ltb_ℤ upper lo then [] else (lo, hi) ∷ rest

-- The fuel is the number of ids, and one more.
unfoldable pub batches : Node → ℤ → ℤ → List (ℤ × ℤ)
unfolding batch_loop next_upper_bound
batches n lower upper =
    if ltb_ℤ (pos max_batch) (sub_int upper lower)
    then batch_loop n (pos_part (sub_int upper lower) + 2) upper lower (add_int lower max_batch)
    else (lower, upper) ∷ []

-- The jobs of a batch that are scheduled: all of them, or those whose account is hashed to this
-- node.
unfoldable pub own_jobs : Node → List ℕ → List Job → List Job
own_jobs n workers js =
    if n.single_node_mode then js else keep (λ j. target_node workers j.account_id == n.node_id) js

-- The arguments of the calls of `ScheduleJobs`, in order; the first fetch that fails ends the work.
unfoldable pub schedule_batches : Node → List ℕ → List (ℤ × ℤ) → List (List Job)
unfolding own_jobs
schedule_batches n workers [] = []
schedule_batches n workers ((lo, hi) ∷ rs) =
    let rest = schedule_batches n workers rs in
    elim (n.get_jobs lo hi) [
      | none ↦ []
      | some js ↦
          if n.single_node_mode
          then js ∷ rest
          else (elim (own_jobs n workers js) [ [] ↦ rest | j ∷ own ↦ (j ∷ own) ∷ rest ])
    ]

-- What follows once the workers are known; they are not used in single node mode.
unfoldable pub queue_range : Node → List ℕ → List JobQueueLog → List (List Job)
unfolding bounds batches schedule_batches
queue_range n workers logs =
    let b = bounds (max_int64, min_int64) logs in
    if equal_ℤ b.0 max_int64 || equal_ℤ b.1 min_int64
    then []
    else schedule_batches n workers (batches n b.0 b.1)

-- `QueueExecutions`, given the logs read.
unfoldable pub queue_executions : Node → List JobQueueLog → List (List Job)
unfolding queue_range workers_of
queue_executions n [] = []
queue_executions n (l ∷ ls) =
    if n.single_node_mode then queue_range n [] (l ∷ ls) else (elim (workers_of n (l ∷ ls)) [
      | none ↦ []
      | some workers ↦ queue_range n workers (l ∷ ls)
    ])
