-- ===== src/Executor/Batches/Nodes.antt =====
-- Which node schedules which job of the logs that the nodes read.
use scheduler.Prelude.{
  ℕ, suc, ◌+◌, ◌%◌, ◌≤◌, ◌<◌, ◌≡◌, ◌≢◌, refl, ◌∙◌, ap, Bool, false, ◌&&◌, ◌||◌, some, List, [], ◌∷◌,
  arith, leb, ◌==◌, length, keep, count, All,
}
use scheduler.Prelude.Int.{ℤ, pos, max_int64, min_int64}
use scheduler.Prelude.Sort.{sort}
use scheduler.Models.{Job, JobQueueLog}
use scheduler.Queue.{target_node}
use scheduler.Executor.Batches.{
  Node, own_jobs, schedule_batches, queue_range, queue_executions, workers_of, bounds, node_ids,
  leader_of,
}
use scheduler.Executor.Batches.Tiles.{Tiles, IsExact, last, more, batches-Tiles}

abbrev pub in_range : ℕ → ℕ → Job → Bool
in_range lo hi j = leb lo j.id && leb j.id hi

-- The documented behaviour of the job repository: a range of ids gives the jobs of that range.
abbrev pub HasStore : Node → List Job → Type 0
HasStore n jobs = (lo hi : ℕ) → n.get_jobs (pos lo) (pos hi) ≡ some (keep (in_range lo hi) jobs)

-- How often a job that passes a test is scheduled.
abbrev pub count_calls : (Job → Bool) → List (List Job) → ℕ
count_calls p [] = 0
count_calls p (js ∷ calls) = count p js + count_calls p calls

abbrev pub is_own : Node → List ℕ → Job → Bool
is_own n workers j = n.single_node_mode || target_node workers j.account_id == n.node_id

module _ (n : Node) (workers : List ℕ) (p : Job → Bool) where
  count-own_jobs :
      (lo hi : ℕ) (js : List Job)
      → count p (own_jobs n workers (keep (in_range lo hi) js))
        ≡ count (λ j. in_range lo hi j && is_own n workers j && p j) js
  unfolding own_jobs
  count-own_jobs lo hi [] = ground arith
  count-own_jobs lo hi (j ∷ js) = ground (arith, count-own_jobs lo hi js)

  count-split :
      (lo m hi : ℕ) (js : List Job)
      → lo ≤ m
      → m < hi
      → count (λ j. in_range lo m j && is_own n workers j && p j) js
          + count (λ j. in_range (suc m) hi j && is_own n workers j && p j) js
        ≡ count (λ j. in_range lo hi j && is_own n workers j && p j) js
  count-split lo m hi [] a b = refl
  count-split lo m hi (j ∷ js) a b = ground (arith, count-split lo m hi js a b)

  schedule_batches-some :
      (lo hi : ℤ) (rs : List (ℤ × ℤ)) (js : List Job)
      → n.get_jobs lo hi ≡ some js
      → count_calls p (schedule_batches n workers ((lo, hi) ∷ rs))
        ≡ count p (own_jobs n workers js) + count_calls p (schedule_batches n workers rs)
  unfolding schedule_batches own_jobs
  schedule_batches-some lo hi rs js e = ground arith

  count-schedule_batches :
      (jobs : List Job)
      → HasStore n jobs
      → {hi lo : ℕ} {rs : List (ℤ × ℤ)} → Tiles hi lo rs
      → count_calls p (schedule_batches n workers rs)
        ≡ count (λ j. in_range lo hi j && is_own n workers j && p j) jobs
  unfolding schedule_batches
  count-schedule_batches jobs store {hi} {lo} (last a b) = omega (
    arith,
    schedule_batches-some (pos lo) (pos hi) [] (keep (in_range lo hi) jobs) (store lo hi),
    count-own_jobs lo hi jobs,
  )
  count-schedule_batches jobs store {hi} {lo} (more {m = m} {rs = rs} a b c t) = omega (
    arith,
    schedule_batches-some (pos lo) (pos m) rs (keep (in_range lo m) jobs) (store lo m),
    count-own_jobs lo m jobs,
    count-schedule_batches jobs store t,
    count-split lo m hi jobs a c,
  )

  count_alone :
      (lo hi : ℕ) (js : List Job)
      → n.single_node_mode ≡ false
      → count (λ j. in_range lo hi j && is_own n workers j && p j) js
        ≡ count (λ j. in_range lo hi j && target_node workers j.account_id == n.node_id && p j) js
  count_alone lo hi [] mode = refl
  count_alone lo hi (j ∷ js) mode = ground (arith, count_alone lo hi js mode)

  count-queue_range :
      (logs : List JobQueueLog) (lower upper : ℕ) (jobs : List Job)
      → bounds (max_int64, min_int64) logs ≡ (pos lower, pos upper)
      → lower ≤ upper
      → upper ≤ 9007199254700000
      → IsExact n.float_min
      → HasStore n jobs
      → count_calls p (queue_range n workers logs)
        ≡ count (λ j. in_range lower upper j && is_own n workers j && p j) jobs
  unfolding queue_range
  count-queue_range logs lower upper jobs b l u exact store =
      rw b
        (ground (arith, count-schedule_batches jobs store (batches-Tiles n lower upper exact l u)))

  queue_executions_workers :
      (logs : List JobQueueLog)
      → n.single_node_mode ≡ false
      → 0 < length logs
      → workers_of n logs ≡ some workers
      → queue_executions n logs ≡ queue_range n workers logs
  unfolding queue_executions
  queue_executions_workers [] mode l w = elim l [ ]
  queue_executions_workers (x ∷ logs) mode l w = ground arith

-- In a cluster, with the range of ids of the logs in order and within the integers that a float64
-- holds, and fetches that answer from the store: a node schedules each job of the store as often
-- as it stands there if its id is in the range and its account is hashed to the node, and no other
-- job, whatever the number of batches.
pub count-queue_executions :
    (n : Node) (logs : List JobQueueLog) (workers : List ℕ) (lower upper : ℕ) (jobs : List Job)
    (p : Job → Bool)
    → n.single_node_mode ≡ false
    → 0 < length logs
    → workers_of n logs ≡ some workers
    → bounds (max_int64, min_int64) logs ≡ (pos lower, pos upper)
    → lower ≤ upper
    → upper ≤ 9007199254700000
    → IsExact n.float_min
    → HasStore n jobs
    → count_calls p (queue_executions n logs)
      ≡ count
          (λ j. in_range lower upper j && target_node workers j.account_id == n.node_id && p j)
          jobs
count-queue_executions n logs workers lower upper jobs p mode o w b l u exact store =
    ap (count_calls p) (queue_executions_workers n workers p logs mode o w)
    ∙ count-queue_range n workers p logs lower upper jobs b l u exact store
    ∙ count_alone n workers p lower upper jobs mode

node_ids_one :
    (w : ℕ) (ls : List JobQueueLog) → All (λ l. l.node_id ≡ w) ls → node_ids (w ∷ []) ls ≡ w ∷ []
unfolding node_ids
node_ids_one w [] a = refl
node_ids_one w (l ∷ ls) (e, a) = ground (arith, node_ids_one w ls a)

sort_one : (w : ℕ) → sort (w ∷ []) ≡ w ∷ []
unfolding sort
sort_one w = refl

mod_one : (a : ℕ) → a % 1 ≡ 0
mod_one a = omega arith

-- Where all logs read name one worker `w`, the list of workers that a node computes from them is
-- `w` alone, so that every account is hashed to `w`, also those that the leader, which hashes
-- among all peers, gives to others.
pub workers_of_one :
    (n : Node) (l : JobQueueLog) (ls : List JobQueueLog) (w account : ℕ)
    → All (λ k. k.node_id ≡ w) (l ∷ ls)
    → w ≢ leader_of n
    → (workers_of n (l ∷ ls) ≡ some (w ∷ [])) × (target_node (w ∷ []) account ≡ w)
unfolding workers_of node_ids target_node
workers_of_one n l ls w account (e, a) ne =
    (ground (arith, node_ids_one w ls a, sort_one w), rw (mod_one account) refl)
