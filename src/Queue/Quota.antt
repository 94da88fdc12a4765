-- ===== src/Queue/Quota.antt =====
-- `AllocateQuotasForJobQueue` of pkg/service/queue/queue.go, over the rows of
-- pkg/repository/account_job_executions_count: the leader settles what each account has left and
-- hands a tenth of it to the account's node. Which calls of the repositories fail is a parameter.
pub mod Laws
pub mod Mapping
pub mod Run
use scheduler.Prelude.{
  ℕ, ◌+◌, ◌-◌, ◌/◌, Bool, true, false, ◌&&◌, not, Option, none, some, List, [], ◌∷◌, ◌++◌, ltb,
  ◌==◌, if◌then◌else◌, any, keep, contains, lookup, insert,
}
use scheduler.Queue.{get_or, Cluster, worker_nodes, leader_node_id, target_node}

-- A feature of an account; the loop looks for one only.
pub data Feature : Type 0 where
  increased_number_of_job_executions other_feature : Feature

abbrev is_increased : Feature → Bool
is_increased increased_number_of_job_executions = true
is_increased other_feature = false

-- The calls of the repositories, each for an account.
pub data Call : Type 0 where
  refill inactivate create reset read update : ℕ → Call

pub record QuotaState : Type 0 where
  pub counts : List (ℕ × ℕ)
  pub inactive : List ℕ
  pub by_node : List (ℕ × List (ℕ × ℕ))

-- `err` is the error that the whole call returns, with what it has written by then.
pub data Outcome {ℓ} (A : Type ℓ) : Type ℓ where
  ok : A → Outcome A
  err : A → Outcome A

-- Constants of pkg/constants/constants.go.
abbrev pub default_executions_10_k : ℕ
default_executions_10_k = 1000

abbrev pub default_executions_100_k : ℕ
default_executions_100_k = 100000

unfoldable pub execution_limit : List Feature → ℕ
execution_limit features =
    if any is_increased features then default_executions_100_k else default_executions_10_k

-- What is left of the count, or of the limit where the account has no row, after the usage.
unfoldable pub reconcile : ℕ → ℕ → Option ℕ → ℕ
reconcile limit usage current =
    let left = get_or current limit in if ltb left usage then 0 else left - usage

-- An `UPDATE … WHERE account_id = ?` writes the row if there is one.
unfoldable pub write_row : ℕ → ℕ → List (ℕ × ℕ) → List (ℕ × ℕ)
write_row a v m = elim (lookup a m) [ none ↦ m | some w ↦ insert a v m ]

-- A tenth of what is left, at least one if there is any.
unfoldable pub share : ℕ → ℕ
share r =
    let tenth = r / 10 in
    let positive = if tenth == 0 && ltb 0 r then 1 else tenth in
    if ltb r positive then r else positive

-- An account with nothing left: the system account starts over, another is made inactive.
unfoldable pub on_exhausted : (Call → Bool) → ℕ → ℕ → QuotaState → Outcome (ℕ × QuotaState)
unfolding write_row
on_exhausted fails a r s =
    if r == 0 && a == 1
    then (if fails (refill a)
        then err (default_executions_100_k, s)
        else ok (
          default_executions_100_k,
          record s { counts = write_row a default_executions_100_k s.counts },
        ))
    else ok (
      r,
      (if r == 0 && not (a == 1) && not (fails (inactivate a))
          then record s { inactive = a ∷ s.inactive }
          else s),
    )

-- The row is created or rewritten with what is left.
unfoldable pub store_remaining : (Call → Bool) → Option ℕ → ℕ → ℕ → QuotaState → Outcome QuotaState
unfolding write_row
store_remaining fails none a r s =
    if fails (create a) then err s else ok (record s { counts = insert a r s.counts })
store_remaining fails (some c) a r s =
    if fails (reset a) then err s else ok (record s { counts = write_row a r s.counts })

-- The share goes to the node first; the count is lowered by it where the two calls succeed.
unfoldable pub hand_out : (Call → Bool) → ℕ → ℕ → ℕ → QuotaState → QuotaState
unfolding share write_row
hand_out fails node a r s =
    let given = share r in
    let t = record s {
      by_node = insert node (insert a given (get_or (lookup node s.by_node) [])) s.by_node;
    } in
    let left = get_or (lookup a s.counts) 0 in
    let taken = if ltb left given then left else given in
    if ltb 0 r
    then (if ltb 0 given && not (fails (read a)) && ltb 0 taken && not (fails (update a))
        then record t { counts = write_row a (left - taken) s.counts }
        else t)
    else s

-- What the loop reads beside the rows: the rows as they were before it, features, usage, nodes.
pub record Snapshot : Type 0 where
  pub current_counts : List (ℕ × ℕ)
  pub features : List (ℕ × List Feature)
  pub usage : List (ℕ × ℕ)
  pub workers : List ℕ

unfoldable pub allocate_account : (Call → Bool) → Snapshot → ℕ → QuotaState → Outcome QuotaState
allocate_account fails v a s =
    let limit = execution_limit (get_or (lookup a v.features) []) in
    let current = lookup a v.current_counts in
    let r = reconcile limit (get_or (lookup a v.usage) 0) current in
    elim (on_exhausted fails a r s) [
      | err (q, t) ↦ err t
      | ok (q, t) ↦ elim (store_remaining fails current a q t) [
        | err u ↦ err u
        | ok u ↦ ok (hand_out fails (target_node v.workers a) a q u)
      ]
    ]

-- The loop over the accounts stops at the first error.
unfoldable pub allocate_accounts :
    (Call → Bool) → Snapshot → List ℕ → QuotaState → Outcome QuotaState
allocate_accounts fails v [] s = ok s
allocate_accounts fails v (a ∷ rest) s = elim (allocate_account fails v a s) [
  | err t ↦ err t
  | ok t ↦ allocate_accounts fails v rest t
]

-- What the call reads before the loop; `none` is an error, and a date of 0 the zero time.
pub record Readings : Type 0 where
  pub account_ids : Option (List ℕ)
  pub queue_date : Option ℕ
  pub account_features : Option (List (ℕ × List Feature))
  pub execution_usage : Option (List (ℕ × ℕ))
  pub execution_counts : Option (List (ℕ × ℕ))

-- `failed` returns an error, `finished` none, with what was sent to which peer.
pub data Report : Type 0 where
  failed : QuotaState → Report
  finished : QuotaState → List (ℕ × List (ℕ × ℕ)) → Report

-- The allocations of the nodes that are among the peers.
unfoldable pub sends : List ℕ → List (ℕ × List (ℕ × ℕ)) → List (ℕ × List (ℕ × ℕ))
sends peers by_node = keep (λ g. contains g.0 peers) by_node

unfoldable pub run_allocation :
    (Call → Bool)
    → Cluster
    → List ℕ
    → List ℕ
    → Readings
    → List (ℕ × List Feature)
    → List (ℕ × ℕ)
    → QuotaState
    → Report
run_allocation fails c peers accounts i features usage s = elim i.execution_counts [
  | none ↦ failed s
  | some counts ↦
      elim (allocate_accounts fails
        (record {
          current_counts = counts;
          features = features;
          usage = usage;
          workers = worker_nodes c.node_id (leader_node_id c) peers;
        })
        accounts (record s { by_node = [] })) [
          | err t ↦ failed t
          | ok t ↦ finished t (sends peers t.by_node)
        ]
]

-- `AllocateQuotasForJobQueue`, with a sender and etcd in place.
unfoldable pub allocate_quotas_for_job_queue :
    (Call → Bool) → Cluster → Readings → QuotaState → Report
unfolding run_allocation
allocate_quotas_for_job_queue fails c i s = elim i.account_ids [
  | none ↦ failed s
  | some [] ↦ finished s []
  | some (a ∷ rest) ↦ elim c.peers [
    | none ↦ failed s
    | some peers ↦ elim i.queue_date [
      | none ↦ failed s
      | some date ↦ elim i.account_features [
        | none ↦ failed s
        | some features ↦
            if date == 0
            then run_allocation fails c peers (a ∷ rest) i features [] s
            else (elim i.execution_usage [
              | none ↦ failed s
              | some usage ↦ run_allocation fails c peers (a ∷ rest) i features usage s
            ])
      ]
    ]
  ]
]
