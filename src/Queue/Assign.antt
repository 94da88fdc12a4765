-- ===== src/Queue/Assign.antt =====
-- What `assignJobsByAccountToServers` promises: a job id is given to a node exactly when a job of
-- that id belongs to an account that is hashed to that node.
use scheduler.Prelude.{
  ℕ, ◌≡◌, refl, ◌∙◌, Bool, true, false, ◌&&◌, some, List, [], ◌∷◌, map, arith, leb, ◌==◌, any,
  any-append, contains,
}
use scheduler.Prelude.Sort.{sort, sort-IsSorted, contains-sort}
use scheduler.Models.{Job, JobQueueLog}
use scheduler.Queue.{
  Cluster, ranges, account_logs, node_logs, group_by_account, group_by_node, target_node,
  worker_nodes, leader_node_id, assign_jobs_by_account_to_servers,
}
use scheduler.Queue.Ranges.{covered, covered-ranges}
use scheduler.Queue.Grouping.{
  NodeMap, any_group, any_node, any_group-group_by_account, group_by_account-IsDistinct,
  any_node-group_by_node_empty,
}

contains-ids : (x : ℕ) (js : List Job) → contains x (map (λ j. j.id) js) ≡ any (λ j. j.id == x) js
contains-ids x [] = refl
contains-ids x (j ∷ js) = ground (arith, contains-ids x js)

covered-account_logs :
    (node version n x : ℕ) (groups : List (ℕ × List Job))
    → covered n x (account_logs node version groups)
      ≡ any (λ g. (node == n) && any (λ j. j.id == x) g.1) groups
unfolding account_logs
covered-account_logs node version n x [] = refl
covered-account_logs node version n x ((a, js) ∷ groups) =
    let ids = sort (map (λ j. j.id) js) in
    ground (
      arith,
      any-append
          (λ (l : JobQueueLog).
            (l.node_id == n) && (leb l.lower_bound_job_id x && leb x l.upper_bound_job_id))
          (ranges node version ids) (account_logs node version groups),
      covered-ranges node version n x ids (sort-IsSorted (map (λ j. j.id) js)),
      contains-sort x (map (λ j. j.id) js),
      contains-ids x js,
      covered-account_logs node version n x groups,
    )

any-false {ℓ} : {A : Type ℓ} (xs : List A) → any (λ x. false) xs ≡ false
any-false [] = refl
any-false (x ∷ xs) = any-false xs

any-and {ℓ} :
    {A : Type ℓ} (b : Bool) (p : A → Bool) (xs : List A) → any (λ x. b && p x) xs ≡ b && any p xs
any-and true p xs = refl
any-and false p xs = any-false xs

covered-node_logs :
    (version n x : ℕ) (m : NodeMap)
    → covered n x (node_logs version m) ≡ any_node (λ k a js. (k == n) && any (λ j. j.id == x) js) m
unfolding node_logs
covered-node_logs version n x [] = refl
covered-node_logs version n x ((k, groups) ∷ m) = ground (
  arith,
  any-append
      (λ (l : JobQueueLog).
        (l.node_id == n) && (leb l.lower_bound_job_id x && leb x l.upper_bound_job_id))
      (account_logs k version groups) (node_logs version m),
  covered-account_logs k version n x groups,
  covered-node_logs version n x m,
)

-- Job `j` has the id and its account is hashed to the node.
abbrev pub assigned : List ℕ → ℕ → ℕ → Job → Bool
assigned workers n x j = (target_node workers j.account_id == n) && (j.id == x)

any_group-and :
    (w : ℕ → Bool) (x : ℕ) (groups : List (ℕ × List Job))
    → any (λ g. w g.0 && any (λ j. j.id == x) g.1) groups
      ≡ any_group (λ a j. w a && (j.id == x)) groups
any_group-and w x [] = refl
any_group-and w x ((a, js) ∷ groups) =
    ground (arith, any-and (w a) (λ (j : Job). j.id == x) js, any_group-and w x groups)

-- The jobs of the workers that the leader sees.
abbrev pub workers_of : Cluster → List ℕ → List ℕ
workers_of c peers = sort (worker_nodes c.node_id (leader_node_id c) peers)

-- With the peers known, a log of node `n` covers job id `x` exactly when some job of the batch has
-- that id and an account that is hashed to `n` among the sorted workers: no job is lost, and no
-- range takes in the job of another account.
pub covered-assign :
    (c : Cluster) (jobs : List Job) (version n x : ℕ) (peers : List ℕ)
    → c.peers ≡ some peers
    → covered n x (assign_jobs_by_account_to_servers c jobs version)
      ≡ any (assigned (workers_of c peers) n x) jobs
unfolding assign_jobs_by_account_to_servers
covered-assign c jobs version n x peers e =
    let ws = workers_of c peers in
    simp (e, assign_jobs_by_account_to_servers)
      (covered-node_logs version n x (group_by_node ws [] (group_by_account [] jobs))
        ∙ any_node-group_by_node_empty (λ k a js. (k == n) && any (λ j. j.id == x) js) ws
            (group_by_account [] jobs) (group_by_account-IsDistinct [] jobs tt)
        ∙ any_group-and (λ a. target_node ws a == n) x (group_by_account [] jobs)
        ∙ any_group-group_by_account (λ a j. (target_node ws a == n) && (j.id == x)) [] jobs)
