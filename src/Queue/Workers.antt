-- ===== src/Queue/Workers.antt =====
-- The worker nodes and the node that an account is hashed to.
use scheduler.Prelude.{
  ℕ, ◌<◌, ◌%◌, suc, zero, ◌≡◌, Bool, true, some, List, [], ◌∷◌, arith, ◌==◌, length, get_elem?,
  get_elem?-lt, keep, contains, Bool-cases, inl, inr,
}
use scheduler.Queue.{target_node, worker_nodes}

contains-get_elem? : (xs : List ℕ) (i : ℕ) {a : ℕ} → get_elem? xs i ≡ some a → contains a xs ≡ true
contains-get_elem? [] i h = cc
contains-get_elem? (x ∷ xs) zero h = ground arith
contains-get_elem? (x ∷ xs) (suc i) h = ground (arith, contains-get_elem? xs i h)

-- The node of an account is one of the workers.
pub target_node-contains :
    (workers : List ℕ) (account : ℕ)
    → 0 < length workers
    → contains (target_node workers account) workers ≡ true
unfolding target_node
target_node-contains workers account h =
    let (a, e) = get_elem?-lt workers (account % length workers) (grind arith) in
    rw e (contains-get_elem? workers (account % length workers) e)

contains-keep : (p : ℕ → Bool) (x : ℕ) (xs : List ℕ) → contains x (keep p xs) ≡ true → p x ≡ true
contains-keep p x [] h = cc
contains-keep p x (y ∷ ys) h = elim (Bool-cases (p y)) [
  | inl e ↦ elim (Bool-cases (y == x)) [
    | inl f ↦ ground arith
    | inr f ↦ contains-keep p x ys (ground arith)
  ]
  | inr e ↦ contains-keep p x ys (ground arith)
]

pub worker_nodes-nonempty :
    (node leader : ℕ) (peers : List ℕ) → 0 < length (worker_nodes node leader peers)
unfolding worker_nodes
worker_nodes-nonempty node leader peers = ground arith
