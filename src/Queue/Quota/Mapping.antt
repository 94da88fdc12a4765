-- ===== src/Queue/Quota/Mapping.antt =====
-- The node that gets an account's quota and the node that runs its jobs. The allocation hashes
-- into the worker nodes as etcd lists them; the assignment of jobs sorts them first.
use native.Mathlib.Nat.{mod-eq_of_lt}
use scheduler.Prelude.{ℕ, ◌<◌, ◌≡◌, ◌≢◌, some, List, ap, sym, ◌∙◌, length, get_elem?, get_elem?-lt}
use scheduler.Prelude.Sort.{sort, sort_sorted, length-sort, IsSorted}
use scheduler.Queue.{target_node}

-- With the workers listed in rising order the quota of every account goes to the node that runs
-- its jobs.
pub quota_node_agrees :
    (workers : List ℕ) (account : ℕ)
    → IsSorted workers
    → target_node workers account ≡ target_node (sort workers) account
quota_node_agrees workers account s = rw (sort_sorted workers s)

target_node_small :
    (ws : List ℕ) (i a : ℕ) → i < length ws → get_elem? ws i ≡ some a → target_node ws i ≡ a
unfolding target_node
target_node_small ws i a h e = rw (mod-eq_of_lt h, e)

-- Where some worker is not in its sorted place, the account with the number of that place has
-- its quota at one node and its jobs at another.
pub quota_node_differs :
    (workers : List ℕ) (i : ℕ)
    → i < length workers
    → get_elem? workers i ≢ get_elem? (sort workers) i
    → target_node workers i ≢ target_node (sort workers) i
quota_node_differs workers i h ne same =
    let (a, ea) = get_elem?-lt workers i h in
    let inside : i < length (sort workers) = rw (length-sort workers) h in
    let (b, eb) = get_elem?-lt (sort workers) i inside in
    ne (
      ea
      ∙ ap some (
          sym (target_node_small workers i a h ea)
          ∙ same
          ∙ target_node_small (sort workers) i b inside eb)
      ∙ sym eb)
