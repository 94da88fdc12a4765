-- ===== src/Queue/Bounds.antt =====
-- The bounds that `Queue` keeps between calls.
use scheduler.Prelude.{
  ℕ, ◌<◌, ◌≤◌, ◌≡◌, refl, true, some, List, [], ◌∷◌, arith, All, if◌then◌else◌, ltb,
}
use scheduler.Prelude.Int.{pos, negsuc, max_int64}
use scheduler.Models.{Job}
use scheduler.Queue.{Cluster, JobQueue, widen, queue, enqueue, log_of}

abbrev pub min_of : ℕ → List Job → ℕ
min_of m [] = m
min_of m (j ∷ js) = min_of (if ltb j.id m then j.id else m) js

abbrev pub max_of : ℕ → List Job → ℕ
max_of m [] = m
max_of m (j ∷ js) = max_of (if ltb m j.id then j.id else m) js

-- An id that the database gives: it fits an int64.
abbrev pub InRange : Job → Type 0
InRange j = j.id < 9223372036854775808

widen_bounds :
    (lo hi : ℕ) (q : JobQueue) (js : List Job)
    → All InRange js
    → widen (record q { min_id = pos lo; max_id = pos hi }) js
      ≡ record q { min_id = pos (min_of lo js); max_id = pos (max_of hi js) }
unfolding widen
widen_bounds lo hi q [] r = refl
widen_bounds lo hi q (j ∷ js) r = ground (
  arith,
  widen_bounds (if ltb j.id lo then j.id else lo) (if ltb hi j.id then j.id else hi) q js r.1,
)

-- Between two calls the bounds are those of no job: a later call starts anew.
abbrev pub IsReset : JobQueue → Type 0
IsReset q = (q.min_id ≡ max_int64) × ((n : ℕ) × (q.max_id ≡ negsuc n))

widen_first :
    (q : JobQueue) (j : Job) (js : List Job)
    → IsReset q
    → All InRange (j ∷ js)
    → widen q (j ∷ js) ≡ record q { min_id = pos (min_of j.id js); max_id = pos (max_of j.id js) }
unfolding widen
widen_first q j js s r = ground (arith, widen_bounds j.id j.id q js r.1)

-- `Queue` leaves the bounds reset, whatever they were and whether or not it queued anything.
pub enqueue-IsReset :
    (c : Cluster) (q : JobQueue) (js : List Job) → IsReset q → IsReset (enqueue c q js).0
unfolding enqueue
enqueue-IsReset c q [] s = s
enqueue-IsReset c q (j ∷ js) s = (refl, (32767, refl))

min_of-le : (m : ℕ) (js : List Job) → min_of m js ≤ m
min_of-le m [] = omega arith
min_of-le m (j ∷ js) = ground (arith, min_of-le (if ltb j.id m then j.id else m) js)

le-max_of : (m : ℕ) (js : List Job) → m ≤ max_of m js
le-max_of m [] = omega arith
le-max_of m (j ∷ js) = ground (arith, le-max_of (if ltb m j.id then j.id else m) js)

min_of-All : (m : ℕ) (js : List Job) → All (λ j. min_of m js ≤ j.id) js
min_of-All m [] = tt
min_of-All m (j ∷ js) =
    let n = if ltb j.id m then j.id else m in (ground (arith, min_of-le n js), min_of-All n js)

max_of-All : (m : ℕ) (js : List Job) → All (λ j. j.id ≤ max_of m js) js
max_of-All m [] = tt
max_of-All m (j ∷ js) =
    let n = if ltb m j.id then j.id else m in (ground (arith, le-max_of n js), max_of-All n js)

-- On a leader that runs alone, `Queue` inserts one log: this node, the least and the greatest id
-- of the batch, and the last queue version; every id of the batch lies between the two. The
-- bounds are reset before, the batch is not empty and its ids fit an int64.
pub enqueue_single :
    (c : Cluster) (q : JobQueue) (j : Job) (js : List Job)
    → IsReset q
    → All InRange (j ∷ js)
    → q.node_is_leader ≡ true
    → q.single_node_mode ≡ true
    → ((enqueue c q (j ∷ js)).1
        ≡ some (log_of c.node_id c.last_version (min_of j.id js) (max_of j.id js) ∷ []))
      × All (λ k. min_of j.id js ≤ k.id) (j ∷ js)
      × All (λ k. k.id ≤ max_of j.id js) (j ∷ js)
unfolding enqueue queue
enqueue_single c q j js s r l m = (
  rw (widen_first q j js s r, l, m),
  (min_of-le j.id js, min_of-All j.id js),
  (le-max_of j.id js, max_of-All j.id js),
)
