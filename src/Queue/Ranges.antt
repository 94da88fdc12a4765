-- ===== src/Queue/Ranges.antt =====
-- The ranges of one account hold its ids and no other (the range loop of queue.go).
use scheduler.Prelude.{
  ℕ, ◌≤◌, ◌≡◌, Bool, ◌&&◌, ◌||◌, List, [], ◌∷◌, arith, leb, ◌==◌, any, contains,
}
use scheduler.Prelude.Sort.{SortedFrom, IsSorted}
use scheduler.Models.{JobQueueLog}
use scheduler.Queue.{range_loop, ranges}

-- Whether some log gives job id `x` to node `n`.
abbrev pub covered : ℕ → ℕ → List JobQueueLog → Bool
covered n x =
    any (λ l. (l.node_id == n) && (leb l.lower_bound_job_id x && leb x l.upper_bound_job_id))

covered-range_loop :
    (node version n x lo hi : ℕ) (xs : List ℕ)
    → lo ≤ hi
    → SortedFrom hi xs
    → covered n x (range_loop node version lo hi xs)
      ≡ (node == n) && ((leb lo x && leb x hi) || contains x xs)
unfolding range_loop
covered-range_loop node version n x lo hi [] h s = ground arith
covered-range_loop node version n x lo hi (y ∷ ys) h s =
    ground (
      arith,
      covered-range_loop node version n x y y ys,
      covered-range_loop node version n x lo y ys,
    )

pub covered-ranges :
    (node version n x : ℕ) (xs : List ℕ)
    → IsSorted xs
    → covered n x (ranges node version xs) ≡ (node == n) && contains x xs
unfolding ranges
covered-ranges node version n x [] s = ground arith
covered-ranges node version n x (y ∷ ys) s =
    ground (arith, covered-range_loop node version n x y y ys)
