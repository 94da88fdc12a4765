-- ===== src/ScheduleQueue.antt =====
-- pkg/models/schedule_queue.go: the executor's queue of pending executions, a binary heap kept by
-- Go's container/heap in a slice. `up` and `down` are the loops of that package; their fuel is the
-- index that `up` starts from and the length that `down` works in, and neither runs out.
pub mod Elements
pub mod Order
pub mod Laws
use scheduler.Prelude.{
  ℕ, zero, suc, ◌+◌, ◌-◌, ◌*◌, ◌/◌, Bool, true, false, ◌&&◌, ◌||◌, not, Option, none, some, List,
  [], ◌∷◌, ◌++◌, ltb, leb, ◌==◌, if◌then◌else◌, length, take, keep, get_elem?, set,
}
use scheduler.Models.{JobScheduleKey}

abbrev pub no_key : JobScheduleKey
no_key = record { job_id = 0; execution_time = 0 }

abbrev pub at : List JobScheduleKey → ℕ → JobScheduleKey
at h i = elim (get_elem? h i) [ none ↦ no_key | some k ↦ k ]

abbrev pub less : List JobScheduleKey → ℕ → ℕ → Bool
less h i j = ltb (at h i).execution_time (at h j).execution_time

unfoldable pub swap : List JobScheduleKey → ℕ → ℕ → List JobScheduleKey
swap h i j = set (set h i (at h j)) j (at h i)

unfoldable pub up : ℕ → List JobScheduleKey → ℕ → List JobScheduleKey
up zero h j = h
up (suc fuel) h j =
    let i = (j - 1) / 2 in
    let rest = up fuel (swap h i j) i in if i == j || not (less h j i) then h else rest

-- The lesser child of `i` within the first `n` places.
unfoldable pub lesser_child : List JobScheduleKey → ℕ → ℕ → ℕ
lesser_child h i n = let j = 2 * i + 1 in if ltb (j + 1) n && less h (j + 1) j then j + 1 else j

unfoldable pub down : ℕ → List JobScheduleKey → ℕ → ℕ → List JobScheduleKey
down zero h i n = h
down (suc fuel) h i n =
    let j = lesser_child h i n in
    let rest = down fuel (swap h i j) j n in
    if leb n (2 * i + 1) || not (less h j i) then h else rest

-- `heap.Push` and `heap.Pop`.
unfoldable pub heap_push : List JobScheduleKey → JobScheduleKey → List JobScheduleKey
unfolding up swap
heap_push h k = up (length h) (h ++ k ∷ []) (length h)

unfoldable pub heap_pop : List JobScheduleKey → JobScheduleKey × List JobScheduleKey
unfolding down swap lesser_child
heap_pop h = let n = length h - 1 in let g = down n (swap h 0 n) 0 n in (at g n, take n g)

-- `AddJob`; `none` is its panic on a key with no id or no time.
unfoldable pub add_job : List JobScheduleKey → JobScheduleKey → Option (List JobScheduleKey)
unfolding heap_push
add_job q k = if k.job_id == 0 || k.execution_time == 0 then none else some (heap_push q k)

unfoldable pub peek : List JobScheduleKey → JobScheduleKey
peek [] = no_key
peek (k ∷ q) = k

unfoldable pub pop : List JobScheduleKey → JobScheduleKey × List JobScheduleKey
unfolding heap_pop
pop [] = (no_key, [])
pop (k ∷ q) = heap_pop (k ∷ q)

-- `RemoveJob`: everything is popped, and what has another id is pushed to a new heap.
unfoldable pub remove_loop : ℕ → ℕ → List JobScheduleKey → List JobScheduleKey → List JobScheduleKey
unfolding heap_pop heap_push
remove_loop zero id q kept = kept
remove_loop (suc fuel) id [] kept = kept
remove_loop (suc fuel) id (k ∷ q) kept =
    let (j, rest) = heap_pop (k ∷ q) in
    remove_loop fuel id rest (if j.job_id == id then kept else heap_push kept j)

unfoldable pub remove_job : List JobScheduleKey → JobScheduleKey → List JobScheduleKey
unfolding remove_loop
remove_job q k = remove_loop (length q) k.job_id q []

unfoldable pub clear : List JobScheduleKey → List JobScheduleKey
clear q = []

unfoldable pub init_loop : ℕ → List JobScheduleKey → List JobScheduleKey
unfolding down swap lesser_child
init_loop zero h = h
init_loop (suc i) h = init_loop i (down (length h) h i (length h))

-- `heap.Init`.
unfoldable pub heap_init : List JobScheduleKey → List JobScheduleKey
unfolding init_loop
heap_init h = init_loop (length h / 2) h

unfoldable pub drain : ℕ → List JobScheduleKey → List JobScheduleKey
unfolding heap_pop
drain zero q = []
drain (suc fuel) [] = []
drain (suc fuel) (k ∷ q) = let (j, rest) = heap_pop (k ∷ q) in j ∷ drain fuel rest

-- `GetAllItems`: a copy is made a heap and popped until it is empty.
unfoldable pub get_all_items : List JobScheduleKey → List JobScheduleKey
unfolding heap_init drain
get_all_items q = drain (length q) (heap_init q)
