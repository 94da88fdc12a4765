-- ===== src/ScheduleQueue/Laws.antt =====
-- The operations of the queue on a heap: what each returns, keeps and leaves.
use scheduler.Prelude.{
  ℕ, zero, suc, ◌+◌, ◌/◌, ◌<◌, ◌≤◌, ◌≡◌, refl, ◌∙◌, ap, Bool, true, false, ◌&&◌, not, some, List,
  [], ◌∷◌, arith, ltb, ◌==◌, if◌then◌else◌, length,
}
use scheduler.Models.{JobScheduleKey}
use scheduler.ScheduleQueue.{
  heap_push, heap_pop, add_job, pop, peek, remove_loop, remove_job, init_loop, heap_init, drain,
  get_all_items,
}
use scheduler.ScheduleQueue.Elements.{count_if, one, count_if-heap_push, count_if-heap_pop}
use scheduler.ScheduleQueue.Order.{
  IsHeap, time, heap_push-IsHeap, heap_pop-IsHeap, IsHeap-least, down_heap,
}

abbrev pub IsQueue : List JobScheduleKey → Type 0
IsQueue q = IsHeap q (length q)

-- Keys due before a time.
abbrev pub due_before : ℕ → JobScheduleKey → Bool
due_before t k = ltb k.execution_time t

none_before :
    (t : ℕ) (h : List JobScheduleKey)
    → ((k : ℕ) → k < length h → t ≤ time h k)
    → count_if (due_before t) h ≡ 0
none_before t [] all = refl
none_before t (x ∷ h) all =
    ground (arith, all 0 (omega arith), none_before t h (λ k l. all (suc k) (omega arith)))

-- A key with an id and a time is added: the queue stays a heap and holds that key and all others.
pub add_job-IsQueue :
    (q : List JobScheduleKey) (k : JobScheduleKey) (p : JobScheduleKey → Bool)
    → IsQueue q
    → 0 < k.job_id
    → 0 < k.execution_time
    → (add_job q k ≡ some (heap_push q k))
      × IsQueue (heap_push q k)
      × (count_if p (heap_push q k) ≡ count_if p q + one p k)
unfolding add_job
add_job-IsQueue q k p v i t = (ground arith, heap_push-IsHeap q k v, count_if-heap_push p q k)

-- `Pop` on a queue that is not empty returns what `Peek` showed, a key that no other is due
-- before; the rest is a heap and holds every other key.
pub pop-IsQueue :
    (q : List JobScheduleKey) (p : JobScheduleKey → Bool)
    → IsQueue q
    → 0 < length q
    → ((pop q).0 ≡ peek q)
      × (count_if (due_before (pop q).0.execution_time) q ≡ 0)
      × IsQueue (pop q).1
      × (count_if p (pop q).1 + one p (pop q).0 ≡ count_if p q)
unfolding pop peek
pop-IsQueue [] p v l = elim l [ ]
pop-IsQueue (x ∷ q) p v l =
    let h = x ∷ q in
    let (first, short, rest) = heap_pop-IsHeap h l v in
    (
      first,
      ap (λ (j : JobScheduleKey). count_if (due_before j.execution_time) h) first
          ∙ none_before x.execution_time h (λ k b. IsHeap-least h (length h) k v b),
      rest,
      count_if-heap_pop p h l,
    )

abbrev differs : (JobScheduleKey → Bool) → ℕ → JobScheduleKey → Bool
differs p id k = p k && not (k.job_id == id)

remove_loop-IsQueue :
    (p : JobScheduleKey → Bool) (id fuel : ℕ) (q kept : List JobScheduleKey)
    → length q ≤ fuel
    → IsQueue q
    → IsQueue kept
    → IsQueue (remove_loop fuel id q kept)
      × (count_if p (remove_loop fuel id q kept) ≡ count_if p kept + count_if (differs p id) q)
unfolding remove_loop
remove_loop-IsQueue p id zero [] kept f v w = (w, omega arith)
remove_loop-IsQueue p id zero (x ∷ q) kept f v w = absurd (omega arith)
remove_loop-IsQueue p id (suc fuel) [] kept f v w = (w, omega arith)
remove_loop-IsQueue p id (suc fuel) (x ∷ q) kept f v w =
    let h = x ∷ q in
    let (first, short, rest) = heap_pop-IsHeap h (omega arith) v in
    let j = (heap_pop h).0 in
    let next = if j.job_id == id then kept else heap_push kept j in
    let (queue, counted) =
      remove_loop-IsQueue p id fuel (heap_pop h).1 next (omega arith) rest
        (next-IsQueue (j.job_id == id) j) in
    (
      queue,
      ground (
        arith,
        counted,
        count_if-heap_pop (differs p id) h (omega arith),
        count_if-heap_push p kept j,
      ),
    )
  where
    next-IsQueue : (b : Bool) (j : JobScheduleKey) → IsQueue (if b then kept else heap_push kept j)
    next-IsQueue true j = w
    next-IsQueue false j = heap_push-IsHeap kept j w

-- `RemoveJob` takes away every key of the job's id and no other, and leaves a heap.
pub remove_job-IsQueue :
    (q : List JobScheduleKey) (k : JobScheduleKey) (p : JobScheduleKey → Bool)
    → IsQueue q
    → IsQueue (remove_job q k)
      × (count_if p (remove_job q k) ≡ count_if (λ j. p j && not (j.job_id == k.job_id)) q)
unfolding remove_job
remove_job-IsQueue q k p v =
    let (queue, counted) =
      remove_loop-IsQueue p k.job_id (length q) q [] (omega arith) v
        (λ i a b. absurd (omega arith)) in
    (queue, omega (arith, counted))

init_loop_heap : (i : ℕ) (h : List JobScheduleKey) → IsQueue h → init_loop i h ≡ h
unfolding init_loop
init_loop_heap zero h v = refl
init_loop_heap (suc i) h v = rw (down_heap (length h) h i (length h) v) (init_loop_heap i h v)

abbrev pub RisesFrom : ℕ → List JobScheduleKey → Type 0
RisesFrom t [] = Unit {0}
RisesFrom t (k ∷ q) = (t ≤ k.execution_time) × RisesFrom k.execution_time q

drain-RisesFrom :
    (p : JobScheduleKey → Bool) (t fuel : ℕ) (q : List JobScheduleKey)
    → length q ≤ fuel
    → IsQueue q
    → count_if (due_before t) q ≡ 0
    → RisesFrom t (drain fuel q) × (count_if p (drain fuel q) ≡ count_if p q)
unfolding drain
drain-RisesFrom p t zero [] f v b = (tt, refl)
drain-RisesFrom p t zero (x ∷ q) f v b = absurd (omega arith)
drain-RisesFrom p t (suc fuel) [] f v b = (tt, refl)
drain-RisesFrom p t (suc fuel) (x ∷ q) f v b =
    let h = x ∷ q in
    let (first, short, rest) = heap_pop-IsHeap h (omega arith) v in
    let j = (heap_pop h).0 in
    let least =
      none_before j.execution_time h (λ k l. rw first (IsHeap-least h (length h) k v l)) in
    let (rises, counted) =
      drain-RisesFrom p j.execution_time fuel (heap_pop h).1 (omega arith) rest
        (omega (arith, least, count_if-heap_pop (due_before j.execution_time) h (omega arith))) in
    ((ground (arith, first), rises), omega (arith, counted, count_if-heap_pop p h (omega arith)))

-- `GetAllItems` lists the keys of the queue, each as often as it stands there, in the order in
-- which they are due.
pub get_all_items-RisesFrom :
    (q : List JobScheduleKey) (p : JobScheduleKey → Bool)
    → IsQueue q
    → RisesFrom 0 (get_all_items q) × (count_if p (get_all_items q) ≡ count_if p q)
unfolding get_all_items heap_init
get_all_items-RisesFrom q p v =
    rw (init_loop_heap (length q / 2) q v)
      (drain-RisesFrom p 0 (length q) q (omega arith) v (none_before 0 q (λ k l. omega arith)))
