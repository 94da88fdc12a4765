-- ===== src/ScheduleQueue/Elements.antt =====
-- No operation of the heap loses a key or makes one up: only `AddJob` adds and `Pop` takes.
use scheduler.Prelude.{
  ℕ, zero, suc, ◌+◌, ◌-◌, ◌<◌, ◌≤◌, ◌≡◌, refl, ap, ◌∙◌, ◌/◌, ◌*◌, take, length-append, Bool, List,
  [], ◌∷◌, ◌++◌, arith, ◌==◌, length, set, if◌then◌else◌,
}
use scheduler.Models.{JobScheduleKey}
use scheduler.ScheduleQueue.{at, swap, up, down, lesser_child, heap_push, heap_pop}

-- How many keys pass a test.
abbrev pub count_if : (JobScheduleKey → Bool) → List JobScheduleKey → ℕ
count_if p [] = 0
count_if p (k ∷ q) = (if p k then 1 else 0) + count_if p q

abbrev pub one : (JobScheduleKey → Bool) → JobScheduleKey → ℕ
one p k = if p k then 1 else 0

count_if-set :
    (p : JobScheduleKey → Bool) (h : List JobScheduleKey) (i : ℕ) (k : JobScheduleKey)
    → i < length h
    → count_if p (set h i k) + one p (at h i) ≡ count_if p h + one p k
count_if-set p [] i k l = elim l [ ]
count_if-set p (x ∷ h) zero k l = omega arith
count_if-set p (x ∷ h) (suc i) k l = omega (arith, count_if-set p h i k (omega arith))

pub at-set :
    (h : List JobScheduleKey) (i j : ℕ) (k : JobScheduleKey)
    → i < length h
    → at (set h i k) j ≡ (if j == i then k else at h j)
at-set [] i j k l = elim l [ ]
at-set (x ∷ h) zero zero k l = refl
at-set (x ∷ h) zero (suc j) k l = ground arith
at-set (x ∷ h) (suc i) zero k l = ground arith
at-set (x ∷ h) (suc i) (suc j) k l = ground (arith, at-set h i j k (omega arith))

pub length-set :
    (h : List JobScheduleKey) (i : ℕ) (k : JobScheduleKey) → length (set h i k) ≡ length h
length-set [] i k = refl
length-set (x ∷ h) zero k = refl
length-set (x ∷ h) (suc i) k = omega (arith, length-set h i k)

pub length-swap : (h : List JobScheduleKey) (i j : ℕ) → length (swap h i j) ≡ length h
unfolding swap
length-swap h i j = length-set (set h i (at h j)) j (at h i) ∙ length-set h i (at h j)

-- What stands at each place after a swap.
pub at-swap :
    (h : List JobScheduleKey) (i j k : ℕ)
    → i < length h
    → j < length h
    → at (swap h i j) k ≡ (if k == j then at h i else if k == i then at h j else at h k)
unfolding swap
at-swap h i j k hi hj =
    at-set (set h i (at h j)) j k (at h i) (rw (length-set h i (at h j)) hj)
    ∙ ap (λ t. if k == j then at h i else t) (at-set h i k (at h j) hi)

count_if-swap :
    (p : JobScheduleKey → Bool) (h : List JobScheduleKey) (i j : ℕ)
    → i < length h
    → j < length h
    → count_if p (swap h i j) ≡ count_if p h
unfolding swap
count_if-swap p h i j hi hj = ground (
  arith,
  count_if-set p h i (at h j) hi,
  count_if-set p (set h i (at h j)) j (at h i) (rw (length-set h i (at h j)) hj),
  at-set h i j (at h j) hi,
)

pub length-up : (fuel : ℕ) (h : List JobScheduleKey) (j : ℕ) → length (up fuel h j) ≡ length h
unfolding up
length-up zero h j = refl
length-up (suc fuel) h j =
    let i = (j - 1) / 2 in ground (arith, length-up fuel (swap h i j) i, length-swap h i j)

count_if-up :
    (p : JobScheduleKey → Bool) (fuel : ℕ) (h : List JobScheduleKey) (j : ℕ)
    → j < length h
    → count_if p (up fuel h j) ≡ count_if p h
unfolding up
count_if-up p zero h j l = refl
count_if-up p (suc fuel) h j l =
    let i = (j - 1) / 2 in
    ground (arith, count_if-up p fuel (swap h i j) i, length-swap h i j, count_if-swap p h i j)

pub length-down :
    (fuel : ℕ) (h : List JobScheduleKey) (i n : ℕ) → length (down fuel h i n) ≡ length h
unfolding down
length-down zero h i n = refl
length-down (suc fuel) h i n =
    let j = lesser_child h i n in
    ground (arith, length-down fuel (swap h i j) j n, length-swap h i j)

pub lesser_child_bounds :
    (h : List JobScheduleKey) (i n : ℕ)
    → 2 * i + 1 < n
    → (i < lesser_child h i n) × (lesser_child h i n < n)
unfolding lesser_child
lesser_child_bounds h i n l = ground arith

count_if-down :
    (p : JobScheduleKey → Bool) (fuel : ℕ) (h : List JobScheduleKey) (i n : ℕ)
    → n ≤ length h
    → count_if p (down fuel h i n) ≡ count_if p h
unfolding down
count_if-down p zero h i n l = refl
count_if-down p (suc fuel) h i n l =
    let j = lesser_child h i n in
    ground (
      arith,
      lesser_child_bounds h i n,
      count_if-down p fuel (swap h i j) j n,
      length-swap h i j,
      count_if-swap p h i j,
    )

count_if-append_one :
    (p : JobScheduleKey → Bool) (h : List JobScheduleKey) (k : JobScheduleKey)
    → count_if p (h ++ k ∷ []) ≡ count_if p h + one p k
count_if-append_one p [] k = omega arith
count_if-append_one p (x ∷ h) k = omega (arith, count_if-append_one p h k)

count_if-take :
    (p : JobScheduleKey → Bool) (h : List JobScheduleKey) (n : ℕ)
    → length h ≡ suc n
    → count_if p (take n h) + one p (at h n) ≡ count_if p h
count_if-take p [] n l = omega (arith, l)
count_if-take p (x ∷ []) zero l = omega arith
count_if-take p (x ∷ y ∷ h) zero l = absurd (omega arith)
count_if-take p (x ∷ h) (suc n) l = omega (arith, count_if-take p h n (omega arith))

-- `heap.Push` adds the key and leaves the others.
pub count_if-heap_push :
    (p : JobScheduleKey → Bool) (h : List JobScheduleKey) (k : JobScheduleKey)
    → count_if p (heap_push h k) ≡ count_if p h + one p k
unfolding heap_push
count_if-heap_push p h k =
    count_if-up p (length h) (h ++ k ∷ []) (length h) (omega (arith, length-append {0} h (k ∷ [])))
    ∙ count_if-append_one p h k

-- `heap.Pop` on a heap that is not empty takes away the key that it returns.
pub count_if-heap_pop :
    (p : JobScheduleKey → Bool) (h : List JobScheduleKey)
    → 0 < length h
    → count_if p (heap_pop h).1 + one p (heap_pop h).0 ≡ count_if p h
unfolding heap_pop
count_if-heap_pop p h l =
    let n = length h - 1 in
    let g = swap h 0 n in
    count_if-take p (down n g 0 n) n (length-down n g 0 n ∙ length-swap h 0 n ∙ omega arith)
    ∙ count_if-down p n g 0 n (omega (arith, length-swap h 0 n))
    ∙ count_if-swap p h 0 n l (omega arith)
