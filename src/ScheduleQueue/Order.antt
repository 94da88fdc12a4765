-- ===== src/ScheduleQueue/Order.antt =====
-- The heap order: no key is due before its parent, so the first key is due first.
use scheduler.Prelude.{
  ℕ, zero, suc, ◌+◌, ◌-◌, ◌*◌, ◌/◌, ◌<◌, ◌≤◌, ◌≡◌, ◌≢◌, refl, ◌∙◌, ap, List, [], ◌∷◌, ◌++◌, arith,
  ◌==◌, length, take, Bool-cases, inl, inr, ◌||◌, not, leb, length-append,
}
use scheduler.Models.{JobScheduleKey}
use scheduler.ScheduleQueue.{at, less, swap, up, down, lesser_child, heap_push, heap_pop}
use scheduler.ScheduleQueue.Elements.{
  at-swap, length-swap, length-up, length-down, lesser_child_bounds,
}

abbrev pub time : List JobScheduleKey → ℕ → ℕ
time h i = (at h i).execution_time

abbrev pub parent : ℕ → ℕ
parent k = (k - 1) / 2

-- The first `n` places are a heap.
abbrev pub IsHeap : List JobScheduleKey → ℕ → Type 0
IsHeap h n = (k : ℕ) → 0 < k → k < n → time h (parent k) ≤ time h k

-- A heap but for the key at `j`, which may be due before its parent.
record UpTo (h : List JobScheduleKey) (j n : ℕ) : Type 0 where
  others : (k : ℕ) → 0 < k → k < n → k ≢ j → time h (parent k) ≤ time h k
  past : (k : ℕ) → 0 < k → k < n → parent k ≡ j → 0 < j → time h (parent j) ≤ time h k

UpTo-swap :
    (h : List JobScheduleKey) (j n : ℕ)
    → 0 < j
    → j < n
    → n ≤ length h
    → time h j < time h (parent j)
    → UpTo h j n
    → UpTo (swap h (parent j) j) (parent j) n
UpTo-swap h j n p l b lt v = record {
  others = λ k kp kn ne. ground (
    arith,
    at-swap h (parent j) j k,
    at-swap h (parent j) j (parent k),
    v.others k kp kn,
    v.others j p l,
    v.past k kp kn,
  );
  past = λ k kp kn e ip. ground (
    arith,
    at-swap h (parent j) j k,
    at-swap h (parent j) j (parent (parent j)),
    v.others k kp kn,
    v.others (parent j),
  );
}

up-IsHeap :
    (fuel : ℕ) (h : List JobScheduleKey) (j n : ℕ)
    → j ≤ fuel
    → j < n
    → n ≤ length h
    → UpTo h j n
    → IsHeap (up fuel h j) n
unfolding up
up-IsHeap zero h j n f l b v = λ k p q. v.others k p q (λ e. omega arith)
up-IsHeap (suc fuel) h j n f l b v = λ k p q.
    elim (Bool-cases (parent j == j || not (less h j (parent j)))) [
      | inl stop ↦ rw stop (ground (arith, v.others k p q))
      | inr go ↦ rw go (
          up-IsHeap fuel (swap h (parent j) j) (parent j) n (ground arith) (ground arith)
            (rw (length-swap h (parent j) j) b)
            (UpTo-swap h j n (ground arith) l b (ground arith) v) k p q)
    ]

-- A heap but for the key at `i`, which may be due after its children.
record DownFrom (h : List JobScheduleKey) (i n : ℕ) : Type 0 where
  others : (k : ℕ) → 0 < k → k < n → parent k ≢ i → time h (parent k) ≤ time h k
  past : (k : ℕ) → 0 < k → k < n → parent k ≡ i → 0 < i → time h (parent i) ≤ time h k

DownFrom-swap :
    (h : List JobScheduleKey) (i n : ℕ)
    → 2 * i + 1 < n
    → n ≤ length h
    → time h (lesser_child h i n) < time h i
    → DownFrom h i n
    → DownFrom (swap h i (lesser_child h i n)) (lesser_child h i n) n
unfolding lesser_child
DownFrom-swap h i n l b lt v =
    let j = lesser_child h i n in
    record {
      others = λ k kp kn ne.
          ground (arith, at-swap h i j k, at-swap h i j (parent k), v.others k kp kn, v.past j);
      past = λ k kp kn e jp.
          ground (arith, at-swap h i j k, at-swap h i j (parent j), v.others k kp kn);
    }

down-IsHeap :
    (fuel : ℕ) (h : List JobScheduleKey) (i n : ℕ)
    → n ≤ fuel + i
    → n ≤ length h
    → DownFrom h i n
    → IsHeap (down fuel h i n) n
unfolding down
down-IsHeap zero h i n f b v = λ k p q. v.others k p q (λ e. omega arith)
down-IsHeap (suc fuel) h i n f b v = λ k p q.
    let j = lesser_child h i n in
    elim (Bool-cases (leb n (2 * i + 1) || not (less h j i))) [
      | inl stop ↦ rw stop (unfold lesser_child in ground (arith, v.others k p q))
      | inr go ↦ rw go (
          down-IsHeap fuel (swap h i j) j n (ground (arith, lesser_child_bounds h i n))
            (rw (length-swap h i j) b) (DownFrom-swap h i n (ground arith) b (ground arith) v) k p
            q)
    ]

-- The first key is due no later than any other.
IsHeap-first :
    (h : List JobScheduleKey) (n : ℕ)
    → IsHeap h n
    → (fuel k : ℕ) → k ≤ fuel
    → k < n
    → time h 0 ≤ time h k
IsHeap-first h n v zero k f l = ground arith
IsHeap-first h n v (suc fuel) zero f l = omega arith
IsHeap-first h n v (suc fuel) (suc k) f l = omega (
  arith,
  v (suc k) (omega arith) l,
  IsHeap-first h n v fuel (parent (suc k)) (omega arith) (omega arith),
)

at-append :
    (h : List JobScheduleKey) (k : JobScheduleKey) (i : ℕ)
    → i < length h
    → at (h ++ k ∷ []) i ≡ at h i
at-append [] k i l = elim l [ ]
at-append (x ∷ h) k zero l = refl
at-append (x ∷ h) k (suc i) l = at-append h k i (omega arith)

-- `heap.Push` keeps the heap.
pub heap_push-IsHeap :
    (h : List JobScheduleKey) (k : JobScheduleKey)
    → IsHeap h (length h)
    → IsHeap (heap_push h k) (length (heap_push h k))
unfolding heap_push
heap_push-IsHeap h k v =
    let longer = length-append {0} h (k ∷ []) in
    λ i p q.
      up-IsHeap (length h) (h ++ k ∷ []) (length h) (suc (length h)) (omega arith) (omega arith)
        (omega arith)
        (record {
          others = λ m mp mn ne. ground (arith, at-append h k m, at-append h k (parent m), v m mp);
          past = λ m mp mn e hp. absurd (omega arith);
        })
        i p (omega (arith, length-up (length h) (h ++ k ∷ []) (length h)))

at-down :
    (fuel : ℕ) (h : List JobScheduleKey) (i n m : ℕ)
    → n ≤ m
    → m < length h
    → at (down fuel h i n) m ≡ at h m
unfolding down
at-down zero h i n m f b = refl
at-down (suc fuel) h i n m f b =
    let j = lesser_child h i n in
    ground (
      arith,
      lesser_child_bounds h i n,
      at-down fuel (swap h i j) j n m,
      length-swap h i j,
      at-swap h i j m,
    )

at-take :
    (n : ℕ) (h : List JobScheduleKey) (k : ℕ) → k < n → n ≤ length h → at (take n h) k ≡ at h k
at-take zero h k l b = elim l [ ]
at-take (suc n) [] k l b = elim b [ ]
at-take (suc n) (x ∷ h) zero l b = refl
at-take (suc n) (x ∷ h) (suc k) l b = at-take n h k (omega arith) (omega arith)

length-take : (n : ℕ) (h : List JobScheduleKey) → n ≤ length h → length (take n h) ≡ n
length-take zero h b = refl
length-take (suc n) [] b = elim b [ ]
length-take (suc n) (x ∷ h) b = ap suc (length-take n h (omega arith))

-- What `heap.Pop` works on: the last key has come to the front.
DownFrom-front :
    (h : List JobScheduleKey)
    → 0 < length h
    → IsHeap h (length h)
    → DownFrom (swap h 0 (length h - 1)) 0 (length h - 1)
DownFrom-front h l v =
    let n = length h - 1 in
    record {
      others = λ k kp kn ne. ground (arith, at-swap h 0 n k, at-swap h 0 n (parent k), v k kp);
      past = λ k kp kn e ip. absurd (omega arith);
    }

-- `heap.Pop` returns the first key, and what is left is a heap.
pub heap_pop-IsHeap :
    (h : List JobScheduleKey)
    → 0 < length h
    → IsHeap h (length h)
    → ((heap_pop h).0 ≡ at h 0)
      × (length (heap_pop h).1 ≡ length h - 1)
      × IsHeap (heap_pop h).1 (length (heap_pop h).1)
unfolding heap_pop
heap_pop-IsHeap h l v =
    let n = length h - 1 in
    let g = swap h 0 n in
    let same = length-swap h 0 n in
    let d = length-down n g 0 n in
    let short = length-take n (down n g 0 n) (omega arith) in
    (
      at-down n g 0 n n (omega arith) (omega arith) ∙ ground (arith, at-swap h 0 n n),
      short,
      λ k p q. ground (
        arith,
        at-take n (down n g 0 n) k,
        at-take n (down n g 0 n) (parent k),
        down-IsHeap n g 0 n (omega arith) (omega arith) (DownFrom-front h l v) k p (omega arith),
      ),
    )

pub IsHeap-least : (h : List JobScheduleKey) (n k : ℕ) → IsHeap h n → k < n → time h 0 ≤ time h k
IsHeap-least h n k v l = IsHeap-first h n v k k (omega arith) l

-- `down` leaves a heap as it is.
pub down_heap : (fuel : ℕ) (h : List JobScheduleKey) (i n : ℕ) → IsHeap h n → down fuel h i n ≡ h
unfolding down
down_heap zero h i n v = refl
down_heap (suc fuel) h i n v = unfold lesser_child in ground (arith, v (2 * i + 1), v (2 * i + 2))
