-- ===== src/Dispatcher/Advances.antt =====
-- Each step but the queueing of work brings some work or worker on, and loses none.
use scheduler.Prelude.{
  ℕ, zero, suc, ◌+◌, ◌*◌, ◌<◌, ◌≡◌, ◌⊎◌, Bool, true, false, Option, none, some, List, [], ◌∷◌, ltb,
  if◌then◌else◌, length, count, get_elem?, remove_at, arith, refl, Option-cases, inl, inr,
  Bool-cases, length-append, count-append,
}
use scheduler.Dispatcher.{
  Dispatcher, Action, queue, accept, buffer, take, offer, grab, deliver, finish, accept_work,
  buffer_work, take_work, grab_worker, deliver_work, finish_work, offer_queue, perform,
}

abbrev pub one_if : Bool → ℕ
one_if b = if b then 1 else 0

pub List-cases : {A : Type 0} (xs : List A) → (xs ≡ []) ⊎ ((x : A) × (ys : List A) × (xs ≡ x ∷ ys))
List-cases [] = inl refl
List-cases (x ∷ xs) = inr (x, xs, refl)

pub ℕ-cases : (n : ℕ) → (n ≡ zero) ⊎ ((m : ℕ) × (n ≡ suc m))
ℕ-cases zero = inl refl
ℕ-cases (suc n) = inr (n, refl)

count-remove_at :
    {A : Type 0} (p : A → Bool) (xs : List A) (i : ℕ) (x : A)
    → get_elem? xs i ≡ some x
    → count p xs ≡ count p (remove_at i xs) + one_if (p x)
count-remove_at p [] i x e = ground arith
count-remove_at p (y ∷ xs) zero x e = ground arith
count-remove_at p (y ∷ xs) (suc i) x e = ground (arith, count-remove_at p xs i x e)

length-remove_at :
    {A : Type 0} (xs : List A) (i : ℕ) (x : A)
    → get_elem? xs i ≡ some x
    → length xs ≡ suc (length (remove_at i xs))
length-remove_at [] i x e = ground arith
length-remove_at (y ∷ xs) zero x e = refl
length-remove_at (y ∷ xs) (suc i) x e = omega (arith, length-remove_at xs i x e)

module _ {Work : Type 0} where
  abbrev pub size : Option Work → ℕ
  size none = 0
  size (some w) = 1

  abbrev pub moved : (Work → Bool) → Option Work → ℕ
  moved p none = 0
  moved p (some w) = one_if (p w)

  -- The works that pass a test, wherever they are.
  abbrev pub works : (Work → Bool) → Dispatcher Work → ℕ
  works p d =
      count p d.input_queue
      + moved p d.moving
      + count p d.pending
      + count p d.held
      + count p d.assigned
      + count p d.running
      + count p d.done

  -- How many steps are left to be made.
  abbrev pub steps_left : Dispatcher Work → ℕ
  steps_left d =
      7 * length d.input_queue
      + 6 * size d.moving
      + 5 * length d.pending
      + 4 * length d.held
      + 3 * length d.assigned
      + 2 * length d.running
      + d.offering

  -- Every worker is at one of its places, and there is one.
  abbrev pub IsStaffed : Dispatcher Work → Type 0
  IsStaffed d =
      (d.offering + d.worker_pool + length d.assigned + length d.running ≡ d.max_workers)
      × (0 < d.max_workers)
      × (0 < d.max_pending)

  abbrev pub Advances : (Work → Bool) → Dispatcher Work → Option (Dispatcher Work) → Type 0
  Advances p d none = Unit {0}
  Advances p d (some e) = IsStaffed e × (steps_left e < steps_left d) × (works p e ≡ works p d)

  module _ (p : Work → Bool) (d : Dispatcher Work) (v : IsStaffed d) where
    accept_work-Advances : Advances p d (accept_work d)
    unfolding accept_work
    accept_work-Advances = elim (Option-cases d.moving) [
      | inr (w, m) ↦ rw (m, accept_work) tt
      | inl m ↦ elim (List-cases d.input_queue) [
        | inl n ↦ rw (m, n, accept_work) tt
        | inr (w, ws, n) ↦ rw (m, n, accept_work) (v, omega arith, omega arith)
      ]
    ]

    buffer_work-Advances : Advances p d (buffer_work d)
    unfolding buffer_work
    buffer_work-Advances = elim (Option-cases d.moving) [
      | inl m ↦ rw (m, buffer_work) tt
      | inr (w, m) ↦ elim (Bool-cases (ltb (length d.pending) d.max_pending)) [
        | inr b ↦ rw (m, b, buffer_work) tt
        | inl b ↦
            rw (m, b, buffer_work)
              (
                v,
                omega (arith, length-append d.pending (w ∷ [])),
                omega (arith, count-append p d.pending (w ∷ [])),
              )
      ]
    ]

    take_work-Advances : Advances p d (take_work d)
    unfolding take_work
    take_work-Advances = elim (Bool-cases (ltb (length d.held + length d.assigned) d.max_workers)) [
      | inr b ↦ rw (b, take_work) tt
      | inl b ↦ elim (List-cases d.pending) [
        | inl n ↦ rw (b, n, take_work) tt
        | inr (w, ws, n) ↦
            rw (b, n, take_work)
              (
                v,
                omega (arith, length-append d.held (w ∷ [])),
                omega (arith, count-append p d.held (w ∷ [])),
              )
      ]
    ]

    grab_worker-Advances : (i : ℕ) → Advances p d (grab_worker i d)
    unfolding grab_worker
    grab_worker-Advances i = elim (Option-cases (get_elem? d.held i)) [
      | inl m ↦ rw (m, grab_worker) tt
      | inr (w, m) ↦ elim (ℕ-cases d.worker_pool) [
        | inl n ↦ rw (m, n, grab_worker) tt
        | inr (k, n) ↦
            rw (m, n, grab_worker)
              (
                (omega (arith, v.0, length-append d.assigned (w ∷ [])), v.1, v.2),
                omega (arith, length-append d.assigned (w ∷ []), length-remove_at d.held i w m),
                omega (arith, count-append p d.assigned (w ∷ []), count-remove_at p d.held i w m),
              )
      ]
    ]

    deliver_work-Advances : (i : ℕ) → Advances p d (deliver_work i d)
    unfolding deliver_work
    deliver_work-Advances i = elim (Option-cases (get_elem? d.assigned i)) [
      | inl m ↦ rw (m, deliver_work) tt
      | inr (w, m) ↦
          let l = length-append d.running (w ∷ []) in
          let r = length-remove_at d.assigned i w m in
          rw (m, deliver_work)
            (
              (omega (arith, l, r, v.0), v.1, v.2),
              omega (arith, l, r),
              omega (arith, count-append p d.running (w ∷ []), count-remove_at p d.assigned i w m),
            )
    ]

    finish_work-Advances : (i : ℕ) → Advances p d (finish_work i d)
    unfolding finish_work
    finish_work-Advances i = elim (Option-cases (get_elem? d.running i)) [
      | inl m ↦ rw (m, finish_work) tt
      | inr (w, m) ↦
          let r = length-remove_at d.running i w m in
          rw (m, finish_work)
            (
              (omega (arith, r, v.0), v.1, v.2),
              omega (arith, r),
              omega (arith, count-append p d.done (w ∷ []), count-remove_at p d.running i w m),
            )
    ]

    offer_queue-Advances : Advances p d (offer_queue d)
    unfolding offer_queue
    offer_queue-Advances = elim (ℕ-cases d.offering) [
      | inl n ↦ rw (n, offer_queue) tt
      | inr (k, n) ↦ elim (Bool-cases (ltb d.worker_pool d.max_workers)) [
        | inr b ↦ rw (n, b, offer_queue) tt
        | inl b ↦ rw (n, b, offer_queue) ((omega (arith, v.0), v.1, v.2), omega arith, omega arith)
      ]
    ]

  -- Any step but the queueing of work.
  abbrev pub is_own : Action Work → Bool
  is_own (queue w) = false
  is_own accept = true
  is_own buffer = true
  is_own take = true
  is_own offer = true
  is_own (grab i) = true
  is_own (deliver i) = true
  is_own (finish i) = true

  pub perform-Advances :
      (p : Work → Bool) (a : Action Work) (d : Dispatcher Work)
      → IsStaffed d
      → is_own a ≡ true
      → Advances p d (perform a d)
  perform-Advances p (queue w) d v o = ground arith
  perform-Advances p accept d v o = accept_work-Advances p d v
  perform-Advances p buffer d v o = buffer_work-Advances p d v
  perform-Advances p take d v o = take_work-Advances p d v
  perform-Advances p offer d v o = offer_queue-Advances p d v
  perform-Advances p (grab i) d v o = grab_worker-Advances p d v i
  perform-Advances p (deliver i) d v o = deliver_work-Advances p d v i
  perform-Advances p (finish i) d v o = finish_work-Advances p d v i
