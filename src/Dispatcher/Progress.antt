-- ===== src/Dispatcher/Progress.antt =====
-- While work is under way some step can be made.
use mathlib.Core.Path.{subst}
use scheduler.Prelude.{
  ◌+◌, ◌<◌, ◌≡◌, Bool, true, none, some, [], ◌∷◌, ◌++◌, ltb, length, get_elem?-lt, remove_at, arith,
  refl, Option-cases, inl, inr,
}
use scheduler.Dispatcher.{
  Dispatcher, Action, accept, buffer, take, offer, grab, deliver, finish, accept_work, buffer_work,
  take_work, grab_worker, deliver_work, finish_work, offer_queue, perform,
}
use scheduler.Dispatcher.Advances.{
  List-cases, ℕ-cases, size, works, steps_left, IsStaffed, Advances, is_own, perform-Advances,
}

module _ {Work : Type 0} where
  -- Some step but the queueing of work can be made.
  abbrev pub Moves : (Work → Bool) → Dispatcher Work → Type 0
  Moves p d =
      (a : Action Work) × (is_own a ≡ true)
      × (e : Dispatcher Work) × (perform a d ≡ some e)
      × IsStaffed e
      × (steps_left e < steps_left d)
      × (works p e ≡ works p d)

  pub moves :
      (p : Work → Bool) (a : Action Work) (d e : Dispatcher Work)
      → IsStaffed d
      → is_own a ≡ true
      → perform a d ≡ some e
      → Moves p d
  moves p a d e v o q =
      let (s, l, c) : Advances p d (some e) = subst (Advances p d) q (perform-Advances p a d v o) in
      (a, o, e, q, s, l, c)

  module _ (p : Work → Bool) (d : Dispatcher Work) (v : IsStaffed d) where
    offering-Moves : 0 < d.offering → Moves p d
    unfolding offer_queue
    offering-Moves h = elim (ℕ-cases d.offering) [
      | inl n ↦ absurd (omega (arith, n, h))
      | inr (k, n) ↦
          let b : ltb d.worker_pool d.max_workers ≡ true = ground (arith, v.0, n) in
          moves p offer d (record d { offering = k; worker_pool = d.worker_pool + 1 }) v refl
            (rw (n, b, offer_queue))
    ]

    running-Moves : 0 < length d.running → Moves p d
    unfolding finish_work
    running-Moves h =
        let (w, n) = get_elem?-lt d.running 0 h in
        moves p (finish 0) d
          (record d {
            running = remove_at 0 d.running;
            offering = d.offering + 1;
            done = d.done ++ w ∷ [];
          })
          v refl (rw (n, finish_work))

    assigned-Moves : 0 < length d.assigned → Moves p d
    unfolding deliver_work
    assigned-Moves h =
        let (w, n) = get_elem?-lt d.assigned 0 h in
        moves p (deliver 0) d
          (record d { assigned = remove_at 0 d.assigned; running = d.running ++ w ∷ [] }) v refl
          (rw (n, deliver_work))

    held-Moves : 0 < length d.held → 0 < d.worker_pool → Moves p d
    unfolding grab_worker
    held-Moves h k =
        let (w, n) = get_elem?-lt d.held 0 h in
        elim (ℕ-cases d.worker_pool) [
          | inl m ↦ absurd (omega (arith, m, k))
          | inr (j, m) ↦
              moves p (grab 0) d
                (record d {
                  held = remove_at 0 d.held;
                  assigned = d.assigned ++ w ∷ [];
                  worker_pool = j;
                })
                v refl (rw (n, m, grab_worker))
        ]

    pending-Moves :
        0 < length d.pending → length d.held + length d.assigned < d.max_workers → Moves p d
    unfolding take_work
    pending-Moves h k = elim (List-cases d.pending) [
      | inl n ↦ absurd (ground (arith, n, h))
      | inr (w, ws, n) ↦
          let b : ltb (length d.held + length d.assigned) d.max_workers ≡ true =
            ground (arith, k) in
          moves p take d (record d { pending = ws; held = d.held ++ w ∷ [] }) v refl
            (rw (b, n, take_work))
    ]

    moving-Moves : 0 < size d.moving → length d.pending < d.max_pending → Moves p d
    unfolding buffer_work
    moving-Moves h k = elim (Option-cases d.moving) [
      | inl n ↦ absurd (ground (arith, n, h))
      | inr (w, n) ↦
          let b : ltb (length d.pending) d.max_pending ≡ true = ground (arith, k) in
          moves p buffer d (record d { moving = none; pending = d.pending ++ w ∷ [] }) v refl
            (rw (n, b, buffer_work))
    ]

    input-Moves : 0 < length d.input_queue → size d.moving ≡ 0 → Moves p d
    unfolding accept_work
    input-Moves h k = elim (List-cases d.input_queue) [
      | inl n ↦ absurd (ground (arith, n, h))
      | inr (w, ws, n) ↦ elim (Option-cases d.moving) [
        | inr (u, m) ↦ absurd (ground (arith, m, k))
        | inl m ↦
            moves p accept d (record d { input_queue = ws; moving = some w }) v refl
              (rw (m, n, accept_work))
      ]
    ]

  -- Unless all work has been done and every worker waits, some step can be made.
  pub progress :
      (p : Work → Bool) (d : Dispatcher Work) → IsStaffed d → 0 < steps_left d → Moves p d
  progress p d v h = elim (ℕ-cases d.offering) [
    | inr (k, n) ↦ offering-Moves p d v (omega (arith, n))
    | inl n ↦ elim (ℕ-cases (length d.running)) [
      | inr (k, r) ↦ running-Moves p d v (omega (arith, r))
      | inl r ↦ elim (ℕ-cases (length d.assigned)) [
        | inr (k, s) ↦ assigned-Moves p d v (omega (arith, s))
        | inl s ↦ elim (ℕ-cases (length d.held)) [
          | inr (k, t) ↦ held-Moves p d v (omega (arith, t)) (omega (arith, n, r, s, v.0, v.1))
          | inl t ↦ elim (ℕ-cases (length d.pending)) [
            | inr (k, u) ↦ pending-Moves p d v (omega (arith, u)) (omega (arith, s, t, v.1))
            | inl u ↦ elim (ℕ-cases (size d.moving)) [
              | inr (k, m) ↦ moving-Moves p d v (omega (arith, m)) (omega (arith, u, v.2))
              | inl m ↦ input-Moves p d v (omega (arith, h, n, r, s, t, u, m)) m
            ]
          ]
        ]
      ]
    ]
  ]
