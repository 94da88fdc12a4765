-- ===== src/Dispatcher/Stuck.antt =====
-- Workers whose effectors do not return, as those of `BackupDatabase` and `RestoreDatabase` in
-- pkg/service/node/node.go, which send to a channel that nobody reads.
use mathlib.Core.Path.{subst}
use scheduler.Prelude.{
  ℕ, ◌+◌, ◌<◌, ◌≡◌, ◌∙◌, Bool, true, false, Option, none, some, List, [], ◌∷◌, ltb, length,
  get_elem?, arith, refl, Option-cases, inl, inr, Bool-cases, All,
}
use scheduler.Dispatcher.{
  Dispatcher, Action, queue, accept, buffer, take, offer, grab, deliver, finish, queue_work,
  accept_work, buffer_work, take_work, grab_worker, deliver_work, offer_queue, perform,
}
use scheduler.Dispatcher.Advances.{List-cases, IsStaffed}
use scheduler.Dispatcher.Drains.{Reach, Reach-Holds, perform_all}

module _ {Work : Type 0} where
  abbrev pub is_finish : Action Work → Bool
  is_finish (queue w) = false
  is_finish accept = false
  is_finish buffer = false
  is_finish take = false
  is_finish offer = false
  is_finish (grab i) = false
  is_finish (deliver i) = false
  is_finish (finish i) = true

  -- Every worker runs.
  abbrev IsFull : Dispatcher Work → Type 0
  IsFull d = (d.offering ≡ 0) × (d.worker_pool ≡ 0) × (d.assigned ≡ [])

  abbrev Stays : Dispatcher Work → Option (Dispatcher Work) → Type 0
  Stays d none = Unit {0}
  Stays d (some e) = IsFull e × (e.running ≡ d.running) × (e.done ≡ d.done)

  perform-Stays :
      (a : Action Work) (d : Dispatcher Work)
      → IsFull d
      → is_finish a ≡ false
      → Stays d (perform a d)
  unfolding queue_work accept_work buffer_work take_work grab_worker deliver_work offer_queue
  perform-Stays (queue w) d v f = elim (Bool-cases (ltb (length d.input_queue) d.max_queue)) [
    | inl b ↦ rw (b, queue_work) (v, refl, refl)
    | inr b ↦ rw (b, queue_work) tt
  ]
  perform-Stays accept d v f = elim (Option-cases d.moving) [
    | inr (w, m) ↦ rw (m, accept_work) tt
    | inl m ↦ elim (List-cases d.input_queue) [
      | inl n ↦ rw (m, n, accept_work) tt
      | inr (w, ws, n) ↦ rw (m, n, accept_work) (v, refl, refl)
    ]
  ]
  perform-Stays buffer d v f = elim (Option-cases d.moving) [
    | inl m ↦ rw (m, buffer_work) tt
    | inr (w, m) ↦ elim (Bool-cases (ltb (length d.pending) d.max_pending)) [
      | inr b ↦ rw (m, b, buffer_work) tt
      | inl b ↦ rw (m, b, buffer_work) (v, refl, refl)
    ]
  ]
  perform-Stays take d v f =
      elim (Bool-cases (ltb (length d.held + length d.assigned) d.max_workers)) [
        | inr b ↦ rw (b, take_work) tt
        | inl b ↦ elim (List-cases d.pending) [
          | inl n ↦ rw (b, n, take_work) tt
          | inr (w, ws, n) ↦ rw (b, n, take_work) (v, refl, refl)
        ]
      ]
  perform-Stays offer d v f = rw (v.0, offer_queue) tt
  perform-Stays (grab i) d v f = elim (Option-cases (get_elem? d.held i)) [
    | inl m ↦ rw (m, grab_worker) tt
    | inr (w, m) ↦ rw (m, v.1, grab_worker) tt
  ]
  perform-Stays (deliver i) d v f = rw (v.2, deliver_work) tt
  perform-Stays (finish i) d v f = ground arith

  Stays-trans :
      (d e : Dispatcher Work) (o : Option (Dispatcher Work))
      → e.running ≡ d.running
      → e.done ≡ d.done
      → Stays e o
      → Stays d o
  Stays-trans d e none p q v = tt
  Stays-trans d e (some f) p q (v, r, s) = (v, r ∙ p, s ∙ q)

  abbrev pub Unfinished : List (Action Work) → Type 0
  Unfinished acts = All (λ (a : Action Work). is_finish a ≡ false) acts

  perform_all-Stays :
      (acts : List (Action Work)) (d : Dispatcher Work)
      → IsFull d
      → Unfinished acts
      → Stays d (perform_all acts d)
  perform_all-Stays [] d v o = (v, refl, refl)
  perform_all-Stays (a ∷ acts) d v (o, os) = elim (Option-cases (perform a d)) [
    | inl n ↦ rw (n, Stays) tt
    | inr (f, n) ↦
        let (u, r, s) : Stays d (some f) = subst (Stays d) n (perform-Stays a d v o) in
        rw (n, Stays) (Stays-trans d f (perform_all acts f) r s (perform_all-Stays acts f u os))
  ]

  running-IsFull : (d : Dispatcher Work) → IsStaffed d → length d.running ≡ d.max_workers → IsFull d
  running-IsFull d v e = elim (List-cases d.assigned) [
    | inl n ↦ (omega (arith, v.0, e), omega (arith, v.0, e), n)
    | inr (w, ws, n) ↦ absurd (ground (arith, n, v.0, e))
  ]

  -- Where every worker of a dispatcher runs an effector, and none of these returns, no work is run any
  -- more, whatever is queued and in whatever order the goroutines go on.
  pub perform_all_stuck :
      (workers max_queue : ℕ) (ws : List Work) (d e : Dispatcher Work) (acts : List (Action Work))
      → 0 < workers
      → Reach workers max_queue ws d
      → length d.running ≡ d.max_workers
      → Unfinished acts
      → perform_all acts d ≡ some e
      → (e.running ≡ d.running) × (e.done ≡ d.done)
  perform_all_stuck workers max_queue ws d e acts l r f o q =
      let (v, c) = Reach-Holds (λ w. true) workers max_queue ws d l r in
      let (u, p, s) : Stays d (some e) =
        subst (Stays d) q (perform_all-Stays acts d (running-IsFull d v f) o) in
      (p, s)
