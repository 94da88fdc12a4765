-- ===== src/Dispatcher/Drains.antt =====
-- Work that is queued is run: no place in the dispatcher holds it for ever, and none loses it.
use mathlib.Core.Path.{subst}
use scheduler.Prelude.{
  ℕ, suc, ◌+◌, ◌<◌, ◌≤◌, ◌≡◌, ◌∙◌, ◌⊎◌, Bool, true, Option, none, some, List, [], ◌∷◌, ltb, length,
  count, arith, refl, Option-cases, inl, inr, Bool-cases, count-append, All,
}
use scheduler.Dispatcher.{Dispatcher, Action, new_dispatcher, queue_work, perform}
use scheduler.Dispatcher.Advances.{
  moved, works, steps_left, size, IsStaffed, Advances, is_own, perform-Advances, one_if, ℕ-cases,
}
use scheduler.Dispatcher.Progress.{progress}

module _ {Work : Type 0} where
  -- What a dispatcher with some workers comes to while works are queued, in any order of its
  -- goroutines.
  pub data Reach (workers max_queue : ℕ) : List Work → Dispatcher Work → Type 0 where
    started : Reach workers max_queue [] (new_dispatcher workers max_queue)
    queued :
        {ws : List Work} {d e : Dispatcher Work} (w : Work)
        → Reach workers max_queue ws d
        → queue_work w d ≡ some e
        → Reach workers max_queue (w ∷ ws) e
    performed :
        {ws : List Work} {d e : Dispatcher Work} (a : Action Work)
        → Reach workers max_queue ws d
        → is_own a ≡ true
        → perform a d ≡ some e
        → Reach workers max_queue ws e

  abbrev pub Holds : (Work → Bool) → List Work → Dispatcher Work → Type 0
  Holds p ws d = IsStaffed d × (works p d ≡ count p ws)

  abbrev Gains : (Work → Bool) → Work → Dispatcher Work → Option (Dispatcher Work) → Type 0
  Gains p w d none = Unit {0}
  Gains p w d (some e) = IsStaffed e × (works p e ≡ works p d + one_if (p w))

  queue_work-Gains :
      (p : Work → Bool) (w : Work) (d : Dispatcher Work)
      → IsStaffed d
      → Gains p w d (queue_work w d)
  unfolding queue_work
  queue_work-Gains p w d v = elim (Bool-cases (ltb (length d.input_queue) d.max_queue)) [
    | inr b ↦ rw (b, queue_work) tt
    | inl b ↦ rw (b, queue_work) (v, omega (arith, count-append p d.input_queue (w ∷ [])))
  ]

  pub Reach-Holds :
      (p : Work → Bool) (workers max_queue : ℕ) (ws : List Work) (d : Dispatcher Work)
      → 0 < workers
      → Reach workers max_queue ws d
      → Holds p ws d
  unfolding new_dispatcher
  Reach-Holds p workers max_queue _ d l started = ((omega arith, l, ground arith), refl)
  Reach-Holds p workers max_queue _ e l (queued {ws = ws} {d = d} w r q) =
      let (v, c) = Reach-Holds p workers max_queue ws d l r in
      let (u, g) : Gains p w d (some e) = subst (Gains p w d) q (queue_work-Gains p w d v) in
      (u, ground (arith, c, g))
  Reach-Holds p workers max_queue ws e l (performed {d = d} a r o q) =
      let (v, c) = Reach-Holds p workers max_queue ws d l r in
      let (u, m, g) : Advances p d (some e) = subst (Advances p d) q (perform-Advances p a d v o) in
      (u, omega (arith, c, g))

  count-le : (p : Work → Bool) (xs : List Work) → count p xs ≤ length xs
  count-le p [] = omega arith
  count-le p (x ∷ xs) = ground (arith, count-le p xs)

  moved-le : (p : Work → Bool) (m : Option Work) → moved p m ≤ size m
  moved-le p none = omega arith
  moved-le p (some w) = ground arith

  works_done :
      (p : Work → Bool) (d : Dispatcher Work) → steps_left d ≡ 0 → count p d.done ≡ works p d
  works_done p d e = omega (
    arith,
    count-le p d.input_queue,
    moved-le p d.moving,
    count-le p d.pending,
    count-le p d.held,
    count-le p d.assigned,
    count-le p d.running,
  )

  abbrev pub perform_all : List (Action Work) → Dispatcher Work → Option (Dispatcher Work)
  perform_all [] d = some d
  perform_all (a ∷ acts) d = elim (perform a d) [ none ↦ none | some e ↦ perform_all acts e ]

  abbrev pub Own : List (Action Work) → Type 0
  Own acts = All (λ (a : Action Work). is_own a ≡ true) acts

  abbrev After : (Work → Bool) → List Work → ℕ → ℕ → Option (Dispatcher Work) → Type 0
  After p ws n limit none = Unit {0}
  After p ws n limit (some e) = Holds p ws e × (n + steps_left e ≤ limit)

  After-suc :
      (p : Work → Bool) (ws : List Work) (n k limit : ℕ) (o : Option (Dispatcher Work))
      → After p ws n k o
      → k < limit
      → After p ws (suc n) limit o
  After-suc p ws n k limit none v l = tt
  After-suc p ws n k limit (some e) (h, v) l = (h, omega (arith, v, l))

  perform_all-After :
      (p : Work → Bool) (ws : List Work) (acts : List (Action Work)) (d : Dispatcher Work)
      → Holds p ws d
      → Own acts
      → After p ws (length acts) (steps_left d) (perform_all acts d)
  perform_all-After p ws [] d v o = (v, omega arith)
  perform_all-After p ws (a ∷ acts) d (v, c) (o, os) = elim (Option-cases (perform a d)) [
    | inl n ↦ rw (n, After) tt
    | inr (f, n) ↦
        let (u, m, g) : Advances p d (some f) =
          subst (Advances p d) n (perform-Advances p a d v o) in
        rw (n, After)
          (After-suc p ws (length acts) (steps_left f) (steps_left d) (perform_all acts f)
            (perform_all-After p ws acts f (u, omega (arith, c, g)) os) m)
  ]

  -- A dispatcher with some workers has come to `d` while the works `ws` were queued, in any order of
  -- its goroutines, and then makes steps other than the queueing of work; the return of an effector is
  -- such a step. It makes at most `steps_left d` of them, and after them either each of `ws` has been
  -- done, once, or another such step can be made. A test `p` counts the works.
  pub perform_all-drains :
      (p : Work → Bool) (workers max_queue : ℕ) (ws : List Work) (d e : Dispatcher Work)
      (acts : List (Action Work))
      → 0 < workers
      → Reach workers max_queue ws d
      → Own acts
      → perform_all acts d ≡ some e
      → (length acts + steps_left e ≤ steps_left d)
        × ((count p e.done ≡ count p ws)
            ⊎ ((a : Action Work) × (is_own a ≡ true)
                × (f : Dispatcher Work) × (perform a e ≡ some f)))
  perform_all-drains p workers max_queue ws d e acts l r o q =
      let ((v, c), n) : After p ws (length acts) (steps_left d) (some e) =
        subst (After p ws (length acts) (steps_left d)) q
          (perform_all-After p ws acts d (Reach-Holds p workers max_queue ws d l r) o) in
      (
        n,
        elim (ℕ-cases (steps_left e)) [
          | inl z ↦ inl (works_done p e z ∙ c)
          | inr (k, z) ↦
              let (a, t, f, u, s, m, g) = progress p e v (omega (arith, z)) in inr (a, t, f, u)
        ],
      )

  abbrev Reached : ℕ → ℕ → List Work → Option (Dispatcher Work) → Type 0
  Reached workers max_queue ws none = Unit {0}
  Reached workers max_queue ws (some d) = Reach workers max_queue ws d

  Reach-perform_all :
      (workers max_queue : ℕ) (ws : List Work) (d : Dispatcher Work) (acts : List (Action Work))
      → Reach workers max_queue ws d
      → Own acts
      → Reached workers max_queue ws (perform_all acts d)
  Reach-perform_all workers max_queue ws d [] r o = r
  Reach-perform_all workers max_queue ws d (a ∷ acts) r (o, os) =
      elim (Option-cases (perform a d)) [
        | inl n ↦ rw (n, Reached) tt
        | inr (f, n) ↦
            rw (n, Reached) (Reach-perform_all workers max_queue ws f acts (performed a r o n) os)
      ]

  pub performed_all :
      (workers max_queue : ℕ) (ws : List Work) (d e : Dispatcher Work) (acts : List (Action Work))
      → Reach workers max_queue ws d
      → Own acts
      → perform_all acts d ≡ some e
      → Reach workers max_queue ws e
  performed_all workers max_queue ws d e acts r o q =
      subst (Reached workers max_queue ws) q (Reach-perform_all workers max_queue ws d acts r o)
