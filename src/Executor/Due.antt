-- ===== src/Executor/Due.antt =====
-- Which jobs the executor takes from its queue to invoke.
use scheduler.ScheduleQueue.{peek, pop}
use scheduler.Prelude.{
  ℕ, ◌+◌, ◌<◌, ◌≡◌, refl, Bool, true, false, ◌&&◌, not, none, some, List, [], ◌∷◌, arith, ltb, ◌==◌,
  length, lookup, count, Option-cases, inl, inr, suc, zero, ◌≤◌, Bool-cases,
}
use scheduler.Models.{Job, JobSchedule, JobScheduleKey}
use scheduler.ScheduleQueue.Elements.{count_if, one}
use scheduler.ScheduleQueue.Laws.{IsQueue, due_before, pop-IsQueue}
use scheduler.Executor.{Executor, take_due}

abbrev pub is_due : ℕ → JobScheduleKey → Bool
is_due now k = not (ltb now k.execution_time)

abbrev pub has_no_id : JobScheduleKey → Bool
has_no_id k = k.job_id == 0

-- Whether a key has a schedule in the cache whose job passes a test.
abbrev pub cached : (Job → Bool) → List (ℕ × JobSchedule) → JobScheduleKey → Bool
cached g cache k = elim (lookup k.job_id cache) [ none ↦ false | some s ↦ g s.job ]

count_if-all : (q : List JobScheduleKey) → count_if (λ k. true) q ≡ length q
count_if-all [] = refl
count_if-all (k ∷ q) = omega (arith, count_if-all q)

module _ (d : JobScheduleKey → Bool) (p : JobScheduleKey → Bool) where
  count_if-not :
      (q : List JobScheduleKey)
      → count_if d q ≡ 0
      → count_if p q ≡ count_if (λ k. p k && not (d k)) q
  count_if-not [] e = refl
  count_if-not (k ∷ q) e = ground (arith, count_if-not q)

  count_if-both : (q : List JobScheduleKey) → count_if d q ≡ 0 → count_if (λ k. d k && p k) q ≡ 0
  count_if-both [] e = refl
  count_if-both (k ∷ q) e = ground (arith, count_if-both q)

none_due :
    (now t : ℕ) (q : List JobScheduleKey)
    → now < t
    → count_if (due_before t) q ≡ 0
    → count_if (is_due now) q ≡ 0
none_due now t [] l e = refl
none_due now t (k ∷ q) l e = ground (arith, none_due now t q l)

module _ (now : ℕ) (p : JobScheduleKey → Bool) (g : Job → Bool) where
  abbrev pub Took : Executor → List Job × Executor → Type 0
  Took x (jobs, y) =
      IsQueue y.schedule_queue
      × (count_if (is_due now) y.schedule_queue ≡ 0)
      × (count_if p y.schedule_queue ≡ count_if (λ k. p k && not (is_due now k)) x.schedule_queue)
      × (count g jobs ≡ count_if (λ k. is_due now k && cached g x.cache k) x.schedule_queue)

  Took-none :
      (x : Executor)
      → IsQueue x.schedule_queue
      → count_if (is_due now) x.schedule_queue ≡ 0
      → Took x ([], x)
  Took-none x v e = (
    v,
    e,
    count_if-not (is_due now) p x.schedule_queue e,
    omega (arith, count_if-both (is_due now) (cached g x.cache) x.schedule_queue e),
  )

  -- One key is popped, and what follows is taken from the rest.
  Took-step :
      (x y : Executor) (k : JobScheduleKey) (rest : List JobScheduleKey) (jobs : List Job)
      → is_due now k ≡ true
      → ((r : JobScheduleKey → Bool) → count_if r rest + one r k ≡ count_if r x.schedule_queue)
      → Took (record x { schedule_queue = rest }) (jobs, y)
      → Took x (elim (lookup k.job_id x.cache) [ none ↦ (jobs, y) | some s ↦ (s.job ∷ jobs, y) ])
  Took-step x y k rest jobs due split (v, e, kept, taken) =
      elim (Option-cases (lookup k.job_id x.cache)) [
        | inl n ↦ rw n (
          v,
          e,
          ground (arith, kept, split (λ k. p k && not (is_due now k))),
          ground (arith, taken, split (λ k. is_due now k && cached g x.cache k)),
        )
        | inr (s, n) ↦ rw n (
          v,
          e,
          ground (arith, kept, split (λ k. p k && not (is_due now k))),
          ground (arith, taken, split (λ k. is_due now k && cached g x.cache k)),
        )
      ]

  pop-length :
      (q : List JobScheduleKey)
      → ((r : JobScheduleKey → Bool) → count_if r (pop q).1 + one r (pop q).0 ≡ count_if r q)
      → suc (length (pop q).1) ≡ length q
  pop-length q split = omega (arith, split (λ k. true), count_if-all q, count_if-all (pop q).1)

  peek-empty : (q : List JobScheduleKey) → length q ≡ 0 → (peek q).job_id ≡ 0
  unfolding peek
  peek-empty [] e = refl
  peek-empty (k ∷ q) e = absurd (omega arith)

  count_if-empty :
      (r : JobScheduleKey → Bool) (q : List JobScheduleKey) → length q ≡ 0 → count_if r q ≡ 0
  count_if-empty r [] e = refl
  count_if-empty r (k ∷ q) e = absurd (omega arith)

  take_due-empty :
      (fuel : ℕ) (x : Executor) → (peek x.schedule_queue).job_id ≡ 0 → take_due fuel now x ≡ ([], x)
  unfolding take_due
  take_due-empty zero x e = refl
  take_due-empty (suc fuel) x e = ground arith

  take_due-later :
      (fuel : ℕ) (x : Executor)
      → is_due now (peek x.schedule_queue) ≡ false
      → take_due fuel now x ≡ ([], x)
  unfolding take_due
  take_due-later zero x e = refl
  take_due-later (suc fuel) x e = ground arith

  take_due-now :
      (fuel : ℕ) (x : Executor)
      → is_due now (peek x.schedule_queue) ≡ true
      → has_no_id (peek x.schedule_queue) ≡ false
      → let rest = take_due fuel now (record x { schedule_queue = (pop x.schedule_queue).1 }) in
        take_due (suc fuel) now x ≡ elim (lookup (peek x.schedule_queue).job_id x.cache) [
          | none ↦ rest
          | some s ↦ (s.job ∷ rest.0, rest.1)
        ]
  unfolding take_due
  take_due-now fuel x e i = ground arith

  take_due-Took :
      (fuel : ℕ) (x : Executor)
      → length x.schedule_queue ≤ fuel
      → IsQueue x.schedule_queue
      → count_if has_no_id x.schedule_queue ≡ 0
      → Took x (take_due fuel now x)
  take_due-Took zero x f v i =
      let e : length x.schedule_queue ≡ 0 = omega arith in
      rw (take_due-empty zero x (peek-empty x.schedule_queue e))
        (Took-none x v (count_if-empty (is_due now) x.schedule_queue e))
  take_due-Took (suc fuel) x f v i =
      let q = x.schedule_queue in
      elim (Bool-cases (length q == 0)) [
        | inl e ↦
            rw (take_due-empty (suc fuel) x (peek-empty q (ground arith)))
              (Took-none x v (count_if-empty (is_due now) q (ground arith)))
        | inr e ↦
            let l : 0 < length q = ground arith in
            let (shown, least, heap, same) = pop-IsQueue q p v l in
            let split : (r : JobScheduleKey → Bool)
                → count_if r (pop q).1 + one r (pop q).0 ≡ count_if r q =
              λ r. (pop-IsQueue q r v l).3 in
            elim (Bool-cases (is_due now (peek q))) [
              | inl d ↦
                  let first : (r : JobScheduleKey → Bool)
                      → count_if r (pop q).1 + one r (peek q) ≡ count_if r q =
                    λ r. rw shown at (split r) in
                  let popped = record x { schedule_queue = (pop q).1 } in
                  let rest = take_due fuel now popped in
                  rw (take_due-now fuel x d (ground (arith, first has_no_id))) (
                    Took-step x rest.1 (peek q) (pop q).1 rest.0 d first (
                      take_due-Took fuel popped (omega (arith, pop-length q split)) heap
                        (omega (arith, first has_no_id))))
              | inr d ↦ rw (take_due-later (suc fuel) x d) (
                  Took-none x v
                    (none_due now (peek q).execution_time q (ground arith) (rw shown at least)))
            ]
      ]

-- With the queue a heap of keys with ids: what stays in the queue is a heap, holds no key that is
-- due, and holds every key that is not; and the jobs taken are those of the due keys that have a
-- schedule in the cache, one for each such key.
pub take_due-IsQueue :
    (now : ℕ) (p : JobScheduleKey → Bool) (g : Job → Bool) (x : Executor)
    → IsQueue x.schedule_queue
    → count_if has_no_id x.schedule_queue ≡ 0
    → let (jobs, y) = take_due (length x.schedule_queue) now x in
      IsQueue y.schedule_queue
      × (count_if (is_due now) y.schedule_queue ≡ 0)
      × (count_if p y.schedule_queue ≡ count_if (λ k. p k && not (is_due now k)) x.schedule_queue)
      × (count g jobs ≡ count_if (λ k. is_due now k && cached g x.cache k) x.schedule_queue)
take_due-IsQueue now p g x v i = take_due-Took now p g (length x.schedule_queue) x (omega arith) v i
