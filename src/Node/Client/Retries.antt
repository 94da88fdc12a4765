-- ===== src/Node/Client/Retries.antt =====
-- Which attempt an operation returns, and how long it pauses.
use native.Mathlib.Nat.{mod-lt}
use scheduler.Prelude.{
  ℕ, zero, suc, ◌+◌, ◌/◌, ◌%◌, ◌≤◌, ◌<◌, ◌≡◌, ◌⊎◌, Bool, true, false, not, List, [], ◌∷◌, ltb,
  arith, refl, Bool-cases, inl, inr,
}
use scheduler.Node.Payloads.{Codec, NodeTcpPayload}
use scheduler.Node.Client.{
  ClientError, cancelled, Answer, done, error, is_retriable, Trial, Tried, next_backoff, pause,
  try_once, after_pause, settle_attempt, retry_loop, with_retry,
}

abbrev pub total : List ℕ → ℕ
total [] = 0
total (p ∷ ps) = p + total ps

-- The longest pauses, with this many attempts to come.
abbrev longest : ℕ → ℕ → ℕ
longest zero b = 0
longest (suc left) b = b + b / 2 + longest left (next_backoff b)

below : (r m : ℕ) → ltb 0 m ≡ true → r % m < m
below r m h = mod-lt r (ground arith)

pause-le : (b r : ℕ) → pause b r ≤ b + b / 2
pause-le b r = elim (Bool-cases (ltb 0 (b / 2))) [
  | inl h ↦ rw h (omega (arith, below r (b / 2) h))
  | inr h ↦ rw h (omega arith)
]

module _ {A : Type 0} (c : Codec) (check : NodeTcpPayload → Answer A) (trials : ℕ → Trial) where
  -- What the attempt `n` ends with.
  abbrev pub outcome : ℕ → Answer A
  outcome n = try_once c check (trials n).exchange

  abbrev pub is_settled : Answer A → Bool
  is_settled (done x) = true
  is_settled (error e) = not (is_retriable e)

  -- The `m` attempts from `k` on ended with errors that may pass.
  abbrev pub Unsettled : ℕ → ℕ → Type 0
  Unsettled k zero = Unit {0}
  Unsettled k (suc m) = (is_settled (outcome k) ≡ false) × Unsettled (k + 1) m

  -- The context is done before the attempt `n`, or in the pause after it.
  abbrev pub Stopped : ℕ → Type 0
  Stopped n = ((trials n).done_before ≡ true) ⊎ ((trials n).done_after ≡ true)

  -- What is returned by attempts from `k` on, `last` at most: `n` is the last that was made.
  abbrev pub Returns : ℕ → ℕ → Tried A → Type 0
  Returns k last t =
      ((n : ℕ) × (n ≤ last) × Stopped n × (t.answer ≡ error cancelled))
      ⊎ ((n : ℕ) × (m : ℕ) × (k + m ≡ n)
          × (t.attempts ≡ suc m)
          × (n ≤ last)
          × (t.answer ≡ outcome n)
          × Unsettled k m
          × ((n ≡ last) ⊎ (is_settled (outcome n) ≡ true)))

  abbrev Bounded : ℕ → ℕ → Tried A → Type 0
  Bounded left b t = (t.attempts ≤ suc left) × (total t.pauses ≤ longest left b)

  settle_attempt-Bounded :
      (t : Trial) (left b : ℕ) (rest : Tried A) (r : Answer A)
      → Bounded left (next_backoff b) rest
      → Bounded (suc left) b (settle_attempt t b rest r)
  settle_attempt-Bounded t left b rest (done x) v = omega arith
  settle_attempt-Bounded t left b rest (error e) v = ground (arith, pause-le b t.random)

  retry_loop-Bounded : (left k b : ℕ) → Bounded left b (retry_loop c check left k b trials)
  unfolding retry_loop
  retry_loop-Bounded zero k b = ground arith
  retry_loop-Bounded (suc left) k b =
      let v = retry_loop-Bounded left (k + 1) (next_backoff b) in
      elim (Bool-cases (trials k).done_before) [
        | inl h ↦ rw (h, retry_loop) (omega arith, omega arith)
        | inr h ↦
            rw (h, retry_loop)
              (settle_attempt-Bounded (trials k) left b
                (retry_loop c check left (k + 1) (next_backoff b) trials) (outcome k) v)
      ]

  -- An attempt that is not settled is added before later ones.
  add_attempt :
      (k last p : ℕ) (rest : Tried A)
      → is_settled (outcome k) ≡ false
      → Returns (k + 1) last rest
      → Returns k last (after_pause p rest)
  add_attempt k last p rest o (inl a) = inl a
  add_attempt k last p rest o (inr (n, m, e, a, l, r, f, z)) =
      inr (n, suc m, omega arith, omega arith, l, r, (o, f), z)

  settle_error :
      (k last b : ℕ) (rest : Tried A) (e : ClientError)
      → outcome k ≡ error e
      → k < last
      → Returns (k + 1) last rest
      → Returns k last (settle_attempt (trials k) b rest (error e))
  settle_error k last b rest e q l v = elim (Bool-cases (is_retriable e)) [
    | inr r ↦ rw r (inr (k, 0, omega arith, omega arith, omega arith, rw q, tt, inr (rw (q, r))))
    | inl r ↦ elim (Bool-cases (trials k).done_after) [
      | inl s ↦ rw (r, s) (inl (k, omega arith, inr s, refl))
      | inr s ↦ rw (r, s) (add_attempt k last (pause b (trials k).random) rest (rw (q, r)) v)
    ]
  ]

  Answer-cases : (r : Answer A) → ((x : A) × (r ≡ done x)) ⊎ ((e : ClientError) × (r ≡ error e))
  Answer-cases (done x) = inl (x, refl)
  Answer-cases (error e) = inr (e, refl)

  retry_loop-Returns :
      (left k b last : ℕ) → k + left ≡ last → Returns k last (retry_loop c check left k b trials)
  unfolding retry_loop
  retry_loop-Returns zero k b last e = elim (Bool-cases (trials k).done_before) [
    | inl h ↦ rw (h, retry_loop) (inl (k, omega arith, inl h, refl))
    | inr h ↦
        rw (h, retry_loop)
          (inr (k, 0, omega arith, omega arith, omega arith, refl, tt, inl (omega arith)))
  ]
  retry_loop-Returns (suc left) k b last e = elim (Bool-cases (trials k).done_before) [
    | inl h ↦ rw (h, retry_loop) (inl (k, omega arith, inl h, refl))
    | inr h ↦
        let v = retry_loop-Returns left (k + 1) (next_backoff b) last (omega arith) in
        elim (Answer-cases (outcome k)) [
          | inl (x, q) ↦
              rw (h, retry_loop, q)
                (inr (k, 0, omega arith, omega arith, omega arith, rw q, tt, inr (rw q)))
          | inr (x, q) ↦
              rw (h, retry_loop, q)
                (settle_error k last b (retry_loop c check left (k + 1) (next_backoff b) trials) x q
                  (omega arith) v)
        ]
  ]

  -- An operation is tried four times at most, with pauses of 2.1 seconds at most in all. If its
  -- context is not done before an attempt or in the pause after one, it returns what its last
  -- attempt ended with: those before it ended with errors of the network that may pass, and it did
  -- not, or is the fourth.
  pub with_retry-Returns :
      Returns 0 3 (with_retry c check trials)
      × ((with_retry c check trials).attempts ≤ 4)
      × (total (with_retry c check trials).pauses ≤ 2100000000)
  unfolding with_retry
  with_retry-Returns =
      let (n, p) = retry_loop-Bounded 3 0 200000000 in
      (retry_loop-Returns 3 0 200000000 3 refl, n, p)
