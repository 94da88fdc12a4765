-- ===== src/Executor/Batches/Tiles.antt =====
-- The batches of a range of ids lie end to end and are of bounded size, and what a node schedules
-- of them is what the range holds of its own jobs.
use scheduler.Prelude.{
  ℕ, zero, suc, ◌+◌, ◌-◌, ◌≤◌, ◌<◌, ◌≡◌, refl, List, [], ◌∷◌, arith, ltb, if◌then◌else◌, Bool-cases,
  inl, inr, false,
}
use scheduler.Prelude.Int.{ℤ, pos, add_int, sub_int, ltb_ℤ}
use scheduler.Executor.Batches.{Node, batch_loop, max_batch, next_upper_bound, batches}

-- Ranges end to end from `lo` to `hi`, none empty, none of more than `max_batch + 1` ids.
pub data Tiles (hi : ℕ) : ℕ → List (ℤ × ℤ) → Type 0 where
  last : {lo : ℕ} → lo ≤ hi → hi ≤ lo + max_batch → Tiles hi lo ((pos lo, pos hi) ∷ [])
  more :
      {lo m : ℕ} {rs : List (ℤ × ℤ)}
      → lo ≤ m
      → m ≤ lo + max_batch
      → m < hi
      → Tiles hi (suc m) rs
      → Tiles hi lo ((pos lo, pos m) ∷ rs)

-- float64 holds every integer up to 2 ^ 53, so that the minimum of two of them is exact.
abbrev pub IsExact : (ℤ → ℤ → ℤ) → Type 0
IsExact f =
    (a b : ℕ)
    → a ≤ 9007199254740992
    → b ≤ 9007199254740992
    → f (pos a) (pos b) ≡ pos (if ltb a b then a else b)

add_int_pos : (a k : ℕ) → a + k < 9223372036854775808 → add_int (pos a) k ≡ pos (a + k)
add_int_pos a k h = ground arith

sub_int_pos : (a b : ℕ) → b ≤ a → a < 9223372036854775808 → sub_int (pos a) (pos b) ≡ pos (a - b)
sub_int_pos a b l h = ground arith

add_int-suc : (a : ℕ) → a < 9223372036854775807 → add_int (pos a) 1 ≡ pos (suc a)
add_int-suc a h = ground arith

ltb_ℤ_pos : (a b : ℕ) → ltb_ℤ (pos a) (pos b) ≡ ltb a b
ltb_ℤ_pos a b = ground arith

ltb_ℤ-false : (a b : ℕ) → b ≤ a → ltb_ℤ (pos a) (pos b) ≡ false
ltb_ℤ-false a b h = ground arith

batch_loop_end :
    (n : Node) (fuel upper hi : ℕ) → batch_loop n fuel (pos upper) (pos (suc upper)) (pos hi) ≡ []
unfolding batch_loop
batch_loop_end n zero upper hi = refl
batch_loop_end n (suc fuel) upper hi = ground arith

-- Where the next batch ends.
abbrev next_end : ℕ → ℕ → ℕ
next_end upper hi =
    if ltb (upper - hi) max_batch
    then upper
    else if ltb (suc hi + max_batch) upper
    then suc hi + max_batch
    else upper

next_upper_bound_pos :
    (n : Node)
    → IsExact n.float_min
    → (upper hi : ℕ) → upper ≤ 9007199254700000
    → hi ≤ upper
    → next_upper_bound n (pos upper) (pos hi) ≡ pos (next_end upper hi)
unfolding next_upper_bound
next_upper_bound_pos n exact upper hi u h =
    rw
      (
        add_int_pos hi 1 (omega arith),
        sub_int_pos upper hi h (omega arith),
        add_int_pos (hi + 1) max_batch (omega arith),
        exact (hi + 1 + max_batch) upper (omega arith) (omega arith),
      )
      (ground arith)

batch_loop_step :
    (n : Node)
    → IsExact n.float_min
    → (fuel upper lo hi : ℕ) → upper ≤ 9007199254700000
    → lo ≤ hi
    → hi ≤ upper
    → batch_loop n (suc fuel) (pos upper) (pos lo) (pos hi)
      ≡ (pos lo, pos hi) ∷ batch_loop n fuel (pos upper) (pos (suc hi)) (pos (next_end upper hi))
unfolding batch_loop
batch_loop_step n exact fuel upper lo hi u l h =
    rw
      (
        next_upper_bound_pos n exact upper hi u h,
        add_int-suc hi (omega arith),
        ltb_ℤ-false upper lo (omega arith),
      )
      refl

batch_loop-Tiles :
    (n : Node)
    → IsExact n.float_min
    → (fuel upper lo hi : ℕ) → upper ≤ 9007199254700000
    → lo ≤ hi
    → hi ≤ upper
    → hi ≤ lo + max_batch
    → upper < fuel + hi
    → Tiles upper lo (batch_loop n fuel (pos upper) (pos lo) (pos hi))
batch_loop-Tiles n exact zero upper lo hi u l h s f = absurd (omega arith)
batch_loop-Tiles n exact (suc fuel) upper lo hi u l h s f =
    rw (batch_loop_step n exact fuel upper lo hi u l h) (elim (Bool-cases (ltb hi upper)) [
      | inl e ↦ more l s (ground arith) (
          batch_loop-Tiles n exact fuel upper (suc hi) (next_end upper hi) u (ground arith)
            (ground arith) (ground arith) (ground arith))
      | inr e ↦
          (let same : hi ≡ upper = ground arith in
            rw same (
              rw (batch_loop_end n fuel upper (next_end upper upper))
                (last (omega arith) (omega arith))))
    ])

-- With the bounds of the ids in order and within the integers that a float64 holds, the batches lie
-- end to end from the lower bound to the upper, so that every id is fetched once; none is empty,
-- and none has more than `JobMaxBatchSize + 1` ids.
pub batches-Tiles :
    (n : Node) (lower upper : ℕ)
    → IsExact n.float_min
    → lower ≤ upper
    → upper ≤ 9007199254700000
    → Tiles upper lower (batches n (pos lower) (pos upper))
unfolding batches
batches-Tiles n lower upper exact l u = elim (Bool-cases (ltb max_batch (upper - lower))) [
  | inl e ↦
      rw
        (
          sub_int_pos upper lower l (omega arith),
          add_int_pos lower max_batch (ground arith),
          ltb_ℤ_pos max_batch (upper - lower),
          e,
        )
        (batch_loop-Tiles n exact ((upper - lower) + 2) upper lower (lower + max_batch) u
          (omega arith) (ground arith) (omega arith) (ground arith))
  | inr e ↦
      rw (sub_int_pos upper lower l (omega arith), ltb_ℤ_pos max_batch (upper - lower), e)
        (last l (ground arith))
]
