-- ===== src/SendTime/Minutes.antt =====
-- Minutes of the day on a clock of 24 hours.
use scheduler.Prelude.{ℕ, ◌+◌, ◌-◌, ◌%◌, ◌<◌, ◌≤◌, ◌≡◌, arith, ltb, if◌then◌else◌}
use scheduler.SendTime.{in_quiet, minute_distance}

-- The minutes that the clock goes on from `a` to `b`.
abbrev pub onward : ℕ → ℕ → ℕ
onward a b = ((b + 1440) - a) % 1440

-- A minute is quiet exactly if the clock comes from the start to it before it comes to the end,
-- also where midnight lies between; an interval that ends where it starts is empty.
pub in_quiet_clock :
    (m start end : ℕ)
    → m < 1440
    → start < 1440
    → end < 1440
    → in_quiet m start end ≡ ltb (onward start m) (onward start end)
unfolding in_quiet
in_quiet_clock m start end a b c = ground arith

-- The distance of two minutes of the day is the shorter of the two ways round the clock, is the
-- same in both directions, and is half a day at most.
pub minute_distance_clock :
    (a b : ℕ)
    → a < 1440
    → b < 1440
    → (minute_distance a b ≡ (if ltb (onward a b) (onward b a) then onward a b else onward b a))
      × (minute_distance a b ≡ minute_distance b a)
      × (minute_distance a b ≤ 720)
unfolding minute_distance
minute_distance_clock a b h k = (ground arith, ground arith, ground arith)
