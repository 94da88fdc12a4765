-- ===== src/JobTime/Next.antt =====
-- The loop over the ticks of a cron spec ends, and ends at the first tick after now.
use scheduler.Prelude.{
  ℕ, zero, suc, ◌+◌, ◌<◌, ◌≤◌, ◌≡◌, ◌≢◌, ◌⊎◌, inl, inr, true, false, ◌&&◌, not, some, arith, ltb,
  ◌==◌, if◌then◌else◌, Bool-cases,
}
use scheduler.Models.{Job}
use scheduler.JobTime.{Calendar, advance, is_empty, next_cron_time, get_next_execution_time}

-- The documented promise of a schedule: the next time is later than the time given.
abbrev pub IsRising : (ℕ → ℕ) → Type 0
IsRising next = (t : ℕ) → t < next t

-- The ticks after a time.
pub data Ticks (next : ℕ → ℕ) (t : ℕ) : ℕ → Type 0 where
  start : Ticks next t t
  tick : {u : ℕ} → Ticks next t u → Ticks next t (next u)

-- `t` is reached from the seed by ticks, lies after now, and the tick before it does not.
pub data FirstAfter (next : ℕ → ℕ) (now seed : ℕ) : ℕ → Type 0 where
  at_once : now < seed → FirstAfter next now seed seed
  later : {u : ℕ} → Ticks next seed u → u ≤ now → now < next u → FirstAfter next now seed (next u)

advance-FirstAfter :
    (next : ℕ → ℕ) (now seed : ℕ)
    → IsRising next
    → (fuel : ℕ) {u : ℕ} → Ticks next seed u
    → u ≤ now
    → now ≤ fuel + u
    → FirstAfter next now seed (advance fuel next now (next u))
unfolding advance
advance-FirstAfter next now seed r zero {u} p l f = later p l (omega (arith, r u))
advance-FirstAfter next now seed r (suc fuel) {u} p l f = elim (Bool-cases (ltb now (next u))) [
  | inl e ↦ rw e (later p l (ground arith))
  | inr e ↦
      rw e (advance-FirstAfter next now seed r fuel (tick p) (ground arith) (omega (arith, r u)))
]

advance_seed :
    (next : ℕ → ℕ) (now seed : ℕ)
    → IsRising next
    → FirstAfter next now seed (advance (suc now) next now seed)
unfolding advance
advance_seed next now seed r = elim (Bool-cases (ltb now seed)) [
  | inl e ↦ rw e (at_once (ground arith))
  | inr e ↦ rw e (advance-FirstAfter next now seed r now start (ground arith) (omega arith))
]

-- Where the search for the next tick starts.
abbrev pub seed_of : Calendar → Job → ℕ
seed_of c j = if j.last_execution_date == 0 then c.now else j.last_execution_date

has_run :
    (j : Job)
    → (j.last_execution_date == 0 && not (j.start_date == 0)) ≡ false
    → (j.last_execution_date ≢ 0) ⊎ (j.start_date ≡ 0)
has_run j e = elim (Bool-cases (j.last_execution_date == 0)) [
  | inl h ↦ inr (ground arith)
  | inr h ↦ inl (ground arith)
]

-- A job with a cron spec that parses to a rising schedule, and a zone that loads, has a next
-- time: the start date, if one is set and the job has not run; else, and only then, the first tick after now,
-- counted from the last execution, or from now if there is none (at once, if the last execution
-- lies after now). The loop over the ticks ends.
pub get_next_execution_time-FirstAfter :
    (c : Calendar) (j : Job) (next : ℕ → ℕ)
    → is_empty j.spec ≡ false
    → c.cron j.spec ≡ some next
    → c.zone_loads j.timezone ≡ true
    → IsRising next
    → (t : ℕ) × (get_next_execution_time c j ≡ some t)
      × (((j.last_execution_date ≡ 0) × (j.start_date ≢ 0) × (t ≡ j.start_date))
          ⊎ (((j.last_execution_date ≢ 0) ⊎ (j.start_date ≡ 0))
              × FirstAfter next c.now (seed_of c j) t))
unfolding get_next_execution_time next_cron_time
get_next_execution_time-FirstAfter c j next s p z r =
    elim (Bool-cases (j.last_execution_date == 0 && not (j.start_date == 0))) [
      | inl e ↦ (j.start_date, ground arith, inl (ground arith))
      | inr e ↦ (
        advance (suc c.now) next c.now (seed_of c j),
        ground arith,
        inr (has_run j e, advance_seed next c.now (seed_of c j) r),
      )
    ]
