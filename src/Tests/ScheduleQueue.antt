-- ===== src/Tests/ScheduleQueue.antt =====
-- The queue of pending executions and the next time of a job at small inputs.
use scheduler.Prelude.{
  ℕ, zero, suc, ◌+◌, ◌≡◌, refl, Bool, true, some, List, [], ◌∷◌, arith, ◌==◌, ◌≢◌, ◌⊎◌,
}
use scheduler.Models.{Job, JobScheduleKey}
use scheduler.JobTime.{Calendar, get_next_execution_time, next_cron_time, advance}
use scheduler.JobTime.Next.{FirstAfter, get_next_execution_time-FirstAfter}
use scheduler.ScheduleQueue.{pop, peek}
use scheduler.ScheduleQueue.Elements.{count_if, one}
use scheduler.ScheduleQueue.Laws.{IsQueue, due_before, pop-IsQueue}
use scheduler.Tests.Queue.{job_of}

abbrev key : ℕ → ℕ → JobScheduleKey
key id t = record { job_id = id; execution_time = t }

-- Job 7 is due at 4, job 8 at 9, and job 7 again at 6.
abbrev pub three_keys : List JobScheduleKey
three_keys = key 7 4 ∷ key 8 9 ∷ key 7 6 ∷ []

pub three_keys-IsQueue : IsQueue three_keys
three_keys-IsQueue zero p l = omega arith
three_keys-IsQueue (suc zero) p l = omega arith
three_keys-IsQueue (suc (suc zero)) p l = omega arith
three_keys-IsQueue (suc (suc (suc k))) p l = absurd (omega arith)

abbrev is_seven : JobScheduleKey → Bool
is_seven k = k.job_id == 7

pop_order : pop three_keys ≡ (key 7 4, key 7 6 ∷ key 8 9 ∷ [])
unfolding pop
pop_order = refl

pop-IsQueue_example :
    ((pop three_keys).0 ≡ peek three_keys)
    × (count_if (due_before (pop three_keys).0.execution_time) three_keys ≡ 0)
    × IsQueue (pop three_keys).1
    × (count_if is_seven (pop three_keys).1 + one is_seven (pop three_keys).0
        ≡ count_if is_seven three_keys)
pop-IsQueue_example = pop-IsQueue three_keys is_seven three_keys-IsQueue (omega arith)

-- A tick at every tenth instant after the last; it is now instant 27.
abbrev pub calendar : Calendar
calendar = record {
  now = 27;
  zone_loads = λ z. true;
  cron = λ s. some (λ t. t + 10);
  digest = λ p j a b. a ∷ b ∷ [];
}

abbrev pub ten : Job
ten = record (job_of 3 4) { spec = b'@' ∷ []; last_execution_date = 6 }

next_of_ten : get_next_execution_time calendar ten ≡ some 36
unfolding get_next_execution_time next_cron_time advance
next_of_ten = refl

get_next_execution_time-FirstAfter_example :
    (t : ℕ) × (get_next_execution_time calendar ten ≡ some t)
    × (((ten.last_execution_date ≡ 0) × (ten.start_date ≢ 0) × (t ≡ ten.start_date))
        ⊎ (((ten.last_execution_date ≢ 0) ⊎ (ten.start_date ≡ 0))
            × FirstAfter (λ u. u + 10) 27 6 t))
get_next_execution_time-FirstAfter_example =
    get_next_execution_time-FirstAfter calendar ten (λ t. t + 10) refl refl refl (λ t. omega arith)
