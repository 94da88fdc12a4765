-- ===== src/JobTime.antt =====
-- pkg/models/job.go: when a job runs next, and whether it has started or ended. The time zone
-- database and the cron parser are outside the repository: they are the fields of `Calendar`.
-- `time.Now` is a field too; an instant is the same in every zone.
pub mod Next
use scheduler.Prelude.{
  ℕ, zero, suc, ◌+◌, ◌<◌, Bool, true, false, ◌&&◌, not, Option, none, some, List, [], ◌∷◌, ltb,
  ◌==◌, if◌then◌else◌,
}
use scheduler.Models.{Job}

-- `zone_loads` tells whether `time.LoadLocation` succeeds, `cron` is `cron.Parse` with the
-- schedule's `Next`, and `digest` the hex text that `GetNextExecutionId` prints of the project,
-- the job, the last and the next execution.
pub record Calendar : Type 0 where
  pub now : ℕ
  pub zone_loads : List ℕ → Bool
  pub cron : List ℕ → Option (ℕ → ℕ)
  pub digest : ℕ → ℕ → ℕ → ℕ → List ℕ

-- `for !currentTime.After(now) { currentTime = schedule.Next(currentTime) }`.
unfoldable pub advance : ℕ → (ℕ → ℕ) → ℕ → ℕ → ℕ
advance zero next now t = t
advance (suc fuel) next now t =
    let rest = advance fuel next now (next t) in if ltb now t then t else rest

abbrev pub is_empty : List ℕ → Bool
is_empty [] = true
is_empty (c ∷ cs) = false

-- A job with a cron spec: the start date if it has not run, else the first tick after now.
unfoldable pub next_cron_time : Calendar → Job → Option ℕ
next_cron_time c j = elim (c.cron j.spec) [
  | none ↦ none
  | some next ↦
      if not (c.zone_loads j.timezone)
      then none
      else if j.last_execution_date == 0 && not (j.start_date == 0)
      then some j.start_date
      else (let from = if j.last_execution_date == 0 then c.now else j.last_execution_date in
          some (advance (suc c.now) next c.now from))
]

-- `GetNextExecutionTime`; `none` is an error. A job with no spec runs once, and has the zero time
-- as its next time when it has run.
unfoldable pub get_next_execution_time : Calendar → Job → Option ℕ
get_next_execution_time c j =
    if is_empty j.spec
    then (if j.start_date == 0
        then none
        else if not (j.last_execution_date == 0)
        then some 0
        else if c.zone_loads j.timezone
        then some j.start_date
        else none)
    else next_cron_time c j

-- `GetNextExecutionId`: the empty text, and no error, where there is no next time.
unfoldable pub get_next_execution_id : Calendar → Job → List ℕ
get_next_execution_id c j = elim (get_next_execution_time c j) [
  | none ↦ []
  | some t ↦ c.digest j.project_id j.id j.last_execution_date t
]

-- `HasJobEnded` and `IsStartDateInPast`; `none` is an error.
unfoldable pub has_job_ended : Calendar → Job → Option Bool
has_job_ended c j =
    if j.end_date == 0
    then some false
    else if c.zone_loads j.timezone
    then some (ltb j.end_date c.now)
    else none

unfoldable pub is_start_date_in_past : Calendar → Job → Option Bool
is_start_date_in_past c j =
    if j.start_date == 0
    then some false
    else if c.zone_loads j.timezone
    then some (ltb j.start_date c.now)
    else none
