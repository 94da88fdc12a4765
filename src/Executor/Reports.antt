-- ===== src/Executor/Reports.antt =====
-- `ReportExecutions` of pkg/service/executor/executor.go: a local executor tells of its runs, which
-- are logged and taken from the account's count of executions.
pub mod Billing
use scheduler.Prelude.{
  ℕ, ◌+◌, ◌-◌, Bool, true, false, ◌&&◌, ◌||◌, not, Option, none, some, List, [], ◌∷◌, ltb, ◌==◌,
  if◌then◌else◌, length, lookup, keep, map, count, ◌++◌,
}
use scheduler.Prelude.Result.{Result, ok, err, bad_request, not_found, Text, is_empty}
use scheduler.Executor.Invocation.{
  JobExecutor, ExecutorType, local_executor, webhook_url, cloud_function, unknown_type,
}

pub record LocalExecutionReport : Type 0 where
  pub job_id : ℕ
  pub unique_id : Text
  pub state : ℕ
  pub last_execution_time : Text
  pub next_execution_time : Text
  pub execution_version : ℕ
  pub job_queue_version : ℕ

-- A row of the log; the node, the account and the time of the report are the same for all rows.
pub record LogRow : Type 0 where
  pub unique_id : Text
  pub state : ℕ
  pub last_execution_datetime : ℕ
  pub next_execution_datetime : ℕ
  pub job_id : ℕ
  pub job_queue_version : ℕ
  pub execution_version : ℕ

-- What is asked of the repositories: the rows that raft logs, and the account's new count.
pub record Reported : Type 0 where
  pub logged : List LogRow
  pub updated : Option ℕ

abbrev pub nothing : Reported
nothing = record { logged = []; updated = none }

abbrev pub or_zero_time : Option ℕ → ℕ
or_zero_time none = 0
or_zero_time (some t) = t

-- `parse` is `time.Parse` with RFC 3339.
unfoldable pub parse_report_time : (Text → Option ℕ) → Text → ℕ
parse_report_time parse value = if is_empty value then 0 else or_zero_time (parse value)

abbrev pub is_malformed : LocalExecutionReport → Bool
is_malformed r = r.job_id == 0 || is_empty r.unique_id

abbrev pub is_billable : LocalExecutionReport → Bool
is_billable r = not (r.state == 0)

abbrev pub row_of : (Text → Option ℕ) → LocalExecutionReport → LogRow
row_of parse r = record {
  unique_id = r.unique_id;
  state = r.state;
  last_execution_datetime = parse_report_time parse r.last_execution_time;
  next_execution_datetime = parse_report_time parse r.next_execution_time;
  job_id = r.job_id;
  job_queue_version = r.job_queue_version;
  execution_version = r.execution_version;
}

-- The rows, and how many of them are billed.
unfoldable pub read_reports :
    (Text → Option ℕ) → List LocalExecutionReport → List LogRow → ℕ → List LogRow × ℕ
unfolding parse_report_time
read_reports parse [] rows billable = (rows, billable)
read_reports parse (r ∷ rs) rows billable =
    if is_malformed r
    then read_reports parse rs rows billable
    else read_reports parse rs (rows ++ row_of parse r ∷ [])
        (if is_billable r then billable + 1 else billable)

-- `decrementAccountQuota`; `counts` is what the repository answers.
unfoldable pub decrement_account_quota : ℕ → ℕ → Option (List (ℕ × ℕ)) → Option ℕ
decrement_account_quota a delta none = none
decrement_account_quota a delta (some counts) =
    if delta == 0 || a == 0 || a == 1 then none else (elim (lookup a counts) [
      | none ↦ none
      | some current ↦ some (if ltb delta current then current - delta else 0)
    ])

abbrev pub is_local : ExecutorType → Bool
is_local local_executor = true
is_local webhook_url = false
is_local cloud_function = false
is_local unknown_type = false

-- `getLocalExecutor`, of the repository's answer, which may be nil.
unfoldable pub get_local_executor : Result (Option JobExecutor) → Result JobExecutor
get_local_executor (err e) = err e
get_local_executor (ok none) = err not_found
get_local_executor (ok (some e)) =
    if e.id == 0 then err not_found else if is_local e.kind then ok e else err bad_request

abbrev pub log_rows : ℕ → Option (List (ℕ × ℕ)) → List LogRow × ℕ → Result ℕ × Reported
log_rows a counts ([], billable) = (ok 0, nothing)
log_rows a counts (x ∷ xs, billable) = (
  ok (length (x ∷ xs)),
  record { logged = x ∷ xs; updated = decrement_account_quota a billable counts },
)

unfoldable pub report_executions :
    (Text → Option ℕ)
    → Result (Option JobExecutor)
    → Option (List (ℕ × ℕ))
    → ℕ
    → List LocalExecutionReport
    → Result ℕ × Reported
unfolding get_local_executor read_reports decrement_account_quota
report_executions parse executor counts a reports = elim (get_local_executor executor) [
  | err e ↦ (err e, nothing)
  | ok x ↦ log_rows a counts (read_reports parse reports [] 0)
]
