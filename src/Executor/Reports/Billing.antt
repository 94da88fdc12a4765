-- ===== src/Executor/Reports/Billing.antt =====
-- What the reports of a local executor take from an account's count.
use mathlib.Core.List.{append-nil, append_assoc}
use scheduler.Prelude.{
  none, ◌∙◌, sym, keep, map, if◌then◌else◌, Bool-cases, inl, inr, ℕ, ◌+◌, ◌-◌, ◌<◌, ◌≡◌, Bool, ◌&&◌,
  not, Option, some, List, [], ◌∷◌, ◌++◌, length, lookup, count, arith, refl, length-append,
}
use scheduler.Prelude.Result.{ok, Text}
use scheduler.Executor.Invocation.{JobExecutor, local_executor}
use scheduler.Executor.Reports.{
  LocalExecutionReport, LogRow, is_malformed, is_billable, row_of, parse_report_time, or_zero_time,
  read_reports, decrement_account_quota, get_local_executor, log_rows, report_executions,
}

abbrev pub is_well_formed : LocalExecutionReport → Bool
is_well_formed r = not (is_malformed r)

-- A well-formed report of a run that has ended.
abbrev pub is_billed : LocalExecutionReport → Bool
is_billed r = not (is_malformed r) && is_billable r

-- The time of an RFC 3339 text; the zero time, where the text is empty or is none.
abbrev pub time_of : (Text → Option ℕ) → Text → ℕ
time_of parse [] = 0
time_of parse (x ∷ xs) = elim (parse (x ∷ xs)) [ none ↦ 0 | some t ↦ t ]

-- A row that says what the report says.
abbrev pub IsRowOf : (Text → Option ℕ) → LocalExecutionReport → LogRow → Type 0
IsRowOf parse r x =
    (x.unique_id ≡ r.unique_id)
    × (x.state ≡ r.state)
    × (x.job_id ≡ r.job_id)
    × (x.job_queue_version ≡ r.job_queue_version)
    × (x.execution_version ≡ r.execution_version)
    × (x.last_execution_datetime ≡ time_of parse r.last_execution_time)
    × (x.next_execution_datetime ≡ time_of parse r.next_execution_time)

-- One row for each report, in their order.
abbrev pub AreLogged : (Text → Option ℕ) → List LocalExecutionReport → List LogRow → Type 0
AreLogged parse [] [] = Unit {0}
AreLogged parse [] (x ∷ xs) = ⊥
AreLogged parse (r ∷ rs) [] = ⊥
AreLogged parse (r ∷ rs) (x ∷ xs) = IsRowOf parse r x × AreLogged parse rs xs

module _ (parse : Text → Option ℕ) where
  time_of_lem : (v : Text) → parse_report_time parse v ≡ time_of parse v
  unfolding parse_report_time
  time_of_lem [] = refl
  time_of_lem (x ∷ xs) = or_zero (parse (x ∷ xs))
    where
      or_zero : (o : Option ℕ) → or_zero_time o ≡ (elim o [ none ↦ 0 | some t ↦ t ])
      or_zero none = refl
      or_zero (some t) = refl

  row_of-IsRowOf : (r : LocalExecutionReport) → IsRowOf parse r (row_of parse r)
  row_of-IsRowOf r = (
    refl,
    refl,
    refl,
    refl,
    refl,
    time_of_lem r.last_execution_time,
    time_of_lem r.next_execution_time,
  )

  -- The rows that are read, behind those there were.
  rows_read : List LocalExecutionReport → List LogRow
  rows_read rs = map (row_of parse) (keep is_well_formed rs)

  rows_read-AreLogged :
      (rs : List LocalExecutionReport) → AreLogged parse (keep is_well_formed rs) (rows_read rs)
  unfolding rows_read
  rows_read-AreLogged rs = each (keep is_well_formed rs)
    where
      each : (xs : List LocalExecutionReport) → AreLogged parse xs (map (row_of parse) xs)
      each [] = tt
      each (x ∷ xs) = (row_of-IsRowOf x, each xs)

  read_reports-rows_read :
      (rs : List LocalExecutionReport) (rows : List LogRow) (b : ℕ)
      → (read_reports parse rs rows b).0 ≡ rows ++ rows_read rs
  unfolding read_reports rows_read
  read_reports-rows_read [] rows b = sym (append-nil rows)
  read_reports-rows_read (r ∷ rs) rows b = elim (Bool-cases (is_malformed r)) [
    | inl h ↦ rw (h) (read_reports-rows_read rs rows b)
    | inr h ↦ rw (h) (
        read_reports-rows_read rs (rows ++ row_of parse r ∷ []) (if is_billable r then b + 1 else b)
        ∙ append_assoc rows (row_of parse r ∷ []) (rows_read rs))
  ]

  read_reports-rows :
      (rs : List LocalExecutionReport) (rows : List LogRow) (b : ℕ)
      → length (read_reports parse rs rows b).0 ≡ length rows + count is_well_formed rs
  unfolding read_reports
  read_reports-rows [] rows b = omega arith
  read_reports-rows (r ∷ rs) rows b = ground (
    arith,
    read_reports-rows rs rows b,
    read_reports-rows rs (rows ++ row_of parse r ∷ []) b,
    read_reports-rows rs (rows ++ row_of parse r ∷ []) (b + 1),
    length-append rows (row_of parse r ∷ []),
  )

  read_reports-billed :
      (rs : List LocalExecutionReport) (rows : List LogRow) (b : ℕ)
      → (read_reports parse rs rows b).1 ≡ b + count is_billed rs
  unfolding read_reports
  read_reports-billed [] rows b = omega arith
  read_reports-billed (r ∷ rs) rows b = ground (
    arith,
    read_reports-billed rs rows b,
    read_reports-billed rs (rows ++ row_of parse r ∷ []) b,
    read_reports-billed rs (rows ++ row_of parse r ∷ []) (b + 1),
  )

count_billed-le :
    (rs : List LocalExecutionReport) → 0 < count is_billed rs → 0 < count is_well_formed rs
count_billed-le [] h = h
count_billed-le (r ∷ rs) h = ground (arith, count_billed-le rs)

decrement_account_quota_lem :
    (a delta d c : ℕ) (counts : List (ℕ × ℕ))
    → delta ≡ d
    → 1 < a
    → 0 < d
    → lookup a counts ≡ some c
    → decrement_account_quota a delta (some counts) ≡ some (c - d)
unfolding decrement_account_quota
decrement_account_quota_lem a delta d c counts q i p e =
    rw (decrement_account_quota, e) (ground arith)

log_rows-some :
    (a : ℕ) (counts : Option (List (ℕ × ℕ))) (rows : List LogRow) (b : ℕ)
    → 0 < length rows
    → log_rows a counts (rows, b)
      ≡ (ok (length rows), record { logged = rows; updated = decrement_account_quota a b counts })
log_rows-some a counts [] b h = absurd (omega arith)
log_rows-some a counts (x ∷ xs) b h = refl

get_local_executor_lem :
    (e : JobExecutor) → 0 < e.id → e.kind ≡ local_executor → get_local_executor (ok (some e)) ≡ ok e
unfolding get_local_executor
get_local_executor_lem e i k = rw k (ground arith)

-- A local executor reports for an account above 1 that has a count, and some of its well-formed
-- reports are of runs that have ended: then every well-formed report is answered for and logged, in
-- their order and in a row with its id, state, job, versions and times (the zero time for a text
-- that is no time), and the count is lowered by the ended ones, to zero at least.
pub report_executions-bills :
    (parse : Text → Option ℕ) (e : JobExecutor) (counts : List (ℕ × ℕ)) (a c : ℕ)
    (reports : List LocalExecutionReport)
    → 0 < e.id
    → e.kind ≡ local_executor
    → 1 < a
    → lookup a counts ≡ some c
    → 0 < count is_billed reports
    → ((report_executions parse (ok (some e)) (some counts) a reports).0
        ≡ ok (count is_well_formed reports))
      × AreLogged parse
          (keep is_well_formed reports)
          (report_executions parse (ok (some e)) (some counts) a reports).1.logged
      × ((report_executions parse (ok (some e)) (some counts) a reports).1.updated
          ≡ some (c - count is_billed reports))
unfolding report_executions
report_executions-bills parse e counts a c reports i k j f h =
    let (rows, b) = read_reports parse reports [] 0 in
    let n : length rows ≡ count is_well_formed reports =
      omega (arith, read_reports-rows parse reports [] 0) in
    let m : b ≡ count is_billed reports = omega (arith, read_reports-billed parse reports [] 0) in
    let found : get_local_executor (ok (some e)) ≡ ok e = get_local_executor_lem e i k in
    let logged = log_rows-some a (some counts) rows b (rw n (count_billed-le reports h)) in
    (
      rw (report_executions, found, logged, n),
      rw (report_executions, found, logged, read_reports-rows_read parse reports [] 0)
          (rows_read-AreLogged parse reports),
      rw (report_executions, found, logged)
          (decrement_account_quota_lem a b (count is_billed reports) c counts m j h f),
    )
