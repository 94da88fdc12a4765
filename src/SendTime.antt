-- ===== src/SendTime.antt =====
-- pkg/service/sendtime/sendtime.go: which instants suit the sender and the recipients of a
-- message, and which of the ranked candidates are suggested. The time zone database is outside
-- the repository: a participant carries its local time of an instant. The ratio of recipients is a
-- float64; its comparison with the required coverage is a field of the context. Scores and the
-- order that they give are not modelled.
pub mod Minutes
pub mod Evaluate
pub mod Select
use scheduler.Prelude.{
  ℕ, zero, suc, ◌+◌, ◌-◌, ◌*◌, ◌%◌, Bool, true, false, ◌&&◌, ◌||◌, not, Option, none, some, List,
  [], ◌∷◌, ◌++◌, ltb, leb, ◌==◌, if◌then◌else◌, length, take, any,
}
use scheduler.Prelude.Int.{ℤ, pos, ltb_ℤ, to_int64, to_uint64}

-- `local.Weekday()` from Sunday as 0, the minute of the day, and the date as text.
pub record Local : Type 0 where
  pub day : ℕ
  pub minute : ℕ
  pub date : List ℕ

-- A `resolvedParticipant`; `is_primary` is `strings.EqualFold(role, "primary")`.
pub record Participant : Type 0 where
  pub is_primary : Bool
  pub local : ℕ → Local
  pub works_on : ℕ → Bool
  pub work_start : ℕ
  pub work_end : ℕ
  pub quiet : Option (ℕ × ℕ)
  pub busy : List (ℕ × ℕ)

pub data Strategy : Type 0 where
  best_effort primary_recipients majority all_recipients : Strategy

-- A `scoringContext`. `ratio_meets v n` is `float64(v) / float64(n) >= requiredCoverage`, with 0 for
-- the ratio where `n` is 0; `below_one` is `requiredCoverage < 1.0`.
pub record Context : Type 0 where
  pub reference_instant : ℕ
  pub sender : Option Participant
  pub recipients : List Participant
  pub holiday_set : List (List ℕ)
  pub avoid_weekends : Bool
  pub avoid_holidays : Bool
  pub working_hours_only : Bool
  pub respect_quiet : Bool
  pub require_cal_free : Bool
  pub strategy : Strategy
  pub below_one : Bool
  pub ratio_meets : ℕ → ℕ → Bool

pub record LocalEval : Type 0 where
  pub day : ℕ
  pub min_of_day : ℕ
  pub within_working : Bool
  pub within_quiet : Bool
  pub is_weekend : Bool
  pub is_holiday : Bool
  pub is_busy : Bool

pub data Reason : Type 0 where
  below_min_delay sender_quiet weekend holiday outside_work recipient_quiet calendar_busy
        insufficient_coverage :
      Reason

-- `inQuiet`: an interval that may cross midnight.
unfoldable pub in_quiet : ℕ → ℕ → ℕ → Bool
in_quiet m start end =
    if start == end
    then false
    else if ltb start end
    then leb start m && ltb m end
    else leb start m || ltb m end

-- `minuteDistance`: the distance of two minutes on a clock of 24 hours.
unfoldable pub minute_distance : ℕ → ℕ → ℕ
minute_distance a b =
    let diff = if ltb a b then b - a else a - b in if ltb 720 diff then 1440 - diff else diff

abbrev pub equal_text : List ℕ → List ℕ → Bool
equal_text [] [] = true
equal_text [] (d ∷ ds) = false
equal_text (c ∷ cs) [] = false
equal_text (c ∷ cs) (d ∷ ds) = c == d && equal_text cs ds

-- `evalParticipant`.
unfoldable pub eval_participant : Context → Participant → ℕ → LocalEval
unfolding in_quiet
eval_participant ctx p t =
    let l = p.local t in
    record {
      day = l.day;
      min_of_day = l.minute;
      within_working = p.works_on l.day && leb p.work_start l.minute && ltb l.minute p.work_end;
      within_quiet = elim p.quiet [ none ↦ false | some q ↦ in_quiet l.minute q.0 q.1 ];
      is_weekend = l.day == 6 || l.day == 0;
      is_holiday = any (λ d. equal_text d l.date) ctx.holiday_set;
      is_busy = any (λ b. leb b.0 t && ltb t b.1) p.busy;
    }

-- The reasons of `recipientValid`, which are empty where the recipient is valid.
unfoldable pub blocking : Context → LocalEval → List Reason
blocking ctx e =
    (if ctx.avoid_weekends && e.is_weekend then weekend ∷ [] else [])
    ++ (if ctx.avoid_holidays && e.is_holiday then holiday ∷ [] else [])
    ++ (if ctx.working_hours_only && not e.within_working then outside_work ∷ [] else [])
    ++ (if ctx.respect_quiet && e.within_quiet then recipient_quiet ∷ [] else [])
    ++ (if ctx.require_cal_free && e.is_busy then calendar_busy ∷ [] else [])

unfoldable pub recipient_valid : Context → LocalEval → Bool
recipient_valid ctx e =
    not (ctx.avoid_weekends && e.is_weekend)
    && not (ctx.avoid_holidays && e.is_holiday)
    && not (ctx.working_hours_only && not e.within_working)
    && not (ctx.respect_quiet && e.within_quiet)
    && not (ctx.require_cal_free && e.is_busy)

-- What the loop over the recipients counts; `reason_set` is the set of reasons as a list.
pub record Tally : Type 0 where
  pub evals : List LocalEval
  pub reason_set : List Reason
  pub valid_count : ℕ
  pub primary_total : ℕ
  pub primary_valid : ℕ

abbrev pub one_if : Bool → ℕ
one_if b = if b then 1 else 0

unfoldable pub tally : Context → ℕ → List Participant → Tally
unfolding eval_participant recipient_valid blocking
tally ctx t [] = record {
  evals = [];
  reason_set = [];
  valid_count = 0;
  primary_total = 0;
  primary_valid = 0;
}
tally ctx t (p ∷ ps) =
    let rest = tally ctx t ps in
    let e = eval_participant ctx p t in
    let ok = recipient_valid ctx e in
    record {
      evals = e ∷ rest.evals;
      reason_set = if ok then rest.reason_set else blocking ctx e ++ rest.reason_set;
      valid_count = one_if ok + rest.valid_count;
      primary_total = one_if p.is_primary + rest.primary_total;
      primary_valid = one_if (ok && p.is_primary) + rest.primary_valid;
    }

abbrev pub same_reason : Reason → Reason → Bool
same_reason weekend weekend = true
same_reason holiday holiday = true
same_reason outside_work outside_work = true
same_reason recipient_quiet recipient_quiet = true
same_reason calendar_busy calendar_busy = true
same_reason _ _ = false

abbrev pub listed : List Reason → List Reason → List Reason
listed [] set = []
listed (r ∷ rs) set = let rest = listed rs set in if any (same_reason r) set then r ∷ rest else rest

-- `reasonSlice`: the reasons in a fixed order, each once.
unfoldable pub reason_slice : List Reason → List Reason
reason_slice set =
    listed (weekend ∷ holiday ∷ outside_work ∷ recipient_quiet ∷ calendar_busy ∷ []) set

abbrev pub is_majority : Strategy → Bool
is_majority majority = true
is_majority _ = false

-- Whether the strategy accepts what was counted.
unfoldable pub accepts : Context → Tally → Bool
accepts ctx c =
    let total = length ctx.recipients in
    elim ctx.strategy [
      | best_effort ↦ true
      | primary_recipients ↦
          if c.primary_total == 0
          then c.valid_count == total
          else c.primary_valid == c.primary_total
      | majority ↦ ctx.ratio_meets c.valid_count total
      | all_recipients ↦
          if ctx.below_one then ctx.ratio_meets c.valid_count total else c.valid_count == total
    ]

-- Whether the sender's quiet hours are to be respected, and hold at the instant.
unfoldable pub sender_is_quiet : Context → ℕ → Bool
unfolding eval_participant
sender_is_quiet ctx t = elim ctx.sender [
  | none ↦ false
  | some s ↦ ctx.respect_quiet && (eval_participant ctx s t).within_quiet
]

pub record Evaluation : Type 0 where
  pub accepted : Bool
  pub reasons : List Reason
  pub valid_recipients : ℕ
  pub total_recipients : ℕ
  pub evals : List LocalEval

unfoldable pub rejection : Context → Tally → List Reason
unfolding reason_slice
rejection ctx c =
    let reasons = reason_slice c.reason_set in
    let covered =
      if is_majority ctx.strategy || ctx.below_one
      then insufficient_coverage ∷ reasons
      else reasons in
    elim covered [ [] ↦ insufficient_coverage ∷ [] | r ∷ rs ↦ r ∷ rs ]

abbrev pub refused : Reason → Evaluation
refused r = record {
  accepted = false;
  reasons = r ∷ [];
  valid_recipients = 0;
  total_recipients = 0;
  evals = [];
}

-- `evaluate`.
unfoldable pub evaluate : Context → ℕ → Evaluation
unfolding tally accepts sender_is_quiet rejection
evaluate ctx t =
    let c = tally ctx t ctx.recipients in
    let ok = accepts ctx c in
    if ltb t ctx.reference_instant
    then refused below_min_delay
    else if sender_is_quiet ctx t
    then refused sender_quiet
    else record {
      accepted = ok;
      reasons = if ok then [] else rejection ctx c;
      valid_recipients = c.valid_count;
      total_recipients = length ctx.recipients;
      evals = c.evals;
    }
