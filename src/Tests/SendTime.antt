-- ===== src/Tests/SendTime.antt =====
-- Send times and batches of rows at small inputs.
use scheduler.Prelude.{
  ℕ, ◌≤◌, ◌≡◌, refl, true, false, ◌&&◌, ◌||◌, not, none, some, List, [], ◌∷◌, arith, ◌==◌, length,
  any, every, get_elem?, if◌then◌else◌, ◌*◌,
}
use scheduler.Prelude.Int.{pos}
use scheduler.SendTime.{Participant, Context, all_recipients, primary_recipients, evaluate}
use scheduler.SendTime.Evaluate.{passes, is_open, evaluate_primary}
use scheduler.SendTime.Select.{Candidate, spacing_of, pick, select_suggestions}
use scheduler.SendTime.Select.Bounds.{select_suggestions-bounds}
use scheduler.SendTime.Select.Spacing.{Apart, select_suggestions-Spaced}

-- Quiet from 22:00 to 7:00; at every instant it is Monday, 23:00, on a date with no text.
abbrev sleeper : Participant
sleeper = record {
  is_primary = true;
  local = λ t. record { day = 1; minute = 1380; date = [] };
  works_on = λ d. true;
  work_start = 540;
  work_end = 1020;
  quiet = some (1320, 420);
  busy = [];
}

abbrev awake : Participant
awake = record sleeper { is_primary = false; quiet = none }

abbrev context : Context
context = record {
  reference_instant = 5;
  sender = some awake;
  recipients = awake ∷ sleeper ∷ [];
  holiday_set = [];
  avoid_weekends = true;
  avoid_holidays = false;
  working_hours_only = false;
  respect_quiet = true;
  require_cal_free = false;
  strategy = all_recipients;
  below_one = false;
  ratio_meets = λ v n. v == n;
}

abbrev primary_context : Context
primary_context = record context { strategy = primary_recipients }

evaluate_primary_example :
    (evaluate primary_context 9).accepted
    ≡ is_open primary_context 9
      && (if any (λ p. p.is_primary) (awake ∷ sleeper ∷ [])
          then every (λ p. not p.is_primary || passes primary_context 9 p) (awake ∷ sleeper ∷ [])
          else every (passes primary_context 9) (awake ∷ sleeper ∷ []))
evaluate_primary_example = evaluate_primary primary_context 9 refl

abbrev candidate : ℕ → Candidate
candidate n = record { instant = n * 60000000000; forced_first = false }

-- Minutes 0, 30, 120 and 300.
abbrev later_candidates : List Candidate
later_candidates = candidate 30 ∷ candidate 120 ∷ candidate 300 ∷ []

two_suggestions :
    select_suggestions (candidate 0 ∷ later_candidates) true (pos 120) 2
    ≡ candidate 0 ∷ candidate 120 ∷ []
unfolding select_suggestions pick
two_suggestions = refl

select_suggestions-bounds_example :
    let chosen = select_suggestions (candidate 0 ∷ later_candidates) true (pos 120) 2 in
    (length chosen ≤ 2)
    × (get_elem? chosen 0 ≡ some (candidate 0))
    × ((not (any (λ d. d.forced_first) chosen)
          || any (λ d. d.forced_first) (candidate 0 ∷ later_candidates))
        ≡ true)
select_suggestions-bounds_example =
    select_suggestions-bounds (candidate 0) later_candidates true (pos 120) 2 (λ d. d.forced_first)
      (omega arith)

two_picked : 2 ≤ length (pick (spacing_of (pos 120)) 2 [] (candidate 0 ∷ later_candidates))
unfolding pick spacing_of
two_picked = omega arith

select_suggestions-Spaced_example :
    Apart (120 * 60000000000) (select_suggestions (candidate 0 ∷ later_candidates) true (pos 120) 2)
select_suggestions-Spaced_example =
    select_suggestions-Spaced (candidate 0) later_candidates 120 2 (omega arith) (omega arith)
      (refl, (refl, (refl, (refl, tt)))) two_picked
