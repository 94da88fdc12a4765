-- ===== src/SendTime/Evaluate.antt =====
-- When an instant is accepted, and that a rejection says why.
use scheduler.Prelude.{
  ℕ, ◌≤◌, ◌≡◌, refl, Bool, true, false, ◌&&◌, ◌||◌, not, List, [], ◌∷◌, arith, ltb, leb, none, some,
  Option-cases, inl, inr, ◌==◌, if◌then◌else◌, length, any, every, ◌+◌, suc,
}
use scheduler.SendTime.{
  Participant, Context, Reason, LocalEval, all_recipients, primary_recipients, blocking,
  recipient_valid, eval_participant, tally, accepts, sender_is_quiet, rejection, evaluate, one_if,
  in_quiet, equal_text,
}

abbrev pub is_none : List Reason → Bool
is_none [] = true
is_none (r ∷ rs) = false

-- The minutes from `start` up to `end`; an interval that ends before it starts leaves out the
-- minutes from `end` up to `start`.
abbrev pub covers : ℕ × ℕ → ℕ → Bool
covers (start, end) m =
    if leb start end then leb start m && ltb m end else not (leb end m && ltb m start)

-- The participant has quiet hours, and the instant lies in them.
abbrev pub is_sleeping : ℕ → Participant → Bool
is_sleeping t p = elim p.quiet [ none ↦ false | some q ↦ covers q (p.local t).minute ]

-- A participant that passes the hard constraints of the context at an instant.
abbrev pub passes : Context → ℕ → Participant → Bool
passes ctx t p =
    let l = p.local t in
    (not ctx.avoid_weekends || not (l.day == 0 || l.day == 6))
    && (not ctx.avoid_holidays || not (any (λ d. equal_text d l.date) ctx.holiday_set))
    && (not ctx.working_hours_only
        || (p.works_on l.day && leb p.work_start l.minute && ltb l.minute p.work_end))
    && (not ctx.respect_quiet || not (is_sleeping t p))
    && (not ctx.require_cal_free || every (λ b. ltb t b.0 || leb b.1 t) p.busy)

-- An instant that is neither before the reference time nor in quiet hours of the sender.
abbrev pub is_open : Context → ℕ → Bool
is_open ctx t =
    leb ctx.reference_instant t
    && (elim ctx.sender [ none ↦ true | some s ↦ not ctx.respect_quiet || not (is_sleeping t s) ])

in_quiet-covers : (m a b : ℕ) → in_quiet m a b ≡ covers (a, b) m
unfolding in_quiet
in_quiet-covers m a b = ground arith

eval_participant-quiet :
    (ctx : Context) (p : Participant) (t : ℕ)
    → (eval_participant ctx p t).within_quiet ≡ is_sleeping t p
unfolding eval_participant
eval_participant-quiet ctx p t = elim (Option-cases p.quiet) [
  | inl e ↦ rw e
  | inr ((a, b), e) ↦ rw e (in_quiet-covers (p.local t).minute a b)
]

busy-every :
    (t : ℕ) (bs : List (ℕ × ℕ))
    → not (any (λ b. leb b.0 t && ltb t b.1) bs) ≡ every (λ b. ltb t b.0 || leb b.1 t) bs
busy-every t [] = refl
busy-every t (b ∷ bs) = ground (arith, busy-every t bs)

recipient_valid-passes :
    (ctx : Context) (t : ℕ) (p : Participant)
    → recipient_valid ctx (eval_participant ctx p t) ≡ passes ctx t p
unfolding recipient_valid eval_participant
recipient_valid-passes ctx t p = ground (arith, eval_participant-quiet ctx p t, busy-every t p.busy)

sender_is_quiet-open :
    (ctx : Context) (t : ℕ)
    → (not (ltb t ctx.reference_instant) && not (sender_is_quiet ctx t)) ≡ is_open ctx t
unfolding sender_is_quiet
sender_is_quiet-open ctx t = elim (Option-cases ctx.sender) [
  | inl e ↦ rw e (ground arith)
  | inr (s, e) ↦ rw (e, eval_participant-quiet ctx s t) (ground arith)
]

-- What the loop over the recipients counts.
abbrev valid : Context → ℕ → Participant → Bool
valid ctx t p = recipient_valid ctx (eval_participant ctx p t)

every-step :
    (ok : Bool) (v n : ℕ) (r : Bool) → v ≤ n → (v == n) ≡ r → (one_if ok + v == suc n) ≡ ok && r
every-step true v n r l e = ground arith
every-step false v n r l e = ground arith

primary-step :
    (ok is : Bool) (v n : ℕ) (r : Bool)
    → v ≤ n
    → (v == n) ≡ r
    → (one_if (ok && is) + v == one_if is + n) ≡ (not is || ok) && r
primary-step true is v n r l e = ground arith
primary-step false is v n r l e = ground arith

module _ (ctx : Context) (t : ℕ) where
  tally-valid-le : (ps : List Participant) → (tally ctx t ps).valid_count ≤ length ps
  unfolding tally
  tally-valid-le [] = omega arith
  tally-valid-le (p ∷ ps) = ground (arith, tally-valid-le ps)

  tally-every :
      (ps : List Participant) → ((tally ctx t ps).valid_count == length ps) ≡ every (valid ctx t) ps
  unfolding tally
  tally-every [] = refl
  tally-every (p ∷ ps) =
      every-step (valid ctx t p) (tally ctx t ps).valid_count (length ps) (every (valid ctx t) ps)
        (tally-valid-le ps) (tally-every ps)

  tally-primary-le :
      (ps : List Participant) → (tally ctx t ps).primary_valid ≤ (tally ctx t ps).primary_total
  unfolding tally
  tally-primary-le [] = omega arith
  tally-primary-le (p ∷ ps) = ground (arith, tally-primary-le ps)

  tally-primary :
      (ps : List Participant)
      → ((tally ctx t ps).primary_valid == (tally ctx t ps).primary_total)
        ≡ every (λ p. not p.is_primary || valid ctx t p) ps
  unfolding tally
  tally-primary [] = refl
  tally-primary (p ∷ ps) =
      primary-step (valid ctx t p) p.is_primary (tally ctx t ps).primary_valid
        (tally ctx t ps).primary_total (every (λ p. not p.is_primary || valid ctx t p) ps)
        (tally-primary-le ps) (tally-primary ps)

  tally-total :
      (ps : List Participant)
      → ((tally ctx t ps).primary_total == 0) ≡ not (any (λ p. p.is_primary) ps)
  unfolding tally
  tally-total [] = refl
  tally-total (p ∷ ps) = ground (arith, tally-total ps)

  every-passes : (ps : List Participant) → every (valid ctx t) ps ≡ every (passes ctx t) ps
  every-passes [] = refl
  every-passes (p ∷ ps) = rw (recipient_valid-passes ctx t p, every-passes ps)

  every-primary :
      (ps : List Participant)
      → every (λ p. not p.is_primary || valid ctx t p) ps
        ≡ every (λ p. not p.is_primary || passes ctx t p) ps
  every-primary [] = refl
  every-primary (p ∷ ps) = rw (recipient_valid-passes ctx t p, every-primary ps)

  -- With the strategy `all_recipients` and full coverage required, an instant is accepted exactly if
  -- it is not before the reference time, the sender is not in quiet hours that are respected, and
  -- every recipient passes the hard constraints.
  pub evaluate_all :
      ctx.strategy ≡ all_recipients
      → ctx.below_one ≡ false
      → (evaluate ctx t).accepted ≡ is_open ctx t && every (passes ctx t) ctx.recipients
  unfolding evaluate accepts
  evaluate_all s b =
      ground
        (arith, tally-every ctx.recipients, every-passes ctx.recipients, sender_is_quiet-open ctx t)

  -- With the strategy `primary_recipients`, an instant is accepted exactly if it is not before the
  -- reference time, the sender is not in quiet hours that are respected, and every primary recipient
  -- passes the hard constraints, or every recipient where none is primary.
  pub evaluate_primary :
      ctx.strategy ≡ primary_recipients
      → (evaluate ctx t).accepted
        ≡ is_open ctx t
          && (if any (λ p. p.is_primary) ctx.recipients
              then every (λ p. not p.is_primary || passes ctx t p) ctx.recipients
              else every (passes ctx t) ctx.recipients)
  unfolding evaluate accepts
  evaluate_primary s = ground (
    arith,
    tally-every ctx.recipients,
    tally-primary ctx.recipients,
    tally-total ctx.recipients,
    every-passes ctx.recipients,
    every-primary ctx.recipients,
    sender_is_quiet-open ctx t,
  )

  -- A rejected instant comes with a reason at least, an accepted one with none; and so for a
  -- recipient and its local time.
  pub evaluate-reasons :
      (e : LocalEval)
      → ((evaluate ctx t).accepted ≡ is_none (evaluate ctx t).reasons)
        × (recipient_valid ctx e ≡ is_none (blocking ctx e))
  unfolding evaluate rejection recipient_valid blocking
  evaluate-reasons e = (ground arith, ground arith)
