-- ===== src/Node/FanIn/Peers.antt =====
-- The phases of a fan-in, at a leader from whose channel nobody receives.
use scheduler.Prelude.{
  ℕ, ◌≡◌, ◌∙◌, Bool, true, false, ◌&&◌, ◌||◌, not, Option, none, some, List, [], ◌∷◌, ◌++◌, ==-refl,
  any, any-append, arith, refl, Bool-cases, Option-cases, inl, inr, ap,
}
use scheduler.Prelude.Result.{Text, is_empty}
use scheduler.Node.FanIn.{
  get_execution_logs, PeerFanIn, LeaderCall, begin_accepting_writes, Leader, Goes, on, stuck, Peer,
  do_call, insert_logs, insert_tasks, commit_fetched_uncommitted_logs, fan_in_peer,
  fan_in_local_data_sync, Change, forget, store_fan_in, insert_execution_logs, insert_async_tasks,
}

abbrev pub has_text : Option Text → Bool
has_text none = false
has_text (some t) = not (is_empty t)

module _ {L T : Type 0} where
  -- A leader that fetches from no peer at the moment.
  abbrev pub idle : List (LeaderCall L T) → Leader L T
  idle cs = record { fan_ins = []; calls = cs; receives = 0 }

  abbrev pub has_data : Option (List L × List T) → Bool
  has_data none = false
  has_data (some d) = true

  -- Both phases succeed.
  abbrev pub answers : Peer L T → Bool
  answers p = has_text p.phase_one && has_data p.phase_two

  abbrev pub is_begin : LeaderCall L T → Bool
  is_begin begin_accepting_writes = true
  is_begin _ = false

  -- The node has begun to accept writes.
  abbrev pub accepts : List (LeaderCall L T) → Bool
  accepts cs = any is_begin cs

  forgotten :
      (a : ℕ) (p : PeerFanIn L T) (cs : List (LeaderCall L T))
      → forget a (store_fan_in a p (idle cs)) ≡ idle cs
  forgotten a p cs = rw (==-refl a) refl

  -- A peer that fails in some phase leaves no trace.
  quiet :
      (a : ℕ) (p : Peer L T) (cs : List (LeaderCall L T))
      → answers p ≡ false
      → fan_in_peer a p (idle cs) ≡ on (idle cs)
  unfolding fan_in_peer
  quiet a p cs h = elim (Option-cases p.phase_one) [
    | inl e ↦ rw (fan_in_peer, e) refl
    | inr (id, e) ↦ elim (Bool-cases (is_empty id)) [
      | inl i ↦ rw (fan_in_peer, e, ==-refl a, i) (ap on (forgotten a _ cs))
      | inr i ↦ elim (Option-cases p.phase_two) [
        | inl d ↦ rw (fan_in_peer, e, ==-refl a, i, d, ==-refl a) (ap on (forgotten a _ cs))
        | inr (x, d) ↦ (let k = rw (e, i, d) at h in absurd (ground arith))
      ]
    ]
  ]

  pub accepts-append :
      (xs : List (LeaderCall L T)) (c : LeaderCall L T)
      → accepts (xs ++ c ∷ []) ≡ accepts xs || is_begin c
  accepts-append xs c = any-append is_begin xs (c ∷ []) ∙ ground arith

  -- It waits, and has not begun to accept writes in the meantime.
  abbrev pub Waits : List (LeaderCall L T) → Goes (Leader L T) → Type 0
  Waits cs g = (t : Leader L T) × (g ≡ stuck t) × (accepts t.calls ≡ accepts cs)

  pub do_call-calls :
      (c : LeaderCall L T) (s : Leader L T)
      → is_begin c ≡ false
      → accepts ((do_call c s).calls) ≡ accepts s.calls
  do_call-calls c s h = rw (accepts-append s.calls c, h) (ground arith)

  pub insert_logs-calls :
      (ls : List L) (s : Leader L T) → accepts ((insert_logs ls s).calls) ≡ accepts s.calls
  insert_logs-calls [] s = refl
  insert_logs-calls (l ∷ ls) s = do_call-calls (insert_execution_logs (l ∷ ls)) s refl

  pub insert_logs-idle :
      (ls : List L) (cs : List (LeaderCall L T))
      → insert_logs ls (idle cs) ≡ idle ((insert_logs ls (idle cs)).calls)
  insert_logs-idle [] cs = refl
  insert_logs-idle (l ∷ ls) cs = refl

  pub insert_tasks-calls :
      (ts : List T) (s : Leader L T) → accepts ((insert_tasks ts s).calls) ≡ accepts s.calls
  insert_tasks-calls [] s = refl
  insert_tasks-calls (t ∷ ts) s = do_call-calls (insert_async_tasks (t ∷ ts)) s refl

  inserts-receives :
      (ls : List L) (ts : List T) (s : Leader L T)
      → (insert_tasks ts (insert_logs ls s)).receives ≡ s.receives
  inserts-receives [] [] s = refl
  inserts-receives [] (t ∷ ts) s = refl
  inserts-receives (l ∷ ls) [] s = refl
  inserts-receives (l ∷ ls) (t ∷ ts) s = refl

  commit-Waits :
      (a : ℕ) (p : PeerFanIn L T) (s : Leader L T)
      → s.receives ≡ 0
      → Waits s.calls (commit_fetched_uncommitted_logs a p s)
  unfolding commit_fetched_uncommitted_logs
  commit-Waits a p s h =
      let t = insert_tasks p.async_tasks (insert_logs p.execution_logs s) in
      let n : t.receives ≡ 0 = inserts-receives p.execution_logs p.async_tasks s ∙ h in
      (
        forget a t,
        rw (commit_fetched_uncommitted_logs, n),
        insert_tasks-calls p.async_tasks (insert_logs p.execution_logs s)
            ∙ insert_logs-calls p.execution_logs s,
      )

  loud :
      (a : ℕ) (p : Peer L T) (cs : List (LeaderCall L T))
      → answers p ≡ true
      → Waits cs (fan_in_peer a p (idle cs))
  unfolding fan_in_peer
  loud a p cs h = elim (Option-cases p.phase_one) [
    | inl e ↦ (let k = rw e at h in absurd (ground arith))
    | inr (id, e) ↦ elim (Bool-cases (is_empty id)) [
      | inl i ↦ (let k = rw (e, i) at h in absurd (ground arith))
      | inr i ↦ elim (Option-cases p.phase_two) [
        | inl d ↦ (let k = rw (e, i, d) at h in absurd (ground arith))
        | inr ((ls, ts), d) ↦
            rw (fan_in_peer, e, ==-refl a, i, d, ==-refl a, ==-refl a)
              (commit-Waits a
                (record {
                  request_id = id;
                  state = get_execution_logs;
                  execution_logs = ls;
                  async_tasks = ts;
                })
                (record {
                  fan_ins =
                      (
                        a,
                        record {
                          request_id = id;
                          state = get_execution_logs;
                          execution_logs = ls;
                          async_tasks = ts;
                        },
                      )
                      ∷ [];
                  calls = cs;
                  receives = 0;
                })
                refl)
      ]
    ]
  ]

  -- The peers, one after the other.
  pub fan_in-on :
      (c : Change L T) (xs : List ℕ) (cs : List (LeaderCall L T))
      → any (λ a. answers (c.peers a)) xs ≡ false
      → fan_in_local_data_sync c.cancelled c.peers xs (idle cs) ≡ on (idle cs)
  unfolding fan_in_local_data_sync
  fan_in-on c [] cs h = refl
  fan_in-on c (a ∷ xs) cs h = elim (Bool-cases (c.cancelled a)) [
    | inl e ↦ rw (e, fan_in_local_data_sync)
    | inr e ↦
        rw (e, fan_in_local_data_sync, quiet a (c.peers a) cs (ground arith))
          (fan_in-on c xs cs (ground arith))
  ]

  pub fan_in-Waits :
      (c : Change L T) (xs : List ℕ) (cs : List (LeaderCall L T))
      → ((a : ℕ) → c.cancelled a ≡ false)
      → any (λ a. answers (c.peers a)) xs ≡ true
      → Waits cs (fan_in_local_data_sync c.cancelled c.peers xs (idle cs))
  unfolding fan_in_local_data_sync
  fan_in-Waits c [] cs n h = absurd (ground arith)
  fan_in-Waits c (a ∷ xs) cs n h = elim (Bool-cases (answers (c.peers a))) [
    | inl e ↦ let (t, q, v) = loud a (c.peers a) cs e in (t, rw (n a, fan_in_local_data_sync, q), v)
    | inr e ↦
        rw (n a, fan_in_local_data_sync, quiet a (c.peers a) cs e)
          (fan_in-Waits c xs cs n (ground arith))
  ]
