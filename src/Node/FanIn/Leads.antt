-- ===== src/Node/FanIn/Leads.antt =====
-- When a new leader begins to work. Nothing in the program receives from `fanInCh`.
use scheduler.Prelude.{
  ℕ, ◌≡◌, ◌∙◌, Bool, true, false, some, List, [], ◌∷◌, ◌==◌, any, if◌then◌else◌, arith, refl, ap,
}
use scheduler.Node.FanIn.{
  LeaderCall, begin_accepting_writes, start_jobs, reset_local_quotas, set_mode,
  stop_accepting_writes, stop_all, stop_workers, handle_async_tasks, fan_in_periodically, Leader,
  on, do_call, then_on, insert_logs, insert_tasks, fan_in_local_data_sync, Change, reset,
  begin_work, insert_own, handle_raft_leadership_changes,
}
use scheduler.Node.FanIn.Peers.{
  idle, answers, accepts, Waits, do_call-calls, accepts-append, insert_logs-calls,
  insert_tasks-calls, insert_logs-idle, fan_in-on, fan_in-Waits,
}

own_idle :
    {L T : Type 0} (c : Change L T) (ts : List T) (cs : List (LeaderCall L T))
    → (ds : List (LeaderCall L T)) × (insert_own c (some ts) (idle cs) ≡ on (idle ds))
      × (accepts ds ≡ accepts cs)
own_idle c [] cs =
    let s = insert_logs c.uncommitted_logs (idle cs) in
    (
      s.calls,
      ap on (insert_logs-idle c.uncommitted_logs cs),
      insert_logs-calls c.uncommitted_logs (idle cs),
    )
own_idle c (t ∷ ts) cs =
    let s = insert_logs c.uncommitted_logs (idle cs) in
    let u = insert_tasks (t ∷ ts) s in
    (
      (do_call (handle_async_tasks (t ∷ ts)) u).calls,
      ap (λ x. on (do_call (handle_async_tasks (t ∷ ts)) (insert_tasks (t ∷ ts) x)))
          (insert_logs-idle c.uncommitted_logs cs),
      do_call-calls (handle_async_tasks (t ∷ ts)) u refl
          ∙ insert_tasks-calls (t ∷ ts) s
          ∙ insert_logs-calls c.uncommitted_logs (idle cs),
    )

if_false : {A : Type 0} (b : Bool) (x y : A) → b ≡ false → (if b then x else y) ≡ y
if_false b x y h = rw h

module _ {L T : Type 0} (c : Change L T) (cs : List (LeaderCall L T)) (ts : List T)
    (own : c.uncommitted_tasks ≡ some ts) (many : (c.servers == 1) ≡ false) where
  -- The calls before the peers are asked.
  prepared :
      (ds : List (LeaderCall L T)) × (insert_own c (some ts) (reset c true (idle cs))
        ≡ on (idle ds))
      × (accepts ds ≡ accepts cs)
  prepared =
      let one = do_call stop_accepting_writes (idle cs) in
      let two = do_call stop_workers one in
      let three = do_call stop_all two in
      let four = do_call (set_mode (c.servers == 1) true) three in
      let (ds, e, v) = own_idle c ts ((reset c true (idle cs)).calls) in
      (
        ds,
        e,
        v
            ∙ do_call-calls reset_local_quotas four refl
            ∙ do_call-calls (set_mode (c.servers == 1) true) three refl
            ∙ do_call-calls stop_all two refl
            ∙ do_call-calls stop_workers one refl
            ∙ do_call-calls stop_accepting_writes (idle cs) refl,
      )

  gathered :
      handle_raft_leadership_changes c true (idle cs)
      ≡ then_on
          (fan_in_local_data_sync c.cancelled c.peers c.addresses (idle prepared.0))
          (λ u. on (begin_work c (do_call fan_in_periodically u)))
  unfolding handle_raft_leadership_changes
  gathered = if_false (c.servers == 1) _ _ many ∙ rw (own, prepared.1)

  -- A new leader of several nodes, that fetches from no peer yet (`fanIns` is empty), whose own tasks can be read and from whose channel nobody
  -- receives, waits for ever to hand on what it fetched, if some peer answers both phases and the
  -- time for the peers does not pass before: it does not begin to accept writes.
  pub handle_raft_leadership_changes-Waits :
      ((a : ℕ) → c.cancelled a ≡ false)
      → any (λ a. answers (c.peers a)) c.addresses ≡ true
      → Waits cs (handle_raft_leadership_changes c true (idle cs))
  handle_raft_leadership_changes-Waits n h =
      let (t, q, w) = fan_in-Waits c c.addresses (prepared.0) n h in
      (t, gathered ∙ rw q, w ∙ prepared.2)

  -- A new leader of several nodes that fetches from no peer yet (`fanIns` is empty, and no one
  -- receives from its channel), and whose own tasks can be read, goes on and begins to accept
  -- writes if no peer answers both phases.
  pub handle_raft_leadership_changes-accepts :
      any (λ a. answers (c.peers a)) c.addresses ≡ false
      → (t : Leader L T) × (handle_raft_leadership_changes c true (idle cs) ≡ on t)
        × (accepts t.calls ≡ true)
  handle_raft_leadership_changes-accepts h =
      let s = do_call start_jobs (do_call fan_in_periodically (idle prepared.0)) in
      (
        do_call begin_accepting_writes s,
        gathered ∙ rw (fan_in-on c c.addresses (prepared.0) h),
        accepts-append s.calls begin_accepting_writes ∙ ground arith,
      )
