-- ===== src/Node/FanIn.antt =====
-- pkg/service/node/peer_communication.go: a leader fetches what its peers have not committed, and
-- `HandleRaftLeadershipChanges` of pkg/service/node/raft_cluster.go, which does so before the node
-- begins to work. An address is a number. The timeouts of a phase pass only when it has failed.
pub mod Peers
pub mod Leads
use scheduler.Prelude.{
  ℕ, zero, suc, ◌-◌, Bool, true, false, ◌&&◌, not, Option, none, some, List, [], ◌∷◌, ◌++◌, ◌==◌,
  length, if◌then◌else◌, lookup, insert, erase,
}
use scheduler.Prelude.Result.{Text, is_empty}

pub data FanInState : Type 0 where
  not_started get_request_id get_execution_logs complete : FanInState

abbrev pub has_logs : FanInState → Bool
has_logs not_started = false
has_logs get_request_id = false
has_logs get_execution_logs = true
has_logs complete = true

-- A peer's execution logs `L` and tasks `T`.
pub record PeerFanIn (L T : Type 0) : Type 0 where
  pub request_id : Text
  pub state : FanInState
  pub execution_logs : List L
  pub async_tasks : List T

-- What a node is made to do; `set_mode` stands for the setters of its parts.
pub data LeaderCall (L T : Type 0) : Type 0 where
  stop_accepting_writes begin_accepting_writes stop_workers stop_all : LeaderCall L T
  reset_local_quotas start_jobs fan_in_periodically : LeaderCall L T
  set_mode : Bool → Bool → LeaderCall L T
  insert_execution_logs : List L → LeaderCall L T
  insert_async_tasks handle_async_tasks : List T → LeaderCall L T

-- `fanIns`, the calls so far, and how often others will receive from `fanInCh`, a channel without a
-- buffer.
pub record Leader (L T : Type 0) : Type 0 where
  pub fan_ins : List (ℕ × PeerFanIn L T)
  pub calls : List (LeaderCall L T)
  pub receives : ℕ

-- A goroutine goes on, ends the program, or waits for ever.
pub data Goes (A : Type 0) : Type 0 where
  on : A → Goes A
  fatal stuck : A → Goes A

-- What the client's two phases fetch from a peer, `none` for a failure.
pub record Peer (L T : Type 0) : Type 0 where
  pub phase_one : Option Text
  pub phase_two : Option (List L × List T)

module _ {L T : Type 0} where
  abbrev pub do_call : LeaderCall L T → Leader L T → Leader L T
  do_call c s = record s { calls = s.calls ++ c ∷ [] }

  abbrev pub then_on : Goes (Leader L T) → (Leader L T → Goes (Leader L T)) → Goes (Leader L T)
  then_on (on s) k = k s
  then_on (fatal s) k = fatal s
  then_on (stuck s) k = stuck s

  abbrev pub insert_logs : List L → Leader L T → Leader L T
  insert_logs [] s = s
  insert_logs (l ∷ ls) s = do_call (insert_execution_logs (l ∷ ls)) s

  abbrev pub insert_tasks : List T → Leader L T → Leader L T
  insert_tasks [] s = s
  insert_tasks (t ∷ ts) s = do_call (insert_async_tasks (t ∷ ts)) s

  abbrev pub sent : Leader L T → ℕ → Goes (Leader L T)
  sent s zero = stuck s
  sent s (suc n) = on (record s { receives = n })

  -- `CommitFetchedUnCommittedLogs`, for one peer: the send is its last step.
  unfoldable pub commit_fetched_uncommitted_logs :
      ℕ → PeerFanIn L T → Leader L T → Goes (Leader L T)
  commit_fetched_uncommitted_logs a p s =
      let t = insert_tasks p.async_tasks (insert_logs p.execution_logs s) in
      sent (record t { fan_ins = erase a t.fan_ins }) t.receives

  abbrev pub store_fan_in : ℕ → PeerFanIn L T → Leader L T → Leader L T
  store_fan_in a p s = record s { fan_ins = insert a p s.fan_ins }

  -- The client stores what it has fetched.
  abbrev pub after_phase_one : ℕ → Option Text → Leader L T → Leader L T
  after_phase_one a none s = s
  after_phase_one a (some id) s =
      store_fan_in a
        (record { request_id = id; state = get_request_id; execution_logs = []; async_tasks = [] })
        s

  abbrev pub after_phase_two : ℕ → Text → Option (List L × List T) → Leader L T → Leader L T
  after_phase_two a id none s = s
  after_phase_two a id (some (ls, ts)) s =
      store_fan_in a
        (record {
          request_id = id;
          state = get_execution_logs;
          execution_logs = ls;
          async_tasks = ts;
        })
        s

  abbrev pub has_request : PeerFanIn L T → Bool
  has_request p = not (is_empty p.request_id) && (elim p.state [
    | not_started ↦ false
    | get_request_id ↦ true
    | get_execution_logs ↦ true
    | complete ↦ true
  ])

  abbrev pub forget : ℕ → Leader L T → Leader L T
  forget a s = record s { fan_ins = erase a s.fan_ins }

  abbrev pub committed : ℕ → Leader L T → Option (PeerFanIn L T) → Goes (Leader L T)
  committed a s none = on (forget a s)
  committed a s (some p) =
      if has_logs p.state then commit_fetched_uncommitted_logs a p s else on (forget a s)

  abbrev pub second_phase :
      ℕ → Option (List L × List T) → Leader L T → Option (PeerFanIn L T) → Goes (Leader L T)
  second_phase a two s none = on (forget a s)
  second_phase a two s (some p) =
      let t = after_phase_two a p.request_id two s in
      if has_request p then committed a t (lookup a t.fan_ins) else on (forget a s)

  -- One peer through all phases.
  unfoldable pub fan_in_peer : ℕ → Peer L T → Leader L T → Goes (Leader L T)
  unfolding commit_fetched_uncommitted_logs
  fan_in_peer a p s =
      let t = after_phase_one a p.phase_one s in second_phase a p.phase_two t (lookup a t.fan_ins)

  -- `FanInLocalDataFromPeersSync`: the peers in their order, until the context is cancelled.
  unfoldable pub fan_in_local_data_sync :
      (ℕ → Bool) → (ℕ → Peer L T) → List ℕ → Leader L T → Goes (Leader L T)
  unfolding fan_in_peer
  fan_in_local_data_sync cancelled peers [] s = on s
  fan_in_local_data_sync cancelled peers (a ∷ rest) s =
      if cancelled a
      then on s
      else then_on (fan_in_peer a (peers a) s) (λ t. fan_in_local_data_sync cancelled peers rest t)

-- What a change of leadership meets: the servers of the cluster, the node's own logs and tasks that
-- are not committed (`none` for an error), the addresses to fan in from, and the peers.
pub record Change (L T : Type 0) : Type 0 where
  pub servers : ℕ
  pub uncommitted_logs : List L
  pub uncommitted_tasks : Option (List T)
  pub addresses : List ℕ
  pub cancelled : ℕ → Bool
  pub peers : ℕ → Peer L T

module _ {L T : Type 0} (c : Change L T) where
  -- The first part, of every node.
  abbrev pub reset : Bool → Leader L T → Leader L T
  reset is_leader s = do_call reset_local_quotas (
      do_call (set_mode (c.servers == 1) is_leader)
        (do_call stop_all (do_call stop_workers (do_call stop_accepting_writes s))))

  abbrev pub begin_work : Leader L T → Leader L T
  begin_work s = do_call begin_accepting_writes (do_call start_jobs s)

  abbrev pub insert_own : Option (List T) → Leader L T → Goes (Leader L T)
  insert_own none s = fatal s
  insert_own (some []) s = on (insert_logs c.uncommitted_logs s)
  insert_own (some (t ∷ ts)) s = on (
      do_call (handle_async_tasks (t ∷ ts))
        (insert_tasks (t ∷ ts) (insert_logs c.uncommitted_logs s)))

  -- `HandleRaftLeadershipChanges`.
  unfoldable pub handle_raft_leadership_changes : Bool → Leader L T → Goes (Leader L T)
  unfolding fan_in_local_data_sync
  handle_raft_leadership_changes is_leader s =
      let t = reset is_leader s in
      let gathered =
        then_on (insert_own c.uncommitted_tasks t)
          (λ u. fan_in_local_data_sync c.cancelled c.peers c.addresses u) in
      if not is_leader
      then on t
      else if c.servers == 1
      then on (begin_work t)
      else then_on gathered (λ u. on (begin_work (do_call fan_in_periodically u)))
