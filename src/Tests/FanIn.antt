-- ===== src/Tests/FanIn.antt =====
-- A new leader of three nodes.
use scheduler.Prelude.{ℕ, ◌≡◌, Bool, true, false, none, some, [], ◌∷◌, ◌==◌, if◌then◌else◌, refl}
use scheduler.Node.FanIn.{Leader, on, Change, handle_raft_leadership_changes}
use scheduler.Node.FanIn.Peers.{idle, accepts, Waits}
use scheduler.Node.FanIn.Leads.{
  handle_raft_leadership_changes-Waits, handle_raft_leadership_changes-accepts,
}

-- Two addresses, of which the second answers if it is `up`.
abbrev two_peers : Bool → Change ℕ ℕ
two_peers up = record {
  servers = 3;
  uncommitted_logs = 4 ∷ [];
  uncommitted_tasks = some [];
  addresses = 1 ∷ 2 ∷ [];
  cancelled = λ a. false;
  peers = λ a.
      if a == 2
      then record {
        phase_one = if up then some (120 ∷ []) else none;
        phase_two = some (9 ∷ [], []);
      }
      else record { phase_one = none; phase_two = none };
}

handle_raft_leadership_changes-Waits_example :
    Waits [] (handle_raft_leadership_changes (two_peers true) true (idle []))
handle_raft_leadership_changes-Waits_example =
    handle_raft_leadership_changes-Waits (two_peers true) [] [] refl refl (λ a. refl) refl

handle_raft_leadership_changes-accepts_example :
    (t : Leader ℕ ℕ) × (handle_raft_leadership_changes (two_peers false) true (idle []) ≡ on t)
    × (accepts t.calls ≡ true)
handle_raft_leadership_changes-accepts_example =
    handle_raft_leadership_changes-accepts (two_peers false) [] [] refl refl refl
