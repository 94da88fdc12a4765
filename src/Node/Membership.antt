-- ===== src/Node/Membership.antt =====
-- `ReconcileRaftMembershipWithPeers` of pkg/service/node/raft_cluster.go: the servers of the raft
-- cluster, by id with their addresses, follow the peers that etcd lists.
pub mod Reconciled
pub mod Operations
use scheduler.Prelude.{
  ℕ, Bool, true, false, ◌&&◌, ◌||◌, not, Option, none, some, List, [], ◌∷◌, ◌==◌, if◌then◌else◌,
  lookup, insert, erase, contains, map,
}

pub record RaftNode : Type 0 where
  pub client_address : ℕ
  pub node_id : ℕ
  pub node_address : ℕ

-- Which changes of the membership raft refuses, by the id.
pub record Refusals : Type 0 where
  pub removes : ℕ → Bool
  pub adds : ℕ → Bool

abbrev pub Servers : Type 0
Servers = List (ℕ × ℕ)

abbrev pub ids : Servers → List ℕ
ids [] = []
ids ((i, a) ∷ s) = i ∷ ids s

abbrev pub is_server : ℕ → Servers → Bool
is_server i s = elim (lookup i s) [ none ↦ false | some a ↦ true ]

abbrev pub peer_ids : List RaftNode → List ℕ
peer_ids ps = map (λ (p : RaftNode). p.node_id) ps

module _ (r : Refusals) (self : ℕ) (peers : List RaftNode) where
  -- The loop over the ids of the servers there were.
  unfoldable pub remove_servers : List ℕ → Servers → Servers
  remove_servers [] s = s
  remove_servers (i ∷ rest) s =
      if i == self || contains i (peer_ids peers) || r.removes i
      then remove_servers rest s
      else remove_servers rest (erase i s)

  -- The loop over the peers, beside the servers there were.
  unfoldable pub add_peers : Servers → List RaftNode → Servers → Servers
  add_peers existing [] s = s
  add_peers existing (p ∷ rest) s =
      if is_server p.node_id existing || p.node_id == self || r.adds p.node_id
      then add_peers existing rest s
      else add_peers existing rest (insert p.node_id p.node_address s)

  -- Nothing is done by a node without raft, or that does not lead.
  unfoldable pub reconcile_raft_membership : Bool → Servers → Servers
  unfolding remove_servers add_peers
  reconcile_raft_membership leads s =
      if leads then add_peers s peers (remove_servers (ids s) s) else s
