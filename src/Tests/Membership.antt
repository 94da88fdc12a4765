-- ===== src/Tests/Membership.antt =====
-- A cluster of nodes 1 and 3, of which etcd lists nodes 1 and 2.
use scheduler.Prelude.{some, lookup, ◌≡◌, true, false, List, [], ◌∷◌, refl}
use scheduler.Node.Membership.{
  RaftNode, Refusals, Servers, remove_servers, add_peers, reconcile_raft_membership,
}
use scheduler.Node.Membership.Reconciled.{reconcile_raft_membership-peers}

abbrev no_refusals : Refusals
no_refusals = record { removes = λ i. false; adds = λ i. false }

abbrev two_peers : List RaftNode
two_peers =
    record { client_address = 11; node_address = 10; node_id = 1 }
    ∷ record { client_address = 21; node_address = 20; node_id = 2 }
    ∷ []

abbrev two_servers : Servers
two_servers = (1, 10) ∷ (3, 30) ∷ []

reconciled_two :
    reconcile_raft_membership no_refusals 1 two_peers true two_servers ≡ (1, 10) ∷ (2, 20) ∷ []
unfolding reconcile_raft_membership remove_servers add_peers
reconciled_two = refl

reconcile_raft_membership-peers_example :
    lookup 2 (reconcile_raft_membership no_refusals 1 two_peers true two_servers) ≡ some 20
reconcile_raft_membership-peers_example =
    reconcile_raft_membership-peers no_refusals 1 two_peers (λ i. refl) (λ i. refl) two_servers 2
