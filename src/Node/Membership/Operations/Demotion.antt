-- ===== src/Node/Membership/Operations/Demotion.antt =====
-- What becomes of a server that is to be demoted.
use scheduler.Prelude.{ℕ, ◌≡◌, Bool, true, false, Option, none, some, List, if◌then◌else◌, refl}
use scheduler.Node.Membership.Operations.{
  RaftServer, Raft, Etcd, Role, not_started, follower, leader, ClusterState, find_server,
  demote_node, changed, demoted, answers, done,
}

module _ {P : Type 0} (r : Raft) (e : Option (Etcd P))
    (updates : (i a : ℕ) (ss ts : List RaftServer) (s : RaftServer)
      → find_server i ss ≡ some s
      → r.add_nonvoter i a ss ≡ some ts
      → find_server i ts ≡ some (record s { address = a })) where
  changed-find_server :
      (role : Role) (i : ℕ) (c : ClusterState P) (s : RaftServer) (o : Option (List RaftServer))
      → find_server i c.servers ≡ some s
      → r.add_nonvoter i s.address c.servers ≡ o
      → find_server i (changed r e role c o).cluster.servers ≡ some s
  changed-find_server role i c s none f h = f
  changed-find_server role i c s (some ts) f h = updates i s.address c.servers ts s f h

  answered-find_server :
      (role : Role) (i : ℕ) (c : ClusterState P) (s : RaftServer) (v : Bool)
      → find_server i c.servers ≡ some s
      → find_server i
          (if v
            then changed r e role c (r.add_nonvoter i s.address c.servers)
            else answers r e role done c).cluster.servers
        ≡ some s
  answered-find_server role i c s true f =
      changed-find_server role i c s (r.add_nonvoter i s.address c.servers) f refl
  answered-find_server role i c s false f = f

  demoted-find_server :
      (role : Role) (i : ℕ) (c : ClusterState P) (o : Option RaftServer)
      → find_server i c.servers ≡ o
      → find_server i (demoted r e role i c o).cluster.servers ≡ o
  demoted-find_server role i c none f = f
  demoted-find_server role i c (some s) f = answered-find_server role i c s s.voter f

  -- Where the addition of a non-voter that is there already updates its address only, as raft
  -- documents, `DemoteNode` changes no server: on every node and whatever the answer, the server
  -- asked for has the address and the vote it had.
  pub demote_node-find_server :
      (role : Role) (i : ℕ) (c : ClusterState P)
      → find_server i (demote_node r e role i c).cluster.servers ≡ find_server i c.servers
  unfolding demote_node
  demote_node-find_server not_started i c = refl
  demote_node-find_server follower i c = refl
  demote_node-find_server leader i c = demoted-find_server leader i c (find_server i c.servers) refl
