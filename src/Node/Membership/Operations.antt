-- ===== src/Node/Membership/Operations.antt =====
-- pkg/service/node/raft_cluster.go: the operations that change the membership one node at a time.
-- The library of raft and etcd are parameters.
pub mod Demotion
use scheduler.Prelude.{ℕ, Bool, true, false, Option, none, some, List, [], ◌∷◌, ◌==◌, if◌then◌else◌}
use scheduler.Node.Membership.{RaftNode}

pub record RaftServer : Type 0 where
  pub id : ℕ
  pub address : ℕ
  pub voter : Bool

-- What raft makes of a change, `none` for an error of its future.
pub record Raft : Type 0 where
  pub add_voter : ℕ → ℕ → List RaftServer → Option (List RaftServer)
  pub add_nonvoter : ℕ → ℕ → List RaftServer → Option (List RaftServer)
  pub remove_server : ℕ → List RaftServer → Option (List RaftServer)

-- What etcd makes of its register `P`, `none` for an error.
pub record Etcd (P : Type 0) : Type 0 where
  pub register_node : ℕ → RaftNode → P → Option P
  pub unregister_node : ℕ → P → Option P

pub data Role : Type 0 where
  not_started follower leader : Role

pub data Answer : Type 0 where
  done not_initialized not_leader refused not_found etcd_failed : Answer

pub record ClusterState (P : Type 0) : Type 0 where
  pub servers : List RaftServer
  pub registered : P

pub record Outcome (P : Type 0) : Type 0 where
  pub answer : Answer
  pub cluster : ClusterState P

-- The loop over the servers of the configuration.
unfoldable pub find_server : ℕ → List RaftServer → Option RaftServer
find_server i [] = none
find_server i (s ∷ rest) = if s.id == i then some s else find_server i rest

module _ {P : Type 0} (r : Raft) (e : Option (Etcd P)) (role : Role) where
  abbrev pub answers : Answer → ClusterState P → Outcome P
  answers a c = record { answer = a; cluster = c }

  abbrev pub on_leader : ClusterState P → Outcome P → Outcome P
  on_leader c o = elim role [
    | not_started ↦ answers not_initialized c
    | follower ↦ answers not_leader c
    | leader ↦ o
  ]

  -- The answer to a change, which a failing future leaves undone.
  abbrev pub changed : ClusterState P → Option (List RaftServer) → Outcome P
  changed c none = answers refused c
  changed c (some s) = answers done (record c { servers = s })

  -- A failure of etcd is a warning.
  abbrev pub registered_or : P → Option P → P
  registered_or p none = p
  registered_or p (some q) = q

  abbrev pub registers : RaftNode → ClusterState P → ClusterState P
  registers n c = record c {
    registered = elim e [
      | none ↦ c.registered
      | some d ↦ registered_or c.registered (d.register_node n.node_id n c.registered)
    ];
  }

  abbrev pub unregisters : ℕ → ClusterState P → ClusterState P
  unregisters i c = record c {
    registered = elim e [
      | none ↦ c.registered
      | some d ↦ registered_or c.registered (d.unregister_node i c.registered)
    ];
  }

  abbrev pub after_removal : ℕ → ClusterState P → Option (List RaftServer) → Outcome P
  after_removal i c none = answers refused c
  after_removal i c (some s) = answers done (unregisters i (record c { servers = s }))

  unfoldable pub remove_node : ℕ → ClusterState P → Outcome P
  remove_node i c = on_leader c (after_removal i c (r.remove_server i c.servers))

  abbrev pub after_addition : RaftNode → ClusterState P → Option (List RaftServer) → Outcome P
  after_addition n c none = answers refused c
  after_addition n c (some s) = answers done (registers n (record c { servers = s }))

  unfoldable pub add_node : RaftNode → ClusterState P → Outcome P
  unfolding find_server
  add_node n c = on_leader c (elim (find_server n.node_id c.servers) [
    | none ↦ after_addition n c (r.add_nonvoter n.node_id n.node_address c.servers)
    | some s ↦ answers done c
  ])

  abbrev pub promoted : ℕ → ClusterState P → Option RaftServer → Outcome P
  promoted i c none = answers not_found c
  promoted i c (some s) =
      if s.voter then answers done c else changed c (r.add_voter i s.address c.servers)

  unfoldable pub promote_node : ℕ → ClusterState P → Outcome P
  unfolding find_server
  promote_node i c = on_leader c (promoted i c (find_server i c.servers))

  abbrev pub demoted : ℕ → ClusterState P → Option RaftServer → Outcome P
  demoted i c none = answers not_found c
  demoted i c (some s) =
      if s.voter then changed c (r.add_nonvoter i s.address c.servers) else answers done c

  unfoldable pub demote_node : ℕ → ClusterState P → Outcome P
  unfolding find_server
  demote_node i c = on_leader c (demoted i c (find_server i c.servers))

  -- The node's own membership: etcd first, and its failure ends the operation.
  abbrev pub after_etcd : ClusterState P → Option P → (ClusterState P → Outcome P) → Outcome P
  after_etcd c none k = answers etcd_failed c
  after_etcd c (some p) k = k (record c { registered = p })

  unfoldable pub remove_self : ℕ → ClusterState P → Outcome P
  remove_self i c =
      after_etcd c (elim e [ none ↦ some c.registered | some d ↦ d.unregister_node i c.registered ])
        (λ t. on_leader t (changed t (r.remove_server i t.servers)))

  unfoldable pub add_self : RaftNode → ClusterState P → Outcome P
  unfolding find_server
  add_self n c =
      after_etcd c
        (elim e [ none ↦ some c.registered | some d ↦ d.register_node n.node_id n c.registered ])
        (λ t. on_leader t (elim (find_server n.node_id t.servers) [
          | none ↦ changed t (r.add_voter n.node_id n.node_address t.servers)
          | some s ↦ answers done t
        ]))
