-- ===== src/Tests/Operations.antt =====
-- A cluster of two servers, in which node 2 is to be demoted.
use mathlib.Core.Path.{subst, ap}
use mathlib.Core.Option.{some-injective}
use scheduler.Prelude.{
  ℕ, ◌≡◌, ◌∙◌, sym, true, false, Option, none, some, List, [], ◌∷◌, ◌==◌, if◌then◌else◌, arith,
  refl, Bool-cases, inl, inr,
}
use scheduler.Node.Membership.Operations.{
  RaftServer, Raft, leader, ClusterState, find_server, demote_node, promote_node,
}
use scheduler.Node.Membership.Operations.Demotion.{demote_node-find_server}

-- A non-voter is added at the end, and a server that is there gets the address.
abbrev put_nonvoter : ℕ → ℕ → List RaftServer → List RaftServer
put_nonvoter i a [] = record { id = i; address = a; voter = false } ∷ []
put_nonvoter i a (s ∷ rest) =
    if s.id == i then record s { address = a } ∷ rest else s ∷ put_nonvoter i a rest

abbrev put_voter : ℕ → ℕ → List RaftServer → List RaftServer
put_voter i a [] = record { id = i; address = a; voter = true } ∷ []
put_voter i a (s ∷ rest) =
    if s.id == i
    then record { id = i; address = a; voter = true } ∷ rest
    else s ∷ put_voter i a rest

abbrev take_out : ℕ → List RaftServer → List RaftServer
take_out i [] = []
take_out i (s ∷ rest) = if s.id == i then rest else s ∷ take_out i rest

abbrev small_raft : Raft
small_raft = record {
  add_voter = λ i a ss. some (put_voter i a ss);
  add_nonvoter = λ i a ss. some (put_nonvoter i a ss);
  remove_server = λ i ss. some (take_out i ss);
}

abbrev address_set : ℕ → Option RaftServer → Option RaftServer
address_set a none = none
address_set a (some s) = some (record s { address = a })

put_nonvoter-find_server :
    (i a : ℕ) (ss : List RaftServer) (s : RaftServer)
    → find_server i ss ≡ some s
    → find_server i (put_nonvoter i a ss) ≡ some (record s { address = a })
unfolding find_server
put_nonvoter-find_server i a [] s h = absurd (ground (arith, h))
put_nonvoter-find_server i a (t ∷ rest) s h = elim (Bool-cases (t.id == i)) [
  | inl e ↦
      let g : find_server i (t ∷ rest) ≡ some t = rw (e) in
      let k : find_server i (record t { address = a } ∷ rest) ≡ some (record t { address = a }) =
        rw (e) in
      rw (e) (k ∙ ap (address_set a) (sym g ∙ h))
  | inr e ↦
      let g : find_server i (t ∷ rest) ≡ find_server i rest = rw (e) in
      let k : find_server i (t ∷ put_nonvoter i a rest) ≡ find_server i (put_nonvoter i a rest) =
        rw (e) in
      rw (e) (k ∙ put_nonvoter-find_server i a rest s (sym g ∙ h))
]

abbrev two_voters : ClusterState ℕ
two_voters = record {
  servers =
      record { id = 1; address = 10; voter = true }
      ∷ record { id = 2; address = 20; voter = true }
      ∷ [];
  registered = 0;
}

abbrev one_nonvoter : ClusterState ℕ
one_nonvoter = record {
  servers = record { id = 3; address = 30; voter = false } ∷ [];
  registered = 0;
}

promoted_node :
    find_server 3 (promote_node small_raft none leader 3 one_nonvoter).cluster.servers
    ≡ some (record { id = 3; address = 30; voter = true })
unfolding promote_node find_server
promoted_node = refl

demote_node-find_server_example :
    find_server 2 (demote_node small_raft none leader 2 two_voters).cluster.servers
    ≡ find_server 2 two_voters.servers
demote_node-find_server_example =
    demote_node-find_server small_raft none
      (λ i a ss ts s f g.
        subst (λ x. find_server i x ≡ some (record s { address = a }))
          (some-injective (put_nonvoter i a ss) ts g) (put_nonvoter-find_server i a ss s f))
      leader 2 two_voters
