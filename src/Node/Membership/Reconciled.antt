-- ===== src/Node/Membership/Reconciled.antt =====
-- The members after a reconciliation.
use mathlib.Core.Path.{subst}
use scheduler.Prelude.{
  ℕ, ◌≡◌, ◌∙◌, Bool, true, false, ◌&&◌, ◌||◌, not, Option, none, some, List, [], ◌∷◌, ◌==◌,
  if◌then◌else◌, lookup, insert, erase, contains, lookup-insert, lookup-erase, ==→eq, arith, refl,
  Bool-cases, inl, inr,
}
use scheduler.Node.Membership.{
  RaftNode, Refusals, Servers, ids, is_server, peer_ids, remove_servers, add_peers,
  reconcile_raft_membership,
}

-- The earlier of two addresses holds only if there is no later one.
abbrev later_or : Bool → ℕ → Option ℕ → Option ℕ
later_or here a (some b) = some b
later_or true a none = some a
later_or false a none = none

-- The node address with which etcd lists an id, the last one if it does so twice.
abbrev pub listed_address : ℕ → List RaftNode → Option ℕ
listed_address i [] = none
listed_address i (p ∷ ps) = later_or (p.node_id == i) p.node_address (listed_address i ps)

-- A server that etcd lists keeps the address it has in the cluster, if it is there.
abbrev pub member : Option ℕ → Option ℕ → Option ℕ
member none present = none
member (some a) none = some a
member (some a) (some b) = some b

abbrev is_there : Option ℕ → Bool
is_there none = false
is_there (some a) = true

contains-ids : (i : ℕ) (s : Servers) → contains i (ids s) ≡ is_there (lookup i s)
contains-ids i [] = refl
contains-ids i ((j, a) ∷ s) = elim (Bool-cases (j == i)) [
  | inl h ↦ rw h
  | inr h ↦ rw (h, contains-ids i s)
]

is_server-there : (i : ℕ) (s : Servers) → is_server i s ≡ is_there (lookup i s)
is_server-there i s = by (lookup i s)
  where
    by : (o : Option ℕ) → (elim o [ none ↦ false | some a ↦ true ]) ≡ is_there o
    by none = refl
    by (some a) = refl

contains-listed :
    (i : ℕ) (ps : List RaftNode) → contains i (peer_ids ps) ≡ is_there (listed_address i ps)
contains-listed i [] = refl
contains-listed i (p ∷ ps) =
    by (p.node_id == i) (listed_address i ps) (contains i (peer_ids ps)) (contains-listed i ps)
  where
    by :
        (here : Bool) (o : Option ℕ) (c : Bool)
        → c ≡ is_there o
        → here || c ≡ is_there (later_or here p.node_address o)
    by true none c e = refl
    by true (some a) c e = refl
    by false none c e = e
    by false (some a) c e = e

-- Truth tables: `here` says that a step is about the server in question.
kept :
    (here later g : Bool) (s : Option ℕ)
    → (here ≡ true → g ≡ false)
    → (if later && g then none else s) ≡ (if (here || later) && g then none else s)
kept false later g s h = refl
kept true false false s h = refl
kept true false true s h = absurd (ground (arith, h refl))
kept true true g s h = refl

dropped :
    (here later g : Bool) (s : Option ℕ)
    → (here ≡ true → g ≡ true)
    → (if later && g then none else (if here then none else s))
      ≡ (if (here || later) && g then none else s)
dropped false later g s h = refl
dropped true later false s h = absurd (ground (arith, h refl))
dropped true false true s h = refl
dropped true true true s h = refl

-- What the peers add to a server `s`; nothing, where the id is passed over.
abbrev joining : Bool → Option ℕ → Option ℕ → Option ℕ
joining true o s = s
joining false none s = s
joining false (some a) s = some a

passed :
    (here x : Bool) (a : ℕ) (o s : Option ℕ)
    → (here ≡ true → x ≡ true)
    → joining x o s ≡ joining x (later_or here a o) s
passed here true a o s h = refl
passed true false a o s h = absurd (ground (arith, h refl))
passed false false a none s h = refl
passed false false a (some b) s h = refl

joined :
    (here x : Bool) (a : ℕ) (o s : Option ℕ)
    → (here ≡ true → x ≡ false)
    → joining x o (if here then some a else s) ≡ joining x (later_or here a o) s
joined false true a o s h = refl
joined false false a none s h = refl
joined false false a (some b) s h = refl
joined true true a o s h = absurd (ground (arith, h refl))
joined true false a none s h = refl
joined true false a (some b) s h = refl

decided :
    (f : Bool) (l o : Option ℕ)
    → joining (is_there o || f) l (if is_there o && (not f && not (is_there l)) then none else o)
      ≡ (if f then o else member l o)
decided true none none = refl
decided true none (some b) = refl
decided true (some a) none = refl
decided true (some a) (some b) = refl
decided false none none = refl
decided false none (some b) = refl
decided false (some a) none = refl
decided false (some a) (some b) = refl

module _ (r : Refusals) (self : ℕ) (peers : List RaftNode) (removes : (i : ℕ) → r.removes i ≡ false)
    (adds : (i : ℕ) → r.adds i ≡ false) where
  -- The servers that a visit takes away.
  abbrev gone : ℕ → Bool
  gone i = not (i == self) && not (contains i (peer_ids peers))

  stays :
      (k : ℕ)
      → (k == self || contains k (peer_ids peers)) ≡ true
      → (k == self || contains k (peer_ids peers) || r.removes k) ≡ true
  stays k h = ground (arith, h)

  goes :
      (k : ℕ)
      → (k == self || contains k (peer_ids peers)) ≡ false
      → (k == self || contains k (peer_ids peers) || r.removes k) ≡ false
  goes k h = ground (arith, h, removes k)

  lookup-remove_servers :
      (i : ℕ) (visited : List ℕ) (s : Servers)
      → lookup i (remove_servers r self peers visited s)
        ≡ (if contains i visited && gone i then none else lookup i s)
  unfolding remove_servers
  lookup-remove_servers i [] s = refl
  lookup-remove_servers i (k ∷ rest) s =
      elim (Bool-cases (k == self || contains k (peer_ids peers))) [
        | inl h ↦
            rw (remove_servers, stays k h)
              (lookup-remove_servers i rest s
                ∙ kept (k == i) (contains i rest) (gone i) (lookup i s)
                    (λ e. subst (λ x. gone x ≡ false) (==→eq k i e) (ground (arith, h))))
        | inr h ↦
            rw (remove_servers, goes k h)
              (lookup-remove_servers i rest (erase k s)
                ∙ rw (lookup-erase k i s) (
                    dropped (k == i) (contains i rest) (gone i) (lookup i s)
                      (λ e. subst (λ x. gone x ≡ true) (==→eq k i e) (ground (arith, h)))))
      ]

  lookup-add_peers :
      (i : ℕ) (existing : Servers) (ps : List RaftNode) (s : Servers)
      → lookup i (add_peers r self peers existing ps s)
        ≡ joining (is_server i existing || i == self) (listed_address i ps) (lookup i s)
  unfolding add_peers
  lookup-add_peers i existing [] s = none_joins (is_server i existing || i == self) (lookup i s)
    where
      none_joins : (x : Bool) (o : Option ℕ) → o ≡ joining x none o
      none_joins true o = refl
      none_joins false o = refl
  lookup-add_peers i existing (p ∷ ps) s =
      elim (Bool-cases (is_server p.node_id existing || p.node_id == self)) [
        | inl h ↦
            let b : (is_server p.node_id existing || p.node_id == self || r.adds p.node_id) ≡ true =
              ground (arith, h) in
            rw (add_peers, b)
              (lookup-add_peers i existing ps s
                ∙ passed (p.node_id == i) (is_server i existing || i == self) p.node_address
                    (listed_address i ps) (lookup i s)
                    (λ e.
                      subst (λ x. (is_server x existing || x == self) ≡ true) (==→eq p.node_id i e)
                        h))
        | inr h ↦
            let b : (is_server p.node_id existing || p.node_id == self || r.adds p.node_id)
                ≡ false =
              ground (arith, h, adds p.node_id) in
            rw (add_peers, b)
              (lookup-add_peers i existing ps (insert p.node_id p.node_address s)
                ∙ rw (lookup-insert p.node_id i p.node_address s) (
                    joined (p.node_id == i) (is_server i existing || i == self) p.node_address
                      (listed_address i ps) (lookup i s)
                      (λ e.
                        subst (λ x. (is_server x existing || x == self) ≡ false)
                          (==→eq p.node_id i e) h)))
      ]

  -- On the node that leads, if raft refuses no change, the node itself is then in the cluster as it
  -- was, and of the others the peers that etcd lists, and no more: one that was a server with the
  -- address it had there, also if etcd has another one, and one that was not with the node address
  -- that etcd has (the last one, if it lists the id twice).
  pub reconcile_raft_membership-peers :
      (s : Servers) (i : ℕ)
      → lookup i (reconcile_raft_membership r self peers true s)
        ≡ (if i == self then lookup i s else member (listed_address i peers) (lookup i s))
  unfolding reconcile_raft_membership
  reconcile_raft_membership-peers s i =
      lookup-add_peers i s peers (remove_servers r self peers (ids s) s)
      ∙ rw
          (
            lookup-remove_servers i (ids s) s,
            contains-ids i s,
            is_server-there i s,
            contains-listed i peers,
          )
          (decided (i == self) (listed_address i peers) (lookup i s))
