-- ===== src/Queue/Quota/Laws.antt =====
-- What the allocation of quotas keeps: the rows of other accounts, and the sum of what the count
-- and the node hold; and what it loses when a write fails.
use scheduler.Prelude.{
  ℕ, ◌+◌, ◌-◌, ◌*◌, ◌≤◌, ◌<◌, ◌≡◌, ap, ◌∙◌, not, inl, inr, Option-cases, Bool, true, false, ◌&&◌,
  Option, none, some, List, [], ◌∷◌, arith, ltb, ◌==◌, if◌then◌else◌, lookup, insert, lookup-insert,
}
use scheduler.Queue.{get_or, target_node}
use scheduler.Queue.Quota.{
  Call, refill, inactivate, create, reset, read, update, QuotaState, Outcome, ok, err, Snapshot,
  default_executions_100_k, execution_limit, reconcile, write_row, share, on_exhausted,
  store_remaining, hand_out, allocate_account,
}

pub lookup-write_row :
    (a b v : ℕ) (m : List (ℕ × ℕ)) → (a == b) ≡ false → lookup b (write_row a v m) ≡ lookup b m
unfolding write_row
lookup-write_row a b v m ne = ground (arith, lookup-insert a b v m)

pub lookup-write_row_self :
    (a v : ℕ) {w : ℕ} (m : List (ℕ × ℕ)) → lookup a m ≡ some w → lookup a (write_row a v m) ≡ some v
unfolding write_row
lookup-write_row_self a v m e = ground (arith, lookup-insert a a v m)

pub share_bounds : (r : ℕ) → (share r ≤ r) × (0 < r → 0 < share r) × (10 * share r ≤ r + 9)
unfolding share
share_bounds r = ground arith

abbrev pub state_of : Outcome QuotaState → QuotaState
state_of (ok s) = s
state_of (err s) = s

-- What is settled for the account before its share is handed out.
abbrev pub settled : Snapshot → ℕ → ℕ
settled v a =
    let r =
      reconcile (execution_limit (get_or (lookup a v.features) [])) (get_or (lookup a v.usage) 0)
        (lookup a v.current_counts) in
    if r == 0 && a == 1 then default_executions_100_k else r

abbrev rest_of : Outcome (ℕ × QuotaState) → QuotaState
rest_of (ok (q, s)) = s
rest_of (err (q, s)) = s

on_exhausted-other :
    (fails : Call → Bool) (a b r : ℕ) (s : QuotaState)
    → (a == b) ≡ false
    → lookup b (rest_of (on_exhausted fails a r s)).counts ≡ lookup b s.counts
unfolding on_exhausted
on_exhausted-other fails a b r s ne =
    ground (arith, lookup-write_row a b default_executions_100_k s.counts)

store_remaining-other :
    (fails : Call → Bool) (current : Option ℕ) (a b r : ℕ) (s : QuotaState)
    → (a == b) ≡ false
    → lookup b (state_of (store_remaining fails current a r s)).counts ≡ lookup b s.counts
unfolding store_remaining
store_remaining-other fails none a b r s ne = ground (arith, lookup-insert a b r s.counts)
store_remaining-other fails (some c) a b r s ne = ground (arith, lookup-write_row a b r s.counts)

hand_out-other :
    (fails : Call → Bool) (node a b r : ℕ) (s : QuotaState)
    → (a == b) ≡ false
    → lookup b (hand_out fails node a r s).counts ≡ lookup b s.counts
unfolding hand_out
hand_out-other fails node a b r s ne =
    let left = get_or (lookup a s.counts) 0 in
    ground
      (arith, lookup-write_row a b (left - (if ltb left (share r) then left else share r)) s.counts)

-- Whatever calls fail, the row of another account is left as it was.
pub allocate_account-lookup_other :
    (fails : Call → Bool) (v : Snapshot) (a b : ℕ) (s : QuotaState)
    → (a == b) ≡ false
    → lookup b (state_of (allocate_account fails v a s)).counts ≡ lookup b s.counts
unfolding allocate_account
allocate_account-lookup_other fails v a b s ne =
    let r =
      reconcile (execution_limit (get_or (lookup a v.features) [])) (get_or (lookup a v.usage) 0)
        (lookup a v.current_counts) in
    go (on_exhausted fails a r s) (on_exhausted-other fails a b r s ne)
  where
    finish :
        (q : ℕ) (t : QuotaState) (o : Outcome QuotaState)
        → lookup b (state_of o).counts ≡ lookup b s.counts
        → lookup b
            (state_of (elim o [
              | err u ↦ err u
              | ok u ↦ ok (hand_out fails (target_node v.workers a) a q u)
            ])).counts
          ≡ lookup b s.counts
    finish q t (ok u) h = hand_out-other fails (target_node v.workers a) a b q u ne ∙ h
    finish q t (err u) h = h

    go :
        (o : Outcome (ℕ × QuotaState))
        → lookup b (rest_of o).counts ≡ lookup b s.counts
        → lookup b
            (state_of (elim o [
              | err (q, t) ↦ err t
              | ok (q, t) ↦ elim (store_remaining fails (lookup a v.current_counts) a q t) [
                | err u ↦ err u
                | ok u ↦ ok (hand_out fails (target_node v.workers a) a q u)
              ]
            ])).counts
          ≡ lookup b s.counts
    go (err (q, t)) h = h
    go (ok (q, t)) h =
        finish q t (store_remaining fails (lookup a v.current_counts) a q t)
          (store_remaining-other fails (lookup a v.current_counts) a b q t ne ∙ h)

-- What node `n` holds for account `a`.
abbrev pub held : ℕ → ℕ → QuotaState → Option ℕ
held n a s = lookup a (get_or (lookup n s.by_node) [])

hand_out-conserves :
    (fails : Call → Bool) (node a q : ℕ) (s : QuotaState)
    → fails (read a) ≡ false
    → fails (update a) ≡ false
    → lookup a s.counts ≡ some q
    → (lookup a (hand_out fails node a q s).counts ≡ some (q - share q))
      × (0 < q → held node a (hand_out fails node a q s) ≡ some (share q))
unfolding hand_out
hand_out-conserves fails node a q s hr hu e =
    let shared = get_or (lookup node s.by_node) [] in
    (
      ground (arith, share_bounds q, lookup-write_row_self a (q - share q) s.counts e),
      λ p. ground (
        arith,
        share_bounds q,
        lookup-insert node node (insert a (share q) shared) s.by_node,
        lookup-insert a a (share q) shared,
      ),
    )

abbrev is_some : Option ℕ → Bool
is_some none = false
is_some (some c) = true

abbrev after_exhausted : (Call → Bool) → ℕ → ℕ → QuotaState → QuotaState
after_exhausted fails a r s =
    if r == 0 && a == 1
    then record s { counts = write_row a default_executions_100_k s.counts }
    else if r == 0 && not (a == 1) && not (fails (inactivate a))
    then record s { inactive = a ∷ s.inactive }
    else s

on_exhausted_ok :
    (fails : Call → Bool) (a r : ℕ) (s : QuotaState)
    → fails (refill a) ≡ false
    → on_exhausted fails a r s
      ≡ ok ((if r == 0 && a == 1 then default_executions_100_k else r), after_exhausted fails a r s)
unfolding on_exhausted
on_exhausted_ok fails a r s h = ground arith

is_some-write_row :
    (a v : ℕ) (m : List (ℕ × ℕ)) → is_some (lookup a (write_row a v m)) ≡ is_some (lookup a m)
unfolding write_row
is_some-write_row a v m = ground (arith, lookup-insert a a v m)

is_some-after_exhausted :
    (fails : Call → Bool) (a r : ℕ) (s : QuotaState)
    → is_some (lookup a (after_exhausted fails a r s).counts) ≡ is_some (lookup a s.counts)
is_some-after_exhausted fails a r s =
    ground (arith, is_some-write_row a default_executions_100_k s.counts)

lookup-store_remaining :
    (fails : Call → Bool) (current : Option ℕ) (a q : ℕ) (t : QuotaState)
    → fails (create a) ≡ false
    → fails (reset a) ≡ false
    → is_some (lookup a t.counts) ≡ is_some current
    → (u : QuotaState) × (store_remaining fails current a q t ≡ ok u) × (lookup a u.counts ≡ some q)
unfolding store_remaining
lookup-store_remaining fails none a q t hc hr e = (
  record t { counts = insert a q t.counts },
  ground arith,
  ground (arith, lookup-insert a a q t.counts),
)
lookup-store_remaining fails (some c) a q t hc hr e = (
  record t { counts = write_row a q t.counts },
  ground arith,
  elim (Option-cases (lookup a t.counts)) [
    | inl n ↦ ground arith
    | inr (w, p) ↦ lookup-write_row_self a q t.counts p
  ],
)

-- No write for the account fails.
abbrev pub Succeeds : (Call → Bool) → ℕ → Type 0
Succeeds fails a =
    (fails (refill a) ≡ false)
    × (fails (create a) ≡ false)
    × (fails (reset a) ≡ false)
    × (fails (read a) ≡ false)
    × (fails (update a) ≡ false)

-- Where no write of the account fails and its row is as the snapshot has it, the allocation
-- succeeds and what was settled is divided: a share at the account's node, if anything was
-- settled, and the rest in the row. The share is a tenth, at least one if there is any.
pub allocate_account-divides :
    (fails : Call → Bool) (v : Snapshot) (a : ℕ) (s : QuotaState)
    → Succeeds fails a
    → lookup a s.counts ≡ lookup a v.current_counts
    → let q = settled v a in
      (t : QuotaState) × (allocate_account fails v a s ≡ ok t)
      × (lookup a t.counts ≡ some (q - share q))
      × (0 < q → held (target_node v.workers a) a t ≡ some (share q))
      × (share q ≤ q)
      × (0 < q → 0 < share q)
unfolding allocate_account
allocate_account-divides fails v a s h e =
    let r =
      reconcile (execution_limit (get_or (lookup a v.features) [])) (get_or (lookup a v.usage) 0)
        (lookup a v.current_counts) in
    let q = settled v a in
    let (u, stored, row) =
      lookup-store_remaining fails (lookup a v.current_counts) a q (after_exhausted fails a r s) h.1
        h.2 (is_some-after_exhausted fails a r s ∙ ap is_some e) in
    let (kept, given) = hand_out-conserves fails (target_node v.workers a) a q u h.3 h.4 row in
    let (le, pos, tenth) = share_bounds q in
    (
      hand_out fails (target_node v.workers a) a q u,
      rw (on_exhausted_ok fails a r s h.0, allocate_account) (rw stored),
      kept,
      given,
      le,
      pos,
    )

-- The share is recorded for the node before the row is lowered, and a failing write of the row
-- is passed over: then the row keeps all that was settled, and the node holds its share as well.
pub allocate_account_overcommits :
    (fails : Call → Bool) (node a q : ℕ) (s : QuotaState)
    → fails (update a) ≡ true
    → 0 < q
    → lookup a s.counts ≡ some q
    → (lookup a (hand_out fails node a q s).counts ≡ some q)
      × (held node a (hand_out fails node a q s) ≡ some (share q))
unfolding hand_out
allocate_account_overcommits fails node a q s hu p e =
    let shared = get_or (lookup node s.by_node) [] in
    (
      ground arith,
      ground (
        arith,
        lookup-insert node node (insert a (share q) shared) s.by_node,
        lookup-insert a a (share q) shared,
      ),
    )
