-- ===== src/Queue/Quota/Run.antt =====
-- The loop of the allocation over all accounts.
use scheduler.Queue.{target_node}
use scheduler.Prelude.{
  ℕ, ◌-◌, ◌≡◌, refl, ◌∙◌, Bool, false, some, arith, List, [], ◌∷◌, ◌==◌, All, lookup, ◌<◌, ◌≤◌,
}
use scheduler.Queue.Quota.{
  Call, QuotaState, Outcome, ok, err, Snapshot, share, allocate_account, allocate_accounts,
}
use scheduler.Queue.Quota.Laws.{
  state_of, settled, Succeeds, allocate_account-lookup_other, allocate_account-divides, held,
}

-- Where no write of the account fails, its row is as the snapshot has it and something was settled
-- for it, the allocation succeeds and what was settled is divided: the account's node holds a share,
-- and the row the rest. The share is not zero and not more than what was settled.
pub allocate_account-conserves :
    (fails : Call → Bool) (v : Snapshot) (a : ℕ) (s : QuotaState)
    → Succeeds fails a
    → lookup a s.counts ≡ lookup a v.current_counts
    → 0 < settled v a
    → let q = settled v a in
      (t : QuotaState) × (allocate_account fails v a s ≡ ok t)
      × (lookup a t.counts ≡ some (q - share q))
      × (held (target_node v.workers a) a t ≡ some (share q))
      × (0 < share q)
      × (share q ≤ q)
allocate_account-conserves fails v a s h e p =
    let (t, done, row, given, le, positive) = allocate_account-divides fails v a s h e in
    (t, done, row, given p, positive p, le)

-- Whatever calls fail, the loop leaves the row of an account that it does not visit.
pub allocate_accounts-lookup_other :
    (fails : Call → Bool) (v : Snapshot) (b : ℕ) (accounts : List ℕ) (s : QuotaState)
    → All (λ a. (a == b) ≡ false) accounts
    → lookup b (state_of (allocate_accounts fails v accounts s)).counts ≡ lookup b s.counts
unfolding allocate_accounts
allocate_accounts-lookup_other fails v b [] s d = refl
allocate_accounts-lookup_other fails v b (a ∷ rest) s d =
    go (allocate_account fails v a s) (allocate_account-lookup_other fails v a b s d.0)
      (λ t. allocate_accounts-lookup_other fails v b rest t d.1)
  where
    go :
        (o : Outcome QuotaState)
        → lookup b (state_of o).counts ≡ lookup b s.counts
        → ((t : QuotaState)
            → lookup b (state_of (allocate_accounts fails v rest t)).counts ≡ lookup b t.counts)
        → lookup b
            (state_of (elim o [ err t ↦ err t | ok t ↦ allocate_accounts fails v rest t ])).counts
          ≡ lookup b s.counts
    go (err t) h ih = h
    go (ok t) h ih = ih t ∙ h

-- No account is listed twice.
abbrev pub IsDistinctList : List ℕ → Type 0
IsDistinctList [] = Unit {0}
IsDistinctList (a ∷ rest) = All (λ b. (b == a) ≡ false) rest × IsDistinctList rest

abbrev pub Agrees : Snapshot → QuotaState → ℕ → Type 0
Agrees v s a = lookup a s.counts ≡ lookup a v.current_counts

Agrees-keep :
    (fails : Call → Bool) (v : Snapshot) (a : ℕ) (s t : QuotaState) (rest : List ℕ)
    → allocate_account fails v a s ≡ ok t
    → All (λ b. (b == a) ≡ false) rest
    → All (Agrees v s) rest
    → All (Agrees v t) rest
Agrees-keep fails v a s t [] e d h = tt
Agrees-keep fails v a s t (b ∷ rest) e d h = (
  (rw e at (allocate_account-lookup_other fails v a b s (==-sym b a d.0))) ∙ h.0,
  Agrees-keep fails v a s t rest e d.1 h.1,
)
  where
    ==-sym : (x y : ℕ) → (x == y) ≡ false → (y == x) ≡ false
    ==-sym x y p = ground arith

-- Where no write fails, no account is listed twice and the rows are as the snapshot has them, the
-- loop ends without an error, and the row of each account holds what was settled less its share.
pub allocate_accounts-conserves :
    (fails : Call → Bool) (v : Snapshot) (accounts : List ℕ) (s : QuotaState)
    → ((a : ℕ) → Succeeds fails a)
    → IsDistinctList accounts
    → All (Agrees v s) accounts
    → (t : QuotaState) × (allocate_accounts fails v accounts s ≡ ok t)
      × All (λ a. lookup a t.counts ≡ some (settled v a - share (settled v a))) accounts
unfolding allocate_accounts
allocate_accounts-conserves fails v [] s h d agree = (s, refl, tt)
allocate_accounts-conserves fails v (a ∷ rest) s h d agree =
    let (t, done, row, given, le, pos) = allocate_account-divides fails v a s (h a) agree.0 in
    let (u, end, rows) =
      allocate_accounts-conserves fails v rest t h d.1
        (Agrees-keep fails v a s t rest done d.0 agree.1) in
    (
      u,
      rw (done, allocate_accounts) end,
      ((rw end at (allocate_accounts-lookup_other fails v a rest t d.0)) ∙ row, rows),
    )
