-- ===== src/AiCredits/Funded.antt =====
-- Balances, thresholds and amounts, whatever calls fail.
use scheduler.Prelude.{
  ℕ, ◌<◌, ◌≡◌, Bool, true, false, Option, none, some, List, [], ◌∷◌, ◌==◌, if◌then◌else◌, All,
  lookup, insert, erase, arith, refl, Option-cases, inl, inr, Bool-cases, keep, not,
}
use scheduler.Prelude.Int.{ℤ, pos, negsuc, pos_part, neg_part}
use scheduler.Prelude.Result.{Result, ok, err, bad_request, not_found, internal_error, Text}
use scheduler.AiCredits.{
  Credits, LedgerEntryInput, Store, CallOutcome, done, refused, lost, M, bind, commit, write_with,
  write, called, attempt, ensure, create, get_by_account_id, apply_delta, settle, known_key,
  ledger_key_exists, update_auto_topup, delete_by_account_id, new_balance, new_credits,
  insert_credits, insert_ledger, insert_entry, update_row, or_default, with_balance, with_topup,
  welcome_entry, or_create, head_outcome, read, read_with, ◌>>=◌, ◌>>◌, return,
}

-- No debt, and a top-up that is worth making.
abbrev pub IsSolvent : Credits → Type 0
IsSolvent c =
    (neg_part c.balance_micros ≡ 0)
    × (0 < pos_part c.auto_topup_threshold_micros)
    × (0 < pos_part c.auto_topup_amount_micros)

abbrev pub IsFunded : List (ℕ × Credits) → Type 0
IsFunded m = All (λ (r : ℕ × Credits). IsSolvent r.1) m

insert-IsFunded :
    (a : ℕ) (c : Credits) (m : List (ℕ × Credits))
    → IsSolvent c
    → IsFunded m
    → IsFunded (insert a c m)
insert-IsFunded a c [] v h = (v, tt)
insert-IsFunded a c ((k, d) ∷ m) v h = ground (arith, insert-IsFunded a c m)

erase-IsFunded : (a : ℕ) (m : List (ℕ × Credits)) → IsFunded m → IsFunded (erase a m)
erase-IsFunded a [] h = tt
erase-IsFunded a ((k, d) ∷ m) h = ground (arith, erase-IsFunded a m)

lookup-IsSolvent :
    (a : ℕ) (c : Credits) (m : List (ℕ × Credits)) → IsFunded m → lookup a m ≡ some c → IsSolvent c
lookup-IsSolvent a c [] h e = absurd (ground arith)
lookup-IsSolvent a c ((k, d) ∷ m) h e = ground (arith, lookup-IsSolvent a c m)

abbrev Leaves : Option Store → Type 0
Leaves none = Unit {0}
Leaves (some t) = IsFunded t.credits

commit-IsFunded :
    (o : Option Store) (s : Store) → Leaves o → IsFunded s.credits → IsFunded (commit o s).1.credits
commit-IsFunded none s g h = h
commit-IsFunded (some t) s g h = g

write_with-IsFunded :
    (o : CallOutcome) (change : Store → Option Store) (s : Store)
    → Leaves (change s)
    → IsFunded s.credits
    → IsFunded (write_with o change s).1.credits
write_with-IsFunded done change s g h = commit-IsFunded (change s) s g h
write_with-IsFunded refused change s g h = h
write_with-IsFunded lost change s g h = commit-IsFunded (change s) s g h

-- An operation that keeps every row solvent.
abbrev Keeps : {A : Type 0} → M A → Type 0
Keeps m = (s : Store) → IsFunded s.credits → IsFunded (m s).1.credits

bind-IsFunded :
    {A B : Type 0} (r : Result A × Store) (f : A → M B)
    → ((a : A) → Keeps (f a))
    → IsFunded r.1.credits
    → IsFunded (bind r f).1.credits
bind-IsFunded (ok a, s) f k h = k a s h
bind-IsFunded (err e, s) f k h = h

>>-Keeps : {A B : Type 0} (m : M A) (k : M B) → Keeps m → Keeps k → Keeps (m >> k)
>>-Keeps m k p q s h = bind-IsFunded (m s) (λ _. k) (λ _. q) (p s h)

write-Keeps :
    (change : Store → Option Store)
    → ((s : Store) → IsFunded s.credits → Leaves (change s))
    → Keeps (write change)
write-Keeps change k s h =
    write_with-IsFunded (head_outcome s.outcomes) change (called s) (k (called s) h) h

return-Keeps : {A : Type 0} (a : A) → Keeps (return a)
return-Keeps a s h = h

insert_ledger-Keeps : (a : ℕ) (t : LedgerEntryInput) (b : ℤ) → Keeps (attempt (insert_ledger a t b))
unfolding insert_ledger insert_entry
insert_ledger-Keeps a t b s h =
    write-Keeps
      (insert_entry
        (record { account_id = a; input = t; balance_after_micros = b; date_created = s.now }))
      (λ u k. ground arith) s h

update-Leaves :
    (a : ℕ) (f : Credits → Credits) (s : Store)
    → ((c : Credits) → IsSolvent c → IsSolvent (f c))
    → IsFunded s.credits
    → Leaves (update_row a f s)
unfolding update_row
update-Leaves a f s k h = elim (Option-cases (lookup a s.credits)) [
  | inl e ↦ rw (e, update_row) h
  | inr (c, e) ↦
      rw (e, update_row)
        (insert-IsFunded a (f c) s.credits (k c (lookup-IsSolvent a c s.credits h e)) h)
]

create_row-Leaves :
    (a : ℕ) (w : ℤ) (n : ℕ) (s : Store)
    → IsFunded s.credits
    → Leaves (insert_credits (new_credits a w n) s)
unfolding insert_credits new_credits
create_row-Leaves a w n s h = elim (Option-cases (lookup a s.credits)) [
  | inr (c, e) ↦ rw (e, insert_credits) tt
  | inl e ↦ rw (e, insert_credits) (insert-IsFunded a (new_credits a w n) s.credits (solvent w) h)
]
  where
    solvent : (w : ℤ) → IsSolvent (new_credits a w n)
    solvent (pos k) = ground arith
    solvent (negsuc k) = ground arith

read_with-store :
    {A : Type 0} (o : CallOutcome) (f : Store → Result A) (s : Store) → (read_with o f s).1 ≡ s
read_with-store done f s = refl
read_with-store refused f s = refl
read_with-store lost f s = refl

read-Keeps : {A : Type 0} (f : Store → Result A) → Keeps (read f)
read-Keeps f s h = rw (read_with-store (head_outcome s.outcomes) f (called s)) h

if-Keeps :
    {A : Type 0} (b : Bool) (m k : M A)
    → Keeps m
    → Keeps k
    → (s : Store) → IsFunded s.credits
    → IsFunded (if b then m s else k s).1.credits
if-Keeps true m k p q = p
if-Keeps false m k p q = q

get-Keeps : (a : ℕ) → Keeps (get_by_account_id a)
unfolding get_by_account_id
get-Keeps a s h = elim (Bool-cases (a == 0)) [ inl e ↦ rw e h | inr e ↦ rw e (read-Keeps _ s h) ]

new_balance_nonneg : (b d : ℤ) → neg_part (new_balance b d) ≡ 0
unfolding new_balance
new_balance_nonneg b d = ground arith

create-Keeps : (a : ℕ) (w : ℤ) → Keeps (create a w)
unfolding create
create-Keeps a w s h =
    let c = new_credits a w s.now in
    let made = write-Keeps (insert_credits c) (λ u k. create_row-Leaves a w s.now u k) in
    if-Keeps c.welcome_granted
      (write (insert_credits c)
        >> (attempt (insert_ledger a (welcome_entry a w) c.balance_micros) >> return c))
      (write (insert_credits c) >> return c)
      (>>-Keeps (write (insert_credits c))
        (attempt (insert_ledger a (welcome_entry a w) c.balance_micros) >> return c) made
        (>>-Keeps (attempt (insert_ledger a (welcome_entry a w) c.balance_micros)) (return c)
          (insert_ledger-Keeps a (welcome_entry a w) c.balance_micros) (return-Keeps c)))
      (>>-Keeps (write (insert_credits c)) (return c) made (return-Keeps c)) s h

or_create-IsFunded :
    (a : ℕ) (w : ℤ) (r : Result Credits × Store)
    → IsFunded r.1.credits
    → IsFunded (or_create a w r).1.credits
or_create-IsFunded a w (ok c, s) h = h
or_create-IsFunded a w (err not_found, s) h = create-Keeps a w s h
or_create-IsFunded a w (err bad_request, s) h = h
or_create-IsFunded a w (err internal_error, s) h = h

ensure-Keeps : (a : ℕ) (w : ℤ) → Keeps (ensure a w)
unfolding ensure
ensure-Keeps a w s h = or_create-IsFunded a w (get_by_account_id a s) (get-Keeps a s h)

settle-Keeps : (a : ℕ) (t : LedgerEntryInput) (c : Credits) → Keeps (settle a t c)
unfolding settle
settle-Keeps a t c s h =
    let b = new_balance c.balance_micros t.amount_micros in
    let answer = return (with_balance b s.now c) in
    let change = update_row a (with_balance b s.now) in
    >>-Keeps (write change) (attempt (insert_ledger a t b) >> answer)
      (write-Keeps change (λ u k.
        update-Leaves a (with_balance b s.now) u
          (λ d g. (new_balance_nonneg c.balance_micros t.amount_micros, g.1, g.2)) k))
      (>>-Keeps (attempt (insert_ledger a t b)) answer (insert_ledger-Keeps a t b) (λ u k. k)) s h

known_key-Keeps : (key : Text) → Keeps (known_key key)
unfolding known_key ledger_key_exists
known_key-Keeps [] s h = h
known_key-Keeps (x ∷ xs) s h = read-Keeps _ s h

apply_delta-Keeps : (a : ℕ) (t : LedgerEntryInput) → Keeps (apply_delta a t)
unfolding apply_delta
apply_delta-Keeps a t s h =
    bind-IsFunded (ensure a (pos 0) s)
      (λ c. known_key t.idempotency_key >>= λ b. if b then return c else settle a t c)
      (λ c u k.
        bind-IsFunded (known_key t.idempotency_key u) (λ b. if b then return c else settle a t c)
          (λ b. choose c b) (known_key-Keeps t.idempotency_key u k))
      (ensure-Keeps a (pos 0) s h)
  where
    choose : (c : Credits) (b : Bool) → Keeps (if b then return c else settle a t c)
    choose c true = return-Keeps c
    choose c false = settle-Keeps a t c

or_default_pos : (n : ℤ) (d : ℕ) → 0 < d → 0 < pos_part (or_default n (pos d))
unfolding or_default
or_default_pos n d h = ground arith

update_auto_topup-Keeps : (a : ℕ) (b : Bool) (u v : ℤ) → Keeps (update_auto_topup a b u v)
unfolding update_auto_topup
update_auto_topup-Keeps a b u v s h =
    let f = with_topup b (or_default u (pos 1000000)) (or_default v (pos 10000000)) s.now in
    >>-Keeps (ensure a (pos 0)) (write (update_row a f) >> get_by_account_id a)
      (ensure-Keeps a (pos 0))
      (>>-Keeps (write (update_row a f)) (get_by_account_id a)
        (write-Keeps (update_row a f) (λ x k.
          update-Leaves a f x
            (λ d g. (
              g.0,
              or_default_pos u 1000000 (omega arith),
              or_default_pos v 10000000 (omega arith),
            ))
            k))
        (get-Keeps a))
      s h

delete-Keeps : (a : ℕ) → Keeps (delete_by_account_id a)
unfolding delete_by_account_id
delete-Keeps a s h =
    let entries =
      λ (t : Store). some (record t { ledger = keep (λ e. not (e.account_id == a)) t.ledger }) in
    let row = λ (t : Store). some (record t { credits = erase a t.credits }) in
    if-Keeps (a == 0) (λ x. (err bad_request, x)) (write entries >> write row) (λ x k. k)
      (>>-Keeps (write entries) (write row) (write-Keeps entries (λ x k. k))
        (write-Keeps row (λ x k. erase-IsFunded a x.credits k)))
      s h

-- The operations of the repository that write.
pub data Operation : Type 0 where
  ensuring : ℕ → ℤ → Operation
  applying : ℕ → LedgerEntryInput → Operation
  updating : ℕ → Bool → ℤ → ℤ → Operation
  deleting : ℕ → Operation

abbrev pub perform : Operation → Store → Store
perform (ensuring a w) s = (ensure a w s).1
perform (applying a t) s = (apply_delta a t s).1
perform (updating a b u v) s = (update_auto_topup a b u v s).1
perform (deleting a) s = (delete_by_account_id a s).1

-- Each operation has its own time and the outcomes of its calls.
abbrev pub perform_all : List (ℕ × List CallOutcome × Operation) → Store → Store
perform_all [] s = s
perform_all ((n, os, o) ∷ rest) s =
    perform_all rest (perform o (record s { now = n; outcomes = os }))

perform-IsFunded : (o : Operation) (s : Store) → IsFunded s.credits → IsFunded (perform o s).credits
perform-IsFunded (ensuring a w) s h = ensure-Keeps a w s h
perform-IsFunded (applying a t) s h = apply_delta-Keeps a t s h
perform-IsFunded (updating a b u v) s h = update_auto_topup-Keeps a b u v s h
perform-IsFunded (deleting a) s h = delete-Keeps a s h

-- From a store in which every row has no negative balance and a positive threshold and amount of
-- the automatic top-up, any operations lead to such a store, with any amounts, and whichever of
-- their calls are refused or take effect without an answer.
pub perform_all-IsFunded :
    (ops : List (ℕ × List CallOutcome × Operation)) (s : Store)
    → IsFunded s.credits
    → IsFunded (perform_all ops s).credits
perform_all-IsFunded [] s h = h
perform_all-IsFunded ((n, os, o) ∷ rest) s h =
    perform_all-IsFunded rest (perform o (record s { now = n; outcomes = os }))
      (perform-IsFunded o (record s { now = n; outcomes = os }) h)
