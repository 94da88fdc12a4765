-- ===== src/AiCredits/Booked.antt =====
-- The balance of an account is what the ledger's entries add up to.
use scheduler.Prelude.{
  ℕ, ◌<◌, ◌+◌, ◌-◌, ltb, ◌≡◌, Bool, true, false, ◌&&◌, Option, none, some, List, [], ◌∷◌, ◌==◌,
  if◌then◌else◌, lookup, insert, lookup-insert, arith, Bool-cases, Option-cases, inl, inr, refl,
  not, zero, suc,
}
use scheduler.Prelude.Int.{ℤ, pos, negsuc}
use scheduler.Prelude.Result.{Text, is_empty, ok, err, bad_request}
use scheduler.AiCredits.{
  Credits, LedgerEntryInput, LedgerEntry, Store, ensure, create, get_by_account_id, apply_delta,
  settle, new_balance, new_credits, key_exists, ledger_key_exists, known_key, insert_entry,
  insert_ledger, insert_credits, update_row, with_balance,
}

-- A store of which no call fails.
abbrev pub quiet : List (ℕ × Credits) → List LedgerEntry → ℕ → Store
quiet m l n = record { credits = m; ledger = l; outcomes = []; now = n }

abbrev pub row_balance : Option Credits → ℤ
row_balance none = pos 0
row_balance (some c) = c.balance_micros

-- An account with no row has nothing.
abbrev pub balance_of : ℕ → Store → ℤ
balance_of a s = row_balance (lookup a s.credits)

-- What a balance of micros is after an entry: an entry below zero takes at most what is there, and
-- a sum beyond an int64 leaves nothing.
abbrev pub credited : ℕ → ℤ → ℕ
credited b (pos n) = if ltb (b + n) 9223372036854775808 then b + n else 0
credited b (negsuc n) = b - suc n

-- The account's entries, from the oldest on, each on the balance before it.
abbrev pub replay : ℕ → List LedgerEntry → ℕ
replay a [] = 0
replay a (e ∷ es) =
    let before = replay a es in
    if e.account_id == a then credited before e.input.amount_micros else before

-- Every account's balance is the replay of its entries.
abbrev pub IsBooked : Store → Type 0
IsBooked s = (a : ℕ) → balance_of a s ≡ pos (replay a s.ledger)

-- A number of 64 bits with a sign.
abbrev pub IsInt64 : ℤ → Type 0
IsInt64 (pos n) = n < 9223372036854775808
IsInt64 (negsuc n) = n < 9223372036854775808

credited_bound : (b : ℕ) (z : ℤ) → b < 9223372036854775808 → credited b z < 9223372036854775808
credited_bound b (pos n) h = ground arith
credited_bound b (negsuc n) h = omega arith

pub replay_bound : (a : ℕ) (l : List LedgerEntry) → replay a l < 9223372036854775808
replay_bound a [] = omega arith
replay_bound a (e ∷ es) = elim (Bool-cases (e.account_id == a)) [
  | inl h ↦ rw h (credited_bound (replay a es) e.input.amount_micros (replay_bound a es))
  | inr h ↦ rw h (replay_bound a es)
]

new_balance-credited :
    (b : ℕ) (z : ℤ)
    → b < 9223372036854775808
    → IsInt64 z
    → new_balance (pos b) z ≡ pos (credited b z)
unfolding new_balance
new_balance-credited b (pos n) h i = ground arith
new_balance-credited b (negsuc n) h i = ground arith

pub ensure_found :
    (a : ℕ) (w : ℤ) (m : List (ℕ × Credits)) (l : List LedgerEntry) (n : ℕ) (c : Credits)
    → 0 < a
    → lookup a m ≡ some c
    → ensure a w (quiet m l n) ≡ (ok c, quiet m l n)
unfolding ensure get_by_account_id
ensure_found a w m l n c i e = ground arith

pub ensure_new :
    (a : ℕ) (m : List (ℕ × Credits)) (l : List LedgerEntry) (n : ℕ)
    → 0 < a
    → lookup a m ≡ none
    → ensure a (pos 0) (quiet m l n)
      ≡ (ok (new_credits a (pos 0) n), quiet (insert a (new_credits a (pos 0) n) m) l n)
unfolding ensure get_by_account_id create new_credits insert_credits
ensure_new a m l n i e = ground arith

-- The store after an entry `t` of the account, whose row was `c`.
abbrev pub posted :
    ℕ → LedgerEntryInput → Credits → List (ℕ × Credits) → List LedgerEntry → ℕ → Store
posted a t c m l n =
    let b = new_balance c.balance_micros t.amount_micros in
    quiet (insert a (with_balance b n c) m)
      (record { account_id = a; input = t; balance_after_micros = b; date_created = n } ∷ l) n

abbrev pub is_known : Text → List LedgerEntry → Bool
is_known key l = not (is_empty key) && key_exists key l

known_key_lem :
    (key : Text) (m : List (ℕ × Credits)) (l : List LedgerEntry) (n : ℕ)
    → known_key key (quiet m l n) ≡ (ok (is_known key l), quiet m l n)
unfolding known_key ledger_key_exists
known_key_lem [] m l n = refl
known_key_lem (x ∷ xs) m l n = refl

module _ (a : ℕ) (t : LedgerEntryInput) (m : List (ℕ × Credits)) (l : List LedgerEntry) (n : ℕ)
    (c : Credits) (found : lookup a m ≡ some c) where
  settle_found :
      is_known t.idempotency_key l ≡ false
      → settle a t c (quiet m l n)
        ≡ (ok (with_balance (new_balance c.balance_micros t.amount_micros) n c), posted a t c m l n)
  unfolding settle update_row insert_ledger insert_entry
  settle_found k = rw (found, update_row) (rw k)

  pub apply_delta_fresh :
      0 < a
      → is_known t.idempotency_key l ≡ false
      → apply_delta a t (quiet m l n)
        ≡ (ok (with_balance (new_balance c.balance_micros t.amount_micros) n c), posted a t c m l n)
  unfolding apply_delta
  apply_delta_fresh i k =
      rw (ensure_found a (pos 0) m l n c i found, known_key_lem t.idempotency_key m l n, k)
        (settle_found k)

  pub apply_delta_known :
      0 < a
      → is_known t.idempotency_key l ≡ true
      → apply_delta a t (quiet m l n) ≡ (ok c, quiet m l n)
  unfolding apply_delta
  apply_delta_known i k =
      rw (ensure_found a (pos 0) m l n c i found, known_key_lem t.idempotency_key m l n, k)

  found_balance :
      balance_of a (quiet m l n) ≡ pos (replay a l) → c.balance_micros ≡ pos (replay a l)
  found_balance h = ground (arith, h, found)

  posted-IsBooked :
      IsInt64 t.amount_micros
      → ((x : ℕ) → balance_of x (quiet m l n) ≡ pos (replay x l))
      → (x : ℕ) → balance_of x (posted a t c m l n) ≡ pos (replay x (posted a t c m l n).ledger)
  posted-IsBooked i h x = ground (
    arith,
    found_balance (h a),
    h x,
    new_balance-credited (replay a l) t.amount_micros (replay_bound a l) i,
    lookup-insert a x (with_balance (new_balance c.balance_micros t.amount_micros) n c) m,
  )

module _ (m : List (ℕ × Credits)) (l : List LedgerEntry) (n : ℕ) where
  apply_delta_found-IsBooked :
      (a : ℕ) (t : LedgerEntryInput) (c : Credits)
      → 0 < a
      → lookup a m ≡ some c
      → IsInt64 t.amount_micros
      → IsBooked (quiet m l n)
      → IsBooked (apply_delta a t (quiet m l n)).1
  apply_delta_found-IsBooked a t c i e z h x = elim (Bool-cases (is_known t.idempotency_key l)) [
    | inl k ↦ rw (apply_delta_known a t m l n c e i k) (h x)
    | inr k ↦ rw (apply_delta_fresh a t m l n c e i k) (posted-IsBooked a t m l n c e z h x)
  ]

  -- A row with nothing in it.
  abbrev pub opened : ℕ → List (ℕ × Credits)
  opened a = insert a (new_credits a (pos 0) n) m

  pub opened-IsBooked :
      (a : ℕ) → lookup a m ≡ none → IsBooked (quiet m l n) → IsBooked (quiet (opened a) l n)
  unfolding new_credits
  opened-IsBooked a e h x = ground (arith, h a, h x, lookup-insert a x (new_credits a (pos 0) n) m)

  pub lookup-opened : (a : ℕ) → lookup a (opened a) ≡ some (new_credits a (pos 0) n)
  lookup-opened a = ground (arith, lookup-insert a a (new_credits a (pos 0) n) m)

  -- A new account's row is made first.
  pub apply_delta_new :
      (a : ℕ) (t : LedgerEntryInput)
      → 0 < a
      → lookup a m ≡ none
      → apply_delta a t (quiet m l n) ≡ apply_delta a t (quiet (opened a) l n)
  unfolding apply_delta
  apply_delta_new a t i e = rw (
    ensure_new a m l n i e,
    ensure_found a (pos 0) (opened a) l n (new_credits a (pos 0) n) i (lookup-opened a),
  )

apply_delta_zero : (t : LedgerEntryInput) (s : Store) → apply_delta 0 t s ≡ (err bad_request, s)
unfolding apply_delta ensure get_by_account_id
apply_delta_zero t s = refl

pub apply_delta-IsBooked :
    (m : List (ℕ × Credits)) (l : List LedgerEntry) (n a : ℕ) (t : LedgerEntryInput)
    → IsInt64 t.amount_micros
    → IsBooked (quiet m l n)
    → IsBooked (apply_delta a t (quiet m l n)).1
apply_delta-IsBooked m l n zero t z h = rw (apply_delta_zero t (quiet m l n)) h
apply_delta-IsBooked m l n (suc a) t z h = elim (Option-cases (lookup (suc a) m)) [
  | inl e ↦ rw (apply_delta_new m l n (suc a) t (omega arith) e) (
      apply_delta_found-IsBooked (opened m l n (suc a)) l n (suc a) t
        (new_credits (suc a) (pos 0) n) (omega arith) (lookup-opened m l n (suc a)) z
        (opened-IsBooked m l n (suc a) e h))
  | inr (c, e) ↦ apply_delta_found-IsBooked m l n (suc a) t c (omega arith) e z h
]
