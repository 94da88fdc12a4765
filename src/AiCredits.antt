-- ===== src/AiCredits.antt =====
-- pkg/repository/account_ai_credits/account_ai_credits.go and pkg/models/account_ai_credits.go: the
-- AI credits of accounts, a row for each, and the ledger of their changes, newest first. A call of
-- the database or of raft takes the next outcome; past the end of the list every call is done.
-- The clock stands still during one operation.
pub mod Service
pub mod Booked
pub mod Steps
pub mod Retries
pub mod Charges
pub mod Funded
use scheduler.Prelude.{
  ℕ, zero, suc, ◌+◌, ◌/◌, ◌%◌, ◌++◌, Bool, true, false, ◌&&◌, not, Option, none, some, List, [],
  ◌∷◌, ltb, ◌==◌, if◌then◌else◌, any, keep, lookup, insert, erase, take,
}
use scheduler.Prelude.Int.{ℤ, pos, ltb_ℤ, to_int64, to_uint64}
use scheduler.Prelude.Result.{
  Status, bad_request, not_found, internal_error, Result, ok, err, Text, text_eq, is_empty,
}

pub record Credits : Type 0 where
  pub account_id : ℕ
  pub balance_micros : ℤ
  pub auto_topup_enabled : Bool
  pub auto_topup_threshold_micros : ℤ
  pub auto_topup_amount_micros : ℤ
  pub welcome_granted : Bool
  pub date_created : ℕ
  pub date_modified : ℕ

pub record LedgerEntryInput : Type 0 where
  pub amount_micros : ℤ
  pub kind : Text
  pub provider : Text
  pub model : Text
  pub prompt_request_id : ℕ
  pub stripe_payment_intent_id : Text
  pub idempotency_key : Text

-- The row's id is set by the database.
pub record LedgerEntry : Type 0 where
  pub account_id : ℕ
  pub input : LedgerEntryInput
  pub balance_after_micros : ℤ
  pub date_created : ℕ

-- A call is done, is refused (also by a key of another table), or takes effect and its answer is lost, as when raft times out.
pub data CallOutcome : Type 0 where
  done refused lost : CallOutcome

pub record Store : Type 0 where
  pub credits : List (ℕ × Credits)
  pub ledger : List LedgerEntry
  pub outcomes : List CallOutcome
  pub now : ℕ

-- An operation answers and leaves a store.
abbrev pub M : Type 0 → Type 0
M A = Store → Result A × Store

abbrev pub bind : {A B : Type 0} → Result A × Store → (A → M B) → Result B × Store
bind (ok a, s) f = f a s
bind (err e, s) f = (err e, s)

infixl 5 ◌>>=◌ ◌>>◌
abbrev pub ◌>>=◌ : {A B : Type 0} → M A → (A → M B) → M B
◌>>=◌ m f s = bind (m s) f

abbrev pub ◌>>◌ : {A B : Type 0} → M A → M B → M B
m >> k = m >>= λ _. k

abbrev pub return : {A : Type 0} → A → M A
return a s = (ok a, s)

-- An error of `m` is logged and passed over.
abbrev pub attempt : M (Unit {0}) → M (Unit {0})
attempt m s = (ok tt, (m s).1)

abbrev pub head_outcome : List CallOutcome → CallOutcome
head_outcome [] = done
head_outcome (o ∷ os) = o

abbrev pub tail_outcomes : List CallOutcome → List CallOutcome
tail_outcomes [] = []
tail_outcomes (o ∷ os) = os

-- What a statement leaves; `none` is a violated constraint.
abbrev pub commit : Option Store → Store → Result (Unit {0}) × Store
commit none s = (err internal_error, s)
commit (some t) s = (ok tt, t)

abbrev pub write_with : CallOutcome → (Store → Option Store) → M (Unit {0})
write_with done change s = commit (change s) s
write_with refused change s = (err internal_error, s)
write_with lost change s = (err internal_error, (commit (change s) s).1)

abbrev pub called : Store → Store
called s = record s { outcomes = tail_outcomes s.outcomes }

-- A statement that raft applies, and one that is read here.
abbrev pub write : (Store → Option Store) → M (Unit {0})
write change s = write_with (head_outcome s.outcomes) change (called s)

abbrev pub read_with : {A : Type 0} → CallOutcome → (Store → Result A) → M A
read_with done f s = (f s, s)
read_with refused f s = (err internal_error, s)
read_with lost f s = (err internal_error, s)

abbrev pub read : {A : Type 0} → (Store → Result A) → M A
read f s = read_with (head_outcome s.outcomes) f (called s)

abbrev default_auto_topup_threshold_micros : ℤ
default_auto_topup_threshold_micros = pos 1000000

abbrev default_auto_topup_amount_micros : ℤ
default_auto_topup_amount_micros = pos 10000000

abbrev kind_welcome : Text
kind_welcome = b'w' ∷ b'e' ∷ b'l' ∷ b'c' ∷ b'o' ∷ b'm' ∷ b'e' ∷ []

-- `%d` of a uint64, which has twenty digits at most.
unfoldable pub digits : ℕ → ℕ → Text → Text
digits zero n text = text
digits (suc fuel) n text =
    let shown = (b'0' + n % 10) ∷ text in
    let rest = digits fuel (n / 10) shown in if n / 10 == 0 then shown else rest

unfoldable pub welcome_key : ℕ → Text
unfolding digits
welcome_key a = kind_welcome ++ b':' ∷ digits 20 a []

unfoldable pub get_by_account_id : ℕ → M Credits
get_by_account_id a s =
    if a == 0
    then (err bad_request, s)
    else read (λ t. elim (lookup a t.credits) [ none ↦ err not_found | some c ↦ ok c ]) s

unfoldable pub key_exists : Text → List LedgerEntry → Bool
key_exists key = any (λ e. text_eq e.input.idempotency_key key)

unfoldable pub ledger_key_exists : Text → M Bool
unfolding key_exists
ledger_key_exists key = read (λ s. ok (key_exists key s.ledger))

-- The index on the keys that are not empty is unique.
unfoldable pub insert_entry : LedgerEntry → Store → Option Store
unfolding key_exists
insert_entry e s =
    if not (is_empty e.input.idempotency_key) && key_exists e.input.idempotency_key s.ledger
    then none
    else some (record s { ledger = e ∷ s.ledger })

unfoldable pub insert_ledger : ℕ → LedgerEntryInput → ℤ → M (Unit {0})
unfolding insert_entry
insert_ledger a i balance s =
    write
      (insert_entry (record {
        account_id = a;
        input = i;
        balance_after_micros = balance;
        date_created = s.now;
      }))
      s

-- The account is the table's primary key.
unfoldable pub insert_credits : Credits → Store → Option Store
insert_credits c s = elim (lookup c.account_id s.credits) [
  | none ↦ some (record s { credits = insert c.account_id c s.credits })
  | some old ↦ none
]

unfoldable pub welcome_entry : ℕ → ℤ → LedgerEntryInput
unfolding welcome_key
welcome_entry a amount = record {
  amount_micros = amount;
  kind = kind_welcome;
  provider = [];
  model = [];
  prompt_request_id = 0;
  stripe_payment_intent_id = [];
  idempotency_key = welcome_key a;
}

-- The row of a new account.
unfoldable pub new_credits : ℕ → ℤ → ℕ → Credits
new_credits a welcome now =
    let granted = ltb_ℤ (pos 0) welcome in
    record {
      account_id = a;
      balance_micros = if granted then welcome else pos 0;
      auto_topup_enabled = false;
      auto_topup_threshold_micros = default_auto_topup_threshold_micros;
      auto_topup_amount_micros = default_auto_topup_amount_micros;
      welcome_granted = granted;
      date_created = now;
      date_modified = now;
    }

-- `Ensure` from its insert on.
unfoldable pub create : ℕ → ℤ → M Credits
unfolding new_credits insert_credits insert_ledger welcome_entry
create a welcome s =
    let c = new_credits a welcome s.now in
    if c.welcome_granted
    then (do
      write (insert_credits c)
      attempt (insert_ledger a (welcome_entry a welcome) c.balance_micros)
      return c)
        s
    else (do write (insert_credits c); return c) s

abbrev pub or_create : ℕ → ℤ → Result Credits × Store → Result Credits × Store
or_create a welcome (ok c, s) = (ok c, s)
or_create a welcome (err not_found, s) = create a welcome s
or_create a welcome (err bad_request, s) = (err bad_request, s)
or_create a welcome (err internal_error, s) = (err internal_error, s)

unfoldable pub ensure : ℕ → ℤ → M Credits
unfolding get_by_account_id create
ensure a welcome s = or_create a welcome (get_by_account_id a s)

-- An int64 sum that wraps around, and not below zero.
unfoldable pub new_balance : ℤ → ℤ → ℤ
new_balance old amount =
    let sum = to_int64 ((to_uint64 old + to_uint64 amount) % 18446744073709551616) in
    if ltb_ℤ sum (pos 0) then pos 0 else sum

-- An update of the account's row; there may be none.
unfoldable pub update_row : ℕ → (Credits → Credits) → Store → Option Store
update_row a f s = elim (lookup a s.credits) [
  | none ↦ some s
  | some c ↦ some (record s { credits = insert a (f c) s.credits })
]

abbrev pub with_balance : ℤ → ℕ → Credits → Credits
with_balance b now c = record c { balance_micros = b; date_modified = now }

-- `ApplyDelta` from its update on.
unfoldable pub settle : ℕ → LedgerEntryInput → Credits → M Credits
unfolding new_balance update_row insert_ledger
settle a i c s =
    let b = new_balance c.balance_micros i.amount_micros in
    (do
      write (update_row a (with_balance b s.now))
      attempt (insert_ledger a i b)
      return (with_balance b s.now c))
      s

unfoldable pub known_key : Text → M Bool
unfolding ledger_key_exists
known_key key s = if is_empty key then (ok false, s) else ledger_key_exists key s

unfoldable pub apply_delta : ℕ → LedgerEntryInput → M Credits
unfolding ensure known_key settle
apply_delta a i = do
  c ← ensure a (pos 0)
  known ← known_key i.idempotency_key
  if known then return c else settle a i c

unfoldable pub or_default : ℤ → ℤ → ℤ
or_default n d = if ltb_ℤ (pos 0) n then n else d

abbrev pub with_topup : Bool → ℤ → ℤ → ℕ → Credits → Credits
with_topup enabled threshold amount now c = record c {
  auto_topup_enabled = enabled;
  auto_topup_threshold_micros = threshold;
  auto_topup_amount_micros = amount;
  date_modified = now;
}

unfoldable pub update_auto_topup : ℕ → Bool → ℤ → ℤ → M Credits
unfolding ensure or_default update_row get_by_account_id
update_auto_topup a enabled threshold amount s =
    let t = or_default threshold default_auto_topup_threshold_micros in
    let n = or_default amount default_auto_topup_amount_micros in
    (do ensure a (pos 0); write (update_row a (with_topup enabled t n s.now)); get_by_account_id a)
      s

-- Rows with the latest date first.
unfoldable pub insert_by_date : LedgerEntry → List LedgerEntry → List LedgerEntry
insert_by_date e [] = e ∷ []
insert_by_date e (x ∷ xs) =
    if ltb e.date_created x.date_created then x ∷ insert_by_date e xs else e ∷ x ∷ xs

unfoldable pub sort_by_date : List LedgerEntry → List LedgerEntry
unfolding insert_by_date
sort_by_date [] = []
sort_by_date (x ∷ xs) = insert_by_date x (sort_by_date xs)

abbrev pub drop : {A : Type 0} → ℕ → List A → List A
drop zero xs = xs
drop (suc n) [] = []
drop (suc n) (x ∷ xs) = drop n xs

unfoldable pub get_ledger : ℕ → ℕ → ℕ → M (List LedgerEntry)
unfolding sort_by_date
get_ledger a limit offset s =
    let n = if limit == 0 then 50 else limit in
    if a == 0
    then (err bad_request, s)
    else read
        (λ t. ok (take n (drop offset (sort_by_date (keep (λ e. e.account_id == a) t.ledger))))) s

unfoldable pub delete_by_account_id : ℕ → M (Unit {0})
delete_by_account_id a s =
    if a == 0
    then (err bad_request, s)
    else (do
      write (λ t. some (record t { ledger = keep (λ e. not (e.account_id == a)) t.ledger }))
      write (λ t. some (record t { credits = erase a t.credits })))
        s
