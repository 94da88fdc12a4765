-- ===== src/AiCredits/Service.antt =====
-- pkg/service/ai_credits/ai_credits.go: the AI credits service over the repository of credits. A
-- sum in dollars is a float64, of which the service reads whether it is above zero and the number
-- of millionths that it is rounded to.
use scheduler.Prelude.{
  ℕ, Bool, ◌&&◌, ◌||◌, not, Option, none, some, List, ◌==◌, if◌then◌else◌, [], ◌∷◌, zero, suc,
}
use scheduler.Prelude.Int.{ℤ, pos, negsuc, ltb_ℤ}
use scheduler.Prelude.Result.{Result, ok, err, bad_request, Text, is_empty}
use scheduler.AiCredits.{
  Credits, LedgerEntryInput, LedgerEntry, Store, M, ◌>>=◌, ◌>>◌, return, ensure, apply_delta,
  update_auto_topup, get_ledger,
}

pub record Dollars : Type 0 where
  pub is_positive : Bool
  pub micros : ℤ

pub record Service : Type 0 where
  pub enabled : Bool
  pub welcome : Dollars
  pub has_notifier : Bool

-- The notifier's arguments.
pub record LowCredit : Type 0 where
  pub account_id : ℕ
  pub balance_micros : ℤ
  pub topup_amount_micros : ℤ

abbrev kind_topup : Text
kind_topup = b't' ∷ b'o' ∷ b'p' ∷ b'u' ∷ b'p' ∷ []

abbrev kind_consume : Text
kind_consume = b'c' ∷ b'o' ∷ b'n' ∷ b's' ∷ b'u' ∷ b'm' ∷ b'e' ∷ []

abbrev reject : {A : Type 0} → M A
reject s = (err bad_request, s)

unfoldable pub welcome_micros : Service → ℤ
welcome_micros v = if v.enabled && v.welcome.is_positive then v.welcome.micros else pos 0

unfoldable pub ensure_account : Service → ℕ → M Credits
unfolding welcome_micros
ensure_account v a = if a == 0 then reject else ensure a (welcome_micros v)

unfoldable pub has_balance : Service → ℕ → M Bool
unfolding ensure_account
has_balance v a = do c ← ensure_account v a; return (ltb_ℤ (pos 0) c.balance_micros)

abbrev topup_entry : Dollars → Text → Text → Text → LedgerEntryInput
topup_entry usd kind intent key = record {
  amount_micros = usd.micros;
  kind = if is_empty kind then kind_topup else kind;
  provider = [];
  model = [];
  prompt_request_id = 0;
  stripe_payment_intent_id = intent;
  idempotency_key = key;
}

unfoldable pub credit : Service → ℕ → Dollars → Text → Text → Text → M Credits
unfolding ensure_account
credit v a usd kind intent key =
    if a == 0 || not usd.is_positive
    then reject
    else (do ensure_account v a; apply_delta a (topup_entry usd kind intent key))

abbrev micros_or_zero : Dollars → ℤ
micros_or_zero usd = if usd.is_positive then usd.micros else pos 0

unfoldable pub update_topup : ℕ → Bool → Dollars → Dollars → M Credits
update_topup a enabled threshold amount =
    if a == 0
    then reject
    else update_auto_topup a enabled (micros_or_zero threshold) (micros_or_zero amount)

unfoldable pub ledger_of : ℕ → ℕ → ℕ → M (List LedgerEntry)
ledger_of a limit offset = if a == 0 then reject else get_ledger a limit offset

abbrev pub consume_entry : ℤ → Text → Text → LedgerEntryInput
consume_entry amount provider model = record {
  amount_micros = amount;
  kind = kind_consume;
  provider = provider;
  model = model;
  prompt_request_id = 0;
  stripe_payment_intent_id = [];
  idempotency_key = [];
}

-- The notifier runs on its own when the balance is below the threshold.
unfoldable pub notification : Service → ℕ → Result Credits → Option LowCredit
notification v a (err e) = none
notification v a (ok c) =
    if v.has_notifier
      && c.auto_topup_enabled
      && ltb_ℤ c.balance_micros c.auto_topup_threshold_micros
    then some (record {
      account_id = a;
      balance_micros = c.balance_micros;
      topup_amount_micros = c.auto_topup_amount_micros;
    })
    else none

-- `-n` of an int64 above zero.
abbrev debit_of : ℤ → ℤ
debit_of (pos zero) = pos 0
debit_of (pos (suc n)) = negsuc n
debit_of (negsuc n) = pos (suc n)

-- `billed` is the cost with the markup, rounded up.
unfoldable pub charge_platform_run :
    Service → ℕ → Text → Text → Dollars → Store → Option LowCredit × Store
unfolding notification
charge_platform_run v a provider model billed s =
    let charged = apply_delta a (consume_entry (debit_of billed.micros) provider model) s in
    if a == 0 || not billed.is_positive || not (ltb_ℤ (pos 0) billed.micros)
    then (none, s)
    else (notification v a charged.0, charged.1)
