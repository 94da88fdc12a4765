-- ===== src/Tests/AiCredits.antt =====
-- The AI credits at small inputs.
use scheduler.Prelude.{ℕ, ◌≡◌, refl, true, false, List, [], ◌∷◌, arith}
use scheduler.Prelude.Int.{ℤ, pos, negsuc}
use scheduler.Prelude.Result.{Text}
use scheduler.AiCredits.{
  Credits, LedgerEntryInput, Store, CallOutcome, done, refused, lost, ensure, apply_delta,
  welcome_key,
}
use scheduler.AiCredits.Booked.{quiet, balance_of}
use scheduler.AiCredits.Funded.{
  Operation, ensuring, applying, updating, deleting, perform_all, perform_all-IsFunded, IsFunded,
}
use scheduler.AiCredits.Service.{Service}

abbrev topup : ℤ → Text → LedgerEntryInput
topup n key = record {
  amount_micros = n;
  kind = [];
  provider = [];
  model = [];
  prompt_request_id = 0;
  stripe_payment_intent_id = [];
  idempotency_key = key;
}

-- "welcome:120".
key_of_120 :
    welcome_key 120
    ≡ b'w' ∷ b'e' ∷ b'l' ∷ b'c' ∷ b'o' ∷ b'm' ∷ b'e' ∷ b':' ∷ b'1' ∷ b'2' ∷ b'0' ∷ []
unfolding welcome_key
key_of_120 = refl

abbrev welcomed : Store
welcomed = (ensure 7 (pos 100) (quiet [] [] 5)).1

abbrev charged : Store
charged = (apply_delta 7 (topup (negsuc 149) []) welcomed).1

charged_balance : balance_of 7 charged ≡ pos 0
unfolding ensure apply_delta
charged_balance = refl

abbrev row : Credits
row = record {
  account_id = 7;
  balance_micros = pos 20;
  auto_topup_enabled = true;
  auto_topup_threshold_micros = pos 10;
  auto_topup_amount_micros = pos 50;
  welcome_granted = false;
  date_created = 1;
  date_modified = 1;
}

abbrev rows : List (ℕ × Credits)
rows = (7, row) ∷ []

abbrev some_operations : List (ℕ × List CallOutcome × Operation)
some_operations =
    (6, done ∷ lost ∷ [], applying 7 (topup (negsuc 24) []))
    ∷ (7, [], updating 7 false (pos 0) (negsuc 4))
    ∷ (8, done ∷ refused ∷ [], deleting 7)
    ∷ (9, [], ensuring 8 (pos 3))
    ∷ []

perform_all-IsFunded_example : IsFunded (perform_all some_operations (quiet rows [] 5)).credits
perform_all-IsFunded_example = perform_all-IsFunded some_operations (quiet rows [] 5) (omega arith)

abbrev platform : Service
platform = record {
  enabled = true;
  welcome = record { is_positive = true; micros = pos 100 };
  has_notifier = true;
}
