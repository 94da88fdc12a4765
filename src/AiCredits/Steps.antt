-- ===== src/AiCredits/Steps.antt =====
-- The operations on a store of which no call fails, one after another, from an empty store on.
use scheduler.Prelude.{ℕ, ◌<◌, ◌≡◌, Bool, false, List, [], ◌∷◌, insert}
use scheduler.Prelude.Int.{ℤ, pos}
use scheduler.AiCredits.{
  Credits, LedgerEntryInput, LedgerEntry, Store, ensure, apply_delta, new_credits, welcome_key,
  welcome_entry, delete_by_account_id, update_auto_topup,
}
use scheduler.AiCredits.Booked.{quiet, IsInt64, is_known}

module _ (m : List (ℕ × Credits)) (l : List LedgerEntry) (n a w : ℕ) where
  granted : Store
  granted =
      quiet (insert a (new_credits a (pos w) n) m)
        (record {
          account_id = a;
          input = welcome_entry a (pos w);
          balance_after_micros = pos w;
          date_created = n;
        }
          ∷ l)
        n

-- One operation, of which no call fails. Amounts are int64s, and the key of a welcome is not in use.
pub data Step (s : Store) : Store → Type 0 where
  ensured :
      {t : Store} (a w : ℕ)
      → w < 9223372036854775808
      → is_known (welcome_key a) s.ledger ≡ false
      → t ≡ (ensure a (pos w) s).1
      → Step s t
  applied :
      {t : Store} (a : ℕ) (i : LedgerEntryInput)
      → IsInt64 i.amount_micros
      → t ≡ (apply_delta a i s).1
      → Step s t
  updated :
      {t : Store} (a : ℕ) (b : Bool) (u v : ℤ) → t ≡ (update_auto_topup a b u v s).1 → Step s t
  deleted : {t : Store} (a : ℕ) → t ≡ (delete_by_account_id a s).1 → Step s t
  passed : {t : Store} (n : ℕ) → t ≡ record s { now = n } → Step s t

-- Every operation starts where no call fails.
pub data Reach : Store → Type 0 where
  start : (n : ℕ) → Reach (quiet [] [] n)
  next : {s t : Store} → Reach s → s.outcomes ≡ [] → Step s t → Reach t
