-- ===== src/AiCredits/Charges.antt =====
-- What a run on the platform's models costs an account.
use scheduler.Prelude.{
  ℕ, suc, ◌-◌, ◌<◌, ◌≡◌, true, false, ◌&&◌, ◌||◌, not, Option, none, some, List, ◌==◌,
  if◌then◌else◌, lookup, lookup-insert, ==-refl, arith, refl,
}
use scheduler.Prelude.Int.{pos, negsuc, ltb_ℤ}
use scheduler.Prelude.Result.{Text}
use scheduler.AiCredits.{Credits, LedgerEntry, new_balance, with_balance}
use scheduler.AiCredits.Booked.{quiet, balance_of, apply_delta_fresh}
use scheduler.AiCredits.Service.{
  Service, Dollars, LowCredit, charge_platform_run, notification, consume_entry,
}

debit_balance :
    (b k : ℕ)
    → b < 9223372036854775808
    → k < 9223372036854775808
    → new_balance (pos b) (negsuc k) ≡ pos (b - suc k)
unfolding new_balance
debit_balance b k p q = ground arith

module _ (v : Service) (m : List (ℕ × Credits)) (l : List LedgerEntry) (n a b k : ℕ)
    (provider model : Text) (c : Credits) where
  abbrev pub low : Option LowCredit
  low = some (record {
    account_id = a;
    balance_micros = pos (b - suc k);
    topup_amount_micros = c.auto_topup_amount_micros;
  })

  abbrev pub cost : Dollars
  cost = record { is_positive = true; micros = pos (suc k) }

  -- Where no call fails, a run that costs an account more than nothing lowers its balance by the
  -- price, to zero at least; the notifier is started exactly if it is set, the account tops up
  -- automatically, and the new balance is below its threshold, with that balance and the amount.
  pub charge_platform_run-balance :
      0 < a
      → b < 9223372036854775808
      → k < 9223372036854775808
      → lookup a m ≡ some c
      → c.balance_micros ≡ pos b
      → (balance_of a (charge_platform_run v a provider model cost (quiet m l n)).1
          ≡ pos (b - suc k))
        × ((charge_platform_run v a provider model cost (quiet m l n)).0 ≡ (
            if v.has_notifier
              && c.auto_topup_enabled
              && ltb_ℤ (pos (b - suc k)) c.auto_topup_threshold_micros
            then low
            else none))
  unfolding charge_platform_run notification
  charge_platform_run-balance i p q e f =
      let g : (a == 0 || not true || not (ltb_ℤ (pos 0) (pos (suc k)))) ≡ false = ground arith in
      let d : new_balance c.balance_micros (negsuc k) ≡ pos (b - suc k) =
        rw f (debit_balance b k p q) in
      let charged =
        apply_delta_fresh a (consume_entry (negsuc k) provider model) m l n c e i refl in
      (
        rw
            (
              charged,
              g,
              lookup-insert a a (with_balance (new_balance c.balance_micros (negsuc k)) n c) m,
              ==-refl a,
            )
            d,
        rw (charged, g, d),
      )
