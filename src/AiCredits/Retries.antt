-- ===== src/AiCredits/Retries.antt =====
-- What a second `ApplyDelta` with the same key does.
use scheduler.Prelude.{ℕ, ◌≡◌, List, [], ◌∷◌}
use scheduler.AiCredits.{Credits, LedgerEntryInput, LedgerEntry, Store, done, refused, apply_delta}

-- The second call answers as the first, and changes nothing.
abbrev Repeats : ℕ → LedgerEntryInput → Store → Type 0
Repeats a t s =
    apply_delta a t (apply_delta a t s).1 ≡ ((apply_delta a t s).0, (apply_delta a t s).1)

-- The next three calls are done, the fourth is refused, and all later ones are done.
abbrev pub entry_refused : List (ℕ × Credits) → List LedgerEntry → ℕ → Store
entry_refused m l n = record {
  credits = m;
  ledger = l;
  outcomes = done ∷ done ∷ done ∷ refused ∷ [];
  now = n;
}
