-- ===== src/RaftStore/Recovery/Replay.antt =====
-- The replay of entries against a node that applies them.
use scheduler.Prelude.{
  ℕ, ◌+◌, ◌≡◌, ◌∙◌, ap, true, false, Option, some, List, [], ◌∷◌, ◌++◌, length, ◌⊎◌, inl, inr,
  arith, refl,
}
use scheduler.RaftStore.{
  Engine, Log, LogType, log_configuration, log_command, Faults, faultless, OrError, value, raised,
  Store, apply_raft_log, apply_batch,
}
use scheduler.RaftStore.Recovery.{RaftFiles, replay, replay_entry}

abbrev marked : List Log → List (Faults × Log)
marked [] = []
marked (l ∷ ls) = (faultless, l) ∷ marked ls

abbrev pub last_term : ℕ → List Log → ℕ
last_term t [] = t
last_term t (l ∷ ls) = last_term l.term ls

-- The entries stand in the log from an index on.
abbrev pub Stored : (ℕ → Option Log) → ℕ → List Log → Type 0
Stored get i [] = Unit {0}
Stored get i (l ∷ ls) = (get i ≡ some l) × (l.index ≡ i) × Stored get (i + 1) ls

LogType-cases : (t : LogType) → (t ≡ log_configuration) ⊎ (t ≡ log_command)
LogType-cases log_configuration = inl refl
LogType-cases log_command = inr refl

OrError-cases :
    {A : Type 0} (x : OrError A) → ((a : A) × (x ≡ value a)) ⊎ ((t : List ℕ) × (x ≡ raised t))
OrError-cases (value a) = inl (a, refl)
OrError-cases (raised t) = inr (t, refl)

module _ {D P : Type 0} (e : Engine D P) where
  -- A node that applies the entries without a fault.
  abbrev pub live : List Log → Store D → Store D
  live logs s = (apply_batch e (marked logs) s).1

  pub live-append : (xs ys : List Log) (s : Store D) → live (xs ++ ys) s ≡ live ys (live xs s)
  unfolding apply_batch
  live-append [] ys s = refl
  live-append (x ∷ xs) ys s = live-append xs ys ((apply_raft_log e faultless false x s).1)

  -- The channel makes no difference to the database.
  quiet :
      (f : Faults) (l : Log) (s : Store D)
      → (apply_raft_log e f true l (record { database = s.database; posts = [] })).1.database
        ≡ (apply_raft_log e f false l s).1.database
  unfolding apply_raft_log
  quiet f l s = elim (LogType-cases l.log_type) [
    | inl a ↦ rw a refl
    | inr a ↦ elim (OrError-cases (e.parse_command l.command)) [
      | inl (c, b) ↦ rw (a, b) refl
      | inr (t, b) ↦ rw (a, b) refl
    ]
  ]

  replay_entry-live :
      (r : RaftFiles) (l : Log) (i k t : ℕ) (s : Store D)
      → r.faults i ≡ faultless
      → r.get_log i ≡ some l
      → l.index ≡ i
      → replay_entry e r i (record { database = s.database; last_index = k; last_term = t })
        ≡ record { database = (live (l ∷ []) s).database; last_index = i; last_term = l.term }
  unfolding apply_batch
  replay_entry-live r l i k t s f g x = rw (replay_entry, g, f, quiet faultless l s, x)

  pub replay-live :
      (r : RaftFiles) (logs : List Log) (i t : ℕ) (s : Store D)
      → ((k : ℕ) → r.faults k ≡ faultless)
      → Stored r.get_log (i + 1) logs
      → replay e r
          (length logs)
          (i + 1)
          (record { database = s.database; last_index = i; last_term = t })
        ≡ record {
          database = (live logs s).database;
          last_index = i + length logs;
          last_term = last_term t logs;
        }
  unfolding replay apply_batch
  replay-live r [] i t s f h =
      ap (λ n. record { database = s.database; last_index = n; last_term = t }) (omega arith)
  replay-live r (l ∷ logs) i t s f (g, x, h) =
      let next = (apply_raft_log e faultless false l s).1 in
      ap (λ y. replay e r (length logs) (i + 1 + 1) y)
        (replay_entry-live r l (i + 1) i t s (f (i + 1)) g x)
      ∙ replay-live r logs (i + 1) l.term next f h
      ∙ ap
          (λ n. record {
            database = (live logs next).database;
            last_index = n;
            last_term = last_term l.term logs;
          })
          (omega arith)
