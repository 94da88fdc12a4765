-- ===== src/RaftStore/SharedRepo.antt =====
-- pkg/shared_repo/shared_repo.go: the logs and tasks of a database that are not committed, and
-- `RunMigrations` of pkg/db/db.go. The SQL statements are parameters; ids are not negative.
use scheduler.Prelude.{
  ℕ, zero, suc, ◌+◌, ◌-◌, none, some, List, [], ◌∷◌, ◌++◌, ◌==◌, any, if◌then◌else◌,
}
use scheduler.Prelude.Result.{Text, text_eq}
use scheduler.Batcher.{batch}
use scheduler.RaftStore.{OrError, value, raised}

-- The changes of `Migration.Up`.
pub record Migration (D : Type 0) : Type 0 where
  pub name : Text
  pub up : D → OrError D

-- The statements on a database `D`: `select count(*)`, `select max(id), min(id)` as the lower and
-- the upper id, the logs of some ids, the insertion of logs `L` and of tasks `T` in one statement
-- (a transaction, for logs), and those on the table of migrations.
pub record Statements (D L T : Type 0) : Type 0 where
  pub count_logs : D → OrError ℕ
  pub id_range : D → OrError (ℕ × ℕ)
  pub select_logs : List ℕ → D → OrError (List L)
  pub insert_logs : List L → D → OrError D
  pub insert_tasks : List T → D → OrError D
  pub create_migrations : D → OrError D
  pub select_migrations : D → OrError (List Text)
  pub insert_migration : Text → D → OrError D
  pub migrations : List (Migration D)

abbrev pub and_then {ℓ m} : {A : Type ℓ} {B : Type m} → OrError A → (A → OrError B) → OrError B
and_then (raised t) k = raised t
and_then (value a) k = k a

-- `n` ids from the lowest on.
unfoldable pub consecutive_ids : ℕ → ℕ → List ℕ
consecutive_ids zero i = []
consecutive_ids (suc n) i = i ∷ consecutive_ids n (i + 1)

-- The number of columns is not zero.
abbrev pub batches_of {ℓ} : {A : Type ℓ} → ℕ → List A → List (List A)
batches_of columns xs = elim (batch xs columns) [ none ↦ [] | some bs ↦ bs ]

-- One statement for each batch; those before a failing one stay.
unfoldable pub insert_batches :
    {A D : Type 0} → (List A → D → OrError D) → List (List A) → D → OrError D
insert_batches insert [] d = value d
insert_batches insert (b ∷ bs) d = and_then (insert b d) (λ e. insert_batches insert bs e)

module _ {D L T : Type 0} (q : Statements D L T) where
  unfoldable pub select_batches : List (List ℕ) → D → OrError (List L)
  select_batches [] d = value []
  select_batches (b ∷ bs) d =
      and_then (q.select_logs b d) (λ ls. and_then (select_batches bs d) (λ ms. value (ls ++ ms)))

  -- `GetExecutionLogs`.
  unfoldable pub get_execution_logs : D → OrError (List L)
  unfolding consecutive_ids batch select_batches
  get_execution_logs d = and_then (q.count_logs d) (λ n. and_then (q.id_range d) (λ b.
      if n == 0
      then value []
      else select_batches (batches_of 11 (consecutive_ids (b.1 + 1 - b.0) b.0)) d))

  -- `GetAsyncTasksLogs`, which is not implemented.
  unfoldable pub get_async_tasks_logs : D → OrError (List T)
  get_async_tasks_logs d = value []

  unfoldable pub insert_execution_logs : List L → D → OrError D
  unfolding batch insert_batches
  insert_execution_logs ls d = insert_batches q.insert_logs (batches_of 11 ls) d

  unfoldable pub insert_async_tasks_logs : List T → D → OrError D
  unfolding batch insert_batches
  insert_async_tasks_logs ts d = insert_batches q.insert_tasks (batches_of 6 ts) d

  -- The migrations that the database does not name; the first error ends the program.
  unfoldable pub migrate : List Text → List (Migration D) → D → OrError D
  migrate names [] d = value d
  migrate names (m ∷ ms) d =
      if any (text_eq m.name) names
      then migrate names ms d
      else and_then (m.up d) (λ e. and_then (q.insert_migration m.name e) (λ f. migrate names ms f))

  -- `RunMigrations`.
  unfoldable pub run_migrations : D → OrError D
  unfolding migrate
  run_migrations d =
      and_then (q.create_migrations d)
        (λ e. and_then (q.select_migrations e) (λ names. migrate names q.migrations e))
