-- ===== src/RaftStore/Recovery/Databases.antt =====
-- A recovery against the database of a node that applies all entries.
use scheduler.Prelude.{ℕ, ◌+◌, ◌≡◌, true, some, List, [], ◌∷◌, length, ◌≤◌, All, any}
use scheduler.Prelude.Result.{Text, text_eq}
use scheduler.RaftStore.{Engine, Log, faultless, value}
use scheduler.RaftStore.Snapshot.{Files}
use scheduler.Batcher.Laws.{join}
use scheduler.RaftStore.SharedRepo.{Migration, Statements, get_execution_logs, get_async_tasks_logs}
use scheduler.RaftStore.Recovery.{RaftFiles, Recovered, tasks_of}
use scheduler.RaftStore.Recovery.Replay.{last_term, Stored}

module _ {D P L T : Type 0} (e : Engine D P) (f : Files D) (q : Statements D L T) (r : RaftFiles)
    (now : D) (ls : List L) (first : ℕ) (logs : List Log) where
  -- The tasks that are not committed.
  abbrev pub tasks : List T
  tasks = tasks_of q (get_async_tasks_logs q now)

  -- The files can be read and written, and the entries stand in the log behind an index.
  abbrev pub Readable : ℕ → Type 0
  Readable k =
      (get_execution_logs q now ≡ value ls)
      × (r.written ≡ true)
      × (r.saved ≡ true)
      × (r.first_index ≡ some first)
      × (r.last_index ≡ some (k + length logs))
      × ((i : ℕ) → r.faults i ≡ faultless)
      × Stored r.get_log (k + 1) logs

  abbrev pub outcome : D → ℕ → ℕ → Recovered D
  outcome final k t = record {
    snapshot = record {
      database = final;
      last_index = k + length logs;
      last_term = last_term t logs;
    };
    first_deleted = first;
    last_deleted = k + length logs;
  }

module _ {D L T : Type 0} (q : Statements D L T) where
  -- The logs of the batches are inserted, one batch after the other.
  abbrev pub Inserts : List (List L) → D → D → Type 0
  Inserts [] d x = d ≡ x
  Inserts (b ∷ bs) d x = (y : D) × (q.insert_logs b d ≡ value y) × Inserts bs y x

  -- The logs `ls`, in their order, in batches that fit into a statement.
  abbrev pub InsertsLogs : List L → D → D → Type 0
  InsertsLogs ls d x =
      (bs : List (List L)) × (join bs ≡ ls) × All (λ b. length b ≤ 2978) bs × Inserts bs d x

  -- No insertion of logs fails.
  abbrev pub NoneFails : Type 0
  NoneFails = (b : List L) (d : D) → (y : D) × (q.insert_logs b d ≡ value y)

  -- The database names all migrations, and has the table of their names.
  abbrev pub IsPresent : D → Type 0
  IsPresent d =
      (q.create_migrations d ≡ value d)
      × (names : List Text) × (q.select_migrations d ≡ value names)
      × All (λ (m : Migration D). any (text_eq m.name) names ≡ true) q.migrations
