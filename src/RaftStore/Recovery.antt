-- ===== src/RaftStore/Recovery.antt =====
-- `RecoverRaftState` of pkg/fsm/fsm_store.go: a database is made anew from the newest snapshot that
-- can be opened and the raft log behind it, and becomes the last snapshot. `none` is an end of the
-- program, by `log.Fatal` or a panic.
pub mod Replay
pub mod Databases
use scheduler.Prelude.{
  ℕ, zero, suc, ◌+◌, ◌-◌, Bool, true, false, ◌&&◌, Option, none, some, List, [], ◌∷◌, if◌then◌else◌,
}
use scheduler.Node.Stream.{Bytes}
use scheduler.RaftStore.{Engine, Log, Faults, OrError, value, raised, Store, apply_raft_log}
use scheduler.RaftStore.SharedRepo.{
  Statements, get_execution_logs, get_async_tasks_logs, insert_execution_logs,
  insert_async_tasks_logs, run_migrations,
}
use scheduler.RaftStore.Snapshot.{
  Files, SnapshotRead, bytes_read, not_read, out_of_bounds, bytes_from_snapshot,
}

-- A stored snapshot: what `Open` gives, `none` if it fails, and whether it closes.
pub record SnapshotFile : Type 0 where
  pub index : ℕ
  pub term : ℕ
  pub source : Option (Option Bytes)
  pub closes : Bool

-- The stores of raft, newest snapshot first; whether the file of the new database can be written,
-- and whether all goes well from the making of the snapshot on; the failing calls for each entry.
pub record RaftFiles : Type 0 where
  pub snapshots : Option (List SnapshotFile)
  pub first_index : Option ℕ
  pub last_index : Option ℕ
  pub get_log : ℕ → Option Log
  pub written : Bool
  pub saved : Bool
  pub faults : ℕ → Faults

pub record Chosen : Type 0 where
  pub contents : Bytes
  pub index : ℕ
  pub term : ℕ

-- Where the log is played back.
pub record Replayed (D : Type 0) : Type 0 where
  pub database : D
  pub last_index : ℕ
  pub last_term : ℕ

-- The new snapshot, and the range of the log that is deleted.
pub record Recovered (D : Type 0) : Type 0 where
  pub snapshot : Replayed D
  pub first_deleted : ℕ
  pub last_deleted : ℕ

abbrev pub no_snapshot : Chosen
no_snapshot = record { contents = []; index = 0; term = 0 }

module _ {D : Type 0} (f : Files D) where
  -- The error of `BytesFromSnapshot` is not looked at.
  abbrev pub contents_of : SnapshotRead → Option Bytes
  contents_of (bytes_read b) = some b
  contents_of not_read = some []
  contents_of out_of_bounds = none

  abbrev pub chosen : SnapshotFile → Option Bytes → Option Chosen
  chosen s none = none
  chosen s (some b) =
      if s.closes then some (record { contents = b; index = s.index; term = s.term }) else none

  unfoldable pub choose : List SnapshotFile → Option Chosen
  unfolding bytes_from_snapshot
  choose [] = some no_snapshot
  choose (s ∷ ss) =
      let rest = choose ss in
      elim s.source [
        | none ↦ rest
        | some source ↦ chosen s (contents_of (bytes_from_snapshot f source))
      ]

module _ {D P : Type 0} (e : Engine D P) (r : RaftFiles) where
  -- An entry that cannot be read is logged, and leaves its index and term zero.
  abbrev pub replay_entry : ℕ → Replayed D → Replayed D
  replay_entry i s = elim (r.get_log i) [
    | none ↦ record s { last_index = 0; last_term = 0 }
    | some l ↦ record {
      database =
          (apply_raft_log e (r.faults i) true l
            (record { database = s.database; posts = [] })).1.database;
      last_index = l.index;
      last_term = l.term;
    }
  ]

  -- `k` entries from an index on.
  unfoldable pub replay : ℕ → ℕ → Replayed D → Replayed D
  unfolding apply_raft_log
  replay zero i s = s
  replay (suc k) i s = replay k (i + 1) (replay_entry i s)

module _ {D L T : Type 0} (q : Statements D L T) where
  abbrev pub insert_tasks : List T → D → Option D
  insert_tasks [] d = some d
  insert_tasks (t ∷ ts) d = elim (insert_async_tasks_logs q (t ∷ ts) d) [
    | raised m ↦ none
    | value x ↦ some x
  ]

  -- The rows that are not committed, on the new database.
  abbrev pub insert_rows : List L → List T → D → Option D
  insert_rows [] ts d = insert_tasks ts d
  insert_rows (l ∷ ls) ts d = elim (insert_execution_logs q (l ∷ ls) d) [
    | raised m ↦ none
    | value x ↦ insert_tasks ts x
  ]

  -- An error is a warning.
  abbrev pub tasks_of : OrError (List T) → List T
  tasks_of (raised m) = []
  tasks_of (value ts) = ts

abbrev pub when : {A : Type 0} → Bool → Option A → Option A
when true a = a
when false a = none

module _ {D P L T : Type 0} (e : Engine D P) (f : Files D) (q : Statements D L T)
    (r : RaftFiles) where
  abbrev pub saved_as : ℕ → ℕ → Replayed D → Option D → Option (Recovered D)
  saved_as first last s none = none
  saved_as first last s (some d) = when r.saved (
      some (record {
        snapshot = record s { database = d };
        first_deleted = first;
        last_deleted = last;
      }))

  -- From the opened database on.
  abbrev pub play_back : List L → List T → Chosen → ℕ → ℕ → D → Option (Recovered D)
  play_back ls ts c first last d =
      let s =
        replay e r (last - c.index) (c.index + 1)
          (record { database = d; last_index = c.index; last_term = c.term }) in
      saved_as first last s (insert_rows q ls ts s.database)

  abbrev pub with_bounds : List L → List T → Chosen → D → Option (Recovered D)
  with_bounds ls ts c d = elim r.last_index [
    | none ↦ none
    | some last ↦ elim r.first_index [ none ↦ none | some first ↦ play_back ls ts c first last d ]
  ]

  abbrev pub with_database : List L → List T → Chosen → Option D → Option (Recovered D)
  with_database ls ts c none = none
  with_database ls ts c (some d) = elim (run_migrations q d) [
    | raised m ↦ none
    | value x ↦ with_bounds ls ts c x
  ]

  -- From the snapshot on, beside the node's present database.
  abbrev pub recover_from : D → Option Chosen → Option (Recovered D)
  recover_from now none = none
  recover_from now (some c) = elim (get_execution_logs q now) [
    | raised m ↦ none
    | value ls ↦
        when r.written
          (with_database ls (tasks_of q (get_async_tasks_logs q now)) c (f.open_file c.contents))
  ]

  unfoldable pub recover_raft_state : D → Option (Recovered D)
  unfolding replay choose get_execution_logs get_async_tasks_logs insert_execution_logs
      insert_async_tasks_logs run_migrations
  recover_raft_state now = elim r.snapshots [
    | none ↦ none
    | some ss ↦ recover_from now (choose f ss)
  ]
