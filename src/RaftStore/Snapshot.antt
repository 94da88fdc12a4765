-- ===== src/RaftStore/Snapshot.antt =====
-- pkg/fsm/fsm_snapshot.go, `BytesFromSnapshot` of pkg/utils/misc.go, and `Restore` of
-- pkg/fsm/fsm_store.go: a database as the bytes of a snapshot.
pub mod RoundTrip
use scheduler.Prelude.{
  ℕ, zero, suc, ◌+◌, ◌*◌, ◌/◌, ◌%◌, Bool, true, false, ◌&&◌, Option, none, some, List, [], ◌∷◌,
  ◌++◌, ◌==◌, ltb, leb, length, take, drop, if◌then◌else◌,
}
use scheduler.Node.Stream.{Bytes}

-- SQLite's file of a database, and gzip; `none` is an error. The file can be read: where it cannot,
-- `Serialize` logs the error and gives no bytes, which are then stored.
pub record Files (D : Type 0) : Type 0 where
  pub serialize : D → Bytes
  pub open_file : Bytes → Option D
  pub gzip : Bytes → Bytes
  pub gunzip : Bytes → Option Bytes

-- `binary.LittleEndian` on `k` bytes.
abbrev pub little_endian : ℕ → ℕ → Bytes
little_endian zero n = []
little_endian (suc k) n = (n % 256) ∷ little_endian k (n / 256)

abbrev pub from_little_endian : Bytes → ℕ
from_little_endian [] = 0
from_little_endian (b ∷ bs) = b + 256 * from_little_endian bs

-- `WriteUint64` and `ReadUint64`.
abbrev pub write_uint64 : ℕ → Bytes
write_uint64 n = little_endian 8 (n % 18446744073709551616)

-- A slice of `n` bytes from an offset. Behind the end there is none: Go panics, or shows what the
-- buffer holds there.
unfoldable pub slice : Bytes → ℕ → ℕ → Option Bytes
slice b offset n = if leb (offset + n) (length b) then some (take n (drop offset b)) else none

-- The calls on the sink that are done: the writes of the mark, the size and the data, and its end.
pub record Sink : Type 0 where
  pub mark : Bool
  pub size : Bool
  pub contents : Bool
  pub close : Bool

unfoldable pub snapshot_bytes : Bytes → Bytes
snapshot_bytes z = write_uint64 18446744073709551615 ++ (write_uint64 (length z) ++ z)

-- `none` is an error, after which the sink is cancelled.
unfoldable pub persist : {D : Type 0} → Files D → Sink → D → Option Bytes
unfolding snapshot_bytes
persist f k d =
    if k.mark && k.size && k.contents && k.close
    then some (snapshot_bytes (f.gzip (f.serialize d)))
    else none

pub data SnapshotRead : Type 0 where
  bytes_read : Bytes → SnapshotRead
  not_read out_of_bounds : SnapshotRead

module _ {D : Type 0} (f : Files D) where
  abbrev pub unzipped : Option Bytes → SnapshotRead
  unzipped none = not_read
  unzipped (some b) = bytes_read b

  abbrev pub compressed_at : Option Bytes → SnapshotRead
  compressed_at none = out_of_bounds
  compressed_at (some b) = unzipped (f.gunzip b)

  abbrev pub plain_at : Option Bytes → SnapshotRead
  plain_at none = not_read
  plain_at (some b) = bytes_read b

  -- The data of a size behind an offset; the sum is an int64.
  abbrev pub contents_at : Bytes → Bool → ℕ → ℕ → SnapshotRead
  contents_at b compressed offset size =
      if size == 0
      then bytes_read []
      else if ltb (offset + size) 9223372036854775808
      then (if compressed
          then compressed_at (slice b offset size)
          else plain_at (slice b offset size))
      else out_of_bounds

  abbrev pub compressed_size : Bytes → Option Bytes → SnapshotRead
  compressed_size b none = out_of_bounds
  compressed_size b (some w) = contents_at b true 16 (from_little_endian w)

  abbrev pub first_word : Bytes → Option Bytes → SnapshotRead
  first_word b none = out_of_bounds
  first_word b (some w) =
      if from_little_endian w == 18446744073709551615
      then compressed_size b (slice b 8 8)
      else contents_at b false 8 (from_little_endian w)

  -- `BytesFromSnapshot`; `none` is a source that cannot be read.
  unfoldable pub bytes_from_snapshot : Option Bytes → SnapshotRead
  bytes_from_snapshot none = not_read
  bytes_from_snapshot (some b) = first_word b (slice b 0 8)

-- What `Restore` meets: the removal of the old file, and the writing of the new one.
pub record Disk : Type 0 where
  pub removed : Bool
  pub written : Bool

pub data Restored (D : Type 0) : Type 0 where
  restored : D → Restored D
  restore_failed panicked : Restored D

module _ {D : Type 0} (f : Files D) where
  abbrev pub opened : Option D → Restored D
  opened none = restore_failed
  opened (some d) = restored d

  -- `Restore`: the database of the new connection.
  unfoldable pub restore : Disk → Option Bytes → Restored D
  unfolding bytes_from_snapshot
  restore k source = elim (bytes_from_snapshot f source) [
    | not_read ↦ restore_failed
    | out_of_bounds ↦ panicked
    | bytes_read b ↦ if k.removed && k.written then opened (f.open_file b) else restore_failed
  ]
