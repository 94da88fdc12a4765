-- ===== src/RaftStore/Snapshot/RoundTrip.antt =====
-- A snapshot is read back.
use mathlib.Core.Path.{subst}
use mathlib.Core.List.{append-nil}
use scheduler.Prelude.{
  ℕ, zero, suc, ◌+◌, ◌*◌, ◌/◌, ◌%◌, length-append, ◌<◌, ◌≡◌, true, false, ◌&&◌, some, [], ◌++◌,
  ◌==◌, ltb, leb, length, arith, refl, ◌∙◌, Bool-cases, inl, inr,
}
use scheduler.Node.Stream.{Bytes}
use scheduler.Node.Stream.Reading.{take-append, drop-append}
use scheduler.RaftStore.Snapshot.{
  Files, little_endian, from_little_endian, write_uint64, slice, Sink, snapshot_bytes, persist,
  bytes_read, bytes_from_snapshot, restored, restore,
}

-- What SQLite and gzip are relied on for.
pub record IsFaithful {D : Type 0} (f : Files D) : Type 0 where
  pub open_file : (d : D) → f.open_file (f.serialize d) ≡ some d
  pub gunzip : (b : Bytes) → f.gunzip (f.gzip b) ≡ some b
  pub gzip : (b : Bytes) → 0 < length (f.gzip b)

abbrev power : ℕ → ℕ
power zero = 1
power (suc k) = 256 * power k

from_little_endian-little_endian :
    (k n : ℕ) → n < power k → from_little_endian (little_endian k n) ≡ n
from_little_endian-little_endian zero n h = omega arith
from_little_endian-little_endian (suc k) n h =
    rw (from_little_endian-little_endian k (n / 256) (omega arith)) (omega arith)

slice_lem : (xs ys zs : Bytes) → slice (xs ++ (ys ++ zs)) (length xs) (length ys) ≡ some ys
unfolding slice
slice_lem xs ys zs =
    let l : leb (length xs + length ys) (length (xs ++ (ys ++ zs))) ≡ true =
      ground (arith, length-append xs (ys ++ zs), length-append ys zs) in
    rw (l, drop-append xs (ys ++ zs), take-append ys zs)

abbrev pub all_sunk : Sink
all_sunk = record { mark = true; size = true; contents = true; close = true }

read_uint64 : (n : ℕ) → n < 18446744073709551616 → from_little_endian (write_uint64 n) ≡ n
read_uint64 n h =
    let m : n % 18446744073709551616 ≡ n = omega arith in
    from_little_endian-little_endian 8 (n % 18446744073709551616) (omega arith) ∙ m

module _ {D : Type 0} (f : Files D) (z b : Bytes) (some_data : 0 < length z)
    (fits : length z + 16 < 9223372036854775808) (unzips : f.gunzip z ≡ some b) where
  -- The parts of a snapshot, one by one.
  read_parts :
      (snapshot mark size : Bytes)
      → slice snapshot 0 8 ≡ some mark
      → from_little_endian mark ≡ 18446744073709551615
      → slice snapshot 8 8 ≡ some size
      → from_little_endian size ≡ length z
      → slice snapshot 16 (length z) ≡ some z
      → bytes_from_snapshot f (some snapshot) ≡ bytes_read b
  unfolding bytes_from_snapshot
  read_parts snapshot mark size one m two n three =
      let a : length z == 0 ≡ false = ground arith in
      let l : ltb (16 + length z) 9223372036854775808 ≡ true = ground arith in
      rw (bytes_from_snapshot, one, m, two, n, a, l, three, unzips)

  -- The data behind the mark and the size.
  read_back : bytes_from_snapshot f (some (snapshot_bytes z)) ≡ bytes_read b
  unfolding snapshot_bytes
  read_back =
      let mark = write_uint64 18446744073709551615 in
      let size = write_uint64 (length z) in
      read_parts (snapshot_bytes z) mark size (slice_lem [] mark (size ++ z)) refl
        (slice_lem mark size z) (read_uint64 (length z) (omega arith))
        (subst (λ x. slice (mark ++ (size ++ x)) 16 (length z) ≡ some z) (append-nil z)
          (slice_lem (mark ++ size) z []))

persisted :
    {D : Type 0} (f : Files D) (k : Sink) (d : D) (bytes : Bytes)
    → persist f k d ≡ some bytes
    → snapshot_bytes (f.gzip (f.serialize d)) ≡ bytes
unfolding persist
persisted f k d bytes e = elim (Bool-cases (k.mark && k.size && k.contents && k.close)) [
  | inl h ↦ ground arith
  | inr h ↦ absurd (ground arith)
]

pub bytes_from_snapshot-persist :
    {D : Type 0} (f : Files D) (k : Sink) (d : D) (bytes : Bytes)
    → IsFaithful f
    → length (f.gzip (f.serialize d)) + 16 < 9223372036854775808
    → persist f k d ≡ some bytes
    → bytes_from_snapshot f (some bytes) ≡ bytes_read (f.serialize d)
bytes_from_snapshot-persist f k d bytes law h e =
    let b = f.serialize d in
    subst (λ x. bytes_from_snapshot f (some x) ≡ bytes_read b) (persisted f k d bytes e)
      (read_back f (f.gzip b) b (law.gzip b) h (law.gunzip b))

restored_read :
    {D : Type 0} (f : Files D) (snapshot b : Bytes) (d : D)
    → bytes_from_snapshot f (some snapshot) ≡ bytes_read b
    → f.open_file b ≡ some d
    → restore f (record { removed = true; written = true }) (some snapshot) ≡ restored d
unfolding restore
restored_read f snapshot b d e o = rw (restore, e, o)

-- With files and gzip that give back what they were given, a snapshot that has been persisted, of
-- less than 2 ^ 63 bytes, is restored to the database it was made of, if the file can be replaced.
pub restore-persist :
    {D : Type 0} (f : Files D) (k : Sink) (d : D) (bytes : Bytes)
    → IsFaithful f
    → length (f.gzip (f.serialize d)) + 16 < 9223372036854775808
    → persist f k d ≡ some bytes
    → restore f (record { removed = true; written = true }) (some bytes) ≡ restored d
restore-persist f k d bytes law h e =
    restored_read f bytes (f.serialize d) d (bytes_from_snapshot-persist f k d bytes law h e)
      (law.open_file d)
