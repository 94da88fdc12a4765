-- ===== src/Node/Stream.antt =====
-- A connection as it is read with `io` and `encoding/binary` of Go: the pieces in which its bytes
-- arrive, none of them empty, and the end of the stream after the last.
pub mod Reading
use scheduler.Prelude.{
  ℕ, zero, suc, ◌+◌, ◌-◌, ◌*◌, ◌/◌, ◌%◌, Bool, true, false, List, [], ◌∷◌, ◌++◌, length, take, drop,
  replicate, if◌then◌else◌,
}

abbrev pub Bytes : Type 0
Bytes = List ℕ

abbrev pub Stream : Type 0
Stream = List Bytes

-- The last four are the errors of `decode` and of the `ReadFrom` methods.
pub data WireError : Type 0 where
  eof unexpected_eof : WireError
  unknown_type invalid_type too_big malformed : WireError

pub data Wired {ℓ} (A : Type ℓ) : Type ℓ where
  got : A → Wired A
  failed : WireError → Wired A

infixl 5 ◌>>=◌ ◌>>◌
abbrev pub ◌>>=◌ {ℓ κ} : {A : Type ℓ} {B : Type κ} → Wired A → (A → Wired B) → Wired B
got a >>= f = f a
failed e >>= f = failed e

-- `io.ReadFull`, which `binary.Read` calls: `n` bytes from as many pieces as it takes. `begun` says
-- whether some bytes have been read.
unfoldable pub read_full : Bool → ℕ → Stream → Wired (Bytes × Stream)
read_full begun zero s = got ([], s)
read_full begun (suc n) [] = failed (if begun then unexpected_eof else eof)
read_full begun (suc n) ([] ∷ s) = read_full begun (suc n) s
read_full begun (suc n) ((b ∷ bs) ∷ s) = elim (read_full true n (bs ∷ s)) [
  | failed e ↦ failed e
  | got (xs, rest) ↦ got (b ∷ xs, rest)
]

-- `Read` into a buffer of `n` bytes: what there is of the next piece.
unfoldable pub read : ℕ → Stream → Wired (Bytes × Stream)
read zero s = got ([], s)
read (suc n) [] = failed eof
read (suc n) ([] ∷ s) = read (suc n) s
read (suc n) ((b ∷ bs) ∷ s) = got (take (suc n) (b ∷ bs), drop (suc n) (b ∷ bs) ∷ s)

-- `binary.BigEndian` on an uint32.
abbrev pub big_endian : ℕ → Bytes
big_endian n = (n / 16777216 % 256) ∷ (n / 65536 % 256) ∷ (n / 256 % 256) ∷ (n % 256) ∷ []

abbrev pub from_big_endian : Bytes → ℕ
from_big_endian (a ∷ b ∷ c ∷ d ∷ []) = ((a * 256 + b) * 256 + c) * 256 + d
from_big_endian bs = 0

-- What the buffer holds: the bytes read, and zeros behind them.
abbrev pub fill : ℕ → Bytes → Bytes
fill n bs = bs ++ replicate (n - length bs) 0

abbrev pub ◌>>◌ {ℓ} : {B : Type ℓ} → Wired (Unit {0}) → Wired B → Wired B
m >> k = m >>= λ _. k

abbrev pub guard : Bool → WireError → Wired (Unit {0})
guard true e = got tt
guard false e = failed e
