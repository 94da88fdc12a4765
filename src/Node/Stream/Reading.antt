-- ===== src/Node/Stream/Reading.antt =====
-- What is read depends on the bytes of a stream; what one `Read` returns, on its pieces too.
use scheduler.Prelude.{
  ℕ, zero, suc, ◌≤◌, ◌<◌, ◌≡◌, Bool, true, List, [], ◌∷◌, ◌++◌, length, take, drop, flatten, arith,
  refl,
}
use scheduler.Node.Stream.{Bytes, Stream, got, read_full, read, big_endian, from_big_endian}

-- A stream without its first `n` bytes.
abbrev pub advance : ℕ → Stream → Stream
advance zero s = s
advance (suc n) [] = []
advance (suc n) ([] ∷ s) = advance (suc n) s
advance (suc n) ((b ∷ bs) ∷ s) = advance n (bs ∷ s)

-- What the next `Read` is about: a piece that has been read to its end is passed over.
abbrev pub trim : Stream → Stream
trim [] = []
trim ([] ∷ s) = trim s
trim ((b ∷ bs) ∷ s) = (b ∷ bs) ∷ s

pub read-trim : (n : ℕ) (s : Stream) → read (suc n) s ≡ read (suc n) (trim s)
unfolding read
read-trim n [] = refl
read-trim n ([] ∷ s) = read-trim n s
read-trim n ((b ∷ bs) ∷ s) = refl

pub read_full-advance :
    (begun : Bool) (n : ℕ) (s : Stream)
    → n ≤ length (flatten s)
    → read_full begun n s ≡ got (take n (flatten s), advance n s)
unfolding read_full
read_full-advance begun zero s h = refl
read_full-advance begun (suc n) [] h = absurd (omega arith)
read_full-advance begun (suc n) ([] ∷ s) h = read_full-advance begun (suc n) s h
read_full-advance begun (suc n) ((b ∷ bs) ∷ s) h =
    rw (read_full-advance true n (bs ∷ s) (omega arith))

pub advance-advance : (n : ℕ) (s : Stream) → advance n (advance 1 s) ≡ advance (suc n) s
advance-advance zero s = refl
advance-advance (suc n) [] = refl
advance-advance (suc n) ([] ∷ s) = advance-advance (suc n) s
advance-advance (suc n) ((b ∷ bs) ∷ s) = refl

pub flatten-advance : (n : ℕ) (s : Stream) → flatten (advance n s) ≡ drop n (flatten s)
flatten-advance zero s = refl
flatten-advance (suc n) [] = refl
flatten-advance (suc n) ([] ∷ s) = flatten-advance (suc n) s
flatten-advance (suc n) ((b ∷ bs) ∷ s) = flatten-advance n (bs ∷ s)

pub take-append {ℓ} : {A : Type ℓ} (xs ys : List A) → take (length xs) (xs ++ ys) ≡ xs
take-append [] ys = refl
take-append (x ∷ xs) ys = rw (take-append xs ys)

pub drop-append {ℓ} : {A : Type ℓ} (xs ys : List A) → drop (length xs) (xs ++ ys) ≡ ys
drop-append [] ys = refl
drop-append (x ∷ xs) ys = drop-append xs ys

-- A buffer is filled by a piece that begins with as many bytes.
pub read_whole :
    (body more : Bytes) (s : Stream)
    → 0 < length body
    → read (length body) ((body ++ more) ∷ s) ≡ got (body, more ∷ s)
unfolding read
read_whole [] more s h = absurd (omega arith)
read_whole (b ∷ bs) more s h = rw (take-append bs more, drop-append bs more)

pub from_big_endian-big_endian : (n : ℕ) → n < 4294967296 → from_big_endian (big_endian n) ≡ n
from_big_endian-big_endian n h = omega arith
