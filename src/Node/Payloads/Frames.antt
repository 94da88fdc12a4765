-- ===== src/Node/Payloads/Frames.antt =====
-- What `ReadFrom` takes from a stream, by how the bytes of a payload arrive.
use mathlib.Core.List.{append-nil}
use scheduler.Prelude.{
  ℕ, zero, suc, ◌+◌, ◌-◌, ◌≤◌, ◌<◌, ◌≡◌, ==-refl, ◌⊎◌, inl, inr, ap, ◌∙◌, Bool, true, false, ◌&&◌,
  [], ◌∷◌, ◌++◌, ltb, length, take, drop, replicate, flatten, arith, refl,
}
use scheduler.Prelude.Result.{text_eq_refl}
use scheduler.Node.Stream.{
  Bytes, Stream, Wired, got, failed, ◌>>=◌, too_big, read_full, read, big_endian, fill,
}
use scheduler.Node.Stream.Reading.{
  advance, trim, read-trim, read_full-advance, advance-advance, flatten-advance, read_whole,
  from_big_endian-big_endian,
}
use scheduler.Node.Payloads.{read_frame}

-- The next piece of a stream begins with the bytes, if there are any.
abbrev pub Whole : Bytes → Stream → Type 0
Whole body s =
    (length body ≡ 0) ⊎ ((more : Bytes) × (rest : Stream) × (trim s ≡ (body ++ more) ∷ rest))

-- The type and the size stand first, in any pieces.
abbrev pub Headed : ℕ → ℕ → Stream → Type 0
Headed tag size s = take 5 (flatten s) ≡ tag ∷ big_endian size

-- The bytes of a payload arrive, its body in one piece.
abbrev pub Arrives : ℕ → Bytes → Stream → Type 0
Arrives tag body s = Headed tag (length body) s × Whole body (advance 5 s)

length_of_take : (n : ℕ) (xs ys : Bytes) → take n xs ≡ ys → length ys ≡ n → n ≤ length xs
length_of_take zero xs ys e h = omega arith
length_of_take (suc n) [] ys e h = absurd (ground (arith, ap length e))
length_of_take (suc n) (x ∷ xs) [] e h = absurd (omega arith)
length_of_take (suc n) (x ∷ xs) (y ∷ ys) e h =
    omega (arith, length_of_take n xs ys (cc) (omega arith))

take-drop : (n y : ℕ) (xs ys : Bytes) → take (suc n) xs ≡ y ∷ ys → take n (drop 1 xs) ≡ ys
take-drop n y [] ys e = absurd (ground arith)
take-drop n y (x ∷ xs) ys e = cc

-- The header is read back from the stream whose first byte was put before it again.
header :
    (tag size : ℕ) (s : Stream)
    → Headed tag size s
    → read_full false 4 (advance 1 s) ≡ got (big_endian size, advance 5 s)
header tag size s h =
    let e : take 4 (flatten (advance 1 s)) ≡ big_endian size =
      rw (flatten-advance 1 s) (take-drop 4 tag (flatten s) (big_endian size) h) in
    read_full-advance false 4 (advance 1 s)
      (length_of_take 4 (flatten (advance 1 s)) (big_endian size) e refl)
    ∙ rw (e, advance-advance 4 s)

read_body :
    (body : Bytes) (s : Stream)
    → Whole body s
    → (r : Stream) × (read (length body) s ≡ got (body, r))
unfolding read
read_body [] s w = (s, refl)
read_body (b ∷ bs) s (inl e) = absurd (omega arith)
read_body (b ∷ bs) s (inr (more, rest, e)) =
    (more ∷ rest, read-trim (length bs) s ∙ rw e (read_whole (b ∷ bs) more rest (omega arith)))

replicate_none : (n : ℕ) (xs : Bytes) → length xs ≡ n → xs ++ replicate (n - length xs) 0 ≡ xs
replicate_none n xs e = let z : n - length xs ≡ 0 = omega arith in rw z (append-nil xs)

abbrev filled : ℕ → Wired (Bytes × Stream) → Wired Bytes
filled size (failed e) = failed e
filled size (got (b, rest)) = got (fill size b)

filled_lem :
    (size : ℕ) (w : Wired (Bytes × Stream))
    → (w >>= λ (x : Bytes × Stream). got (fill size x.0)) ≡ filled size w
filled_lem size (failed e) = refl
filled_lem size (got (b, rest)) = refl

take_all : (n : ℕ) (xs : Bytes) → length xs ≤ n → (take n xs ≡ xs) × (drop n xs ≡ [])
take_all zero [] h = (refl, refl)
take_all zero (x ∷ xs) h = absurd (omega arith)
take_all (suc n) [] h = (refl, refl)
take_all (suc n) (x ∷ xs) h = let (a, b) = take_all n xs (omega arith) in (rw a, b)

read_cut :
    (n : ℕ) (front : Bytes) (s rest : Stream)
    → trim s ≡ front ∷ rest
    → 0 < length front
    → length front ≤ n
    → read n s ≡ got (front, [] ∷ rest)
unfolding read
read_cut zero front s rest a p h = absurd (omega arith)
read_cut (suc n) [] s rest a p h = absurd (omega arith)
read_cut (suc n) (b ∷ bs) s rest e p h =
    let (a, d) = take_all n bs (omega arith) in read-trim n s ∙ rw (e, a, d)

-- The limit is kept.
read_frame_lem :
    (limited : Bool) (tag size : ℕ) (s : Stream)
    → Headed tag size s
    → size < 4294967296
    → (limited && ltb 10485760 size) ≡ false
    → read_frame limited tag ((tag ∷ []) ∷ advance 1 s) ≡ filled size (read size (advance 5 s))
unfolding read_frame read_full
read_frame_lem limited tag size s h u l =
    rw (==-refl tag, header tag size s h, from_big_endian-big_endian size u, l)
      (filled_lem size (read size (advance 5 s)))

-- A size above the limit is refused before a buffer is made.
pub read_frame_too_big :
    (tag size : ℕ) (s : Stream)
    → Headed tag size s
    → size < 4294967296
    → 10485760 < size
    → read_frame true tag ((tag ∷ []) ∷ advance 1 s) ≡ failed too_big
unfolding read_frame read_full
read_frame_too_big tag size s h u l =
    rw (text_eq_refl (tag ∷ []), header tag size s h, from_big_endian-big_endian size u)
      (ground arith)

pub read_frame_whole :
    (limited : Bool) (tag : ℕ) (body : Bytes) (s : Stream)
    → Arrives tag body s
    → length body < 4294967296
    → (limited && ltb 10485760 (length body)) ≡ false
    → read_frame limited tag ((tag ∷ []) ∷ advance 1 s) ≡ got body
read_frame_whole limited tag body s (h, w) u l =
    let (r, e) = read_body body (advance 5 s) w in
    read_frame_lem limited tag (length body) s h u l
    ∙ rw (e, replicate_none (length body) body refl)

-- A body that arrives in two pieces: the second is not read, and there are zeros in its place.
pub read_frame_cut :
    (limited : Bool) (tag : ℕ) (front back : Bytes) (s rest : Stream)
    → Headed tag (length front + length back) s
    → trim (advance 5 s) ≡ front ∷ rest
    → 0 < length front
    → length front + length back < 4294967296
    → (limited && ltb 10485760 (length front + length back)) ≡ false
    → read_frame limited tag ((tag ∷ []) ∷ advance 1 s) ≡ got (front ++ replicate (length back) 0)
read_frame_cut limited tag front back s rest h a p u l =
    read_frame_lem limited tag (length front + length back) s h u l
    ∙ rw (read_cut (length front + length back) front (advance 5 s) rest a p (omega arith)) (
        ap (λ (n : ℕ). got (front ++ replicate n 0))
          (let z : length front + length back - length front ≡ length back = omega arith in z))
