-- ===== src/SendTime/Select/Spacing.antt =====
-- That suggestions lie apart in time.
use scheduler.Prelude.{
  ℕ, ◌<◌, ◌≤◌, ◌+◌, ◌-◌, ◌*◌, sym, ◌≡◌, Bool, ◌||◌, not, List, [], ◌∷◌, ◌++◌, arith, leb, ◌==◌,
  length, any, true, All, false,
}
use scheduler.Prelude.Int.{ℤ, pos, ltb_ℤ}
use scheduler.SendTime.Select.{Candidate, distance, spacing_of, pick, select_suggestions}
use scheduler.SendTime.Select.Bounds.{of_if}

-- Two candidates that are a spacing apart.
abbrev pub IsFar : ℤ → Candidate → Candidate → Type 0
IsFar spacing c p = ltb_ℤ (pos (distance c.instant p.instant)) spacing ≡ false

abbrev pub Spaced : ℤ → List Candidate → Type 0
Spaced spacing [] = Unit
Spaced spacing (c ∷ cs) = All (IsFar spacing c) cs × Spaced spacing cs

distance_comm : (a b : ℕ) → distance a b ≡ distance b a
unfolding distance
distance_comm a b = ground arith

All-append :
    (spacing : ℤ) (c d : Candidate) (ps : List Candidate)
    → All (IsFar spacing c) ps
    → IsFar spacing c d
    → All (IsFar spacing c) (ps ++ d ∷ [])
All-append spacing c d [] a f = (f, tt)
All-append spacing c d (p ∷ ps) (b, a) f = (b, All-append spacing c d ps a f)

Spaced-append :
    (spacing : ℤ) (c : Candidate) (ps : List Candidate)
    → Spaced spacing ps
    → any (λ p. ltb_ℤ (pos (distance c.instant p.instant)) spacing) ps ≡ false
    → Spaced spacing (ps ++ c ∷ [])
Spaced-append spacing c [] s a = (tt, tt)
Spaced-append spacing c (p ∷ ps) (f, s) a = (
  All-append spacing p c ps f (rw (distance_comm p.instant c.instant) (ground arith)),
  Spaced-append spacing c ps s (ground arith),
)

abbrev is_near : ℤ → Candidate → List Candidate → Bool
is_near spacing c = any (λ p. ltb_ℤ (pos (distance c.instant p.instant)) spacing)

far_of_picked :
    (near forced : Bool) (n : ℕ)
    → 0 < n
    → forced ≡ false
    → (n == 0 || forced || not near) ≡ true
    → near ≡ false
far_of_picked near forced n h f e = ground arith

pick-Spaced :
    (spacing : ℤ) (count : ℕ) (picked cs : List Candidate)
    → All (λ c. c.forced_first ≡ false) cs
    → Spaced spacing picked
    → Spaced spacing (pick spacing count picked cs)
unfolding pick
pick-Spaced spacing count picked [] u s = s
pick-Spaced spacing count [] (c ∷ cs) (n, u) s =
    of_if (Spaced spacing) (leb count 1) (c ∷ []) (pick spacing count (c ∷ []) cs) (λ e. (tt, tt))
      (λ e. pick-Spaced spacing count (c ∷ []) cs u (tt, tt))
pick-Spaced spacing count (p ∷ ps) (c ∷ cs) (n, u) s =
    let picked = p ∷ ps in
    let grown = picked ++ c ∷ [] in
    of_if (Spaced spacing) (length picked == 0 || c.forced_first || not (is_near spacing c picked))
      _ (pick spacing count picked cs)
      (λ e.
        let apart = Spaced-append spacing c picked s (
          far_of_picked (is_near spacing c picked) c.forced_first (length picked) (omega arith) n
            e) in
        of_if (Spaced spacing) (leb count (length grown)) grown (pick spacing count grown cs)
          (λ f. apart) (λ f. pick-Spaced spacing count grown cs u apart))
      (λ e. pick-Spaced spacing count picked cs u s)

pick-select :
    (c : Candidate) (cs : List Candidate) (minutes : ℤ) (count : ℕ)
    → ltb_ℤ (pos 0) minutes ≡ true
    → count ≤ length (pick (spacing_of minutes) count [] (c ∷ cs))
    → select_suggestions (c ∷ cs) true minutes count ≡ pick (spacing_of minutes) count [] (c ∷ cs)
unfolding select_suggestions
pick-select c cs minutes count m l = ground arith

-- Two candidates with so many nanoseconds between them, whichever comes first.
abbrev pub IsApart : ℕ → Candidate → Candidate → Type 0
IsApart k c p = k ≤ (c.instant - p.instant) + (p.instant - c.instant)

abbrev pub Apart : ℕ → List Candidate → Type 0
Apart k [] = Unit
Apart k (c ∷ cs) = All (IsApart k c) cs × Apart k cs

spacing_of-minutes :
    (m : ℕ) → m * 60000000000 < 9223372036854775808 → spacing_of (pos m) ≡ pos (m * 60000000000)
unfolding spacing_of
spacing_of-minutes m h = ground arith

IsFar-IsApart :
    (k : ℕ) (c p : Candidate) → k < 9223372036854775808 → IsFar (pos k) c p → IsApart k c p
unfolding distance
IsFar-IsApart k c p h f = ground arith

All-IsApart :
    (k : ℕ) (c : Candidate) (ps : List Candidate)
    → k < 9223372036854775808
    → All (IsFar (pos k) c) ps
    → All (IsApart k c) ps
All-IsApart k c [] h a = tt
All-IsApart k c (p ∷ ps) h (f, a) = (IsFar-IsApart k c p h f, All-IsApart k c ps h a)

Spaced-Apart :
    (k : ℕ) (cs : List Candidate) → k < 9223372036854775808 → Spaced (pos k) cs → Apart k cs
Spaced-Apart k [] h s = tt
Spaced-Apart k (c ∷ cs) h (a, s) = (All-IsApart k c cs h a, Spaced-Apart k cs h s)

-- Suggestions are to be diversified, with a spacing of `m` minutes, not zero and within a
-- duration; no candidate is forced, and `count` candidates are found that keep the spacing. Then
-- every two suggestions have at least `m` minutes of 60,000,000,000 nanoseconds between them.
pub select_suggestions-Spaced :
    (c : Candidate) (cs : List Candidate) (m count : ℕ)
    → 0 < m
    → m * 60000000000 < 9223372036854775808
    → All (λ d. d.forced_first ≡ false) (c ∷ cs)
    → count ≤ length (pick (spacing_of (pos m)) count [] (c ∷ cs))
    → Apart (m * 60000000000) (select_suggestions (c ∷ cs) true (pos m) count)
select_suggestions-Spaced c cs m count h b u l =
    Spaced-Apart (m * 60000000000) (select_suggestions (c ∷ cs) true (pos m) count) b (
      rw (pick-select c cs (pos m) count (ground arith) l, sym (spacing_of-minutes m b))
        (pick-Spaced (spacing_of (pos m)) count [] (c ∷ cs) u tt))
