-- ===== src/SendTime/Select/Bounds.antt =====
-- How many suggestions are made, which comes first, and where they come from.
use scheduler.Prelude.{
  ℕ, ◌<◌, ◌≤◌, ◌≡◌, refl, Bool, ◌||◌, not, some, List, [], ◌∷◌, ◌++◌, arith, ltb, leb,
  if◌then◌else◌, length, take, any, get_elem?, length-append, any-append, true, suc, zero, false,
  ◌∙◌, length-take-le,
}
use scheduler.Prelude.Int.{ℤ, pos, ltb_ℤ}
use scheduler.SendTime.Select.{Candidate, spacing_of, pick, backfill, select_suggestions}

-- A property of both branches of a test.
pub of_if :
    (P : List Candidate → Type 0) (b : Bool) (xs ys : List Candidate)
    → (b ≡ true → P xs)
    → (b ≡ false → P ys)
    → P (if b then xs else ys)
of_if P true xs ys f g = f refl
of_if P false xs ys f g = g refl

length-pick :
    (spacing : ℤ) (count : ℕ) (picked cs : List Candidate)
    → length picked < count
    → length (pick spacing count picked cs) ≤ count
unfolding pick
length-pick spacing count picked [] h = omega arith
length-pick spacing count picked (c ∷ cs) h = ground (
  arith,
  length-append picked (c ∷ []),
  length-pick spacing count picked cs h,
  length-pick spacing count (picked ++ c ∷ []) cs,
)

length-backfill :
    (count : ℕ) (instants picked cs : List Candidate)
    → length picked < count
    → length (backfill count instants picked cs) ≤ count
unfolding backfill
length-backfill count instants picked [] h = omega arith
length-backfill count instants picked (c ∷ cs) h = ground (
  arith,
  length-append picked (c ∷ []),
  length-backfill count instants picked cs h,
  length-backfill count instants (picked ++ c ∷ []) cs,
)

-- The first element, which appending does not change.
head-append : (p : Candidate) (ps cs : List Candidate) → get_elem? ((p ∷ ps) ++ cs) 0 ≡ some p
head-append p ps cs = refl

head-pick :
    (spacing : ℤ) (count : ℕ) (p : Candidate) (ps cs : List Candidate)
    → get_elem? (pick spacing count (p ∷ ps) cs) 0 ≡ some p
unfolding pick
head-pick spacing count p ps [] = refl
head-pick spacing count p ps (c ∷ cs) =
    ground (arith, head-pick spacing count p ps cs, head-pick spacing count p (ps ++ c ∷ []) cs)

head-backfill :
    (count : ℕ) (instants : List Candidate) (p : Candidate) (ps cs : List Candidate)
    → get_elem? (backfill count instants (p ∷ ps) cs) 0 ≡ some p
unfolding backfill
head-backfill count instants p ps [] = refl
head-backfill count instants p ps (c ∷ cs) =
    ground (
      arith,
      head-backfill count instants p ps cs,
      head-backfill count instants p (ps ++ c ∷ []) cs,
    )

any-pick :
    (q : Candidate → Bool) (spacing : ℤ) (count : ℕ) (picked cs : List Candidate)
    → any q (pick spacing count picked cs) ≡ true
    → any q picked || any q cs ≡ true
unfolding pick
any-pick q spacing count picked [] h = ground arith
any-pick q spacing count picked (c ∷ cs) h = ground (
  arith,
  any-append q picked (c ∷ []),
  any-pick q spacing count picked cs,
  any-pick q spacing count (picked ++ c ∷ []) cs,
)

any-backfill :
    (q : Candidate → Bool) (count : ℕ) (instants picked cs : List Candidate)
    → any q (backfill count instants picked cs) ≡ true
    → any q picked || any q cs ≡ true
unfolding backfill
any-backfill q count instants picked [] h = ground arith
any-backfill q count instants picked (c ∷ cs) h = ground (
  arith,
  any-append q picked (c ∷ []),
  any-backfill q count instants picked cs,
  any-backfill q count instants (picked ++ c ∷ []) cs,
)

any-take :
    (q : Candidate → Bool) (n : ℕ) (cs : List Candidate)
    → any q (take n cs) ≡ true
    → any q cs ≡ true
any-take q zero cs h = absurd (ground arith)
any-take q (suc n) [] h = ground arith
any-take q (suc n) (c ∷ cs) h = ground (arith, any-take q n cs)

first_of_pick :
    (spacing : ℤ) (count : ℕ) (c : Candidate) (cs : List Candidate)
    → get_elem? (pick spacing count [] (c ∷ cs)) 0 ≡ some c
unfolding pick
first_of_pick spacing count c cs =
    of_if (λ xs. get_elem? xs 0 ≡ some c) (leb count 1) (c ∷ []) (pick spacing count (c ∷ []) cs)
      (λ e. refl) (λ e. head-pick spacing count c [] cs)

first_of_backfill :
    (count : ℕ) (instants picked cs : List Candidate) (c : Candidate)
    → get_elem? picked 0 ≡ some c
    → get_elem? (backfill count instants picked cs) 0 ≡ some c
first_of_backfill count instants [] cs c e = absurd (ground arith)
first_of_backfill count instants (p ∷ ps) cs c e = head-backfill count instants p ps cs ∙ e

-- The three results of the function.
of_select :
    (P : List Candidate → Type 0) (c : Candidate) (cs : List Candidate) (diversify : Bool)
    (minutes : ℤ) (count : ℕ)
    → let picked = pick (spacing_of minutes) count [] (c ∷ cs) in
      P (take count (c ∷ cs))
      → (length picked < count → P (backfill count picked picked (c ∷ cs)))
      → P picked
      → P (select_suggestions (c ∷ cs) diversify minutes count)
unfolding select_suggestions
of_select P c cs diversify minutes count t b p =
    let picked = pick (spacing_of minutes) count [] (c ∷ cs) in
    of_if P (not diversify || not (ltb_ℤ (pos 0) minutes)) (take count (c ∷ cs)) _ (λ e. t)
      (λ e.
        of_if P (ltb (length picked) count) (backfill count picked picked (c ∷ cs)) picked
          (λ f. b (ltb-lt (length picked) count f)) (λ f. p))
  where
    ltb-lt : (m n : ℕ) → ltb m n ≡ true → m < n
    ltb-lt m n e = ground arith

first_of_take :
    (count : ℕ) (c : Candidate) (cs : List Candidate)
    → 0 < count
    → get_elem? (take count (c ∷ cs)) 0 ≡ some c
first_of_take zero c cs h = absurd (omega arith)
first_of_take (suc count) c cs h = refl

-- Whatever the spacing, the suggestions made of at least one candidate are at most `count`, the
-- first candidate comes first, and each suggestion is one of the candidates.
pub select_suggestions-bounds :
    (c : Candidate) (cs : List Candidate) (diversify : Bool) (minutes : ℤ) (count : ℕ)
    (q : Candidate → Bool)
    → 0 < count
    → let chosen = select_suggestions (c ∷ cs) diversify minutes count in
      (length chosen ≤ count)
      × (get_elem? chosen 0 ≡ some c)
      × ((not (any q chosen) || any q (c ∷ cs)) ≡ true)
select_suggestions-bounds c cs diversify minutes count q h =
    let spacing = spacing_of minutes in
    let picked = pick spacing count [] (c ∷ cs) in
    (
      of_select (λ xs. length xs ≤ count) c cs diversify minutes count
          (length-take-le count (c ∷ cs)) (λ l. length-backfill count picked picked (c ∷ cs) l)
          (length-pick spacing count [] (c ∷ cs) h),
      of_select (λ xs. get_elem? xs 0 ≡ some c) c cs diversify minutes count
          (first_of_take count c cs h)
          (λ l. first_of_backfill count picked picked (c ∷ cs) c (first_of_pick spacing count c cs))
          (first_of_pick spacing count c cs),
      implies (any q (select_suggestions (c ∷ cs) diversify minutes count)) (any q (c ∷ cs)) (
          of_select (λ xs. any q xs ≡ true → any q (c ∷ cs) ≡ true) c cs diversify minutes count
            (any-take q count (c ∷ cs))
            (λ l e.
              either (any q picked) (any q (c ∷ cs)) (any-backfill q count picked picked (c ∷ cs) e)
                (any-pick q spacing count [] (c ∷ cs)))
            (any-pick q spacing count [] (c ∷ cs))),
    )
  where
    either : (a b : Bool) → a || b ≡ true → (a ≡ true → b ≡ true) → b ≡ true
    either a true e f = refl
    either true false e f = f refl
    either false false e f = e

    implies : (a b : Bool) → (a ≡ true → b ≡ true) → (not a || b) ≡ true
    implies true b f = f refl
    implies false b f = refl
