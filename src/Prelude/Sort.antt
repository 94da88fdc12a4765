-- ===== src/Prelude/Sort.antt =====
-- Sorting of numbers. `sort.Slice` leaves open how it sorts; on numbers every sort gives one list.
use scheduler.Prelude.Tests.{leb, ◌==◌, if◌then◌else◌}
use scheduler.Prelude.Lists.{contains, length}
use Prim.Native.Nat.{ℕ, suc, ◌≤◌}
use mathlib.Core.Path.{◌≡◌, refl, ap, ◌∙◌}
use mathlib.Core.Bool.{◌||◌}
use mathlib.Core.List.{List, [], ◌∷◌}
use native.Mathlib.Omega.{arith}

unfoldable pub insert_sorted : ℕ → List ℕ → List ℕ
insert_sorted a [] = a ∷ []
insert_sorted a (x ∷ xs) = if leb a x then a ∷ x ∷ xs else x ∷ insert_sorted a xs

unfoldable pub sort : List ℕ → List ℕ
unfolding insert_sorted
sort [] = []
sort (x ∷ xs) = insert_sorted x (sort xs)

-- Every element is at least `a`, and the rest rises.
abbrev pub SortedFrom : ℕ → List ℕ → Type 0
SortedFrom a [] = Unit {0}
SortedFrom a (x ∷ xs) = (a ≤ x) × SortedFrom x xs

abbrev pub IsSorted : List ℕ → Type 0
IsSorted [] = Unit {0}
IsSorted (x ∷ xs) = SortedFrom x xs

insert_sorted-SortedFrom :
    (b a : ℕ) (xs : List ℕ) → b ≤ a → SortedFrom b xs → SortedFrom b (insert_sorted a xs)
unfolding insert_sorted
insert_sorted-SortedFrom b a [] h s = omega arith
insert_sorted-SortedFrom b a (x ∷ xs) h s = ground (arith, insert_sorted-SortedFrom x a xs)

insert_sorted-IsSorted : (a : ℕ) (xs : List ℕ) → IsSorted xs → IsSorted (insert_sorted a xs)
unfolding insert_sorted
insert_sorted-IsSorted a [] s = tt
insert_sorted-IsSorted a (x ∷ xs) s = ground (arith, insert_sorted-SortedFrom x a xs)

pub sort-IsSorted : (xs : List ℕ) → IsSorted (sort xs)
unfolding sort
sort-IsSorted [] = tt
sort-IsSorted (x ∷ xs) = insert_sorted-IsSorted x (sort xs) (sort-IsSorted xs)

contains-insert_sorted :
    (b a : ℕ) (xs : List ℕ) → contains b (insert_sorted a xs) ≡ (a == b) || contains b xs
unfolding insert_sorted
contains-insert_sorted b a [] = refl
contains-insert_sorted b a (x ∷ xs) = ground (arith, contains-insert_sorted b a xs)

-- Sorting keeps the elements.
pub contains-sort : (b : ℕ) (xs : List ℕ) → contains b (sort xs) ≡ contains b xs
unfolding sort
contains-sort b [] = refl
contains-sort b (x ∷ xs) = ground (arith, contains-insert_sorted b x (sort xs), contains-sort b xs)

length-insert_sorted : (a : ℕ) (xs : List ℕ) → length (insert_sorted a xs) ≡ suc (length xs)
unfolding insert_sorted
length-insert_sorted a [] = refl
length-insert_sorted a (x ∷ xs) = ground (arith, length-insert_sorted a xs)

pub length-sort : (xs : List ℕ) → length (sort xs) ≡ length xs
unfolding sort
length-sort [] = refl
length-sort (x ∷ xs) = omega (arith, length-insert_sorted x (sort xs), length-sort xs)

insert_sorted_below : (a : ℕ) (xs : List ℕ) → SortedFrom a xs → insert_sorted a xs ≡ a ∷ xs
unfolding insert_sorted
insert_sorted_below a [] s = refl
insert_sorted_below a (x ∷ xs) s = ground arith

IsSorted-tail : (a : ℕ) (xs : List ℕ) → SortedFrom a xs → IsSorted xs
IsSorted-tail a [] s = tt
IsSorted-tail a (x ∷ xs) s = s.1

-- A sorted list is left as it is.
pub sort_sorted : (xs : List ℕ) → IsSorted xs → sort xs ≡ xs
unfolding sort
sort_sorted [] s = refl
sort_sorted (x ∷ xs) s =
    ap (insert_sorted x) (sort_sorted xs (IsSorted-tail x xs s)) ∙ insert_sorted_below x xs s
