-- ===== src/SendTime/Select.antt =====
-- `selectSuggestions` of pkg/service/sendtime/sendtime.go: which of the ranked candidates are
-- suggested. `count` is what `Suggest` passes, at least 1.
pub mod Bounds
pub mod Spacing
use scheduler.Prelude.{
  ℕ, ◌-◌, ◌*◌, ◌%◌, ◌<◌, ◌≤◌, ◌≡◌, refl, Bool, ◌||◌, not, some, List, [], ◌∷◌, ◌++◌, arith, ltb,
  leb, ◌==◌, if◌then◌else◌, length, take, any, get_elem?, length-append, any-append, true, suc,
  zero, All, false, ◌∙◌, length-take-le,
}
use scheduler.Prelude.Int.{ℤ, pos, ltb_ℤ, to_int64, to_uint64}

-- What `selectSuggestions` reads of a candidate.
pub record Candidate : Type 0 where
  pub instant : ℕ
  pub forced_first : Bool

-- `absDuration(a.Sub(b))`, which saturates, for instants less than 292 years apart; beyond, and if
-- `a` is the earlier one, Go's negation of the least duration stays negative.
unfoldable pub distance : ℕ → ℕ → ℕ
distance a b =
    let d = if ltb a b then b - a else a - b in
    if ltb 9223372036854775807 d then 9223372036854775807 else d

-- `time.Duration(spacingMinutes) * time.Minute`.
unfoldable pub spacing_of : ℤ → ℤ
spacing_of minutes = to_int64 ((to_uint64 minutes * 60000000000) % 18446744073709551616)

-- The first loop of `selectSuggestions`; it returns at `count` candidates.
unfoldable pub pick : ℤ → ℕ → List Candidate → List Candidate → List Candidate
unfolding distance
pick spacing count picked [] = picked
pick spacing count picked (c ∷ cs) =
    let near = any (λ p. ltb_ℤ (pos (distance c.instant p.instant)) spacing) picked in
    let grown = picked ++ c ∷ [] in
    let after = pick spacing count grown cs in
    let skipped = pick spacing count picked cs in
    if length picked == 0 || c.forced_first || not near
    then (if leb count (length grown) then grown else after)
    else skipped

-- The second loop: leftovers whose instant is not among the `instants` picked.
unfoldable pub backfill : ℕ → List Candidate → List Candidate → List Candidate → List Candidate
backfill count instants picked [] = picked
backfill count instants picked (c ∷ cs) =
    let grown = picked ++ c ∷ [] in
    let after = backfill count instants grown cs in
    let skipped = backfill count instants picked cs in
    if any (λ p. p.instant == c.instant) instants
    then skipped
    else if leb count (length grown)
    then grown
    else after

unfoldable pub select_suggestions : List Candidate → Bool → ℤ → ℕ → List Candidate
unfolding pick backfill spacing_of
select_suggestions [] diversify minutes count = []
select_suggestions (c ∷ cs) diversify minutes count =
    let picked = pick (spacing_of minutes) count [] (c ∷ cs) in
    if not diversify || not (ltb_ℤ (pos 0) minutes)
    then take count (c ∷ cs)
    else if ltb (length picked) count
    then backfill count picked picked (c ∷ cs)
    else picked
