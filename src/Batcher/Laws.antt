-- ===== src/Batcher/Laws.antt =====
-- The batches joined are the rows, and each batch fits.
use native.Mathlib.Nat.{le-div_iff_mul-le}
use scheduler.Prelude.{
  ℕ, ◌≤◌, ◌<◌, ◌≡◌, refl, ◌∙◌, ap, List, [], ◌∷◌, ◌++◌, arith, ◌==◌, length, length-append, All,
  Bool-cases, inl, inr, some, ◌/◌, ltb,
}
use scheduler.Batcher.{batch_rows, batch, max_variables}

abbrev pub join {ℓ} : {A : Type ℓ} → List (List A) → List A
join [] = []
join (xs ∷ xss) = xs ++ join xss

module _ {ℓ} {A : Type ℓ} where
  append_one : (xs : List A) (y : A) (ys : List A) → (xs ++ y ∷ []) ++ ys ≡ xs ++ y ∷ ys
  append_one [] y ys = refl
  append_one (x ∷ xs) y ys = ap (λ l. x ∷ l) (append_one xs y ys)

  append_nil : (xs : List A) → xs ++ [] ≡ xs
  append_nil [] = refl
  append_nil (x ∷ xs) = ap (λ l. x ∷ l) (append_nil xs)

  join-batch_rows :
      (max_var : ℕ) (temp xs : List A) → join (batch_rows max_var temp xs) ≡ temp ++ xs
  unfolding batch_rows
  join-batch_rows max_var [] [] = refl
  join-batch_rows max_var (t ∷ temp) [] = refl
  join-batch_rows max_var temp (x ∷ xs) = elim (Bool-cases (length (temp ++ x ∷ []) == max_var)) [
    | inl e ↦
        let rest : join (batch_rows max_var [] xs) ≡ xs = join-batch_rows max_var [] xs in
        rw (e, rest) (append_one temp x xs)
    | inr e ↦ rw e (join-batch_rows max_var (temp ++ x ∷ []) xs ∙ append_one temp x xs)
  ]

  batch_rows-All :
      (max_var : ℕ) (temp xs : List A)
      → length temp < max_var
      → All (λ b. length b ≤ max_var) (batch_rows max_var temp xs)
  unfolding batch_rows
  batch_rows-All max_var [] [] h = tt
  batch_rows-All max_var (t ∷ temp) [] h = (omega arith, tt)
  batch_rows-All max_var temp (x ∷ xs) h = elim (Bool-cases (length (temp ++ x ∷ []) == max_var)) [
    | inl e ↦ rw e (ground arith, batch_rows-All max_var [] xs (ground arith))
    | inr e ↦
        rw e
          (batch_rows-All max_var (temp ++ x ∷ []) xs (ground (arith, length-append temp (x ∷ []))))
  ]

-- With at least one column and at most `DBMaxVariableSize`, the batches joined are the rows in
-- their order, and a batch has at most `DBMaxVariableSize / columns` rows.
pub batch-join {ℓ} :
    {A : Type ℓ} (ids : List A) (columns : ℕ)
    → 0 < columns
    → columns ≤ max_variables
    → (batches : List (List A)) × (batch ids columns ≡ some batches)
      × (join batches ≡ ids)
      × All (λ b. length b ≤ max_variables / columns) batches
unfolding batch
batch-join ids columns p l = elim (Bool-cases (ltb (max_variables / columns) (length ids))) [
  | inl e ↦
      let quotient : 0 < max_variables / columns = (le-div_iff_mul-le p).1 (omega arith) in
      (
        batch_rows (max_variables / columns) [] ids,
        ground arith,
        join-batch_rows (max_variables / columns) [] ids,
        batch_rows-All (max_variables / columns) [] ids quotient,
      )
  | inr e ↦ (ids ∷ [], ground arith, append_nil ids, (ground arith, tt))
]
