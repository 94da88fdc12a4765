-- ===== src/Batcher.antt =====
-- `Batch` of pkg/utils/batcher.go: rows are cut into batches whose values fit into one SQL statement.
-- `math.Floor` of the quotient of two integers is the quotient of Go's integer division.
pub mod Laws
use scheduler.Prelude.{
  ℕ, ◌/◌, Option, none, some, List, [], ◌∷◌, ◌++◌, ltb, ◌==◌, if◌then◌else◌, length,
}

-- `DBMaxVariableSize`.
abbrev pub max_variables : ℕ
max_variables = 32766

unfoldable pub batch_rows {ℓ} : {A : Type ℓ} → ℕ → List A → List A → List (List A)
batch_rows max_var [] [] = []
batch_rows max_var (t ∷ temp) [] = (t ∷ temp) ∷ []
batch_rows max_var temp (x ∷ xs) =
    let grown = temp ++ x ∷ [] in
    let cut = batch_rows max_var [] xs in
    let more = batch_rows max_var grown xs in if length grown == max_var then grown ∷ cut else more

-- `Batch`; `none` is the panic of a division by zero.
unfoldable pub batch {ℓ} : {A : Type ℓ} → List A → ℕ → Option (List (List A))
unfolding batch_rows
batch ids columns =
    let max_var = max_variables / columns in
    if columns == 0
    then none
    else if ltb max_var (length ids)
    then some (batch_rows max_var [] ids)
    else some (ids ∷ [])
