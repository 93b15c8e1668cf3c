-- ===== src/Csv/Accounts.antt =====
-- What becomes of every line of an uploaded file (packages/core/src/csv.ts).
use slvrn.Prelude.{ℕ, suc, true, Memᴰ, ◌≡◌, ◌⊎◌, inl, inr, List, [], ◌∷◌, ◌++◌, All}
use slvrn.Prelude.Text.{Text, is_space}
use slvrn.Csv.Payments.{ParsedRow, RowError, RowOutcome}
use slvrn.Csv.Rows.{IsPayable}

-- Nothing but white space in every cell.
abbrev pub IsBlank : List Text → Type 0
IsBlank = All (All (λ c. is_space c ≡ true))

-- A line of data is white space, or among the rows as one that can be paid, or among the errors.
abbrev pub IsAccounted : ℕ → List Text → List ParsedRow → List RowError → Type 0
IsAccounted line cells rows errors =
    IsBlank cells
    ⊎ (((r : ParsedRow) × Memᴰ r rows × (r.line_number ≡ line) × IsPayable r)
        ⊎ ((e : RowError) × Memᴰ e errors × (e.line_number ≡ line)))

-- Every line is, from the given number on.
abbrev pub AreAccounted : ℕ → List (List Text) → List ParsedRow → List RowError → Type 0
AreAccounted line [] rows errors = Unit
AreAccounted line (cells ∷ grid) rows errors =
    IsAccounted line cells rows errors × AreAccounted (suc line) grid rows errors

Mem-before {ℓ} : {A : Type ℓ} (xs ys : List A) (x : A) → Memᴰ x xs → Memᴰ x (xs ++ ys)
Mem-before [] ys x m = elim m [ ]
Mem-before (z ∷ xs) ys x (Memᴰ.head e) = Memᴰ.head e
Mem-before (z ∷ xs) ys x (Memᴰ.tail m) = Memᴰ.tail (Mem-before xs ys x m)

-- What an outcome says of its line.
abbrev IsOf : ℕ → RowOutcome → Type 0
IsOf line (inr r) = r.line_number ≡ line
IsOf line (inl errors) = All (λ (e : RowError). e.line_number ≡ line) errors
