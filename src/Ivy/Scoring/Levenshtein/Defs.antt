-- ===== src/Ivy/Scoring/Levenshtein/Defs.antt =====
-- `LevenshteinDistance` of ivy/pkg/matching/scoring.go. A string is the list of its bytes.
use meadow.Prelude.{
  ℕ, suc, ◌+◌, Bool, true, false, List, [], ◌∷◌, min, ◌==◌, if◌then◌else◌, length, ◌&&◌,
}

-- Go's `a == b` on strings.
unfoldable pub bytes_eq : List ℕ → List ℕ → Bool
bytes_eq [] [] = true
bytes_eq [] (y ∷ ys) = false
bytes_eq (x ∷ xs) [] = false
bytes_eq (x ∷ xs) (y ∷ ys) = x == y && bytes_eq xs ys

unfoldable pub cost : ℕ → ℕ → ℕ
cost x y = if x == y then 0 else 1

-- `prevRow[j] = j` for j from `j` on.
unfoldable pub first_row : ℕ → List ℕ → List ℕ
first_row j [] = j ∷ []
first_row j (y ∷ ys) = j ∷ first_row (suc j) ys

-- The inner loop: `left` is `row[j-1]`, `diag` is `prevRow[j-1]`, and the last list holds
-- `prevRow[j]` and what follows it. The result is `row[j..]`.
unfoldable pub fill : ℕ → ℕ → ℕ → List ℕ → List ℕ → List ℕ
fill x left diag [] above = []
fill x left diag (y ∷ ys) [] = []
fill x left diag (y ∷ ys) (up ∷ above) =
    let cell = min (min (left + 1) (up + 1)) (diag + cost x y) in cell ∷ fill x cell up ys above

-- One round of the outer loop: `row[0] = i`, then the inner loop over `prevRow`.
unfoldable pub next_row : ℕ → ℕ → List ℕ → List ℕ → List ℕ
next_row i x b [] = []
next_row i x b (diag ∷ above) = i ∷ fill x i diag b above

-- The outer loop from round `i` on.
unfoldable pub rows : ℕ → List ℕ → List ℕ → List ℕ → List ℕ
rows i [] b prev = prev
rows i (x ∷ xs) b prev = rows (suc i) xs b (next_row i x b prev)

-- `prevRow[len(b)]`: a row has `len(b) + 1` cells.
unfoldable pub last_cell : List ℕ → ℕ
last_cell [] = 0
last_cell (c ∷ []) = c
last_cell (c ∷ d ∷ row) = last_cell (d ∷ row)

unfoldable pub levenshtein_distance : List ℕ → List ℕ → ℕ
levenshtein_distance a b =
    if bytes_eq a b
    then 0
    else if length a == 0
    then length b
    else if length b == 0
    then length a
    else last_cell (rows 1 a b (first_row 0 b))
