-- ===== src/Ivy/Scoring/Levenshtein/Table.antt =====
-- The rows that `LevenshteinDistance` fills hold the distances of the prefixes.
use meadow.Prelude.{ℕ, suc, ◌≡◌, List, [], ◌∷◌, length, refl, ap, ◌∙◌, arith, true}
use meadow.Ivy.Scoring.Levenshtein.Defs.{
  bytes_eq, cost, first_row, fill, next_row, rows, last_cell, levenshtein_distance,
}
use meadow.Ivy.Scoring.Levenshtein.Script.{distance, onto, distance-onto}

-- The cells right of the column `acc` (the reversed prefix of `b`), in the row of the reversed
-- prefix `p` of `a`.
cells : List ℕ → List ℕ → List ℕ → List ℕ
cells p acc [] = []
cells p acc (y ∷ ys) = distance p (y ∷ acc) ∷ cells p (y ∷ acc) ys

row : List ℕ → List ℕ → List ℕ → List ℕ
row p acc ys = distance p acc ∷ cells p acc ys

first_row-eq-row : (acc ys : List ℕ) → first_row (length acc) ys ≡ row [] acc ys
unfolding first_row row cells distance
first_row-eq-row acc [] = refl
first_row-eq-row acc (y ∷ ys) = ap (◌∷◌ (length acc)) (first_row-eq-row (y ∷ acc) ys)

fill-eq-cells :
    (x : ℕ) (p acc ys : List ℕ)
    → fill x (distance (x ∷ p) acc) (distance p acc) ys (cells p acc ys) ≡ cells (x ∷ p) acc ys
unfolding fill cells distance cost
fill-eq-cells x p acc [] = refl
fill-eq-cells x p acc (y ∷ ys) =
    ap (◌∷◌ (distance (x ∷ p) (y ∷ acc))) (fill-eq-cells x p (y ∷ acc) ys)

next_row-eq-row :
    (x : ℕ) (p b : List ℕ) → next_row (suc (length p)) x b (row p [] b) ≡ row (x ∷ p) [] b
unfolding next_row row distance
next_row-eq-row x p b = ap (◌∷◌ (suc (length p))) (fill-eq-cells x p [] b)

rows-eq-row : (xs p b : List ℕ) → rows (suc (length p)) xs b (row p [] b) ≡ row (onto xs p) [] b
unfolding rows onto
rows-eq-row [] p b = refl
rows-eq-row (x ∷ xs) p b = rw next_row-eq-row (rows-eq-row xs (x ∷ p) b)

last_cell-row : (p acc ys : List ℕ) → last_cell (row p acc ys) ≡ distance p (onto ys acc)
unfolding last_cell row cells onto
last_cell-row p acc [] = refl
last_cell-row p acc (y ∷ ys) = last_cell-row p (y ∷ acc) ys

pub table-eq-distance : (a b : List ℕ) → last_cell (rows 1 a b (first_row 0 b)) ≡ distance a b
unfolding onto
table-eq-distance a b =
    rw (first_row-eq-row [] b)
      (rw (rows-eq-row a [] b) (last_cell-row (onto a []) [] b ∙ distance-onto a b))

pub distance_self : (a : List ℕ) → distance a a ≡ 0
unfolding distance
distance_self [] = refl
distance_self (x ∷ a) = ground (arith, distance_self a)

pub bytes_eq→eq : (a b : List ℕ) → bytes_eq a b ≡ true → a ≡ b
unfolding bytes_eq
bytes_eq→eq [] [] h = refl
bytes_eq→eq [] (y ∷ b) h = cc
bytes_eq→eq (x ∷ a) [] h = cc
bytes_eq→eq (x ∷ a) (y ∷ b) h = ground (arith, bytes_eq→eq a b)

-- The optimised routine, its early returns included, computes the recursive distance.
pub levenshtein-eq-distance : (a b : List ℕ) → levenshtein_distance a b ≡ distance a b
unfolding levenshtein_distance distance bytes_eq
levenshtein-eq-distance [] b = ground (arith, bytes_eq→eq [] b)
levenshtein-eq-distance (x ∷ a) [] = ground arith
levenshtein-eq-distance (x ∷ a) (y ∷ b) =
    ground
      (arith, table-eq-distance (x ∷ a) (y ∷ b), bytes_eq→eq (x ∷ a) (y ∷ b), distance_self (x ∷ a))
