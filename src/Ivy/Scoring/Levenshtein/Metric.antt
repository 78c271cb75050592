-- ===== src/Ivy/Scoring/Levenshtein/Metric.antt =====
-- `LevenshteinDistance` is the least number of edits, and a metric.
use meadow.Prelude.{
  ℕ, suc, ◌+◌, ◌≡◌, ◌≤◌, ◌↔◌, List, [], ◌∷◌, min, max, length, refl, sym, ◌∙◌, arith, subst,
}
use meadow.Ivy.Scoring.Levenshtein.Defs.{levenshtein_distance}
use meadow.Ivy.Scoring.Levenshtein.Script.{
  Edits, done, keep, change, insert, delete, distance, distance-le, insert_all, delete_all,
  shortest_script,
}
use meadow.Ivy.Scoring.Levenshtein.Table.{levenshtein-eq-distance, distance_self}

-- `LevenshteinDistance` is the cost of some script from `a` to `b`, and no script costs less.
pub levenshtein_distance-least :
    (a b : List ℕ)
    → Edits (levenshtein_distance a b) a b × ((n : ℕ) → Edits n a b → levenshtein_distance a b ≤ n)
levenshtein_distance-least a b =
    rw levenshtein-eq-distance (shortest_script a b, λ n s. distance-le s)

flip_script : {n : ℕ} {a b : List ℕ} → Edits n a b → Edits n b a
flip_script done = done
flip_script (keep e s) = keep (sym e) (flip_script s)
flip_script (change x y s) = change y x (flip_script s)
flip_script (insert y s) = delete y (flip_script s)
flip_script (delete x s) = insert x (flip_script s)

distance_comm : (a b : List ℕ) → distance a b ≡ distance b a
distance_comm a b = omega (
  arith,
  distance-le (flip_script (shortest_script a b)),
  distance-le (flip_script (shortest_script b a)),
)

abbrev Within : ℕ → List ℕ → List ℕ → Type 0
Within n a c = (k : ℕ) × (k ≤ n) × Edits k a c

-- Two scripts, one after the other.
compose : {n m : ℕ} {a b c : List ℕ} → Edits n a b → Edits m b c → Within (n + m) a c
compose {m = m} done t = (m, omega arith, t)
compose (delete x s) t = let (k, h, u) = compose s t in (suc k, omega arith, delete x u)
compose (keep e s) (keep f t) = let (k, h, u) = compose s t in (k, omega arith, keep (e ∙ f) u)
compose (keep {x = x} e s) (change y z t) =
    let (k, h, u) = compose s t in (suc k, omega arith, change x z u)
compose (keep e s) (insert z t) =
    let (k, h, u) = compose (keep e s) t in (suc k, omega arith, insert z u)
compose (keep {x = x} e s) (delete y t) =
    let (k, h, u) = compose s t in (suc k, omega arith, delete x u)
compose (change x y s) (keep {y = z} f t) =
    let (k, h, u) = compose s t in (suc k, omega arith, change x z u)
compose (change x y s) (change _ z t) =
    let (k, h, u) = compose s t in (suc k, omega arith, change x z u)
compose (change x y s) (insert z t) =
    let (k, h, u) = compose (change x y s) t in (suc k, omega arith, insert z u)
compose (change x y s) (delete _ t) =
    let (k, h, u) = compose s t in (suc k, omega arith, delete x u)
compose (insert y s) (keep {y = z} f t) =
    let (k, h, u) = compose s t in (suc k, omega arith, insert z u)
compose (insert y s) (change _ z t) =
    let (k, h, u) = compose s t in (suc k, omega arith, insert z u)
compose (insert y s) (insert z t) =
    let (k, h, u) = compose (insert y s) t in (suc k, omega arith, insert z u)
compose (insert y s) (delete _ t) = let (k, h, u) = compose s t in (k, omega arith, u)

distance_triangle : (a b c : List ℕ) → distance a c ≤ distance a b + distance b c
distance_triangle a b c =
    let (k, h, s) = compose (shortest_script a b) (shortest_script b c) in
    omega (arith, distance-le s)

distance-zero : {n : ℕ} {a b : List ℕ} → Edits n a b → n ≡ 0 → a ≡ b
distance-zero done h = refl
distance-zero (keep e s) h = cc (e, distance-zero s h)
distance-zero (change x y s) h = absurd (omega arith)
distance-zero (insert y s) h = absurd (omega arith)
distance-zero (delete x s) h = absurd (omega arith)

-- The distance is zero exactly between equal strings, is symmetric and obeys the triangle
-- inequality.
pub levenshtein_distance-metric :
    (a b c : List ℕ)
    → ((levenshtein_distance a b ≡ 0) ↔ (a ≡ b))
      × (levenshtein_distance a b ≡ levenshtein_distance b a)
      × (levenshtein_distance a c ≤ levenshtein_distance a b + levenshtein_distance b c)
levenshtein_distance-metric a b c = simp levenshtein-eq-distance (
  (distance-zero (shortest_script a b), λ e. subst (λ t. distance a t ≡ 0) e (distance_self a)),
  distance_comm a b,
  distance_triangle a b c,
)

lengths_apart :
    {n : ℕ} {a b : List ℕ} → Edits n a b → max (length a) (length b) ≤ n + min (length a) (length b)
lengths_apart done = omega arith
lengths_apart (keep e s) = omega (arith, lengths_apart s)
lengths_apart (change x y s) = omega (arith, lengths_apart s)
lengths_apart (insert y s) = omega (arith, lengths_apart s)
lengths_apart (delete x s) = omega (arith, lengths_apart s)

overwrite : (a b : List ℕ) → Within (max (length a) (length b)) a b
overwrite [] b = (length b, omega arith, insert_all b)
overwrite (x ∷ a) [] = (suc (length a), omega arith, delete_all (x ∷ a))
overwrite (x ∷ a) (y ∷ b) = let (k, h, s) = overwrite a b in (suc k, omega arith, change x y s)

-- The distance is at most the length of the longer string, and at least the difference of the
-- lengths, so the similarity `1 - distance / maxLen` lies between 0 and 1.
pub levenshtein_distance_bounds :
    (a b : List ℕ)
    → (levenshtein_distance a b ≤ max (length a) (length b))
      × (max (length a) (length b) ≤ levenshtein_distance a b + min (length a) (length b))
levenshtein_distance_bounds a b =
    let (k, h, s) = overwrite a b in
    rw levenshtein-eq-distance (omega (arith, distance-le s), lengths_apart (shortest_script a b))
