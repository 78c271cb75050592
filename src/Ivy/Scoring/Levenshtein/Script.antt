-- ===== src/Ivy/Scoring/Levenshtein/Script.antt =====
-- Edit scripts, and the recursive edit distance: what `LevenshteinDistance` is meant to compute.
use native.Mathlib.Decide.{dec_le}
use meadow.Prelude.{
  ℕ, zero, suc, ◌+◌, ◌≡◌, ◌⊎◌, ◌≤◌, List, [], ◌∷◌, ◌++◌, min, length, refl, sym, ◌∙◌, subst, inl,
  inr, arith, if◌then◌else◌, ◌==◌, Bool-cases, ==_iff,
}
use mathlib.Core.List.{append-nil}
use mathlib.Core.Path.{subst₂}

-- `Edits n a b`: n insertions, deletions and substitutions turn `a` into `b`.
pub data Edits : ℕ → List ℕ → List ℕ → Type 0 where
  done : Edits zero [] []
  keep : {n : ℕ} {a b : List ℕ} {x y : ℕ} → x ≡ y → Edits n a b → Edits n (x ∷ a) (y ∷ b)
  change : {n : ℕ} {a b : List ℕ} (x y : ℕ) → Edits n a b → Edits (suc n) (x ∷ a) (y ∷ b)
  insert : {n : ℕ} {a b : List ℕ} (y : ℕ) → Edits n a b → Edits (suc n) a (y ∷ b)
  delete : {n : ℕ} {a b : List ℕ} (x : ℕ) → Edits n a b → Edits (suc n) (x ∷ a) b

-- The edit distance by its textbook recursion.
unfoldable pub distance : List ℕ → List ℕ → ℕ
distance [] b = length b
distance (x ∷ a) [] = suc (length a)
distance (x ∷ a) (y ∷ b) =
    min (min (distance (x ∷ a) b + 1) (distance a (y ∷ b) + 1))
      (distance a b + (if x == y then 0 else 1))

pub distance-nil : (a : List ℕ) → distance a [] ≡ length a
unfolding distance
distance-nil [] = refl
distance-nil (x ∷ a) = refl

-- No script is shorter than the distance.
pub distance-le : {n : ℕ} {a b : List ℕ} → Edits n a b → distance a b ≤ n
unfolding distance
distance-le done = omega arith
distance-le (keep {x = x} {y = y} e s) = ground (arith, distance-le s)
distance-le (change x y s) = ground (arith, distance-le s)
distance-le (insert {a = []} y s) = omega (arith, distance-le s)
distance-le (insert {a = x ∷ a} y s) = omega (arith, distance-le s)
distance-le (delete {b = []} x s) = omega (arith, distance-le s, distance-nil)
distance-le (delete {b = y ∷ b} x s) = omega (arith, distance-le s)

pub insert_all : (b : List ℕ) → Edits (length b) [] b
insert_all [] = done
insert_all (y ∷ b) = insert y (insert_all b)

pub delete_all : (a : List ℕ) → Edits (length a) a []
delete_all [] = done
delete_all (x ∷ a) = delete x (delete_all a)

min3-cases :
    (a b c : ℕ)
    → (min (min (a + 1) (b + 1)) c ≡ suc a)
      ⊎ (min (min (a + 1) (b + 1)) c ≡ suc b)
      ⊎ (min (min (a + 1) (b + 1)) c ≡ c)
min3-cases a b c = elim (dec_le (a + 1) (b + 1)) [
  | yes p ↦ elim (dec_le (a + 1) c) [ yes q ↦ inl (omega arith) | no q ↦ inr (inr (omega arith)) ]
  | no p ↦ elim (dec_le (b + 1) c) [
    | yes q ↦ inr (inl (omega arith))
    | no q ↦ inr (inr (omega arith))
  ]
]

diagonal :
    (x y : ℕ) {n : ℕ} {a b : List ℕ}
    → Edits n a b
    → Edits (n + (if x == y then 0 else 1)) (x ∷ a) (y ∷ b)
diagonal x y {n} {a} {b} s = elim (Bool-cases (x == y)) [
  | inl e ↦ rw e (subst (λ k. Edits k (x ∷ a) (y ∷ b)) (omega arith) (keep ((==_iff x y).0 e) s))
  | inr e ↦ rw e (subst (λ k. Edits k (x ∷ a) (y ∷ b)) (omega arith) (change x y s))
]

-- There is a script as short as the distance.
pub shortest_script : (a b : List ℕ) → Edits (distance a b) a b
unfolding distance
shortest_script [] b = insert_all b
shortest_script (x ∷ a) [] = delete_all (x ∷ a)
shortest_script (x ∷ a) (y ∷ b) =
    choose (shortest_script (x ∷ a) b) (shortest_script a (y ∷ b)) (shortest_script a b)
      (min3-cases (distance (x ∷ a) b) (distance a (y ∷ b)) _)
  where
    choose :
        {i j k m : ℕ}
        → Edits i (x ∷ a) b
        → Edits j a (y ∷ b)
        → Edits k a b
        → (m ≡ suc i) ⊎ (m ≡ suc j) ⊎ (m ≡ k + (if x == y then 0 else 1))
        → Edits m (x ∷ a) (y ∷ b)
    choose s t u (inl e) = subst (λ k. Edits k (x ∷ a) (y ∷ b)) (sym e) (insert y s)
    choose s t u (inr (inl e)) = subst (λ k. Edits k (x ∷ a) (y ∷ b)) (sym e) (delete x t)
    choose s t u (inr (inr e)) = subst (λ k. Edits k (x ∷ a) (y ∷ b)) (sym e) (diagonal x y u)

-- `onto a p` puts the characters of `a` on top of `p`, one by one: `reverse a ++ p`.
unfoldable pub onto : List ℕ → List ℕ → List ℕ
onto [] p = p
onto (x ∷ a) p = onto a (x ∷ p)

onto-onto : (a p q : List ℕ) → onto (onto a p) q ≡ onto p (a ++ q)
unfolding onto
onto-onto [] p q = refl
onto-onto (x ∷ a) p q = onto-onto a (x ∷ p) q

onto_twice : (a : List ℕ) → onto (onto a []) [] ≡ a
unfolding onto
onto_twice a = onto-onto a [] [] ∙ append-nil a

-- A script for two texts, then one for what lies below them, is a script for the reversals.
onto-Edits :
    {n m : ℕ} {a b p q : List ℕ} → Edits n a b → Edits m p q → Edits (n + m) (onto a p) (onto b q)
unfolding onto
onto-Edits {m = m} {p = p} {q = q} done t = subst (λ k. Edits k p q) (omega arith) t
onto-Edits (keep {x = x} {y = y} e s) t = onto-Edits s (keep {x = x} {y = y} e t)
onto-Edits {a = a} {b = b} {p = p} {q = q} (change x y s) t =
    subst (λ k. Edits k (onto a p) (onto b q)) (omega arith) (onto-Edits s (change x y t))
onto-Edits {a = a} {b = b} {p = p} {q = q} (insert y s) t =
    subst (λ k. Edits k (onto a p) (onto b q)) (omega arith) (onto-Edits s (insert y t))
onto-Edits {a = a} {b = b} {p = p} {q = q} (delete x s) t =
    subst (λ k. Edits k (onto a p) (onto b q)) (omega arith) (onto-Edits s (delete x t))

reverse-Edits : {n : ℕ} {a b : List ℕ} → Edits n a b → Edits n (onto a []) (onto b [])
reverse-Edits {a = a} {b = b} s =
    subst (λ k. Edits k (onto a []) (onto b [])) (omega arith) (onto-Edits s done)

-- Reversing both texts leaves the distance as it is.
pub distance-onto : (a b : List ℕ) → distance (onto a []) (onto b []) ≡ distance a b
distance-onto a b =
    let backward : distance a b ≤ distance (onto a []) (onto b []) =
      subst₂ (λ s t. distance s t ≤ distance (onto a []) (onto b [])) (onto_twice a) (onto_twice b)
        (distance-le (reverse-Edits (shortest_script (onto a []) (onto b [])))) in
    omega (arith, distance-le (reverse-Edits (shortest_script a b)), backward)
