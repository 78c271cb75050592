-- ===== src/Lotus/Mapping/Linq.antt =====
-- What lotus/pkg relies on in the library ectolinq.
use meadow.Prelude.{◌≡◌, Bool, Option, none, some, List, [], ◌∷◌, map, if◌then◌else◌}

-- The elements that have the predicate, in their order.
unfoldable pub keep : {A : Type 0} → (A → Bool) → List A → List A
keep p [] = []
keep p (x ∷ xs) = let rest = keep p xs in if p x then x ∷ rest else rest

-- The first element that has the predicate.
unfoldable pub first_with : {A : Type 0} → (A → Bool) → List A → Option A
first_with p [] = none
first_with p (x ∷ xs) = if p x then some x else first_with p xs

-- Filter keeps the elements that have the predicate, in their order; Find gives the first of them, and
-- `none` stands for the zero value where there is none; Map applies a function to each element.
pub record Linq : Type 1 where
  pub filter : {A : Type 0} → (A → Bool) → List A → List A
  pub find : {A : Type 0} → (A → Bool) → List A → Option A
  pub map_each : {A B : Type 0} → (A → B) → List A → List B
  pub filter-keep : {A : Type 0} (p : A → Bool) (xs : List A) → filter p xs ≡ keep p xs
  pub find-first_with : {A : Type 0} (p : A → Bool) (xs : List A) → find p xs ≡ first_with p xs
  pub map_each-map : {A B : Type 0} (f : A → B) (xs : List A) → map_each f xs ≡ map f xs
