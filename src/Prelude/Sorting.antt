-- ===== src/Prelude/Sorting.antt =====
-- What `sort.Slice` of Go's standard library promises: a permutation in which nothing stands before
-- what is less than it. Equals may come in any order, so the sort is a parameter of its users.
use mathlib.Core.Path.{◌≡◌, refl}
use mathlib.Core.Logic.{◌↔◌, ◌⊎◌, inl, inr}
use mathlib.Core.Bool.{Bool, true, false}
use mathlib.Core.List.{List, [], ◌∷◌}
use meadow.Prelude.Tests.{if◌then◌else◌, Bool-cases}
use Prim.Native.Nat.{ℕ, zero, suc}
use meadow.Prelude.Lists.{take, take-All, All, In, All-In, everywhere_from_members, All-map}

abbrev pub SortSlice : Type 0 → Type 0
SortSlice A = (A → A → Bool) → List A → List A

pub record StrictWeak {A : Type 0} (less : A → A → Bool) : Type 0 where
  pub asym : (a b : A) → less a b ≡ true → less b a ≡ false
  pub not_trans : (a b c : A) → less a b ≡ false → less b c ≡ false → less a c ≡ false

module _ {A : Type 0} where
  abbrev pub Ordered : (A → A → Bool) → List A → Type 0
  Ordered less [] = Unit
  Ordered less (x ∷ xs) = All (λ y. less y x ≡ false) xs × Ordered less xs

  pub record IsSort (sort_slice : SortSlice A) : Type 0 where
    pub members : (less : A → A → Bool) (xs : List A) (x : A) → In x (sort_slice less xs) ↔ In x xs
    pub ordered :
        (less : A → A → Bool) → StrictWeak less → (xs : List A) → Ordered less (sort_slice less xs)

  pub irreflexive : {less : A → A → Bool} → StrictWeak less → (a : A) → less a a ≡ false
  irreflexive {less} w a = elim (Bool-cases (less a a)) [ inl e ↦ w.asym a a e | inr e ↦ e ]

  -- Insertion sort keeps the promise.
  unfoldable pub insert_sorted : (A → A → Bool) → A → List A → List A
  insert_sorted less x [] = x ∷ []
  insert_sorted less x (y ∷ ys) =
      let rest = insert_sorted less x ys in if less y x then y ∷ rest else x ∷ y ∷ ys

  unfoldable pub insertion_sort : SortSlice A
  unfolding insert_sorted
  insertion_sort less [] = []
  insertion_sort less (x ∷ xs) = insert_sorted less x (insertion_sort less xs)

  In-insert_sorted :
      (less : A → A → Bool) (x : A) (ys : List A) (z : A)
      → In z (insert_sorted less x ys) ↔ ((z ≡ x) ⊎ In z ys)
  unfolding insert_sorted
  In-insert_sorted less x [] z = (λ h. h, λ h. h)
  In-insert_sorted less x (y ∷ ys) z = elim (Bool-cases (less y x)) [
    | inl e ↦ rw e (
      elim [
        | inl h ↦ inr (inl h)
        | inr h ↦ elim ((In-insert_sorted less x ys z).0 h) [ inl g ↦ inl g | inr g ↦ inr (inr g) ]
      ],
      elim [
        | inl h ↦ inr ((In-insert_sorted less x ys z).1 (inl h))
        | inr (inl h) ↦ inl h
        | inr (inr h) ↦ inr ((In-insert_sorted less x ys z).1 (inr h))
      ],
    )
    | inr e ↦ rw e (λ h. h, λ h. h)
  ]

  insert_sorted-Ordered :
      (less : A → A → Bool) (w : StrictWeak less) (x : A) (ys : List A)
      → Ordered less ys
      → Ordered less (insert_sorted less x ys)
  unfolding insert_sorted
  insert_sorted-Ordered less w x [] h = (tt, tt)
  insert_sorted-Ordered less w x (y ∷ ys) h = elim (Bool-cases (less y x)) [
    | inl e ↦ rw e (
      everywhere_from_members (insert_sorted less x ys) (λ z i.
          elim ((In-insert_sorted less x ys z).0 i) [
            | inl g ↦ rw g (w.asym y x e)
            | inr g ↦ All-In _ ys h.0 g
          ]),
      insert_sorted-Ordered less w x ys h.1,
    )
    | inr e ↦ rw e ((e, All-map ys (λ z g. w.not_trans z y x g e) h.0), h)
  ]

  insertion_sort-members :
      (less : A → A → Bool) (xs : List A) (z : A) → In z (insertion_sort less xs) ↔ In z xs
  unfolding insertion_sort
  insertion_sort-members less [] z = (λ h. h, λ h. h)
  insertion_sort-members less (x ∷ xs) z =
      let step = In-insert_sorted less x (insertion_sort less xs) z in
      (
        λ h. elim (step.0 h) [
          | inl g ↦ inl g
          | inr g ↦ inr ((insertion_sort-members less xs z).0 g)
        ],
        λ h.
            step.1
              (elim h [ inl g ↦ inl g | inr g ↦ inr ((insertion_sort-members less xs z).1 g) ]),
      )

  insertion_sort-Ordered :
      (less : A → A → Bool)
      → StrictWeak less
      → (xs : List A) → Ordered less (insertion_sort less xs)
  unfolding insertion_sort
  insertion_sort-Ordered less w [] = tt
  insertion_sort-Ordered less w (x ∷ xs) =
      insert_sorted-Ordered less w x (insertion_sort less xs) (insertion_sort-Ordered less w xs)

  pub insertion_sort-IsSort : IsSort insertion_sort
  insertion_sort-IsSort = record {
    members = insertion_sort-members;
    ordered = insertion_sort-Ordered;
  }

  -- Sorting a list that is not empty puts a minimal element first.
  pub sort-head :
      {sort_slice : SortSlice A} {less : A → A → Bool}
      → IsSort sort_slice
      → StrictWeak less
      → (x : A) (xs : List A)
      → (w : A) × (rest : List A) × (sort_slice less (x ∷ xs) ≡ w ∷ rest)
        × In w (x ∷ xs)
        × All (λ v. less v w ≡ false) (x ∷ xs)
  sort-head {sort_slice} {less} s w x xs = go (sort_slice less (x ∷ xs)) refl
    where
      go :
          (sorted : List A)
          → sort_slice less (x ∷ xs) ≡ sorted
          → (w : A) × (rest : List A) × (sort_slice less (x ∷ xs) ≡ w ∷ rest)
            × In w (x ∷ xs)
            × All (λ v. less v w ≡ false) (x ∷ xs)
      go [] e = absurd (rw e at ((s.members less (x ∷ xs) x).1 (inl refl)))
      go (y ∷ ys) e = (
        y,
        ys,
        e,
        (s.members less (x ∷ xs) y).0 (rw e (inl refl)),
        everywhere_from_members (x ∷ xs)
            (λ v i. first v (rw e at ((s.members less (x ∷ xs) v).1 i))),
      )
        where
          first : (v : A) → In v (y ∷ ys) → less v y ≡ false
          first v (inl g) = rw g (irreflexive w y)
          first v (inr g) = All-In _ ys (rw e at (s.ordered less w (x ∷ xs))).0 g

module _ {A : Type 0} where
  pub take-Ordered :
      (less : A → A → Bool) (n : ℕ) (xs : List A) → Ordered less xs → Ordered less (take n xs)
  take-Ordered less zero xs h = tt
  take-Ordered less (suc n) [] h = tt
  take-Ordered less (suc n) (x ∷ xs) h = (take-All _ n xs h.0, take-Ordered less n xs h.1)
