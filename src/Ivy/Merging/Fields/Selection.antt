-- ===== src/Ivy/Merging/Fields/Selection.antt =====
-- The strategies of ivy/pkg/merging/field_merger.go that keep a best value in one pass.
use meadow.Prelude.{
  ◌≡◌, ◌⊎◌, Bool, true, false, String, Option, none, some, List, [], ◌∷◌, refl, inl, inr, Any, All,
  Map, Bool-cases,
}
use meadow.Prelude.Int.{ℤ}
use meadow.Prelude.Sorting.{SortSlice, StrictWeak, irreflexive}
use meadow.Json.{null, number, FloatOps, FloatOrder}
use meadow.Ivy.Merging.Fields.Defs.{
  FieldValue, FieldMergeStrategy, max, min, to_number, keep_better, best_from, of_number,
  choose_max, choose_min,
}
use meadow.Ivy.Merging.Fields.Merge.{merge_values, apply_strategy}

module _ {F : Type 0} where
  -- `P` holds of the value if it is a number.
  abbrev pub OnNumber : (F → Type 0) → FieldValue F → Type 0
  OnNumber P v = elim (to_number v.value) [ none ↦ Unit {0} | some n ↦ P n ]

  abbrev pub IsNumber : F → FieldValue F → Type 0
  IsNumber m v = to_number v.value ≡ some m

module _ {F : Type 0} {better : F → F → Bool} (weak : StrictWeak better) where
  -- What the loop is to end with, from a best number so far.
  abbrev Ends : F → List (FieldValue F) → F → Type 0
  Ends b values m =
      ((m ≡ b) ⊎ Any (IsNumber m) values)
      × (better b m ≡ false)
      × All (OnNumber (λ n. better n m ≡ false)) values

  Ends-none :
      {b m : F} (v : FieldValue F) (values : List (FieldValue F))
      → to_number v.value ≡ none
      → Ends b values m
      → Ends b (v ∷ values) m
  Ends-none v values e (i, h, g) =
      (elim i [ inl x ↦ inl x | inr x ↦ inr (inr x) ], h, (rw (e, OnNumber) tt, g))

  -- The number replaces the best one.
  Ends-replaced :
      {b n m : F} (v : FieldValue F) (values : List (FieldValue F))
      → to_number v.value ≡ some n
      → better n b ≡ true
      → Ends n values m
      → Ends b (v ∷ values) m
  Ends-replaced {b} {n} {m} v values e t (i, h, g) = (
    elim i [ inl x ↦ inr (inl (rw x e)) | inr x ↦ inr (inr x) ],
    weak.not_trans b n m (weak.asym n b t) h,
    (rw (e, OnNumber) h, g),
  )

  Ends-kept :
      {b n m : F} (v : FieldValue F) (values : List (FieldValue F))
      → to_number v.value ≡ some n
      → better n b ≡ false
      → Ends b values m
      → Ends b (v ∷ values) m
  Ends-kept {b} {n} {m} v values e t (i, h, g) = (
    elim i [ inl x ↦ inl x | inr x ↦ inr (inr x) ],
    h,
    (rw (e, OnNumber) (weak.not_trans n b m t h), g),
  )

  best_from-some :
      (b : F) (values : List (FieldValue F))
      → (m : F) × (best_from better (some b) values ≡ some m) × Ends b values m
  unfolding best_from
  best_from-some b [] = (b, refl, (inl refl, irreflexive weak b, tt))
  best_from-some b (v ∷ values) = step (to_number v.value) refl (λ c. best_from-some c values)
    where
      step :
          (o : Option F)
          → to_number v.value ≡ o
          → ((c : F) → (m : F) × (best_from better (some c) values ≡ some m) × Ends c values m)
          → (m : F) × (best_from better (keep_better better (some b) (to_number v.value)) values
              ≡ some m)
            × Ends b (v ∷ values) m
      step none e ih =
          let (m, r, g) = ih b in (m, rw e (unfold keep_better in r), Ends-none v values e g)
      step (some n) e ih = elim (Bool-cases (better n b)) [
        | inl t ↦
            let (m, r, g) = ih n in
            (m, rw e (unfold keep_better in rw t r), Ends-replaced v values e t g)
        | inr t ↦
            let (m, r, g) = ih b in
            (m, rw e (unfold keep_better in rw t r), Ends-kept v values e t g)
      ]

  -- With no best number yet: the values hold no number, or the loop ends at a best one.
  abbrev pub IsBest : List (FieldValue F) → Option F → Type 0
  IsBest values r =
      ((r ≡ none) × All (λ v. to_number v.value ≡ none) values)
      ⊎ ((m : F) × (r ≡ some m)
          × Any (IsNumber m) values
          × All (OnNumber (λ n. better n m ≡ false)) values)

  pub best_from-IsBest :
      (values : List (FieldValue F)) → IsBest values (best_from better none values)
  unfolding best_from
  best_from-IsBest [] = inl (refl, tt)
  best_from-IsBest (v ∷ values) = step (to_number v.value) refl (best_from-IsBest values)
    where
      step :
          (o : Option F)
          → to_number v.value ≡ o
          → IsBest values (best_from better none values)
          → IsBest
              (v ∷ values)
              (best_from better (keep_better better none (to_number v.value)) values)
      step none e (inl (r, h)) = inl (rw e (unfold keep_better in r), (e, h))
      step none e (inr (m, r, i, h)) =
          inr (m, rw e (unfold keep_better in r), inr i, (rw (e, OnNumber) tt, h))
      step (some n) e ih =
          let (m, r, (i, h, g)) = best_from-some n values in
          inr (
            m,
            rw e (unfold keep_better in r),
            elim i [ inl x ↦ inl (rw x e) | inr x ↦ inr x ],
            (rw (e, OnNumber) h, g),
          )

module _ {F : Type 0} (float : FloatOps F) (order : FloatOrder float) where
  pub greater-StrictWeak : StrictWeak (λ n m. float.lt m n)
  greater-StrictWeak = record {
    asym = λ a b h. order.lt_asym b a h;
    not_trans = λ a b c h k. order.not_lt_trans c b a k h;
  }

  pub less-StrictWeak : StrictWeak (λ n m. float.lt n m)
  less-StrictWeak = record { asym = order.lt_asym; not_trans = order.not_lt_trans }

module _ {F : Type 0} (float : FloatOps F) (sort_slice : SortSlice (FieldValue F)) where
  -- `max` over several values merges to nil if none is a number, and else to a number among them
  -- that no number among them exceeds.
  pub merge_values-max :
      FloatOrder float
      → (field : String) (s : FieldMergeStrategy) (priorities : Map ℤ) (v w : FieldValue F)
        (values : List (FieldValue F))
      → s.strategy ≡ max
      → let result = (merge_values float sort_slice field s priorities (v ∷ w ∷ values)).0 in
        ((result ≡ null) × All (λ u. to_number u.value ≡ none) (v ∷ w ∷ values))
        ⊎ ((m : F) × (result ≡ number m)
            × Any (IsNumber m) (v ∷ w ∷ values)
            × All (OnNumber (λ n. float.lt m n ≡ false)) (v ∷ w ∷ values))
  unfolding merge_values
  merge_values-max order field s priorities v w values e = rw e (
      unfold apply_strategy choose_max of_number in
      elim (best_from-IsBest (greater-StrictWeak float order) (v ∷ w ∷ values)) [
        | inl (r, h) ↦ inl (rw r refl, h)
        | inr (m, r, i, h) ↦ inr (m, rw r refl, i, h)
      ])

  -- `min`, likewise: a number among them that is not above any number among them.
  pub merge_values-min :
      FloatOrder float
      → (field : String) (s : FieldMergeStrategy) (priorities : Map ℤ) (v w : FieldValue F)
        (values : List (FieldValue F))
      → s.strategy ≡ min
      → let result = (merge_values float sort_slice field s priorities (v ∷ w ∷ values)).0 in
        ((result ≡ null) × All (λ u. to_number u.value ≡ none) (v ∷ w ∷ values))
        ⊎ ((m : F) × (result ≡ number m)
            × Any (IsNumber m) (v ∷ w ∷ values)
            × All (OnNumber (λ n. float.lt n m ≡ false)) (v ∷ w ∷ values))
  unfolding merge_values
  merge_values-min order field s priorities v w values e = rw e (
      unfold apply_strategy choose_min of_number in
      elim (best_from-IsBest (less-StrictWeak float order) (v ∷ w ∷ values)) [
        | inl (r, h) ↦ inl (rw r refl, h)
        | inr (m, r, i, h) ↦ inr (m, rw r refl, i, h)
      ])
