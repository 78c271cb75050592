-- ===== src/Ivy/Merging/Fields/Origins.antt =====
-- From which values the scans and collections of ivy/pkg/merging/field_merger.go take theirs.
use meadow.Prelude.{
  ◌≡◌, ◌⊎◌, Bool, String, Option, none, some, List, [], ◌∷◌, refl, arith, inl, inr, Any, lookup,
  sym, ap, ◌∙◌, Bool-cases, Option-cases, In,
}
use meadow.Prelude.Sorting.{StrictWeak}
use meadow.Json.{Value, null, number}
use meadow.Ivy.Merging.Fields.Defs.{
  FieldValue, EntityData, collect_values, keep_value, is_nil, head_value, to_number,
  first_non_empty, choose_non_empty, of_number, best_from,
}
use meadow.Ivy.Merging.Fields.Selection.{IsNumber, best_from-IsBest}

module _ {F : Type 0} where
  abbrev pub IsFrom : List (FieldValue F) → Value F → Type 0
  IsFrom values r = (r ≡ null) ⊎ Any (λ u. u.value ≡ r) values

  pub somewhere_from_member :
      (values : List (FieldValue F)) (w : FieldValue F) (r : Value F)
      → In w values
      → r ≡ w.value
      → Any (λ u. u.value ≡ r) values
  somewhere_from_member [] w r i e = absurd i
  somewhere_from_member (v ∷ values) w r (inl i) e = inl (sym (e ∙ ap (λ u. u.value) i))
  somewhere_from_member (v ∷ values) w r (inr i) e = inr (somewhere_from_member values w r i e)

  of_to_number : (u : Value F) (m : F) → to_number u ≡ some m → u ≡ number m
  unfolding to_number
  of_to_number (number n) m h = cc
  of_to_number u m h = cc

  somewhere_from_number :
      (values : List (FieldValue F)) (m : F)
      → Any (IsNumber m) values
      → Any (λ u. u.value ≡ number m) values
  somewhere_from_number [] m i = absurd i
  somewhere_from_number (v ∷ values) m (inl i) = inl (of_to_number v.value m i)
  somewhere_from_number (v ∷ values) m (inr i) = inr (somewhere_from_number values m i)

  first_non_empty-Any :
      (values : List (FieldValue F)) (r : Value F)
      → first_non_empty values ≡ some r
      → Any (λ u. u.value ≡ r) values
  unfolding first_non_empty
  first_non_empty-Any [] r h = cc
  first_non_empty-Any (v ∷ values) r h = ground (arith, first_non_empty-Any values r)

  head_value-IsFrom : (values : List (FieldValue F)) → IsFrom values (head_value values)
  unfolding head_value
  head_value-IsFrom [] = inl refl
  head_value-IsFrom (v ∷ values) = inr (inl refl)

  pub choose_non_empty-IsFrom :
      (values : List (FieldValue F)) → IsFrom values (choose_non_empty values)
  unfolding choose_non_empty
  choose_non_empty-IsFrom values = elim (Option-cases (first_non_empty values)) [
    | inl e ↦ rw (e, choose_non_empty) (head_value-IsFrom values)
    | inr (r, e) ↦ rw (e, choose_non_empty) (inr (first_non_empty-Any values r e))
  ]

  pub IsBest-IsFrom :
      {better : F → F → Bool} (weak : StrictWeak better) (values : List (FieldValue F))
      → IsFrom values (of_number (best_from better none values))
  unfolding of_number
  IsBest-IsFrom weak values = elim (best_from-IsBest weak values) [
    | inl (r, h) ↦ inl (rw r refl)
    | inr (m, r, i, h) ↦ inr (rw r (somewhere_from_number values m i))
  ]

  keep_value-Any :
      (e : EntityData F) (v : Value F) (values : List (FieldValue F)) (r : Value F)
      → Any (λ u. u.value ≡ r) (keep_value e (some v) values)
      → (v ≡ r) ⊎ Any (λ u. u.value ≡ r) values
  unfolding keep_value
  keep_value-Any e v values r = elim (Bool-cases (is_nil v)) [
    | inl n ↦ rw (n, keep_value) (λ i. inr i)
    | inr n ↦ rw (n, keep_value) (λ i. i)
  ]

  -- A collected value is what some entity has under the field.
  pub collect_values-Any :
      (field : String) (entities : List (EntityData F)) (r : Value F)
      → Any (λ u. u.value ≡ r) (collect_values field entities)
      → Any (λ e. lookup field e.fields ≡ some r) entities
  unfolding collect_values
  collect_values-Any field [] r i = i
  collect_values-Any field (e ∷ entities) r i =
      kept (lookup field e.fields) refl i (collect_values-Any field entities r)
    where
      kept :
          (o : Option (Value F))
          → lookup field e.fields ≡ o
          → Any (λ u. u.value ≡ r) (keep_value e o (collect_values field entities))
          → (Any (λ u. u.value ≡ r) (collect_values field entities)
              → Any (λ d. lookup field d.fields ≡ some r) entities)
          → Any (λ d. lookup field d.fields ≡ some r) (e ∷ entities)
      kept none h i ih = inr (ih (unfold keep_value in i))
      kept (some v) h i ih = elim (keep_value-Any e v (collect_values field entities) r i) [
        | inl same ↦ inl (h ∙ ap some same)
        | inr j ↦ inr (ih j)
      ]
