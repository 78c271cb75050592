-- ===== src/Ivy/Merging/Fields/Provenance.antt =====
-- Where the merged value comes from, and when a conflict is reported (ivy/pkg/merging/field_merger.go).
use meadow.Prelude.{
  ◌≡◌, ◌⊎◌, ◌↔◌, Bool, true, false, String, none, some, List, [], ◌∷◌, refl, arith, inl, inr, Any,
  All, Map, map, lookup, sym, Bool-cases, eq_iff, subst,
}
use meadow.Prelude.Int.{ℤ}
use meadow.Prelude.Sorting.{SortSlice, IsSort, StrictWeak}
use meadow.Json.{null, FloatOps, FloatOrder}
use meadow.Ivy.Merging.Fields.Defs.{
  FieldValue, EntityData, FieldMergeStrategy, MergeConflict, StrategyType, collect_values, key,
  most_recent, most_trusted, collect_all, longest, shortest, first, last, max, min, sum, average,
  prefer_non_empty, source_priority, prefer_source, unknown, head_value, choose_max, choose_min,
  choose_longest, choose_shortest, longest_from,
}
use meadow.Ivy.Merging.Fields.Merge.{
  merge_values, merge_field, detect_conflict, all_same, apply_strategy, choose_most_recent,
  choose_first, choose_most_trusted, resolve,
}
use meadow.Ivy.Merging.Fields.Sorting.{
  head-minimal, later-StrictWeak, earlier-StrictWeak, more_trusted-StrictWeak,
}
use meadow.Ivy.Merging.Fields.Selection.{greater-StrictWeak, less-StrictWeak}
use meadow.Ivy.Merging.Fields.Lengths.{longest_from-some, shortest_from-none}
use meadow.Ivy.Merging.Fields.Origins.{
  somewhere_from_member, choose_non_empty-IsFrom, IsBest-IsFrom, collect_values-Any, IsFrom,
}

module _ {F : Type 0} (float : FloatOps F) (sort_slice : SortSlice (FieldValue F)) where
  -- The values all have the text of the first.
  abbrev pub AllAlike : List (FieldValue F) → Type 0
  AllAlike [] = Unit
  AllAlike (v ∷ values) = All (λ u. key float u.value ≡ key float v.value) values

  all_same_iff :
      (k : String) (values : List (FieldValue F))
      → (all_same float sort_slice k values ≡ true) ↔ All (λ u. key float u.value ≡ k) values
  unfolding all_same
  all_same_iff k [] = (λ h. tt, λ h. refl)
  all_same_iff k (v ∷ values) = ground (arith, all_same_iff k values, eq_iff (key float v.value) k)

  -- A conflict is reported exactly when the collected values do not all have one text; it lists
  -- them, the strategy and the merged value.
  pub merge_values-conflict :
      (field : String) (s : FieldMergeStrategy) (priorities : Map ℤ) (values : List (FieldValue F))
      → let (merged, conflict) = merge_values float sort_slice field s priorities values in
        (AllAlike values × (conflict ≡ none))
        ⊎ ((¬ AllAlike values)
            × ((c : MergeConflict F) × (conflict ≡ some c)
                × (c.field ≡ field)
                × (c.values ≡ map (λ u. u.value) values)
                × (c.resolution ≡ s.strategy)
                × (c.resolved_value ≡ merged)))
  unfolding merge_values detect_conflict resolve
  merge_values-conflict field s priorities [] = inl (tt, refl)
  merge_values-conflict field s priorities (v ∷ []) = inl (tt, refl)
  merge_values-conflict field s priorities (v ∷ w ∷ values) =
      elim (Bool-cases (all_same float sort_slice (key float v.value) (w ∷ values))) [
        | inl e ↦ rw e (inl ((all_same_iff (key float v.value) (w ∷ values)).0 e, refl))
        | inr e ↦ rw e (
            inr (
              λ alike. cc (e, (all_same_iff (key float v.value) (w ∷ values)).1 alike),
              (_, refl, refl, refl, refl, refl),
            ))
      ]

-- The strategies that pick one of the values.
abbrev pub selects : StrategyType → Bool
selects collect_all = false
selects sum = false
selects average = false
selects _ = true

module _ {F : Type 0} (float : FloatOps F) (sort_slice : SortSlice (FieldValue F)) where
  choose-IsFrom :
      {less : FieldValue F → FieldValue F → Bool}
      → IsSort sort_slice
      → StrictWeak less
      → (v : FieldValue F) (values : List (FieldValue F))
      → IsFrom (v ∷ values) (head_value (sort_slice less (v ∷ values)))
  choose-IsFrom sorts weak v values =
      let (w, i, e, h) = head-minimal sort_slice sorts weak v values in
      inr (somewhere_from_member (v ∷ values) w _ i e)

  apply_strategy-IsFrom :
      IsSort sort_slice
      → FloatOrder float
      → (s : FieldMergeStrategy) (priorities : Map ℤ) (strategy : StrategyType) (v : FieldValue F)
        (values : List (FieldValue F))
      → selects strategy ≡ true
      → IsFrom (v ∷ values) (apply_strategy float sort_slice s priorities strategy (v ∷ values))
  unfolding apply_strategy
  apply_strategy-IsFrom sorts order s p collect_all v values h = cc
  apply_strategy-IsFrom sorts order s p sum v values h = cc
  apply_strategy-IsFrom sorts order s p average v values h = cc
  apply_strategy-IsFrom sorts order s p most_recent v values h =
      unfold choose_most_recent in choose-IsFrom sorts later-StrictWeak v values
  apply_strategy-IsFrom sorts order s p last v values h =
      unfold choose_most_recent in choose-IsFrom sorts later-StrictWeak v values
  apply_strategy-IsFrom sorts order s p first v values h =
      unfold choose_first in choose-IsFrom sorts earlier-StrictWeak v values
  apply_strategy-IsFrom sorts order s p most_trusted v values h =
      unfold choose_most_trusted in choose-IsFrom sorts (more_trusted-StrictWeak p) v values
  apply_strategy-IsFrom sorts order s p source_priority v values h =
      unfold choose_most_trusted in choose-IsFrom sorts (more_trusted-StrictWeak p) v values
  apply_strategy-IsFrom sorts order s p prefer_source v values h =
      unfold choose_most_trusted in choose-IsFrom sorts (more_trusted-StrictWeak p) v values
  apply_strategy-IsFrom sorts order s p max v values h =
      unfold choose_max in IsBest-IsFrom (greater-StrictWeak float order) (v ∷ values)
  apply_strategy-IsFrom sorts order s p min v values h =
      unfold choose_min in IsBest-IsFrom (less-StrictWeak float order) (v ∷ values)
  apply_strategy-IsFrom sorts order s p longest v values h =
      unfold choose_longest longest_from in
      let (r, q, (i, h', g)) = longest_from-some float v.value values in
      inr (subst (λ t. Any (λ u. u.value ≡ t) (v ∷ values)) (sym q) i)
  apply_strategy-IsFrom sorts order s p shortest v values h =
      unfold choose_shortest in
      let (r, q, c) = shortest_from-none float (v ∷ values) in
      subst (IsFrom (v ∷ values)) (sym q) (elim c [ inl x ↦ inl x.0 | inr x ↦ inr x.0 ])
  apply_strategy-IsFrom sorts order s p prefer_non_empty v values h =
      choose_non_empty-IsFrom (v ∷ values)
  apply_strategy-IsFrom sorts order s p (unknown name) v values h =
      choose_non_empty-IsFrom (v ∷ values)

  -- With a strategy that picks, `MergeField` gives nil or what some entity has under the field.
  pub merge_field-provenance :
      IsSort sort_slice
      → FloatOrder float
      → (field : String) (entities : List (EntityData F)) (s : FieldMergeStrategy)
        (priorities : Map ℤ)
      → selects s.strategy ≡ true
      → ((merge_field float sort_slice field entities s priorities).0 ≡ null)
        ⊎ Any
            (λ e.
              lookup field e.fields
              ≡ some (merge_field float sort_slice field entities s priorities).0)
            entities
  unfolding merge_field
  merge_field-provenance sorts order field entities s priorities h =
      elim (merge_values-IsFrom (collect_values field entities)) [
        | inl e ↦ inl e
        | inr i ↦ inr (collect_values-Any field entities _ i)
      ]
    where
      merge_values-IsFrom :
          (values : List (FieldValue F))
          → IsFrom values (merge_values float sort_slice field s priorities values).0
      merge_values-IsFrom [] = unfold merge_values in inl refl
      merge_values-IsFrom (v ∷ []) = unfold merge_values in inr (inl refl)
      merge_values-IsFrom (v ∷ w ∷ values) =
          unfold merge_values in
          apply_strategy-IsFrom sorts order s priorities s.strategy v (w ∷ values) h
