-- ===== src/Ivy/Merging/Fields/Merge.antt =====
-- `MergeField` and `detectConflict` of ivy/pkg/merging/field_merger.go.
use meadow.Prelude.{
  Bool, true, false, String, Option, none, some, List, [], ◌∷◌, map, str_eq, if◌then◌else◌, Map,
}
use meadow.Prelude.Int.{ℤ}
use meadow.Prelude.Sorting.{SortSlice}
use meadow.Json.{Value, null, array, FloatOps, Items, cons, nil}
use meadow.Ivy.Merging.Fields.Defs.{
  FieldValue, EntityData, StrategyType, most_recent, most_trusted, collect_all, longest, shortest,
  first, last, max, min, sum, average, prefer_non_empty, source_priority, prefer_source, unknown,
  FieldMergeStrategy, MergeConflict, collect_values, head_value, choose_non_empty, later, earlier,
  more_trusted, key, choose_longest, choose_shortest, choose_max, choose_min, choose_sum,
  choose_average,
}
use meadow.Ivy.Merging.Fields.CollectAll.{collect_all_values}

module _ {F : Type 0} where
  -- A `[]any` as a value.
  unfoldable pub of_elements : List (Value F) → Items F
  of_elements [] = nil
  of_elements (v ∷ vs) = cons v (of_elements vs)

module _ {F : Type 0} (float : FloatOps F) (sort_slice : SortSlice (FieldValue F)) where
  -- The loop of `detectConflict` over the values after the first.
  unfoldable pub all_same : String → List (FieldValue F) → Bool
  all_same first_key [] = true
  all_same first_key (v ∷ values) =
      if str_eq (key float v.value) first_key then all_same first_key values else false

  -- `detectConflict`. `MergeField` fills in how the conflict was resolved.
  unfoldable pub detect_conflict : String → List (FieldValue F) → Option (MergeConflict F)
  detect_conflict field [] = none
  detect_conflict field (v ∷ []) = none
  detect_conflict field (v ∷ w ∷ values) =
      if all_same (key float v.value) (w ∷ values)
      then none
      else some (record {
        field = field;
        values = map (λ x. x.value) (v ∷ w ∷ values);
        integrations = map (λ x. x.integration) (v ∷ w ∷ values);
        resolution = unknown "";
        resolved_value = null;
      })

  unfoldable pub choose_most_recent : List (FieldValue F) → Value F
  choose_most_recent values = head_value (sort_slice later values)

  unfoldable pub choose_first : List (FieldValue F) → Value F
  choose_first values = head_value (sort_slice earlier values)

  unfoldable pub choose_most_trusted : Map ℤ → List (FieldValue F) → Value F
  choose_most_trusted priorities values = head_value (sort_slice (more_trusted priorities) values)

  -- The `switch` of `MergeField`.
  unfoldable pub apply_strategy :
      FieldMergeStrategy → Map ℤ → StrategyType → List (FieldValue F) → Value F
  apply_strategy s priorities most_recent values = choose_most_recent values
  apply_strategy s priorities most_trusted values = choose_most_trusted priorities values
  apply_strategy s priorities collect_all values =
      array (of_elements (collect_all_values float s.max_items s.dedup values))
  apply_strategy s priorities longest values = choose_longest float values
  apply_strategy s priorities shortest values = choose_shortest float values
  apply_strategy s priorities first values = choose_first values
  apply_strategy s priorities last values = choose_most_recent values
  apply_strategy s priorities max values = choose_max float values
  apply_strategy s priorities min values = choose_min float values
  apply_strategy s priorities sum values = choose_sum float values
  apply_strategy s priorities average values = choose_average float values
  apply_strategy s priorities prefer_non_empty values = choose_non_empty values
  apply_strategy s priorities source_priority values = choose_most_trusted priorities values
  apply_strategy s priorities prefer_source values = choose_most_trusted priorities values
  apply_strategy s priorities (unknown name) values = choose_non_empty values

  unfoldable pub resolve :
      FieldMergeStrategy → Value F → Option (MergeConflict F) → Option (MergeConflict F)
  resolve s v none = none
  resolve s v (some c) = some (record c { resolved_value = v; resolution = s.strategy })

  -- `MergeField` once the values are collected.
  unfoldable pub merge_values :
      String → FieldMergeStrategy → Map ℤ → List (FieldValue F) → Value F × Option (MergeConflict F)
  merge_values field s priorities [] = (null, none)
  merge_values field s priorities (v ∷ []) = (v.value, none)
  merge_values field s priorities (v ∷ w ∷ values) =
      let chosen = apply_strategy s priorities s.strategy (v ∷ w ∷ values) in
      (chosen, resolve s chosen (detect_conflict field (v ∷ w ∷ values)))

  unfoldable pub merge_field :
      String → List (EntityData F) → FieldMergeStrategy → Map ℤ → Value F × Option (MergeConflict F)
  merge_field field entities s priorities =
      merge_values field s priorities (collect_values field entities)
