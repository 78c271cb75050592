-- ===== src/Lotus/Mapping/Execute.antt =====
-- lotus/pkg/mapping/mapping.go: `ExecuteMapping` of a compiled mapping, from the source field values that
-- `AddSourceRaw` extracted.
pub mod Complete
use meadow.Prelude.{ℕ, String, Option, List, [], ◌∷◌, Map}
use meadow.Prelude.Sorting.{SortSlice}
use meadow.Json.{Value}
use meadow.Lotus.Mapping.Outcome.{Outcome, done, failed, out_of_fuel, ◌>>=◌}
use meadow.Lotus.Mapping.Linq.{Linq}
use meadow.Lotus.Mapping.Target.{
  Blanks, TargetFieldValue, TargetFieldValues, no_targets, and_target,
}
use meadow.Lotus.Mapping.Writes.{TargetState, set_target_field_value_with_index, apply_broadcasts}
use meadow.Lotus.Mapping.Output.{get_target_raw_object}
use meadow.Lotus.Mapping.Plan.{MappingDefinition, Compiled}
use meadow.Lotus.Mapping.Run.{SourceFieldValue, Mapping, execute_source_links}

module _ {F : Type 0} where
  abbrev pub no_values : TargetState F
  no_values = record {
    target_field_values = [];
    target_array_indices = [];
    pending_broadcasts = [];
  }

  abbrev pub values_in : Map (TargetFieldValue F) → TargetFieldValues F
  values_in [] = no_targets
  values_in ((id, t) ∷ rest) = and_target t (values_in rest)

module _ {F : Type 0} ⦃linq : Linq⦄ (blanks : Blanks F) (sort : SortSlice (ℕ × Value F))
    (m : MappingDefinition F) where
  -- `reach` is the fuel for the paths of target fields.
  unfoldable pub generate_target_raw : ℕ → TargetState F → Outcome (Map (Value F))
  generate_target_raw reach s = apply_broadcasts blanks m.target_fields reach s >>= λ after.
      done (get_target_raw_object sort m.target_fields [] (values_in after.target_field_values))

  unfoldable pub execute_mapping :
      Compiled F → ℕ → ℕ → List (SourceFieldValue F) → Outcome (Map (Value F))
  execute_mapping steps fuel reach extracted =
      execute_source_links (set_target_field_value_with_index blanks m.target_fields reach) m steps
        fuel extracted no_values
      >>= λ s. generate_target_raw reach s.target
