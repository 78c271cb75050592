-- ===== src/Lotus/Mapping/Execute/Complete.antt =====
-- `ExecuteMapping` of lotus/pkg/mapping/mapping.go comes to an end.
use meadow.Prelude.{ℕ, ◌<◌, String, List, length, ◌≡◌}
use meadow.Prelude.Sorting.{SortSlice}
use meadow.Json.{Value}
use meadow.Lotus.Mapping.Outcome.{done, Stops, >>=-Stops}
use meadow.Lotus.Mapping.Linq.{Linq}
use meadow.Lotus.Mapping.Steps.{Registry}
use meadow.Lotus.Mapping.Paths.{get_field_paths}
use meadow.Lotus.Mapping.Target.{Blanks}
use meadow.Lotus.Mapping.Writes.{set_target_field_value_with_index, apply_broadcasts}
use meadow.Lotus.Mapping.Writes.Reach.{
  IsLevel, set_target_field_value_with_index-Stops, apply_broadcasts-Stops,
}
use meadow.Lotus.Mapping.Plan.{MappingDefinition, Compiled, generate_mapping_plan}
use meadow.Lotus.Mapping.Run.{SourceFieldValue, execute_source_links}
use meadow.Lotus.Mapping.Run.Results.{run-Stops}
use meadow.Lotus.Mapping.Execute.{no_values, generate_target_raw, execute_mapping}

module _ {F : Type 0} ⦃linq : Linq⦄ (get_action : Registry F) (blanks : Blanks F)
    (sort : SortSlice (ℕ × Value F)) (m : MappingDefinition F) (steps : Compiled F) where
  -- Of a mapping that `GenerateMappingPlan` compiled to `steps`, `ExecuteMapping` ends, with a document or with
  -- an error, whatever was extracted from the source: its recursion along the links is no deeper than the
  -- number of the steps, and that for the path of a target field no deeper than the level of the field, where
  -- the target fields have a level that is lower for a field than for what it holds.
  pub execute_mapping-Stops :
      (level : String → ℕ) (depth fuel reach : ℕ) (extracted : List (SourceFieldValue F))
      → generate_mapping_plan get_action m depth ≡ done steps
      → length steps < fuel
      → IsLevel (get_field_paths m.target_fields) level
      → ((id : String) → level id < reach)
      → Stops (execute_mapping blanks sort m steps fuel reach extracted)
  unfolding execute_mapping generate_target_raw
  execute_mapping-Stops level depth fuel reach extracted e h levels enough =
      >>=-Stops
        (execute_source_links (set_target_field_value_with_index blanks m.target_fields reach) m
          steps fuel extracted no_values)
        _
        (run-Stops (set_target_field_value_with_index blanks m.target_fields reach)
          (set_target_field_value_with_index-Stops blanks m.target_fields level reach levels enough)
          get_action m steps depth fuel extracted no_values e h)
        (λ s.
          >>=-Stops (apply_broadcasts blanks m.target_fields reach s.target) _
            (apply_broadcasts-Stops blanks m.target_fields level reach levels enough s.target)
            (λ _. tt))
