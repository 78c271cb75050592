-- ===== src/Tests/Mapping.antt =====
-- Tests of the model of lotus/pkg/mapping.
use meadow.Prelude.{
  ℕ, ◌+◌, ◌%◌, ◌==◌, ◌<◌, ◌≡◌, ◌≢◌, ◌⊎◌, ◌↔◌, inl, inr, true, false, String, Option, none, some,
  List, [], ◌∷◌, length, refl, str_eq, if◌then◌else◌, lookup, In, All-In, insert, arith, ◌>>=◌,
}
use meadow.Prelude.Int.{pos}
use meadow.Json.{Value, null, bool, number}
use meadow.Tests.Base.{list_linq}
use meadow.Lotus.Mapping.Outcome as Outcome
use meadow.Lotus.Mapping.Types.{
  get_action_value_type, validate_action_value_type, validate_items, or_none, is_value_of, is_type,
  is_action_value_type, plain, number_type, bool_type, type_name,
}
use meadow.Lotus.Mapping.Fields.{
  get_field, find_in_field, find_in_items, find_nested, Field, field, no_items, no_fields,
  and_field,
}
use meadow.Lotus.Mapping.Linq.{keep, first_with}
use meadow.Lotus.Mapping.Links.{LinkDirection, Link, filter, is_given}
use meadow.Lotus.Mapping.Steps.{
  StepType, transformer, condition, StepDefinition, Registry, new_step, get_output_type,
  any_to_bool, conclude, execute,
}
use meadow.Prelude.Sorting.{insertion_sort}
use meadow.Ivy.Criteria.Paths.{split, onto_first}
use meadow.Lotus.Mapping.Paths.{
  item_path, get_field_paths, get_path_to_field, find_path, with_parents,
}
use meadow.Lotus.Mapping.Target.{Blanks, add_value_to_target_field, value_to_set}
use meadow.Lotus.Mapping.Writes.{
  TargetState, set_target_field_value_with_index, array_root, set_under, set_on_path,
  apply_broadcasts, broadcast_all,
}
use meadow.Lotus.Mapping.Writes.Reach.{IsLevel, set_target_field_value_with_index-Stops}
use meadow.Lotus.Mapping.Output.{get_target_raw_object, assign_map_value, assign_parts}
use meadow.Lotus.Mapping.Execute.{no_values, execute_mapping, generate_target_raw}
use meadow.Lotus.Mapping.Execute.Complete.{execute_mapping-Stops}
use meadow.Lotus.Mapping.Plan.{
  MappingDefinition, Compiled, generate_mapping_plan, validate_links, validate_link, source_count,
  target_count, field_types, step_types, create_step, or_build, build_step, input_types,
  constant_types, check_target_field, check_target_step, source_links,
}
use meadow.Lotus.Mapping.Plan.Order.{Ordered}
use meadow.Lotus.Mapping.Plan.Valid.{IsLink, HasSteps, generate_mapping_plan-Ordered}
use meadow.Lotus.Mapping.Plan.Cycles.{IsRank, generate_mapping_plan-Stops}
use meadow.Lotus.Mapping.Run.Results.{
  has_result, AllFed, execute_source_links-Ends, execute_source_links-starved,
}
use meadow.Lotus.Mapping.Run.{
  SourceFieldValue, execute_source_links, each_link, execute_link, execute_target,
  execute_step_link, count_pending, execute_field_link, execute_step, get_link_inputs,
  result_values, values, values_of, is_null, with_inputs, write_each, inputs_of,
}

abbrev pub test_field : String → Field ℕ
test_field id =
    field
      (record {
        id = id;
        path = id;
        type = number_type;
        required = false;
        default = null;
        is_item = false;
      })
      no_items no_fields

abbrev pub is_even : List (Value ℕ) → Option (Value ℕ)
is_even (number n ∷ vs) = some (bool (n % 2 == 0))
is_even _ = none

abbrev pub sum_of : List (Value ℕ) → Option ℕ
sum_of [] = some 0
sum_of (number n ∷ vs) = sum_of vs >>= λ total. some (n + total)
sum_of (v ∷ vs) = none

abbrev pub as_number : Option ℕ → Option (Value ℕ)
as_number none = none
as_number (some n) = some (number n)

abbrev pub actions : Registry ℕ
actions key arguments types =
    if str_eq key "is_even"
    then some (record { output_type = plain bool_type; execute = is_even })
    else some (record { output_type = plain number_type; execute = λ vs. as_number (sum_of vs) })

abbrev pub test_step : String → StepType → String → String × StepDefinition ℕ
test_step id type key = (
  id,
  record { id = id; type = type; action = record { key = key; arguments = null; invert = false } },
)

abbrev from_field : String → LinkDirection ℕ
from_field id = record { step_id = ""; field_id = id; constant = none }

abbrev pub at_step : String → LinkDirection ℕ
at_step id = record { step_id = id; field_id = ""; constant = none }

abbrev pub link : LinkDirection ℕ → LinkDirection ℕ → Link ℕ
link from to = record { priority = pos 0; source = from; target = to }

abbrev between : Link ℕ
between = link (at_step "double") (at_step "add")

-- a goes to add by way of a condition and a sum, b directly
abbrev gated : MappingDefinition ℕ
gated = record {
  source_fields = and_field (test_field "a") (and_field (test_field "b") no_fields);
  target_fields = and_field (test_field "total") no_fields;
  step_definitions =
      test_step "gate" condition "is_even"
      ∷ test_step "double" transformer "sum"
      ∷ test_step "add" transformer "sum"
      ∷ [];
  links =
      link (from_field "a") (at_step "gate")
      ∷ link (at_step "gate") (at_step "double")
      ∷ between
      ∷ link (from_field "b") (at_step "add")
      ∷ link (at_step "add") (from_field "total")
      ∷ [];
}

abbrev planned : Outcome.Outcome (Compiled ℕ) → Compiled ℕ
planned (Outcome.done steps) = steps
planned _ = []

abbrev gated_steps : Compiled ℕ
gated_steps = planned (generate_mapping_plan actions gated 4)

abbrev pub blanks : Blanks ℕ
blanks = record { is_empty = is_null; no_number = 0; no_time = null }

abbrev write : String → Value ℕ → Option ℕ → TargetState ℕ → Outcome.Outcome (TargetState ℕ)
write = set_target_field_value_with_index blanks gated.target_fields 2

-- All fields are at the top.
top-IsLevel : IsLevel (get_field_paths gated.target_fields) (λ id. 0)
unfolding get_field_paths item_path
top-IsLevel p (inl e) h = absurd (cc (rw e at h))
top-IsLevel p (inr i) h = absurd i

write-Stops :
    (field_id : String) (v : Value ℕ) (index : Option ℕ) (t : TargetState ℕ)
    → Outcome.Stops (write field_id v index t)
write-Stops =
    set_target_field_value_with_index-Stops blanks gated.target_fields (λ id. 0) 2 top-IsLevel
      (λ id. omega arith)

abbrev extracted : ℕ → ℕ → List (SourceFieldValue ℕ)
extracted a b =
    record { field_id = "a"; index = 0; value = number a }
    ∷ record { field_id = "b"; index = 0; value = number b }
    ∷ []

gated_plan : generate_mapping_plan actions gated 4 ≡ Outcome.done gated_steps
unfolding generate_mapping_plan validate_links validate_link source_count target_count field_types
    get_field find_in_field find_in_items find_nested step_types create_step or_build build_step
    input_types constant_types check_target_field check_target_step validate_action_value_type
    validate_items or_none type_name new_step get_output_type filter keep lookup insert
    get_action_value_type
gated_plan = refl

gated_size : length gated_steps < 4
unfolding generate_mapping_plan validate_links validate_link source_count target_count field_types
    get_field find_in_field find_in_items find_nested step_types create_step or_build build_step
    input_types constant_types check_target_field check_target_step validate_action_value_type
    validate_items or_none type_name new_step get_output_type filter keep lookup insert
    get_action_value_type
gated_size = omega arith

all_inputs :
    execute_mapping blanks insertion_sort gated gated_steps 4 2 (extracted 4 3)
    ≡ Outcome.done (("total", number 7) ∷ [])
unfolding generate_mapping_plan validate_links validate_link source_count target_count field_types
    get_field find_in_field find_in_items find_nested step_types create_step or_build build_step
    input_types constant_types check_target_field check_target_step validate_action_value_type
    validate_items or_none type_name new_step get_output_type filter keep lookup insert
    get_action_value_type execute_source_links each_link source_links execute_link execute_target
    execute_step_link count_pending execute_field_link execute_step get_link_inputs result_values
    values values_of with_inputs write_each any_to_bool conclude execute is_value_of execute_mapping
    generate_target_raw set_target_field_value_with_index get_field_paths item_path
    get_path_to_field find_path first_with with_parents array_root set_under set_on_path
    add_value_to_target_field value_to_set is_action_value_type is_type apply_broadcasts
    broadcast_all get_target_raw_object assign_map_value assign_parts split onto_first
all_inputs = refl

-- The condition fails: the sum never runs, though b is there.
starved_sum :
    execute_mapping blanks insertion_sort gated gated_steps 4 2 (extracted 3 3) ≡ Outcome.done []
unfolding generate_mapping_plan validate_links validate_link source_count target_count field_types
    get_field find_in_field find_in_items find_nested step_types create_step or_build build_step
    input_types constant_types check_target_field check_target_step validate_action_value_type
    validate_items or_none type_name new_step get_output_type filter keep lookup insert
    get_action_value_type execute_source_links each_link source_links execute_link execute_target
    execute_step_link count_pending execute_field_link execute_step get_link_inputs result_values
    values values_of with_inputs write_each any_to_bool conclude execute is_value_of execute_mapping
    generate_target_raw set_target_field_value_with_index get_field_paths item_path
    get_path_to_field find_path first_with with_parents array_root set_under set_on_path
    add_value_to_target_field value_to_set is_action_value_type is_type apply_broadcasts
    broadcast_all get_target_raw_object assign_map_value assign_parts split onto_first
starved_sum = refl

execute_mapping-Stops_example :
    Outcome.Stops (execute_mapping blanks insertion_sort gated gated_steps 4 2 (extracted 4 3))
execute_mapping-Stops_example =
    execute_mapping-Stops actions blanks insertion_sort gated gated_steps (λ id. 0) 4 4 2
      (extracted 4 3) gated_plan gated_size top-IsLevel (λ id. omega arith)

execute_source_links-Ends_example :
    Outcome.Ends
      (λ s. (has_result s "add" ≡ true) ↔ (AllFed gated s "add" × (inputs_of "add" s ≢ [])))
      (execute_source_links write gated gated_steps 4 (extracted 4 3) no_values)
execute_source_links-Ends_example =
    execute_source_links-Ends write write-Stops actions gated gated_steps 4 4 (extracted 4 3)
      no_values "add" gated_plan gated_size refl

execute_source_links-starved_example :
    Outcome.Ends
      (λ s. (inputs_of "double" s ≢ []) ⊎ (has_result s "add" ≡ false))
      (execute_source_links write gated gated_steps 4 (extracted 3 3) no_values)
execute_source_links-starved_example =
    execute_source_links-starved write write-Stops actions gated gated_steps 4 4 (extracted 3 3)
      no_values between gated_plan gated_size (inr (inr (inl refl))) refl refl

generate_mapping_plan-Ordered_example :
    Ordered gated gated_steps
    × ((l : Link ℕ) → In l gated.links → IsLink l × HasSteps gated_steps l)
generate_mapping_plan-Ordered_example =
    generate_mapping_plan-Ordered actions gated 4 gated_steps gated_plan

abbrev rank : String → ℕ
rank id = if str_eq id "double" then 1 else (if str_eq id "add" then 2 else 0)

rank-IsRank : IsRank gated rank
rank-IsRank l i g t =
    All-In
      (λ (k : Link ℕ).
        is_given k.source.step_id ≡ true
        → is_given k.target.step_id ≡ true
        → rank k.source.step_id < rank k.target.step_id)
      gated.links
      (
        (λ g t. absurd (cc g)),
        (
          (λ g t. omega arith),
          ((λ g t. omega arith), ((λ g t. absurd (cc g)), ((λ g t. absurd (cc t)), tt))),
        ),
      )
      i g t

generate_mapping_plan-Stops_example : Outcome.Stops (generate_mapping_plan actions gated 4)
generate_mapping_plan-Stops_example =
    generate_mapping_plan-Stops actions gated rank 4 rank-IsRank (λ id. ground arith)
