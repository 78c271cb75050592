-- ===== src/Lotus/Mapping/Plan.antt =====
-- lotus/pkg/mapping/validate.go and Compile of lotus/pkg/mapping/mapping.go.
pub mod Order
pub mod Valid
pub mod Cycles
use meadow.Prelude.{
  ℕ, zero, suc, ◌+◌, ◌==◌, Bool, true, false, not, ◌&&◌, ◌||◌, String, Option, none, some, List, [],
  ◌∷◌, ◌++◌, str_eq, if◌then◌else◌, Map, lookup, insert,
}
use meadow.Json.{Value}
use meadow.Lotus.Mapping.Outcome.{Outcome, done, failed, out_of_fuel, ◌>>=◌, or_failed}
use meadow.Lotus.Mapping.Types.{
  ActionValueType, unset, plain, validate_action_value_type, get_action_value_type,
}
use meadow.Lotus.Mapping.Fields.{Field, FieldList, get_type, get_field}
use meadow.Lotus.Mapping.Linq.{Linq}
use meadow.Lotus.Mapping.Links.{LinkDirection, Link, is_given, is_constant, filter}
use meadow.Lotus.Mapping.Steps.{StepDefinition, Registry, Step, new_step, get_output_type}

pub record MappingDefinition (F : Type 0) : Type 0 where
  pub source_fields : FieldList F
  pub target_fields : FieldList F
  pub step_definitions : Map (StepDefinition F)
  pub links : List (Link F)

module _ {F : Type 0} where
  unfoldable pub constant_types : Option (Value F) → List ActionValueType
  constant_types none = []
  constant_types (some v) = get_action_value_type v ∷ []

  abbrev pub constant_values : Option (Value F) → List (Value F)
  constant_values none = []
  constant_values (some v) = v ∷ []

-- `m.Steps`, which the plan fills.
abbrev pub Compiled : Type 0 → Type 0
Compiled F = Map (Step F)

abbrev pub count : Bool → ℕ
count true = 1
count false = 0

-- The three assignments to `fromType`, of which the last one counts.
abbrev pub last_type : List ActionValueType → ActionValueType
last_type [] = plain unset
last_type (t ∷ []) = t
last_type (t ∷ u ∷ ts) = last_type (u ∷ ts)

module _ {F : Type 0} where
  abbrev pub is_empty : List (Link F) → Bool
  is_empty [] = true
  is_empty _ = false

  unfoldable pub source_count : LinkDirection F → ℕ
  source_count s =
      count (is_given s.field_id) + count (is_given s.step_id) + count (is_constant s.constant)

  unfoldable pub target_count : LinkDirection F → ℕ
  target_count t = count (is_given t.field_id) + count (is_given t.step_id)

  unfoldable pub step_types :
      (String → Compiled F → Outcome (Step F × Compiled F))
      → LinkDirection F
      → Compiled F
      → Outcome (List ActionValueType × Compiled F)
  step_types create source steps =
      if is_given source.step_id
      then (create source.step_id steps >>= λ (s, after). done (get_output_type s ∷ [], after))
      else done ([], steps)

module _ {F : Type 0} (m : MappingDefinition F) where
  -- What a link's source gives to a step. `create` is the recursive call.
  unfoldable pub field_types : LinkDirection F → Outcome (List ActionValueType)
  field_types source =
      if is_given source.field_id
      then (or_failed (get_field m.source_fields source.field_id) >>= λ f. done (get_type f ∷ []))
      else done []

  unfoldable pub input_types :
      (String → Compiled F → Outcome (Step F × Compiled F))
      → List (Link F)
      → Compiled F
      → Outcome (List ActionValueType × Compiled F)
  input_types create [] steps = done ([], steps)
  input_types create (l ∷ links) steps = field_types l.source >>= λ fs.
      step_types create l.source steps >>= λ (ss, after).
      input_types create links after >>= λ (ts, end).
      done (fs ++ (ss ++ (constant_types l.source.constant ++ ts)), end)

  unfoldable pub check_target_field : ActionValueType → LinkDirection F → Outcome Unit
  check_target_field from target =
      if is_given target.field_id
      then (or_failed (get_field m.target_fields target.field_id) >>= λ f.
          if validate_action_value_type from (get_type f) then done tt else failed)
      else done tt

module _ {F : Type 0} ⦃linq : Linq⦄ (m : MappingDefinition F) where
  abbrev pub parent_links : String → List (Link F)
  parent_links step_id = filter (λ l. str_eq l.target.step_id step_id) m.links

  -- The links that `Compile` puts into `sourceLinks`.
  unfoldable pub source_links : List (Link F)
  source_links = filter (λ l. is_given l.source.field_id || is_constant l.source.constant) m.links

module _ {F : Type 0} ⦃linq : Linq⦄ (get_action : Registry F) (m : MappingDefinition F) where
  -- A step that has a definition and is not yet compiled.
  unfoldable pub build_step :
      (String → Compiled F → Outcome (Step F × Compiled F))
      → String
      → StepDefinition F
      → Compiled F
      → Outcome (Step F × Compiled F)
  build_step create step_id definition steps =
      if is_empty (parent_links m step_id)
      then failed
      else (input_types m create (parent_links m step_id) steps >>= λ (types, after).
          or_failed (new_step get_action definition types) >>= λ s.
          done (s, insert step_id s after))

  unfoldable pub or_build :
      (String → Compiled F → Outcome (Step F × Compiled F))
      → String
      → StepDefinition F
      → Compiled F
      → Option (Step F)
      → Outcome (Step F × Compiled F)
  or_build create step_id definition steps (some s) = done (s, steps)
  or_build create step_id definition steps none = build_step create step_id definition steps

  -- The fuel is the depth of the recursion.
  unfoldable pub create_step : ℕ → String → Compiled F → Outcome (Step F × Compiled F)
  create_step zero step_id steps = out_of_fuel
  create_step (suc fuel) step_id steps =
      or_failed (lookup step_id m.step_definitions) >>= λ definition.
      or_build (create_step fuel) step_id definition steps (lookup step_id steps)

  unfoldable pub check_target_step : ℕ → LinkDirection F → Compiled F → Outcome (Compiled F)
  check_target_step fuel target steps =
      if is_given target.step_id
      then (create_step fuel target.step_id steps >>= λ (s, after). done after)
      else done steps

  unfoldable pub validate_link : ℕ → Link F → Compiled F → Outcome (Compiled F)
  validate_link fuel l steps =
      if not (source_count l.source == 1) || not (target_count l.target == 1)
      then failed
      else (field_types m l.source >>= λ fs.
          step_types (create_step fuel) l.source steps >>= λ (ss, after).
          check_target_field m (last_type (fs ++ (ss ++ constant_types l.source.constant))) l.target
          >>= λ _. check_target_step fuel l.target after)

  unfoldable pub validate_links : ℕ → List (Link F) → Compiled F → Outcome (Compiled F)
  validate_links fuel [] steps = done steps
  validate_links fuel (l ∷ links) steps =
      validate_link fuel l steps >>= λ after. validate_links fuel links after

  unfoldable pub generate_mapping_plan : ℕ → Outcome (Compiled F)
  generate_mapping_plan fuel = validate_links fuel m.links []
