-- ===== src/Lotus/Mapping/Steps.antt =====
-- lotus/pkg/steps/steps.go. The registry of actions is an interface: what it gives for a key, arguments and
-- input types.
pub mod Typed
use meadow.Prelude.{
  Bool, true, false, not, String, Option, none, some, List, [], ◌∷◌, str_eq, if◌then◌else◌, ◌>>=◌,
}
use meadow.Json.{Value, null, bool}
use meadow.Lotus.Mapping.Types.{ValueType, bool_type, any_type, same_type, ActionValueType, plain}

-- `other_step` is any type that the package does not name; it is treated as a transformer.
pub data StepType : Type 0 where
  validator transformer condition : StepType
  other_step : String → StepType

pub record ActionDefinition (F : Type 0) : Type 0 where
  pub key : String
  pub arguments : Value F
  pub invert : Bool

pub record StepDefinition (F : Type 0) : Type 0 where
  pub id : String
  pub type : StepType
  pub action : ActionDefinition F

-- `none` is an error of the action.
pub record Action (F : Type 0) : Type 0 where
  pub output_type : ActionValueType
  pub execute : List (Value F) → Option (Value F)

abbrev pub Registry : Type 0 → Type 0
Registry F = String → Value F → List ActionValueType → Option (Action F)

pub record Step (F : Type 0) : Type 0 where
  pub expected_input_types : List ActionValueType
  pub output_type : ActionValueType
  pub definition : StepDefinition F
  pub action : Action F

-- An output that is nil is `null`; `is_failed` says that `Err` is set.
pub record StepOutput (F : Type 0) : Type 0 where
  pub output : Value F
  pub breaks : Bool
  pub inputs : List (Value F)
  pub is_failed : Bool

abbrev pub passes_input : StepType → Bool
passes_input validator = true
passes_input condition = true
passes_input _ = false

abbrev pub first_type : List ActionValueType → ActionValueType
first_type [] = plain any_type
first_type (t ∷ ts) = t

abbrev pub inverted : Bool → Bool → Bool
inverted invert passed = if invert then not passed else passed

module _ {F : Type 0} where
  unfoldable pub new_step : Registry F → StepDefinition F → List ActionValueType → Option (Step F)
  new_step get_action definition input_types =
      get_action definition.action.key definition.action.arguments input_types >>= λ action.
      if passes_input definition.type
      then (if same_type action.output_type.type bool_type
          then some (record {
            expected_input_types = input_types;
            output_type = action.output_type;
            definition = definition;
            action = action;
          })
          else none)
      else some (record {
        expected_input_types = input_types;
        output_type = action.output_type;
        definition = definition;
        action = action;
      })

  unfoldable pub get_output_type : Step F → ActionValueType
  get_output_type s =
      if passes_input s.definition.type then first_type s.expected_input_types else s.output_type

  -- `utils.AnyToType[bool]`
  unfoldable pub any_to_bool : Value F → Option Bool
  any_to_bool null = some false
  any_to_bool (bool b) = some b
  any_to_bool _ = none

  -- The three cases of `Execute`. A validation that fails sets `Err`, but the error that is returned is the
  -- `err` of the conversion, which is nil.
  unfoldable pub conclude :
      StepType → Bool → Value F → List (Value F) → Value F → Option (StepOutput F)
  conclude validator invert first inputs result = any_to_bool result >>= λ raw. some (
      if inverted invert raw
      then record { output = first; breaks = false; inputs = inputs; is_failed = false }
      else record { output = null; breaks = false; inputs = inputs; is_failed = true })
  conclude condition invert first inputs result = any_to_bool result >>= λ raw. some (
      if inverted invert raw
      then record { output = first; breaks = false; inputs = inputs; is_failed = false }
      else record { output = null; breaks = true; inputs = inputs; is_failed = false })
  conclude _ invert first inputs result =
      some (record { output = result; breaks = false; inputs = inputs; is_failed = false })

  unfoldable pub execute : Step F → List (Value F) → Option (StepOutput F)
  execute s [] = some (record { output = null; breaks = false; inputs = []; is_failed = false })
  execute s (v ∷ inputs) = s.action.execute (v ∷ inputs) >>= λ result.
      conclude s.definition.type s.definition.action.invert v (v ∷ inputs) result
