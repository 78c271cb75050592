-- ===== src/Lotus/Mapping/Types.antt =====
-- lotus/pkg/models/value_type.go: the types of values. Values are those of JSON: an action that gives a
-- `time.Time` is outside the model, so that nothing is of type date.
use meadow.Prelude.{Bool, true, false, not, ◌||◌, String, List, [], ◌∷◌, str_eq, if◌then◌else◌}
use meadow.Json.{Value, null, bool, number, text, array, object, nil, cons, elements}

-- A Go string: `other` is any that the package does not name, the empty one among them.
pub data ValueType : Type 0 where
  string_type number_type bool_type array_type object_type date_type any_type : ValueType
  other : String → ValueType

unfoldable pub type_name : ValueType → String
type_name string_type = "string"
type_name number_type = "number"
type_name bool_type = "bool"
type_name array_type = "array"
type_name object_type = "object"
type_name date_type = "date"
type_name any_type = "any"
type_name (other name) = name

abbrev pub same_type : ValueType → ValueType → Bool
same_type a b = str_eq (type_name a) (type_name b)

abbrev pub unset : ValueType
unset = other ""

pub record ActionValueType : Type 0 where
  pub type : ValueType
  pub items : ValueType

abbrev pub plain : ValueType → ActionValueType
plain t = record { type = t; items = unset }

unfoldable pub or_none : ValueType → ValueType
or_none t = if same_type t unset then other "none" else t

unfoldable pub validate_items : ValueType → ValueType → Bool
validate_items actual expected =
    if same_type expected any_type || (same_type expected unset || same_type actual any_type)
    then true
    else same_type actual expected

-- `true` is no error.
unfoldable pub validate_action_value_type : ActionValueType → ActionValueType → Bool
validate_action_value_type actual expected =
    let actual_type = or_none actual.type in
    if same_type expected.type unset
      || (same_type expected.type any_type || same_type actual_type any_type)
    then true
    else (if not (same_type actual_type expected.type)
        then false
        else (if same_type expected.type array_type
            then validate_items actual.items expected.items
            else true))

module _ {F : Type 0} where
  unfoldable pub is_type : Value F → ValueType → Bool
  is_type v any_type = true
  is_type (text s) string_type = true
  is_type (number n) number_type = true
  is_type (bool b) bool_type = true
  is_type (array items) array_type = true
  is_type (object fields) object_type = true
  is_type _ _ = false

  unfoldable pub all_type : List (Value F) → ValueType → Bool
  all_type [] t = true
  all_type (v ∷ vs) t = if is_type v t then all_type vs t else false

  unfoldable pub items_match : Value F → ActionValueType → Bool
  items_match (array items) expected =
      if same_type expected.items unset || same_type expected.items any_type
      then true
      else all_type (elements items) expected.items
  items_match _ expected = false

  unfoldable pub is_value_of : Value F → ActionValueType → Bool
  is_value_of v expected =
      if same_type expected.type array_type then items_match v expected else is_type v expected.type

  -- A nil is of every type.
  unfoldable pub is_action_value_type : Value F → ActionValueType → Bool
  is_action_value_type null expected = true
  is_action_value_type v expected = is_value_of v expected

  unfoldable pub get_action_value_type : Value F → ActionValueType
  get_action_value_type (text s) = plain string_type
  get_action_value_type (number n) = plain number_type
  get_action_value_type (bool b) = plain bool_type
  get_action_value_type (array nil) = record { type = array_type; items = any_type }
  get_action_value_type (array (cons v vs)) = record {
    type = array_type;
    items = (get_action_value_type v).type;
  }
  get_action_value_type (object fields) = plain object_type
  get_action_value_type null = plain any_type
