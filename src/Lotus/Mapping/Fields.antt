-- ===== src/Lotus/Mapping/Fields.antt =====
-- lotus/pkg/fields/fields.go: the fields of a mapping and how one is found.
use meadow.Prelude.{Bool, true, false, not, String, Option, none, some, str_eq, if◌then◌else◌}
use meadow.Json.{Value}
use meadow.Lotus.Mapping.Types.{ValueType, ActionValueType, plain}

-- A field but its items and nested fields. `is_item` is set where the field is found, and not stored.
pub record FieldInfo (F : Type 0) : Type 0 where
  pub id : String
  pub path : String
  pub type : ValueType
  pub required : Bool
  pub default : Value F
  pub is_item : Bool

mutual
  pub data Field (F : Type 0) : Type 0 where
    field : FieldInfo F → FieldItems F → FieldList F → Field F

  -- `Items` and `Fields`
  pub data FieldItems (F : Type 0) : Type 0 where
    no_items : FieldItems F
    items : Field F → FieldItems F

  pub data FieldList (F : Type 0) : Type 0 where
    no_fields : FieldList F
    and_field : Field F → FieldList F → FieldList F

module _ {F : Type 0} where
  abbrev pub info : Field F → FieldInfo F
  info (field i its fs) = i

  abbrev pub get_type : Field F → ActionValueType
  get_type (field i no_items fs) = plain i.type
  get_type (field i (items f) fs) = record { type = i.type; items = (info f).type }

  abbrev pub as_item : Field F → Field F
  as_item (field i its fs) = field (record i { is_item = true }) its fs

  -- `child.ID != ""`
  abbrev pub is_named : Option (Field F) → Bool
  is_named none = false
  is_named (some f) = not (str_eq (info f).id "")

  abbrev pub marked : Option (Field F) → Option (Field F)
  marked none = none
  marked (some f) = some (as_item f)

  -- The first that was found, and looks no further.
  abbrev pub or_else : Option (Field F) → Option (Field F) → Option (Field F)
  or_else none later = later
  or_else (some f) later = some f

  abbrev pub if_named : Option (Field F) → Option (Field F)
  if_named found = if is_named found then found else none

-- `Field.GetField`, its search in the items, and its search in the nested fields.
unfoldable mutual
  pub find_in_field : {F : Type 0} → String → Field F → Option (Field F)
  find_in_field id (field i its fs) =
      let in_items = find_in_items id its in
      let nested = find_nested id fs in
      if str_eq i.id id then some (field i its fs) else or_else in_items nested

  pub find_in_items : {F : Type 0} → String → FieldItems F → Option (Field F)
  find_in_items id no_items = none
  find_in_items id (items f) =
      let child = find_in_field id f in
      if str_eq (info f).id id then some (as_item f) else marked (if_named child)

  pub find_nested : {F : Type 0} → String → FieldList F → Option (Field F)
  find_nested id no_fields = none
  find_nested id (and_field f fs) =
      let child = find_in_field id f in
      let rest = find_nested id fs in or_else (if_named child) rest

module _ {F : Type 0} where
  -- `Fields.GetField`; `none` is its error.
  unfoldable pub get_field : FieldList F → String → Option (Field F)
  get_field no_fields id = none
  get_field (and_field f fs) id = or_else (find_in_field id f) (get_field fs id)
