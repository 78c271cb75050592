-- ===== src/Lotus/Mapping/Output.antt =====
-- lotus/pkg/mapping/mapping.go and lotus/pkg/utils/assign_map_value.go: the document that the target fields of
-- a mapping make up.
use meadow.Prelude.{
  ℕ, Bool, String, Option, none, some, List, [], ◌∷◌, map, str_eq, ltb, if◌then◌else◌, Map, lookup,
  insert,
}
use meadow.Prelude.Sorting.{SortSlice}
use meadow.Json.{Value, object, array, Items, nil, cons, entries, of_entries}
use meadow.Ivy.Criteria.Paths.{split}
use meadow.Lotus.Mapping.Fields.{Field, FieldList, info, get_field}
use meadow.Lotus.Mapping.Target.{
  TargetFieldValue, TargetFieldValues, target, no_targets, and_target,
}

module _ {F : Type 0} where
  -- The map that stands under the key, or a new one.
  abbrev pub or_new_map : Option (Value F) → Map (Value F)
  or_new_map (some (object fs)) = entries fs
  or_new_map _ = []

  -- `AssignMapValue` on the parts of the path. Parts that join to the empty path assign nothing.
  unfoldable pub assign_parts : Map (Value F) → List String → Value F → Map (Value F)
  assign_parts m [] v = m
  assign_parts m (key ∷ []) v = if str_eq key "" then m else insert key v m
  assign_parts m (key ∷ next ∷ path) v =
      insert key (object (of_entries (assign_parts (or_new_map (lookup key m)) (next ∷ path) v))) m

  unfoldable pub assign_map_value : Map (Value F) → String → Value F → Map (Value F)
  assign_map_value m path v = assign_parts m (split path) v

  abbrev pub path_of : String → Option (Field F) → String
  path_of field_id none = field_id
  path_of field_id (some f) = if str_eq (info f).path "" then field_id else (info f).path

  abbrev pub to_items : List (Value F) → Items F
  to_items [] = nil
  to_items (v ∷ vs) = cons v (to_items vs)

  abbrev pub by_index : ℕ × Value F → ℕ × Value F → Bool
  by_index a b = ltb a.0 b.0

  abbrev pub second : ℕ × Value F → Value F
  second p = p.1

  -- A value with fields is an object, one with items an array, any other its own.
  abbrev pub choose_raw :
      TargetFieldValues F → TargetFieldValues F → Value F → Value F → Value F → Value F
  choose_raw its (and_target f fs) of_fields of_items own = of_fields
  choose_raw (and_target i is) no_targets of_fields of_items own = of_items
  choose_raw no_targets no_targets of_fields of_items own = own

-- `getTargetRawObject` and `getTargetRawArrays`. The items are put in order after they are turned into
-- values and not before, which is no difference; the sort is stable.
unfoldable mutual
  pub raw_value :
      {F : Type 0} → SortSlice (ℕ × Value F) → FieldList F → TargetFieldValue F → Value F
  raw_value sort schema (target i its fs) =
      choose_raw its fs (object (of_entries (get_target_raw_object sort schema [] fs)))
        (array (to_items (map second (sort by_index (get_target_raw_arrays sort schema its)))))
        i.value

  pub get_target_raw_arrays :
      {F : Type 0}
      → SortSlice (ℕ × Value F)
      → FieldList F
      → TargetFieldValues F
      → List (ℕ × Value F)
  get_target_raw_arrays sort schema no_targets = []
  get_target_raw_arrays sort schema (and_target t ts) =
      (index_of t, raw_value sort schema t) ∷ get_target_raw_arrays sort schema ts

  pub get_target_raw_object :
      {F : Type 0}
      → SortSlice (ℕ × Value F)
      → FieldList F
      → Map (Value F)
      → TargetFieldValues F
      → Map (Value F)
  get_target_raw_object sort schema m no_targets = m
  get_target_raw_object sort schema m (and_target t ts) =
      get_target_raw_object sort schema
        (assign_map_value m (path_of (id_of t) (get_field schema (id_of t)))
          (raw_value sort schema t))
        ts

  pub index_of : {F : Type 0} → TargetFieldValue F → ℕ
  index_of (target i its fs) = i.index

  pub id_of : {F : Type 0} → TargetFieldValue F → String
  id_of (target i its fs) = i.field_id
