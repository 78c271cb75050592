-- ===== src/Tests/Target.antt =====
-- Tests of the model of the target fields of lotus/pkg/mapping.
use meadow.Prelude.{ℕ, ◌≡◌, String, false, Option, some, [], ◌∷◌, refl, Ensures}
use meadow.Json.{null, number}
use meadow.Tests.Base.{list_linq}
use meadow.Lotus.Mapping.Linq.{first_with}
use meadow.Lotus.Mapping.Fields.{FieldInfo, field, no_items, items, FieldList, no_fields, and_field}
use meadow.Lotus.Mapping.Paths.{
  item_path, at_item, get_path_to_field, get_field_paths, with_parents, find_path, below,
}
use meadow.Lotus.Mapping.Types.{ValueType, array_type, object_type}
use meadow.Lotus.Mapping.Outcome.{out_of_fuel}
use meadow.Lotus.Mapping.Target.{
  TargetFieldValue, target, no_targets, and_target, set_child_target_field_value_with_index,
}
use meadow.Lotus.Mapping.Target.Items.{Untouched, Changed, items_of}
use meadow.Lotus.Mapping.Target.Element.{write_element, set_child-Changed}
use meadow.Tests.Mapping.{test_field, blanks}

-- An array of numbers with one element.
abbrev tags : TargetFieldValue ℕ
tags =
    target (record { field_id = "tags"; index = 0; value = null })
      (and_target
        (target (record { field_id = "tag"; index = 0; value = number 1 }) no_targets no_targets)
        no_targets)
      no_targets

abbrev tag_fields : FieldList ℕ
tag_fields = and_field (test_field "tag") no_fields

abbrev write_tag : ℕ → Option (TargetFieldValue ℕ)
write_tag index =
    set_child_target_field_value_with_index blanks tag_fields (at_item "tags" "tag" ∷ []) (number 7)
      (some index) tags

set_child-Changed_example :
    Ensures
      (λ after.
        Changed
          (write_element blanks tag_fields (at_item "tags" "tag") [] (number 7) 1)
          "tag"
          1
          (items_of tags)
          (items_of after)
        × Untouched tags "tag" 0 after)
      (write_tag 1)
set_child-Changed_example =
    set_child-Changed blanks tag_fields (at_item "tags" "tag") [] (number 7) 1 "tag" 0 tags refl
      refl refl

-- An array x, whose items have a field x of their own.
abbrev info_for : String → ValueType → FieldInfo ℕ
info_for id type = record {
  id = id;
  path = id;
  type = type;
  required = false;
  default = null;
  is_item = false;
}

abbrev twice : FieldList ℕ
twice =
    and_field
      (field (info_for "x" array_type)
        (items (field (info_for "i" object_type) no_items (and_field (test_field "x") no_fields)))
        no_fields)
      no_fields

-- The path of x leads to the item, and that of the item to x.
endless_path : get_path_to_field 30 (get_field_paths twice) "x" ≡ out_of_fuel
unfolding get_path_to_field get_field_paths item_path with_parents find_path first_with below
endless_path = refl
