-- ===== src/Lotus/Mapping/Paths.antt =====
-- The paths of lotus/pkg/fields/fields.go: how a field is reached from the top, `GetFieldPaths` and
-- `GetPathToField`.
use meadow.Prelude.{
  ℕ, zero, suc, Bool, true, false, String, Option, none, some, List, [], ◌∷◌, ◌++◌, str_eq,
  if◌then◌else◌,
}
use meadow.Lotus.Mapping.Outcome.{Outcome, done, failed, out_of_fuel, ◌>>=◌}
use meadow.Lotus.Mapping.Linq.{Linq}
use meadow.Lotus.Mapping.Fields.{
  Field, FieldItems, FieldList, field, no_items, items, no_fields, and_field,
}

pub record PathToField : Type 0 where
  pub parent_id : String
  pub field_id : String
  pub is_item : Bool
  pub is_field : Bool

-- A path of the fields below `parent`.
unfoldable pub below : String → PathToField → PathToField
below parent p = record {
  parent_id = if str_eq p.parent_id "" then parent else p.parent_id;
  field_id = p.field_id;
  is_item = p.is_item;
  is_field = if p.is_item then p.is_field else true;
}

abbrev pub at_top : String → PathToField
at_top id = record { parent_id = ""; field_id = id; is_item = false; is_field = false }

abbrev pub at_item : String → String → PathToField
at_item parent id = record { parent_id = parent; field_id = id; is_item = true; is_field = false }

unfoldable pub item_path : {F : Type 0} → String → FieldItems F → List PathToField
item_path parent no_items = []
item_path parent (items (field i its fs)) = at_item parent i.id ∷ []

-- `GetFieldPaths`, its body for one field, and what that does with the field's items: the paths of the
-- fields of an item. The items of items have none.
unfoldable mutual
  pub get_field_paths : {F : Type 0} ⦃linq : Linq⦄ → FieldList F → List PathToField
  get_field_paths no_fields = []
  get_field_paths (and_field f fs) = paths_of f ++ get_field_paths fs

  pub paths_of : {F : Type 0} ⦃linq : Linq⦄ → Field F → List PathToField
  paths_of ⦃linq⦄ (field i its fs) =
      paths_of_items its
      ++ ((at_top i.id ∷ item_path i.id its) ++ linq.map_each (below i.id) (get_field_paths fs))

  pub paths_of_items : {F : Type 0} ⦃linq : Linq⦄ → FieldItems F → List PathToField
  paths_of_items no_items = []
  paths_of_items (items f) = paths_of_item f

  pub paths_of_item : {F : Type 0} ⦃linq : Linq⦄ → Field F → List PathToField
  paths_of_item ⦃linq⦄ (field i its fs) = linq.map_each (below i.id) (get_field_paths fs)

unfoldable pub find_path : ⦃linq : Linq⦄ → String → List PathToField → Option PathToField
find_path ⦃linq⦄ id paths = linq.find (λ p. str_eq p.field_id id) paths

abbrev pub ending : PathToField → List PathToField → List PathToField
ending p parents = parents ++ p ∷ []

unfoldable pub with_parents :
    (String → Outcome (List PathToField)) → Option PathToField → Outcome (List PathToField)
with_parents get none = failed
with_parents get (some p) =
    if str_eq p.parent_id ""
    then done (p ∷ [])
    else (get p.parent_id >>= λ parents. done (ending p parents))

-- `GetPathToField`. The fuel is the length of the path.
unfoldable pub get_path_to_field :
    ⦃linq : Linq⦄ → ℕ → List PathToField → String → Outcome (List PathToField)
get_path_to_field zero paths id = out_of_fuel
get_path_to_field (suc fuel) paths id =
    with_parents (get_path_to_field fuel paths) (find_path id paths)
