-- ===== src/Lotus/Mapping/Target.antt =====
-- lotus/pkg/mapping/mapping.go: the values of the target fields and how one is set.
pub mod Items
pub mod Element
use meadow.Prelude.{
  ℕ, zero, suc, ◌==◌, Bool, true, false, not, ◌&&◌, ◌||◌, String, Option, none, some, List, [], ◌∷◌,
  ◌++◌, str_eq, if◌then◌else◌, ◌>>=◌, Map, lookup, insert,
}
use meadow.Json.{Value, null, bool, number, text, array, object, nil, end}
use meadow.Lotus.Mapping.Types.{
  ValueType, string_type, number_type, bool_type, array_type, object_type, date_type, any_type,
  other, ActionValueType, is_action_value_type,
}
use meadow.Lotus.Mapping.Fields.{Field, FieldList, info, get_type, get_field}
use meadow.Lotus.Mapping.Paths.{PathToField}

-- What is not in the source: ectolinq's IsEmpty, and of Go the number 0.0 and the time `time.Time{}`, as
-- values.
pub record Blanks (F : Type 0) : Type 0 where
  pub is_empty : Value F → Bool
  pub no_number : F
  pub no_time : Value F

-- A `TargetFieldValue` but its items and fields.
pub record TargetInfo (F : Type 0) : Type 0 where
  pub field_id : String
  pub index : ℕ
  pub value : Value F

mutual
  pub data TargetFieldValue (F : Type 0) : Type 0 where
    target : TargetInfo F → TargetFieldValues F → TargetFieldValues F → TargetFieldValue F

  pub data TargetFieldValues (F : Type 0) : Type 0 where
    no_targets : TargetFieldValues F
    and_target : TargetFieldValue F → TargetFieldValues F → TargetFieldValues F

module _ {F : Type 0} where
  abbrev pub info_of : TargetFieldValue F → TargetInfo F
  info_of (target i its fs) = i

  -- A value that is not set yet.
  abbrev pub blank : String → ℕ → TargetFieldValue F
  blank field_id index =
      target (record { field_id = field_id; index = index; value = null }) no_targets no_targets

  abbrev pub with_value : Value F → TargetFieldValue F → TargetFieldValue F
  with_value v (target i its fs) = target (record i { value = v }) its fs

  unfoldable pub default_of : Blanks F → ValueType → Value F
  default_of blanks string_type = text ""
  default_of blanks number_type = number blanks.no_number
  default_of blanks bool_type = bool false
  default_of blanks array_type = array nil
  default_of blanks object_type = object end
  default_of blanks date_type = blanks.no_time
  default_of blanks any_type = null
  default_of blanks (other name) = null

  unfoldable pub get_default : Blanks F → ActionValueType → Value F
  get_default blanks t = default_of blanks t.type

  -- The value that is set: the given one, or where that is empty a default; none is the error of a field that
  -- is required.
  unfoldable pub value_to_set : Blanks F → Field F → Value F → Option (Value F)
  value_to_set blanks f v =
      if blanks.is_empty v
      then (if (info f).required
          then none
          else some (
              if blanks.is_empty (info f).default
              then get_default blanks (get_type f)
              else (info f).default))
      else some v

  unfoldable pub add_value_to_target_field :
      Blanks F → FieldList F → Value F → TargetFieldValue F → Option (TargetFieldValue F)
  add_value_to_target_field blanks fields v t = get_field fields (info_of t).field_id >>= λ f.
      value_to_set blanks f v >>= λ set.
      if is_action_value_type set (get_type f) then some (with_value set t) else none

  -- What is done to the first of the values that has the key, or else to a new one at the end.
  unfoldable pub upsert :
      (TargetInfo F → Bool)
      → TargetFieldValue F
      → (TargetFieldValue F → Option (TargetFieldValue F))
      → TargetFieldValues F
      → Option (TargetFieldValues F)
  upsert has_key fresh change no_targets = change fresh >>= λ t. some (and_target t no_targets)
  upsert has_key fresh change (and_target t ts) =
      let rest = upsert has_key fresh change ts in
      if has_key (info_of t)
      then (change t >>= λ changed. some (and_target changed ts))
      else (rest >>= λ others. some (and_target t others))

  abbrev pub is_item_at : String → ℕ → TargetInfo F → Bool
  is_item_at field_id index i = str_eq i.field_id field_id && (i.index == index)

  abbrev pub is_field_of : String → TargetInfo F → Bool
  is_field_of field_id i = str_eq i.field_id field_id

  unfoldable pub append_target : TargetFieldValue F → TargetFieldValues F → TargetFieldValues F
  append_target t no_targets = and_target t no_targets
  append_target t (and_target u ts) = and_target u (append_target t ts)

  abbrev pub change_items :
      (TargetFieldValues F → Option (TargetFieldValues F))
      → TargetFieldValue F
      → Option (TargetFieldValue F)
  change_items change (target i its fs) = change its >>= λ changed. some (target i changed fs)

  abbrev pub change_fields :
      (TargetFieldValues F → Option (TargetFieldValues F))
      → TargetFieldValue F
      → Option (TargetFieldValue F)
  change_fields change (target i its fs) = change fs >>= λ changed. some (target i its changed)

  -- An array item needs an index.
  unfoldable pub in_item :
      PathToField
      → Option ℕ
      → (TargetFieldValue F → Option (TargetFieldValue F))
      → TargetFieldValue F
      → Option (TargetFieldValue F)
  in_item next none change parent = none
  in_item next (some index) change parent =
      change_items (upsert (is_item_at next.field_id index) (blank next.field_id index) change)
        parent

  unfoldable pub in_field :
      PathToField
      → (TargetFieldValue F → Option (TargetFieldValue F))
      → TargetFieldValue F
      → Option (TargetFieldValue F)
  in_field next change parent =
      change_fields (upsert (is_field_of next.field_id) (blank next.field_id 0) change) parent

module _ {F : Type 0} (blanks : Blanks F) (fields : FieldList F) where
  -- The last part of a path: the leaf that is there is replaced by a new one.
  unfoldable pub set_leaf :
      PathToField → Value F → Option ℕ → TargetFieldValue F → Option (TargetFieldValue F)
  set_leaf next v index parent =
      if next.is_item
      then in_item next index
          (λ t. add_value_to_target_field blanks fields v (blank next.field_id (info_of t).index))
          parent
      else (if next.is_field
          then in_field next
              (λ t. add_value_to_target_field blanks fields v (blank next.field_id 0)) parent
          else (add_value_to_target_field blanks fields v (blank next.field_id 0) >>= λ leaf.
              change_fields (λ fs. some (append_target leaf fs)) parent))

  -- `setChildTargetFieldValueWithIndex`; the path is not empty.
  unfoldable pub set_child_target_field_value_with_index :
      List PathToField → Value F → Option ℕ → TargetFieldValue F → Option (TargetFieldValue F)
  set_child_target_field_value_with_index [] v index parent = some parent
  set_child_target_field_value_with_index (next ∷ []) v index parent = set_leaf next v index parent
  set_child_target_field_value_with_index (next ∷ second ∷ path) v index parent =
      let change = set_child_target_field_value_with_index (second ∷ path) v index in
      (if next.is_item then in_item next index change parent else some parent) >>= λ changed.
      if next.is_field then in_field next change changed else some changed
