-- ===== src/Ivy/Criteria/Defs.antt =====
-- The conditions of ivy/pkg/criteria/criteria.go and their evaluation.
use meadow.Prelude.{
  Bool, true, false, not, ◌&&◌, ◌||◌, String, Option, none, some, List, [], ◌∷◌, ◌++◌, str_eq,
  if◌then◌else◌, Map, insert,
}
use meadow.Json.{
  Value, null, bool, number, text, array, object, Fields, entries, elements, FloatOps, Float64,
  real, deep_equal,
}
use meadow.Ivy.Criteria.Paths.{split, get_nested}

-- The operators, by their JSON spelling.
abbrev pub op_equals : String
op_equals = ""

abbrev pub op_contains : String
op_contains = "$contains"

abbrev pub op_in : String
op_in = "$in"

abbrev pub op_gte : String
op_gte = "$gte"

abbrev pub op_gt : String
op_gt = "$gt"

abbrev pub op_lte : String
op_lte = "$lte"

abbrev pub op_lt : String
op_lt = "$lt"

abbrev pub op_exists : String
op_exists = "$exists"

abbrev pub op_ne : String
op_ne = "$ne"

pub record Condition (F : Type 0) : Type 0 where
  pub field : String
  pub operator : String
  pub value : Value F

-- `==` on Booleans.
abbrev pub bool_same : Bool → Bool → Bool
bool_same true b = b
bool_same false b = not b

module _ {F : Type 0} where
  -- The inner loop of `ParseCriteria` and `SplitCriteria` over `{"$op": value}`.
  unfoldable pub operator_conditions : String → Map (Value F) → List (Condition F)
  operator_conditions field [] = []
  operator_conditions field ((op, v) ∷ ops) =
      record { field = field; operator = op; value = v } ∷ operator_conditions field ops

  -- The conditions of one entry of the criteria.
  unfoldable pub entry_conditions : String → Value F → List (Condition F)
  unfolding operator_conditions
  entry_conditions field (object ops) = operator_conditions field (entries ops)
  entry_conditions field value = record { field = field; operator = op_equals; value = value } ∷ []

  -- `ParseCriteria`; the entries come in the order in which Go's loop meets them.
  unfoldable pub parse_criteria : Map (Value F) → List (Condition F)
  parse_criteria [] = []
  parse_criteria ((field, value) ∷ criteria) =
      entry_conditions field value ++ parse_criteria criteria

  -- One round of the loop of `SplitCriteria`, and the loop.
  unfoldable pub split_entry :
      String → Value F → Map (Value F) × List (Condition F) → Map (Value F) × List (Condition F)
  unfolding operator_conditions
  split_entry field (object ops) (simple, complex) =
      (simple, complex ++ operator_conditions field (entries ops))
  split_entry field value (simple, complex) = (insert field value simple, complex)

  unfoldable pub split_from :
      Map (Value F) × List (Condition F) → Map (Value F) → Map (Value F) × List (Condition F)
  split_from done [] = done
  split_from done ((field, value) ∷ criteria) = split_from (split_entry field value done) criteria

  unfoldable pub split_criteria : Map (Value F) → Map (Value F) × List (Condition F)
  split_criteria criteria = split_from ([], []) criteria

  -- `toSlice`; the other slice types do not come out of JSON.
  unfoldable pub to_slice : Value F → Option (List (Value F))
  to_slice (array items) = some (elements items)
  to_slice _ = none

  abbrev pub is_null : Value F → Bool
  is_null null = true
  is_null _ = false

  abbrev pub is_some : Option (Value F) → Bool
  is_some none = false
  is_some (some _) = true

  -- The case of `$exists`.
  unfoldable pub exists_as : Option (Value F) → Value F → Bool
  exists_as found (bool expected) = bool_same (is_some found) expected
  exists_as found _ = false

  -- The guard `if !exists { return missing }`.
  abbrev pub when_some : Option (Value F) → Bool → (Value F → Bool) → Bool
  when_some none missing test = missing
  when_some (some v) missing test = test v

module _ {F : Type 0} (float : FloatOps F) where
  unfoldable pub values_equal : Value F → Value F → Bool
  values_equal a b =
      if is_null a && is_null b
      then true
      else if is_null a || is_null b
      then false
      else if deep_equal float a b
      then true
      else str_eq (float.sprint a) (float.sprint b)

  unfoldable pub to_float64 : Value F → Option (Float64 F)
  to_float64 (number n) = some (real n)
  to_float64 (text s) = float.parse s
  to_float64 _ = none

  -- Go's `<` and `<=` on float64.
  unfoldable pub less : Float64 F → Float64 F → Bool
  less (real a) (real b) = float.lt a b
  less _ _ = false

  unfoldable pub less_or_equal : Float64 F → Float64 F → Bool
  less_or_equal (real a) (real b) = not (float.lt b a)
  less_or_equal _ _ = false

  -- The last `switch` of `compareNumeric`.
  unfoldable pub compare_floats : Float64 F → String → Float64 F → Bool
  compare_floats a op b =
      if str_eq op op_gte
      then less_or_equal b a
      else if str_eq op op_gt
      then less b a
      else if str_eq op op_lte
      then less_or_equal a b
      else if str_eq op op_lt
      then less a b
      else false

  unfoldable pub compare_numeric : Value F → String → Value F → Bool
  compare_numeric actual op expected = elim (to_float64 actual) [
    | none ↦ false
    | some a ↦ elim (to_float64 expected) [ none ↦ false | some b ↦ compare_floats a op b ]
  ]

  -- The loops of `$contains` and `$in`: the first equal element ends them.
  unfoldable pub any_equal : List (Value F) → Value F → Bool
  any_equal [] v = false
  any_equal (item ∷ items) v = values_equal item v || any_equal items v

  unfoldable pub equals_any : Value F → List (Value F) → Bool
  equals_any v [] = false
  equals_any v (option ∷ options) = values_equal v option || equals_any v options

  unfoldable pub contains : Value F → Value F → Bool
  contains value expected = elim (to_slice value) [
    | none ↦ false
    | some items ↦ any_equal items expected
  ]

  unfoldable pub is_in : Value F → Value F → Bool
  is_in value options = elim (to_slice options) [ none ↦ false | some os ↦ equals_any value os ]

  -- The `switch` of `evaluateCondition`, on what `getNestedValue` found.
  unfoldable pub evaluate_found : Option (Value F) → String → Value F → Bool
  evaluate_found found op expected =
      if str_eq op op_equals
      then when_some found false (λ v. values_equal v expected)
      else if str_eq op op_ne
      then when_some found true (λ v. not (values_equal v expected))
      else if str_eq op op_exists
      then exists_as found expected
      else if str_eq op op_contains
      then when_some found false (λ v. contains v expected)
      else if str_eq op op_in
      then when_some found false (λ v. is_in v expected)
      else if str_eq op op_gte || str_eq op op_gt || str_eq op op_lte || str_eq op op_lt
      then when_some found false (λ v. compare_numeric v op expected)
      else false

  unfoldable pub evaluate_condition : Fields F → Condition F → Bool
  evaluate_condition data_fields cond =
      evaluate_found (get_nested (object data_fields) (split cond.field)) cond.operator cond.value

  -- The loop of `MatchesEntityData`.
  unfoldable pub all_match : Fields F → List (Condition F) → Bool
  all_match data_fields [] = true
  all_match data_fields (cond ∷ conds) =
      if evaluate_condition data_fields cond then all_match data_fields conds else false

  -- `MatchesEntityData`, on what `json.Unmarshal` makes of the entity data: `none` is its error.
  unfoldable pub matches_entity_data : Option (Fields F) → List (Condition F) → Bool
  matches_entity_data none conds = false
  matches_entity_data (some data_fields) conds = all_match data_fields conds

  unfoldable pub matches_criteria : Option (Fields F) → Map (Value F) → Bool
  matches_criteria entity_data criteria = matches_entity_data entity_data (parse_criteria criteria)
