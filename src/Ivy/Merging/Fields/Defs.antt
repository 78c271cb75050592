-- ===== src/Ivy/Merging/Fields/Defs.antt =====
-- ivy/pkg/merging/field_merger.go: the merge strategies of one field.
use Prim.Native.String.{len}
use meadow.Prelude.{
  ℕ, ◌+◌, Bool, true, false, ◌&&◌, String, Option, none, some, List, [], ◌∷◌, str_eq, ltb,
  if◌then◌else◌, Map, lookup, length, ◌==◌,
}
use meadow.Prelude.Int.{ℤ, pos, ltℤ}
use meadow.Json.{Value, null, number, text, array, object, nil, cons, entries, FloatOps}

-- `UpdatedAt interface{}`: a `time.Time`, counted from its zero, or something else.
pub data Stamp : Type 0 where
  time : ℕ → Stamp
  other : Stamp

unfoldable pub to_time : Stamp → ℕ
to_time (time t) = t
to_time other = 0

pub record FieldValue (F : Type 0) : Type 0 where
  pub value : Value F
  pub updated_at : Stamp
  pub integration : String
  pub entity_id : String

-- `entityDataWithMeta` of ivy/pkg/merging/engine.go.
pub record EntityData (F : Type 0) : Type 0 where
  pub fields : Map (Value F)
  pub updated_at : Stamp
  pub integration : String
  pub entity_id : String

-- `MergeStrategyType`; a string that is none of the constants is `unknown`.
pub data StrategyType : Type 0 where
  most_recent most_trusted collect_all longest shortest first last max min sum average :
      StrategyType
  prefer_non_empty source_priority prefer_source : StrategyType
  unknown : String → StrategyType

pub record FieldMergeStrategy : Type 0 where
  pub strategy : StrategyType
  pub max_items : ℤ
  pub dedup : Bool

pub record MergeConflict (F : Type 0) : Type 0 where
  pub field : String
  pub values : List (Value F)
  pub integrations : List String
  pub resolution : StrategyType
  pub resolved_value : Value F

module _ {F : Type 0} where
  abbrev pub is_nil : Value F → Bool
  is_nil null = true
  is_nil _ = false

  unfoldable pub keep_value :
      EntityData F → Option (Value F) → List (FieldValue F) → List (FieldValue F)
  keep_value e none values = values
  keep_value e (some v) values =
      if is_nil v
      then values
      else record {
        value = v;
        updated_at = e.updated_at;
        integration = e.integration;
        entity_id = e.entity_id;
      }
        ∷ values

  -- The first loop of `MergeField`: the entities that have the field, and not as nil.
  unfoldable pub collect_values : String → List (EntityData F) → List (FieldValue F)
  collect_values field [] = []
  collect_values field (e ∷ entities) =
      keep_value e (lookup field e.fields) (collect_values field entities)

  -- `toNumber`; JSON numbers are float64.
  unfoldable pub to_number : Value F → Option F
  to_number (number n) = some n
  to_number _ = none

  unfoldable pub is_empty : Value F → Bool
  is_empty null = true
  is_empty (text s) = str_eq s ""
  is_empty (array nil) = true
  is_empty (array (cons x xs)) = false
  is_empty (object fields) = length (entries fields) == 0
  is_empty _ = false

  -- The loop of `preferNonEmpty`.
  unfoldable pub first_non_empty : List (FieldValue F) → Option (Value F)
  first_non_empty [] = none
  first_non_empty (v ∷ values) = if is_empty v.value then first_non_empty values else some v.value

  unfoldable pub head_value : List (FieldValue F) → Value F
  head_value [] = null
  head_value (v ∷ values) = v.value

  unfoldable pub choose_non_empty : List (FieldValue F) → Value F
  choose_non_empty values = elim (first_non_empty values) [ none ↦ head_value values | some v ↦ v ]

  -- The tests that the sorts get: "a comes before b".
  unfoldable pub later : FieldValue F → FieldValue F → Bool
  later a b = ltb (to_time b.updated_at) (to_time a.updated_at)

  unfoldable pub earlier : FieldValue F → FieldValue F → Bool
  earlier a b = ltb (to_time a.updated_at) (to_time b.updated_at)

  -- `priorities[integration]`: 0 where there is no entry.
  unfoldable pub priority : Map ℤ → FieldValue F → ℤ
  priority priorities v = elim (lookup v.integration priorities) [ none ↦ pos 0 | some p ↦ p ]

  unfoldable pub more_trusted : Map ℤ → FieldValue F → FieldValue F → Bool
  more_trusted priorities a b = ltℤ (priority priorities b) (priority priorities a)

module _ {F : Type 0} where
  -- The loops of `max` and `min`: `better a b` is the comparison that replaces `b` by `a`.
  unfoldable pub keep_better : (F → F → Bool) → Option F → Option F → Option F
  keep_better better best none = best
  keep_better better none (some n) = some n
  keep_better better (some m) (some n) = if better n m then some n else some m

  unfoldable pub best_from : (F → F → Bool) → Option F → List (FieldValue F) → Option F
  best_from better best [] = best
  best_from better best (v ∷ values) =
      best_from better (keep_better better best (to_number v.value)) values

  unfoldable pub of_number : Option F → Value F
  of_number none = null
  of_number (some n) = number n

module _ {F : Type 0} (float : FloatOps F) where
  abbrev pub key : Value F → String
  key = float.sprint

  -- The loop of `longest` from a longest value so far, of length `best`.
  unfoldable pub longest_from : Option ℕ → Value F → List (FieldValue F) → Value F
  longest_from best v [] = v
  longest_from best v (w ∷ values) =
      let n = len (key w.value) in
      let is_longer : Bool = elim best [ none ↦ true | some m ↦ ltb m n ] in
      longest_from (if is_longer then some n else best) (if is_longer then w.value else v) values

  unfoldable pub choose_longest : List (FieldValue F) → Value F
  choose_longest values = longest_from none null values

  -- The loop of `shortest`; `none` is the greatest int, which no length reaches.
  unfoldable pub shortest_from : Option ℕ → Value F → List (FieldValue F) → Value F
  shortest_from best v [] = v
  shortest_from best v (w ∷ values) =
      let n = len (key w.value) in
      let is_shorter : Bool = ltb 0 n && (elim best [ none ↦ true | some m ↦ ltb n m ]) in
      shortest_from (if is_shorter then some n else best) (if is_shorter then w.value else v) values

  unfoldable pub choose_shortest : List (FieldValue F) → Value F
  choose_shortest values = shortest_from none null values

  unfoldable pub choose_max : List (FieldValue F) → Value F
  choose_max values = of_number (best_from (λ n m. float.lt m n) none values)

  unfoldable pub choose_min : List (FieldValue F) → Value F
  choose_min values = of_number (best_from (λ n m. float.lt n m) none values)

  -- The loops of `sum` and `average`: the sum and the count of the numbers.
  unfoldable pub add_number : F × ℕ → Option F → F × ℕ
  add_number done none = done
  add_number (total, count) (some n) = (float.add total n, count + 1)

  unfoldable pub total_from : F × ℕ → List (FieldValue F) → F × ℕ
  total_from done [] = done
  total_from done (v ∷ values) = total_from (add_number done (to_number v.value)) values

  unfoldable pub choose_sum : List (FieldValue F) → Value F
  choose_sum values = number (total_from (float.zero, 0) values).0

  unfoldable pub choose_average : List (FieldValue F) → Value F
  choose_average values =
      let (total, count) = total_from (float.zero, 0) values in
      if count == 0 then null else number (float.divide total count)
