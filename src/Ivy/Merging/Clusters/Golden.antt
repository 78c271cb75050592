-- ===== src/Ivy/Merging/Clusters/Golden.antt =====
-- mergeFields and deriveFieldStrategiesFromSchema of ivy/pkg/merging/engine.go: the golden record.
use meadow.Prelude.{
  ℕ, Bool, true, false, String, Option, none, some, List, [], ◌∷◌, ◌++◌, str_eq, if◌then◌else◌, Map,
  lookup, insert,
}
use meadow.Prelude.Int.{ℤ, pos}
use meadow.Prelude.Sorting.{SortSlice}
use meadow.Json.{Value, FloatOps}
use meadow.Ivy.Merging.Fields.Defs.{
  FieldValue, EntityData, time, StrategyType, prefer_non_empty, unknown, FieldMergeStrategy,
  MergeConflict, is_nil,
}
use meadow.Ivy.Merging.Fields.Merge.{merge_field}

-- The fields of a staged entity that the engine reads; `content` is its JSON.
pub record StagedEntity : Type 0 where
  pub id : String
  pub entity_type : String
  pub integration : String
  pub content : String
  pub updated_at : ℕ

pub record SourcePriority : Type 0 where
  pub integration : String
  pub priority : ℤ

-- The merge strategies of an entity type's properties, and the source priorities.
pub record EntityTypeSchema : Type 0 where
  pub properties : Map StrategyType
  pub source_priorities : List SourcePriority

-- `def.MergeStrategy != ""`
unfoldable pub is_set : StrategyType → Bool
is_set (unknown name) = if str_eq name "" then false else true
is_set _ = true

-- The strategies of a schema set neither a limit nor deduplication.
abbrev pub plain : StrategyType → FieldMergeStrategy
plain strategy = record { strategy = strategy; max_items = pos 0; dedup = false }

unfoldable pub derive_field_strategies : Map StrategyType → Map FieldMergeStrategy
derive_field_strategies [] = []
derive_field_strategies ((field, strategy) ∷ properties) =
    let rest = derive_field_strategies properties in
    if is_set strategy then (field, plain strategy) ∷ rest else rest

-- The loops that fill `strategyMap` and `priorityMap`.
unfoldable pub strategy_map :
    Map FieldMergeStrategy → Map FieldMergeStrategy → Map FieldMergeStrategy
strategy_map [] m = m
strategy_map ((field, s) ∷ rest) m = strategy_map rest (insert field s m)

unfoldable pub priority_map : List SourcePriority → Map ℤ → Map ℤ
priority_map [] m = m
priority_map (p ∷ ps) m = priority_map ps (insert p.integration p.priority m)

unfoldable pub is_listed : String → List String → Bool
is_listed s [] = false
is_listed s (t ∷ ts) = if str_eq t s then true else is_listed s ts

-- `allFields[field] = true` for each field.
unfoldable pub add_fields : {V : Type 0} → Map V → List String → List String
add_fields [] fields = fields
add_fields ((k, v) ∷ m) fields =
    add_fields m (if is_listed k fields then fields else fields ++ k ∷ [])

unfoldable pub strategy_for : Option FieldMergeStrategy → FieldMergeStrategy
strategy_for none = plain prefer_non_empty
strategy_for (some s) = s

abbrev pub Golden : Type 0 → Type 0
Golden F = Map (Value F) × List (MergeConflict F)

module _ {F : Type 0} where
  unfoldable pub all_fields : List (EntityData F) → List String → List String
  all_fields [] fields = fields
  all_fields (e ∷ entities) fields = all_fields entities (add_fields e.fields fields)

  -- `json.Unmarshal` leaves the map nil where it fails.
  unfoldable pub parse_entities : (String → Map (Value F)) → List StagedEntity → List (EntityData F)
  parse_entities unmarshal [] = []
  parse_entities unmarshal (e ∷ entities) =
      record {
        fields = unmarshal e.content;
        updated_at = time e.updated_at;
        integration = e.integration;
        entity_id = e.id;
      }
      ∷ parse_entities unmarshal entities

  unfoldable pub add_conflict :
      Option (MergeConflict F) → List (MergeConflict F) → List (MergeConflict F)
  add_conflict none conflicts = conflicts
  add_conflict (some c) conflicts = conflicts ++ c ∷ []

  -- What one round adds to the record and to the conflicts.
  unfoldable pub add_merged : String → Value F × Option (MergeConflict F) → Golden F → Golden F
  add_merged field (v, conflict) (golden, conflicts) =
      (if is_nil v then golden else insert field v golden, add_conflict conflict conflicts)

module _ {F : Type 0} (float : FloatOps F) (sort_slice : SortSlice (FieldValue F)) where
  abbrev pub merged_field :
      List (EntityData F)
      → Map FieldMergeStrategy
      → Map ℤ
      → String
      → Value F × Option (MergeConflict F)
  merged_field entities strategies priorities field =
      merge_field float sort_slice field entities (strategy_for (lookup field strategies))
        priorities

  -- The last loop of `mergeFields`.
  unfoldable pub merge_each :
      List (EntityData F) → Map FieldMergeStrategy → Map ℤ → List String → Golden F → Golden F
  merge_each entities strategies priorities [] golden = golden
  merge_each entities strategies priorities (field ∷ fields) golden =
      merge_each entities strategies priorities fields
        (add_merged field (merged_field entities strategies priorities field) golden)

  unfoldable pub merge_fields :
      List (EntityData F) → Map FieldMergeStrategy → List SourcePriority → Golden F
  merge_fields entities strategies priorities =
      merge_each entities (strategy_map strategies []) (priority_map priorities [])
        (all_fields entities []) ([], [])
