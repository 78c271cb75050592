-- ===== src/Ivy/Merging/Clusters/Dispatch.antt =====
-- MergeWithMatches of ivy/pkg/merging/engine.go: the schema, the blocked matches, and the entities and
-- clusters that take part.
use meadow.Prelude.{
  Bool, true, false, String, Option, none, some, List, [], ◌∷◌, ◌++◌, str_eq, if◌then◌else◌, ◌>>=◌,
  Map, map,
}
use meadow.Prelude.Sorting.{SortSlice}
use meadow.Json.{FloatOps}
use meadow.Ivy.Matching.Defs.{MatchOutcome}
use meadow.Ivy.Merging.Fields.Defs.{FieldValue, FieldMergeStrategy, MergeConflict}
use meadow.Ivy.Merging.Clusters.Store.{
  MergedEntity, Store, create, update_merged, add_to_cluster, get_merged_entities_by_staged_ids,
}
use meadow.Ivy.Merging.Clusters.Golden.{
  StagedEntity, SourcePriority, EntityTypeSchema, derive_field_strategies, parse_entities, Golden,
  merge_fields,
}
use meadow.Ivy.Merging.Clusters.Engine.{MergeResult, Environment, new_entity, merge_clusters}

unfoldable pub contains_entity : String → List StagedEntity → Bool
contains_entity id [] = false
contains_entity id (e ∷ entities) = if str_eq e.id id then true else contains_entity id entities

-- The defensive append of the source entity.
unfoldable pub with_source : StagedEntity → List StagedEntity → List StagedEntity
with_source source entities =
    if contains_entity source.id entities then entities else entities ++ source ∷ []

unfoldable pub valid_matches : {F : Type 0} → List (MatchOutcome F) → List (MatchOutcome F)
valid_matches [] = []
valid_matches (m ∷ ms) = let rest = valid_matches ms in if m.blocked then rest else m ∷ rest

module _ {F R : Type 0} (float : FloatOps F) (sort_slice : SortSlice (FieldValue F))
    (env : Environment F R) where
  unfoldable pub golden_record :
      Map FieldMergeStrategy → List SourcePriority → List StagedEntity → Golden F
  golden_record strategies priorities entities =
      merge_fields float sort_slice (parse_entities env.unmarshal entities) strategies priorities

  unfoldable pub upsert_into :
      StagedEntity
      → List MergedEntity
      → String
      → List (MergeConflict F)
      → Store R
      → Option (MergeResult F × Store R)
  upsert_into source (m ∷ ms) content conflicts st =
      update_merged m.id content 1 st >>= λ (updated, st1). some (
        record {
          merged_entity = updated;
          source_entities = source.id ∷ [];
          conflicts = conflicts;
          is_new = false;
          version = updated.version;
        },
        st1,
      )
  upsert_into source [] content conflicts st =
      let merged = new_entity env source content 1 in
      create merged st >>= λ st1. add_to_cluster merged.id source.id true st1 >>= λ st2. some (
        record {
          merged_entity = merged;
          source_entities = source.id ∷ [];
          conflicts = conflicts;
          is_new = true;
          version = 1;
        },
        st2,
      )

  unfoldable pub upsert_single_entity :
      StagedEntity
      → Map FieldMergeStrategy
      → List SourcePriority
      → Store R
      → Option (MergeResult F × Store R)
  upsert_single_entity source strategies priorities st =
      let golden = golden_record strategies priorities (source ∷ []) in
      env.marshal golden.0 >>= λ content.
      upsert_into source (get_merged_entities_by_staged_ids (source.id ∷ []) st) content golden.1 st

  abbrev pub is_single : List StagedEntity → Bool
  is_single (e ∷ []) = true
  is_single _ = false

  -- The transaction of `mergeEntityWithMatches`, on the entities that were loaded.
  unfoldable pub merge_loaded :
      StagedEntity
      → List String
      → List StagedEntity
      → Map FieldMergeStrategy
      → List SourcePriority
      → Store R
      → Option (MergeResult F × Store R)
  merge_loaded source ids entities strategies priorities st =
      if is_single entities
      then upsert_single_entity source strategies priorities st
      else (let golden = golden_record strategies priorities entities in
          env.marshal golden.0 >>= λ content.
          merge_clusters env source (get_merged_entities_by_staged_ids ids st) entities ids content
            golden.1 st)

  unfoldable pub merge_entity_with_matches :
      StagedEntity
      → List (MatchOutcome F)
      → Map FieldMergeStrategy
      → List SourcePriority
      → Store R
      → Option (MergeResult F × Store R)
  merge_entity_with_matches source matches strategies priorities st =
      let ids = source.id ∷ map (λ m. m.entity_id) matches in
      env.get_by_ids ids >>= λ loaded.
      merge_loaded source ids (with_source source loaded) strategies priorities st

  -- `matches` is not filtered in the second case: see `valid_matches`.
  unfoldable pub merge_by_schema :
      StagedEntity
      → List (MatchOutcome F)
      → List (MatchOutcome F)
      → EntityTypeSchema
      → Store R
      → Option (MergeResult F × Store R)
  merge_by_schema source matches [] schema st =
      upsert_single_entity source (derive_field_strategies schema.properties)
        schema.source_priorities st
  merge_by_schema source matches (v ∷ valid) schema st =
      merge_entity_with_matches source matches (derive_field_strategies schema.properties)
        schema.source_priorities st

  unfoldable pub schema_of : Option String → Option EntityTypeSchema
  schema_of none = some (record { properties = []; source_priorities = [] })
  schema_of (some raw) = env.parse_schema raw

  unfoldable pub load_schema : String → Option EntityTypeSchema
  load_schema entity_type = env.get_by_key entity_type >>= λ found. schema_of found

  unfoldable pub merge_with_matches :
      StagedEntity → List (MatchOutcome F) → Store R → Option (MergeResult F × Store R)
  merge_with_matches source matches st = load_schema source.entity_type >>= λ schema.
      merge_by_schema source matches (valid_matches matches) schema st
