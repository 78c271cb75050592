-- ===== src/Ivy/Merging/Clusters/Engine.antt =====
-- The clusters that mergeEntityWithMatches of ivy/pkg/merging/engine.go creates, extends or consolidates.
-- The queries of the other tables, the new identifier and the JSON codec are parameters.
use meadow.Prelude.{
  ℕ, Bool, true, false, String, Option, none, some, List, [], ◌∷◌, ◌>>=◌, Map, length,
}
use meadow.Json.{Value}
use meadow.Ivy.Merging.Fields.Defs.{MergeConflict}
use meadow.Ivy.Merging.Clusters.Store.{
  MergedEntity, Store, create, update_merged, soft_delete, add_to_cluster, move_cluster_members,
}
use meadow.Ivy.Merging.Clusters.Golden.{StagedEntity, EntityTypeSchema}

pub record MergeResult (F : Type 0) : Type 0 where
  pub merged_entity : MergedEntity
  pub source_entities : List String
  pub conflicts : List (MergeConflict F)
  pub is_new : Bool
  pub version : ℕ

-- What the engine calls: GetByIDs, RewireMergedEntity, GetByKey (whose inner `none` is nil),
-- encoding/json, and the identifier that uuid.New gives. `none` is an error.
pub record Environment (F R : Type 0) : Type 0 where
  pub get_by_ids : List String → Option (List StagedEntity)
  pub rewire_merged_entity : String → String → R → Option R
  pub get_by_key : String → Option (Option String)
  pub parse_schema : String → Option EntityTypeSchema
  pub unmarshal : String → Map (Value F)
  pub marshal : Map (Value F) → Option String
  pub new_id : String

unfoldable pub is_none : Option String → Bool
is_none none = true
is_none (some s) = false

module _ {R : Type 0} where
  -- The loop over AddToCluster; only the first entity may be primary.
  unfoldable pub add_members : String → Bool → List StagedEntity → Store R → Option (Store R)
  add_members merged_id primary [] st = some st
  add_members merged_id primary (e ∷ entities) st =
      add_to_cluster merged_id e.id primary st >>= λ st'. add_members merged_id false entities st'

module _ {F R : Type 0} (env : Environment F R) where
  abbrev pub new_entity : StagedEntity → String → ℕ → MergedEntity
  new_entity source content source_count = record {
    id = env.new_id;
    entity_type = source.entity_type;
    content = content;
    source_count = source_count;
    primary_source_id = some source.id;
    is_deleted = false;
    version = 1;
  }

  unfoldable pub create_new_cluster :
      StagedEntity
      → List StagedEntity
      → List String
      → String
      → List (MergeConflict F)
      → Store R
      → Option (MergeResult F × Store R)
  create_new_cluster source entities ids content conflicts st =
      let merged = new_entity source content (length entities) in
      create merged st >>= λ st1. add_members merged.id true entities st1 >>= λ st2. some (
        record {
          merged_entity = merged;
          source_entities = ids;
          conflicts = conflicts;
          is_new = true;
          version = 1;
        },
        st2,
      )

  unfoldable pub update_existing_cluster :
      MergedEntity
      → List StagedEntity
      → List String
      → String
      → List (MergeConflict F)
      → Store R
      → Option (MergeResult F × Store R)
  update_existing_cluster existing entities ids content conflicts st =
      update_merged existing.id content (length entities) st >>= λ (updated, st1).
      add_members existing.id (is_none existing.primary_source_id) entities st1 >>= λ st2. some (
        record {
          merged_entity = updated;
          source_entities = ids;
          conflicts = conflicts;
          is_new = false;
          version = updated.version;
        },
        st2,
      )

  -- The loop of `consolidateClusters` over the clusters that end.
  unfoldable pub absorb : String → List MergedEntity → Store R → Option (Store R)
  absorb survivor [] st = some st
  absorb survivor (c ∷ cs) st = move_cluster_members c.id survivor st >>= λ st1.
      env.rewire_merged_entity c.id survivor st1.relations >>= λ relations.
      soft_delete c.id (record st1 { relations = relations }) >>= λ (m, st2). absorb survivor cs st2

  unfoldable pub consolidate_clusters :
      MergedEntity
      → List MergedEntity
      → List StagedEntity
      → List String
      → String
      → List (MergeConflict F)
      → Store R
      → Option (MergeResult F × Store R)
  consolidate_clusters surviving others entities ids content conflicts st =
      absorb surviving.id others st >>= λ st1.
      add_members surviving.id (is_none surviving.primary_source_id) entities st1 >>= λ st2.
      update_merged surviving.id content (length entities) st2 >>= λ (updated, st3). some (
        record {
          merged_entity = updated;
          source_entities = ids;
          conflicts = conflicts;
          is_new = false;
          version = updated.version;
        },
        st3,
      )

  -- The `switch` of `mergeEntityWithMatches` on the clusters that exist.
  unfoldable pub merge_clusters :
      StagedEntity
      → List MergedEntity
      → List StagedEntity
      → List String
      → String
      → List (MergeConflict F)
      → Store R
      → Option (MergeResult F × Store R)
  merge_clusters source [] = create_new_cluster source
  merge_clusters source (m ∷ []) = update_existing_cluster m
  merge_clusters source (m ∷ n ∷ ms) = consolidate_clusters m (n ∷ ms)
