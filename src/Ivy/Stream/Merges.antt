-- ===== src/Ivy/Stream/Merges.antt =====
-- MergeProcessor of ivy/pkg/processor/merge_processor.go: an entity that changed is indexed, matched and
-- merged, one that was deleted leaves its cluster. The result is false where an error is returned.
use meadow.Prelude.{
  Bool, true, false, String, Option, none, some, List, [], ◌∷◌, str_eq, if◌then◌else◌, ◌>>=◌,
}
use meadow.Prelude.Sorting.{SortSlice}
use meadow.Json.{FloatOps}
use meadow.Ivy.Matching.Defs.{ScoreOps, MatchFieldRow, MatchOutcome}
use meadow.Ivy.Matching.Index.{Config, MatchFields}
use meadow.Ivy.Matching.Indexing.{Extraction, index_entity}
use meadow.Ivy.Matching.Service.{find_matches}
use meadow.Ivy.Merging.Fields.Defs.{FieldValue}
use meadow.Ivy.Merging.Clusters.Store.{
  MergedEntity, EntityCluster, Store, soft_delete, get_merged_entities_by_staged_ids,
}
use meadow.Ivy.Merging.Clusters.Golden.{StagedEntity}
use meadow.Ivy.Merging.Clusters.Engine.{MergeResult, Environment}
use meadow.Ivy.Merging.Clusters.Dispatch.{merge_with_matches}
use meadow.Ivy.Deletion.Processor.{remove_from_cluster, get_cluster_members}
use meadow.Ivy.Stream.Events.{StagedEntityRow, is_row_deleted, Payload, is_delete}

-- What the processor calls, with the settings, for the tenant and the type of the entity:
-- SoftDeleteByMergedEntityID of the merged relationships; the matching service, on the rows of match fields
-- that the table has when the message comes (`queries` is what the queries answer on a table); the merge
-- engine; and processMatchingRelationshipRules, which reads the tables and writes the merged
-- relationships, and whose error is only logged.
pub record Services (F D R : Type 0) : Type 0 where
  pub soft_delete_relations : String → R → Option R
  pub extraction : Extraction F D
  pub match_rows : List (MatchFieldRow F)
  pub queries : List (MatchFieldRow F) → MatchFields F
  pub score_ops : ScoreOps F
  pub sort_outcomes : SortSlice (MatchOutcome F)
  pub config : Config F
  pub float : FloatOps F
  pub sort_values : SortSlice (FieldValue F)
  pub engine : Environment F R
  pub relationship_rules : StagedEntity → MergedEntity → Store R → R

module _ {F D R : Type 0} (services : Services F D R) where
  -- The cascade, whose error is ignored.
  unfoldable pub cascade_relations : Store R → Option R → Store R
  cascade_relations st none = st
  cascade_relations st (some relations) = record st { relations = relations }

  unfoldable pub after_soft_delete : String → Store R → Option (MergedEntity × Store R) → Store R
  after_soft_delete merged_id st none = st
  after_soft_delete merged_id st (some (m, after)) =
      cascade_relations after (services.soft_delete_relations merged_id after.relations)

  unfoldable pub delete_without_members : String → List EntityCluster → Store R → Store R
  delete_without_members merged_id (c ∷ cs) st = st
  delete_without_members merged_id [] st = after_soft_delete merged_id st (soft_delete merged_id st)

  unfoldable pub leave_first : String → List MergedEntity → Store R → Store R
  leave_first staged_id [] st = st
  leave_first staged_id (m ∷ ms) st =
      let removed = remove_from_cluster m.id staged_id st in
      delete_without_members m.id (get_cluster_members m.id removed) removed

  -- Its one caller ignores the error that it returns.
  unfoldable pub handle_deleted_staged_entity : String → Store R → Store R
  handle_deleted_staged_entity staged_id st =
      leave_first staged_id (get_merged_entities_by_staged_ids (staged_id ∷ []) st) st

  -- IndexEntity, FindMatches and MergeWithMatches.
  unfoldable pub match_and_merge : StagedEntity → Store R → Option (MergeResult F × Store R)
  match_and_merge entity st =
      index_entity services.extraction entity.id entity.content services.match_rows >>= λ rows.
      find_matches services.score_ops services.sort_outcomes services.config (services.queries rows)
        entity.id
      >>= λ results.
          merge_with_matches services.float services.sort_values services.engine entity
            results.matches st

  unfoldable pub after_merge :
      StagedEntity → Store R → Option (MergeResult F × Store R) → Bool × Store R
  after_merge entity st none = (false, st)
  after_merge entity st (some (result, after)) = (
    true,
    record after { relations = services.relationship_rules entity result.merged_entity after },
  )

  unfoldable pub process_row : StagedEntityRow → Store R → Bool × Store R
  process_row row st =
      if is_row_deleted row
      then (true, handle_deleted_staged_entity row.entity.id st)
      else (if str_eq row.fingerprint row.previous_fingerprint
          then (true, st)
          else after_merge row.entity st (match_and_merge row.entity st))

  unfoldable pub process_parsed : Option (Option StagedEntityRow) → Store R → Bool × Store R
  process_parsed none st = (false, st)
  process_parsed (some none) st = (true, st)
  process_parsed (some (some row)) st = process_row row st

  -- `none` is an envelope that does not parse.
  unfoldable pub process_message : Option Payload → Store R → Bool × Store R
  process_message none st = (false, st)
  process_message (some p) st = if is_delete p then (true, st) else process_parsed p.after st
