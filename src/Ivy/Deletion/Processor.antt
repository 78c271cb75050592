-- ===== src/Ivy/Deletion/Processor.antt =====
-- processStagedEntityDeletion of ivy/pkg/processor/deletion_processor.go, with RemoveFromCluster and
-- GetClusterMembers of ivy/internal/repositories/mergedentity/repository.go. There is no transaction: where a
-- deletion fails, the result is `false` and the tables stay as the calls before left them.
use meadow.Prelude.{
  Bool, true, false, not, ◌&&◌, String, Option, none, some, List, [], ◌∷◌, if◌then◌else◌,
}
use meadow.Ivy.Merging.Clusters.Store.{
  MergedEntity, EntityCluster, Store, is_member, is_active_in, soft_delete,
  get_merged_entities_by_staged_ids,
}

unfoldable pub remove_rows : String → String → List EntityCluster → List EntityCluster
remove_rows merged_id staged_id [] = []
remove_rows merged_id staged_id (c ∷ cs) =
    (if is_member merged_id staged_id c && not c.is_removed
      then record c { is_removed = true }
      else c)
    ∷ remove_rows merged_id staged_id cs

unfoldable pub members_of : String → List EntityCluster → List EntityCluster
members_of merged_id [] = []
members_of merged_id (c ∷ cs) =
    let rest = members_of merged_id cs in if is_active_in merged_id c then c ∷ rest else rest

module _ {R : Type 0} where
  unfoldable pub remove_from_cluster : String → String → Store R → Store R
  remove_from_cluster merged_id staged_id st = record st {
    clusters = remove_rows merged_id staged_id st.clusters;
  }

  unfoldable pub get_cluster_members : String → Store R → List EntityCluster
  get_cluster_members merged_id st = members_of merged_id st.clusters

-- `soft_delete_relations` is SoftDeleteByMergedEntityID of the merged relationships.
module _ {R : Type 0} (soft_delete_relations : String → R → Option R) where
  unfoldable pub finish : Store R → Option R → Bool × Store R
  finish st none = (false, st)
  finish st (some relations) = (true, record st { relations = relations })

  unfoldable pub cascade : String → Store R → Option (MergedEntity × Store R) → Bool × Store R
  cascade merged_id st none = (false, st)
  cascade merged_id st (some (m, after)) =
      finish after (soft_delete_relations merged_id after.relations)

  -- The test on the members that remain.
  unfoldable pub end_if_empty : String → List EntityCluster → Store R → Bool × Store R
  end_if_empty merged_id (c ∷ cs) st = (true, st)
  end_if_empty merged_id [] st = cascade merged_id st (soft_delete merged_id st)

  unfoldable pub leave_cluster : String → List MergedEntity → Store R → Bool × Store R
  leave_cluster staged_id [] st = (true, st)
  leave_cluster staged_id (m ∷ ms) st =
      let removed = remove_from_cluster m.id staged_id st in
      end_if_empty m.id (get_cluster_members m.id removed) removed

  -- The row that the change event carries has this identifier and mark.
  unfoldable pub process_staged_entity_deletion : String → Bool → Store R → Bool × Store R
  process_staged_entity_deletion staged_id is_deleted st =
      if is_deleted
      then leave_cluster staged_id (get_merged_entities_by_staged_ids (staged_id ∷ []) st) st
      else (true, st)
