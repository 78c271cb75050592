-- ===== src/Ivy/Merging/Clusters/Outcome.antt =====
-- What MergeWithMatches of ivy/pkg/merging/engine.go leaves behind, upsertSingleEntity included.
use meadow.Prelude.{
  true, String, Option, none, some, List, [], ◌∷◌, refl, subst, sym, inl, inr, All, Ensures,
  >>=-Ensures, >>=-Ensures_both, Map, map,
}
use meadow.Prelude.Sorting.{SortSlice}
use meadow.Json.{FloatOps}
use meadow.Ivy.Matching.Defs.{MatchOutcome}
use meadow.Ivy.Merging.Fields.Defs.{FieldValue, FieldMergeStrategy, MergeConflict}
use meadow.Ivy.Merging.Clusters.Store.{
  MergedEntity, Store, create, update_merged, add_to_cluster, holding,
  get_merged_entities_by_staged_ids,
}
use meadow.Ivy.Merging.Clusters.Golden.{
  StagedEntity, SourcePriority, EntityTypeSchema, derive_field_strategies,
}
use meadow.Ivy.Merging.Clusters.Engine.{MergeResult, Environment, new_entity}
use meadow.Ivy.Merging.Clusters.Dispatch.{
  upsert_into, upsert_single_entity, with_source, valid_matches, golden_record, merge_loaded,
  merge_entity_with_matches, merge_by_schema, load_schema, merge_with_matches,
}
use meadow.Ivy.Merging.Clusters.Members.{Active}
use meadow.Ivy.Merging.Clusters.Live.{Live}
use meadow.Ivy.Merging.Clusters.Statements.{
  IsConsistent, IsConsistent-but, Added, add_to_cluster-Added,
}
use meadow.Ivy.Merging.Clusters.Consistent.{
  Updated, update_merged-Updated, Added-Together, Updated-IsConsistent,
}
use meadow.Ivy.Merging.Clusters.Together.{IsMerge, create-Live, merge_clusters-IsMerge}
use meadow.Ivy.Merging.Clusters.Sources.{
  HasSource, with_source-HasSource, holding-Active, joined-source,
}

module _ {F R : Type 0} (float : FloatOps F) (sort_slice : SortSlice (FieldValue F))
    (env : Environment F R) (source : StagedEntity) where
  upsert_into-IsMerge :
      (ms : List MergedEntity) (content : String) (conflicts : List (MergeConflict F))
      (st : Store R)
      → All (λ m. Active m.id source.id st.clusters) ms
      → IsConsistent st
      → Ensures
          (IsMerge (source ∷ []))
          (upsert_into float sort_slice env source ms content conflicts st)
  unfolding upsert_into
  upsert_into-IsMerge (m ∷ ms) content conflicts st a h =
      >>=-Ensures_both (λ p. Updated m.id st p.0 p.1) (IsMerge (source ∷ []))
        (update_merged m.id content 1 st) _ (update_merged-Updated m.id content 1 st)
        (λ (n, st1) u. record {
          consistent = Updated-IsConsistent m.id n st st1 u (IsConsistent-but m.id st h);
          live = subst (λ x. Live x st1.merged) (sym u.same_id) u.live;
          joined = (
            subst (λ x. Active x source.id st1.clusters) (sym u.same_id)
                (subst (Active m.id source.id) (sym u.members) a.0),
            tt,
          );
        })
  upsert_into-IsMerge [] content conflicts st a h =
      let m = new_entity env source content 1 in
      >>=-Ensures_both (λ st1. IsConsistent st1 × Live m.id st1.merged) (IsMerge (source ∷ []))
        (create m st) _ (create-Live env m st refl h)
        (λ st1 g.
          >>=-Ensures_both (Added m.id (source ∷ []) st1) (IsMerge (source ∷ []))
            (add_to_cluster m.id source.id true st1) _ (add_to_cluster-Added m.id source true st1)
            (λ st2 d. Added-Together m.id (source ∷ []) st1 st2 g.1 g.0 d))

  module _ (strategies : Map FieldMergeStrategy) (priorities : List SourcePriority) (st : Store R)
      (h : IsConsistent st) where
    upsert_single_entity-IsMerge :
        Ensures
          (IsMerge (source ∷ []))
          (upsert_single_entity float sort_slice env source strategies priorities st)
    unfolding upsert_single_entity get_merged_entities_by_staged_ids
    upsert_single_entity-IsMerge =
        let golden = golden_record float sort_slice env strategies priorities (source ∷ []) in
        >>=-Ensures (IsMerge (source ∷ [])) (env.marshal golden.0) _ (λ content.
          upsert_into-IsMerge (holding (source.id ∷ []) st.clusters st.merged) content golden.1 st
            (holding-Active source.id st.clusters st.merged) h)

    merge_loaded-Ensures :
        (ids : List String) (es : List StagedEntity)
        → HasSource source es
        → Ensures
            (IsMerge es)
            (merge_loaded float sort_slice env source ids es strategies priorities st)
    unfolding merge_loaded
    merge_loaded-Ensures ids [] i = absurd i
    merge_loaded-Ensures ids (e ∷ []) (inl i) =
        weaken (upsert_single_entity float sort_slice env source strategies priorities st)
          upsert_single_entity-IsMerge
      where
        weaken :
            (o : Option (MergeResult F × Store R))
            → Ensures (IsMerge (source ∷ [])) o
            → Ensures (IsMerge (e ∷ [])) o
        weaken none g = tt
        weaken (some (r, s)) g = record {
          consistent = g.consistent;
          live = g.live;
          joined = (subst (λ x. Active r.merged_entity.id x s.clusters) (sym i) g.joined.0, tt);
        }
    merge_loaded-Ensures ids (e ∷ []) (inr i) = absurd i
    merge_loaded-Ensures ids (e ∷ f ∷ es) i =
        let all = e ∷ f ∷ es in
        let golden = golden_record float sort_slice env strategies priorities all in
        >>=-Ensures (IsMerge all) (env.marshal golden.0) _ (λ content.
          merge_clusters-IsMerge env source (get_merged_entities_by_staged_ids ids st) all ids
            content golden.1 st h)

    -- From consistent tables, the transaction of mergeEntityWithMatches on the entities that were loaded,
    -- the source appended where it is missing, leaves consistent tables when nothing fails; in them all
    -- these entities are active in the cluster that is reported, which is not deleted.
    pub merge_loaded-IsMerge :
        (ids : List String) (loaded : List StagedEntity)
        → Ensures (IsMerge (with_source source loaded)) (
            merge_loaded float sort_slice env source ids
              (with_source source loaded)
              strategies
              priorities
              st)
    merge_loaded-IsMerge ids loaded =
        merge_loaded-Ensures ids (with_source source loaded) (with_source-HasSource source loaded)

  source-IsMerge :
      (es : List StagedEntity) (o : Option (MergeResult F × Store R))
      → Ensures (IsMerge (with_source source es)) o
      → Ensures (IsMerge (source ∷ [])) o
  source-IsMerge es none g = tt
  source-IsMerge es (some (r, s)) g = record {
    consistent = g.consistent;
    live = g.live;
    joined = (
      joined-source source r.merged_entity.id s.clusters (with_source source es) g.joined
          (with_source-HasSource source es),
      tt,
    );
  }

  -- From consistent tables, MergeWithMatches leaves consistent tables when nothing fails: every active
  -- member's cluster is not deleted and nobody is active in two. The source entity is active in the
  -- cluster that is reported.
  pub merge_with_matches-IsMerge :
      (matches : List (MatchOutcome F)) (st : Store R)
      → IsConsistent st
      → Ensures (IsMerge (source ∷ [])) (merge_with_matches float sort_slice env source matches st)
  unfolding merge_with_matches merge_by_schema merge_entity_with_matches
  merge_with_matches-IsMerge matches st h =
      >>=-Ensures (IsMerge (source ∷ [])) (load_schema float sort_slice env source.entity_type) _
        (by_schema (valid_matches matches))
    where
      by_schema :
          (valid : List (MatchOutcome F)) (schema : EntityTypeSchema)
          → Ensures
              (IsMerge (source ∷ []))
              (merge_by_schema float sort_slice env source matches valid schema st)
      by_schema [] schema =
          upsert_single_entity-IsMerge (derive_field_strategies schema.properties)
            schema.source_priorities st h
      by_schema (v ∷ valid) schema =
          let strategies = derive_field_strategies schema.properties in
          let ids = source.id ∷ map (λ m. m.entity_id) matches in
          >>=-Ensures (IsMerge (source ∷ [])) (env.get_by_ids ids) _ (λ loaded.
            source-IsMerge loaded
              (merge_loaded float sort_slice env source ids (with_source source loaded) strategies
                schema.source_priorities st)
              (merge_loaded-IsMerge strategies schema.source_priorities st h ids loaded))
