-- ===== src/Ivy/Stream/Settled.antt =====
-- MergeWithMatches of ivy/pkg/merging/engine.go on tables in which no cluster is empty.
use meadow.Prelude.{
  ◌≡◌, ◌⊎◌, true, String, List, [], ◌∷◌, ◌++◌, sym, ◌∙◌, subst, inl, inr, Ensures, Ensures-map,
  Ensures-both, >>=-Ensures, >>=-Ensures_both, ◌>>=◌, Map, map,
}
use meadow.Prelude.Sorting.{SortSlice}
use meadow.Json.{FloatOps}
use meadow.Ivy.Matching.Defs.{MatchOutcome}
use meadow.Ivy.Merging.Fields.Defs.{FieldValue, FieldMergeStrategy, MergeConflict}
use meadow.Ivy.Merging.Clusters.Store.{
  MergedEntity, Store, create, update_merged, add_to_cluster, get_merged_entities_by_staged_ids,
}
use meadow.Ivy.Merging.Clusters.Golden.{
  StagedEntity, SourcePriority, EntityTypeSchema, derive_field_strategies,
}
use meadow.Ivy.Merging.Clusters.Engine.{MergeResult, Environment, new_entity, merge_clusters}
use meadow.Ivy.Merging.Clusters.Dispatch.{
  upsert_into, upsert_single_entity, with_source, valid_matches, golden_record, merge_loaded,
  merge_entity_with_matches, merge_by_schema, load_schema, merge_with_matches,
}
use meadow.Ivy.Merging.Clusters.Members.{Active}
use meadow.Ivy.Merging.Clusters.Live.{Live}
use meadow.Ivy.Merging.Clusters.Statements.{
  IsConsistent, create-appends, Added, add_to_cluster-Added,
}
use meadow.Ivy.Merging.Clusters.Consistent.{Updated, update_merged-Updated}
use meadow.Ivy.Merging.Clusters.Gather.{DistinctIds}
use meadow.Ivy.Merging.Clusters.Tidy.{Kept, update_merged-Kept, create-Kept, merge_clusters-Kept}
use meadow.Ivy.Merging.Clusters.Origin.{Live-append_origin}
use meadow.Ivy.Merging.Clusters.Ended.{Leaves, updated, merge_clusters-Leaves}
use meadow.Ivy.Merging.Clusters.Unites.{Unites, merge_clusters-Unites}
use meadow.Ivy.Merging.Clusters.Outcome.{merge_with_matches-IsMerge}

module _ {R : Type 0} where
  -- The cluster has an active member.
  abbrev pub HasMember : String → Store R → Type 0
  HasMember n st = (s : String) × Active n s st.clusters

  -- Consistent tables without repeated identifiers in which every cluster that is not deleted has an
  -- active member.
  pub record IsSettled (st : Store R) : Type 0 where
    pub consistent : IsConsistent st
    pub distinct : DistinctIds st.merged
    pub occupied : (n : String) → Live n st.merged → HasMember n st

  -- No identifier is repeated, and every live cluster but `k` has a member.
  pub record SettledBut (k : String) (st : Store R) : Type 0 where
    pub distinct : DistinctIds st.merged
    pub occupied : (n : String) → Live n st.merged → (n ≡ k) ⊎ HasMember n st

module _ {F R : Type 0} where
  abbrev IsSettledMerge : MergeResult F × Store R → Type 0
  IsSettledMerge p = SettledBut p.0.merged_entity.id p.1

module _ {F R : Type 0} (env : Environment F R) (st : Store R) (h : IsSettled st) where
  merge_clusters-SettledBut :
      (source : StagedEntity) (ms : List MergedEntity) (es : List StagedEntity) (ids : List String)
      (content : String) (conflicts : List (MergeConflict F))
      → Ensures IsSettledMerge (merge_clusters env source ms es ids content conflicts st)
  merge_clusters-SettledBut source ms es ids content conflicts =
      let o = merge_clusters env source ms es ids content conflicts st in
      Ensures-map
        (λ p.
          (Leaves ms st p.0.merged_entity.id p.1 × Unites es ms st p.0.merged_entity.id p.1)
          × Kept st p.1)
        IsSettledMerge o
        (Ensures-both _ _ o
          (Ensures-both _ _ o
            (merge_clusters-Leaves env source ms es ids content conflicts st h.distinct)
            (merge_clusters-Unites env source ms es ids content conflicts st))
          (merge_clusters-Kept env source ms es ids content conflicts st))
        (λ p ((leaves, unites), kept). record {
          distinct = kept.distinct h.distinct;
          occupied = λ n l. elim (leaves n l) [
            | inl e ↦ inl e
            | inr (was, apart) ↦ (let (s, a) = h.occupied n was in inr (s, unites.kept n s a apart))
          ];
        })

module _ {F R : Type 0} (float : FloatOps F) (sort_slice : SortSlice (FieldValue F))
    (env : Environment F R) (source : StagedEntity) (st : Store R) (h : IsSettled st) where
  upsert_into-SettledBut :
      (ms : List MergedEntity) (content : String) (conflicts : List (MergeConflict F))
      → Ensures IsSettledMerge (upsert_into float sort_slice env source ms content conflicts st)
  unfolding upsert_into
  upsert_into-SettledBut (m ∷ ms) content conflicts =
      let o = update_merged m.id content 1 st in
      >>=-Ensures_both
        (λ p.
          (Updated m.id st p.0 p.1 × Kept st p.1)
          × ((p.0.id ≡ m.id) × ((n : String) → Live n (p.1).merged → Live n st.merged)))
        IsSettledMerge o _
        (Ensures-both _ _ o
          (Ensures-both _ _ o (update_merged-Updated m.id content 1 st)
            (update_merged-Kept m.id content 1 st))
          (updated m.id content 1 st))
        (λ (n, st1) ((u, kept), (e, origin)). record {
          distinct = kept.distinct h.distinct;
          occupied = λ n l.
              let (s, a) = h.occupied n (origin n l) in
              inr (s, subst (Active n s) (sym u.members) a);
        })
  upsert_into-SettledBut [] content conflicts =
      let m = new_entity env source content 1 in
      >>=-Ensures_both
        (λ s. ((s.merged ≡ st.merged ++ m ∷ []) × (s.clusters ≡ st.clusters)) × Kept st s)
        IsSettledMerge (create m st) _
        (Ensures-both _ _ (create m st) (create-appends m st) (create-Kept m st))
        (λ st1 (c, kept).
          let o = add_to_cluster m.id source.id true st1 in
          >>=-Ensures_both (Added m.id (source ∷ []) st1) IsSettledMerge o _
            (add_to_cluster-Added m.id source true st1)
            (λ st2 a. record {
              distinct = subst DistinctIds (sym a.merged_same) (kept.distinct h.distinct);
              occupied = λ n l.
                  elim (Live-append_origin n st.merged m (subst (Live n) (a.merged_same ∙ c.0) l)) [
                    | inl e ↦ inl e
                    | inr j ↦
                        (let (s, i) = h.occupied n j in
                          inr (s, a.kept n s (subst (Active n s) (sym c.1) i)))
                  ];
            }))

  module _ (strategies : Map FieldMergeStrategy) (priorities : List SourcePriority) where
    upsert_single_entity-SettledBut :
        Ensures IsSettledMerge
          (upsert_single_entity float sort_slice env source strategies priorities st)
    unfolding upsert_single_entity
    upsert_single_entity-SettledBut =
        let golden = golden_record float sort_slice env strategies priorities (source ∷ []) in
        >>=-Ensures IsSettledMerge (env.marshal golden.0) _ (λ content.
          upsert_into-SettledBut (get_merged_entities_by_staged_ids (source.id ∷ []) st) content
            golden.1)

    several-SettledBut :
        (ids : List String) (es : List StagedEntity)
        → Ensures IsSettledMerge (
            env.marshal (golden_record float sort_slice env strategies priorities es).0
            >>= λ content.
                merge_clusters env source
                  (get_merged_entities_by_staged_ids ids st)
                  es
                  ids
                  content
                  (golden_record float sort_slice env strategies priorities es).1
                  st)
    several-SettledBut ids es =
        let golden = golden_record float sort_slice env strategies priorities es in
        >>=-Ensures IsSettledMerge (env.marshal golden.0) _ (λ content.
          merge_clusters-SettledBut env st h source (get_merged_entities_by_staged_ids ids st) es
            ids content golden.1)

    merge_loaded-SettledBut :
        (ids : List String) (es : List StagedEntity)
        → Ensures IsSettledMerge
            (merge_loaded float sort_slice env source ids es strategies priorities st)
    unfolding merge_loaded
    merge_loaded-SettledBut ids (e ∷ []) = upsert_single_entity-SettledBut
    merge_loaded-SettledBut ids [] = several-SettledBut ids []
    merge_loaded-SettledBut ids (e ∷ f ∷ es) = several-SettledBut ids (e ∷ f ∷ es)

  by_schema-SettledBut :
      (matches valid : List (MatchOutcome F)) (schema : EntityTypeSchema)
      → Ensures IsSettledMerge (merge_by_schema float sort_slice env source matches valid schema st)
  unfolding merge_by_schema merge_entity_with_matches
  by_schema-SettledBut matches [] schema =
      upsert_single_entity-SettledBut (derive_field_strategies schema.properties)
        schema.source_priorities
  by_schema-SettledBut matches (v ∷ valid) schema =
      let ids = source.id ∷ map (λ m. m.entity_id) matches in
      >>=-Ensures IsSettledMerge (env.get_by_ids ids) _ (λ loaded.
        merge_loaded-SettledBut (derive_field_strategies schema.properties) schema.source_priorities
          ids (with_source source loaded))

  merge_with_matches-SettledBut :
      (matches : List (MatchOutcome F))
      → Ensures IsSettledMerge (merge_with_matches float sort_slice env source matches st)
  unfolding merge_with_matches
  merge_with_matches-SettledBut matches =
      >>=-Ensures IsSettledMerge (load_schema float sort_slice env source.entity_type) _
        (λ schema. by_schema-SettledBut matches (valid_matches matches) schema)

  pub merge_with_matches-IsSettled :
      (matches : List (MatchOutcome F))
      → Ensures (λ p. IsSettled p.1) (merge_with_matches float sort_slice env source matches st)
  merge_with_matches-IsSettled matches =
      let o = merge_with_matches float sort_slice env source matches st in
      Ensures-map _ (λ p. IsSettled p.1) o
        (Ensures-both _ _ o
          (merge_with_matches-IsMerge float sort_slice env source matches st h.consistent)
          (merge_with_matches-SettledBut matches))
        (λ (r, after) (merge, but). record {
          consistent = merge.consistent;
          distinct = but.distinct;
          occupied = λ n l. elim (but.occupied n l) [
            | inl e ↦
                (source.id, subst (λ x. Active x source.id after.clusters) (sym e) merge.joined.0)
            | inr m ↦ m
          ];
        })
