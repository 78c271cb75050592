-- ===== src/Ivy/Merging/Clusters/Total.antt =====
-- MergeWithMatches of ivy/pkg/merging/engine.go where the database and the codec answer.
use meadow.Prelude.{
  ◌≡◌, true, false, String, Option, none, some, List, [], ◌∷◌, ◌++◌, arith, All, Any, eq_iff, subst,
  if_either, Yields, Ensures, Succeeds, >>=-Yields, Yields-Ensures, ◌>>=◌, Map, map,
}
use meadow.Prelude.Sorting.{SortSlice}
use meadow.Json.{Value, FloatOps}
use meadow.Ivy.Matching.Defs.{MatchOutcome}
use meadow.Ivy.Merging.Fields.Defs.{FieldValue, FieldMergeStrategy, MergeConflict}
use meadow.Ivy.Merging.Clusters.Store.{
  MergedEntity, Store, update_merged, has_id, create, add_to_cluster, has_text, holding,
  get_merged_entities_by_staged_ids,
}
use meadow.Ivy.Merging.Clusters.Golden.{
  StagedEntity, SourcePriority, EntityTypeSchema, derive_field_strategies,
}
use meadow.Ivy.Merging.Clusters.Engine.{MergeResult, Environment, new_entity, merge_clusters}
use meadow.Ivy.Merging.Clusters.Dispatch.{
  contains_entity, with_source, valid_matches, golden_record, upsert_into, upsert_single_entity,
  merge_loaded, merge_entity_with_matches, merge_by_schema, schema_of, load_schema,
  merge_with_matches,
}
use meadow.Ivy.Merging.Clusters.Live.{Live}
use meadow.Ivy.Merging.Clusters.Members.{Active}
use meadow.Ivy.Merging.Clusters.Statements.{Added}
use meadow.Ivy.Merging.Clusters.Together.{IsMerge}
use meadow.Ivy.Merging.Clusters.Gather.{holding-Live, Active-holding}
use meadow.Ivy.Merging.Clusters.Absorb.{add_to_cluster-Yields}
use meadow.Ivy.Merging.Clusters.Success.{
  IsTidy, update_merged-Yields, create-Yields, merge_clusters-Yields,
}
use meadow.Ivy.Merging.Clusters.Tidy.{
  Kept, Kept-trans, update_merged-Kept, create-Kept, add_to_cluster-Kept, merge_clusters-Kept,
}
use meadow.Ivy.Merging.Clusters.Outcome.{merge_with_matches-IsMerge}

-- The queries and the codec answer, GetByIDs with rows that were asked for.
pub record IsReliable {F R : Type 0} (env : Environment F R) : Type 0 where
  pub entities :
      (ids : List String)
      → Yields (λ es. All (λ e. has_text e.id ids ≡ true) es) (env.get_by_ids ids)
  pub rewires : (from to : String) (r : R) → Succeeds (env.rewire_merged_entity from to r)
  pub schemas : (key : String) → Succeeds (env.get_by_key key)
  pub parses : (raw : String) → Succeeds (env.parse_schema raw)
  pub marshals : (golden : Map (Value F)) → Succeeds (env.marshal golden)

Succeeds-anything : {A : Type 0} (o : Option A) → Succeeds o → Yields (λ x. Unit) o
Succeeds-anything none s = cc (s.1)
Succeeds-anything (some x) s = tt

with_source-All :
    (source : StagedEntity) (ids : List String) (es : List StagedEntity)
    → All (λ e. has_text e.id (source.id ∷ ids) ≡ true) es
    → All (λ e. has_text e.id (source.id ∷ ids) ≡ true) (with_source source es)
unfolding with_source
with_source-All source ids es h =
    if_either (All (λ e. has_text e.id (source.id ∷ ids) ≡ true)) (contains_entity source.id es) _ _
      (λ e. h) (λ e. add es h)
  where
    itself : has_text source.id (source.id ∷ ids) ≡ true
    itself = unfold has_text in ground (arith, eq_iff source.id source.id)

    add :
        (fs : List StagedEntity)
        → All (λ e. has_text e.id (source.id ∷ ids) ≡ true) fs
        → All (λ e. has_text e.id (source.id ∷ ids) ≡ true) (fs ++ source ∷ [])
    add [] h = (itself, tt)
    add (f ∷ fs) h = (h.0, add fs h.1)

module _ {F R : Type 0} where
  -- The source entity is in the cluster that is reported, and the tables are tidy.
  abbrev pub IsTidyMerge : StagedEntity → MergeResult F × Store R → Type 0
  IsTidyMerge source p = IsMerge (source ∷ []) p × IsTidy p.1

module _ {F R : Type 0} (float : FloatOps F) (sort_slice : SortSlice (FieldValue F))
    (env : Environment F R) (reliable : IsReliable env) (source : StagedEntity) (st : Store R)
    (tidy : IsTidy st) (fresh : has_id env.new_id st.merged ≡ false) where
  -- The tables keep what `IsTidy` asks besides consistency.
  abbrev IsKept : MergeResult F × Store R → Type 0
  IsKept p = Kept st p.1

  upsert_into-Yields :
      (content : String) (conflicts : List (MergeConflict F)) (ms : List MergedEntity)
      → All (λ m. Live m.id st.merged) ms
      → ((n : String) → Active n source.id st.clusters → Any (λ m. m.id ≡ n) ms)
      → Yields IsKept (upsert_into float sort_slice env source ms content conflicts st)
  unfolding upsert_into
  upsert_into-Yields content conflicts (m ∷ ms) l f =
      >>=-Yields (λ p. Kept st p.1) IsKept (update_merged m.id content 1 st) _
        (Yields-Ensures _ (λ p. Kept st p.1) (update_merged m.id content 1 st)
          (update_merged-Yields m.id content 1 st l.0) (update_merged-Kept m.id content 1 st))
        (λ p k. k)
  upsert_into-Yields content conflicts [] l f =
      let m = new_entity env source content 1 in
      let made = create-Yields m st fresh in
      >>=-Yields (λ s. Kept st s × (s.clusters ≡ st.clusters)) IsKept (create m st) _
        (both m (create m st) made (create-Kept m st))
        (λ st1 c.
          >>=-Yields (Kept st1) IsKept (add_to_cluster m.id source.id true st1) _
            (Yields-Ensures (Added m.id (source ∷ []) st1) (Kept st1)
              (add_to_cluster m.id source.id true st1)
              (add_to_cluster-Yields m.id source true st1
                ((λ n i. absurd (f n (subst (Active n source.id) c.1 i))), tt))
              (add_to_cluster-Kept m.id source.id true st1))
            (λ st2 k. Kept-trans st st1 st2 c.0 k))
    where
      both :
          (m : MergedEntity) (o : Option (Store R))
          → Yields (λ s. (s.merged ≡ st.merged ++ m ∷ []) × (s.clusters ≡ st.clusters)) o
          → Ensures (Kept st) o
          → Yields (λ s. Kept st s × (s.clusters ≡ st.clusters)) o
      both m none y e = absurd y
      both m (some s) y e = (e, y.1)

  module _ (strategies : Map FieldMergeStrategy) (priorities : List SourcePriority) where
    upsert_single_entity-Yields :
        Yields IsKept (upsert_single_entity float sort_slice env source strategies priorities st)
    unfolding upsert_single_entity get_merged_entities_by_staged_ids
    upsert_single_entity-Yields =
        let golden = golden_record float sort_slice env strategies priorities (source ∷ []) in
        let ids = source.id ∷ [] in
        >>=-Yields (λ c. Unit) IsKept (env.marshal golden.0) _
          (Succeeds-anything (env.marshal golden.0) (reliable.marshals golden.0))
          (λ content _.
            upsert_into-Yields content golden.1 (holding ids st.clusters st.merged)
              (holding-Live ids st.clusters st.merged)
              (λ n i.
                Active-holding ids st.clusters n source.id st.merged
                  (unfold has_text in ground (arith, eq_iff source.id source.id)) i
                  (tidy.consistent.alive n source.id i)))

    several-Yields :
        (ids : List String) (es : List StagedEntity)
        → All (λ e. has_text e.id ids ≡ true) es
        → Yields IsKept (
            env.marshal (golden_record float sort_slice env strategies priorities es).0
            >>= λ content.
                merge_clusters env source
                  (get_merged_entities_by_staged_ids ids st)
                  es
                  ids
                  content
                  (golden_record float sort_slice env strategies priorities es).1
                  st)
    several-Yields ids es h =
        let golden = golden_record float sort_slice env strategies priorities es in
        let ms = get_merged_entities_by_staged_ids ids st in
        >>=-Yields (λ c. Unit) IsKept (env.marshal golden.0) _
          (Succeeds-anything (env.marshal golden.0) (reliable.marshals golden.0))
          (λ content _.
            Yields-Ensures (IsMerge es) IsKept
              (merge_clusters env source ms es ids content golden.1 st)
              (merge_clusters-Yields env reliable.rewires source es ids content golden.1 st fresh
                tidy h)
              (merge_clusters-Kept env source ms es ids content golden.1 st))

    merge_loaded-Yields :
        (ids : List String) (es : List StagedEntity)
        → All (λ e. has_text e.id ids ≡ true) es
        → Yields IsKept (merge_loaded float sort_slice env source ids es strategies priorities st)
    unfolding merge_loaded
    merge_loaded-Yields ids (e ∷ []) h = upsert_single_entity-Yields
    merge_loaded-Yields ids [] h = several-Yields ids [] h
    merge_loaded-Yields ids (e ∷ f ∷ es) h = several-Yields ids (e ∷ f ∷ es) h

  by_schema-Yields :
      (matches valid : List (MatchOutcome F)) (schema : EntityTypeSchema)
      → Yields IsKept (merge_by_schema float sort_slice env source matches valid schema st)
  unfolding merge_by_schema merge_entity_with_matches
  by_schema-Yields matches [] schema =
      upsert_single_entity-Yields (derive_field_strategies schema.properties)
        schema.source_priorities
  by_schema-Yields matches (v ∷ valid) schema =
      let rest = map (λ m. m.entity_id) matches in
      let ids = source.id ∷ rest in
      >>=-Yields (λ es. All (λ e. has_text e.id ids ≡ true) es) IsKept (env.get_by_ids ids) _
        (reliable.entities ids)
        (λ loaded h.
          merge_loaded-Yields (derive_field_strategies schema.properties) schema.source_priorities
            ids (with_source source loaded) (with_source-All source rest loaded h))

  schema_of-Yields : (raw : Option String) → Yields (λ s. Unit) (schema_of float sort_slice env raw)
  unfolding schema_of
  schema_of-Yields none = tt
  schema_of-Yields (some raw) = Succeeds-anything (env.parse_schema raw) (reliable.parses raw)

  load_schema-Yields : (key : String) → Yields (λ s. Unit) (load_schema float sort_slice env key)
  unfolding load_schema
  load_schema-Yields key =
      >>=-Yields (λ o. Unit) (λ s. Unit) (env.get_by_key key) _
        (Succeeds-anything (env.get_by_key key) (reliable.schemas key)) (λ o _. schema_of-Yields o)

  -- From consistent tables without removed members and without repeated identifiers, with a fresh
  -- identifier, queries that answer and a codec that does not fail, MergeWithMatches succeeds: the source
  -- entity is active in the cluster that is reported, which is not deleted, and the tables are again
  -- consistent, without removed members and without repeated identifiers.
  pub merge_with_matches-Yields :
      (matches : List (MatchOutcome F))
      → Yields (IsTidyMerge source) (merge_with_matches float sort_slice env source matches st)
  unfolding merge_with_matches
  merge_with_matches-Yields matches =
      go (merge_with_matches float sort_slice env source matches st)
        (>>=-Yields (λ s. Unit) IsKept (load_schema float sort_slice env source.entity_type) _
          (load_schema-Yields source.entity_type)
          (λ schema _. by_schema-Yields matches (valid_matches matches) schema))
        (merge_with_matches-IsMerge float sort_slice env source matches st tidy.consistent)
    where
      go :
          (o : Option (MergeResult F × Store R))
          → Yields IsKept o
          → Ensures (IsMerge (source ∷ [])) o
          → Yields (IsTidyMerge source) o
      go none y e = absurd y
      go (some p) y e = (
        e,
        record {
          consistent = e.consistent;
          not_removed = y.not_removed tidy.not_removed;
          distinct = y.distinct tidy.distinct;
        },
      )
