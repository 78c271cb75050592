-- ===== src/Ivy/Merging/Clusters/Success.antt =====
-- When MergeWithMatches of ivy/pkg/merging/engine.go succeeds on several entities.
use meadow.Prelude.{
  ℕ, ◌+◌, ◌≡◌, true, false, String, List, [], ◌∷◌, ◌++◌, refl, sym, ◌∙◌, inl, inr, arith, All,
  All-map, Any, str_eq, eq_iff, subst, Yields, Succeeds, >>=-Yields, Yields-Ensures, length,
}
use meadow.Ivy.Merging.Fields.Defs.{MergeConflict}
use meadow.Ivy.Merging.Clusters.Store.{
  MergedEntity, Store, update_merged, has_id, create, has_text, holding,
  get_merged_entities_by_staged_ids,
}
use meadow.Ivy.Merging.Clusters.Golden.{StagedEntity}
use meadow.Ivy.Merging.Clusters.Engine.{
  MergeResult, Environment, is_none, new_entity, add_members, absorb, create_new_cluster,
  update_existing_cluster, consolidate_clusters, merge_clusters,
}
use meadow.Ivy.Merging.Clusters.Members.{Active}
use meadow.Ivy.Merging.Clusters.Live.{Live, Changed}
use meadow.Ivy.Merging.Clusters.Statements.{IsConsistent, Added}
use meadow.Ivy.Merging.Clusters.Consistent.{Updated, update_merged-Updated}
use meadow.Ivy.Merging.Clusters.Together.{IsMerge, merge_clusters-IsMerge}
use meadow.Ivy.Merging.Clusters.Gather.{
  NotRemoved, DistinctIds, holding-DistinctIds, holding-Live, Active-holding,
}
use meadow.Ivy.Merging.Clusters.Absorb.{
  Gathered, add_members-Yields, change_merged-Yields, Ready, Absorbed, absorb-Yields,
}

module _ {R : Type 0} where
  -- Consistent tables in which no member was removed and no two rows have one identifier.
  pub record IsTidy (st : Store R) : Type 0 where
    pub consistent : IsConsistent st
    pub not_removed : NotRemoved st.clusters
    pub distinct : DistinctIds st.merged

  pub update_merged-Yields :
      (id content : String) (n : ℕ) (st : Store R)
      → Live id st.merged
      → Yields (λ p. Updated id st p.0 p.1) (update_merged id content n st)
  unfolding update_merged
  update_merged-Yields id content n st l =
      Yields-Ensures
        (λ p.
          Changed id
            (λ m. record m { content = content; source_count = n; version = m.version + 1 })
            st.merged (p.1).merged p.0
          × ((p.1).clusters ≡ st.clusters))
        (λ p. Updated id st p.0 p.1) (update_merged id content n st)
        (change_merged-Yields id
          (λ m. record m { content = content; source_count = n; version = m.version + 1 }) st l)
        (update_merged-Updated id content n st)

  pub create-Yields :
      (m : MergedEntity) (st : Store R)
      → has_id m.id st.merged ≡ false
      → Yields
          (λ st'. (st'.merged ≡ st.merged ++ m ∷ []) × (st'.clusters ≡ st.clusters))
          (create m st)
  unfolding create
  create-Yields m st h = rw h (refl, refl)

  -- Each listed entity is active in one of these clusters or in none.
  abbrev Found : List MergedEntity → List StagedEntity → Store R → Type 0
  Found ms es st = All (λ e. (n : String) → Active n e.id st.clusters → Any (λ m. m.id ≡ n) ms) es

  Found-Gathered :
      (k : String) (cs : List MergedEntity) (m : MergedEntity) (es : List StagedEntity)
      (st st' : Store R)
      → m.id ≡ k
      → Found (m ∷ cs) es st
      → Absorbed k cs st st'
      → Gathered k es st'
  Found-Gathered k cs m es st st' e f a =
      All-map es
        (λ x found n i. elim (a.origin n x.id i) [
          | inl b ↦ b
          | inr (j, out) ↦ elim (found n j) [
            | inl g ↦ sym g ∙ e
            | inr g ↦ absurd (apart n cs out g)
          ]
        ])
        f
    where
      apart :
          (n : String) (ds : List MergedEntity)
          → All (λ c. str_eq n c.id ≡ false) ds
          → Any (λ c. c.id ≡ n) ds
          → ⊥
      apart n [] o i = i
      apart n (d ∷ ds) o (inl g) = ground (arith, eq_iff n d.id, o.0, g)
      apart n (d ∷ ds) o (inr i) = apart n ds o.1 i

module _ {F R : Type 0} (env : Environment F R)
    (rewires : (from to : String) (r : R) → Succeeds (env.rewire_merged_entity from to r))
    (source : StagedEntity) (es : List StagedEntity) (ids : List String) (content : String)
    (conflicts : List (MergeConflict F)) (st : Store R) where
  abbrev Done : MergeResult F × Store R → Type 0
  Done p = Unit

  create_new_cluster-Yields :
      has_id env.new_id st.merged ≡ false
      → Found [] es st
      → Yields Done (create_new_cluster env source es ids content conflicts st)
  unfolding create_new_cluster
  create_new_cluster-Yields fresh found =
      let m = new_entity env source content (length es) in
      >>=-Yields (λ st'. (st'.merged ≡ st.merged ++ m ∷ []) × (st'.clusters ≡ st.clusters)) Done
        (create m st) _ (create-Yields m st fresh)
        (λ st1 c.
          >>=-Yields (Added m.id es st1) Done (add_members m.id true es st1) _
            (add_members-Yields m.id true es st1
              (All-map es (λ e f n i. absurd (f n (subst (Active n e.id) c.1 i))) found))
            (λ st2 a. tt))

  update_existing_cluster-Yields :
      (m : MergedEntity)
      → Live m.id st.merged
      → Found (m ∷ []) es st
      → Yields Done (update_existing_cluster env m es ids content conflicts st)
  unfolding update_existing_cluster
  update_existing_cluster-Yields m l found =
      >>=-Yields (λ p. Updated m.id st p.0 p.1) Done (update_merged m.id content (length es) st) _
        (update_merged-Yields m.id content (length es) st l)
        (λ (n, st1) u.
          >>=-Yields (Added m.id es st1) Done
            (add_members m.id (is_none m.primary_source_id) es st1) _
            (add_members-Yields m.id (is_none m.primary_source_id) es st1 (
              All-map es
                (λ e f x i. elim (f x (subst (Active x e.id) u.members i)) [
                  | inl g ↦ sym g
                  | inr g ↦ absurd g
                ])
                found))
            (λ st2 a. tt))

  consolidate_clusters-Yields :
      (m : MergedEntity) (cs : List MergedEntity)
      → Ready m.id cs st
      → Found (m ∷ cs) es st
      → Yields Done (consolidate_clusters env m cs es ids content conflicts st)
  unfolding consolidate_clusters
  consolidate_clusters-Yields m cs r found =
      let primary = is_none m.primary_source_id in
      >>=-Yields (Absorbed m.id cs st) Done (absorb env m.id cs st) _
        (absorb-Yields env rewires m.id cs st r)
        (λ st1 a.
          >>=-Yields (Added m.id es st1) Done (add_members m.id primary es st1) _
            (add_members-Yields m.id primary es st1
              (Found-Gathered m.id cs m es st st1 refl found a))
            (λ st2 d.
              >>=-Yields (λ p. Updated m.id st2 p.0 p.1) Done
                (update_merged m.id content (length es) st2) _
                (update_merged-Yields m.id content (length es) st2
                  (subst (Live m.id) (sym d.merged_same) a.live))
                (λ p u. tt)))

  merge_each_case :
      (ms : List MergedEntity)
      → has_id env.new_id st.merged ≡ false
      → IsTidy st
      → All (λ m. Live m.id st.merged) ms
      → DistinctIds ms
      → Found ms es st
      → Yields Done (merge_clusters env source ms es ids content conflicts st)
  unfolding merge_clusters
  merge_each_case [] fresh h l d f = create_new_cluster-Yields fresh f
  merge_each_case (m ∷ []) fresh h l d f = update_existing_cluster-Yields m l.0 f
  merge_each_case (m ∷ n ∷ ms) fresh h l d f =
      consolidate_clusters-Yields m (n ∷ ms)
        (record {
          one = h.consistent.one;
          not_removed = h.not_removed;
          live = l.0;
          others = l.1;
          apart =
              All-map (n ∷ ms) (λ c e. ground (arith, e, eq_iff c.id m.id, eq_iff m.id c.id)) d.0;
          distinct = d.1;
        })
        f

  -- From consistent tables without removed members and without repeated identifiers, with a fresh
  -- identifier, a rewiring that does not fail, and entities that are among those asked for, the clusters
  -- that hold any of them become one and no statement fails: the tables are consistent, and all the
  -- entities are active in the cluster that is reported, which is not deleted.
  pub merge_clusters-Yields :
      has_id env.new_id st.merged ≡ false
      → IsTidy st
      → All (λ e. has_text e.id ids ≡ true) es
      → Yields (IsMerge es) (
          merge_clusters env source
            (get_merged_entities_by_staged_ids ids st)
            es
            ids
            content
            conflicts
            st)
  unfolding get_merged_entities_by_staged_ids
  merge_clusters-Yields fresh h listed =
      let ms = holding ids st.clusters st.merged in
      Yields-Ensures Done (IsMerge es) (merge_clusters env source ms es ids content conflicts st)
        (merge_each_case ms fresh h (holding-Live ids st.clusters st.merged)
          (holding-DistinctIds ids st.clusters st.merged h.distinct)
          (All-map es
            (λ e t n i.
              Active-holding ids st.clusters n e.id st.merged t i (h.consistent.alive n e.id i))
            listed))
        (merge_clusters-IsMerge env source ms es ids content conflicts st h.consistent)
