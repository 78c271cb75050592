-- ===== src/Ivy/Merging/Clusters/Together.antt =====
-- What MergeWithMatches of ivy/pkg/merging/engine.go leaves behind, case by case: createNewCluster,
-- updateExistingCluster, consolidateClusters and upsertSingleEntity.
use meadow.Prelude.{
  ◌≡◌, ◌⊎◌, true, false, String, Option, none, some, List, [], ◌∷◌, ◌++◌, refl, subst, sym, All,
  Ensures, >>=-Ensures, >>=-Ensures_both, str_eq, length,
}
use meadow.Ivy.Merging.Fields.Defs.{MergeConflict}
use meadow.Ivy.Merging.Clusters.Store.{
  MergedEntity, Store, create, update_merged, soft_delete, move_cluster_members,
}
use meadow.Ivy.Merging.Clusters.Golden.{StagedEntity}
use meadow.Ivy.Merging.Clusters.Engine.{
  MergeResult, Environment, is_none, add_members, new_entity, create_new_cluster,
  update_existing_cluster, absorb, consolidate_clusters, merge_clusters,
}
use meadow.Ivy.Merging.Clusters.Members.{Active}
use meadow.Ivy.Merging.Clusters.Live.{Live, Live-append, Live-append_new}
use meadow.Ivy.Merging.Clusters.Statements.{
  IsConsistentBut, IsConsistent, IsConsistent-but, create-appends, Added, add_members-Added,
  Added-IsConsistentBut, move_cluster_members-moved,
}
use meadow.Ivy.Merging.Clusters.Consistent.{
  Updated, update_merged-Updated, soft_delete-keeps, Together, Added-Together, Updated-IsConsistent,
}

module _ {F R : Type 0} where
  -- The cluster of the result holds the entities.
  abbrev pub IsMerge : List StagedEntity → MergeResult F × Store R → Type 0
  IsMerge es p = Together es p.0.merged_entity.id p.1

module _ {F R : Type 0} (env : Environment F R) where
  pub create-Live :
      (m : MergedEntity) (st : Store R)
      → m.is_deleted ≡ false
      → IsConsistent st
      → Ensures (λ st'. IsConsistent st' × Live m.id st'.merged) (create m st)
  create-Live m st d h = go (create m st) (create-appends m st)
    where
      go :
          (o : Option (Store R))
          → Ensures (λ st'. (st'.merged ≡ st.merged ++ m ∷ []) × (st'.clusters ≡ st.clusters)) o
          → Ensures (λ st'. IsConsistent st' × Live m.id st'.merged) o
      go none g = tt
      go (some st') (a, b) = (
        record {
          alive = λ n s i.
              subst (Live n) (sym a)
                (Live-append n st.merged (m ∷ []) (h.alive n s (subst (Active n s) b i)));
          one =
              subst (λ cs. (m n s : String) → Active m s cs → Active n s cs → m ≡ n) (sym b) h.one;
        },
        subst (Live m.id) (sym a) (Live-append_new m.id st.merged m (refl, d)),
      )

  pub create_new_cluster-IsMerge :
      (source : StagedEntity) (es : List StagedEntity) (ids : List String) (content : String)
      (conflicts : List (MergeConflict F)) (st : Store R)
      → IsConsistent st
      → Ensures (IsMerge es) (create_new_cluster env source es ids content conflicts st)
  unfolding create_new_cluster
  create_new_cluster-IsMerge source es ids content conflicts st h =
      let m = new_entity env source content (length es) in
      >>=-Ensures_both (λ st1. IsConsistent st1 × Live m.id st1.merged) (IsMerge es) (create m st) _
        (create-Live m st refl h)
        (λ st1 g.
          >>=-Ensures_both (Added m.id es st1) (IsMerge es) (add_members m.id true es st1) _
            (add_members-Added m.id true es st1)
            (λ st2 a. Added-Together m.id es st1 st2 g.1 g.0 a))

  pub update_existing_cluster-IsMerge :
      (existing : MergedEntity) (es : List StagedEntity) (ids : List String) (content : String)
      (conflicts : List (MergeConflict F)) (st : Store R)
      → IsConsistent st
      → Ensures (IsMerge es) (update_existing_cluster env existing es ids content conflicts st)
  unfolding update_existing_cluster
  update_existing_cluster-IsMerge existing es ids content conflicts st h =
      let primary = is_none existing.primary_source_id in
      >>=-Ensures_both (λ p. Updated existing.id st p.0 p.1) (IsMerge es)
        (update_merged existing.id content (length es) st) _
        (update_merged-Updated existing.id content (length es) st)
        (λ (m, st1) u.
          >>=-Ensures_both (Added existing.id es st1) (IsMerge es)
            (add_members existing.id primary es st1) _
            (add_members-Added existing.id primary es st1)
            (λ st2 a.
              subst (λ k. Together es k st2) (sym u.same_id)
                (Added-Together existing.id es st1 st2 u.live
                  (Updated-IsConsistent existing.id m st st1 u (IsConsistent-but existing.id st h))
                  a)))

  absorb-IsConsistentBut :
      (k : String) (cs : List MergedEntity) (st : Store R)
      → IsConsistentBut k st
      → Ensures (IsConsistentBut k) (absorb env k cs st)
  unfolding absorb
  absorb-IsConsistentBut k [] st h = h
  absorb-IsConsistentBut k (c ∷ cs) st h =
      >>=-Ensures_both
        (λ st'.
          IsConsistentBut k st'
          × (st'.merged ≡ st.merged)
          × ((m s : String) → Active m s st'.clusters → (m ≡ k) ⊎ (str_eq m c.id ≡ false)))
        (IsConsistentBut k) (move_cluster_members c.id k st) _
        (move_cluster_members-moved c.id k st h)
        (λ st1 g.
          >>=-Ensures (IsConsistentBut k) (env.rewire_merged_entity c.id k st1.relations) _ (λ r.
            let st1' = record st1 { relations = r } in
            >>=-Ensures_both (λ p. IsConsistentBut k p.1) (IsConsistentBut k)
              (soft_delete c.id st1') _
              (soft_delete-keeps c.id k st1' (record { alive = g.0.alive; one = g.0.one }) g.2)
              (λ (m, st2) d. absorb-IsConsistentBut k cs st2 d)))

  pub consolidate_clusters-IsMerge :
      (surviving : MergedEntity) (others : List MergedEntity) (es : List StagedEntity)
      (ids : List String) (content : String) (conflicts : List (MergeConflict F)) (st : Store R)
      → IsConsistent st
      → Ensures (IsMerge es) (consolidate_clusters env surviving others es ids content conflicts st)
  unfolding consolidate_clusters
  consolidate_clusters-IsMerge surviving others es ids content conflicts st h =
      let k = surviving.id in
      let primary = is_none surviving.primary_source_id in
      >>=-Ensures_both (IsConsistentBut k) (IsMerge es) (absorb env k others st) _
        (absorb-IsConsistentBut k others st (IsConsistent-but k st h))
        (λ st1 b.
          >>=-Ensures_both (Added k es st1) (IsMerge es) (add_members k primary es st1) _
            (add_members-Added k primary es st1)
            (λ st2 a.
              >>=-Ensures_both (λ p. Updated k st2 p.0 p.1) (IsMerge es)
                (update_merged k content (length es) st2) _
                (update_merged-Updated k content (length es) st2)
                (λ (m, st3) u. record {
                  consistent =
                      Updated-IsConsistent k m st2 st3 u (Added-IsConsistentBut k es st1 st2 a b);
                  live = subst (λ x. Live x st3.merged) (sym u.same_id) u.live;
                  joined =
                      subst (λ x. All (λ e. Active x e.id st3.clusters) es) (sym u.same_id)
                        (subst (λ cs. All (λ e. Active k e.id cs) es) (sym u.members) a.joined);
                })))

  -- From consistent tables, createNewCluster, updateExistingCluster and consolidateClusters, whichever the
  -- clusters that exist call for, leave consistent tables when no statement fails, and in them all the
  -- entities are active in the cluster that is reported, which is not deleted.
  pub merge_clusters-IsMerge :
      (source : StagedEntity) (existing : List MergedEntity) (es : List StagedEntity)
      (ids : List String) (content : String) (conflicts : List (MergeConflict F)) (st : Store R)
      → IsConsistent st
      → Ensures (IsMerge es) (merge_clusters env source existing es ids content conflicts st)
  unfolding merge_clusters
  merge_clusters-IsMerge source [] = create_new_cluster-IsMerge source
  merge_clusters-IsMerge source (m ∷ []) = update_existing_cluster-IsMerge m
  merge_clusters-IsMerge source (m ∷ n ∷ ms) = consolidate_clusters-IsMerge m (n ∷ ms)
