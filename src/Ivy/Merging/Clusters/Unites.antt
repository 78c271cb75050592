-- ===== src/Ivy/Merging/Clusters/Unites.antt =====
-- The cases of mergeEntityWithMatches in ivy/pkg/merging/engine.go as one union of clusters.
use meadow.Prelude.{
  ◌≡◌, ◌⊎◌, true, String, none, List, [], ◌∷◌, ◌++◌, refl, sym, ◌∙◌, subst, inl, inr, All, Any,
  Ensures, Ensures-map, >>=-Ensures, >>=-Ensures_both, str_eq, eq_iff, if_either, Bool-cases,
  length,
}
use meadow.Ivy.Merging.Fields.Defs.{MergeConflict}
use meadow.Ivy.Merging.Clusters.Store.{
  MergedEntity, Store, create, change_merged, update_merged, soft_delete, collides, move_rows,
  move_cluster_members,
}
use meadow.Ivy.Merging.Clusters.Golden.{StagedEntity}
use meadow.Ivy.Merging.Clusters.Engine.{
  Environment, is_none, new_entity, add_members, absorb, create_new_cluster,
  update_existing_cluster, consolidate_clusters, merge_clusters,
}
use meadow.Ivy.Merging.Clusters.Members.{Active}
use meadow.Ivy.Merging.Clusters.Live.{Changed}
use meadow.Ivy.Merging.Clusters.Statements.{
  change_merged-Changed, create-appends, Added, add_members-Added,
}
use meadow.Ivy.Merging.Clusters.Consistent.{Updated, update_merged-Updated}
use meadow.Ivy.Merging.Clusters.Union.{InOne, Apart, Absorbs, Absorbs-step, Absorbs-survivor}

module _ {R : Type 0} where
  -- In the cluster `k` are exactly the entities and the members of the clusters; all other memberships are as
  -- before.
  pub record Unites (es : List StagedEntity) (ms : List MergedEntity) (before : Store R)
      (k : String) (after : Store R) : Type 0 where
    pub origin :
        (n t : String)
        → Active n t after.clusters
        → ((n ≡ k) × (Any (λ e. e.id ≡ t) es ⊎ InOne t ms before))
          ⊎ (Active n t before.clusters × Apart n ms)
    pub joined :
        (t : String) → Any (λ e. e.id ≡ t) es ⊎ InOne t ms before → Active k t after.clusters
    pub kept : (n t : String) → Active n t before.clusters → Apart n ms → Active n t after.clusters

  entity-Active :
      (k t : String) (st : Store R) (es : List StagedEntity)
      → All (λ e. Active k e.id st.clusters) es
      → Any (λ e. e.id ≡ t) es
      → Active k t st.clusters
  entity-Active k t st [] a i = absurd i
  entity-Active k t st (e ∷ es) a (inl g) = subst (λ x. Active k x st.clusters) g a.0
  entity-Active k t st (e ∷ es) a (inr i) = entity-Active k t st es a.1 i

  Added-Unites :
      (k : String) (es : List StagedEntity) (st st1 st2 : Store R)
      → st1.clusters ≡ st.clusters
      → Added k es st1 st2
      → Unites es [] st k st2
  Added-Unites k es st st1 st2 e a = record {
    origin = λ n t i. elim (a.origin n t i) [
      | inl g ↦ inl (g.0, inl g.1)
      | inr j ↦ inr (subst (Active n t) e j, tt)
    ];
    joined = λ t i. elim i [ inl g ↦ entity-Active k t st2 es a.joined g | inr g ↦ absurd g ];
    kept = λ n t i o. a.kept n t (subst (Active n t) (sym e) i);
  }

  Absorbs-Unites :
      (m : MergedEntity) (cs : List MergedEntity) (es : List StagedEntity) (st st1 st2 : Store R)
      → Absorbs m.id cs st st1
      → Added m.id es st1 st2
      → Unites es (m ∷ cs) st m.id st2
  Absorbs-Unites m cs es st st1 st2 b a = record {
    origin = λ n t i. elim (a.origin n t i) [
      | inl g ↦ inl (g.0, inl g.1)
      | inr j ↦ elim (b.origin n t j) [
        | inl g ↦ inl (g.0, inr (inr g.1))
        | inr g ↦ elim (Bool-cases (str_eq n m.id)) [
          | inl e ↦
              (let same = (eq_iff n m.id).0 e in
                inl (same, inr (inl (subst (λ x. Active x t st.clusters) same g.0))))
          | inr e ↦ inr (g.0, (e, g.1))
        ]
      ]
    ];
    joined = λ t i. elim i [
      | inl g ↦ entity-Active m.id t st2 es a.joined g
      | inr (inl g) ↦ a.kept m.id t (Absorbs-survivor m.id cs st st1 b t g)
      | inr (inr g) ↦ a.kept m.id t (b.moved t g)
    ];
    kept = λ n t i o. a.kept n t (b.kept n t i o.1);
  }

  Unites-same :
      (es : List StagedEntity) (ms : List MergedEntity) (st st1 st2 : Store R) (k l : String)
      → l ≡ k
      → st2.clusters ≡ st1.clusters
      → Unites es ms st k st1
      → Unites es ms st l st2
  Unites-same es ms st st1 st2 k l d e u = record {
    origin = λ n t i. elim (u.origin n t (subst (Active n t) e i)) [
      | inl g ↦ inl (g.0 ∙ sym d, g.1)
      | inr g ↦ inr g
    ];
    joined = λ t i.
        subst (Active l t) (sym e) (subst (λ x. Active x t st1.clusters) (sym d) (u.joined t i));
    kept = λ n t i o. subst (Active n t) (sym e) (u.kept n t i o);
  }

  move_cluster_members-moves :
      (from to : String) (st : Store R)
      → Ensures (λ s. s.clusters ≡ move_rows from to st.clusters) (move_cluster_members from to st)
  unfolding move_cluster_members
  move_cluster_members-moves from to st =
      if_either (Ensures (λ s. s.clusters ≡ move_rows from to st.clusters))
        (collides from to st.clusters st.clusters) none _ (λ e. tt) (λ e. refl)

  soft_delete-same :
      (id : String) (st : Store R) → Ensures (λ p. (p.1).clusters ≡ st.clusters) (soft_delete id st)
  unfolding soft_delete
  soft_delete-same id st =
      Ensures-map
        (λ p.
          Changed id (λ m. record m { is_deleted = true }) st.merged (p.1).merged p.0
          × ((p.1).clusters ≡ st.clusters))
        (λ p. (p.1).clusters ≡ st.clusters)
        (change_merged id (λ m. record m { is_deleted = true }) st)
        (change_merged-Changed id (λ m. record m { is_deleted = true }) st) (λ p c. c.1)

module _ {F R : Type 0} (env : Environment F R) where
  absorb-Absorbs :
      (k : String) (cs : List MergedEntity) (st : Store R)
      → Ensures (Absorbs k cs st) (absorb env k cs st)
  unfolding absorb
  absorb-Absorbs k [] st = record {
    origin = λ n t i. inr (i, tt);
    moved = λ t i. absurd i;
    kept = λ n t i o. i;
  }
  absorb-Absorbs k (c ∷ cs) st =
      >>=-Ensures_both (λ s. s.clusters ≡ move_rows c.id k st.clusters) (Absorbs k (c ∷ cs) st)
        (move_cluster_members c.id k st) _ (move_cluster_members-moves c.id k st)
        (λ st1 e.
          >>=-Ensures (Absorbs k (c ∷ cs) st) (env.rewire_merged_entity c.id k st1.relations) _
            (λ r.
              let st1' = record st1 { relations = r } in
              >>=-Ensures_both (λ p. (p.1).clusters ≡ st1.clusters) (Absorbs k (c ∷ cs) st)
                (soft_delete c.id st1') _ (soft_delete-same c.id st1')
                (λ (u, st2) d.
                  Ensures-map (Absorbs k cs st2) (Absorbs k (c ∷ cs) st) (absorb env k cs st2)
                    (absorb-Absorbs k cs st2) (λ st3 a. Absorbs-step k c cs st st2 st3 (d ∙ e) a))))

  -- When nothing fails, createNewCluster, updateExistingCluster and consolidateClusters, whichever the
  -- clusters that exist call for, unite these clusters and the entities: all of these are active in the
  -- cluster that is reported, together with nobody but who was there before; none of the other clusters
  -- keeps a member, and all memberships in clusters that do not take part are as they were.
  pub merge_clusters-Unites :
      (source : StagedEntity) (ms : List MergedEntity) (es : List StagedEntity) (ids : List String)
      (content : String) (conflicts : List (MergeConflict F)) (st : Store R)
      → Ensures
          (λ p. Unites es ms st p.0.merged_entity.id p.1)
          (merge_clusters env source ms es ids content conflicts st)
  unfolding merge_clusters create_new_cluster update_existing_cluster consolidate_clusters
  merge_clusters-Unites source [] es ids content conflicts st =
      let m = new_entity env source content (length es) in
      >>=-Ensures_both (λ s. (s.merged ≡ st.merged ++ m ∷ []) × (s.clusters ≡ st.clusters)) _
        (create m st) _ (create-appends m st)
        (λ st1 c.
          >>=-Ensures_both (Added m.id es st1) _ (add_members m.id true es st1) _
            (add_members-Added m.id true es st1) (λ st2 a. Added-Unites m.id es st st1 st2 c.1 a))
  merge_clusters-Unites source (m ∷ []) es ids content conflicts st =
      let primary = is_none m.primary_source_id in
      >>=-Ensures_both (λ p. Updated m.id st p.0 p.1) _ (update_merged m.id content (length es) st)
        _ (update_merged-Updated m.id content (length es) st)
        (λ (u, st1) c.
          >>=-Ensures_both (Added m.id es st1) _ (add_members m.id primary es st1) _
            (add_members-Added m.id primary es st1)
            (λ st2 a. Unites-same es (m ∷ []) st st2 st2 m.id u.id c.same_id refl (
              Absorbs-Unites m [] es st st1 st2
                (record {
                  origin = λ n t i. inr (subst (Active n t) c.members i, tt);
                  moved = λ t i. absurd i;
                  kept = λ n t i o. subst (Active n t) (sym c.members) i;
                })
                a)))
  merge_clusters-Unites source (m ∷ n ∷ ms) es ids content conflicts st =
      let primary = is_none m.primary_source_id in
      >>=-Ensures_both (Absorbs m.id (n ∷ ms) st) _ (absorb env m.id (n ∷ ms) st) _
        (absorb-Absorbs m.id (n ∷ ms) st)
        (λ st1 b.
          >>=-Ensures_both (Added m.id es st1) _ (add_members m.id primary es st1) _
            (add_members-Added m.id primary es st1)
            (λ st2 a.
              >>=-Ensures_both (λ p. Updated m.id st2 p.0 p.1) _
                (update_merged m.id content (length es) st2) _
                (update_merged-Updated m.id content (length es) st2)
                (λ (u, st3) c.
                  Unites-same es (m ∷ n ∷ ms) st st2 st3 m.id u.id c.same_id c.members
                    (Absorbs-Unites m (n ∷ ms) es st st1 st2 b a))))
