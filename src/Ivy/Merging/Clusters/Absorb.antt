-- ===== src/Ivy/Merging/Clusters/Absorb.antt =====
-- When the statements of ivy/internal/repositories/mergedentity/repository.go, and the loops over them in
-- consolidateClusters of ivy/pkg/merging/engine.go, succeed.
use meadow.Prelude.{
  ◌≡◌, ◌⊎◌, Bool, true, false, String, Option, none, some, List, [], ◌∷◌, refl, sym, ◌∙◌, inl, inr,
  All, All-map, str_eq, subst, if_either, Yields, Ensures, Succeeds, >>=-Yields, Yields-Ensures,
  Yields-map, Succeeds-Yields,
}
use meadow.Ivy.Merging.Clusters.Store.{
  MergedEntity, Store, change_merged, soft_delete, is_active_elsewhere, add_to_cluster, collides,
  move_rows, move_cluster_members,
}
use meadow.Ivy.Merging.Clusters.Golden.{StagedEntity}
use meadow.Ivy.Merging.Clusters.Engine.{Environment, add_members, absorb}
use meadow.Ivy.Merging.Clusters.Members.{Active, OneCluster, move_rows-origin, move_rows-OneCluster}
use meadow.Ivy.Merging.Clusters.Live.{Live, Changed, Changed-keeps}
use meadow.Ivy.Merging.Clusters.Statements.{
  change_merged-Changed, Added, add_to_cluster-Added, add_members-Added,
}
use meadow.Ivy.Merging.Clusters.Gather.{
  NotRemoved, DistinctIds, Live-change_live, Active-is_active_elsewhere, OneCluster-collides,
  move_rows-NotRemoved,
}

abbrev deleted : MergedEntity → MergedEntity
deleted m = record m { is_deleted = true }

module _ {R : Type 0} where
  -- The entities are active in the cluster or in none.
  abbrev pub Gathered : String → List StagedEntity → Store R → Type 0
  Gathered k es st = All (λ e. (n : String) → Active n e.id st.clusters → n ≡ k) es

  pub add_to_cluster-Yields :
      (k : String) (e : StagedEntity) (p : Bool) (st : Store R)
      → Gathered k (e ∷ []) st
      → Yields (Added k (e ∷ []) st) (add_to_cluster k e.id p st)
  unfolding add_to_cluster
  add_to_cluster-Yields k e p st g =
      Yields-Ensures (λ s. Unit) (Added k (e ∷ []) st) (add_to_cluster k e.id p st)
        (if_either (Yields (λ s. Unit)) (is_active_elsewhere k e.id st.clusters) none _
          (λ h. cc (h, Active-is_active_elsewhere k e.id st.clusters g.0)) (λ h. tt))
        (add_to_cluster-Added k e p st)

  pub add_members-Yields :
      (k : String) (p : Bool) (es : List StagedEntity) (st : Store R)
      → Gathered k es st
      → Yields (Added k es st) (add_members k p es st)
  unfolding add_members
  add_members-Yields k p es st g =
      Yields-Ensures (λ s. Unit) (Added k es st) (add_members k p es st) (go p es st g)
        (add_members-Added k p es st)
    where
      go :
          (p : Bool) (es : List StagedEntity) (st : Store R)
          → Gathered k es st
          → Yields (λ s. Unit) (add_members k p es st)
      go p [] st g = tt
      go p (e ∷ es) st g =
          >>=-Yields (Added k (e ∷ []) st) (λ s. Unit) (add_to_cluster k e.id p st) _
            (add_to_cluster-Yields k e p st (g.0, tt))
            (λ st1 a. go false es st1 (
              All-map es (λ f h n i. elim (a.origin n f.id i) [ inl x ↦ x.0 | inr j ↦ h n j ]) g.1))

  pub change_merged-Yields :
      (id : String) (f : MergedEntity → MergedEntity) (st : Store R)
      → Live id st.merged
      → Yields
          (λ p. Changed id f st.merged (p.1).merged p.0 × ((p.1).clusters ≡ st.clusters))
          (change_merged id f st)
  unfolding change_merged
  change_merged-Yields id f st l =
      Yields-Ensures (λ p. Unit)
        (λ p. Changed id f st.merged (p.1).merged p.0 × ((p.1).clusters ≡ st.clusters))
        (change_merged id f st)
        (let p = Live-change_live id f st.merged l in rw (p.1, change_merged) tt)
        (change_merged-Changed id f st)

  -- What `absorb` starts from: one surviving cluster and others, all live and with different identifiers.
  pub record Ready (k : String) (cs : List MergedEntity) (st : Store R) : Type 0 where
    pub one : OneCluster st.clusters
    pub not_removed : NotRemoved st.clusters
    pub live : Live k st.merged
    pub others : All (λ c. Live c.id st.merged) cs
    pub apart : All (λ c. str_eq k c.id ≡ false) cs
    pub distinct : DistinctIds cs

  pub record Absorbed (k : String) (cs : List MergedEntity) (before after : Store R) : Type 0 where
    pub live : Live k after.merged
    pub origin :
        (n t : String)
        → Active n t after.clusters
        → (n ≡ k) ⊎ (Active n t before.clusters × All (λ c. str_eq n c.id ≡ false) cs)

  abbrev Moved : String → String → Store R → Store R → Type 0
  Moved from to before after =
      (after.merged ≡ before.merged) × (after.clusters ≡ move_rows from to before.clusters)

  move_cluster_members-Yields :
      (k : String) (c : MergedEntity) (cs : List MergedEntity) (st : Store R)
      → Ready k (c ∷ cs) st
      → Yields (Moved c.id k st) (move_cluster_members c.id k st)
  unfolding move_cluster_members
  move_cluster_members-Yields k c cs st r =
      if_either (Yields (Moved c.id k st)) (collides c.id k st.clusters st.clusters) none _
        (λ h. cc (h, OneCluster-collides c.id k st.clusters r.apart.0 r.not_removed r.one))
        (λ h. (refl, refl))

  Ready-step :
      (k : String) (c : MergedEntity) (cs : List MergedEntity) (st st2 : Store R) (u : MergedEntity)
      → Ready k (c ∷ cs) st
      → Changed c.id deleted st.merged st2.merged u
      → st2.clusters ≡ move_rows c.id k st.clusters
      → Ready k cs st2
  Ready-step k c cs st st2 u r d e =
      let f : MergedEntity → MergedEntity = deleted in
      record {
        one = subst OneCluster (sym e) (move_rows-OneCluster c.id k st.clusters r.one);
        not_removed =
            subst NotRemoved (sym e) (move_rows-NotRemoved c.id k st.clusters r.not_removed);
        live = Changed-keeps c.id f (λ m. refl) k d r.apart.0 r.live;
        others = keep cs r.distinct.0 r.others.1;
        apart = r.apart.1;
        distinct = r.distinct.1;
      }
    where
      keep :
          (ds : List MergedEntity)
          → All (λ n. str_eq n.id c.id ≡ false) ds
          → All (λ n. Live n.id st.merged) ds
          → All (λ n. Live n.id st2.merged) ds
      keep [] a l = tt
      keep (n ∷ ds) a l = (Changed-keeps c.id deleted (λ m. refl) n.id d a.0 l.0, keep ds a.1 l.1)

  Absorbed-step :
      (k : String) (c : MergedEntity) (cs : List MergedEntity) (st st2 : Store R)
      → st2.clusters ≡ move_rows c.id k st.clusters
      → (st3 : Store R) → Absorbed k cs st2 st3
      → Absorbed k (c ∷ cs) st st3
  Absorbed-step k c cs st st2 e st3 a = record {
    live = a.live;
    origin = λ n t i. elim (a.origin n t i) [
      | inl b ↦ inl b
      | inr (j, b) ↦ elim (move_rows-origin c.id k st.clusters n t (subst (Active n t) e j)) [
        | inl g ↦ inl g.0
        | inr (g, h) ↦ inr (g, (h, b))
      ]
    ];
  }

module _ {F R : Type 0} (env : Environment F R)
    (rewires : (from to : String) (r : R) → Succeeds (env.rewire_merged_entity from to r)) where
  pub absorb-Yields :
      (k : String) (cs : List MergedEntity) (st : Store R)
      → Ready k cs st
      → Yields (Absorbed k cs st) (absorb env k cs st)
  unfolding absorb soft_delete
  absorb-Yields k [] st r = record { live = r.live; origin = λ n t i. inr (i, tt) }
  absorb-Yields k (c ∷ cs) st r =
      >>=-Yields (Moved c.id k st) (Absorbed k (c ∷ cs) st) (move_cluster_members c.id k st) _
        (move_cluster_members-Yields k c cs st r)
        (λ st1 moved.
          >>=-Yields (λ x. Unit) (Absorbed k (c ∷ cs) st)
            (env.rewire_merged_entity c.id k st1.relations) _
            (Succeeds-Yields (λ x. Unit) _ (rewires c.id k st1.relations)
              (any (env.rewire_merged_entity c.id k st1.relations)))
            (λ x _.
              let st1' = record st1 { relations = x } in
              >>=-Yields
                (λ p.
                  Changed c.id deleted st1.merged (p.1).merged p.0
                  × ((p.1).clusters ≡ st1.clusters))
                (Absorbed k (c ∷ cs) st) (soft_delete c.id st1') _
                (change_merged-Yields c.id deleted st1'
                  (subst (Live c.id) (sym moved.0) r.others.0))
                (λ (u, st2) d.
                  let r2 =
                    Ready-step k c cs st st2 u r
                      (subst (λ ms. Changed c.id deleted ms st2.merged u) moved.0 d.0)
                      (d.1 ∙ moved.1) in
                  Yields-map (Absorbed k cs st2) (Absorbed k (c ∷ cs) st) (absorb env k cs st2)
                    (absorb-Yields k cs st2 r2) (Absorbed-step k c cs st st2 (d.1 ∙ moved.1)))))
    where
      any : (o : Option R) → Ensures (λ x. Unit) o
      any none = tt
      any (some x) = tt
