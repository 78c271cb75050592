-- ===== src/Ivy/Merging/Clusters/Ended.antt =====
-- Which merged entities are live after the operations of ivy/pkg/merging/engine.go: those that were so before,
-- but for the clusters that ended, and the one that is reported.
use meadow.Prelude.{
  ◌≡◌, ◌⊎◌, true, String, none, List, [], ◌∷◌, ◌++◌, refl, sym, ◌∙◌, subst, inl, inr, Ensures,
  Ensures-map, Ensures-both, >>=-Ensures, >>=-Ensures_both, str_eq, eq_iff, if_either, Bool-cases,
  length, ℕ, ◌+◌,
}
use meadow.Ivy.Merging.Fields.Defs.{MergeConflict}
use meadow.Ivy.Merging.Clusters.Store.{
  MergedEntity, Store, create, change_merged, update_merged, soft_delete, collides,
  move_cluster_members,
}
use meadow.Ivy.Merging.Clusters.Golden.{StagedEntity}
use meadow.Ivy.Merging.Clusters.Engine.{
  Environment, is_none, new_entity, add_members, absorb, create_new_cluster,
  update_existing_cluster, consolidate_clusters, merge_clusters,
}
use meadow.Ivy.Merging.Clusters.Live.{Live, Changed}
use meadow.Ivy.Merging.Clusters.Statements.{
  change_merged-Changed, create-appends, Added, add_members-Added,
}
use meadow.Ivy.Merging.Clusters.Consistent.{Updated, update_merged-Updated}
use meadow.Ivy.Merging.Clusters.Gather.{DistinctIds}
use meadow.Ivy.Merging.Clusters.Tidy.{Changed-DistinctIds}
use meadow.Ivy.Merging.Clusters.Union.{Apart}
use meadow.Ivy.Merging.Clusters.Origin.{Live-append_origin, Changed-origin, ended, ended-origin}

module _ {R : Type 0} where
  update_merged-origin :
      (id content : String) (count : ℕ) (st : Store R)
      → Ensures
          (λ p. (n : String) → Live n (p.1).merged → Live n st.merged)
          (update_merged id content count st)
  unfolding update_merged
  update_merged-origin id content count st =
      Ensures-map (λ p. Changed id f st.merged (p.1).merged p.0 × ((p.1).clusters ≡ st.clusters))
        (λ p. (n : String) → Live n (p.1).merged → Live n st.merged) (change_merged id f st)
        (change_merged-Changed id f st) (λ p c n. Changed-origin id f (λ m. refl) (λ m h. h) n c.0)
    where
      f : MergedEntity → MergedEntity
      f = λ m. record m { content = content; source_count = count; version = m.version + 1 }

  -- Update reports the row's identifier, and makes no row live.
  pub updated :
      (id content : String) (count : ℕ) (st : Store R)
      → Ensures
          (λ p. (p.0.id ≡ id) × ((n : String) → Live n (p.1).merged → Live n st.merged))
          (update_merged id content count st)
  updated id content count st =
      Ensures-both (λ p. p.0.id ≡ id) (λ p. (n : String) → Live n (p.1).merged → Live n st.merged)
        (update_merged id content count st)
        (Ensures-map (λ p. Updated id st p.0 p.1) (λ p. p.0.id ≡ id)
          (update_merged id content count st) (update_merged-Updated id content count st)
          (λ p u. u.same_id))
        (update_merged-origin id content count st)

  move_cluster_members-same :
      (from to : String) (st : Store R)
      → Ensures (λ s. s.merged ≡ st.merged) (move_cluster_members from to st)
  unfolding move_cluster_members
  move_cluster_members-same from to st =
      if_either (Ensures (λ s. s.merged ≡ st.merged)) (collides from to st.clusters st.clusters)
        none _ (λ e. tt) (λ e. refl)

  -- No more rows are live than before, and not those of the clusters.
  abbrev pub Ends : List MergedEntity → Store R → Store R → Type 0
  Ends cs before after = (n : String) → Live n after.merged → Live n before.merged × Apart n cs

  -- The live rows are the one of the result and those that were live in other clusters.
  abbrev pub Leaves : List MergedEntity → Store R → String → Store R → Type 0
  Leaves cs before k after =
      (n : String) → Live n after.merged → (n ≡ k) ⊎ (Live n before.merged × Apart n cs)

  same-Leaves :
      (m : MergedEntity) (cs : List MergedEntity) (k : String) (st st1 st2 : Store R)
      → k ≡ m.id
      → Ends cs st st1
      → ((n : String) → Live n st2.merged → Live n st1.merged)
      → Leaves (m ∷ cs) st k st2
  same-Leaves m cs k st st1 st2 d g o n l = elim (Bool-cases (str_eq n m.id)) [
    | inl e ↦ inl ((eq_iff n m.id).0 e ∙ sym d)
    | inr e ↦ (let (was, apart) = g n (o n l) in inr (was, (e, apart)))
  ]

module _ {F R : Type 0} (env : Environment F R) where
  absorb-Ends :
      (k : String) (cs : List MergedEntity) (st : Store R)
      → DistinctIds st.merged
      → Ensures (Ends cs st) (absorb env k cs st)
  unfolding absorb soft_delete
  absorb-Ends k [] st d = λ n l. (l, tt)
  absorb-Ends k (c ∷ cs) st d =
      >>=-Ensures_both (λ s. s.merged ≡ st.merged) (Ends (c ∷ cs) st)
        (move_cluster_members c.id k st) _ (move_cluster_members-same c.id k st)
        (λ st1 e.
          >>=-Ensures (Ends (c ∷ cs) st) (env.rewire_merged_entity c.id k st1.relations) _ (λ r.
            let st1' = record st1 { relations = r } in
            let d1 = subst DistinctIds (sym e) d in
            >>=-Ensures_both
              (λ p.
                Changed c.id ended st1.merged (p.1).merged p.0 × ((p.1).clusters ≡ st1.clusters))
              (Ends (c ∷ cs) st) (change_merged c.id ended st1') _
              (change_merged-Changed c.id ended st1')
              (λ (u, st2) g.
                Ensures-map (Ends cs st2) (Ends (c ∷ cs) st) (absorb env k cs st2)
                  (absorb-Ends k cs st2 (Changed-DistinctIds c.id ended (λ m. refl) g.0 d1))
                  (λ st3 h n l.
                    let (l2, apart) = h n l in
                    let (l1, other) = ended-origin c.id n g.0 d1 l2 in
                    (subst (Live n) e l1, (other, apart))))))

  pub merge_clusters-Leaves :
      (source : StagedEntity) (ms : List MergedEntity) (es : List StagedEntity) (ids : List String)
      (content : String) (conflicts : List (MergeConflict F)) (st : Store R)
      → DistinctIds st.merged
      → Ensures
          (λ p. Leaves ms st p.0.merged_entity.id p.1)
          (merge_clusters env source ms es ids content conflicts st)
  unfolding merge_clusters create_new_cluster update_existing_cluster consolidate_clusters
  merge_clusters-Leaves source [] es ids content conflicts st d =
      let m = new_entity env source content (length es) in
      >>=-Ensures_both (λ s. (s.merged ≡ st.merged ++ m ∷ []) × (s.clusters ≡ st.clusters)) _
        (create m st) _ (create-appends m st)
        (λ st1 c.
          >>=-Ensures_both (Added m.id es st1) _ (add_members m.id true es st1) _
            (add_members-Added m.id true es st1)
            (λ st2 a n l.
              elim (Live-append_origin n st.merged m (subst (Live n) (a.merged_same ∙ c.0) l)) [
                | inl e ↦ inl e
                | inr j ↦ inr (j, tt)
              ]))
  merge_clusters-Leaves source (m ∷ []) es ids content conflicts st d =
      let primary = is_none m.primary_source_id in
      >>=-Ensures_both
        (λ p. (p.0.id ≡ m.id) × ((n : String) → Live n (p.1).merged → Live n st.merged)) _
        (update_merged m.id content (length es) st) _ (updated m.id content (length es) st)
        (λ (u, st1) c.
          >>=-Ensures_both (Added m.id es st1) _ (add_members m.id primary es st1) _
            (add_members-Added m.id primary es st1)
            (λ st2 a.
              same-Leaves m [] u.id st st st2 c.0 (λ n l. (l, tt))
                (λ n l. c.1 n (subst (Live n) a.merged_same l))))
  merge_clusters-Leaves source (m ∷ n ∷ ms) es ids content conflicts st d =
      let primary = is_none m.primary_source_id in
      >>=-Ensures_both (Ends (n ∷ ms) st) _ (absorb env m.id (n ∷ ms) st) _
        (absorb-Ends m.id (n ∷ ms) st d)
        (λ st1 g.
          >>=-Ensures_both (Added m.id es st1) _ (add_members m.id primary es st1) _
            (add_members-Added m.id primary es st1)
            (λ st2 a.
              >>=-Ensures_both
                (λ p. (p.0.id ≡ m.id) × ((n : String) → Live n (p.1).merged → Live n st2.merged)) _
                (update_merged m.id content (length es) st2) _
                (updated m.id content (length es) st2)
                (λ (u, st3) c.
                  same-Leaves m (n ∷ ms) u.id st st1 st3 c.0 g
                    (λ k l. subst (Live k) a.merged_same (c.1 k l)))))
