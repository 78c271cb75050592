-- ===== src/Ivy/Merging/Clusters/Tidy.antt =====
-- Tables of ivy/internal/repositories/mergedentity/repository.go from which no member was removed and in which
-- no two rows have one identifier, under the operations of ivy/pkg/merging/engine.go.
use meadow.Prelude.{
  ℕ, ◌≡◌, Bool, true, false, String, none, List, [], ◌∷◌, ◌++◌, refl, sym, arith, All, str_eq,
  eq_iff, subst, if_either, if_split, Ensures, Ensures-map, >>=-Ensures, >>=-Ensures_both, length,
}
use meadow.Ivy.Merging.Fields.Defs.{MergeConflict}
use meadow.Ivy.Merging.Clusters.Store.{
  MergedEntity, EntityCluster, Store, update_merged, soft_delete, change_merged, has_id, create,
  is_active_elsewhere, is_member, upsert_member, add_to_cluster, collides, move_cluster_members,
}
use meadow.Ivy.Merging.Clusters.Golden.{StagedEntity}
use meadow.Ivy.Merging.Clusters.Engine.{
  Environment, is_none, new_entity, add_members, absorb, create_new_cluster,
  update_existing_cluster, consolidate_clusters, merge_clusters,
}
use meadow.Ivy.Merging.Clusters.Live.{Changed, here, later}
use meadow.Ivy.Merging.Clusters.Statements.{change_merged-Changed}
use meadow.Ivy.Merging.Clusters.Gather.{NotRemoved, DistinctIds, move_rows-NotRemoved}

upsert_member-NotRemoved :
    (m s : String) (p : Bool) (cs : List EntityCluster)
    → NotRemoved cs
    → NotRemoved (upsert_member m s p cs)
unfolding upsert_member
upsert_member-NotRemoved m s p [] h = (refl, tt)
upsert_member-NotRemoved m s p (c ∷ cs) h =
    if_either NotRemoved (is_member m s c) _ _ (λ e. (refl, h.1))
      (λ e. (h.0, upsert_member-NotRemoved m s p cs h.1))

append-DistinctIds :
    (m : MergedEntity) (ms : List MergedEntity)
    → has_id m.id ms ≡ false
    → DistinctIds ms
    → DistinctIds (ms ++ m ∷ [])
unfolding has_id
append-DistinctIds m [] h d = (tt, tt)
append-DistinctIds m (n ∷ ms) h d =
    if_split (str_eq n.id m.id) _ _ h (λ e g. absurd (cc g))
      (λ e g. (
        differ ms d.0 (ground (arith, eq_iff n.id m.id, eq_iff m.id n.id)),
        append-DistinctIds m ms g d.1,
      ))
  where
    differ :
        (ns : List MergedEntity)
        → All (λ k. str_eq k.id n.id ≡ false) ns
        → str_eq m.id n.id ≡ false
        → All (λ k. str_eq k.id n.id ≡ false) (ns ++ m ∷ [])
    differ [] a e = (e, tt)
    differ (k ∷ ns) a e = (a.0, differ ns a.1 e)

module _ (id : String) (f : MergedEntity → MergedEntity)
    (same_id : (m : MergedEntity) → (f m).id ≡ m.id) where
  Changed-All :
      {ms ns : List MergedEntity} {u : MergedEntity} (k : String)
      → Changed id f ms ns u
      → All (λ n. str_eq n.id k ≡ false) ms
      → All (λ n. str_eq n.id k ≡ false) ns
  Changed-All k (here m ms h) a = (subst (λ x. str_eq x k ≡ false) (sym (same_id m)) a.0, a.1)
  Changed-All k (later m u ms ns c) a = (a.0, Changed-All k c a.1)

  pub Changed-DistinctIds :
      {ms ns : List MergedEntity} {u : MergedEntity}
      → Changed id f ms ns u
      → DistinctIds ms
      → DistinctIds ns
  Changed-DistinctIds (here m ms h) d =
      (subst (λ x. All (λ n. str_eq n.id x ≡ false) ms) (sym (same_id m)) d.0, d.1)
  Changed-DistinctIds (later m u ms ns c) d = (Changed-All m.id c d.0, Changed-DistinctIds c d.1)

module _ {R : Type 0} where
  pub record Kept (before after : Store R) : Type 0 where
    pub not_removed : NotRemoved before.clusters → NotRemoved after.clusters
    pub distinct : DistinctIds before.merged → DistinctIds after.merged

  pub Kept-trans : (s1 s2 s3 : Store R) → Kept s1 s2 → Kept s2 s3 → Kept s1 s3
  Kept-trans s1 s2 s3 h g = record {
    not_removed = λ x. g.not_removed (h.not_removed x);
    distinct = λ x. g.distinct (h.distinct x);
  }

  change_merged-Kept :
      (id : String) (f : MergedEntity → MergedEntity) (st : Store R)
      → ((m : MergedEntity) → (f m).id ≡ m.id)
      → Ensures (λ p. Kept st p.1) (change_merged id f st)
  change_merged-Kept id f st same_id =
      Ensures-map (λ p. Changed id f st.merged (p.1).merged p.0 × ((p.1).clusters ≡ st.clusters))
        (λ p. Kept st p.1) (change_merged id f st) (change_merged-Changed id f st)
        (λ p c. record {
          not_removed = subst NotRemoved (sym c.1);
          distinct = Changed-DistinctIds id f same_id c.0;
        })

  pub update_merged-Kept :
      (id content : String) (n : ℕ) (st : Store R)
      → Ensures (λ p. Kept st p.1) (update_merged id content n st)
  unfolding update_merged
  update_merged-Kept id content n st = change_merged-Kept id _ st (λ m. refl)

  soft_delete-Kept : (id : String) (st : Store R) → Ensures (λ p. Kept st p.1) (soft_delete id st)
  unfolding soft_delete
  soft_delete-Kept id st = change_merged-Kept id _ st (λ m. refl)

  pub create-Kept : (m : MergedEntity) (st : Store R) → Ensures (Kept st) (create m st)
  unfolding create
  create-Kept m st =
      if_either (Ensures (Kept st)) (has_id m.id st.merged) none _ (λ e. tt)
        (λ e. record { not_removed = λ h. h; distinct = append-DistinctIds m st.merged e })

  pub add_to_cluster-Kept :
      (id s : String) (p : Bool) (st : Store R) → Ensures (Kept st) (add_to_cluster id s p st)
  unfolding add_to_cluster
  add_to_cluster-Kept id s p st =
      if_either (Ensures (Kept st)) (is_active_elsewhere id s st.clusters) none _ (λ e. tt)
        (λ e. record {
          not_removed = upsert_member-NotRemoved id s p st.clusters;
          distinct = λ h. h;
        })

  move_cluster_members-Kept :
      (from to : String) (st : Store R) → Ensures (Kept st) (move_cluster_members from to st)
  unfolding move_cluster_members
  move_cluster_members-Kept from to st =
      if_either (Ensures (Kept st)) (collides from to st.clusters st.clusters) none _ (λ e. tt)
        (λ e. record { not_removed = move_rows-NotRemoved from to st.clusters; distinct = λ h. h })

  add_members-Kept :
      (id : String) (p : Bool) (es : List StagedEntity) (st : Store R)
      → Ensures (Kept st) (add_members id p es st)
  unfolding add_members
  add_members-Kept id p [] st = record { not_removed = λ h. h; distinct = λ h. h }
  add_members-Kept id p (e ∷ es) st =
      >>=-Ensures_both (Kept st) (Kept st) (add_to_cluster id e.id p st) _
        (add_to_cluster-Kept id e.id p st)
        (λ st1 h.
          Ensures-map (Kept st1) (Kept st) (add_members id false es st1)
            (add_members-Kept id false es st1) (λ st2 g. Kept-trans st st1 st2 h g))

module _ {F R : Type 0} (env : Environment F R) where
  absorb-Kept :
      (k : String) (cs : List MergedEntity) (st : Store R) → Ensures (Kept st) (absorb env k cs st)
  unfolding absorb
  absorb-Kept k [] st = record { not_removed = λ h. h; distinct = λ h. h }
  absorb-Kept k (c ∷ cs) st =
      >>=-Ensures_both (Kept st) (Kept st) (move_cluster_members c.id k st) _
        (move_cluster_members-Kept c.id k st)
        (λ st1 h. >>=-Ensures (Kept st) (env.rewire_merged_entity c.id k st1.relations) _ (λ r.
          let st1' = record st1 { relations = r } in
          >>=-Ensures_both (λ p. Kept st1' p.1) (Kept st) (soft_delete c.id st1') _
            (soft_delete-Kept c.id st1')
            (λ (u, st2) g.
              Ensures-map (Kept st2) (Kept st) (absorb env k cs st2) (absorb-Kept k cs st2)
                (λ st3 i.
                  Kept-trans st st2 st3
                    (Kept-trans st st1 st2 h
                      (record { not_removed = g.not_removed; distinct = g.distinct }))
                    i))))

  pub merge_clusters-Kept :
      (source : StagedEntity) (ms : List MergedEntity) (es : List StagedEntity) (ids : List String)
      (content : String) (conflicts : List (MergeConflict F)) (st : Store R)
      → Ensures (λ p. Kept st p.1) (merge_clusters env source ms es ids content conflicts st)
  unfolding merge_clusters create_new_cluster update_existing_cluster consolidate_clusters
  merge_clusters-Kept source [] es ids content conflicts st =
      let m = new_entity env source content (length es) in
      >>=-Ensures_both (Kept st) (λ p. Kept st p.1) (create m st) _ (create-Kept m st)
        (λ st1 h.
          >>=-Ensures_both (Kept st1) (λ p. Kept st p.1) (add_members m.id true es st1) _
            (add_members-Kept m.id true es st1) (λ st2 g. Kept-trans st st1 st2 h g))
  merge_clusters-Kept source (m ∷ []) es ids content conflicts st =
      let primary = is_none m.primary_source_id in
      >>=-Ensures_both (λ p. Kept st p.1) (λ p. Kept st p.1)
        (update_merged m.id content (length es) st) _
        (update_merged-Kept m.id content (length es) st)
        (λ (n, st1) h.
          >>=-Ensures_both (Kept st1) (λ p. Kept st p.1) (add_members m.id primary es st1) _
            (add_members-Kept m.id primary es st1) (λ st2 g. Kept-trans st st1 st2 h g))
  merge_clusters-Kept source (m ∷ n ∷ ms) es ids content conflicts st =
      let primary = is_none m.primary_source_id in
      >>=-Ensures_both (Kept st) (λ p. Kept st p.1) (absorb env m.id (n ∷ ms) st) _
        (absorb-Kept m.id (n ∷ ms) st)
        (λ st1 h.
          >>=-Ensures_both (Kept st1) (λ p. Kept st p.1) (add_members m.id primary es st1) _
            (add_members-Kept m.id primary es st1)
            (λ st2 g.
              >>=-Ensures_both (λ p. Kept st2 p.1) (λ p. Kept st p.1)
                (update_merged m.id content (length es) st2) _
                (update_merged-Kept m.id content (length es) st2)
                (λ (u, st3) i. Kept-trans st st2 st3 (Kept-trans st st1 st2 h g) i)))
