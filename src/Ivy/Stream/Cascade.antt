-- ===== src/Ivy/Stream/Cascade.antt =====
-- The deletion of a staged entity in ivy/pkg/processor/deletion_processor.go and in
-- ivy/pkg/processor/merge_processor.go, on tables in which no cluster is empty.
use meadow.Prelude.{
  ◌≡◌, true, String, Option, none, some, List, [], ◌∷◌, refl, sym, subst, inl, inr, arith, All,
  Yields, str_eq, eq_iff, if_split, Bool-cases,
}
use meadow.Ivy.Merging.Clusters.Store.{
  MergedEntity, EntityCluster, Store, change_merged, soft_delete, holding, is_active_in,
  get_merged_entities_by_staged_ids,
}
use meadow.Ivy.Merging.Clusters.Members.{Active}
use meadow.Ivy.Merging.Clusters.Live.{Live, Changed}
use meadow.Ivy.Merging.Clusters.Gather.{DistinctIds}
use meadow.Ivy.Merging.Clusters.Absorb.{change_merged-Yields}
use meadow.Ivy.Merging.Clusters.Tidy.{Changed-DistinctIds}
use meadow.Ivy.Merging.Clusters.Origin.{ended, ended-origin}
use meadow.Ivy.Merging.Clusters.Sources.{holding-Active}
use meadow.Ivy.Deletion.Processor.{
  members_of, remove_from_cluster, get_cluster_members, finish, cascade, end_if_empty,
  leave_cluster, process_staged_entity_deletion,
}
use meadow.Ivy.Deletion.Members.{remove_rows-keeps}
use meadow.Ivy.Deletion.Consistent.{process_staged_entity_deletion-IsCleared}
use meadow.Ivy.Stream.Merges.{
  Services, cascade_relations, after_soft_delete, delete_without_members, leave_first,
  handle_deleted_staged_entity,
}
use meadow.Ivy.Stream.Settled.{HasMember, IsSettled, SettledBut}

-- A member that is returned is active.
members_of-some :
    (m : String) (cs : List EntityCluster) (d : EntityCluster) (ds : List EntityCluster)
    → members_of m cs ≡ d ∷ ds
    → (s : String) × Active m s cs
unfolding members_of
members_of-some m [] d ds h = absurd (cc h)
members_of-some m (c ∷ cs) d ds h =
    if_split (is_active_in m c) _ _ h
      (λ e g.
        (c.staged_entity_id, inl (ground (arith, eq_iff c.merged_entity_id m), refl, ground arith)))
      (λ e g. let (s, a) = members_of-some m cs d ds g in (s, inr a))

module _ {R : Type 0} (soft_delete_relations : String → R → Option R) where
  -- No identifier is repeated, and no live cluster is empty.
  abbrev Full : Store R → Type 0
  Full st = DistinctIds st.merged × ((n : String) → Live n st.merged → HasMember n st)

  finish-Full : (st : Store R) (o : Option R) → Full st → Full (finish soft_delete_relations st o).1
  unfolding finish
  finish-Full st none f = f
  finish-Full st (some r) f = f

  cascade-Full :
      (m : String) (st : Store R) (o : Option (MergedEntity × Store R))
      → SettledBut m st
      → Yields (λ p. Changed m ended st.merged (p.1).merged p.0 × ((p.1).clusters ≡ st.clusters)) o
      → Full (cascade soft_delete_relations m st o).1
  unfolding cascade
  cascade-Full m st none b y = absurd y
  cascade-Full m st (some (u, after)) b (c, e) =
      finish-Full after (soft_delete_relations m after.relations) (
        Changed-DistinctIds m ended (λ m. refl) c b.distinct,
        λ n l.
            let (was, other) = ended-origin m n c b.distinct l in
            elim (b.occupied n was) [
              | inl d ↦ absurd (ground (arith, eq_iff n m, other, d))
              | inr (s, a) ↦ (s, subst (Active n s) (sym e) a)
            ],
      )

  end_if_empty-Full :
      (m : String) (cs : List EntityCluster) (st : Store R)
      → SettledBut m st
      → Live m st.merged
      → members_of m st.clusters ≡ cs
      → Full (end_if_empty soft_delete_relations m cs st).1
  unfolding end_if_empty soft_delete
  end_if_empty-Full m (c ∷ cs) st b l e = (
    b.distinct,
    λ n i. elim (b.occupied n i) [
      | inl d ↦
          (let (s, a) = members_of-some m st.clusters c cs e in
            (s, subst (λ x. Active x s st.clusters) (sym d) a))
      | inr j ↦ j
    ],
  )
  end_if_empty-Full m [] st b l e =
      cascade-Full m st (change_merged m ended st) b (change_merged-Yields m ended st l)

  module _ (id : String) (st : Store R) (h : IsSettled st) where
    leave_cluster-Full :
        (ms : List MergedEntity)
        → All (λ m. Active m.id id st.clusters) ms
        → Full (leave_cluster soft_delete_relations id ms st).1
    unfolding leave_cluster get_cluster_members remove_from_cluster
    leave_cluster-Full [] a = (h.distinct, h.occupied)
    leave_cluster-Full (m ∷ ms) a =
        let removed = remove_from_cluster m.id id st in
        end_if_empty-Full m.id (members_of m.id removed.clusters) removed
          (record {
            distinct = h.distinct;
            occupied = λ n l.
                let (s, i) = h.occupied n l in
                elim (Bool-cases (str_eq s id)) [
                  | inl e ↦ inl (
                      h.consistent.one n m.id id
                        (subst (λ x. Active n x st.clusters) ((eq_iff s id).0 e) i) a.0)
                  | inr e ↦ inr (s, remove_rows-keeps m.id id st.clusters n s e i)
                ];
          })
          (h.consistent.alive m.id id a.0) refl

    pub process_staged_entity_deletion-IsSettled :
        IsSettled (process_staged_entity_deletion soft_delete_relations id true st).1
    unfolding process_staged_entity_deletion get_merged_entities_by_staged_ids
    process_staged_entity_deletion-IsSettled =
        let full =
          leave_cluster-Full (holding (id ∷ []) st.clusters st.merged)
            (holding-Active id st.clusters st.merged) in
        let cleared =
          process_staged_entity_deletion-IsCleared soft_delete_relations id st h.consistent in
        record { consistent = cleared.consistent; distinct = full.0; occupied = full.1 }

module _ {F D R : Type 0} (services : Services F D R) where
  after_soft_delete-cascade :
      (m : String) (st : Store R) (o : Option (MergedEntity × Store R))
      → after_soft_delete services m st o ≡ (cascade services.soft_delete_relations m st o).1
  unfolding after_soft_delete cascade cascade_relations finish
  after_soft_delete-cascade m st none = refl
  after_soft_delete-cascade m st (some (u, after)) =
      go (services.soft_delete_relations m after.relations)
    where
      go :
          (o : Option R)
          → cascade_relations services after o ≡ (finish services.soft_delete_relations after o).1
      go none = refl
      go (some r) = refl

  pub handle_deleted_staged_entity_lem :
      (id : String) (st : Store R)
      → handle_deleted_staged_entity services id st
        ≡ (process_staged_entity_deletion services.soft_delete_relations id true st).1
  unfolding handle_deleted_staged_entity process_staged_entity_deletion leave_first leave_cluster
      delete_without_members end_if_empty
  handle_deleted_staged_entity_lem id st = leave (get_merged_entities_by_staged_ids (id ∷ []) st)
    where
      delete :
          (m : String) (cs : List EntityCluster) (s : Store R)
          → delete_without_members services m cs s
            ≡ (end_if_empty services.soft_delete_relations m cs s).1
      delete m (c ∷ cs) s = refl
      delete m [] s = after_soft_delete-cascade m s (soft_delete m s)

      leave :
          (ms : List MergedEntity)
          → leave_first services id ms st
            ≡ (leave_cluster services.soft_delete_relations id ms st).1
      leave [] = refl
      leave (m ∷ ms) =
          let removed = remove_from_cluster m.id id st in
          delete m.id (get_cluster_members m.id removed) removed
