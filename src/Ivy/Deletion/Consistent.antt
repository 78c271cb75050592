-- ===== src/Ivy/Deletion/Consistent.antt =====
-- What processStagedEntityDeletion of ivy/pkg/processor/deletion_processor.go leaves behind.
use meadow.Prelude.{
  ◌≡◌, true, false, String, Option, none, some, List, [], ◌∷◌, refl, sym, subst, inl, inr, arith,
  All, Any, Ensures, Ensures-map, str_eq, eq_iff, Bool-cases,
}
use meadow.Ivy.Merging.Clusters.Store.{
  MergedEntity, EntityCluster, Store, change_merged, soft_delete, holding, has_text,
  get_merged_entities_by_staged_ids,
}
use meadow.Ivy.Merging.Clusters.Members.{Active}
use meadow.Ivy.Merging.Clusters.Live.{Changed, Changed-keeps}
use meadow.Ivy.Merging.Clusters.Statements.{IsConsistent, change_merged-Changed}
use meadow.Ivy.Merging.Clusters.Sources.{holding-Active}
use meadow.Ivy.Merging.Clusters.Gather.{Active-holding}
use meadow.Ivy.Deletion.Processor.{
  members_of, remove_from_cluster, get_cluster_members, finish, cascade, end_if_empty,
  leave_cluster, process_staged_entity_deletion,
}
use meadow.Ivy.Deletion.Members.{remove_rows-origin, remove_rows-keeps, members_of-none}

module _ {R : Type 0} where
  -- The tables are consistent, the staged entity is active in no cluster, and all others are where they were.
  pub record IsCleared (id : String) (before after : Store R) : Type 0 where
    pub consistent : IsConsistent after
    pub gone : (n : String) → Active n id after.clusters → ⊥
    pub others :
        (n t : String)
        → str_eq t id ≡ false
        → Active n t before.clusters
        → Active n t after.clusters

  -- A cluster without active members can be deleted.
  soft_delete-IsConsistent :
      (id : String) (st : Store R)
      → IsConsistent st
      → ((t : String) → Active id t st.clusters → ⊥)
      → Ensures (λ p. IsConsistent p.1 × ((p.1).clusters ≡ st.clusters)) (soft_delete id st)
  unfolding soft_delete
  soft_delete-IsConsistent id st h empty =
      Ensures-map (λ p. Changed id f st.merged (p.1).merged p.0 × ((p.1).clusters ≡ st.clusters))
        (λ p. IsConsistent p.1 × ((p.1).clusters ≡ st.clusters)) (change_merged id f st)
        (change_merged-Changed id f st)
        (λ p c. (
          record {
            alive = λ n s i.
                let j = subst (Active n s) c.1 i in
                elim (Bool-cases (str_eq n id)) [
                  | inl e ↦
                      absurd (empty s (subst (λ x. Active x s st.clusters) ((eq_iff n id).0 e) j))
                  | inr e ↦ Changed-keeps id f (λ m. refl) n c.0 e (h.alive n s j)
                ];
            one =
                subst (λ cs. (m n s : String) → Active m s cs → Active n s cs → m ≡ n) (sym c.1)
                  h.one;
          },
          c.1,
        ))
    where
      f : MergedEntity → MergedEntity
      f = λ m. record m { is_deleted = true }

  removed-IsCleared :
      (id m : String) (st : Store R)
      → IsConsistent st
      → Active m id st.clusters
      → IsCleared id st (remove_from_cluster m id st)
  unfolding remove_from_cluster
  removed-IsCleared id m st h a = record {
    consistent = record {
      alive = λ n s i. h.alive n s (remove_rows-origin m id st.clusters n s i).0;
      one = λ k n s i j.
          h.one k n s (remove_rows-origin m id st.clusters k s i).0
            (remove_rows-origin m id st.clusters n s j).0;
    };
    gone =
        λ n i. let p = remove_rows-origin m id st.clusters n id i in p.1 (h.one n m id p.0 a) refl;
    others = λ n t e i. remove_rows-keeps m id st.clusters n t e i;
  }

  -- What does not change the memberships keeps the entity out.
  IsCleared-same :
      (id : String) (st st1 st2 : Store R)
      → IsCleared id st st1
      → IsConsistent st2
      → st2.clusters ≡ st1.clusters
      → IsCleared id st st2
  IsCleared-same id st st1 st2 c h e = record {
    consistent = h;
    gone = λ n i. c.gone n (subst (Active n id) e i);
    others = λ n t d i. subst (Active n t) (sym e) (c.others n t d i);
  }

module _ {R : Type 0} (soft_delete_relations : String → R → Option R) (id : String)
    (before : Store R) where
  finish-IsCleared :
      (st : Store R) (o : Option R)
      → IsCleared id before st
      → IsCleared id before (finish soft_delete_relations st o).1
  unfolding finish
  finish-IsCleared st none c = c
  finish-IsCleared st (some r) c =
      IsCleared-same id before st (record st { relations = r }) c
        (record { alive = c.consistent.alive; one = c.consistent.one }) refl

  cascade-IsCleared :
      (m : String) (st : Store R) (o : Option (MergedEntity × Store R))
      → IsCleared id before st
      → Ensures (λ p. IsConsistent p.1 × ((p.1).clusters ≡ st.clusters)) o
      → IsCleared id before (cascade soft_delete_relations m st o).1
  unfolding cascade
  cascade-IsCleared m st none c e = c
  cascade-IsCleared m st (some (n, after)) c e =
      finish-IsCleared after (soft_delete_relations m after.relations)
        (IsCleared-same id before st after c e.0 e.1)

  end_if_empty-IsCleared :
      (m : String) (cs : List EntityCluster) (st : Store R)
      → IsCleared id before st
      → members_of m st.clusters ≡ cs
      → IsCleared id before (end_if_empty soft_delete_relations m cs st).1
  unfolding end_if_empty
  end_if_empty-IsCleared m (c ∷ cs) st k e = k
  end_if_empty-IsCleared m [] st k e =
      cascade-IsCleared m st (soft_delete m st) k
        (soft_delete-IsConsistent m st k.consistent (members_of-none m st.clusters e))

  leave_cluster-IsCleared :
      (ms : List MergedEntity)
      → IsConsistent before
      → All (λ m. Active m.id id before.clusters) ms
      → ((n : String) → Active n id before.clusters → Any (λ m. m.id ≡ n) ms)
      → IsCleared id before (leave_cluster soft_delete_relations id ms before).1
  unfolding leave_cluster get_cluster_members
  leave_cluster-IsCleared [] h a f = record { consistent = h; gone = f; others = λ n t e i. i }
  leave_cluster-IsCleared (m ∷ ms) h a f =
      let st = remove_from_cluster m.id id before in
      end_if_empty-IsCleared m.id (members_of m.id st.clusters) st
        (removed-IsCleared id m.id before h a.0) refl

  -- From consistent tables, the deletion of a staged entity leaves consistent tables in which the entity is
  -- active in no cluster and all others are active where they were, whether or not the deletion of the
  -- relationships of an emptied cluster fails.
  pub process_staged_entity_deletion-IsCleared :
      IsConsistent before
      → IsCleared id before (process_staged_entity_deletion soft_delete_relations id true before).1
  unfolding process_staged_entity_deletion get_merged_entities_by_staged_ids
  process_staged_entity_deletion-IsCleared h =
      leave_cluster-IsCleared (holding (id ∷ []) before.clusters before.merged) h
        (holding-Active id before.clusters before.merged)
        (λ n i.
          Active-holding (id ∷ []) before.clusters n id before.merged
            (unfold has_text in ground (arith, eq_iff id id)) i (h.alive n id i))
