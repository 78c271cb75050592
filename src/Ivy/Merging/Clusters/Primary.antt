-- ===== src/Ivy/Merging/Clusters/Primary.antt =====
-- The column is_primary of entity_clusters under updateExistingCluster of ivy/pkg/merging/engine.go.
use meadow.Prelude.{
  ◌≡◌, false, String, Option, none, some, List, [], ◌∷◌, refl, inl, inr, arith, All, Any, Ensures,
  >>=-Ensures, >>=-Ensures_both, eq_iff, if_either, length,
}
use meadow.Ivy.Merging.Fields.Defs.{MergeConflict}
use meadow.Ivy.Merging.Clusters.Store.{
  MergedEntity, EntityCluster, Store, update_merged, is_active_elsewhere, is_member, upsert_member,
  add_to_cluster,
}
use meadow.Ivy.Merging.Clusters.Golden.{StagedEntity}
use meadow.Ivy.Merging.Clusters.Engine.{Environment, is_none, add_members, update_existing_cluster}
use meadow.Ivy.Merging.Clusters.Members.{Makes}

-- An active membership that is not the primary one.
abbrev pub Secondary : String → String → List EntityCluster → Type 0
Secondary merged_id staged_id cs =
    Any (λ c. Makes merged_id staged_id c × (c.is_primary ≡ false)) cs

upsert_member-Secondary :
    (m s : String) (cs : List EntityCluster) → Secondary m s (upsert_member m s false cs)
unfolding upsert_member
upsert_member-Secondary m s [] = inl ((refl, refl, refl), refl)
upsert_member-Secondary m s (c ∷ cs) =
    if_either (Secondary m s) (is_member m s c) _ _
      (λ e. inl (
        (
          ground (arith, eq_iff c.merged_entity_id m),
          ground (arith, eq_iff c.staged_entity_id s),
          refl,
        ),
        refl,
      ))
      (λ e. inr (upsert_member-Secondary m s cs))

upsert_member-keeps_Secondary :
    (m s n t : String) (cs : List EntityCluster)
    → Secondary n t cs
    → Secondary n t (upsert_member m s false cs)
unfolding upsert_member
upsert_member-keeps_Secondary m s n t [] h = absurd h
upsert_member-keeps_Secondary m s n t (c ∷ cs) (inl ((a, b, d), e)) =
    if_either (Secondary n t) (is_member m s c) _ _ (λ i. inl ((a, b, refl), refl))
      (λ i. inl ((a, b, d), e))
upsert_member-keeps_Secondary m s n t (c ∷ cs) (inr j) =
    if_either (Secondary n t) (is_member m s c) _ _ (λ i. inr j)
      (λ i. inr (upsert_member-keeps_Secondary m s n t cs j))

module _ {R : Type 0} where
  record Demoted (id : String) (es : List StagedEntity) (before after : Store R) : Type 0 where
    pub secondary : All (λ e. Secondary id e.id after.clusters) es
    pub stay : (t : String) → Secondary id t before.clusters → Secondary id t after.clusters

  add_to_cluster-Demoted :
      (id : String) (e : StagedEntity) (st : Store R)
      → Ensures (Demoted id (e ∷ []) st) (add_to_cluster id e.id false st)
  unfolding add_to_cluster
  add_to_cluster-Demoted id e st =
      if_either (Ensures (Demoted id (e ∷ []) st)) (is_active_elsewhere id e.id st.clusters) none _
        (λ h. tt)
        (λ h. record {
          secondary = (upsert_member-Secondary id e.id st.clusters, tt);
          stay = λ t i. upsert_member-keeps_Secondary id e.id id t st.clusters i;
        })

  add_members-Demoted :
      (id : String) (es : List StagedEntity) (st : Store R)
      → Ensures (Demoted id es st) (add_members id false es st)
  unfolding add_members
  add_members-Demoted id [] st = record { secondary = tt; stay = λ t i. i }
  add_members-Demoted id (e ∷ es) st =
      >>=-Ensures_both (Demoted id (e ∷ []) st) (Demoted id (e ∷ es) st)
        (add_to_cluster id e.id false st) _ (add_to_cluster-Demoted id e st)
        (λ st1 h. weaken st1 h (add_members id false es st1) (add_members-Demoted id es st1))
    where
      weaken :
          (st1 : Store R)
          → Demoted id (e ∷ []) st st1
          → (o : Option (Store R)) → Ensures (Demoted id es st1) o
          → Ensures (Demoted id (e ∷ es) st) o
      weaken st1 h none g = tt
      weaken st1 h (some st2) g = record {
        secondary = (g.stay e.id h.secondary.0, g.secondary);
        stay = λ t i. g.stay t (h.stay t i);
      }

module _ {F R : Type 0} (env : Environment F R) where
  -- When nothing fails, updateExistingCluster on a merged entity that has a primary source leaves every
  -- entity that it lists, the primary source among them, an active member that is not primary.
  pub update_existing_cluster-Secondary :
      (existing : MergedEntity) (primary : String) (es : List StagedEntity) (ids : List String)
      (content : String) (conflicts : List (MergeConflict F)) (st : Store R)
      → existing.primary_source_id ≡ some primary
      → Ensures
          (λ p. All (λ e. Secondary existing.id e.id (p.1).clusters) es)
          (update_existing_cluster env existing es ids content conflicts st)
  unfolding update_existing_cluster is_none
  update_existing_cluster-Secondary existing primary es ids content conflicts st h =
      >>=-Ensures _ (update_merged existing.id content (length es) st) _ (λ (m, st1). rw h (
        >>=-Ensures_both (Demoted existing.id es st1) _ (add_members existing.id false es st1) _
          (add_members-Demoted existing.id es st1) (λ st2 d. d.secondary)))
