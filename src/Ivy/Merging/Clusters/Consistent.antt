-- ===== src/Ivy/Merging/Clusters/Consistent.antt =====
-- What every case of the `switch` in ivy/pkg/merging/engine.go leaves behind: createNewCluster,
-- updateExistingCluster, consolidateClusters and upsertSingleEntity.
use meadow.Prelude.{
  ℕ, ◌+◌, ◌≡◌, ◌⊎◌, true, false, String, Option, none, some, List, refl, subst, sym, inl, inr,
  arith, All, Ensures, str_eq, eq_iff,
}
use meadow.Ivy.Merging.Clusters.Store.{
  MergedEntity, Store, change_merged, update_merged, soft_delete,
}
use meadow.Ivy.Merging.Clusters.Golden.{StagedEntity}
use meadow.Ivy.Merging.Clusters.Members.{Active}
use meadow.Ivy.Merging.Clusters.Live.{
  Live, Changed, Changed-id, Changed-keeps, Changed-keeps_all, Changed-Live,
}
use meadow.Ivy.Merging.Clusters.Statements.{
  IsConsistentBut, IsConsistent, IsConsistent-but, IsConsistent-close, change_merged-Changed, Added,
  Added-IsConsistentBut,
}

module _ {R : Type 0} where
  -- Update finds the row, which stays live, and leaves everybody else where they are.
  pub record Updated (id : String) (before : Store R) (m : MergedEntity) (after : Store R)
      : Type 0 where
    pub same_id : m.id ≡ id
    pub live : Live id after.merged
    pub keeps : (k : String) → Live k before.merged → Live k after.merged
    pub members : after.clusters ≡ before.clusters

  pub update_merged-Updated :
      (id content : String) (n : ℕ) (st : Store R)
      → Ensures (λ p. Updated id st p.0 p.1) (update_merged id content n st)
  unfolding update_merged
  update_merged-Updated id content n st = go (change_merged id _ st) (change_merged-Changed id _ st)
    where
      f : MergedEntity → MergedEntity
      f = λ m. record m { content = content; source_count = n; version = m.version + 1 }

      go :
          (o : Option (MergedEntity × Store R))
          → Ensures
              (λ p. Changed id f st.merged (p.1).merged p.0 × ((p.1).clusters ≡ st.clusters))
              o
          → Ensures (λ p. Updated id st p.0 p.1) o
      go none h = tt
      go (some (m, after)) (c, e) = record {
        same_id = Changed-id id f (λ m. refl) c;
        live = Changed-Live id f (λ m. refl) (λ m. refl) c;
        keeps = λ k l. Changed-keeps_all id f (λ m. refl) (λ m. refl) k c l;
        members = e;
      }

  pub soft_delete-keeps :
      (id k : String) (st : Store R)
      → IsConsistentBut k st
      → ((m s : String) → Active m s st.clusters → (m ≡ k) ⊎ (str_eq m id ≡ false))
      → Ensures (λ p. IsConsistentBut k p.1) (soft_delete id st)
  unfolding soft_delete
  soft_delete-keeps id k st h gone = go (change_merged id _ st) (change_merged-Changed id _ st)
    where
      f : MergedEntity → MergedEntity
      f = λ m. record m { is_deleted = true }

      go :
          (o : Option (MergedEntity × Store R))
          → Ensures
              (λ p. Changed id f st.merged (p.1).merged p.0 × ((p.1).clusters ≡ st.clusters))
              o
          → Ensures (λ p. IsConsistentBut k p.1) o
      go none g = tt
      go (some (u, after)) (c, e) = record {
        alive = λ m s d i.
            let j = subst (Active m s) e i in
            elim (gone m s j) [
              | inl a ↦ absurd (ground (arith, eq_iff m k))
              | inr a ↦ Changed-keeps id f (λ m. refl) m c a (h.alive m s d j)
            ];
        one = subst (λ cs. (m n s : String) → Active m s cs → Active n s cs → m ≡ n) (sym e) h.one;
      }

  -- The entities are active in one cluster, which is not deleted, and the tables are consistent.
  pub record Together (es : List StagedEntity) (id : String) (st : Store R) : Type 0 where
    pub consistent : IsConsistent st
    pub live : Live id st.merged
    pub joined : All (λ e. Active id e.id st.clusters) es

  pub Added-Together :
      (id : String) (es : List StagedEntity) (st st' : Store R)
      → Live id st.merged
      → IsConsistent st
      → Added id es st st'
      → Together es id st'
  Added-Together id es st st' l h a =
      let l' = subst (Live id) (sym a.merged_same) l in
      record {
        consistent =
            IsConsistent-close id st'
              (Added-IsConsistentBut id es st st' a (IsConsistent-but id st h)) l';
        live = l';
        joined = a.joined;
      }

  pub Updated-IsConsistent :
      (id : String) (m : MergedEntity) (st st' : Store R)
      → Updated id st m st'
      → IsConsistentBut id st
      → IsConsistent st'
  Updated-IsConsistent id m st st' u h =
      IsConsistent-close id st'
        (record {
          alive = λ n s d i. u.keeps n (h.alive n s d (subst (Active n s) u.members i));
          one =
              subst (λ cs. (m n s : String) → Active m s cs → Active n s cs → m ≡ n) (sym u.members)
                h.one;
        })
        u.live
