-- ===== src/Ivy/Merging/Clusters/Statements.antt =====
-- What the statements of ivy/internal/repositories/mergedentity/repository.go ensure where they succeed.
use meadow.Prelude.{
  ◌≡◌, ◌⊎◌, Bool, false, String, Option, none, some, List, [], ◌∷◌, ◌++◌, refl, ◌∙◌, subst, sym,
  inl, inr, arith, All, All-map, Any, Ensures, >>=-Ensures_both, str_eq, eq_iff, if_either,
  Option-cases, Bool-cases,
}
use meadow.Ivy.Merging.Clusters.Store.{
  MergedEntity, Store, has_id, create, change_live, change_merged, is_active_elsewhere,
  add_to_cluster, collides, move_cluster_members,
}
use meadow.Ivy.Merging.Clusters.Golden.{StagedEntity}
use meadow.Ivy.Merging.Clusters.Engine.{add_members}
use meadow.Ivy.Merging.Clusters.Members.{
  Active, OneCluster, upsert_member-Active, upsert_member-keeps, upsert_member-origin,
  upsert_member-OneCluster, move_rows-origin, move_rows-OneCluster,
}
use meadow.Ivy.Merging.Clusters.Live.{Live, Changed, change_live-Changed}

module _ {R : Type 0} where
  -- Every active membership but those in `k` is in a cluster that is not deleted.
  pub record IsConsistentBut (k : String) (st : Store R) : Type 0 where
    pub alive : (m s : String) → str_eq m k ≡ false → Active m s st.clusters → Live m st.merged
    pub one : OneCluster st.clusters

  -- Every active membership is in a cluster that is not deleted, and nobody is in two.
  pub record IsConsistent (st : Store R) : Type 0 where
    pub alive : (m s : String) → Active m s st.clusters → Live m st.merged
    pub one : OneCluster st.clusters

  pub IsConsistent-but : (k : String) (st : Store R) → IsConsistent st → IsConsistentBut k st
  IsConsistent-but k st h = record { alive = λ m s e i. h.alive m s i; one = h.one }

  pub IsConsistent-close :
      (k : String) (st : Store R) → IsConsistentBut k st → Live k st.merged → IsConsistent st
  IsConsistent-close k st h l = record {
    alive = λ m s i. elim (Bool-cases (str_eq m k)) [
      | inl e ↦ subst (λ x. Live x st.merged) (sym ((eq_iff m k).0 e)) l
      | inr e ↦ h.alive m s e i
    ];
    one = h.one;
  }

  pub change_merged-Changed :
      (id : String) (f : MergedEntity → MergedEntity) (st : Store R)
      → Ensures
          (λ p. Changed id f st.merged (p.1).merged p.0 × ((p.1).clusters ≡ st.clusters))
          (change_merged id f st)
  unfolding change_merged
  change_merged-Changed id f st = elim (Option-cases (change_live id f st.merged)) [
    | inl e ↦ rw (e, change_merged) tt
    | inr (p, e) ↦ rw (e, change_merged) (change_live-Changed id f st.merged p.0 p.1 e, refl)
  ]

  pub create-appends :
      (m : MergedEntity) (st : Store R)
      → Ensures
          (λ st'. (st'.merged ≡ st.merged ++ m ∷ []) × (st'.clusters ≡ st.clusters))
          (create m st)
  unfolding create
  create-appends m st =
      if_either (Ensures (λ st'. (st'.merged ≡ st.merged ++ m ∷ []) × (st'.clusters ≡ st.clusters)))
        (has_id m.id st.merged) none _ (λ e. tt) (λ e. (refl, refl))

  -- The entities have joined the cluster, and nothing else has changed.
  pub record Added (id : String) (es : List StagedEntity) (before after : Store R) : Type 0 where
    pub merged_same : after.merged ≡ before.merged
    pub joined : All (λ e. Active id e.id after.clusters) es
    pub kept : (n t : String) → Active n t before.clusters → Active n t after.clusters
    pub origin :
        (n t : String)
        → Active n t after.clusters
        → ((n ≡ id) × Any (λ e. e.id ≡ t) es) ⊎ Active n t before.clusters
    pub one : OneCluster before.clusters → OneCluster after.clusters

  pub add_to_cluster-Added :
      (id : String) (e : StagedEntity) (p : Bool) (st : Store R)
      → Ensures (Added id (e ∷ []) st) (add_to_cluster id e.id p st)
  unfolding add_to_cluster
  add_to_cluster-Added id e p st =
      if_either (Ensures (Added id (e ∷ []) st)) (is_active_elsewhere id e.id st.clusters) none _
        (λ h. tt)
        (λ h. record {
          merged_same = refl;
          joined = (upsert_member-Active id e.id p st.clusters, tt);
          kept = upsert_member-keeps id e.id p st.clusters;
          origin = λ n t i. elim (upsert_member-origin id e.id p st.clusters n t i) [
            | inl (a, b) ↦ inl (a, inl (sym b))
            | inr j ↦ inr j
          ];
          one = upsert_member-OneCluster id e.id p st.clusters h;
        })

  Added-trans :
      (id : String) (es fs : List StagedEntity) (s1 s2 s3 : Store R)
      → Added id es s1 s2
      → Added id fs s2 s3
      → All (λ e. Active id e.id s3.clusters) es
  Added-trans id es fs s1 s2 s3 h g = All-map es (λ e i. g.kept id e.id i) h.joined

  pub add_members-Added :
      (id : String) (p : Bool) (es : List StagedEntity) (st : Store R)
      → Ensures (Added id es st) (add_members id p es st)
  unfolding add_members
  add_members-Added id p [] st = record {
    merged_same = refl;
    joined = tt;
    kept = λ n t i. i;
    origin = λ n t i. inr i;
    one = λ h. h;
  }
  add_members-Added id p (e ∷ es) st =
      >>=-Ensures_both (Added id (e ∷ []) st) (Added id (e ∷ es) st) (add_to_cluster id e.id p st) _
        (add_to_cluster-Added id e p st)
        (λ st1 h. weaken st1 h (add_members id false es st1) (add_members-Added id false es st1))
    where
      weaken :
          (st1 : Store R)
          → Added id (e ∷ []) st st1
          → (o : Option (Store R)) → Ensures (Added id es st1) o
          → Ensures (Added id (e ∷ es) st) o
      weaken st1 h none g = tt
      weaken st1 h (some st2) g = record {
        merged_same = g.merged_same ∙ h.merged_same;
        joined = (g.kept id e.id h.joined.0, g.joined);
        kept = λ n t i. g.kept n t (h.kept n t i);
        origin = λ n t i. elim (g.origin n t i) [
          | inl a ↦ inl (a.0, inr a.1)
          | inr j ↦ elim (h.origin n t j) [
            | inl (a, inl b) ↦ inl (a, inl b)
            | inl (a, inr b) ↦ absurd b
            | inr k ↦ inr k
          ]
        ];
        one = λ k. g.one (h.one k);
      }

  -- New members of `k` leave the other clusters as they are.
  pub Added-IsConsistentBut :
      (k : String) (es : List StagedEntity) (st st' : Store R)
      → Added k es st st'
      → IsConsistentBut k st
      → IsConsistentBut k st'
  Added-IsConsistentBut k es st st' h g = record {
    alive = λ m s e i. elim (h.origin m s i) [
      | inl (a, b) ↦ absurd (ground (arith, eq_iff m k))
      | inr j ↦ subst (Live m) (sym h.merged_same) (g.alive m s e j)
    ];
    one = h.one g.one;
  }

  -- The members of a cluster move to `k`.
  pub move_cluster_members-moved :
      (from k : String) (st : Store R)
      → IsConsistentBut k st
      → Ensures
          (λ st'.
            IsConsistentBut k st'
            × (st'.merged ≡ st.merged)
            × ((m s : String) → Active m s st'.clusters → (m ≡ k) ⊎ (str_eq m from ≡ false)))
          (move_cluster_members from k st)
  unfolding move_cluster_members
  move_cluster_members-moved from k st h =
      if_either
        (Ensures (λ st'.
          IsConsistentBut k st'
          × (st'.merged ≡ st.merged)
          × ((m s : String) → Active m s st'.clusters → (m ≡ k) ⊎ (str_eq m from ≡ false))))
        (collides from k st.clusters st.clusters) none _ (λ e. tt)
        (λ e. (
          record {
            alive = λ m s d i. elim (move_rows-origin from k st.clusters m s i) [
              | inl (a, j) ↦ absurd (ground (arith, eq_iff m k))
              | inr (j, a) ↦ h.alive m s d j
            ];
            one = move_rows-OneCluster from k st.clusters h.one;
          },
          refl,
          λ m s i. elim (move_rows-origin from k st.clusters m s i) [
            | inl (a, j) ↦ inl a
            | inr (j, a) ↦ inr a
          ],
        ))
