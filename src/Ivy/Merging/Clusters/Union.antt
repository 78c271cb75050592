-- ===== src/Ivy/Merging/Clusters/Union.antt =====
-- The clusters as sets: what createNewCluster, updateExistingCluster and consolidateClusters of
-- ivy/pkg/merging/engine.go unite, and what they leave apart.
use meadow.Prelude.{
  ◌≡◌, ◌⊎◌, false, String, List, [], ◌∷◌, refl, sym, subst, inl, inr, arith, All, Any, str_eq,
  eq_iff, if_either, Bool-cases,
}
use meadow.Ivy.Merging.Clusters.Store.{MergedEntity, EntityCluster, Store, is_active_in, move_rows}
use meadow.Ivy.Merging.Clusters.Members.{Active, move_rows-origin}

move_rows-moved :
    (from to : String) (cs : List EntityCluster) (t : String)
    → Active from t cs
    → Active to t (move_rows from to cs)
unfolding move_rows
move_rows-moved from to [] t h = absurd h
move_rows-moved from to (c ∷ cs) t (inr i) = inr (move_rows-moved from to cs t i)
move_rows-moved from to (c ∷ cs) t (inl (a, b, d)) = inl (
    if_either {A = EntityCluster}
      (λ r. (r.merged_entity_id ≡ to) × (r.staged_entity_id ≡ t) × (r.is_removed ≡ false))
      (is_active_in from c) _ _ (λ e. (refl, b, d))
      (λ e. absurd (ground (arith, e, eq_iff c.merged_entity_id from, a, d))))

move_rows-stay :
    (from to : String) (cs : List EntityCluster) (n t : String)
    → str_eq n from ≡ false
    → Active n t cs
    → Active n t (move_rows from to cs)
unfolding move_rows
move_rows-stay from to [] n t e h = absurd h
move_rows-stay from to (c ∷ cs) n t e (inr i) = inr (move_rows-stay from to cs n t e i)
move_rows-stay from to (c ∷ cs) n t e (inl (a, b, d)) = inl (
    if_either {A = EntityCluster}
      (λ r. (r.merged_entity_id ≡ n) × (r.staged_entity_id ≡ t) × (r.is_removed ≡ false))
      (is_active_in from c) _ _
      (λ g. absurd (ground (arith, g, e, eq_iff c.merged_entity_id from, eq_iff n from, a)))
      (λ g. (a, b, d)))

abbrev pub Apart : String → List MergedEntity → Type 0
Apart n ms = All (λ m. str_eq n m.id ≡ false) ms

outside_or_named : (n : String) (cs : List MergedEntity) → Apart n cs ⊎ Any (λ c. c.id ≡ n) cs
outside_or_named n [] = inl tt
outside_or_named n (c ∷ cs) = elim (Bool-cases (str_eq n c.id)) [
  | inl e ↦ inr (inl (sym ((eq_iff n c.id).0 e)))
  | inr e ↦ elim (outside_or_named n cs) [ inl a ↦ inl (e, a) | inr i ↦ inr (inr i) ]
]

module _ {R : Type 0} where
  -- The staged entity is in one of these clusters.
  abbrev pub InOne : String → List MergedEntity → Store R → Type 0
  InOne t ms st = Any (λ m. Active m.id t st.clusters) ms

  -- The members of the clusters are in `k`, and nothing else has changed.
  pub record Absorbs (k : String) (cs : List MergedEntity) (before after : Store R) : Type 0 where
    pub origin :
        (n t : String)
        → Active n t after.clusters
        → ((n ≡ k) × InOne t cs before) ⊎ (Active n t before.clusters × Apart n cs)
    pub moved : (t : String) → InOne t cs before → Active k t after.clusters
    pub kept : (n t : String) → Active n t before.clusters → Apart n cs → Active n t after.clusters

  named-InOne :
      (k t : String) (st : Store R) (cs : List MergedEntity)
      → Active k t st.clusters
      → Any (λ c. c.id ≡ k) cs
      → InOne t cs st
  named-InOne k t st [] a i = absurd i
  named-InOne k t st (c ∷ cs) a (inl e) = inl (subst (λ x. Active x t st.clusters) (sym e) a)
  named-InOne k t st (c ∷ cs) a (inr i) = inr (named-InOne k t st cs a i)

  -- Who is in the surviving cluster stays there.
  pub Absorbs-survivor :
      (k : String) (cs : List MergedEntity) (st st' : Store R)
      → Absorbs k cs st st'
      → (t : String) → Active k t st.clusters
      → Active k t st'.clusters
  Absorbs-survivor k cs st st' h t a = elim (outside_or_named k cs) [
    | inl e ↦ h.kept k t a e
    | inr i ↦ h.moved t (named-InOne k t st cs a i)
  ]

  pub Absorbs-step :
      (k : String) (c : MergedEntity) (cs : List MergedEntity) (st st1 st2 : Store R)
      → st1.clusters ≡ move_rows c.id k st.clusters
      → Absorbs k cs st1 st2
      → Absorbs k (c ∷ cs) st st2
  Absorbs-step k c cs st st1 st2 e h = record {
    origin = λ n t i. elim (h.origin n t i) [
      | inl (a, j) ↦ inl (a, back t cs j)
      | inr (j, a) ↦ elim (move_rows-origin c.id k st.clusters n t (subst (Active n t) e j)) [
        | inl g ↦ inl (g.0, inl g.1)
        | inr g ↦ inr (g.0, (g.1, a))
      ]
    ];
    moved = λ t i. elim i [
      | inl a ↦
          Absorbs-survivor k cs st1 st2 h t
            (subst (Active k t) (sym e) (move_rows-moved c.id k st.clusters t a))
      | inr j ↦ onward t cs j (λ x. h.moved t x)
    ];
    kept = λ n t a o.
        h.kept n t (subst (Active n t) (sym e) (move_rows-stay c.id k st.clusters n t o.0 a)) o.1;
  }
    where
      back :
          (t : String) (ds : List MergedEntity)
          → InOne t ds st1
          → Any (λ m. Active m.id t st.clusters) (c ∷ ds)
      back t [] i = absurd i
      back t (d ∷ ds) (inl a) =
          elim (move_rows-origin c.id k st.clusters d.id t (subst (Active d.id t) e a)) [
            | inl g ↦ inl g.1
            | inr g ↦ inr (inl g.0)
          ]
      back t (d ∷ ds) (inr i) = elim (back t ds i) [ inl a ↦ inl a | inr j ↦ inr (inr j) ]

      onward :
          (t : String) (ds : List MergedEntity)
          → InOne t ds st
          → (InOne t ds st1 → Active k t st2.clusters)
          → Active k t st2.clusters
      onward t [] i f = absurd i
      onward t (d ∷ ds) (inl a) f = elim (Bool-cases (str_eq d.id c.id)) [
        | inl g ↦ Absorbs-survivor k cs st1 st2 h t (
            subst (Active k t) (sym e) (
              move_rows-moved c.id k st.clusters t
                (subst (λ x. Active x t st.clusters) ((eq_iff d.id c.id).0 g) a)))
        | inr g ↦
            f (inl (subst (Active d.id t) (sym e) (move_rows-stay c.id k st.clusters d.id t g a)))
      ]
      onward t (d ∷ ds) (inr i) f = onward t ds i (λ x. f (inr x))
