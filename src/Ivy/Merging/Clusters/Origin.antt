-- ===== src/Ivy/Merging/Clusters/Origin.antt =====
-- Which merged entities were live before a row changed in
-- ivy/internal/repositories/mergedentity/repository.go, where they are so after it.
use meadow.Prelude.{
  ◌≡◌, ◌⊎◌, true, false, String, List, [], ◌∷◌, ◌++◌, refl, sym, ◌∙◌, subst, inl, inr, arith, All,
  str_eq, eq_iff, Bool-cases,
}
use meadow.Ivy.Merging.Clusters.Store.{MergedEntity}
use meadow.Ivy.Merging.Clusters.Live.{Live, Changed, here, later}
use meadow.Ivy.Merging.Clusters.Gather.{DistinctIds}

pub Live-append_origin :
    (n : String) (ms : List MergedEntity) (m : MergedEntity)
    → Live n (ms ++ m ∷ [])
    → (n ≡ m.id) ⊎ Live n ms
Live-append_origin n [] m (inl h) = inl (sym h.0)
Live-append_origin n [] m (inr i) = absurd i
Live-append_origin n (k ∷ ms) m (inl h) = inr (inl h)
Live-append_origin n (k ∷ ms) m (inr i) = elim (Live-append_origin n ms m i) [
  | inl e ↦ inl e
  | inr j ↦ inr (inr j)
]

-- No row of another identifier is live under this one.
differ-Live :
    (id k : String) (ms : List MergedEntity)
    → All (λ n. str_eq n.id k ≡ false) ms
    → k ≡ id
    → Live id ms
    → ⊥
differ-Live id k [] a e l = l
differ-Live id k (m ∷ ms) a e (inl h) = ground (arith, a.0, eq_iff m.id k, h.0, e)
differ-Live id k (m ∷ ms) a e (inr i) = differ-Live id k ms a.1 e i

module _ (id : String) (f : MergedEntity → MergedEntity)
    (same_id : (m : MergedEntity) → (f m).id ≡ m.id) where
  -- A change that revives nothing makes no row live.
  pub Changed-origin :
      ((m : MergedEntity) → (f m).is_deleted ≡ false → m.is_deleted ≡ false)
      → {ms ns : List MergedEntity} {u : MergedEntity} (n : String) → Changed id f ms ns u
      → Live n ns
      → Live n ms
  Changed-origin d n (here m ms h) (inl g) = inl (sym (same_id m) ∙ g.0, d m g.1)
  Changed-origin d n (here m ms h) (inr i) = inr i
  Changed-origin d n (later m u ms ns c) (inl g) = inl g
  Changed-origin d n (later m u ms ns c) (inr i) = inr (Changed-origin d n c i)

was_Live :
    (id : String) (f : MergedEntity → MergedEntity) {ms ns : List MergedEntity} {u : MergedEntity}
    → Changed id f ms ns u
    → Live id ms
was_Live id f (here m ms h) = inl h
was_Live id f (later m u ms ns c) = inr (was_Live id f c)

abbrev pub ended : MergedEntity → MergedEntity
ended m = record m { is_deleted = true }

-- Where identifiers are not repeated, none is live after its deletion.
ended-gone :
    (id : String) {ms ns : List MergedEntity} {u : MergedEntity}
    → Changed id ended ms ns u
    → DistinctIds ms
    → Live id ns
    → ⊥
ended-gone id (here m ms h) d (inl g) = cc (g.1)
ended-gone id (here m ms h) d (inr i) = differ-Live id m.id ms d.0 h.0 i
ended-gone id (later m u ms ns c) d (inl g) = differ-Live id m.id ms d.0 g.0 (was_Live id ended c)
ended-gone id (later m u ms ns c) d (inr i) = ended-gone id c d.1 i

pub ended-origin :
    (id n : String) {ms ns : List MergedEntity} {u : MergedEntity}
    → Changed id ended ms ns u
    → DistinctIds ms
    → Live n ns
    → Live n ms × (str_eq n id ≡ false)
ended-origin id n {ms} {ns} c d l = (
  Changed-origin id ended (λ m. refl) (λ m h. absurd (cc h)) n c l,
  elim (Bool-cases (str_eq n id)) [
    | inl e ↦ absurd (ended-gone id c d (subst (λ x. Live x ns) ((eq_iff n id).0 e) l))
    | inr e ↦ e
  ],
)
