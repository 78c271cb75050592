-- ===== src/Ivy/Deletion/Members.antt =====
-- Who is active in which cluster after RemoveFromCluster of
-- ivy/internal/repositories/mergedentity/repository.go.
use meadow.Prelude.{
  ◌≡◌, Bool, true, false, not, ◌&&◌, String, List, [], ◌∷◌, refl, inl, inr, arith, str_eq, eq_iff,
  if_either, if_split, if◌then◌else◌,
}
use meadow.Ivy.Merging.Clusters.Store.{EntityCluster, is_member, is_active_in}
use meadow.Ivy.Merging.Clusters.Members.{Makes, Active}
use meadow.Ivy.Deletion.Processor.{remove_rows, members_of}

-- Who is active afterwards was so before, and is not the one that was removed.
pub remove_rows-origin :
    (m s : String) (cs : List EntityCluster) (n t : String)
    → Active n t (remove_rows m s cs)
    → Active n t cs × ((n ≡ m) → (t ≡ s) → ⊥)
unfolding remove_rows
remove_rows-origin m s [] n t h = absurd h
remove_rows-origin m s (c ∷ cs) n t (inr i) =
    let p = remove_rows-origin m s cs n t i in (inr p.0, p.1)
remove_rows-origin m s (c ∷ cs) n t (inl h) = go (is_member m s c && not c.is_removed) refl h
  where
    go :
        (b : Bool)
        → (is_member m s c && not c.is_removed) ≡ b
        → Makes n t (if b then (record c { is_removed = true }) else c)
        → Active n t (c ∷ cs) × ((n ≡ m) → (t ≡ s) → ⊥)
    go true e (a, b, d) = absurd (cc d)
    go false e (a, b, d) = (
      inl (a, b, d),
      λ x y.
          ground
            (arith, e, d, eq_iff c.merged_entity_id m, eq_iff c.staged_entity_id s, a, b, x, y),
    )

pub remove_rows-keeps :
    (m s : String) (cs : List EntityCluster) (n t : String)
    → str_eq t s ≡ false
    → Active n t cs
    → Active n t (remove_rows m s cs)
unfolding remove_rows
remove_rows-keeps m s [] n t e h = absurd h
remove_rows-keeps m s (c ∷ cs) n t e (inr i) = inr (remove_rows-keeps m s cs n t e i)
remove_rows-keeps m s (c ∷ cs) n t e (inl (a, b, d)) = inl (
    if_either {A = EntityCluster} (Makes n t) (is_member m s c && not c.is_removed) _ _
      (λ g. absurd (ground (arith, g, e, eq_iff c.staged_entity_id s, eq_iff t s, b)))
      (λ g. (a, b, d)))

-- A cluster without members that are returned has no active one.
pub members_of-none :
    (m : String) (cs : List EntityCluster) → members_of m cs ≡ [] → (t : String) → Active m t cs → ⊥
unfolding members_of
members_of-none m [] h t i = i
members_of-none m (c ∷ cs) h t i =
    if_split (is_active_in m c) _ _ h (λ e g. absurd (cc g))
      (λ e g. elim i [
        | inl (a, b, d) ↦ ground (arith, e, eq_iff c.merged_entity_id m, a, d)
        | inr j ↦ members_of-none m cs g t j
      ])
