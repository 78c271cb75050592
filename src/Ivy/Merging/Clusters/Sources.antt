-- ===== src/Ivy/Merging/Clusters/Sources.antt =====
-- Which entities and clusters MergeWithMatches of ivy/pkg/merging/engine.go works on: the defensive append
-- of the source, and GetMergedEntitiesByStagedIDs for it.
use meadow.Prelude.{
  ◌≡◌, true, not, ◌&&◌, String, List, [], ◌∷◌, ◌++◌, refl, subst, inl, inr, arith, All, Any, str_eq,
  eq_iff, if_either, if_split,
}
use meadow.Ivy.Merging.Clusters.Store.{
  MergedEntity, EntityCluster, is_active_in, has_text, holds_any, holding,
}
use meadow.Ivy.Merging.Clusters.Golden.{StagedEntity}
use meadow.Ivy.Merging.Clusters.Dispatch.{contains_entity, with_source}
use meadow.Ivy.Merging.Clusters.Members.{Active}

abbrev pub HasSource : StagedEntity → List StagedEntity → Type 0
HasSource source es = Any (λ e. e.id ≡ source.id) es

contains_entity-HasSource :
    (source : StagedEntity) (es : List StagedEntity)
    → contains_entity source.id es ≡ true
    → HasSource source es
unfolding contains_entity
contains_entity-HasSource source [] h = absurd (cc h)
contains_entity-HasSource source (e ∷ es) h =
    if_split (str_eq e.id source.id) _ _ h (λ d g. inl ((eq_iff e.id source.id).0 d))
      (λ d g. inr (contains_entity-HasSource source es g))

appended-HasSource :
    (source : StagedEntity) (es : List StagedEntity) → HasSource source (es ++ source ∷ [])
appended-HasSource source [] = inl refl
appended-HasSource source (e ∷ es) = inr (appended-HasSource source es)

pub with_source-HasSource :
    (source : StagedEntity) (es : List StagedEntity) → HasSource source (with_source source es)
unfolding with_source
with_source-HasSource source es =
    if_either (HasSource source) (contains_entity source.id es) _ _
      (contains_entity-HasSource source es) (λ e. appended-HasSource source es)

holds_any-Active :
    (id s : String) (cs : List EntityCluster) → holds_any id (s ∷ []) cs ≡ true → Active id s cs
unfolding holds_any has_text
holds_any-Active id s [] h = absurd (cc h)
holds_any-Active id s (c ∷ cs) h =
    if_split (is_active_in id c && has_text c.staged_entity_id (s ∷ [])) _ _ h
      (λ e g. inl (
        ground (arith, eq_iff c.merged_entity_id id),
        ground (arith, eq_iff s c.staged_entity_id),
        ground arith,
      ))
      (λ e g. inr (holds_any-Active id s cs g))

pub holding-Active :
    (s : String) (cs : List EntityCluster) (ms : List MergedEntity)
    → All (λ m. Active m.id s cs) (holding (s ∷ []) cs ms)
unfolding holding
holding-Active s cs [] = tt
holding-Active s cs (m ∷ ms) =
    let rest = holding-Active s cs ms in
    if_either (All (λ m. Active m.id s cs)) (not m.is_deleted && holds_any m.id (s ∷ []) cs) _ _
      (λ e. (holds_any-Active m.id s cs (ground arith), rest)) (λ e. rest)

pub joined-source :
    (source : StagedEntity) (id : String) (cs : List EntityCluster) (es : List StagedEntity)
    → All (λ e. Active id e.id cs) es
    → HasSource source es
    → Active id source.id cs
joined-source source id cs [] h i = absurd i
joined-source source id cs (e ∷ es) h (inl i) = subst (λ s. Active id s cs) i h.0
joined-source source id cs (e ∷ es) h (inr i) = joined-source source id cs es h.1 i
