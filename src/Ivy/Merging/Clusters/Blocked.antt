-- ===== src/Ivy/Merging/Clusters/Blocked.antt =====
-- What MergeWithMatches of ivy/pkg/merging/engine.go makes of matches that a no-merge rule blocks.
use meadow.Prelude.{
  ◌≡◌, Option, sym, ◌∙◌, false, List, [], ◌∷◌, ap, inl, inr, refl, Any, ◌>>=◌, map, if_split,
}
use meadow.Prelude.Sorting.{SortSlice}
use meadow.Json.{FloatOps}
use meadow.Ivy.Matching.Defs.{MatchOutcome}
use meadow.Ivy.Merging.Fields.Defs.{FieldValue}
use meadow.Ivy.Merging.Clusters.Store.{Store}
use meadow.Ivy.Merging.Clusters.Golden.{StagedEntity, EntityTypeSchema, derive_field_strategies}
use meadow.Ivy.Merging.Clusters.Engine.{MergeResult, Environment}
use meadow.Ivy.Merging.Clusters.Dispatch.{
  with_source, valid_matches, merge_loaded, merge_entity_with_matches, merge_by_schema, load_schema,
  merge_with_matches,
}

module _ {F : Type 0} where
  -- The same match, as if no rule blocked it.
  abbrev pub unblocked : MatchOutcome F → MatchOutcome F
  unblocked m = record m { blocked = false }

  valid_matches-unblocked :
      (ms : List (MatchOutcome F)) → valid_matches (map unblocked ms) ≡ map unblocked ms
  unfolding valid_matches
  valid_matches-unblocked [] = refl
  valid_matches-unblocked (m ∷ ms) = ap (λ rest. unblocked m ∷ rest) (valid_matches-unblocked ms)

  same_ids :
      (ms : List (MatchOutcome F))
      → map (λ m. m.entity_id) (map unblocked ms) ≡ map (λ m. m.entity_id) ms
  same_ids [] = refl
  same_ids (m ∷ ms) = ap (λ ids. m.entity_id ∷ ids) (same_ids ms)

  valid_matches-none :
      (ms : List (MatchOutcome F)) → valid_matches ms ≡ [] → Any (λ m. m.blocked ≡ false) ms → ⊥
  unfolding valid_matches
  valid_matches-none [] h i = i
  valid_matches-none (m ∷ ms) h i =
      if_split m.blocked _ _ h
        (λ e g. elim i [ inl d ↦ cc (e, d) | inr j ↦ valid_matches-none ms g j ])
        (λ e g. absurd (cc g))

module _ {F R : Type 0} (float : FloatOps F) (sort_slice : SortSlice (FieldValue F))
    (env : Environment F R) (source : StagedEntity) (st : Store R) where
  -- Once one match is not blocked, a no-merge rule has no effect: MergeWithMatches does what it would if none of
  -- the matches were blocked.
  pub merge_with_matches-unblocked :
      (matches : List (MatchOutcome F))
      → Any (λ m. m.blocked ≡ false) matches
      → merge_with_matches float sort_slice env source matches st
        ≡ merge_with_matches float sort_slice env source (map unblocked matches) st
  unfolding merge_with_matches merge_by_schema merge_entity_with_matches
  merge_with_matches-unblocked matches h =
      ap (λ k. load_schema float sort_slice env source.entity_type >>= k)
        (by_schema (valid_matches matches) (valid_matches (map unblocked matches))
          (λ e. valid_matches-none matches e h)
          (λ e. map-none matches (sym (valid_matches-unblocked matches) ∙ e) h))
    where
      map-none :
          (ms : List (MatchOutcome F)) → map unblocked ms ≡ [] → Any (λ m. m.blocked ≡ false) ms → ⊥
      map-none [] e i = i
      map-none (m ∷ ms) e i = cc e

      by_schema :
          (vs ws : List (MatchOutcome F))
          → (vs ≡ [] → ⊥)
          → (ws ≡ [] → ⊥)
          → ◌≡◌ {A = EntityTypeSchema → Option (MergeResult F × Store R)}
              (λ s. merge_by_schema float sort_slice env source matches vs s st)
              (λ s. merge_by_schema float sort_slice env source (map unblocked matches) ws s st)
      by_schema [] ws v w = absurd (v refl)
      by_schema (m ∷ vs) [] v w = absurd (w refl)
      by_schema (m ∷ vs) (n ∷ ws) v w =
          ap
            (λ ids s. env.get_by_ids (source.id ∷ ids) >>= λ loaded.
              merge_loaded float sort_slice env source (source.id ∷ ids) (with_source source loaded)
                (derive_field_strategies s.properties) s.source_priorities st)
            (sym (same_ids matches))
