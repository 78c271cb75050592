-- ===== src/Ivy/Merging/Fields/Sorting.antt =====
-- The strategies of ivy/pkg/merging/field_merger.go that sort the values and take the first.
use meadow.Prelude.{
  ◌≡◌, ◌⊎◌, ◌≤◌, Bool, false, String, List, [], ◌∷◌, refl, arith, inl, inr, In, All, All-map, Map,
  ap, ◌∙◌,
}
use meadow.Prelude.Int.{ℤ, ltℤ, ltℤ_asym, not-ltℤ_trans}
use meadow.Prelude.Sorting.{SortSlice, StrictWeak, IsSort, sort-head, irreflexive}
use meadow.Json.{Value, FloatOps}
use meadow.Ivy.Merging.Fields.Defs.{
  FieldValue, FieldMergeStrategy, to_time, later, earlier, more_trusted, priority, head_value,
  most_recent, most_trusted, first, last, source_priority, prefer_source,
}
use meadow.Ivy.Merging.Fields.Merge.{
  merge_values, apply_strategy, choose_most_recent, choose_first, choose_most_trusted,
}

module _ {F : Type 0} where
  pub later-StrictWeak : StrictWeak (later {F = F})
  unfolding later
  later-StrictWeak = record { asym = λ a b h. ground arith; not_trans = λ a b c h k. ground arith }

  pub earlier-StrictWeak : StrictWeak (earlier {F = F})
  unfolding earlier
  earlier-StrictWeak = record {
    asym = λ a b h. ground arith;
    not_trans = λ a b c h k. ground arith;
  }

  pub more_trusted-StrictWeak : (priorities : Map ℤ) → StrictWeak (more_trusted {F = F} priorities)
  unfolding more_trusted
  more_trusted-StrictWeak priorities = record {
    asym = λ a b h. ltℤ_asym _ _ h;
    not_trans = λ a b c h k. not-ltℤ_trans _ _ _ k h;
  }

module _ {F : Type 0} (sort_slice : SortSlice (FieldValue F)) where
  pub head-minimal :
      {less : FieldValue F → FieldValue F → Bool}
      → IsSort sort_slice
      → StrictWeak less
      → (v : FieldValue F) (values : List (FieldValue F))
      → (w : FieldValue F) × In w (v ∷ values)
        × (head_value (sort_slice less (v ∷ values)) ≡ w.value)
        × All (λ u. less u w ≡ false) (v ∷ values)
  unfolding head_value
  head-minimal s weak v values =
      let (w, rest, e, i, h) = sort-head s weak v values in (w, i, ap head_value e, h)

module _ {F : Type 0} (float : FloatOps F) (sort_slice : SortSlice (FieldValue F)) where
  abbrev merged : String → FieldMergeStrategy → Map ℤ → List (FieldValue F) → Value F
  merged field s priorities values = (merge_values float sort_slice field s priorities values).0

  -- `most_recent` and `last` merge to a collected value that none was updated after.
  pub merge_values-most_recent :
      IsSort sort_slice
      → (field : String) (s : FieldMergeStrategy) (priorities : Map ℤ) (v : FieldValue F)
        (values : List (FieldValue F))
      → (s.strategy ≡ most_recent) ⊎ (s.strategy ≡ last)
      → (w : FieldValue F) × In w (v ∷ values)
        × ((merge_values float sort_slice field s priorities (v ∷ values)).0 ≡ w.value)
        × All (λ u. to_time u.updated_at ≤ to_time w.updated_at) (v ∷ values)
  unfolding merge_values
  merge_values-most_recent sorts field s priorities v [] h = (v, inl refl, refl, (omega arith, tt))
  merge_values-most_recent sorts field s priorities v (u ∷ values) h =
      let (w, i, e, g) = head-minimal sort_slice sorts later-StrictWeak v (u ∷ values) in
      (w, i, chosen h ∙ e, All-map (v ∷ u ∷ values) (λ x k. not_later x w k) g)
    where
      chosen :
          (s.strategy ≡ most_recent) ⊎ (s.strategy ≡ last)
          → apply_strategy float sort_slice s priorities s.strategy (v ∷ u ∷ values)
            ≡ head_value (sort_slice later (v ∷ u ∷ values))
      chosen (inl e) = rw e (unfold apply_strategy choose_most_recent in refl)
      chosen (inr e) = rw e (unfold apply_strategy choose_most_recent in refl)

      not_later :
          (x w : FieldValue F) → later x w ≡ false → to_time x.updated_at ≤ to_time w.updated_at
      not_later x w k = unfold later in ground arith

  -- `first` merges to a collected value that none was updated before.
  pub merge_values-first :
      IsSort sort_slice
      → (field : String) (s : FieldMergeStrategy) (priorities : Map ℤ) (v : FieldValue F)
        (values : List (FieldValue F))
      → s.strategy ≡ first
      → (w : FieldValue F) × In w (v ∷ values)
        × ((merge_values float sort_slice field s priorities (v ∷ values)).0 ≡ w.value)
        × All (λ u. to_time w.updated_at ≤ to_time u.updated_at) (v ∷ values)
  unfolding merge_values
  merge_values-first sorts field s priorities v [] h = (v, inl refl, refl, (omega arith, tt))
  merge_values-first sorts field s priorities v (u ∷ values) h =
      let (w, i, e, g) = head-minimal sort_slice sorts earlier-StrictWeak v (u ∷ values) in
      (
        w,
        i,
        rw h (unfold apply_strategy choose_first in e),
        All-map (v ∷ u ∷ values) (λ x k. not_earlier x w k) g,
      )
    where
      not_earlier :
          (x w : FieldValue F) → earlier x w ≡ false → to_time w.updated_at ≤ to_time x.updated_at
      not_earlier x w k = unfold earlier in ground arith

  -- `most_trusted`, `source_priority` and `prefer_source` merge to a collected value whose source
  -- no collected value's source outranks; a source with no priority counts as 0.
  pub merge_values-most_trusted :
      IsSort sort_slice
      → (field : String) (s : FieldMergeStrategy) (priorities : Map ℤ) (v : FieldValue F)
        (values : List (FieldValue F))
      → (s.strategy ≡ most_trusted) ⊎ (s.strategy ≡ source_priority) ⊎ (s.strategy ≡ prefer_source)
      → (w : FieldValue F) × In w (v ∷ values)
        × ((merge_values float sort_slice field s priorities (v ∷ values)).0 ≡ w.value)
        × All (λ u. ltℤ (priority priorities w) (priority priorities u) ≡ false) (v ∷ values)
  unfolding merge_values more_trusted
  merge_values-most_trusted sorts field s priorities v [] h =
      (v, inl refl, refl, (irreflexive (more_trusted-StrictWeak priorities) v, tt))
  merge_values-most_trusted sorts field s priorities v (u ∷ values) h =
      let (w, i, e, g) =
        head-minimal sort_slice sorts (more_trusted-StrictWeak priorities) v (u ∷ values) in
      (w, i, chosen h ∙ e, g)
    where
      chosen :
          (s.strategy ≡ most_trusted)
            ⊎ (s.strategy ≡ source_priority)
            ⊎ (s.strategy ≡ prefer_source)
          → apply_strategy float sort_slice s priorities s.strategy (v ∷ u ∷ values)
            ≡ head_value (sort_slice (more_trusted priorities) (v ∷ u ∷ values))
      chosen (inl e) = rw e (unfold apply_strategy choose_most_trusted in refl)
      chosen (inr (inl e)) = rw e (unfold apply_strategy choose_most_trusted in refl)
      chosen (inr (inr e)) = rw e (unfold apply_strategy choose_most_trusted in refl)
