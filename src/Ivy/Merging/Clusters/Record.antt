-- ===== src/Ivy/Merging/Clusters/Record.antt =====
-- The golden record that mergeFields of ivy/pkg/merging/engine.go builds, field by field.
use meadow.Prelude.{
  lookup-insert, ap, ◌≡◌, false, ◌||◌, String, Option, none, some, List, [], ◌∷◌, ◌++◌, refl, ◌∙◌,
  inl, inr, arith, str_eq, eq_iff, if_either, if◌then◌else◌, Bool-cases, Map, lookup,
}
use meadow.Prelude.Int.{ℤ}
use meadow.Prelude.Sorting.{SortSlice}
use meadow.Json.{Value, FloatOps}
use meadow.Ivy.Merging.Fields.Defs.{
  FieldValue, EntityData, FieldMergeStrategy, MergeConflict, is_nil, keep_value, collect_values,
}
use meadow.Ivy.Merging.Fields.Merge.{merge_values, merge_field}
use meadow.Ivy.Merging.Clusters.Golden.{
  SourcePriority, strategy_map, priority_map, is_listed, add_fields, strategy_for, all_fields,
  Golden, add_merged, merged_field, merge_each, merge_fields,
}

-- A nil is left out of the record.
abbrev pub unless_nil : {F : Type 0} → Value F → Option (Value F) → Option (Value F)
unless_nil v old = if is_nil v then old else some v

is_listed-append :
    (s k : String) (fields : List String)
    → is_listed s (fields ++ k ∷ []) ≡ is_listed s fields || str_eq k s
unfolding is_listed
is_listed-append s k [] = ground arith
is_listed-append s k (t ∷ fields) = ground (arith, is_listed-append s k fields)

is_listed-add :
    (s k : String) (fields : List String)
    → is_listed s (if is_listed k fields then fields else fields ++ k ∷ [])
      ≡ is_listed s fields || str_eq k s
is_listed-add s k fields =
    if_either (λ fs. is_listed s fs ≡ is_listed s fields || str_eq k s) (is_listed k fields) _ _
      (λ e. ground (arith, eq_iff k s)) (λ e. is_listed-append s k fields)

-- Each key of the map and each field listed before is listed.
add_fields-unlisted :
    {V : Type 0} (s : String) (m : Map V) (fields : List String)
    → is_listed s (add_fields m fields) ≡ false
    → (lookup s m ≡ none) × (is_listed s fields ≡ false)
unfolding add_fields lookup
add_fields-unlisted s [] fields h = (refl, h)
add_fields-unlisted s ((k, v) ∷ m) fields h =
    let p = add_fields-unlisted s m (if is_listed k fields then fields else fields ++ k ∷ []) h in
    let q = is_listed-add s k fields in (ground (arith, p.0, p.1, q), ground (arith, p.1, q))

module _ {F : Type 0} where
  -- A field that no entity has has no values.
  all_fields-unlisted :
      (s : String) (entities : List (EntityData F)) (fields : List String)
      → is_listed s (all_fields entities fields) ≡ false
      → (collect_values s entities ≡ []) × (is_listed s fields ≡ false)
  unfolding all_fields collect_values keep_value
  all_fields-unlisted s [] fields h = (refl, h)
  all_fields-unlisted s (e ∷ entities) fields h =
      let p = all_fields-unlisted s entities (add_fields e.fields fields) h in
      let q = add_fields-unlisted s e.fields fields p.1 in (rw (q.0, p.0) refl, q.1)

  add_merged-lookup :
      (f field : String) (p : Value F × Option (MergeConflict F)) (golden : Golden F)
      → lookup f (add_merged field p golden).0
        ≡ (if str_eq field f then unless_nil p.0 (lookup f golden.0) else lookup f golden.0)
  unfolding add_merged
  add_merged-lookup f field p golden =
      if_either
        (λ g.
          lookup f g
          ≡ (if str_eq field f then unless_nil p.0 (lookup f golden.0) else lookup f golden.0))
        (is_nil p.0) _ _ (λ e. ground (arith, e))
        (λ e. ground (arith, e, lookup-insert field f p.0 golden.0))

module _ {F : Type 0} (float : FloatOps F) (sort_slice : SortSlice (FieldValue F))
    (entities : List (EntityData F)) (f : String) where
  module _ (strategies : Map FieldMergeStrategy) (priorities : Map ℤ) where
    merge_each-lookup :
        (fields : List String) (golden : Golden F)
        → lookup f (merge_each float sort_slice entities strategies priorities fields golden).0 ≡ (
            if is_listed f fields
            then unless_nil
                (merged_field float sort_slice entities strategies priorities f).0
                (lookup f golden.0)
            else lookup f golden.0)
    unfolding merge_each is_listed
    merge_each-lookup [] golden = refl
    merge_each-lookup (field ∷ fields) golden =
        let p = merged_field float sort_slice entities strategies priorities field in
        let rest = merge_each-lookup fields (add_merged field p golden) in
        elim (Bool-cases (str_eq field f)) [
          | inl e ↦
              (let same =
                  ap (λ x. (merged_field float sort_slice entities strategies priorities x).0)
                    ((eq_iff field f).0 e) in
                grind (arith, e, same, rest, add_merged-lookup f field p golden))
          | inr e ↦ ground (arith, e, rest, add_merged-lookup f field p golden)
        ]

  -- The golden record has, for each field, what MergeField gives for it under the schema's strategy
  -- (prefer_non_empty where it sets none), and lacks the field exactly where that is nil.
  pub merge_fields-lookup :
      (strategies : Map FieldMergeStrategy) (priorities : List SourcePriority)
      → lookup f (merge_fields float sort_slice entities strategies priorities).0
        ≡ unless_nil
            (merge_field float sort_slice f entities
              (strategy_for (lookup f (strategy_map strategies [])))
              (priority_map priorities [])).0
            none
  unfolding merge_fields lookup merge_field merge_values
  merge_fields-lookup strategies priorities =
      let fields = all_fields entities [] in
      let found =
        merge_each-lookup (strategy_map strategies []) (priority_map priorities []) fields
          ([], []) in
      elim (Bool-cases (is_listed f fields)) [
        | inl e ↦ found ∙ rw e refl
        | inr e ↦ rw ((all_fields-unlisted f entities [] e).0) (found ∙ rw e refl)
      ]
