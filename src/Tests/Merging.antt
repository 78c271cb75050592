-- ===== src/Tests/Merging.antt =====
-- Tests of the model of ivy/pkg/merging/field_merger.go.
use meadow.Prelude.{
  ℕ, ◌≡◌, ◌≤◌, ◌<◌, ◌⊎◌, true, false, none, some, List, [], ◌∷◌, refl, All, Any, Map, lookup,
  length, map,
}
use meadow.Prelude.Int.{ℤ, pos}
use meadow.Prelude.Sorting.{SortSlice, insertion_sort, insertion_sort-IsSort}
use meadow.Json.{null, number, text}
use meadow.Ivy.Merging.Fields.Defs.{
  FieldValue, EntityData, StrategyType, FieldMergeStrategy, MergeConflict, time, longest, shortest,
}
use meadow.Ivy.Merging.Fields.CollectAll.{collect_all_values}
use meadow.Ivy.Merging.Fields.Merge.{merge_values, merge_field}
use meadow.Ivy.Merging.Fields.Lengths.{merge_values-shortest, HasValue, size}
use meadow.Ivy.Merging.Fields.Collection.{collect_all_values-flatten, limited, flatten_values}
use meadow.Ivy.Merging.Fields.Distinct.{collect_all_values-Distinct, Distinct}
use meadow.Ivy.Merging.Fields.Provenance.{merge_values-conflict, merge_field-provenance, AllAlike}
use meadow.Tests.Base.{nat_float, nat_order}

abbrev sort : SortSlice (FieldValue ℕ)
sort = insertion_sort

abbrev by : StrategyType → FieldMergeStrategy
by strategy = record { strategy = strategy; max_items = pos 2; dedup = true }

abbrev from_crm : FieldValue ℕ
from_crm = record { value = text "Ann"; updated_at = time 5; integration = "crm"; entity_id = "1" }

abbrev from_hr : FieldValue ℕ
from_hr = record { value = text "Anna"; updated_at = time 9; integration = "hr"; entity_id = "2" }

abbrev age_hr : FieldValue ℕ
age_hr = record { value = number 31; updated_at = time 9; integration = "hr"; entity_id = "2" }

abbrev trust : Map ℤ
trust = ("crm", pos 2) ∷ ("hr", pos 1) ∷ []

abbrev names : List (FieldValue ℕ)
names = from_crm ∷ from_hr ∷ []

merge_values-shortest_example :
    let result = (merge_values nat_float sort "name" (by shortest) trust names).0 in
    ((result ≡ null) × All (λ u. size nat_float u.value ≡ 0) names)
    ⊎ (Any (HasValue nat_float result) names
        × (0 < size nat_float result)
        × All
            (λ u. (0 < size nat_float u.value) → size nat_float result ≤ size nat_float u.value)
            names)
merge_values-shortest_example =
    merge_values-shortest nat_float sort "name" (by shortest) trust from_crm from_hr [] refl

collect_all_values-flatten_example :
    collect_all_values nat_float (pos 1) false names ≡ limited (pos 1) (flatten_values names)
collect_all_values-flatten_example = collect_all_values-flatten nat_float (pos 1) names

collect_all_values-Distinct_example :
    Distinct nat_float (collect_all_values nat_float (pos 1) true names)
    × (0 < 1 → length (collect_all_values nat_float (pos 1) true names) ≤ 1)
collect_all_values-Distinct_example = collect_all_values-Distinct nat_float (pos 1) names

merge_values-conflict_example :
    let (merged, conflict) = merge_values nat_float sort "name" (by longest) trust names in
    (AllAlike nat_float sort names × (conflict ≡ none))
    ⊎ ((¬ AllAlike nat_float sort names)
        × ((c : MergeConflict ℕ) × (conflict ≡ some c)
            × (c.field ≡ "name")
            × (c.values ≡ map (λ u. u.value) names)
            × (c.resolution ≡ longest)
            × (c.resolved_value ≡ merged)))
merge_values-conflict_example = merge_values-conflict nat_float sort "name" (by longest) trust names

abbrev crm_entity : EntityData ℕ
crm_entity = record {
  fields = ("name", text "Ann") ∷ [];
  updated_at = time 5;
  integration = "crm";
  entity_id = "1";
}

abbrev hr_entity : EntityData ℕ
hr_entity = record {
  fields = ("age", number 31) ∷ ("name", text "Anna") ∷ [];
  updated_at = time 9;
  integration = "hr";
  entity_id = "2";
}

merge_field-provenance_example :
    let merged =
      (merge_field nat_float sort "name" (crm_entity ∷ hr_entity ∷ []) (by longest) trust).0 in
    (merged ≡ null) ⊎ Any (λ e. lookup "name" e.fields ≡ some merged) (crm_entity ∷ hr_entity ∷ [])
merge_field-provenance_example =
    merge_field-provenance nat_float sort insertion_sort-IsSort nat_order "name"
      (crm_entity ∷ hr_entity ∷ []) (by longest) trust refl
