-- ===== src/Ivy/Merging/Fields/CollectAll.antt =====
-- `collectAll` of ivy/pkg/merging/field_merger.go.
use meadow.Prelude.{
  ℕ, Bool, false, ◌&&◌, ◌||◌, String, List, [], ◌∷◌, ◌++◌, str_eq, ltb, leb, if◌then◌else◌, length,
}
use meadow.Prelude.Int.{ℤ, pos_part}
use meadow.Json.{Value, array, elements, FloatOps}
use meadow.Ivy.Merging.Fields.Defs.{FieldValue, key}

-- `result` and `seen` of the loop; `full` after the early return.
pub record Collected (F : Type 0) : Type 0 where
  pub result : List (Value F)
  pub seen : List String
  pub full : Bool

unfoldable pub member : String → List String → Bool
member k [] = false
member k (j ∷ seen) = str_eq j k || member k seen

-- `maxItems > 0 && len(result) >= maxItems`
unfoldable pub reached : ℤ → ℕ → Bool
reached max_items n = ltb 0 (pos_part max_items) && leb (pos_part max_items) n

module _ {F : Type 0} (float : FloatOps F) (max_items : ℤ) (dedup : Bool) where
  unfoldable pub push : Value F → Collected F → Collected F
  push v c =
      let result' = c.result ++ v ∷ [] in
      record c { result = result'; full = reached max_items (length result') }

  unfoldable pub mark : String → Collected F → Collected F
  mark k c = if dedup then record c { seen = k ∷ c.seen } else c

  -- One round of the inner loop.
  unfoldable pub collect_element : Value F → Collected F → Collected F
  collect_element v c =
      if dedup && member (key float v) c.seen then c else push v (mark (key float v) c)

  -- The inner loop over an array; after the early return nothing more happens.
  unfoldable pub collect_elements : List (Value F) → Collected F → Collected F
  collect_elements [] c = c
  collect_elements (v ∷ vs) c = collect_elements vs (if c.full then c else collect_element v c)

  -- A value that is no array is appended as it is.
  unfoldable pub collect_new : Value F → Collected F → Collected F
  collect_new (array items) c = collect_elements (elements items) c
  collect_new v c = push v c

  -- One round of the outer loop.
  unfoldable pub collect_value : Value F → Collected F → Collected F
  collect_value v c =
      if dedup && member (key float v) c.seen then c else collect_new v (mark (key float v) c)

  unfoldable pub collect_from : List (FieldValue F) → Collected F → Collected F
  collect_from [] c = c
  collect_from (v ∷ values) c = collect_from values (if c.full then c else collect_value v.value c)

  unfoldable pub collect_all_values : List (FieldValue F) → List (Value F)
  collect_all_values values =
      (collect_from values (record { result = []; seen = []; full = false })).result
