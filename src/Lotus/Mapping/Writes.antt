-- ===== src/Lotus/Mapping/Writes.antt =====
-- lotus/pkg/mapping/mapping.go: how the target fields of a mapping are written, broadcasts included.
pub mod Reach
use meadow.Prelude.{
  ℕ, zero, suc, ◌==◌, Bool, true, false, not, ◌&&◌, ◌||◌, String, Option, none, some, List, [], ◌∷◌,
  ◌++◌, str_eq, if◌then◌else◌, Map, lookup, insert,
}
use meadow.Json.{Value}
use meadow.Lotus.Mapping.Outcome.{Outcome, done, failed, out_of_fuel, or_failed, ◌>>=◌}
use meadow.Lotus.Mapping.Fields.{FieldList}
use meadow.Lotus.Mapping.Linq.{Linq}
use meadow.Lotus.Mapping.Paths.{PathToField, get_field_paths, get_path_to_field}
use meadow.Lotus.Mapping.Target.{
  Blanks, TargetFieldValue, info_of, blank, add_value_to_target_field,
  set_child_target_field_value_with_index,
}

-- What a mapping holds of its target: the values by the identifier of the top field, the indices met for each
-- array, and the values to be written to all of these.
pub record TargetState (F : Type 0) : Type 0 where
  pub target_field_values : Map (TargetFieldValue F)
  pub target_array_indices : Map (List ℕ)
  pub pending_broadcasts : Map (List (String × Value F))

unfoldable pub add_index : ℕ → List ℕ → List ℕ
add_index n [] = n ∷ []
add_index n (m ∷ ms) = let rest = add_index n ms in if m == n then m ∷ ms else m ∷ rest

abbrev pub or_no_indices : Option (List ℕ) → List ℕ
or_no_indices none = []
or_no_indices (some ns) = ns

-- The array that a path leads through first, if any.
unfoldable pub array_root : List PathToField → Option String
array_root [] = none
array_root (p ∷ path) =
    let rest = array_root path in
    if p.is_item then (if str_eq p.parent_id "" then rest else some p.parent_id) else rest

module _ {F : Type 0} where
  abbrev pub or_no_broadcasts : Option (List (String × Value F)) → List (String × Value F)
  or_no_broadcasts none = []
  or_no_broadcasts (some bs) = bs

  abbrev pub or_blank : String → Option (TargetFieldValue F) → TargetFieldValue F
  or_blank field_id none = blank field_id 0
  or_blank field_id (some t) = t

  unfoldable pub record_array_index : String → ℕ → TargetState F → TargetState F
  record_array_index root index s = record s {
    target_array_indices =
        insert root (add_index index (or_no_indices (lookup root s.target_array_indices)))
          s.target_array_indices;
  }

  unfoldable pub add_broadcast : String → String → Value F → TargetState F → TargetState F
  add_broadcast root field_id v s = record s {
    pending_broadcasts =
        insert root (or_no_broadcasts (lookup root s.pending_broadcasts) ++ (field_id, v) ∷ [])
          s.pending_broadcasts;
  }

module _ {F : Type 0} ⦃linq : Linq⦄ (blanks : Blanks F) (fields : FieldList F) where
  -- The value is put under the first field of the path.
  unfoldable pub set_on_path :
      List PathToField → Value F → Option ℕ → TargetState F → Outcome (TargetState F)
  set_on_path [] v index s = failed
  set_on_path (root ∷ []) v index s =
      or_failed (
        add_value_to_target_field blanks fields v
          (or_blank root.field_id (lookup root.field_id s.target_field_values)))
      >>= λ t.
          done
            (record s { target_field_values = insert (info_of t).field_id t s.target_field_values })
  set_on_path (root ∷ next ∷ path) v index s =
      or_failed (
        set_child_target_field_value_with_index blanks fields (next ∷ path) v index
          (or_blank root.field_id (lookup root.field_id s.target_field_values)))
      >>= λ t.
          done
            (record s { target_field_values = insert (info_of t).field_id t s.target_field_values })

  unfoldable pub set_under :
      Option String
      → String
      → List PathToField
      → Value F
      → Option ℕ
      → TargetState F
      → Outcome (TargetState F)
  set_under none field_id path v index s = set_on_path path v index s
  set_under (some root) field_id path v none s = done (add_broadcast root field_id v s)
  set_under (some root) field_id path v (some index) s =
      set_on_path path v (some index) (record_array_index root index s)

  -- `setTargetFieldValueWithIndex`; the index -1 is `none`.
  unfoldable pub set_target_field_value_with_index :
      ℕ → String → Value F → Option ℕ → TargetState F → Outcome (TargetState F)
  set_target_field_value_with_index fuel field_id v index s =
      get_path_to_field fuel (get_field_paths fields) field_id >>= λ path.
      set_under (array_root path) field_id path v index s

  unfoldable pub broadcast_at :
      ℕ → List (String × Value F) → ℕ → TargetState F → Outcome (TargetState F)
  broadcast_at fuel [] index s = done s
  broadcast_at fuel ((field_id, v) ∷ bs) index s =
      set_target_field_value_with_index fuel field_id v (some index) s >>= λ after.
      broadcast_at fuel bs index after

  unfoldable pub broadcast_to :
      ℕ → List (String × Value F) → List ℕ → TargetState F → Outcome (TargetState F)
  broadcast_to fuel bs [] s = done s
  broadcast_to fuel bs (index ∷ indices) s =
      broadcast_at fuel bs index s >>= λ after. broadcast_to fuel bs indices after

  unfoldable pub broadcast_all :
      ℕ → Map (List (String × Value F)) → TargetState F → Outcome (TargetState F)
  broadcast_all fuel [] s = done s
  broadcast_all fuel ((root, bs) ∷ pending) s =
      broadcast_to fuel bs (or_no_indices (lookup root s.target_array_indices)) s >>= λ after.
      broadcast_all fuel pending after

  unfoldable pub apply_broadcasts : ℕ → TargetState F → Outcome (TargetState F)
  apply_broadcasts fuel s = broadcast_all fuel s.pending_broadcasts s >>= λ after.
      done (record after { pending_broadcasts = [] })
