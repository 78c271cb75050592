-- ===== src/Lotus/Mapping/Writes/Reach.antt =====
-- When the search for the path of a target field ends: `GetPathToField` of lotus/pkg/fields/fields.go, and
-- what lotus/pkg/mapping/mapping.go does with it.
use meadow.Prelude.{
  ◌∙◌, sym, ℕ, zero, suc, ◌<◌, false, String, Option, none, some, List, [], ◌∷◌, str_eq, Map,
  lookup, ◌≡◌, ap, inl, inr, if_either, if_split, Option-cases, eq_iff, arith, In,
}
use meadow.Json.{Value}
use meadow.Lotus.Mapping.Outcome.{Stops, >>=-Stops, >>=-or_failed-Stops}
use meadow.Lotus.Mapping.Fields.{FieldList}
use meadow.Lotus.Mapping.Linq.{first_with, Linq}
use meadow.Lotus.Mapping.Paths.{
  PathToField, get_field_paths, find_path, with_parents, get_path_to_field,
}
use meadow.Lotus.Mapping.Target.{
  Blanks, add_value_to_target_field, set_child_target_field_value_with_index,
}
use meadow.Lotus.Mapping.Writes.{
  TargetState, array_root, or_no_indices, set_on_path, set_under, set_target_field_value_with_index,
  broadcast_at, broadcast_to, broadcast_all, apply_broadcasts, record_array_index, or_blank,
}

pub find_path-field_id :
    ⦃linq : Linq⦄ (id : String) (paths : List PathToField) (p : PathToField)
    → find_path id paths ≡ some p
    → In p paths × (p.field_id ≡ id)
unfolding find_path first_with
find_path-field_id ⦃linq⦄ id paths p h =
    named paths (sym (linq.find-first_with (λ q. str_eq q.field_id id) paths) ∙ h)
  where
    named :
        (qs : List PathToField)
        → first_with (λ q. str_eq q.field_id id) qs ≡ some p
        → In p qs × (p.field_id ≡ id)
    named [] e = absurd (cc e)
    named (q ∷ qs) e =
        if_split (str_eq q.field_id id) (some q) (first_with (λ r. str_eq r.field_id id) qs) e
          (λ g f. (inl (cc (f)), cc (f, (eq_iff q.field_id id).0 g)))
          (λ g f. let (i, k) = named qs f in (inr i, k))

-- A level of the fields that is lower for a field than for what it holds.
abbrev pub IsLevel : List PathToField → (String → ℕ) → Type 0
IsLevel paths level =
    (p : PathToField)
    → In p paths
    → str_eq p.parent_id "" ≡ false
    → level p.parent_id < level p.field_id

pub get_path_to_field-Stops :
    ⦃linq : Linq⦄ (level : String → ℕ) (fuel : ℕ) (paths : List PathToField) (id : String)
    → IsLevel paths level
    → level id < fuel
    → Stops (get_path_to_field fuel paths id)
unfolding get_path_to_field with_parents
get_path_to_field-Stops level zero paths id r h = absurd (omega arith)
get_path_to_field-Stops level (suc fuel) paths id r h = elim (Option-cases (find_path id paths)) [
  | inl e ↦ rw e tt
  | inr (p, e) ↦ rw e (
      if_either Stops (str_eq p.parent_id "") _ _ (λ _. tt)
        (λ q.
          let (i, f) = find_path-field_id id paths p e in
          >>=-Stops (get_path_to_field fuel paths p.parent_id) _
            (get_path_to_field-Stops level fuel paths p.parent_id r
              (omega (arith, h, r p i q, ap level f)))
            (λ _. tt)))
]

module _ {F : Type 0} ⦃linq : Linq⦄ (blanks : Blanks F) (fields : FieldList F) (level : String → ℕ)
    (fuel : ℕ) (levels : IsLevel (get_field_paths fields) level)
    (enough : (id : String) → level id < fuel) where
  set_on_path-Stops :
      (path : List PathToField) (v : Value F) (index : Option ℕ) (s : TargetState F)
      → Stops (set_on_path blanks fields path v index s)
  unfolding set_on_path
  set_on_path-Stops [] v index s = tt
  set_on_path-Stops (root ∷ []) v index s =
      >>=-or_failed-Stops
        (add_value_to_target_field blanks fields v
          (or_blank root.field_id (lookup root.field_id s.target_field_values)))
        _ (λ _. tt)
  set_on_path-Stops (root ∷ next ∷ path) v index s =
      >>=-or_failed-Stops
        (set_child_target_field_value_with_index blanks fields (next ∷ path) v index
          (or_blank root.field_id (lookup root.field_id s.target_field_values)))
        _ (λ _. tt)

  set_under-Stops :
      (root : Option String) (field_id : String) (path : List PathToField) (v : Value F)
      (index : Option ℕ) (s : TargetState F)
      → Stops (set_under blanks fields root field_id path v index s)
  unfolding set_under
  set_under-Stops none field_id path v index s = set_on_path-Stops path v index s
  set_under-Stops (some root) field_id path v none s = tt
  set_under-Stops (some root) field_id path v (some index) s =
      set_on_path-Stops path v (some index) (record_array_index root index s)

  pub set_target_field_value_with_index-Stops :
      (field_id : String) (v : Value F) (index : Option ℕ) (s : TargetState F)
      → Stops (set_target_field_value_with_index blanks fields fuel field_id v index s)
  unfolding set_target_field_value_with_index
  set_target_field_value_with_index-Stops field_id v index s =
      >>=-Stops (get_path_to_field fuel (get_field_paths fields) field_id) _
        (get_path_to_field-Stops level fuel (get_field_paths fields) field_id levels
          (enough field_id))
        (λ path. set_under-Stops (array_root path) field_id path v index s)

  broadcast_at-Stops :
      (bs : List (String × Value F)) (index : ℕ) (s : TargetState F)
      → Stops (broadcast_at blanks fields fuel bs index s)
  unfolding broadcast_at
  broadcast_at-Stops [] index s = tt
  broadcast_at-Stops ((field_id, v) ∷ bs) index s =
      >>=-Stops (set_target_field_value_with_index blanks fields fuel field_id v (some index) s) _
        (set_target_field_value_with_index-Stops field_id v (some index) s)
        (λ after. broadcast_at-Stops bs index after)

  broadcast_to-Stops :
      (bs : List (String × Value F)) (indices : List ℕ) (s : TargetState F)
      → Stops (broadcast_to blanks fields fuel bs indices s)
  unfolding broadcast_to
  broadcast_to-Stops bs [] s = tt
  broadcast_to-Stops bs (index ∷ indices) s =
      >>=-Stops (broadcast_at blanks fields fuel bs index s) _ (broadcast_at-Stops bs index s)
        (λ after. broadcast_to-Stops bs indices after)

  broadcast_all-Stops :
      (pending : Map (List (String × Value F))) (s : TargetState F)
      → Stops (broadcast_all blanks fields fuel pending s)
  unfolding broadcast_all
  broadcast_all-Stops [] s = tt
  broadcast_all-Stops ((root, bs) ∷ pending) s =
      >>=-Stops
        (broadcast_to blanks fields fuel bs (or_no_indices (lookup root s.target_array_indices)) s)
        _ (broadcast_to-Stops bs (or_no_indices (lookup root s.target_array_indices)) s)
        (λ after. broadcast_all-Stops pending after)

  pub apply_broadcasts-Stops : (s : TargetState F) → Stops (apply_broadcasts blanks fields fuel s)
  unfolding apply_broadcasts
  apply_broadcasts-Stops s =
      >>=-Stops (broadcast_all blanks fields fuel s.pending_broadcasts s) _
        (broadcast_all-Stops s.pending_broadcasts s) (λ _. tt)
