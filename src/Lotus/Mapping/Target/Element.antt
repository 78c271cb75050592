-- ===== src/Lotus/Mapping/Target/Element.antt =====
-- Which element of an array a write goes to: `setChildTargetFieldValueWithIndex` of
-- lotus/pkg/mapping/mapping.go.
use meadow.Prelude.{
  ℕ, ◌==◌, true, false, ◌&&◌, String, Option, some, List, [], ◌∷◌, str_eq, if◌then◌else◌, ◌≡◌, refl,
  if_either, Ensures, >>=-Ensures, >>=-Ensures_both, Ensures-map, Ensures-both, >>=-some, ◌∙◌, sym,
  eq_iff, arith,
}
use meadow.Json.{Value}
use meadow.Lotus.Mapping.Types.{is_action_value_type}
use meadow.Lotus.Mapping.Fields.{FieldList, get_field, get_type}
use meadow.Lotus.Mapping.Paths.{PathToField}
use meadow.Lotus.Mapping.Target.{
  Blanks, TargetFieldValue, target, info_of, blank, value_to_set, add_value_to_target_field,
  is_item_at, append_target, in_item, in_field, set_leaf, set_child_target_field_value_with_index,
}
use meadow.Lotus.Mapping.Target.Items.{
  SameKey, Changed, Untouched, items_of, in_item-Untouched, in_item-Changed, in_item-SameKey,
  change_fields-SameKey,
}

module _ {F : Type 0} (blanks : Blanks F) (fields : FieldList F) where
  add_value_to_target_field-SameKey :
      (v : Value F) (t : TargetFieldValue F)
      → Ensures (SameKey t) (add_value_to_target_field blanks fields v t)
  unfolding add_value_to_target_field
  add_value_to_target_field-SameKey v (target i its fs) =
      >>=-Ensures (SameKey (target i its fs)) (get_field fields i.field_id) _ (λ f.
        >>=-Ensures (SameKey (target i its fs)) (value_to_set blanks f v) _ (λ set.
          if_either (Ensures (SameKey (target i its fs))) (is_action_value_type set (get_type f)) _
            _ (λ _. (refl, refl)) (λ _. tt)))

  set_leaf-SameKey :
      (next : PathToField) (v : Value F) (index : Option ℕ) (parent : TargetFieldValue F)
      → Ensures (SameKey parent) (set_leaf blanks fields next v index parent)
  unfolding set_leaf in_field
  set_leaf-SameKey next v index parent =
      if_either (Ensures (SameKey parent)) next.is_item _ _
        (λ _. in_item-SameKey next index _ parent)
        (λ _.
          if_either (Ensures (SameKey parent)) next.is_field _ _
            (λ _. change_fields-SameKey _ parent)
            (λ _.
              >>=-Ensures (SameKey parent)
                (add_value_to_target_field blanks fields v (blank next.field_id 0)) _
                (λ leaf. change_fields-SameKey (λ fs. some (append_target leaf fs)) parent)))

  pub set_child-SameKey :
      (path : List PathToField) (v : Value F) (index : Option ℕ) (parent : TargetFieldValue F)
      → Ensures
          (SameKey parent)
          (set_child_target_field_value_with_index blanks fields path v index parent)
  unfolding set_child_target_field_value_with_index in_field
  set_child-SameKey [] v index parent = (refl, refl)
  set_child-SameKey (next ∷ []) v index parent = set_leaf-SameKey next v index parent
  set_child-SameKey (next ∷ second ∷ path) v index parent =
      let change = set_child_target_field_value_with_index blanks fields (second ∷ path) v index in
      >>=-Ensures_both (SameKey parent) (SameKey parent)
        (if next.is_item then in_item next index change parent else some parent) _
        (if_either (Ensures (SameKey parent)) next.is_item (in_item next index change parent)
          (some parent) (λ _. in_item-SameKey next index change parent) (λ _. (refl, refl)))
        (λ changed k.
          if_either (Ensures (SameKey parent)) next.is_field (in_field next change changed)
            (some changed)
            (λ _.
              Ensures-map (SameKey changed) (SameKey parent) (in_field next change changed)
                (change_fields-SameKey _ changed) (λ after q. (q.0 ∙ k.0, q.1 ∙ k.1)))
            (λ _. k))

  -- What is written into an element of an array, along the rest of the path.
  abbrev pub write_element :
      PathToField
      → List PathToField
      → Value F
      → ℕ
      → TargetFieldValue F
      → Option (TargetFieldValue F)
  write_element next [] v n t =
      add_value_to_target_field blanks fields v (blank next.field_id (info_of t).index)
  write_element next (second ∷ path) v n t =
      set_child_target_field_value_with_index blanks fields (second ∷ path) v (some n) t

  write_element-SameKey :
      (next : PathToField) (path : List PathToField) (v : Value F) (n : ℕ) (t : TargetFieldValue F)
      → is_item_at next.field_id n (info_of t) ≡ true
      → Ensures (SameKey t) (write_element next path v n t)
  write_element-SameKey next [] v n t h =
      Ensures-map (SameKey (blank next.field_id (info_of t).index)) (SameKey t)
        (add_value_to_target_field blanks fields v (blank next.field_id (info_of t).index))
        (add_value_to_target_field-SameKey v (blank next.field_id (info_of t).index))
        (λ after q.
          (q.0 ∙ sym ((eq_iff (info_of t).field_id next.field_id).0 (ground (arith, h))), q.1))
  write_element-SameKey next (second ∷ path) v n t h =
      set_child-SameKey (second ∷ path) v (some n) t

  set_child-in_item :
      (next : PathToField) (path : List PathToField) (v : Value F) (n : ℕ)
      (parent : TargetFieldValue F)
      → next.is_item ≡ true
      → next.is_field ≡ false
      → set_child_target_field_value_with_index blanks fields (next ∷ path) v (some n) parent
        ≡ in_item next (some n) (write_element next path v n) parent
  unfolding set_child_target_field_value_with_index set_leaf
  set_child-in_item next [] v n parent i f = simp (i) refl
  set_child-in_item next (second ∷ path) v n parent i f = simp (i, f) (>>=-some _)

  -- After a write along a path that leads through an item of an array, at an index, if it raises no error: the
  -- element of that field with that index is what the write along the rest of the path made of the element that
  -- was there, or of a blank one where it was missing; the elements with another index, and those of another
  -- field, are as they were; and so are all fields beside the array.
  pub set_child-Changed :
      (next : PathToField) (path : List PathToField) (v : Value F) (n : ℕ) (other_id : String)
      (other_n : ℕ) (parent : TargetFieldValue F)
      → next.is_item ≡ true
      → next.is_field ≡ false
      → str_eq next.field_id other_id && (n == other_n) ≡ false
      → Ensures
          (λ after.
            Changed (write_element next path v n) next.field_id n (items_of parent) (items_of after)
            × Untouched parent other_id other_n after)
          (set_child_target_field_value_with_index blanks fields (next ∷ path) v (some n) parent)
  set_child-Changed next path v n other_id other_n parent i f d =
      rw (set_child-in_item next path v n parent i f) (
        Ensures-both
          (λ after.
            Changed (write_element next path v n) next.field_id n (items_of parent)
              (items_of after))
          (Untouched parent other_id other_n)
          (in_item next (some n) (write_element next path v n) parent)
          (in_item-Changed next n (write_element next path v n) parent
            (write_element-SameKey next path v n))
          (in_item-Untouched next n other_id other_n (write_element next path v n) parent
            (write_element-SameKey next path v n) d))
