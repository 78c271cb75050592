-- ===== src/Ivy/Merging/Fields/Distinct.antt =====
-- Deduplication in `collectAll` of ivy/pkg/merging/field_merger.go, and its limit.
use meadow.Prelude.{
  ◌≡◌, ◌≤◌, ◌<◌, true, false, String, List, [], ◌∷◌, ◌++◌, arith, inl, inr, All, All-map,
  All-append, sym, if◌then◌else◌, if_true, if_false, Bool-cases, str_eq, eq_iff, length,
  length-append, subst,
}
use meadow.Prelude.Int.{ℤ, pos_part}
use meadow.Json.{Value, array, elements, FloatOps}
use meadow.Ivy.Merging.Fields.Defs.{FieldValue, key}
use meadow.Ivy.Merging.Fields.CollectAll.{
  Collected, member, reached, push, mark, collect_element, collect_elements, collect_new,
  collect_value, collect_from, collect_all_values,
}

module _ {F : Type 0} (float : FloatOps F) where
  -- No two of the values have the same text.
  abbrev pub Distinct : List (Value F) → Type 0
  Distinct [] = Unit
  Distinct (x ∷ xs) = All (λ y. str_eq (key float y) (key float x) ≡ false) xs × Distinct xs

  Distinct-push :
      (xs : List (Value F)) (v : Value F)
      → Distinct xs
      → All (λ y. str_eq (key float v) (key float y) ≡ false) xs
      → Distinct (xs ++ v ∷ [])
  Distinct-push [] v d h = (tt, tt)
  Distinct-push (x ∷ xs) v d h = (
    All-append (λ y. str_eq (key float y) (key float x) ≡ false) xs (v ∷ []) d.0 (h.0, tt),
    Distinct-push xs v d.1 h.1,
  )

module _ {F : Type 0} (float : FloatOps F) (max_items : ℤ) where
  -- Between two steps: the collected values are distinct, their texts have been seen, and they are
  -- no more than the limit, which is reached only on the early return.
  record Inv (c : Collected F) : Type 0 where
    distinct : Distinct float c.result
    noted : All (λ y. member (key float y) c.seen ≡ true) c.result
    within : 0 < pos_part max_items → length c.result ≤ pos_part max_items
    room : 0 < pos_part max_items → c.full ≡ false → length c.result < pos_part max_items

  -- A value whose text no collected value has, and is marked as seen, may be appended.
  push-Inv :
      (v : Value F) (c : Collected F)
      → c.full ≡ false
      → All (λ y. str_eq (key float v) (key float y) ≡ false) c.result
      → member (key float v) c.seen ≡ true
      → Inv c
      → Inv (push float max_items true v c)
  unfolding push
  push-Inv v c h fresh noted i = record {
    distinct = Distinct-push float c.result v i.distinct fresh;
    noted =
        All-append (λ y. member (key float y) c.seen ≡ true) c.result (v ∷ []) i.noted (noted, tt);
    within = λ p. omega (arith, i.room p h, length-append c.result (v ∷ []));
    room = λ p q. unfold reached in ground (arith, length-append c.result (v ∷ []));
  }

  member-cons :
      (k j : String) (seen : List String) → member j seen ≡ true → member j (k ∷ seen) ≡ true
  unfolding member
  member-cons k j seen h = ground arith

  mark-Inv : (k : String) (c : Collected F) → Inv c → Inv (mark float max_items true k c)
  unfolding mark
  mark-Inv k c i = record {
    distinct = i.distinct;
    noted = All-map c.result (λ y h. member-cons k (key float y) c.seen h) i.noted;
    within = i.within;
    room = i.room;
  }

  -- What has not been seen has not been collected.
  fresh_of_unseen :
      (k : String) (c : Collected F)
      → member k c.seen ≡ false
      → Inv c
      → All (λ y. str_eq k (key float y) ≡ false) c.result
  fresh_of_unseen k c h i = All-map c.result (λ y g. differs y g) i.noted
    where
      differs : (y : Value F) → member (key float y) c.seen ≡ true → str_eq k (key float y) ≡ false
      differs y g = ground (arith, eq_iff k (key float y))

  member_self : (k : String) (seen : List String) → member k (k ∷ seen) ≡ true
  unfolding member
  member_self k seen = ground (arith, eq_iff k k)

  collect_element-Inv :
      (v : Value F) (c : Collected F)
      → c.full ≡ false
      → Inv c
      → Inv (collect_element float max_items true v c)
  unfolding collect_element
  collect_element-Inv v c h i = elim (Bool-cases (member (key float v) c.seen)) [
    | inl e ↦ rw e i
    | inr e ↦ rw e (
        push-Inv v (mark float max_items true (key float v) c) (unfold mark in h)
          (unfold mark in fresh_of_unseen (key float v) c e i)
          (unfold mark in member_self (key float v) c.seen) (mark-Inv (key float v) c i))
  ]

  -- Once full, nothing is collected any more.
  unless_full-Inv :
      (c d : Collected F) → Inv c → (c.full ≡ false → Inv d) → Inv (if c.full then c else d)
  unless_full-Inv c d i f = elim (Bool-cases c.full) [
    | inl e ↦ subst Inv (sym (if_true c d e)) i
    | inr e ↦ subst Inv (sym (if_false c d e)) (f e)
  ]

  collect_elements-Inv :
      (vs : List (Value F)) (c : Collected F)
      → Inv c
      → Inv (collect_elements float max_items true vs c)
  unfolding collect_elements
  collect_elements-Inv [] c i = i
  collect_elements-Inv (v ∷ vs) c i =
      collect_elements-Inv vs (if c.full then c else collect_element float max_items true v c) (
        unless_full-Inv c (collect_element float max_items true v c) i
          (λ h. collect_element-Inv v c h i))

  collect_new-Inv :
      (v : Value F) (c : Collected F)
      → c.full ≡ false
      → All (λ y. str_eq (key float v) (key float y) ≡ false) c.result
      → member (key float v) c.seen ≡ true
      → Inv c
      → Inv (collect_new float max_items true v c)
  unfolding collect_new
  collect_new-Inv (array items) c h fresh noted i = collect_elements-Inv (elements items) c i
  collect_new-Inv v c h fresh noted i = push-Inv v c h fresh noted i

  collect_value-Inv :
      (v : Value F) (c : Collected F)
      → c.full ≡ false
      → Inv c
      → Inv (collect_value float max_items true v c)
  unfolding collect_value
  collect_value-Inv v c h i = elim (Bool-cases (member (key float v) c.seen)) [
    | inl e ↦ rw e i
    | inr e ↦ rw e (
        collect_new-Inv v (mark float max_items true (key float v) c) (unfold mark in h)
          (unfold mark in fresh_of_unseen (key float v) c e i)
          (unfold mark in member_self (key float v) c.seen) (mark-Inv (key float v) c i))
  ]

  collect_from-Inv :
      (values : List (FieldValue F)) (c : Collected F)
      → Inv c
      → Inv (collect_from float max_items true values c)
  unfolding collect_from
  collect_from-Inv [] c i = i
  collect_from-Inv (v ∷ values) c i =
      collect_from-Inv values (if c.full then c else collect_value float max_items true v.value c) (
        unless_full-Inv c (collect_value float max_items true v.value c) i
          (λ h. collect_value-Inv v.value c h i))

  start-Inv : Inv (record { result = []; seen = []; full = false })
  start-Inv = record { distinct = tt; noted = tt; within = λ p. omega arith; room = λ p q. p }

  -- With deduplication no two of the collected values have the same text, and there are no more
  -- than `maxItems` of them if that is positive.
  pub collect_all_values-Distinct :
      (values : List (FieldValue F))
      → Distinct float (collect_all_values float max_items true values)
        × (0 < pos_part max_items
            → length (collect_all_values float max_items true values) ≤ pos_part max_items)
  unfolding collect_all_values
  collect_all_values-Distinct values =
      let i = collect_from-Inv values (record { result = []; seen = []; full = false }) start-Inv in
      (i.distinct, i.within)
