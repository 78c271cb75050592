-- ===== src/Ivy/Merging/Fields/Collection.antt =====
-- What `collectAll` of ivy/pkg/merging/field_merger.go collects.
use mathlib.Core.List.{append-nil, append_assoc}
use meadow.Prelude.{
  ℕ, ◌≡◌, ◌≤◌, ◌<◌, true, false, List, [], ◌∷◌, ◌++◌, refl, arith, inl, inr, sym, ap, ◌∙◌,
  if◌then◌else◌, if_true, if_false, Bool-cases, ltb, length, length-append, length-take, take,
  take-append_long, take_all, subst,
}
use meadow.Prelude.Int.{ℤ, pos_part}
use meadow.Json.{Value, array, elements, FloatOps}
use meadow.Ivy.Merging.Fields.Defs.{FieldValue}
use meadow.Ivy.Merging.Fields.CollectAll.{
  Collected, reached, push, mark, collect_element, collect_elements, collect_new, collect_value,
  collect_from, collect_all_values,
}

module _ {F : Type 0} where
  -- All that the values hold, arrays taken apart.
  abbrev pub flat : Value F → List (Value F)
  flat (array items) = elements items
  flat v = v ∷ []

  abbrev pub flatten_values : List (FieldValue F) → List (Value F)
  flatten_values [] = []
  flatten_values (v ∷ values) = flat v.value ++ flatten_values values

  -- The first `maxItems`, if there is a limit.
  abbrev pub limited : ℤ → List (Value F) → List (Value F)
  limited max_items xs = if ltb 0 (pos_part max_items) then take (pos_part max_items) xs else xs

module _ {F : Type 0} (float : FloatOps F) (max_items : ℤ) where
  -- The state after the loop has met `xs`, without deduplication.
  record Follows (c : Collected F) (xs : List (Value F)) : Type 0 where
    holds : c.result ≡ limited max_items xs
    stops : c.full ≡ reached max_items (length c.result)

  take_next :
      (n : ℕ) (xs : List (Value F)) (v : Value F)
      → length (take n xs) < n
      → take n xs ++ v ∷ [] ≡ take n (xs ++ v ∷ [])
  take_next n xs v h =
      let short : length xs < n = omega (arith, length-take n xs) in
      rw (take_all n xs (omega arith))
        (sym (take_all n (xs ++ v ∷ []) (omega (arith, length-append xs (v ∷ [])))))

  next_result :
      (c : Collected F) (xs : List (Value F)) (v : Value F)
      → Follows c xs
      → c.full ≡ false
      → c.result ++ v ∷ [] ≡ limited max_items (xs ++ v ∷ [])
  next_result c xs v f h = elim (Bool-cases (ltb 0 (pos_part max_items))) [
    | inl e ↦
        let held : c.result ≡ take (pos_part max_items) xs = f.holds ∙ rw e refl in
        let room : length (take (pos_part max_items) xs) < pos_part max_items =
          rw (← held) (room_of_stop e) in
        rw e (rw held (take_next (pos_part max_items) xs v room))
    | inr e ↦ rw e (ap (λ r. r ++ v ∷ []) (f.holds ∙ rw e refl))
  ]
    where
      room_of_stop : ltb 0 (pos_part max_items) ≡ true → length c.result < pos_part max_items
      room_of_stop e = unfold reached in ground (arith, f.stops)

  -- After the early return the result is the first `maxItems` of whatever else there is.
  full_result :
      (c : Collected F) (xs : List (Value F)) (v : Value F)
      → Follows c xs
      → c.full ≡ true
      → c.result ≡ limited max_items (xs ++ v ∷ [])
  full_result c xs v f h = elim (Bool-cases (ltb 0 (pos_part max_items))) [
    | inl e ↦
        let held : c.result ≡ take (pos_part max_items) xs = f.holds ∙ rw e refl in
        let many : pos_part max_items ≤ length (take (pos_part max_items) xs) =
          rw (← held) (limit_of_stop e) in
        rw e (
          held
          ∙ sym (
              take-append_long (pos_part max_items) xs (v ∷ [])
                (omega (arith, length-take (pos_part max_items) xs))))
    | inr e ↦ absurd (never e)
  ]
    where
      limit_of_stop : ltb 0 (pos_part max_items) ≡ true → pos_part max_items ≤ length c.result
      limit_of_stop e = unfold reached in ground (arith, f.stops)

      never : ltb 0 (pos_part max_items) ≡ false → ⊥
      never e = unfold reached in ground (arith, f.stops)

  step-Follows :
      (c : Collected F) (xs : List (Value F)) (v : Value F)
      → Follows c xs
      → Follows (if c.full then c else push float max_items false v c) (xs ++ v ∷ [])
  unfolding push
  step-Follows c xs v f = elim (Bool-cases c.full) [
    | inl h ↦ rw h (record { holds = full_result c xs v f h; stops = sym h ∙ f.stops })
    | inr h ↦ rw h (record { holds = next_result c xs v f h; stops = refl })
  ]

  collect_elements-Follows :
      (vs : List (Value F)) (c : Collected F) (xs : List (Value F))
      → Follows c xs
      → Follows (collect_elements float max_items false vs c) (xs ++ vs)
  unfolding collect_elements collect_element mark
  collect_elements-Follows [] c xs f = rw append-nil f
  collect_elements-Follows (v ∷ vs) c xs f = subst (Follows _) (append_assoc xs (v ∷ []) vs) (
      collect_elements-Follows vs (if c.full then c else push float max_items false v c)
        (xs ++ v ∷ []) (step-Follows c xs v f))

  collect_elements_full :
      (vs : List (Value F)) (c : Collected F)
      → c.full ≡ true
      → collect_elements float max_items false vs c ≡ c
  unfolding collect_elements
  collect_elements_full [] c h = refl
  collect_elements_full (v ∷ vs) c h =
      ap (collect_elements float max_items false vs) (if_true _ _ h) ∙ collect_elements_full vs c h

  -- One round of the outer loop appends what the value holds.
  collect_value-eq-elements :
      (v : Value F) (c : Collected F)
      → (if c.full then c else collect_value float max_items false v c)
        ≡ collect_elements float max_items false (flat v) c
  unfolding collect_value collect_new mark
  collect_value-eq-elements (array items) c = elim (Bool-cases c.full) [
    | inl h ↦ if_true _ _ h ∙ sym (collect_elements_full (elements items) c h)
    | inr h ↦ if_false _ _ h
  ]
  collect_value-eq-elements v c = unfold collect_elements collect_element in refl

  collect_from-Follows :
      (values : List (FieldValue F)) (c : Collected F) (xs : List (Value F))
      → Follows c xs
      → Follows (collect_from float max_items false values c) (xs ++ flatten_values values)
  unfolding collect_from
  collect_from-Follows [] c xs f = rw append-nil f
  collect_from-Follows (v ∷ values) c xs f = rw collect_value-eq-elements (
      subst (Follows _) (append_assoc xs (flat v.value) (flatten_values values)) (
        collect_from-Follows values (collect_elements float max_items false (flat v.value) c)
          (xs ++ flat v.value) (collect_elements-Follows (flat v.value) c xs f)))

  limited-nil : [] ≡ limited {F = F} max_items []
  limited-nil = elim (Bool-cases (ltb 0 (pos_part max_items))) [
    | inl e ↦ rw e (sym (take_all (pos_part max_items) [] (omega arith)))
    | inr e ↦ rw e
  ]

  -- Without deduplication `collectAll` gives all that the values hold, in order, arrays taken
  -- apart, and cut to the first `maxItems` if there is a limit.
  pub collect_all_values-flatten :
      (values : List (FieldValue F))
      → collect_all_values float max_items false values ≡ limited max_items (flatten_values values)
  unfolding collect_all_values
  collect_all_values-flatten values =
      (collect_from-Follows values (record { result = []; seen = []; full = false }) []
        (record { holds = limited-nil; stops = unfold reached in ground arith })).holds
