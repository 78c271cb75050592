-- ===== src/Ivy/Criteria/Operators.antt =====
-- How the operators of ivy/pkg/criteria/criteria.go relate.
use meadow.Prelude.{
  ◌≡◌, ◌⊎◌, Bool, true, false, not, ◌&&◌, String, Option, none, some, refl, inl, inr, Bool-cases,
  Option-cases,
}
use meadow.Json.{Value, object, Fields, FloatOps, FloatOrder, Float64, nan, real}
use meadow.Ivy.Criteria.Paths.{split, get_nested}
use meadow.Ivy.Criteria.Defs.{
  op_gte, op_gt, op_lte, op_lt, evaluate_condition, evaluate_found, compare_numeric, to_float64,
  compare_floats, when_some, less, less_or_equal,
}

module _ {F : Type 0} (float : FloatOps F) (d : Fields F) (f : String) where
  -- The condition `{field: {op: value}}` on the entity.
  abbrev pub test : String → Value F → Bool
  test op v = evaluate_condition float d (record { field = f; operator = op; value = v })

  -- What the entity has under the field.
  abbrev pub found : Option (Value F)
  found = get_nested (object d) (split f)

  -- Both the entity's value and the criterion's stand for numbers, and neither for NaN.
  abbrev pub is_real : Option (Float64 F) → Bool
  is_real (some (real _)) = true
  is_real _ = false

  abbrev pub comparable : Value F → Bool
  comparable v =
      when_some found false (λ w. is_real (to_float64 float w) && is_real (to_float64 float v))

  test-order :
      (op : String) (v : Value F)
      → (op ≡ op_gte) ⊎ (op ≡ op_gt) ⊎ (op ≡ op_lte) ⊎ (op ≡ op_lt)
      → test op v ≡ when_some found false (λ w. compare_numeric float w op v)
  unfolding evaluate_condition evaluate_found
  test-order op v (inl e) = rw e
  test-order op v (inr (inl e)) = rw e
  test-order op v (inr (inr (inl e))) = rw e
  test-order op v (inr (inr (inr e))) = rw e

  not_both : FloatOrder float → (a b : F) → (float.lt b a && float.lt a b) ≡ false
  not_both order a b = elim (Bool-cases (float.lt b a)) [
    | inl e ↦ rw e (order.lt_asym b a e)
    | inr e ↦ rw e
  ]

  abbrev both : Value F → Value F → Bool
  both w v = is_real (to_float64 float w) && is_real (to_float64 float v)

  -- The comparisons of two values that are read as `x` and `y`.
  abbrev Compared : Option (Float64 F) → Option (Float64 F) → (String → Bool) → Type 0
  Compared x y compare =
      (compare op_gte ≡ (is_real x && is_real y && not (compare op_lt)))
      × (compare op_lte ≡ (is_real x && is_real y && not (compare op_gt)))
      × ((compare op_gt && compare op_lt) ≡ false)

  compare_floats-Compared :
      FloatOrder float
      → (a b : Float64 F) → Compared (some a) (some b) (λ op. compare_floats float a op b)
  unfolding compare_floats less less_or_equal
  compare_floats-Compared order (real a) (real b) = (refl, refl, not_both order a b)
  compare_floats-Compared order (real a) nan = (refl, refl, refl)
  compare_floats-Compared order nan (real b) = (refl, refl, refl)
  compare_floats-Compared order nan nan = (refl, refl, refl)

  compare_values :
      FloatOrder float
      → (w v : Value F)
      → Compared (to_float64 float w) (to_float64 float v) (λ op. compare_numeric float w op v)
  unfolding compare_numeric
  compare_values order w v = elim (Option-cases (to_float64 float w)) [
    | inl e ↦ rw (e, compare_numeric) (refl, refl, refl)
    | inr (a, e) ↦ elim (Option-cases (to_float64 float v)) [
      | inl g ↦ rw (e, compare_numeric) (rw (g, compare_numeric) (unread a))
      | inr (b, g) ↦
          rw (e, compare_numeric) (rw (g, compare_numeric) (compare_floats-Compared order a b))
    ]
  ]
    where
      unread : (a : Float64 F) → Compared (some a) none (λ op. false)
      unread nan = (refl, refl, refl)
      unread (real a) = (refl, refl, refl)

  -- The comparisons on an entity: `$gte` and `$lte` hold exactly when both sides are numbers, NaN
  -- not among them, and `$lt`, or `$gt`, fails; `$gt` and `$lt` do not both hold.
  pub comparisons :
      FloatOrder float
      → (v : Value F)
      → (test op_gte v ≡ (comparable v && not (test op_lt v)))
        × (test op_lte v ≡ (comparable v && not (test op_gt v)))
        × ((test op_gt v && test op_lt v) ≡ false)
  comparisons order v = rw (test-order op_gte v (inl refl)) (
      rw (test-order op_gt v (inr (inl refl))) (
        rw (test-order op_lte v (inr (inr (inl refl)))) (
          rw (test-order op_lt v (inr (inr (inr refl)))) (elim (Option-cases found) [
            | inl e ↦ rw e (refl, refl, refl)
            | inr (w, e) ↦ rw e (compare_values order w v)
          ]))))
