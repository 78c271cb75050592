-- ===== src/Lotus/Mapping/Steps/Typed.antt =====
-- The types of what a step of lotus/pkg/steps/steps.go gives, against the types that it was made with.
use meadow.Prelude.{
  Bool, true, false, none, some, List, ◌∷◌, if◌then◌else◌, ◌≡◌, refl, ap, ◌⊎◌, inl, inr,
  Option-cases, ◌↔◌, if_either, Ensures, >>=-Ensures, Yields, Succeeds, eq_iff,
}
use meadow.Json.{Value, null, bool, number, text, array, object}
use meadow.Lotus.Mapping.Types.{
  ValueType, string_type, number_type, bool_type, array_type, object_type, date_type, any_type,
  other, type_name, same_type, ActionValueType, is_type, items_match, is_value_of,
  is_action_value_type,
}
use meadow.Lotus.Mapping.Steps.{
  StepType, validator, transformer, condition, other_step, StepDefinition, Action, Registry, Step,
  StepOutput, passes_input, first_type, new_step, get_output_type, any_to_bool, inverted, conclude,
  execute,
}

-- The type that is spelled like bool is bool itself, if it is one of the package's.
spelled_bool : (t : ValueType) → same_type t bool_type ≡ true → (t ≡ bool_type) ⊎ (t ≡ other "bool")
unfolding type_name
spelled_bool bool_type h = inl refl
spelled_bool (other name) h = inr (ap other ((eq_iff name "bool").0 h))
spelled_bool string_type h = absurd (cc h)
spelled_bool number_type h = absurd (cc h)
spelled_bool array_type h = absurd (cc h)
spelled_bool object_type h = absurd (cc h)
spelled_bool date_type h = absurd (cc h)
spelled_bool any_type h = absurd (cc h)

module _ {F : Type 0} where
  -- What `NewStep` makes sure of.
  abbrev pub IsMade : StepDefinition F → List ActionValueType → Step F → Type 0
  IsMade d ts s =
      (s.definition ≡ d)
      × ((s.expected_input_types ≡ ts)
          × ((s.output_type ≡ s.action.output_type)
              × (passes_input d.type ≡ true → same_type s.output_type.type bool_type ≡ true)))

  pub new_step-IsMade :
      (get_action : Registry F) (d : StepDefinition F) (ts : List ActionValueType)
      → Ensures (IsMade d ts) (new_step get_action d ts)
  unfolding new_step
  new_step-IsMade get_action d ts =
      >>=-Ensures (IsMade d ts) (get_action d.action.key d.action.arguments ts) _ (λ action.
        if_either (Ensures (IsMade d ts)) (passes_input d.type) _ _
          (λ p.
            if_either (Ensures (IsMade d ts)) (same_type action.output_type.type bool_type) _ _
              (λ q. (refl, (refl, (refl, λ _. q)))) (λ _. tt))
          (λ p. (refl, (refl, (refl, λ q. absurd (cc (p, q)))))))

  -- The results of the action are of its output type.
  abbrev pub IsTyped : Action F → Type 0
  IsTyped a =
      (inputs : List (Value F)) (result : Value F)
      → a.execute inputs ≡ some result
      → is_action_value_type result a.output_type ≡ true

  is_type_other : (v : Value F) → is_type v (other "bool") ≡ true → ⊥
  unfolding is_type
  is_type_other null h = cc h
  is_type_other (bool b) h = cc h
  is_type_other (number n) h = cc h
  is_type_other (text s) h = cc h
  is_type_other (array vs) h = cc h
  is_type_other (object fs) h = cc h

  is_value_of_bool :
      (v : Value F) (t : ActionValueType)
      → same_type t.type bool_type ≡ true
      → is_value_of v t ≡ true
      → is_type v bool_type ≡ true
  unfolding is_value_of is_type items_match type_name
  is_value_of_bool v t e h = elim (spelled_bool t.type e) [
    | inl p ↦ rw p at h
    | inr p ↦ absurd (is_type_other v (rw p at h))
  ]

  -- A value of type bool is a Boolean, or nil.
  pub any_to_bool-Succeeds :
      (v : Value F) (t : ActionValueType)
      → same_type t.type bool_type ≡ true
      → is_action_value_type v t ≡ true
      → Succeeds (any_to_bool v)
  unfolding any_to_bool is_action_value_type is_type
  any_to_bool-Succeeds null t e h = (false, refl)
  any_to_bool-Succeeds (bool b) t e h = (b, refl)
  any_to_bool-Succeeds (number n) t e h = absurd (cc (is_value_of_bool (number n) t e h))
  any_to_bool-Succeeds (text s) t e h = absurd (cc (is_value_of_bool (text s) t e h))
  any_to_bool-Succeeds (array vs) t e h = absurd (cc (is_value_of_bool (array vs) t e h))
  any_to_bool-Succeeds (object fs) t e h = absurd (cc (is_value_of_bool (object fs) t e h))

  abbrev Gives : ActionValueType → StepOutput F → Type 0
  Gives t out = is_action_value_type out.output t ≡ true

  pub conclude-Gives :
      (k : StepType) (invert : Bool) (first : Value F) (inputs : List (Value F)) (result : Value F)
      (t_first t_result : ActionValueType)
      → is_action_value_type first t_first ≡ true
      → is_action_value_type result t_result ≡ true
      → (passes_input k ≡ true → same_type t_result.type bool_type ≡ true)
      → Yields
          (Gives (if passes_input k then t_first else t_result))
          (conclude k invert first inputs result)
  unfolding conclude is_action_value_type
  conclude-Gives validator invert first inputs result t_first t_result hf hr b =
      let (raw, e) = any_to_bool-Succeeds result t_result (b refl) hr in
      rw e (if_either (Gives t_first) (inverted invert raw) _ _ (λ _. hf) (λ _. refl))
  conclude-Gives condition invert first inputs result t_first t_result hf hr b =
      let (raw, e) = any_to_bool-Succeeds result t_result (b refl) hr in
      rw e (if_either (Gives t_first) (inverted invert raw) _ _ (λ _. hf) (λ _. refl))
  conclude-Gives transformer invert first inputs result t_first t_result hf hr b = hr
  conclude-Gives (other_step name) invert first inputs result t_first t_result hf hr b = hr

  -- A step that `NewStep` made, of an action whose results are of its output type, raises no error where the
  -- action raises none, and its output is of the type that the plan counts on, if its first input is of the
  -- first type that it was made with.
  pub execute-IsTyped :
      (get_action : Registry F) (d : StepDefinition F) (ts : List ActionValueType) (s : Step F)
      (v : Value F) (vs : List (Value F)) (result : Value F)
      → new_step get_action d ts ≡ some s
      → IsTyped s.action
      → is_action_value_type v (first_type ts) ≡ true
      → s.action.execute (v ∷ vs) ≡ some result
      → Yields
          (λ out. is_action_value_type out.output (get_output_type s) ≡ true)
          (execute s (v ∷ vs))
  unfolding execute get_output_type
  execute-IsTyped get_action d ts s v vs result e t h r =
      let (ed, (et, (eo, b))) = (rw e at (new_step-IsMade get_action d ts)) in
      rw (r, ed, et, eo)
        (conclude-Gives d.type d.action.invert v (v ∷ vs) result (first_type ts)
          s.action.output_type h (t (v ∷ vs) result r) (λ p. rw eo at (b p)))

  conclude-Succeeds :
      (k : StepType) (invert : Bool) (first : Value F) (inputs : List (Value F)) (result : Value F)
      (t : ActionValueType)
      → is_action_value_type result t ≡ true
      → (passes_input k ≡ true → same_type t.type bool_type ≡ true)
      → Succeeds (conclude k invert first inputs result)
  unfolding conclude
  conclude-Succeeds validator invert first inputs result t h b =
      rw ((any_to_bool-Succeeds result t (b refl) h).1) (_, refl)
  conclude-Succeeds condition invert first inputs result t h b =
      rw ((any_to_bool-Succeeds result t (b refl) h).1) (_, refl)
  conclude-Succeeds transformer invert first inputs result t h b = (_, refl)
  conclude-Succeeds (other_step name) invert first inputs result t h b = (_, refl)

  -- A step that `NewStep` made, of an action whose results are of its output type, raises an error on inputs
  -- exactly when the action does: a validation that fails raises none.
  pub execute-error :
      (get_action : Registry F) (d : StepDefinition F) (ts : List ActionValueType) (s : Step F)
      (v : Value F) (vs : List (Value F))
      → new_step get_action d ts ≡ some s
      → IsTyped s.action
      → (execute s (v ∷ vs) ≡ none) ↔ (s.action.execute (v ∷ vs) ≡ none)
  unfolding execute
  execute-error get_action d ts s v vs e t =
      let (ed, (et, (eo, b))) = (rw e at (new_step-IsMade get_action d ts)) in
      elim (Option-cases (s.action.execute (v ∷ vs))) [
        | inl q ↦ rw q ((λ _. refl), λ _. refl)
        | inr (result, q) ↦ rw q (
          (λ h. absurd (
              cc (
                h,
                (conclude-Succeeds s.definition.type s.definition.action.invert v (v ∷ vs) result
                    s.action.output_type (t (v ∷ vs) result q) (λ p. rw eo at (b (rw ed at p)))).1,
              ))),
          λ h. absurd (cc h),
        )
      ]
