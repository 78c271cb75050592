-- ===== src/Tests/Steps.antt =====
-- Tests of the models of lotus/pkg/steps and of the compilation of steps that feed each other.
use meadow.Prelude.{
  ℕ, ◌%◌, ◌==◌, ◌≡◌, ◌↔◌, inl, inr, Bool, true, false, ◌||◌, String, none, some, [], ◌∷◌, refl, sym,
  str_eq, lookup, eq_iff, Bool-cases, Yields, arith,
}
use meadow.Json.{null, bool, number, text, array, object}
use meadow.Tests.Base.{list_linq}
use meadow.Lotus.Mapping.Outcome as Outcome
use meadow.Lotus.Mapping.Types.{
  is_value_of, is_type, is_action_value_type, plain, number_type, bool_type, type_name,
}
use meadow.Lotus.Mapping.Fields.{no_fields}
use meadow.Lotus.Mapping.Linq.{keep}
use meadow.Lotus.Mapping.Links.{filter}
use meadow.Lotus.Mapping.Steps.{
  transformer, condition, StepDefinition, Action, Step, new_step, get_output_type, execute,
}
use meadow.Lotus.Mapping.Plan.{MappingDefinition, create_step}
use meadow.Lotus.Mapping.Plan.Cycles.{IsCycle, create_step_endless}
use meadow.Lotus.Mapping.Steps.Typed.{IsTyped, execute-IsTyped, execute-error}
use meadow.Tests.Mapping.{is_even, actions, test_step, at_step, link}

-- x feeds y, and y feeds x
abbrev looped : MappingDefinition ℕ
looped = record {
  source_fields = no_fields;
  target_fields = no_fields;
  step_definitions = test_step "x" transformer "sum" ∷ test_step "y" transformer "sum" ∷ [];
  links = link (at_step "x") (at_step "y") ∷ link (at_step "y") (at_step "x") ∷ [];
}

abbrev on_loop : String → Bool
on_loop id = str_eq id "x" || str_eq id "y"

on_loop-IsCycle : IsCycle looped on_loop
unfolding lookup filter keep
on_loop-IsCycle id h = elim (Bool-cases (str_eq id "x")) [
  | inl e ↦
      rw ((eq_iff id "x").0 e)
        ((_, refl), (link (at_step "y") (at_step "x"), ([], (refl, (refl, (refl, refl))))))
  | inr e ↦
      rw ((eq_iff id "y").0 (ground (arith, h, e)))
        ((_, refl), (link (at_step "x") (at_step "y"), ([], (refl, (refl, (refl, refl))))))
]

create_step_endless_example : create_step actions looped 9 "x" [] ≡ Outcome.out_of_fuel
create_step_endless_example =
    create_step_endless actions looped on_loop 9 "x" [] on_loop-IsCycle
      (λ j h. unfold lookup in refl) refl

abbrev even_action : Action ℕ
even_action = record { output_type = plain bool_type; execute = is_even }

even_action-IsTyped : IsTyped even_action
unfolding is_action_value_type is_value_of is_type type_name
even_action-IsTyped [] result h = absurd (cc h)
even_action-IsTyped (number n ∷ vs) result h =
    let e : bool (n % 2 == 0) ≡ result = cc h in rw (sym e) refl
even_action-IsTyped (null ∷ vs) result h = absurd (cc h)
even_action-IsTyped (bool b ∷ vs) result h = absurd (cc h)
even_action-IsTyped (text t ∷ vs) result h = absurd (cc h)
even_action-IsTyped (array a ∷ vs) result h = absurd (cc h)
even_action-IsTyped (object o ∷ vs) result h = absurd (cc h)

abbrev gate : StepDefinition ℕ
gate = record {
  id = "gate";
  type = condition;
  action = record { key = "is_even"; arguments = null; invert = false };
}

abbrev gate_step : Step ℕ
gate_step = record {
  expected_input_types = plain number_type ∷ [];
  output_type = plain bool_type;
  definition = gate;
  action = even_action;
}

made_gate : new_step actions gate (plain number_type ∷ []) ≡ some gate_step
unfolding new_step type_name
made_gate = refl

four_is_number : is_action_value_type {F = ℕ} (number 4) (plain number_type) ≡ true
unfolding is_action_value_type is_value_of is_type type_name
four_is_number = refl

execute-IsTyped_example :
    Yields
      (λ out. is_action_value_type out.output (get_output_type gate_step) ≡ true)
      (execute gate_step (number 4 ∷ []))
execute-IsTyped_example =
    execute-IsTyped actions gate (plain number_type ∷ []) gate_step (number 4) [] (bool true)
      made_gate even_action-IsTyped four_is_number refl

execute-error_example :
    (execute gate_step (text "four" ∷ []) ≡ none)
    ↔ (gate_step.action.execute (text "four" ∷ []) ≡ none)
execute-error_example =
    execute-error actions gate (plain number_type ∷ []) gate_step (text "four") [] made_gate
      even_action-IsTyped
