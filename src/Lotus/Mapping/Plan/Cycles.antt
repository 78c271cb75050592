-- ===== src/Lotus/Mapping/Plan/Cycles.antt =====
-- When the recursion of `createStep` of lotus/pkg/mapping/validate.go ends.
use meadow.Prelude.{
  ℕ, zero, suc, ◌==◌, ◌<◌, Bool, true, false, not, ◌||◌, String, Option, none, some, List, [], ◌∷◌,
  lookup, ◌≡◌, refl, ap, inl, inr, Succeeds, if_either, eq_iff, arith, In,
}
use meadow.Lotus.Mapping.Types.{ActionValueType, validate_action_value_type}
use meadow.Lotus.Mapping.Fields.{get_type, get_field}
use meadow.Lotus.Mapping.Outcome.{Outcome, out_of_fuel, Stops, >>=-Stops, >>=-or_failed-Stops}
use meadow.Lotus.Mapping.Linq.{Linq}
use meadow.Lotus.Mapping.Links.{LinkDirection, Link, is_given, filter_has, filter_is}
use meadow.Lotus.Mapping.Steps.{StepDefinition, Registry, Step, new_step}
use meadow.Lotus.Mapping.Plan.{
  MappingDefinition, Compiled, parent_links, field_types, step_types, input_types, is_empty,
  build_step, or_build, create_step, source_count, target_count, check_target_field,
  check_target_step, validate_link, validate_links, generate_mapping_plan,
}

module _ {F : Type 0} ⦃linq : Linq⦄ (m : MappingDefinition F) where
  field_types-Stops : (d : LinkDirection F) → Stops (field_types m d)
  unfolding field_types
  field_types-Stops d =
      if_either Stops (is_given d.field_id) _ _
        (λ _. >>=-or_failed-Stops (get_field m.source_fields d.field_id) _ (λ _. tt)) (λ _. tt)

  step_types-Stops :
      (create : String → Compiled F → Outcome (Step F × Compiled F)) (d : LinkDirection F)
      (steps : Compiled F)
      → (is_given d.step_id ≡ true → (before : Compiled F) → Stops (create d.step_id before))
      → Stops (step_types create d steps)
  unfolding step_types
  step_types-Stops create d steps h =
      if_either Stops (is_given d.step_id) _ _
        (λ g. >>=-Stops (create d.step_id steps) _ (h g steps) (λ _. tt)) (λ _. tt)

  input_types-Stops :
      (create : String → Compiled F → Outcome (Step F × Compiled F)) (links : List (Link F))
      (steps : Compiled F)
      → ((l : Link F)
          → In l links
          → is_given l.source.step_id ≡ true
          → (before : Compiled F) → Stops (create l.source.step_id before))
      → Stops (input_types m create links steps)
  unfolding input_types
  input_types-Stops create [] steps h = tt
  input_types-Stops create (l ∷ links) steps h =
      >>=-Stops (field_types m l.source) _ (field_types-Stops l.source) (λ fs.
        >>=-Stops (step_types create l.source steps) _
          (step_types-Stops create l.source steps (h l (inl refl)))
          (λ r.
            >>=-Stops (input_types m create links r.1) _
              (input_types-Stops create links r.1 (λ k i. h k (inr i))) (λ _. tt)))

-- A rank that grows along the links from step to step.
abbrev pub IsRank : {F : Type 0} → MappingDefinition F → (String → ℕ) → Type 0
IsRank m rank =
    (l : Link _)
    → In l m.links
    → is_given l.source.step_id ≡ true
    → is_given l.target.step_id ≡ true
    → rank l.source.step_id < rank l.target.step_id

module _ {F : Type 0} ⦃linq : Linq⦄ (get_action : Registry F) (m : MappingDefinition F) where
  or_build-Stops :
      (create : String → Compiled F → Outcome (Step F × Compiled F)) (id : String)
      (definition : StepDefinition F) (steps : Compiled F) (found : Option (Step F))
      → ((l : Link F)
          → In l (parent_links m id)
          → is_given l.source.step_id ≡ true
          → (before : Compiled F) → Stops (create l.source.step_id before))
      → Stops (or_build get_action m create id definition steps found)
  unfolding or_build build_step
  or_build-Stops create id definition steps (some s) h = tt
  or_build-Stops create id definition steps none h =
      if_either Stops (is_empty (parent_links m id)) _ _ (λ _. tt)
        (λ _.
          >>=-Stops (input_types m create (parent_links m id) steps) _
            (input_types-Stops m create (parent_links m id) steps h)
            (λ r. >>=-or_failed-Stops (new_step get_action definition r.0) _ (λ _. tt)))

  create_step-Stops :
      (rank : String → ℕ) (fuel : ℕ) (id : String) (steps : Compiled F)
      → IsRank m rank
      → is_given id ≡ true
      → rank id < fuel
      → Stops (create_step get_action m fuel id steps)
  unfolding create_step
  create_step-Stops rank zero id steps r q h = absurd (omega arith)
  create_step-Stops rank (suc fuel) id steps r q h =
      >>=-or_failed-Stops (lookup id m.step_definitions) _ (λ definition.
        or_build-Stops (create_step get_action m fuel) id definition steps (lookup id steps)
          (λ l i g before. create_step-Stops rank fuel l.source.step_id before r g (
            let e = (eq_iff l.target.step_id id).0 (filter_is _ m.links l i) in
            omega (arith, h, r l (filter_has _ m.links l i) g (rw e q), ap rank e))))

  check_target_field-Stops :
      (from : ActionValueType) (d : LinkDirection F) → Stops (check_target_field m from d)
  unfolding check_target_field
  check_target_field-Stops from d =
      if_either Stops (is_given d.field_id) _ _
        (λ _. >>=-or_failed-Stops (get_field m.target_fields d.field_id) _ (λ f.
          if_either Stops (validate_action_value_type from (get_type f)) _ _ (λ _. tt) (λ _. tt)))
        (λ _. tt)

  validate_link-Stops :
      (rank : String → ℕ) (fuel : ℕ) (l : Link F) (steps : Compiled F)
      → IsRank m rank
      → ((id : String) → rank id < fuel)
      → Stops (validate_link get_action m fuel l steps)
  unfolding validate_link check_target_step
  validate_link-Stops rank fuel l steps r h =
      if_either Stops (not (source_count l.source == 1) || not (target_count l.target == 1)) _ _
        (λ _. tt)
        (λ _. >>=-Stops (field_types m l.source) _ (field_types-Stops m l.source) (λ fs.
          >>=-Stops (step_types (create_step get_action m fuel) l.source steps) _
            (step_types-Stops m (create_step get_action m fuel) l.source steps (λ g before.
              create_step-Stops rank fuel l.source.step_id before r g (h l.source.step_id)))
            (λ a.
              >>=-Stops (check_target_field m _ l.target) _ (check_target_field-Stops _ l.target)
                (λ _.
                  if_either Stops (is_given l.target.step_id) _ _
                    (λ g.
                      >>=-Stops (create_step get_action m fuel l.target.step_id a.1) _
                        (create_step-Stops rank fuel l.target.step_id a.1 r g (h l.target.step_id))
                        (λ _. tt))
                    (λ _. tt)))))

  validate_links-Stops :
      (rank : String → ℕ) (fuel : ℕ) (links : List (Link F)) (steps : Compiled F)
      → IsRank m rank
      → ((id : String) → rank id < fuel)
      → Stops (validate_links get_action m fuel links steps)
  unfolding validate_links
  validate_links-Stops rank fuel [] steps r h = tt
  validate_links-Stops rank fuel (l ∷ links) steps r h =
      >>=-Stops (validate_link get_action m fuel l steps) _
        (validate_link-Stops rank fuel l steps r h)
        (λ after. validate_links-Stops rank fuel links after r h)

  -- Where the steps have a rank that grows along the links from step to step, and the fuel is above every
  -- rank, `GenerateMappingPlan` ends: with a plan or with an error.
  pub generate_mapping_plan-Stops :
      (rank : String → ℕ) (fuel : ℕ)
      → IsRank m rank
      → ((id : String) → rank id < fuel)
      → Stops (generate_mapping_plan get_action m fuel)
  unfolding generate_mapping_plan
  generate_mapping_plan-Stops rank fuel r h = validate_links-Stops rank fuel m.links [] r h

-- Each step of `on_cycle` has a definition, and the first link to it comes from one of these steps and names
-- no field as its source.
abbrev pub IsCycle : {F : Type 0} ⦃linq : Linq⦄ → MappingDefinition F → (String → Bool) → Type 0
IsCycle m on_cycle =
    (id : String)
    → on_cycle id ≡ true
    → Succeeds (lookup id m.step_definitions)
      × ((l : Link _) × ((links : List (Link _)) × ((parent_links m id ≡ l ∷ links)
              × ((is_given l.source.field_id ≡ false)
                  × ((is_given l.source.step_id ≡ true) × (on_cycle l.source.step_id ≡ true))))))

-- Let each step of a cycle have a definition, and let the first link to it come from a step of the cycle and
-- name no field as its source. Where none of these steps is compiled, `createStep` of any of them never
-- returns, whatever the depth of its recursion.
pub create_step_endless :
    {F : Type 0} ⦃linq : Linq⦄ (get_action : Registry F) (m : MappingDefinition F)
    (on_cycle : String → Bool) (fuel : ℕ) (id : String) (steps : Compiled F)
    → IsCycle m on_cycle
    → ((j : String) → on_cycle j ≡ true → lookup j steps ≡ none)
    → on_cycle id ≡ true
    → create_step get_action m fuel id steps ≡ out_of_fuel
unfolding create_step or_build build_step input_types field_types step_types
create_step_endless get_action m on_cycle zero id steps c n h = refl
create_step_endless get_action m on_cycle (suc fuel) id steps c n h =
    let (found, (l, (links, (e, (f, (g, k)))))) = c id h in
    rw
      (
        found.1,
        n id h,
        e,
        f,
        g,
        create_step_endless get_action m on_cycle fuel l.source.step_id steps c n k,
      )
      refl
