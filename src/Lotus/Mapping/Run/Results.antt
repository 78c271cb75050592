-- ===== src/Lotus/Mapping/Run/Results.antt =====
-- Which steps of a mapping have a result when `ExecuteMapping` of lotus/pkg/mapping/mapping.go is through
-- with the links.
use meadow.Prelude.{
  ℕ, ◌<◌, Bool, true, false, not, ◌&&◌, String, Option, List, [], ◌∷◌, length, str_eq, lookup, ◌≡◌,
  ◌≢◌, ◌↔◌, refl, ◌⊎◌, inl, inr, Bool-cases, eq_iff, arith, In, everywhere_from_members,
}
use meadow.Json.{Value}
use meadow.Lotus.Mapping.Outcome.{Outcome, done, Ends, Stops, Ends-map, Ends-IfDone}
use meadow.Lotus.Mapping.Linq.{Linq}
use meadow.Lotus.Mapping.Links.{Link, is_given}
use meadow.Lotus.Mapping.Steps.{Registry}
use meadow.Lotus.Mapping.Plan.{MappingDefinition, Compiled, source_links, generate_mapping_plan}
use meadow.Lotus.Mapping.Plan.Valid.{generate_mapping_plan-Ordered}
use meadow.Lotus.Mapping.Run.{
  SourceFieldValue, Mapping, inputs_of, start, execute_link, execute_source_links,
}
use meadow.Lotus.Mapping.Run.Pending.{absent, tally, is_to, is_unfired, AllCounted}
use meadow.Lotus.Mapping.Run.Start.{execute_source_links-AllCounted}
use meadow.Lotus.Mapping.Run.Depth.{each_link-Stops, execute_link-Stops, rest_from_bound}

module _ {F : Type 0} where
  pub tally_zero :
      (p : Link F → Bool) (links : List (Link F)) (l : Link F)
      → tally p links ≡ 0
      → In l links
      → p l ≡ false
  unfolding tally
  tally_zero p [] l h i = absurd i
  tally_zero p (k ∷ links) l h (inl e) = rw e (ground (arith, h))
  tally_zero p (k ∷ links) l h (inr i) = tally_zero p links l (omega (arith, h)) i

  pub tally_none :
      (p : Link F → Bool) (links : List (Link F))
      → ((l : Link F) → In l links → p l ≡ false)
      → tally p links ≡ 0
  unfolding tally
  tally_none p [] h = refl
  tally_none p (k ∷ links) h =
      ground (arith, h k (inl refl), tally_none p links (λ l i. h l (inr i)))

abbrev pub has_result : {F T : Type 0} → Mapping F T → String → Bool
has_result s id = not (absent (lookup id s.step_results))

-- Every step that feeds the step has a result.
abbrev pub AllFed : {F T : Type 0} → MappingDefinition F → Mapping F T → String → Type 0
AllFed m s id =
    (l : Link _)
    → In l m.links
    → str_eq l.target.step_id id ≡ true
    → is_given l.source.step_id ≡ true
    → has_result s l.source.step_id ≡ true

module _ {F T : Type 0} ⦃linq : Linq⦄ (m : MappingDefinition F) where
  has_result_iff :
      (s : Mapping F T) (id : String)
      → is_given id ≡ true
      → AllCounted m [] s
      → (has_result s id ≡ true) ↔ (AllFed m s id × (inputs_of id s ≢ []))
  unfolding tally
  has_result_iff s id g c = (
    (λ h. (
      (λ l i t q. ground (
        arith,
        tally_zero (λ k. is_to id k && is_unfired s.step_results k) m.links l
            (omega (arith, (c id g).counts_links, (c id g).waits_for_none (ground (arith, h)))) i,
        t,
        q,
      )),
      (c id g).has_input (ground (arith, h)),
    )),
    λ (fed, nonempty). elim (Bool-cases (absent (lookup id s.step_results))) [
      | inl e ↦ absurd (
          nonempty (
            (c id g).has_run
              (omega (
                arith,
                (c id g).counts_links,
                tally_none (λ k. is_to id k && is_unfired s.step_results k) m.links
                    (λ l i. ground (arith, fed l i)),
              ))
              e))
      | inr e ↦ ground (arith, e)
    ],
  )

module _ {F T : Type 0} ⦃linq : Linq⦄ (write : String → Value F → Option ℕ → T → Outcome T)
    (writes : (field_id : String) (v : Value F) (index : Option ℕ) (t : T)
      → Stops (write field_id v index t))
    (get_action : Registry F) (m : MappingDefinition F) (steps : Compiled F) where
  pub run-Stops :
      (depth fuel : ℕ) (extracted : List (SourceFieldValue F)) (target : T)
      → generate_mapping_plan get_action m depth ≡ done steps
      → length steps < fuel
      → Stops (execute_source_links write m steps fuel extracted target)
  unfolding execute_source_links
  run-Stops depth fuel extracted target e h =
      each_link-Stops write writes m steps (execute_link write m steps fuel) (source_links m)
        (start m extracted target)
        (λ l i s.
          execute_link-Stops write writes m steps fuel l s
            (generate_mapping_plan-Ordered get_action m depth steps e).0
            (omega (arith, rest_from_bound l.target.step_id steps, h)))

  run-AllCounted :
      (depth fuel : ℕ) (extracted : List (SourceFieldValue F)) (target : T)
      → generate_mapping_plan get_action m depth ≡ done steps
      → length steps < fuel
      → Ends (AllCounted m []) (execute_source_links write m steps fuel extracted target)
  run-AllCounted depth fuel extracted target e h =
      Ends-IfDone (λ _. Unit) (AllCounted m [])
        (execute_source_links write m steps fuel extracted target)
        (run-Stops depth fuel extracted target e h)
        (execute_source_links-AllCounted write m steps fuel extracted target (
          everywhere_from_members m.links
            (λ l i. ((generate_mapping_plan-Ordered get_action m depth steps e).1 l i).0)))

  -- Of a mapping that `GenerateMappingPlan` compiled to `steps`, a run over the links ends, where each write of a target
  -- field does, its recursion no
  -- deeper than the number of the steps. If it ends with no error, a step has a result exactly when every
  -- step that feeds it has one and the step got an input.
  pub execute_source_links-Ends :
      (depth fuel : ℕ) (extracted : List (SourceFieldValue F)) (target : T) (id : String)
      → generate_mapping_plan get_action m depth ≡ done steps
      → length steps < fuel
      → is_given id ≡ true
      → Ends
          (λ s. (has_result s id ≡ true) ↔ (AllFed m s id × (inputs_of id s ≢ [])))
          (execute_source_links write m steps fuel extracted target)
  execute_source_links-Ends depth fuel extracted target id e h g =
      Ends-map (AllCounted m [])
        (λ s. (has_result s id ≡ true) ↔ (AllFed m s id × (inputs_of id s ≢ [])))
        (execute_source_links write m steps fuel extracted target)
        (run-AllCounted depth fuel extracted target e h) (λ s c. has_result_iff m s id g c)

  -- Of a link from a step to a step, in a run of a compiled mapping that ends with no error: either the source step got an input, or the target step has no result,
  -- whatever inputs it got from its other links.
  pub execute_source_links-starved :
      (depth fuel : ℕ) (extracted : List (SourceFieldValue F)) (target : T) (l : Link F)
      → generate_mapping_plan get_action m depth ≡ done steps
      → length steps < fuel
      → In l m.links
      → is_given l.source.step_id ≡ true
      → is_given l.target.step_id ≡ true
      → Ends
          (λ s. (inputs_of l.source.step_id s ≢ []) ⊎ (has_result s l.target.step_id ≡ false))
          (execute_source_links write m steps fuel extracted target)
  execute_source_links-starved depth fuel extracted target l e h i gs gt =
      Ends-map (AllCounted m [])
        (λ s. (inputs_of l.source.step_id s ≢ []) ⊎ (has_result s l.target.step_id ≡ false))
        (execute_source_links write m steps fuel extracted target)
        (run-AllCounted depth fuel extracted target e h)
        (λ s c. elim (Bool-cases (has_result s l.target.step_id)) [
          | inr absent_target ↦ inr absent_target
          | inl ran ↦
              inl
                ((has_result_iff m s l.source.step_id gs c).0 (
                  ((has_result_iff m s l.target.step_id gt c).0 ran).0 l i
                    (ground (arith, eq_iff l.target.step_id l.target.step_id)) gs)).1
        ])
