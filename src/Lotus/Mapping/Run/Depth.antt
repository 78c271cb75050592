-- ===== src/Lotus/Mapping/Run/Depth.antt =====
-- How deep `ExecuteLink` of lotus/pkg/mapping/mapping.go calls itself: no deeper than there are steps.
use meadow.Prelude.{
  ℕ, zero, suc, ◌<◌, ◌≤◌, ltb, Bool, true, false, ◌||◌, String, Option, none, some, List, [], ◌∷◌,
  length, str_eq, if◌then◌else◌, lookup, ◌≡◌, refl, ◌⊎◌, inl, inr, Bool-cases, if_either, eq_iff,
  arith, In,
}
use meadow.Json.{Value}
use meadow.Lotus.Mapping.Outcome.{
  Outcome, Stops, >>=-Stops, >>=-or_failed-Ends, >>=-or_failed-Stops,
}
use meadow.Lotus.Mapping.Fields.{get_field}
use meadow.Lotus.Mapping.Linq.{Linq}
use meadow.Lotus.Mapping.Links.{Link, is_given, filter_has, filter_is}
use meadow.Lotus.Mapping.Steps.{Step, execute}
use meadow.Lotus.Mapping.Plan.{MappingDefinition, Compiled}
use meadow.Lotus.Mapping.Plan.Order.{is_compiled, OrderedAfter, Ordered}
use meadow.Lotus.Mapping.Run.{
  SourceFieldValue, Mapping, values_of, pending, get_link_inputs, write_target, write_each,
  is_scalar_source, execute_field_link, add_inputs, count_down, child_links, execute_step,
  execute_step_link, execute_target, each_link, execute_link,
}

module _ {F : Type 0} where
  -- The number of compiled steps from this one on.
  unfoldable pub rest_from : String → Compiled F → ℕ
  rest_from id [] = 0
  rest_from id ((k, s) ∷ rest) = if str_eq k id then suc (length rest) else rest_from id rest

  pub rest_from_bound : (id : String) (steps : Compiled F) → rest_from id steps ≤ length steps
  unfolding rest_from
  rest_from_bound id [] = omega arith
  rest_from_bound id ((k, s) ∷ rest) = ground (arith, rest_from_bound id rest)

  pub rest_from_compiled :
      (id : String) (steps : Compiled F) → is_compiled steps id ≡ true → 0 < rest_from id steps
  unfolding rest_from lookup
  rest_from_compiled id [] h = absurd (cc h)
  rest_from_compiled id ((k, s) ∷ rest) h = ground (arith, rest_from_compiled id rest)

  pub rest_from_missing :
      (id : String) (steps : Compiled F) → is_compiled steps id ≡ false → rest_from id steps ≡ 0
  unfolding rest_from lookup
  rest_from_missing id [] h = refl
  rest_from_missing id ((k, s) ∷ rest) h = ground (arith, rest_from_missing id rest)

  -- A step that is fed by a compiled step has fewer steps behind it.
  pub rest_from_source :
      (m : MappingDefinition F) (seen : String → Bool) (steps : Compiled F) (l : Link F)
      → OrderedAfter m seen steps
      → In l m.links
      → is_given l.source.step_id ≡ true
      → is_compiled steps l.target.step_id ≡ true
      → (seen l.source.step_id ≡ true)
        ⊎ (rest_from l.target.step_id steps < rest_from l.source.step_id steps)
  unfolding rest_from lookup
  rest_from_source m seen [] l h i g c = absurd (cc c)
  rest_from_source m seen ((k, s) ∷ rest) l h i g c =
      elim (Bool-cases (str_eq k l.target.step_id)) [
        | inl e ↦
            inl
              (h.0 l i (ground (arith, eq_iff k l.target.step_id, eq_iff l.target.step_id k, e)) g)
        | inr e ↦ elim (rest_from_source m (λ j. seen j || str_eq k j) rest l h.1 i g (rw e at c)) [
          | inl q ↦ elim (Bool-cases (str_eq k l.source.step_id)) [
            | inl f ↦ inr (rw (e, f) (ground (arith, rest_from_bound l.target.step_id rest)))
            | inr f ↦ inl (ground (arith, q, f))
          ]
          | inr q ↦ inr (ground (arith, q, e, rest_from_bound l.target.step_id rest))
        ]
      ]

  pub rest_from_child :
      (m : MappingDefinition F) (steps : Compiled F) (l : Link F)
      → Ordered m steps
      → In l m.links
      → is_given l.source.step_id ≡ true
      → is_compiled steps l.source.step_id ≡ true
      → rest_from l.target.step_id steps < rest_from l.source.step_id steps
  rest_from_child m steps l o i g c = elim (Bool-cases (is_compiled steps l.target.step_id)) [
    | inl e ↦ elim (rest_from_source m (λ j. false) steps l o i g e) [
      | inl q ↦ absurd (cc q)
      | inr q ↦ q
    ]
    | inr e ↦ ground (
      arith,
      rest_from_missing l.target.step_id steps e,
      rest_from_compiled l.source.step_id steps c,
    )
  ]

module _ {F T : Type 0} ⦃linq : Linq⦄ (write : String → Value F → Option ℕ → T → Outcome T)
    (writes : (field_id : String) (v : Value F) (index : Option ℕ) (t : T)
      → Stops (write field_id v index t))
    (m : MappingDefinition F) (steps : Compiled F) where
  write_target-Stops :
      (field_id : String) (v : Value F) (index : Option ℕ) (s : Mapping F T)
      → Stops (write_target write field_id v index s)
  write_target-Stops field_id v index s =
      >>=-Stops (write field_id v index s.target) _ (writes field_id v index s.target) (λ _. tt)

  write_each-Stops :
      (field_id : String) (vs : List (SourceFieldValue F)) (s : Mapping F T)
      → Stops (write_each write field_id vs s)
  unfolding write_each
  write_each-Stops field_id [] s = tt
  write_each-Stops field_id (v ∷ vs) s =
      >>=-Stops (write_target write field_id v.value (some v.index) s) _
        (write_target-Stops field_id v.value (some v.index) s)
        (λ after. write_each-Stops field_id vs after)

  execute_field_link-Stops :
      (inputs : List (Value F)) (l : Link F) (s : Mapping F T)
      → Stops (execute_field_link write m steps inputs l s)
  unfolding execute_field_link
  execute_field_link-Stops [] l s = tt
  execute_field_link-Stops (v ∷ vs) l s =
      if_either Stops (is_given l.source.field_id) _ _
        (λ _.
          if_either Stops (is_scalar_source (get_field m.source_fields l.source.field_id)) _ _
            (λ _. write_target-Stops l.target.field_id v none s)
            (λ _.
              write_each-Stops l.target.field_id (values_of l.source.field_id s.source_field_values)
                s))
        (λ _. write_target-Stops l.target.field_id v none s)

  pub each_link-Stops :
      (run : Link F → Mapping F T → Outcome (Mapping F T)) (links : List (Link F)) (s : Mapping F T)
      → ((l : Link F) → In l links → (state : Mapping F T) → Stops (run l state))
      → Stops (each_link run links s)
  unfolding each_link
  each_link-Stops run [] s h = tt
  each_link-Stops run (l ∷ links) s h =
      >>=-Stops (run l s) _ (h l (inl refl) s)
        (λ after. each_link-Stops run links after (λ k i. h k (inr i)))

  execute_step-Stops :
      (run : List (Link F) → Mapping F T → Outcome (Mapping F T)) (step : Step F) (id : String)
      (vs : List (Value F)) (s : Mapping F T)
      → ((state : Mapping F T) → Stops (run (child_links m id) state))
      → Stops (execute_step write m steps run step id vs s)
  unfolding execute_step
  execute_step-Stops run step id [] s h = tt
  execute_step-Stops run step id (v ∷ vs) s h =
      >>=-or_failed-Stops (execute step (v ∷ vs)) _ (λ out. h _)

  execute_step_link-Stops :
      (run : List (Link F) → Mapping F T → Outcome (Mapping F T)) (l : Link F) (s : Mapping F T)
      → (is_compiled steps l.target.step_id ≡ true
          → (state : Mapping F T) → Stops (run (child_links m l.target.step_id) state))
      → Stops (execute_step_link write m steps run l s)
  unfolding execute_step_link
  execute_step_link-Stops run l s h =
      >>=-or_failed-Ends (λ _. Unit) (lookup l.target.step_id steps) _
        (λ step e.
          if_either Stops
            (ltb 0 (
              pending l.target.step_id (
                count_down l.target.step_id (add_inputs l.target.step_id (get_link_inputs l s) s))))
            _ _ (λ _. tt) (λ _. execute_step-Stops run step l.target.step_id _ _ (h (rw e refl))))

  child_reached :
      (fuel : ℕ) (l k : Link F)
      → Ordered m steps
      → In k (child_links m l.target.step_id)
      → is_compiled steps l.target.step_id ≡ true
      → is_given l.target.step_id ≡ true
      → rest_from l.target.step_id steps < suc fuel
      → rest_from k.target.step_id steps < fuel
  child_reached fuel l k o i c g h =
      let e = (eq_iff k.source.step_id l.target.step_id).0 (filter_is _ m.links k i) in
      let below = rest_from_child m steps k o (filter_has _ m.links k i) (rw e g) (rw e c) in
      omega (arith, rw e at below, h)

  -- The recursion is no deeper than the number of compiled steps from the target on.
  pub execute_link-Stops :
      (fuel : ℕ) (l : Link F) (s : Mapping F T)
      → Ordered m steps
      → rest_from l.target.step_id steps < fuel
      → Stops (execute_link write m steps fuel l s)
  unfolding execute_link execute_target
  execute_link-Stops zero l s o h = absurd (omega arith)
  execute_link-Stops (suc fuel) l s o h =
      if_either Stops (is_given l.target.field_id) _ _
        (λ _. execute_field_link-Stops (get_link_inputs l s) l s)
        (λ _.
          if_either Stops (is_given l.target.step_id) _ _
            (λ g.
              execute_step_link-Stops (each_link (execute_link write m steps fuel)) l s (λ c state.
                each_link-Stops (execute_link write m steps fuel) (child_links m l.target.step_id)
                  state
                  (λ k i after.
                    execute_link-Stops fuel k after o (child_reached fuel l k o i c g h))))
            (λ _. tt))
