-- ===== src/Lotus/Mapping/Run/Waiting.antt =====
-- A run over the links keeps the counts of pending inputs true: `ExecuteLink` and `ExecuteMapping` of
-- lotus/pkg/mapping/mapping.go.
use meadow.Prelude.{
  ℕ, zero, suc, ◌-◌, ltb, true, false, String, Option, none, some, List, [], ◌∷◌, ◌++◌, str_eq, Map,
  lookup, lookup-insert, lookup-insert_same, ◌≡◌, refl, sym, ap, if_either, eq_iff, arith, All,
}
use meadow.Json.{Value}
use meadow.Lotus.Mapping.Outcome.{Outcome, IfDone, >>=-IfDone, anything, >>=-or_failed-IfDone}
use meadow.Lotus.Mapping.Fields.{get_field}
use meadow.Lotus.Mapping.Linq.{Linq}
use meadow.Lotus.Mapping.Links.{Link, is_given, filter-All}
use meadow.Lotus.Mapping.Steps.{Step, execute}
use meadow.Lotus.Mapping.Plan.{MappingDefinition, Compiled, target_count}
use meadow.Lotus.Mapping.Plan.Valid.{IsLink}
use meadow.Lotus.Mapping.Run.{
  SourceFieldValue, Mapping, or_zero, or_empty, values_of, pending, get_link_inputs, write_target,
  write_each, is_scalar_source, execute_field_link, add_inputs, with_inputs, count_down,
  child_links, execute_step, execute_step_link, execute_target, each_link, execute_link,
}
use meadow.Lotus.Mapping.Run.Pending.{
  absent, is_to, AllCounted, passed_elsewhere, absent_result, passed_waiting, passed_running,
}

absent-none : {A : Type 0} {o : Option A} → absent o ≡ true → o ≡ none
absent-none {o = none} h = refl
absent-none {o = some a} h = absurd (cc h)

module _ {F : Type 0} where
  -- A link with a target field has no target step.
  pub one_target :
      (l : Link F) (t : String)
      → IsLink l
      → is_given t ≡ true
      → is_given l.target.field_id ≡ true
      → is_to t l ≡ false
  unfolding target_count
  one_target l t h g f = ground (arith, h.1, g, f, eq_iff l.target.step_id t)

module _ {F T : Type 0} ⦃linq : Linq⦄ (write : String → Value F → Option ℕ → T → Outcome T)
    (m : MappingDefinition F) where
  pub write_target-AllCounted :
      (todo : List (Link F)) (field_id : String) (v : Value F) (index : Option ℕ) (s : Mapping F T)
      → AllCounted m todo s
      → IfDone (AllCounted m todo) (write_target write field_id v index s)
  write_target-AllCounted todo field_id v index s h =
      >>=-IfDone (λ _. Unit) (AllCounted m todo) (write field_id v index s.target) _
        (anything (write field_id v index s.target)) (λ t _. h)

  pub write_each-AllCounted :
      (todo : List (Link F)) (field_id : String) (vs : List (SourceFieldValue F)) (s : Mapping F T)
      → AllCounted m todo s
      → IfDone (AllCounted m todo) (write_each write field_id vs s)
  unfolding write_each
  write_each-AllCounted todo field_id [] s h = h
  write_each-AllCounted todo field_id (v ∷ vs) s h =
      >>=-IfDone (AllCounted m todo) (AllCounted m todo)
        (write_target write field_id v.value (some v.index) s) _
        (write_target-AllCounted todo field_id v.value (some v.index) s h)
        (λ after q. write_each-AllCounted todo field_id vs after q)

module _ {F T : Type 0} ⦃linq : Linq⦄ (write : String → Value F → Option ℕ → T → Outcome T)
    (m : MappingDefinition F) (steps : Compiled F) where
  pub execute_field_link-AllCounted :
      (todo : List (Link F)) (inputs : List (Value F)) (l : Link F) (s : Mapping F T)
      → AllCounted m todo s
      → IfDone (AllCounted m todo) (execute_field_link write m steps inputs l s)
  unfolding execute_field_link
  execute_field_link-AllCounted todo [] l s h = h
  execute_field_link-AllCounted todo (v ∷ vs) l s h =
      if_either (IfDone (AllCounted m todo)) (is_given l.source.field_id) _ _
        (λ _.
          if_either (IfDone (AllCounted m todo))
            (is_scalar_source (get_field m.source_fields l.source.field_id)) _ _
            (λ _. write_target-AllCounted write m todo l.target.field_id v none s h)
            (λ _.
              write_each-AllCounted write m todo l.target.field_id
                (values_of l.source.field_id s.source_field_values) s h))
        (λ _. write_target-AllCounted write m todo l.target.field_id v none s h)

  -- What a loop over links does when one link is run after the other and each keeps the counts.
  abbrev pub Keeps : (Link F → Mapping F T → Outcome (Mapping F T)) → Type 0
  Keeps run =
      (l : Link F) (todo : List (Link F)) (s : Mapping F T)
      → IsLink l
      → AllCounted m (l ∷ todo) s
      → IfDone (AllCounted m todo) (run l s)

  pub each_link-AllCounted :
      (run : Link F → Mapping F T → Outcome (Mapping F T)) (links todo : List (Link F))
      (s : Mapping F T)
      → Keeps run
      → All IsLink links
      → AllCounted m (links ++ todo) s
      → IfDone (AllCounted m todo) (each_link run links s)
  unfolding each_link
  each_link-AllCounted run [] todo s k v h = h
  each_link-AllCounted run (l ∷ links) todo s k v h =
      >>=-IfDone (AllCounted m (links ++ todo)) (AllCounted m todo) (run l s) _
        (k l (links ++ todo) s v.0 h) (λ after q. each_link-AllCounted run links todo after k v.1 q)

  pub lookup-with_inputs :
      (step_id t : String) (vs : List (Value F)) (inputs : Map (List (Value F)))
      → str_eq step_id t ≡ false
      → lookup t (with_inputs step_id vs inputs) ≡ lookup t inputs
  unfolding with_inputs
  lookup-with_inputs step_id t [] inputs h = refl
  lookup-with_inputs step_id t (v ∷ vs) inputs h = rw lookup-insert (rw h refl)

  -- The step of a link that was the last one it waited for. The inputs are those with the link's.
  execute_step-AllCounted :
      (run : Link F → Mapping F T → Outcome (Mapping F T)) (step : Step F) (l : Link F)
      (todo : List (Link F)) (vs : List (Value F)) (s : Mapping F T) (others : Map (List (Value F)))
      → Keeps run
      → All IsLink m.links
      → is_given l.target.step_id ≡ true
      → pending l.target.step_id s - 1 ≡ 0
      → vs ≡ or_empty (lookup l.target.step_id others)
      → ((t : String)
          → str_eq l.target.step_id t ≡ false
          → lookup t others ≡ lookup t s.step_inputs)
      → AllCounted m (l ∷ todo) s
      → IfDone (AllCounted m todo) (
          execute_step write m steps
            (each_link run)
            step
            l.target.step_id
            vs
            (count_down l.target.step_id (record s { step_inputs = others })))
  unfolding execute_step
  execute_step-AllCounted run step l todo [] s others k v g n e o h = λ t q.
      passed_waiting m l todo s.step_results s.step_inputs others s.step_pending_inputs t (o t)
        (λ _. sym e) (h l.target.step_id g) (h t q)
  execute_step-AllCounted run step l todo (i ∷ vs) s others k v g n e o h =
      >>=-or_failed-IfDone (AllCounted m todo) (execute step (i ∷ vs)) _ (λ out _.
        each_link-AllCounted run (child_links m l.target.step_id) todo _ k
          (filter-All IsLink _ m.links v)
          (λ t q.
            passed_running m l todo s.step_results out s.step_inputs others s.step_pending_inputs t
              g (o t) n (absent-none (absent_result m l todo _ _ _ (h l.target.step_id g)))
              (λ z. cc (e, z)) (h t q)))

  -- A link to a step, given the state in which its inputs are added.
  execute_step_link-AllCounted :
      (run : Link F → Mapping F T → Outcome (Mapping F T)) (l : Link F) (todo : List (Link F))
      (s : Mapping F T)
      → Keeps run
      → All IsLink m.links
      → is_given l.target.step_id ≡ true
      → AllCounted m (l ∷ todo) s
      → IfDone (AllCounted m todo) (execute_step_link write m steps (each_link run) l s)
  unfolding execute_step_link
  execute_step_link-AllCounted run l todo s k v g h =
      >>=-or_failed-IfDone (AllCounted m todo) (lookup l.target.step_id steps) _ (λ step _.
        if_either (IfDone (AllCounted m todo))
          (ltb 0 (
            pending l.target.step_id
              (count_down l.target.step_id (add_inputs l.target.step_id (get_link_inputs l s) s))))
          _ _
          (λ e t q.
            passed_waiting m l todo s.step_results s.step_inputs
              (with_inputs l.target.step_id (get_link_inputs l s) s.step_inputs)
              s.step_pending_inputs t
              (lookup-with_inputs l.target.step_id t (get_link_inputs l s) s.step_inputs)
              (λ n. absurd (
                ground (
                  arith,
                  e,
                  n,
                  ap or_zero (
                      lookup-insert_same l.target.step_id (pending l.target.step_id s - 1)
                        s.step_pending_inputs),
                )))
              (h l.target.step_id g) (h t q))
          (λ e.
            execute_step-AllCounted run step l todo _ s
              (with_inputs l.target.step_id (get_link_inputs l s) s.step_inputs) k v g
              (ground (
                arith,
                e,
                ap or_zero (
                    lookup-insert_same l.target.step_id (pending l.target.step_id s - 1)
                      s.step_pending_inputs),
              ))
              refl (λ t. lookup-with_inputs l.target.step_id t (get_link_inputs l s) s.step_inputs)
              h))

  pub execute_link-AllCounted :
      (fuel : ℕ) → All IsLink m.links → Keeps (execute_link write m steps fuel)
  unfolding execute_link execute_target
  execute_link-AllCounted zero v l todo s a h = tt
  execute_link-AllCounted (suc fuel) v l todo s a h =
      if_either (IfDone (AllCounted m todo)) (is_given l.target.field_id) _ _
        (λ f.
          execute_field_link-AllCounted todo (get_link_inputs l s) l s
            (λ t q. passed_elsewhere m l todo _ _ _ t (one_target l t a q f) (h t q)))
        (λ _.
          if_either (IfDone (AllCounted m todo)) (is_given l.target.step_id) _ _
            (λ g.
              execute_step_link-AllCounted (execute_link write m steps fuel) l todo s
                (execute_link-AllCounted fuel v) v g h)
            (λ g t q.
              passed_elsewhere m l todo _ _ _ t (ground (arith, g, q, eq_iff l.target.step_id t))
                (h t q)))
