-- ===== src/Lotus/Mapping/Run.antt =====
-- lotus/pkg/mapping/mapping.go: the run of a compiled mapping over its links. The writer of target fields is
-- a parameter here: it takes the field, the value, the index in the array (`none` for the source's -1) and the
-- target state.
pub mod Pending
pub mod Waiting
pub mod Start
pub mod Results
pub mod Depth
use meadow.Prelude.{
  ℕ, zero, suc, ◌+◌, ◌-◌, ltb, Bool, true, false, not, String, Option, none, some, List, [], ◌∷◌,
  ◌++◌, str_eq, if◌then◌else◌, Map, lookup, insert,
}
use meadow.Json.{Value, null}
use meadow.Lotus.Mapping.Outcome.{Outcome, done, failed, out_of_fuel, ◌>>=◌, or_failed}
use meadow.Lotus.Mapping.Fields.{Field, info, get_field}
use meadow.Lotus.Mapping.Linq.{Linq}
use meadow.Lotus.Mapping.Links.{LinkDirection, Link, is_given, filter}
use meadow.Lotus.Mapping.Steps.{Step, StepOutput, execute}
use meadow.Lotus.Mapping.Plan.{MappingDefinition, Compiled, source_links, constant_values}

pub record SourceFieldValue (F : Type 0) : Type 0 where
  pub field_id : String
  pub index : ℕ
  pub value : Value F

-- `step_pending_inputs` stops at 0 where Go's `int` goes on below: the code tests only whether it is above 0.
pub record Mapping (F T : Type 0) : Type 0 where
  pub source_field_values : List (SourceFieldValue F)
  pub target : T
  pub step_results : Map (StepOutput F)
  pub step_inputs : Map (List (Value F))
  pub step_pending_inputs : Map ℕ

-- What Go reads from a map of counts, or of slices, for a key that is missing.
abbrev pub or_zero : Option ℕ → ℕ
or_zero none = 0
or_zero (some n) = n

module _ {F : Type 0} where
  abbrev pub or_empty : Option (List (Value F)) → List (Value F)
  or_empty none = []
  or_empty (some vs) = vs

  unfoldable pub values : List (SourceFieldValue F) → List (Value F)
  values [] = []
  values (v ∷ vs) = v.value ∷ values vs

  abbrev pub is_null : Value F → Bool
  is_null null = true
  is_null _ = false

  unfoldable pub result_values : Option (StepOutput F) → List (Value F)
  result_values none = []
  result_values (some out) =
      if out.breaks then [] else (if is_null out.output then [] else out.output ∷ [])

  abbrev pub pending : {T : Type 0} → String → Mapping F T → ℕ
  pending step_id s = or_zero (lookup step_id s.step_pending_inputs)

  -- Nothing is stored where no inputs come.
  unfoldable pub with_inputs : String → List (Value F) → Map (List (Value F)) → Map (List (Value F))
  with_inputs step_id [] inputs = inputs
  with_inputs step_id (v ∷ vs) inputs =
      insert step_id (or_empty (lookup step_id inputs) ++ (v ∷ vs)) inputs

  abbrev pub inputs_of : {T : Type 0} → String → Mapping F T → List (Value F)
  inputs_of step_id s = or_empty (lookup step_id s.step_inputs)

module _ {F : Type 0} ⦃linq : Linq⦄ where
  unfoldable pub values_of : String → List (SourceFieldValue F) → List (SourceFieldValue F)
  values_of field_id vs = linq.filter (λ v. str_eq v.field_id field_id) vs

  unfoldable pub get_link_inputs : {T : Type 0} → Link F → Mapping F T → List (Value F)
  get_link_inputs l s =
      (if is_given l.source.field_id
        then values (values_of l.source.field_id s.source_field_values)
        else [])
      ++ ((if is_given l.source.step_id
            then result_values (lookup l.source.step_id s.step_results)
            else [])
          ++ constant_values l.source.constant)

module _ {F : Type 0} where
  -- `srcErr == nil && !srcField.IsItem`
  abbrev pub is_scalar_source : Option (Field F) → Bool
  is_scalar_source none = false
  is_scalar_source (some f) = not (info f).is_item

  unfoldable pub count_pending : List (Link F) → Map ℕ → Map ℕ
  count_pending [] counts = counts
  count_pending (l ∷ links) counts = count_pending links (
      if is_given l.target.step_id
      then insert l.target.step_id (or_zero (lookup l.target.step_id counts) + 1) counts
      else counts)

module _ {F T : Type 0} where
  abbrev pub add_inputs : String → List (Value F) → Mapping F T → Mapping F T
  add_inputs step_id vs s = record s { step_inputs = with_inputs step_id vs s.step_inputs }

  abbrev pub count_down : String → Mapping F T → Mapping F T
  count_down step_id s = record s {
    step_pending_inputs = insert step_id (pending step_id s - 1) s.step_pending_inputs;
  }

  unfoldable pub each_link :
      (Link F → Mapping F T → Outcome (Mapping F T))
      → List (Link F)
      → Mapping F T
      → Outcome (Mapping F T)
  each_link run [] s = done s
  each_link run (l ∷ links) s = run l s >>= λ after. each_link run links after

module _ {F T : Type 0} (write : String → Value F → Option ℕ → T → Outcome T) where
  abbrev pub write_target : String → Value F → Option ℕ → Mapping F T → Outcome (Mapping F T)
  write_target field_id v index s =
      write field_id v index s.target >>= λ t. done (record s { target = t })

  unfoldable pub write_each :
      String → List (SourceFieldValue F) → Mapping F T → Outcome (Mapping F T)
  write_each field_id [] s = done s
  write_each field_id (v ∷ vs) s =
      write_target field_id v.value (some v.index) s >>= λ after. write_each field_id vs after

module _ {F : Type 0} (m : MappingDefinition F) where
  abbrev pub start : {T : Type 0} → List (SourceFieldValue F) → T → Mapping F T
  start extracted target = record {
    source_field_values = extracted;
    target = target;
    step_results = [];
    step_inputs = [];
    step_pending_inputs = count_pending m.links [];
  }

module _ {F : Type 0} ⦃linq : Linq⦄ (m : MappingDefinition F) where
  abbrev pub child_links : String → List (Link F)
  child_links step_id = filter (λ l. str_eq l.source.step_id step_id) m.links

module _ {F T : Type 0} ⦃linq : Linq⦄ (write : String → Value F → Option ℕ → T → Outcome T)
    (m : MappingDefinition F) (steps : Compiled F) where
  -- A link to a target field. The first argument is its inputs.
  unfoldable pub execute_field_link : List (Value F) → Link F → Mapping F T → Outcome (Mapping F T)
  execute_field_link [] l s = done s
  execute_field_link (v ∷ vs) l s =
      if is_given l.source.field_id
      then (if is_scalar_source (get_field m.source_fields l.source.field_id)
          then write_target write l.target.field_id v none s
          else write_each write l.target.field_id
              (values_of l.source.field_id s.source_field_values) s)
      else write_target write l.target.field_id v none s

  -- `run` is the loop over the child links.
  unfoldable pub execute_step :
      (List (Link F) → Mapping F T → Outcome (Mapping F T))
      → Step F
      → String
      → List (Value F)
      → Mapping F T
      → Outcome (Mapping F T)
  execute_step run s step_id [] state = done state
  execute_step run s step_id (v ∷ vs) state = or_failed (execute s (v ∷ vs)) >>= λ out.
      run (child_links m step_id)
        (record state { step_results = insert step_id out state.step_results })

  unfoldable pub execute_step_link :
      (List (Link F) → Mapping F T → Outcome (Mapping F T))
      → Link F
      → Mapping F T
      → Outcome (Mapping F T)
  execute_step_link run l state =
      let step_id = l.target.step_id in
      or_failed (lookup step_id steps) >>= λ s.
      let after = count_down step_id (add_inputs step_id (get_link_inputs l state) state) in
      if ltb 0 (pending step_id after)
      then done after
      else execute_step run s step_id (inputs_of step_id after) after

  unfoldable pub execute_target :
      (List (Link F) → Mapping F T → Outcome (Mapping F T))
      → Link F
      → Mapping F T
      → Outcome (Mapping F T)
  execute_target run l s =
      if is_given l.target.field_id
      then execute_field_link (get_link_inputs l s) l s
      else (if is_given l.target.step_id then execute_step_link run l s else done s)

  -- The fuel is the depth of the recursion.
  unfoldable pub execute_link : ℕ → Link F → Mapping F T → Outcome (Mapping F T)
  execute_link zero l s = out_of_fuel
  execute_link (suc fuel) l s = execute_target (each_link (execute_link fuel)) l s

  -- `ExecuteMapping` of what `AddSourceRaw` extracted, up to the target.
  unfoldable pub execute_source_links : ℕ → List (SourceFieldValue F) → T → Outcome (Mapping F T)
  execute_source_links fuel extracted target =
      each_link (execute_link fuel) (source_links m) (start m extracted target)
