-- ===== src/Lotus/Mapping/Plan/Order.antt =====
-- The order in which `createStep` of lotus/pkg/mapping/validate.go compiles the steps: a step stands behind
-- those that feed it.
use meadow.Prelude.{
  ℕ, zero, suc, Bool, true, false, ◌||◌, String, Option, none, some, List, [], ◌∷◌, str_eq, lookup,
  insert, lookup-insert, lookup-insert_same, ◌≡◌, refl, inl, inr, Bool-cases, Option-cases,
  if_either, eq_iff, arith, In,
}
use meadow.Lotus.Mapping.Outcome.{Outcome, IfDone, >>=-IfDone, >>=-or_failed-IfDone, anything}
use meadow.Lotus.Mapping.Linq.{Linq}
use meadow.Lotus.Mapping.Links.{Link, is_given, filter-In}
use meadow.Lotus.Mapping.Steps.{StepDefinition, Registry, Step, new_step}
use meadow.Lotus.Mapping.Plan.{
  MappingDefinition, Compiled, parent_links, field_types, step_types, input_types, is_empty,
  build_step, or_build, create_step,
}

abbrev pub present : {A : Type 0} → Option A → Bool
present none = false
present (some a) = true

module _ {F : Type 0} where
  abbrev pub is_compiled : Compiled F → String → Bool
  is_compiled steps id = present (lookup id steps)

  -- Every step that feeds the step has `seen`.
  abbrev pub Sourced : MappingDefinition F → (String → Bool) → String → Type 0
  Sourced m seen id =
      (l : Link F)
      → In l m.links
      → str_eq l.target.step_id id ≡ true
      → is_given l.source.step_id ≡ true
      → seen l.source.step_id ≡ true

  abbrev pub OrderedAfter : MappingDefinition F → (String → Bool) → Compiled F → Type 0
  OrderedAfter m seen [] = Unit
  OrderedAfter m seen ((id, s) ∷ rest) =
      Sourced m seen id × OrderedAfter m (λ j. seen j || str_eq id j) rest

  -- Each step of the list stands behind all those that feed it.
  abbrev pub Ordered : MappingDefinition F → Compiled F → Type 0
  Ordered m steps = OrderedAfter m (λ j. false) steps

  pub insert-OrderedAfter :
      (m : MappingDefinition F) (seen : String → Bool) (steps : Compiled F) (id : String)
      (s : Step F)
      → OrderedAfter m seen steps
      → Sourced m (λ j. seen j || is_compiled steps j) id
      → OrderedAfter m seen (insert id s steps)
  unfolding insert lookup
  insert-OrderedAfter m seen [] id s h g = (λ l i t q. ground (arith, g l i t q), tt)
  insert-OrderedAfter m seen ((k, old) ∷ rest) id s h g = elim (Bool-cases (str_eq k id)) [
    | inl e ↦ rw e (rw ((eq_iff k id).0 e) at h)
    | inr e ↦ rw e (
      h.0,
      insert-OrderedAfter m (λ j. seen j || str_eq k j) rest id s h.1
          (λ l i t q. ground (arith, g l i t q)),
    )
  ]

  -- No compiled step is lost.
  abbrev pub Grows : Compiled F → Compiled F → Type 0
  Grows steps after = (j : String) → is_compiled steps j ≡ true → is_compiled after j ≡ true

  pub insert-Grows :
      (steps : Compiled F) (id : String) (s : Step F) → Grows steps (insert id s steps)
  insert-Grows steps id s j h = rw lookup-insert (ground (arith, h))

  -- What a call of `createStep` leaves behind.
  abbrev pub Creates : MappingDefinition F → Compiled F → String → Step F × Compiled F → Type 0
  Creates m steps id r = Ordered m r.1 × (Grows steps r.1 × (lookup id r.1 ≡ some r.0))

  abbrev pub Feeds : MappingDefinition F → Compiled F → List (Link F) → Compiled F → Type 0
  Feeds m steps links end =
      Ordered m end
      × (Grows steps end
          × ((l : Link F)
              → In l links
              → is_given l.source.step_id ≡ true
              → is_compiled end l.source.step_id ≡ true))

module _ {F : Type 0} ⦃linq : Linq⦄ (m : MappingDefinition F)
    (create : String → Compiled F → Outcome (Step F × Compiled F))
    (creates : (id : String) (steps : Compiled F)
      → Ordered m steps
      → IfDone (Creates m steps id) (create id steps)) where
  pub step_types-Feeds :
      (l : Link F) (steps : Compiled F)
      → Ordered m steps
      → IfDone (λ r. Feeds m steps (l ∷ []) r.1) (step_types create l.source steps)
  unfolding step_types
  step_types-Feeds l steps o =
      if_either (IfDone (λ r. Feeds m steps (l ∷ []) r.1)) (is_given l.source.step_id) _ _
        (λ g.
          >>=-IfDone (Creates m steps l.source.step_id) (λ r. Feeds m steps (l ∷ []) r.1)
            (create l.source.step_id steps) _ (creates l.source.step_id steps o)
            (λ (s, after) c.
              (c.0, (c.1.0, λ k i q. elim i [ inl e ↦ rw e (rw c.1.1 refl) | inr e ↦ absurd e ]))))
        (λ g. (
          o,
          (
            (λ j q. q),
            λ k i q. elim i [ inl e ↦ absurd (ground (arith, g, rw e at q)) | inr e ↦ absurd e ],
          ),
        ))

  pub input_types-Feeds :
      (links : List (Link F)) (steps : Compiled F)
      → Ordered m steps
      → IfDone (λ r. Feeds m steps links r.1) (input_types m create links steps)
  unfolding input_types
  input_types-Feeds [] steps o = (o, ((λ j q. q), λ k i q. absurd i))
  input_types-Feeds (l ∷ links) steps o =
      >>=-IfDone (λ _. Unit) (λ r. Feeds m steps (l ∷ links) r.1) (field_types m l.source) _
        (anything (field_types m l.source))
        (λ fs _.
          >>=-IfDone (λ r. Feeds m steps (l ∷ []) r.1) (λ r. Feeds m steps (l ∷ links) r.1)
            (step_types create l.source steps) _ (step_types-Feeds l steps o)
            (λ (ss, after) f.
              >>=-IfDone (λ r. Feeds m after links r.1) (λ r. Feeds m steps (l ∷ links) r.1)
                (input_types m create links after) _ (input_types-Feeds links after f.0)
                (λ (ts, end) g. (
                  g.0,
                  (
                    (λ j q. g.1.0 j (f.1.0 j q)),
                    λ k i q. elim i [
                      | inl e ↦ g.1.0 k.source.step_id (f.1.1 k (inl e) q)
                      | inr j ↦ g.1.1 k j q
                    ],
                  ),
                ))))

  pub or_build-Creates :
      (get_action : Registry F) (id : String) (definition : StepDefinition F) (steps : Compiled F)
      → Ordered m steps
      → IfDone
          (Creates m steps id)
          (or_build get_action m create id definition steps (lookup id steps))
  unfolding or_build build_step
  or_build-Creates get_action id definition steps o = elim (Option-cases (lookup id steps)) [
    | inr (s, e) ↦ rw e (o, ((λ j q. q), e))
    | inl e ↦ rw e (
        if_either (IfDone (Creates m steps id)) (is_empty (parent_links m id)) _ _ (λ _. tt)
          (λ _.
            >>=-IfDone (λ r. Feeds m steps (parent_links m id) r.1) (Creates m steps id)
              (input_types m create (parent_links m id) steps) _
              (input_types-Feeds (parent_links m id) steps o)
              (λ (types, after) f.
                >>=-or_failed-IfDone (Creates m steps id) (new_step get_action definition types) _
                  (λ s _. (
                    insert-OrderedAfter m (λ j. false) after id s f.0
                        (λ l i t q. f.1.1 l (filter-In _ m.links l i t) q),
                    ((λ j q. insert-Grows after id s j (f.1.0 j q)), lookup-insert_same id s after),
                  )))))
  ]

pub create_step-Creates :
    {F : Type 0} ⦃linq : Linq⦄ (get_action : Registry F) (m : MappingDefinition F) (fuel : ℕ)
    (id : String) (steps : Compiled F)
    → Ordered m steps
    → IfDone (Creates m steps id) (create_step get_action m fuel id steps)
unfolding create_step
create_step-Creates get_action m zero id steps o = tt
create_step-Creates get_action m (suc fuel) id steps o =
    >>=-or_failed-IfDone (Creates m steps id) (lookup id m.step_definitions) _ (λ definition _.
      or_build-Creates m (create_step get_action m fuel) (create_step-Creates get_action m fuel)
        get_action id definition steps o)
