-- ===== src/Lotus/Mapping/Plan/Valid.antt =====
-- What `GenerateMappingPlan` of lotus/pkg/mapping/validate.go makes sure of.
use meadow.Prelude.{
  ℕ, ◌==◌, ==_iff, true, not, ◌||◌, List, [], ◌∷◌, ◌≡◌, refl, inl, inr, if_either, arith, In,
}
use meadow.Lotus.Mapping.Outcome.{done, IfDone, >>=-IfDone, IfDone-map, done-IfDone, anything}
use meadow.Lotus.Mapping.Linq.{Linq}
use meadow.Lotus.Mapping.Links.{Link, is_given}
use meadow.Lotus.Mapping.Steps.{Registry}
use meadow.Lotus.Mapping.Plan.{
  MappingDefinition, Compiled, field_types, step_types, source_count, target_count,
  check_target_field, check_target_step, create_step, validate_link, validate_links,
  generate_mapping_plan,
}
use meadow.Lotus.Mapping.Plan.Order.{
  is_compiled, Ordered, Grows, Creates, Feeds, step_types-Feeds, create_step-Creates,
}

module _ {F : Type 0} where
  -- A link as `validateLink` lets it pass: one source, one target.
  abbrev pub IsLink : Link F → Type 0
  IsLink l = (source_count l.source ≡ 1) × (target_count l.target ≡ 1)

  -- The steps at the ends of the link are compiled.
  abbrev pub HasSteps : Compiled F → Link F → Type 0
  HasSteps steps l =
      (is_given l.source.step_id ≡ true → is_compiled steps l.source.step_id ≡ true)
      × (is_given l.target.step_id ≡ true → is_compiled steps l.target.step_id ≡ true)

  abbrev pub Validates : MappingDefinition F → Compiled F → List (Link F) → Compiled F → Type 0
  Validates m steps links end =
      Ordered m end × (Grows steps end × ((l : Link F) → In l links → IsLink l × HasSteps end l))

module _ {F : Type 0} ⦃linq : Linq⦄ (get_action : Registry F) (m : MappingDefinition F) where
  check_target_step-IfDone :
      (fuel : ℕ) (l : Link F) (steps : Compiled F)
      → Ordered m steps
      → IfDone
          (λ end.
            Ordered m end
            × (Grows steps end
                × (is_given l.target.step_id ≡ true → is_compiled end l.target.step_id ≡ true)))
          (check_target_step get_action m fuel l.target steps)
  unfolding check_target_step
  check_target_step-IfDone fuel l steps o =
      if_either
        (IfDone (λ end.
          Ordered m end
          × (Grows steps end
              × (is_given l.target.step_id ≡ true → is_compiled end l.target.step_id ≡ true))))
        (is_given l.target.step_id) _ _
        (λ g.
          >>=-IfDone (Creates m steps l.target.step_id) _
            (create_step get_action m fuel l.target.step_id steps) _
            (create_step-Creates get_action m fuel l.target.step_id steps o)
            (λ (s, after) c. (c.0, (c.1.0, λ q. rw c.1.1 refl))))
        (λ g. (o, ((λ j q. q), λ q. absurd (cc (g, q)))))

  validate_link-Validates :
      (fuel : ℕ) (l : Link F) (steps : Compiled F)
      → Ordered m steps
      → IfDone (Validates m steps (l ∷ [])) (validate_link get_action m fuel l steps)
  unfolding validate_link
  validate_link-Validates fuel l steps o =
      if_either (IfDone (Validates m steps (l ∷ [])))
        (not (source_count l.source == 1) || not (target_count l.target == 1)) _ _ (λ _. tt)
        (λ e.
          >>=-IfDone (λ _. Unit) (Validates m steps (l ∷ [])) (field_types m l.source) _
            (anything (field_types m l.source))
            (λ fs _.
              >>=-IfDone (λ r. Feeds m steps (l ∷ []) r.1) (Validates m steps (l ∷ []))
                (step_types (create_step get_action m fuel) l.source steps) _
                (step_types-Feeds m (create_step get_action m fuel)
                  (create_step-Creates get_action m fuel) l steps o)
                (λ (ss, after) f.
                  >>=-IfDone (λ _. Unit) (Validates m steps (l ∷ []))
                    (check_target_field m _ l.target) _ (anything (check_target_field m _ l.target))
                    (λ _ _.
                      IfDone-map
                        (λ end.
                          Ordered m end
                          × (Grows after end
                              × (is_given l.target.step_id ≡ true
                                  → is_compiled end l.target.step_id ≡ true)))
                        (Validates m steps (l ∷ []))
                        (check_target_step get_action m fuel l.target after)
                        (check_target_step-IfDone fuel l after f.0)
                        (λ end c. (
                          c.0,
                          (
                            (λ j q. c.1.0 j (f.1.0 j q)),
                            λ k i. elim i [
                              | inl q ↦ rw q (
                                (
                                  (==_iff (source_count l.source) 1).0 (ground (arith, e)),
                                  (==_iff (target_count l.target) 1).0 (ground (arith, e)),
                                ),
                                ((λ g. c.1.0 l.source.step_id (f.1.1 l (inl refl) g)), c.1.1),
                              )
                              | inr q ↦ absurd q
                            ],
                          ),
                        ))))))

  validate_links-Validates :
      (fuel : ℕ) (links : List (Link F)) (steps : Compiled F)
      → Ordered m steps
      → IfDone (Validates m steps links) (validate_links get_action m fuel links steps)
  unfolding validate_links
  validate_links-Validates fuel [] steps o = (o, ((λ j q. q), λ k i. absurd i))
  validate_links-Validates fuel (l ∷ links) steps o =
      >>=-IfDone (Validates m steps (l ∷ [])) (Validates m steps (l ∷ links))
        (validate_link get_action m fuel l steps) _ (validate_link-Validates fuel l steps o)
        (λ after v.
          IfDone-map (Validates m after links) (Validates m steps (l ∷ links))
            (validate_links get_action m fuel links after)
            (validate_links-Validates fuel links after v.0)
            (λ end w. (
              w.0,
              (
                (λ j q. w.1.0 j (v.1.0 j q)),
                λ k i. elim i [
                  | inl q ↦ (
                    (v.1.1 k (inl q)).0,
                    (
                      (λ g. w.1.0 k.source.step_id ((v.1.1 k (inl q)).1.0 g)),
                      λ g. w.1.0 k.target.step_id ((v.1.1 k (inl q)).1.1 g),
                    ),
                  )
                  | inr j ↦ w.1.1 k j
                ],
              ),
            )))

  -- Of a plan that `GenerateMappingPlan` makes: each step stands behind the steps that feed it; each link has
  -- one source and one target; and the steps at its ends are compiled.
  pub generate_mapping_plan-Ordered :
      (fuel : ℕ) (steps : Compiled F)
      → generate_mapping_plan get_action m fuel ≡ done steps
      → Ordered m steps × ((l : Link F) → In l m.links → IsLink l × HasSteps steps l)
  unfolding generate_mapping_plan
  generate_mapping_plan-Ordered fuel steps e =
      let v =
        done-IfDone (Validates m [] m.links) (validate_links get_action m fuel m.links []) steps e
          (validate_links-Validates fuel m.links [] tt) in
      (v.0, v.1.1)
