-- ===== src/Ivy/Matching/BestRule.antt =====
-- Rules are alternatives in evaluateSingleCandidate of ivy/pkg/matching/service.go: the best one counts.
use meadow.Prelude.{
  ◌≡◌, ◌⊎◌, true, false, String, Option, none, some, List, [], ◌∷◌, refl, ap, ◌↔◌, inl, inr, All,
  In, Map, arith, sym, subst, if_either, Bool-cases,
}
use meadow.Prelude.Sorting.{StrictWeak, irreflexive}
use meadow.Json.{Value}
use meadow.Ivy.Matching.Defs.{ScoreOps, CompiledRule, MatchFieldRow, FuzzySims, MatchOutcome}
use meadow.Ivy.Matching.Scoring.{score_rule}
use meadow.Ivy.Matching.Candidates.{
  Best, improve, best_rule, outcome_of, scored_outcome, evaluate_single_candidate,
}
use meadow.Ivy.Matching.NoMerge.{Forbidden, first_block-cases}

module _ {F : Type 0} (ops : ScoreOps F) (source cand : Map (MatchFieldRow F)) (sims : FuzzySims F)
    (cand_id : String) where
  -- The rule scores no more than `x`, or does not pass.
  abbrev pub ScoresAtMost : F → CompiledRule F → Type 0
  ScoresAtMost x r =
      (score : F) (details : Map (Value F))
      → score_rule ops source cand sims cand_id r ≡ some (score, details)
      → ops.lt x score ≡ false

  -- `b` is `start`, or what a rule of the list gives with a score above that of `start`.
  abbrev pub IsFrom : Best F → List (CompiledRule F) → Best F → Type 0
  IsFrom start rules b =
      (b ≡ start)
      ⊎ ((r : CompiledRule F) × In r rules
          × (score_rule ops source cand sims cand_id r ≡ some (b.score, b.details))
          × (b.rule_name ≡ r.rule.name)
          × (ops.lt start.score b.score ≡ true))

  -- The outcome of a candidate that no rule blocks.
  pub record IsBestOutcome (threshold : F) (rules : List (CompiledRule F)) (o : MatchOutcome F)
      : Type 0 where
    pub at_least_zero : ops.lt o.score ops.zero ≡ false
    pub none_better : All (ScoresAtMost o.score) rules
    pub origin :
        ((o.score ≡ ops.zero) × (o.rule_matched ≡ ""))
        ⊎ ((r : CompiledRule F) × In r rules
            × (score_rule ops source cand sims cand_id r ≡ some (o.score, o.details))
            × (o.rule_matched ≡ r.rule.name)
            × (ops.lt ops.zero o.score ≡ true))
    pub merges : (o.auto_merge ≡ true) ↔ (ops.lt o.score threshold ≡ false)

module _ {F : Type 0} (ops : ScoreOps F) (weak : StrictWeak ops.lt)
    (source cand : Map (MatchFieldRow F)) (sims : FuzzySims F) (cand_id : String) where
  lt-of_le_of_lt : (x y z : F) → ops.lt y x ≡ false → ops.lt y z ≡ true → ops.lt x z ≡ true
  lt-of_le_of_lt x y z h k = elim (Bool-cases (ops.lt x z)) [
    | inl e ↦ e
    | inr e ↦ absurd (cc (weak.not_trans y x z h e, k))
  ]

  improve-ge :
      (best : Best F) (r : CompiledRule F) (o : Option (F × Map (Value F)))
      → ops.lt (improve ops source cand sims cand_id best r o).score best.score ≡ false
  unfolding improve
  improve-ge best r none = irreflexive weak best.score
  improve-ge best r (some (score, details)) =
      if_either (λ b. ops.lt b.score best.score ≡ false) (ops.lt best.score score)
        (record { score = score; rule_name = r.rule.name; details = details }) best
        (λ e. weak.asym _ _ e) (λ e. irreflexive weak best.score)

  improve-covers :
      (best : Best F) (r : CompiledRule F) (o : Option (F × Map (Value F)))
      → (score : F) (details : Map (Value F)) → o ≡ some (score, details)
      → ops.lt (improve ops source cand sims cand_id best r o).score score ≡ false
  unfolding improve
  improve-covers best r none score details h = cc
  improve-covers best r (some (s, d)) score details h =
      if_either (λ b. ops.lt b.score score ≡ false) (ops.lt best.score s)
        (record { score = s; rule_name = r.rule.name; details = d }) best
        (λ e. subst (λ x. ops.lt s x ≡ false) (cc h) (irreflexive weak s))
        (λ e. subst (λ x. ops.lt best.score x ≡ false) (cc h) e)

  improve-IsFrom :
      (best : Best F) (r : CompiledRule F) (rules : List (CompiledRule F))
      (o : Option (F × Map (Value F)))
      → score_rule ops source cand sims cand_id r ≡ o
      → IsFrom ops source cand sims cand_id best
          (r ∷ rules)
          (improve ops source cand sims cand_id best r o)
  unfolding improve
  improve-IsFrom best r rules none h = inl refl
  improve-IsFrom best r rules (some (score, details)) h =
      if_either (IsFrom ops source cand sims cand_id best (r ∷ rules)) (ops.lt best.score score)
        (record { score = score; rule_name = r.rule.name; details = details }) best
        (λ e. inr (r, inl refl, h, refl, e)) (λ e. inl refl)

  best_rule-covers :
      (rules : List (CompiledRule F)) (best : Best F)
      → (ops.lt (best_rule ops source cand sims cand_id rules best).score best.score ≡ false)
        × All
            (ScoresAtMost ops source cand sims cand_id
              (best_rule ops source cand sims cand_id rules best).score)
            rules
  unfolding best_rule
  best_rule-covers [] best = (irreflexive weak best.score, tt)
  best_rule-covers (r ∷ rules) best =
      let o = score_rule ops source cand sims cand_id r in
      let next = improve ops source cand sims cand_id best r o in
      let rest = best_rule-covers rules next in
      (
        weak.not_trans _ next.score _ rest.0 (improve-ge best r o),
        (
          λ score details h.
              weak.not_trans _ next.score _ rest.0 (improve-covers best r o score details h),
          rest.1,
        ),
      )

  best_rule-IsFrom :
      (rules : List (CompiledRule F)) (best : Best F)
      → IsFrom ops source cand sims cand_id best rules
          (best_rule ops source cand sims cand_id rules best)
  unfolding best_rule
  best_rule-IsFrom [] best = inl refl
  best_rule-IsFrom (r ∷ rules) best =
      let o = score_rule ops source cand sims cand_id r in
      let next = improve ops source cand sims cand_id best r o in
      elim (best_rule-IsFrom rules next) [
        | inl e ↦
            subst (IsFrom ops source cand sims cand_id best (r ∷ rules)) (sym e)
              (improve-IsFrom best r rules o refl)
        | inr (q, i, e, g, above) ↦
            inr (q, inr i, e, g, lt-of_le_of_lt best.score next.score _ (improve-ge best r o) above)
      ]

  -- Rules are alternatives: where no rule blocks the candidate, its score is at least 0 and no rule
  -- that passes scores more; it is the score, above 0, of a rule of the list that passes and whose name
  -- the outcome has, or it is 0 and the outcome has the empty name; and the outcome is for automatic merge
  -- exactly when the score reaches the threshold.
  pub evaluate_single_candidate-IsBestOutcome :
      (threshold : F) (rules : List (CompiledRule F))
      → ¬ Forbidden ops source cand sims cand_id rules
      → IsBestOutcome ops source cand sims cand_id threshold rules
          (evaluate_single_candidate ops source cand sims cand_id threshold rules)
  unfolding evaluate_single_candidate outcome_of scored_outcome
  evaluate_single_candidate-IsBestOutcome threshold rules free =
      elim (first_block-cases ops source cand sims cand_id rules) [
        | inl (h, e) ↦ absurd (free h)
        | inr (h, e) ↦ rw e (record {
          at_least_zero = (best_rule-covers rules start).0;
          none_better = (best_rule-covers rules start).1;
          origin = elim (best_rule-IsFrom rules start) [
            | inl g ↦ inl (ap (λ b. b.score) g, ap (λ b. b.rule_name) g)
            | inr g ↦ inr g
          ];
          merges = (λ g. ground arith, λ g. ground arith);
        })
      ]
    where
      start : Best F
      start = record { score = ops.zero; rule_name = ""; details = [] }
