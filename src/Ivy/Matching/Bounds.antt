-- ===== src/Ivy/Matching/Bounds.antt =====
-- The range of the score of scoreRule in ivy/pkg/matching/service.go.
use meadow.Prelude.{
  ◌≡◌, inl, inr, true, false, String, some, List, [], ◌∷◌, arith, All, if_split, Option-cases, Map,
  ap, subst,
}
use mathlib.Core.Option.{some-injective}
use meadow.Json.{Value}
use meadow.Ivy.Matching.Defs.{
  ScoreOps, float_equal, MatchCondition, CompiledRule, MatchFieldRow, FuzzyKey, FuzzySims,
  find_sims,
}
use meadow.Ivy.Matching.Scoring.{Tally, similarity_of, score_conditions, rule_score, score_rule}
use meadow.Ivy.Matching.Gates.{score_conditions-cons}
use meadow.Ivy.Matching.Fairness.{ScoreOrder, ◌⊑◌, IsShare, IsFair, score_condition-IsFair}

module _ {F : Type 0} {ops : ScoreOps F} (order : ScoreOrder ops)
    (source cand : Map (MatchFieldRow F)) (sims : FuzzySims F) (cand_id : String)
    (shares : (k : FuzzyKey)
      → IsShare ops (similarity_of ops source cand sims cand_id (find_sims k sims))) where
  score_conditions-IsFair :
      (conds : List (MatchCondition F)) (t : Tally F) {t' : Tally F}
      → All (λ c. ◌⊑◌ ops ops.zero c.weight) conds
      → IsFair ops t
      → score_conditions ops source cand sims cand_id conds t ≡ some t'
      → IsFair ops t'
  unfolding score_conditions
  score_conditions-IsFair [] t w fair h = subst (IsFair ops) (some-injective t _ h) fair
  score_conditions-IsFair (c ∷ conds) t w fair h =
      let step = score_conditions-cons ops source cand sims cand_id c conds t h in
      score_conditions-IsFair conds step.0 w.1
        (score_condition-IsFair order source cand sims cand_id shares c w.0 t fair step.1) step.2

  -- A quotient within 0 and 1, times the weight of the rule.
  weighted_bounds :
      (share w : F)
      → IsShare ops share
      → ◌⊑◌ ops ops.zero w
      → ◌⊑◌ ops ops.zero (ops.multiply share w) × ◌⊑◌ ops (ops.multiply share w) w
  weighted_bounds share w (low, high) nonneg = (
    order.trans _ (ops.multiply ops.zero w) _ (order.zero_multiply w)
        (order.multiply_mono _ _ w nonneg low),
    order.trans _ (ops.multiply ops.one w) _ (order.multiply_mono _ _ w nonneg high)
        (order.one_multiply w),
  )

  positive :
      (a : F) → ◌⊑◌ ops ops.zero a → float_equal ops a ops.zero ≡ false → ops.lt ops.zero a ≡ true
  positive a h e = ground arith

  rule_score-bounds :
      (rule : CompiledRule F) (t : Tally F) {score : F} {details : Map (Value F)}
      → IsFair ops t
      → ◌⊑◌ ops ops.zero rule.rule.score_weight
      → rule_score ops source cand sims cand_id rule (some t) ≡ some (score, details)
      → ◌⊑◌ ops ops.zero score × ◌⊑◌ ops score rule.rule.score_weight
  unfolding rule_score
  rule_score-bounds rule t {score} {details} fair w h =
      if_split (float_equal ops t.total_weight ops.zero) _ _ h (λ b e. absurd (cc e))
        (λ b e.
          subst (λ x. ◌⊑◌ ops ops.zero x × ◌⊑◌ ops x rule.rule.score_weight)
            (ap (λ p. p.0) (some-injective {A = F × Map (Value F)} _ (score, details) e))
            (weighted_bounds (ops.divide t.score_sum t.total_weight) rule.rule.score_weight
              (order.divide_bounds t.score_sum t.total_weight fair.0 fair.1
                (positive t.total_weight (order.trans _ t.score_sum _ fair.0 fair.1) b))
              w))

  -- The score of a rule that passes lies between 0 and the weight of the rule, where that and the
  -- weights of its conditions are not negative and similarities lie between 0 and 1.
  pub score_rule-bounds :
      (rule : CompiledRule F) {score : F} {details : Map (Value F)}
      → All (λ c. ◌⊑◌ ops ops.zero c.weight) rule.conditions
      → ◌⊑◌ ops ops.zero rule.rule.score_weight
      → score_rule ops source cand sims cand_id rule ≡ some (score, details)
      → ◌⊑◌ ops ops.zero score × ◌⊑◌ ops score rule.rule.score_weight
  unfolding score_rule rule_score
  score_rule-bounds rule ws w h =
      elim (Option-cases (score_conditions ops source cand sims cand_id rule.conditions start)) [
        | inl e ↦ absurd (cc (rw e at h))
        | inr (t, e) ↦
            rule_score-bounds rule t
              (score_conditions-IsFair rule.conditions start ws
                (order.zero_le_zero, order.zero_le_zero) e)
              w (rw e at h)
      ]
    where
      start : Tally F
      start = record { total_weight = ops.zero; score_sum = ops.zero; details = [] }
