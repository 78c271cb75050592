-- ===== src/Ivy/Matching/Gates.antt =====
-- A rule that passes in scoreRule of ivy/pkg/matching/service.go has all its required conditions met.
use meadow.Prelude.{
  ◌≡◌, true, false, String, some, List, [], ◌∷◌, sym, ◌∙◌, inl, inr, In, if_false, Option-cases,
  Map, lookup, subst,
}
use meadow.Json.{Value}
use meadow.Ivy.Matching.Defs.{
  ScoreOps, MatchCondition, CompiledRule, MatchFieldRow, condition_key, FuzzySims,
}
use meadow.Ivy.Matching.Scoring.{Tally, score_condition, score_conditions, rule_score, score_rule}
use meadow.Ivy.Matching.NoMerge.{IsCompared}
use meadow.Ivy.Matching.Required.{Meets, score_rows-Differ}

module _ {F : Type 0} where
  -- A condition that decides whether the rule applies.
  pub record IsGate (cond : MatchCondition F) : Type 0 where
    pub scored : cond.no_merge ≡ false
    pub required : cond.required ≡ true
    pub compared : IsCompared cond.match_type

module _ {F : Type 0} (ops : ScoreOps F) (source cand : Map (MatchFieldRow F)) (sims : FuzzySims F)
    (cand_id : String) where
  score_condition-Meets :
      (cond : MatchCondition F) (t : Tally F) {t' : Tally F}
      → IsGate cond
      → score_condition ops source cand sims cand_id cond t ≡ some t'
      → Meets ops source cand sims cand_id cond
  unfolding score_condition
  score_condition-Meets cond t g h =
      score_rows-Differ ops source cand sims cand_id cond g.required
        (lookup (condition_key cond) source) (lookup (condition_key cond) cand) t g.compared
        (sym (if_false (some t) _ g.scored) ∙ h)

  pub score_conditions-cons :
      (cond : MatchCondition F) (conds : List (MatchCondition F)) (t : Tally F) {t' : Tally F}
      → score_conditions ops source cand sims cand_id (cond ∷ conds) t ≡ some t'
      → (u : Tally F) × (score_condition ops source cand sims cand_id cond t ≡ some u)
        × (score_conditions ops source cand sims cand_id conds u ≡ some t')
  unfolding score_conditions
  score_conditions-cons cond conds t h =
      elim (Option-cases (score_condition ops source cand sims cand_id cond t)) [
        | inl e ↦ absurd (cc (rw (e, score_conditions) at h))
        | inr (u, e) ↦ (u, e, rw (e, score_conditions) at h)
      ]

  score_conditions-Meets :
      (conds : List (MatchCondition F)) (t : Tally F) {t' : Tally F}
      → score_conditions ops source cand sims cand_id conds t ≡ some t'
      → (cond : MatchCondition F) → In cond conds
      → IsGate cond
      → Meets ops source cand sims cand_id cond
  score_conditions-Meets [] t h cond i g = absurd i
  score_conditions-Meets (c ∷ conds) t h cond i g =
      let step = score_conditions-cons c conds t h in
      elim i [
        | inl e ↦ score_condition-Meets cond t g (
            subst (λ x. score_condition ops source cand sims cand_id x t ≡ some step.0) (sym e)
              step.1)
        | inr j ↦ score_conditions-Meets conds step.0 step.2 cond j g
      ]

  -- Where scoreRule lets a rule pass, every required condition of it that is exact, fuzzy or phonetic
  -- and no no-merge condition is met: what it compares holds, or where it is inverted, does not hold.
  pub score_rule-Meets :
      (rule : CompiledRule F) {score : F} {details : Map (Value F)}
      → score_rule ops source cand sims cand_id rule ≡ some (score, details)
      → (cond : MatchCondition F) → In cond rule.conditions
      → IsGate cond
      → Meets ops source cand sims cand_id cond
  unfolding score_rule rule_score
  score_rule-Meets rule h =
      elim (Option-cases (score_conditions ops source cand sims cand_id rule.conditions start)) [
        | inl e ↦ absurd (cc (rw e at h))
        | inr (t, e) ↦ score_conditions-Meets rule.conditions start e
      ]
    where
      start : Tally F
      start = record { total_weight = ops.zero; score_sum = ops.zero; details = [] }
