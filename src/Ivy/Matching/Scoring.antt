-- ===== src/Ivy/Matching/Scoring.antt =====
-- scoreRule of ivy/pkg/matching/service.go: the score of a rule for a candidate.
use meadow.Prelude.{
  Bool, true, false, not, ◌&&◌, String, Option, none, some, List, [], ◌∷◌, str_eq, if◌then◌else◌,
  Map, lookup, insert,
}
use meadow.Json.{Value, bool, number, text, object, Fields, end, field}
use meadow.Ivy.Matching.Defs.{
  ScoreOps, at_least, float_equal, MatchRuleType, exact, fuzzy, phonetic, MatchCondition,
  CompiledRule, MatchFieldRow, condition_key, fuzzy_key, FuzzySims, find_sims, has_value,
  or_zero_float, effective_threshold, type_name, inverted, text_of, token_of,
}

-- The running sums of `scoreRule`.
pub record Tally (F : Type 0) : Type 0 where
  pub total_weight : F
  pub score_sum : F
  pub details : Map (Value F)

-- `source` and `cand` are the indexed fields of the entity and of the candidate `cand_id`.
module _ {F : Type 0} (ops : ScoreOps F) (source cand : Map (MatchFieldRow F)) (sims : FuzzySims F)
    (cand_id : String) where
  -- `details[cond.Field] = ...`
  abbrev pub note : MatchCondition F → Fields F → Tally F → Tally F
  note cond facts t = record t { details = insert cond.field (object facts) t.details }

  -- `scoreSum += 1.0 * cond.Weight`, or another share of the weight.
  abbrev pub earn : F → MatchCondition F → Tally F → Tally F
  earn share cond t = record t { score_sum = ops.add t.score_sum (ops.multiply share cond.weight) }

  -- The branch for a missing value of the source.
  unfoldable pub score_missing_source : MatchCondition F → Tally F → Option (Tally F)
  score_missing_source cond t =
      if cond.required && not cond.invert
      then none
      else if cond.invert
      then some (
          note cond
            (field "type" (text (type_name cond.match_type)) (
              field "match" (bool true) (
                field "inverted" (bool true)
                  (field "reason" (text "source missing, inverted passes") end))))
            (earn ops.one cond (record t { total_weight = ops.add t.total_weight cond.weight })))
      else some t

  -- The branch of an exact or a phonetic condition for a missing value of the candidate.
  unfoldable pub score_missing_candidate : String → MatchCondition F → Tally F → Option (Tally F)
  score_missing_candidate kind cond t =
      if cond.invert
      then some (
          note cond
            (field "type" (text kind) (
              field "match" (bool true) (
                field "inverted" (bool true)
                  (field "reason" (text "candidate missing, inverted passes") end))))
            (earn ops.one cond t))
      else if cond.required
      then none
      else some (
          note cond
            (field "type" (text kind)
              (field "match" (bool false) (field "reason" (text "candidate missing") end)))
            t)

  unfoldable pub score_match : String → Bool → MatchCondition F → Tally F → Option (Tally F)
  score_match kind matched cond t =
      if not matched && cond.required
      then none
      else some (
          note cond
            (field "type" (text kind)
              (field "match" (bool matched) (field "inverted" (bool cond.invert) end)))
            (if matched then earn ops.one cond t else t))

  -- Exact and phonetic conditions, on the two texts or tokens.
  unfoldable pub score_texts :
      String → MatchCondition F → Option String → Option String → Tally F → Option (Tally F)
  score_texts kind cond (some a) (some b) t =
      score_match kind (inverted cond.invert (str_eq a b)) cond t
  score_texts kind cond _ _ t = score_missing_candidate kind cond t

  unfoldable pub similarity_of : Option (Map F) → F
  similarity_of none = ops.zero
  similarity_of (some found) = or_zero_float ops (lookup cand_id found)

  unfoldable pub score_fuzzy : MatchCondition F → F → F → Tally F → Option (Tally F)
  score_fuzzy cond sim threshold t =
      let pass = inverted cond.invert (at_least ops sim threshold) in
      if not pass && cond.required
      then none
      else some (
          note cond
            (field "type" (text "fuzzy") (
              field "similarity" (number sim) (
                field "threshold" (number threshold)
                  (field "pass" (bool pass) (field "inverted" (bool cond.invert) end)))))
            (if pass
              then earn (if cond.invert then ops.subtract ops.one sim else sim) cond t
              else t))

  -- The switch of `scoreRule`, where the source has a value.
  unfoldable pub score_present :
      MatchRuleType
      → MatchCondition F
      → MatchFieldRow F
      → Option (MatchFieldRow F)
      → Tally F
      → Option (Tally F)
  score_present exact cond src c t = score_texts "exact" cond src.value_text (text_of c) t
  score_present fuzzy cond src c t =
      score_fuzzy cond (similarity_of (find_sims (fuzzy_key cond) sims))
        (effective_threshold ops cond.threshold) t
  score_present phonetic cond src c t = score_texts "phonetic" cond src.token (token_of c) t
  score_present _ cond src c t = some t

  unfoldable pub score_rows :
      MatchCondition F
      → Option (MatchFieldRow F)
      → Option (MatchFieldRow F)
      → Tally F
      → Option (Tally F)
  score_rows cond none c t = score_missing_source cond t
  score_rows cond (some src) c t =
      if has_value src cond.match_type
      then score_present cond.match_type cond src c
          (record t { total_weight = ops.add t.total_weight cond.weight })
      else score_missing_source cond t

  -- One round of the loop of `scoreRule`; `none` is its early return.
  unfoldable pub score_condition : MatchCondition F → Tally F → Option (Tally F)
  score_condition cond t =
      if cond.no_merge
      then some t
      else score_rows cond (lookup (condition_key cond) source) (lookup (condition_key cond) cand) t

  unfoldable pub score_conditions : List (MatchCondition F) → Tally F → Option (Tally F)
  score_conditions [] t = some t
  score_conditions (cond ∷ conds) t = elim (score_condition cond t) [
    | none ↦ none
    | some t' ↦ score_conditions conds t'
  ]

  unfoldable pub rule_score : CompiledRule F → Option (Tally F) → Option (F × Map (Value F))
  rule_score rule none = none
  rule_score rule (some t) =
      if float_equal ops t.total_weight ops.zero
      then none
      else some
          (ops.multiply (ops.divide t.score_sum t.total_weight) rule.rule.score_weight, t.details)

  -- `none` is `passed == false`.
  unfoldable pub score_rule : CompiledRule F → Option (F × Map (Value F))
  score_rule rule = rule_score rule (
      score_conditions rule.conditions
        (record { total_weight = ops.zero; score_sum = ops.zero; details = [] }))
