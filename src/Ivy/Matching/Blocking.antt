-- ===== src/Ivy/Matching/Blocking.antt =====
-- ruleHasNoMergeMatch of ivy/pkg/matching/service.go: whether a rule forbids the merge with a candidate.
use meadow.Prelude.{
  Bool, true, false, ◌&&◌, String, Option, none, some, List, [], ◌∷◌, str_eq, if◌then◌else◌, Map,
  lookup,
}
use meadow.Ivy.Matching.Defs.{
  ScoreOps, at_least, MatchRuleType, exact, fuzzy, phonetic, MatchCondition, CompiledRule,
  MatchFieldRow, condition_key, fuzzy_key, FuzzySims, find_sims, or_zero_float, effective_threshold,
  inverted,
}

-- `a.Valid && b.Valid && a.String == b.String`
unfoldable pub both_equal : Option String → Option String → Bool
both_equal (some a) (some b) = str_eq a b
both_equal _ _ = false

-- `source` and `cand` are the indexed fields of the entity and of the candidate `cand_id`.
module _ {F : Type 0} (ops : ScoreOps F) (source cand : Map (MatchFieldRow F)) (sims : FuzzySims F)
    (cand_id : String) where
  unfoldable pub reaches_threshold : MatchCondition F → Option (Map F) → Bool
  reaches_threshold cond none = false
  reaches_threshold cond (some found) =
      at_least ops (or_zero_float ops (lookup cand_id found))
        (effective_threshold ops cond.threshold)

  -- The switch of `ruleHasNoMergeMatch`; `none` is its `continue`.
  unfoldable pub raw_match :
      MatchRuleType → MatchCondition F → MatchFieldRow F → MatchFieldRow F → Option Bool
  raw_match exact cond src c = some (both_equal src.value_text c.value_text)
  raw_match phonetic cond src c = some (both_equal src.token c.token)
  raw_match fuzzy cond src c = some (reaches_threshold cond (find_sims (fuzzy_key cond) sims))
  raw_match _ cond src c = none

  unfoldable pub passes_inverted : MatchCondition F → Option Bool → Bool
  passes_inverted cond none = false
  passes_inverted cond (some raw) = inverted cond.invert raw

  -- A row that is missing makes an inverted condition pass.
  unfoldable pub rows_block :
      MatchCondition F → Option (MatchFieldRow F) → Option (MatchFieldRow F) → Bool
  rows_block cond (some src) (some c) = passes_inverted cond (raw_match cond.match_type cond src c)
  rows_block cond _ _ = cond.invert

  unfoldable pub condition_blocks : MatchCondition F → Bool
  condition_blocks cond =
      cond.no_merge
      && rows_block cond (lookup (condition_key cond) source) (lookup (condition_key cond) cand)

  unfoldable pub conditions_block : List (MatchCondition F) → Bool
  conditions_block [] = false
  conditions_block (cond ∷ conds) = if condition_blocks cond then true else conditions_block conds

  unfoldable pub rule_has_no_merge_match : CompiledRule F → Bool
  rule_has_no_merge_match rule = conditions_block rule.conditions
