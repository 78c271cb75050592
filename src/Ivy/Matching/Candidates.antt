-- ===== src/Ivy/Matching/Candidates.antt =====
-- evaluateSingleCandidate of ivy/pkg/matching/service.go.
use meadow.Prelude.{true, false, String, Option, none, some, List, [], ◌∷◌, if◌then◌else◌, Map}
use meadow.Json.{Value, text}
use meadow.Ivy.Matching.Defs.{
  ScoreOps, at_least, CompiledRule, MatchFieldRow, FuzzySims, MatchOutcome,
}
use meadow.Ivy.Matching.Blocking.{rule_has_no_merge_match}
use meadow.Ivy.Matching.Scoring.{score_rule}

-- `bestScore`, `bestRuleName` and `bestDetails`.
pub record Best (F : Type 0) : Type 0 where
  pub score : F
  pub rule_name : String
  pub details : Map (Value F)

-- `source` and `cand` are the indexed fields of the entity and of the candidate `cand_id`.
module _ {F : Type 0} (ops : ScoreOps F) (source cand : Map (MatchFieldRow F)) (sims : FuzzySims F)
    (cand_id : String) where
  unfoldable pub blocked_outcome : CompiledRule F → MatchOutcome F
  blocked_outcome rule = record {
    entity_id = cand_id;
    score = ops.zero;
    auto_merge = false;
    blocked = true;
    rule_matched = rule.rule.name;
    details =
        ("blocked_by", text rule.rule.name) ∷ ("reason", text "no_merge condition matched") ∷ [];
  }

  unfoldable pub improve : Best F → CompiledRule F → Option (F × Map (Value F)) → Best F
  improve best rule none = best
  improve best rule (some (score, details)) =
      if ops.lt best.score score
      then record { score = score; rule_name = rule.rule.name; details = details }
      else best

  unfoldable pub best_rule : List (CompiledRule F) → Best F → Best F
  best_rule [] best = best
  best_rule (rule ∷ rules) best =
      best_rule rules (improve best rule (score_rule ops source cand sims cand_id rule))

  unfoldable pub scored_outcome : F → Best F → MatchOutcome F
  scored_outcome auto_merge_threshold best = record {
    entity_id = cand_id;
    score = best.score;
    auto_merge = at_least ops best.score auto_merge_threshold;
    blocked = false;
    rule_matched = best.rule_name;
    details = best.details;
  }

  -- The first pass.
  unfoldable pub first_block : List (CompiledRule F) → Option (CompiledRule F)
  first_block [] = none
  first_block (rule ∷ rules) =
      if rule_has_no_merge_match ops source cand sims cand_id rule
      then some rule
      else first_block rules

  unfoldable pub outcome_of : F → List (CompiledRule F) → Option (CompiledRule F) → MatchOutcome F
  outcome_of auto_merge_threshold rules (some rule) = blocked_outcome rule
  outcome_of auto_merge_threshold rules none =
      scored_outcome auto_merge_threshold
        (best_rule rules (record { score = ops.zero; rule_name = ""; details = [] }))

  unfoldable pub evaluate_single_candidate : F → List (CompiledRule F) → MatchOutcome F
  evaluate_single_candidate auto_merge_threshold rules =
      outcome_of auto_merge_threshold rules (first_block rules)
