-- ===== src/Tests/Matching.antt =====
-- Tests of the model of ivy/pkg/matching/service.go.
use meadow.Prelude.{
  ℕ, ◌+◌, ◌-◌, ◌*◌, ◌/◌, ◌≡◌, ◌≤◌, ◌<◌, ◌⊎◌, Bool, true, false, String, none, some, [], ◌∷◌, refl,
  inl, inr, arith, ltb, Map, lookup, insert,
}
use meadow.Prelude.Int.{pos}
use meadow.Prelude.Sorting.{StrictWeak}
use meadow.Json.{Value, text, bool, object, end, field}
use meadow.Ivy.Matching.Defs.{
  ScoreOps, exact, MatchCondition, CompiledRule, MatchFieldRow, FuzzyKey, find_sims, condition_key,
  field_key, type_name, normalizer_name, has_value, inverted,
}
use meadow.Ivy.Matching.Blocking.{
  condition_blocks, rows_block, passes_inverted, raw_match, both_equal,
}
use meadow.Ivy.Matching.Scoring.{
  score_rule, rule_score, score_conditions, score_condition, score_rows, score_present, score_texts,
  score_match, similarity_of,
}
use meadow.Ivy.Matching.Candidates.{evaluate_single_candidate}
use meadow.Ivy.Matching.NoMerge.{Forbidden, evaluate_single_candidate-no_merge}
use meadow.Ivy.Matching.Required.{Meets}
use meadow.Ivy.Matching.Gates.{score_rule-Meets}
use meadow.Ivy.Matching.Fairness.{ScoreOrder, ◌⊑◌, IsShare}
use meadow.Ivy.Matching.Bounds.{score_rule-bounds}
use meadow.Ivy.Matching.BestRule.{IsBestOutcome, evaluate_single_candidate-IsBestOutcome}

abbrev pub whole : ScoreOps ℕ
whole = record {
  lt = ltb;
  zero = 0;
  one = 1;
  default_threshold = 1;
  add = λ a b. a + b;
  subtract = λ a b. a - b;
  multiply = λ a b. a * b;
  divide = λ a b. a / b;
}

multiply_order : (a b w : ℕ) → ltb w 0 ≡ false → ltb b a ≡ false → ltb (b * w) (a * w) ≡ false
multiply_order a b w h g = ground (arith, mul-le-mul_right a b w)
  where
    mul-le-mul_right : (a b w : ℕ) → a ≤ b → a * w ≤ b * w
    mul-le-mul_right a b w h = grind arith

divide_order :
    (a b : ℕ)
    → ltb a 0 ≡ false
    → ltb b a ≡ false
    → ltb 0 b ≡ true
    → (ltb (a / b) 0 ≡ false) × (ltb 1 (a / b) ≡ false)
divide_order a b h g k = (ground arith, ground (arith, at_most a b))
  where
    at_most : (a b : ℕ) → a ≤ b → 0 < b → a / b ≤ 1
    at_most a b h g = grind arith

pub whole-StrictWeak : StrictWeak ltb
whole-StrictWeak = record { asym = λ a b h. ground arith; not_trans = λ a b c h g. ground arith }

whole-ScoreOrder : ScoreOrder whole
whole-ScoreOrder = record {
  trans = λ a b c h g. ground arith;
  zero_le_zero = refl;
  one_le_one = refl;
  zero_le_one = refl;
  add_mono = λ a b c d h g. ground arith;
  le_add_zero = λ a. ground arith;
  multiply_mono = multiply_order;
  one_multiply = λ w. ground arith;
  zero_multiply = λ w. ground arith;
  complement = λ a h g. (ground arith, ground arith);
  divide_bounds = divide_order;
}

-- One rule: the email must be the same, and candidates on the watch list are not merged.
abbrev condition : String → Bool → Bool → MatchCondition ℕ
condition name required no_merge = record {
  field = name;
  match_type = exact;
  weight = 1;
  required = required;
  threshold = 0;
  case_sensitive = false;
  date_range_days = pos 0;
  normalizer = none;
  no_merge = no_merge;
  invert = false;
}

abbrev same_email : MatchCondition ℕ
same_email = condition "email" true false

abbrev same_badge : MatchCondition ℕ
same_badge = condition "badge" false true

abbrev pub by_email : CompiledRule ℕ
by_email = record {
  rule = record { name = "email"; conditions = "by email"; score_weight = 1 };
  conditions = same_email ∷ same_badge ∷ [];
}

abbrev pub row : String → String → String → MatchFieldRow ℕ
row id name value = record {
  staged_entity_id = id;
  field = name;
  match_type = exact;
  normalizer = "raw";
  value_text = some value;
  value_num = none;
  value_ts = none;
  token = none;
}

abbrev pub ann : Map (MatchFieldRow ℕ)
ann =
    ("email|exact|raw", row "1" "email" "ann@acme") ∷ ("badge|exact|raw", row "1" "badge" "7") ∷ []

abbrev pub anna : Map (MatchFieldRow ℕ)
anna = ("email|exact|raw", row "2" "email" "ann@acme") ∷ []

abbrev email_details : Map (Value ℕ)
email_details =
    (
      "email",
      object (
          field "type" (text "exact")
            (field "match" (bool true) (field "inverted" (bool false) end))),
    )
    ∷ []

email_scores : score_rule whole ann anna [] "2" by_email ≡ some (1, email_details)
unfolding score_rule rule_score score_conditions score_condition score_rows score_present
    score_texts score_match inverted has_value condition_key field_key type_name normalizer_name
    lookup insert
email_scores = refl

badge_blocks : condition_blocks whole ann ann [] "1" same_badge ≡ true
unfolding condition_blocks rows_block passes_inverted raw_match both_equal inverted condition_key
    field_key type_name normalizer_name lookup
badge_blocks = refl

evaluate_single_candidate-no_merge_example :
    let o = evaluate_single_candidate whole ann ann [] "1" 1 (by_email ∷ []) in
    (Forbidden whole ann ann [] "1" (by_email ∷ [])
      × (o.blocked ≡ true)
      × (o.score ≡ 0)
      × (o.auto_merge ≡ false))
    ⊎ ((¬ Forbidden whole ann ann [] "1" (by_email ∷ [])) × (o.blocked ≡ false))
evaluate_single_candidate-no_merge_example =
    evaluate_single_candidate-no_merge whole ann ann [] "1" 1 (by_email ∷ [])

score_rule-Meets_example : Meets whole ann anna [] "2" same_email
score_rule-Meets_example =
    score_rule-Meets whole ann anna [] "2" by_email email_scores same_email (inl refl)
      (record { scored = refl; required = refl; compared = tt })

no_sims-IsShare :
    (k : FuzzyKey) → IsShare whole (similarity_of whole ann anna [] "2" (find_sims k []))
unfolding find_sims similarity_of
no_sims-IsShare k = (refl, refl)

score_rule-bounds_example : ◌⊑◌ whole 0 1 × ◌⊑◌ whole 1 1
score_rule-bounds_example =
    score_rule-bounds whole-ScoreOrder ann anna [] "2" no_sims-IsShare by_email (refl, (refl, tt))
      refl email_scores

email_free : ¬ Forbidden whole ann anna [] "2" (by_email ∷ [])
unfolding condition_key field_key type_name normalizer_name lookup
email_free (inl (inl (e, b))) = cc
email_free (inl (inr (inl (e, b)))) = cc
email_free (inl (inr (inr b))) = b
email_free (inr b) = b

evaluate_single_candidate-IsBestOutcome_example :
    IsBestOutcome whole ann anna [] "2" 1
      (by_email ∷ [])
      (evaluate_single_candidate whole ann anna [] "2" 1 (by_email ∷ []))
evaluate_single_candidate-IsBestOutcome_example =
    evaluate_single_candidate-IsBestOutcome whole whole-StrictWeak ann anna [] "2" 1 (by_email ∷ [])
      email_free
