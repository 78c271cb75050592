-- ===== src/Ivy/Matching/Index.antt =====
-- What FindMatches of ivy/pkg/matching/service.go works on: its configuration, the queries, the anchor
-- conditions of a rule, and the index of the candidates' fields.
use meadow.Prelude.{
  ℕ, Bool, true, false, not, ◌&&◌, String, Option, none, some, List, [], ◌∷◌, ◌++◌, str_eq,
  if◌then◌else◌, Map, lookup, insert,
}
use meadow.Ivy.Matching.Defs.{
  ScoreOps, MatchRuleType, exact, fuzzy, phonetic, MatchCondition, MatchRule, CompiledRule,
  MatchFieldRow, FuzzyKey, same_key, condition_key, fuzzy_key, field_key, has_value, MatchOutcome,
}

pub record Config (F : Type 0) : Type 0 where
  pub min_match_score : F
  pub auto_merge_threshold : F
  pub max_candidates : ℕ
  pub candidate_cap_per_rule : ℕ

-- The queries of ivy/internal/repositories/matchfield for one tenant and entity type, and the JSON
-- parser of conditions. `none` is an error. The last argument of a candidate query is its limit.
pub record MatchFields (F : Type 0) : Type 0 where
  pub get_match_fields : String → Option (List (MatchFieldRow F))
  pub get_active_match_rules : Option (List (MatchRule F))
  pub candidate_ids_from_conditions :
      String → Map (MatchFieldRow F) → List (MatchCondition F) → ℕ → Option (List String)
  pub candidate_ids_from_condition :
      String → Map (MatchFieldRow F) → MatchCondition F → ℕ → Option (List String)
  pub load_fields_for_candidates : List String → Option (List (MatchFieldRow F))
  pub batch_similarity : String → String → List String → String → Option (Map F)
  pub parse_conditions : String → Option (List (MatchCondition F))

pub record MatchResults (F : Type 0) : Type 0 where
  pub source_entity_id : String
  pub matches : List (MatchOutcome F)
  pub total_candidates : ℕ

-- The conditions of a rule that can find candidates.
pub record Anchors (F : Type 0) : Type 0 where
  pub indexable : List (MatchCondition F)
  pub fuzzy_conditions : List (MatchCondition F)

unfoldable pub contains_text : String → List String → Bool
contains_text id [] = false
contains_text id (x ∷ xs) = if str_eq x id then true else contains_text id xs

-- `candidateSet[id] = struct{}{}` for each of the identifiers.
unfoldable pub add_ids : List String → List String → List String
add_ids [] found = found
add_ids (id ∷ ids) found = add_ids ids (if contains_text id found then found else found ++ id ∷ [])

unfoldable pub has_fuzzy_key : FuzzyKey → List FuzzyKey → Bool
has_fuzzy_key k [] = false
has_fuzzy_key k (j ∷ js) = if same_key j k then true else has_fuzzy_key k js

abbrev pub is_fuzzy : MatchRuleType → Bool
is_fuzzy fuzzy = true
is_fuzzy _ = false

module _ {F : Type 0} where
  unfoldable pub row_has : Option (MatchFieldRow F) → MatchRuleType → Bool
  row_has none match_type = false
  row_has (some row) match_type = has_value row match_type

  unfoldable pub file_condition : MatchRuleType → MatchCondition F → Anchors F → Anchors F
  file_condition exact cond a = record a { indexable = a.indexable ++ cond ∷ [] }
  file_condition phonetic cond a = record a { indexable = a.indexable ++ cond ∷ [] }
  file_condition fuzzy cond a = record a { fuzzy_conditions = a.fuzzy_conditions ++ cond ∷ [] }
  file_condition _ cond a = a

  -- The loop of `generateCandidatesForRule`; `none` is its early `return nil, nil`.
  unfoldable pub classify :
      Map (MatchFieldRow F) → List (MatchCondition F) → Anchors F → Option (Anchors F)
  classify source [] a = some a
  classify source (cond ∷ conds) a =
      let skip = classify source conds a in
      let use_it = classify source conds (file_condition cond.match_type cond a) in
      if cond.no_merge
      then skip
      else if cond.invert
      then skip
      else if row_has (lookup (condition_key cond) source) cond.match_type
      then use_it
      else if cond.required
      then none
      else skip

  -- The loops that collect the keys of the fuzzy conditions.
  unfoldable pub add_fuzzy_keys : List (MatchCondition F) → List FuzzyKey → List FuzzyKey
  add_fuzzy_keys [] ks = ks
  add_fuzzy_keys (cond ∷ conds) ks = add_fuzzy_keys conds (
      if is_fuzzy cond.match_type && not (has_fuzzy_key (fuzzy_key cond) ks)
      then ks ++ fuzzy_key cond ∷ []
      else ks)

  unfoldable pub rules_fuzzy_keys : List (CompiledRule F) → List FuzzyKey → List FuzzyKey
  rules_fuzzy_keys [] ks = ks
  rules_fuzzy_keys (rule ∷ rules) ks = rules_fuzzy_keys rules (add_fuzzy_keys rule.conditions ks)

  abbrev pub or_empty : Option (Map (MatchFieldRow F)) → Map (MatchFieldRow F)
  or_empty none = []
  or_empty (some m) = m

  -- The rows of all candidates, by candidate and key.
  unfoldable pub index_candidates :
      List (MatchFieldRow F) → Map (Map (MatchFieldRow F)) → Map (Map (MatchFieldRow F))
  index_candidates [] index = index
  index_candidates (row ∷ rows) index = index_candidates rows (
      insert row.staged_entity_id
        (insert (field_key row.field row.match_type row.normalizer) row
          (or_empty (lookup row.staged_entity_id index)))
        index)

module _ {F : Type 0} (ops : ScoreOps F) where
  unfoldable pub fuzzy_anchor_score : MatchCondition F → F
  fuzzy_anchor_score c =
      let score = if ops.lt ops.zero c.threshold then c.threshold else ops.default_threshold in
      if c.required then ops.add score ops.one else score

  -- The loop of `selectBestFuzzyAnchor`, with the best so far and its score.
  unfoldable pub select_best_fuzzy_anchor :
      MatchCondition F → List (MatchCondition F) → MatchCondition F
  select_best_fuzzy_anchor best [] = best
  select_best_fuzzy_anchor best (cond ∷ conds) =
      select_best_fuzzy_anchor
        (if ops.lt (fuzzy_anchor_score best) (fuzzy_anchor_score cond) then cond else best) conds
