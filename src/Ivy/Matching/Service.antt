-- ===== src/Ivy/Matching/Service.antt =====
-- FindMatches of ivy/pkg/matching/service.go: candidates from the rules' anchor conditions, their
-- evaluation, and the best outcomes. The database is a parameter.
use meadow.Prelude.{
  ℕ, ◌-◌, Bool, ◌||◌, String, Option, none, some, List, [], ◌∷◌, leb, if◌then◌else◌, ◌>>=◌, Map,
  lookup, length, take,
}
use meadow.Prelude.Sorting.{SortSlice}
use meadow.Ivy.Matching.Defs.{
  ScoreOps, at_least, fuzzy, MatchCondition, MatchRule, CompiledRule, MatchFieldRow, FuzzyKey,
  FuzzySims, field_key, index_fields, text_of, MatchOutcome,
}
use meadow.Ivy.Matching.Candidates.{evaluate_single_candidate}
use meadow.Ivy.Matching.Index.{
  Config, MatchFields, MatchResults, Anchors, add_ids, classify, rules_fuzzy_keys, index_candidates,
  select_best_fuzzy_anchor,
}

-- `entity_id` is the source entity, which no query returns as its own candidate.
module _ {F : Type 0} (ops : ScoreOps F) (sort_slice : SortSlice (MatchOutcome F)) (cfg : Config F)
    (repo : MatchFields F) (entity_id : String) where
  unfoldable pub ids_from_anchors :
      Map (MatchFieldRow F)
      → List (MatchCondition F)
      → List (MatchCondition F)
      → ℕ
      → Option (List String)
  ids_from_anchors source (c ∷ cs) anchors limit =
      repo.candidate_ids_from_conditions entity_id source (c ∷ cs) limit
  ids_from_anchors source [] (f ∷ fs) limit =
      repo.candidate_ids_from_condition entity_id source (select_best_fuzzy_anchor ops f fs) limit
  ids_from_anchors source [] [] limit = some []

  unfoldable pub ids_of_anchors :
      Map (MatchFieldRow F) → Option (Anchors F) → ℕ → Option (List String)
  ids_of_anchors source none limit = some []
  ids_of_anchors source (some a) limit =
      ids_from_anchors source a.indexable a.fuzzy_conditions limit

  unfoldable pub generate_candidates_for_rule :
      Map (MatchFieldRow F) → CompiledRule F → ℕ → Option (List String)
  generate_candidates_for_rule source rule limit =
      ids_of_anchors source
        (classify source rule.conditions (record { indexable = []; fuzzy_conditions = [] })) limit

  -- The loop of `generateCandidates`, with the set so far.
  unfoldable pub generate_candidates :
      Map (MatchFieldRow F) → List (CompiledRule F) → List String → Option (List String)
  generate_candidates source [] found = some found
  generate_candidates source (rule ∷ rules) found =
      let more =
        generate_candidates_for_rule source rule (cfg.candidate_cap_per_rule - length found)
        >>= λ ids. generate_candidates source rules (add_ids ids found) in
      if leb cfg.candidate_cap_per_rule (length found) then some found else more

  unfoldable pub sims_of_keys :
      Map (MatchFieldRow F) → List String → List FuzzyKey → Option (FuzzySims F)
  sims_of_keys source ids [] = some []
  sims_of_keys source ids (k ∷ ks) =
      let rest = sims_of_keys source ids ks in
      elim (text_of (lookup (field_key k.field fuzzy k.normalizer) source)) [
        | none ↦ rest
        | some value ↦ repo.batch_similarity k.field k.normalizer ids value >>= λ sims.
            rest >>= λ others. some ((k, sims) ∷ others)
      ]

  unfoldable pub precompute_fuzzy_similarities :
      Map (MatchFieldRow F) → List String → List (CompiledRule F) → Option (FuzzySims F)
  precompute_fuzzy_similarities source ids rules =
      sims_of_keys source ids (rules_fuzzy_keys rules [])

  unfoldable pub keep_outcome : MatchOutcome F → List (MatchOutcome F) → List (MatchOutcome F)
  keep_outcome o rest =
      if at_least ops o.score cfg.min_match_score || o.blocked then o ∷ rest else rest

  -- The loop of `evaluateCandidates`.
  unfoldable pub evaluate_each :
      Map (MatchFieldRow F)
      → Map (Map (MatchFieldRow F))
      → FuzzySims F
      → List (CompiledRule F)
      → List String
      → List (MatchOutcome F)
  evaluate_each source index sims rules [] = []
  evaluate_each source index sims rules (id ∷ ids) =
      let rest = evaluate_each source index sims rules ids in
      elim (lookup id index) [
        | none ↦ rest
        | some cand ↦
            keep_outcome
              (evaluate_single_candidate ops source cand sims id cfg.auto_merge_threshold rules)
              rest
      ]

  unfoldable pub evaluate_candidates :
      Map (MatchFieldRow F) → List String → List (CompiledRule F) → Option (List (MatchOutcome F))
  evaluate_candidates source ids rules = repo.load_fields_for_candidates ids >>= λ rows.
      precompute_fuzzy_similarities source ids rules >>= λ sims.
      some (evaluate_each source (index_candidates rows []) sims rules ids)

  -- Rules whose conditions do not parse are skipped.
  unfoldable pub compile_rules : List (MatchRule F) → List (CompiledRule F)
  compile_rules [] = []
  compile_rules (r ∷ rs) =
      let rest = compile_rules rs in
      elim (repo.parse_conditions r.conditions) [
        | none ↦ rest
        | some conds ↦ record { rule = r; conditions = conds } ∷ rest
      ]

  abbrev pub higher_score : MatchOutcome F → MatchOutcome F → Bool
  higher_score a b = ops.lt b.score a.score

  unfoldable pub no_results : MatchResults F
  no_results = record { source_entity_id = entity_id; matches = []; total_candidates = 0 }

  -- Sorting and the limit.
  unfoldable pub best_matches : List (MatchOutcome F) → List (MatchOutcome F)
  best_matches outcomes = take cfg.max_candidates (sort_slice higher_score outcomes)

  unfoldable pub match_candidates :
      Map (MatchFieldRow F) → List (CompiledRule F) → List String → Option (MatchResults F)
  match_candidates source rules [] = some no_results
  match_candidates source rules (id ∷ ids) =
      evaluate_candidates source (id ∷ ids) rules >>= λ outcomes. some (record {
        source_entity_id = entity_id;
        matches = best_matches outcomes;
        total_candidates = length (id ∷ ids);
      })

  unfoldable pub match_rules : Map (MatchFieldRow F) → List (MatchRule F) → Option (MatchResults F)
  match_rules source [] = some no_results
  match_rules source (r ∷ rs) = generate_candidates source (compile_rules (r ∷ rs)) [] >>= λ ids.
      match_candidates source (compile_rules (r ∷ rs)) ids

  unfoldable pub match_fields : List (MatchFieldRow F) → Option (MatchResults F)
  match_fields [] = some no_results
  match_fields (row ∷ rows) =
      repo.get_active_match_rules >>= λ rules. match_rules (index_fields (row ∷ rows) []) rules

  unfoldable pub find_matches : Option (MatchResults F)
  find_matches = repo.get_match_fields entity_id >>= λ rows. match_fields rows
