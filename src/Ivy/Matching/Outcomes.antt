-- ===== src/Ivy/Matching/Outcomes.antt =====
-- What FindMatches of ivy/pkg/matching/service.go returns.
use meadow.Prelude.{
  ℕ, ◌≡◌, ◌≤◌, ◌⊎◌, ◌↔◌, Bool, true, false, ◌||◌, String, List, [], ◌∷◌, refl, inl, inr, arith, All,
  Ensures, >>=-Ensures, >>=-Ensures_both, take-All, All-In, everywhere_from_members, length,
  length-take, Map, lookup, if_either, Option-cases,
}
use meadow.Prelude.Sorting.{SortSlice, StrictWeak, IsSort, Ordered, take-Ordered}
use meadow.Ivy.Matching.Defs.{
  ScoreOps, at_least, MatchRule, CompiledRule, MatchFieldRow, FuzzySims, MatchOutcome, index_fields,
}
use meadow.Ivy.Matching.Candidates.{evaluate_single_candidate}
use meadow.Ivy.Matching.NoMerge.{evaluate_single_candidate-no_merge}
use meadow.Ivy.Matching.BestRule.{evaluate_single_candidate-IsBestOutcome}
use meadow.Ivy.Matching.Index.{Config, MatchFields, MatchResults, index_candidates}
use meadow.Ivy.Matching.Service.{
  keep_outcome, evaluate_each, evaluate_candidates, no_results, best_matches, match_candidates,
  match_rules, match_fields, find_matches, precompute_fuzzy_similarities, generate_candidates,
  compile_rules,
}

module _ {F : Type 0} (ops : ScoreOps F) (cfg : Config F) where
  -- A candidate that is blocked, with no score, or one that scores enough.
  abbrev pub IsReported : MatchOutcome F → Type 0
  IsReported o =
      ((o.blocked ≡ true) × (o.score ≡ ops.zero) × (o.auto_merge ≡ false))
      ⊎ ((o.blocked ≡ false)
          × (ops.lt o.score cfg.min_match_score ≡ false)
          × ((o.auto_merge ≡ true) ↔ (ops.lt o.score cfg.auto_merge_threshold ≡ false)))

  abbrev pub by_score : MatchOutcome F → MatchOutcome F → Bool
  by_score a b = ops.lt b.score a.score

  pub record IsResult (r : MatchResults F) : Type 0 where
    pub reported : All IsReported r.matches
    pub ordered : Ordered by_score r.matches
    pub limited : length r.matches ≤ cfg.max_candidates

module _ {F : Type 0} (ops : ScoreOps F) (weak : StrictWeak ops.lt)
    (sort_slice : SortSlice (MatchOutcome F)) (sorts : IsSort sort_slice) (cfg : Config F)
    (repo : MatchFields F) (entity_id : String) where
  by_score-StrictWeak : StrictWeak (by_score ops cfg)
  by_score-StrictWeak = record {
    asym = λ a b h. weak.asym _ _ h;
    not_trans = λ a b c h g. weak.not_trans _ b.score _ g h;
  }

  keep_outcome-All :
      (o : MatchOutcome F) (rest : List (MatchOutcome F))
      → (ops.lt o.score cfg.min_match_score ≡ false → o.blocked ≡ false → IsReported ops cfg o)
      → (o.blocked ≡ true → IsReported ops cfg o)
      → All (IsReported ops cfg) rest
      → All (IsReported ops cfg) (keep_outcome ops sort_slice cfg repo entity_id o rest)
  unfolding keep_outcome
  keep_outcome-All o rest scored blocked h =
      if_either (All (IsReported ops cfg)) (at_least ops o.score cfg.min_match_score || o.blocked)
        (o ∷ rest) rest (λ e. (go o.blocked refl e, h)) (λ e. h)
    where
      go :
          (b : Bool)
          → o.blocked ≡ b
          → (at_least ops o.score cfg.min_match_score || o.blocked) ≡ true
          → IsReported ops cfg o
      go true e g = blocked e
      go false e g = scored (ground arith) e

  -- The evaluation of one candidate, kept or not.
  candidate-All :
      (source cand : Map (MatchFieldRow F)) (sims : FuzzySims F) (id : String)
      (rules : List (CompiledRule F)) (rest : List (MatchOutcome F))
      → All (IsReported ops cfg) rest
      → All (IsReported ops cfg) (
          keep_outcome ops sort_slice cfg repo entity_id
            (evaluate_single_candidate ops source cand sims id cfg.auto_merge_threshold rules)
            rest)
  candidate-All source cand sims id rules rest h =
      elim (evaluate_single_candidate-no_merge ops source cand sims id cfg.auto_merge_threshold
        rules) [
          | inl (f, b, z, a) ↦ keep_outcome-All _ rest (λ e g. absurd (cc)) (λ e. inl (b, z, a)) h
          | inr (f, b) ↦
              let best =
                evaluate_single_candidate-IsBestOutcome ops weak source cand sims id
                  cfg.auto_merge_threshold rules f in
              keep_outcome-All _ rest (λ e g. inr (b, e, best.merges)) (λ e. absurd (cc)) h
        ]

  evaluate_each-All :
      (source : Map (MatchFieldRow F)) (index : Map (Map (MatchFieldRow F))) (sims : FuzzySims F)
      (rules : List (CompiledRule F)) (ids : List String)
      → All
          (IsReported ops cfg)
          (evaluate_each ops sort_slice cfg repo entity_id source index sims rules ids)
  unfolding evaluate_each
  evaluate_each-All source index sims rules [] = tt
  evaluate_each-All source index sims rules (id ∷ ids) =
      let rest = evaluate_each-All source index sims rules ids in
      elim (Option-cases (lookup id index)) [
        | inl e ↦ rw (e, evaluate_each) rest
        | inr (cand, e) ↦ rw (e, evaluate_each) (candidate-All source cand sims id rules _ rest)
      ]

  best_matches-IsResult :
      (outcomes : List (MatchOutcome F)) (n : ℕ)
      → All (IsReported ops cfg) outcomes
      → IsResult ops cfg (record {
        source_entity_id = entity_id;
        matches = best_matches ops sort_slice cfg repo entity_id outcomes;
        total_candidates = n;
      })
  unfolding best_matches
  best_matches-IsResult outcomes n h = record {
    reported = take-All _ cfg.max_candidates _ (
        everywhere_from_members (sort_slice (by_score ops cfg) outcomes)
          (λ o i. All-In _ outcomes h ((sorts.members (by_score ops cfg) outcomes o).0 i)));
    ordered =
        take-Ordered _ cfg.max_candidates _
          (sorts.ordered (by_score ops cfg) by_score-StrictWeak outcomes);
    limited =
        omega (arith, length-take cfg.max_candidates (sort_slice (by_score ops cfg) outcomes));
  }

  none_found : IsResult ops cfg (no_results ops sort_slice cfg repo entity_id)
  unfolding no_results
  none_found = record { reported = tt; ordered = tt; limited = omega arith }

  evaluate_candidates-Ensures :
      (source : Map (MatchFieldRow F)) (ids : List String) (rules : List (CompiledRule F))
      → Ensures
          (All (IsReported ops cfg))
          (evaluate_candidates ops sort_slice cfg repo entity_id source ids rules)
  unfolding evaluate_candidates
  evaluate_candidates-Ensures source ids rules =
      >>=-Ensures _ (repo.load_fields_for_candidates ids) _ (λ rows.
        >>=-Ensures _
          (precompute_fuzzy_similarities ops sort_slice cfg repo entity_id source ids rules) _
          (λ sims. evaluate_each-All source (index_candidates rows []) sims rules ids))

  match_candidates-Ensures :
      (source : Map (MatchFieldRow F)) (rules : List (CompiledRule F)) (ids : List String)
      → Ensures
          (IsResult ops cfg)
          (match_candidates ops sort_slice cfg repo entity_id source rules ids)
  unfolding match_candidates
  match_candidates-Ensures source rules [] = none_found
  match_candidates-Ensures source rules (id ∷ ids) =
      >>=-Ensures_both (All (IsReported ops cfg)) _ _ _
        (evaluate_candidates-Ensures source (id ∷ ids) rules)
        (λ outcomes h. best_matches-IsResult outcomes _ h)

  match_rules-Ensures :
      (source : Map (MatchFieldRow F)) (rules : List (MatchRule F))
      → Ensures (IsResult ops cfg) (match_rules ops sort_slice cfg repo entity_id source rules)
  unfolding match_rules
  match_rules-Ensures source [] = none_found
  match_rules-Ensures source (r ∷ rs) =
      let compiled = compile_rules ops sort_slice cfg repo entity_id (r ∷ rs) in
      >>=-Ensures _ (generate_candidates ops sort_slice cfg repo entity_id source compiled []) _
        (λ ids. match_candidates-Ensures source compiled ids)

  match_fields-Ensures :
      (rows : List (MatchFieldRow F))
      → Ensures (IsResult ops cfg) (match_fields ops sort_slice cfg repo entity_id rows)
  unfolding match_fields
  match_fields-Ensures [] = none_found
  match_fields-Ensures (row ∷ rows) =
      >>=-Ensures _ repo.get_active_match_rules _
        (λ rules. match_rules-Ensures (index_fields (row ∷ rows) []) rules)

  -- When no query fails, FindMatches returns at most MaxCandidates outcomes, the highest scores first.
  -- Each is blocked, with the score 0 and no automatic merge, or it is not blocked, scores at least
  -- MinMatchScore, and is for automatic merge exactly when it reaches AutoMergeThreshold.
  pub find_matches-Ensures :
      Ensures (IsResult ops cfg) (find_matches ops sort_slice cfg repo entity_id)
  unfolding find_matches
  find_matches-Ensures = >>=-Ensures _ (repo.get_match_fields entity_id) _ match_fields-Ensures
