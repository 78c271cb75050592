-- ===== src/Ivy/Matching/Total.antt =====
-- FindMatches of ivy/pkg/matching/service.go fails only where a query of the database does.
use meadow.Prelude.{
  ℕ, String, Option, none, some, List, [], ◌∷◌, refl, inl, inr, Succeeds, >>=-Succeeds, leb, length,
  if_either, Option-cases, Map, lookup,
}
use meadow.Prelude.Sorting.{SortSlice}
use meadow.Ivy.Matching.Defs.{
  ScoreOps, fuzzy, MatchCondition, MatchRule, CompiledRule, MatchFieldRow, FuzzyKey, field_key,
  text_of, index_fields, MatchOutcome,
}
use meadow.Ivy.Matching.Index.{
  Config, MatchFields, Anchors, classify, select_best_fuzzy_anchor, add_ids, rules_fuzzy_keys,
}
use meadow.Ivy.Matching.Service.{
  ids_from_anchors, ids_of_anchors, generate_candidates_for_rule, generate_candidates, sims_of_keys,
  precompute_fuzzy_similarities, evaluate_candidates, compile_rules, match_candidates, match_rules,
  match_fields, find_matches,
}

-- No query fails. What fails to parse does not matter.
pub record IsUp {F : Type 0} (repo : MatchFields F) : Type 0 where
  pub fields : (id : String) → Succeeds (repo.get_match_fields id)
  pub rules : Succeeds repo.get_active_match_rules
  pub by_conditions :
      (id : String) (source : Map (MatchFieldRow F)) (conds : List (MatchCondition F)) (limit : ℕ)
      → Succeeds (repo.candidate_ids_from_conditions id source conds limit)
  pub by_condition :
      (id : String) (source : Map (MatchFieldRow F)) (cond : MatchCondition F) (limit : ℕ)
      → Succeeds (repo.candidate_ids_from_condition id source cond limit)
  pub candidates : (ids : List String) → Succeeds (repo.load_fields_for_candidates ids)
  pub similarities :
      (field normalizer : String) (ids : List String) (value : String)
      → Succeeds (repo.batch_similarity field normalizer ids value)

module _ {F : Type 0} (ops : ScoreOps F) (sort_slice : SortSlice (MatchOutcome F)) (cfg : Config F)
    (repo : MatchFields F) (entity_id : String) (up : IsUp repo) where
  ids_from_anchors-Succeeds :
      (source : Map (MatchFieldRow F)) (indexable anchors : List (MatchCondition F)) (limit : ℕ)
      → Succeeds (ids_from_anchors ops sort_slice cfg repo entity_id source indexable anchors limit)
  unfolding ids_from_anchors
  ids_from_anchors-Succeeds source (c ∷ cs) anchors limit =
      up.by_conditions entity_id source (c ∷ cs) limit
  ids_from_anchors-Succeeds source [] (f ∷ fs) limit =
      up.by_condition entity_id source (select_best_fuzzy_anchor ops f fs) limit
  ids_from_anchors-Succeeds source [] [] limit = ([], refl)

  ids_of_anchors-Succeeds :
      (source : Map (MatchFieldRow F)) (o : Option (Anchors F)) (limit : ℕ)
      → Succeeds (ids_of_anchors ops sort_slice cfg repo entity_id source o limit)
  unfolding ids_of_anchors
  ids_of_anchors-Succeeds source none limit = ([], refl)
  ids_of_anchors-Succeeds source (some a) limit =
      ids_from_anchors-Succeeds source a.indexable a.fuzzy_conditions limit

  generate_candidates-Succeeds :
      (source : Map (MatchFieldRow F)) (rules : List (CompiledRule F)) (found : List String)
      → Succeeds (generate_candidates ops sort_slice cfg repo entity_id source rules found)
  unfolding generate_candidates generate_candidates_for_rule
  generate_candidates-Succeeds source [] found = (found, refl)
  generate_candidates-Succeeds source (rule ∷ rules) found =
      if_either Succeeds (leb cfg.candidate_cap_per_rule (length found)) _ _ (λ e. (found, refl))
        (λ e.
          >>=-Succeeds _ _
            (ids_of_anchors-Succeeds source
              (classify source rule.conditions (record { indexable = []; fuzzy_conditions = [] }))
              _)
            (λ ids. generate_candidates-Succeeds source rules (add_ids ids found)))

  sims_of_keys-Succeeds :
      (source : Map (MatchFieldRow F)) (ids : List String) (ks : List FuzzyKey)
      → Succeeds (sims_of_keys ops sort_slice cfg repo entity_id source ids ks)
  unfolding sims_of_keys
  sims_of_keys-Succeeds source ids [] = ([], refl)
  sims_of_keys-Succeeds source ids (k ∷ ks) =
      let rest = sims_of_keys-Succeeds source ids ks in
      elim (Option-cases (text_of (lookup (field_key k.field fuzzy k.normalizer) source))) [
        | inl e ↦ rw (e, sims_of_keys) rest
        | inr (value, e) ↦
            rw (e, sims_of_keys)
              (>>=-Succeeds _ _ (up.similarities k.field k.normalizer ids value)
                (λ sims. >>=-Succeeds _ _ rest (λ others. ((k, sims) ∷ others, refl))))
      ]

  match_candidates-Succeeds :
      (source : Map (MatchFieldRow F)) (rules : List (CompiledRule F)) (ids : List String)
      → Succeeds (match_candidates ops sort_slice cfg repo entity_id source rules ids)
  unfolding match_candidates evaluate_candidates precompute_fuzzy_similarities
  match_candidates-Succeeds source rules [] = (_, refl)
  match_candidates-Succeeds source rules (id ∷ ids) =
      >>=-Succeeds _ _
        (>>=-Succeeds _ _ (up.candidates (id ∷ ids)) (λ rows.
          >>=-Succeeds _ _ (sims_of_keys-Succeeds source (id ∷ ids) (rules_fuzzy_keys rules []))
            (λ sims. (_, refl))))
        (λ outcomes. (_, refl))

  match_rules-Succeeds :
      (source : Map (MatchFieldRow F)) (rules : List (MatchRule F))
      → Succeeds (match_rules ops sort_slice cfg repo entity_id source rules)
  unfolding match_rules
  match_rules-Succeeds source [] = (_, refl)
  match_rules-Succeeds source (r ∷ rs) =
      let compiled = compile_rules ops sort_slice cfg repo entity_id (r ∷ rs) in
      >>=-Succeeds _ _ (generate_candidates-Succeeds source compiled [])
        (λ ids. match_candidates-Succeeds source compiled ids)

  match_fields-Succeeds :
      (rows : List (MatchFieldRow F))
      → Succeeds (match_fields ops sort_slice cfg repo entity_id rows)
  unfolding match_fields
  match_fields-Succeeds [] = (_, refl)
  match_fields-Succeeds (row ∷ rows) =
      >>=-Succeeds _ _ up.rules (λ rules. match_rules-Succeeds (index_fields (row ∷ rows) []) rules)

  -- FindMatches returns a result whenever no query of the database fails, whatever the rules are and
  -- whether or not their conditions parse.
  pub find_matches-Succeeds : Succeeds (find_matches ops sort_slice cfg repo entity_id)
  unfolding find_matches
  find_matches-Succeeds = >>=-Succeeds _ _ (up.fields entity_id) match_fields-Succeeds
