-- ===== src/Ivy/Matching/Anchors.antt =====
-- Candidate generation in ivy/pkg/matching/service.go: generateCandidates and the choice of anchors.
use meadow.Prelude.{
  ℕ, suc, eq_iff, ◌≡◌, ◌≤◌, ◌+◌, ◌-◌, true, false, String, Option, none, some, List, [], ◌∷◌, ◌++◌,
  refl, inl, inr, arith, All, All-append, Ensures, >>=-Ensures_both, str_eq, leb, length,
  length-append, if_split, if_either, Option-cases, Any, if_false, ◌∙◌, Map, lookup,
}
use meadow.Prelude.Sorting.{SortSlice}
use meadow.Ivy.Matching.Defs.{
  ScoreOps, MatchCondition, CompiledRule, MatchFieldRow, FuzzySims, MatchOutcome, condition_key,
}
use meadow.Ivy.Matching.Scoring.{
  Tally, score_missing_source, score_rows, score_condition, score_conditions, rule_score,
  score_rule,
}
use meadow.Ivy.Matching.Index.{
  Config, MatchFields, Anchors, row_has, file_condition, classify, contains_text, add_ids,
  select_best_fuzzy_anchor,
}
use meadow.Ivy.Matching.Service.{
  ids_from_anchors, ids_of_anchors, generate_candidates_for_rule, generate_candidates,
}

module _ {F : Type 0} (source : Map (MatchFieldRow F)) where
  -- The condition is required, and the source has no value to compare.
  abbrev pub Lacks : MatchCondition F → Type 0
  Lacks cond =
      (cond.no_merge ≡ false)
      × (cond.invert ≡ false)
      × (cond.required ≡ true)
      × (row_has (lookup (condition_key cond) source) cond.match_type ≡ false)

  classify-Lacks :
      (conds : List (MatchCondition F)) (a : Anchors F)
      → Any Lacks conds
      → classify source conds a ≡ none
  unfolding classify
  classify-Lacks [] a l = elim l [ ]
  classify-Lacks (cond ∷ conds) a (inl (n, i, r, v)) = simp (n, i, v, r) refl
  classify-Lacks (cond ∷ conds) a (inr l) =
      let ih = classify-Lacks conds in
      if_either (λ o. o ≡ none) cond.no_merge _ _ (λ e. ih a l)
        (λ e.
          if_either (λ o. o ≡ none) cond.invert _ _ (λ e. ih a l)
            (λ e.
              if_either (λ o. o ≡ none)
                (row_has (lookup (condition_key cond) source) cond.match_type) _ _
                (λ e. ih (file_condition cond.match_type cond a) l)
                (λ e. if_either (λ o. o ≡ none) cond.required _ _ (λ e. refl) (λ e. ih a l))))

module _ {F : Type 0} (ops : ScoreOps F) (source cand : Map (MatchFieldRow F)) (sims : FuzzySims F)
    (cand_id : String) where
  score_rows-none :
      (cond : MatchCondition F) (s c : Option (MatchFieldRow F)) (t : Tally F)
      → row_has s cond.match_type ≡ false
      → cond.invert ≡ false
      → cond.required ≡ true
      → score_rows ops source cand sims cand_id cond s c t ≡ none
  unfolding row_has score_rows score_missing_source
  score_rows-none cond none c t v i r = ground arith
  score_rows-none cond (some s) c t v i r = ground arith

  score_condition-none :
      (cond : MatchCondition F) (t : Tally F)
      → Lacks source cond
      → score_condition ops source cand sims cand_id cond t ≡ none
  unfolding score_condition
  score_condition-none cond t (n, i, r, v) =
      if_false _ _ n ∙ score_rows-none cond (lookup (condition_key cond) source) _ t v i r

  score_conditions-none :
      (conds : List (MatchCondition F)) (t : Tally F)
      → Any (Lacks source) conds
      → score_conditions ops source cand sims cand_id conds t ≡ none
  unfolding score_conditions
  score_conditions-none [] t l = elim l [ ]
  score_conditions-none (cond ∷ conds) t (inl l) =
      rw (score_condition-none cond t l, score_conditions) refl
  score_conditions-none (cond ∷ conds) t (inr l) =
      elim (Option-cases (score_condition ops source cand sims cand_id cond t)) [
        | inl g ↦ rw (g, score_conditions) refl
        | inr (u, g) ↦ rw (g, score_conditions) (score_conditions-none conds u l)
      ]

  -- Where the source has no value for a condition that is required and neither inverted nor no-merge,
  -- generateCandidatesForRule gives no candidates of the rule and no error, whatever the queries would
  -- answer; that drops none, since the rule then passes for no candidate at all.
  pub generate_candidates_for_rule-Lacks :
      (sort_slice : SortSlice (MatchOutcome F)) (cfg : Config F) (repo : MatchFields F)
      (entity_id : String) (rule : CompiledRule F) (limit : ℕ)
      → Any (Lacks source) rule.conditions
      → (generate_candidates_for_rule ops sort_slice cfg repo entity_id source rule limit ≡ some [])
        × (score_rule ops source cand sims cand_id rule ≡ none)
  unfolding generate_candidates_for_rule ids_of_anchors score_rule rule_score
  generate_candidates_for_rule-Lacks sort_slice cfg repo entity_id rule limit l = (
    rw (classify-Lacks source rule.conditions (record { indexable = []; fuzzy_conditions = [] }) l)
        refl,
    rw (score_conditions-none rule.conditions _ l) refl,
  )

abbrev pub DistinctIds : List String → Type 0
DistinctIds [] = Unit
DistinctIds (x ∷ xs) = All (λ y. str_eq y x ≡ false) xs × DistinctIds xs

contains_text-false :
    (id : String) (xs : List String)
    → contains_text id xs ≡ false
    → All (λ x. str_eq x id ≡ false) xs
unfolding contains_text
contains_text-false id [] h = tt
contains_text-false id (x ∷ xs) h =
    if_split (str_eq x id) _ _ h (λ b e. absurd (cc e)) (λ b e. (b, contains_text-false id xs e))

-- A new identifier at the end.
DistinctIds-append :
    (id : String) (xs : List String)
    → All (λ x. str_eq x id ≡ false) xs
    → DistinctIds xs
    → DistinctIds (xs ++ id ∷ [])
DistinctIds-append id [] h d = (tt, tt)
DistinctIds-append id (x ∷ xs) h d = (
  All-append (λ y. str_eq y x ≡ false) xs (id ∷ []) d.0
      (ground (arith, h.0, eq_iff id x, eq_iff x id), tt),
  DistinctIds-append id xs h.1 d.1,
)

add_ids-DistinctIds :
    (ids found : List String) → DistinctIds found → DistinctIds (add_ids ids found)
unfolding add_ids
add_ids-DistinctIds [] found d = d
add_ids-DistinctIds (id ∷ ids) found d = add_ids-DistinctIds ids _ (
    if_either DistinctIds (contains_text id found) found (found ++ id ∷ []) (λ e. d)
      (λ e. DistinctIds-append id found (contains_text-false id found e) d))

length-add_ids : (ids found : List String) → length (add_ids ids found) ≤ length found + length ids
unfolding add_ids
length-add_ids [] found = omega arith
length-add_ids (id ∷ ids) found =
    if_either (λ t. length (add_ids ids t) ≤ length found + suc (length ids))
      (contains_text id found) found (found ++ id ∷ [])
      (λ e. omega (arith, length-add_ids ids found))
      (λ e. omega (arith, length-add_ids ids (found ++ id ∷ []), length-append found (id ∷ [])))

-- Queries return no more than their limit, as SQL's LIMIT promises.
pub record HonoursLimit {F : Type 0} (repo : MatchFields F) : Type 0 where
  pub by_conditions :
      (id : String) (source : Map (MatchFieldRow F)) (conds : List (MatchCondition F)) (limit : ℕ)
      → Ensures
          (λ ids. length ids ≤ limit)
          (repo.candidate_ids_from_conditions id source conds limit)
  pub by_condition :
      (id : String) (source : Map (MatchFieldRow F)) (cond : MatchCondition F) (limit : ℕ)
      → Ensures (λ ids. length ids ≤ limit) (repo.candidate_ids_from_condition id source cond limit)

module _ {F : Type 0} (ops : ScoreOps F) (sort_slice : SortSlice (MatchOutcome F)) (cfg : Config F)
    (repo : MatchFields F) (entity_id : String) (honours : HonoursLimit repo) where
  ids_from_anchors-limited :
      (source : Map (MatchFieldRow F)) (indexable anchors : List (MatchCondition F)) (limit : ℕ)
      → Ensures
          (λ ids. length ids ≤ limit)
          (ids_from_anchors ops sort_slice cfg repo entity_id source indexable anchors limit)
  unfolding ids_from_anchors
  ids_from_anchors-limited source (c ∷ cs) anchors limit =
      honours.by_conditions entity_id source (c ∷ cs) limit
  ids_from_anchors-limited source [] (f ∷ fs) limit =
      honours.by_condition entity_id source (select_best_fuzzy_anchor ops f fs) limit
  ids_from_anchors-limited source [] [] limit = omega arith

  ids_of_anchors-limited :
      (source : Map (MatchFieldRow F)) (o : Option (Anchors F)) (limit : ℕ)
      → Ensures
          (λ ids. length ids ≤ limit)
          (ids_of_anchors ops sort_slice cfg repo entity_id source o limit)
  unfolding ids_of_anchors
  ids_of_anchors-limited source none limit = omega arith
  ids_of_anchors-limited source (some a) limit =
      ids_from_anchors-limited source a.indexable a.fuzzy_conditions limit

  -- generateCandidates never returns a candidate twice, nor more than CandidateCapPerRule of them in
  -- all, if it starts with no more and the queries honour their limits.
  pub generate_candidates-limited :
      (source : Map (MatchFieldRow F)) (rules : List (CompiledRule F)) (found : List String)
      → DistinctIds found
      → length found ≤ cfg.candidate_cap_per_rule
      → Ensures
          (λ ids. DistinctIds ids × (length ids ≤ cfg.candidate_cap_per_rule))
          (generate_candidates ops sort_slice cfg repo entity_id source rules found)
  unfolding generate_candidates generate_candidates_for_rule
  generate_candidates-limited source [] found d h = (d, h)
  generate_candidates-limited source (rule ∷ rules) found d h =
      if_either (Ensures (λ ids. DistinctIds ids × (length ids ≤ cfg.candidate_cap_per_rule)))
        (leb cfg.candidate_cap_per_rule (length found)) _ _ (λ e. (d, h))
        (λ e.
          >>=-Ensures_both (λ ids. length ids ≤ cfg.candidate_cap_per_rule - length found) _ _ _
            (ids_of_anchors-limited source
              (classify source rule.conditions (record { indexable = []; fuzzy_conditions = [] }))
              _)
            (λ ids g.
              generate_candidates-limited source rules (add_ids ids found)
                (add_ids-DistinctIds ids found d) (omega (arith, length-add_ids ids found))))
