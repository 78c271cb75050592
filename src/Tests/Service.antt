-- ===== src/Tests/Service.antt =====
-- Tests of FindMatches in the model of ivy/pkg/matching/service.go.
use meadow.Prelude.{Any, inl, ℕ, ◌≡◌, none, some, [], ◌∷◌, refl, Ensures, Succeeds, take, lookup}
use meadow.Prelude.Sorting.{SortSlice, insertion_sort, insertion_sort-IsSort}
use meadow.Ivy.Matching.Defs.{MatchOutcome}
use meadow.Ivy.Matching.Scoring.{score_rule}
use meadow.Ivy.Matching.Index.{Config, MatchFields, row_has}
use meadow.Ivy.Matching.Service.{find_matches, generate_candidates_for_rule}
use meadow.Ivy.Matching.Outcomes.{IsResult, find_matches-Ensures}
use meadow.Ivy.Matching.Total.{IsUp, find_matches-Succeeds}
use meadow.Ivy.Matching.Anchors.{Lacks, generate_candidates_for_rule-Lacks}
use meadow.Tests.Matching.{whole, whole-StrictWeak, by_email, row, anna}

-- A database with two entities.
abbrev pub database : MatchFields ℕ
database = record {
  get_match_fields = λ id. some (row "1" "email" "ann@acme" ∷ row "1" "badge" "7" ∷ []);
  get_active_match_rules = some (by_email.rule ∷ []);
  candidate_ids_from_conditions = λ id source conds limit. some (take limit ("2" ∷ []));
  candidate_ids_from_condition = λ id source cond limit. some [];
  load_fields_for_candidates = λ ids. some (row "2" "email" "ann@acme" ∷ []);
  batch_similarity = λ name normalizer ids value. some [];
  parse_conditions = λ raw. some by_email.conditions;
}

abbrev pub limits : Config ℕ
limits = record {
  min_match_score = 1;
  auto_merge_threshold = 1;
  max_candidates = 100;
  candidate_cap_per_rule = 5000;
}

abbrev pub sort_matches : SortSlice (MatchOutcome ℕ)
sort_matches = insertion_sort

database-IsUp : IsUp database
database-IsUp = record {
  fields = λ id. (_, refl);
  rules = (_, refl);
  by_conditions = λ id source conds limit. (_, refl);
  by_condition = λ id source cond limit. (_, refl);
  candidates = λ ids. (_, refl);
  similarities = λ name normalizer ids value. (_, refl);
}

find_matches-Ensures_example :
    Ensures (IsResult whole limits) (find_matches whole sort_matches limits database "1")
find_matches-Ensures_example =
    find_matches-Ensures whole whole-StrictWeak sort_matches insertion_sort-IsSort limits database
      "1"

find_matches-Succeeds_example : Succeeds (find_matches whole sort_matches limits database "1")
find_matches-Succeeds_example =
    find_matches-Succeeds whole sort_matches limits database "1" database-IsUp

-- The source has no row for the e-mail address, which the rule requires.
no_email : Any (Lacks []) by_email.conditions
unfolding row_has lookup
no_email = inl (refl, refl, refl, refl)

generate_candidates_for_rule-Lacks_example :
    (generate_candidates_for_rule whole sort_matches limits database "1" [] by_email 10 ≡ some [])
    × (score_rule whole [] anna [] "2" by_email ≡ none)
generate_candidates_for_rule-Lacks_example =
    generate_candidates_for_rule-Lacks whole [] anna [] "2" sort_matches limits database "1"
      by_email 10 no_email
