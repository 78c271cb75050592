-- ===== src/Tests/Criteria.antt =====
-- Tests of the model of ivy/pkg/criteria/criteria.go.
use mathlib.Core.List.Perm
use meadow.Prelude.{
  ℕ, ◌≡◌, ◌≢◌, ◌&&◌, true, String, some, List, [], ◌∷◌, refl, Map, lookup, inl, inr,
}
use meadow.Json.{Value, number, text, object, end, field, elements, entries, of_entries, deep_equal}
use meadow.Ivy.Criteria.Paths.{split, onto_first, get_nested, child, set_nested}
use meadow.Ivy.Criteria.Nested.{get_in, get_nested-set_nested_self}
use meadow.Ivy.Criteria.Defs.{
  parse_criteria, entry_conditions, operator_conditions, split_criteria, all_match,
  matches_criteria, matches_entity_data, evaluate_condition, evaluate_found, values_equal,
  compare_numeric, compare_floats, less, less_or_equal, to_float64, contains, any_equal, to_slice,
}
use meadow.Ivy.Criteria.Split.{
  simple_conditions, split_criteria_complete, Reordered, no_entries, and_entry, swapped, in_turn,
  matches_criteria-Reordered,
}
use meadow.Ivy.Criteria.Containment.{build_jsonb_containment, build_jsonb_containment-meets}
use meadow.Tests.Base.{nat_float, person}

-- {"home.city": "Oslo", "age": {"$gte": 18}, "tags": {"$contains": "b"}}
abbrev adult : Map (Value ℕ)
adult =
    ("home.city", text "Oslo")
    ∷ ("age", object (field "$gte" (number 18) end))
    ∷ ("tags", object (field "$contains" (text "b") end))
    ∷ []

adult_matches : matches_criteria nat_float (some person) adult ≡ true
unfolding matches_criteria matches_entity_data all_match evaluate_condition evaluate_found
    parse_criteria entry_conditions operator_conditions values_equal deep_equal compare_numeric
    compare_floats less less_or_equal to_float64 contains any_equal to_slice split onto_first
    get_nested lookup entries elements
adult_matches = refl

split_criteria_complete_example : all_match nat_float person (parse_criteria adult) ≡ (
    all_match nat_float person (simple_conditions (split_criteria adult).0)
    && all_match nat_float person (split_criteria adult).1)
unfolding lookup
split_criteria_complete_example =
    split_criteria_complete nat_float person adult (refl, (refl, (refl, tt)))

-- {"age": {"$gte": 18, "$lt": 65}, "home.city": "Oslo"} and, in another order,
-- {"home.city": "Oslo", "age": {"$lt": 65, "$gte": 18}}
abbrev working_age : Map (Value ℕ)
working_age =
    ("age", object (field "$gte" (number 18) (field "$lt" (number 65) end)))
    ∷ ("home.city", text "Oslo")
    ∷ []

abbrev working_age_reordered : Map (Value ℕ)
working_age_reordered =
    ("home.city", text "Oslo")
    ∷ ("age", object (field "$lt" (number 65) (field "$gte" (number 18) end)))
    ∷ []

working_age-Reordered : Reordered working_age working_age_reordered
unfolding entries
working_age-Reordered =
    in_turn
      (and_entry (refl, inr (_, _, refl, refl, Perm.swap _ _ _))
        (and_entry (refl, inl refl) no_entries))
      swapped

matches_criteria-Reordered_example :
    (matches_criteria nat_float (some person) working_age
      ≡ matches_criteria nat_float (some person) working_age_reordered)
    × (matches_criteria nat_float (some person) working_age ≡ (
        all_match nat_float person (simple_conditions (split_criteria working_age_reordered).0)
        && all_match nat_float person (split_criteria working_age_reordered).1))
unfolding lookup
matches_criteria-Reordered_example =
    matches_criteria-Reordered nat_float person working_age working_age_reordered
      working_age-Reordered (refl, (refl, tt))

-- {"home": {"city": "Oslo"}}
abbrev home : Map (Value ℕ)
home = ("home", object (field "city" (text "Oslo") end)) ∷ []

abbrev home_zip : List String
home_zip = "home" ∷ "zip" ∷ []

get_nested-set_nested_self_example :
    get_in (set_nested home home_zip (text "0150")) home_zip ≡ some (text "0150")
unfolding child lookup entries
get_nested-set_nested_self_example =
    get_nested-set_nested_self home home_zip (text "0150") (("city", text "Oslo") ∷ [], refl, tt)

home_differs : ◌≢◌ {A = String} "home" "age"
home_differs e = cc

-- Two fields share the part "home", the third stands beside them.
build_jsonb_containment-meets_example :
    (m : Map (Value ℕ)) × (build_jsonb_containment
        (("home.city", text "Oslo") ∷ ("home.zip", text "0150") ∷ ("age", number 30) ∷ [])
      ≡ some m)
    × (all_match nat_float (of_entries m) (
          simple_conditions
            (("home.city", text "Oslo") ∷ ("home.zip", text "0150") ∷ ("age", number 30) ∷ []))
        ≡ true)
unfolding split onto_first
build_jsonb_containment-meets_example =
    build_jsonb_containment-meets nat_float ("home.city", text "Oslo")
      (("home.zip", text "0150") ∷ ("age", number 30) ∷ [])
      ((inr (refl, inl (λ e. cc)), (inl home_differs, tt)), ((inl home_differs, tt), (tt, tt)))
