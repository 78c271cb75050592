-- ===== src/Ivy/Matching/Indexing.antt =====
-- IndexEntity of ivy/pkg/matching/service.go with UpsertMatchFields of
-- ivy/internal/repositories/matchfield/repository.go: the rows of an entity are computed from its JSON and
-- replace those that the table has.
use meadow.Prelude.{
  Bool, true, false, not, ◌&&◌, String, Option, none, some, List, [], ◌∷◌, ◌++◌, str_eq,
  if◌then◌else◌, ◌>>=◌,
}
use meadow.Ivy.Matching.Defs.{
  MatchRuleType, phonetic, type_name, MatchCondition, MatchRule, MatchFieldRow, normalizer_name,
}

pub record FieldSpec : Type 0 where
  pub field : String
  pub match_type : MatchRuleType
  pub normalizer : String

-- The key of the map `fieldSpecs`.
abbrev pub same_spec : FieldSpec → FieldSpec → Bool
same_spec a b =
    str_eq a.field b.field
    && (str_eq (type_name a.match_type) (type_name b.match_type)
        && str_eq a.normalizer b.normalizer)

unfoldable pub has_spec : FieldSpec → List FieldSpec → Bool
has_spec s [] = false
has_spec s (t ∷ ts) = if same_spec t s then true else has_spec s ts

unfoldable pub is_phonetic : MatchRuleType → Bool
is_phonetic phonetic = true
is_phonetic _ = false

-- What IndexEntity calls: GetActiveMatchRules, encoding/json on conditions and on the entity's data (of type
-- D), ExtractString of ivy/pkg/extractor (whose inner `none` is nil), Apply of ivy/pkg/normalizers and
-- Soundex. The outer `none` is an error.
pub record Extraction (F D : Type 0) : Type 0 where
  pub get_active_match_rules : Option (List (MatchRule F))
  pub parse_conditions : String → Option (List (MatchCondition F))
  pub unmarshal : String → Option D
  pub extract_string : D → String → Option (Option String)
  pub normalize : String → String → String
  pub soundex : String → String

unfoldable pub spec_of : {F : Type 0} → MatchCondition F → FieldSpec
spec_of cond = record {
  field = cond.field;
  match_type = cond.match_type;
  normalizer = normalizer_name cond.normalizer;
}

module _ {F : Type 0} where
  unfoldable pub add_specs : List (MatchCondition F) → List FieldSpec → List FieldSpec
  add_specs [] specs = specs
  add_specs (cond ∷ conds) specs =
      add_specs conds (if has_spec (spec_of cond) specs then specs else specs ++ spec_of cond ∷ [])

  -- The DELETE of UpsertMatchFields.
  unfoldable pub delete_rows : String → List (MatchFieldRow F) → List (MatchFieldRow F)
  delete_rows id [] = []
  delete_rows id (row ∷ rows) =
      let rest = delete_rows id rows in if str_eq row.staged_entity_id id then rest else row ∷ rest

  -- The loop that fills in the identifier.
  unfoldable pub with_entity : String → List (MatchFieldRow F) → List (MatchFieldRow F)
  with_entity id [] = []
  with_entity id (row ∷ rows) = record row { staged_entity_id = id } ∷ with_entity id rows

  abbrev pub same_row : MatchFieldRow F → MatchFieldRow F → Bool
  same_row a b =
      str_eq a.field b.field
      && (str_eq (type_name a.match_type) (type_name b.match_type)
          && str_eq a.normalizer b.normalizer)

  unfoldable pub has_row : MatchFieldRow F → List (MatchFieldRow F) → Bool
  has_row r [] = false
  has_row r (s ∷ ss) = if same_row r s then true else has_row r ss

  -- The primary key of the table, on the rows of one entity.
  unfoldable pub repeats_key : List (MatchFieldRow F) → Bool
  repeats_key [] = false
  repeats_key (r ∷ rs) = if has_row r rs then true else repeats_key rs

  unfoldable pub upsert_match_fields :
      String → List (MatchFieldRow F) → List (MatchFieldRow F) → Option (List (MatchFieldRow F))
  upsert_match_fields id rows table =
      if repeats_key rows then none else some (delete_rows id table ++ with_entity id rows)

module _ {F D : Type 0} (x : Extraction F D) where
  -- Rules whose conditions do not parse are skipped.
  unfoldable pub collect_specs : List (MatchRule F) → List FieldSpec → List FieldSpec
  collect_specs [] specs = specs
  collect_specs (rule ∷ rules) specs = elim (x.parse_conditions rule.conditions) [
    | none ↦ collect_specs rules specs
    | some conds ↦ collect_specs rules (add_specs conds specs)
  ]

  unfoldable pub normalized : String → String → String
  normalized raw normalizer =
      if not (str_eq normalizer "raw") && not (str_eq normalizer "")
      then x.normalize raw normalizer
      else raw

  unfoldable pub token_for : MatchRuleType → String → Option String
  token_for match_type value = if is_phonetic match_type then some (x.soundex value) else none

  -- The identifier is filled in later.
  unfoldable pub row_for : FieldSpec → String → MatchFieldRow F
  row_for spec raw = record {
    staged_entity_id = "";
    field = spec.field;
    match_type = spec.match_type;
    normalizer = spec.normalizer;
    value_text = some (normalized raw spec.normalizer);
    value_num = none;
    value_ts = none;
    token = token_for spec.match_type (normalized raw spec.normalizer);
  }

  -- The text under a field; an error, nil and the empty string are none.
  unfoldable pub text_under : Option (Option String) → Option String
  text_under none = none
  text_under (some none) = none
  text_under (some (some s)) = if str_eq s "" then none else some s

  unfoldable pub extract_match_field : D → FieldSpec → Option (MatchFieldRow F)
  extract_match_field json spec =
      text_under (x.extract_string json spec.field) >>= λ raw. some (row_for spec raw)

  -- The loop over the map `fieldSpecs`, whose order in Go is random.
  unfoldable pub extract_rows : D → List FieldSpec → List (MatchFieldRow F)
  extract_rows json [] = []
  extract_rows json (spec ∷ specs) =
      let rest = extract_rows json specs in
      elim (extract_match_field json spec) [ none ↦ rest | some row ↦ row ∷ rest ]

  unfoldable pub index_by_rules :
      String
      → String
      → List (MatchRule F)
      → List (MatchFieldRow F)
      → Option (List (MatchFieldRow F))
  index_by_rules id content [] table = upsert_match_fields id [] table
  index_by_rules id content (r ∷ rs) table = x.unmarshal content >>= λ json.
      upsert_match_fields id (extract_rows json (collect_specs (r ∷ rs) [])) table

  -- The table after IndexEntity of the entity with this identifier and JSON.
  unfoldable pub index_entity :
      String → String → List (MatchFieldRow F) → Option (List (MatchFieldRow F))
  index_entity id content table =
      x.get_active_match_rules >>= λ rules. index_by_rules id content rules table
