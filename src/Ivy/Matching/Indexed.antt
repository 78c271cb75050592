-- ===== src/Ivy/Matching/Indexed.antt =====
-- The rows that IndexEntity of ivy/pkg/matching/service.go leaves in the table of match fields.
use meadow.Prelude.{◌≡◌, false, String, none, some, List, [], All, Any, In, str_eq}
use meadow.Ivy.Matching.Defs.{type_name, MatchCondition, MatchRule, MatchFieldRow, normalizer_name}
use meadow.Ivy.Matching.Indexing.{
  FieldSpec, Extraction, collect_specs, normalized, text_under, extract_rows,
}
use meadow.Ivy.Matching.Specs.{IsAsked}

module _ {F D : Type 0} (x : Extraction F D) where
  -- The row holds, under the key of the condition, the text that the entity has in its field.
  pub record Holds (json : D) (id : String) (cond : MatchCondition F) (row : MatchFieldRow F)
      : Type 0 where
    pub same_id : row.staged_entity_id ≡ id
    pub field : row.field ≡ cond.field
    pub match_type : type_name row.match_type ≡ type_name cond.match_type
    pub normalizer : row.normalizer ≡ normalizer_name cond.normalizer
    pub raw : String
    pub text : text_under x (x.extract_string json cond.field) ≡ some raw
    pub value : row.value_text ≡ some (normalized x raw row.normalizer)
    pub no_number : row.value_num ≡ none
    pub no_time : row.value_ts ≡ none

  -- The rows of the entity are the texts that the rules ask for and the entity has; all others are as they were.
  pub record IsIndexed (rules : List (MatchRule F)) (json : D) (id : String)
      (before after : List (MatchFieldRow F)) : Type 0 where
    pub found :
        (cond : MatchCondition F) (raw : String)
        → IsAsked x cond rules
        → text_under x (x.extract_string json cond.field) ≡ some raw
        → Any (Holds json id cond) after
    pub own :
        All
          (λ row.
            row.staged_entity_id ≡ id
            → (cond : MatchCondition F) × IsAsked x cond rules × Holds json id cond row)
          after
    pub kept :
        (row : MatchFieldRow F)
        → str_eq row.staged_entity_id id ≡ false
        → In row before
        → In row after
    pub origin :
        (row : MatchFieldRow F)
        → str_eq row.staged_entity_id id ≡ false
        → In row after
        → In row before

module _ {F D : Type 0} (x : Extraction F D) (json : D) where
  module _ (id : String) (rules : List (MatchRule F)) where
    abbrev specs : List FieldSpec
    specs = collect_specs x rules []

    abbrev rows : List (MatchFieldRow F)
    rows = extract_rows x json specs

    abbrev IsOwn : MatchFieldRow F → Type 0
    IsOwn row =
        row.staged_entity_id ≡ id
        → (cond : MatchCondition F) × IsAsked x cond rules × Holds x json id cond row
