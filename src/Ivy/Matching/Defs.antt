-- ===== src/Ivy/Matching/Defs.antt =====
-- The data of ivy/pkg/matching/service.go: match conditions and rules (ivy/pkg/models/match_rule.go),
-- the indexed fields of an entity (ivy/internal/repositories/matchfield), and the scores.
use Prim.Native.String.{◌++◌ as ◌++ᵗ◌}
use meadow.Prelude.{
  ℕ, Bool, true, false, not, ◌&&◌, String, Option, none, some, List, [], ◌∷◌, str_eq, if◌then◌else◌,
  Map, insert,
}
use meadow.Prelude.Int.{ℤ}
use meadow.Json.{Value}

-- The float64 arithmetic of scores, on floats that are no NaN. `default_threshold` is 0.7.
pub record ScoreOps (F : Type 0) : Type 0 where
  pub lt : F → F → Bool
  pub zero : F
  pub one : F
  pub default_threshold : F
  pub add : F → F → F
  pub subtract : F → F → F
  pub multiply : F → F → F
  pub divide : F → F → F

-- `a >= b` and `a == b`.
abbrev pub at_least : {F : Type 0} → ScoreOps F → F → F → Bool
at_least ops a b = not (ops.lt a b)

abbrev pub float_equal : {F : Type 0} → ScoreOps F → F → F → Bool
float_equal ops a b = not (ops.lt a b) && not (ops.lt b a)

-- A Go string: `other` is any that the package does not name.
pub data MatchRuleType : Type 0 where
  exact fuzzy phonetic numeric date_range : MatchRuleType
  other : String → MatchRuleType

unfoldable pub type_name : MatchRuleType → String
type_name exact = "exact"
type_name fuzzy = "fuzzy"
type_name phonetic = "phonetic"
type_name numeric = "numeric"
type_name date_range = "date_range"
type_name (other name) = name

pub record MatchCondition (F : Type 0) : Type 0 where
  pub field : String
  pub match_type : MatchRuleType
  pub weight : F
  pub required : Bool
  pub threshold : F
  pub case_sensitive : Bool
  pub date_range_days : ℤ
  pub normalizer : Option String
  pub no_merge : Bool
  pub invert : Bool

-- The fields of a rule that the service reads.
pub record MatchRule (F : Type 0) : Type 0 where
  pub name : String
  pub conditions : String
  pub score_weight : F

pub record CompiledRule (F : Type 0) : Type 0 where
  pub rule : MatchRule F
  pub conditions : List (MatchCondition F)

-- A `sql.Null…` is an `Option`, and a time a number.
pub record MatchFieldRow (F : Type 0) : Type 0 where
  pub staged_entity_id : String
  pub field : String
  pub match_type : MatchRuleType
  pub normalizer : String
  pub value_text : Option String
  pub value_num : Option F
  pub value_ts : Option ℕ
  pub token : Option String

unfoldable pub normalizer_name : Option String → String
normalizer_name none = "raw"
normalizer_name (some n) = if str_eq n "" then "raw" else n

unfoldable pub field_key : String → MatchRuleType → String → String
field_key field match_type normalizer =
    (((field ++ᵗ "|") ++ᵗ type_name match_type) ++ᵗ "|") ++ᵗ normalizer

abbrev pub is_some {ℓ} : {A : Type ℓ} → Option A → Bool
is_some none = false
is_some (some a) = true

pub record FuzzyKey : Type 0 where
  pub field : String
  pub normalizer : String

abbrev pub same_key : FuzzyKey → FuzzyKey → Bool
same_key j k = str_eq j.field k.field && str_eq j.normalizer k.normalizer

-- `map[fuzzyKey]map[string]float64`: the similarity of each candidate.
abbrev pub FuzzySims : Type 0 → Type 0
FuzzySims F = List (FuzzyKey × Map F)

module _ {F : Type 0} where
  unfoldable pub condition_key : MatchCondition F → String
  condition_key cond = field_key cond.field cond.match_type (normalizer_name cond.normalizer)

  abbrev pub fuzzy_key : MatchCondition F → FuzzyKey
  fuzzy_key cond = record { field = cond.field; normalizer = normalizer_name cond.normalizer }

  unfoldable pub find_sims : FuzzyKey → FuzzySims F → Option (Map F)
  find_sims k [] = none
  find_sims k ((j, sims) ∷ rest) = if same_key j k then some sims else find_sims k rest

  unfoldable pub has_value : MatchFieldRow F → MatchRuleType → Bool
  has_value row exact = is_some row.value_text
  has_value row fuzzy = is_some row.value_text
  has_value row phonetic = is_some row.token
  has_value row numeric = is_some row.value_num
  has_value row date_range = is_some row.value_ts
  has_value row (other name) = false

  -- The loop that indexes an entity's rows by key.
  unfoldable pub index_fields :
      List (MatchFieldRow F) → Map (MatchFieldRow F) → Map (MatchFieldRow F)
  index_fields [] index = index
  index_fields (row ∷ rows) index =
      index_fields rows (insert (field_key row.field row.match_type row.normalizer) row index)

-- A map's value for a key that it lacks is 0.
unfoldable pub or_zero_float : {F : Type 0} → ScoreOps F → Option F → F
or_zero_float ops none = ops.zero
or_zero_float ops (some x) = x

-- `threshold <= 0` stands for the default.
unfoldable pub effective_threshold : {F : Type 0} → ScoreOps F → F → F
effective_threshold ops threshold =
    if ops.lt ops.zero threshold then threshold else ops.default_threshold

pub record MatchOutcome (F : Type 0) : Type 0 where
  pub entity_id : String
  pub score : F
  pub auto_merge : Bool
  pub blocked : Bool
  pub rule_matched : String
  pub details : Map (Value F)

-- `if cond.Invert { match = !rawMatch }`
unfoldable pub inverted : Bool → Bool → Bool
inverted true raw = not raw
inverted false raw = raw

-- A column of a row that may be missing.
module _ {F : Type 0} where
  abbrev pub text_of : Option (MatchFieldRow F) → Option String
  text_of none = none
  text_of (some row) = row.value_text

  abbrev pub token_of : Option (MatchFieldRow F) → Option String
  token_of none = none
  token_of (some row) = row.token
