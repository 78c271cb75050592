-- ===== src/Lotus/Binding/Defs.antt =====
-- Bindings (lotus/pkg/models/binding.go), the part of a message that the matcher reads
-- (lotus/pkg/kafka), and `matchBinding` of lotus/pkg/binding/matcher.go.
use meadow.Prelude.{
  ℕ, ◌+◌, Bool, true, false, not, ◌&&◌, ◌||◌, String, Option, none, some, List, [], ◌∷◌, str_eq,
  starts_with, if◌then◌else◌, Map, lookup,
}
use meadow.Prelude.Int.{ℤ, pos, ltℤ, eqℤ}
use meadow.Json.{Value, text, number}

pub record BindingFilter : Type 0 where
  pub integration : String
  pub keys : List String
  pub status_codes : List ℤ
  pub step_path_prefix : String
  pub request_url_contains : String
  pub min_status_code : ℤ
  pub max_status_code : ℤ

-- The times are no part of what the matcher does.
pub record Binding : Type 0 where
  pub id : String
  pub tenant_id : String
  pub name : String
  pub mapping_id : String
  pub is_enabled : Bool
  pub filter : BindingFilter
  pub output_topic : String

-- The fields of Orchid's message that the matcher reads.
pub record OrchidMessage : Type 0 where
  pub tenant_id : String
  pub plan_key : String
  pub integration : String
  pub status_code : ℤ
  pub step_path : String
  pub request_url : String

-- `Headers.TenantID`, `OrchidMessage` and `Data`; the last two may be nil.
pub record ReceivedMessage (F : Type 0) : Type 0 where
  pub header_tenant_id : String
  pub orchid_message : Option OrchidMessage
  pub body : Option (Map (Value F))

-- The local variables of `matchBinding`.
pub record MessageData : Type 0 where
  pub plan_key : String
  pub integration : String
  pub status_code : ℤ
  pub step_path : String
  pub request_url : String

-- `truncate` is Go's conversion `int(v)` of a float64.
module _ {F : Type 0} (truncate : F → ℤ) where
  unfoldable pub text_or_empty : Option (Value F) → String
  text_or_empty (some (text s)) = s
  text_or_empty _ = ""

  unfoldable pub int_or_zero : Option (Value F) → ℤ
  int_or_zero (some (number n)) = truncate n
  int_or_zero _ = pos 0

  -- The local variables, from the parsed message or else from the generic map.
  unfoldable pub message_data : Option OrchidMessage → Option (Map (Value F)) → MessageData
  message_data (some o) body = record {
    plan_key = o.plan_key;
    integration = o.integration;
    status_code = o.status_code;
    step_path = o.step_path;
    request_url = o.request_url;
  }
  message_data none (some body) = record {
    plan_key = text_or_empty (lookup "plan_key" body);
    integration = text_or_empty (lookup "integration" body);
    status_code = int_or_zero (lookup "status_code" body);
    step_path = text_or_empty (lookup "step_path" body);
    request_url = text_or_empty (lookup "request_url" body);
  }
  message_data none none = record {
    plan_key = "";
    integration = "";
    status_code = pos 0;
    step_path = "";
    request_url = "";
  }

-- `strings.Contains`.
unfoldable pub text_contains : String → String → Bool
text_contains String.[] t = starts_with String.[] t
text_contains (String.◌∷◌ c s) t = starts_with (String.◌∷◌ c s) t || text_contains s t

abbrev pub is_empty_text : String → Bool
is_empty_text s = str_eq s ""

-- The loop over `filter.Keys`.
unfoldable pub has_key : String → List String → Bool
has_key plan_key [] = false
has_key plan_key (pid ∷ keys) =
    if str_eq pid plan_key || (not (is_empty_text plan_key) && str_eq pid plan_key)
    then true
    else has_key plan_key keys

-- The loop over `filter.StatusCodes`.
unfoldable pub has_code : ℤ → List ℤ → Bool
has_code status_code [] = false
has_code status_code (sc ∷ codes) = if eqℤ sc status_code then true else has_code status_code codes

-- `x > 0` on an int.
abbrev pub is_positive : ℤ → Bool
is_positive x = ltℤ (pos 0) x

-- An early return skips the rest.
abbrev pub and_then : Option ℕ → (ℕ → Option ℕ) → Option ℕ
and_then none next = none
and_then (some score) next = next score

-- The steps of `matchBinding` after the variables are read: `none` is `return 0`.
module _ (filter : BindingFilter) (d : MessageData) where
  unfoldable pub check_integration : ℕ → Option ℕ
  check_integration score =
      if not (is_empty_text d.integration) && not (str_eq d.integration filter.integration)
      then none
      else some score

  unfoldable pub check_keys : List String → ℕ → Option ℕ
  check_keys [] score = some score
  check_keys (key ∷ keys) score =
      if has_key d.plan_key (key ∷ keys) then some (score + 10) else none

  unfoldable pub check_codes : List ℤ → ℕ → Option ℕ
  check_codes [] score = some score
  check_codes (code ∷ codes) score =
      if has_code d.status_code (code ∷ codes) then some (score + 5) else none

  unfoldable pub check_range : ℕ → Option ℕ
  check_range score =
      if is_positive filter.min_status_code && ltℤ d.status_code filter.min_status_code
      then none
      else if is_positive filter.max_status_code && ltℤ filter.max_status_code d.status_code
      then none
      else if is_positive filter.min_status_code || is_positive filter.max_status_code
      then some (score + 2)
      else some score

  unfoldable pub check_step_path : ℕ → Option ℕ
  check_step_path score =
      if is_empty_text filter.step_path_prefix
      then some score
      else if starts_with d.step_path filter.step_path_prefix
      then some (score + 5)
      else none

  unfoldable pub check_request_url : ℕ → Option ℕ
  check_request_url score =
      if is_empty_text filter.request_url_contains
      then some score
      else if text_contains d.request_url filter.request_url_contains
      then some (score + 5)
      else none

  unfoldable pub score_filter : Option ℕ
  score_filter =
      and_then
        (and_then
          (and_then
            (and_then (and_then (check_integration 1) (check_keys filter.keys))
              (check_codes filter.status_codes))
            check_range)
          check_step_path)
        check_request_url

unfoldable pub or_zero : Option ℕ → ℕ
or_zero none = 0
or_zero (some score) = score

unfoldable pub match_binding : {F : Type 0} → (F → ℤ) → Binding → ReceivedMessage F → ℕ
match_binding truncate b msg =
    or_zero (score_filter b.filter (message_data truncate msg.orchid_message msg.body))
