-- ===== src/Tests/Binding.antt =====
-- Tests of the model of lotus/pkg/binding.
use meadow.Prelude.{
  lookup, insert, erase, ℕ, ◌≡◌, Bool, true, false, String, none, some, List, [], ◌∷◌, refl, All,
  str_eq, if◌then◌else◌,
}
use meadow.Prelude.Int.{pos, ltℤ}
use meadow.Lotus.Binding.Defs.{
  BindingFilter, Binding, ReceivedMessage, MessageData, message_data, match_binding, or_zero,
  score_filter, check_integration, check_keys, check_codes, check_range, check_step_path,
  check_request_url, has_key, text_contains,
}
use meadow.Lotus.Binding.Registry.{
  Matcher, first_of, best_result, orchid_tenant, match_all, or_no_bindings, remove_tenant,
  remove_first, load_bindings, update_list, enabled_only, new_matcher, bindings_of, tenant_of,
  update_binding, remove_binding, match_first, match_message, binding_count, tenant_count,
}
use meadow.Lotus.Binding.Upkeep.{WellFormed}
use meadow.Lotus.Binding.Runs.{
  Operation, IsProper, run, run_all, load, drop_tenant, update, remove, run_all-WellFormed,
}
use meadow.Lotus.Binding.Best.{IsFirst, match_first-IsFirst}

abbrev keyed : List String → String → BindingFilter
keyed keys prefix = record {
  integration = "okta";
  keys = keys;
  status_codes = [];
  step_path_prefix = prefix;
  request_url_contains = "";
  min_status_code = pos 200;
  max_status_code = pos 299;
}

abbrev binding : String → Bool → BindingFilter → Binding
binding id enabled filter = record {
  id = id;
  tenant_id = "acme";
  name = id;
  mapping_id = "m";
  is_enabled = enabled;
  filter = filter;
  output_topic = "mapped";
}

abbrev broad : Binding
broad = binding "1" true (keyed [] "")

abbrev narrow : Binding
narrow = binding "2" true (keyed ("users" ∷ []) "root")

abbrev disabled : Binding
disabled = binding "3" false (keyed [] "")

abbrev loaded : Matcher
loaded = ("acme", broad ∷ narrow ∷ []) ∷ []

abbrev users_page : ReceivedMessage ℕ
users_page = record {
  header_tenant_id = "";
  orchid_message = some (record {
    tenant_id = "acme";
    plan_key = "users";
    integration = "okta";
    status_code = pos 200;
    step_path = "root.fanout[0]";
    request_url = "https://acme/users";
  });
  body = none;
}

abbrev calls : List Operation
calls =
    load "acme" (broad ∷ disabled ∷ [])
    ∷ update narrow
    ∷ remove "acme" "1"
    ∷ drop_tenant "other"
    ∷ []

narrow_wins : match_first {F = ℕ} pos users_page loaded ≡ some narrow
unfolding match_first first_of best_result match_message tenant_of orchid_tenant match_all
    bindings_of or_no_bindings lookup match_binding or_zero score_filter check_integration
    message_data check_keys check_codes check_range check_step_path check_request_url has_key
    text_contains ltℤ
narrow_wins = refl

after_calls : run_all calls new_matcher ≡ ("acme", narrow ∷ []) ∷ []
unfolding run_all run remove_tenant erase remove_binding remove_first bindings_of or_no_bindings
    lookup update_binding insert load_bindings new_matcher update_list enabled_only
after_calls = refl

counts : (binding_count loaded ≡ 2) × (tenant_count loaded ≡ 1)
unfolding binding_count tenant_count
counts = (refl, refl)

calls-IsProper : All IsProper calls
calls-IsProper = (((refl, (refl, tt)), ((refl, tt), (tt, tt))), (tt, (tt, (tt, tt))))

loaded-WellFormed : WellFormed "acme" (bindings_of "acme" loaded)
unfolding bindings_of or_no_bindings lookup
loaded-WellFormed = record {
  enabled = (refl, (refl, tt));
  owned = (refl, (refl, tt));
  unique = ((refl, tt), (tt, tt));
}

run_all-WellFormed_example : WellFormed "acme" (bindings_of "acme" (run_all calls new_matcher))
run_all-WellFormed_example = run_all-WellFormed calls calls-IsProper "acme"

abbrev page_data : MessageData
page_data = message_data {F = ℕ} pos users_page.orchid_message users_page.body

match_first-IsFirst_example :
    IsFirst {F = ℕ} pos users_page
      (if str_eq (tenant_of users_page) "" then [] else bindings_of (tenant_of users_page) loaded)
      (match_first {F = ℕ} pos users_page loaded)
match_first-IsFirst_example = match_first-IsFirst pos users_page loaded
