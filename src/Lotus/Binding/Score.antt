-- ===== src/Lotus/Binding/Score.antt =====
-- What the score of `matchBinding` in lotus/pkg/binding/matcher.go means.
use text.Mathlib.TextBridge.{IsPrefix}
use meadow.Prelude.{ℕ, ◌+◌, ◌≡◌, ◌⊎◌, Bool, false, ◌&&◌, ◌||◌, List, [], ◌∷◌, In, if◌then◌else◌}
use meadow.Prelude.Int.{ltℤ}
use meadow.Lotus.Binding.Defs.{BindingFilter, Binding, MessageData, is_empty_text, is_positive}
use meadow.Lotus.Binding.Passes.{IsPart, Passes}

-- The message meets every criterion that the filter sets.
pub record Accepts (filter : BindingFilter) (d : MessageData) : Type 0 where
  pub integration : (d.integration ≡ "") ⊎ (d.integration ≡ filter.integration)
  pub keys : (filter.keys ≡ []) ⊎ In d.plan_key filter.keys
  pub codes : (filter.status_codes ≡ []) ⊎ In d.status_code filter.status_codes
  pub at_least :
      (is_positive filter.min_status_code && ltℤ d.status_code filter.min_status_code) ≡ false
  pub at_most :
      (is_positive filter.max_status_code && ltℤ filter.max_status_code d.status_code) ≡ false
  pub step_path : (filter.step_path_prefix ≡ "") ⊎ IsPrefix filter.step_path_prefix d.step_path
  pub request_url :
      (filter.request_url_contains ≡ "") ⊎ IsPart filter.request_url_contains d.request_url

abbrev pub bonus : {A : Type 0} → List A → ℕ → ℕ
bonus [] n = 0
bonus (x ∷ xs) n = n

-- How specific a filter is: 10 for keys, 5 for each of codes, path and URL, 2 for a range.
abbrev pub weight : BindingFilter → ℕ
weight f =
    1
    + bonus f.keys 10
    + bonus f.status_codes 5
    + (if is_positive f.min_status_code || is_positive f.max_status_code then 2 else 0)
    + (if is_empty_text f.step_path_prefix then 0 else 5)
    + (if is_empty_text f.request_url_contains then 0 else 5)

module _ (f : BindingFilter) (d : MessageData) where
  abbrev too_low : Bool
  too_low = is_positive f.min_status_code && ltℤ d.status_code f.min_status_code

  abbrev too_high : Bool
  too_high = is_positive f.max_status_code && ltℤ f.max_status_code d.status_code

  abbrev has_range : Bool
  has_range = is_positive f.min_status_code || is_positive f.max_status_code
