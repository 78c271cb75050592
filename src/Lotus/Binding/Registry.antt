-- ===== src/Lotus/Binding/Registry.antt =====
-- The state of the matcher of lotus/pkg/binding/matcher.go and its operations. The lock makes each
-- of them one step.
use meadow.Prelude.{
  ℕ, ◌+◌, String, Option, none, some, List, [], ◌∷◌, str_eq, ltb, if◌then◌else◌, Map, lookup,
  insert, erase, length,
}
use meadow.Prelude.Int.{ℤ}
use meadow.Lotus.Binding.Defs.{Binding, OrchidMessage, ReceivedMessage, match_binding}

-- `Matcher.bindings`: the bindings of each tenant.
abbrev pub Matcher : Type 0
Matcher = Map (List Binding)

unfoldable pub new_matcher : Matcher
new_matcher = []

unfoldable pub or_no_bindings : Option (List Binding) → List Binding
or_no_bindings none = []
or_no_bindings (some bs) = bs

-- `m.bindings[tenantID]`: nil where there is no entry.
unfoldable pub bindings_of : String → Matcher → List Binding
bindings_of tenant_id m = or_no_bindings (lookup tenant_id m)

-- The loop of `LoadBindings`.
unfoldable pub enabled_only : List Binding → List Binding
enabled_only [] = []
enabled_only (b ∷ bs) = let rest = enabled_only bs in if b.is_enabled then b ∷ rest else rest

unfoldable pub load_bindings : String → List Binding → Matcher → Matcher
load_bindings tenant_id bs m = insert tenant_id (enabled_only bs) m

unfoldable pub remove_tenant : String → Matcher → Matcher
remove_tenant tenant_id m = erase tenant_id m

-- The loop of `UpdateBinding`, which stops at the first binding with the identifier, and the
-- append after it where there is none.
unfoldable pub update_list : Binding → List Binding → List Binding
update_list new [] = if new.is_enabled then new ∷ [] else []
update_list new (b ∷ bs) =
    if str_eq b.id new.id then (if new.is_enabled then new ∷ bs else bs) else b ∷ update_list new bs

unfoldable pub update_binding : Binding → Matcher → Matcher
update_binding new m = insert new.tenant_id (update_list new (bindings_of new.tenant_id m)) m

-- The loop of `RemoveBinding`; `none` where no binding has the identifier.
unfoldable pub remove_first : String → List Binding → Option (List Binding)
remove_first binding_id [] = none
remove_first binding_id (b ∷ bs) =
    if str_eq b.id binding_id
    then some bs
    else elim (remove_first binding_id bs) [ none ↦ none | some rest ↦ some (b ∷ rest) ]

unfoldable pub remove_binding : String → String → Matcher → Matcher
remove_binding tenant_id binding_id m = elim (remove_first binding_id (bindings_of tenant_id m)) [
  | none ↦ m
  | some rest ↦ insert tenant_id rest m
]

pub record MatchResult : Type 0 where
  pub binding : Binding
  pub score : ℕ

unfoldable pub orchid_tenant : Option OrchidMessage → String
orchid_tenant none = ""
orchid_tenant (some o) = o.tenant_id

module _ {F : Type 0} where
  -- The tenant of a message: the header's, or else the parsed message's.
  unfoldable pub tenant_of : ReceivedMessage F → String
  tenant_of msg =
      if str_eq msg.header_tenant_id ""
      then orchid_tenant msg.orchid_message
      else msg.header_tenant_id

-- The loop of `MatchFirst`.
unfoldable pub best_result : MatchResult → List MatchResult → MatchResult
best_result best [] = best
best_result best (r ∷ results) = best_result (if ltb best.score r.score then r else best) results

unfoldable pub first_of : List MatchResult → Option Binding
first_of [] = none
first_of (r ∷ results) = some (best_result r results).binding

module _ {F : Type 0} (truncate : F → ℤ) where
  -- The loop of `Match`.
  unfoldable pub match_all : ReceivedMessage F → List Binding → List MatchResult
  match_all msg [] = []
  match_all msg (b ∷ bs) =
      let rest = match_all msg bs in
      let score = match_binding truncate b msg in
      if ltb 0 score then record { binding = b; score = score } ∷ rest else rest

  unfoldable pub match_message : ReceivedMessage F → Matcher → List MatchResult
  match_message msg m =
      if str_eq (tenant_of msg) "" then [] else match_all msg (bindings_of (tenant_of msg) m)

  unfoldable pub match_first : ReceivedMessage F → Matcher → Option Binding
  match_first msg m = first_of (match_message msg m)

unfoldable pub binding_count : Matcher → ℕ
binding_count [] = 0
binding_count ((tenant_id, bs) ∷ m) = length bs + binding_count m

unfoldable pub tenant_count : Matcher → ℕ
tenant_count m = length m
