-- ===== src/Lotus/Binding/Runs.antt =====
-- All states that the operations of the matcher of lotus/pkg/binding/matcher.go lead to.
use meadow.Prelude.{
  ◌≡◌, true, String, none, List, [], ◌∷◌, refl, sym, subst, arith, All, str_eq, eq_iff,
  if◌then◌else◌, if_either, lookup,
}
use meadow.Lotus.Binding.Defs.{Binding}
use meadow.Lotus.Binding.Registry.{
  Matcher, new_matcher, or_no_bindings, bindings_of, enabled_only, load_bindings, remove_tenant,
  update_list, update_binding, remove_binding,
}
use meadow.Lotus.Binding.Upkeep.{
  Unique, WellFormed, find_binding, updated, update_list-All, update_list-Unique,
  find_binding-update_list, enabled_only-All, enabled_only-enabled, enabled_only-Unique,
}
use meadow.Lotus.Binding.Removal.{
  without, without-All, without-Unique, find_binding-without, bindings_of-insert, bindings_of-erase,
  bindings_of-remove_binding,
}

-- The calls that change the matcher.
pub data Operation : Type 0 where
  load : String → List Binding → Operation
  drop_tenant : String → Operation
  update : Binding → Operation
  remove : String → String → Operation

unfoldable pub run : Operation → Matcher → Matcher
run (load tenant bs) m = load_bindings tenant bs m
run (drop_tenant tenant) m = remove_tenant tenant m
run (update b) m = update_binding b m
run (remove tenant id) m = remove_binding tenant id m

unfoldable pub run_all : List Operation → Matcher → Matcher
run_all [] m = m
run_all (op ∷ ops) m = run_all ops (run op m)

-- What is loaded belongs to the tenant and has no identifier twice, as the database promises.
abbrev pub IsProper : Operation → Type 0
IsProper (load tenant bs) = All (λ b. b.tenant_id ≡ tenant) bs × Unique bs
IsProper _ = Unit

empty-WellFormed : (t : String) → WellFormed t []
empty-WellFormed t = record { enabled = tt; owned = tt; unique = tt }

-- The list of a tenant that is replaced, or else the one before.
either-WellFormed :
    (k t : String) (bs cs : List Binding)
    → WellFormed k bs
    → WellFormed t cs
    → WellFormed t (if str_eq k t then bs else cs)
either-WellFormed k t bs cs h g =
    if_either (WellFormed t) (str_eq k t) bs cs
      (λ e. subst (λ u. WellFormed u bs) ((eq_iff k t).0 e) h) (λ e. g)

update_list-WellFormed :
    (new : Binding) (bs : List Binding)
    → WellFormed new.tenant_id bs
    → WellFormed new.tenant_id (update_list new bs)
update_list-WellFormed new bs h = record {
  enabled = update_list-All (λ b. b.is_enabled ≡ true) new bs (λ e. e) h.enabled;
  owned = update_list-All (λ b. b.tenant_id ≡ new.tenant_id) new bs (λ e. refl) h.owned;
  unique = update_list-Unique new bs h.unique;
}

without-WellFormed :
    (t id : String) (bs : List Binding) → WellFormed t bs → WellFormed t (without id bs)
without-WellFormed t id bs h = record {
  enabled = without-All (λ b. b.is_enabled ≡ true) id bs h.enabled;
  owned = without-All (λ b. b.tenant_id ≡ t) id bs h.owned;
  unique = without-Unique id bs h.unique;
}

enabled_only-WellFormed :
    (t : String) (bs : List Binding)
    → All (λ b. b.tenant_id ≡ t) bs
    → Unique bs
    → WellFormed t (enabled_only bs)
enabled_only-WellFormed t bs h g = record {
  enabled = enabled_only-enabled bs;
  owned = enabled_only-All (λ b. b.tenant_id ≡ t) bs h;
  unique = enabled_only-Unique bs g;
}

abbrev pub AllWellFormed : Matcher → Type 0
AllWellFormed m = (t : String) → WellFormed t (bindings_of t m)

run-AllWellFormed :
    (op : Operation) (m : Matcher) → IsProper op → AllWellFormed m → AllWellFormed (run op m)
unfolding run
run-AllWellFormed (load tenant bs) m p h t =
    unfold load_bindings in
    subst (WellFormed t) (sym (bindings_of-insert tenant t (enabled_only bs) m))
      (either-WellFormed tenant t _ _ (enabled_only-WellFormed tenant bs p.0 p.1) (h t))
run-AllWellFormed (drop_tenant tenant) m p h t =
    unfold remove_tenant in
    subst (WellFormed t) (sym (bindings_of-erase tenant t m))
      (either-WellFormed tenant t [] _ (empty-WellFormed tenant) (h t))
run-AllWellFormed (update b) m p h t =
    unfold update_binding in
    subst (WellFormed t) (sym (bindings_of-insert b.tenant_id t _ m))
      (either-WellFormed b.tenant_id t _ _ (update_list-WellFormed b _ (h b.tenant_id)) (h t))
run-AllWellFormed (remove tenant id) m p h t =
    subst (WellFormed t) (sym (bindings_of-remove_binding tenant id t m)) (
      if_either (WellFormed t) (str_eq tenant t) _ _ (λ e. without-WellFormed t id _ (h t))
        (λ e. h t))

run_all-from :
    (ops : List Operation) (m : Matcher)
    → All IsProper ops
    → AllWellFormed m
    → AllWellFormed (run_all ops m)
unfolding run_all
run_all-from [] m p h = h
run_all-from (op ∷ ops) m p h = run_all-from ops (run op m) p.1 (run-AllWellFormed op m p.0 h)

-- Whatever calls are made on a new matcher, in any order: the bindings that it holds for a tenant
-- are enabled, belong to the tenant, and have no identifier twice, if what is loaded belongs to its
-- tenant and has no identifier twice.
pub run_all-WellFormed :
    (ops : List Operation)
    → All IsProper ops
    → (t : String) → WellFormed t (bindings_of t (run_all ops new_matcher))
run_all-WellFormed ops p =
    run_all-from ops new_matcher p
      (λ t. unfold new_matcher bindings_of or_no_bindings lookup in empty-WellFormed t)

-- After an update the tenant has the new binding under its identifier if it is enabled, and none
-- if not; all other identifiers and tenants keep what they had, where the tenant's list was well
-- formed.
pub update_binding-finds :
    (new : Binding) (m : Matcher) (t id : String)
    → WellFormed new.tenant_id (bindings_of new.tenant_id m)
    → find_binding id (bindings_of t (update_binding new m)) ≡ (
        if str_eq new.tenant_id t
        then updated new id (find_binding id (bindings_of t m))
        else find_binding id (bindings_of t m))
unfolding update_binding
update_binding-finds new m t id h = rw bindings_of-insert (
    ground (
      arith,
      find_binding-update_list new (bindings_of new.tenant_id m) id h.unique,
      eq_iff new.tenant_id t,
    ))

-- After a removal the tenant has no binding under the identifier; all others are kept,
-- where the list asked about was well formed.
pub remove_binding-finds :
    (tenant gone : String) (m : Matcher) (t id : String)
    → WellFormed t (bindings_of t m)
    → find_binding id (bindings_of t (remove_binding tenant gone m)) ≡ (
        if str_eq tenant t
        then (if str_eq gone id then none else find_binding id (bindings_of t m))
        else find_binding id (bindings_of t m))
remove_binding-finds tenant gone m t id h =
    rw bindings_of-remove_binding
      (ground (arith, find_binding-without gone id (bindings_of t m) h.unique))
