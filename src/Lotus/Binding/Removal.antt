-- ===== src/Lotus/Binding/Removal.antt =====
-- `RemoveBinding` of lotus/pkg/binding/matcher.go, and the bindings of a tenant after a change of the map.
use meadow.Prelude.{
  ◌≡◌, ◌⊎◌, false, String, none, some, List, [], ◌∷◌, refl, sym, ap, ◌∙◌, subst, inl, inr, arith,
  All, str_eq, eq_iff, if◌then◌else◌, Bool-cases, if_either, if_true, if_false, insert, erase,
  lookup-insert, lookup-erase,
}
use meadow.Lotus.Binding.Defs.{Binding}
use meadow.Lotus.Binding.Registry.{
  Matcher, or_no_bindings, bindings_of, remove_first, remove_binding,
}
use meadow.Lotus.Binding.Upkeep.{Unique, find_binding, find_binding-none}

-- The list without the first binding of that identifier.
abbrev pub without : String → List Binding → List Binding
without id [] = []
without id (b ∷ bs) = if str_eq b.id id then bs else b ∷ without id bs

remove_first-without :
    (id : String) (bs : List Binding)
    → ((remove_first id bs ≡ none) × (without id bs ≡ bs))
      ⊎ (remove_first id bs ≡ some (without id bs))
unfolding remove_first
remove_first-without id [] = inl (refl, refl)
remove_first-without id (b ∷ bs) = elim (Bool-cases (str_eq b.id id)) [
  | inl e ↦ inr (if_true _ _ e ∙ ap some (sym (if_true _ _ e)))
  | inr e ↦ elim (remove_first-without id bs) [
    | inl (g, k) ↦ inl (if_false _ _ e ∙ rw g, if_false _ _ e ∙ ap (λ t. b ∷ t) k)
    | inr g ↦ inr (if_false _ _ e ∙ rw g (ap some (sym (if_false _ _ e))))
  ]
]

pub without-All :
    (P : Binding → Type 0) (id : String) (bs : List Binding) → All P bs → All P (without id bs)
without-All P id [] h = tt
without-All P id (b ∷ bs) h =
    if_either (All P) (str_eq b.id id) bs (b ∷ without id bs) (λ e. h.1)
      (λ e. (h.0, without-All P id bs h.1))

pub without-Unique : (id : String) (bs : List Binding) → Unique bs → Unique (without id bs)
without-Unique id [] h = tt
without-Unique id (b ∷ bs) h =
    if_either Unique (str_eq b.id id) bs (b ∷ without id bs) (λ e. h.1)
      (λ e. (without-All (λ c. str_eq c.id b.id ≡ false) id bs h.0, without-Unique id bs h.1))

pub find_binding-without :
    (gone id : String) (bs : List Binding)
    → Unique bs
    → find_binding id (without gone bs) ≡ (if str_eq gone id then none else find_binding id bs)
find_binding-without gone id [] h = ground arith
find_binding-without gone id (b ∷ bs) h =
    if_either (λ t. find_binding id t ≡ (if str_eq gone id then none else find_binding id (b ∷ bs)))
      (str_eq b.id gone) bs (b ∷ without gone bs) (λ e. first ((eq_iff b.id gone).0 e))
      (λ e. ground (
        arith,
        find_binding-without gone id bs h.1,
        eq_iff b.id id,
        eq_iff gone id,
        eq_iff b.id gone,
      ))
  where
    first :
        b.id ≡ gone
        → find_binding id bs ≡ (if str_eq gone id then none else find_binding id (b ∷ bs))
    first same = elim (Bool-cases (str_eq b.id id)) [
      | inl e ↦
          find_binding-none id bs
            (subst (λ i. All (λ c. str_eq c.id i ≡ false) bs) ((eq_iff b.id id).0 e) h.0)
          ∙ ground (arith, eq_iff b.id id)
      | inr e ↦ ground arith
    ]

pub bindings_of-insert :
    (k t : String) (bs : List Binding) (m : Matcher)
    → bindings_of t (insert k bs m) ≡ (if str_eq k t then bs else bindings_of t m)
unfolding bindings_of or_no_bindings
bindings_of-insert k t bs m = rw lookup-insert (ground arith)

pub bindings_of-erase :
    (k t : String) (m : Matcher)
    → bindings_of t (erase k m) ≡ (if str_eq k t then [] else bindings_of t m)
unfolding bindings_of or_no_bindings
bindings_of-erase k t m = rw lookup-erase (ground arith)

-- `RemoveBinding` takes the binding out of the tenant's list, and leaves the other lists.
pub bindings_of-remove_binding :
    (tenant id t : String) (m : Matcher)
    → bindings_of t (remove_binding tenant id m)
      ≡ (if str_eq tenant t then without id (bindings_of t m) else bindings_of t m)
unfolding remove_binding
bindings_of-remove_binding tenant id t m = elim (remove_first-without id (bindings_of tenant m)) [
  | inl (e, g) ↦ rw (e, remove_binding) (ground (arith, g, eq_iff tenant t))
  | inr e ↦
      rw (e, remove_binding)
        (bindings_of-insert tenant t (without id (bindings_of tenant m)) m
          ∙ ground (arith, eq_iff tenant t))
]
