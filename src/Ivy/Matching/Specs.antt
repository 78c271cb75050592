-- ===== src/Ivy/Matching/Specs.antt =====
-- The set `fieldSpecs` of IndexEntity in ivy/pkg/matching/service.go.
use meadow.Prelude.{
  ◌≡◌, ◌⊎◌, true, false, some, List, [], ◌∷◌, ◌++◌, refl, sym, subst, inl, inr, arith, All, Any, In,
  if_either, if_split, Option-cases, eq_iff,
}
use meadow.Ivy.Matching.Defs.{type_name, MatchCondition, MatchRule}
use meadow.Ivy.Matching.Indexing.{
  FieldSpec, same_spec, has_spec, Extraction, spec_of, add_specs, collect_specs,
}

-- No two of them have one key.
abbrev pub DistinctSpecs : List FieldSpec → Type 0
DistinctSpecs [] = Unit
DistinctSpecs (s ∷ ss) = All (λ t. same_spec s t ≡ false) ss × DistinctSpecs ss

module _ {A : Type 0} where
  pub Any-left : (P : A → Type 0) (xs ys : List A) → Any P xs → Any P (xs ++ ys)
  Any-left P [] ys h = absurd h
  Any-left P (x ∷ xs) ys (inl h) = inl h
  Any-left P (x ∷ xs) ys (inr i) = inr (Any-left P xs ys i)

  pub Any-right : (P : A → Type 0) (xs ys : List A) → Any P ys → Any P (xs ++ ys)
  Any-right P [] ys h = h
  Any-right P (x ∷ xs) ys h = inr (Any-right P xs ys h)

  pub Any-split : (P : A → Type 0) (xs ys : List A) → Any P (xs ++ ys) → Any P xs ⊎ Any P ys
  Any-split P [] ys h = inr h
  Any-split P (x ∷ xs) ys (inl h) = inl (inl h)
  Any-split P (x ∷ xs) ys (inr i) = elim (Any-split P xs ys i) [
    | inl j ↦ inl (inr j)
    | inr j ↦ inr j
  ]

  pub Any-same : {P Q : A → Type 0} (xs : List A) → ((x : A) → P x → Q x) → Any P xs → Any Q xs
  Any-same [] f h = absurd h
  Any-same (x ∷ xs) f (inl h) = inl (f x h)
  Any-same (x ∷ xs) f (inr i) = inr (Any-same xs f i)

All-append_new :
    (P : FieldSpec → Type 0) (xs : List FieldSpec) (y : FieldSpec)
    → All P xs
    → P y
    → All P (xs ++ y ∷ [])
All-append_new P [] y a h = (h, tt)
All-append_new P (x ∷ xs) y a h = (a.0, All-append_new P xs y a.1 h)

pub same_spec_refl : (s : FieldSpec) → same_spec s s ≡ true
same_spec_refl s = ground (
  arith,
  eq_iff s.field s.field,
  eq_iff (type_name s.match_type) (type_name s.match_type),
  eq_iff s.normalizer s.normalizer,
)

has_spec-Any :
    (s : FieldSpec) (ss : List FieldSpec)
    → has_spec s ss ≡ true
    → Any (λ t. same_spec t s ≡ true) ss
unfolding has_spec
has_spec-Any s [] h = absurd (cc h)
has_spec-Any s (t ∷ ts) h =
    if_split (same_spec t s) _ _ h (λ e g. inl e) (λ e g. inr (has_spec-Any s ts g))

append-DistinctSpecs :
    (s : FieldSpec) (ss : List FieldSpec)
    → has_spec s ss ≡ false
    → DistinctSpecs ss
    → DistinctSpecs (ss ++ s ∷ [])
unfolding has_spec
append-DistinctSpecs s [] h d = (tt, tt)
append-DistinctSpecs s (t ∷ ts) h d =
    if_split (same_spec t s) _ _ h (λ e g. absurd (cc g))
      (λ e g.
        (All-append_new (λ u. same_spec t u ≡ false) ts s d.0 e, append-DistinctSpecs s ts g d.1))

module _ {F : Type 0} where
  add_specs-Any :
      (P : FieldSpec → Type 0) (conds : List (MatchCondition F)) (specs : List FieldSpec)
      → Any P specs
      → Any P (add_specs conds specs)
  unfolding add_specs
  add_specs-Any P [] specs h = h
  add_specs-Any P (cond ∷ conds) specs h = add_specs-Any P conds _ (
      if_either (Any P) (has_spec (spec_of cond) specs) _ _ (λ e. h)
        (λ e. Any-left P specs (spec_of cond ∷ []) h))

  add_specs-All :
      (P : FieldSpec → Type 0) (conds : List (MatchCondition F)) (specs : List FieldSpec)
      → All P specs
      → ((cond : MatchCondition F) → In cond conds → P (spec_of cond))
      → All P (add_specs conds specs)
  unfolding add_specs
  add_specs-All P [] specs h g = h
  add_specs-All P (cond ∷ conds) specs h g =
      add_specs-All P conds _
        (if_either (All P) (has_spec (spec_of cond) specs) _ _ (λ e. h)
          (λ e. All-append_new P specs (spec_of cond) h (g cond (inl refl))))
        (λ c i. g c (inr i))

  add_specs-has :
      (cond : MatchCondition F) (conds : List (MatchCondition F)) (specs : List FieldSpec)
      → In cond conds
      → Any (λ t. same_spec t (spec_of cond) ≡ true) (add_specs conds specs)
  unfolding add_specs
  add_specs-has cond [] specs i = absurd i
  add_specs-has cond (c ∷ conds) specs (inl e) =
      subst (λ k. Any (λ t. same_spec t (spec_of k) ≡ true) (add_specs (c ∷ conds) specs)) (sym e)
        (add_specs-Any (λ t. same_spec t (spec_of c) ≡ true) conds _
          (if_either (Any (λ t. same_spec t (spec_of c) ≡ true)) (has_spec (spec_of c) specs) _ _
            (λ g. has_spec-Any (spec_of c) specs g)
            (λ g.
              Any-right (λ t. same_spec t (spec_of c) ≡ true) specs (spec_of c ∷ [])
                (inl (same_spec_refl (spec_of c))))))
  add_specs-has cond (c ∷ conds) specs (inr i) = add_specs-has cond conds _ i

  add_specs-DistinctSpecs :
      (conds : List (MatchCondition F)) (specs : List FieldSpec)
      → DistinctSpecs specs
      → DistinctSpecs (add_specs conds specs)
  unfolding add_specs
  add_specs-DistinctSpecs [] specs d = d
  add_specs-DistinctSpecs (cond ∷ conds) specs d = add_specs-DistinctSpecs conds _ (
      if_either DistinctSpecs (has_spec (spec_of cond) specs) _ _ (λ e. d)
        (λ e. append-DistinctSpecs (spec_of cond) specs e d))

module _ {F D : Type 0} (x : Extraction F D) where
  -- A condition of a rule whose conditions parse.
  abbrev pub IsAsked : MatchCondition F → List (MatchRule F) → Type 0
  IsAsked cond rules =
      Any
        (λ rule.
          (conds : List (MatchCondition F)) × (x.parse_conditions rule.conditions ≡ some conds)
          × In cond conds)
        rules

  collect_specs-Any :
      (P : FieldSpec → Type 0) (rules : List (MatchRule F)) (specs : List FieldSpec)
      → Any P specs
      → Any P (collect_specs x rules specs)
  unfolding collect_specs
  collect_specs-Any P [] specs h = h
  collect_specs-Any P (rule ∷ rules) specs h =
      elim (Option-cases (x.parse_conditions rule.conditions)) [
        | inl e ↦ rw (e, collect_specs) (collect_specs-Any P rules specs h)
        | inr (conds, e) ↦
            rw (e, collect_specs) (collect_specs-Any P rules _ (add_specs-Any P conds specs h))
      ]

  pub collect_specs-All :
      (P : FieldSpec → Type 0) (rules : List (MatchRule F)) (specs : List FieldSpec)
      → All P specs
      → ((cond : MatchCondition F) → IsAsked cond rules → P (spec_of cond))
      → All P (collect_specs x rules specs)
  unfolding collect_specs
  collect_specs-All P [] specs h g = h
  collect_specs-All P (rule ∷ rules) specs h g =
      elim (Option-cases (x.parse_conditions rule.conditions)) [
        | inl e ↦ rw (e, collect_specs) (collect_specs-All P rules specs h (λ c i. g c (inr i)))
        | inr (conds, e) ↦
            rw (e, collect_specs)
              (collect_specs-All P rules _
                (add_specs-All P conds specs h (λ c i. g c (inl (conds, e, i))))
                (λ c i. g c (inr i)))
      ]

  pub collect_specs-has :
      (cond : MatchCondition F) (rules : List (MatchRule F)) (specs : List FieldSpec)
      → IsAsked cond rules
      → Any (λ t. same_spec t (spec_of cond) ≡ true) (collect_specs x rules specs)
  unfolding collect_specs
  collect_specs-has cond [] specs h = absurd h
  collect_specs-has cond (rule ∷ rules) specs (inl (conds, e, i)) =
      rw (e, collect_specs)
        (collect_specs-Any (λ t. same_spec t (spec_of cond) ≡ true) rules _
          (add_specs-has cond conds specs i))
  collect_specs-has cond (rule ∷ rules) specs (inr i) =
      elim (Option-cases (x.parse_conditions rule.conditions)) [
        | inl e ↦ rw (e, collect_specs) (collect_specs-has cond rules specs i)
        | inr (conds, e) ↦ rw (e, collect_specs) (collect_specs-has cond rules _ i)
      ]

  pub collect_specs-DistinctSpecs :
      (rules : List (MatchRule F)) (specs : List FieldSpec)
      → DistinctSpecs specs
      → DistinctSpecs (collect_specs x rules specs)
  unfolding collect_specs
  collect_specs-DistinctSpecs [] specs d = d
  collect_specs-DistinctSpecs (rule ∷ rules) specs d =
      elim (Option-cases (x.parse_conditions rule.conditions)) [
        | inl e ↦ rw (e, collect_specs) (collect_specs-DistinctSpecs rules specs d)
        | inr (conds, e) ↦
            rw (e, collect_specs)
              (collect_specs-DistinctSpecs rules _ (add_specs-DistinctSpecs conds specs d))
      ]
