-- ===== src/Ivy/Criteria/Containment.antt =====
-- `BuildJSONBContainment` of ivy/pkg/criteria/criteria.go.
use Prim.Native.Char.{Char, code}
use text.Mathlib.TextPositions.{eq_refl}
use meadow.Prelude.{
  ◌≡◌, ◌≢◌, ◌==◌, true, String, Option, none, some, List, [], ◌∷◌, refl, arith, inl, inr, Map,
  lookup, insert, lookup-insert, eq_iff, if◌then◌else◌, Option-cases, sym, ap, ◌∙◌, subst, All,
  Bool-cases,
}
use meadow.Json.{Value, object, of_entries, entries-of_entries, FloatOps}
use meadow.Ivy.Criteria.Paths.{split, onto_first, child, set_nested}
use meadow.Ivy.Criteria.Nested.{
  IsOpen, get_in, Diverge, get_nested-set_nested_self, get_nested-set_nested_other,
}
use meadow.Ivy.Criteria.Defs.{values_equal, all_match, evaluate_condition, evaluate_found}
use meadow.Ivy.Criteria.Split.{simple_conditions}

module _ {F : Type 0} where
  -- The loop over the simple conditions.
  unfoldable pub build_from : Map (Value F) → Map (Value F) → Map (Value F)
  build_from result [] = result
  build_from result ((field, value) ∷ simple) =
      build_from (set_nested result (split field) value) simple

  -- `BuildJSONBContainment` before the document is marshalled.
  unfoldable pub build_jsonb_containment : Map (Value F) → Option (Map (Value F))
  build_jsonb_containment [] = none
  build_jsonb_containment (entry ∷ simple) = some (build_from [] (entry ∷ simple))

Diverge-sym : (p q : List String) → Diverge p q → Diverge q p
Diverge-sym [] q h = absurd h
Diverge-sym (a ∷ p) [] h = absurd h
Diverge-sym (a ∷ p) (b ∷ q) (inl ne) = inl (λ e. ne (sym e))
Diverge-sym (a ∷ p) (b ∷ q) (inr (e, h)) = inr (sym e, Diverge-sym p q h)

onto_first-ne-nil : (c : Char) (ws : List String) → onto_first c ws ≢ []
unfolding onto_first
onto_first-ne-nil c [] e = cc
onto_first-ne-nil c (w ∷ ws) e = cc

split-ne-nil : (path : String) → split path ≢ []
unfolding split
split-ne-nil String.[] = λ e. cc
split-ne-nil (String.◌∷◌ c s) = elim (Bool-cases (code c == b'.')) [
  | inl h ↦ rw (h, if◌then◌else◌) (λ e. cc)
  | inr h ↦ rw (h, if◌then◌else◌) (onto_first-ne-nil c (split s))
]

IsOpen-nil : (F : Type 0) (p : List String) → p ≢ [] → IsOpen {F = F} [] p
unfolding child lookup
IsOpen-nil F [] h = absurd (h refl)
IsOpen-nil F (a ∷ []) h = tt
IsOpen-nil F (a ∷ b ∷ p) h = ([], refl, IsOpen-nil F (b ∷ p) (λ e. cc))

module _ {F : Type 0} where
  lookup-insert_ne :
      (m : Map (Value F)) {a b : String} (v : Value F)
      → a ≢ b
      → lookup b (insert a v m) ≡ lookup b m
  lookup-insert_ne m {a} {b} v ne = rw lookup-insert (ground (arith, eq_iff a b))

  -- Setting at one path leaves a diverging path open.
  IsOpen-set_nested :
      (m : Map (Value F)) (p q : List String) (v : Value F)
      → Diverge p q
      → IsOpen m q
      → IsOpen (set_nested m p v) q
  unfolding set_nested
  IsOpen-set_nested m [] q v h o = absurd h
  IsOpen-set_nested m (a ∷ p) [] v h o = absurd h
  IsOpen-set_nested m (a ∷ p) (b ∷ []) v h o = tt
  IsOpen-set_nested m (a ∷ []) (b ∷ c ∷ q) v (inl ne) (old, e, o) =
      (old, ap child (lookup-insert_ne m v ne) ∙ e, o)
  IsOpen-set_nested m (a ∷ []) (b ∷ c ∷ q) v (inr h) o = absurd h.1
  IsOpen-set_nested m (a ∷ next ∷ p) (b ∷ c ∷ q) v h (old, e, o) =
      elim (Option-cases (child (lookup a m))) [
        | inl g ↦ rw (g, set_nested) (old, e, o)
        | inr (nested, g) ↦
            rw (g, set_nested)
              (inside h nested g (λ d. IsOpen-set_nested nested (next ∷ p) (c ∷ q) v d))
      ]
    where
      inside :
          Diverge (a ∷ next ∷ p) (b ∷ c ∷ q)
          → (nested : Map (Value F)) → child (lookup a m) ≡ some nested
          → (Diverge (next ∷ p) (c ∷ q)
              → IsOpen nested (c ∷ q)
              → IsOpen (set_nested nested (next ∷ p) v) (c ∷ q))
          → IsOpen (insert a (object (of_entries (set_nested nested (next ∷ p) v))) m) (b ∷ c ∷ q)
      inside (inl ne) nested g ih = (old, ap child (lookup-insert_ne m _ ne) ∙ e, o)
      inside (inr (same, d)) nested g ih =
          let agree : old ≡ nested = cc in
          (
            set_nested nested (next ∷ p) v,
            rw (← same)
                (rw lookup-insert (rw eq_refl (unfold child in ap some (entries-of_entries _)))),
            ih d (subst (λ n. IsOpen n (c ∷ q)) agree o),
          )

  -- No field leads through another.
  abbrev pub Separate : Map (Value F) → Type 0
  Separate [] = Unit
  Separate ((field, value) ∷ simple) =
      All (λ e. Diverge (split field) (split e.0)) simple × Separate simple

  build_from-keeps :
      (m simple : Map (Value F)) (q : List String) (v : Value F)
      → All (λ e. Diverge q (split e.0)) simple
      → get_in m q ≡ some v
      → get_in (build_from m simple) q ≡ some v
  unfolding build_from
  build_from-keeps m [] q v h g = g
  build_from-keeps m ((field, value) ∷ simple) q v h g =
      build_from-keeps (set_nested m (split field) value) simple q v h.1
        (get_nested-set_nested_other m (split field) q value (Diverge-sym q (split field) h.0) ∙ g)

  -- All fields of the simple conditions still to come are open.
  abbrev AllOpen : Map (Value F) → Map (Value F) → Type 0
  AllOpen m simple = All (λ e. IsOpen m (split e.0)) simple

  AllOpen-set :
      (m simple : Map (Value F)) (p : List String) (v : Value F)
      → All (λ e. Diverge p (split e.0)) simple
      → AllOpen m simple
      → AllOpen (set_nested m p v) simple
  AllOpen-set m [] p v d o = tt
  AllOpen-set m ((field, value) ∷ simple) p v d o =
      (IsOpen-set_nested m p (split field) v d.0 o.0, AllOpen-set m simple p v d.1 o.1)

  -- The finished map leads from every field to its value.
  build_from-finds :
      (m simple : Map (Value F))
      → Separate simple
      → AllOpen m simple
      → All (λ e. get_in (build_from m simple) (split e.0) ≡ some e.1) simple
  unfolding build_from
  build_from-finds m [] s o = tt
  build_from-finds m ((field, value) ∷ simple) s o = (
    build_from-keeps (set_nested m (split field) value) simple (split field) value s.0
        (get_nested-set_nested_self m (split field) value o.0),
    build_from-finds (set_nested m (split field) value) simple s.1
        (AllOpen-set m simple (split field) value s.0 o.1),
  )

  AllOpen-nil : (simple : Map (Value F)) → AllOpen [] simple
  AllOpen-nil [] = tt
  AllOpen-nil ((field, value) ∷ simple) =
      (IsOpen-nil F (split field) (split-ne-nil field), AllOpen-nil simple)

module _ {F : Type 0} (float : FloatOps F) where
  values_equal_self : (v : Value F) → values_equal float v v ≡ true
  unfolding values_equal
  values_equal_self v = ground (arith, eq_refl (float.sprint v))

  all_match-simple :
      (m simple : Map (Value F))
      → All (λ e. get_in m (split e.0) ≡ some e.1) simple
      → all_match float (of_entries m) (simple_conditions simple) ≡ true
  unfolding all_match evaluate_condition evaluate_found
  all_match-simple m [] h = refl
  all_match-simple m ((field, value) ∷ simple) h =
      rw h.0 (rw (values_equal_self value) (all_match-simple m simple h.1))

  -- Where no field leads through another, the containment document itself meets every simple
  -- condition that it is built from, whatever its dotted paths share.
  pub build_jsonb_containment-meets :
      (entry : String × Value F) (simple : Map (Value F))
      → Separate (entry ∷ simple)
      → (m : Map (Value F)) × (build_jsonb_containment (entry ∷ simple) ≡ some m)
        × (all_match float (of_entries m) (simple_conditions (entry ∷ simple)) ≡ true)
  unfolding build_jsonb_containment
  build_jsonb_containment-meets entry simple s = (
    build_from [] (entry ∷ simple),
    refl,
    all_match-simple _ (entry ∷ simple)
        (build_from-finds [] (entry ∷ simple) s (AllOpen-nil (entry ∷ simple))),
  )
