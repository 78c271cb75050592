-- ===== src/Ivy/Criteria/Nested.antt =====
-- `getNestedValue` after `setNestedValue` of ivy/pkg/criteria/criteria.go.
use text.Mathlib.TextPositions.{eq_refl}
use meadow.Prelude.{
  ◌≡◌, ◌≢◌, ◌⊎◌, String, Option, none, some, List, [], ◌∷◌, refl, arith, inl, inr, Map, lookup,
  insert, lookup-insert, str_eq, eq_iff, if◌then◌else◌, subst, Option-cases, sym, ap, ◌∙◌,
}
use meadow.Json.{Value, object, entries, of_entries, entries-of_entries, of_entries-entries}
use meadow.Ivy.Criteria.Paths.{get_nested, child, set_nested}

-- The paths part at some point: neither leads through the other.
abbrev pub Diverge : List String → List String → Type 0
Diverge [] q = ⊥
Diverge (a ∷ p) [] = ⊥
Diverge (a ∷ p) (b ∷ q) = (a ≢ b) ⊎ ((a ≡ b) × Diverge p q)

module _ {F : Type 0} where
  -- Every part of the path but the last is missing from the map, or leads to a map.
  abbrev pub IsOpen : Map (Value F) → List String → Type 0
  IsOpen m [] = ⊥
  IsOpen m (key ∷ []) = Unit
  IsOpen m (key ∷ next ∷ path) =
      (nested : Map (Value F)) × (child (lookup key m) ≡ some nested) × IsOpen nested (next ∷ path)

  -- What a path leads to in the map.
  abbrev pub get_in : Map (Value F) → List String → Option (Value F)
  get_in m path = get_nested (object (of_entries m)) path

  follow : Option (Value F) → List String → Option (Value F)
  follow none path = none
  follow (some v) path = get_nested v path

  get_in-cons :
      (m : Map (Value F)) (key : String) (path : List String)
      → get_in m (key ∷ path) ≡ follow (lookup key m) path
  unfolding get_nested follow
  get_in-cons m key path = rw (entries-of_entries, get_nested) (ground arith)

  follow-insert :
      (m : Map (Value F)) (key j : String) (v : Value F) (path : List String)
      → get_in (insert key v m) (j ∷ path)
        ≡ (if str_eq key j then get_nested v path else get_in m (j ∷ path))
  unfolding follow
  follow-insert m key j v path =
      rw get_in-cons (rw (get_in-cons m) (rw lookup-insert (ground arith)))

  -- A value that is set is found again.
  pub get_nested-set_nested_self :
      (m : Map (Value F)) (path : List String) (v : Value F)
      → IsOpen m path
      → get_in (set_nested m path v) path ≡ some v
  unfolding set_nested
  get_nested-set_nested_self m [] v h = absurd h
  get_nested-set_nested_self m (key ∷ []) v h =
      rw follow-insert (rw eq_refl (unfold get_nested in refl))
  get_nested-set_nested_self m (key ∷ next ∷ path) v (nested, e, o) =
      rw (e, set_nested)
        (rw follow-insert (rw eq_refl (get_nested-set_nested_self nested (next ∷ path) v o)))

  get_in-insert_ne :
      (m : Map (Value F)) {a b : String} (v : Value F) (q : List String)
      → a ≢ b
      → get_in (insert a v m) (b ∷ q) ≡ get_in m (b ∷ q)
  get_in-insert_ne m {a} {b} v q ne = follow-insert m a b v q ∙ ground (arith, eq_iff a b)

  -- What the map to descend into holds under a path is what the value holds there.
  get_in-child :
      (o : Option (Value F)) (nested : Map (Value F)) (b : String) (q : List String)
      → child o ≡ some nested
      → get_in nested (b ∷ q) ≡ follow o (b ∷ q)
  unfolding child follow
  get_in-child none nested b q h =
      let e : [] ≡ nested = cc in
      subst (λ m. get_in m (b ∷ q) ≡ none) e (get_in-cons [] b q ∙ (unfold lookup follow in refl))
  get_in-child (some (object fs)) nested b q h =
      let e : entries fs ≡ nested = cc in
      subst (λ m. get_in m (b ∷ q) ≡ get_nested (object fs) (b ∷ q)) e
        (ap (λ t. get_nested (object t) (b ∷ q)) (of_entries-entries fs))
  get_in-child (some _) nested b q h = cc

  -- Setting at one path leaves what a diverging path leads to, also where nothing can be set.
  pub get_nested-set_nested_other :
      (m : Map (Value F)) (p q : List String) (v : Value F)
      → Diverge p q
      → get_in (set_nested m p v) q ≡ get_in m q
  unfolding set_nested
  get_nested-set_nested_other m [] q v h = absurd h
  get_nested-set_nested_other m (a ∷ []) [] v h = absurd h
  get_nested-set_nested_other m (a ∷ []) (b ∷ q) v (inl ne) = get_in-insert_ne m v q ne
  get_nested-set_nested_other m (a ∷ []) (b ∷ q) v (inr e) = absurd e.1
  get_nested-set_nested_other m (a ∷ next ∷ p) [] v h = absurd h
  get_nested-set_nested_other m (a ∷ next ∷ p) (b ∷ q) v h =
      elim (Option-cases (child (lookup a m))) [
        | inl e ↦ rw (e, set_nested)
        | inr (nested, e) ↦
            rw (e, set_nested)
              (inside h nested e (get_nested-set_nested_other nested (next ∷ p) q v))
      ]
    where
      below :
          (r : List String) (w : Value F)
          → Diverge (next ∷ p) r
          → (nested : Map (Value F)) → child (lookup a m) ≡ some nested
          → get_nested w r ≡ get_in nested r
          → get_nested w r ≡ follow (lookup a m) r
      below [] w d nested e same = absurd d
      below (c ∷ r) w d nested e same = same ∙ get_in-child (lookup a m) nested c r e

      inside :
          Diverge (a ∷ next ∷ p) (b ∷ q)
          → (nested : Map (Value F)) → child (lookup a m) ≡ some nested
          → (Diverge (next ∷ p) q → get_in (set_nested nested (next ∷ p) v) q ≡ get_in nested q)
          → get_in (insert a (object (of_entries (set_nested nested (next ∷ p) v))) m) (b ∷ q)
            ≡ get_in m (b ∷ q)
      inside (inl ne) nested e ih = get_in-insert_ne m _ q ne
      inside (inr (same, d)) nested e ih =
          subst
            (λ c.
              get_in (insert a (object (of_entries (set_nested nested (next ∷ p) v))) m) (c ∷ q)
              ≡ get_in m (c ∷ q))
            same
            (follow-insert m a a _ q
              ∙ rw eq_refl (below q _ d nested e (ih d) ∙ sym (get_in-cons m a q)))
