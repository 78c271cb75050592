-- ===== src/Ivy/Merging/Fields/Lengths.antt =====
-- The strategies `longest` and `shortest` of ivy/pkg/merging/field_merger.go.
use Prim.Native.String.{len}
use meadow.Prelude.{
  ℕ, ◌≡◌, ◌⊎◌, ◌≤◌, ◌<◌, true, String, none, some, List, [], ◌∷◌, refl, arith, inl, inr, Any, All,
  Map, ltb, sym, subst, Bool-cases, ◌&&◌,
}
use meadow.Prelude.Int.{ℤ}
use meadow.Prelude.Sorting.{SortSlice}
use meadow.Json.{Value, null, FloatOps}
use meadow.Ivy.Merging.Fields.Defs.{
  FieldValue, FieldMergeStrategy, longest, shortest, longest_from, choose_longest, shortest_from,
  choose_shortest, key,
}
use meadow.Ivy.Merging.Fields.Merge.{merge_values, apply_strategy}

module _ {F : Type 0} (float : FloatOps F) where
  -- The length of the value's text.
  abbrev pub size : Value F → ℕ
  size v = len (key float v)

  abbrev pub HasValue : Value F → FieldValue F → Type 0
  HasValue r v = v.value ≡ r

  abbrev pub IsLongest : Value F → List (FieldValue F) → Value F → Type 0
  IsLongest v values r =
      ((v ≡ r) ⊎ Any (HasValue r) values)
      × (size v ≤ size r)
      × All (λ u. size u.value ≤ size r) values

  -- The loop of `longest` from a value whose length is known.
  pub longest_from-some :
      (v : Value F) (values : List (FieldValue F))
      → (r : Value F) × (longest_from float (some (size v)) v values ≡ r) × IsLongest v values r
  unfolding longest_from
  longest_from-some v [] = (v, refl, (inl refl, omega arith, tt))
  longest_from-some v (w ∷ values) = elim (Bool-cases (ltb (size v) (size w.value))) [
    | inl e ↦
        let (r, q, (i, h, g)) = longest_from-some w.value values in
        (r, rw e q, (inr i, ground (arith, h), (h, g)))
    | inr e ↦
        let (r, q, (i, h, g)) = longest_from-some v values in
        (r, rw e q, (elim i [ inl x ↦ inl x | inr x ↦ inr (inr x) ], h, (ground (arith, h), g)))
  ]

  abbrev pub NotShorter : Value F → List (FieldValue F) → Type 0
  NotShorter r values = All (λ u. (0 < size u.value) → size r ≤ size u.value) values

  abbrev pub IsShortest : Value F → List (FieldValue F) → Value F → Type 0
  IsShortest v values r =
      ((v ≡ r) ⊎ Any (HasValue r) values) × (0 < size r) × (size r ≤ size v) × NotShorter r values

  -- The loop of `shortest` from a value whose length is known.
  shortest_from-some :
      (v : Value F) (values : List (FieldValue F))
      → 0 < size v
      → (r : Value F) × (shortest_from float (some (size v)) v values ≡ r) × IsShortest v values r
  unfolding shortest_from
  shortest_from-some v [] p = (v, refl, (inl refl, p, omega arith, tt))
  shortest_from-some v (w ∷ values) p =
      elim (Bool-cases (ltb 0 (size w.value) && ltb (size w.value) (size v))) [
        | inl e ↦
            let (r, q, (i, z, h, g)) = shortest_from-some w.value values (ground arith) in
            (r, rw e q, (inr i, z, ground (arith, h), (λ q. h, g)))
        | inr e ↦
            let (r, q, (i, z, h, g)) = shortest_from-some v values p in
            (
              r,
              rw e q,
              (elim i [ inl x ↦ inl x | inr x ↦ inr (inr x) ], z, h, (λ q. ground (arith, h), g)),
            )
      ]

  -- The loop of `shortest` while no value has a text.
  pub shortest_from-none :
      (values : List (FieldValue F))
      → (r : Value F) × (shortest_from float none null values ≡ r)
        × (((r ≡ null) × All (λ u. size u.value ≡ 0) values)
            ⊎ (Any (HasValue r) values × (0 < size r) × NotShorter r values))
  unfolding shortest_from
  shortest_from-none [] = (null, refl, inl (refl, tt))
  shortest_from-none (w ∷ values) = elim (Bool-cases (ltb 0 (size w.value) && true)) [
    | inl e ↦
        let (r, q, (i, z, h, g)) = shortest_from-some w.value values (ground arith) in
        (r, rw e q, inr (i, z, (λ q. h, g)))
    | inr e ↦
        let (r, q, c) = shortest_from-none values in
        (
          r,
          rw e q,
          elim c [
            | inl (x, h) ↦ inl (x, (ground arith, h))
            | inr (i, z, g) ↦ inr (inr i, z, (λ q. absurd (ground arith), g))
          ],
        )
  ]

module _ {F : Type 0} (float : FloatOps F) (sort_slice : SortSlice (FieldValue F)) where
  -- `longest` merges to a collected value whose text no collected value's text exceeds in length.
  pub merge_values-longest :
      (field : String) (s : FieldMergeStrategy) (priorities : Map ℤ) (v : FieldValue F)
      (values : List (FieldValue F))
      → s.strategy ≡ longest
      → let result = (merge_values float sort_slice field s priorities (v ∷ values)).0 in
        Any (HasValue float result) (v ∷ values)
        × All (λ u. size float u.value ≤ size float result) (v ∷ values)
  unfolding merge_values
  merge_values-longest field s priorities v [] e = (inl refl, (omega arith, tt))
  merge_values-longest field s priorities v (w ∷ values) e =
      let (r, q, (i, h, g)) = longest_from-some float v.value (w ∷ values) in
      let merges : apply_strategy float sort_slice s priorities s.strategy (v ∷ w ∷ values) ≡ r =
        rw e (unfold apply_strategy choose_longest longest_from in q) in
      subst
        (λ t.
          Any (HasValue float t) (v ∷ w ∷ values)
          × All (λ u. size float u.value ≤ size float t) (v ∷ w ∷ values))
        (sym merges) (i, (h, g))

  -- `shortest` over several values merges to a collected value with a text, no longer than any
  -- text that is not empty; if all texts are empty, it merges to nil, whatever was collected.
  pub merge_values-shortest :
      (field : String) (s : FieldMergeStrategy) (priorities : Map ℤ) (v w : FieldValue F)
      (values : List (FieldValue F))
      → s.strategy ≡ shortest
      → let result = (merge_values float sort_slice field s priorities (v ∷ w ∷ values)).0 in
        ((result ≡ null) × All (λ u. size float u.value ≡ 0) (v ∷ w ∷ values))
        ⊎ (Any (HasValue float result) (v ∷ w ∷ values)
            × (0 < size float result)
            × All
                (λ u. (0 < size float u.value) → size float result ≤ size float u.value)
                (v ∷ w ∷ values))
  unfolding merge_values
  merge_values-shortest field s priorities v w values e =
      let (r, q, c) = shortest_from-none float (v ∷ w ∷ values) in
      let merges : apply_strategy float sort_slice s priorities s.strategy (v ∷ w ∷ values) ≡ r =
        rw e (unfold apply_strategy choose_shortest in q) in
      subst
        (λ t.
          ((t ≡ null) × All (λ u. size float u.value ≡ 0) (v ∷ w ∷ values))
          ⊎ (Any (HasValue float t) (v ∷ w ∷ values)
              × (0 < size float t)
              × NotShorter float t (v ∷ w ∷ values)))
        (sym merges) c
