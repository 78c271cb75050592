-- ===== src/Ivy/Criteria/Split.antt =====
-- `ParseCriteria` against `SplitCriteria`, and the order in which Go's loops meet the entries.
use mathlib.Core.List.{Perm}
use mathlib.Core.HLevel.{hedberg}
use mathlib.Core.Logic.{∥∥₁_elim}
use mathlib.Core.List.{Permᴰ}
use meadow.Prelude.{
  ◌≡◌, Bool, true, false, ◌&&◌, String, none, some, List, [], ◌∷◌, ◌++◌, refl, arith, inl, inr, ◌∙◌,
  ◌⊎◌, Map, IsMap, lookup, insert, insert_of_fresh, lookup-append_single, str_eq, eq_iff,
  Bool-cases,
}
use meadow.Json.{Value, object, Fields, FloatOps, entries}
use meadow.Ivy.Criteria.Defs.{
  Condition, op_equals, entry_conditions, parse_criteria, split_entry, split_from, split_criteria,
  all_match, operator_conditions, matches_criteria, matches_entity_data,
}

module _ {F : Type 0} where
  -- The simple conditions that `SplitCriteria` leaves to the database, as conditions.
  abbrev pub simple_conditions : Map (Value F) → List (Condition F)
  simple_conditions [] = []
  simple_conditions ((field, value) ∷ simple) =
      record { field = field; operator = op_equals; value = value } ∷ simple_conditions simple

  simple_conditions-append :
      (m n : Map (Value F))
      → simple_conditions (m ++ n) ≡ simple_conditions m ++ simple_conditions n
  simple_conditions-append [] n = refl
  simple_conditions-append (e ∷ m) n = cc (simple_conditions-append m n)

module _ {F : Type 0} where
  -- No key of the criteria still to come is among the simple conditions.
  abbrev IsFresh : Map (Value F) → Map (Value F) → Type 0
  IsFresh simple [] = Unit
  IsFresh simple ((field, value) ∷ criteria) =
      (lookup field simple ≡ none) × IsFresh simple criteria

  IsFresh-append :
      (simple criteria : Map (Value F)) (field : String) (value : Value F)
      → lookup field criteria ≡ none
      → IsFresh simple criteria
      → IsFresh (simple ++ (field, value) ∷ []) criteria
  unfolding lookup
  IsFresh-append simple [] field value h fresh = tt
  IsFresh-append simple ((g, w) ∷ criteria) field value h fresh =
      elim (Bool-cases (str_eq g field)) [
        | inl e ↦ absurd (ground (arith, h))
        | inr e ↦ (
          lookup-append_single field g value simple (ground (arith, eq_iff g field, eq_iff field g))
              ∙ fresh.0,
          IsFresh-append simple criteria field value (rw e at h) fresh.1,
        )
      ]

  IsFresh-nil : (criteria : Map (Value F)) → IsFresh [] criteria
  unfolding lookup
  IsFresh-nil [] = tt
  IsFresh-nil ((field, value) ∷ criteria) = (refl, IsFresh-nil criteria)

module _ {F : Type 0} where
  -- The same field with the same value, or with the same operators in another order.
  abbrev pub SameEntry : String × Value F → String × Value F → Type 0
  SameEntry a b =
      (a.0 ≡ b.0)
      × ((a.1 ≡ b.1)
          ⊎ ((ops : Fields F) × (other_ops : Fields F) × (a.1 ≡ object ops)
              × (b.1 ≡ object other_ops)
              × Perm (entries ops) (entries other_ops)))

  -- The same criteria, with the entries and the operators of each in any order.
  pub data Reordered : Map (Value F) → Map (Value F) → Type 0 where
    no_entries : Reordered [] []
    and_entry :
        {a b : String × Value F} {m n : Map (Value F)}
        → SameEntry a b
        → Reordered m n
        → Reordered (a ∷ m) (b ∷ n)
    swapped : {a b : String × Value F} {m : Map (Value F)} → Reordered (a ∷ b ∷ m) (b ∷ a ∷ m)
    in_turn : {l m n : Map (Value F)} → Reordered l m → Reordered m n → Reordered l n

and_true : (b : Bool) → b ≡ (b && true)
and_true true = refl
and_true false = refl

module _ {F : Type 0} (float : FloatOps F) (d : Fields F) where
  all_match-nil : all_match float d [] ≡ true
  unfolding all_match
  all_match-nil = refl

  all_match-append :
      (xs ys : List (Condition F))
      → all_match float d (xs ++ ys) ≡ (all_match float d xs && all_match float d ys)
  unfolding all_match
  all_match-append [] ys = refl
  all_match-append (x ∷ xs) ys = ground (arith, all_match-append xs ys)

  -- Both parts of what `SplitCriteria` has collected hold.
  abbrev pub both_match : Map (Value F) × List (Condition F) → Bool
  both_match (simple, complex) =
      all_match float d (simple_conditions simple) && all_match float d complex

  -- A simple condition joins the first part.
  insert-both_match :
      (field : String) (value : Value F) (simple : Map (Value F)) (complex : List (Condition F))
      → lookup field simple ≡ none
      → both_match (insert field value simple, complex) ≡ (
          both_match (simple, complex)
          && all_match float d (record { field = field; operator = op_equals; value = value } ∷ []))
  insert-both_match field value simple complex h = rw (insert_of_fresh field value simple h) (
      rw simple_conditions-append (
        ground (
          arith,
          all_match-append (simple_conditions simple) (simple_conditions ((field, value) ∷ [])),
        )))

  split_entry-both_match :
      (field : String) (value : Value F) (simple : Map (Value F)) (complex : List (Condition F))
      → lookup field simple ≡ none
      → both_match (split_entry field value (simple, complex))
        ≡ (both_match (simple, complex) && all_match float d (entry_conditions field value))
  unfolding split_entry entry_conditions
  split_entry-both_match field (object ops) simple complex h =
      ground (arith, all_match-append complex (operator_conditions field (entries ops)))
  split_entry-both_match field value simple complex h =
      insert-both_match field value simple complex h

  split_entry-IsFresh :
      (field : String) (value : Value F) (simple : Map (Value F)) (complex : List (Condition F))
      (criteria : Map (Value F))
      → IsMap ((field, value) ∷ criteria)
      → IsFresh simple ((field, value) ∷ criteria)
      → IsFresh (split_entry field value (simple, complex)).0 criteria
  unfolding split_entry
  split_entry-IsFresh field (object ops) simple complex criteria u fresh = fresh.1
  split_entry-IsFresh field value simple complex criteria u fresh =
      rw (insert_of_fresh field value simple fresh.0)
        (IsFresh-append simple criteria field value u.0 fresh.1)

  split_from-both_match :
      (done : Map (Value F) × List (Condition F)) (criteria : Map (Value F))
      → IsMap criteria
      → IsFresh done.0 criteria
      → both_match (split_from done criteria)
        ≡ (both_match done && all_match float d (parse_criteria criteria))
  unfolding split_from parse_criteria
  split_from-both_match done [] u fresh = rw (all_match-nil) (and_true (both_match done))
  split_from-both_match done ((field, value) ∷ criteria) u fresh =
      split_from-both_match (split_entry field value done) criteria u.1
        (split_entry-IsFresh field value done.0 done.1 criteria u fresh)
      ∙ ground (
        arith,
        split_entry-both_match field value done.0 done.1 fresh.0,
        all_match-append (entry_conditions field value) (parse_criteria criteria),
      )

  -- An entity meets the parsed criteria exactly when it meets the simple equalities that
  -- `SplitCriteria` hands to the database and the conditions that it keeps, for criteria with one
  -- entry to a field.
  pub split_criteria_complete :
      (criteria : Map (Value F))
      → IsMap criteria
      → all_match float d (parse_criteria criteria) ≡ (
          all_match float d (simple_conditions (split_criteria criteria).0)
          && all_match float d (split_criteria criteria).1)
  unfolding split_criteria
  split_criteria_complete criteria u =
      ground
        (arith, split_from-both_match ([], []) criteria u (IsFresh-nil criteria), all_match-nil)

  all_match_swap :
      (xs ys zs : List (Condition F))
      → all_match float d (xs ++ (ys ++ zs)) ≡ all_match float d (ys ++ (xs ++ zs))
  all_match_swap xs ys zs = ground (
    arith,
    all_match-append xs (ys ++ zs),
    all_match-append ys zs,
    all_match-append ys (xs ++ zs),
    all_match-append xs zs,
  )

  operator_conditions-permᴰ :
      (field : String) {m n : Map (Value F)}
      → Permᴰ m n
      → all_match float d (operator_conditions field m)
        ≡ all_match float d (operator_conditions field n)
  unfolding operator_conditions all_match
  operator_conditions-permᴰ field Permᴰ.nil = refl
  operator_conditions-permᴰ field (Permᴰ.cons e p) = cc (e, operator_conditions-permᴰ field p)
  operator_conditions-permᴰ field (Permᴰ.swap {a = a} {b = b} {l = l} e f) =
      all_match_swap (record { field = field; operator = a.0; value = a.1 } ∷ [])
        (record { field = field; operator = b.0; value = b.1 } ∷ []) (operator_conditions field l)
      ∙ cc (e, f)
  operator_conditions-permᴰ field (Permᴰ.trans p q) =
      operator_conditions-permᴰ field p ∙ operator_conditions-permᴰ field q

  entry_conditions-SameEntry :
      (a b : String × Value F)
      → SameEntry a b
      → all_match float d (entry_conditions a.0 a.1) ≡ all_match float d (entry_conditions b.0 b.1)
  unfolding entry_conditions
  entry_conditions-SameEntry a b (e, inl v) = cc (e, v)
  entry_conditions-SameEntry a b (e, inr (ops, other_ops, v, w, p)) =
      rw (e, v, w) (∥∥₁_elim p (hedberg (hlevel) _ _) (λ q. operator_conditions-permᴰ b.0 q))

  parse_criteria-Reordered :
      {m n : Map (Value F)}
      → Reordered m n
      → all_match float d (parse_criteria m) ≡ all_match float d (parse_criteria n)
  unfolding parse_criteria
  parse_criteria-Reordered no_entries = refl
  parse_criteria-Reordered (and_entry {a = a} {b = b} {m = m} {n = n} e p) = cc (
    entry_conditions-SameEntry a b e,
    all_match-append (entry_conditions a.0 a.1) (parse_criteria m),
    all_match-append (entry_conditions b.0 b.1) (parse_criteria n),
    parse_criteria-Reordered p,
  )
  parse_criteria-Reordered (swapped {a = a} {b = b} {m = m}) =
      all_match_swap (entry_conditions a.0 a.1) (entry_conditions b.0 b.1) (parse_criteria m)
  parse_criteria-Reordered (in_turn p q) = parse_criteria-Reordered p ∙ parse_criteria-Reordered q

  -- Take criteria with one entry to a field, and the same criteria with the entries, and the operators within
  -- an entry, in any other order, as Go's loops may meet them. An entity whose data is an object meets the ones
  -- exactly when it meets the others, and exactly when it meets the simple equalities and the conditions into
  -- which SplitCriteria divides the others.
  pub matches_criteria-Reordered :
      (m n : Map (Value F))
      → Reordered m n
      → IsMap n
      → (matches_criteria float (some d) m ≡ matches_criteria float (some d) n)
        × (matches_criteria float (some d) m ≡ (
            all_match float d (simple_conditions (split_criteria n).0)
            && all_match float d (split_criteria n).1))
  unfolding matches_criteria matches_entity_data
  matches_criteria-Reordered m n p u =
      (parse_criteria-Reordered p, parse_criteria-Reordered p ∙ split_criteria_complete n u)
