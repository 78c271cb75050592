-- ===== src/Ivy/Matching/Rows.antt =====
-- The rows of match fields that IndexEntity of ivy/pkg/matching/service.go makes and replaces.
use meadow.Prelude.{
  ◌≡◌, false, String, some, List, [], ◌∷◌, refl, sym, subst, inl, inr, All, All-map, Any, In,
  if_either, if_split, Option-cases, str_eq,
}
use meadow.Ivy.Matching.Defs.{MatchFieldRow}
use meadow.Ivy.Matching.Indexing.{
  FieldSpec, same_spec, Extraction, delete_rows, with_entity, same_row, has_row, repeats_key,
  row_for, text_under, extract_match_field, extract_rows,
}
use meadow.Ivy.Matching.Specs.{DistinctSpecs}

module _ {F : Type 0} (id : String) where
  abbrev pub owned : MatchFieldRow F → MatchFieldRow F
  owned row = record row { staged_entity_id = id }

  pub with_entity-Any :
      (P : MatchFieldRow F → Type 0) (rows : List (MatchFieldRow F))
      → Any (λ r. P (owned r)) rows
      → Any P (with_entity id rows)
  unfolding with_entity
  with_entity-Any P [] h = absurd h
  with_entity-Any P (r ∷ rows) (inl h) = inl h
  with_entity-Any P (r ∷ rows) (inr i) = inr (with_entity-Any P rows i)

  pub with_entity-All :
      (P : MatchFieldRow F → Type 0) (rows : List (MatchFieldRow F))
      → All (λ r. P (owned r)) rows
      → All P (with_entity id rows)
  unfolding with_entity
  with_entity-All P [] h = tt
  with_entity-All P (r ∷ rows) h = (h.0, with_entity-All P rows h.1)

  pub delete_rows-kept :
      (row : MatchFieldRow F) (rows : List (MatchFieldRow F))
      → str_eq row.staged_entity_id id ≡ false
      → In row rows
      → In row (delete_rows id rows)
  unfolding delete_rows
  delete_rows-kept row [] e i = absurd i
  delete_rows-kept row (r ∷ rows) e (inl same) =
      if_either (In row) (str_eq r.staged_entity_id id) _ _
        (λ g. absurd (cc (g, subst (λ k. str_eq k.staged_entity_id id ≡ false) same e)))
        (λ g. inl same)
  delete_rows-kept row (r ∷ rows) e (inr i) =
      if_either (In row) (str_eq r.staged_entity_id id) _ _ (λ g. delete_rows-kept row rows e i)
        (λ g. inr (delete_rows-kept row rows e i))

  pub delete_rows-origin :
      (row : MatchFieldRow F) (rows : List (MatchFieldRow F))
      → In row (delete_rows id rows)
      → In row rows
  unfolding delete_rows
  delete_rows-origin row [] i = i
  delete_rows-origin row (r ∷ rows) i =
      if_split (str_eq r.staged_entity_id id) _ _ {z = delete_rows id (r ∷ rows)} refl
        (λ e g. inr (delete_rows-origin row rows (subst (In row) (sym g) i)))
        (λ e g. elim (subst (In row) (sym g) i) [
          | inl same ↦ inl same
          | inr j ↦ inr (delete_rows-origin row rows j)
        ])

  pub delete_rows-others :
      (rows : List (MatchFieldRow F))
      → All (λ r. str_eq r.staged_entity_id id ≡ false) (delete_rows id rows)
  unfolding delete_rows
  delete_rows-others [] = tt
  delete_rows-others (r ∷ rows) =
      if_either (All (λ r. str_eq r.staged_entity_id id ≡ false)) (str_eq r.staged_entity_id id) _ _
        (λ e. delete_rows-others rows) (λ e. (e, delete_rows-others rows))

module _ {F D : Type 0} (x : Extraction F D) (json : D) where
  -- What a row made for the specification is like.
  abbrev pub Made : (MatchFieldRow F → Type 0) → FieldSpec → Type 0
  Made P spec =
      (raw : String)
      → text_under x (x.extract_string json spec.field) ≡ some raw
      → P (row_for x spec raw)

  pub extract_rows-All :
      (P : MatchFieldRow F → Type 0) (specs : List FieldSpec)
      → All (Made P) specs
      → All P (extract_rows x json specs)
  unfolding extract_rows extract_match_field
  extract_rows-All P [] h = tt
  extract_rows-All P (spec ∷ specs) h =
      elim (Option-cases (text_under x (x.extract_string json spec.field))) [
        | inl e ↦ rw (e, extract_rows) (extract_rows-All P specs h.1)
        | inr (raw, e) ↦ rw (e, extract_rows) (h.0 raw e, extract_rows-All P specs h.1)
      ]

  pub extract_rows-Any :
      (P : MatchFieldRow F → Type 0) (specs : List FieldSpec)
      → Any
          (λ spec.
            (raw : String) × (text_under x (x.extract_string json spec.field) ≡ some raw)
            × P (row_for x spec raw))
          specs
      → Any P (extract_rows x json specs)
  unfolding extract_rows extract_match_field
  extract_rows-Any P [] h = absurd h
  extract_rows-Any P (spec ∷ specs) (inl (raw, e, p)) = rw (e, extract_rows) (inl p)
  extract_rows-Any P (spec ∷ specs) (inr i) =
      elim (Option-cases (text_under x (x.extract_string json spec.field))) [
        | inl e ↦ rw (e, extract_rows) (extract_rows-Any P specs i)
        | inr (raw, e) ↦ rw (e, extract_rows) (inr (extract_rows-Any P specs i))
      ]

  All-has_row :
      (row : MatchFieldRow F) (rows : List (MatchFieldRow F))
      → All (λ r. same_row row r ≡ false) rows
      → has_row row rows ≡ false
  unfolding has_row
  All-has_row row [] h = refl
  All-has_row row (r ∷ rows) h = rw (h.0) (All-has_row row rows h.1)

  -- Rows of different specifications have different keys.
  pub extract_rows-repeats_key :
      (specs : List FieldSpec)
      → DistinctSpecs specs
      → repeats_key (extract_rows x json specs) ≡ false
  unfolding extract_rows extract_match_field repeats_key
  extract_rows-repeats_key [] d = refl
  extract_rows-repeats_key (spec ∷ specs) d =
      elim (Option-cases (text_under x (x.extract_string json spec.field))) [
        | inl e ↦ rw (e, extract_rows) (extract_rows-repeats_key specs d.1)
        | inr (raw, e) ↦
            (let fresh = All-has_row (row_for x spec raw) (extract_rows x json specs) (
                extract_rows-All (λ r. same_row (row_for x spec raw) r ≡ false) specs
                  (All-map specs (λ t h raw' e'. apart spec t raw raw' h) d.0)) in
              rw (e, extract_rows, repeats_key, fresh) (extract_rows-repeats_key specs d.1))
      ]
    where
      apart :
          (s t : FieldSpec) (r r' : String)
          → same_spec s t ≡ false
          → same_row (row_for x s r) (row_for x t r') ≡ false
      apart s t r r' h = unfold row_for in h
