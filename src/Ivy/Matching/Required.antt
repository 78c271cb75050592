-- ===== src/Ivy/Matching/Required.antt =====
-- Required conditions in scoreRule of ivy/pkg/matching/service.go are hard gates.
use meadow.Prelude.{
  ◌≡◌, ◌↔◌, Bool, true, false, String, Option, none, some, refl, inr, arith, str_eq, eq_iff,
  if_split, Map, lookup,
}
use meadow.Ivy.Matching.Defs.{
  ScoreOps, at_least, MatchRuleType, exact, fuzzy, phonetic, numeric, date_range, other,
  MatchCondition, MatchFieldRow, condition_key, fuzzy_key, FuzzySims, find_sims, has_value, is_some,
  effective_threshold, inverted, text_of, token_of,
}
use meadow.Ivy.Matching.Scoring.{
  Tally, score_missing_source, score_missing_candidate, score_match, score_texts, similarity_of,
  score_fuzzy, score_present, score_rows,
}
use meadow.Ivy.Matching.NoMerge.{SameText, Differ, IsCompared, inverted_iff}

SameText-iff : (a b : String) → (str_eq a b ≡ true) ↔ SameText (some a) (some b)
SameText-iff a b =
    (λ h. (a, refl, ground (arith, eq_iff a b)), λ (t, e, g). ground (arith, eq_iff a b))

at_least_iff :
    {F : Type 0} (ops : ScoreOps F) (a b : F) → (at_least ops a b ≡ true) ↔ (ops.lt a b ≡ false)
at_least_iff ops a b = (λ h. ground arith, λ h. ground arith)

module _ {F : Type 0} (ops : ScoreOps F) (source cand : Map (MatchFieldRow F)) (sims : FuzzySims F)
    (cand_id : String) where
  -- What a condition compares holds: the same text, the same token, or enough similarity to the text
  -- of the source.
  abbrev pub Holds :
      MatchRuleType
      → MatchCondition F
      → Option (MatchFieldRow F)
      → Option (MatchFieldRow F)
      → Type 0
  Holds exact cond s c = SameText (text_of s) (text_of c)
  Holds phonetic cond s c = SameText (token_of s) (token_of c)
  Holds fuzzy cond s c =
      ((value : String) × (text_of s ≡ some value))
      × (ops.lt (similarity_of ops source cand sims cand_id (find_sims (fuzzy_key cond) sims))
            (effective_threshold ops cond.threshold)
          ≡ false)
  Holds _ cond s c = Unit

  abbrev pub Meets : MatchCondition F → Type 0
  Meets cond = Differ cond.invert (
      Holds cond.match_type cond (lookup (condition_key cond) source)
        (lookup (condition_key cond) cand))

  module _ (cond : MatchCondition F) (required : cond.required ≡ true) where
    missing_source-invert :
        (t : Tally F) {t' : Tally F}
        → score_missing_source ops source cand sims cand_id cond t ≡ some t'
        → cond.invert ≡ true
    unfolding score_missing_source
    missing_source-invert t h = ground arith

    missing_candidate-invert :
        (kind : String) (t : Tally F) {t' : Tally F}
        → score_missing_candidate ops source cand sims cand_id kind cond t ≡ some t'
        → cond.invert ≡ true
    unfolding score_missing_candidate
    missing_candidate-invert kind t h = ground arith

    score_match-matched :
        (kind : String) (matched : Bool) (t : Tally F) {t' : Tally F}
        → score_match ops source cand sims cand_id kind matched cond t ≡ some t'
        → matched ≡ true
    unfolding score_match
    score_match-matched kind matched t h = ground arith

    score_texts-Differ :
        (kind : String) (a b : Option String) (t : Tally F) {t' : Tally F}
        → score_texts ops source cand sims cand_id kind cond a b t ≡ some t'
        → Differ cond.invert (SameText a b)
    unfolding score_texts
    score_texts-Differ kind (some a) (some b) t h =
        (inverted_iff cond.invert (str_eq a b) (SameText-iff a b)).0
          (score_match-matched kind _ t h)
    score_texts-Differ kind none b t h = inr (missing_candidate-invert kind t h, λ (x, e, g). cc)
    score_texts-Differ kind (some a) none t h =
        inr (missing_candidate-invert kind t h, λ (x, e, g). cc)

    score_fuzzy-pass :
        (sim threshold : F) (t : Tally F) {t' : Tally F}
        → score_fuzzy ops source cand sims cand_id cond sim threshold t ≡ some t'
        → inverted cond.invert (at_least ops sim threshold) ≡ true
    unfolding score_fuzzy
    score_fuzzy-pass sim threshold t h = ground arith

    score_present-Differ :
        (type : MatchRuleType) (src : MatchFieldRow F) (c : Option (MatchFieldRow F)) (t : Tally F)
        {t' : Tally F}
        → IsCompared type
        → has_value src type ≡ true
        → score_present ops source cand sims cand_id type cond src c t ≡ some t'
        → Differ cond.invert (Holds type cond (some src) c)
    unfolding score_present has_value
    score_present-Differ exact src c t k v h =
        score_texts-Differ "exact" src.value_text (text_of c) t h
    score_present-Differ phonetic src c t k v h =
        score_texts-Differ "phonetic" src.token (token_of c) t h
    score_present-Differ fuzzy src c t k v h =
        (inverted_iff cond.invert _ (known (at_least_iff ops _ _) src.value_text v)).0
          (score_fuzzy-pass _ _ t h)
      where
        known :
            {b : Bool} {P : Type 0}
            → (b ≡ true) ↔ P
            → (o : Option String) → is_some o ≡ true
            → (b ≡ true) ↔ (((value : String) × (o ≡ some value)) × P)
        known e none v = absurd (cc v)
        known e (some x) v = (λ h. ((x, refl), e.0 h), λ h. e.1 h.1)
    score_present-Differ numeric src c t k v h = absurd k
    score_present-Differ date_range src c t k v h = absurd k
    score_present-Differ (other name) src c t k v h = absurd k

    without_value :
        (type : MatchRuleType) (src : MatchFieldRow F) (c : Option (MatchFieldRow F))
        → IsCompared type
        → has_value src type ≡ false
        → ¬ Holds type cond (some src) c
    unfolding has_value
    without_value exact src c k v (x, e, g) = ground arith
    without_value phonetic src c k v (x, e, g) = ground arith
    without_value fuzzy src c k v ((x, e), g) = ground arith
    without_value numeric src c k v h = absurd k
    without_value date_range src c k v h = absurd k
    without_value (other name) src c k v h = absurd k

    without_row :
        (type : MatchRuleType) (c : Option (MatchFieldRow F))
        → IsCompared type
        → ¬ Holds type cond none c
    without_row exact c k (x, e, g) = cc
    without_row phonetic c k (x, e, g) = cc
    without_row fuzzy c k ((x, e), g) = cc
    without_row numeric c k h = absurd k
    without_row date_range c k h = absurd k
    without_row (other name) c k h = absurd k

    pub score_rows-Differ :
        (s c : Option (MatchFieldRow F)) (t : Tally F) {t' : Tally F}
        → IsCompared cond.match_type
        → score_rows ops source cand sims cand_id cond s c t ≡ some t'
        → Differ cond.invert (Holds cond.match_type cond s c)
    unfolding score_rows
    score_rows-Differ none c t k h =
        inr (missing_source-invert t h, without_row cond.match_type c k)
    score_rows-Differ (some src) c t {t'} k h =
        if_split (has_value src cond.match_type) _ _ h
          (λ v g. score_present-Differ cond.match_type src c _ k v g)
          (λ v g. inr (missing_source-invert t g, without_value cond.match_type src c k v))
