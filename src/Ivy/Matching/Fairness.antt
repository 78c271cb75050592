-- ===== src/Ivy/Matching/Fairness.antt =====
-- The running sums of scoreRule in ivy/pkg/matching/service.go: what is earned never exceeds the weights.
use mathlib.Core.Option.{some-injective}
use meadow.Prelude.{
  ◌≡◌, Bool, true, false, not, ◌&&◌, String, Option, none, some, subst, if◌then◌else◌, if_split,
  Map,
}
use meadow.Ivy.Matching.Defs.{
  ScoreOps, at_least, MatchRuleType, exact, fuzzy, phonetic, numeric, date_range, other,
  MatchCondition, MatchFieldRow, fuzzy_key, FuzzyKey, FuzzySims, find_sims, has_value, inverted,
  text_of, token_of,
}
use meadow.Ivy.Matching.Scoring.{
  Tally, score_missing_source, score_missing_candidate, score_match, score_texts, similarity_of,
  score_fuzzy, score_present, score_rows, score_condition,
}

-- What IEEE arithmetic promises of the scores: rounding keeps the order.
pub record ScoreOrder {F : Type 0} (ops : ScoreOps F) : Type 0 where
  pub trans : (a b c : F) → ops.lt b a ≡ false → ops.lt c b ≡ false → ops.lt c a ≡ false
  pub zero_le_zero : ops.lt ops.zero ops.zero ≡ false
  pub one_le_one : ops.lt ops.one ops.one ≡ false
  pub zero_le_one : ops.lt ops.one ops.zero ≡ false
  pub add_mono :
      (a b c d : F)
      → ops.lt b a ≡ false
      → ops.lt d c ≡ false
      → ops.lt (ops.add b d) (ops.add a c) ≡ false
  pub le_add_zero : (a : F) → ops.lt (ops.add a ops.zero) a ≡ false
  pub multiply_mono :
      (a b w : F)
      → ops.lt w ops.zero ≡ false
      → ops.lt b a ≡ false
      → ops.lt (ops.multiply b w) (ops.multiply a w) ≡ false
  pub one_multiply : (w : F) → ops.lt w (ops.multiply ops.one w) ≡ false
  pub zero_multiply : (w : F) → ops.lt (ops.multiply ops.zero w) ops.zero ≡ false
  pub complement :
      (a : F)
      → ops.lt a ops.zero ≡ false
      → ops.lt ops.one a ≡ false
      → (ops.lt (ops.subtract ops.one a) ops.zero ≡ false)
        × (ops.lt ops.one (ops.subtract ops.one a) ≡ false)
  pub divide_bounds :
      (a b : F)
      → ops.lt a ops.zero ≡ false
      → ops.lt b a ≡ false
      → ops.lt ops.zero b ≡ true
      → (ops.lt (ops.divide a b) ops.zero ≡ false) × (ops.lt ops.one (ops.divide a b) ≡ false)

module _ {F : Type 0} (ops : ScoreOps F) where
  infix 50 ◌⊑◌
  abbrev pub ◌⊑◌ : F → F → Type 0
  a ⊑ b = ops.lt b a ≡ false

  abbrev pub IsShare : F → Type 0
  IsShare a = (ops.zero ⊑ a) × (a ⊑ ops.one)

  abbrev pub IsFair : Tally F → Type 0
  IsFair t = (ops.zero ⊑ t.score_sum) × (t.score_sum ⊑ t.total_weight)

module _ {F : Type 0} {ops : ScoreOps F} (order : ScoreOrder ops)
    (source cand : Map (MatchFieldRow F)) (sims : FuzzySims F) (cand_id : String)
    (shares : (k : FuzzyKey)
      → IsShare ops (similarity_of ops source cand sims cand_id (find_sims k sims))) where
  module _ (cond : MatchCondition F) (weight : ◌⊑◌ ops ops.zero cond.weight) (t : Tally F)
      (fair : IsFair ops t) where
    abbrev weighed : Tally F
    weighed = record t { total_weight = ops.add t.total_weight cond.weight }

    skip-IsFair : IsFair ops weighed
    skip-IsFair = (
      fair.0,
      order.trans _ (ops.add t.score_sum ops.zero) _ (order.le_add_zero t.score_sum)
          (order.add_mono _ _ _ _ fair.1 weight),
    )

    -- A share of the weight is earned.
    earn-IsFair :
        (share : F)
        → IsShare ops share
        → IsFair ops
            (record weighed { score_sum = ops.add t.score_sum (ops.multiply share cond.weight) })
    earn-IsFair share (low, high) = (
      order.trans _ (ops.add ops.zero ops.zero) _ (order.le_add_zero ops.zero) (
          order.add_mono _ _ _ _ fair.0 (
            order.trans _ (ops.multiply ops.zero cond.weight) _ zero_le
              (order.multiply_mono _ _ cond.weight weight low))),
      order.add_mono _ _ _ _ fair.1 (
          order.trans _ (ops.multiply ops.one cond.weight) _
            (order.multiply_mono _ _ cond.weight weight high) (order.one_multiply cond.weight)),
    )
      where
        zero_le : ◌⊑◌ ops ops.zero (ops.multiply ops.zero cond.weight)
        zero_le = order.zero_multiply cond.weight

    one-IsShare : IsShare ops ops.one
    one-IsShare = (order.zero_le_one, order.one_le_one)

    -- The result of a step is that of `u`, where `u` is fair and differs in the notes alone.
    settle : (u : Tally F) {t' : Tally F} → IsFair ops u → some u ≡ some t' → IsFair ops t'
    settle u h e = subst (IsFair ops) (some-injective u _ e) h

    score_missing_source-IsFair :
        {t' : Tally F}
        → score_missing_source ops source cand sims cand_id cond t ≡ some t'
        → IsFair ops t'
    unfolding score_missing_source
    score_missing_source-IsFair h =
        if_split (cond.required && not cond.invert) _ _ h (λ b e. absurd (cc e))
          (λ b e.
            if_split cond.invert _ _ e (λ c g. settle _ (earn-IsFair ops.one one-IsShare) g)
              (λ c g. settle _ fair g))

    score_missing_candidate-IsFair :
        (kind : String) {t' : Tally F}
        → score_missing_candidate ops source cand sims cand_id kind cond weighed ≡ some t'
        → IsFair ops t'
    unfolding score_missing_candidate
    score_missing_candidate-IsFair kind h =
        if_split cond.invert _ _ h (λ b e. settle _ (earn-IsFair ops.one one-IsShare) e)
          (λ b e.
            if_split cond.required _ _ e (λ c g. absurd (cc g)) (λ c g. settle _ skip-IsFair g))

    maybe_earn-IsFair :
        (b : Bool) (share : F)
        → IsShare ops share
        → IsFair ops (
            if b
            then (record weighed {
              score_sum = ops.add t.score_sum (ops.multiply share cond.weight);
            })
            else weighed)
    maybe_earn-IsFair true share h = earn-IsFair share h
    maybe_earn-IsFair false share h = skip-IsFair

    score_match-IsFair :
        (kind : String) (matched : Bool) {t' : Tally F}
        → score_match ops source cand sims cand_id kind matched cond weighed ≡ some t'
        → IsFair ops t'
    unfolding score_match
    score_match-IsFair kind matched h =
        if_split (not matched && cond.required) _ _ h (λ b e. absurd (cc e))
          (λ b e. settle _ (maybe_earn-IsFair matched ops.one one-IsShare) e)

    score_texts-IsFair :
        (kind : String) (a b : Option String) {t' : Tally F}
        → score_texts ops source cand sims cand_id kind cond a b weighed ≡ some t'
        → IsFair ops t'
    unfolding score_texts
    score_texts-IsFair kind (some a) (some b) h = score_match-IsFair kind _ h
    score_texts-IsFair kind none b h = score_missing_candidate-IsFair kind h
    score_texts-IsFair kind (some a) none h = score_missing_candidate-IsFair kind h

    IsShare-of_fuzzy :
        (sim : F)
        → IsShare ops sim
        → IsShare ops (if cond.invert then ops.subtract ops.one sim else sim)
    IsShare-of_fuzzy sim h = go cond.invert
      where
        go : (b : Bool) → IsShare ops (if b then ops.subtract ops.one sim else sim)
        go true = order.complement sim h.0 h.1
        go false = h

    score_fuzzy-IsFair :
        (sim threshold : F) {t' : Tally F}
        → IsShare ops sim
        → score_fuzzy ops source cand sims cand_id cond sim threshold weighed ≡ some t'
        → IsFair ops t'
    unfolding score_fuzzy
    score_fuzzy-IsFair sim threshold s h =
        if_split (not (inverted cond.invert (at_least ops sim threshold)) && cond.required) _ _ h
          (λ b e. absurd (cc e))
          (λ b e.
            settle _
              (maybe_earn-IsFair (inverted cond.invert (at_least ops sim threshold)) _
                (IsShare-of_fuzzy sim s))
              e)

    score_present-IsFair :
        (type : MatchRuleType) (src : MatchFieldRow F) (c : Option (MatchFieldRow F)) {t' : Tally F}
        → score_present ops source cand sims cand_id type cond src c weighed ≡ some t'
        → IsFair ops t'
    unfolding score_present
    score_present-IsFair exact src c h = score_texts-IsFair "exact" src.value_text (text_of c) h
    score_present-IsFair phonetic src c h = score_texts-IsFair "phonetic" src.token (token_of c) h
    score_present-IsFair fuzzy src c h = score_fuzzy-IsFair _ _ (shares (fuzzy_key cond)) h
    score_present-IsFair numeric src c h = settle weighed skip-IsFair h
    score_present-IsFair date_range src c h = settle weighed skip-IsFair h
    score_present-IsFair (other name) src c h = settle weighed skip-IsFair h

    score_rows-IsFair :
        (s c : Option (MatchFieldRow F)) {t' : Tally F}
        → score_rows ops source cand sims cand_id cond s c t ≡ some t'
        → IsFair ops t'
    unfolding score_rows
    score_rows-IsFair none c h = score_missing_source-IsFair h
    score_rows-IsFair (some src) c h =
        if_split (has_value src cond.match_type) _ _ h
          (λ b e. score_present-IsFair cond.match_type src c e)
          (λ b e. score_missing_source-IsFair e)

    pub score_condition-IsFair :
        {t' : Tally F}
        → score_condition ops source cand sims cand_id cond t ≡ some t'
        → IsFair ops t'
    unfolding score_condition
    score_condition-IsFair h =
        if_split cond.no_merge _ _ h (λ b e. settle t fair e) (λ b e. score_rows-IsFair _ _ e)
