-- ===== src/Ivy/Matching/NoMerge.antt =====
-- No-merge conditions in ivy/pkg/matching/service.go: when they block, and that blocking wins.
use meadow.Prelude.{
  ◌≡◌, ◌⊎◌, ◌↔◌, Bool, true, false, ◌&&◌, String, Option, none, some, List, [], ◌∷◌, refl, inl, inr,
  arith, Any, eq_iff, Bool-cases, Map, lookup,
}
use meadow.Ivy.Matching.Defs.{
  ScoreOps, MatchRuleType, exact, fuzzy, phonetic, numeric, date_range, other, MatchCondition,
  CompiledRule, MatchFieldRow, condition_key, fuzzy_key, FuzzySims, find_sims, or_zero_float,
  effective_threshold, inverted,
}
use meadow.Ivy.Matching.Blocking.{
  both_equal, reaches_threshold, raw_match, passes_inverted, rows_block, condition_blocks,
  conditions_block, rule_has_no_merge_match,
}
use meadow.Ivy.Matching.Candidates.{
  blocked_outcome, scored_outcome, first_block, outcome_of, evaluate_single_candidate,
}

-- Both values are there and are the same.
abbrev pub SameText : Option String → Option String → Type 0
SameText a b = (t : String) × (a ≡ some t) × (b ≡ some t)

pub both_equal_iff : (a b : Option String) → (both_equal a b ≡ true) ↔ SameText a b
unfolding both_equal
both_equal_iff (some a) (some b) =
    (λ h. (a, refl, ground (arith, eq_iff a b)), λ (t, e, g). ground (arith, eq_iff a b))
both_equal_iff none b = (λ h. cc, λ (t, e, g). cc)
both_equal_iff (some a) none = (λ h. cc, λ (t, e, g). cc)

&&_iff : {b : Bool} {Q : Type 0} (a : Bool) → (b ≡ true) ↔ Q → ((a && b) ≡ true) ↔ ((a ≡ true) × Q)
&&_iff true h = (λ e. (refl, h.0 e), λ q. h.1 q.1)
&&_iff false h = (λ e. cc, λ q. cc)

-- The types of condition that the service compares by.
abbrev pub IsCompared : MatchRuleType → Type 0
IsCompared exact = Unit
IsCompared fuzzy = Unit
IsCompared phonetic = Unit
IsCompared _ = ⊥

-- What an inverted condition makes of `P`.
abbrev pub Differ : Bool → Type 0 → Type 0
Differ invert P = ((invert ≡ false) × P) ⊎ ((invert ≡ true) × (¬ P))

pub inverted_iff :
    {P : Type 0} (invert raw : Bool)
    → (raw ≡ true) ↔ P
    → (inverted invert raw ≡ true) ↔ Differ invert P
unfolding inverted
inverted_iff true true h = (λ e. cc, elim [ inl (e, p) ↦ cc | inr (e, p) ↦ absurd (p (h.0 refl)) ])
inverted_iff true false h = (λ e. inr (refl, λ p. cc (h.1 p)), λ d. refl)
inverted_iff false true h = (λ e. inl (refl, h.0 refl), λ d. refl)
inverted_iff false false h = (λ e. cc, elim [ inl (e, p) ↦ h.1 p | inr (e, p) ↦ cc ])

module _ {F : Type 0} (ops : ScoreOps F) (source cand : Map (MatchFieldRow F)) (sims : FuzzySims F)
    (cand_id : String) where
  -- The similarity of the candidate is known and not below the threshold.
  abbrev pub IsSimilar : MatchCondition F → Type 0
  IsSimilar cond =
      (found : Map F) × (find_sims (fuzzy_key cond) sims ≡ some found)
      × (ops.lt (or_zero_float ops (lookup cand_id found)) (effective_threshold ops cond.threshold)
          ≡ false)

  -- The rows agree, in what the type of the condition compares.
  abbrev pub Agree : MatchRuleType → MatchCondition F → MatchFieldRow F → MatchFieldRow F → Type 0
  Agree exact cond s c = SameText s.value_text c.value_text
  Agree phonetic cond s c = SameText s.token c.token
  Agree fuzzy cond s c = IsSimilar cond
  Agree _ cond s c = ⊥

  -- A condition that is not inverted blocks where the rows agree, an inverted one where they do not
  -- or one is missing.
  abbrev pub RowsBlock :
      MatchCondition F → Option (MatchFieldRow F) → Option (MatchFieldRow F) → Type 0
  RowsBlock cond (some s) (some c) =
      IsCompared cond.match_type × Differ cond.invert (Agree cond.match_type cond s c)
  RowsBlock cond _ _ = cond.invert ≡ true

  abbrev pub Blocks : MatchCondition F → Type 0
  Blocks cond =
      (cond.no_merge ≡ true)
      × RowsBlock cond (lookup (condition_key cond) source) (lookup (condition_key cond) cand)

  reaches_threshold_iff :
      (cond : MatchCondition F)
      → (reaches_threshold ops source cand sims cand_id cond (find_sims (fuzzy_key cond) sims)
          ≡ true)
        ↔ IsSimilar cond
  unfolding reaches_threshold
  reaches_threshold_iff cond = go (find_sims (fuzzy_key cond) sims)
    where
      go :
          (o : Option (Map F))
          → (reaches_threshold ops source cand sims cand_id cond o ≡ true) ↔ (
              (found : Map F) × (o ≡ some found)
              × (ops.lt
                    (or_zero_float ops (lookup cand_id found))
                    (effective_threshold ops cond.threshold)
                  ≡ false))
      go none = (λ h. cc, λ (f, e, g). cc)
      go (some found) = (λ h. (found, refl, ground arith), λ (f, e, g). ground arith)

  rows_block_iff :
      (cond : MatchCondition F) (s c : Option (MatchFieldRow F))
      → (rows_block ops source cand sims cand_id cond s c ≡ true) ↔ RowsBlock cond s c
  unfolding rows_block passes_inverted raw_match
  rows_block_iff cond none c = (λ h. h, λ h. h)
  rows_block_iff cond (some s) none = (λ h. h, λ h. h)
  rows_block_iff cond (some s) (some c) = go cond.match_type
    where
      with_unit : {b : Bool} {Q : Type 0} → (b ≡ true) ↔ Q → (b ≡ true) ↔ (Unit {0} × Q)
      with_unit h = (λ e. (tt, h.0 e), λ q. h.1 q.1)

      go :
          (type : MatchRuleType)
          → (passes_inverted ops source cand sims cand_id cond
                (raw_match ops source cand sims cand_id type cond s c)
              ≡ true)
            ↔ (IsCompared type × Differ cond.invert (Agree type cond s c))
      go exact = with_unit (inverted_iff cond.invert _ (both_equal_iff s.value_text c.value_text))
      go phonetic = with_unit (inverted_iff cond.invert _ (both_equal_iff s.token c.token))
      go fuzzy = with_unit (inverted_iff cond.invert _ (reaches_threshold_iff cond))
      go numeric = (λ h. cc, λ h. absurd h.0)
      go date_range = (λ h. cc, λ h. absurd h.0)
      go (other name) = (λ h. cc, λ h. absurd h.0)

  -- A condition triggers a block exactly when it is a no-merge condition, and either it is inverted
  -- and one of the rows is missing, or both are there, its type is exact, fuzzy or phonetic, and the
  -- rows agree (where inverted: do not agree).
  pub condition_blocks_iff :
      (cond : MatchCondition F)
      → (condition_blocks ops source cand sims cand_id cond ≡ true) ↔ Blocks cond
  unfolding condition_blocks
  condition_blocks_iff cond =
      &&_iff cond.no_merge (
        rows_block_iff cond (lookup (condition_key cond) source) (lookup (condition_key cond) cand))

  conditions_block_iff :
      (conds : List (MatchCondition F))
      → (conditions_block ops source cand sims cand_id conds ≡ true) ↔ Any Blocks conds
  unfolding conditions_block
  conditions_block_iff [] = (λ h. cc, λ h. absurd h)
  conditions_block_iff (cond ∷ conds) =
      let one = condition_blocks_iff cond in
      let others = conditions_block_iff conds in
      elim (Bool-cases (condition_blocks ops source cand sims cand_id cond)) [
        | inl e ↦ rw e (λ h. inl (one.0 e), λ h. refl)
        | inr e ↦ rw e (λ h. inr (others.0 h), elim [ inl b ↦ cc (one.1 b) | inr b ↦ others.1 b ])
      ]

  -- Some rule has a condition that blocks.
  abbrev pub Forbidden : List (CompiledRule F) → Type 0
  Forbidden rules = Any (λ r. Any Blocks r.conditions) rules

  pub first_block-cases :
      (rules : List (CompiledRule F))
      → (Forbidden rules
          × ((r : CompiledRule F) × (first_block ops source cand sims cand_id rules ≡ some r)))
        ⊎ ((¬ Forbidden rules) × (first_block ops source cand sims cand_id rules ≡ none))
  unfolding first_block rule_has_no_merge_match
  first_block-cases [] = inr (λ h. h, refl)
  first_block-cases (r ∷ rules) =
      let one = conditions_block_iff r.conditions in
      elim (Bool-cases (conditions_block ops source cand sims cand_id r.conditions)) [
        | inl e ↦ rw e (inl (inl (one.0 e), (r, refl)))
        | inr e ↦ rw e (elim (first_block-cases rules) [
          | inl (h, g) ↦ inl (inr h, g)
          | inr (h, g) ↦ inr (elim [ inl b ↦ cc (one.1 b) | inr b ↦ h b ], g)
        ])
      ]

  -- No-merge always wins: a candidate is blocked, with the score 0 and no automatic merge, exactly
  -- when a condition of some rule blocks, whatever the other rules would score.
  pub evaluate_single_candidate-no_merge :
      (threshold : F) (rules : List (CompiledRule F))
      → let o = evaluate_single_candidate ops source cand sims cand_id threshold rules in
        (Forbidden rules × (o.blocked ≡ true) × (o.score ≡ ops.zero) × (o.auto_merge ≡ false))
        ⊎ ((¬ Forbidden rules) × (o.blocked ≡ false))
  unfolding evaluate_single_candidate outcome_of blocked_outcome scored_outcome
  evaluate_single_candidate-no_merge threshold rules = elim (first_block-cases rules) [
    | inl (h, (r, e)) ↦ inl (h, rw e, rw e, rw e)
    | inr (h, e) ↦ inr (h, rw e)
  ]
