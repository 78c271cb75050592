-- ===== src/Lotus/Binding/Best.antt =====
-- Which binding `MatchFirst` of lotus/pkg/binding/matcher.go picks.
use meadow.Prelude.{
  ℕ, ◌≡◌, ◌≤◌, ◌<◌, Option, none, some, List, [], ◌∷◌, refl, subst, inl, inr, arith, All, In,
  All-map, ltb, Bool-cases, if_either, str_eq, if◌then◌else◌,
}
use meadow.Prelude.Int.{ℤ}
use meadow.Lotus.Binding.Defs.{Binding, ReceivedMessage, match_binding}
use meadow.Lotus.Binding.Registry.{
  Matcher, MatchResult, bindings_of, tenant_of, match_all, match_message, best_result, first_of,
  match_first,
}

-- The first result of the greatest score: a member that no result outscores.
best_result-In :
    (best : MatchResult) (results : List MatchResult)
    → In (best_result best results) (best ∷ results)
unfolding best_result
best_result-In best [] = inl refl
best_result-In best (r ∷ results) =
    if_either (λ t. In (best_result t results) (best ∷ r ∷ results)) (ltb best.score r.score) r best
      (λ e. inr (best_result-In r results)) (λ e. keep (best_result-In best results))
  where
    keep : {x : MatchResult} → In x (best ∷ results) → In x (best ∷ r ∷ results)
    keep (inl e) = inl e
    keep (inr i) = inr (inr i)

best_result-le :
    (best : MatchResult) (results : List MatchResult)
    → (best.score ≤ (best_result best results).score)
      × All (λ r. r.score ≤ (best_result best results).score) results
unfolding best_result
best_result-le best [] = (omega arith, tt)
best_result-le best (r ∷ results) =
    if_either
      (λ t.
        (best.score ≤ (best_result t results).score)
        × All (λ q. q.score ≤ (best_result t results).score) (r ∷ results))
      (ltb best.score r.score) r best
      (λ e. let h = best_result-le r results in (ground (arith, h.0), (h.0, h.1)))
      (λ e. let h = best_result-le best results in (h.0, (ground (arith, h.0), h.1)))

module _ {F : Type 0} (truncate : F → ℤ) (msg : ReceivedMessage F) where
  abbrev pub score_of : Binding → ℕ
  score_of b = match_binding truncate b msg

  -- A result is a binding with its score, and stands for each binding that matches.
  match_all_sound :
      (bs : List Binding) (r : MatchResult)
      → In r (match_all truncate msg bs)
      → In r.binding bs × (r.score ≡ score_of r.binding) × (0 < r.score)
  unfolding match_all
  match_all_sound [] r i = absurd i
  match_all_sound (b ∷ bs) r i = elim (Bool-cases (ltb 0 (score_of b))) [
    | inl e ↦ elim (rw e at i) [
      | inl g ↦ rw g (inl refl, refl, ground arith)
      | inr j ↦ let h = match_all_sound bs r j in (inr h.0, h.1, h.2)
    ]
    | inr e ↦ let h = match_all_sound bs r (rw e at i) in (inr h.0, h.1, h.2)
  ]

  match_all_bounds :
      (bs : List Binding) (n : ℕ)
      → All (λ r. r.score ≤ n) (match_all truncate msg bs)
      → All (λ b. score_of b ≤ n) bs
  unfolding match_all
  match_all_bounds [] n h = tt
  match_all_bounds (b ∷ bs) n h = elim (Bool-cases (ltb 0 (score_of b))) [
    | inl e ↦ let g = rw e at h in (g.0, match_all_bounds bs n g.1)
    | inr e ↦ (ground arith, match_all_bounds bs n (rw e at h))
  ]

  -- What `MatchFirst` promises of the bindings `bs` that it looks at.
  abbrev pub IsFirst : List Binding → Option Binding → Type 0
  IsFirst bs none = All (λ b. score_of b ≡ 0) bs
  IsFirst bs (some b) = In b bs × (0 < score_of b) × All (λ c. score_of c ≤ score_of b) bs

  first_of-IsFirst : (bs : List Binding) → IsFirst bs (first_of (match_all truncate msg bs))
  unfolding first_of
  first_of-IsFirst bs = go (match_all truncate msg bs) (match_all_sound bs) (match_all_bounds bs)
    where
      go :
          (results : List MatchResult)
          → ((r : MatchResult)
              → In r results
              → In r.binding bs × (r.score ≡ score_of r.binding) × (0 < r.score))
          → ((n : ℕ) → All (λ r. r.score ≤ n) results → All (λ b. score_of b ≤ n) bs)
          → IsFirst bs (first_of results)
      go [] sound bounds = All-map bs (λ c h. omega arith) (bounds 0 tt)
      go (r ∷ results) sound bounds =
          let best = best_result r results in
          let fact = sound best (best_result-In r results) in
          (
            fact.0,
            omega (arith, fact.1, fact.2),
            subst (λ n. All (λ c. score_of c ≤ n) bs) fact.1
                (bounds best.score (best_result-le r results)),
          )

  -- Without a tenant in the header or the parsed message MatchFirst returns nil. Otherwise it
  -- returns a binding of that tenant which matches and which no binding of the tenant outscores, or
  -- nil where none matches.
  pub match_first-IsFirst :
      (m : Matcher)
      → IsFirst
          (if str_eq (tenant_of msg) "" then [] else bindings_of (tenant_of msg) m)
          (match_first truncate msg m)
  unfolding match_first match_message
  match_first-IsFirst m = elim (Bool-cases (str_eq (tenant_of msg) "")) [
    | inl e ↦ rw e (unfold first_of in tt)
    | inr e ↦ rw e (first_of-IsFirst (bindings_of (tenant_of msg) m))
  ]
