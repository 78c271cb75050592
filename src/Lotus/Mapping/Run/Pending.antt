-- ===== src/Lotus/Mapping/Run/Pending.antt =====
-- What the counts of pending inputs say in the course of a run: `StepPendingInputs`, `StepInputs` and
-- `StepResults` of lotus/pkg/mapping/mapping.go.
use meadow.Prelude.{
  ap, ℕ, ◌+◌, ◌-◌, Bool, true, false, ◌&&◌, String, Option, none, some, List, [], ◌∷◌, ◌++◌, str_eq,
  if◌then◌else◌, Map, lookup, insert, lookup-insert, ◌≡◌, ◌≢◌, refl, sym, ◌∙◌, inl, inr, Bool-cases,
  eq_iff, arith,
}
use meadow.Json.{Value}
use meadow.Lotus.Mapping.Linq.{keep, Linq}
use meadow.Lotus.Mapping.Links.{Link, is_given, filter_keep}
use meadow.Lotus.Mapping.Steps.{StepOutput}
use meadow.Lotus.Mapping.Plan.{MappingDefinition}
use meadow.Lotus.Mapping.Run.{Mapping, or_zero, or_empty, child_links}

abbrev pub absent : {A : Type 0} → Option A → Bool
absent none = true
absent (some a) = false

-- The number of links that have `p`.
unfoldable pub tally : {F : Type 0} → (Link F → Bool) → List (Link F) → ℕ
tally p [] = 0
tally p (l ∷ links) = (if p l then 1 else 0) + tally p links

abbrev pub is_to : {F : Type 0} → String → Link F → Bool
is_to step_id l = str_eq l.target.step_id step_id

-- A link whose source is a step that has no result.
abbrev pub is_unfired : {F : Type 0} → Map (StepOutput F) → Link F → Bool
is_unfired results l = is_given l.source.step_id && absent (lookup l.source.step_id results)

module _ {F : Type 0} where
  pub tally-append :
      (p : Link F → Bool) (links others : List (Link F))
      → tally p (links ++ others) ≡ tally p links + tally p others
  unfolding tally
  tally-append p [] others = omega arith
  tally-append p (l ∷ links) others = omega (arith, tally-append p links others)

  -- A step that gets its first result fires the links that it is the source of.
  pub tally-insert :
      (t step_id : String) (out : StepOutput F) (results : Map (StepOutput F))
      (links : List (Link F))
      → is_given step_id ≡ true
      → lookup step_id results ≡ none
      → tally (λ l. is_to t l && is_unfired results l) links
        ≡ tally (is_to t) (keep (λ l. str_eq l.source.step_id step_id) links)
          + tally (λ l. is_to t l && is_unfired (insert step_id out results) l) links
  unfolding tally keep
  tally-insert t step_id out results [] g h = refl
  tally-insert t step_id out results (l ∷ links) g h =
      rw (lookup-insert step_id l.source.step_id out results) (
        ground (
          arith,
          tally-insert t step_id out results links g h,
          eq_iff l.source.step_id step_id,
          eq_iff step_id l.source.step_id,
          h,
          g,
        ))

-- What is so of a step while the links `todo` are still to be run.
pub record Counted {F : Type 0} (m : MappingDefinition F) (todo : List (Link F))
    (results : Map (StepOutput F)) (inputs : Map (List (Value F))) (counts : Map ℕ) (t : String)
    : Type 0 where
  -- a link to the step is run, stands in `todo`, or waits for the result of its source
  pub counts_links :
      or_zero (lookup t counts)
      ≡ tally (is_to t) todo + tally (λ l. is_to t l && is_unfired results l) m.links
  -- a step that has a result waits for nothing
  pub waits_for_none : absent (lookup t results) ≡ false → or_zero (lookup t counts) ≡ 0
  -- a step that waits for nothing has a result, unless it got no input
  pub has_run :
      or_zero (lookup t counts) ≡ 0
      → absent (lookup t results) ≡ true
      → or_empty (lookup t inputs) ≡ []
  -- a step that has a result got an input
  pub has_input : absent (lookup t results) ≡ false → or_empty (lookup t inputs) ≢ []

abbrev pub IsCounted :
    {F T : Type 0} → MappingDefinition F → List (Link F) → Mapping F T → String → Type 0
IsCounted m todo s t = Counted m todo s.step_results s.step_inputs s.step_pending_inputs t

abbrev pub AllCounted : {F T : Type 0} → MappingDefinition F → List (Link F) → Mapping F T → Type 0
AllCounted m todo s = (t : String) → is_given t ≡ true → IsCounted m todo s t

module _ {F : Type 0} ⦃linq : Linq⦄ (m : MappingDefinition F) where
  -- A link to something else than the step is run.
  pub passed_elsewhere :
      (l : Link F) (todo : List (Link F)) (results : Map (StepOutput F))
      (inputs : Map (List (Value F))) (counts : Map ℕ) (t : String)
      → is_to t l ≡ false
      → Counted m (l ∷ todo) results inputs counts t
      → Counted m todo results inputs counts t
  unfolding tally
  passed_elsewhere l todo results inputs counts t h c = record {
    counts_links = ground (arith, c.counts_links, h);
    waits_for_none = c.waits_for_none;
    has_run = c.has_run;
    has_input = c.has_input;
  }

  -- The count of the step that a link goes to is brought down by one.
  pub counts-count_down :
      (l : Link F) (todo : List (Link F)) (results : Map (StepOutput F))
      (inputs : Map (List (Value F))) (counts : Map ℕ) (t : String)
      → Counted m (l ∷ todo) results inputs counts t
      → or_zero
          (lookup t (insert l.target.step_id (or_zero (lookup l.target.step_id counts) - 1) counts))
        ≡ tally (is_to t) todo + tally (λ l. is_to t l && is_unfired results l) m.links
  unfolding tally
  counts-count_down l todo results inputs counts t c =
      rw lookup-insert (elim (Bool-cases (is_to t l)) [
        | inl e ↦ rw e (rw ((eq_iff l.target.step_id t).0 e) (ground (arith, c.counts_links, e)))
        | inr e ↦ rw e (ground (arith, c.counts_links, e))
      ])

  -- The step that a link goes to has no result before the link is run.
  pub absent_result :
      (l : Link F) (todo : List (Link F)) (results : Map (StepOutput F))
      (inputs : Map (List (Value F))) (counts : Map ℕ)
      → Counted m (l ∷ todo) results inputs counts l.target.step_id
      → absent (lookup l.target.step_id results) ≡ true
  unfolding tally
  absent_result l todo results inputs counts c =
      elim (Bool-cases (absent (lookup l.target.step_id results))) [
        | inl e ↦ e
        | inr e ↦ absurd (
            ground
              (arith, c.counts_links, c.waits_for_none e, eq_iff l.target.step_id l.target.step_id))
      ]

  -- A link to a step is run, and the step is not: it waits, or has no input.
  pub passed_waiting :
      (l : Link F) (todo : List (Link F)) (results : Map (StepOutput F))
      (inputs others : Map (List (Value F))) (counts : Map ℕ) (t : String)
      → (str_eq l.target.step_id t ≡ false → lookup t others ≡ lookup t inputs)
      → (or_zero (lookup l.target.step_id counts) - 1 ≡ 0
          → or_empty (lookup l.target.step_id others) ≡ [])
      → Counted m (l ∷ todo) results inputs counts l.target.step_id
      → Counted m (l ∷ todo) results inputs counts t
      → Counted m todo results others
          (insert l.target.step_id (or_zero (lookup l.target.step_id counts) - 1) counts)
          t
  passed_waiting l todo results inputs others counts t o n c d = record {
    counts_links = counts-count_down l todo results inputs counts t d;
    waits_for_none = λ q. rw lookup-insert (elim (Bool-cases (is_to t l)) [
      | inl e ↦ rw e (ground (arith, d.waits_for_none q, (eq_iff l.target.step_id t).0 e))
      | inr e ↦ rw e (d.waits_for_none q)
    ]);
    has_run = λ p q. elim (Bool-cases (is_to t l)) [
      | inl e ↦ ground (arith, n, rw e at (rw lookup-insert at p), (eq_iff l.target.step_id t).0 e)
      | inr e ↦ rw (o e) (d.has_run (rw e at (rw lookup-insert at p)) q)
    ];
    has_input = λ p. elim (Bool-cases (is_to t l)) [
      | inl e ↦
          absurd
            (cc (p, absent_result l todo results inputs counts c, (eq_iff l.target.step_id t).0 e))
      | inr e ↦ rw (o e) (d.has_input p)
    ];
  }

  -- A link to a step is run, and so is the step, whose child links then stand before the others.
  pub passed_running :
      (l : Link F) (todo : List (Link F)) (results : Map (StepOutput F)) (out : StepOutput F)
      (inputs others : Map (List (Value F))) (counts : Map ℕ) (t : String)
      → is_given l.target.step_id ≡ true
      → (str_eq l.target.step_id t ≡ false → lookup t others ≡ lookup t inputs)
      → or_zero (lookup l.target.step_id counts) - 1 ≡ 0
      → lookup l.target.step_id results ≡ none
      → or_empty (lookup l.target.step_id others) ≢ []
      → Counted m (l ∷ todo) results inputs counts t
      → Counted m
          (child_links m l.target.step_id ++ todo)
          (insert l.target.step_id out results)
          others
          (insert l.target.step_id (or_zero (lookup l.target.step_id counts) - 1) counts)
          t
  passed_running l todo results out inputs others counts t g o n r i d = record {
    counts_links =
        counts-count_down l todo results inputs counts t d
        ∙ omega (
          arith,
          tally-append (is_to t) (child_links m l.target.step_id) todo,
          ap (tally (is_to t))
              (filter_keep (λ k. str_eq k.source.step_id l.target.step_id) m.links),
          tally-insert t l.target.step_id out results m.links g r,
        );
    waits_for_none = λ q. rw lookup-insert (elim (Bool-cases (is_to t l)) [
      | inl e ↦ rw e n
      | inr e ↦ rw e (d.waits_for_none (rw e at (rw lookup-insert at q)))
    ]);
    has_run = λ p q. elim (Bool-cases (is_to t l)) [
      | inl e ↦ absurd (cc (rw e at (rw lookup-insert at q)))
      | inr e ↦
          rw (o e) (d.has_run (rw e at (rw lookup-insert at p)) (rw e at (rw lookup-insert at q)))
    ];
    has_input = λ p. elim (Bool-cases (is_to t l)) [
      | inl e ↦ rw (sym ((eq_iff l.target.step_id t).0 e)) i
      | inr e ↦ rw (o e) (d.has_input (rw e at (rw lookup-insert at p)))
    ];
  }
