-- ===== src/Lotus/Mapping/Run/Start.antt =====
-- The counts of pending inputs with which `ExecuteMapping` of lotus/pkg/mapping/mapping.go starts, and those it
-- ends with.
use meadow.Prelude.{
  ℕ, ◌+◌, true, ◌&&◌, ◌||◌, String, Option, List, [], ◌∷◌, Map, lookup, insert, lookup-insert, ◌≡◌,
  refl, ap, ◌∙◌, inl, inr, Bool-cases, eq_iff, arith, All,
}
use mathlib.Core.List.{append-nil}
use meadow.Json.{Value}
use meadow.Lotus.Mapping.Outcome.{Outcome, IfDone}
use meadow.Lotus.Mapping.Linq.{keep, Linq}
use meadow.Lotus.Mapping.Links.{Link, is_given, is_constant, filter_keep, filter-All}
use meadow.Lotus.Mapping.Plan.{MappingDefinition, Compiled, source_links, source_count}
use meadow.Lotus.Mapping.Plan.Valid.{IsLink}
use meadow.Lotus.Mapping.Run.{
  SourceFieldValue, or_zero, execute_link, count_pending, start, execute_source_links,
}
use meadow.Lotus.Mapping.Run.Pending.{tally, is_to, is_unfired, AllCounted}
use meadow.Lotus.Mapping.Run.Waiting.{each_link-AllCounted, execute_link-AllCounted}

module _ {F : Type 0} where
  lookup-count_pending :
      (t : String) (links : List (Link F)) (counts : Map ℕ)
      → is_given t ≡ true
      → or_zero (lookup t (count_pending links counts))
        ≡ or_zero (lookup t counts) + tally (is_to t) links
  unfolding count_pending tally
  lookup-count_pending t [] counts g = omega arith
  lookup-count_pending t (l ∷ links) counts g = elim (Bool-cases (is_given l.target.step_id)) [
    | inl e ↦ rw e (
        lookup-count_pending t links
          (insert l.target.step_id (or_zero (lookup l.target.step_id counts) + 1) counts) g
        ∙ rw lookup-insert
            (ground (arith, eq_iff l.target.step_id t, ap (λ (k : String). lookup k counts))))
    | inr e ↦
        rw e
          (lookup-count_pending t links counts g ∙ ground (arith, e, g, eq_iff l.target.step_id t))
  ]

  -- Before the run, a link starts it or waits for a step.
  tally-source_links :
      (t : String) (links : List (Link F))
      → All IsLink links
      → tally (is_to t) links
        ≡ tally
            (is_to t)
            (keep (λ l. is_given l.source.field_id || is_constant l.source.constant) links)
          + tally (λ l. is_to t l && is_unfired [] l) links
  unfolding tally keep lookup source_count
  tally-source_links t [] v = refl
  tally-source_links t (l ∷ links) v = ground (arith, tally-source_links t links v.1, v.0.0)

module _ {F T : Type 0} ⦃linq : Linq⦄ (write : String → Value F → Option ℕ → T → Outcome T)
    (m : MappingDefinition F) (steps : Compiled F) where
  pub start-AllCounted :
      (extracted : List (SourceFieldValue F)) (target : T)
      → All IsLink m.links
      → AllCounted m (source_links m) (start m extracted target)
  unfolding source_links lookup
  start-AllCounted extracted target v t g = record {
    counts_links = omega (
      arith,
      lookup-count_pending t m.links [] g,
      ap (tally (is_to t))
          (filter_keep (λ l. is_given l.source.field_id || is_constant l.source.constant) m.links),
      tally-source_links t m.links v,
    );
    waits_for_none = λ q. absurd (cc q);
    has_run = λ p q. refl;
    has_input = λ q. absurd (cc q);
  }

  pub execute_source_links-AllCounted :
      (fuel : ℕ) (extracted : List (SourceFieldValue F)) (target : T)
      → All IsLink m.links
      → IfDone (AllCounted m []) (execute_source_links write m steps fuel extracted target)
  unfolding execute_source_links source_links
  execute_source_links-AllCounted fuel extracted target v =
      each_link-AllCounted write m steps (execute_link write m steps fuel) (source_links m) []
        (start m extracted target) (execute_link-AllCounted write m steps fuel v)
        (filter-All IsLink _ m.links v) (rw append-nil (start-AllCounted extracted target v))
