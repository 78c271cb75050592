-- ===== src/Tests/Scoring.antt =====
-- Tests of the model of ivy/pkg/matching/scoring.go.
use meadow.Prelude.{ℕ, ◌+◌, ◌≡◌, ◌≤◌, ◌↔◌, List, [], ◌∷◌, refl}
use meadow.Ivy.Scoring.Levenshtein.Defs.{
  levenshtein_distance, bytes_eq, cost, first_row, rows, next_row, fill, last_cell,
}
use meadow.Ivy.Scoring.Levenshtein.Script.{Edits}
use meadow.Ivy.Scoring.Levenshtein.Metric.{levenshtein_distance-least, levenshtein_distance-metric}

-- Three words that are a few edits apart.
abbrev sunday : List ℕ
sunday = b'S' ∷ b'u' ∷ b'n' ∷ b'd' ∷ b'a' ∷ b'y' ∷ []

abbrev mandays : List ℕ
mandays = b'M' ∷ b'a' ∷ b'n' ∷ b'd' ∷ b'a' ∷ b'y' ∷ b's' ∷ []

abbrev monday : List ℕ
monday = b'M' ∷ b'o' ∷ b'n' ∷ b'd' ∷ b'a' ∷ b'y' ∷ []

three_edits : levenshtein_distance sunday mandays ≡ 3
unfolding levenshtein_distance bytes_eq cost first_row rows next_row fill last_cell
three_edits = refl

levenshtein_distance-least_example :
    Edits (levenshtein_distance sunday mandays) sunday mandays
    × ((n : ℕ) → Edits n sunday mandays → levenshtein_distance sunday mandays ≤ n)
levenshtein_distance-least_example = levenshtein_distance-least sunday mandays

levenshtein_distance-metric_example :
    ((levenshtein_distance sunday monday ≡ 0) ↔ (sunday ≡ monday))
    × (levenshtein_distance sunday monday ≡ levenshtein_distance monday sunday)
    × (levenshtein_distance sunday mandays
        ≤ levenshtein_distance sunday monday + levenshtein_distance monday mandays)
levenshtein_distance-metric_example = levenshtein_distance-metric sunday monday mandays
