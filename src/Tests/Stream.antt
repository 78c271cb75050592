-- ===== src/Tests/Stream.antt =====
-- Tests of the models of ivy/pkg/processor/merge_processor.go, of the dispatch of
-- ivy/pkg/processor/deletion_processor.go and of IndexEntity in ivy/pkg/matching/service.go.
use meadow.Prelude.{ℕ, Bool, true, String, Option, none, some, List, [], ◌∷◌}
use meadow.Ivy.Matching.Defs.{MatchFieldRow}
use meadow.Ivy.Matching.Index.{MatchFields}
use meadow.Ivy.Matching.Indexing.{Extraction}
use meadow.Ivy.Merging.Clusters.Store.{Store}
use meadow.Ivy.Merging.Clusters.Golden.{StagedEntity}
use meadow.Ivy.Stream.Events.{Payload}
use meadow.Ivy.Stream.Merges.{Services}
use meadow.Ivy.Stream.Merges
use meadow.Ivy.Stream.Deletions
use meadow.Ivy.Stream.Settled.{IsSettled}
use meadow.Ivy.Stream.Runs.{Reach, start, later, merging, deletion, no_tables, Reach-IsSettled}
use meadow.Tests.Base.{nat_float}
use meadow.Tests.Matching.{whole, by_email, row}
use meadow.Tests.Service.{database, limits, sort_matches}
use meadow.Tests.Clusters.{ann, anna, env, sort}

-- Everybody has one email.
abbrev extraction : Extraction ℕ String
extraction = record {
  get_active_match_rules = some (by_email.rule ∷ []);
  parse_conditions = λ raw. some by_email.conditions;
  unmarshal = λ content. some content;
  extract_string = λ json field. some (some "ann@acme");
  normalize = λ value normalizer. value;
  soundex = λ value. value;
}

abbrev queries : List (MatchFieldRow ℕ) → MatchFields ℕ
queries rows = record database {
  get_match_fields = λ id. some rows;
  candidate_ids_from_conditions = λ id source conds limit. some ("ann" ∷ []);
  load_fields_for_candidates = λ ids. some (row "ann" "email" "ann@acme" ∷ []);
}

abbrev services : Services ℕ String ℕ
services = record {
  soft_delete_relations = λ merged_id relations. none;
  extraction = extraction;
  match_rows = [];
  queries = queries;
  score_ops = whole;
  sort_outcomes = sort_matches;
  config = limits;
  float = nat_float;
  sort_values = sort;
  engine = record env { get_by_ids = λ ids. some (ann ∷ anna ∷ []) };
  relationship_rules = λ entity m st. st.relations;
}

abbrev payload : StagedEntity → Option String → Option Payload
payload entity deleted_at = some (record {
  op = "u";
  table = "staged_entities";
  after = some (
      some (record {
        entity = entity;
        fingerprint = "new";
        previous_fingerprint = "old";
        deleted_at = deleted_at;
      }));
})

-- Two entities change, and one is deleted.
abbrev changed : StagedEntity → Store ℕ → Store ℕ
changed entity st = (Merges.process_message services (payload entity none) st).1

abbrev both : Store ℕ
both = changed anna (changed ann (no_tables 0))

abbrev drop_relations : String → ℕ → Option ℕ
drop_relations merged_id relations = some relations

abbrev ignore : Payload → ℕ → Bool × ℕ
ignore p relations = (true, relations)

abbrev without_ann : Store ℕ
without_ann = (Deletions.process_message drop_relations ignore (payload ann (some "today")) both).1

without_ann-Reach : Reach ℕ String ℕ without_ann
without_ann-Reach =
    later
      (later (later (start 0) (merging services (payload ann none) (no_tables 0)))
        (merging services (payload anna none) (changed ann (no_tables 0))))
      (deletion drop_relations ignore (payload ann (some "today")) both)

Reach-IsSettled_example : IsSettled without_ann
Reach-IsSettled_example = Reach-IsSettled without_ann-Reach
