-- ===== src/Ivy/Stream/Messages.antt =====
-- One message to a processor of ivy/pkg/processor, on tables in which no cluster is empty.
use meadow.Prelude.{
  Bool, String, Option, none, some, sym, subst, Ensures, >>=-Ensures, str_eq, if_either,
}
use meadow.Ivy.Merging.Clusters.Store.{Store}
use meadow.Ivy.Merging.Clusters.Golden.{StagedEntity}
use meadow.Ivy.Merging.Clusters.Engine.{MergeResult}
use meadow.Ivy.Matching.Indexing.{index_entity}
use meadow.Ivy.Matching.Service.{find_matches}
use meadow.Ivy.Deletion.Processor.{process_staged_entity_deletion}
use meadow.Ivy.Stream.Events.{StagedEntityRow, is_row_deleted, Payload, is_delete, is_update}
use meadow.Ivy.Stream.Merges.{Services, after_merge, match_and_merge, process_row, process_parsed}
use meadow.Ivy.Stream.Merges
use meadow.Ivy.Stream.Deletions.{process_entity, process_relationship}
use meadow.Ivy.Stream.Deletions
use meadow.Ivy.Stream.Settled.{IsSettled, merge_with_matches-IsSettled}
use meadow.Ivy.Stream.Cascade.{
  process_staged_entity_deletion-IsSettled, handle_deleted_staged_entity_lem,
}

module _ {R : Type 0} where
  abbrev SettledResult : Bool × Store R → Type 0
  SettledResult p = IsSettled p.1

  pub relations-IsSettled :
      (relations : R) (st : Store R)
      → IsSettled st
      → IsSettled (record st { relations = relations })
  relations-IsSettled relations st h = record {
    consistent = record { alive = h.consistent.alive; one = h.consistent.one };
    distinct = h.distinct;
    occupied = h.occupied;
  }

module _ {F D R : Type 0} (services : Services F D R) (st : Store R) (h : IsSettled st) where
  after_merge-IsSettled :
      (entity : StagedEntity) (o : Option (MergeResult F × Store R))
      → Ensures (λ p. IsSettled p.1) o
      → IsSettled (after_merge services entity st o).1
  unfolding after_merge
  after_merge-IsSettled entity none g = h
  after_merge-IsSettled entity (some (r, after)) g = relations-IsSettled _ after g

  match_and_merge-IsSettled :
      (entity : StagedEntity) → Ensures (λ p. IsSettled p.1) (match_and_merge services entity st)
  unfolding match_and_merge
  match_and_merge-IsSettled entity =
      >>=-Ensures (λ p. IsSettled p.1)
        (index_entity services.extraction entity.id entity.content services.match_rows) _
        (λ rows.
          >>=-Ensures (λ p. IsSettled p.1)
            (find_matches services.score_ops services.sort_outcomes services.config
              (services.queries rows) entity.id)
            _
            (λ results.
              merge_with_matches-IsSettled services.float services.sort_values services.engine
                entity st h results.matches))

  process_row-IsSettled : (row : StagedEntityRow) → IsSettled (process_row services row st).1
  unfolding process_row
  process_row-IsSettled row =
      if_either SettledResult (is_row_deleted row) _ _
        (λ e. subst IsSettled (sym (handle_deleted_staged_entity_lem services row.entity.id st)) (
          process_staged_entity_deletion-IsSettled services.soft_delete_relations row.entity.id st
            h))
        (λ e.
          if_either SettledResult (str_eq row.fingerprint row.previous_fingerprint) _ _ (λ g. h)
            (λ g. after_merge-IsSettled row.entity _ (match_and_merge-IsSettled row.entity)))

  process_parsed-IsSettled :
      (o : Option (Option StagedEntityRow)) → IsSettled (process_parsed services o st).1
  unfolding process_parsed
  process_parsed-IsSettled none = h
  process_parsed-IsSettled (some none) = h
  process_parsed-IsSettled (some (some row)) = process_row-IsSettled row

  pub merging-IsSettled : (p : Option Payload) → IsSettled (Merges.process_message services p st).1
  unfolding Merges.process_message
  merging-IsSettled none = h
  merging-IsSettled (some p) =
      if_either SettledResult (is_delete p) _ _ (λ e. h) (λ e. process_parsed-IsSettled p.after)

module _ {R : Type 0} (soft_delete_relations : String → R → Option R)
    (delete_relationship : Payload → R → Bool × R) (st : Store R) (h : IsSettled st) where
  process_entity-IsSettled :
      (o : Option (Option StagedEntityRow))
      → IsSettled (process_entity soft_delete_relations delete_relationship o st).1
  unfolding process_entity process_staged_entity_deletion
  process_entity-IsSettled none = h
  process_entity-IsSettled (some none) = h
  process_entity-IsSettled (some (some row)) =
      if_either SettledResult (is_row_deleted row) _ _
        (λ e. process_staged_entity_deletion-IsSettled soft_delete_relations row.entity.id st h)
        (λ e. h)

  pub deletion-IsSettled :
      (p : Option Payload)
      → IsSettled (Deletions.process_message soft_delete_relations delete_relationship p st).1
  unfolding Deletions.process_message process_relationship
  deletion-IsSettled none = h
  deletion-IsSettled (some p) =
      if_either SettledResult (is_update p) _ _
        (λ e.
          if_either SettledResult (str_eq p.table "staged_entities") _ _
            (λ g. process_entity-IsSettled p.after)
            (λ g.
              if_either SettledResult (str_eq p.table "staged_relationships") _ _
                (λ k. relations-IsSettled _ st h) (λ k. h)))
        (λ e. h)
