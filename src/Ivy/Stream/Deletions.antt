-- ===== src/Ivy/Stream/Deletions.antt =====
-- ProcessMessage of ivy/pkg/processor/deletion_processor.go. The deletion of staged relationships is a
-- parameter: it changes the relationships only.
use meadow.Prelude.{Bool, true, false, String, Option, none, some, str_eq, if◌then◌else◌}
use meadow.Ivy.Merging.Clusters.Store.{Store}
use meadow.Ivy.Deletion.Processor.{process_staged_entity_deletion}
use meadow.Ivy.Stream.Events.{StagedEntityRow, is_row_deleted, Payload, is_update}

module _ {R : Type 0} (soft_delete_relations : String → R → Option R)
    (delete_relationship : Payload → R → Bool × R) where
  unfoldable pub process_entity : Option (Option StagedEntityRow) → Store R → Bool × Store R
  process_entity none st = (false, st)
  process_entity (some none) st = (true, st)
  process_entity (some (some row)) st =
      process_staged_entity_deletion soft_delete_relations row.entity.id (is_row_deleted row) st

  unfoldable pub process_relationship : Payload → Store R → Bool × Store R
  process_relationship p st =
      let (ok, relations) = delete_relationship p st.relations in
      (ok, record st { relations = relations })

  unfoldable pub process_message : Option Payload → Store R → Bool × Store R
  process_message none st = (false, st)
  process_message (some p) st =
      if is_update p
      then (if str_eq p.table "staged_entities"
          then process_entity p.after st
          else (if str_eq p.table "staged_relationships"
              then process_relationship p st
              else (true, st)))
      else (true, st)
