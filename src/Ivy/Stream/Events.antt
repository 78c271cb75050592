-- ===== src/Ivy/Stream/Events.antt =====
-- What the processors read of a change event, ivy/pkg/kafka/debezium.go.
use meadow.Prelude.{Bool, true, false, String, Option, none, some, str_eq, if◌then◌else◌}
use meadow.Ivy.Merging.Clusters.Golden.{StagedEntity}

-- `entity` is what ToStagedEntity gives; it has the identifier of the row.
pub record StagedEntityRow : Type 0 where
  pub entity : StagedEntity
  pub fingerprint : String
  pub previous_fingerprint : String
  pub deleted_at : Option String

unfoldable pub is_row_deleted : StagedEntityRow → Bool
is_row_deleted row = elim row.deleted_at [
  | none ↦ false
  | some time ↦ if str_eq time "" then false else true
]

-- `table` is that of the source, and `after` what ParseStagedEntityRow gives: an error, nil, or a row.
pub record Payload : Type 0 where
  pub op : String
  pub table : String
  pub after : Option (Option StagedEntityRow)

unfoldable pub is_update : Payload → Bool
is_update p = str_eq p.op "u"

unfoldable pub is_delete : Payload → Bool
is_delete p = str_eq p.op "d"
