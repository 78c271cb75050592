-- ===== src/Ivy/Merging/Clusters/Store.antt =====
-- The tables merged_entities and entity_clusters (ivy/pkg/models/merge.go) of one tenant, and what
-- the statements of ivy/internal/repositories/mergedentity/repository.go do to them. `none` is an
-- error of a statement, which aborts the transaction.
use meadow.Prelude.{
  ℕ, ◌+◌, Bool, true, false, not, ◌&&◌, String, Option, none, some, List, [], ◌∷◌, ◌++◌, str_eq,
  if◌then◌else◌,
}

-- The times are left out: the rows of a table stand in the order of their creation.
pub record MergedEntity : Type 0 where
  pub id : String
  pub entity_type : String
  pub content : String
  pub source_count : ℕ
  pub primary_source_id : Option String
  pub is_deleted : Bool
  pub version : ℕ

pub record EntityCluster : Type 0 where
  pub merged_entity_id : String
  pub staged_entity_id : String
  pub is_primary : Bool
  pub is_removed : Bool

-- `relations` is what RewireMergedEntity of the merged relationships works on.
pub record Store (R : Type 0) : Type 0 where
  pub merged : List MergedEntity
  pub clusters : List EntityCluster
  pub relations : R

-- An active row of the table merged_entities under an identifier.
abbrev pub is_live : String → MergedEntity → Bool
is_live id m = str_eq m.id id && not m.is_deleted

unfoldable pub has_id : String → List MergedEntity → Bool
has_id id [] = false
has_id id (m ∷ ms) = if str_eq m.id id then true else has_id id ms

unfoldable pub behind_row :
    MergedEntity
    → Option (List MergedEntity × MergedEntity)
    → Option (List MergedEntity × MergedEntity)
behind_row m none = none
behind_row m (some (ms, changed)) = some (m ∷ ms, changed)

-- An UPDATE of the active row under an identifier, with the row after it; `none` is NotFound.
unfoldable pub change_live :
    String
    → (MergedEntity → MergedEntity)
    → List MergedEntity
    → Option (List MergedEntity × MergedEntity)
change_live id f [] = none
change_live id f (m ∷ ms) =
    if is_live id m then some (f m ∷ ms, f m) else behind_row m (change_live id f ms)

abbrev pub is_member : String → String → EntityCluster → Bool
is_member merged_id staged_id c =
    str_eq c.merged_entity_id merged_id && str_eq c.staged_entity_id staged_id

-- The unique index on staged entities that are active in a cluster.
unfoldable pub is_active_elsewhere : String → String → List EntityCluster → Bool
is_active_elsewhere merged_id staged_id [] = false
is_active_elsewhere merged_id staged_id (c ∷ cs) =
    if not c.is_removed
      && (str_eq c.staged_entity_id staged_id && not (str_eq c.merged_entity_id merged_id))
    then true
    else is_active_elsewhere merged_id staged_id cs

-- INSERT … ON CONFLICT DO UPDATE.
unfoldable pub upsert_member : String → String → Bool → List EntityCluster → List EntityCluster
upsert_member merged_id staged_id primary [] =
    record {
      merged_entity_id = merged_id;
      staged_entity_id = staged_id;
      is_primary = primary;
      is_removed = false;
    }
    ∷ []
upsert_member merged_id staged_id primary (c ∷ cs) =
    if is_member merged_id staged_id c
    then record c { is_primary = primary; is_removed = false } ∷ cs
    else c ∷ upsert_member merged_id staged_id primary cs

unfoldable pub has_member : String → String → List EntityCluster → Bool
has_member merged_id staged_id [] = false
has_member merged_id staged_id (c ∷ cs) =
    if is_member merged_id staged_id c then true else has_member merged_id staged_id cs

abbrev pub is_active_in : String → EntityCluster → Bool
is_active_in merged_id c = str_eq c.merged_entity_id merged_id && not c.is_removed

-- A member that moves must not have a row in the other cluster, active or not.
unfoldable pub collides : String → String → List EntityCluster → List EntityCluster → Bool
collides from to all [] = false
collides from to all (c ∷ cs) =
    if is_active_in from c && has_member to c.staged_entity_id all
    then true
    else collides from to all cs

unfoldable pub move_rows : String → String → List EntityCluster → List EntityCluster
move_rows from to [] = []
move_rows from to (c ∷ cs) =
    (if is_active_in from c then record c { merged_entity_id = to } else c) ∷ move_rows from to cs

unfoldable pub has_text : String → List String → Bool
has_text s [] = false
has_text s (t ∷ ts) = if str_eq t s then true else has_text s ts

-- The JOIN of GetMergedEntitiesByStagedIDs.
unfoldable pub holds_any : String → List String → List EntityCluster → Bool
holds_any merged_id ids [] = false
holds_any merged_id ids (c ∷ cs) =
    if is_active_in merged_id c && has_text c.staged_entity_id ids
    then true
    else holds_any merged_id ids cs

unfoldable pub holding : List String → List EntityCluster → List MergedEntity → List MergedEntity
holding ids cs [] = []
holding ids cs (m ∷ ms) =
    let rest = holding ids cs ms in
    if not m.is_deleted && holds_any m.id ids cs then m ∷ rest else rest

module _ {R : Type 0} where
  unfoldable pub create : MergedEntity → Store R → Option (Store R)
  create m st =
      if has_id m.id st.merged then none else some (record st { merged = st.merged ++ m ∷ [] })

  unfoldable pub change_merged :
      String → (MergedEntity → MergedEntity) → Store R → Option (MergedEntity × Store R)
  change_merged id f st = elim (change_live id f st.merged) [
    | none ↦ none
    | some (ms, m) ↦ some (m, record st { merged = ms })
  ]

  -- `Update`
  unfoldable pub update_merged : String → String → ℕ → Store R → Option (MergedEntity × Store R)
  update_merged id content source_count st =
      change_merged id
        (λ m. record m { content = content; source_count = source_count; version = m.version + 1 })
        st

  unfoldable pub soft_delete : String → Store R → Option (MergedEntity × Store R)
  soft_delete id st = change_merged id (λ m. record m { is_deleted = true }) st

  unfoldable pub add_to_cluster : String → String → Bool → Store R → Option (Store R)
  add_to_cluster merged_id staged_id primary st =
      if is_active_elsewhere merged_id staged_id st.clusters
      then none
      else some (record st { clusters = upsert_member merged_id staged_id primary st.clusters })

  unfoldable pub move_cluster_members : String → String → Store R → Option (Store R)
  move_cluster_members from to st =
      if collides from to st.clusters st.clusters
      then none
      else some (record st { clusters = move_rows from to st.clusters })

  unfoldable pub get_merged_entities_by_staged_ids : List String → Store R → List MergedEntity
  get_merged_entities_by_staged_ids ids st = holding ids st.clusters st.merged
