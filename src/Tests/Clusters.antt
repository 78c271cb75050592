-- ===== src/Tests/Clusters.antt =====
-- Tests of the models of ivy/pkg/merging/engine.go and ivy/pkg/processor/deletion_processor.go.
use meadow.Prelude.{
  if_either, if◌then◌else◌, Yields, lookup, All, ℕ, ◌≡◌, Bool, true, false, String, Option, none,
  some, List, [], ◌∷◌, refl, inl, inr, Ensures, map, sym, ◌∙◌,
}
use meadow.Prelude.Sorting.{SortSlice, insertion_sort}
use meadow.Json.{text}
use meadow.Ivy.Matching.Defs.{MatchOutcome}
use meadow.Ivy.Merging.Fields.Defs.{EntityData, longest, FieldValue}
use meadow.Ivy.Merging.Clusters.Store.{MergedEntity, EntityCluster, Store}
use meadow.Ivy.Merging.Clusters.Golden.{StagedEntity}
use meadow.Ivy.Merging.Clusters.Golden.{
  parse_entities, plain, strategy_for, strategy_map, priority_map, merge_fields,
}
use meadow.Ivy.Merging.Fields.Merge.{merge_field}
use meadow.Ivy.Merging.Clusters.Engine.{update_existing_cluster, MergeResult, Environment}
use meadow.Ivy.Merging.Clusters.Dispatch.{merge_with_matches}
use meadow.Ivy.Merging.Clusters.Members.{Active}
use meadow.Ivy.Merging.Clusters.Live.{Live}
use meadow.Ivy.Merging.Clusters.Statements.{IsConsistent}
use meadow.Ivy.Merging.Clusters.Together.{IsMerge}
use meadow.Ivy.Merging.Clusters.Outcome.{merge_with_matches-IsMerge}
use meadow.Ivy.Merging.Clusters.Record.{unless_nil, merge_fields-lookup}
use meadow.Ivy.Merging.Clusters.Primary.{Secondary, update_existing_cluster-Secondary}
use meadow.Ivy.Merging.Clusters.Store.{has_id, has_text}
use meadow.Ivy.Merging.Clusters.Engine.{merge_clusters}
use meadow.Ivy.Merging.Clusters.Success.{IsTidy}
use meadow.Ivy.Merging.Clusters.Total.{IsReliable, IsTidyMerge, merge_with_matches-Yields}
use meadow.Ivy.Deletion.Processor.{process_staged_entity_deletion}
use meadow.Ivy.Deletion.Consistent.{IsCleared, process_staged_entity_deletion-IsCleared}
use meadow.Ivy.Merging.Clusters.Blocked.{unblocked, merge_with_matches-unblocked}
use meadow.Ivy.Merging.Clusters.Unites.{Unites, merge_clusters-Unites}
use meadow.Tests.Base.{nat_float}

abbrev pub sort : SortSlice (FieldValue ℕ)
sort = insertion_sort

abbrev staged : String → ℕ → StagedEntity
staged id time = record {
  id = id;
  entity_type = "person";
  integration = "crm";
  content = id;
  updated_at = time;
}

abbrev pub ann : StagedEntity
ann = staged "ann" 1

abbrev pub anna : StagedEntity
anna = staged "anna" 2

abbrev merged : String → Option String → MergedEntity
merged id primary = record {
  id = id;
  entity_type = "person";
  content = "{}";
  source_count = 1;
  primary_source_id = primary;
  is_deleted = false;
  version = 1;
}

abbrev member : String → String → EntityCluster
member id staged_id = record {
  merged_entity_id = id;
  staged_entity_id = staged_id;
  is_primary = true;
  is_removed = false;
}

abbrev pub env : Environment ℕ ℕ
env = record {
  get_by_ids = λ ids. some (if has_text "anna" ids then anna ∷ [] else []);
  rewire_merged_entity = λ from to r. some r;
  get_by_key = λ key. some none;
  parse_schema = λ raw. some (record { properties = []; source_priorities = [] });
  unmarshal = λ content. ("name", text content) ∷ [];
  marshal = λ golden. some "golden";
  new_id = "m3";
}

abbrev pub two_clusters : Store ℕ
two_clusters = record {
  merged = merged "m1" (some "ann") ∷ merged "m2" (some "anna") ∷ [];
  clusters = member "m1" "ann" ∷ member "m2" "anna" ∷ [];
  relations = 0;
}

two_clusters-IsConsistent : IsConsistent two_clusters
two_clusters-IsConsistent = record { alive = alive; one = one }
  where
    alive : (m s : String) → Active m s two_clusters.clusters → Live m two_clusters.merged
    alive m s (inl (a, b, d)) = inl (a, refl)
    alive m s (inr (inl (a, b, d))) = inr (inl (a, refl))
    alive m s (inr (inr i)) = absurd i

    differ : (s : String) → "ann" ≡ s → "anna" ≡ s → ⊥
    differ s a b = cc (a, b)

    one :
        (m n s : String)
        → Active m s two_clusters.clusters
        → Active n s two_clusters.clusters
        → m ≡ n
    one m n s (inl (a, b, d)) (inl (x, y, z)) = sym a ∙ x
    one m n s (inl (a, b, d)) (inr (inl (x, y, z))) = absurd (differ s b y)
    one m n s (inr (inl (a, b, d))) (inl (x, y, z)) = absurd (differ s y b)
    one m n s (inr (inl (a, b, d))) (inr (inl (x, y, z))) = sym a ∙ x
    one m n s (inr (inr i)) j = absurd i
    one m n s i (inr (inr j)) = absurd j

abbrev found : List (MatchOutcome ℕ)
found =
    record {
      entity_id = "anna";
      score = 9;
      auto_merge = true;
      blocked = false;
      rule_matched = "r";
      details = [];
    }
    ∷ []

abbrev after : Option (MergeResult ℕ × Store ℕ) → Option (Bool × List Bool × List String)
after none = none
after (some (r, st)) =
    some (r.is_new, map (λ m. m.is_deleted) st.merged, map (λ c. c.merged_entity_id) st.clusters)

merge_with_matches-IsMerge_example :
    Ensures (IsMerge (ann ∷ [])) (merge_with_matches nat_float sort env ann found two_clusters)
merge_with_matches-IsMerge_example =
    merge_with_matches-IsMerge nat_float sort env ann found two_clusters two_clusters-IsConsistent

abbrev parsed : List (EntityData ℕ)
parsed = parse_entities env.unmarshal (ann ∷ anna ∷ [])

merge_fields-lookup_example :
    lookup "name" (merge_fields nat_float sort parsed (("name", plain longest) ∷ []) []).0
    ≡ unless_nil
        (merge_field nat_float sort "name" parsed
          (strategy_for (lookup "name" (strategy_map (("name", plain longest) ∷ []) [])))
          (priority_map [] [])).0
        none
merge_fields-lookup_example =
    merge_fields-lookup nat_float sort parsed "name" (("name", plain longest) ∷ []) []

update_existing_cluster-Secondary_example :
    Ensures
      (λ p. All (λ e. Secondary "m1" e.id (p.1).clusters) (ann ∷ []))
      (update_existing_cluster env (merged "m1" (some "ann")) (ann ∷ []) [] "{}" [] two_clusters)
update_existing_cluster-Secondary_example =
    update_existing_cluster-Secondary env (merged "m1" (some "ann")) "ann" (ann ∷ []) [] "{}" []
      two_clusters refl

two_clusters-IsTidy : IsTidy two_clusters
two_clusters-IsTidy = record {
  consistent = two_clusters-IsConsistent;
  not_removed = (refl, (refl, tt));
  distinct = ((refl, tt), (tt, tt));
}

env-IsReliable : IsReliable env
env-IsReliable = record {
  entities = λ ids.
      if_either (All (λ e. has_text e.id ids ≡ true)) (has_text "anna" ids) _ _ (λ e. (e, tt))
        (λ e. tt);
  rewires = λ from to r. (r, refl);
  schemas = λ key. (none, refl);
  parses = λ raw. (record { properties = []; source_priorities = [] }, refl);
  marshals = λ golden. ("golden", refl);
}

merge_with_matches-Yields_example :
    Yields (IsTidyMerge ann) (merge_with_matches nat_float sort env ann found two_clusters)
merge_with_matches-Yields_example =
    merge_with_matches-Yields nat_float sort env env-IsReliable ann two_clusters two_clusters-IsTidy
      (unfold has_id in refl) found

process_staged_entity_deletion-IsCleared_example :
    IsCleared "anna" two_clusters
      (process_staged_entity_deletion (λ merged_id relations. none) "anna" true two_clusters).1
process_staged_entity_deletion-IsCleared_example =
    process_staged_entity_deletion-IsCleared (λ merged_id relations. none) "anna" two_clusters
      two_clusters-IsConsistent

merge_clusters-Unites_example :
    Ensures
      (λ p. Unites (anna ∷ ann ∷ []) two_clusters.merged two_clusters p.0.merged_entity.id p.1)
      (merge_clusters env ann two_clusters.merged (anna ∷ ann ∷ []) [] "{}" [] two_clusters)
merge_clusters-Unites_example =
    merge_clusters-Unites env ann two_clusters.merged (anna ∷ ann ∷ []) [] "{}" [] two_clusters

-- A second match, which a no-merge rule blocks.
abbrev with_blocked : List (MatchOutcome ℕ)
with_blocked =
    record {
      entity_id = "hannah";
      score = 0;
      auto_merge = false;
      blocked = true;
      rule_matched = "n";
      details = [];
    }
    ∷ found

merge_with_matches-unblocked_example :
    merge_with_matches nat_float sort env ann with_blocked two_clusters
    ≡ merge_with_matches nat_float sort env ann (map unblocked with_blocked) two_clusters
merge_with_matches-unblocked_example =
    merge_with_matches-unblocked nat_float sort env ann two_clusters with_blocked (inr (inl refl))
