-- ===== src/Ivy/Stream/Runs.antt =====
-- The tables merged_entities and entity_clusters under any sequence of messages to the processors of
-- ivy/pkg/processor, one after the other, from empty tables.
use meadow.Prelude.{Bool, String, Option, []}
use meadow.Ivy.Merging.Clusters.Store.{Store}
use meadow.Ivy.Stream.Events.{Payload}
use meadow.Ivy.Stream.Merges.{Services, after_merge, match_and_merge, process_row, process_parsed}
use meadow.Ivy.Stream.Merges
use meadow.Ivy.Stream.Deletions.{process_entity, process_relationship}
use meadow.Ivy.Stream.Deletions
use meadow.Ivy.Stream.Settled.{IsSettled}
use meadow.Ivy.Stream.Messages.{relations-IsSettled, merging-IsSettled, deletion-IsSettled}

-- One message to a processor, or a write to the merged relationships. The services may answer
-- differently each time.
pub data Step (F D R : Type 0) : Store R → Store R → Type 0 where
  merging :
      (services : Services F D R) (p : Option Payload) (st : Store R)
      → Step F D R st (Merges.process_message services p st).1
  deletion :
      (soft_delete_relations : String → R → Option R) (delete_relationship : Payload → R → Bool × R)
      (p : Option Payload) (st : Store R)
      → Step F D R st (Deletions.process_message soft_delete_relations delete_relationship p st).1
  relating : (relations : R) (st : Store R) → Step F D R st (record st { relations = relations })

abbrev pub no_tables : {R : Type 0} → R → Store R
no_tables relations = record { merged = []; clusters = []; relations = relations }

pub data Reach (F D R : Type 0) : Store R → Type 0 where
  start : (relations : R) → Reach F D R (no_tables relations)
  later : {st st' : Store R} → Reach F D R st → Step F D R st st' → Reach F D R st'

module _ {R : Type 0} where
  no_tables-IsSettled : (relations : R) → IsSettled (no_tables relations)
  no_tables-IsSettled relations = record {
    consistent = record { alive = λ m s i. absurd i; one = λ m n s i j. absurd i };
    distinct = tt;
    occupied = λ n l. absurd l;
  }

module _ {F D R : Type 0} where
  Step-IsSettled : {st st' : Store R} → Step F D R st st' → IsSettled st → IsSettled st'
  Step-IsSettled (merging services p st) h = merging-IsSettled services st h p
  Step-IsSettled (deletion relations relationship p st) h =
      deletion-IsSettled relations relationship st h p
  Step-IsSettled (relating relations st) h = relations-IsSettled relations st h

  -- Whatever messages the processors are given, one after the other from empty tables, whatever the services
  -- answer and whether or not they fail, if statements on the two tables fail only for a key or a row
  -- that is not found: no two golden records have one identifier; a staged entity is active in one cluster
  -- at most; the cluster of an active member is not deleted; and a cluster that is not deleted has an active
  -- member.
  pub Reach-IsSettled : {st : Store R} → Reach F D R st → IsSettled st
  Reach-IsSettled (start relations) = no_tables-IsSettled relations
  Reach-IsSettled (later r s) = Step-IsSettled s (Reach-IsSettled r)
