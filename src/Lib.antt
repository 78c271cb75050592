-- ===== src/Lib.antt =====
-- Verification library of Meadow: the services that collect (Orchid), map (Lotus) and resolve
-- (Ivy) entities.
--
-- Orchid polls APIs and publishes what it finds; Lotus matches each message to bindings and maps
-- it; Ivy stages the mapped entities, scores them against each other, and merges those that match
-- into one golden record, field by field, while criteria select the entities of deferred
-- relations. Modelled are parts of Lotus and Ivy that decide rather than transport:
--
-- * Lotus/Binding models lotus/pkg/binding/matcher.go with the types of lotus/pkg/models. Defs has
--   the filter of a binding and its score for a message; Registry the matcher, whose state is the
--   bindings of each tenant, and every operation of it. The lock makes each call one step. The
--   other modules hold proofs: Runs is about sequences of calls.
-- * Lotus/Mapping models the mapping engine. Types has lotus/pkg/models/value_type.go, Fields
--   GetField of lotus/pkg/fields/fields.go, Links lotus/pkg/links/links.go, and Steps
--   lotus/pkg/steps/steps.go, where the registry of actions is a parameter; Steps/Typed holds
--   proofs. Plan has lotus/pkg/mapping/validate.go: the steps that are compiled are state that is
--   passed along. Run has ExecuteLink and the loop of ExecuteMapping over the source links of
--   lotus/pkg/mapping/mapping.go; its state is the inputs, pending counts and results of the steps,
--   while the target fields are a parameter with the operation that writes one. Paths has
--   GetFieldPaths and GetPathToField of lotus/pkg/fields/fields.go, Target the values of target
--   fields and setChildTargetFieldValueWithIndex, Writes setTargetFieldValueWithIndex, which fills
--   the parameter of Run, and the broadcasts, Output getTargetRawObject and AssignMapValue; Execute
--   puts ExecuteMapping together. The modules below Plan, Run, Target, Writes and Execute hold
--   proofs. Outcome has the errors and the fuel of all these.
-- * Ivy/Criteria models ivy/pkg/criteria/criteria.go. Paths has strings.Split on a dot,
--   getNestedValue and setNestedValue; Defs has ParseCriteria, SplitCriteria, evaluateCondition,
--   valuesEqual, compareNumeric, MatchesEntityData and MatchesCriteria; Containment has
--   BuildJSONBContainment; Nested, Operators and Split hold proofs. A condition that SplitCriteria
--   calls simple goes to the database, the others are evaluated in Go.
-- * Ivy/Matching models ivy/pkg/matching/service.go. Indexing has IndexEntity with
--   UpsertMatchFields of ivy/internal/repositories/matchfield/repository.go: its state is the rows
--   of the field index. Of FindMatches, Index has the queries on that index, Candidates
--   generateCandidates, Blocking the no-merge conditions, Scoring scoreRule and
--   evaluateSingleCandidate, Service FindMatches itself. The other modules hold proofs.
-- * Ivy/Scoring/Levenshtein models LevenshteinDistance of ivy/pkg/matching/scoring.go: Defs the
--   two-row loop on lists of bytes, Script the edit scripts and a recursive distance to compare
--   with, Table and Metric the proofs.
-- * Ivy/Merging/Fields models ivy/pkg/merging/field_merger.go with the types of
--   ivy/pkg/models/merge.go and entityDataWithMeta of ivy/pkg/merging/engine.go. Defs has the
--   values, their collection and the strategies that scan them; CollectAll has collectAll with its
--   state, `full` standing for the early return; Merge has detectConflict, the strategies that sort,
--   and MergeField. The other modules hold proofs.
-- * Ivy/Merging/Clusters models ivy/pkg/merging/engine.go. Store has the tables merged_entities and
--   entity_clusters with the statements of ivy/internal/repositories/mergedentity/repository.go and
--   the unique keys of ivy/db/pg/0003_merged_entities.up.sql; Golden has mergeFields, which calls
--   MergeField; Engine has createNewCluster, updateExistingCluster and consolidateClusters; Dispatch
--   has MergeWithMatches, which takes what FindMatches returns. The other modules hold proofs.
-- * Ivy/Deletion models what ivy/pkg/processor/deletion_processor.go does to the same tables when a
--   staged entity is deleted; Members and Consistent hold proofs.
-- * Ivy/Stream puts these together as the processors of change events do. Events has what they read
--   of an event (ivy/pkg/kafka/debezium.go); Merges models ivy/pkg/processor/merge_processor.go,
--   whose ProcessMessage indexes, matches and merges an entity or removes a deleted one; Deletions
--   has ProcessMessage of ivy/pkg/processor/deletion_processor.go. Runs has the sequences of such
--   messages as a step relation on the tables, where each message is one step and the services, the
--   field index among them, may answer differently each time. The other modules hold proofs.
--
-- Json has the values that encoding/json produces, with reflect.DeepEqual on them. A Go map is an
-- association list (Prelude/Maps) in the order in which a loop happens to meet its entries; where
-- that order could matter a theorem speaks of it. Prelude has Boolean tests, lists, integers with
-- a sign, calls that may fail (Options) and the contract of sort.Slice.
--
-- The databases are parameters where only queries matter: MatchFields has the queries of
-- FindMatches, Environment those of the merge engine on tables other than its own, the JSON codec
-- and the new identifier. The engine's own two tables are state, and of the statements on them
-- the errors are those of keys and of rows that are not found. An error is `none`: the
-- transaction is rolled back. The deletion of a staged entity has no transaction, and its result
-- carries what is left. A table is the rows of one tenant in the order of their creation, without
-- their times. A relation repository that is nil is one whose rewiring changes nothing.
--
-- The library ectolinq is a parameter: IsEmpty (Blanks), and Filter, Find and Map, of which Linq
-- states what the code relies on. At is called only at 0, on paths that are not empty, and read as
-- their first element. Fields of a record that no modelled code reads are left out, as are
-- identifiers for traces and the texts of errors.
--
-- Floats are a parameter F with the operations FloatOps (comparison, sum, strconv.ParseFloat,
-- fmt.Sprintf) and, for match scores, ScoreOps; F holds the floats but NaN, which no JSON number
-- denotes, and Float64 adds NaN for parsed text. FloatOrder and ScoreOrder state what a theorem
-- asks of them. The sort is a parameter that satisfies IsSort: a result has the members of its
-- input and nothing precedes what is less. All have concrete instances in the tests. fmt.Sprintf
-- is any function from values to text, so a theorem on texts says nothing on which values print
-- alike.
--
-- Loops are structural recursion, but for createStep, ExecuteLink and GetPathToField of the mapping
-- engine, which call themselves along the links or to the parent of a field. Their fuel is the depth
-- of the recursion. Shown to be enough is fuel above a rank of the steps, or above a level of the
-- target fields, or of a compiled mapping, above the number of its steps. Lengths are natural
-- numbers and Go's 64-bit overflow is not modelled; the greatest int with which shortest starts is
-- `none`. A time is its distance from Go's zero time.
--
-- Not modelled: HashCriteria (SHA-256 of marshalled JSON), the phonetic and Jaro-Winkler scores
-- of scoring.go, the extractor and the normalizers that IndexEntity calls, the parsing of change
-- events, what the processors do to relationships, the deletion engine, of
-- Lotus's mapping engine the extraction of source fields, which is reflection, and the pool of
-- mappings, Lotus's actions, Orchid, and all that is SQL, HTTP, Kafka, Redis or Memgraph
-- traffic. Tests runs the models on concrete inputs.
pub mod Prelude
pub mod Json
pub mod Ivy
pub mod Lotus
pub mod Tests
