-- ===== src/Lib.antt =====
-- depengine installs tools from a manifest. Before it installs a candidate it prepares the host
-- (adds sources, trusts keys, installs prerequisites), and it must be able to undo this preparation,
-- or to leave it in place where other tools use it, also after a crash. Tools are installed in the
-- order of their dependencies. This library models that core, the packages internal/plan and
-- internal/graph and the version comparison of internal/platform, as pure functions on the values
-- that the program persists or computes.
--
-- The parts, and the files that model them:
--   Prelude            lists, tables, texts and results that the other modules share
--   Plan/Operation     internal/plan/plan.go: Operation and Operation.Validate
--   Plan/Reference     internal/plan/source.go, internal/plan/lock.go, internal/run/redact.go:
--                      references without credentials and their canonical form
--   Plan/Resource      internal/plan/preparation.go: ResourceIdentity and prerequisite resources
--   Plan/Ownership     internal/plan/preparation.go: OwnedResourceState, ClaimResource and
--                      ReleaseResource; Ledger has the operations on lists of states
--                      (TrackResourceUses, ClaimResourceUses, ReleaseDependentResources,
--                      FinalizeReleasedResource)
--   Plan/Preparation   internal/plan/preparation.go: PreparationPlan, its validation, and the
--                      rollback that it allows (rollbackStepsFor, RollbackFor)
--   Plan/Cleanup       internal/plan/preparation.go: CleanupReleasedResources and
--                      FinalizeReleasedResourceCleanup
--   Plan/Journal       internal/plan/preparation.go: PreparationJournal, its validation, and in
--                      Transitions and Undoing every method that advances it
--   Plan/Replacement   internal/plan/replacement.go: ReplacementJournal and its transitions
--   Plan/Environment   internal/plan/environment.go, internal/plan/scope.go, and the reading of
--                      canonical keys in internal/plan/verification.go
--   Plan/Digest        internal/plan/lock.go: the syntax and the canonical form of digests
--   Plan/Identity      internal/plan/version.go and plan.go: VersionIntent, ResolvedIdentity, and
--                      their validation
--   Plan/Observation   internal/plan/verification.go: observations, results and identity fields
--   Plan/Verification  internal/plan/verification.go: Reconcile, and in Validation
--                      VerificationResult.Validate
--   Plan/Recovery      RecoveryFor of internal/plan/preparation.go, TransitionForVerification of
--                      internal/plan/lifecycle.go, ReplacementRecoveryFor of
--                      internal/plan/replacement.go
--   Graphs             internal/graph/ir.go: Graph, Canonicalize and SchedulingProjection
--   Graphs/Scheduling  internal/graph/sort.go: SortGraph (sort_graph) by levels, extractCycle, and
--                      in Tools the entry point Sort
--   Graphs/Slicing     internal/graph/slice.go: Graph.Slice and the breadth-first walk reach
--   Versions           internal/platform/version.go: CompareVersion
--   Examples           a concrete plan, and small graphs, on which the theorems are applied
--
-- How they interact: a journal is advanced against a plan and, in a rollback, against the recorded
-- owned resources. Each method is a function from the journal to a result, as in the program, where
-- the caller persists the returned journal before it acts. Plan/Journal/Run has the step relation
-- over these methods; its reachable journals are what may be found on disk after a crash.
--
-- Conventions: an error is the static part of its message. A string type with listed constants is a
-- data type with these constants and `unlisted` for any other spelling; an integer type with listed
-- constants has `unlisted n` for the value n + 1 above the last. Go's maps are tables whose
-- order no result depends on. A nil dereference or an index out of range, which validation excludes,
-- is an error. Loops are structural recursion on the lists they traverse; loops that count down from
-- the last index are recursion on the number of elements left. The loops of SortGraph, extractCycle
-- and reach are bounded by fuel: as many rounds as there are nodes, one step more than there are
-- remaining nodes, and as many visits as there are roots and edges; to run out of it is an outcome of
-- its own. Go's net/url and regexp packages,
-- its Unicode tables, its big integers and the redaction of free text by regular expressions are the
-- fields of `ReferenceLibrary` and `VersionLibrary`; no theorem assumes anything of them.
--
-- After a crash, RecoveryFor reads the journal, and where a commit was in progress it reconciles an
-- observation of the host with the desired identity.
--
-- Not modelled: hooks and locked reconciliation of internal/plan/lifecycle.go, redaction of printed
-- results, projections, layout and rendering of graphs, lock files, the durable store, the executor,
-- configuration and the adapters of package managers, which run commands and read files.
pub mod Examples
pub mod Graphs
pub mod Plan
pub mod Prelude
pub mod Versions
