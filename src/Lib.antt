-- ===== src/Lib.antt =====
-- Models and proofs of reposhift, the operator that migrates repositories from Azure DevOps to
-- GitHub.
--
-- The program is a set of Kubernetes controllers over custom resources. A controller is called
-- with the name of a resource, reads it, does a step of the work, writes the resource's status
-- back, and says when it wants to be called again. The files here follow the parts of internal/:
--
-- Batch models the BatchMigrationReconciler of internal/controller/batchmigration_controller.go
-- with the types of api/v1. Batch/Types has the resource's spec and status. Batch/Env has what the
-- controller takes from outside: the clock, the random source, the API server, the secrets and
-- MigrationService.MigrateRepository. Batch/Action is a small state monad over the world and the
-- controller's copy of the status; a panic is an outcome. Batch/Changes has the assignments to the
-- status, Batch/Resources processResource and the loop over the resources, Batch/Retry retryBatch,
-- failBatch, markStale and calculateRetryDelay, Batch/Reconcile the handlers of the phases and
-- Reconcile itself. Batch/Closed gathers the conditions under which a property of a status
-- survives every assignment; Batch/Processed, Batch/Counters, Batch/Valid and Batch/Safety
-- establish them. Batch/Runs runs the reconciler of any worker any number of times on what the
-- server stores. The server may refuse an update, and a refused update leaves the stored status as
-- it was; it hands the stored status to each call. Each call is one step: two calls do not
-- interleave.
--
-- Migration models the AdoToGitMigrationReconciler of
-- internal/controller/adotogitmigration_controller.go. Migration/Types has the resource,
-- Migration/Env what the controller takes from outside: the clock, the API server, and each call
-- of a service as a Request with its Response; what the code reads of secrets, GitHub, Azure
-- DevOps and the migration service are answers of the environment. Migration/Action is the state
-- monad over the world, the controller's copy of the object and what it tells, and Action/Fallible
-- the same with errors; a panic, at a nil pointer or an index out of range, is an outcome.
-- Migration/Tokens has the credentials, Migration/Conditions setCondition
-- and removeCondition, Migration/Restart restartMigrationForSpecChange with its comparison in
-- Restart/Diff and the statuses that differ from no resource in Restart/Mirrors (the map of statuses is the list, the map of removed identifiers a list of each
-- once), Migration/Repository and Migration/Code the steps of processRepository,
-- Migration/Resource processResource, Migration/Running processRunning, completeMigration and
-- failMigration, Migration/Validate, Migration/Sync and Migration/Annotations the handlers of
-- those names, and Migration/Reconcile the rest and Reconcile itself. Migration/Keeps has the
-- rules for invariants of actions and Keeps/Returns those for their results, Migration/Valid and Migration/Safety the invariant and its
-- preservation by every handler. Migration/Runs has the worlds that reconciliations lead to, with
-- changes of the specification, the annotations and the deletion by users in between. Each call is
-- one step, as above.
--
-- MonoRepo models the MonoRepoMigrationReconciler of
-- internal/controller/monorepomigration_controller.go with the steps of
-- internal/services/monorepo_migration.go that it calls, and FilterBranches of
-- internal/services/migration.go. MonoRepo/Types has the resource, MonoRepo/Env what the code
-- takes from outside: the clock, the API server, each command of git, each access to files, GitHub
-- and the clone service as a Request with its Response, sort.Slice, filepath.Match, fmt.Sscanf and
-- the order in which the clones of a batch end. MonoRepo/Action has the state of a reconciliation,
-- the monad being the one of Common/State. MonoRepo/Tokens has the credentials, MonoRepo/Branches
-- the branch filter and the reading of what git lists, MonoRepo/Git RewriteRepoToSubdirectory and
-- collectBranchesAndTags, MonoRepo/Assemble InitMonoRepo, MergeRepoIntoMonoRepo and PushMonoRepo,
-- MonoRepo/Progress the counters, failures and workspaces, MonoRepo/Cloning processCloning,
-- MonoRepo/Merging processRewriting and processMerging, MonoRepo/Pushing processPushing,
-- MonoRepo/Validate processValidating and ValidateMonoRepoMigration, with the configurations that
-- are accepted in Validate/Subdirectories, MonoRepo/Annotations handleAnnotations and
-- retryMigration, MonoRepo/Reconcile the rest and Reconcile itself. Paths are joined as texts, and
-- the clones of a batch, which run side by side in the program, run one after the other in the
-- order in which their results come. MonoRepo/Machine is the specification: the moves from one
-- stored status to the next, with the order of the phases in Machine/Order and what is left to do
-- in Machine/Measure. MonoRepo/Steady and MonoRepo/Saves say what the API server keeps between two
-- updates, MonoRepo/Refines follows the handlers to the moves that they make, and MonoRepo/Runs
-- has the worlds that reconciliations and users lead to. A user changes everything but the status;
-- a restart of the operator forgets the workspaces. Each call is one step, as above, and reads the
-- status that is stored. MonoRepo/Merged compares the branches that a merge works through with the
-- ones that it reports.
--
-- Smart models parts of internal/smart/engine.go. Smart/Breaker is the CircuitBreaker,
-- Smart/Matching contains, findSubstring and isRetryableError on the bytes of texts (code points
-- stand for bytes, as the patterns are ASCII), Smart/Retrying the loop of executeWithSmartRetry,
-- with the breaker's test, the limiter's wait, the operation and the pause as functions on a
-- state; its rounds are a number that decreases from the 6 that the loop allows. Smart/Planning
-- has calculateComplexity, estimateDuration (in seconds) and CalculateOptimalBatchSize of
-- internal/smart/artifacts.go, Smart/Groups identifyParallelGroups, whose map of processed names
-- is a list, Smart/Total estimateTotalDuration. Smart/Execution has ExecutePlan, ExecuteGroup and
-- executeSingleMigration, with the work on repositories, work items, artifacts and pipelines as
-- parameters; the migrations of a group run one after the other there, in place of the goroutines
-- that the program starts.
--
-- Cache models internal/cache/migration_cache.go. The map is a list of keys and entries, met in
-- the order of the list; the theorems hold for every list, so for any order in which Go visits a
-- map. Cache/Calls has the calls that change the cache as data.
--
-- Retry models internal/controller/errors.go (Retry/Errors, Retry/Backoff) and retry_handler.go
-- (Retry/Classify, Retry/Handler). The API server's update, the event, the message to the clients
-- and the printing of numbers and durations are parameters; a call that indexes out of range is a
-- panic that leaves the object as it is at that point.
--
-- StatusUpdate models internal/controller/status.go: UpdateStatusWithRetry, whose rounds are the
-- retries that are left, and in StatusUpdate/Batch the StatusBatcher, with the errors of its updates in
-- Batch/Flushing. StatusUpdate/Attempts puts an API server around another that counts the updates it
-- gets.
--
-- Limiter models the error counts of the AdaptiveRateLimiter of internal/services/ratelimiter.go
-- and the backoff that GetBackoff gives for them.
--
-- Common has the Boolean tests on native numbers, lists, signed integers, text, results, floats,
-- and in Common/State the monad of actions on a state, also with errors, and the rules for what
-- actions lead to. Go's float64 is a parameter with the operations that the code uses; where a
-- theorem needs exact products, it asks for what IEEE 754 grants on integers below 2^53.
--
-- Numbers are natural numbers without a bound where the code has int counters that only count up;
-- where the code may fall below 0 they are signed. Times and durations count nanoseconds, and
-- times keep their full precision when they are stored. Loops over lists are recursions on the
-- list, and no model needs more fuel than its loop has rounds.
--
-- Not modelled: the other controllers (work items, pipelines, discovery, projects, jobs), the
-- services that speak to Azure DevOps and GitHub, the API servers, websockets, metrics and the
-- start-up in cmd, AnalyzeAndPlan, the dependency graph and the artifact migrator in
-- internal/smart, CloneMonoRepoSource, the one-shot MigrateMonoRepo and CheckDiskSpace of the
-- monorepo service, and everything that is not Go. Logs, metrics, and the texts of events in
-- Batch, Migration and MonoRepo, are left out.
pub mod Common
pub mod Batch
pub mod Smart
pub mod Cache
pub mod Retry
pub mod Limiter
pub mod Migration
pub mod MonoRepo
pub mod StatusUpdate
