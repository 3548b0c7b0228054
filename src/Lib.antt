-- ===== src/Lib.antt =====
-- Verification of the deterministic engine of the repository: the contracts of the world
-- (packages/contracts/src), the engine over them (packages/core/src), the storage of sessions that
-- the engine's results are committed to (packages/runtime/src), the drafts that authors change, with
-- the store of the jobs in which an agent edits one (packages/control/src), and the plugin of checks by
-- a die (packages/plugins/src/dice-check.ts).
--
-- The engine is a set of pure functions on a world state: conditions are evaluated on it, batches of
-- effects change it, actions, tasks and social acts are resolved against it, and the scheduler moves
-- its clock over the events of an interval. All of them answer with a success or a failure value; none
-- changes its arguments. The model follows this: a state is a record, an operation is a function into
-- `Result`, and the failure is a record with the fields that the code fills in.
--
-- Parts and files:
--   Contracts.Value: the unknown values that guards read, as JSON builds them, with isRecord,
--     hasOnlyKeys and isId.
--   Contracts.World: packages/contracts/src/world-state.ts and hasValidWorldStateReferences of
--     references.ts.
--   Contracts.Effect, Contracts.Condition, Contracts.Social: gameplay-effect.ts, condition.ts and
--     social-act.ts. A guard isX is a function as_x into an option: the value as it is read.
--     Contracts.Effect.Form says what objects effects are, apart from the guard, and
--     Contracts.Effect.Guard compares the two.
--   Contracts.Authoring: the blocks and releases of authoring.ts, and hasValidQuestReleaseReferences of
--     references.ts.
--   Contracts.Event: scheduled-event.ts, scheduled-effect-event.ts, scheduled-terminal-event.ts and
--     scheduled-task.ts.
--   Core.Rng: packages/core/src/rng.ts. Core.Effects and Core.Resource: effects.ts. Core.Conditions:
--     conditions.ts. Core.Scheduler and Core.Advance: scheduler.ts (planTimeAdvance and
--     applyTimeAdvancePlan), and orderedEffects of scheduler-replay.ts. Core.Process:
--     scheduler-process.ts. Core.Actions: actions.ts. Core.Tasks: tasks.ts. Core.Social: social.ts.
--   Runtime.Records: packages/runtime/src/storage.ts and the state of memory-storage.ts;
--     Runtime.Storage: its guards and its constructor. Runtime.Claim: claimOperation and renewLease. Runtime.Commit: commitTurn and
--     finishWithoutTurn. Runtime.Moves says what a call with its input may do to the storage; Runtime.Handlers,
--     Runtime.Holders and Runtime.Steps show that the calls do that; Runtime.Invariant and the modules
--     after it are about all storages that calls can lead to.
--   Control.Drafts: the changes of a draft, applyTrialChange and the loop of applyDraftChanges in
--     packages/control/src/memory-store.ts, with analyzeDraftBlockReferences of draft-history.ts.
--   The rest of Control: packages/control/src/author-agent-jobs.ts. Control.Facts: the facts of a
--     journal and the results of operations; Control.Records: jobs, operations and inputs; Control.Jobs: the functions
--     on them; Control.JobStore and Control.JobOperations: the calls of MemoryAuthorAgentJobStore.
--     Control.JobMoves says what a call may do to one job; the modules after it show that the calls do
--     that, and what follows for any sequence of calls.
--   Plugins: packages/plugins/src/dice-check.ts. Plugins.Narrative: templates and their placeholders, which
--     Plugins.Rendering describes apart from the scan;
--     Plugins.DiceCheck: definitions, the resolver, which draws once from the generator of Core.Rng, and
--     the projection of its plans; Plugins.Promise: what the result is to be; Plugins.Projection: the
--     code against it.
--   Prelude: numbers, texts, maps, lists, sorting and results that the parts share. Tests: runs of the
--     definitions and the theorems at concrete inputs.
--
-- How the parts meet: an event, an action and a batch all change the world through
-- tryApplyEffectBatch; applyTimeAdvancePlan and processTimeAdvancePlan take a plan of planTimeAdvance;
-- the handler of processTimeAdvancePlan is a parameter, any function of the event, the state and the
-- context that returns events or fails.
--
-- The storage is explicit state: a call is a function from the storage to the next one and the result,
-- and its maps are association lists. The service time is an argument of each call, and a call at a
-- time that is no safe integer, which throws a RangeError, leaves the storage as it is. The factory of
-- operation ids, and the length of what JSON.stringify prints, are parameters, any functions.
-- So are what it prints of a list of effects, the test whether JSON.parse accepts a text and the order of localeCompare. A call on a job that
-- throws because a map has no entry has no answer. Versions of jobs are integers without a bound: a
-- version grows by one with each change, and a call that expects one refuses all but safe integers.
--
-- Numbers are integers: the code works with safe integers and tests each result for being one, and a
-- number of an unknown value is an integer, a fraction or not finite. 32-bit arithmetic of the
-- generator is written out modulo 2 ^ 32. Texts are lists of UTF-16 units, so that length and
-- comparison are those of the language. Frozen copies are the values themselves, and arrays have no
-- holes. An own key `__proto__` in the args of a social act, which freezeJsonRecord of social.ts would
-- take for a prototype, is outside the model.
--
-- Bounds: isCondition is followed through 33 levels, which is the depth that the code allows, and
-- isJsonValue of social-act.ts through 17, that of memory-storage.ts through 21. The loop
-- of processTimeAdvancePlan runs on maxSteps as its fuel: each round processes one event
-- and the code itself fails when maxSteps of them are processed and the queue is not empty, so the fuel ends where the code does.
--
-- Not modelled: the compiler (compile.ts) and the check of a replay, the scene and presentation
-- contracts, the storage on SQLite, the guests' access and the traces of playtests in
-- packages/runtime, the jobs on SQLite, the store of drafts around
-- their changes and the other files of packages/control, and the host of
-- plugins, and the other packages around the engine (ai, assets, player) with the applications: HTTP,
-- rendering and calls of providers.
pub mod Prelude
pub mod Contracts
pub mod Core
pub mod Runtime
pub mod Control
pub mod Plugins
mod Tests
