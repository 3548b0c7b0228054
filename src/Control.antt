-- ===== src/Control.antt =====
-- packages/control/src: changes of drafts, and the jobs of the agent that edits one.
pub mod Drafts
pub mod Facts
pub mod Records
pub mod Jobs
pub mod JobStore
pub mod JobOperations
pub mod JobMoves
pub mod JobHandlers
pub mod JobSteps
pub mod JobRows
pub mod JobHistory
pub mod JobLasting
pub mod JobAnswers
pub mod JobCompletion
pub mod JobReplies
pub mod JobPromises
pub mod JobProgress
