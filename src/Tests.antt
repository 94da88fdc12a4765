-- ===== src/Tests.antt =====
-- The theorems at concrete inputs.
mod AiCredits
mod Queue
mod ScheduleQueue
mod Executor
mod SendTime
mod Recovery
mod AsyncTask
mod Invocation
mod Dispatcher
mod Node
mod RaftStore
mod Processor
mod FanIn
mod Membership
mod Operations
