-- ===== src/Lib.antt =====
-- Verification of scheduler0: a distributed scheduler of jobs, written in Go. A leader assigns
-- the jobs of a batch to nodes and hands out the accounts' quotas; each node schedules its own
-- jobs, invokes them when they are due, and puts them at their next time.
--
-- Parts, and the files that model them:
--   Prelude            lists, Go maps as association lists, int64 and uint64, sorting
--   Models             the shared records of pkg/models (job.go, job_queues.go, job_schedule.go,
--                      job_execution_log.go); an instant is a number of nanoseconds, 0 the zero time
--   JobTime            pkg/models/job.go: GetNextExecutionTime is get_next_execution_time,
--                      GetNextExecutionId, HasJobEnded and IsStartDateInPast likewise
--   ScheduleQueue      pkg/models/schedule_queue.go: the heap of pending executions; AddJob is
--                      add_job, Pop is pop, RemoveJob is remove_job, GetAllItems is get_all_items
--   Queue              pkg/service/queue/queue.go: Queue is enqueue, assignJobsByAccountToServers
--                      is assign_jobs_by_account_to_servers
--   Queue/Quota        the same file: AllocateQuotasForJobQueue, one account at a time
--   Executor           pkg/service/executor/executor.go: the state of a node's executor and the
--                      operations on its cache, queue and local quotas
--   Executor/Due       the same file: the loop of ListenForJobsToInvokeV1 over due keys is take_due
--   Executor/Batches   the same file: QueueExecutions is queue_executions
--   Executor/Reschedule  the same file: reschedule, one job of the batch at a time
--   Executor/Recovery  the same file: ScheduleJobs is schedule_jobs, which puts each job in the
--                      queue by the last log of its execution
--   Executor/Invocation  the same file: invokeJobsV1 is invoke_jobs; a call of a handler of
--                      pkg/service/executor/executors is a value of Invocation
--   Executor/Results   the same file: handleSuccessJobs and handleFailedJobs are handle_job,
--                      handleJobsBatch is handle_jobs_batch
--   Executor/Reports   the same file: ReportExecutions is report_executions
--   AiCredits          pkg/repository/account_ai_credits/account_ai_credits.go: the AI credits of
--                      accounts and their ledger; Ensure is ensure, ApplyDelta is apply_delta,
--                      UpdateAutoTopup is update_auto_topup
--   AiCredits/Service  pkg/service/ai_credits/ai_credits.go: ChargePlatformRun is
--                      charge_platform_run, Credit is credit
--   AsyncTask          pkg/service/async_task/async_task.go: UpdateTasksById is update_tasks_by_id,
--                      GetTaskBlocking is get_task_blocking, a round of ListenForNotifications listen;
--                      AsyncTask/Steps has them as a step relation
--   Node               messages between two nodes
--   Node/Stream        connections as io and encoding/binary read them
--   Node/Payloads      pkg/models/payload.go and the payloads beside it: WriteTo is write_to,
--                      ReadFrom read_from; decode of pkg/service/node/tcp_client.go is decode
--   Node/Server        pkg/service/node/tcp_server.go: a connection of SetupTCPListener is serve
--   Node/Client        pkg/service/node/tcp_client.go: withRetry is with_retry, SendQuotaAllocation
--                      send_quota_allocation, and so on
--   Node/FanIn         pkg/service/node/peer_communication.go: FanInLocalDataFromPeersSync is
--                      fan_in_local_data_sync; HandleRaftLeadershipChanges of raft_cluster.go is
--                      handle_raft_leadership_changes
--   Node/Membership    pkg/service/node/raft_cluster.go: ReconcileRaftMembershipWithPeers is
--                      reconcile_raft_membership; RemoveNode, AddNode, PromoteNode, DemoteNode and
--                      the node's own two are in Node/Membership/Operations
--   RaftStore          pkg/fsm/fsm_actions.go and fsm_store.go: ApplyRaftLog is apply_raft_log,
--                      dbExecute db_execute, ApplyBatch apply_batch; ListenOnInputQueues of
--                      pkg/service/node/event_handler.go is listen_on_input_queues
--   RaftStore/Snapshot pkg/fsm/fsm_snapshot.go, BytesFromSnapshot of pkg/utils/misc.go, and Restore
--   RaftStore/Recovery RecoverRaftState of pkg/fsm/fsm_store.go is recover_raft_state; what it calls
--                      of pkg/shared_repo/shared_repo.go and pkg/db/db.go (RunMigrations) is in
--                      RaftStore/SharedRepo
--   Dispatcher         pkg/utils/dispatcher.go and worker.go: NoBlockQueue is queue_work; dispatch,
--                      assign and the workers' loop are steps, each up to its next channel
--   Processor          pkg/service/processor/processor.go: StartJobs is start_jobs, RecoverJobs
--                      recover_jobs
--   SendTime           pkg/service/sendtime/sendtime.go: which instants suit a sender and recipients;
--                      evaluate is evaluate, recipientValid is recipient_valid and blocking
--   SendTime/Select    the same file: selectSuggestions is select_suggestions
--   Batcher            pkg/utils/batcher.go: Batch is batch
--   Tests              the theorems at concrete inputs
--
-- How they interact: the leader's Queue writes job queue logs, which are entries of the raft
-- log; RaftStore applies them and tells the nodes they name, where QueueExecutions reads them,
-- fetches the jobs of their range of ids and schedules its own; due jobs are taken from the
-- ScheduleQueue and handed to handlers by Invocation; when a run ends, Results logs it and calls
-- reschedule, which takes a unit of the quota that AllocateQuotasForJobQueue sent, asks JobTime
-- for the next time, and adds the job to the ScheduleQueue again.
--
-- A new leader fetches by Node/FanIn what the others have not committed, and then starts. When a
-- node starts, Processor queues the active jobs, or has those that were queued before scheduled
-- again. ScheduleJobs, which a node calls with the jobs of its queue, asks JobTime for the next
-- time too. The calls of handlers are work of the Dispatcher. The quotas that the leader hands
-- out, and its commands, are messages of Node/Client, which Node/Server answers. Batcher serves
-- the repositories, which write rows in batches. SendTime stands alone: the server asks it for
-- suggestions, and no job depends on it. AsyncTask serves the HTTP server and the node, which
-- wait for tasks. AiCredits stands alone too, which the prompt services ask before and after a
-- run.
--
-- State is passed explicitly; an operation that can panic returns an Option, and what a part
-- asks of another is an event. Errors of repositories are inputs of the model; in AiCredits each
-- call of raft or the database takes the next outcome of a list: done, refused, or in effect
-- with its answer lost. Mutexes are not modelled: each operation is one step; in AsyncTask and
-- Dispatcher the steps come in any order. Machine integers wrap around at their width (% 2 ^
-- 64); job ids are uint64, converted to int64 where the code does.
--
-- Bounds and fuel: the loops of the heap have the length of the heap as fuel, the search for a
-- next time the present time plus one (a tick moves time forward), and the loop over batches the
-- number of ids and one more (each batch takes at least one id). Numbers that pass through
-- float64 in QueueExecutions are exact up to 2 ^ 53; job ids beyond it are outside the theorems
-- on batches.
--
-- Outside the model: the cron parser, the time zone database and SHA-256 (fields of Calendar),
-- the local time of a participant and the coverage ratio (fields of SendTime's records), scores,
-- sums of dollars as floats (fields of Dollars), HTTP, SQLite and gzip (fields of Engine,
-- Statements and Files), raft's stores (RaftFiles), what raft and etcd make of a change of the membership
-- (Refusals, Raft, Etcd), Protocol Buffers and JSON (fields of Codec and Engine), TLS and
-- multiplexing (a Stream is a list of pieces), and what the handlers do with a call.
-- pkg/network/pool and pkg/network/stls are copies of other projects' libraries. executor.go
-- holds both sides of an unresolved merge; the model follows the side marked HEAD. A Go map is
-- visited in an order that Go leaves open; the model takes the order of insertion.
pub mod Prelude
pub mod Models
pub mod JobTime
pub mod Queue
pub mod ScheduleQueue
pub mod Executor
pub mod Dispatcher
pub mod SendTime
pub mod Batcher
pub mod AiCredits
pub mod AsyncTask
pub mod Node
pub mod RaftStore
pub mod Processor
pub mod Tests
