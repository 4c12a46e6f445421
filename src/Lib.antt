-- ===== src/Lib.antt =====
-- Verification of SHAR, a workflow engine on NATS: a process is a BPMN diagram, its state goes from
-- element to element as messages of a JetStream stream, and what handlers share stands in key-value
-- buckets.
--
-- The parts, and the files that model them (paths are the repository's):
--   Tracking      common/id.go: the identifiers of a state form a stack.
--   Errors        server/errors/errors.go: the sentinel errors; the outcome of a Go call, and of a
--                 handler (Errors/Exec), which keeps what it wrote before an error; conditions that
--                 a handler keeps on every outcome (Errors/Triple).
--   Nats          common/natsutil.go: load, save, the optimistic update (updateKV, UpdateObj) and the
--                 locks. The bucket is the parameter KeyValue; what its documentation promises is
--                 Documented.
--   Consumer      common/natsutil.go: one round of the loop of Process.
--   Model         proto/shar-workflow/models.proto, common/elementutil.go, common/state.go: the data.
--   Task          proto/shar-workflow/models.proto: the specification of a task.
--   Server        internal/server/workflow/operations.go, history.go, and completeActivity of
--                 engine.go: what the handlers share. The record Libraries holds the store, the
--                 stream and the source of identifiers; World holds the buckets and the stream.
--   Vars          server/vars/vars.go, internal/model/servervars.go: variables; msgpack and the
--                 expression engine are the parameters Codec and Expr.
--   Traversal     traverse of internal/server/workflow/engine.go: Select takes the outbound flows,
--                 Send sends a state along each.
--   Gateway       internal/server/workflow/gateway.go: Track reads the instance of a join, Merge
--                 merges variables (mergeGatewayVars), Handlers has the message handlers.
--   Exchange      internal/server/workflow/messages.go: senders and receivers meet.
--   Compensation  internal/server/workflow/compensation.go: the plan of Compensate.
--   UserTasks     openUserTask, closeUserTask and GetUserTaskIDs of
--                 internal/server/workflow/operations.go: the tasks of users and groups.
--   Instances     createExecution, createProcessInstance, destroyProcessInstance,
--                 xDestroyProcessInstance, deleteExecution and tearDownWorkflow of
--                 internal/server/workflow/operations.go: the life of executions. Registry is its
--                 abstract specification.
--   Engine        handlers of internal/server/workflow/engine.go. Jobs: completed and aborted jobs, and
--                 compensationJobComplete of compensation.go. Activities: activityCompleteProcessor.
--                 Tasks: the results of a client's tasks (CompleteServiceTask and the like of
--                 operations.go). Faults: HandleWorkflowError and fatal errors. Starts: startJob and
--                 createJob, with the branch of PublishWorkflowState for user tasks. Owners: OwnerID,
--                 OwnerName and evaluateOwners. Launch and Launches: launchProcess and
--                 LaunchWithParent. Steps: processProcessCompensate, processWorkflowEvents and
--                 processTracking.
--   Backoff       client/backoff.go: the delay of a retry, and the end of the retries.
--   Validation    common/validation/service_task.go: ValidateTaskSpec.
--   Linter        common/linter: the directed scan and the link rules.
--   Tests         a store in memory that keeps Documented, and the theorems at concrete inputs.
--
-- How they interact: Traversal opens an instance of a join and sends the branches; each branch comes
-- to Gateway, which counts it by Nats's optimistic update and completes through Server. Exchange uses
-- the same update. Consumer settles the message by what the handler returns. The end of a process in
-- Engine/Activities traverses through Traversal and ends the process instance through Instances; the
-- completion of a job in Engine/Jobs completes the activity through Server.
--
-- Concurrency: a handler is one step, except that the optimistic updates take a list of what the other
-- clients do to the bucket between a read and its write (Turn). In UpdateObj the first move of the list
-- falls between its own read and its save of the default, and the others between the reads and the
-- writes of the update loop, which has one round for each of these and a last one; Nats.Settles says
-- that these are enough. An UpdateObj that fails leaves the default that it saved (abandoned). The
-- scan of the linter is on fuel; Linter.Terminates says how much is enough. UserTasks and Instances
-- make their updates without a move of the others: what is said of a series of their calls is said of
-- calls that come one after another, and not of two that overlap.
--
-- Conventions: a Go map is an association list. The orders in which traverse ranges over the flows that
-- it takes are parameters (range_names and range_sent of Libraries), of which only that they go through
-- every flow once is used; elsewhere the order of the list stands for the order of `range`. A nil map
-- and an empty map are one value unless the code tells them apart; so a map that msgpack decodes from
-- nil is taken for an empty one, although a later write into it would panic. A nil pointer that is followed, an index out of range and a comparison of two slices are the
-- outcome `panic`. A text that fmt.Errorf adds to an error is left out, since errors.Is looks through
-- it; a failure of protobuf is library_error, and buckets hold decoded messages. A 64-bit integer that
-- may be negative is a bit pattern, and its arithmetic wraps at 2 ^ 64. A float is its bit pattern, and
-- what an array or a mapping holds is opaque.
--
-- Not modelled: logging, tracing, middleware and headers other than those that Process reads; the
-- cache in front of GetWorkflow; the case of UpdateObj where a key is there without a value, which is
-- saved again as it is; the clock moves only between handlers; natz, which opens the buckets, is a parameter. Of the engine, the start of
-- activities, timers, and the consumer and the messages of a compensation's plan are not modelled; nor
-- are the parser of BPMN, the API, the command line and the copy of the structs library.
-- In Instances, xDestroyProcessInstance loads the workflow only to log its name, which is left out; the
-- field `timer` of a state is left out.
mod Prelude
pub mod Tracking
pub mod Errors
pub mod Nats
pub mod Model
pub mod Server
pub mod Vars
pub mod Gateway
pub mod Exchange
pub mod Traversal
pub mod Task
pub mod Backoff
pub mod Consumer
pub mod Linter
pub mod Compensation
pub mod UserTasks
pub mod Instances
pub mod Engine
pub mod Validation
pub mod Tests
