-- ===== src/Lib.antt =====
-- Workflows of temporalio/samples-python, as state machines between their awaits.
--
-- The repository is a set of programs on the Temporal SDK. Those modelled here keep state of their
-- own: workflows that take signals and updates while they wait for activities or children, and a
-- storage driver that concurrent calls share. A workflow's coroutines run one at a time and switch
-- only at an `await`, so each workflow is a record of its fields, one function for each handler or
-- stretch of code from one `await` to the next, and a `step` over events: a message arrives, an
-- activity or a child answers or fails, a coroutine that may go on does so. Two things that happen
-- in one activation are two events, one after the other.
--
-- Base: the lists, dicts and texts of Python that the models share. A dict is an association
-- list in insertion order; a text is the list of its UTF-8 bytes.
-- Cluster: message_passing/safe_message_handlers/workflow.py. ClusterManagerWorkflow with its
-- lock: starting and shutting down the cluster, assigning and deleting jobs with the lock taken
-- or waited for, health checks and continuing as new. Its children state the invariant of the
-- node map, what assignments and deletions do, and the moves of a node in one turn. The answer of
-- start_cluster is an event too: in a run that continues another, handlers may run before it.
-- Pool: resource_pool/pool_client and resource_pool/shared.py. ResourcePoolWorkflow hands
-- resources to waiting workflows; Pool/User is the client side.
-- Window: batch_sliding_window. SlidingWindowWorkflow with its record loader, and, in
-- Window/Batch, the workflow that divides the records among windows. Chain in Window/Result is a
-- window over the runs that continue as new; Window/Pages says which records a run starts.
-- Chat: bedrock/entity/workflows.py. EntityBedrockWorkflow; Chat/Chain is a chat over
-- the runs that continue as new. Signals may be handled before a run begins.
-- Dsl: dsl/workflow.py. A program under way is a tree of what waits and what comes after it; an
-- activity that fails ends the run in Dsl/Outcome.
-- Compensation: message_passing/waiting_for_handlers_and_compensation/workflows.py. The run and its
-- update handlers, which race against its exit.
-- Waiting: message_passing/waiting_for_handlers/workflows.py. WaitingForHandlersWorkflow.
-- Streams: workflow_streams. TickerWorkflow, PipelineWorkflow and run_reconnecting_subscriber.py;
-- Streams/Log is the interface of the SDK's stream.
-- Timer: updatable_timer/updatable_timer_lib.py. The sleep of UpdatableTimer.
-- Greeting: message_passing/introduction/workflows.py. GreetingWorkflow and the lock of its update.
-- Inactivity: bedrock/signals_and_queries/workflows.py. SignalQueryBedrockWorkflow.
-- Codec: external_storage/handler.py, codec.py and codec_server.py. The routes over an interface of
-- the storage and of codecs in Codec/Storage, and the dispatch and CORS in Codec/Server.
-- Versioning: worker_versioning/workflows.py. The four versions of two workflows.
-- Context: context_propagation/interceptor.py and shared.py. The interceptors, and in Context/Reach
-- the tree of work that a call leads to.
-- Cart: message_passing/update_with_start/lazy_initialization. ShoppingCartWorkflow, its activity and
-- its client.
-- Trace: langfuse_tracing/verify_trace.py. The tree of a trace's observations, its checks and polls.
-- Redis: external_storage_redis/_driver.py and redis_asyncio.py. The keys of RedisStorageDriver
-- and the storing and retrieving of one payload, in any order with other calls and expiries; of many
-- in Redis/Gather.
--
-- Parameters, with what is assumed of them stated where it is used: the answers of activities and
-- of the model, SHA-256 and the serialisation of payloads; the SDK's codecs, external storage and
-- streams are interfaces with laws. Loops are structural recursion on lists,
-- statements or a count; only walk_all of Trace uses fuel, one more than there are observations,
-- which is enough where their ids are distinct (Trace/Descent). Counts, sizes, offsets and ids are
-- natural numbers, without a bound, as Python's integers have none. Where the source does something
-- of its own with a negative number, as Cluster with a number of nodes, it is an integer; elsewhere
-- the inputs are the natural ones, though a caller may pass negative ones to the source: partitions
-- and sizes in Window, quantities in Cart, counts in Streams.
--
-- Not modelled: the SDK itself (history, replay, timeouts and retries of activities), logging,
-- metrics and queries that only return a field; the samples without state of their own, which are
-- single calls of the SDK, of agent libraries or of remote services.
pub mod Base
pub mod Cluster
pub mod Pool
pub mod Waiting
pub mod Window
pub mod Redis
pub mod Chat
pub mod Dsl
pub mod Compensation
pub mod Streams
pub mod Timer
pub mod Greeting
pub mod Inactivity
pub mod Codec
pub mod Versioning
pub mod Cart
pub mod Context
pub mod Trace
