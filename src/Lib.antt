-- ===== src/Lib.antt =====
-- A model of mistry, a build server that caches the artifacts of builds, and of its client.
--
-- The server (cmd/mistryd) takes jobs over HTTP, names each by a digest of its project, group,
-- parameters and sources (job.go: NewJob), and builds it in a container (worker.go: Work) between
-- two directories of the project: pending/<id> while it runs and ready/<id> once it is done. A job
-- whose like is in the queue (job_queue.go) waits for it; one whose ready directory is there is
-- answered from it. A successful build becomes the target of the link `latest` of its project or
-- group, from which later builds of the group start.
--
-- The files of this development and the code that they model:
-- - Base and its children: the shared names; lists, Go maps, strings (as lists of bytes) and
--   integers.
-- - Types: pkg/types, and Go's errors. An error keeps its text and whether os.IsNotExist
--   recognises it.
-- - Paths: absolute clean paths as lists of pieces, filepath.Join, and the constants of
--   cmd/mistryd/main.go.
-- - Files: the file system as the standard library shows it, one node for each path. A link is
--   followed at the last piece and once. A file holds bytes, or the value whose JSON text it is.
-- - System: a run. `Env` holds what is not part of the program: for each call whether it fails,
--   what docker and the commands answer, the clock, the digest and the bytes of a tar archive, with
--   the modes and the times that the files have at each moment.
--   Every theorem holds for every such environment unless it says `Quiet`, where no call fails.
--   The adapters of pkg/filesystem are here too.
-- - Utils: pkg/utils.
-- - Job: cmd/mistryd/job.go without the parts that run docker. Job/Json: a job's JSON, whose date is
--   the seconds that its text shows.
-- - JobQueue: cmd/mistryd/job_queue.go.
-- - ProjectQueue: cmd/mistryd/project_queue.go as a step relation of goroutines, a statement at a
--   time.
-- - Docker: BuildImage and StartContainer of cmd/mistryd/job.go. A `defer` is `deferred`.
-- - Worker: the body of `Work` of cmd/mistryd/worker.go for a job that does not coalesce; what comes
--   before its container is in Worker/Bootstrap, and the run of the container in Worker/Running. Its
--   deferred functions are `deferred` or a function of the outcome (record_outcome, publish), in the
--   order in which Go runs them.
-- - Work: `Work` as a whole, with coalescing. The ticks of the timer are a list, each with the
--   files as other goroutines have left them; the loop recurs on that list.
-- - Builders: the workers as they share the queue of Work, as a step relation.
-- - WorkerPool: cmd/mistryd/worker_pool.go as a step relation of the senders, the workers and Stop.
--   A result channel is the number of channels made before it.
-- - Client: cmd/mistry. Its calls of the system and of the server are the record `Outside`; an error
--   keeps the values that its text shows.
-- - Tailer: pkg/tailer. What the file holds at each turn of the loop of Read is a list.
-- - Broker: the event loop of pkg/broker/broker.go, one function for each channel; the loop
--   recurs on the list of what arrives (listen_for_clients).
-- - Index: getProjects, getJobs and PruneZombieBuilds of cmd/mistryd/server.go. Index/Shown
--   and Index/Projects say in terms of the files what the first two return.
-- - Rebuild: RebuildImages and dockerPruneUnused of cmd/mistryd/server.go.
-- - Command: cmd/mistryd/main.go and the registry of pkg/filesystem: the start of the server
--   (NewServer) and the command `rebuild`.
-- - Metrics: cmd/mistryd/metrics/metrics.go; a write to a collector is a value, and the calls that a
--   run of Work records give the writes.
-- - Server: HandleNewJob of cmd/mistryd/server.go over the pool, and its answers.
-- - Server/Pages: HandleIndex and HandleShowJob. Server/Push: HandleServerPush over the broker.
-- - Configuration: ParseConfig of cmd/mistryd/config.go. Where it doubles a number, an `int` has 64
--   bits and wraps around (Base/Int); other counts are not bounded.
--
-- No fuel is used: every loop of the modelled code runs over a list; the digits of a number, which
-- recur on one more than the number, never run out. A run of `Work` is sequential but for the files
-- that change at the ticks of a coalescing job. Not modelled: the headers of HTTP, the routes, the
-- static files, what a collector does with a write, the declaration of flags, log messages, and file
-- modes. A container writes its files, below the data directory of its build, at the moment when it
-- starts.
pub mod Base
pub mod Types
pub mod Paths
pub mod Files
pub mod System
pub mod Utils
pub mod Job
pub mod JobQueue
pub mod ProjectQueue
pub mod Docker
pub mod Worker
pub mod Work
pub mod Builders
pub mod WorkerPool
pub mod Client
pub mod Tailer
pub mod Broker
pub mod Index
pub mod Rebuild
pub mod Command
pub mod Metrics
pub mod Server
pub mod Configuration
mod Fixture
mod WorkerTests
mod CacheTests
mod PoolTests
mod ClientTests
mod BrokerTests
mod IndexTests
mod RebuildTests
mod ServerTests
mod ConfigurationTests
mod ProjectQueueTests
mod PagesTests
mod BuildersTests
mod MetricsTests
mod TailerTests
