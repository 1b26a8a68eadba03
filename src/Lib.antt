-- ===== src/Lib.antt =====
-- dify-plugin-daemon runs the plugins of Dify: it installs them, starts them as local processes, as
-- remote connections or on a serverless platform, passes requests to them and streams their answers
-- back, and lets them call Dify. These modules model seven of its parts.
--
-- Batch models internal/core/io_tunnel/model_serverless_batch.go: a text embedding request that is
-- too large for the serverless platform is cut into batches (splitTextRequest, Batch/Split.antt),
-- the batches are invoked one after another (processServerlessBatches, Batch/Run.antt), and their
-- answers are merged (coordinateTokenCountBatches, Batch/Run/Tokens.antt; mergeTextEmbeddingResult
-- and coordinateTextEmbeddingBatches, Batch/Run/Embedding.antt). The sizes of messages, the
-- invocation of a batch, the context, decimals and floats are arguments.
--
-- Stream models pkg/utils/stream/stream.go, the queue between a plugin and the reader of its answer.
-- Stream.antt has the methods, each as a function of the stream's fields; Stream/Machine.antt takes
-- the critical sections of the methods as steps of one machine, so that they interleave with the
-- goroutine that closes the stream. Blocked writers are those for which WriteBlocking gives `none`.
-- A callback is a number with the finitely many callbacks that it registers; the loop of close has as
-- fuel the number of all callbacks, which close-IsClosed shows to be enough. A callback that always
-- registers itself again, or that reads the stream, is not modelled.
--
-- Backwards models a plugin's call of Dify: InvokeDify, checkPermission and
-- dispatchDifyInvocationTask of internal/core/io_tunnel/backwards_invocation/task.go, with request.go
-- beside it (Backwards.antt, Backwards/RequestFields.antt), and the permissions of
-- pkg/entities/plugin_entities/plugin_declaration.go (Backwards/Permission.antt). JSON and the
-- validator are arguments. What a call writes and runs is the list of its outputs.
--
-- Curd models internal/types/models/curd/atomic.go: InstallPlugin, UninstallPlugin and UpgradePlugin
-- over the tables of internal/types/models (Curd/Database.antt), through the accesses and the
-- transactions of internal/db/executor.go (Curd/Access.antt). Any access may fail, as a list of
-- Booleans says; the cache keys that an operation drops are part of its report. `refers` and the
-- lengths are not bounded. One operation runs at a time. The upload of a package, which writes its
-- declaration before any installation (internal/core/plugin_manager/packages.go), is Curd/Upload.antt;
-- the rollback of an upload is not modelled. UpgradePlugin is shown to keep the tables well
-- formed between different identifiers: internal/server/controllers/plugins.go refuses equal ones.
--
-- Tasks models the tasks that follow an installation (internal/types/models/task.go): the request
-- InstallMultiplePluginsToTenant of internal/service/install_plugin.go (Tasks/Request.antt), which
-- creates the tasks with internal/service/install_plugin_utils.go (Tasks/Registry.antt) and starts
-- jobs; the jobs of internal/tasks/install_plugin.go, ProcessInstallJob (Tasks/Job.antt) and
-- ProcessUpgradeJob (Tasks/Upgrade.antt), which call the operations of Curd and write the tasks by
-- UpdateTaskStatus of internal/tasks/install_plugin_utils.go (Tasks.antt); and RecycleTasks,
-- markTasksAsTimeout and DeletePluginInstallationItemFromTask (Tasks/Recycle.antt). The accesses of a
-- job to the tables of Curd and to the tasks fail by one list. The plugin manager, the stream of its
-- answers, the declarations, the ids of new rows and the texts of errors are arguments. The
-- jobs of a request are part of its result; they run in goroutines, and a theorem is about one job
-- that runs alone.
--
-- Chunking models LengthPrefixedChunking of pkg/utils/parser/chunking.go, which cuts the output of a
-- plugin into messages, against an encoder of the format that its comment gives (Chunking/Frames.antt).
-- A reader is the bytes that it still gives and the error behind them; the processor is a function of
-- a state of the caller. The loop has as fuel one more than the number of bytes: each round but the
-- last takes 14 bytes or more.
--
-- Mapping models the counted map of pkg/utils/mapping/sync.go; Mapping/Spec.antt says what a caller
-- may rely on. Each method holds the lock, so that a run is a sequence of calls. The values are not of
-- an interface type, as in every map of the daemon, so that no assertion of a stored value fails.
--
-- Common has what the parts share: Boolean tests on numbers, and lists measured by them.
--
-- Not modelled: the cluster, the runtimes and their processes, the sessions, the manager, the
-- storage, the HTTP server and its other services, the packages and the commands, which do I/O or
-- call the parts above; the tasks of Dify themselves; LineBasedChunking, a loop over a scanner of the
-- standard library; metrics and logs, but for the batch results.
pub mod Common
pub mod Batch
pub mod Stream
pub mod Backwards
pub mod Curd
pub mod Chunking
pub mod Tasks
pub mod Mapping
