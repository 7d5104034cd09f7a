-- ===== src/Lib.antt =====
-- The verification library of gpuid, a Kubernetes controller that reads the serials of GPUs from
-- the device plugin pods, labels the nodes with them, and exports them.
--
-- The parts of the program and how they interact. A worker takes a pod from the work queue
-- (pkg/runner/worker.go, `do`), and processPod drives the rest: the pod has to be ready and not
-- yet processed (pkg/runner/setter.go), its report is grouped into units (pkg/gpu/gpu.go), the
-- labels are calculated and patched (pkg/node/label.go), the provider of the node is read
-- (pkg/node/node.go), and the readings (pkg/gpu/types.go) go to a backend (pkg/runner/export.go).
-- The configuration (pkg/runner/option.go) is read once. Run (pkg/runner/service.go) loads it,
-- makes the exporter and the client, and runs the controller, as a leader if it is asked to; the
-- controller's informer puts the keys of ready pods on the queue of the workers.
--
-- The files.
--   Base        Go's maps, strings, sorts and integers; the lemmas that the parts share
--   Gpu         Reading: SerialNumberReading and its Validate and Slice; Serials: Serials and what
--               is read of a GPU; Xml: how encoding/xml fills a struct; Smi: the structs of
--               smi.go, a file for each part of the report; Query: execShell, parseSMIDevice and
--               the first part of GetSerialNumbers; Grouping: the rest of it, with Laws, Listed, Keys
--   Node        Sanitize: sanitizeLabelValue; Labels: calculateGPULabels, with Reports: the labels
--               as a function of the set of reported GPUs; Update: needsLabelUpdate,
--               attemptLabelUpdate, EnsureLabels, with Labeler; Provider: Get, parseNodeInfo,
--               GetNodeProviderID
--   Runner      Config: Command, Validate, the options and the environment; Seen: uidSet,
--               with History and Ages; Pod: podReady; Export: Exporter.Export and GetExporter,
--               with Stored: Export on the postgres exporter; Worker: processPod and do, with Delivered: processPod on the
--               API server and the backend, Rows: processPod and do on the postgres exporter,
--               Loop/Queue: do on its queue, Counters: the two metrics, and in Concurrent the
--               workers interleaved; Client: buildRestConfig; Service: in Controller
--               runController, in Election runWithLeaderElection, in Run Run and Init
--   Exporters   Postgres: its configuration and the transaction of Write, with Atomic, and in
--               Connection New, the connection string and the schema; Http and S3: their
--               configuration, Write, the keys and the upload; Stdout: Write and Health
--   Counter     New and Increment of pkg/counter/counter.go
--   Smifaker    cmd/smifaker/main.go
--   Logger      NewProductionLogger of pkg/logger/log.go; Attributes: ReplaceAttr, SetDefault
--               and the logger for tests
--   Server      the options and the routes of pkg/server/server.go; Serving: Serve and its
--               goroutine
--   Examples    the theorems on concrete inputs, and tests
--
-- How state is modelled. A call that leaves the process takes and returns a world W that nothing
-- is known of but what a record of laws says. The state of the runner is the set of processed
-- pods, the two counters, as lists of the label values they were incremented with, and the world.
-- A pod's timeout is any failure of a call. Go ranges over a map in an order of its own choice:
-- the order is an argument (Iteration), any rearrangement of the entries. A text is the list of
-- its code points.
--
-- Concurrency. processPod is a function on the state of one worker. In Worker/Concurrent the
-- workers and the sweeper share the set: a step for each access to it, for the export, and for
-- Get and Done of the queue, in any order; Worker/Concurrent/Refines and Runs relate the
-- two models, with the times at which processPod marks a pod from Worker/Timed.
-- In Service/Election the steps are those of the leader elector, of the goroutine that runs the
-- controller, and of runWithLeaderElection; Service/Run/Lease takes its result into Run. In
-- Server/Serving they are those of Serve, its goroutine, and the requests.
--
-- Parameters with laws. Updater and IsApiServer: reads answer with the labels, a patch that
-- succeeds is a strategic merge, one that fails may have been applied; nobody else writes
-- meanwhile. Backoff: wait.ExponentialBackoff checks its condition at most Steps times, at least
-- once if Steps is not 0, and all Steps times while the delay stays below Cap. Database and
-- IsTransactional: what a transaction buffers is stored by a commit that succeeds and dropped by a
-- rollback; a commit that fails may have been applied. Counted, of the exporter in Run and of the
-- databases in New: only Close, and Open, change the number. The work queue hands out no key again
-- before its Done, and a UID belongs to one key. The leader elector ends only if its context is
-- canceled or a lease that it held is lost. Drains: after ShutDownWithDrain a Get takes a key from
-- those that wait, and no call adds one. LeavesLabels: only the patches change labels; Exports:
-- only the exporter changes its table. IsPrometheus: a vector of a new name is registered, and an
-- increment with as many values as labels adds one. IsOs: what Open, Copy and Close do to the
-- standard output and to the number of open files. IsClock: no call goes back in time. IsServeMux:
-- a plain pattern is registered, and a clean path is answered by its pattern or by "/". Float32,
-- Parsers, the executor, the XML reader and the clients of http and S3 have no laws.
--
-- Bounds and fuel. A UID is kept for 30 minutes of nanoseconds, and EnsureLabels asks for 5
-- attempts, as in the code. The printing of a number takes fuel, one more than the number, and that
-- the print is right with it is a lemma of Base/Decimal. The loop of do takes fuel for its rounds,
-- and one more than the keys that wait is enough on a queue that drains. All other loops are
-- structural.
--
-- Not modelled. The XML reader, the exec stream, the handlers of the loggers, the handler of the
-- metrics, the informer, the lease lock and the signals, and the main of gpuid, which exits with
-- Run: calls of libraries with no logic that can be stated without them. Log output is left out, but
-- for the lines of the stdout exporter.
pub mod Base
pub mod Gpu
pub mod Node
pub mod Runner
pub mod Exporters
pub mod Logger
pub mod Server
pub mod Counter
pub mod Smifaker
pub mod Examples
