-- ===== src/Lib.antt =====
-- sloff runs code generators whose inputs changed, and skips those whose outputs are known to be
-- current. This library models its core: the specs (internal/sloff/spec), the task graph
-- (internal/sloff/depgraph), the hashes that identify the inputs of a task (internal/sloff/hash),
-- the records of earlier runs and the cache in front of a storage backend
-- (internal/sloff/fingerprint), the expansion of patterns (internal/sloff/glob), and the run and the
-- check of a task (internal/sloff/runner).
--
-- A run validates the specs, turns their commands into tasks, orders these by the graph, asks the
-- storage for the records of all tasks at once, and runs each task: it hashes the inputs, looks the
-- record up under the hash, and executes the command only if the recorded outputs are not those of
-- the working tree. New records are queued and written at the end.
--
-- Which file models what:
--   Spec/Defs, Spec/Commands, Spec/References   spec.go and depends.go of internal/sloff/spec
--   Spec/Expand               ExpandDependPatterns of depends.go
--   Spec/Registry             registry.go of that package, and validate with its parts in spec.go
--   Spec/Paths                path.Clean and path.Join of Go's library, EscapesRoot of
--                             internal/sloff/glob/glob.go
--   Glob/Expander             the expansion of patterns in internal/sloff/glob/glob.go
--   Depgraph/Defs, Kahn, Heights, Build         internal/sloff/depgraph/depgraph.go: Build is `build`,
--                             its loop is Kahn.loop, downstreamHeights is Heights
--   Depgraph/Missing          FindMissingDependencies of that file
--   Hash, Hash/FileCache      hash.go and the composition of digests in filecache.go of
--                             internal/sloff/hash
--   Hash/FileCache/Memo       the memo of FileCache by stat data and its cache file, in filecache.go
--   Fingerprint/Defs, Canonical, Cached         record.go, storage.go and cached/cached.go of
--                             internal/sloff/fingerprint
--   Fingerprint/Bytes         Marshal and Unmarshal of record.go over the protobuf library
--   Fingerprint/Local         local/local.go of that package: Filename has the names of the files,
--                             Store has Load, Save and Delete, Listing the other operations
--   Fingerprint/Dynamo        dynamodb/keys.go and dynamodb/dynamodb.go: Keys, Chunks, and Store with
--                             all operations over the AWS client
--   Runner/Defs, Inputs       the types and the input surface in internal/sloff/runner/runner.go
--   Runner/Collect            collectTasks and detectOutputPatternConflicts of runner.go
--   Runner/Tools              tool_depends.go of that package, and reloadDeferredConsumers
--   Runner/Lookup             prefetchFingerprints, lookupRecord, fingerprintLookup, flushFingerprints
--   Runner/Task               runTask and what it calls
--   Runner/Schedule           runTasks, as a relation of steps
--   Runner/Produced           validateProducedDependencies and warnUnobservedDepends of runner.go
--   Runner/Check              checkTask and the verdicts in check.go
-- The modules named for what they prove (Order, Cycles, Coherence, and so on) hold the proofs, the
-- modules named Tests concrete runs.
--
-- Conventions. A string is the list of its bytes. A map is an association list, a set a list. An
-- error is a value of a data type with a constructor for each message. SHA-256, the matching of glob
-- patterns, the working tree, the child process, the resolvers, the protobuf and AWS libraries, the
-- calls of the operating system that fail, and, for the runner, the backends are parameters. A read of
-- the DynamoDB table gives some version that it may give, not always the latest: the reads are
-- eventually consistent. The backend behind the cache is an interface, Fingerprint.Cached.Coherence.Backend,
-- and Fingerprint/Local/Backend makes the local storage an instance of it.
--
-- Bounds. Kahn.loop runs on fuel, one unit for each task, since each round emits a task; the theorems
-- on the result of Build include that it emits all tasks unless it reports an error. Heights.visit
-- runs on fuel for one unit more than there are tasks, since the tasks on the stack of the walk
-- differ; the heights only order what is ready.
-- Dynamo.Store.load_batch and write_batch run on fuel for as many rounds as the batch has keys, which is
-- enough when each round leaves fewer keys than it was given, as the service documents.
--
-- Not modelled: the command line (cmd/sloff), tracing and timing, the rendering of graphs, the
-- parsing of YAML and protobuf, the resolvers, the preflight checks, the command providers, and the
-- choice of a backend, which all read from outside or print; of the runner, injectToolDepends and the
-- composition of the phases in Run and Check. Spans and log texts are left out; log lines of runTask
-- and the warnings of warnUnobservedDepends are values.
pub mod Prelude
pub mod Depgraph
pub mod Hash
pub mod Runner
pub mod Fingerprint
pub mod Spec
pub mod Glob
