-- ===== src/Lib.antt =====
-- A verification library for zarf-api, a REST server that stores Zarf packages and deploys them: its
-- store of packages and upload sessions, its job manager, its configuration and start-up, its calls
-- of Zarf, the HTTP handlers over these and their routes, and the tool that puts a schema into a
-- package.
--
-- The program. `internal/config/config.go` reads the configuration from the environment.
-- `internal/store/store.go` keeps each package as a tarball with a JSON sidecar in one directory,
-- and each chunked upload as a directory with a `session.json` and its chunks in another. All that
-- it knows is on the disk. `internal/jobs/jobs.go` keeps the jobs of deployments in memory, retains
-- a bounded number of them, and buffers their log lines. `internal/server/handlers` maps requests to
-- these and their errors to HTTP statuses. `internal/zarfz` calls Zarf's own packager, in the
-- goroutine of a job. `cmd/zarf-api/main.go` puts these together. `tools/addschema` rewrites a
-- package's archive.
--
-- Files and what they model.
--   Prelude: the types and lemmas that all share; numbers are native, a text is the list of its
--     bytes, a Go map is an association list, in the order in which it is iterated.
--   Os: the operating system as the store sees it. A `World` is a disk (a map from paths to nodes),
--     a list of faults to come, a clock, random bytes and the names that temporary files may get.
--     Every system call meets the next fault of the list: it works (`fine`), is refused, or is torn,
--     which a write or copy is in its middle. No entry left means that calls work. `Io` passes the
--     world on and stops at the first error; `attempt` gives the error back and `finally` is
--     `defer`. Os/Paths is `filepath.Join`, Os/Files the calls, Os/Calm what they do when none of
--     them fails, and Os/Dirs what `os.MkdirAll` makes.
--   Regex: Go's patterns as derivatives, and in Regex/Meaning that matching is membership.
--   Records, Store, Store/Import, Store/Uploads: `internal/store/store.go`, one definition per
--     method (`finalizeImport` is `finalize_import` with `describe`, `place` and `install` in it,
--     and `PutChunk` is `put_chunk` with `place_chunk` before the lock and `record_chunk` under it).
--     The other files of Store hold the proofs: Ids, Places and Sessions on names and paths,
--     Creating on `CreateUpload`, Packages on `Get`, `Path` and `Delete`, Listing on `List`,
--     Gathering on `ListUploads`, Counting on `CountUploads`, Importing, Finalizing, Landing and
--     Atomic on imports, Chunks and Pushing on `PutChunk`, Contiguous and Completing on
--     `CompleteUpload`, Aborting on `AbortUpload`, Failures on a system call that fails.
--     Store/Concurrent is `PutChunk` by several requests: a request is the phase that it has come
--     to, a schedule is the list of the requests that take a step, and every schedule is considered.
--     Store/Inventory is what the store promises, a map from ids to packages; `perform` is a call of
--     the store, `expect` what the map makes of it. Its children hold the proofs: Accepting and
--     Imports on imports, Shelves on what the disk holds, Calls on sequences of calls, Listing on
--     `List`. Store/Racing is imports by several requests, each in three steps that come in any
--     order, with Alone and Mixed on particular orders.
--   Jobs: `internal/jobs/jobs.go`. A `*Job` is an address into a heap. Jobs/Ids is `newID`;
--     Jobs/Evict, Validity and Retention treat the manager, Logs the buffer, Lifecycle the steps of
--     one job.
--   Config: `FromEnv`; `os.Getenv` and the working directory are arguments. Config/BasePath and
--     Config/Bounds say what it accepts.
--   Zarfz: `internal/zarfz/zarf.go`: the requests, `buildValues`, `buildOverrides`, `verifyStrategy`
--     and the JSON of a duration; Zarfz/Packaging is `Deploy`, `Remove`, `ListDeployed`,
--     `GetDeployed` and `Ping`, which record their calls of Zarf in order and get the replies of the
--     parameter `Packager`, and Zarfz/Definition is `GetDefinition`. Zarfz/Values and
--     Zarfz/Packaging/Asked and Calls hold the proofs.
--   Handlers: the package and upload handlers of `internal/server/handlers`; a response is a status
--     and what is encoded. Handlers/Deployments is the handlers of `deployments.go` that start a
--     job, Handlers/Cluster those that ask Zarf, with `packageDefinition`, Handlers/Running the two
--     goroutines that run a job, and Handlers/Jobs what `jobs.go` answers of jobs. Handlers/Serial
--     is several of these goroutines under `clusterMu`: each takes a step up to its first log line
--     and one to its end, in any order, and other requests may leave any other disk in between.
--     Handlers/Routes is `Register` and `meta.go`, Routes/Mux how a request fits a pattern, and
--     Routes/Serving net/http's mux as a parameter, `ServeMux`, with what its documentation promises
--     of well-formed patterns that do not compete and of clean paths without escapes, `IsServeMux`.
--     Handlers/Statuses, Going, Outcomes, Waiting and Accepting, and in Routes Distinct, Patterns,
--     Apart, Formed, Unique, Prefixed and Filled hold the proofs.
--   Server: `internal/server/server.go`, the mux with the request log around it, or none when
--     `Register` panics, with the proof in Server/Reached. Server/Packages puts the package
--     handlers, but for the definition of a package, on their routes and says what an inventory
--     answers to requests; Packages/Answered and Packages/Served hold the proof.
--   Startup: `run` of `cmd/zarf-api/main.go` up to the handler of the server, with the proof in
--     Startup/Dirs, and in Startup/Serving what it does from there, over the events that come to the
--     process.
--   Addschema: `tools/addschema/main.go` between the archive that it reads and the one that it
--     writes, with its reading in Addschema/Reading and the proofs in Addschema/Lines and
--     Addschema/Injected.
--   Examples, in these modules: runs of the code, and the theorems at concrete data.
--
-- What is abstracted. JSON of a sidecar or session is the record itself: a file holds bytes, a
-- package document or a session document, and a document that is not the expected one does not
-- decode. Zarf's archive loader, SHA-256, tar and zstd are the record `Zarf`, on which no result
-- assumes anything. An error keeps what `errors.Is` can see of it. A file stays open across no call,
-- so `Close` is part of the copy before it. File modes, contexts and the logger are left out. A
-- session id and a job id are drawn from the world's entropy or are arguments. Every operation runs
-- alone, but for `PutChunk` in Store/Concurrent, imports in Store/Racing and the jobs in
-- Handlers/Serial. What Zarf answers may depend on the disk, but Zarf does not write to the store's
-- directories. What it hands out, such as a loaded package, is a number; a YAML document is the map
-- of its top-level keys.
--
-- Every loop is structural recursion on the list that the code ranges over, the eviction loop on the
-- order of the jobs, and a schedule on its list; there is no fuel.
--
-- Not modelled: the timeouts of the HTTP server, what a request does that is under way at a
-- shutdown, what net/http's mux does with patterns and paths beyond the laws of `IsServeMux`, the
-- formats of tar and zstd, the writing of the schema tool's archive, the user interface and the
-- charts.
pub mod Prelude
pub mod Records
pub mod Os
pub mod Regex
pub mod Store
pub mod Jobs
pub mod Config
pub mod Handlers
pub mod Addschema
pub mod Server
pub mod Startup
pub mod Zarfz
