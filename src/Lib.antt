-- ===== src/Lib.antt =====
-- Oikos is the daemon of a game-server node: it creates, starts, stops and heals servers in
-- containers, opens tunnels for their ports through frp, reports to a Panel, and updates its own
-- binary. This library models its core and states what makes it correct.
--
-- Common holds what the parts share: names of the libraries, Booleans and lists over native
-- numbers (Common/Tests, Common/Lists), texts and dictionaries (Common/Text), int64 with its
-- wrap-around (Common/Int), code with state and errors as `Exec S E A` with `do` blocks
-- (Common/Exec), triples over it (Common/Triples), invariants kept by it (Common/Keeps), a disk
-- whose system calls may fail (Common/Disk), powers of two (Common/Powers), strings.Fields
-- (Common/Fields), the order of texts (Common/Sort), paths with the functions of path/filepath
-- (Common/Paths), and a tree of files and directories with the system calls on it, each of which
-- may fail (Common/Tree).
--
-- Store models internal/store/models.go and internal/store/sqlite.go: rows as records, a statement
-- as a function on the tables that fails with io where the list `faults` says so, and with
-- constraint where a key or a reference is violated. SQLite is no part of the model; the text of
-- each statement is. Store/Servers, Store/Limits, Store/Tunnels, Store/Plugins, Store/Events,
-- Store/Nodes, Store/Networks, Store/Backups and Store/Credentials follow the tables, named as the
-- Go methods are in snake case; Store/Transactions is the one transaction, and Store/Statements
-- has rules for proofs about statements. Migrations are SQL text and are not modelled.
--
-- Runtime is the contract of internal/runtime/runtime.go as a record of operations, and
-- Runtime/Fake its implementation in internal/runtime/fake.go. The Docker engine only calls a
-- library.
--
-- Tunnel models internal/tunnel: the contract of a manager (manager.go), the frpc configuration
-- (Tunnel/Config, config.go) with a parameter for the TOML encoder, the allocator
-- (Tunnel/Allocator, allocator.go) over a gRPC client that is a parameter, the frpc process
-- (Tunnel/Process, process.go), and the frp manager (Tunnel/Frp, frp.go), whose methods hold a
-- mutex and so are single steps on the pair of the shared state (database and bus) and its own.
-- Tunnel/Backoff is the wait of Watch. Tunnel/Mesh is the manager of network groups (mesh.go) over
-- the store, and Tunnel/Selfheal the loop that reloads frpc (selfheal.go), over any manager and
-- context; its fuel counts rounds, and six are enough. Watch, Reload and Close are not modelled.
-- Tunnel/Frp/Again and Tunnel/Frp/Servers are about its methods. Tunnel/Contract is what the
-- orchestrator relies on.
--
-- Orchestrator models internal/orchestrator: the event bus (EventBus, eventbus.go), with a channel
-- as a number and the list of waiting events; the lifecycle (Lifecycle, lifecycle.go), over any
-- engine, tunnel manager and port provider in the record Parts; the crash observer (CrashObserver,
-- crash_observer.go), by ticks; the restart policy (RestartPolicy, restart_policy.go); the
-- self-healer (SelfHealer, selfheal.go), by runs of its handler that do not overlap; and the event
-- recorder (EventRecorder, eventrecorder.go), as its loop over received events. Reads of the
-- clock, random ids and the end of a context are arguments. A loop of the source is recursion on
-- the list it runs over; NextBackoff recurses on the rounds that are left, so no fuel is needed
-- there.
--
-- Filesystem models internal/filesystem/manager.go on the tree of files: a path is the list of its
-- components, symbolic links are nodes of the tree, and the name of a temporary file is an
-- argument. The system calls of the tree take a path as it is written, and Filesystem/Links is
-- about where the kernel's lookup of an accepted path arrives, with the links followed. A path is
-- resolved and then used without another step between; that a link is put there in between is not
-- modelled, nor are links above the data directory.
--
-- Backup models internal/backup on the database and the same tree: archives (Backup/Archive,
-- archive.go and restore.go) as what the tar reader gives and the writers make, which are
-- parameters with SHA-256, and the manager (Backup/Manager, manager.go). An archive that is not
-- finished is blank.
--
-- Api/Filesystem models the file service of internal/api/filesystem.go, with the handler of an
-- upload and the goroutine that writes as two processes that meet at each read of the pipe;
-- Download is left out.
--
-- Observability/Health models internal/observability/health.go, with the probes as functions on a
-- state.
--
-- Agent/Backoff models ComputeBackoff of internal/agent/client.go; Resource the record of
-- internal/resource/limiter.go.
--
-- Update models internal/update: the verification of a release (Update/Verify, release.go), the
-- slots with their manifest and links (Update/Slots, slots.go), Check, Apply and Rollback
-- (Update/Manager, manager.go), the versions that may be removed (Update/Retention, retention.go)
-- and the handoff (Update/Handoff, handoff.go). Names are relative to the root of the slots;
-- filepath, regexp, sha256, json, net/http, the callbacks and the names that os.CreateTemp chooses
-- are the fields of Setup.
--
-- Plugin models parts of internal/plugin: the validation of manifests and capabilities
-- (Plugin/Manifest, manifest.go), the routes of the proxy (Plugin/Routes, proxy.go), DispatchEvent
-- of registry.go (Plugin/Dispatch), one dispatch after the other, and StartAll and StopAll of
-- registry.go (Plugin/Startup). The functions of strings and regexp, and the processes of the
-- plugins, are parameters.
--
-- Not modelled, and why: the agent's connection and pairing, security and the command line are
-- calls of libraries; the plugin host and the loading of the registry, SFTP, the other services of
-- the API, metrics and logging are left for an extension of this library; gen/ is generated.
-- Examples holds runs on concrete inputs.
pub mod Common
pub mod Observability
pub mod Filesystem
pub mod Api
pub mod Backup
pub mod Orchestrator
pub mod Agent
pub mod Store
pub mod Resource
pub mod Tunnel
pub mod Examples
pub mod Update
pub mod Plugin
pub mod Runtime
