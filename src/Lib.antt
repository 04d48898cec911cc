-- ===== src/Lib.antt =====
-- zeropod: the containerd shim that scales containers to zero, the activator that holds their ports
-- meanwhile, and the manager that migrates them between nodes.
--
-- The program. A container runs under a shim. When no connection was active for a while, the shim
-- checkpoints the container with CRIU, or kills it, and an activator takes its ports over; the next
-- connection makes the activator call back into the shim, which restores the process and gives the
-- ports back. The annotations of the pod configure all of it. On each node a manager follows the
-- shims' events, evicts a pod whose restore the node has no room for, and moves checkpoints between
-- nodes: the node that a pod leaves and the one that it comes to meet in a Migration object of the
-- Kubernetes API, which the first creates, the second claims, and both update.
--
-- The files, and the code that each models:
--   Base           Go strings as lists of bytes, results, int64, lists (no file of the repository)
--   Config         api/shim/v1/config.go: `new_config` is NewConfig; Config/Strconv has the parsers
--                  of strconv that it calls, Config/PortMap and Config/DryRun prove things of it
--   Activator      activator/interface.go (`Interface`), activator/activator.go (`Server`), and the wakes
--                  and resets of activator/reuse (`Reuse`)
--   Shim/Types     the state `Container` of shim/container.go
--   Shim/Phase     setPhase, setPhaseNotify, the events, Status, GetMetrics, the checkpointed pids
--   Shim/Timers    the scale-down and init timers, initRetry, lastActivity
--   Shim/ScaleDown scaleDown, kill and checkpoint of shim/checkpoint.go
--   Shim/Check     scaleDownCheck and reloadConfig
--   Shim/Restore   Restore and restore of shim/restore.go, shim/restore_capacity.go, restoreHandler
--   Shim/DryRun    shim/dryrun.go
--   Shim/Init      Register, initActivator, getListeners, startActivator, Stop, ExitOK
--   Shim/Evac      Evac and the drain of connections of shim/evac.go
--   Shim/Task      the wrapper of shim/task/service_zeropod.go and its table of containers
--   Shim/Migration MigrationRestore and FinishRestore of shim/restore.go
--   Shim/Lifecycle the steps of a registered container (`Step`), its invariant, late exits
--   Api            the migrations of api/runtime/v1/types.go, and pods and nodes as they are read
--   Kube           the client of the Kubernetes API and client-go's retries, as the record `Kube`
--   Manager/Scaler, /Taints, /Trackers
--                  manager/pod_scaler.go and manager/capacity
--   Manager/Node   manager/node/service.go: `Capacity` is RestoreCapacity and evictPod, `Updates` the
--                  changes of a migration, `Service` the calls on migrations, `Restore` and `Evac`
--                  the two sides of a migration, `Race` the nodes that compete for one
--   Manager/PodController, /MigrationController, /Subscriber, /Events
--                  manager/pod_controller.go, manager/migration_controller.go, manager/status.go,
--                  manager/event_creator.go
--   Tests          concrete inputs for the theorems
--
-- The state. A method that changes its receiver takes the record and returns the new one beside its
-- result, also after an error: what was written before the failure stays. A container that embeds a
-- runc container is known by that container's pid, and a nil pointer there is `none`; a Go panic is
-- the error `nil_pointer`. The operations of the shim take the activator as the record `Activator`
-- of operations and laws, which Activator/Server/Redirects fills with the eBPF implementation.
--
-- What the model asks of its surroundings is passed in as records: `Env` (durations, the
-- architecture, the file shim.json and its decoding), `Clock`, `Calls` and `Attempt` (containerd,
-- runc, CRIU and the file system), `RestoreCalls` and `EvacCalls` (the node service), `InitCalls`
-- (the listening ports), `Kernel` (eBPF maps and ports), `Json` (encoding/json), `Kube` (the API),
-- `Images` and `ImageStore` (checkpoints on disk and their transfer), `Finalizers`, `EventCreator`. No
-- law is assumed of them but where a theorem says so: `KubeLaws`, `KeepsSpec` and `OptimisticLock` state what the API
-- and the retries document, and Tests/Clusters has a cluster that satisfies them.
--
-- Times and durations are integers of nanoseconds; additions and differences of durations wrap as an
-- int64 does, or saturate as time.Time.Sub does. Ports, pids and counters are natural numbers. No
-- definition runs on fuel: each loop is a recursion on the list that the code ranges over.
--
-- Not modelled: the mutexes (each method is one step, as under the lock), logging, the copy of
-- containerd's log redirection in shim/io, the accepting and proxying of connections, generated code,
-- the sockets and eBPF objects of activator/reuse, the transfer of images and of memory pages, the
-- metrics of the manager, the installer.
pub mod Base
pub mod Api
pub mod Kube
pub mod Config
pub mod Activator
pub mod Shim
pub mod Manager
pub mod Tests
