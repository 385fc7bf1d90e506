-- ===== src/Lib.antt =====
-- The driver upgrade library of pkg/upgrade: it upgrades a driver that runs as a daemon set's pods, one
-- node after another, and keeps the progress of each node in a label of the node.
--
-- The parts and how they interact. `BuildState` (StateManager/Build) reads the daemon sets, the driver
-- pods and their nodes and groups the nodes by their state label. `ApplyState` (StateManager/Apply)
-- takes that snapshot and a policy, computes how many upgrades may start (StateManager/Counts) and calls
-- one handler for each state (StateManager/Process). A handler changes labels and annotations through
-- the provider and calls the managers behind the interfaces of Interfaces. The drain manager and the pod
-- manager also start goroutines, which change the label of their node when they end.
--
--   Api              api/upgrade/v1alpha1/upgrade_spec.go, the policy
--   Consts           pkg/upgrade/consts.go and the keys of pkg/upgrade/util.go; Keys: which differ
--   StringSet        the set of pkg/upgrade/util.go
--   KeyedMutex       the mutexes of pkg/upgrade/util.go, and the goroutines that load, await and hold them
--   Interfaces       the interfaces of the managers, and in Contracts what the state manager relies on
--   StateManager     pkg/upgrade/upgrade_state.go: Nodes (what is read off a node and its pod), Counts,
--                    Process (the handlers), Apply, Build; Moves is the state machine of the labels;
--                    Transitions, Progress (with Whole, about ApplyState from its first handler to its
--                    last), Slots and Restarts are about the handlers
--   Provider         pkg/upgrade/node_upgrade_state_provider.go
--   Cordon, SafeDriverLoad, Validation, Drain, Pods
--                    the managers of the files of the same names; Timeout is what two of them share
--   Manager          the constructors of upgrade_state.go, the state manager with
--                    the real managers; Goroutines and Evictions are about the labels that goroutines
--                    write
--   Background       requests and ends of goroutines as steps, in any order
--   Execution        reconciles and ends of goroutines as the steps of an execution: what a step does to
--                    a label (Change), whole executions (Stages), and one upgrade of a node with its
--                    recovery from a failure (Advance)
--   Client           the client libraries (controller-runtime, client-go, kubectl's drain package,
--                    `wait`), which are not part of the repository: a record that the code takes as a
--                    parameter, with the laws that theorems ask for in Client/Laws
--   Kube             the fields of the Kubernetes objects that the code reads
--   Strconv          the two functions of Go's strconv that the timeouts use, int64 addition and
--                    durations
--   Act              Go code with errors: a state goes in, a result or an error comes out with the state
--                    that was left; rules for what all runs do (Follows), for what holds of results
--                    (Returns, Loops) and for what successful runs establish (Triple)
--   Tests            a small cluster in memory on which the code runs, and the theorems at it
--
-- State. The world is a parameter: the API server, the operator's cache and the clock, as the client
-- sees them. `System` adds what the drain manager and the pod manager keep: the set of nodes that are
-- being worked on, and the goroutines that have been started and have not run, as lists of tasks. A
-- method that gets a node pointer may reload the object behind it, so it acts on the object and the
-- world together (`Held`). A task runs as one action; tasks may run in any order. The goroutines for
-- which `ScheduleCheckOnPodCompletion` waits run when they are started, which is one of the schedules;
-- where the list of pods of a later node fails, Go returns while those goroutines may still run, and here
-- they have ended.
--
-- A reconcile is one step of an execution, and so is a goroutine. What happens between `BuildState` and
-- a handler of the same reconcile, or between the label that a goroutine writes and its deferred
-- `Remove`, is not modelled: a drain that ends there, so that the handler drains the node again, is none
-- of the executions. `Lock` of the keyed mutex is two steps.
--
-- Numbers. Counts are lengths of slices and stand on numbers; differences are integers. The int64
-- addition of the timeouts wraps around. `format_int` has fuel for twenty digits, and an int64 has at
-- most nineteen. Every other loop is structural. The timeout of a drain helper is the int64 product of
-- the seconds of the policy and a second, which wraps around.
--
-- A method of the provider holds the mutex of its node from beginning to end, and is one action.
--
-- Not modelled: logs and events, which nothing reads back; contexts and cancellation; generated deep
-- copies, mocks and tests. Maps are traversed in the order of insertion. A nil
-- `PodDeletionFilter` is a filter that keeps nothing: it is not called while the deletion of pods is
-- disabled. A nil `WaitForCompletionSpec` makes `ScheduleCheckOnPodCompletion` panic, which is an
-- error of its own here; the state manager never passes one. `WithPodDeletionEnabled` makes a new set of
-- the nodes in progress in Go, and here the pod manager keeps its own: options are set before anything is
-- in progress.
pub mod Prelude
pub mod Act
pub mod StringMap
pub mod Kube
pub mod Api
pub mod Consts
pub mod Interfaces
pub mod Strconv
pub mod Client
pub mod Provider
pub mod StateManager
pub mod StringSet
pub mod KeyedMutex
pub mod SafeDriverLoad
pub mod Cordon
pub mod Timeout
pub mod Validation
pub mod System
pub mod Drain
pub mod Pods
pub mod Manager
pub mod Background
pub mod Execution
mod Tests
