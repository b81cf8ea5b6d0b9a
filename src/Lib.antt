-- ===== src/Lib.antt =====
-- The Node Tuning Operator manages the TuneD daemon on the nodes of an OpenShift cluster. The operator
-- (pkg/operator) watches the cluster's nodes and pods and selects, by the rules in the Tuned
-- resources, a TuneD profile for each node. The operand (pkg/tuned) runs the daemon on a node and
-- reports in the conditions of a Profile how that went; the operator sums them up in the conditions of
-- its ClusterOperator. A PerformanceProfile is validated by a webhook.
--
-- The parts and their files:
-- - Base: equality tests, lists, maps as association lists, sorting, the order of strings. A map of Go
--   has no order; its association list stands for one order of iteration.
-- - Util: pkg/util/strings_map.go, strings_slice.go and kernel.go. A command line is a list of bytes,
--   and indices are numbers. The loop of SplitKernelArgumentsWithout runs on fuel, one more than there
--   are bytes, since each round moves the index on.
-- - Conditions: pkg/clusteroperator/status.go, and the same code in pkg/tuned/status.go.
-- - Operator: pkg/operator/profilecalculator.go, mc.go and status.go. Types holds the resources of
--   pkg/apis/tuned/v1, State the maps that the calculator keeps, Pods and Nodes its event handlers,
--   Match and Recommend the rules, Pools the MachineConfigPools of a node, Calculate the selection of
--   a profile, and Status the operator's status. MachineConfigs is the part of pkg/operator/controller.go
--   that writes the MachineConfigs with the kernel arguments and removes those that are not in use.
--   Hosted is syncHostedClusterTuneds of pkg/operator/hypershift.go. A handler takes the state and returns the new one,
--   with the values of the Go function. Where Go dereferences a nil pointer, the model returns none.
--   The closure recommendProfile and the loop over duplicates share the variable `err`, which is
--   passed along. The loop over duplicates runs on fuel, one more than the rules behind the first.
-- - Daemon: the operand. Status is pkg/tuned/status.go, the conditions that it writes. Builtin and
--   Includes are pkg/tuned/tuned_parser.go: the built-in functions in profile names, on bytes, and the
--   profiles that a profile depends on. The recursion of the built-ins runs on fuel, one more than there
--   are dollar signs, of which each inner text has fewer; that of the search runs on fuel that bounds its
--   depth, and one more than the included names is enough. The other files are pkg/tuned/controller.go
--   and run.go: Extract writes and removes profiles, and the provider's file; Control stops, reloads and
--   restarts the process; Syncer is changeSyncer; Queue the event processors; Log the lines of the
--   daemon's log; Report what is sent to the API server; Retry the loop round the control loop. A
--   directory is a map from names to entries, and what the file system, the process and the API server
--   answer is a parameter. A set of bits is a number. The package ini adds a key that is read and is
--   missing, with an empty value; how it reads a Boolean is a parameter.
-- - Performance: pkg/apis/performanceprofile/v2, the validation webhook, with the CPU lists of
--   pkg/performanceprofile/controller/performanceprofile/components/utils.go.
-- - Tests: the theorems at concrete inputs.
--
-- Parameters stand for what is not code of this repository: the answers of the listers and of the API
-- server, reflect.DeepEqual, the label selectors of apimachinery, the package cpuset, SetOperandVersion of library-go,
-- what fmt makes of its arguments, the environment and the clock.
--
-- Not modelled: logging but for the warnings on duplicates, metrics, the work queue and the event
-- dispatch of pkg/operator/controller.go, its DaemonSets, Profiles and the rest of its
-- HyperShift variants; of the operand,
-- names with a slash and the empty name of a profile, the timeouts of commands, the set-up of directories and clients,
-- the tunedStop that retryLoop defers, and the one-shot run; the PerformanceProfile controller, API conversion, the profile creator, and
-- generated and vendored code.
pub mod Base
pub mod Util
pub mod Conditions
pub mod Operator
pub mod Daemon
pub mod Performance
pub mod Tests
